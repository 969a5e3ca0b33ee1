-- ===== src/Examples/Plc.antt =====
-- Concrete inputs for the theorems on the concealment of pkg/rtp/jitter.go.
use clear_stream.Prelude.{
  ℕ, ◌*◌, ◌≤◌, ℤ, pos, negsuc, List, [], ◌∷◌, none, some, true, refl, ◌≡◌, arith, length,
}
use clear_stream.Examples.{thousandths}
use clear_stream.Jitter.{JitterBuffer}
use clear_stream.Jitter.Plc.{generate_plc}
use clear_stream.Jitter.Plc.Frames.{RoundsDown, peak}
use clear_stream.Jitter.Plc.Conceal.{IsPaired, generate_plc_fades}

abbrev three_samples : List ℤ
three_samples = pos 100 ∷ negsuc 49 ∷ pos 7 ∷ []

-- A buffer after so many losses in a row, behind a good frame of three samples.
abbrev after_losses : ℕ → JitterBuffer ℤ
after_losses lost = record {
  buf = [];
  next_seq = 9;
  initial_depth = 4;
  depth = 4;
  max_depth = 32;
  primed = true;
  consecutive_loss = lost;
  last_good_frame = some three_samples;
  prev_plc = none;
  prev_pitch = 0;
  last_arrival = none;
  arrival_var_ms = pos 0;
  arrival_ema_ms = pos 0;
  adapt_frames = 0;
}

after_losses-IsPaired : (lost : ℕ) → IsPaired ⦃fl = thousandths⦄ (after_losses lost)
after_losses-IsPaired lost last prev e h = ground (arith, h)

thousandths-RoundsDown : RoundsDown thousandths
thousandths-RoundsDown (pos n) small = ground arith
thousandths-RoundsDown (negsuc n) small = ground arith

generate_plc_fades_example :
    (r : List ℤ) × (generate_plc ⦃fl = thousandths⦄ (after_losses 2)
      ≡ some (record (after_losses 2) { consecutive_loss = 3; prev_plc = some r }, r))
    × (length r ≡ 3)
    × (100 * peak r ≤ 85 * peak three_samples)
generate_plc_fades_example =
    generate_plc_fades ⦃fl = thousandths⦄ (after_losses 2) three_samples refl (omega arith)
      (after_losses-IsPaired 2) thousandths-RoundsDown (omega arith)
