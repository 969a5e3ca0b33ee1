-- ===== src/Examples/Jitter.antt =====
-- Concrete inputs for the theorems on pkg/rtp/jitter.go.
use clear_stream.Prelude.{
  ℕ, ◌≤◌, ◌==◌, ℤ, pos, List, [], ◌∷◌, ◌++◌, none, some, true, false, refl, ◌≡◌, arith,
  if◌then◌else◌,
}
use clear_stream.Examples.{thousandths}
use clear_stream.Jitter.{JitterEntry, JitterBuffer, has_seq, new_jitter_buffer, push, pop}
use clear_stream.Jitter.Bounds.{IsBounded, pushes, pops, run, run-IsBounded}
use clear_stream.Jitter.Insert.{find}
use clear_stream.Jitter.Pop.{IsOrdered}
use clear_stream.Jitter.Store.{entry}
use clear_stream.Jitter.Playout.{play, expected, span, play-expected}
use clear_stream.Jitter.Order.{InOrder, push-InOrder}
use clear_stream.Jitter.Push.{push_near}
use clear_stream.Jitter.HalfCircle.{push_half_circle}

run-IsBounded_example : IsBounded ⦃fl = thousandths⦄ (
    run ⦃fl = thousandths⦄
      (new_jitter_buffer ⦃fl = thousandths⦄ (pos 1))
      (pushes 0 65535 0 (7 ∷ []) ∷ pushes 20000000 0 160 (8 ∷ []) ∷ pops ∷ pops ∷ pops ∷ []))
run-IsBounded_example =
    run-IsBounded ⦃fl = thousandths⦄ (pos 1)
      (pushes 0 65535 0 (7 ∷ []) ∷ pushes 20000000 0 160 (8 ∷ []) ∷ pops ∷ pops ∷ pops ∷ [])

-- A primed buffer that waits for 65535, with the given entries.
abbrev waiting : List JitterEntry → JitterBuffer ℤ
waiting buf = record {
  buf = buf;
  next_seq = 65535;
  initial_depth = 4;
  depth = 4;
  max_depth = 32;
  primed = true;
  consecutive_loss = 0;
  last_good_frame = none;
  prev_plc = none;
  prev_pitch = 0;
  last_arrival = none;
  arrival_var_ms = pos 0;
  arrival_ema_ms = pos 0;
  adapt_frames = 0;
}

-- The numbers 65535 and 1 are there; 0 is not.
abbrev two_entries : List JitterEntry
two_entries = entry 0 65535 0 (7 ∷ []) ∷ entry 1 1 320 (9 ∷ []) ∷ []

two_entries-IsOrdered : IsOrdered 65535 (waiting two_entries)
two_entries-IsOrdered = record {
  range = omega arith;
  window = (omega arith, omega arith, omega arith, (omega arith, omega arith, omega arith, tt));
  next = λ p. refl;
}

three_left : 3 ≤ span 65535 two_entries
unfolding span
three_left = omega arith

play-expected_example :
    ((play ⦃fl = thousandths⦄ 3 (waiting two_entries)).1 ≡ expected 3 65535 two_entries)
    × ((play ⦃fl = thousandths⦄ (span 65535 two_entries) (waiting two_entries)).0.buf ≡ [])
play-expected_example =
    play-expected ⦃fl = thousandths⦄ 3 (waiting two_entries) refl two_entries-IsOrdered three_left

push-InOrder_example :
    InOrder ⦃fl = thousandths⦄ (push ⦃fl = thousandths⦄ 2 0 160 (8 ∷ []) (waiting two_entries)).0
push-InOrder_example =
    push-InOrder ⦃fl = thousandths⦄ 65535 2 0 160 (8 ∷ []) (waiting two_entries)
      two_entries-IsOrdered (omega arith) (omega arith) (omega arith) (λ p. omega arith)
      (λ p. ground arith)

zero_missing : has_seq 0 two_entries ≡ false
unfolding has_seq
zero_missing = refl

push_near_example :
    let j' = (push ⦃fl = thousandths⦄ 5 0 160 (8 ∷ []) (waiting two_entries)).0 in
    ((n : ℕ)
      → find n j'.buf ≡ (if 0 == n then some (entry 5 0 160 (8 ∷ [])) else find n two_entries))
    × (j'.next_seq ≡ 65535)
    × (j'.primed ≡ true)
    × IsOrdered 65535 j'
push_near_example =
    push_near ⦃fl = thousandths⦄ 5 0 160 (8 ∷ []) (waiting two_entries) refl two_entries-IsOrdered
      (omega arith) (omega arith) zero_missing (omega arith)

half_circle_missing : has_seq 32767 two_entries ≡ false
unfolding has_seq
half_circle_missing = refl

push_half_circle_example :
    let j' = (push ⦃fl = thousandths⦄ 5 32767 0 (8 ∷ []) (waiting two_entries)).0 in
    let popped = (pop ⦃fl = thousandths⦄ j').0 in
    (j'.buf ≡ two_entries ++ entry 5 32767 0 (8 ∷ []) ∷ [])
    × (j'.next_seq ≡ 65535)
    × ((play ⦃fl = thousandths⦄ 32768 popped).1 ≡ expected 32768 0 popped.buf)
    × ((play ⦃fl = thousandths⦄ 32768 popped).0.buf ≡ [])
push_half_circle_example =
    push_half_circle ⦃fl = thousandths⦄ 5 32767 0 (8 ∷ []) (waiting two_entries) refl
      two_entries-IsOrdered (omega arith) (omega arith) half_circle_missing (omega arith)
