-- ===== src/Jitter/Plc/Conceal.antt =====
-- pkg/rtp/jitter.go, GeneratePLC and OnGoodPacket: what a concealment frame holds.
use clear_stream.Prelude.{
  ℕ, suc, ◌+◌, ◌-◌, ◌*◌, ◌%◌, ◌≤◌, ◌<◌, ◌≡◌, inl, inr, ap, ◌∙◌, true, false, none, some, List, leb,
  length, drop, replicate, get_or, ℤ, pos, Float, arith, Bool-cases, Option-cases,
}
use clear_stream.Jitter.{JitterBuffer, reset}
use clear_stream.Jitter.Plc.{
  held_period, detect_pitch, or_else, conceal, conceal_from, generate_plc, on_good_packet,
}
use clear_stream.Jitter.Plc.Frames.{
  cycled, tail_from_lem, repeat_held_lem, length-cycled, get_or-cycled, get_or-drop,
  length-fade_source, paired, held_period_range, peak, RoundsDown, fade_total,
}

module _ {F : Type 0} ⦃fl : Float F⦄ where
  -- The last concealment frame, if there is one, is as long as the last good frame.
  abbrev pub IsPaired : JitterBuffer F → Type 0
  IsPaired j =
      (last prev : List ℤ)
      → j.last_good_frame ≡ some last
      → j.prev_plc ≡ some prev
      → length prev ≡ length last

  pub on_good_packet-IsPaired :
      (samples : List ℤ) (j : JitterBuffer F) → IsPaired (on_good_packet samples j)
  unfolding on_good_packet
  on_good_packet-IsPaired samples j last prev e h = cc

  pub reset-IsPaired : (j : JitterBuffer F) → IsPaired (reset j)
  unfolding reset
  reset-IsPaired j last prev e h = cc

  generate_plc-conceal :
      (j : JitterBuffer F) {last : List ℤ}
      → j.last_good_frame ≡ some last
      → generate_plc j ≡ conceal (record j { consecutive_loss = j.consecutive_loss + 1 }) last
  unfolding generate_plc
  generate_plc-conceal j e =
      ap (λ o. conceal_from o (record j { consecutive_loss = j.consecutive_loss + 1 })) e

  pub generate_plc_silent :
      (j : JitterBuffer F)
      → j.last_good_frame ≡ none
      → generate_plc j
        ≡ some (record j { consecutive_loss = j.consecutive_loss + 1 }, replicate 160 (pos 0))
  unfolding generate_plc
  generate_plc_silent j e =
      ap (λ o. conceal_from o (record j { consecutive_loss = j.consecutive_loss + 1 })) e

  -- The frame of one of the first two losses in a row.
  abbrev pub repeated : JitterBuffer F → List ℤ → List ℤ
  repeated j last =
      let held = held_period (detect_pitch fl last j.prev_pitch) (length last) in
      cycled (length last) 0 held (drop (length last - held) last)

  conceal_early :
      (j : JitterBuffer F) (last : List ℤ)
      → leb j.consecutive_loss 2 ≡ true
      → conceal j last
        ≡ some (
          record j {
            prev_pitch = detect_pitch fl last j.prev_pitch;
            prev_plc = some (repeated j last);
          },
          repeated j last,
        )
  unfolding conceal
  conceal_early j last h =
      let period = detect_pitch fl last j.prev_pitch in
      rw (h, tail_from_lem period last, repeat_held_lem period last)

  -- The first two losses after a good frame that is not empty repeat its last period: sample k of
  -- the concealment frame is the sample of the good frame at k, modulo the period, from the period's
  -- start. The period lies within the frame, the two frames have the same length, and the loss is
  -- counted.
  pub generate_plc_repeats :
      (j : JitterBuffer F) (last : List ℤ) (k : ℕ)
      → j.last_good_frame ≡ some last
      → j.consecutive_loss < 2
      → k < length last
      → let n = length last in
        let held = held_period (detect_pitch fl last j.prev_pitch) n in
        (j' : JitterBuffer F) × (r : List ℤ) × (generate_plc j ≡ some (j', r))
        × (length r ≡ n)
        × (get_or r k (pos 0) ≡ get_or last (n - held + k % held) (pos 0))
        × (0 < held)
        × (held ≤ n)
        × (j'.consecutive_loss ≡ suc j.consecutive_loss)
  generate_plc_repeats j last k e h lt =
      let n = length last in
      let period = detect_pitch fl last j.prev_pitch in
      let held = held_period period n in
      let within = held_period_range period n (omega arith) in
      (
        record j {
          consecutive_loss = j.consecutive_loss + 1;
          prev_pitch = period;
          prev_plc = some (repeated j last);
        },
        repeated j last,
        rw (generate_plc-conceal j e) (conceal_early _ last (ground arith)),
        length-cycled n 0 held (drop (n - held) last),
        get_or-cycled n 0 held (drop (n - held) last) k lt
            ∙ get_or-drop (n - held) last ((0 + k) % held)
            ∙ ap (λ m. get_or last (n - held + m % held) (pos 0)) (omega arith),
        within.0,
        within.1,
        omega arith,
      )

  fade_late :
      (j : JitterBuffer F) (last : List ℤ)
      → j.last_good_frame ≡ some last
      → 2 ≤ j.consecutive_loss
      → IsPaired j
      → (r : List ℤ) × (generate_plc j
          ≡ some (record j { consecutive_loss = j.consecutive_loss + 1; prev_plc = some r }, r))
        × (length r ≡ length last)
        × (RoundsDown fl
            → peak (or_else j.prev_plc last) ≤ 32768
            → 100 * peak r ≤ 85 * peak (or_else j.prev_plc last))
  unfolding conceal
  fade_late j last e h pair =
      let src = or_else j.prev_plc last in
      let len = length-fade_source j.prev_plc last (λ prev. pair last prev e) in
      let (r, made, n, quiet) = fade_total fl (length last) src (omega (arith, len)) in
      let late : leb (j.consecutive_loss + 1) 2 ≡ false = ground arith in
      (r, rw (generate_plc-conceal j e, late, made), n, quiet)

  -- From the third loss on, where the last concealment frame, if there is one, is as long as the
  -- good frame, the frame before is faded: the loop never writes past the end of the result, which
  -- is as long as the good frame. Where the samples of the frame before are int16, and the float
  -- product with 0.85 that is cut to an integer has at most 85 hundredths of such a sample's
  -- magnitude, the peak of the result is at most 85 hundredths of the peak of that frame.
  pub generate_plc_fades :
      (j : JitterBuffer F) (last : List ℤ)
      → j.last_good_frame ≡ some last
      → 2 ≤ j.consecutive_loss
      → IsPaired j
      → RoundsDown fl
      → peak (or_else j.prev_plc last) ≤ 32768
      → (r : List ℤ) × (generate_plc j
          ≡ some (record j { consecutive_loss = j.consecutive_loss + 1; prev_plc = some r }, r))
        × (length r ≡ length last)
        × (100 * peak r ≤ 85 * peak (or_else j.prev_plc last))
  generate_plc_fades j last e h pair down small =
      let (r, made, n, quiet) = fade_late j last e h pair in (r, made, n, quiet down small)

  -- Where the last concealment frame, if there is one, is as long as the last good frame,
  -- concealment panics at no slice, index, remainder or write, whatever the number of losses, and
  -- keeps that relation.
  pub generate_plc_total :
      (j : JitterBuffer F)
      → IsPaired j
      → (j' : JitterBuffer F) × (r : List ℤ) × (generate_plc j ≡ some (j', r)) × IsPaired j'
  generate_plc_total j pair = elim (Option-cases j.last_good_frame) [
    | inl e ↦ (
      record j { consecutive_loss = j.consecutive_loss + 1 },
      replicate 160 (pos 0),
      generate_plc_silent j e,
      pair,
    )
    | inr (last, e) ↦ elim (Bool-cases (leb (j.consecutive_loss + 1) 2)) [
      | inl early ↦
          let held = held_period (detect_pitch fl last j.prev_pitch) (length last) in
          (
            record j {
              consecutive_loss = j.consecutive_loss + 1;
              prev_pitch = detect_pitch fl last j.prev_pitch;
              prev_plc = some (repeated j last);
            },
            repeated j last,
            rw (generate_plc-conceal j e) (conceal_early _ last early),
            λ last' prev.
                paired j.last_good_frame last (repeated j last) last' prev e
                  (length-cycled (length last) 0 held (drop (length last - held) last)),
          )
      | inr late ↦
          let (r, made, n, _) = fade_late j last e (ground arith) pair in
          (
            record j { consecutive_loss = j.consecutive_loss + 1; prev_plc = some r },
            r,
            made,
            λ last' prev. paired j.last_good_frame last r last' prev e n,
          )
    ]
  ]
