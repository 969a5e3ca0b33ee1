-- ===== src/Vad/Adaptive/Calibration.antt =====
-- pkg/audio/vad.go, AdaptiveVAD: the calibration, and what it decides.
use mathlib.Core.List.{append_assoc}
use clear_stream.Prelude.{
  ℕ, ◌+◌, ◌≡◌, refl, sym, ap, ◌∙◌, inl, inr, Bool, true, false, List, [], ◌∷◌, ◌++◌, map, length,
  replicate, if◌then◌else◌, leb_ℤ, ℤ, pos, Float, geb, Bool-cases, arith,
}
use clear_stream.Vad.{decide, is_speech, or_field, threshold, rms_energy}
use clear_stream.Vad.Adaptive.{
  AdaptiveVad, is_speech_adaptive, is_speech_counted, calibrate, compute_threshold, noise_floor,
  is_above_floor, with_decision,
}

module _ {F : Type 0} ⦃fl : Float F⦄ where
  -- The state after a stream of frames, and the decisions.
  unfoldable pub hears_adaptive : List (List ℤ) → AdaptiveVad F → AdaptiveVad F × List Bool
  hears_adaptive [] a = (a, [])
  hears_adaptive (frame ∷ frames) a =
      let (a', speech) = is_speech_adaptive frame a in
      let (a'', later) = hears_adaptive frames a' in (a'', speech ∷ later)

  -- The calibrated detector.
  abbrev pub IsCalibratedBy : AdaptiveVad F → List F → ℕ → AdaptiveVad F → Type 0
  IsCalibratedBy a window n a' =
      (a'.calibrated ≡ true)
      × (a'.rms_window ≡ window)
      × (a'.vad.threshold_rms ≡ compute_threshold window a)
      × (threshold a'.vad ≡ or_field a.vad.threshold_override (compute_threshold window a))
      × (a'.speech_frames ≡ a.speech_frames)
      × (a'.total_frames ≡ a.total_frames + n)

  -- What a frame before the last one of the calibration changes.
  abbrev taken : List ℤ → AdaptiveVad F → AdaptiveVad F
  taken frame a = record a {
    total_frames = a.total_frames + 1;
    rms_window = a.rms_window ++ rms_energy frame ∷ [];
    frame_count = a.frame_count + 1;
  }

  compute_threshold_same :
      (w : List F) (a b : AdaptiveVad F)
      → a.vad.threshold_rms ≡ b.vad.threshold_rms
      → a.sensitivity_factor ≡ b.sensitivity_factor
      → compute_threshold w a ≡ compute_threshold w b
  unfolding compute_threshold
  compute_threshold_same [] a b h k = h
  compute_threshold_same (x ∷ w) a b h k =
      ap
        (λ s.
          let t = fl.mul (noise_floor (x ∷ w)) s in
          if fl.lt t (fl.of_int (pos 100)) then fl.of_int (pos 100) else t)
        k

  takes :
      (a : AdaptiveVad F) (frame : List ℤ)
      → a.calibrated ≡ false
      → leb_ℤ a.calibration_frames (pos (a.frame_count + 1)) ≡ false
      → is_speech_adaptive frame a ≡ (taken frame a, false)
  unfolding is_speech_adaptive is_speech_counted calibrate
  takes a frame start before = simp (start, before) refl

  settles :
      (a : AdaptiveVad F) (frame : List ℤ)
      → a.calibrated ≡ false
      → leb_ℤ a.calibration_frames (pos (a.frame_count + 1)) ≡ true
      → let r = is_speech_adaptive frame a in
        (r.1 ≡ false) × IsCalibratedBy a (a.rms_window ++ rms_energy frame ∷ []) 1 r.0
  unfolding is_speech_adaptive is_speech_counted calibrate threshold
  settles a frame start last =
      let made = compute_threshold_same _ _ a refl refl in
      simp (start, last)
        (refl, (refl, refl, made, ap (or_field a.vad.threshold_override) made, refl, refl))

  calibrates :
      (a : AdaptiveVad F) (n : ℕ) (frame : List ℤ) (frames : List (List ℤ))
      → a.calibrated ≡ false
      → a.calibration_frames ≡ pos n
      → a.frame_count + length (frame ∷ frames) ≡ n
      → let r = hears_adaptive (frame ∷ frames) a in
        (r.1 ≡ replicate (length (frame ∷ frames)) false)
        × IsCalibratedBy a
            (a.rms_window ++ map rms_energy (frame ∷ frames))
            (length (frame ∷ frames))
            r.0
  unfolding hears_adaptive
  calibrates a n frame [] start frames_n count =
      let last : leb_ℤ a.calibration_frames (pos (a.frame_count + 1)) ≡ true =
        ground (arith, frames_n) in
      let (d, done) = settles a frame start last in (ap (λ x. x ∷ []) d, done)
  calibrates a n frame (next ∷ frames) start frames_n count =
      let before : leb_ℤ a.calibration_frames (pos (a.frame_count + 1)) ≡ false =
        ground (arith, frames_n) in
      let (ds, (c, w, t, effective, s, total)) =
        calibrates (taken frame a) n next frames start frames_n (omega arith) in
      let assoc =
        append_assoc a.rms_window (rms_energy frame ∷ []) (map rms_energy (next ∷ frames)) in
      let same =
        compute_threshold_same _ (taken frame a) a refl refl
        ∙ ap (λ v. compute_threshold v a) assoc in
      rw (takes a frame start before) (
        ap (◌∷◌ false) ds,
        (
          c,
          w ∙ assoc,
          t ∙ same,
          effective ∙ ap (or_field a.vad.threshold_override) same,
          s,
          omega arith,
        ),
      )

  -- The calibration of a detector that is new or was reset takes exactly `calibration_frames` frames,
  -- which all count as silence; then the threshold that decides is the one computed from the
  -- energies of just those frames, unless SetThresholdRMS has set one, which stays the threshold.
  pub hears_adaptive-IsCalibratedBy :
      (a : AdaptiveVad F) (frame : List ℤ) (frames : List (List ℤ))
      → a.calibrated ≡ false
      → a.frame_count ≡ 0
      → a.rms_window ≡ []
      → a.calibration_frames ≡ pos (length (frame ∷ frames))
      → let r = hears_adaptive (frame ∷ frames) a in
        (r.1 ≡ replicate (length (frame ∷ frames)) false)
        × IsCalibratedBy a (map rms_energy (frame ∷ frames)) (length (frame ∷ frames)) r.0
  hears_adaptive-IsCalibratedBy a frame frames start none_yet empty n =
      let (ds, (c, w, t, effective, s, total)) =
        calibrates a _ frame frames start n (omega arith) in
      let window = ap (λ v. v ++ map rms_energy (frame ∷ frames)) empty in
      let made = ap (λ v. compute_threshold v a) window in
      (
        ds,
        (
          c,
          w ∙ window,
          t ∙ made,
          effective ∙ ap (or_field a.vad.threshold_override) made,
          s,
          total,
        ),
      )

  -- A calibrated detector whose threshold is not below the noise floor times the minimal margin
  -- decides by the floor times the margin alone: neither the threshold nor the sensitivity factor it
  -- was computed with makes a difference. The margin is positive.
  pub is_speech_adaptive-margin :
      (frame : List ℤ) (a : AdaptiveVad F)
      → a.calibrated ≡ true
      → fl.lt (fl.of_int (pos 0)) a.min_speech_margin ≡ true
      → ((rms : F)
          → geb rms (threshold a.vad) ≡ true
          → geb rms (fl.mul (noise_floor a.rms_window) a.min_speech_margin) ≡ true)
      → is_speech_adaptive frame a
        ≡ with_decision
            (record a { total_frames = a.total_frames + 1 })
            (decide
              (geb (rms_energy frame) (fl.mul (noise_floor a.rms_window) a.min_speech_margin))
              a.vad)
  unfolding is_speech_adaptive is_speech_counted is_above_floor is_speech
  is_speech_adaptive-margin frame a done margin above =
      elim (Bool-cases
        (geb (rms_energy frame) (fl.mul (noise_floor a.rms_window) a.min_speech_margin))) [
          | inl high ↦ simp (done, margin, high) refl
          | inr low ↦ elim (Bool-cases (geb (rms_energy frame) (threshold a.vad))) [
            | inl loud ↦ let no = sym (above (rms_energy frame) loud) ∙ low in absurd (ground arith)
            | inr quiet ↦ simp (done, margin, low, quiet) refl
          ]
        ]
