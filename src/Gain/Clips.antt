-- ===== src/Gain/Clips.antt =====
-- pkg/audio/agc.go, Process: how many samples are counted as clipped.
use clear_stream.Prelude.{
  ℕ, ◌+◌, ◌≤◌, ◌≡◌, refl, ◌∙◌, inl, inr, List, [], ◌∷◌, length, Bool-cases, ℤ, negsuc, Float, geb,
  arith,
}
use clear_stream.Gain.{
  Agc, Curves, whole, aim, sum_squares, approach, clip, gain_sample, gain_all, process,
}

module _ {F : Type 0} ⦃fl : Float F⦄ where
  -- From one state to the next, of n samples at most n are counted, and the settings stay.
  abbrev Counts : ℕ → Agc F → Agc F → Type 0
  Counts n a b = (a.clip_count ≤ b.clip_count) × (b.clip_count ≤ a.clip_count + n) × (b.cfg ≡ a.cfg)

  aim-Counts : (samples : List ℤ) (a : Agc F) → Counts 0 a (aim samples a)
  unfolding aim
  aim-Counts samples a =
      elim (Bool-cases (
        geb (fl.sqrt (fl.div (sum_squares (whole 0) samples) (whole (length samples))))
          (whole 1))) [
            | inl loud ↦ rw loud (omega arith, omega arith, refl)
            | inr quiet ↦ rw quiet (omega arith, omega arith, refl)
          ]

  clip-Counts : (val : F) (a : Agc F) → Counts 1 a (clip val a).0
  unfolding clip
  clip-Counts val a = elim (Bool-cases (fl.lt (whole 32767) val)) [
    | inl above ↦ rw above (omega arith, omega arith, refl)
    | inr a' ↦ rw a' (elim (Bool-cases (fl.lt val (fl.of_int (negsuc 32767)))) [
      | inl below ↦ rw below (omega arith, omega arith, refl)
      | inr within ↦ rw within (omega arith, omega arith, refl)
    ])
  ]

  gain_sample-Counts : (m : Curves F) (s : ℤ) (a : Agc F) → Counts 1 a (gain_sample m s a).0
  unfolding gain_sample approach
  gain_sample-Counts m s a = clip-Counts _ (approach a)

  gain_all-Counts :
      (m : Curves F) (samples : List ℤ) (a : Agc F)
      → Counts (length samples) a (gain_all m samples a).0
        × (length (gain_all m samples a).1 ≡ length samples)
  unfolding gain_all
  gain_all-Counts m [] a = ((omega arith, omega arith, refl), refl)
  gain_all-Counts m (s ∷ samples) a =
      let (more, most, same) = gain_sample-Counts m s a in
      let ((more', most', same'), n) = gain_all-Counts m samples (gain_sample m s a).0 in
      ((omega arith, omega arith, same' ∙ same), omega arith)

  -- A frame keeps its length, at most its samples are counted as clipped, and the settings stay.
  process-Counts :
      (m : Curves F) (samples : List ℤ) (a : Agc F)
      → Counts (length samples) a (process m samples a).0
        × (length (process m samples a).1 ≡ length samples)
  unfolding process
  process-Counts m [] a = ((omega arith, omega arith, refl), refl)
  process-Counts m (s ∷ samples) a =
      let (more, most, same) = aim-Counts (s ∷ samples) a in
      let ((more', most', same'), n) = gain_all-Counts m (s ∷ samples) (aim (s ∷ samples) a) in
      ((omega arith, omega arith, same' ∙ same), n)
