-- ===== src/Pipeline/Frames.antt =====
-- pkg/audio/pipeline.go, ProcessFrames: the frames of the input, and what is left of it.
use clear_stream.Prelude.{
  drop-append_le, take-append, ℕ, zero, suc, ◌≤◌, ◌<◌, ◌≡◌, refl, ap, ap₂, ◌∙◌, inl, inr, true,
  false, List, [], ◌∷◌, ◌++◌, leb, leb→le, if◌then◌else◌, length, take, drop, length-append,
  length-drop, Bool-cases, arith,
}

-- The whole frames of n bytes and the rest, in so many rounds at most.
unfoldable pub split_frames : ℕ → ℕ → List ℕ → List (List ℕ) × List ℕ
split_frames zero n bytes = ([], bytes)
split_frames (suc rounds) n bytes =
    let later = split_frames rounds n (drop n bytes) in
    if leb n (length bytes) then (take n bytes ∷ later.0, later.1) else ([], bytes)

-- There are no more rounds than bytes.
unfoldable pub frames_of : ℕ → List ℕ → List (List ℕ) × List ℕ
frames_of n bytes = split_frames (length bytes) n bytes

split_frames-enough :
    (f g n : ℕ) (bytes : List ℕ)
    → 0 < n
    → length bytes ≤ f
    → length bytes ≤ g
    → split_frames f n bytes ≡ split_frames g n bytes
unfolding split_frames
split_frames-enough zero zero n bytes h p q = refl
split_frames-enough zero (suc g) n bytes h p q =
    let short : leb n (length bytes) ≡ false = ground arith in rw short refl
split_frames-enough (suc f) zero n bytes h p q =
    let short : leb n (length bytes) ≡ false = ground arith in rw short refl
split_frames-enough (suc f) (suc g) n bytes h p q = elim (Bool-cases (leb n (length bytes))) [
  | inl whole ↦ rw whole (
      ap (λ r. (take n bytes ∷ r.0, r.1))
        (split_frames-enough f g n (drop n bytes) h
          (omega (arith, length-drop n bytes, leb→le n (length bytes) whole))
          (omega (arith, length-drop n bytes, leb→le n (length bytes) whole))))
  | inr short ↦ rw short refl
]

frames_of-whole :
    (n : ℕ) (x : List ℕ)
    → 0 < n
    → n ≤ length x
    → frames_of n x ≡ (take n x ∷ (frames_of n (drop n x)).0, (frames_of n (drop n x)).1)
unfolding frames_of split_frames
frames_of-whole n x h fits =
    let whole : leb n (length x) ≡ true = ground arith in
    split_frames-enough (length x) (suc (length x)) n x h (omega arith) (omega arith)
    ∙ rw whole (
        ap (λ r. (take n x ∷ r.0, r.1))
          (split_frames-enough (length x) (length (drop n x)) n (drop n x) h
            (omega (arith, length-drop n x)) (omega arith)))

-- More input goes on where the frames of the first part ended.
frames_of_append :
    (rounds n : ℕ) (a b : List ℕ)
    → 0 < n
    → length a ≤ rounds
    → let first = split_frames rounds n a in
      let rest = frames_of n (first.1 ++ b) in frames_of n (a ++ b) ≡ (first.0 ++ rest.0, rest.1)
unfolding split_frames frames_of
frames_of_append zero n a b h p = refl
frames_of_append (suc rounds) n a b h p = elim (Bool-cases (leb n (length a))) [
  | inl whole ↦
      let fits = leb→le n (length a) whole in
      let shorter : length (drop n a) ≤ rounds = omega (arith, length-drop n a) in
      let len = length-append a b in
      let more : leb n (length (a ++ b)) ≡ true = ground (arith, len) in
      let x = a ++ b in
      let front = take-append n a b fits in
      let back =
        ap (frames_of n) (drop-append_le n a b fits)
        ∙ frames_of_append rounds n (drop n a) b h shorter in
      rw whole
        (frames_of-whole n x h (leb→le n (length x) more) ∙ ap₂ (λ f r. (f ∷ r.0, r.1)) front back)
  | inr short ↦ rw short refl
]

pub frames_of-append :
    (n : ℕ) (a b : List ℕ)
    → 0 < n
    → let first = frames_of n a in
      let rest = frames_of n (first.1 ++ b) in frames_of n (a ++ b) ≡ (first.0 ++ rest.0, rest.1)
unfolding frames_of
frames_of-append n a b h = frames_of_append (length a) n a b h (omega arith)
