-- ===== src/Transcript/Longest.antt =====
-- pkg/eval/transcript.go, lcsMatcher: the rows hold the lengths of longest common subsequences.
use clear_stream.Prelude.{
  ℕ, suc, ◌+◌, ◌≤◌, ◌≡◌, refl, sym, ap, ◌∙◌, Bool, true, List, [], ◌∷◌, if◌then◌else◌, ltb, length,
  replicate, Bool-cases, inl, inr, arith,
}
use clear_stream.Transcript.{fill_row, fill_rows, last_cell, lcs_matcher}

module _ {A : Type 0} (same : A → A → Bool) where
  -- A common subsequence of two lists, and its length.
  pub data Common : List A → List A → ℕ → Type 0 where
    finished : Common [] [] 0
    skip_left : {a b : List A} {k : ℕ} (x : A) → Common a b k → Common (x ∷ a) b k
    skip_right : {a b : List A} {k : ℕ} (y : A) → Common a b k → Common a (y ∷ b) k
    matched :
        {a b : List A} {k : ℕ} (x y : A)
        → same x y ≡ true
        → Common a b k
        → Common (x ∷ a) (y ∷ b) (k + 1)

  -- The length for two lists that are read from their ends.
  longest : List A → List A → ℕ
  longest [] b = 0
  longest (x ∷ a) [] = 0
  longest (x ∷ a) (y ∷ b) =
      let both = longest a b in
      let above = longest a (y ∷ b) in
      let left = longest (x ∷ a) b in
      if same x y then both + 1 else if ltb left above then above else left

  longest-nil : (a : List A) → longest a [] ≡ 0
  unfolding longest
  longest-nil [] = refl
  longest-nil (x ∷ a) = refl

  -- One more element at either list's end adds nothing or one.
  grows :
      (a b : List A) (x y : A)
      → (longest a b ≤ longest a (y ∷ b))
        × (longest a (y ∷ b) ≤ longest a b + 1)
        × (longest a b ≤ longest (x ∷ a) b)
        × (longest (x ∷ a) b ≤ longest a b + 1)
  unfolding longest
  grows [] [] x y = ground arith
  grows [] (z ∷ b) x y = ground (arith, grows [] b x z)
  grows (w ∷ a) [] x y = ground (arith, grows a [] w y, longest-nil a)
  grows (w ∷ a) (z ∷ b) x y = ground (arith, grows a (z ∷ b) w y, grows (w ∷ a) b x z)

  Common-le : {a b : List A} {k : ℕ} → Common a b k → k ≤ longest a b
  unfolding longest
  Common-le finished = omega arith
  Common-le (skip_left {a} {b} x c) = omega (arith, Common-le c, grows a b x x)
  Common-le (skip_right {a} {b} y c) = omega (arith, Common-le c, grows a b y y)
  Common-le (matched {a} {b} x y e c) = rw e (omega (arith, Common-le c))

  skip_all : (b : List A) → Common [] b 0
  skip_all [] = finished
  skip_all (y ∷ b) = skip_right y (skip_all b)

  skip_all_left : (a : List A) → Common a [] 0
  skip_all_left [] = finished
  skip_all_left (x ∷ a) = skip_left x (skip_all_left a)

  longest-Common : (a b : List A) → Common a b (longest a b)
  unfolding longest
  longest-Common [] b = skip_all b
  longest-Common (x ∷ a) [] = skip_all_left (x ∷ a)
  longest-Common (x ∷ a) (y ∷ b) =
      let both = longest-Common a b in
      let above = longest-Common a (y ∷ b) in
      let left = longest-Common (x ∷ a) b in
      elim (Bool-cases (same x y)) [
        | inl e ↦ rw e (matched x y e both)
        | inr d ↦ elim (Bool-cases (ltb (longest (x ∷ a) b) (longest a (y ∷ b)))) [
          | inl up ↦ rw (d, longest, up) (skip_left x above)
          | inr down ↦ rw (d, longest, down) (skip_right y left)
        ]
      ]

  -- The row of a first list from a column of the second on.
  cells : List A → List A → List A → List ℕ
  cells ra rb [] = longest ra rb ∷ []
  cells ra rb (y ∷ b) = longest ra rb ∷ cells ra (y ∷ rb) b

  fill_row-cells :
      (x : A) (ra rb b : List A)
      → longest (x ∷ ra) rb ∷ fill_row same x b (cells ra rb b) (longest (x ∷ ra) rb)
        ≡ cells (x ∷ ra) rb b
  unfolding cells fill_row longest
  fill_row-cells x ra rb [] = refl
  fill_row-cells x ra rb (y ∷ []) = refl
  fill_row-cells x ra rb (y ∷ z ∷ b) =
      ap (◌∷◌ (longest (x ∷ ra) rb)) (fill_row-cells x ra (y ∷ rb) (z ∷ b))

  rev_onto : List A → List A → List A
  rev_onto [] b = b
  rev_onto (x ∷ a) b = rev_onto a (x ∷ b)

  fill_rows-cells :
      (a ra b : List A) → fill_rows same a b (cells ra [] b) ≡ cells (rev_onto a ra) [] b
  unfolding fill_rows rev_onto longest
  fill_rows-cells [] ra b = refl
  fill_rows-cells (x ∷ a) ra b =
      ap (fill_rows same a b) (fill_row-cells x ra [] b) ∙ fill_rows-cells a (x ∷ ra) b

  first_row : (b rb : List A) → replicate (length b + 1) 0 ≡ cells [] rb b
  unfolding cells longest
  first_row [] rb = refl
  first_row (y ∷ b) rb =
      let e : length (y ∷ b) + 1 ≡ suc (length b + 1) = omega arith in
      ap (λ n. replicate n 0) e ∙ ap (◌∷◌ 0) (first_row b (y ∷ rb))

  last_cell-cells : (ra rb b : List A) → last_cell same (cells ra rb b) ≡ longest ra (rev_onto b rb)
  unfolding cells rev_onto
  last_cell-cells ra rb [] = refl
  last_cell-cells ra rb (y ∷ []) = refl
  last_cell-cells ra rb (y ∷ z ∷ b) = last_cell-cells ra (y ∷ rb) (z ∷ b)

  lcs_matcher-longest :
      (a b : List A) → lcs_matcher same a b ≡ longest (rev_onto a []) (rev_onto b [])
  unfolding lcs_matcher longest rev_onto
  lcs_matcher-longest [] b = refl
  lcs_matcher-longest (x ∷ a) [] = sym (longest-nil (rev_onto (x ∷ a) []))
  lcs_matcher-longest (x ∷ a) (y ∷ b) =
      ap (λ r. last_cell same (fill_rows same (x ∷ a) (y ∷ b) r)) (first_row (y ∷ b) [])
      ∙ ap (last_cell same) (fill_rows-cells (x ∷ a) [] (y ∷ b))
      ∙ last_cell-cells (rev_onto (x ∷ a) []) [] (y ∷ b)

  reversed :
      {a b ra rb : List A} {k j : ℕ}
      → Common a b k
      → Common ra rb j
      → Common (rev_onto a ra) (rev_onto b rb) (k + j)
  unfolding rev_onto
  reversed {ra} {rb} {j} finished d = let e : 0 + j ≡ j = omega arith in rw e d
  reversed (skip_left x c) d = reversed c (skip_left x d)
  reversed (skip_right y c) d = reversed c (skip_right y d)
  reversed {j} (matched {k} x y e c) d =
      let q : k + 1 + j ≡ k + (j + 1) = omega arith in rw q (reversed c (matched x y e d))

  rev_onto-rev_onto : (a b : List A) → rev_onto (rev_onto a b) [] ≡ rev_onto b a
  unfolding rev_onto
  rev_onto-rev_onto [] b = refl
  rev_onto-rev_onto (x ∷ a) b = rev_onto-rev_onto a (x ∷ b)

  both_ways : (a b : List A) (k : ℕ) → Common (rev_onto a []) (rev_onto b []) k → Common a b k
  unfolding rev_onto
  both_ways a b k c =
      let e : k + 0 ≡ k = omega arith in
      let twice : Common (rev_onto (rev_onto a []) []) (rev_onto (rev_onto b []) []) (k + 0) =
        reversed c finished in
      rw (rev_onto-rev_onto a [], rev_onto-rev_onto b [], e) at twice

  -- The matcher's number is the length of a common subsequence, and no common subsequence is longer.
  pub lcs_matcher-Common :
      (a b : List A) (k : ℕ)
      → Common a b k
      → Common a b (lcs_matcher same a b) × (k ≤ lcs_matcher same a b)
  lcs_matcher-Common a b k common =
      let e = lcs_matcher-longest a b in
      let zero_more : k + 0 ≡ k = omega arith in
      let back : Common (rev_onto a []) (rev_onto b []) (k + 0) = reversed common finished in
      rw e (
        both_ways a b _ (longest-Common (rev_onto a []) (rev_onto b [])),
        Common-le (rw zero_more at back),
      )
