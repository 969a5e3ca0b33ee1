-- ===== src/Transcript.antt =====
-- pkg/eval/transcript.go: the scores of two transcripts by their longest common subsequence.
pub mod Longest
use clear_stream.Prelude.{
  ℕ, suc, ◌+◌, Bool, true, false, List, [], ◌∷◌, ◌&&◌, if◌then◌else◌, ltb, ◌==◌, length, replicate,
  ℤ, pos, Float,
}

module _ {A : Type 0} (same : A → A → Bool) where
  -- The inner loop from a column on: the rest of the row before, and the cell to the left.
  unfoldable pub fill_row : A → List A → List ℕ → ℕ → List ℕ
  fill_row x [] prev left = []
  fill_row x (y ∷ b) [] left = []
  fill_row x (y ∷ b) (diagonal ∷ []) left = []
  fill_row x (y ∷ b) (diagonal ∷ above ∷ prev) left =
      let cell = if same x y then diagonal + 1 else if ltb left above then above else left in
      cell ∷ fill_row x b (above ∷ prev) cell

  -- The outer loop: the row of the first column's 0, then the row after it.
  unfoldable pub fill_rows : List A → List A → List ℕ → List ℕ
  fill_rows [] b prev = prev
  fill_rows (x ∷ a) b prev = fill_rows a b (0 ∷ fill_row x b prev 0)

  abbrev pub last_cell : List ℕ → ℕ
  last_cell [] = 0
  last_cell (c ∷ []) = c
  last_cell (c ∷ d ∷ row) = last_cell (d ∷ row)

  -- lcsMatcher for runes, lcsMatcherStr for words.
  unfoldable pub lcs_matcher : List A → List A → ℕ
  lcs_matcher [] b = 0
  lcs_matcher (x ∷ a) [] = 0
  lcs_matcher (x ∷ a) (y ∷ b) =
      last_cell (fill_rows (x ∷ a) (y ∷ b) (replicate (length (y ∷ b) + 1) 0))

  -- charScore on runes, wordScore on words.
  unfoldable pub score : {F : Type 0} → Float F → List A → List A → F
  score fl a b =
      let total = length a + length b in
      if total == 0
      then fl.of_int (pos 1)
      else fl.div (fl.mul (fl.ratio 2 1) (fl.of_int (pos (lcs_matcher a b))))
          (fl.of_int (pos total))
