-- ===== src/Prelude/Runs.antt =====
-- How long ago a test last held, in a history with the latest answer first.
use Prim.Native.Nat.{ℕ, zero, suc}
use mathlib.Core.Path.{◌≡◌, refl, sym, ◌∙◌}
use mathlib.Core.Bool.{Bool, true, false}
use mathlib.Core.Option.{Option, none, some}
use mathlib.Core.List.{List, [], ◌∷◌}
use native.Mathlib.Omega.{arith}
use clear_stream.Prelude.Tests.{leb}
use clear_stream.Prelude.Lists.{take}

abbrev pub one_more : Option ℕ → Option ℕ
one_more none = none
one_more (some k) = some (suc k)

unfoldable pub since : List Bool → Option ℕ
since [] = none
since (true ∷ h) = some 0
since (false ∷ h) = one_more (since h)

abbrev pub within : ℕ → Option ℕ → Bool
within n none = false
within n (some k) = leb k n

unfoldable pub any_true : List Bool → Bool
any_true [] = false
any_true (true ∷ h) = true
any_true (false ∷ h) = any_true h

within-one_more : (n : ℕ) (o : Option ℕ) → within (suc n) (one_more o) ≡ within n o
within-one_more n none = refl
within-one_more n (some k) = ground arith

within-one_more_zero : (o : Option ℕ) → within 0 (one_more o) ≡ false
within-one_more_zero none = refl
within-one_more_zero (some k) = ground arith

-- One of the latest n + 1 answers is true just if the last true one is at most n answers ago.
pub any_true-take : (n : ℕ) (h : List Bool) → any_true (take (suc n) h) ≡ within n (since h)
unfolding any_true since
any_true-take n [] = refl
any_true-take n (true ∷ h) = ground arith
any_true-take zero (false ∷ h) = sym (within-one_more_zero (since h))
any_true-take (suc n) (false ∷ h) = any_true-take n h ∙ sym (within-one_more n (since h))
