-- ===== src/Prelude/Real.antt =====
-- What the code does with float64: the type and its operations are a parameter of the model. `ratio`
-- is a decimal literal (`ratio 85 100` is 0.85), `of_int` the conversion from an integer, `to_int`
-- the conversion to an integer, which drops the fraction.
use Prim.Native.Nat.{ℕ}
use mathlib.Core.Bool.{Bool, ◌||◌}
use clear_stream.Prelude.Int.{ℤ}

pub record Float (F : Type 0) : Type 0 where
  pub ratio : ℕ → ℕ → F
  pub of_int : ℤ → F
  pub to_int : F → ℤ
  pub add : F → F → F
  pub sub : F → F → F
  pub mul : F → F → F
  pub div : F → F → F
  pub abs : F → F
  pub sqrt : F → F
  pub ceil : F → F
  pub lt : F → F → Bool
  pub eq : F → F → Bool

module _ {F : Type 0} ⦃fl : Float F⦄ where
  -- a >= b, which a NaN makes false.
  abbrev pub geb : F → F → Bool
  geb a b = fl.lt b a || fl.eq a b
