-- ===== src/Prelude/Text.antt =====
-- Texts as lists of bytes.
use Prim.Native.Nat.{ℕ}
use Prim.Native.String.{String}
use Prim.Native.String as string
use Prim.Native.Char.{code}
use mathlib.Core.Bool.{Bool, true, false}
use mathlib.Core.List.{List, [], ◌∷◌}
use clear_stream.Prelude.Tests.{◌==◌, if◌then◌else◌}

-- A text's bytes, where it is ASCII.
abbrev pub codes : String → List ℕ
codes string.[] = []
codes (string.◌∷◌ c s) = code c ∷ codes s

abbrev pub same_name : List ℕ → List ℕ → Bool
same_name [] [] = true
same_name [] (d ∷ b) = false
same_name (c ∷ a) [] = false
same_name (c ∷ a) (d ∷ b) = let rest = same_name a b in if c == d then rest else false
