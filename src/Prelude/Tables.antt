-- ===== src/Prelude/Tables.antt =====
-- Facts about a small range of numbers, checked value by value.
use Prim.Native.Nat.{ℕ, zero, suc, ◌<◌}
use mathlib.Core.Path.{◌≡◌}
use mathlib.Core.Bool.{Bool, true, false}
use native.Mathlib.Omega.{arith}
use clear_stream.Prelude.Tests.{if◌then◌else◌}

-- The test holds of every number below the bound; the first one that fails it ends the search.
unfoldable pub passes_below : (ℕ → Bool) → ℕ → Bool
passes_below test zero = true
passes_below test (suc bound) =
    let lower = passes_below test bound in if test bound then lower else false

pub passes_below_at :
    (test : ℕ → Bool) (bound : ℕ)
    → passes_below test bound ≡ true
    → (value : ℕ) → value < bound
    → test value ≡ true
unfolding passes_below
passes_below_at test zero passed value below = absurd (omega arith)
passes_below_at test (suc bound) passed value below =
    let earlier = passes_below_at test bound in ground (arith, earlier, earlier _ value)
