-- ===== src/Billing/Feature/Printed.antt =====
-- pkg/billing/feature.go: the tests of single features, and the printed form read back.
use Prim.Native.Nat.{Ordering}
use Prim.Native.String.{String}
use Prim.Native.String as string
use Prim.Native.Char.{code}
use clear_stream.Prelude.{
  ℕ, ◌+◌, ◌%◌, ◌<◌, ◌≡◌, Bool, true, refl, List, [], ◌∷◌, ◌==◌, ==_iff, if◌then◌else◌, passes_below,
  passes_below_at,
}
use clear_stream.Billing.Feature.{has, parts, join, or_none, to_string, all_features}

abbrev matches : String → String → Bool
matches a b = elim (string.compare a b) [ Ordering.eq ↦ true | _ ↦ Bool.false ]

-- The bit that a name stands for, 0 for other words.
bit_of : String → List (ℕ × String) → ℕ
bit_of x [] = 0
bit_of x ((bit, name) ∷ rest) = let later = bit_of x rest in if matches x name then bit else later

-- The sum of the bits of the words between commas; the first argument is the word read so far.
sum_words : String → String → ℕ
sum_words word String.[] = bit_of word all_features
sum_words word (String.◌∷◌ c rest) =
    let next = sum_words "" rest in
    let same = sum_words (string.◌++◌ word (String.◌∷◌ c "")) rest in
    if code c == b',' then bit_of word all_features + next else same

pub mask_of : String → ℕ
mask_of = sum_words ""

readable : ℕ → Bool
readable f = mask_of (to_string f) == f % 128

readable-table : passes_below readable 256 ≡ true
unfolding readable mask_of sum_words bit_of to_string or_none parts join has passes_below
readable-table = refl

-- The printed form of a mask names its seven features and no other.
mask_of-to_string : (f : ℕ) → f < 256 → mask_of (to_string f) ≡ f % 128
unfolding readable
mask_of-to_string f h = (==_iff _ _).0 (passes_below_at readable 256 readable-table f h)
