-- ===== src/Jitter/Insert.antt =====
-- pkg/rtp/jitter.go, Push: the insertion into the buffer, with no assumption on the numbers.
use clear_stream.Prelude.{
  ℕ, zero, suc, ◌≡◌, refl, List, [], ◌∷◌, false, ◌||◌, ◌==◌, arith, take, length, if◌then◌else◌,
  Option, none, some,
}
use clear_stream.Jitter.{JitterEntry, has_seq, insert}

pub length-insert :
    (e : JitterEntry) (xs : List JitterEntry) → length (insert e xs) ≡ suc (length xs)
unfolding insert
length-insert e [] = refl
length-insert e (x ∷ xs) = ground (arith, length-insert e xs)

-- The entry for a number.
unfoldable pub find : ℕ → List JitterEntry → Option JitterEntry
find s [] = none
find s (e ∷ es) = if e.seq == s then some e else find s es

-- A new number is found where it was put, and the other numbers where they were.
pub find-insert :
    (s : ℕ) (e : JitterEntry) (xs : List JitterEntry)
    → has_seq e.seq xs ≡ false
    → find s (insert e xs) ≡ (if e.seq == s then some e else find s xs)
unfolding insert has_seq find
find-insert s e [] new = refl
find-insert s e (x ∷ xs) new = ground (arith, find-insert s e xs)

pub has_seq-insert :
    (s : ℕ) (e : JitterEntry) (xs : List JitterEntry)
    → has_seq s (insert e xs) ≡ (e.seq == s || has_seq s xs)
unfolding insert has_seq
has_seq-insert s e [] = refl
has_seq-insert s e (x ∷ xs) = ground (arith, has_seq-insert s e xs)

pub has_seq-take :
    (s n : ℕ) (xs : List JitterEntry) → has_seq s xs ≡ false → has_seq s (take n xs) ≡ false
unfolding has_seq
has_seq-take s zero xs h = refl
has_seq-take s (suc n) [] h = refl
has_seq-take s (suc n) (x ∷ xs) h = ground (arith, has_seq-take s n xs)

-- No number is buffered twice.
abbrev pub Distinct : List JitterEntry → Type 0
Distinct [] = Unit {0}
Distinct (x ∷ xs) = (has_seq x.seq xs ≡ false) × Distinct xs

pub insert-Distinct :
    (e : JitterEntry) (xs : List JitterEntry)
    → has_seq e.seq xs ≡ false
    → Distinct xs
    → Distinct (insert e xs)
unfolding insert has_seq
insert-Distinct e [] new d = (refl, tt)
insert-Distinct e (x ∷ xs) new d = ground (arith, has_seq-insert x.seq e xs, insert-Distinct e xs)

pub take-Distinct : (n : ℕ) (xs : List JitterEntry) → Distinct xs → Distinct (take n xs)
take-Distinct zero xs d = tt
take-Distinct (suc n) [] d = tt
take-Distinct (suc n) (x ∷ xs) d = (has_seq-take x.seq n xs d.0, take-Distinct n xs d.1)
