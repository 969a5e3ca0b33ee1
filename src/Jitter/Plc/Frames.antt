-- ===== src/Jitter/Plc/Frames.antt =====
-- pkg/rtp/jitter.go, GeneratePLC: the samples of a repeated and of a faded frame.
use Prim.Native.Nat.{max}
use native.Mathlib.Nat.{mod-lt}
use clear_stream.Prelude.{
  ℕ, zero, suc, ◌+◌, ◌-◌, ◌*◌, ◌%◌, ◌≤◌, ◌<◌, ◌≡◌, refl, ap, ◌∙◌, Option, none, some, List, [], ◌∷◌,
  ◌++◌, length, drop, replicate, get_or, get_elem?, map, ℤ, pos, nat_abs, Float, arith,
  length-append, length-drop, length-map, length-replicate,
}
use clear_stream.Jitter.Plc.{
  tail_from, tail_sample, repeat_tail, held_period, fade, fade_sample, or_else,
}

-- The samples of the tail over and over, from sample i on.
abbrev pub cycled : ℕ → ℕ → ℕ → List ℤ → List ℤ
cycled zero i period tail = []
cycled (suc left) i period tail = get_or tail (i % period) (pos 0) ∷ cycled left (i + 1) period tail

pub length-cycled : (n i period : ℕ) (tail : List ℤ) → length (cycled n i period tail) ≡ n
length-cycled zero i period tail = refl
length-cycled (suc n) i period tail = ap suc (length-cycled n (i + 1) period tail)

pub get_or-cycled :
    (n i period : ℕ) (tail : List ℤ) (k : ℕ)
    → k < n
    → get_or (cycled n i period tail) k (pos 0) ≡ get_or tail ((i + k) % period) (pos 0)
get_or-cycled zero i period tail k h = absurd (omega arith)
get_or-cycled (suc n) i period tail zero h =
    ap (λ m. get_or tail (m % period) (pos 0)) (omega arith)
get_or-cycled (suc n) i period tail (suc k) h =
    get_or-cycled n (i + 1) period tail k (omega arith)
    ∙ ap (λ m. get_or tail (m % period) (pos 0)) (omega arith)

get_elem?-get_or :
    (xs : List ℤ) (k : ℕ) → k < length xs → get_elem? xs k ≡ some (get_or xs k (pos 0))
get_elem?-get_or [] k h = absurd (omega arith)
get_elem?-get_or (x ∷ xs) zero h = refl
get_elem?-get_or (x ∷ xs) (suc k) h = get_elem?-get_or xs k (omega arith)

tail_sample_lem :
    (i period : ℕ) (tail : List ℤ)
    → 0 < period
    → period ≤ length tail
    → tail_sample i period tail ≡ some (get_or tail (i % period) (pos 0))
unfolding tail_sample
tail_sample_lem i period tail h long =
    let within = mod-lt i h in ground (arith, get_elem?-get_or tail (i % period) (omega arith))

-- The loop reads within the tail, which is not shorter than the period.
repeat_tail_lem :
    (n i period : ℕ) (tail : List ℤ)
    → 0 < period
    → period ≤ length tail
    → repeat_tail n i period tail ≡ some (cycled n i period tail)
unfolding repeat_tail
repeat_tail_lem zero i period tail h long = refl
repeat_tail_lem (suc n) i period tail h long =
    ground
      (arith, tail_sample_lem i period tail h long, repeat_tail_lem n (i + 1) period tail h long)

pub get_or-drop :
    (d : ℕ) (xs : List ℤ) (k : ℕ) → get_or (drop d xs) k (pos 0) ≡ get_or xs (d + k) (pos 0)
get_or-drop zero xs k = ap (λ m. get_or xs m (pos 0)) (omega arith)
get_or-drop (suc d) [] k = refl
get_or-drop (suc d) (x ∷ xs) k =
    let e : suc (d + k) ≡ suc d + k = omega arith in
    get_or-drop d xs k ∙ ap (λ m. get_or (x ∷ xs) m (pos 0)) e

-- The period that is repeated is one of the frame's.
pub held_period_range :
    (period n : ℕ) → 0 < n → (0 < held_period period n) × (held_period period n ≤ n)
unfolding held_period
held_period_range period n h = ground arith

held_period_within : (period n : ℕ) → held_period period n ≤ n
unfolding held_period
held_period_within period n = ground arith

-- The tail of the frame that starts where the period starts.
pub tail_from_lem :
    (period : ℕ) (last : List ℤ)
    → let held = held_period period (length last) in
      tail_from held last ≡ some (drop (length last - held) last)
unfolding tail_from
tail_from_lem period last = let within = held_period_within period (length last) in ground arith

-- An empty frame has no sample to make, any other one a period of its own.
pub repeat_held_lem :
    (period : ℕ) (last : List ℤ)
    → let n = length last in
      let held = held_period period n in
      let tail = drop (n - held) last in repeat_tail n 0 held tail ≡ some (cycled n 0 held tail)
unfolding repeat_tail
repeat_held_lem period [] = refl
repeat_held_lem period (x ∷ xs) =
    let n = length (x ∷ xs) in
    let held = held_period period n in
    let (more, within) = held_period_range period n (omega arith) in
    repeat_tail_lem n 0 held (drop (n - held) (x ∷ xs)) more
      (omega (arith, length-drop (n - held) (x ∷ xs)))

-- The greatest magnitude of a sample.
abbrev pub peak : List ℤ → ℕ
peak [] = 0
peak (s ∷ rest) = max (nat_abs s) (peak rest)

pub peak-silence : (n : ℕ) → peak (replicate n (pos 0)) ≡ 0
peak-silence zero = refl
peak-silence (suc n) = omega (arith, peak-silence n)

pub peak-append : (xs ys : List ℤ) → peak (xs ++ ys) ≡ max (peak xs) (peak ys)
peak-append [] ys = omega arith
peak-append (x ∷ xs) ys = omega (arith, peak-append xs ys)

module _ {F : Type 0} (fl : Float F) where
  -- Multiplication by the float 0.85 and the conversion to an integer, on the magnitudes of int16: the
  -- result has at most 85 hundredths of the magnitude.
  abbrev pub RoundsDown : Type 0
  RoundsDown =
      (s : ℤ)
      → nat_abs s ≤ 32768
      → 100 * nat_abs (fl.to_int (fl.mul (fl.of_int s) (fl.ratio 85 100))) ≤ 85 * nat_abs s

  pub peak-faded :
      RoundsDown
      → (xs : List ℤ) → peak xs ≤ 32768
      → 100 * peak (map (fade_sample fl) xs) ≤ 85 * peak xs
  peak-faded h [] small = omega arith
  peak-faded h (x ∷ xs) small = omega (arith, h x (omega arith), peak-faded h xs (omega arith))

  pub fade_total :
      (n : ℕ) (src : List ℤ)
      → length src ≤ n
      → (r : List ℤ) × (fade fl n src ≡ some r)
        × (length r ≡ n)
        × (RoundsDown → peak src ≤ 32768 → 100 * peak r ≤ 85 * peak src)
  unfolding fade
  fade_total n src h =
      let faded : List ℤ = map (fade_sample fl) src in
      let rest : List ℤ = replicate (n - length src) (pos 0) in
      (
        faded ++ rest,
        ground arith,
        omega (
          arith,
          length-append faded rest,
          length-map src (fade_sample fl),
          length-replicate (n - length src) (pos 0),
        ),
        λ down small. omega (
          arith,
          peak-append faded rest,
          peak-silence (n - length src),
          peak-faded down src small,
        ),
      )

pub length-fade_source :
    (o : Option (List ℤ)) (last : List ℤ)
    → ((prev : List ℤ) → o ≡ some prev → length prev ≡ length last)
    → length (or_else o last) ≡ length last
length-fade_source none last h = refl
length-fade_source (some prev) last h = h prev refl

pub paired :
    (o : Option (List ℤ)) (last r last' prev : List ℤ)
    → o ≡ some last
    → length r ≡ length last
    → o ≡ some last'
    → some r ≡ some prev
    → length prev ≡ length last'
paired o last r last' prev e len e' p = cc
