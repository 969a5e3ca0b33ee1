-- ===== src/Jitter/Window.antt =====
-- pkg/rtp/jitter.go: what it is for a buffer to be in playing order, as seen from a base number.
use clear_stream.Prelude.{
  ℕ, zero, suc, ◌+◌, ◌-◌, ◌≤◌, ◌<◌, ◌≡◌, ◌≢◌, refl, List, [], ◌∷◌, false, arith, u16, sub16, take,
}
use clear_stream.Jitter.{JitterEntry, has_seq, insert}
use clear_stream.Jitter.Sequence.{seq_less-offset, sub16-inj, sub16-suc, sub16-rebase}

-- The distances from the base rise strictly along the list, from `k` on, and stay below half the
-- circle.
abbrev pub Above : ℕ → ℕ → List JitterEntry → Type 0
Above base k [] = Unit {0}
Above base k (x ∷ xs) =
    (x.seq < 65536)
    × (k ≤ sub16 x.seq base)
    × (sub16 x.seq base < 32768)
    × Above base (suc (sub16 x.seq base)) xs

pub Above-mono :
    (base : ℕ) {k l : ℕ} (xs : List JitterEntry) → l ≤ k → Above base k xs → Above base l xs
Above-mono base [] h a = tt
Above-mono base (x ∷ xs) h a = (a.0, omega arith, a.2, a.3)

pub Above-take : (base k n : ℕ) (xs : List JitterEntry) → Above base k xs → Above base k (take n xs)
Above-take base k zero xs a = tt
Above-take base k (suc n) [] a = tt
Above-take base k (suc n) (x ∷ xs) a =
    (a.0, a.1, a.2, Above-take base (suc (sub16 x.seq base)) n xs a.3)

-- A packet of the window, not yet buffered, goes to its place.
pub insert-Above :
    (base k : ℕ) (e : JitterEntry) (xs : List JitterEntry)
    → base < 65536
    → e.seq < 65536
    → k ≤ sub16 e.seq base
    → sub16 e.seq base < 32768
    → has_seq e.seq xs ≡ false
    → Above base k xs
    → Above base k (insert e xs)
unfolding insert has_seq
insert-Above base k e [] hb he lo hi new a = (he, lo, hi, tt)
insert-Above base k e (x ∷ xs) hb he lo hi new a = ground (
  arith,
  seq_less-offset base e.seq x.seq hb he a.0 hi a.2,
  sub16-inj e.seq x.seq base he a.0 hb,
  insert-Above base (suc (sub16 x.seq base)) e xs,
)

pub Above-suc :
    (base k : ℕ) (xs : List JitterEntry)
    → base < 65536
    → Above base (suc k) xs
    → Above (u16 (base + 1)) k xs
Above-suc base k [] hb a = tt
Above-suc base k (x ∷ xs) hb a =
    let moved = sub16-suc x.seq base k a.0 hb (omega arith) in
    (
      a.0,
      omega arith,
      omega arith,
      Above-mono _ xs (omega arith) (Above-suc base (sub16 x.seq base) xs hb a.3),
    )

-- Seen from its own head, the buffer is in order too.
pub Above-rebase :
    (base b k : ℕ) (xs : List JitterEntry)
    → base < 65536
    → b < 65536
    → sub16 b base ≤ k
    → Above base k xs
    → Above b (k - sub16 b base) xs
Above-rebase base b k [] hb hc h a = tt
Above-rebase base b k (x ∷ xs) hb hc h a =
    let moved = sub16-rebase x.seq b base a.0 hc hb (omega arith) a.2 in
    (
      a.0,
      omega arith,
      omega arith,
      Above-mono b xs (omega arith)
          (Above-rebase base b (suc (sub16 x.seq base)) xs hb hc (omega arith) a.3),
    )

-- A number short of all the distances is not buffered.
pub Above-has_seq :
    (base k s : ℕ) (xs : List JitterEntry)
    → sub16 s base < k
    → Above base k xs
    → has_seq s xs ≡ false
unfolding has_seq
Above-has_seq base k s [] h a = refl
Above-has_seq base k s (x ∷ xs) h a =
    let differs : x.seq ≢ s = λ e. ground arith in
    ground (arith, Above-has_seq base (suc (sub16 x.seq base)) s xs (omega arith) a.3)
