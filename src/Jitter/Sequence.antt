-- ===== src/Jitter/Sequence.antt =====
-- pkg/rtp/jitter.go, seqLess: the order of the 16-bit sequence numbers on their circle.
use clear_stream.Prelude.{ℕ, ◌+◌, ◌≤◌, ◌<◌, ◌≡◌, ◌⊎◌, true, false, arith, u16, sub16, ltb}
use clear_stream.Jitter.{seq_less}

-- Seen from a base, numbers less than half the circle ahead of it are ordered by their distances.
pub seq_less-offset :
    (base a b : ℕ)
    → base < 65536
    → a < 65536
    → b < 65536
    → sub16 a base < 32768
    → sub16 b base < 32768
    → seq_less a b ≡ ltb (sub16 a base) (sub16 b base)
unfolding seq_less
seq_less-offset base a b hb ha hc p q = ground arith

-- Two numbers precede one another in at most one direction, and in none exactly if they are equal
-- or half the circle apart.
pub seq_less_trichotomy :
    (a b : ℕ)
    → a < 65536
    → b < 65536
    → ((seq_less a b ≡ true) × (seq_less b a ≡ false))
      ⊎ ((seq_less a b ≡ false) × (seq_less b a ≡ true))
      ⊎ ((seq_less a b ≡ false) × (seq_less b a ≡ false) × ((a ≡ b) ⊎ (sub16 a b ≡ 32768)))
unfolding seq_less
seq_less_trichotomy a b ha hb = ground arith

pub sub16_self : (a : ℕ) → a < 65536 → sub16 a a ≡ 0
sub16_self a h = omega arith

pub sub16-lt : (a b : ℕ) → sub16 a b < 65536
sub16-lt a b = omega arith

pub sub16-inj :
    (a b base : ℕ) → a < 65536 → b < 65536 → base < 65536 → sub16 a base ≡ sub16 b base → a ≡ b
sub16-inj a b base ha hb hc e = omega arith

-- The base moves on by one: distances fall by one.
pub sub16-suc :
    (a base k : ℕ)
    → a < 65536
    → base < 65536
    → k + 1 ≤ sub16 a base
    → sub16 a (u16 (base + 1)) + 1 ≡ sub16 a base
sub16-suc a base k ha hb h = omega arith

pub sub16-rebase :
    (a b base : ℕ)
    → a < 65536
    → b < 65536
    → base < 65536
    → sub16 b base ≤ sub16 a base
    → sub16 a base < 32768
    → sub16 a b + sub16 b base ≡ sub16 a base
sub16-rebase a b base ha hb hc h k = omega arith
