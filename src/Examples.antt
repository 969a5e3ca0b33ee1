-- ===== src/Examples.antt =====
-- Concrete inputs for the components' theorems: a float64 in thousandths, packets, queues and pools.
mod Jitter
mod Plc
mod Queues
mod Session
mod Billing
mod Audio
mod Server
mod Stream
mod Packets
use clear_stream.Prelude.{
  ℕ, zero, suc, ◌+◌, ◌-◌, ◌*◌, ◌/◌, ◌%◌, Bool, ltb, leb, ◌==◌, if◌then◌else◌, true, false, not,
  ◌&&◌, ℤ, pos, negsuc, pos_part, neg_part, sub_ℕ, nat_abs, ltb_ℤ, Float,
}

abbrev signed : Bool → ℕ → ℤ
signed true n = pos n
signed false n = sub_ℕ 0 n

-- Whether a number is not negative.
abbrev plus : ℤ → Bool
plus (pos n) = true
plus (negsuc n) = false

abbrev same : Bool → Bool → Bool
same true b = b
same false b = not b

abbrev sum : ℤ → ℤ → ℤ
sum a b = sub_ℕ (pos_part a + pos_part b) (neg_part a + neg_part b)

-- The integer square root below 2 ^ 32, bit by bit.
abbrev root_from : ℕ → ℕ → ℕ → ℕ → ℕ
root_from zero bit r n = r
root_from (suc k) bit r n =
    let next = if leb ((r + bit) * (r + bit)) n then r + bit else r in root_from k (bit / 2) next n

abbrev root : ℕ → ℕ
root n = root_from 32 2147483648 0 n

-- Thousandths; products and quotients drop the rest.
abbrev pub thousandths : Float ℤ
thousandths = record {
  ratio = λ a b. pos (a * 1000 / b);
  of_int = λ a. signed (plus a) (nat_abs a * 1000);
  to_int = λ a. signed (plus a) (nat_abs a / 1000);
  add = sum;
  sub = λ a b. sum a (signed (not (plus b)) (nat_abs b));
  mul = λ a b. signed (same (plus a) (plus b)) (nat_abs a * nat_abs b / 1000);
  div = λ a b. signed (same (plus a) (plus b)) (nat_abs a * 1000 / nat_abs b);
  abs = λ a. pos (nat_abs a);
  sqrt = λ a. pos (root (nat_abs a * 1000));
  ceil = λ a.
      signed (plus a) (if plus a then (nat_abs a + 999) / 1000 * 1000 else nat_abs a / 1000 * 1000);
  lt = ltb_ℤ;
  eq = λ a b. same (plus a) (plus b) && (nat_abs a == nat_abs b);
}
