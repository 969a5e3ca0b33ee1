-- ===== src/G711/Reference.antt =====
-- pkg/rtp/session.go: the A-law decoder against the tables of ITU-T G.711.
use Prim.Native.Nat.{bit_xor}
use clear_stream.Prelude.{
  ℕ, ◌+◌, ◌-◌, ◌*◌, ◌/◌, ◌%◌, ◌^◌, ◌<◌, ◌≡◌, refl, Bool, true, ◌&&◌, ◌==◌, if◌then◌else◌, ℤ, pos,
  pos_part, neg_part, sub_ℕ, passes_below, passes_below_at, arith,
}
use clear_stream.G711.{alaw_to_linear}

-- The decoder's output value of a character signal, in steps of a 16-bit sample. The even bits are
-- inverted, then the first bit is the polarity, 1 for positive values, the next three are the
-- segment, and the last four the interval.
abbrev pub itu_alaw : ℕ → ℤ
itu_alaw character =
    let code = bit_xor character 0x55 in
    let segment = code / 16 % 8 in
    let interval = code % 16 in
    let value =
      if segment == 0 then interval * 16 + 8 else (interval * 16 + 264) * 2 ^ (segment - 1) in
    if code / 128 == 1 then pos value else sub_ℕ 0 value

abbrev pub negate : ℤ → ℤ
negate z = sub_ℕ (neg_part z) (pos_part z)

abbrev same : ℤ → ℤ → Bool
same a b = pos_part a == pos_part b && neg_part a == neg_part b

same_sound : (a b : ℤ) → same a b ≡ true → a ≡ b
same_sound a b h = ground arith

reference_table : passes_below (λ b. same (alaw_to_linear b) (negate (itu_alaw b))) 256 ≡ true
unfolding passes_below alaw_to_linear
reference_table = refl

-- The A-law decoder gives, for every byte, the value of the recommendation with its sign turned.
pub alaw_to_linear-reference : (b : ℕ) → b < 256 → alaw_to_linear b ≡ negate (itu_alaw b)
alaw_to_linear-reference b h =
    same_sound (alaw_to_linear b) (negate (itu_alaw b)) (passes_below_at _ 256 reference_table b h)
