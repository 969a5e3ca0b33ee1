-- ===== src/G711.antt =====
-- pkg/rtp/session.go: the G.711 codec, µ-law and A-law. A byte is a number below 256, a sample an
-- integer. Shifts are multiplications and divisions by powers of two.
pub mod RoundTrip
pub mod Precision
pub mod Reference
use Prim.Native.Nat.{bit_xor}
use clear_stream.Prelude.{
  ℕ, zero, suc, ◌+◌, ◌-◌, ◌*◌, ◌/◌, ◌%◌, ◌^◌, Bool, true, false, List, [], ◌∷◌, map, ltb, leb, ◌==◌,
  if◌then◌else◌, ℤ, pos, negsuc, nat_abs, sub_ℕ, ltb_ℤ,
}

unfoldable pub ulaw_to_linear : ℕ → ℤ
ulaw_to_linear ulaw =
    let flipped = 255 - ulaw in
    let t = (flipped % 16 * 8 + 132) * 2 ^ (flipped / 16 % 8) in
    if leb 128 flipped then sub_ℕ 132 t else sub_ℕ t 132

unfoldable pub decode_g711u : List ℕ → List ℤ
unfolding ulaw_to_linear
decode_g711u = map ulaw_to_linear

-- The magnitude of an A-law code, its sign bit cleared.
abbrev pub alaw_magnitude : ℕ → ℕ
alaw_magnitude code =
    let exponent = code / 16 % 8 in
    let mantissa = code % 16 in
    if exponent == 0 then mantissa * 2 + 1 else (mantissa + 16) * 2 ^ exponent + 2 ^ (exponent - 1)

unfoldable pub alaw_to_linear : ℕ → ℤ
alaw_to_linear alaw =
    let code = bit_xor alaw 0x55 in
    if leb 128 code
    then sub_ℕ 0 (alaw_magnitude (code - 128) * 8)
    else pos (alaw_magnitude code * 8)

unfoldable pub decode_g711a : List ℕ → List ℤ
unfolding alaw_to_linear
decode_g711a = map alaw_to_linear

abbrev pub clip_ulaw : ℕ → ℕ
clip_ulaw mag = if ltb 32635 mag then 32635 else mag

-- The tests for the bits 14 to 8 of the biased magnitude, in turn.
unfoldable pub ulaw_exponent : ℕ → ℕ
ulaw_exponent s =
    if s / 0x4000 % 2 == 1
    then 7
    else if s / 0x2000 % 2 == 1
    then 6
    else if s / 0x1000 % 2 == 1
    then 5
    else if s / 0x800 % 2 == 1
    then 4
    else if s / 0x400 % 2 == 1
    then 3
    else if s / 0x200 % 2 == 1
    then 2
    else if s / 0x100 % 2 == 1
    then 1
    else 0

-- The byte of a sign, an exponent and a mantissa, inverted.
abbrev pub ulaw_byte : ℕ → ℕ → ℕ → ℕ
ulaw_byte sign exp s = 255 - (sign + exp * 16 + s / 2 ^ (exp + 3) % 16)

unfoldable pub linear_to_ulaw : ℤ → ℕ
unfolding ulaw_exponent
linear_to_ulaw sample =
    let sign : ℕ = if ltb_ℤ sample (pos 0) then 128 else 0 in
    let s = clip_ulaw (nat_abs sample) + 132 in ulaw_byte sign (ulaw_exponent s) s

unfoldable pub encode_g711u : List ℤ → List ℕ
unfolding linear_to_ulaw
encode_g711u = map linear_to_ulaw

-- The loop that counts the bits of `v`, on fuel.
unfoldable pub bit_length : ℕ → ℕ → ℕ
bit_length zero v = 0
bit_length (suc fuel) v = let rest = bit_length fuel (v / 2) in if v == 0 then 0 else rest + 1

abbrev pub clip_alaw : ℕ → ℕ
clip_alaw t = if ltb 4095 t then 4095 else t

-- `t` has 12 bits at most.
unfoldable pub alaw_exponent : ℕ → ℕ
unfolding bit_length
alaw_exponent t =
    let exp = bit_length 12 t - 5 in if ltb exp 1 then 1 else if ltb 7 exp then 7 else exp

unfoldable pub alaw_code : ℕ → ℕ
unfolding alaw_exponent
alaw_code t =
    if leb 32 t
    then alaw_exponent t * 16 + t / 2 ^ alaw_exponent t % 16
    else if ltb 0 t
    then (t - 1) / 2
    else 0

unfoldable pub linear_to_alaw : ℤ → ℕ
unfolding alaw_code
linear_to_alaw sample =
    let sign : ℕ = if ltb_ℤ sample (pos 0) then 128 else 0 in
    bit_xor (sign + alaw_code (clip_alaw (nat_abs sample / 8))) 0x55

unfoldable pub encode_g711a : List ℤ → List ℕ
unfolding linear_to_alaw
encode_g711a = map linear_to_alaw
