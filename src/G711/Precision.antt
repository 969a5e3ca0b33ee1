-- ===== src/G711/Precision.antt =====
-- pkg/rtp/session.go: how far a decoded sample lies from the one that was encoded.
use native.Mathlib.Decide.{dec_lt}
use native.Mathlib.Nat.{add-zero, zero-add}
use clear_stream.Prelude.{
  ℕ, zero, suc, ◌+◌, ◌-◌, ◌*◌, ◌/◌, ◌%◌, ◌^◌, ◌≤◌, ◌<◌, ◌≡◌, refl, ap, ◌∙◌, true, false, ltb, leb,
  ℤ, pos, negsuc, nat_abs, pos_part, neg_part, sub_ℕ, arith,
}
use clear_stream.G711.{ulaw_to_linear, linear_to_ulaw, clip_ulaw, ulaw_exponent, ulaw_byte}

-- The distance between two numbers.
abbrev dist : ℕ → ℕ → ℕ
dist a b = (a - b) + (b - a)

-- A biased magnitude, coded and decoded.
ulaw_middle : (s : ℕ) → ℕ
ulaw_middle s = (s / 2 ^ (ulaw_exponent s + 3) % 16 * 8 + 132) * 2 ^ ulaw_exponent s

-- For each exponent the magnitude lies between two powers of two.
ulaw_close_at :
    (e s : ℕ)
    → e < 8
    → 128 * 2 ^ e ≤ s
    → s < 256 * 2 ^ e
    → dist ((s / 2 ^ (e + 3) % 16 * 8 + 132) * 2 ^ e) s * 32 ≤ s
ulaw_close_at zero s h lo hi = omega arith
ulaw_close_at (suc zero) s h lo hi = omega arith
ulaw_close_at (suc (suc zero)) s h lo hi = omega arith
ulaw_close_at (suc (suc (suc zero))) s h lo hi = omega arith
ulaw_close_at (suc (suc (suc (suc zero)))) s h lo hi = omega arith
ulaw_close_at (suc (suc (suc (suc (suc zero))))) s h lo hi = omega arith
ulaw_close_at (suc (suc (suc (suc (suc (suc zero)))))) s h lo hi = omega arith
ulaw_close_at (suc (suc (suc (suc (suc (suc (suc zero))))))) s h lo hi = omega arith
ulaw_close_at (suc (suc (suc (suc (suc (suc (suc (suc e)))))))) s h lo hi = absurd (omega arith)

-- The exponent that the tests find.
ulaw_exponent_range :
    (s : ℕ)
    → 132 ≤ s
    → s < 32768
    → (e : ℕ) × (ulaw_exponent s ≡ e) × (e < 8) × (128 * 2 ^ e ≤ s) × (s < 256 * 2 ^ e)
unfolding ulaw_exponent
ulaw_exponent_range s lo hi = elim (dec_lt s 16384) [
  | no p ↦ (7, ground arith, omega arith, omega arith, omega arith)
  | yes p₇ ↦ elim (dec_lt s 8192) [
    | no p ↦ (6, ground arith, omega arith, omega arith, omega arith)
    | yes p₆ ↦ elim (dec_lt s 4096) [
      | no p ↦ (5, ground arith, omega arith, omega arith, omega arith)
      | yes p₅ ↦ elim (dec_lt s 2048) [
        | no p ↦ (4, ground arith, omega arith, omega arith, omega arith)
        | yes p₄ ↦ elim (dec_lt s 1024) [
          | no p ↦ (3, ground arith, omega arith, omega arith, omega arith)
          | yes p₃ ↦ elim (dec_lt s 512) [
            | no p ↦ (2, ground arith, omega arith, omega arith, omega arith)
            | yes p₂ ↦ elim (dec_lt s 256) [
              | no p ↦ (1, ground arith, omega arith, omega arith, omega arith)
              | yes p₁ ↦ (0, ground arith, omega arith, omega arith, omega arith)
            ]
          ]
        ]
      ]
    ]
  ]
]

ulaw_middle_close : (s : ℕ) → 132 ≤ s → s < 32768 → dist (ulaw_middle s) s * 32 ≤ s
unfolding ulaw_middle
ulaw_middle_close s lo hi =
    let (e, is, small, above, below) = ulaw_exponent_range s lo hi in
    rw is (ulaw_close_at e s small above below)

-- The distance between two samples.
abbrev pub gap : ℤ → ℤ → ℕ
gap a b = dist (pos_part a + neg_part b) (pos_part b + neg_part a)

gap_pos : (t n : ℕ) → gap (sub_ℕ t 132) (pos n) ≡ dist t (n + 132)
gap_pos t n = ground arith

gap_neg : (t k : ℕ) → gap (sub_ℕ 132 t) (negsuc k) ≡ dist t (suc k + 132)
gap_neg t k = ground arith

-- A code without and with the sign bit is decoded to its middle.
ulaw_to_linear-pos :
    (e m : ℕ)
    → e < 8
    → m < 16
    → ulaw_to_linear (255 - (0 + e * 16 + m)) ≡ sub_ℕ ((m * 8 + 132) * 2 ^ e) 132
unfolding ulaw_to_linear
ulaw_to_linear-pos e m he hm =
    let flipped : 255 - (255 - (0 + e * 16 + m)) ≡ e * 16 + m = omega arith in
    let low : (e * 16 + m) % 16 ≡ m = omega arith in
    let high : (e * 16 + m) / 16 % 8 ≡ e = omega arith in
    let plus : leb 128 (e * 16 + m) ≡ false = ground arith in rw (flipped, low, high, plus)

ulaw_to_linear-neg :
    (e m : ℕ)
    → e < 8
    → m < 16
    → ulaw_to_linear (255 - (128 + e * 16 + m)) ≡ sub_ℕ 132 ((m * 8 + 132) * 2 ^ e)
unfolding ulaw_to_linear
ulaw_to_linear-neg e m he hm =
    let flipped : 255 - (255 - (128 + e * 16 + m)) ≡ 128 + e * 16 + m = omega arith in
    let low : (128 + e * 16 + m) % 16 ≡ m = omega arith in
    let high : (128 + e * 16 + m) / 16 % 8 ≡ e = omega arith in
    let minus : leb 128 (128 + e * 16 + m) ≡ true = ground arith in rw (flipped, low, high, minus)

ulaw_exponent-lt : (s : ℕ) → ulaw_exponent s < 8
unfolding ulaw_exponent
ulaw_exponent-lt s = ground arith

full_scale : ulaw_middle 32767 ≡ 32256
unfolding ulaw_middle ulaw_exponent
full_scale = refl

-- The middle of what a magnitude is clipped to.
clipped_close :
    (mag : ℕ) → mag ≤ 32768 → dist (ulaw_middle (clip_ulaw mag + 132)) (mag + 132) * 32 ≤ mag + 132
clipped_close mag h = elim (dec_lt 32635 mag) [
  | yes over ↦ let top : ltb 32635 mag ≡ true = ground arith in rw top (omega (arith, full_scale))
  | no fits ↦
      let within : ltb 32635 mag ≡ false = ground arith in
      rw within (ulaw_middle_close (mag + 132) (omega arith) (omega arith))
]

-- A sample by its sign.
linear_to_ulaw-pos :
    (n : ℕ)
    → linear_to_ulaw (pos n) ≡ ulaw_byte 0 (ulaw_exponent (clip_ulaw n + 132)) (clip_ulaw n + 132)
unfolding linear_to_ulaw
linear_to_ulaw-pos n = let plus : ltb n 0 ≡ false = ground arith in rw (add-zero n, plus)

linear_to_ulaw-neg :
    (k : ℕ)
    → linear_to_ulaw (negsuc k)
      ≡ ulaw_byte 128 (ulaw_exponent (clip_ulaw (suc k) + 132)) (clip_ulaw (suc k) + 132)
unfolding linear_to_ulaw
linear_to_ulaw-neg k =
    let minus : ltb 0 (suc k) ≡ true = ground arith in rw (zero-add (suc k), minus)

-- A sample that is coded in µ-law and decoded lies within a 32nd of its biased magnitude of where it
-- was, for every 16-bit sample, the most negative one too.
pub gap-ulaw :
    (sample : ℤ)
    → nat_abs sample ≤ 32768
    → gap (ulaw_to_linear (linear_to_ulaw sample)) sample * 32 ≤ nat_abs sample + 132
unfolding ulaw_middle
gap-ulaw (pos n) h =
    let s = clip_ulaw n + 132 in
    let e = ulaw_exponent s in
    let m = s / 2 ^ (e + 3) % 16 in
    let back =
      ap ulaw_to_linear (linear_to_ulaw-pos n)
      ∙ ulaw_to_linear-pos e m (ulaw_exponent-lt s) (omega arith) in
    rw back (omega (arith, clipped_close n (omega arith), gap_pos ((m * 8 + 132) * 2 ^ e) n))
gap-ulaw (negsuc k) h =
    let s = clip_ulaw (suc k) + 132 in
    let e = ulaw_exponent s in
    let m = s / 2 ^ (e + 3) % 16 in
    let back =
      ap ulaw_to_linear (linear_to_ulaw-neg k)
      ∙ ulaw_to_linear-neg e m (ulaw_exponent-lt s) (omega arith) in
    rw back (omega (arith, clipped_close (suc k) (omega arith), gap_neg ((m * 8 + 132) * 2 ^ e) k))
