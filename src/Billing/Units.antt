-- ===== src/Billing/Units.antt =====
-- pkg/billing/cdr.go and meter.go: what a call is billed.
use native.Mathlib.Nat.{div-le_self, div-mul-le_self, lt-div-mul-add}
use clear_stream.Prelude.{
  ℕ, ◌+◌, ◌-◌, ◌*◌, ◌/◌, ◌^◌, ◌≤◌, ◌<◌, ◌≡◌, ◌⊎◌, ◌∙◌, ap₂, ℤ, pos, Float, ltb, if◌then◌else◌, List,
  arith,
}
use clear_stream.Billing.{
  MeterConfig, units_of, new_cdr, finalize, int32, new_session_meter, duration_of, pulse_of,
}

-- The pulses that cover a duration.
abbrev pub pulses : ℕ → ℕ → ℕ
pulses d p = (d + (p - 1)) / p

-- The quotient is rounded up as if it were exact, as float64 does for less than 2 ^ 53.
abbrev pub IsExactCeil : {F : Type 0} → Float F → ℕ → ℕ → Type 0
IsExactCeil fl d p =
    fl.to_int (fl.ceil (fl.div (fl.of_int (pos d)) (fl.of_int (pos p)))) ≡ pos (pulses d p)

-- A number of pulses that covers a duration, and is the least that does, but never 0.
abbrev pub IsBilled : ℕ → ℕ → ℕ → Type 0
IsBilled d p u = (1 ≤ u) × (d ≤ u * p) × ((u ≡ 1) ⊎ (u * p < d + p))

pulses_lem : (d p : ℕ) → 0 < p → (d ≤ pulses d p * p) × (pulses d p * p < d + p)
pulses_lem d p h =
    let below = div-mul-le_self (d + (p - 1)) p in
    let above = lt-div-mul-add {a = d + (p - 1)} h in omega arith

int32-pos : (n : ℕ) → n < 2 ^ 31 → int32 (pos n) ≡ pos n
int32-pos n h = ground arith

least : (n : ℕ) → ℕ
least n = if ltb n 1 then 1 else n

least-IsBilled : (d p : ℕ) → 0 < p → IsBilled d p (least (pulses d p))
unfolding least
least-IsBilled d p h = let bounds = pulses_lem d p h in ground arith

module _ {F : Type 0} (fl : Float F) where
  units_of-pos :
      (d p : ℕ)
      → 0 < p
      → d + p < 2 ^ 31
      → IsExactCeil fl d p
      → units_of fl (pos d) (pos p) ≡ pos (least (pulses d p))
  unfolding units_of least
  units_of-pos d p hp hd e =
      let fits : pulses d p < 2 ^ 31 = omega (arith, div-le_self (d + (p - 1)) p) in
      rw (e, int32-pos (pulses d p) fits) (ground arith)

pulse_of-pos : (x : ℤ) (p : ℕ) → pulse_of x ≡ pos p → 0 < p
pulse_of-pos x p h = ground arith

pulse_of_twice : (x : ℤ) → pulse_of (pulse_of x) ≡ pulse_of x
pulse_of_twice x = ground arith

duration_of_lem :
    (start now : ℕ)
    → start ≤ now
    → now / 1000000 - start / 1000000 < 2 ^ 31
    → duration_of (start / 1000000 * 1000000) now ≡ pos (now / 1000000 - start / 1000000)
duration_of_lem start now h k = ground arith

module _ {F : Type 0} (fl : Float F) where
  -- A call that a meter has followed from its start to a later hang-up lasts as many milliseconds
  -- as the clock's whole milliseconds have advanced, and is billed the least number of pulses that
  -- covers them, but at least one. The pulse is the configured one, or 6 seconds where that is not
  -- positive; duration and pulse together are below 2 ^ 31 ms, and the float64 quotient is rounded up
  -- exactly.
  pub finalize-IsBilled :
      (cfg : MeterConfig) (host : List ℕ) (start now p : ℕ) (lat loss snr : F) (err_code : ℤ)
      → pulse_of cfg.pulse_ms ≡ pos p
      → start ≤ now
      → now / 1000000 - start / 1000000 + p < 2 ^ 31
      → IsExactCeil fl (now / 1000000 - start / 1000000) p
      → let r = finalize ⦃fl = fl⦄ (new_session_meter cfg host start) now lat loss snr err_code in
        (r.duration_ms ≡ pos (now / 1000000 - start / 1000000))
        × ((u : ℕ) × (r.billed_units ≡ pos u) × IsBilled (now / 1000000 - start / 1000000) p u)
  unfolding finalize new_session_meter new_cdr
  finalize-IsBilled cfg host start now p lat loss snr err_code hp hs hb e =
      let d = now / 1000000 - start / 1000000 in
      let positive = pulse_of-pos cfg.pulse_ms p hp in
      let lasts = duration_of_lem start now hs (omega arith) in
      let again = pulse_of_twice cfg.pulse_ms ∙ hp in
      let bills = ap₂ (units_of fl) lasts again ∙ units_of-pos fl d p positive (omega arith) e in
      (lasts, (least (pulses d p), bills, least-IsBilled d p positive))
