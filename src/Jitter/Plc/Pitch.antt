-- ===== src/Jitter/Plc/Pitch.antt =====
-- pkg/rtp/jitter.go, detectPitch: where the detected period lies.
use clear_stream.Prelude.{
  ℕ, zero, suc, ◌+◌, ◌-◌, ◌/◌, ◌≤◌, ◌<◌, ◌≡◌, ◌⊎◌, inl, inr, refl, List, length, drop, ℤ, negsuc,
  Float, arith, Bool-cases,
}
use clear_stream.Jitter.Plc.{correlate, search_lags, continue_pitch, detect_pitch, min_lag, max_lag}

module _ {F : Type 0} (fl : Float F) where
  open fl use {ratio, div, lt}

  -- The loop keeps the lag that it was given, or finds one in its range.
  search_lags_range :
      (rounds lag : ℕ) (samples : List ℤ) (energy : F) (best : ℕ) (corr : F)
      → (search_lags fl rounds lag samples energy best corr ≡ best)
        ⊎ ((lag ≤ search_lags fl rounds lag samples energy best corr)
            × (search_lags fl rounds lag samples energy best corr < lag + rounds))
  unfolding search_lags
  search_lags_range zero lag samples energy best corr = inl refl
  search_lags_range (suc rounds) lag samples energy best corr =
      let norm = div (correlate fl (ratio 0 1) samples (drop lag samples)) energy in
      elim (Bool-cases (lt corr norm)) [
        | inl better ↦
            rw better (ground (arith, search_lags_range rounds (lag + 1) samples energy lag norm))
        | inr worse ↦
            rw worse (ground (arith, search_lags_range rounds (lag + 1) samples energy best corr))
      ]

  continue_pitch_cases :
      (prev best : ℕ)
      → (continue_pitch fl prev best ≡ best) ⊎ ((continue_pitch fl prev best ≡ prev) × (0 < prev))
  unfolding continue_pitch
  continue_pitch_cases prev best = ground arith

  -- The detected period: a frame shorter than 80 samples is taken whole. For a longer one it is a
  -- quarter of the frame, a lag from 30 to half the frame and at most 450, or the last period.
  detect_pitch_range :
      (samples : List ℤ) (prev : ℕ)
      → let n = length samples in
        let p = detect_pitch fl samples prev in
        ((n < 80) × (p ≡ n))
        ⊎ ((80 ≤ n)
            × ((p ≡ n / 4) ⊎ ((30 ≤ p) × (p ≤ n / 2) × (p ≤ 450)) ⊎ ((p ≡ prev) × (0 < prev))))
  unfolding detect_pitch
  detect_pitch_range samples prev =
      let n = length samples in
      let energy = correlate fl (ratio 0 1) samples samples in
      let best =
        search_lags fl (max_lag n + 1 - min_lag) min_lag samples energy (n / 4)
          (fl.of_int (negsuc 0)) in
      ground (
        arith,
        search_lags_range (max_lag n + 1 - min_lag) min_lag samples energy (n / 4)
            (fl.of_int (negsuc 0)),
        continue_pitch_cases prev best,
      )
