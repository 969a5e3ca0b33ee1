-- ===== src/Jitter/Plc.antt =====
-- pkg/rtp/jitter.go: the concealment of lost packets, GeneratePLC, OnGoodPacket and detectPitch. An
-- index out of range is a panic, and `none` here.
pub mod Pitch
pub mod Frames
pub mod Conceal
use clear_stream.Prelude.{
  ℕ, zero, suc, ◌+◌, ◌-◌, ◌/◌, ◌%◌, Bool, true, false, ◌||◌, Option, none, some, List, [], ◌∷◌,
  ◌++◌, ltb, leb, ◌==◌, if◌then◌else◌, length, drop, replicate, get_elem?, map, ℤ, pos, negsuc,
  Float,
}
use clear_stream.Jitter.{JitterBuffer}

abbrev pub min_lag : ℕ
min_lag = 30

abbrev pub max_lag : ℕ → ℕ
max_lag n = if ltb 450 (n / 2) then 450 else n / 2

-- lastGoodFrame[frameLen-period:]
unfoldable pub tail_from : ℕ → List ℤ → Option (List ℤ)
tail_from period last_good =
    if ltb (length last_good) period
    then none
    else some (drop (length last_good - period) last_good)

-- tail[i % period]; a remainder by 0 is a panic as well.
unfoldable pub tail_sample : ℕ → ℕ → List ℤ → Option ℤ
tail_sample i period tail = if period == 0 then none else get_elem? tail (i % period)

-- result[i] = tail[i % period], for the samples that are left.
unfoldable pub repeat_tail : ℕ → ℕ → ℕ → List ℤ → Option (List ℤ)
unfolding tail_sample
repeat_tail zero i period tail = some []
repeat_tail (suc left) i period tail = elim (tail_sample i period tail) [
  | none ↦ none
  | some s ↦ elim (repeat_tail left (i + 1) period tail) [
    | none ↦ none
    | some rest ↦ some (s ∷ rest)
  ]
]

-- The period that is repeated.
unfoldable pub held_period : ℕ → ℕ → ℕ
held_period period frame_len = if period == 0 || ltb frame_len period then frame_len else period

abbrev pub or_else : Option (List ℤ) → List ℤ → List ℤ
or_else none d = d
or_else (some xs) d = xs

module _ {F : Type 0} (fl : Float F) where
  open fl use {ratio, of_int, to_int, add, mul, div, lt}

  -- The sum of the products of two frames, sample by sample.
  pub correlate : F → List ℤ → List ℤ → F
  correlate acc [] ys = acc
  correlate acc (x ∷ xs) [] = acc
  correlate acc (x ∷ xs) (y ∷ ys) = correlate (add acc (mul (of_int x) (of_int y))) xs ys

  -- The loop over the lags, for the rounds that are left.
  pub search_lags : ℕ → ℕ → List ℤ → F → ℕ → F → ℕ
  search_lags zero lag samples energy best_lag best_corr = best_lag
  search_lags (suc rounds) lag samples energy best_lag best_corr =
      let corr = correlate (ratio 0 1) samples (drop lag samples) in
      let norm = div corr energy in
      let better = lt best_corr norm in
      search_lags rounds (lag + 1) samples energy (if better then lag else best_lag)
        (if better then norm else best_corr)

  -- An octave jump from the last period is rejected.
  pub continue_pitch : ℕ → ℕ → ℕ
  continue_pitch prev_pitch best_lag =
      if ltb 0 prev_pitch
      then (let jump = div (of_int (pos best_lag)) (of_int (pos prev_pitch)) in
          if lt (ratio 3 2) jump || lt jump (ratio 67 100) then prev_pitch else best_lag)
      else best_lag

  unfoldable pub detect_pitch : List ℤ → ℕ → ℕ
  detect_pitch samples prev_pitch =
      let n = length samples in
      let energy = correlate (ratio 0 1) samples samples in
      if ltb n 80
      then n
      else if lt energy (ratio 1 1)
      then n / 4
      else continue_pitch prev_pitch
          (search_lags (max_lag n + 1 - min_lag) min_lag samples energy (n / 4) (of_int (negsuc 0)))

  abbrev pub fade_sample : ℤ → ℤ
  fade_sample s = to_int (mul (of_int s) (ratio 85 100))

  -- The loop writes a sample of `result` for each one of `src`.
  unfoldable pub fade : ℕ → List ℤ → Option (List ℤ)
  fade frame_len src =
      if ltb frame_len (length src)
      then none
      else some (map fade_sample src ++ replicate (frame_len - length src) (pos 0))

module _ {F : Type 0} ⦃fl : Float F⦄ where
  unfoldable pub conceal : JitterBuffer F → List ℤ → Option (JitterBuffer F × List ℤ)
  unfolding held_period tail_from repeat_tail fade
  conceal j last_good =
      let frame_len = length last_good in
      if leb j.consecutive_loss 2
      then (let period = detect_pitch fl last_good j.prev_pitch in
          let held = held_period period frame_len in
          elim (tail_from held last_good) [
            | none ↦ none
            | some tail ↦ elim (repeat_tail frame_len 0 held tail) [
              | none ↦ none
              | some result ↦
                  some (record j { prev_pitch = period; prev_plc = some result }, result)
            ]
          ])
      else elim (fade fl frame_len (or_else j.prev_plc last_good)) [
        | none ↦ none
        | some result ↦ some (record j { prev_plc = some result }, result)
      ]

  -- With no frame to start from, silence.
  unfoldable pub conceal_from : Option (List ℤ) → JitterBuffer F → Option (JitterBuffer F × List ℤ)
  conceal_from none j = some (j, replicate 160 (pos 0))
  conceal_from (some last_good) j = conceal j last_good

  unfoldable pub generate_plc : JitterBuffer F → Option (JitterBuffer F × List ℤ)
  unfolding conceal_from
  generate_plc j =
      conceal_from j.last_good_frame (record j { consecutive_loss = j.consecutive_loss + 1 })

  unfoldable pub on_good_packet : List ℤ → JitterBuffer F → JitterBuffer F
  on_good_packet samples j = record j {
    consecutive_loss = 0;
    prev_plc = none;
    last_good_frame = some samples;
  }
