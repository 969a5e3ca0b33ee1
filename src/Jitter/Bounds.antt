-- ===== src/Jitter/Bounds.antt =====
-- pkg/rtp/jitter.go: what holds of every jitter buffer, whatever packets arrive: its length, its
-- depth, its counter, and that no number is buffered twice.
use clear_stream.Prelude.{
  ℕ, ◌≤◌, ◌<◌, ◌≡◌, ◌⊎◌, List, [], ◌∷◌, false, arith, length, Bool-cases, inl, inr, ℤ, Float,
  length-take-le,
}
use clear_stream.Jitter.{
  JitterEntry, JitterBuffer, Drift, resync, stale, near, has_seq, insert, new_jitter_buffer,
  track_arrival, prime, count_frame, store, dispatch, push, pop, reset,
}
use clear_stream.Jitter.Insert.{Distinct, insert-Distinct, take-Distinct}

module _ {F : Type 0} ⦃fl : Float F⦄ where
  pub record IsBounded (j : JitterBuffer F) : Type 0 where
    pub cap : j.max_depth ≡ 32
    pub fits : length j.buf ≤ 32
    pub distinct : Distinct j.buf
    pub deep : 0 < j.depth
    pub initially_deep : 0 < j.initial_depth
    pub adapted : (j.depth ≡ j.initial_depth) ⊎ ((2 ≤ j.depth) × (j.depth ≤ 16))
    pub counted : j.adapt_frames < 100

  pub new_jitter_buffer-IsBounded : (depth : ℤ) → IsBounded (new_jitter_buffer depth)
  unfolding new_jitter_buffer
  new_jitter_buffer-IsBounded depth = ground arith

  track_arrival-IsBounded :
      (now : ℕ) (j : JitterBuffer F) → IsBounded j → IsBounded (track_arrival now j)
  unfolding track_arrival
  track_arrival-IsBounded now j b = ground arith

  prime-IsBounded : (j : JitterBuffer F) → IsBounded j → IsBounded (prime j)
  unfolding prime
  prime-IsBounded j b = ground arith

  count_frame-IsBounded : (j : JitterBuffer F) → IsBounded j → IsBounded (count_frame j)
  unfolding count_frame
  count_frame-IsBounded j b = ground arith

  store-IsBounded : (e : JitterEntry) (j : JitterBuffer F) → IsBounded j → IsBounded (store e j).0
  unfolding store
  store-IsBounded e j b = elim (Bool-cases (has_seq e.seq j.buf)) [
    | inl old ↦ rw old b
    | inr new ↦ rw new (
        count_frame-IsBounded _ (
          prime-IsBounded _ (record {
            cap = b.cap;
            fits = omega (arith, length-take-le j.max_depth (insert e j.buf), b.cap);
            distinct =
                take-Distinct j.max_depth (insert e j.buf) (insert-Distinct e j.buf new b.distinct);
            deep = b.deep;
            initially_deep = b.initially_deep;
            adapted = b.adapted;
            counted = b.counted;
          })))
  ]

  dispatch-IsBounded :
      (d : Drift) (e : JitterEntry) (j : JitterBuffer F)
      → IsBounded j
      → IsBounded (dispatch d e j).0
  unfolding dispatch
  dispatch-IsBounded resync e j b =
      store-IsBounded e (record j { buf = []; primed = false }) (ground arith)
  dispatch-IsBounded stale e j b = b
  dispatch-IsBounded near e j b = store-IsBounded e j b

  pub push-IsBounded :
      (now seq ts : ℕ) (payload : List ℕ) (j : JitterBuffer F)
      → IsBounded j
      → IsBounded (push now seq ts payload j).0
  unfolding push
  push-IsBounded now seq ts payload j b = dispatch-IsBounded _ _ _ (track_arrival-IsBounded now j b)

  pub pop-IsBounded : (j : JitterBuffer F) → IsBounded j → IsBounded (pop j).0
  unfolding pop
  pop-IsBounded j b = ground arith

  pub reset-IsBounded : (j : JitterBuffer F) → IsBounded j → IsBounded (reset j)
  unfolding reset
  reset-IsBounded j b = ground arith

-- A call of the buffer's interface.
pub data Call : Type 0 where
  pushes : ℕ → ℕ → ℕ → List ℕ → Call
  pops resets : Call

module _ {F : Type 0} ⦃fl : Float F⦄ where
  pub step : JitterBuffer F → Call → JitterBuffer F
  step j (pushes now seq ts payload) = (push now seq ts payload j).0
  step j pops = (pop j).0
  step j resets = reset j

  pub run : JitterBuffer F → List Call → JitterBuffer F
  run j [] = j
  run j (c ∷ cs) = run (step j c) cs

  step-IsBounded : (j : JitterBuffer F) (c : Call) → IsBounded j → IsBounded (step j c)
  unfolding step
  step-IsBounded j (pushes now seq ts payload) b = push-IsBounded now seq ts payload j b
  step-IsBounded j pops b = pop-IsBounded j b
  step-IsBounded j resets b = reset-IsBounded j b

  run_from-IsBounded : (j : JitterBuffer F) (cs : List Call) → IsBounded j → IsBounded (run j cs)
  unfolding run
  run_from-IsBounded j [] b = b
  run_from-IsBounded j (c ∷ cs) b = run_from-IsBounded (step j c) cs (step-IsBounded j c b)

  -- After any history of pushes, pops and resets on a new buffer, it holds at most 32 packets, no
  -- sequence number twice, its depth is the configured one or lies between 2 and 16, and its
  -- counter of frames is below 100.
  pub run-IsBounded : (depth : ℤ) (cs : List Call) → IsBounded (run (new_jitter_buffer depth) cs)
  run-IsBounded depth cs =
      run_from-IsBounded (new_jitter_buffer depth) cs (new_jitter_buffer-IsBounded depth)
