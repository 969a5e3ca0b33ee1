-- ===== src/Session/Losses/Buffer.antt =====
-- pkg/rtp/jitter.go: what the calls of a session leave of the count of losses and the last good frame.
use clear_stream.Prelude.{
  ℕ, ◌≤◌, ◌<◌, ◌≡◌, refl, ◌∙◌, false, List, [], ◌∷◌, if◌then◌else◌, length, Float, arith,
}
use clear_stream.Jitter.{
  JitterBuffer, JitterEntry, Drift, resync, stale, near, classify, track_arrival, adapt_depth,
  prime, count_frame, store, dispatch, push, pop, reset,
}
use clear_stream.Session.Pcm.{bytes_to_int16_slice}

module _ {F : Type 0} ⦃fl : Float F⦄ where
  -- No loss is counted.
  abbrev pub IsUnbroken : JitterBuffer F → Type 0
  IsUnbroken j = j.consecutive_loss ≡ 0

  pub reset-IsUnbroken : (j : JitterBuffer F) → IsUnbroken (reset j)
  unfolding reset
  reset-IsUnbroken j = refl

  abbrev pub Same : JitterBuffer F → JitterBuffer F → Type 0
  Same j k =
      (j.consecutive_loss ≡ k.consecutive_loss)
      × (j.last_good_frame ≡ k.last_good_frame)
      × (j.prev_plc ≡ k.prev_plc)

  store-Same : (e : JitterEntry) (j : JitterBuffer F) → Same (store e j).0 j
  unfolding store count_frame adapt_depth prime
  store-Same e j = ground arith

  dispatch-Same : (d : Drift) (e : JitterEntry) (j : JitterBuffer F) → Same (dispatch d e j).0 j
  unfolding dispatch
  dispatch-Same resync e j = store-Same e (record j { buf = []; primed = false })
  dispatch-Same stale e j = (refl, refl, refl)
  dispatch-Same near e j = store-Same e j

  track_arrival-Same : (now : ℕ) (j : JitterBuffer F) → Same (track_arrival now j) j
  unfolding track_arrival
  track_arrival-Same now j = ground arith

  pub push-Same :
      (now seq ts : ℕ) (payload : List ℕ) (j : JitterBuffer F)
      → Same (push now seq ts payload j).0 j
  unfolding push
  push-Same now seq ts payload j =
      let j' = track_arrival now j in
      let stored =
        dispatch-Same (if j'.primed then classify j'.next_seq seq else near)
          (record { seq = seq; timestamp = ts; payload = payload; received = now }) j' in
      let tracked = track_arrival-Same now j in
      (stored.0 ∙ tracked.0, stored.1 ∙ tracked.1, stored.2 ∙ tracked.2)

  pub pop-Same : (j : JitterBuffer F) → Same (pop j).0 j
  unfolding pop
  pop-Same j = ground arith

pub samples_of : (bytes : List ℕ) → 2 ≤ length bytes → 0 < length (bytes_to_int16_slice bytes)
unfolding bytes_to_int16_slice
samples_of [] h = absurd (omega arith)
samples_of (lo ∷ []) h = absurd (omega arith)
samples_of (lo ∷ hi ∷ rest) h = omega arith
