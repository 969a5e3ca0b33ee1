-- ===== src/Jitter/Store.antt =====
-- pkg/rtp/jitter.go, Push: the verdict on a packet, and how a packet is stored.
use clear_stream.Prelude.{
  ℕ, ◌≤◌, ◌<◌, ◌≡◌, ◌≢◌, ◌⊎◌, refl, ap₂, ◌∙◌, List, [], ◌∷◌, true, false, arith, sub16, take, Float,
  take_all, leb,
}
use clear_stream.Jitter.{
  JitterEntry, JitterBuffer, Drift, resync, stale, near, has_seq, insert, classify, track_arrival,
  prime, count_frame, store, dispatch, push,
}

-- The packet as it is buffered.
abbrev pub entry : ℕ → ℕ → ℕ → List ℕ → JitterEntry
entry now seq ts payload = record { seq = seq; timestamp = ts; payload = payload; received = now }

-- The verdict in terms of the distance ahead of the next number.
pub classify-distance :
    (next seq : ℕ)
    → next < 65536
    → seq < 65536
    → ((classify next seq ≡ near) → (sub16 seq next ≤ 500) ⊎ (sub16 seq next ≡ 32768))
      × ((classify next seq ≡ stale) → 65036 ≤ sub16 seq next)
      × ((classify next seq ≡ resync)
          → (500 < sub16 seq next) × (sub16 seq next < 65036) × (sub16 seq next ≢ 32768))
unfolding classify
classify-distance next seq h k = ground arith

pub classify_near :
    (next seq : ℕ) → next < 65536 → seq < 65536 → sub16 seq next ≤ 500 → classify next seq ≡ near
unfolding classify
classify_near next seq r s h = ground arith

pub classify_stale :
    (next seq : ℕ) → next < 65536 → seq < 65536 → 65036 ≤ sub16 seq next → classify next seq ≡ stale
unfolding classify
classify_stale next seq r s h = ground arith

pub classify_resync :
    (next seq : ℕ)
    → next < 65536
    → seq < 65536
    → 500 < sub16 seq next
    → sub16 seq next < 65036
    → sub16 seq next ≢ 32768
    → classify next seq ≡ resync
unfolding classify
classify_resync next seq r s h k ne = ground arith

-- The two distances that `Push` compares are both half the circle, and neither test fires.
pub classify_half :
    (next seq : ℕ) → next < 65536 → seq < 65536 → sub16 seq next ≡ 32768 → classify next seq ≡ near
unfolding classify
classify_half next seq r s h = ground arith

module _ {F : Type 0} ⦃fl : Float F⦄ where
  pub track_arrival-keeps :
      (now : ℕ) (j : JitterBuffer F)
      → ((track_arrival now j).buf ≡ j.buf)
        × ((track_arrival now j).next_seq ≡ j.next_seq)
        × ((track_arrival now j).primed ≡ j.primed)
        × ((track_arrival now j).max_depth ≡ j.max_depth)
        × ((track_arrival now j).depth ≡ j.depth)
  unfolding track_arrival
  track_arrival-keeps now j = ground arith

  pub count_frame-keeps :
      (j : JitterBuffer F)
      → ((count_frame j).buf ≡ j.buf)
        × ((count_frame j).next_seq ≡ j.next_seq)
        × ((count_frame j).primed ≡ j.primed)
  unfolding count_frame
  count_frame-keeps j = ground arith

  pub prime-buf : (j : JitterBuffer F) → (prime j).buf ≡ j.buf
  unfolding prime
  prime-buf j = ground arith

  pub prime_idle : (j : JitterBuffer F) → j.primed ≡ true → prime j ≡ j
  unfolding prime
  prime_idle j p = ground arith

  -- A new packet, and the buffer that its insertion and the tail drop leave.
  pub store_new :
      (e : JitterEntry) (j : JitterBuffer F) (g : List JitterEntry)
      → has_seq e.seq j.buf ≡ false
      → take j.max_depth (insert e j.buf) ≡ g
      → (store e j).0 ≡ count_frame (prime (record j { buf = g }))
  unfolding store
  store_new e j g new grown = rw (new, grown)

  pub store_old :
      (e : JitterEntry) (j : JitterBuffer F)
      → has_seq e.seq j.buf ≡ true
      → store e j ≡ (j, j.primed)
  unfolding store
  store_old e j old = rw old

  -- What a primed buffer is after a new packet was stored in it.
  pub store_primed :
      (e : JitterEntry) (j : JitterBuffer F)
      → j.primed ≡ true
      → has_seq e.seq j.buf ≡ false
      → ((store e j).0.buf ≡ take j.max_depth (insert e j.buf))
        × ((store e j).0.next_seq ≡ j.next_seq)
        × ((store e j).0.primed ≡ true)
  store_primed e j p new =
      let grown : JitterBuffer F = record j { buf = take j.max_depth (insert e j.buf) } in
      rw (store_new e j _ new refl, prime_idle grown p) (ground (arith, count_frame-keeps grown))

  -- The first packet of an empty, unprimed buffer: it primes the buffer only if one is enough.
  pub store_first :
      (e : JitterEntry) (j : JitterBuffer F)
      → j.buf ≡ []
      → j.primed ≡ false
      → 0 < j.max_depth
      → ((store e j).0.buf ≡ e ∷ [])
        × ((store e j).0.primed ≡ leb j.depth 1)
        × ((store e j).0.primed ≡ true → (store e j).0.next_seq ≡ e.seq)
  unfolding has_seq insert prime
  store_first e j b p m =
      let grown : JitterBuffer F = record j { buf = e ∷ [] } in
      rw (store_new e j (e ∷ []) (rw b) (rw b (take_all j.max_depth (e ∷ []) m)))
        (ground (arith, count_frame-keeps (prime grown)))

  -- What `push` does to a primed buffer, by the verdict on the packet.
  pub push_primed :
      (now seq ts : ℕ) (payload : List ℕ) (j : JitterBuffer F) {d : Drift}
      → j.primed ≡ true
      → classify j.next_seq seq ≡ d
      → push now seq ts payload j ≡ dispatch d (entry now seq ts payload) (track_arrival now j)
  unfolding push
  push_primed now seq ts payload j p c =
      let kept = track_arrival-keeps now j in rw (kept.2, kept.1, p, c)

module _ {F : Type 0} ⦃fl : Float F⦄ where
  -- A packet that is neither stale nor a discontinuity, nor buffered already.
  pub push_stored :
      (now seq ts : ℕ) (payload : List ℕ) (j : JitterBuffer F)
      → j.primed ≡ true
      → classify j.next_seq seq ≡ near
      → has_seq seq j.buf ≡ false
      → let j' = (push now seq ts payload j).0 in
        (j'.buf ≡ take j.max_depth (insert (entry now seq ts payload) j.buf))
        × (j'.next_seq ≡ j.next_seq)
        × (j'.primed ≡ true)
  unfolding dispatch
  push_stored now seq ts payload j p c new =
      let kept = track_arrival-keeps now j in
      let stored =
        store_primed (entry now seq ts payload) (track_arrival now j) (kept.2 ∙ p)
          (rw kept.0 new) in
      rw (push_primed now seq ts payload j p c) (
        stored.0 ∙ ap₂ (λ n xs. take n (insert (entry now seq ts payload) xs)) kept.3 kept.0,
        stored.1 ∙ kept.1,
        stored.2,
      )

  pub push_unprimed :
      (now seq ts : ℕ) (payload : List ℕ) (j : JitterBuffer F)
      → j.primed ≡ false
      → push now seq ts payload j ≡ store (entry now seq ts payload) (track_arrival now j)
  unfolding push
  push_unprimed now seq ts payload j p = let kept = track_arrival-keeps now j in rw (kept.2, p)
