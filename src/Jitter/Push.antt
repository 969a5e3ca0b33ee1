-- ===== src/Jitter/Push.antt =====
-- pkg/rtp/jitter.go, Push: what each kind of packet does to a primed buffer.
use clear_stream.Prelude.{
  ℕ, ◌≤◌, ◌<◌, ◌≡◌, ◌≢◌, refl, ap, ◌∙◌, List, [], ◌∷◌, true, false, arith, sub16, ◌==◌, length,
  if◌then◌else◌, some, Float, take_all, leb,
}
use clear_stream.Jitter.{JitterEntry, JitterBuffer, has_seq, insert, track_arrival, dispatch, push}
use clear_stream.Jitter.Window.{insert-Above}
use clear_stream.Jitter.Insert.{length-insert, find, find-insert}
use clear_stream.Jitter.Pop.{IsOrdered}
use clear_stream.Jitter.Store.{
  entry, classify_near, classify_stale, classify_resync, track_arrival-keeps, store_old,
  store_first, push_primed, push_stored,
}

-- A packet for a primed buffer in order.
module _ {F : Type 0} ⦃fl : Float F⦄ (now seq ts : ℕ) (payload : List ℕ) (j : JitterBuffer F)
    (p : j.primed ≡ true) (o : IsOrdered j.next_seq j) (s : seq < 65536) where
  -- On a primed buffer in playing order, a packet whose number was played or given up, up to 500
  -- back, is dropped: nothing but the arrival statistics changes.
  push_stale :
      65036 ≤ sub16 seq j.next_seq → push now seq ts payload j ≡ (track_arrival now j, true)
  unfolding dispatch
  push_stale h =
      let c = classify_stale j.next_seq seq o.range s h in
      let kept = track_arrival-keeps now j in
      rw (push_primed now seq ts payload j p c) (ground arith)

  -- On a primed buffer in playing order, a second copy of a packet up to 500 ahead that is still
  -- buffered is dropped: nothing but the arrival statistics changes.
  push_duplicate :
      sub16 seq j.next_seq ≤ 500
      → has_seq seq j.buf ≡ true
      → push now seq ts payload j ≡ (track_arrival now j, true)
  unfolding dispatch
  push_duplicate h old =
      let c = classify_near j.next_seq seq o.range s h in
      let kept = track_arrival-keeps now j in
      let e : JitterEntry = entry now seq ts payload in
      rw (push_primed now seq ts payload j p c, store_old e (track_arrival now j) (rw kept.0 old))
        (ground arith)

  -- On a primed buffer in playing order with room for one more, a packet up to 500 ahead that is not
  -- buffered yet is stored: it is found under its number, every other number is found as before, and
  -- the buffer stays primed, in order and at the same next number.
  pub push_near :
      sub16 seq j.next_seq ≤ 500
      → has_seq seq j.buf ≡ false
      → length j.buf < j.max_depth
      → let j' = (push now seq ts payload j).0 in
        ((n : ℕ)
          → find n j'.buf ≡ (if seq == n then some (entry now seq ts payload) else find n j.buf))
        × (j'.next_seq ≡ j.next_seq)
        × (j'.primed ≡ true)
        × IsOrdered j.next_seq j'
  push_near h new room =
      let e : JitterEntry = entry now seq ts payload in
      let c = classify_near j.next_seq seq o.range s h in
      let stored = push_stored now seq ts payload j p c new in
      let whole = take_all j.max_depth (insert e j.buf) (omega (arith, length-insert e j.buf)) in
      let buf = stored.0 ∙ whole in
      (
        λ n. rw buf (find-insert n e j.buf new),
        stored.1,
        stored.2,
        record {
          range = o.range;
          window = rw buf (
              insert-Above j.next_seq 0 e j.buf o.range s (omega arith) (omega arith) new o.window);
          next = λ _. stored.1;
        },
      )

  -- On a primed buffer in playing order, a packet more than 500 ahead or back, and not exactly half
  -- the circle away, starts the buffer anew: all that was buffered is dropped, and the packet alone
  -- is buffered, in order from its own number; the buffer is primed at once exactly if its depth is
  -- at most 1.
  pub push_resync :
      500 < sub16 seq j.next_seq
      → sub16 seq j.next_seq < 65036
      → sub16 seq j.next_seq ≢ 32768
      → 0 < j.max_depth
      → let j' = (push now seq ts payload j).0 in
        (j'.buf ≡ entry now seq ts payload ∷ []) × (j'.primed ≡ leb j.depth 1) × IsOrdered seq j'
  unfolding dispatch
  push_resync h k ne m =
      let kept = track_arrival-keeps now j in
      let c = classify_resync j.next_seq seq o.range s h k ne in
      let emptied : JitterBuffer F = record (track_arrival now j) { buf = []; primed = false } in
      let first =
        store_first (entry now seq ts payload) emptied refl refl (omega (arith, kept.3)) in
      rw (push_primed now seq ts payload j p c) (
        first.0,
        first.1 ∙ ap (λ d. leb d 1) kept.4,
        record { range = s; window = rw first.0 (s, omega arith, omega arith, tt); next = first.2 },
      )
