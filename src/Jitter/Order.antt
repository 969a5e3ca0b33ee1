-- ===== src/Jitter/Order.antt =====
-- pkg/rtp/jitter.go: Push keeps a buffer in playing order, primed or not.
use mathlib.Core.Path.{subst}
use clear_stream.Prelude.{
  ℕ, ◌<◌, ◌≡◌, ◌≢◌, refl, sym, ◌∙◌, List, [], ◌∷◌, true, false, arith, sub16, take, length,
  Bool-cases, inl, inr, Float, leb, ◌&&◌, not,
}
use clear_stream.Jitter.{
  JitterEntry, JitterBuffer, Drift, resync, stale, near, has_seq, insert, head_seq, classify,
  track_arrival, prime, count_frame, store, dispatch, push,
}
use clear_stream.Jitter.Window.{Above, Above-mono, Above-take, Above-rebase, insert-Above}
use clear_stream.Jitter.Pop.{IsOrdered}
use clear_stream.Jitter.Store.{
  entry, classify-distance, track_arrival-keeps, count_frame-keeps, store_new, store_old,
  push_primed, push_unprimed,
}
use clear_stream.Jitter.Push.{push_resync}

Above-head :
    (base : ℕ) (xs : List JitterEntry)
    → base < 65536
    → xs ≢ []
    → Above base 0 xs
    → (head_seq xs 0 < 65536) × Above (head_seq xs 0) 0 xs
Above-head base [] r ne a = absurd (ne refl)
Above-head base (x ∷ xs) r ne a =
    let own : Above base (sub16 x.seq base) (x ∷ xs) = (a.0, omega arith, a.2, a.3) in
    (
      a.0,
      Above-mono x.seq (x ∷ xs) (omega arith)
          (Above-rebase base x.seq (sub16 x.seq base) (x ∷ xs) r a.0 (omega arith) own),
    )

module _ {F : Type 0} ⦃fl : Float F⦄ where
  -- There is a base from which the buffer is in order.
  abbrev pub InOrder : JitterBuffer F → Type 0
  InOrder j = (base : ℕ) × IsOrdered base j

  count_frame-IsOrdered :
      (base : ℕ) (j : JitterBuffer F) → IsOrdered base j → IsOrdered base (count_frame j)
  count_frame-IsOrdered base j o =
      let kept = count_frame-keeps j in
      record {
        range = o.range;
        window = rw kept.0 o.window;
        next = λ p. kept.1 ∙ o.next (sym kept.2 ∙ p);
      }

  -- Priming takes the head's number for the base.
  prime-InOrder :
      (base : ℕ) (j : JitterBuffer F) → 0 < j.depth → IsOrdered base j → InOrder (prime j)
  unfolding prime
  prime-InOrder base j d o = elim (Bool-cases (not j.primed && leb j.depth (length j.buf))) [
    | inl fires ↦
        let filled : j.buf ≢ [] = λ e. let z : length j.buf ≡ 0 = rw e in ground arith in
        let own = Above-head base j.buf o.range filled o.window in
        rw fires (head_seq j.buf 0, record { range = own.0; window = own.1; next = λ _. refl })
    | inr idle ↦ rw idle (base, o)
  ]

  store-InOrder :
      (base : ℕ) (e : JitterEntry) (j : JitterBuffer F)
      → 0 < j.depth
      → e.seq < 65536
      → sub16 e.seq base < 32768
      → IsOrdered base j
      → InOrder (store e j).0
  store-InOrder base e j d r h o = elim (Bool-cases (has_seq e.seq j.buf)) [
    | inl old ↦ rw (store_old e j old) (base, o)
    | inr new ↦
        let grown : JitterBuffer F = record j { buf = take j.max_depth (insert e j.buf) } in
        let o' : IsOrdered base grown = record {
          range = o.range;
          window =
              Above-take base 0 j.max_depth (insert e j.buf)
                (insert-Above base 0 e j.buf o.range r (omega arith) h new o.window);
          next = o.next;
        } in
        let (base', primed) = prime-InOrder base grown d o' in
        rw (store_new e j _ new refl) (base', count_frame-IsOrdered base' _ primed)
  ]

  track_arrival-IsOrdered :
      (base now : ℕ) (j : JitterBuffer F) → IsOrdered base j → IsOrdered base (track_arrival now j)
  track_arrival-IsOrdered base now j o =
      let kept = track_arrival-keeps now j in
      record {
        range = o.range;
        window = rw kept.0 o.window;
        next = λ p. kept.1 ∙ o.next (sym kept.2 ∙ p);
      }

  push_verdict :
      (d : Drift) (now seq ts : ℕ) (payload : List ℕ) (j : JitterBuffer F)
      → classify j.next_seq seq ≡ d
      → j.primed ≡ true
      → 0 < j.depth
      → 0 < j.max_depth
      → seq < 65536
      → sub16 seq j.next_seq ≢ 32768
      → IsOrdered j.next_seq j
      → InOrder (push now seq ts payload j).0
  unfolding dispatch
  push_verdict resync now seq ts payload j c p d m r ne o =
      let far = (classify-distance j.next_seq seq o.range r).2 c in
      (seq, (push_resync now seq ts payload j p o r far.0 far.1 ne m).2)
  push_verdict stale now seq ts payload j c p d m r ne o =
      rw (push_primed now seq ts payload j p c)
        (j.next_seq, track_arrival-IsOrdered j.next_seq now j o)
  push_verdict near now seq ts payload j c p d m r ne o =
      let kept = track_arrival-keeps now j in
      let close = (classify-distance j.next_seq seq o.range r).0 c in
      rw (push_primed now seq ts payload j p c) (
        store-InOrder j.next_seq (entry now seq ts payload) (track_arrival now j)
          (omega (arith, kept.4)) r (omega arith) (track_arrival-IsOrdered j.next_seq now j o))

  -- Push keeps the buffer in playing order from some base: a primed one for every packet that is not
  -- exactly half the circle away, and one that still fills for a packet within half the circle
  -- ahead of its base.
  pub push-InOrder :
      (base now seq ts : ℕ) (payload : List ℕ) (j : JitterBuffer F)
      → IsOrdered base j
      → 0 < j.depth
      → 0 < j.max_depth
      → seq < 65536
      → (j.primed ≡ true → sub16 seq base ≢ 32768)
      → (j.primed ≡ false → sub16 seq base < 32768)
      → InOrder (push now seq ts payload j).0
  push-InOrder base now seq ts payload j o d m r whole half = elim (Bool-cases j.primed) [
    | inl p ↦
        let e = o.next p in
        push_verdict (classify j.next_seq seq) now seq ts payload j refl p d m r (rw e (whole p))
          (subst (λ b. IsOrdered b j) (sym e) o)
    | inr p ↦
        let kept = track_arrival-keeps now j in
        rw (push_unprimed now seq ts payload j p) (
          store-InOrder base (entry now seq ts payload) (track_arrival now j)
            (omega (arith, kept.4)) r (half p) (track_arrival-IsOrdered base now j o))
  ]
