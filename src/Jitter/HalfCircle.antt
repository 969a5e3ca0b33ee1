-- ===== src/Jitter/HalfCircle.antt =====
-- pkg/rtp/jitter.go: Push and Pop of a packet exactly half the circle away from the next number.
use native.Mathlib.Decide.{ℕ_discrete}
use clear_stream.Prelude.{
  ℕ, suc, ◌+◌, ◌≤◌, ◌<◌, ◌≡◌, refl, ap, sym, ◌∙◌, List, [], ◌∷◌, ◌++◌, true, false, arith, sub16,
  u16, length, length-append, Float, take, take_all,
}
use clear_stream.Jitter.{JitterEntry, JitterBuffer, has_seq, seq_less, insert, push, pop}
use clear_stream.Jitter.Window.{Above, Above-mono}
use clear_stream.Jitter.Sequence.{sub16-suc}
use clear_stream.Jitter.Pop.{IsOrdered, pop_hit, pop_miss}
use clear_stream.Jitter.Store.{entry, classify_half, push_stored}
use clear_stream.Jitter.Playout.{play, expected, span, play-expected}

half_behind :
    (base a b : ℕ)
    → base < 65536
    → a < 65536
    → b < 65536
    → sub16 a base ≡ 32768
    → sub16 b base < 32768
    → seq_less a b ≡ false
unfolding seq_less
half_behind base a b hb ha hc h k = ground arith

-- The packet precedes none of those buffered.
insert-behind :
    (base k : ℕ) (e : JitterEntry) (xs : List JitterEntry)
    → base < 65536
    → e.seq < 65536
    → sub16 e.seq base ≡ 32768
    → Above base k xs
    → insert e xs ≡ xs ++ e ∷ []
unfolding insert
insert-behind base k e [] hb he h a = refl
insert-behind base k e (x ∷ xs) hb he h a =
    let behind = half_behind base e.seq x.seq hb he a.0 h a.2 in
    let rest = insert-behind base (suc (sub16 x.seq base)) e xs hb he h a.3 in
    ground (arith, behind, rest)

-- Seen from the number after the base, the packet at the end is in order.
behind-Above :
    (base k : ℕ) (e : JitterEntry) (xs : List JitterEntry)
    → base < 65536
    → e.seq < 65536
    → sub16 e.seq base ≡ 32768
    → k ≤ 32767
    → Above base (suc k) xs
    → Above (u16 (base + 1)) k (xs ++ e ∷ [])
behind-Above base k e [] hb he h hk a = (he, omega arith, omega arith, tt)
behind-Above base k e (x ∷ xs) hb he h hk a =
    let moved = sub16-suc x.seq base k a.0 hb (omega arith) in
    (
      a.0,
      omega arith,
      omega arith,
      Above-mono _ (xs ++ e ∷ []) (omega arith)
          (behind-Above base (sub16 x.seq base) e xs hb he h (omega arith) a.3),
    )

span-append :
    (base : ℕ) (xs : List JitterEntry) (e : JitterEntry)
    → span base (xs ++ e ∷ []) ≡ suc (sub16 e.seq base)
unfolding span
span-append base [] e = refl
span-append base (x ∷ []) e = refl
span-append base (x ∷ y ∷ rest) e = span-append base (y ∷ rest) e

module _ {F : Type 0} ⦃fl : Float F⦄ where
  -- After one call of Pop the buffer is in order, and the packet is its last.
  pop-behind :
      (j : JitterBuffer F) (xs : List JitterEntry) (e : JitterEntry)
      → j.buf ≡ xs ++ e ∷ []
      → j.primed ≡ true
      → j.next_seq < 65536
      → e.seq < 65536
      → sub16 e.seq j.next_seq ≡ 32768
      → Above j.next_seq 0 xs
      → let next = u16 (j.next_seq + 1) in
        (ys : List JitterEntry) × ((pop j).0 ≡ record j { buf = ys ++ e ∷ []; next_seq = next })
        × Above next 0 (ys ++ e ∷ [])
  pop-behind j [] e b p r he h a = (
    [],
    ap (λ q. q.0) (pop_miss j b p (omega arith))
        ∙ ap (λ l. record j { buf = l; next_seq = u16 (j.next_seq + 1) }) b,
    behind-Above j.next_seq 0 e [] r he h (omega arith) tt,
  )
  pop-behind j (x ∷ xs) e b p r he h a = elim (ℕ_discrete x.seq j.next_seq) [
    | yes hit ↦
        let later : Above j.next_seq 1 xs = Above-mono j.next_seq xs (omega arith) a.3 in
        (
          xs,
          ap (λ q. q.0) (pop_hit j b p hit),
          behind-Above j.next_seq 0 e xs r he h (omega arith) later,
        )
    | no miss ↦
        let above : Above j.next_seq 1 (x ∷ xs) = (a.0, ground arith, a.2, a.3) in
        (
          x ∷ xs,
          ap (λ q. q.0) (pop_miss j b p miss)
              ∙ ap (λ l. record j { buf = l; next_seq = u16 (j.next_seq + 1) }) b,
          behind-Above j.next_seq 0 e (x ∷ xs) r he h (omega arith) above,
        )
  ]

  -- From then on 32768 calls play all that is buffered.
  plays_out :
      (j : JitterBuffer F) (ys : List JitterEntry) (e : JitterEntry)
      → j.buf ≡ ys ++ e ∷ []
      → j.primed ≡ true
      → j.next_seq < 65536
      → Above j.next_seq 0 (ys ++ e ∷ [])
      → sub16 e.seq j.next_seq ≡ 32767
      → ((play 32768 j).1 ≡ expected 32768 j.next_seq j.buf) × ((play 32768 j).0.buf ≡ [])
  plays_out j ys e b p r above last =
      let o : IsOrdered j.next_seq j = record {
        range = r;
        window = rw b above;
        next = λ _. refl;
      } in
      let all : span j.next_seq j.buf ≡ 32768 =
        ap (span j.next_seq) b ∙ span-append j.next_seq ys e ∙ ap suc last in
      let (frames, emptied) = play-expected 32768 j p o (omega (arith, all)) in
      (frames, ap (λ n. (play n j).0.buf) (sym all) ∙ emptied)

  -- A packet exactly half the circle away from the next number of a primed buffer in playing order
  -- with room for it, and not buffered yet, is neither stale nor a discontinuity for Push, and it
  -- precedes none of the packets buffered: it is put behind them, with the next number unchanged. It
  -- is played as the last one: one call of Pop and 32768 more empty the buffer, and those hand over,
  -- number by number, what is buffered, with a loss for each number that is not, up to this packet.
  pub push_half_circle :
      (now seq ts : ℕ) (payload : List ℕ) (j : JitterBuffer F)
      → j.primed ≡ true
      → IsOrdered j.next_seq j
      → seq < 65536
      → sub16 seq j.next_seq ≡ 32768
      → has_seq seq j.buf ≡ false
      → length j.buf < j.max_depth
      → let j' = (push now seq ts payload j).0 in
        let popped = (pop j').0 in
        (j'.buf ≡ j.buf ++ entry now seq ts payload ∷ [])
        × (j'.next_seq ≡ j.next_seq)
        × ((play 32768 popped).1 ≡ expected 32768 (u16 (j.next_seq + 1)) popped.buf)
        × ((play 32768 popped).0.buf ≡ [])
  push_half_circle now seq ts payload j p o s h new room =
      let e : JitterEntry = entry now seq ts payload in
      let c = classify_half j.next_seq seq o.range s h in
      let (stored, next, primed) = push_stored now seq ts payload j p c new in
      let behind = insert-behind j.next_seq 0 e j.buf o.range s h o.window in
      let whole =
        take_all j.max_depth (j.buf ++ e ∷ []) (omega (arith, length-append j.buf (e ∷ []))) in
      let buf = stored ∙ ap (take j.max_depth) behind ∙ whole in
      let (ys, popped, above) =
        pop-behind (push now seq ts payload j).0 j.buf e buf primed (rw next o.range) s (rw next h)
          (rw next o.window) in
      let at : (pop (push now seq ts payload j).0).0.next_seq ≡ u16 (j.next_seq + 1) =
        ap (λ q. q.next_seq) popped ∙ ap (λ n. u16 (n + 1)) next in
      let (frames, emptied) =
        plays_out (pop (push now seq ts payload j).0).0 ys e (ap (λ q. q.buf) popped)
          (ap (λ q. q.primed) popped ∙ primed) (omega (arith, at)) (rw (at, sym next) above)
          (omega (arith, at, h)) in
      (
        buf,
        next,
        frames ∙ ap (λ n. expected 32768 n (pop (push now seq ts payload j).0).0.buf) at,
        emptied,
      )
