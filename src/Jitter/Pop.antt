-- ===== src/Jitter/Pop.antt =====
-- pkg/rtp/jitter.go, Pop: playing one frame keeps the buffer in order.
use clear_stream.Prelude.{
  ℕ, ◌+◌, ◌<◌, ◌≡◌, ◌≢◌, refl, List, [], ◌∷◌, true, arith, u16, none, some, Float,
}
use native.Mathlib.Decide.{ℕ_discrete}
use clear_stream.Jitter.{JitterEntry, JitterBuffer, pop}
use clear_stream.Jitter.Window.{Above, Above-mono, Above-suc}

-- The buffer is in playing order seen from `base`, which is the next number once it is primed.
pub record IsOrdered {F : Type 0} (base : ℕ) (j : JitterBuffer F) : Type 0 where
  pub range : base < 65536
  pub window : Above base 0 j.buf
  pub next : j.primed ≡ true → j.next_seq ≡ base

-- What is left after the head was played, and what the buffer is after a lost number.
pub after_hit :
    (next : ℕ) (x : JitterEntry) (xs : List JitterEntry)
    → next < 65536
    → Above next 0 (x ∷ xs)
    → Above (u16 (next + 1)) 0 xs
after_hit next x xs r a = Above-suc next 0 xs r (Above-mono next xs (omega arith) a.3)

pub after_miss :
    (next : ℕ) (x : JitterEntry) (xs : List JitterEntry)
    → next < 65536
    → x.seq ≢ next
    → Above next 0 (x ∷ xs)
    → Above (u16 (next + 1)) 0 (x ∷ xs)
after_miss next x xs r ne a = Above-suc next 0 (x ∷ xs) r (a.0, ground arith, a.2, a.3)

module _ {F : Type 0} ⦃fl : Float F⦄ where
  pub pop_hit :
      (j : JitterBuffer F) {x : JitterEntry} {xs : List JitterEntry}
      → j.buf ≡ x ∷ xs
      → j.primed ≡ true
      → x.seq ≡ j.next_seq
      → pop j ≡ (record j { buf = xs; next_seq = u16 (j.next_seq + 1) }, some x.payload, true)
  unfolding pop
  pop_hit j e p h = ground arith

  pub pop_miss :
      (j : JitterBuffer F) {x : JitterEntry} {xs : List JitterEntry}
      → j.buf ≡ x ∷ xs
      → j.primed ≡ true
      → x.seq ≢ j.next_seq
      → pop j ≡ (record j { next_seq = u16 (j.next_seq + 1) }, none, true)
  unfolding pop
  pop_miss j e p h = ground arith

  -- A frame played or counted as lost moves the base on by one, so no entry is left behind it.
  pub pop-IsOrdered :
      (j : JitterBuffer F) (xs : List JitterEntry)
      → j.buf ≡ xs
      → j.primed ≡ true
      → j.buf ≢ []
      → IsOrdered j.next_seq j
      → IsOrdered (u16 (j.next_seq + 1)) (pop j).0
  pop-IsOrdered j [] e p ne o = absurd (ne e)
  pop-IsOrdered j (x ∷ xs) e p ne o = elim (ℕ_discrete x.seq j.next_seq) [
    | yes hit ↦ rw (pop_hit j e p hit) (record {
      range = omega arith;
      window = after_hit j.next_seq x xs o.range (rw e at o.window);
      next = λ _. refl;
    })
    | no miss ↦ rw (pop_miss j e p miss) (record {
      range = omega arith;
      window = rw e (after_miss j.next_seq x xs o.range miss (rw e at o.window));
      next = λ _. refl;
    })
  ]
