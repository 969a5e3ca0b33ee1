-- ===== src/Jitter/Playout.antt =====
-- pkg/rtp/jitter.go: what a run of calls of Pop hands to the decoder.
use native.Mathlib.Decide.{ℕ_discrete}
use clear_stream.Prelude.{
  ℕ, zero, suc, ◌+◌, ◌-◌, ◌≤◌, ◌<◌, ◌≡◌, ◌≢◌, refl, sym, ap, ◌∙◌, List, [], ◌∷◌, Bool, true, arith,
  sub16, u16, Option, none, some, Float,
}
use clear_stream.Jitter.{JitterEntry, JitterBuffer, pop}
use clear_stream.Jitter.Window.{Above}
use clear_stream.Jitter.Insert.{find}
use clear_stream.Jitter.Pop.{IsOrdered, pop_hit, pop_miss, after_hit, after_miss}

-- How many calls of Pop it takes to empty the buffer.
unfoldable pub span : ℕ → List JitterEntry → ℕ
span base [] = 0
span base (x ∷ []) = suc (sub16 x.seq base)
span base (x ∷ y ∷ rest) = span base (y ∷ rest)

-- A payload for a number that has arrived, a loss for one that has not.
abbrev pub frame : Option JitterEntry → Option (List ℕ) × Bool
frame none = (none, true)
frame (some e) = (some e.payload, true)

-- The frames of `n` numbers from `next` on, looked up in the buffer.
pub expected : ℕ → ℕ → List JitterEntry → List (Option (List ℕ) × Bool)
expected zero next buf = []
expected (suc n) next buf = frame (find next buf) ∷ expected n (u16 (next + 1)) buf

module _ {F : Type 0} ⦃fl : Float F⦄ where
  -- `n` calls of Pop.
  pub play : ℕ → JitterBuffer F → JitterBuffer F × List (Option (List ℕ) × Bool)
  play zero j = (j, [])
  play (suc n) j =
      let (j', payload, ok) = pop j in
      let (j'', frames) = play n j' in (j'', (payload, ok) ∷ frames)

-- An entry that is behind all the numbers asked for changes nothing.
expected-behind :
    (n next : ℕ) (x : JitterEntry) (xs : List JitterEntry)
    → next < 65536
    → n + sub16 next x.seq ≤ 65536
    → x.seq < 65536
    → x.seq ≢ next
    → expected n next (x ∷ xs) ≡ expected n next xs
unfolding expected find
expected-behind zero next x xs r h hx ne = refl
expected-behind (suc zero) next x xs r h hx ne = ground arith
expected-behind (suc (suc n)) next x xs r h hx ne =
    ground (arith, expected-behind (suc n) (u16 (next + 1)) x xs)

find-ahead :
    (base k s : ℕ) (xs : List JitterEntry)
    → s < 65536
    → base < 65536
    → sub16 s base < k
    → Above base k xs
    → find s xs ≡ none
unfolding find
find-ahead base k s [] r r' h a = refl
find-ahead base k s (x ∷ xs) r r' h a =
    ground (arith, find-ahead base (suc (sub16 x.seq base)) s xs r r')

span-le : (base k : ℕ) (xs : List JitterEntry) → Above base k xs → span base xs ≤ 32768
unfolding span
span-le base k [] a = omega arith
span-le base k (x ∷ []) a = omega arith
span-le base k (x ∷ y ∷ rest) a = span-le base (suc (sub16 x.seq base)) (y ∷ rest) a.3

-- The base moves on by one: so does the number of calls left.
span-suc :
    (base k : ℕ) (xs : List JitterEntry)
    → base < 65536
    → Above base (suc k) xs
    → span (u16 (base + 1)) xs ≡ span base xs - 1
unfolding span
span-suc base k [] r a = refl
span-suc base k (x ∷ []) r a = omega arith
span-suc base k (x ∷ y ∷ rest) r a = span-suc base (sub16 x.seq base) (y ∷ rest) r a.3

span-pos :
    (base k : ℕ) (x : JitterEntry) (xs : List JitterEntry)
    → Above base k (x ∷ xs)
    → 0 < span base (x ∷ xs)
unfolding span
span-pos base k x [] a = omega arith
span-pos base k x (y ∷ rest) a = span-pos base (suc (sub16 x.seq base)) y rest a.3

span-tail :
    (base : ℕ) (x : JitterEntry) (xs : List JitterEntry)
    → base < 65536
    → x.seq ≡ base
    → Above base 0 (x ∷ xs)
    → span (u16 (base + 1)) xs + 1 ≡ span base (x ∷ xs)
unfolding span
span-tail base x [] r e a = omega arith
span-tail base x (y ∷ rest) r e a =
    let b : Above base 1 (y ∷ rest) = (a.3.0, omega arith, a.3.2, a.3.3) in
    omega (arith, span-suc base 0 (y ∷ rest) r b, span-pos base 1 y rest b)

find-head : (x : JitterEntry) (xs : List JitterEntry) (s : ℕ) → x.seq ≡ s → find s (x ∷ xs) ≡ some x
unfolding find
find-head x xs s e = ground arith

module _ {F : Type 0} ⦃fl : Float F⦄ where
  -- `n` calls hand over what the buffer `xs` holds, and empty it if they are enough.
  abbrev Plays : ℕ → JitterBuffer F → List JitterEntry → Type 0
  Plays n j xs =
      ((play n j).1 ≡ expected n j.next_seq xs) × (n ≡ span j.next_seq xs → (play n j).0.buf ≡ [])

  abbrev played : JitterBuffer F → List JitterEntry → JitterBuffer F
  played j xs = record j { buf = xs; next_seq = u16 (j.next_seq + 1) }

module _ {F : Type 0} ⦃fl : Float F⦄ (n : ℕ) (j : JitterBuffer F) (x : JitterEntry)
    (xs : List JitterEntry) (e : j.buf ≡ x ∷ xs) (p : j.primed ≡ true) (r : j.next_seq < 65536)
    (w : Above j.next_seq 0 (x ∷ xs)) (h : suc n ≤ span j.next_seq (x ∷ xs)) where
  play_hit : x.seq ≡ j.next_seq → Plays n (played j xs) xs → Plays (suc n) j (x ∷ xs)
  unfolding play expected
  play_hit hit ih =
      let short = span-le j.next_seq 0 (x ∷ xs) w in
      rw (pop_hit j e p hit, find-head x xs j.next_seq hit)
        (
          ap (◌∷◌ (some x.payload, true)) (
              ih.0
              ∙ sym (
                  expected-behind n (u16 (j.next_seq + 1)) x xs (omega arith) (omega arith) w.0
                    (ground arith))),
          λ z. ih.1 (omega (arith, span-tail j.next_seq x xs r hit w)),
        )

  play_miss : x.seq ≢ j.next_seq → Plays n (played j (x ∷ xs)) (x ∷ xs) → Plays (suc n) j (x ∷ xs)
  unfolding play expected
  play_miss miss ih =
      let above : Above j.next_seq 1 (x ∷ xs) = (w.0, ground arith, w.2, w.3) in
      rw
        (
          pop_miss j e p miss,
          e,
          find-ahead j.next_seq 1 j.next_seq (x ∷ xs) r r (omega arith) above,
        )
        (
          ap (◌∷◌ (none, true)) ih.0,
          λ z. ih.1 (omega (arith, span-suc j.next_seq 0 (x ∷ xs) r above)),
        )

module _ {F : Type 0} ⦃fl : Float F⦄ where
  play-find :
      (n : ℕ) (j : JitterBuffer F) (xs : List JitterEntry)
      → j.buf ≡ xs
      → j.primed ≡ true
      → j.next_seq < 65536
      → Above j.next_seq 0 xs
      → n ≤ span j.next_seq xs
      → Plays n j xs
  unfolding play expected span
  play-find zero j [] e p r w h = (refl, λ _. e)
  play-find zero j (x ∷ xs) e p r w h =
      (refl, λ z. absurd (omega (arith, span-pos j.next_seq 0 x xs w)))
  play-find (suc n) j [] e p r w h = absurd (omega arith)
  play-find (suc n) j (x ∷ xs) e p r w h = elim (ℕ_discrete x.seq j.next_seq) [
    | yes hit ↦ play_hit n j x xs e p r w h hit (
        play-find n (played j xs) xs refl p (omega arith) (after_hit j.next_seq x xs r w)
          (omega (arith, span-tail j.next_seq x xs r hit w)))
    | no miss ↦
        let w' = after_miss j.next_seq x xs r miss w in
        let above : Above j.next_seq 1 (x ∷ xs) = (w.0, ground arith, w.2, w.3) in
        play_miss n j x xs e p r w h miss (
          play-find n (played j (x ∷ xs)) (x ∷ xs) refl p (omega arith) w'
            (omega (arith, span-suc j.next_seq 0 (x ∷ xs) r above)))
  ]

  -- Playing a primed buffer in order: as long as it is not empty, each call hands over the payload
  -- of the next number if that packet has arrived and reports a loss if not, and after `span` calls,
  -- up to the last number buffered, the buffer is empty.
  pub play-expected :
      (n : ℕ) (j : JitterBuffer F)
      → j.primed ≡ true
      → IsOrdered j.next_seq j
      → n ≤ span j.next_seq j.buf
      → ((play n j).1 ≡ expected n j.next_seq j.buf) × ((play (span j.next_seq j.buf) j).0.buf ≡ [])
  play-expected n j p o h =
      let all = span j.next_seq j.buf in
      (
        (play-find n j j.buf refl p o.range o.window h).0,
        (play-find all j j.buf refl p o.range o.window (omega arith)).1 refl,
      )
