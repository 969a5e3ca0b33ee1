-- ===== src/SuppressorPool/Fill.antt =====
-- pkg/model/pool.go: the loop that makes suppressors, and what WarmPool and NewSuppressorPool get of it.
use mathlib.Core.List.{append_assoc, append-nil}
use native.Mathlib.Decide.{dec_le}
use clear_stream.Prelude.{
  ℕ, zero, suc, ◌+◌, ◌-◌, ◌≤◌, ◌<◌, ◌≡◌, refl, ap, sym, ◌∙◌, ◌⊎◌, false, Option, none, some, List,
  [], ◌∷◌, ◌++◌, inl, inr, length, ℤ, pos, arith,
}
use clear_stream.SuppressorPool.{
  Backend, Made, made, failed, SuppressorPool, PoolError, fill, uncount, warm_failed, warm_missing,
  warm_pool,
}

Made-cases : {S E : Type 0} → (m : Made S E) → ((s : S) × (m ≡ made s)) ⊎ ((e : E) × (m ≡ failed e))
Made-cases (made s) = inl (s, refl)
Made-cases (failed e) = inr (e, refl)

-- What the loop adds behind the suppressors that are there: as many as it was asked for, or fewer and
-- the error of the round after them.
abbrev pub Filled :
    {S E : Type 0} → (ℕ → E → PoolError E) → ℕ → ℕ → List S → Option (PoolError E) → List S → Type 0
Filled wrap i left idle failure filled =
    (fresh : List _) × (filled ≡ idle ++ fresh)
    × (((failure ≡ none) × (length fresh ≡ left))
        ⊎ ((e : _) × (failure ≡ some (wrap (suc (i + length fresh)) e)) × (length fresh < left)))

module _ {W S E : Type 0} (b : Backend W S E) (wrap : ℕ → E → PoolError E) where
  fill_failed :
      (i left : ℕ) (idle : List S) (w : W) (e : E)
      → (b.new_suppressor w).0 ≡ failed e
      → fill b wrap i (suc left) idle w ≡ (idle, some (wrap (suc i) e), (b.new_suppressor w).1)
  unfolding fill
  fill_failed i left idle w e h = rw (fill, h)

  fill_made :
      (i left : ℕ) (idle : List S) (w : W) (s : S)
      → (b.new_suppressor w).0 ≡ made s
      → fill b wrap i (suc left) idle w
        ≡ fill b wrap (suc i) left (idle ++ s ∷ []) (b.new_suppressor w).1
  unfolding fill
  fill_made i left idle w s h = rw (fill, h)

  from_first :
      (fresh : List S) {left : ℕ} {failure : Option (PoolError E)}
      → ((failure ≡ none) × (length fresh ≡ left))
        ⊎ ((e : E) × (failure ≡ some (wrap (suc (0 + length fresh)) e)) × (length fresh < left))
      → ((failure ≡ none) × (length fresh ≡ left))
        ⊎ ((e : E) × (failure ≡ some (wrap (suc (length fresh)) e)) × (length fresh < left))
  from_first fresh (inl result) = inl result
  from_first fresh (inr (e, failure, short)) =
      let at : 0 + length fresh ≡ length fresh = omega arith in
      inr (e, failure ∙ ap (λ k. some (wrap (suc k) e)) at, short)

  further :
      (i left : ℕ) (s : S) (fresh : List S) {failure : Option (PoolError E)}
      → ((failure ≡ none) × (length fresh ≡ left))
        ⊎ ((e : E) × (failure ≡ some (wrap (suc (suc i + length fresh)) e)) × (length fresh < left))
      → ((failure ≡ none) × (length (s ∷ fresh) ≡ suc left))
        ⊎ ((e : E) × (failure ≡ some (wrap (suc (i + length (s ∷ fresh))) e))
            × (length (s ∷ fresh) < suc left))
  further i left s fresh (inl (clean, long)) = inl (clean, ap suc long)
  further i left s fresh (inr (e, failure, short)) =
      let at : suc i + length fresh ≡ i + suc (length fresh) = omega arith in
      inr (e, failure ∙ ap (λ k. some (wrap (suc k) e)) at, omega arith)

  pub fill_lem :
      (i left : ℕ) (idle : List S) (w : W)
      → Filled wrap i left idle (fill b wrap i left idle w).1 (fill b wrap i left idle w).0
  unfolding fill
  fill_lem i zero idle w = ([], sym (append-nil idle), inl (refl, refl))
  fill_lem i (suc left) idle w = elim (Made-cases (b.new_suppressor w).0) [
    | inl (s, h) ↦
        let (fresh, e, result) = fill_lem (suc i) left (idle ++ s ∷ []) (b.new_suppressor w).1 in
        rw (fill_made i left idle w s h)
          (s ∷ fresh, e ∙ append_assoc idle (s ∷ []) fresh, further i left s fresh result)
    | inr (e, h) ↦ rw (fill_failed i left idle w e h) (
      [],
      sym (append-nil idle),
      inr (e, ap (λ k. some (wrap (suc k) e)) (omega arith), omega arith),
    )
  ]

pub uncount_lem : (o : ℤ) (n : ℕ) → o ≡ pos (suc n) → uncount o ≡ pos n
unfolding uncount
uncount_lem o n e = rw e

warm_enough :
    {W S E : Type 0} (b : Backend W S E) (p : SuppressorPool S) (w : W) (n out : ℕ)
    → p.closed ≡ false
    → n ≤ p.size
    → p.outstanding ≡ pos out
    → n ≤ length p.idle + out
    → warm_pool b (pos n) p w ≡ (p, none, w)
unfolding warm_pool
warm_enough b p w n out opened small counted enough = ground arith

warm_short :
    {W S E : Type 0} (b : Backend W S E) (p : SuppressorPool S) (w : W) (n out : ℕ)
    → p.closed ≡ false
    → n ≤ p.size
    → p.outstanding ≡ pos out
    → length p.idle + out < n
    → warm_pool b (pos n) p w ≡ warm_missing b (pos (n - (length p.idle + out))) p w
unfolding warm_pool
warm_short b p w n out opened small counted short = ground arith

-- WarmPool on an open pool, for a number within its size: it adds suppressors behind the idle ones,
-- which it leaves in place. Without an error it adds exactly what the idle and the outstanding ones
-- lack of that number; an error tells which of the missing ones could not be made, and those made
-- before it stay in the pool.
pub warm_pool_lem :
    {W S E : Type 0} (b : Backend W S E) (p : SuppressorPool S) (w : W) (n out : ℕ)
    → p.closed ≡ false
    → n ≤ p.size
    → p.outstanding ≡ pos out
    → let (p', failure, w') = warm_pool b (pos n) p w in
      let missing = n - (length p.idle + out) in
      (fresh : List S) × (p' ≡ record p { idle = p.idle ++ fresh })
      × (((failure ≡ none) × (length fresh ≡ missing))
          ⊎ ((e : E) × (failure ≡ some (warm_failed (suc (length fresh)) (pos missing) e))
              × (length fresh < missing)))
unfolding warm_missing
warm_pool_lem b p w n out opened small counted = elim (dec_le n (length p.idle + out)) [
  | yes enough ↦
      rw (warm_enough b p w n out opened small counted enough)
        ([], ap (λ xs. record p { idle = xs }) (sym (append-nil p.idle)), inl (refl, omega arith))
  | no short ↦
      let missing = n - (length p.idle + out) in
      let (fresh, filled, result) =
        fill_lem b (λ i e. warm_failed i (pos missing) e) 0 missing p.idle w in
      rw (warm_short b p w n out opened small counted (omega arith)) (
        fresh,
        ap (λ xs. record p { idle = xs }) filled,
        from_first b (λ i e. warm_failed i (pos missing) e) fresh result,
      )
]
