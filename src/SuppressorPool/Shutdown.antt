-- ===== src/SuppressorPool/Shutdown.antt =====
-- pkg/model/pool.go: Close, the calls after it, and Release beside WarmPool.
use clear_stream.Prelude.{
  ℕ, ◌+◌, ◌-◌, ◌≤◌, ◌≡◌, refl, ap, ◌∙◌, false, Option, none, some, List, [], ◌∷◌, ◌++◌, inl, inr,
  length, length-append, ℤ, pos, arith,
}
use clear_stream.SuppressorPool.{
  Backend, SuppressorPool, unavailable, receive, check_out, acquire, count_back, mark_closed,
  uncount, returned, blocks, give_back, release, drain, close, warm_closed, warm_pool,
}
use clear_stream.SuppressorPool.Fill.{uncount_lem, warm_pool_lem}

-- What Close does to the suppressors, one after the other, and the errors it meets.
abbrev pub shut_all : {W S E : Type 0} → Backend W S E → List S → W → W
shut_all b [] w = w
shut_all b (s ∷ rest) w = shut_all b rest (b.shut s w).1

abbrev pub shut_errors : {W S E : Type 0} → Backend W S E → List S → W → List (Option E)
shut_errors b [] w = []
shut_errors b (s ∷ rest) w = (b.shut s w).0 ∷ shut_errors b rest (b.shut s w).1

abbrev pub first_error : {E : Type 0} → List (Option E) → Option E
first_error [] = none
first_error (none ∷ rest) = first_error rest
first_error (some e ∷ rest) = some e

drain_lem :
    {W S E : Type 0} (b : Backend W S E) (idle : List S) (w : W)
    → drain b idle w ≡ (first_error (shut_errors b idle w), shut_all b idle w)
unfolding drain
drain_lem b [] w = refl
drain_lem b (s ∷ rest) w = ground (arith, drain_lem b rest (b.shut s w).1)

-- The first Close shuts each idle suppressor once, in the channel's order, and returns the first error.
-- From then on another Close does nothing and returns no error, Acquire returns nil at once, Release
-- shuts what it is given and never waits, and WarmPool is refused.
close_lem :
    {W S E : Type 0} (b : Backend W S E) (p : SuppressorPool S) (w : W)
    → p.close_once ≡ false
    → let (p', e, w') = close b p w in
      (e ≡ first_error (shut_errors b p.idle w))
      × (w' ≡ shut_all b p.idle w)
      × ((v : W) → close b p' v ≡ (p', none, v))
      × ((v : W) → acquire b p' v ≡ (p', unavailable, v))
      × ((s : S) (v : W)
          → release b p' (some s) v
            ≡ (record p' { outstanding = uncount p'.outstanding }, returned, (b.shut s v).1))
      × ((n : ℤ) (v : W) → warm_pool b n p' v ≡ (p', some warm_closed, v))
unfolding close mark_closed acquire receive check_out release count_back give_back warm_pool
close_lem b p w opened = let all = drain_lem b p.idle w in ground (arith, all, opened)

full_again_lem :
    {S : Type 0} (idle fresh : List S) (n : ℕ)
    → length idle + 1 ≡ n
    → length fresh ≡ n - (length idle + 0)
    → n ≤ length (idle ++ fresh)
full_again_lem idle fresh n full long = omega (arith, length-append idle fresh)

give_back_full :
    {W S E : Type 0} (b : Backend W S E) (p : SuppressorPool S) (s : S) (w : W)
    → p.closed ≡ false
    → p.size ≤ length p.idle
    → give_back b p s w ≡ (p, blocks, w)
unfolding give_back
give_back_full b p s w opened full = ground arith

-- The last suppressor that is out comes back, and its Release has counted it as returned and has not
-- taken the mutex yet: if WarmPool fills the pool to its size in between, without an error, the send to
-- the channel blocks, with the mutex held.
pub release_race :
    {W S E : Type 0} (b : Backend W S E) (p : SuppressorPool S) (w : W) (s : S)
    → p.closed ≡ false
    → p.outstanding ≡ pos 1
    → length p.idle + 1 ≡ p.size
    → (warm_pool b (pos p.size) (record p { outstanding = uncount p.outstanding }) w).1 ≡ none
    → let (p', failure, w') =
        warm_pool b (pos p.size) (record p { outstanding = uncount p.outstanding }) w in
      give_back b p' s w' ≡ (p', blocks, w')
release_race b p w s opened counted full warmed =
    let less = uncount_lem p.outstanding 0 counted in
    let (fresh, e, result) =
      warm_pool_lem b (record p { outstanding = uncount p.outstanding }) w p.size 0 opened
        (omega arith) less in
    let long : length fresh ≡ p.size - (length p.idle + 0) = elim result [
      | inl (clean, l) ↦ l
      | inr (_, fails, _) ↦ ground (arith, warmed, fails)
    ] in
    let (p', failure, w') =
      warm_pool b (pos p.size) (record p { outstanding = uncount p.outstanding }) w in
    give_back_full b p' s w' (ap (λ r. r.closed) e ∙ opened)
      (rw e (full_again_lem p.idle fresh p.size full long))
