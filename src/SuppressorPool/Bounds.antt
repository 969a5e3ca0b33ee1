-- ===== src/SuppressorPool/Bounds.antt =====
-- pkg/model/pool.go: however its clients' calls are interleaved, the pool never holds more than its size.
use clear_stream.Prelude.{
  ℕ, zero, suc, ◌+◌, ◌-◌, ◌≤◌, ◌<◌, ◌≡◌, refl, ap, sym, ◌∙◌, ◌⊎◌, Bool, Bool-cases, true, false,
  Option-cases, some, List, List-cases, ◌&&◌, [], ◌∷◌, inl, inr, length, length-append, get_elem?,
  ℤ, pos, negsuc, arith,
}
use native.Mathlib.Decide.{dec_le}
use clear_stream.SuppressorPool.Clients.{
  Clients, Call, receives, releases_nil, closes, drains, counts, counts_back, gives_back, warms,
  remove_at, step, run_clients, is_settled, may_go, warms_alone, untouched,
}
use clear_stream.SuppressorPool.Fill.{uncount_lem, fill_lem, warm_pool_lem}
use clear_stream.SuppressorPool.{
  Backend, SuppressorPool, init_failed, new_suppressor_pool, receive, add_one, check_out,
  count_back, mark_closed, give_back, release, warm_pool,
}

pub record IsBounded {W S : Type 0} (c : Clients W S) : Type 0 where
  pub small : c.pool.size < 2147483648
  pub counted : c.pool.outstanding ≡ pos (length c.held)
  pub fits : length c.pool.idle + length c.taken + length c.held + length c.returning ≤ c.pool.size
  pub free : c.stuck ≡ false

length-remove_at :
    {S : Type 0} (i : ℕ) (xs : List S) (x : S)
    → get_elem? xs i ≡ some x
    → suc (length (remove_at i xs)) ≡ length xs
length-remove_at i [] x h = ground arith
length-remove_at zero (y ∷ xs) x h = refl
length-remove_at (suc i) (y ∷ xs) x h = ap suc (length-remove_at i xs x h)

warm_below_zero :
    {W S E : Type 0} (b : Backend W S E) (p : SuppressorPool S) (w : W) (n out : ℕ)
    → p.outstanding ≡ pos out
    → (warm_pool b (negsuc n) p w).0 ≡ p
unfolding warm_pool
warm_below_zero b p w n out e = ground arith

warm_refused :
    {W S E : Type 0} (b : Backend W S E) (p : SuppressorPool S) (w : W) (n : ℕ)
    → (p.closed ≡ true) ⊎ (p.size < n)
    → (warm_pool b (pos n) p w).0 ≡ p
unfolding warm_pool
warm_refused b p w n h = ground arith

module _ {W S E : Type 0} (b : Backend W S E) (c : Clients W S) (k : IsBounded c) where
  step_receives : IsBounded (step b c receives)
  unfolding step receive
  step_receives = elim (List-cases c.pool.idle) [
    | inl e ↦ elim (Bool-cases c.pool.closed) [
      | inl shut ↦ ground arith
      | inr opened ↦ ground arith
    ]
    | inr (s, rest, e) ↦ ground arith
  ]

  step_counts : (i : ℕ) → IsBounded (step b c (counts i))
  unfolding step check_out add_one
  step_counts i = elim (Option-cases (get_elem? c.taken i)) [
    | inl e ↦ ground arith
    | inr (s, e) ↦ ground (arith, length-remove_at i c.taken s e)
  ]

  step_counts_back : (i : ℕ) → IsBounded (step b c (counts_back i))
  unfolding step count_back
  step_counts_back i = elim (Option-cases (get_elem? c.held i)) [
    | inl e ↦ ground arith
    | inr (s, e) ↦
        let fewer = length-remove_at i c.held s e in
        let less =
          uncount_lem c.pool.outstanding (length (remove_at i c.held))
            (k.counted ∙ ap pos (sym fewer)) in
        ground (arith, less, fewer)
  ]

  step_gives_back : (i : ℕ) → IsBounded (step b c (gives_back i))
  unfolding step give_back
  step_gives_back i = elim (Option-cases (get_elem? c.returning i)) [
    | inl e ↦ ground arith
    | inr (s, e) ↦
        let fewer = length-remove_at i c.returning s e in
        ground (arith, fewer, length-append c.pool.idle (s ∷ []))
  ]

  step_releases_nil : IsBounded (step b c releases_nil)
  unfolding step release
  step_releases_nil = ground arith

  step_closes : IsBounded (step b c closes)
  unfolding step mark_closed
  step_closes = ground arith

  step_drains : IsBounded (step b c drains)
  unfolding step receive
  step_drains = elim (List-cases c.pool.idle) [
    | inl e ↦ elim (Bool-cases c.pool.closed) [
      | inl shut ↦ ground arith
      | inr opened ↦ ground arith
    ]
    | inr (s, rest, e) ↦ elim (Bool-cases c.pool.closed) [
      | inl shut ↦ ground arith
      | inr opened ↦ ground arith
    ]
  ]

  step_warms : (n : ℤ) → is_settled c ≡ true → IsBounded (step b c (warms n))
  unfolding step
  step_warms (negsuc n) alone =
      ground (arith, warm_below_zero b c.pool c.world n (length c.held) k.counted)
  step_warms (pos n) alone = elim (Bool-cases c.pool.closed) [
    | inl shut ↦ ground (arith, warm_refused b c.pool c.world n (inl shut))
    | inr opened ↦ elim (dec_le n c.pool.size) [
      | no large ↦ ground (arith, warm_refused b c.pool c.world n (inr (omega arith)))
      | yes small ↦
          let (fresh, e, result) =
            warm_pool_lem b c.pool c.world n (length c.held) opened small k.counted in
          let few : length fresh ≤ n - (length c.pool.idle + length c.held) = elim result [
            | inl r ↦ omega (arith, r.1)
            | inr (_, _, r) ↦ omega (arith, r)
          ] in
          ground (arith, e, few, length-append c.pool.idle fresh)
    ]
  ]

  step-IsBounded : (call : Call) → may_go c call ≡ true → IsBounded (step b c call)
  step-IsBounded receives alone = step_receives
  step-IsBounded releases_nil alone = step_releases_nil
  step-IsBounded closes alone = step_closes
  step-IsBounded drains alone = step_drains
  step-IsBounded (counts i) alone = step_counts i
  step-IsBounded (counts_back i) alone = step_counts_back i
  step-IsBounded (gives_back i) alone = step_gives_back i
  step-IsBounded (warms n) alone = step_warms n alone

both : (x y : Bool) → (x && y) ≡ true → (x ≡ true) × (y ≡ true)
both x y e = ground (arith, e)

run_clients_from-IsBounded :
    {W S E : Type 0} (b : Backend W S E) (c : Clients W S) (calls : List Call)
    → warms_alone b c calls ≡ true
    → IsBounded c
    → IsBounded (run_clients b c calls)
unfolding run_clients warms_alone
run_clients_from-IsBounded b c [] alone k = k
run_clients_from-IsBounded b c (call ∷ calls) alone k =
    let (now, later) = both (may_go c call) (warms_alone b (step b c call) calls) alone in
    run_clients_from-IsBounded b (step b c call) calls later (step-IsBounded b c k call now)

-- A pool that NewSuppressorPool returns is full.
new_full :
    {W S E : Type 0} (b : Backend W S E) (n : ℕ) (w : W) (p : SuppressorPool S)
    → (new_suppressor_pool b (pos n) w).0 ≡ some p
    → (p.size ≡ n) × (length p.idle ≡ n) × (p.closed ≡ false) × (p.outstanding ≡ pos 0)
unfolding new_suppressor_pool
new_full b n w p h =
    let (fresh, filled, result) = fill_lem b (λ i e. init_failed i (pos n) e) 0 n [] w in
    elim result [
      | inl (clean, long) ↦ ground (arith, h, clean, long, filled)
      | inr (e, failure, short) ↦ ground (arith, h, failure)
    ]

-- However the clients of a new pool of fewer than 2^31 interleave the halves of their calls of Acquire,
-- Release and Close, as long as each releases only what it holds (or nil), and WarmPool is called only
-- where no Acquire and no Release is between its halves: the suppressors that are idle, on their way
-- and held are never more than the pool's size, `outstanding` counts those held, and no Release blocks
-- on its send.
pub run_clients-IsBounded :
    {W S E : Type 0} (b : Backend W S E) (n : ℕ) (w : W) (p : SuppressorPool S) (calls : List Call)
    → n < 2147483648
    → (new_suppressor_pool b (pos n) w).0 ≡ some p
    → warms_alone b (untouched p (new_suppressor_pool b (pos n) w).2) calls ≡ true
    → IsBounded (run_clients b (untouched p (new_suppressor_pool b (pos n) w).2) calls)
run_clients-IsBounded b n w p calls small h alone =
    let (sized, full, opened, counted) = new_full b n w p h in
    run_clients_from-IsBounded b _ calls alone record {
      small = ground (arith, sized);
      counted = counted;
      fits = omega (arith, sized, full);
      free = refl;
    }
