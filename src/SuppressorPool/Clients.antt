-- ===== src/SuppressorPool/Clients.antt =====
-- pkg/model/pool.go: the calls of a pool's clients, interleaved by the halves that no lock joins.
use clear_stream.Prelude.{
  ℕ, zero, suc, ◌+◌, Bool, true, false, none, some, List, if◌then◌else◌, ◌==◌, ◌&&◌, ◌||◌, [], ◌∷◌,
  length, get_elem?, ℤ,
}
use clear_stream.SuppressorPool.{
  Backend, SuppressorPool, Received, got, unavailable, waits, receive, check_out, count_back,
  mark_closed, Sent, returned, blocks, give_back, release, warm_pool,
}

-- The pool and its suppressors outside of it: `taken` from the channel by an Acquire that has not
-- counted them yet, `held` by the clients, and `returning` in a Release that has counted them back and
-- has not taken the mutex yet; `stuck` once a Release has blocked.
pub record Clients (W S : Type 0) : Type 0 where
  pub pool : SuppressorPool S
  pub taken : List S
  pub held : List S
  pub returning : List S
  pub world : W
  pub stuck : Bool

-- A step of some client's call. Acquire is `receives` and `counts`, Release `counts_back` and
-- `gives_back`, Close `closes` and a `drains` for each round of its loop; other clients' steps may come
-- in between.
pub data Call : Type 0 where
  receives releases_nil closes drains : Call
  counts counts_back gives_back : ℕ → Call
  warms : ℤ → Call

abbrev pub remove_at : {S : Type 0} → ℕ → List S → List S
remove_at i [] = []
remove_at zero (x ∷ xs) = xs
remove_at (suc i) (x ∷ xs) = x ∷ remove_at i xs

abbrev pub is_stuck : Sent → Bool
is_stuck returned = false
is_stuck blocks = true

abbrev pub take_from : {S : Type 0} → Received S → List S → List S
take_from (got s) taken = s ∷ taken
take_from unavailable taken = taken
take_from waits taken = taken

abbrev pub shut_received : {W S E : Type 0} → Backend W S E → Received S → W → W
shut_received b (got s) w = (b.shut s w).1
shut_received b unavailable w = w
shut_received b waits w = w

unfoldable pub step : {W S E : Type 0} → Backend W S E → Clients W S → Call → Clients W S
unfolding receive check_out count_back give_back release mark_closed warm_pool
step b c receives =
    let (p, r) = receive c.pool in record c { pool = p; taken = take_from r c.taken }
step b c (counts i) = elim (get_elem? c.taken i) [
  | none ↦ c
  | some s ↦
      let (p, r, w) = check_out b c.pool (got s) c.world in
      record c { pool = p; taken = remove_at i c.taken; held = s ∷ c.held; world = w }
]
step b c (counts_back i) = elim (get_elem? c.held i) [
  | none ↦ c
  | some s ↦ record c {
    pool = count_back c.pool;
    held = remove_at i c.held;
    returning = s ∷ c.returning;
  }
]
step b c (gives_back i) = elim (get_elem? c.returning i) [
  | none ↦ c
  | some s ↦
      let (p, sent, w) = give_back b c.pool s c.world in
      record c {
        pool = p;
        returning = remove_at i c.returning;
        world = w;
        stuck = c.stuck || is_stuck sent;
      }
]
step b c releases_nil =
    let (p, sent, w) = release b c.pool none c.world in
    record c { pool = p; world = w; stuck = c.stuck || is_stuck sent }
step b c closes = record c { pool = mark_closed c.pool }
step b c drains =
    if c.pool.closed
    then (let (p, r) = receive c.pool in record c { pool = p; world = shut_received b r c.world })
    else c
step b c (warms n) =
    let (p, e, w) = warm_pool b n c.pool c.world in record c { pool = p; world = w }

unfoldable pub run_clients :
    {W S E : Type 0} → Backend W S E → Clients W S → List Call → Clients W S
unfolding step
run_clients b c [] = c
run_clients b c (call ∷ calls) = run_clients b (step b c call) calls

-- No Acquire and no Release is between its halves.
abbrev pub is_settled : {W S : Type 0} → Clients W S → Bool
is_settled c = length c.taken + length c.returning == 0

abbrev pub may_go : {W S : Type 0} → Clients W S → Call → Bool
may_go c receives = true
may_go c releases_nil = true
may_go c closes = true
may_go c drains = true
may_go c (counts i) = true
may_go c (counts_back i) = true
may_go c (gives_back i) = true
may_go c (warms n) = is_settled c

-- Along the run, WarmPool is called only where no Acquire and no Release is between its halves.
unfoldable pub warms_alone : {W S E : Type 0} → Backend W S E → Clients W S → List Call → Bool
unfolding step
warms_alone b c [] = true
warms_alone b c (call ∷ calls) = may_go c call && warms_alone b (step b c call) calls

-- A pool that nobody has called yet.
abbrev pub untouched : {W S : Type 0} → SuppressorPool S → W → Clients W S
untouched p w = record { pool = p; taken = []; held = []; returning = []; world = w; stuck = false }
