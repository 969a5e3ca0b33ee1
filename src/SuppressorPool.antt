-- ===== src/SuppressorPool.antt =====
-- pkg/model/pool.go: the fixed pool of suppressors that call legs share. The channel is the list of
-- the idle suppressors, in the order they were sent; a receive or a send that waits is a result.
pub mod Fill
pub mod Clients
pub mod Bounds
pub mod Shutdown
use clear_stream.Prelude.{
  ℕ, zero, suc, ◌+◌, ◌==◌, Bool, true, false, Option, none, some, List, [], ◌∷◌, ◌++◌, ltb,
  if◌then◌else◌, length, ℤ, pos, negsuc, pos_part, neg_part, sub_ℕ, ltb_ℤ, leb_ℤ,
}

pub data Made (S E : Type 0) : Type 0 where
  made : S → Made S E
  failed : E → Made S E

-- What the pool calls of its suppressors: NewSuppressor with the pool's configuration, Reset, Close.
-- `W` is what they act on, `S` a suppressor (a non-nil handle), `E` an error.
pub record Backend (W S E : Type 0) : Type 0 where
  pub new_suppressor : W → Made S E × W
  pub reset : S → W → W
  pub shut : S → W → Option E × W

pub record SuppressorPool (S : Type 0) : Type 0 where
  pub idle : List S
  pub size : ℕ
  pub close_once : Bool  -- closeOnce has run
  pub closed : Bool
  pub outstanding : ℤ  -- int32

pub data PoolError (E : Type 0) : Type 0 where
  bad_size : ℤ → PoolError E
  init_failed : ℕ → ℤ → E → PoolError E
  warm_closed : PoolError E
  warm_exceeds : ℤ → ℕ → PoolError E
  warm_failed : ℕ → ℤ → E → PoolError E

-- The loop that makes suppressors and sends each to the channel, from round i on: it stops at the first
-- error. The callers ask for no more than the channel has room for.
unfoldable pub fill :
    {W S E : Type 0}
    → Backend W S E
    → (ℕ → E → PoolError E)
    → ℕ
    → ℕ
    → List S
    → W
    → List S × Option (PoolError E) × W
fill b wrap i zero idle w = (idle, none, w)
fill b wrap i (suc left) idle w =
    let (result, w') = b.new_suppressor w in
    elim result [
      | failed e ↦ (idle, some (wrap (suc i) e), w')
      | made s ↦ fill b wrap (suc i) left (idle ++ s ∷ []) w'
    ]

unfoldable pub new_suppressor_pool :
    {W S E : Type 0} → Backend W S E → ℤ → W → Option (SuppressorPool S) × Option (PoolError E) × W
unfolding fill
new_suppressor_pool b n w =
    if leb_ℤ n (pos 0)
    then (none, some (bad_size n), w)
    else let (idle, failure, w') = fill b (λ i e. init_failed i n e) 0 (pos_part n) [] w in
      elim failure [
        | some e ↦ (none, some e, w')
        | none ↦ (
          some record {
            idle = idle;
            size = pos_part n;
            close_once = false;
            closed = false;
            outstanding = pos 0;
          },
          none,
          w',
        )
      ]

-- A receive from the channel.
pub data Received (S : Type 0) : Type 0 where
  got : S → Received S
  unavailable : Received S  -- nil: the channel is closed and empty
  waits : Received S

unfoldable pub receive : {S : Type 0} → SuppressorPool S → SuppressorPool S × Received S
receive p = elim p.idle [
  | [] ↦ (p, if p.closed then unavailable else waits)
  | s ∷ rest ↦ (record p { idle = rest }, got s)
]

-- atomic.AddInt32(&p.outstanding, 1)
unfoldable pub add_one : ℤ → ℤ
add_one (pos n) = if n == 2147483647 then negsuc 2147483647 else pos (suc n)
add_one (negsuc zero) = pos 0
add_one (negsuc (suc n)) = negsuc n

-- Acquire after its receive. No lock is held over the two: other calls come in between.
unfoldable pub check_out :
    {W S E : Type 0}
    → Backend W S E
    → SuppressorPool S
    → Received S
    → W
    → SuppressorPool S × Received S × W
unfolding add_one
check_out b p (got s) w = (record p { outstanding = add_one p.outstanding }, got s, b.reset s w)
check_out b p unavailable w = (p, unavailable, w)
check_out b p waits w = (p, waits, w)

-- Acquire with no other call in between.
unfoldable pub acquire :
    {W S E : Type 0} → Backend W S E → SuppressorPool S → W → SuppressorPool S × Received S × W
unfolding receive check_out
acquire b p w = let (p', r) = receive p in check_out b p' r w

-- The loop of compare-and-swap of Release: one less, but never below 0.
unfoldable pub uncount : ℤ → ℤ
uncount (pos zero) = pos 0
uncount (pos (suc n)) = pos n
uncount (negsuc n) = negsuc n

-- The half of Release before it takes the mutex.
unfoldable pub count_back : {S : Type 0} → SuppressorPool S → SuppressorPool S
unfolding uncount
count_back p = record p { outstanding = uncount p.outstanding }

-- The half of Release under the mutex; `blocks` is a send on a full channel, with the mutex held.
pub data Sent : Type 0 where
  returned blocks : Sent

unfoldable pub give_back :
    {W S E : Type 0} → Backend W S E → SuppressorPool S → S → W → SuppressorPool S × Sent × W
give_back b p s w =
    if p.closed
    then (p, returned, (b.shut s w).1)
    else if ltb (length p.idle) p.size
    then (record p { idle = p.idle ++ s ∷ [] }, returned, w)
    else (p, blocks, w)

-- Release with no other call between its halves.
unfoldable pub release :
    {W S E : Type 0} → Backend W S E → SuppressorPool S → Option S → W → SuppressorPool S × Sent × W
unfolding count_back give_back
release b p none w = (p, returned, w)
release b p (some s) w = give_back b (count_back p) s w

-- The loop of Close over what is left in the channel, with the first error.
unfoldable pub drain : {W S E : Type 0} → Backend W S E → List S → W → Option E × W
drain b [] w = (none, w)
drain b (s ∷ rest) w =
    let (e, w') = b.shut s w in
    let (later, w'') = drain b rest w' in (elim e [ none ↦ later | some first ↦ some first ], w'')

-- Close under the mutex, once: the channel still holds what was idle.
unfoldable pub mark_closed : {S : Type 0} → SuppressorPool S → SuppressorPool S
mark_closed p = if p.close_once then p else record p { close_once = true; closed = true }

-- Close with no other call before its loop has ended.
unfoldable pub close :
    {W S E : Type 0} → Backend W S E → SuppressorPool S → W → SuppressorPool S × Option E × W
unfolding drain mark_closed
close b p w =
    if p.close_once
    then (p, none, w)
    else let (e, w') = drain b p.idle w in (record (mark_closed p) { idle = [] }, e, w')

-- The loop of WarmPool, for what is missing.
unfoldable pub warm_missing :
    {W S E : Type 0}
    → Backend W S E
    → ℤ
    → SuppressorPool S
    → W
    → SuppressorPool S × Option (PoolError E) × W
unfolding fill
warm_missing b need p w =
    let (idle, failure, w') = fill b (λ i e. warm_failed i need e) 0 (pos_part need) p.idle w in
    (record p { idle = idle }, failure, w')

unfoldable pub warm_pool :
    {W S E : Type 0}
    → Backend W S E
    → ℤ
    → SuppressorPool S
    → W
    → SuppressorPool S × Option (PoolError E) × W
unfolding warm_missing
warm_pool b n p w =
    let total = sub_ℕ (length p.idle + pos_part p.outstanding) (neg_part p.outstanding) in
    let need = sub_ℕ (pos_part n + neg_part total) (pos_part total + neg_part n) in
    if p.closed
    then (p, some warm_closed, w)
    else if ltb_ℤ (pos p.size) n
    then (p, some (warm_exceeds n p.size), w)
    else if leb_ℤ n total
    then (p, none, w)
    else warm_missing b need p w
