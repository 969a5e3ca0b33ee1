-- ===== src/Jitter.antt =====
-- pkg/rtp/jitter.go: the jitter buffer between the RTP receiver and the decoder. The time of the
-- arrival, in nanoseconds, is an argument of `push`. The pool of payload slices is not modelled: a
-- payload is its list of bytes. The mutex makes each method one step.
pub mod Sequence
pub mod Window
pub mod Plc
pub mod Insert
pub mod Bounds
pub mod Pop
pub mod Store
pub mod Push
pub mod Order
pub mod Playout
pub mod HalfCircle
use clear_stream.Prelude.{
  ℕ, zero, suc, ◌+◌, ◌-◌, ◌*◌, ◌/◌, Bool, true, false, not, ◌&&◌, ◌||◌, Option, none, some, List,
  [], ◌∷◌, ltb, leb, ◌==◌, if◌then◌else◌, length, take, sub16, u16, ℤ, pos, negsuc, pos_part, ltb_ℤ,
  leb_ℤ, sub_ℕ, Float,
}

abbrev pub default_jitter_depth : ℕ
default_jitter_depth = 4

abbrev pub default_jitter_max_depth : ℕ
default_jitter_max_depth = 32

abbrev pub max_seq_drift : ℕ
max_seq_drift = 500

abbrev pub min_adapt_depth : ℕ
min_adapt_depth = 2

abbrev pub max_adapt_depth : ℕ
max_adapt_depth = 16

pub record JitterEntry : Type 0 where
  pub seq : ℕ  -- uint16
  pub timestamp : ℕ  -- uint32
  pub payload : List ℕ
  pub received : ℕ

-- `none` stands for a nil frame, and for the zero time.
pub record JitterBuffer (F : Type 0) : Type 0 where
  pub buf : List JitterEntry
  pub next_seq : ℕ  -- uint16
  pub initial_depth : ℕ
  pub depth : ℕ
  pub max_depth : ℕ
  pub primed : Bool
  pub consecutive_loss : ℕ
  pub last_good_frame : Option (List ℤ)
  pub prev_plc : Option (List ℤ)
  pub prev_pitch : ℕ
  pub last_arrival : Option ℕ
  pub arrival_var_ms : F
  pub arrival_ema_ms : F
  pub adapt_frames : ℕ

-- Whether `a` precedes `b` on the circle of the 16-bit sequence numbers.
unfoldable pub seq_less : ℕ → ℕ → Bool
seq_less a b = let dist = sub16 b a in ltb 0 dist && ltb dist 0x8000

-- What `Push` makes of a packet's distance from the next number to play.
pub data Drift : Type 0 where
  resync stale near : Drift

unfoldable pub classify : ℕ → ℕ → Drift
classify next seq =
    let fwd = sub16 seq next in
    let bwd = sub16 next seq in
    let fwd_is_forward = ltb 0 fwd && ltb fwd 0x8000 in
    let bwd_is_backward = ltb 0 bwd && ltb bwd 0x8000 in
    if (fwd_is_forward && ltb max_seq_drift fwd) || (bwd_is_backward && ltb max_seq_drift bwd)
    then resync
    else if bwd_is_backward
    then stale
    else near

-- The duplicate check before a packet is stored.
unfoldable pub has_seq : ℕ → List JitterEntry → Bool
has_seq s [] = false
has_seq s (e ∷ es) = e.seq == s || has_seq s es

-- The linear scan for the first entry that the new one precedes, and the shift to the right.
unfoldable pub insert : JitterEntry → List JitterEntry → List JitterEntry
insert e [] = e ∷ []
insert e (x ∷ xs) = if seq_less e.seq x.seq then e ∷ x ∷ xs else x ∷ insert e xs

-- The sequence number at the head, for the buffers that have one.
abbrev pub head_seq : List JitterEntry → ℕ → ℕ
head_seq [] d = d
head_seq (e ∷ es) d = e.seq

-- (now - last).Milliseconds(), which drops the fraction.
abbrev pub elapsed_ms : ℕ → ℕ → ℤ
elapsed_ms last now =
    if leb last now then pos ((now - last) / 1000000) else sub_ℕ 0 ((last - now) / 1000000)

module _ {F : Type 0} ⦃fl : Float F⦄ where
  open fl use {ratio, of_int, to_int, add, sub, mul, div, abs, ceil, eq}

  unfoldable pub new_jitter_buffer : ℤ → JitterBuffer F
  new_jitter_buffer wanted =
      let depth = if leb_ℤ wanted (pos 0) then default_jitter_depth else pos_part wanted in
      record {
        buf = [];
        next_seq = 0;
        initial_depth = depth;
        depth = depth;
        max_depth = default_jitter_max_depth;
        primed = false;
        consecutive_loss = 0;
        last_good_frame = none;
        prev_plc = none;
        prev_pitch = 0;
        last_arrival = none;
        arrival_var_ms = ratio 0 1;
        arrival_ema_ms = ratio 0 1;
        adapt_frames = 0;
      }

  -- The averages of the time between arrivals and of its deviation.
  unfoldable pub track_arrival : ℕ → JitterBuffer F → JitterBuffer F
  track_arrival now j = elim j.last_arrival [
    | none ↦ record j { last_arrival = some now }
    | some last ↦
        let ia_ms = of_int (elapsed_ms last now) in
        let ema =
          if eq j.arrival_ema_ms (ratio 0 1)
          then ia_ms
          else add (mul (ratio 9 10) j.arrival_ema_ms) (mul (ratio 1 10) ia_ms) in
        let dev = abs (sub ia_ms ema) in
        record j {
          last_arrival = some now;
          arrival_ema_ms = ema;
          arrival_var_ms = add (mul (ratio 95 100) j.arrival_var_ms) (mul (ratio 5 100) dev);
        }
  ]

  -- ceil(3 * jitter / 10ms), held within the adaptive bounds.
  unfoldable pub adapt_depth : JitterBuffer F → JitterBuffer F
  adapt_depth j =
      let target_ms = mul j.arrival_var_ms (ratio 3 1) in
      let target_frames = to_int (ceil (div target_ms (ratio 10 1))) in
      record j {
        depth =
            if ltb_ℤ target_frames (pos min_adapt_depth)
            then min_adapt_depth
            else if ltb_ℤ (pos max_adapt_depth) target_frames
            then max_adapt_depth
            else pos_part target_frames;
      }

  unfoldable pub prime : JitterBuffer F → JitterBuffer F
  prime j =
      if not j.primed && leb j.depth (length j.buf)
      then record j { primed = true; next_seq = head_seq j.buf 0 }
      else j

  unfoldable pub count_frame : JitterBuffer F → JitterBuffer F
  unfolding adapt_depth
  count_frame j =
      if leb 100 (j.adapt_frames + 1)
      then adapt_depth (record j { adapt_frames = 0 })
      else record j { adapt_frames = j.adapt_frames + 1 }

  -- The rest of `Push`, for a packet that is neither stale nor the first after a discontinuity.
  unfoldable pub store : JitterEntry → JitterBuffer F → JitterBuffer F × Bool
  store e j =
      if has_seq e.seq j.buf
      then (j, j.primed)
      else let grown = take j.max_depth (insert e j.buf) in
        let j' = count_frame (prime (record j { buf = grown })) in (j', j'.primed)

  unfoldable pub dispatch : Drift → JitterEntry → JitterBuffer F → JitterBuffer F × Bool
  dispatch resync e j = store e (record j { buf = []; primed = false })
  dispatch stale e j = (j, j.primed)
  dispatch near e j = store e j

  unfoldable pub push : ℕ → ℕ → ℕ → List ℕ → JitterBuffer F → JitterBuffer F × Bool
  unfolding dispatch
  push now seq ts payload j =
      let e : JitterEntry = record {
        seq = seq;
        timestamp = ts;
        payload = payload;
        received = now;
      } in
      let j' = track_arrival now j in
      dispatch (if j'.primed then classify j'.next_seq seq else near) e j'

  -- A payload, and whether there was one to play: `(none, true)` is a lost packet.
  unfoldable pub pop : JitterBuffer F → JitterBuffer F × Option (List ℕ) × Bool
  pop j = elim j.buf [
    | [] ↦ (j, none, false)
    | head ∷ rest ↦
        if not j.primed
        then (j, none, false)
        else if head.seq == j.next_seq
        then (record j { buf = rest; next_seq = u16 (j.next_seq + 1) }, some head.payload, true)
        else (record j { next_seq = u16 (j.next_seq + 1) }, none, true)
  ]

  unfoldable pub reset : JitterBuffer F → JitterBuffer F
  reset j = record j {
    buf = [];
    primed = false;
    next_seq = 0;
    consecutive_loss = 0;
    last_good_frame = none;
    prev_plc = none;
    prev_pitch = 0;
    last_arrival = none;
    arrival_ema_ms = ratio 0 1;
    arrival_var_ms = ratio 0 1;
    adapt_frames = 0;
    depth = j.initial_depth;
  }
