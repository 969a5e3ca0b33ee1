-- ===== src/Playback/Fifo.antt =====
-- pkg/rtp/playback.go: the queue is a bounded FIFO, and its counters account for every frame.
use clear_stream.Prelude.{
  ℕ, ◌+◌, ◌≤◌, ◌<◌, ◌≡◌, List, [], ◌∷◌, length, length-append, ℤ, u64, arith,
}
use clear_stream.Playback.{PlaybackQueue, new_playback_queue, push, pop, clear}

-- A call of the queue's interface.
pub data Call : Type 0 where
  pushes : List ℕ → Call
  pops clears : Call

pub step : PlaybackQueue → Call → PlaybackQueue
step q (pushes frame) = (push frame q).0
step q pops = (pop q).0
step q clears = (clear q).0

pub run : PlaybackQueue → List Call → PlaybackQueue
run q [] = q
run q (c ∷ cs) = run (step q c) cs

-- The frames that were accepted are those played, those thrown away and those that wait, and the queue
-- is within its depth.
pub record IsAccounted (q : PlaybackQueue) : Type 0 where
  pub deep : 0 < q.max_depth
  pub fits : length q.frames ≤ q.max_depth
  pub counted : q.pushed ≡ u64 (q.popped + q.cleared + length q.frames)

step-IsAccounted : (q : PlaybackQueue) (c : Call) → IsAccounted q → IsAccounted (step q c)
unfolding step push pop clear
step-IsAccounted q (pushes frame) a = ground (arith, length-append q.frames (frame ∷ []))
step-IsAccounted q pops a = ground arith
step-IsAccounted q clears a = ground arith

run_from-IsAccounted : (q : PlaybackQueue) (cs : List Call) → IsAccounted q → IsAccounted (run q cs)
unfolding run
run_from-IsAccounted q [] a = a
run_from-IsAccounted q (c ∷ cs) a = run_from-IsAccounted (step q c) cs (step-IsAccounted q c a)

new-IsAccounted : (depth : ℤ) → IsAccounted (new_playback_queue depth)
unfolding new_playback_queue
new-IsAccounted depth = ground arith

-- After any calls on a new queue, every frame that was accepted was played, was thrown away by a
-- barge-in or still waits, as the uint64 counters have it, and at most the queue's depth wait.
pub run-IsAccounted : (depth : ℤ) (cs : List Call) → IsAccounted (run (new_playback_queue depth) cs)
run-IsAccounted depth cs = run_from-IsAccounted _ cs (new-IsAccounted depth)
