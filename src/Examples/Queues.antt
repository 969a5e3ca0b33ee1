-- ===== src/Examples/Queues.antt =====
-- Concrete inputs for the theorems on the playback queue, the suppressor pool and the stream states.
use clear_stream.Prelude.{
  ℕ, suc, ◌+◌, ◌-◌, ◌*◌, ◌/◌, ◌%◌, ◌==◌, if◌then◌else◌, leb, u16, u32, All, map, ◌++◌, take, ℤ, pos,
  List, [], ◌∷◌, none, some, true, false, refl, ◌≡◌, arith, length, replicate,
}
use clear_stream.Playback.{PlaybackQueue, Sender, new_playback_queue, inject_samples}
use clear_stream.Playback.Fifo.{IsAccounted, pushes, pops, clears, run-IsAccounted}
use clear_stream.Playback.Fifo as fifo
use clear_stream.Playback.Ticks as sending
use clear_stream.Playback.Ticks.{frame_in, barge_in, ticks, count_ticks, play-clock}
use clear_stream.Playback.Inject.{join, IsFrame, inject_samples_lem}
use clear_stream.SuppressorPool.{
  Backend, made, SuppressorPool, new_suppressor_pool, fill, uncount, warm_pool, warm_missing,
  give_back, blocks, receive, check_out, add_one, count_back, mark_closed,
}
use clear_stream.SuppressorPool.Clients as clients
use clear_stream.SuppressorPool.Clients.{step, run_clients, warms_alone, untouched}
use clear_stream.SuppressorPool.Bounds as bounds
use clear_stream.SuppressorPool.Bounds.{run_clients-IsBounded}
use clear_stream.SuppressorPool.Shutdown.{release_race}
use clear_stream.StreamState.{
  created, sip_failed, bot_timeout, model_failed, can_transition, same, number, valid_transitions,
  is_listed,
}
use clear_stream.StreamState.Paths.{stay, go, unreachable}

run-IsAccounted_example :
    IsAccounted (
      fifo.run
        (new_playback_queue (pos 1))
        (pushes (1 ∷ []) ∷ pushes (2 ∷ []) ∷ pops ∷ clears ∷ []))
run-IsAccounted_example =
    run-IsAccounted (pos 1) (pushes (1 ∷ []) ∷ pushes (2 ∷ []) ∷ pops ∷ clears ∷ [])

abbrev sender : Sender
sender = record { payload_type = 0; ssrc = 5; seq = 65535; ts = 4294967200 }

-- A queue of depth 2 with one frame.
abbrev queue : PlaybackQueue
queue = record {
  frames = (1 ∷ 2 ∷ []) ∷ [];
  max_depth = 2;
  dropped = 0;
  pushed = 1;
  popped = 0;
  cleared = 0;
}

play-clock_example :
    let (s', q', packets) =
      sending.play sender queue (ticks ∷ ticks ∷ frame_in (3 ∷ []) ∷ barge_in ∷ ticks ∷ []) in
    (s'.ts ≡ u32 (4294967200 + 160 * 3))
    × (s'.seq ≡ u16 (65535 + length packets))
    × (s'.payload_type ≡ 0)
    × (s'.ssrc ≡ 5)
play-clock_example =
    play-clock sender queue (ticks ∷ ticks ∷ frame_in (3 ∷ []) ∷ barge_in ∷ ticks ∷ [])
      (omega arith) (omega arith)

-- An encoder that gives each sample the byte 255.
abbrev silent_encoder : List ℤ → List ℕ
silent_encoder samples = replicate (length samples) 255

inject_samples_lem_example :
    (chunks : List (List ℤ)) × (join chunks
      ≡ replicate 161 (pos 4) ++ replicate ((160 - 161 % 160) % 160) (pos 0))
    × All IsFrame chunks
    × (length chunks ≡ (161 + 159) / 160)
    × ((inject_samples silent_encoder (replicate 161 (pos 4)) queue).0.frames
        ≡ ((1 ∷ 2 ∷ []) ∷ []) ++ take (2 - 1) (map silent_encoder chunks))
    × ((inject_samples silent_encoder (replicate 161 (pos 4)) queue).1
        ≡ leb (1 + (161 + 159) / 160) 2)
inject_samples_lem_example =
    inject_samples_lem silent_encoder (replicate 161 (pos 4)) queue (omega arith)

-- Suppressors that are numbers, made in turn; the world is the next number.
abbrev numbered : Backend ℕ ℕ ℕ
numbered = record {
  new_suppressor = λ w. (made w, suc w);
  reset = λ s w. w;
  shut = λ s w. (if s == 1 then some 99 else none, w);
}

-- A pool of two of which one is out.
abbrev one_out : SuppressorPool ℕ
one_out = record {
  idle = 1 ∷ [];
  size = 2;
  close_once = false;
  closed = false;
  outstanding = pos 1;
}

abbrev full : SuppressorPool ℕ
full = record {
  idle = 0 ∷ 1 ∷ [];
  size = 2;
  close_once = false;
  closed = false;
  outstanding = pos 0;
}

new_full_pool : (new_suppressor_pool numbered (pos 2) 0).0 ≡ some full
unfolding new_suppressor_pool fill
new_full_pool = refl

-- Two clients acquire at once; one releases and acquires again while the other closes the pool.
abbrev interleaved : List clients.Call
interleaved =
    clients.receives
    ∷ clients.receives
    ∷ clients.counts 1
    ∷ clients.counts 0
    ∷ clients.warms (pos 2)
    ∷ clients.counts_back 1
    ∷ clients.counts_back 0
    ∷ clients.gives_back 1
    ∷ clients.receives
    ∷ clients.closes
    ∷ clients.gives_back 0
    ∷ clients.drains
    ∷ clients.counts 0
    ∷ []

interleaved_alone :
    warms_alone numbered (untouched full (new_suppressor_pool numbered (pos 2) 0).2) interleaved
    ≡ true
unfolding warms_alone step receive check_out add_one count_back uncount give_back mark_closed
    warm_pool
interleaved_alone = refl

run_clients-IsBounded_example :
    bounds.IsBounded
      (run_clients numbered (untouched full (new_suppressor_pool numbered (pos 2) 0).2) interleaved)
run_clients-IsBounded_example =
    run_clients-IsBounded numbered 2 0 full interleaved (omega arith) new_full_pool
      interleaved_alone

one_out_warmed :
    (warm_pool numbered (pos 2) (record one_out { outstanding = uncount (pos 1) }) 7).1 ≡ none
unfolding warm_pool warm_missing fill uncount
one_out_warmed = refl

release_race_example :
    let (p', failure, w') =
      warm_pool numbered (pos 2) (record one_out { outstanding = uncount (pos 1) }) 7 in
    give_back numbered p' 0 w' ≡ (p', blocks, w')
release_race_example = release_race numbered one_out 7 0 refl refl (omega arith) one_out_warmed

created_fails : can_transition created sip_failed ≡ true
unfolding can_transition valid_transitions is_listed same number
created_fails = refl

created_differs : (same created bot_timeout ≡ false) × (same created model_failed ≡ false)
unfolding same number
created_differs = (refl, refl)

unreachable_example : (same sip_failed bot_timeout ≡ false) × (same sip_failed model_failed ≡ false)
unreachable_example =
    unreachable created sip_failed
      (go created sip_failed sip_failed created_fails (stay sip_failed)) created_differs.0
      created_differs.1
