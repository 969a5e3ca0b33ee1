-- ===== src/Playback/Ticks.antt =====
-- pkg/rtp/playback.go, startPlaybackLoop: the stream of packets that the loop sends.
use clear_stream.Prelude.{
  ℕ, suc, ◌+◌, ◌*◌, ◌<◌, ◌≡◌, inl, inr, List-cases, refl, ◌∙◌, Option, none, some, List, [], ◌∷◌,
  length, u16, u32, u64, arith,
}
use clear_stream.Header.{ok, parse_rtp_header, build_rtp_packet}
use clear_stream.Header.RoundTrip.{parse-build}
use clear_stream.Playback.{PlaybackQueue, Sender, push, clear, tick, playback_header}

-- What happens to the queue: a frame comes in, a barge-in, a tick of the loop.
pub data Event : Type 0 where
  frame_in : List ℕ → Event
  barge_in ticks : Event

-- The packets with one more at the front, if there is one.
abbrev pub with_packet : Option (List ℕ) → List (List ℕ) → List (List ℕ)
with_packet none packets = packets
with_packet (some p) packets = p ∷ packets

-- The packets sent over a sequence of events, with the last state of the loop and the queue.
pub play : Sender → PlaybackQueue → List Event → Sender × PlaybackQueue × List (List ℕ)
play s q [] = (s, q, [])
play s q (frame_in frame ∷ es) = play s (push frame q).0 es
play s q (barge_in ∷ es) = play s (clear q).0 es
play s q (ticks ∷ es) =
    let (s', q', packet) = tick s q in
    let (s'', q'', packets) = play s' q' es in (s'', q'', with_packet packet packets)

abbrev pub count_ticks : List Event → ℕ
count_ticks [] = 0
count_ticks (frame_in frame ∷ es) = count_ticks es
count_ticks (barge_in ∷ es) = count_ticks es
count_ticks (ticks ∷ es) = suc (count_ticks es)

-- A tick by what waits in the queue.
tick_empty :
    (s : Sender) (q : PlaybackQueue)
    → q.frames ≡ []
    → tick s q ≡ (record s { ts = u32 (s.ts + 160) }, q, none)
unfolding tick
tick_empty s q e = ground arith

tick_frame :
    (s : Sender) (q : PlaybackQueue) {frame : List ℕ} {rest : List (List ℕ)}
    → q.frames ≡ frame ∷ rest
    → tick s q ≡ (
      record s { seq = u16 (s.seq + 1); ts = u32 (s.ts + 160) },
      record q { frames = rest; popped = u64 (q.popped + 1) },
      some (build_rtp_packet (playback_header s) frame),
    )
unfolding tick
tick_frame s q e = ground arith

-- Over any events, from a sequence number of 16 bits and a timestamp of 32, the timestamp moves on
-- by 160 for each tick, with or without a packet, and the sequence number by one for each packet
-- that was sent; payload type and SSRC stay.
pub play-clock :
    (s : Sender) (q : PlaybackQueue) (es : List Event)
    → s.ts < 4294967296
    → s.seq < 65536
    → let (s', q', packets) = play s q es in
      (s'.ts ≡ u32 (s.ts + 160 * count_ticks es))
      × (s'.seq ≡ u16 (s.seq + length packets))
      × (s'.payload_type ≡ s.payload_type)
      × (s'.ssrc ≡ s.ssrc)
unfolding play
play-clock s q [] t n = (omega arith, omega arith, refl, refl)
play-clock s q (frame_in frame ∷ es) t n = play-clock s (push frame q).0 es t n
play-clock s q (barge_in ∷ es) t n = play-clock s (clear q).0 es t n
play-clock s q (ticks ∷ es) t n = elim (List-cases q.frames) [
  | inl e ↦
      let later = play-clock (record s { ts = u32 (s.ts + 160) }) q es (omega arith) n in
      rw (tick_empty s q e) (omega (arith, later.0), later.1, later.2, later.3)
  | inr (frame, rest, e) ↦
      let s' : Sender = record s { seq = u16 (s.seq + 1); ts = u32 (s.ts + 160) } in
      let q' : PlaybackQueue = record q { frames = rest; popped = u64 (q.popped + 1) } in
      let later = play-clock s' q' es (omega arith) (omega arith) in
      rw (tick_frame s q e) (omega (arith, later.0), omega (arith, later.1), later.2, later.3)
]

-- A tick with a frame at the head of the queue sends a packet that reads back as that frame, under
-- the loop's present sequence number and timestamp, and takes the frame off the queue; the payload
-- type has 7 bits, and the sequence number, timestamp and SSRC fit their fields.
tick-parse :
    (s : Sender) (q : PlaybackQueue) (frame : List ℕ) (rest : List (List ℕ))
    → q.frames ≡ frame ∷ rest
    → s.payload_type < 128
    → s.seq < 65536
    → s.ts < 4294967296
    → s.ssrc < 4294967296
    → (packet : List ℕ) × ((tick s q).2 ≡ some packet)
      × (parse_rtp_header packet ≡ ok (playback_header s) frame)
      × ((tick s q).1.frames ≡ rest)
tick-parse s q frame rest e pt seq ts ssrc =
    let sent = tick_frame s q e in
    (
      build_rtp_packet (playback_header s) frame,
      rw sent,
      parse-build (playback_header s) frame (omega arith) refl ∙ ground arith,
      rw sent,
    )
