-- ===== src/Playback.antt =====
-- pkg/rtp/playback.go: the queue of outbound bot audio, the loop that sends it, and the injection of
-- bot audio. Each method is one step, under the queue's mutex. The counters are uint64.
pub mod Fifo
pub mod Ticks
pub mod Inject
use clear_stream.Prelude.{
  ℕ, zero, suc, ◌+◌, ◌-◌, ◌*◌, ◌/◌, ◌%◌, ◌^◌, Bool, true, false, ◌&&◌, Option, none, some, List, [],
  ◌∷◌, ◌++◌, ltb, leb, ◌==◌, if◌then◌else◌, length, take, drop, replicate, ℤ, pos, pos_part, leb_ℤ,
  u16, u32, u64,
}
use clear_stream.Header.{RtpHeader, build_rtp_packet}

pub record PlaybackQueue : Type 0 where
  pub frames : List (List ℕ)
  pub max_depth : ℕ
  pub dropped : ℕ
  pub pushed : ℕ
  pub popped : ℕ
  pub cleared : ℕ

unfoldable pub new_playback_queue : ℤ → PlaybackQueue
new_playback_queue wanted = record {
  frames = [];
  max_depth = if leb_ℤ wanted (pos 0) then 50 else pos_part wanted;
  dropped = 0;
  pushed = 0;
  popped = 0;
  cleared = 0;
}

unfoldable pub push : List ℕ → PlaybackQueue → PlaybackQueue × Bool
push frame q =
    if leb q.max_depth (length q.frames)
    then (record q { dropped = u64 (q.dropped + 1) }, false)
    else (record q { frames = q.frames ++ frame ∷ []; pushed = u64 (q.pushed + 1) }, true)

unfoldable pub pop : PlaybackQueue → PlaybackQueue × Option (List ℕ)
pop q = elim q.frames [
  | [] ↦ (q, none)
  | frame ∷ rest ↦ (record q { frames = rest; popped = u64 (q.popped + 1) }, some frame)
]

unfoldable pub clear : PlaybackQueue → PlaybackQueue × ℕ
clear q = (record q { frames = []; cleared = u64 (q.cleared + length q.frames) }, length q.frames)

-- The variables of the sending loop.
pub record Sender : Type 0 where
  pub payload_type : ℕ
  pub ssrc : ℕ
  pub seq : ℕ  -- uint16
  pub ts : ℕ  -- uint32

abbrev pub ts_step : ℕ
ts_step = 160

abbrev pub playback_header : Sender → RtpHeader
playback_header s = record {
  version = 2;
  padding = false;
  extension = false;
  csrc_count = 0;
  marker = false;
  payload_type = s.payload_type;
  sequence_number = s.seq;
  timestamp = s.ts;
  ssrc = s.ssrc;
}

-- One tick of the loop: the packet that is sent, if there is one. A failed write, which would end the
-- loop, is left out.
unfoldable pub tick : Sender → PlaybackQueue → Sender × PlaybackQueue × Option (List ℕ)
unfolding pop
tick s q =
    let (q', frame) = pop q in
    elim frame [
      | none ↦ (record s { ts = u32 (s.ts + ts_step) }, q', none)
      | some payload ↦ (
        record s { seq = u16 (s.seq + 1); ts = u32 (s.ts + ts_step) },
        q',
        some (build_rtp_packet (playback_header s) payload),
      )
    ]

abbrev pub frame_size : ℕ
frame_size = 160

-- The whole chunks of the samples, for the rounds of the loop that are left.
unfoldable pub whole_chunks : ℕ → List ℤ → List (List ℤ)
whole_chunks zero samples = []
whole_chunks (suc n) samples = take frame_size samples ∷ whole_chunks n (drop frame_size samples)

-- The final frame, padded with silence, if the samples do not fill the frames.
unfoldable pub last_chunk : List ℤ → List (List ℤ)
last_chunk samples =
    let n = length samples in
    let remainder = n % frame_size in
    if ltb 0 remainder
    then (drop (n - remainder) samples ++ replicate (frame_size - remainder) (pos 0)) ∷ []
    else []

unfoldable pub push_all : (List ℤ → List ℕ) → List (List ℤ) → PlaybackQueue → PlaybackQueue × Bool
push_all encode [] q = (q, true)
push_all encode (chunk ∷ chunks) q =
    let (q', accepted) = push (encode chunk) q in
    let (q'', rest) = push_all encode chunks q' in (q'', accepted && rest)

-- Samples at 8 kHz, with the encoder of the session's codec.
unfoldable pub inject_samples : (List ℤ → List ℕ) → List ℤ → PlaybackQueue → PlaybackQueue × Bool
unfolding whole_chunks last_chunk push_all
inject_samples encode samples q =
    push_all encode (whole_chunks (length samples / frame_size) samples ++ last_chunk samples) q
