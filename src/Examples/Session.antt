-- ===== src/Examples/Session.antt =====
-- Concrete inputs for the theorems on pkg/rtp/session.go.
use clear_stream.Prelude.{
  ℕ, suc, ◌++◌, ◌&&◌, ℤ, pos, List, [], ◌∷◌, Option, none, some, true, false, refl, ap₂, ◌≡◌, ◌≢◌,
  arith,
}
use clear_stream.Examples.{thousandths}
use clear_stream.Examples.Stream.{stages, setup, empty}
use clear_stream.Pipeline as pipeline
use clear_stream.Pipeline.{
  Pipeline, process_frames, input_rate, input_frame_bytes, bytes_to_int16, int16_to_bytes,
  run_stage, run_fallible, resampled, to_processor_rate, cancel_echo, reduce_noise, observe_turn,
  is_for_suppressor, suppress_if, apply_agc, apply_limiter, to_input_rate, diarize, write_out,
  finish_frame, send_cleaned, clean_frame, process_one, process_all,
}
use clear_stream.Pipeline.Calls as calls
use clear_stream.Pipeline.Frames.{frames_of, split_frames}
use clear_stream.Pipeline.Steps as steps
use clear_stream.Pipeline.Steps.{Answer, stop, continue, ◌>>=◌}
use clear_stream.Header.{RtpHeader, ok, parse_rtp_header, read_packet, split_payload}
use clear_stream.Session.Data.{
  g711u, Config, Outside, Session, no_receiver_report, no_sender_report,
}
use clear_stream.Session.{follow_ssrc, handle_packet, go_on, receive}
use clear_stream.Session.Legs.{handle_packet-new_leg}
use clear_stream.Session.Forward.{handle_packet-sends}
use clear_stream.Session.Forward.Sent.{Log, Forwards, IsPlayed}
use clear_stream.Session.Losses.{receive-IsUnbroken}
use clear_stream.Session.Losses.Answers.{packet_answered, all_answered}
use clear_stream.Jitter.{
  push, pop, track_arrival, classify, store, has_seq, count_frame, prime, insert,
}
use clear_stream.Jitter.Plc.{
  generate_plc, conceal, detect_pitch, tail_from, repeat_tail, held_period,
}
use clear_stream.Session.Pcm.{int16_slice_to_bytes}
use clear_stream.Session.Safety.{handle_packet-panics}
use clear_stream.Session.Data.{Handled, done, panics, failed_with}
use clear_stream.Jitter.Plc.Conceal.{IsPaired}

-- A pipeline that counts its frames and gives back what it gets, and a log of the datagrams.
abbrev outside : Outside ℕ Log
outside = record {
  process_frames = λ p bytes. (suc p, some bytes);
  reset_pipeline = λ p. 0;
  is_bypass = λ p. false;
  decode_via_ffmpeg = λ c payload. none;
  encode_via_ffmpeg = λ c samples. none;
  on_dtmf = λ d w. w;
  write_to = λ i packet w. (true, w ++ (i, packet) ∷ []);
}

abbrev config : Config
config = record {
  codec = g711u;
  dtmf_payload_type = 101;
  has_on_dtmf = true;
  forks = 1;
  clean_audio_buffer_size = 2;
}

-- A session in the middle of a call leg, with a pipeline that has done so many frames.
abbrev session_with : {P : Type 0} → ℕ → ℕ → P → Session ℤ P
session_with ssrc frames pipeline = record {
  jitter = record {
    buf = [];
    next_seq = ssrc;
    initial_depth = 1;
    depth = 1;
    max_depth = 32;
    primed = true;
    consecutive_loss = 0;
    last_good_frame = some (pos 3 ∷ []);
    prev_plc = none;
    prev_pitch = frames;
    last_arrival = none;
    arrival_var_ms = pos 0;
    arrival_ema_ms = pos 0;
    adapt_frames = 0;
  };
  pipeline = pipeline;
  dtmf = record { sample_rate = 8000; last_event = ssrc; last_end = true };
  clean_audio = [];
  current_ssrc = ssrc;
  ssrc_set = true;
  packets_sent = 4;
  packets_lost = 1;
  rtcp_stats = no_receiver_report;
  last_sr = no_sender_report;
  last_sr_received_at = some ssrc;
}

abbrev session : ℕ → ℕ → Session ℤ ℕ
session ssrc frames = session_with ssrc frames frames

-- Two samples under the SSRC 3.
abbrev packet : List ℕ
packet = 128 ∷ 0 ∷ 0 ∷ 3 ∷ 0 ∷ 0 ∷ 0 ∷ 2 ∷ 0 ∷ 0 ∷ 0 ∷ 3 ∷ 255 ∷ 0 ∷ []

abbrev header : RtpHeader
header = record {
  version = 2;
  padding = false;
  extension = false;
  csrc_count = 0;
  marker = false;
  payload_type = 0;
  sequence_number = 3;
  timestamp = 2;
  ssrc = 3;
}

packet_parsed : parse_rtp_header packet ≡ ok header (255 ∷ 0 ∷ [])
unfolding parse_rtp_header read_packet split_payload
packet_parsed = refl

handle_packet-new_leg_example :
    handle_packet ⦃fl = thousandths⦄ outside config 9 packet (session 5 7) []
    ≡ handle_packet ⦃fl = thousandths⦄ outside config 9 packet (session 6 0) []
handle_packet-new_leg_example =
    handle_packet-new_leg ⦃fl = thousandths⦄ outside config 9 packet (session 5 7) (session 6 0) []
      header (255 ∷ 0 ∷ []) (omega arith) packet_parsed
      (record {
        depth = refl;
        max_depth = refl;
        sample_rate = refl;
        pipeline = refl;
        clean_audio = refl;
        sent = refl;
        lost = refl;
      })
      refl refl (omega arith) (omega arith)

handle_packet-sends_example :
    let (pushed, ready) = push ⦃fl = thousandths⦄ 9 3 2 (255 ∷ 0 ∷ []) (session 3 7).jitter in
    let (j, frame, more) = pop ⦃fl = thousandths⦄ pushed in
    Forwards config header
      (ready && more)
      (IsPlayed outside config header ⦃fl = thousandths⦄ j 7 frame)
      4
      []
      (handle_packet ⦃fl = thousandths⦄ outside config 9 packet (session 3 7) [])
unfolding follow_ssrc
handle_packet-sends_example =
    handle_packet-sends ⦃fl = thousandths⦄ outside config (λ i sent w. refl) (λ d w. refl) 9 packet
      (session 3 7) [] header (255 ∷ 0 ∷ []) (omega arith) packet_parsed

-- The cleaned audio, or an error.
abbrev answer : Pipeline ℤ ℕ × Answer Unit → Pipeline ℤ ℕ × Option (List ℕ)
answer (p, steps.done u) = (p, some p.live.out)
answer (p, stop e) = (p, none)

-- The pipeline with frames of one sample, which writes to a new buffer in each call.
abbrev piped : Outside (Pipeline ℤ ℕ) Log
piped = record {
  process_frames = λ p bytes. answer (
      process_frames ⦃fl = thousandths⦄ stages setup bytes
        (record p { live = record p.live { out = [] } }));
  reset_pipeline = calls.reset_pipeline ⦃fl = thousandths⦄ stages;
  is_bypass = λ p. p.live.bypassed;
  decode_via_ffmpeg = λ c payload. none;
  encode_via_ffmpeg = λ c samples. none;
  on_dtmf = λ d w. w;
  write_to = λ i packet w. (true, w ++ (i, packet) ∷ []);
}

-- Number 5, where number 3 is the next to play, and is concealed.
abbrev late_packet : List ℕ
late_packet = 128 ∷ 0 ∷ 0 ∷ 5 ∷ 0 ∷ 0 ∷ 0 ∷ 4 ∷ 0 ∷ 0 ∷ 0 ∷ 3 ∷ 255 ∷ 0 ∷ []

packet_answered_run :
    packet_answered ⦃fl = thousandths⦄ piped config 20 late_packet (session_with 3 0 empty) ≡ true
unfolding packet_answered parse_rtp_header read_packet split_payload follow_ssrc push track_arrival
    classify store has_seq count_frame prime pop insert generate_plc detect_pitch tail_from
    repeat_tail held_period int16_slice_to_bytes conceal process_frames frames_of split_frames
    input_rate input_frame_bytes bytes_to_int16 int16_to_bytes run_stage run_fallible resampled
    to_processor_rate cancel_echo reduce_noise observe_turn is_for_suppressor suppress_if apply_agc
    apply_limiter to_input_rate diarize pipeline.count_frame write_out finish_frame send_cleaned
    clean_frame process_one process_all continue ◌>>=◌
packet_answered_run = refl

true_either_way : (r : Handled) → go_on r true true ≡ true
true_either_way done = refl
true_either_way panics = refl
true_either_way (failed_with e) = refl

loss_answered :
    all_answered ⦃fl = thousandths⦄ piped config
      ((20, late_packet) ∷ [])
      (session_with 3 0 empty)
      []
    ≡ true
unfolding all_answered
loss_answered = ap₂ (◌&&◌) packet_answered_run (
    true_either_way
      (handle_packet ⦃fl = thousandths⦄ piped config 20 late_packet (session_with 3 0 empty) []).2)

receive-IsUnbroken_example :
    (receive ⦃fl = thousandths⦄ piped config
      ((20, late_packet) ∷ [])
      (session_with 3 0 empty)
      []).0.jitter.consecutive_loss
    ≡ 0
receive-IsUnbroken_example =
    receive-IsUnbroken ⦃fl = thousandths⦄ piped config ((20, late_packet) ∷ [])
      (session_with 3 0 empty) [] loss_answered refl

session-IsPaired : IsPaired ⦃fl = thousandths⦄ (session 3 7).jitter
session-IsPaired last prev e h = ground (arith, h)

handle_packet-panics_example :
    let (s', w') = receive ⦃fl = thousandths⦄ outside config ((9, packet) ∷ []) (session 3 7) [] in
    (handle_packet ⦃fl = thousandths⦄ outside config 20 (1 ∷ 2 ∷ []) s' w').2 ≢ panics
handle_packet-panics_example =
    handle_packet-panics ⦃fl = thousandths⦄ outside config ((9, packet) ∷ []) 20 (1 ∷ 2 ∷ [])
      (session 3 7) [] session-IsPaired
