-- ===== src/Session.antt =====
-- pkg/rtp/session.go: the session that takes RTP packets in, cleans their audio and forwards it. One
-- call of `handle_packet` is one step: the receive loop calls it for one packet after the other. The
-- telemetry and the log are left out, and the pooled slices are the lists they hold.
pub mod Pcm
pub mod Data
pub mod Legs
pub mod Forward
pub mod Losses
pub mod Safety
use clear_stream.Prelude.{
  ℕ, zero, suc, ◌+◌, ◌*◌, Bool, true, false, not, ◌&&◌, Option, none, some, List, [], ◌∷◌, ◌++◌,
  ltb, ◌==◌, if◌then◌else◌, length, drop, ℤ, u64, Float,
}
use clear_stream.Jitter.{JitterBuffer}
use clear_stream.Jitter as jitter_buffer
use clear_stream.Jitter.Plc.{generate_plc, on_good_packet}
use clear_stream.Dtmf.{parse_dtmf_payload}
use clear_stream.Dtmf as dtmf_detector
use clear_stream.Header.{
  ParsedPacket, RtpHeader, ok, too_short, header_exceeds, parse_rtp_header, build_rtp_packet,
}
use Pcm.{bytes_to_int16_slice, int16_slice_to_bytes}
use Data.{
  Config, CleanAudioFrame, Outside, Session, SessionError, packet_too_short, bad_header,
  decode_failed, suppress_failed, encode_failed, forward_failed, Handled, done, panics, failed_with,
  no_receiver_report, no_sender_report, is_ffmpeg_codec, codec_for, decode_to_pcm, encode_from_pcm,
  write_forks, notify, deliver_clean,
}

-- Where the loop goes from here: it ends at a panic.
abbrev pub go_on : {A : Type 0} → Handled → A → A → A
go_on done ended later = later
go_on panics ended later = ended
go_on (failed_with e) ended later = later

module _ {F P W : Type 0} ⦃fl : Float F⦄ (o : Outside P W) (cfg : Config) where
  -- The reset at a new call leg.
  unfoldable pub change_leg : Session F P → Session F P
  change_leg s = record s {
    jitter = jitter_buffer.reset s.jitter;
    pipeline = o.reset_pipeline s.pipeline;
    dtmf = dtmf_detector.reset s.dtmf;
    rtcp_stats = no_receiver_report;
    last_sr = no_sender_report;
    last_sr_received_at = none;
  }

  unfoldable pub follow_ssrc : ℕ → Session F P → Session F P
  unfolding change_leg
  follow_ssrc ssrc s =
      let s' = if s.ssrc_set && not (ssrc == s.current_ssrc) then change_leg s else s in
      record s' { current_ssrc = ssrc; ssrc_set = true }

  unfoldable pub handle_dtmf : List ℕ → Session F P → W → Session F P × W
  unfolding notify
  handle_dtmf payload s w =
      let (detector, parsed) = parse_dtmf_payload s.dtmf payload in
      (record s { dtmf = detector }, notify o cfg parsed w)

  unfoldable pub keep_clean : RtpHeader → List ℤ → Session F P → Session F P
  unfolding deliver_clean
  keep_clean h [] s = s
  keep_clean h (x ∷ xs) s = record s {
    jitter = on_good_packet (x ∷ xs) s.jitter;
    clean_audio =
        deliver_clean cfg (record { pcm = x ∷ xs; timestamp = h.timestamp }) s.clean_audio;
  }

  unfoldable pub send_clean : RtpHeader → List ℤ → Session F P → W → Session F P × W × Handled
  unfolding write_forks encode_from_pcm
  send_clean h samples s w = elim (encode_from_pcm o cfg samples h.payload_type) [
    | none ↦ (s, w, failed_with encode_failed)
    | some payload ↦
        let packet = build_rtp_packet h payload in
        let (sent, w') = o.write_to 0 packet w in
        if sent
        then (
          record s { packets_sent = u64 (s.packets_sent + 1) },
          write_forks o cfg cfg.forks 1 packet w',
          done,
        )
        else (s, w', failed_with forward_failed)
  ]

  -- What follows the suppressor.
  unfoldable pub send_result :
      RtpHeader → Option (List ℕ) → Session F P → W → Session F P × W × Handled
  unfolding keep_clean send_clean
  send_result h none s w = (s, w, failed_with suppress_failed)
  send_result h (some bytes) s w =
      let samples = bytes_to_int16_slice bytes in send_clean h samples (keep_clean h samples s) w

  unfoldable pub clean : RtpHeader → List ℤ → Session F P → W → Session F P × W × Handled
  unfolding send_result
  clean h samples s w =
      let (pipeline, result) = o.process_frames s.pipeline (int16_slice_to_bytes samples) in
      send_result h result (record s { pipeline = pipeline }) w

  unfoldable pub clean_decoded :
      RtpHeader → Option (List ℤ) → Session F P → W → Session F P × W × Handled
  unfolding clean
  clean_decoded h none s w = (s, w, failed_with decode_failed)
  clean_decoded h (some samples) s w = clean h samples s w

  unfoldable pub clean_concealed :
      RtpHeader → Option (JitterBuffer F × List ℤ) → Session F P → W → Session F P × W × Handled
  unfolding clean
  clean_concealed h none s w = (s, w, panics)
  clean_concealed h (some (j, samples)) s w =
      clean h samples (record s { jitter = j; packets_lost = u64 (s.packets_lost + 1) }) w

  -- A frame of the jitter buffer, or the concealment of a lost one.
  unfoldable pub voice : RtpHeader → Option (List ℕ) → Session F P → W → Session F P × W × Handled
  unfolding clean_decoded clean_concealed
  voice h none s w = clean_concealed h (generate_plc s.jitter) s w
  voice h (some frame) s w = clean_decoded h (decode_to_pcm o cfg frame h.payload_type) s w

  -- The history for the concealment, where it costs no FFmpeg.
  unfoldable pub prime_plc : RtpHeader → List ℕ → Session F P → Session F P
  unfolding decode_to_pcm
  prime_plc h frame s =
      if is_ffmpeg_codec (codec_for cfg.codec h.payload_type)
      then s
      else elim (decode_to_pcm o cfg frame h.payload_type) [
        | none ↦ s
        | some samples ↦ record s { jitter = on_good_packet samples s.jitter }
      ]

  unfoldable pub bypass : RtpHeader → List ℕ → Session F P → W → Session F P × W × Handled
  unfolding write_forks prime_plc
  bypass h frame s w =
      let packet = build_rtp_packet h frame in
      let (sent, w') = o.write_to 0 packet w in
      let s' = prime_plc h frame s in
      (
        record s' { packets_sent = u64 (s'.packets_sent + 1) },
        write_forks o cfg cfg.forks 1 packet w',
        done,
      )

  unfoldable pub play_frame :
      RtpHeader → Option (List ℕ) → Session F P → W → Session F P × W × Handled
  unfolding voice bypass
  play_frame h none s w = voice h none s w
  play_frame h (some frame) s w =
      if o.is_bypass s.pipeline then bypass h frame s w else voice h (some frame) s w

  -- The next frame to play, if the jitter buffer is ready to play and has one.
  unfoldable pub play_popped :
      RtpHeader → Option (List ℕ) → Bool → Session F P → W → Session F P × W × Handled
  unfolding play_frame
  play_popped h frame false s w = (s, w, done)
  play_popped h frame true s w = play_frame h frame s w

  unfoldable pub play_next : RtpHeader → Bool → Session F P → W → Session F P × W × Handled
  unfolding play_popped
  play_next h false s w = (s, w, done)
  play_next h true s w =
      let (j, frame, more) = jitter_buffer.pop s.jitter in
      play_popped h frame more (record s { jitter = j }) w

  -- An audio packet that arrives at the time `now`.
  unfoldable pub handle_audio : ℕ → RtpHeader → List ℕ → Session F P → W → Session F P × W × Handled
  unfolding play_next
  handle_audio now h payload s w =
      let (j, ready) = jitter_buffer.push now h.sequence_number h.timestamp payload s.jitter in
      play_next h ready (record s { jitter = j }) w

  -- The dispatch by the payload type.
  unfoldable pub handle_payload :
      ℕ → RtpHeader → List ℕ → Session F P → W → Session F P × W × Handled
  unfolding handle_dtmf handle_audio
  handle_payload now h payload s w =
      if h.payload_type == cfg.dtmf_payload_type
      then (let (s', w') = handle_dtmf payload s w in (s', w', done))
      else handle_audio now h payload s w

  -- What comes of reading the header.
  unfoldable pub handle_read : ℕ → ParsedPacket → Session F P → W → Session F P × W × Handled
  unfolding follow_ssrc handle_payload
  handle_read now (ok h payload) s w = handle_payload now h payload (follow_ssrc h.ssrc s) w
  handle_read now too_short s w = (s, w, failed_with bad_header)
  handle_read now (header_exceeds h) s w = (s, w, failed_with bad_header)

  unfoldable pub handle_packet : ℕ → List ℕ → Session F P → W → Session F P × W × Handled
  unfolding handle_read
  handle_packet now raw s w =
      if ltb (length raw) 12
      then (s, w, failed_with (packet_too_short (length raw)))
      else handle_read now (parse_rtp_header raw) s w

  -- The packets of the receive loop, each with its time of arrival. An error is only logged; a panic
  -- ends the program.
  unfoldable pub receive : List (ℕ × List ℕ) → Session F P → W → Session F P × W
  unfolding handle_packet
  receive [] s w = (s, w)
  receive ((now, raw) ∷ rest) s w =
      let (s', w', outcome) = handle_packet now raw s w in
      let later = receive rest s' w' in go_on outcome (s', w') later
