-- ===== src/Session/Losses/Answers.antt =====
-- pkg/rtp/session.go, handlePacket: whether, in a stream of packets, the pipeline answers each
-- concealment frame with at least one sample. ProcessFrames does not where the frame falls short of the
-- size it collects, and where a stage fails.
use clear_stream.Prelude.{
  ℕ, Bool, true, false, ◌&&◌, Option, none, some, List, [], ◌∷◌, leb, ltb, ◌==◌, if◌then◌else◌,
  length, ℤ, Float,
}
use clear_stream.Jitter.{JitterBuffer, push, pop}
use clear_stream.Jitter.Plc.{generate_plc}
use clear_stream.Header.{ParsedPacket, ok, too_short, header_exceeds, RtpHeader, parse_rtp_header}
use clear_stream.Session.Pcm.{int16_slice_to_bytes}
use clear_stream.Session.Data.{Config, Outside, Session}
use clear_stream.Session.{follow_ssrc, handle_packet, go_on}

-- Two bytes make a sample.
abbrev pub has_sample : Option (List ℕ) → Bool
has_sample none = false
has_sample (some bytes) = leb 2 (length bytes)

module _ {F P W : Type 0} (o : Outside P W) where
  abbrev pub conceal_answered : Option (JitterBuffer F × List ℤ) → P → Bool
  conceal_answered none p = true
  conceal_answered (some (j, samples)) p =
      has_sample (o.process_frames p (int16_slice_to_bytes samples)).1

module _ {F P W : Type 0} ⦃fl : Float F⦄ (o : Outside P W) (cfg : Config) where
  -- Only a lost frame, `none` for the frame with `true` for `more`, is concealed.
  unfoldable pub popped_answered : Option (List ℕ) → Bool → Session F P → Bool
  popped_answered frame false s = true
  popped_answered (some frame) true s = true
  popped_answered none true s = conceal_answered o (generate_plc s.jitter) s.pipeline

  unfoldable pub next_answered : Bool → Session F P → Bool
  unfolding popped_answered
  next_answered false s = true
  next_answered true s =
      let (j, frame, more) = pop s.jitter in popped_answered frame more (record s { jitter = j })

  unfoldable pub payload_answered : ℕ → RtpHeader → List ℕ → Session F P → Bool
  unfolding next_answered
  payload_answered now h payload s =
      if h.payload_type == cfg.dtmf_payload_type
      then true
      else let (j, ready) = push now h.sequence_number h.timestamp payload s.jitter in
        next_answered ready (record s { jitter = j })

  unfoldable pub read_answered : ℕ → ParsedPacket → Session F P → Bool
  unfolding payload_answered
  read_answered now (ok h payload) s = payload_answered now h payload (follow_ssrc o cfg h.ssrc s)
  read_answered now too_short s = true
  read_answered now (header_exceeds h) s = true

  unfoldable pub packet_answered : ℕ → List ℕ → Session F P → Bool
  unfolding read_answered
  packet_answered now raw s =
      if ltb (length raw) 12 then true else read_answered now (parse_rtp_header raw) s

  -- Along the packets that `receive` handles.
  unfoldable pub all_answered : List (ℕ × List ℕ) → Session F P → W → Bool
  unfolding packet_answered
  all_answered [] s w = true
  all_answered ((now, raw) ∷ rest) s w =
      let (s', w', outcome) = handle_packet o cfg now raw s w in
      let later = all_answered rest s' w' in packet_answered now raw s && go_on outcome true later
