-- ===== src/Session/Safety.antt =====
-- pkg/rtp/session.go, handlePacket: no packet makes the program end.
pub mod Clean
use clear_stream.Prelude.{
  ℕ, suc, ◌+◌, ◌≡◌, ◌≢◌, refl, ap, sym, ◌∙◌, Bool, Bool-cases, true, false, not, Option,
  Option-cases, none, some, ◌&&◌, ◌==◌, List, [], ◌∷◌, ltb, length, ℤ, u64, Float, inl, inr, arith,
}
use clear_stream.Jitter.{JitterBuffer, push, pop, reset}
use clear_stream.Jitter.Plc.{generate_plc, on_good_packet}
use clear_stream.Jitter.Plc.Conceal.{
  IsPaired, on_good_packet-IsPaired, reset-IsPaired, generate_plc_total,
}
use clear_stream.Dtmf.{parse_dtmf_payload}
use clear_stream.Header.{ParsedPacket, RtpHeader, ok, too_short, header_exceeds, parse_rtp_header}
use clear_stream.Session.Losses.Buffer.{Same, push-Same, pop-Same}
use clear_stream.Session.Losses.{send_clean-jitter, go_on-holds}
use clear_stream.Session.Pcm.{bytes_to_int16_slice, int16_slice_to_bytes}
use clear_stream.Session.Data.{
  SessionError, packet_too_short, bad_header, suppress_failed, decode_failed, Handled, done, panics,
  failed_with, Config, Outside, Session, decode_to_pcm, is_ffmpeg_codec, codec_for,
}
use clear_stream.Session.{
  change_leg, follow_ssrc, handle_dtmf, keep_clean, send_clean, send_result, clean, clean_decoded,
  clean_concealed, voice, prime_plc, bypass, play_frame, play_popped, play_next, handle_audio,
  handle_payload, handle_read, handle_packet, go_on, receive,
}
use clear_stream.Session.Safety.Clean.{
  done-panics, failed-panics, Same-IsPaired, total-IsPaired, IsSafe, decoded-IsSafe,
  concealed-IsSafe,
}

module _ {F P W : Type 0} ⦃fl : Float F⦄ (o : Outside P W) (cfg : Config) where
  prime_plc-IsPaired :
      (h : RtpHeader) (frame : List ℕ) (s : Session F P)
      → IsPaired s.jitter
      → IsPaired (prime_plc o cfg h frame s).jitter
  unfolding prime_plc
  prime_plc-IsPaired h frame s pair =
      elim (Bool-cases (is_ffmpeg_codec (codec_for cfg.codec h.payload_type))) [
        | inl skips ↦ rw (prime_plc, skips) pair
        | inr cheap ↦ elim (Option-cases (decode_to_pcm o cfg frame h.payload_type)) [
          | inl fails ↦ rw (prime_plc, cheap, fails) pair
          | inr (samples, e) ↦ rw (prime_plc, cheap, e) (on_good_packet-IsPaired samples s.jitter)
        ]
      ]

  bypass-IsSafe :
      (h : RtpHeader) (frame : List ℕ) (s : Session F P) (w : W)
      → IsPaired s.jitter
      → IsSafe (bypass o cfg h frame s w)
  unfolding bypass
  bypass-IsSafe h frame s w pair = (prime_plc-IsPaired h frame s pair, done-panics)

  play_frame-IsSafe :
      (h : RtpHeader) (frame : Option (List ℕ)) (s : Session F P) (w : W)
      → IsPaired s.jitter
      → IsSafe (play_frame o cfg h frame s w)
  unfolding play_frame voice
  play_frame-IsSafe h none s w pair =
      concealed-IsSafe o cfg h (generate_plc s.jitter) s w
        (total-IsPaired s.jitter (generate_plc s.jitter) pair refl)
  play_frame-IsSafe h (some frame) s w pair = elim (Bool-cases (o.is_bypass s.pipeline)) [
    | inl e ↦ rw (play_frame, e) (bypass-IsSafe h frame s w pair)
    | inr e ↦
        rw (play_frame, e)
          (decoded-IsSafe o cfg h (decode_to_pcm o cfg frame h.payload_type) s w pair)
  ]

  play_popped-IsSafe :
      (h : RtpHeader) (frame : Option (List ℕ)) (more : Bool) (s : Session F P) (w : W)
      → IsPaired s.jitter
      → IsSafe (play_popped o cfg h frame more s w)
  unfolding play_popped
  play_popped-IsSafe h frame false s w pair = (pair, done-panics)
  play_popped-IsSafe h frame true s w pair = play_frame-IsSafe h frame s w pair

  play_next-IsSafe :
      (h : RtpHeader) (ready : Bool) (s : Session F P) (w : W)
      → IsPaired s.jitter
      → IsSafe (play_next o cfg h ready s w)
  unfolding play_next
  play_next-IsSafe h false s w pair = (pair, done-panics)
  play_next-IsSafe h true s w pair =
      let (j, frame, more) = pop s.jitter in
      play_popped-IsSafe h frame more (record s { jitter = j }) w
        (Same-IsPaired j s.jitter (pop-Same s.jitter) pair)

  handle_payload-IsSafe :
      (now : ℕ) (h : RtpHeader) (payload : List ℕ) (s : Session F P) (w : W)
      → IsPaired s.jitter
      → IsSafe (handle_payload o cfg now h payload s w)
  unfolding handle_payload handle_dtmf handle_audio
  handle_payload-IsSafe now h payload s w pair =
      elim (Bool-cases (h.payload_type == cfg.dtmf_payload_type)) [
        | inl e ↦ rw (handle_payload, e) (pair, done-panics)
        | inr e ↦
            let (j, ready) = push now h.sequence_number h.timestamp payload s.jitter in
            let same = push-Same now h.sequence_number h.timestamp payload s.jitter in
            rw (handle_payload, e)
              (play_next-IsSafe h ready (record s { jitter = j }) w
                (Same-IsPaired j s.jitter same pair))
      ]

  follow_ssrc-IsPaired :
      (ssrc : ℕ) (s : Session F P) → IsPaired s.jitter → IsPaired (follow_ssrc o cfg ssrc s).jitter
  unfolding follow_ssrc change_leg
  follow_ssrc-IsPaired ssrc s pair =
      elim (Bool-cases (s.ssrc_set && not (ssrc == s.current_ssrc))) [
        | inl e ↦ rw e (reset-IsPaired s.jitter)
        | inr e ↦ rw e pair
      ]

  handle_read-IsSafe :
      (now : ℕ) (read : ParsedPacket) (s : Session F P) (w : W)
      → IsPaired s.jitter
      → IsSafe (handle_read o cfg now read s w)
  unfolding handle_read
  handle_read-IsSafe now (ok h payload) s w pair =
      handle_payload-IsSafe now h payload (follow_ssrc o cfg h.ssrc s) w
        (follow_ssrc-IsPaired h.ssrc s pair)
  handle_read-IsSafe now too_short s w pair = (pair, failed-panics bad_header)
  handle_read-IsSafe now (header_exceeds h) s w pair = (pair, failed-panics bad_header)

  handle_packet-IsSafe :
      (now : ℕ) (raw : List ℕ) (s : Session F P) (w : W)
      → IsPaired s.jitter
      → IsSafe (handle_packet o cfg now raw s w)
  unfolding handle_packet
  handle_packet-IsSafe now raw s w pair = elim (Bool-cases (ltb (length raw) 12)) [
    | inl e ↦ rw (handle_packet, e) (pair, failed-panics (packet_too_short (length raw)))
    | inr e ↦ rw (handle_packet, e) (handle_read-IsSafe now (parse_rtp_header raw) s w pair)
  ]

  receive-IsPaired :
      (arrivals : List (ℕ × List ℕ)) (s : Session F P) (w : W)
      → IsPaired s.jitter
      → IsPaired (receive o cfg arrivals s w).0.jitter
  unfolding receive
  receive-IsPaired [] s w pair = pair
  receive-IsPaired ((now, raw) ∷ rest) s w pair =
      let (s', w', outcome) = handle_packet o cfg now raw s w in
      let (kept, _) = handle_packet-IsSafe now raw s w pair in
      go_on-holds (λ r. IsPaired r.0.jitter) outcome (s', w') (receive o cfg rest s' w') kept
        (receive-IsPaired rest s' w' kept)

  -- After any stream of packets, of any bytes, the concealment that the next packet may need does not
  -- panic, whatever the pipeline, FFmpeg and the network answer: it takes no slice, index or remainder
  -- that is out of range and writes none, so that the call returns, with an error at most. At the start
  -- the last concealment frame, if there is one, must be as long as the last good frame; a new buffer
  -- has neither.
  pub handle_packet-panics :
      (arrivals : List (ℕ × List ℕ)) (now : ℕ) (raw : List ℕ) (s : Session F P) (w : W)
      → IsPaired s.jitter
      → let (s', w') = receive o cfg arrivals s w in (handle_packet o cfg now raw s' w').2 ≢ panics
  handle_packet-panics arrivals now raw s w pair =
      let (s', w') = receive o cfg arrivals s w in
      (handle_packet-IsSafe now raw s' w' (receive-IsPaired arrivals s w pair)).1
