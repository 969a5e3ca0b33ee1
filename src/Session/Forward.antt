-- ===== src/Session/Forward.antt =====
-- pkg/rtp/session.go, handlePacket: what goes out for a packet that comes in.
pub mod Sent
pub mod Clean
use mathlib.Core.List.{append_assoc, append-nil}
use clear_stream.Prelude.{
  ℕ, zero, suc, ◌+◌, ◌≡◌, ◌≢◌, ◌≤◌, ◌⊎◌, inl, inr, refl, ap, sym, ◌∙◌, Bool, Bool-cases, true,
  false, not, Option, Option-cases, none, some, ◌&&◌, ◌==◌, List, [], ◌∷◌, ◌++◌, if◌then◌else◌,
  length, ltb, ℤ, u64, Float, arith,
}
use clear_stream.Jitter.{JitterBuffer}
use clear_stream.Jitter as jitter_buffer
use clear_stream.Jitter.Plc.{generate_plc}
use clear_stream.Dtmf.{DtmfDigit, Parsed, digit, duplicate, failed, parse_dtmf_payload}
use clear_stream.Header.{
  RtpHeader, ok, too_short, header_exceeds, parse_rtp_header, build_rtp_packet,
}
use clear_stream.Session.Forward.Sent.{Log, SendsOne, Forwards, IsPlayed, fan_out}
use clear_stream.Session.Forward.Clean.{SendsOne-map, write_all_lem, voice_lem, recount}
use clear_stream.Session.Legs.{handle_packet-parsed}
use clear_stream.Session.Pcm.{bytes_to_int16_slice, int16_slice_to_bytes}
use clear_stream.Session.Data.{
  done, Handled, panics, failed_with, encode_failed, Config, Outside, Session, write_forks, notify,
  encode_from_pcm, decode_to_pcm,
}
use clear_stream.Session.{
  follow_ssrc, change_leg, handle_dtmf, keep_clean, send_clean, clean, send_result, clean_concealed,
  clean_decoded, voice, prime_plc, bypass, play_frame, play_popped, play_next, handle_audio,
  handle_payload, handle_packet,
}

notify_lem :
    {P : Type 0} (o : Outside P Log) (cfg : Config)
    → ((d : DtmfDigit) (w : Log) → o.on_dtmf d w ≡ w)
    → (parsed : Parsed) (w : Log) → notify o cfg parsed w ≡ w
unfolding notify
notify_lem o cfg unlogged (digit d) w = elim (Bool-cases cfg.has_on_dtmf) [
  | inl e ↦ rw (notify, e) (unlogged d w)
  | inr e ↦ rw (notify, e) refl
]
notify_lem o cfg unlogged duplicate w = refl
notify_lem o cfg unlogged (failed e) w = refl

module _ {F P : Type 0} ⦃fl : Float F⦄ (o : Outside P Log) (cfg : Config)
    (written : (i : ℕ) (packet : List ℕ) (w : Log)
      → o.write_to i packet w ≡ (true, w ++ (i, packet) ∷ []))
    (unlogged : (d : DtmfDigit) (w : Log) → o.on_dtmf d w ≡ w) where
  prime_plc-sent :
      (h : RtpHeader) (frame : List ℕ) (s : Session F P)
      → (prime_plc o cfg h frame s).packets_sent ≡ s.packets_sent
  unfolding prime_plc
  prime_plc-sent h frame s = ground arith

  bypass_lem :
      (h : RtpHeader) (frame : List ℕ) (s : Session F P) (w : Log)
      → SendsOne cfg h (λ payload. payload ≡ frame) s.packets_sent w (bypass o cfg h frame s w)
  unfolding bypass
  bypass_lem h frame s w = inr (
    frame,
    refl,
    write_all_lem o cfg written (build_rtp_packet h frame) w,
    ap (λ n. u64 (n + 1)) (prime_plc-sent h frame s),
    refl,
  )

  play_frame_bypassed :
      (h : RtpHeader) (frame : List ℕ) (s : Session F P) (w : Log)
      → o.is_bypass s.pipeline ≡ true
      → play_frame o cfg h (some frame) s w ≡ bypass o cfg h frame s w
  unfolding play_frame
  play_frame_bypassed h frame s w e = rw (play_frame, e) refl

  play_frame_cleaned :
      (h : RtpHeader) (frame : List ℕ) (s : Session F P) (w : Log)
      → o.is_bypass s.pipeline ≡ false
      → play_frame o cfg h (some frame) s w ≡ voice o cfg h (some frame) s w
  unfolding play_frame
  play_frame_cleaned h frame s w e = rw (play_frame, e) refl

  play_frame_lem :
      (h : RtpHeader) (frame : Option (List ℕ)) (s : Session F P) (w : Log)
      → SendsOne cfg h
          (IsPlayed o cfg h s.jitter s.pipeline frame)
          s.packets_sent
          w
          (play_frame o cfg h frame s w)
  unfolding play_frame
  play_frame_lem h none s w = voice_lem o cfg written h none s w
  play_frame_lem h (some frame) s w = elim (Bool-cases (o.is_bypass s.pipeline)) [
    | inl e ↦
        let sent =
          SendsOne-map o cfg written h {R = IsPlayed o cfg h s.jitter s.pipeline (some frame)}
            (bypass o cfg h frame s w) (λ payload same. inl (e, same)) (bypass_lem h frame s w) in
        rw (play_frame_bypassed h frame s w e) sent
    | inr e ↦
        let sent =
          SendsOne-map o cfg written h {R = IsPlayed o cfg h s.jitter s.pipeline (some frame)}
            (voice o cfg h (some frame) s w) (λ payload heard. inr (e, heard))
            (voice_lem o cfg written h (some frame) s w) in
        rw (play_frame_cleaned h frame s w e) sent
  ]

  follow_ssrc-sent :
      (ssrc : ℕ) (s : Session F P) → (follow_ssrc o cfg ssrc s).packets_sent ≡ s.packets_sent
  unfolding follow_ssrc change_leg
  follow_ssrc-sent ssrc s = ground arith

  play_popped_lem :
      (h : RtpHeader) (frame : Option (List ℕ)) (more : Bool) (s : Session F P) (w : Log)
      → Forwards cfg h more
          (IsPlayed o cfg h s.jitter s.pipeline frame)
          s.packets_sent
          w
          (play_popped o cfg h frame more s w)
  unfolding play_popped
  play_popped_lem h frame false s w = inl (refl, refl, refl)
  play_popped_lem h frame true s w = inr (refl, play_frame_lem h frame s w)

  play_next_lem :
      (h : RtpHeader) (ready : Bool) (s : Session F P) (w : Log)
      → let (j, frame, more) = jitter_buffer.pop s.jitter in
        Forwards cfg h
          (ready && more)
          (IsPlayed o cfg h j s.pipeline frame)
          s.packets_sent
          w
          (play_next o cfg h ready s w)
  unfolding play_next
  play_next_lem h false s w = inl (refl, refl, refl)
  play_next_lem h true s w =
      let (j, frame, more) = jitter_buffer.pop s.jitter in
      play_popped_lem h frame more (record s { jitter = j }) w

  handle_payload_lem :
      (now : ℕ) (h : RtpHeader) (payload : List ℕ) (s : Session F P) (w : Log)
      → let (pushed, ready) =
          jitter_buffer.push now h.sequence_number h.timestamp payload s.jitter in
        let (j, frame, more) = jitter_buffer.pop pushed in
        Forwards cfg h
          (not (h.payload_type == cfg.dtmf_payload_type) && (ready && more))
          (IsPlayed o cfg h j s.pipeline frame)
          s.packets_sent
          w
          (handle_payload o cfg now h payload s w)
  unfolding handle_payload handle_dtmf handle_audio
  handle_payload_lem now h payload s w =
      elim (Bool-cases (h.payload_type == cfg.dtmf_payload_type)) [
        | inl e ↦
            rw (handle_payload, e)
              (inl (refl, notify_lem o cfg unlogged (parse_dtmf_payload s.dtmf payload).1 w, refl))
        | inr e ↦
            let (j, ready) =
              jitter_buffer.push now h.sequence_number h.timestamp payload s.jitter in
            rw (handle_payload, e) (play_next_lem h ready (record s { jitter = j }) w)
      ]

  -- Where every write succeeds and the callback for digits sends nothing: let `frame` be what Pop hands
  -- over once the jitter buffer, which is emptied first if the SSRC has changed, has taken the packet
  -- that comes in. If it is a packet of digits, or the buffer is not ready or has nothing to play,
  -- nothing is sent or counted. Otherwise the call ends with an error or a panic and sends and counts
  -- nothing, or it sends one packet to the primary and then to each fork destination, in their order,
  -- and counts it once: with the header of the packet that has just come in, and with `frame` as its
  -- payload where the pipeline is bypassed, else with the encoding of what the pipeline makes of the
  -- decoded `frame` or, where the frame is lost, of its concealment.
  pub handle_packet-sends :
      (now : ℕ) (raw : List ℕ) (s : Session F P) (w : Log) (h : RtpHeader) (payload : List ℕ)
      → 12 ≤ length raw
      → parse_rtp_header raw ≡ ok h payload
      → let s' = follow_ssrc o cfg h.ssrc s in
        let (pushed, ready) =
          jitter_buffer.push now h.sequence_number h.timestamp payload s'.jitter in
        let (j, frame, more) = jitter_buffer.pop pushed in
        Forwards cfg h
          (not (h.payload_type == cfg.dtmf_payload_type) && (ready && more))
          (IsPlayed o cfg h j s'.pipeline frame)
          s.packets_sent
          w
          (handle_packet o cfg now raw s w)
  handle_packet-sends now raw s w h payload long parsed =
      let sent = handle_payload_lem now h payload (follow_ssrc o cfg h.ssrc s) w in
      let kept = follow_ssrc-sent h.ssrc s in
      rw (handle_packet-parsed o cfg now raw s w long parsed) (
        recount o cfg written h _ _ w
          (handle_payload o cfg now h payload (follow_ssrc o cfg h.ssrc s) w) kept sent)
