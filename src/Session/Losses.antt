-- ===== src/Session/Losses.antt =====
-- pkg/rtp/session.go, handlePacket: the count of consecutive losses, which the concealment reads.
pub mod Buffer
pub mod Answers
use clear_stream.Prelude.{
  ℕ, zero, suc, ◌+◌, ◌*◌, ◌≤◌, ◌<◌, ◌≡◌, ◌≢◌, ◌⊎◌, inl, inr, refl, ap, sym, ◌∙◌, Bool, Bool-cases,
  true, false, not, Option, Option-cases, none, some, ◌&&◌, ◌==◌, List, [], ◌∷◌, ◌++◌,
  if◌then◌else◌, length, length-replicate, ltb, replicate, ℤ, pos, u64, Float, arith,
}
use clear_stream.Jitter as jitter_buffer
use clear_stream.Jitter.{
  JitterBuffer, JitterEntry, Drift, resync, stale, near, classify, new_jitter_buffer, track_arrival,
  adapt_depth, prime, count_frame, store, dispatch, push, pop, reset,
}
use clear_stream.Jitter.Plc.{generate_plc, on_good_packet}
use clear_stream.Jitter.Plc.Conceal.{generate_plc_silent, generate_plc_repeats}
use clear_stream.Dtmf.{parse_dtmf_payload}
use clear_stream.Header.{
  ParsedPacket, RtpHeader, ok, too_short, header_exceeds, parse_rtp_header, build_rtp_packet,
}
use clear_stream.Session.Losses.Buffer.{
  IsUnbroken, push-Same, pop-Same, reset-IsUnbroken, samples_of,
}
use clear_stream.Session.Losses.Answers.{
  has_sample, conceal_answered, popped_answered, next_answered, payload_answered, read_answered,
  packet_answered, all_answered,
}
use clear_stream.Session.Pcm.{bytes_to_int16_slice, int16_slice_to_bytes}
use clear_stream.Session.Data.{
  done, panics, Handled, failed_with, encode_failed, Config, Outside, Session, encode_from_pcm,
  decode_to_pcm,
}
use clear_stream.Session.{
  follow_ssrc, change_leg, handle_dtmf, keep_clean, send_clean, send_result, clean, clean_concealed,
  clean_decoded, voice, bypass, prime_plc, play_frame, play_popped, play_next, handle_audio,
  handle_payload, handle_read, handle_packet, go_on, receive,
}

module _ {F P W : Type 0} ⦃fl : Float F⦄ (o : Outside P W) (cfg : Config) where
  -- A step of the session leaves no loss counted.
  abbrev Keeps : Session F P × W × Handled → Type 0
  Keeps r = IsUnbroken r.0.jitter

  keep_clean-Keeps :
      (h : RtpHeader) (samples : List ℤ) (s : Session F P)
      → IsUnbroken s.jitter ⊎ (0 < length samples)
      → IsUnbroken (keep_clean o cfg h samples s).jitter
  unfolding keep_clean on_good_packet
  keep_clean-Keeps h [] s (inl u) = u
  keep_clean-Keeps h [] s (inr more) = absurd (omega arith)
  keep_clean-Keeps h (x ∷ xs) s u = refl

  pub send_clean-jitter :
      (h : RtpHeader) (samples : List ℤ) (s : Session F P) (w : W)
      → (send_clean o cfg h samples s w).0.jitter ≡ s.jitter
  unfolding send_clean
  send_clean-jitter h samples s w = ground arith

  -- An answer with a sample counts as a good frame, whatever was counted before.
  send_result-Keeps :
      (h : RtpHeader) (result : Option (List ℕ)) (s : Session F P) (w : W)
      → IsUnbroken s.jitter ⊎ (has_sample result ≡ true)
      → Keeps (send_result o cfg h result s w)
  unfolding send_result
  send_result-Keeps h none s w (inl u) = u
  send_result-Keeps h none s w (inr e) = absurd (ground (arith, e))
  send_result-Keeps h (some bytes) s w u =
      let samples = bytes_to_int16_slice bytes in
      let more : IsUnbroken s.jitter ⊎ (0 < length samples) = elim u [
        | inl unbroken ↦ inl unbroken
        | inr e ↦ inr (samples_of bytes (ground (arith, e)))
      ] in
      rw (send_clean-jitter h samples (keep_clean o cfg h samples s) w)
        (keep_clean-Keeps h samples s more)

  clean-Keeps :
      (h : RtpHeader) (samples : List ℤ) (s : Session F P) (w : W)
      → IsUnbroken s.jitter
        ⊎ (has_sample (o.process_frames s.pipeline (int16_slice_to_bytes samples)).1 ≡ true)
      → Keeps (clean o cfg h samples s w)
  unfolding clean
  clean-Keeps h samples s w u =
      let (p, result) = o.process_frames s.pipeline (int16_slice_to_bytes samples) in
      send_result-Keeps h result (record s { pipeline = p }) w u

  concealed-Keeps :
      (h : RtpHeader) (s : Session F P) (w : W) (result : Option (JitterBuffer F × List ℤ))
      → conceal_answered o result s.pipeline ≡ true
      → IsUnbroken s.jitter
      → Keeps (clean_concealed o cfg h result s w)
  unfolding clean_concealed
  concealed-Keeps h s w none answered u = u
  concealed-Keeps h s w (some (j, samples)) answered u =
      clean-Keeps h samples (record s { jitter = j; packets_lost = u64 (s.packets_lost + 1) }) w
        (inr answered)

  decoded-Keeps :
      (h : RtpHeader) (result : Option (List ℤ)) (s : Session F P) (w : W)
      → IsUnbroken s.jitter
      → Keeps (clean_decoded o cfg h result s w)
  unfolding clean_decoded
  decoded-Keeps h none s w u = u
  decoded-Keeps h (some samples) s w u = clean-Keeps h samples s w (inl u)

  bypass-Keeps :
      (h : RtpHeader) (frame : List ℕ) (s : Session F P) (w : W)
      → IsUnbroken s.jitter
      → Keeps (bypass o cfg h frame s w)
  unfolding bypass prime_plc on_good_packet
  bypass-Keeps h frame s w u = ground (arith, u)

  play_popped-Keeps :
      (h : RtpHeader) (frame : Option (List ℕ)) (more : Bool) (s : Session F P) (w : W)
      → popped_answered o cfg frame more s ≡ true
      → IsUnbroken s.jitter
      → Keeps (play_popped o cfg h frame more s w)
  unfolding play_popped play_frame voice popped_answered
  play_popped-Keeps h frame false s w answered u = u
  play_popped-Keeps h none true s w answered u =
      concealed-Keeps h s w (generate_plc s.jitter) answered u
  play_popped-Keeps h (some frame) true s w answered u =
      elim (Bool-cases (o.is_bypass s.pipeline)) [
        | inl e ↦ rw (play_frame, e) (bypass-Keeps h frame s w u)
        | inr e ↦
            rw (play_frame, e) (decoded-Keeps h (decode_to_pcm o cfg frame h.payload_type) s w u)
      ]

  play_next-Keeps :
      (h : RtpHeader) (ready : Bool) (s : Session F P) (w : W)
      → next_answered o cfg ready s ≡ true
      → IsUnbroken s.jitter
      → Keeps (play_next o cfg h ready s w)
  unfolding play_next next_answered
  play_next-Keeps h false s w answered u = u
  play_next-Keeps h true s w answered u =
      let (j, frame, more) = pop s.jitter in
      play_popped-Keeps h frame more (record s { jitter = j }) w answered
        ((pop-Same s.jitter).0 ∙ u)

  handle_payload-Keeps :
      (now : ℕ) (h : RtpHeader) (payload : List ℕ) (s : Session F P) (w : W)
      → payload_answered o cfg now h payload s ≡ true
      → IsUnbroken s.jitter
      → Keeps (handle_payload o cfg now h payload s w)
  unfolding handle_payload handle_dtmf handle_audio payload_answered
  handle_payload-Keeps now h payload s w answered u =
      elim (Bool-cases (h.payload_type == cfg.dtmf_payload_type)) [
        | inl e ↦ rw (handle_payload, e) u
        | inr e ↦
            let (j, ready) = push now h.sequence_number h.timestamp payload s.jitter in
            let same = push-Same now h.sequence_number h.timestamp payload s.jitter in
            let next : next_answered o cfg ready (record s { jitter = j }) ≡ true =
              rw (payload_answered, e) at answered in
            rw (handle_payload, e)
              (play_next-Keeps h ready (record s { jitter = j }) w next (same.0 ∙ u))
      ]

  follow_ssrc-IsUnbroken :
      (ssrc : ℕ) (s : Session F P)
      → IsUnbroken s.jitter
      → IsUnbroken (follow_ssrc o cfg ssrc s).jitter
  unfolding follow_ssrc change_leg
  follow_ssrc-IsUnbroken ssrc s u = elim (Bool-cases (s.ssrc_set && not (ssrc == s.current_ssrc))) [
    | inl e ↦ rw e (reset-IsUnbroken s.jitter)
    | inr e ↦ rw e u
  ]

  handle_read-Keeps :
      (now : ℕ) (read : ParsedPacket) (s : Session F P) (w : W)
      → read_answered o cfg now read s ≡ true
      → IsUnbroken s.jitter
      → Keeps (handle_read o cfg now read s w)
  unfolding handle_read read_answered
  handle_read-Keeps now (ok h payload) s w answered u =
      handle_payload-Keeps now h payload (follow_ssrc o cfg h.ssrc s) w answered
        (follow_ssrc-IsUnbroken h.ssrc s u)
  handle_read-Keeps now too_short s w answered u = u
  handle_read-Keeps now (header_exceeds h) s w answered u = u

  handle_packet-Keeps :
      (now : ℕ) (raw : List ℕ) (s : Session F P) (w : W)
      → packet_answered o cfg now raw s ≡ true
      → IsUnbroken s.jitter
      → Keeps (handle_packet o cfg now raw s w)
  unfolding handle_packet packet_answered
  handle_packet-Keeps now raw s w answered u = elim (Bool-cases (ltb (length raw) 12)) [
    | inl e ↦ rw (handle_packet, e) u
    | inr e ↦
        let read : read_answered o cfg now (parse_rtp_header raw) s ≡ true =
          rw (packet_answered, e) at answered in
        rw (handle_packet, e) (handle_read-Keeps now (parse_rtp_header raw) s w read u)
  ]

pub go_on-holds :
    {A : Type 0} (Q : A → Type 0) (r : Handled) (ended later : A)
    → Q ended
    → Q later
    → Q (go_on r ended later)
go_on-holds Q done ended later q q' = q'
go_on-holds Q panics ended later q q' = q
go_on-holds Q (failed_with e) ended later q q' = q'

both : (a b : Bool) → (a && b) ≡ true → (a ≡ true) × (b ≡ true)
both a b e = ground (arith, e)

module _ {F P W : Type 0} ⦃fl : Float F⦄ (o : Outside P W) (cfg : Config) where
  -- What holds at the end of the run if the program panics, and what holds if it goes on.
  go_on-IsUnbroken :
      (r : Handled) (ended later : Session F P × W) (answered : Bool)
      → go_on r true answered ≡ true
      → IsUnbroken ended.0.jitter
      → (answered ≡ true → IsUnbroken later.0.jitter)
      → IsUnbroken (go_on r ended later).0.jitter
  go_on-IsUnbroken done ended later answered e u f = f e
  go_on-IsUnbroken panics ended later answered e u f = u
  go_on-IsUnbroken (failed_with _) ended later answered e u f = f e

  -- If no loss is counted at the start, and in this stream of packets the pipeline answers each
  -- concealment frame that it gets with at least one sample, then no loss is counted after the
  -- stream, however many frames were lost in a row: a concealment frame that was cleaned counts as a
  -- good one. So the next loss counts as a first one, and not as the third in a row, where the fade to
  -- silence starts.
  pub receive-IsUnbroken :
      (arrivals : List (ℕ × List ℕ)) (s : Session F P) (w : W)
      → all_answered o cfg arrivals s w ≡ true
      → s.jitter.consecutive_loss ≡ 0
      → (receive o cfg arrivals s w).0.jitter.consecutive_loss ≡ 0
  unfolding receive all_answered
  receive-IsUnbroken [] s w answered u = u
  receive-IsUnbroken ((now, raw) ∷ rest) s w answered u =
      let (s', w', outcome) = handle_packet o cfg now raw s w in
      let (first, later) =
        both (packet_answered o cfg now raw s) (go_on outcome true (all_answered o cfg rest s' w'))
          answered in
      let kept = handle_packet-Keeps o cfg now raw s w first u in
      go_on-IsUnbroken outcome (s', w') (receive o cfg rest s' w') (all_answered o cfg rest s' w')
        later kept (λ e. receive-IsUnbroken rest s' w' e kept)
