-- ===== src/Session/Forward/Clean.antt =====
-- pkg/rtp/session.go, handlePacket: what the voice path writes.
use mathlib.Core.List.{append_assoc, append-nil}
use clear_stream.Prelude.{
  ℕ, zero, suc, ◌+◌, ◌≡◌, inl, inr, refl, ap, sym, ◌∙◌, Bool, true, ◌≢◌, Option, Option-cases, none,
  some, List, [], ◌∷◌, ◌++◌, ℤ, u64, Float, arith,
}
use clear_stream.Jitter.{JitterBuffer}
use clear_stream.Jitter.Plc.{generate_plc}
use clear_stream.Header.{RtpHeader, build_rtp_packet}
use clear_stream.Session.Pcm.{bytes_to_int16_slice, int16_slice_to_bytes}
use clear_stream.Session.Data.{
  done, Handled, SessionError, failed_with, panics, encode_failed, suppress_failed, decode_failed,
  Config, Outside, Session, write_forks, encode_from_pcm, decode_to_pcm,
}
use clear_stream.Session.{
  keep_clean, send_clean, clean, send_result, clean_concealed, clean_decoded, voice,
}
use clear_stream.Session.Forward.Sent.{Log, fan_out, SendsOne, Forwards, IsCleaned, IsVoice}

module _ {P : Type 0} (o : Outside P Log) (cfg : Config)
    (written : (i : ℕ) (packet : List ℕ) (w : Log)
      → o.write_to i packet w ≡ (true, w ++ (i, packet) ∷ [])) where
  write_forks_lem :
      (n i : ℕ) (packet : List ℕ) (w : Log)
      → write_forks o cfg n i packet w ≡ w ++ fan_out i n packet
  unfolding write_forks
  write_forks_lem zero i packet w = sym (append-nil w)
  write_forks_lem (suc n) i packet w =
      ap (λ r. write_forks o cfg n (suc i) packet r.1) (written i packet w)
      ∙ write_forks_lem n (suc i) packet (w ++ (i, packet) ∷ [])
      ∙ append_assoc w ((i, packet) ∷ []) (fan_out (suc i) n packet)

  pub write_all_lem :
      (packet : List ℕ) (w : Log)
      → write_forks o cfg cfg.forks 1 packet (o.write_to 0 packet w).1
        ≡ w ++ fan_out 0 (suc cfg.forks) packet
  write_all_lem packet w =
      ap (λ r. write_forks o cfg cfg.forks 1 packet r.1) (written 0 packet w)
      ∙ write_forks_lem cfg.forks 1 packet (w ++ (0, packet) ∷ [])
      ∙ append_assoc w ((0, packet) ∷ []) (fan_out 1 cfg.forks packet)

failed-done : (e : SessionError) → failed_with e ≢ done
failed-done e h = ground (arith, h)

panics-done : panics ≢ done
panics-done h = ground (arith, h)

module _ {F P : Type 0} ⦃fl : Float F⦄ (o : Outside P Log) (cfg : Config)
    (written : (i : ℕ) (packet : List ℕ) (w : Log)
      → o.write_to i packet w ≡ (true, w ++ (i, packet) ∷ [])) where
  pub recount :
      (h : RtpHeader) (plays : Bool) (Q : List ℕ → Type 0) (w : Log)
      (r : Session F P × Log × Handled) {m n : ℕ}
      → m ≡ n
      → Forwards cfg h plays Q m w r
      → Forwards cfg h plays Q n w r
  recount h plays Q w r e sent = rw e at sent

  keep_clean-sent :
      (h : RtpHeader) (samples : List ℤ) (s : Session F P)
      → (keep_clean o cfg h samples s).packets_sent ≡ s.packets_sent
  unfolding keep_clean
  keep_clean-sent h [] s = refl
  keep_clean-sent h (x ∷ xs) s = refl

  send_clean_failed :
      (h : RtpHeader) (samples : List ℤ) (s : Session F P) (w : Log)
      → encode_from_pcm o cfg samples h.payload_type ≡ none
      → send_clean o cfg h samples s w ≡ (s, w, failed_with encode_failed)
  unfolding send_clean
  send_clean_failed h samples s w e = rw (send_clean, e) refl

  send_clean_sent :
      (h : RtpHeader) (samples : List ℤ) (s : Session F P) (w : Log) (payload : List ℕ)
      → encode_from_pcm o cfg samples h.payload_type ≡ some payload
      → let packet = build_rtp_packet h payload in
        send_clean o cfg h samples s w ≡ (
          record s { packets_sent = u64 (s.packets_sent + 1) },
          write_forks o cfg cfg.forks 1 packet (o.write_to 0 packet w).1,
          done,
        )
  unfolding send_clean
  send_clean_sent h samples s w payload e =
      rw (send_clean, e) (ground (arith, written 0 (build_rtp_packet h payload) w))

  -- What holds of every encoding of the samples holds of the payload.
  send_clean_lem :
      (h : RtpHeader) (Q : List ℕ → Type 0) (samples : List ℤ) (s : Session F P) (w : Log)
      → ((payload : List ℕ)
          → encode_from_pcm o cfg samples h.payload_type ≡ some payload
          → Q payload)
      → SendsOne cfg h Q s.packets_sent w (send_clean o cfg h samples s w)
  send_clean_lem h Q samples s w q =
      elim (Option-cases (encode_from_pcm o cfg samples h.payload_type)) [
        | inl e ↦
            rw (send_clean_failed h samples s w e) (inl (refl, refl, failed-done encode_failed))
        | inr (payload, e) ↦ rw (send_clean_sent h samples s w payload e) (
            inr (
              payload,
              q payload e,
              write_all_lem o cfg written (build_rtp_packet h payload) w,
              refl,
              refl,
            ))
      ]

  send_result_lem :
      (h : RtpHeader) (Q : List ℕ → Type 0) (result : Option (List ℕ)) (s : Session F P) (w : Log)
      → ((bytes payload : List ℕ)
          → result ≡ some bytes
          → encode_from_pcm o cfg (bytes_to_int16_slice bytes) h.payload_type ≡ some payload
          → Q payload)
      → SendsOne cfg h Q s.packets_sent w (send_result o cfg h result s w)
  unfolding send_result
  send_result_lem h Q none s w q = inl (refl, refl, failed-done suppress_failed)
  send_result_lem h Q (some bytes) s w q =
      let samples = bytes_to_int16_slice bytes in
      let sent =
        send_clean_lem h Q samples (keep_clean o cfg h samples s) w
          (λ payload. q bytes payload refl) in
      rw (keep_clean-sent h samples s) at sent

  clean_lem :
      (h : RtpHeader) (samples : List ℤ) (s : Session F P) (w : Log)
      → SendsOne cfg h
          (IsCleaned o cfg h s.pipeline samples)
          s.packets_sent
          w
          (clean o cfg h samples s w)
  unfolding clean
  clean_lem h samples s w =
      send_result_lem h (IsCleaned o cfg h s.pipeline samples)
        (o.process_frames s.pipeline (int16_slice_to_bytes samples)).1
        (record s { pipeline = (o.process_frames s.pipeline (int16_slice_to_bytes samples)).0 }) w
        (λ bytes payload made encoded. (bytes, made, encoded))

  -- What holds of each payload that may go out holds of the one sent.
  pub SendsOne-map :
      (h : RtpHeader) {Q R : List ℕ → Type 0} {count : ℕ} {w : Log}
      (r : Session F P × Log × Handled)
      → ((payload : List ℕ) → Q payload → R payload)
      → SendsOne cfg h Q count w r
      → SendsOne cfg h R count w r
  SendsOne-map h r f (inl quiet) = inl quiet
  SendsOne-map h r f (inr (payload, q, out, count, end)) =
      inr (payload, f payload q, out, count, end)

  concealed_lem :
      (h : RtpHeader) (result : Option (JitterBuffer F × List ℤ)) (s : Session F P) (w : Log)
      → generate_plc s.jitter ≡ result
      → SendsOne cfg h
          (IsVoice o cfg h s.jitter s.pipeline none)
          s.packets_sent
          w
          (clean_concealed o cfg h result s w)
  unfolding clean_concealed
  concealed_lem h none s w e = inl (refl, refl, panics-done)
  concealed_lem h (some (j, samples)) s w e =
      SendsOne-map h
        (clean o cfg h samples (record s { jitter = j; packets_lost = u64 (s.packets_lost + 1) }) w)
        (λ payload cleaned. (j, samples, e, cleaned))
        (clean_lem h samples (record s { jitter = j; packets_lost = u64 (s.packets_lost + 1) }) w)

  decoded_lem :
      (h : RtpHeader) (frame : List ℕ) (result : Option (List ℤ)) (s : Session F P) (w : Log)
      → decode_to_pcm o cfg frame h.payload_type ≡ result
      → SendsOne cfg h
          (IsVoice o cfg h s.jitter s.pipeline (some frame))
          s.packets_sent
          w
          (clean_decoded o cfg h result s w)
  unfolding clean_decoded
  decoded_lem h frame none s w e = inl (refl, refl, failed-done decode_failed)
  decoded_lem h frame (some samples) s w e =
      SendsOne-map h (clean o cfg h samples s w) (λ payload cleaned. (samples, e, cleaned))
        (clean_lem h samples s w)

  pub voice_lem :
      (h : RtpHeader) (frame : Option (List ℕ)) (s : Session F P) (w : Log)
      → SendsOne cfg h
          (IsVoice o cfg h s.jitter s.pipeline frame)
          s.packets_sent
          w
          (voice o cfg h frame s w)
  unfolding voice
  voice_lem h none s w = concealed_lem h (generate_plc s.jitter) s w refl
  voice_lem h (some frame) s w =
      decoded_lem h frame (decode_to_pcm o cfg frame h.payload_type) s w refl
