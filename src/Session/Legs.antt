-- ===== src/Session/Legs.antt =====
-- pkg/rtp/session.go, handlePacket at a change of SSRC: nothing of the old call leg is left.
use clear_stream.Prelude.{ℕ, ◌≡◌, ◌≢◌, ◌≤◌, ap, sym, ◌∙◌, true, List, length, Float, arith}
use clear_stream.Jitter as jitter_buffer
use clear_stream.Dtmf as dtmf_detector
use clear_stream.Header.{RtpHeader, ok, parse_rtp_header}
use clear_stream.Session.Data.{Config, Outside, Session}
use clear_stream.Session.{change_leg, follow_ssrc, handle_payload, handle_read, handle_packet}

module _ {F P W : Type 0} ⦃fl : Float F⦄ (o : Outside P W) (cfg : Config) where
  -- What a session keeps from one leg to the next is the same of both.
  pub record SameBeyondLeg (s t : Session F P) : Type 0 where
    pub depth : s.jitter.initial_depth ≡ t.jitter.initial_depth
    pub max_depth : s.jitter.max_depth ≡ t.jitter.max_depth
    pub sample_rate : s.dtmf.sample_rate ≡ t.dtmf.sample_rate
    pub pipeline : o.reset_pipeline s.pipeline ≡ o.reset_pipeline t.pipeline
    pub clean_audio : s.clean_audio ≡ t.clean_audio
    pub sent : s.packets_sent ≡ t.packets_sent
    pub lost : s.packets_lost ≡ t.packets_lost

  follow_ssrc_lem :
      (s t : Session F P) (ssrc : ℕ)
      → SameBeyondLeg s t
      → s.ssrc_set ≡ true
      → t.ssrc_set ≡ true
      → s.current_ssrc ≢ ssrc
      → t.current_ssrc ≢ ssrc
      → follow_ssrc o cfg ssrc s ≡ follow_ssrc o cfg ssrc t
  unfolding follow_ssrc change_leg jitter_buffer.reset dtmf_detector.reset
  follow_ssrc_lem s t ssrc same s_set t_set s_new t_new = ground arith

  pub handle_packet-parsed :
      (now : ℕ) (raw : List ℕ) (s : Session F P) (w : W) {h : RtpHeader} {payload : List ℕ}
      → 12 ≤ length raw
      → parse_rtp_header raw ≡ ok h payload
      → handle_packet o cfg now raw s w
        ≡ handle_payload o cfg now h payload (follow_ssrc o cfg h.ssrc s) w
  unfolding handle_packet handle_read
  handle_packet-parsed now raw s w long parsed = ground (arith, parsed)

  -- The first packet of a new call leg, audio or DTMF, of at least 12 bytes and with a header that
  -- fits, does the same to any two sessions that differ in their old leg only: in what the jitter
  -- buffer holds and has learned, the audio it kept to conceal losses, the pipeline's state up to
  -- its reset, the last DTMF event, the RTCP reports and the old SSRC. Nothing of the old leg
  -- reaches the new one.
  pub handle_packet-new_leg :
      (now : ℕ) (raw : List ℕ) (s t : Session F P) (w : W) (h : RtpHeader) (payload : List ℕ)
      → 12 ≤ length raw
      → parse_rtp_header raw ≡ ok h payload
      → SameBeyondLeg s t
      → s.ssrc_set ≡ true
      → t.ssrc_set ≡ true
      → s.current_ssrc ≢ h.ssrc
      → t.current_ssrc ≢ h.ssrc
      → handle_packet o cfg now raw s w ≡ handle_packet o cfg now raw t w
  handle_packet-new_leg now raw s t w h payload long parsed same s_set t_set s_new t_new =
      let followed = follow_ssrc_lem s t h.ssrc same s_set t_set s_new t_new in
      handle_packet-parsed now raw s w long parsed
      ∙ ap (λ r. handle_payload o cfg now h payload r w) followed
      ∙ sym (handle_packet-parsed now raw t w long parsed)
