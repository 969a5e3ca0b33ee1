-- ===== src/Session/Safety/Clean.antt =====
-- pkg/rtp/session.go, handlePacket: the voice path ends well.
use clear_stream.Prelude.{
  ℕ, ◌+◌, ◌≡◌, ◌≢◌, sym, ◌∙◌, Option, none, some, List, [], ◌∷◌, ℤ, u64, Float, arith,
}
use clear_stream.Jitter.{JitterBuffer}
use clear_stream.Jitter.Plc.{generate_plc}
use clear_stream.Jitter.Plc.Conceal.{IsPaired, on_good_packet-IsPaired, generate_plc_total}
use clear_stream.Header.{RtpHeader}
use clear_stream.Session.Losses.Buffer.{Same}
use clear_stream.Session.Losses.{send_clean-jitter}
use clear_stream.Session.Pcm.{bytes_to_int16_slice, int16_slice_to_bytes}
use clear_stream.Session.Data.{
  SessionError, suppress_failed, decode_failed, Handled, done, panics, failed_with, Config, Outside,
  Session,
}
use clear_stream.Session.{
  keep_clean, send_clean, send_result, clean, clean_decoded, clean_concealed,
}

pub done-panics : done ≢ panics
done-panics e = ground (arith, e)

pub failed-panics : (e : SessionError) → failed_with e ≢ panics
failed-panics e h = ground (arith, h)

module _ {F : Type 0} ⦃fl : Float F⦄ where
  pub Same-IsPaired : (j k : JitterBuffer F) → Same j k → IsPaired k → IsPaired j
  Same-IsPaired j k s pair last prev e h = pair last prev (sym s.1 ∙ e) (sym s.2 ∙ h)

  pub total-IsPaired :
      (j : JitterBuffer F) (result : Option (JitterBuffer F × List ℤ))
      → IsPaired j
      → generate_plc j ≡ result
      → (j' : JitterBuffer F) × (r : List ℤ) × (result ≡ some (j', r)) × IsPaired j'
  total-IsPaired j result pair e =
      let (j', r, made, pair') = generate_plc_total j pair in (j', r, sym e ∙ made, pair')

-- The step ends well, and leaves the concealment's frames paired.
abbrev pub IsSafe : {F P W : Type 0} → ⦃fl : Float F⦄ → Session F P × W × Handled → Type 0
IsSafe r = IsPaired r.0.jitter × (r.2 ≢ panics)

module _ {F P W : Type 0} ⦃fl : Float F⦄ (o : Outside P W) (cfg : Config) where
  keep_clean-IsPaired :
      (h : RtpHeader) (samples : List ℤ) (s : Session F P)
      → IsPaired s.jitter
      → IsPaired (keep_clean o cfg h samples s).jitter
  unfolding keep_clean
  keep_clean-IsPaired h [] s pair = pair
  keep_clean-IsPaired h (x ∷ xs) s pair = on_good_packet-IsPaired (x ∷ xs) s.jitter

  send_clean-panics :
      (h : RtpHeader) (samples : List ℤ) (s : Session F P) (w : W)
      → (send_clean o cfg h samples s w).2 ≢ panics
  unfolding send_clean
  send_clean-panics h samples s w e = ground (arith, e)

  send_result-IsSafe :
      (h : RtpHeader) (result : Option (List ℕ)) (s : Session F P) (w : W)
      → IsPaired s.jitter
      → IsSafe (send_result o cfg h result s w)
  unfolding send_result
  send_result-IsSafe h none s w pair = (pair, failed-panics suppress_failed)
  send_result-IsSafe h (some bytes) s w pair =
      let samples = bytes_to_int16_slice bytes in
      let kept = keep_clean o cfg h samples s in
      (
        rw (send_clean-jitter o cfg h samples kept w) (keep_clean-IsPaired h samples s pair),
        send_clean-panics h samples kept w,
      )

  clean-IsSafe :
      (h : RtpHeader) (samples : List ℤ) (s : Session F P) (w : W)
      → IsPaired s.jitter
      → IsSafe (clean o cfg h samples s w)
  unfolding clean
  clean-IsSafe h samples s w pair =
      let (p, result) = o.process_frames s.pipeline (int16_slice_to_bytes samples) in
      send_result-IsSafe h result (record s { pipeline = p }) w pair

  pub decoded-IsSafe :
      (h : RtpHeader) (result : Option (List ℤ)) (s : Session F P) (w : W)
      → IsPaired s.jitter
      → IsSafe (clean_decoded o cfg h result s w)
  unfolding clean_decoded
  decoded-IsSafe h none s w pair = (pair, failed-panics decode_failed)
  decoded-IsSafe h (some samples) s w pair = clean-IsSafe h samples s w pair

  pub concealed-IsSafe :
      (h : RtpHeader) (result : Option (JitterBuffer F × List ℤ)) (s : Session F P) (w : W)
      → (j' : JitterBuffer F) × (r : List ℤ) × (result ≡ some (j', r)) × IsPaired j'
      → IsSafe (clean_concealed o cfg h result s w)
  unfolding clean_concealed
  concealed-IsSafe h result s w (j', r, e, pair) =
      rw e (
        clean-IsSafe h r (record s { jitter = j'; packets_lost = u64 (s.packets_lost + 1) }) w pair)
