-- ===== src/StreamState/Names.antt =====
-- pkg/agentstream/state.go: the printed names.
use Prim.Native.Nat.{Ordering}
use Prim.Native.String.{String}
use Prim.Native.String as string
use clear_stream.Prelude.{
  ℕ, suc, ◌≡◌, Bool, true, false, refl, sym, ap, ◌∙◌, List, [], ◌∷◌, if◌then◌else◌, ==_iff,
}
use clear_stream.StreamState.{
  StreamState, created, sip_negotiating, rtp_established, wss_connecting, streaming,
  bot_audio_active, interruption_detected, clearing_playback, stopping, completed, sip_failed,
  rtp_timeout, wss_failed, bot_timeout, model_failed, fallback_active, force_terminated, to_string,
  same, number,
}

-- Equality of strings.
abbrev matches : String → String → Bool
matches a b = elim (string.compare a b) [ Ordering.eq ↦ true | _ ↦ false ]

-- The place of a name in a list.
place : String → List String → ℕ
place x [] = 0
place x (y ∷ ys) = let later = place x ys in if matches x y then 0 else suc later

abbrev names : List String
names =
    "CREATED" ∷ "SIP_NEGOTIATING" ∷ "RTP_ESTABLISHED" ∷ "WSS_CONNECTING" ∷ "STREAMING"
    ∷ "BOT_AUDIO_ACTIVE" ∷ "INTERRUPTION_DETECTED" ∷ "CLEARING_PLAYBACK" ∷ "STOPPING" ∷ "COMPLETED"
    ∷ "SIP_FAILED" ∷ "RTP_TIMEOUT" ∷ "WSS_FAILED" ∷ "BOT_TIMEOUT" ∷ "MODEL_FAILED"
    ∷ "FALLBACK_ACTIVE" ∷ "FORCE_TERMINATED" ∷ []

place-to_string : (s : StreamState) → place (to_string s) names ≡ number s
unfolding place to_string number
place-to_string created = refl
place-to_string sip_negotiating = refl
place-to_string rtp_established = refl
place-to_string wss_connecting = refl
place-to_string streaming = refl
place-to_string bot_audio_active = refl
place-to_string interruption_detected = refl
place-to_string clearing_playback = refl
place-to_string stopping = refl
place-to_string completed = refl
place-to_string sip_failed = refl
place-to_string rtp_timeout = refl
place-to_string wss_failed = refl
place-to_string bot_timeout = refl
place-to_string model_failed = refl
place-to_string fallback_active = refl
place-to_string force_terminated = refl

-- No two states print the same name.
pub to_string-inj : (s t : StreamState) → to_string s ≡ to_string t → same s t ≡ true
unfolding same
to_string-inj s t e =
    (==_iff (number s) (number t)).1
      (sym (place-to_string s) ∙ ap (λ x. place x names) e ∙ place-to_string t)
