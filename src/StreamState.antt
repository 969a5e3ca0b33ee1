-- ===== src/StreamState.antt =====
-- pkg/agentstream/state.go: the life of an AgentStream session.
pub mod Names
pub mod Paths
use mathlib.Core.List.{List, [], ◌∷◌}
use mathlib.Core.Option.{Option, none, some}
use Prim.Native.String.{String}
use clear_stream.Prelude.{ℕ, Bool, true, false, ◌||◌, not, ltb, leb, ◌==◌}

-- The states in the order of the source's constants, the error states last.
pub data StreamState : Type 0 where
  created sip_negotiating rtp_established wss_connecting : StreamState
  streaming bot_audio_active interruption_detected clearing_playback : StreamState
  stopping completed : StreamState
  sip_failed rtp_timeout wss_failed bot_timeout model_failed : StreamState
  fallback_active force_terminated : StreamState

-- The constant's number, a uint8.
unfoldable pub number : StreamState → ℕ
number created = 0
number sip_negotiating = 1
number rtp_established = 2
number wss_connecting = 3
number streaming = 4
number bot_audio_active = 5
number interruption_detected = 6
number clearing_playback = 7
number stopping = 8
number completed = 9
number sip_failed = 10
number rtp_timeout = 11
number wss_failed = 12
number bot_timeout = 13
number model_failed = 14
number fallback_active = 15
number force_terminated = 16

-- The printed name; the default case of the source has no state.
unfoldable pub to_string : StreamState → String
to_string created = "CREATED"
to_string sip_negotiating = "SIP_NEGOTIATING"
to_string rtp_established = "RTP_ESTABLISHED"
to_string wss_connecting = "WSS_CONNECTING"
to_string streaming = "STREAMING"
to_string bot_audio_active = "BOT_AUDIO_ACTIVE"
to_string interruption_detected = "INTERRUPTION_DETECTED"
to_string clearing_playback = "CLEARING_PLAYBACK"
to_string stopping = "STOPPING"
to_string completed = "COMPLETED"
to_string sip_failed = "SIP_FAILED"
to_string rtp_timeout = "RTP_TIMEOUT"
to_string wss_failed = "WSS_FAILED"
to_string bot_timeout = "BOT_TIMEOUT"
to_string model_failed = "MODEL_FAILED"
to_string fallback_active = "FALLBACK_ACTIVE"
to_string force_terminated = "FORCE_TERMINATED"

unfoldable pub is_error : StreamState → Bool
unfolding number
is_error s = leb (number sip_failed) (number s)

-- `==` on the constants.
unfoldable pub same : StreamState → StreamState → Bool
unfolding number
same s t = number s == number t

unfoldable pub is_terminal : StreamState → Bool
unfolding same
is_terminal s = same s completed || same s force_terminated

-- The table; a state that is no key of it has no entry.
unfoldable pub valid_transitions : StreamState → Option (List StreamState)
valid_transitions created = some (sip_negotiating ∷ sip_failed ∷ force_terminated ∷ [])
valid_transitions sip_negotiating = some (rtp_established ∷ sip_failed ∷ force_terminated ∷ [])
valid_transitions rtp_established = some (wss_connecting ∷ rtp_timeout ∷ force_terminated ∷ [])
valid_transitions wss_connecting = some (streaming ∷ wss_failed ∷ force_terminated ∷ [])
valid_transitions streaming = some (
    bot_audio_active ∷ interruption_detected ∷ stopping ∷ rtp_timeout ∷ wss_failed ∷ fallback_active
    ∷ [])
valid_transitions bot_audio_active =
    some (interruption_detected ∷ streaming ∷ stopping ∷ wss_failed ∷ [])
valid_transitions interruption_detected = some (clearing_playback ∷ streaming ∷ [])
valid_transitions clearing_playback = some (streaming ∷ stopping ∷ [])
valid_transitions stopping = some (completed ∷ force_terminated ∷ [])
valid_transitions completed = none
valid_transitions sip_failed = some (force_terminated ∷ [])
valid_transitions rtp_timeout = some (stopping ∷ [])
valid_transitions wss_failed = some (fallback_active ∷ stopping ∷ [])
valid_transitions bot_timeout = some (fallback_active ∷ stopping ∷ [])
valid_transitions model_failed = some (fallback_active ∷ streaming ∷ [])
valid_transitions fallback_active = some (streaming ∷ stopping ∷ [])
valid_transitions force_terminated = none

unfoldable pub is_listed : StreamState → List StreamState → Bool
is_listed dst [] = false
is_listed dst (s ∷ rest) = same s dst || is_listed dst rest

unfoldable pub can_transition : StreamState → StreamState → Bool
unfolding valid_transitions is_listed
can_transition src dst = elim (valid_transitions src) [
  | none ↦ false
  | some allowed ↦ is_listed dst allowed
]
