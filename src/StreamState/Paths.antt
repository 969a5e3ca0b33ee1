-- ===== src/StreamState/Paths.antt =====
-- pkg/agentstream/state.go: which states a session can come to.
use clear_stream.Prelude.{◌≡◌, ◌↔◌, inl, inr, refl, Bool-cases, true, false, arith}
use clear_stream.StreamState.{
  StreamState, created, sip_negotiating, rtp_established, wss_connecting, streaming,
  bot_audio_active, interruption_detected, clearing_playback, stopping, completed, sip_failed,
  rtp_timeout, wss_failed, bot_timeout, model_failed, fallback_active, force_terminated,
  is_terminal, can_transition, same, number, valid_transitions, is_listed,
}

-- A session's way from one state to another, one allowed transition after the other.
pub data Leads : StreamState → StreamState → Type 0 where
  stay : (s : StreamState) → Leads s s
  go : (s t u : StreamState) → can_transition s t ≡ true → Leads t u → Leads s u

terminal_closed :
    (s : StreamState) → is_terminal s ≡ true → (t : StreamState) → can_transition s t ≡ false
unfolding is_terminal same number can_transition valid_transitions is_listed
terminal_closed s h t = ground arith

-- A state in which a session has an allowed transition left.
next_state :
    (s : StreamState) → is_terminal s ≡ false → (t : StreamState) × (can_transition s t ≡ true)
unfolding is_terminal same number can_transition valid_transitions is_listed
next_state created h = (force_terminated, refl)
next_state sip_negotiating h = (force_terminated, refl)
next_state rtp_established h = (force_terminated, refl)
next_state wss_connecting h = (force_terminated, refl)
next_state streaming h = (stopping, refl)
next_state bot_audio_active h = (stopping, refl)
next_state interruption_detected h = (clearing_playback, refl)
next_state clearing_playback h = (stopping, refl)
next_state stopping h = (completed, refl)
next_state completed h = ground arith
next_state sip_failed h = (force_terminated, refl)
next_state rtp_timeout h = (stopping, refl)
next_state wss_failed h = (stopping, refl)
next_state bot_timeout h = (stopping, refl)
next_state model_failed h = (fallback_active, refl)
next_state fallback_active h = (stopping, refl)
next_state force_terminated h = ground arith

-- No transition comes to these two error states.
never_entered :
    (s t : StreamState)
    → can_transition s t ≡ true
    → (same t bot_timeout ≡ false) × (same t model_failed ≡ false)
unfolding same number can_transition valid_transitions is_listed
never_entered s t h = ground arith

-- Completed or terminated by force, and only then, a session allows no transition to any state.
is_terminal_lem :
    (s : StreamState) → (is_terminal s ≡ true) ↔ ((t : StreamState) → can_transition s t ≡ false)
is_terminal_lem s = (
  terminal_closed s,
  λ closed. elim (Bool-cases (is_terminal s)) [
    | inl done ↦ done
    | inr more ↦ let (t, goes) = next_state s more in absurd (ground (arith, closed t))
  ],
)

-- From every state, with the two that are never entered, a session can still come to a terminal one.
end_reached : (s : StreamState) → (t : StreamState) × Leads s t × (is_terminal t ≡ true)
unfolding is_terminal same number can_transition valid_transitions is_listed
end_reached created = (force_terminated, go _ _ _ refl (stay _), refl)
end_reached sip_negotiating = (force_terminated, go _ _ _ refl (stay _), refl)
end_reached rtp_established = (force_terminated, go _ _ _ refl (stay _), refl)
end_reached wss_connecting = (force_terminated, go _ _ _ refl (stay _), refl)
end_reached streaming = (completed, go _ stopping _ refl (go _ _ _ refl (stay _)), refl)
end_reached bot_audio_active = (completed, go _ stopping _ refl (go _ _ _ refl (stay _)), refl)
end_reached interruption_detected =
    (completed, go _ clearing_playback _ refl (go _ stopping _ refl (go _ _ _ refl (stay _))), refl)
end_reached clearing_playback = (completed, go _ stopping _ refl (go _ _ _ refl (stay _)), refl)
end_reached stopping = (completed, go _ _ _ refl (stay _), refl)
end_reached completed = (completed, stay _, refl)
end_reached sip_failed = (force_terminated, go _ _ _ refl (stay _), refl)
end_reached rtp_timeout = (completed, go _ stopping _ refl (go _ _ _ refl (stay _)), refl)
end_reached wss_failed = (completed, go _ stopping _ refl (go _ _ _ refl (stay _)), refl)
end_reached bot_timeout = (completed, go _ stopping _ refl (go _ _ _ refl (stay _)), refl)
end_reached model_failed =
    (completed, go _ fallback_active _ refl (go _ stopping _ refl (go _ _ _ refl (stay _))), refl)
end_reached fallback_active = (completed, go _ stopping _ refl (go _ _ _ refl (stay _)), refl)
end_reached force_terminated = (force_terminated, stay _, refl)

-- A session that begins in neither of the two states never comes to the state of a bot timeout or of
-- a failed model, whatever transitions it makes: no transition leads to either.
pub unreachable :
    (s t : StreamState)
    → Leads s t
    → same s bot_timeout ≡ false
    → same s model_failed ≡ false
    → (same t bot_timeout ≡ false) × (same t model_failed ≡ false)
unreachable s t (stay _) b m = (b, m)
unreachable s t (go _ r _ goes later) b m =
    let (b', m') = never_entered s r goes in unreachable r t later b' m'
