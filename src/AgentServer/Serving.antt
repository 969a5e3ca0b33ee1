-- ===== src/AgentServer/Serving.antt =====
-- pkg/agentstream/server.go: what holds of a call after any messages, and that none makes it panic.
use clear_stream.Prelude.{
  ℕ, zero, ◌≡◌, inl, inr, refl, Bool, true, false, Option, none, some, List, [], ◌∷◌, Float,
  Bool-cases, same_name, codes,
}
use clear_stream.AgentServer.{
  CallState, Outside, Outcome, handled, failed, panicked, connected, error_event, Incoming,
  text_message, other_message, handle_reconfigure, handle_media, new_call,
}
use clear_stream.AgentServer.Start.{handle_start}
use clear_stream.AgentServer.Serve.{
  if_decoded, handle_event, handle_enveloped, handle_message, answered, receive_one, receive_all,
  ended, serve_from, serve_ws,
}
use clear_stream.AgentServer.Validity.{
  IsValid, IsHandled, closed-IsPhase, sent-IsValid, send-IsHandled, handle_stop-IsHandled,
  handle_reconfigure-IsHandled, handle_media-IsHandled, handle_start-IsHandled,
}

module _ {F X : Type 0} ⦃fl : Float F⦄ (o : Outside F X) where
  if_decoded-IsHandled :
      {E : Type 0} (handle : E → CallState F X → CallState F X × Outcome) (ev : Option E)
      (call : CallState F X)
      → IsValid call
      → ((e : E) → IsHandled (handle e call))
      → IsHandled (if_decoded o handle ev call)
  if_decoded-IsHandled handle none call v h = v
  if_decoded-IsHandled handle (some ev) call v h = h ev

  handle_event-IsHandled :
      (backend data_in event : List ℕ) (call : CallState F X)
      → IsValid call
      → IsHandled (handle_event o backend data_in event call)
  unfolding handle_event
  handle_event-IsHandled backend data_in event call v =
      elim (Bool-cases (same_name event (codes "start"))) [
        | inl starts ↦ rw starts (
            if_decoded-IsHandled (handle_start o backend) (o.start_event data_in) call v
              λ ev. handle_start-IsHandled o backend ev call v)
        | inr a ↦ rw a (elim (Bool-cases (same_name event (codes "media"))) [
          | inl media ↦ rw media (
              if_decoded-IsHandled (λ ev c. handle_media o ev c.pipeline c) (o.media_event data_in)
                call v λ ev. handle_media-IsHandled o ev call.pipeline call v v.phase)
          | inr b ↦ rw b (elim (Bool-cases (same_name event (codes "reconfigure"))) [
            | inl changes ↦ rw changes (
                if_decoded-IsHandled (λ ev c. handle_reconfigure o fl ev c.pipeline c)
                  (o.reconfigure_event data_in) call v
                  λ ev. handle_reconfigure-IsHandled o fl ev call.pipeline call v v.phase)
            | inr c ↦ rw c (elim (Bool-cases (same_name event (codes "stop"))) [
              | inl stops ↦ rw stops (elim (Bool-cases (o.stop_event data_in)) [
                | inl decoded ↦ rw decoded (handle_stop-IsHandled call v)
                | inr garbled ↦ rw garbled v
              ])
              | inr other ↦ rw other v
            ])
          ])
        ])
      ]

  handle_message-IsHandled :
      (backend data_in : List ℕ) (event : Option (List ℕ)) (call : CallState F X)
      → IsValid call
      → IsHandled (handle_enveloped o backend data_in event call)
  handle_message-IsHandled backend data_in none call v = v
  handle_message-IsHandled backend data_in (some event) call v =
      handle_event-IsHandled backend data_in event call v

  -- A call that goes on without a panic.
  abbrev GoesOn : CallState F X × Bool → Type 0
  GoesOn r = IsValid r.0 × (r.1 ≡ false)

  answered-GoesOn : (r : CallState F X × Outcome) → IsHandled r → GoesOn (answered o r)
  answered-GoesOn (call, handled) v = (v, refl)
  answered-GoesOn (call, failed e) v =
      (sent-IsValid o (error_event call.stream_sid e) call v.numbered v.phase, refl)
  answered-GoesOn (call, panicked) v = absurd v

  receive_one-GoesOn :
      (backend : List ℕ) (m : Incoming) (call : CallState F X)
      → IsValid call
      → GoesOn (receive_one o backend m call)
  unfolding receive_one handle_message
  receive_one-GoesOn backend other_message call v = (v, refl)
  receive_one-GoesOn backend (text_message data_in) call v =
      answered-GoesOn _ (handle_message-IsHandled backend data_in (o.envelope data_in) call v)

  receive_all-GoesOn :
      (backend : List ℕ) (messages : List Incoming) (call : CallState F X)
      → IsValid call
      → GoesOn (receive_all o backend messages call)
  unfolding receive_all
  receive_all-GoesOn backend [] call v = (v, refl)
  receive_all-GoesOn backend (m ∷ messages) call v =
      let (valid, calm) = receive_one-GoesOn backend m call v in
      rw calm (receive_all-GoesOn backend messages (receive_one o backend m call).0 valid)

  ended-GoesOn : (r : CallState F X × Bool) → GoesOn r → GoesOn (ended o r)
  ended-GoesOn (call, true) h = h
  ended-GoesOn (call, false) (v, calm) = (
    record { numbered = v.numbered; phase = closed-IsPhase call.state call.pipeline v.phase },
    refl,
  )

  serve_from-GoesOn :
      (backend : List ℕ) (messages : List Incoming) (r : CallState F X × Outcome)
      → IsHandled r
      → GoesOn (serve_from o backend messages r)
  serve_from-GoesOn backend messages (call, handled) v =
      ended-GoesOn _ (receive_all-GoesOn backend messages call v)
  serve_from-GoesOn backend messages (call, failed e) v = (v, refl)
  serve_from-GoesOn backend messages (call, panicked) v = absurd v

  -- Whatever messages a connection receives, in whatever order, and whatever the parsers, the stages
  -- and the connection answer, the server does not panic; the clean media events that it sent, the
  -- latest first, bear the numbers n, n - 1, ..., 1 as uint64, n being the call's counter; and the call
  -- is new or stopped and has no pipeline, or it is streaming or stopped and has one, which has a
  -- suppressor, no tracker of turn ends, and counters that agree.
  pub serve_ws-GoesOn :
      (backend : List ℕ) (messages : List Incoming)
      → IsValid (serve_ws o backend messages).0 × ((serve_ws o backend messages).1 ≡ false)
  unfolding serve_ws
  serve_ws-GoesOn backend messages =
      serve_from-GoesOn backend messages _
        (send-IsHandled o connected (new_call F X) (zero, refl, refl) (inl refl))
