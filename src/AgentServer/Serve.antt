-- ===== src/AgentServer/Serve.antt =====
-- pkg/agentstream/server.go: the messages of a connection, one after the other.
use clear_stream.Prelude.{
  ℕ, Bool, true, false, Option, none, some, List, [], ◌∷◌, if◌then◌else◌, Float, codes, same_name,
}
use clear_stream.AgentServer.{
  CallState, Outside, Outcome, handled, failed, panicked, connected, error_event, Incoming,
  text_message, other_message, decode_envelope_failed, decode_event_failed, closed, handle_stop,
  send, handle_reconfigure, handle_media, new_call,
}
use clear_stream.AgentServer.Start.{handle_start}

module _ {F X : Type 0} ⦃fl : Float F⦄ (o : Outside F X) where
  -- An event that cannot be decoded changes nothing.
  abbrev pub if_decoded :
      {E : Type 0}
      → (E → CallState F X → CallState F X × Outcome)
      → Option E
      → CallState F X
      → CallState F X × Outcome
  if_decoded handle none call = (call, failed decode_event_failed)
  if_decoded handle (some ev) call = handle ev call

  unfoldable pub handle_event : List ℕ → List ℕ → List ℕ → CallState F X → CallState F X × Outcome
  handle_event default_backend data_in event call =
      if same_name event (codes "start")
      then if_decoded (handle_start o default_backend) (o.start_event data_in) call
      else if same_name event (codes "media")
      then if_decoded (λ ev c. handle_media o ev c.pipeline c) (o.media_event data_in) call
      else if same_name event (codes "reconfigure")
      then if_decoded (λ ev c. handle_reconfigure o fl ev c.pipeline c)
          (o.reconfigure_event data_in) call
      else if same_name event (codes "stop")
      then (if o.stop_event data_in then handle_stop call else (call, failed decode_event_failed))
      else (call, handled)

  abbrev pub handle_enveloped :
      List ℕ → List ℕ → Option (List ℕ) → CallState F X → CallState F X × Outcome
  handle_enveloped default_backend data_in none call = (call, failed decode_envelope_failed)
  handle_enveloped default_backend data_in (some event) call =
      handle_event default_backend data_in event call

  unfoldable pub handle_message : List ℕ → List ℕ → CallState F X → CallState F X × Outcome
  handle_message default_backend data_in call =
      handle_enveloped default_backend data_in (o.envelope data_in) call

  -- An error is answered by an event; the flag tells that the handler panicked, which ends the loop.
  abbrev pub answered : CallState F X × Outcome → CallState F X × Bool
  answered (call, handled) = (call, false)
  answered (call, failed e) = ((send o (error_event call.stream_sid e) call).0, false)
  answered (call, panicked) = (call, true)

  unfoldable pub receive_one : List ℕ → Incoming → CallState F X → CallState F X × Bool
  receive_one default_backend other_message call = (call, false)
  receive_one default_backend (text_message data_in) call =
      answered (handle_message default_backend data_in call)

  unfoldable pub receive_all : List ℕ → List Incoming → CallState F X → CallState F X × Bool
  receive_all default_backend [] call = (call, false)
  receive_all default_backend (m ∷ messages) call =
      let (next, panics_now) = receive_one default_backend m call in
      let rest = receive_all default_backend messages next in
      if panics_now then (next, true) else rest

  -- The connection's end closes the pipeline; a panic leaves it as it is.
  abbrev pub ended : CallState F X × Bool → CallState F X × Bool
  ended (call, true) = (call, true)
  ended (call, false) = (record call { pipeline = closed call.pipeline }, false)

  abbrev pub serve_from : List ℕ → List Incoming → CallState F X × Outcome → CallState F X × Bool
  serve_from default_backend messages (call, handled) =
      ended (receive_all default_backend messages call)
  serve_from default_backend messages (call, failed e) = (call, false)
  serve_from default_backend messages (call, panicked) = (call, true)

  -- A connection, with the messages it receives until it is closed.
  unfoldable pub serve_ws : List ℕ → List Incoming → CallState F X × Bool
  serve_ws default_backend messages =
      serve_from default_backend messages (send o connected (new_call F X))
