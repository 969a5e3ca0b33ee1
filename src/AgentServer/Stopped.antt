-- ===== src/AgentServer/Stopped.antt =====
-- pkg/agentstream/server.go, handleStop: media that comes after the stop event.
use clear_stream.Prelude.{ℕ, ◌≡◌, refl, ap, ◌∙◌, Option, none, some, List, [], ◌∷◌, Float}
use clear_stream.StreamState.{StreamState, completed}
use clear_stream.Pipeline.{Pipeline, PipelineConfig, process_frames}
use clear_stream.Pipeline.Calls.{close_turn_end}
use clear_stream.Pipeline.Steps.{Live, Answer, done, stop}
use clear_stream.AgentServer.Events.{MediaEvent}
use clear_stream.AgentServer.{
  CallState, Outside, Outcome, closed, handle_stop, send, emit, emit_answer, process_payload,
  handle_media, buffered,
}
use clear_stream.AgentServer.Validity.{IsValid, IsPhase}

module _ {F X : Type 0} where
  abbrev pub in_state : StreamState → CallState F X × Outcome → CallState F X × Outcome
  in_state state (call, outcome) = (record call { state = state }, outcome)

  closed_sound :
      (state : StreamState) (q : Option (PipelineConfig × Pipeline F X))
      → IsPhase state q
      → closed q ≡ q
  unfolding close_turn_end
  closed_sound state none h = refl
  closed_sound state (some (cfg, p)) (s, (has, c, no_one)) = rw no_one refl

module _ {F X : Type 0} (o : Outside F X) where
  emit-in_state :
      (ev : MediaEvent) (l : Live F X) (call : CallState F X) (state : StreamState) (out : List ℕ)
      → emit o ev l (record call { state = state }) out ≡ in_state state (emit o ev l call out)
  unfolding emit send
  emit-in_state ev l call state [] = refl
  emit-in_state ev l call state (c ∷ out) = refl

  emit_answer-in_state :
      (ev : MediaEvent) (cfg : PipelineConfig) (r : Pipeline F X × Answer Unit)
      (call : CallState F X) (state : StreamState)
      → emit_answer o ev cfg r (record call { state = state })
        ≡ in_state state (emit_answer o ev cfg r call)
  unfolding emit_answer
  emit_answer-in_state ev cfg (p, done u) call state =
      emit-in_state ev p.live (record call { pipeline = some (cfg, p) }) state p.live.out
  emit_answer-in_state ev cfg (p, stop e) call state = refl

module _ {F X : Type 0} ⦃fl : Float F⦄ (o : Outside F X) where
  process_payload-in_state :
      (ev : MediaEvent) (cfg : PipelineConfig) (p : Pipeline F X) (call : CallState F X)
      (state : StreamState) (raw : Option (List ℕ))
      → process_payload o ev cfg p (record call { state = state }) raw
        ≡ in_state state (process_payload o ev cfg p call raw)
  unfolding process_payload
  process_payload-in_state ev cfg p call state none = refl
  process_payload-in_state ev cfg p call state (some raw) =
      emit_answer-in_state o ev cfg
        (process_frames (buffered o.stages) cfg raw
          (record p { live = record p.live { out = [] } }))
        call state

  handle_media-in_state :
      (ev : MediaEvent) (q : Option (PipelineConfig × Pipeline F X)) (call : CallState F X)
      (state : StreamState)
      → handle_media o ev q (record call { state = state })
        ≡ in_state state (handle_media o ev q call)
  unfolding handle_media
  handle_media-in_state ev none call state = refl
  handle_media-in_state ev (some (cfg, p)) call state =
      process_payload-in_state ev cfg p call state (o.decode_string ev.payload)

  -- A call that was stopped treats media as it did before, the events it sends, their numbers and the
  -- pipeline included; only the state that it is in differs. The call is a valid one.
  pub handle_media-handle_stop :
      (ev : MediaEvent) (call : CallState F X)
      → IsValid call
      → let stopped = (handle_stop call).0 in
        handle_media o ev stopped.pipeline stopped
        ≡ in_state completed (handle_media o ev call.pipeline call)
  unfolding handle_stop
  handle_media-handle_stop ev call v =
      ap (λ q. handle_media o ev q (record call { pipeline = q; state = completed }))
        (closed_sound call.state call.pipeline v.phase)
      ∙ handle_media-in_state ev call.pipeline call completed
