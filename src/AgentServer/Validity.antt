-- ===== src/AgentServer/Validity.antt =====
-- pkg/agentstream/server.go: what the handlers keep of a call.
use clear_stream.Prelude.{
  ℕ, zero, suc, ◌+◌, ◌≡◌, ◌⊎◌, inl, inr, refl, true, Option, none, some, List, [], ◌∷◌, u64, length,
  ap₂, ℤ, pos, ltb_ℤ, Float, Bool-cases, same_name, codes, arith,
}
use clear_stream.StreamState.{StreamState, created, streaming, completed}
use clear_stream.Pipeline.{Pipeline, PipelineConfig, process_frames}
use clear_stream.Pipeline.Calls.{set_bypass, close_turn_end}
use clear_stream.Pipeline.Counters.{
  IsCounted, IsFine, process_frames-IsCounted, process_frames-panics,
}
use clear_stream.Pipeline.Steps.{Live, Answer, done, stop}
use clear_stream.Pipeline.Tuning.{Settings, new_pipeline, set_aggressiveness, reconfigure}
use clear_stream.TurnEnd.{new_turn_end_tracker}
use clear_stream.AgentServer.Events.{StartEvent, MediaEvent, ReconfigureEvent}
use clear_stream.AgentServer.{
  CallState, Outside, Outcome, handled, failed, panicked, ServerEvent, connected, clean_media,
  error_event, SuppressorConfig, closed, handle_stop, send, emit, emit_answer, apply_mode,
  is_tuning, handle_reconfigure, process_payload, handle_media, buffered,
  aggressiveness_to_thresholds,
}
use clear_stream.AgentServer.Start.{pipeline_config, start_with, handle_start}

-- The numbers of the clean media events, the latest first.
abbrev pub media_numbers : List ServerEvent → List ℕ
media_numbers [] = []
media_numbers (clean_media ev ∷ sent) = ev.sequence_number ∷ media_numbers sent
media_numbers (connected ∷ sent) = media_numbers sent
media_numbers (error_event sid e ∷ sent) = media_numbers sent

-- n, n - 1, ..., 1 as uint64.
abbrev pub counted_down : ℕ → List ℕ
counted_down zero = []
counted_down (suc n) = u64 (suc n) ∷ counted_down n

-- The clean media events bear the numbers from 1 on.
abbrev pub IsNumbered : List ServerEvent → ℕ → Type 0
IsNumbered sent seq = (n : ℕ) × (media_numbers sent ≡ counted_down n) × (seq ≡ u64 n)

module _ {F X : Type 0} where
  -- A call's pipeline has a suppressor and no tracker, and has counted its frames.
  abbrev pub IsSound : PipelineConfig × Pipeline F X → Type 0
  IsSound (cfg, p) = (cfg.has_suppressor ≡ true) × IsCounted p.live × (p.live.turn_end ≡ none)

  -- A call is new and has no pipeline, or it is streaming and has one, or it was stopped.
  abbrev pub IsPhase : StreamState → Option (PipelineConfig × Pipeline F X) → Type 0
  IsPhase state none = (state ≡ created) ⊎ (state ≡ completed)
  IsPhase state (some q) = ((state ≡ streaming) ⊎ (state ≡ completed)) × IsSound q

  pub record IsValid (call : CallState F X) : Type 0 where
    pub numbered : IsNumbered call.sent call.seq
    pub phase : IsPhase call.state call.pipeline

  pub closed-IsPhase :
      (state : StreamState) (q : Option (PipelineConfig × Pipeline F X))
      → IsPhase state q
      → IsPhase state (closed q)
  unfolding close_turn_end
  closed-IsPhase state none h = h
  closed-IsPhase state (some (cfg, p)) (s, (has, c, no_one)) = (s, (has, c, rw no_one refl))

  stopped-IsPhase :
      (state : StreamState) (q : Option (PipelineConfig × Pipeline F X))
      → IsPhase state q
      → IsPhase completed q
  stopped-IsPhase state none h = inr refl
  stopped-IsPhase state (some q) (s, sound) = (inr refl, sound)

  -- A message is handled or fails, and the call is valid afterwards.
  abbrev pub IsHandled : CallState F X × Outcome → Type 0
  IsHandled (call, handled) = IsValid call
  IsHandled (call, failed e) = IsValid call
  IsHandled (call, panicked) = ⊥

  pub handle_stop-IsHandled : (call : CallState F X) → IsValid call → IsHandled (handle_stop call)
  unfolding handle_stop
  handle_stop-IsHandled call v = record {
    numbered = v.numbered;
    phase =
        closed-IsPhase completed call.pipeline (stopped-IsPhase call.state call.pipeline v.phase);
  }

module _ {F X : Type 0} (o : Outside F X) where
  pub send-IsHandled :
      (event : ServerEvent) (call : CallState F X)
      → IsNumbered (event ∷ call.sent) call.seq
      → IsPhase call.state call.pipeline
      → IsHandled (send o event call)
  unfolding send
  send-IsHandled event call n p = elim (Bool-cases (o.delivers (length call.sent) event)) [
    | inl arrives ↦ rw arrives (record { numbered = n; phase = p })
    | inr lost ↦ rw lost (record { numbered = n; phase = p })
  ]

  pub sent-IsValid :
      (event : ServerEvent) (call : CallState F X)
      → IsNumbered (event ∷ call.sent) call.seq
      → IsPhase call.state call.pipeline
      → IsValid (send o event call).0
  unfolding send
  sent-IsValid event call n p = record { numbered = n; phase = p }

  emit-IsHandled :
      (ev : MediaEvent) (l : Live F X) (call : CallState F X) (out : List ℕ)
      → IsValid call
      → IsHandled (emit o ev l call out)
  unfolding emit
  emit-IsHandled ev l call [] v = v
  emit-IsHandled ev l call (c ∷ out) v =
      let (n, numbers, seq) = v.numbered in
      let next : u64 (call.seq + 1) ≡ u64 (suc n) = omega arith in
      send-IsHandled (clean_media _) (record call { seq = u64 (call.seq + 1) })
        (suc n, ap₂ ◌∷◌ next numbers, next) v.phase

  pub emit_answer-IsHandled :
      (ev : MediaEvent) (cfg : PipelineConfig) (r : Pipeline F X × Answer Unit)
      (call : CallState F X)
      → IsValid call
      → IsPhase call.state (some (cfg, r.0))
      → IsFine true r.1
      → IsHandled (emit_answer o ev cfg r call)
  unfolding emit_answer
  emit_answer-IsHandled ev cfg (p, done u) call v h fine =
      emit-IsHandled ev p.live (record call { pipeline = some (cfg, p) }) p.live.out
        (record { numbered = v.numbered; phase = h })
  emit_answer-IsHandled ev cfg (p, stop e) call v h fine =
      rw (fine refl) (record { numbered = v.numbered; phase = h })

module _ {F X : Type 0} where
  reconfigure-IsPhase :
      (t : Settings F X) (state : StreamState) (cfg : PipelineConfig) (p : Pipeline F X)
      (high low : F)
      → IsPhase state (some (cfg, p))
      → IsPhase state
          (some (cfg, record p { live = reconfigure t cfg (some (high, low)) none p.live }))
  unfolding reconfigure
  reconfigure-IsPhase t state cfg p high low h = elim (Bool-cases cfg.has_tiered_nr) [
    | inl tiered ↦ rw tiered h
    | inr flat ↦ rw flat h
  ]

  set_aggressiveness-IsPhase :
      (t : Settings F X) (state : StreamState) (cfg : PipelineConfig) (p : Pipeline F X) (n : ℤ)
      → IsPhase state (some (cfg, p))
      → IsPhase state (some (cfg, record p { live = set_aggressiveness t cfg n p.live }))
  unfolding set_aggressiveness
  set_aggressiveness-IsPhase t state cfg p n h = elim (Bool-cases cfg.has_noise_reducer) [
    | inl there_is ↦
        rw there_is
          (elim (Bool-cases cfg.has_tiered_nr) [ inl tiered ↦ rw tiered h | inr flat ↦ rw flat h ])
    | inr no_one ↦
        rw no_one
          (elim (Bool-cases cfg.has_tiered_nr) [ inl tiered ↦ rw tiered h | inr flat ↦ rw flat h ])
  ]

module _ {F X : Type 0} (o : Outside F X) where
  apply_mode-IsHandled :
      (fl : Float F) (ev : ReconfigureEvent) (cfg : PipelineConfig) (p : Pipeline F X)
      (call : CallState F X)
      → IsValid call
      → IsPhase call.state (some (cfg, p))
      → IsHandled (apply_mode o fl ev cfg p call)
  unfolding apply_mode set_bypass
  apply_mode-IsHandled fl ev cfg p call v h =
      let (high, low) = aggressiveness_to_thresholds fl ev.mode in
      let tuned = reconfigure o.settings cfg (some (high, low)) none p.live in
      let again = reconfigure-IsPhase o.settings call.state cfg p high low h in
      elim (Bool-cases (same_name ev.mode (codes "disabled"))) [
        | inl off ↦ rw off (record { numbered = v.numbered; phase = h })
        | inr a ↦ rw a (elim (Bool-cases (same_name ev.mode (codes "enabled"))) [
          | inl on ↦ rw on (record { numbered = v.numbered; phase = h })
          | inr b ↦ rw b (elim (Bool-cases (is_tuning ev.mode)) [
            | inl tunes ↦ rw tunes (elim (Bool-cases (ltb_ℤ (pos 0) ev.level)) [
              | inl more ↦ rw more (record {
                numbered = v.numbered;
                phase =
                    set_aggressiveness-IsPhase o.settings call.state cfg (record p { live = tuned })
                      ev.level again;
              })
              | inr no_more ↦ rw no_more (record { numbered = v.numbered; phase = again })
            ])
            | inr unknown ↦ rw unknown v
          ])
        ])
      ]

  pub handle_reconfigure-IsHandled :
      (fl : Float F) (ev : ReconfigureEvent) (q : Option (PipelineConfig × Pipeline F X))
      (call : CallState F X)
      → IsValid call
      → IsPhase call.state q
      → IsHandled (handle_reconfigure o fl ev q call)
  unfolding handle_reconfigure
  handle_reconfigure-IsHandled fl ev none call v h = v
  handle_reconfigure-IsHandled fl ev (some (cfg, p)) call v h =
      apply_mode-IsHandled fl ev cfg p call v h

module _ {F X : Type 0} ⦃fl : Float F⦄ (o : Outside F X) where
  process_payload-IsHandled :
      (ev : MediaEvent) (cfg : PipelineConfig) (p : Pipeline F X) (call : CallState F X)
      (raw : Option (List ℕ))
      → IsValid call
      → IsPhase call.state (some (cfg, p))
      → IsHandled (process_payload o ev cfg p call raw)
  unfolding process_payload
  process_payload-IsHandled ev cfg p call none v h = v
  process_payload-IsHandled ev cfg p call (some raw) v (s, (has, c, no_one)) =
      let q : Pipeline F X = record p { live = record p.live { out = [] } } in
      let (still, fine) = process_frames-panics (buffered o.stages) cfg raw q has c no_one in
      let counted = process_frames-IsCounted (buffered o.stages) cfg raw q c in
      emit_answer-IsHandled o ev cfg (process_frames (buffered o.stages) cfg raw q) call v
        (s, (has, counted, still)) fine

  pub handle_media-IsHandled :
      (ev : MediaEvent) (q : Option (PipelineConfig × Pipeline F X)) (call : CallState F X)
      → IsValid call
      → IsPhase call.state q
      → IsHandled (handle_media o ev q call)
  unfolding handle_media
  handle_media-IsHandled ev none call v h = v
  handle_media-IsHandled ev (some (cfg, p)) call v h =
      process_payload-IsHandled ev cfg p call (o.decode_string ev.payload) v h

  start_with-IsHandled :
      (supp : SuppressorConfig) (params : List (List ℕ × List ℕ)) (x : Option X)
      (call : CallState F X)
      → IsValid call
      → IsHandled (start_with o supp params x call)
  unfolding start_with new_pipeline new_turn_end_tracker pipeline_config
  start_with-IsHandled supp params none call v = v
  start_with-IsHandled supp params (some x) call v = record {
    numbered = v.numbered;
    phase = (inl refl, (refl, refl, refl));
  }

  pub handle_start-IsHandled :
      (backend : List ℕ) (ev : StartEvent) (call : CallState F X)
      → IsValid call
      → IsHandled (handle_start o backend ev call)
  unfolding handle_start
  handle_start-IsHandled backend ev call v =
      start_with-IsHandled _ ev.custom_parameters _ _
        (record { numbered = v.numbered; phase = v.phase })
