-- ===== src/AgentServer.antt =====
-- pkg/agentstream/server.go: a call of the AgentStream protocol, and the messages that drive its
-- pipeline.
pub mod Events
pub mod Serve
pub mod Serving
pub mod Start
pub mod Stopped
pub mod Validity
use clear_stream.Prelude.{
  ℕ, ◌+◌, Bool, true, false, not, ◌&&◌, ◌||◌, Option, none, some, List, [], ◌∷◌, length, u64,
  if◌then◌else◌, ltb_ℤ, leb_ℤ, ℤ, pos, Float, codes, same_name,
}
use clear_stream.StreamState.{StreamState, created, streaming, completed}
use clear_stream.Pipeline.{Pipeline, PipelineConfig, Stages, process_frames}
use clear_stream.Pipeline.Calls.{VadConfig, set_bypass, close_turn_end}
use clear_stream.Pipeline.Steps.{Live, PipelineError, is_panic, Answer, done, stop}
use clear_stream.Pipeline.Tuning.{Settings, new_pipeline, set_aggressiveness, reconfigure}
use clear_stream.AgentServer.Events.{
  StartEvent, MediaEvent, ReconfigureEvent, EnhancementInfo, CleanMediaEvent, param,
  first_non_empty, atoi_or, parse_float_param,
}

pub record SuppressorConfig : Type 0 where
  pub backend : List ℕ
  pub model_path : List ℕ
  pub aggressiveness : ℤ

pub data ServerError : Type 0 where
  decode_envelope_failed decode_event_failed suppressor_failed : ServerError
  no_pipeline decode_payload_failed unknown_mode send_failed : ServerError
  process_failed : PipelineError → ServerError

-- How the handling of a message ends.
pub data Outcome : Type 0 where
  handled : Outcome
  failed : ServerError → Outcome
  panicked : Outcome

-- What the server sends.
pub data ServerEvent : Type 0 where
  connected : ServerEvent
  clean_media : CleanMediaEvent → ServerEvent
  error_event : List ℕ → ServerError → ServerEvent

-- A message of the WebSocket.
pub data Incoming : Type 0 where
  text_message : List ℕ → Incoming
  other_message : Incoming

-- callState, and what was sent on the connection, the latest first.
pub record CallState (F X : Type 0) : Type 0 where
  pub pipeline : Option (PipelineConfig × Pipeline F X)
  pub state : StreamState
  pub stream_sid : List ℕ
  pub call_sid : List ℕ
  pub sample_rate : ℤ
  pub seq : ℕ
  pub agc_enabled : Bool
  pub tiered_enabled : Bool
  pub sent : List ServerEvent

-- JSON, base64 and numbers, the suppressors with the stages set up for them, and the connection, whose
-- writes may fail; the number is that of the writes before.
pub record Outside (F X : Type 0) : Type 0 where
  pub envelope : List ℕ → Option (List ℕ)
  pub start_event : List ℕ → Option StartEvent
  pub media_event : List ℕ → Option MediaEvent
  pub reconfigure_event : List ℕ → Option ReconfigureEvent
  pub stop_event : List ℕ → Bool
  pub decode_string : List ℕ → Option (List ℕ)
  pub encode_to_string : List ℕ → List ℕ
  pub parse_float : List ℕ → Option F
  pub new_stages : SuppressorConfig → Option F → Option (F × F) → Option X
  pub stages : Stages X
  pub settings : Settings F X
  pub delivers : ℕ → ServerEvent → Bool

abbrev pub or_float : {F : Type 0} → F → Option F → F
or_float def none = def
or_float def (some x) = x

-- The output is a buffer of its own for each message, and takes everything.
abbrev pub buffered : {X : Type 0} → Stages X → Stages X
buffered o = record o { writes = λ bytes x. (x, true) }

abbrev pub is_some : {A : Type 0} → Option A → Bool
is_some none = false
is_some (some a) = true

abbrev pub is_zero : ℤ → Bool
is_zero n = leb_ℤ n (pos 0) && leb_ℤ (pos 0) n

-- The thresholds of a mode, high and low.
unfoldable pub aggressiveness_to_thresholds : {F : Type 0} → Float F → List ℕ → F × F
aggressiveness_to_thresholds fl mode =
    if same_name mode (codes "mild")
    then (fl.of_int (pos 30), fl.of_int (pos 5))
    else if same_name mode (codes "aggressive")
    then (fl.of_int (pos 20), fl.of_int (pos 15))
    else (fl.of_int (pos 25), fl.of_int (pos 10))

unfoldable pub is_tuning : List ℕ → Bool
is_tuning mode =
    same_name mode (codes "adaptive")
    || same_name mode (codes "aggressive")
    || same_name mode (codes "mild")

abbrev pub new_call : (F X : Type 0) → CallState F X
new_call F X = record {
  pipeline = none;
  state = created;
  stream_sid = [];
  call_sid = [];
  sample_rate = pos 0;
  seq = 0;
  agc_enabled = false;
  tiered_enabled = false;
  sent = [];
}

module _ {F X : Type 0} where
  -- handleStop: the pipeline stays after it is closed.
  abbrev pub closed :
      Option (PipelineConfig × Pipeline F X) → Option (PipelineConfig × Pipeline F X)
  closed none = none
  closed (some (cfg, p)) = some (cfg, record p { live = close_turn_end p.live })

  unfoldable pub handle_stop : CallState F X → CallState F X × Outcome
  handle_stop call = (record call { pipeline = closed call.pipeline; state = completed }, handled)

module _ {F X : Type 0} (o : Outside F X) where
  unfoldable pub send : ServerEvent → CallState F X → CallState F X × Outcome
  send event call = (
    record call { sent = event ∷ call.sent },
    if o.delivers (length call.sent) event then handled else failed send_failed,
  )

  -- An output that is not empty is sent under the next number.
  unfoldable pub emit : MediaEvent → Live F X → CallState F X → List ℕ → CallState F X × Outcome
  emit ev l call [] = (call, handled)
  emit ev l call (c ∷ out) =
      let next = u64 (call.seq + 1) in
      send
        (clean_media (record {
          stream_sid = call.stream_sid;
          sequence_number = next;
          track = ev.track;
          codec = ev.codec;
          sample_rate = ev.sample_rate;
          timestamp_ms = ev.timestamp_ms;
          enhancement = record {
            noise_suppression = not l.bypassed;
            gain_normalization = call.agc_enabled && not l.bypassed;
          };
          payload = o.encode_to_string (c ∷ out);
        }))
        (record call { seq = next })

  unfoldable pub emit_answer :
      MediaEvent
      → PipelineConfig
      → Pipeline F X × Answer Unit
      → CallState F X
      → CallState F X × Outcome
  emit_answer ev cfg (p, done u) call =
      emit ev p.live (record call { pipeline = some (cfg, p) }) p.live.out
  emit_answer ev cfg (p, stop e) call = (
    record call { pipeline = some (cfg, p) },
    if is_panic e then panicked else failed (process_failed e),
  )

  unfoldable pub apply_mode :
      Float F
      → ReconfigureEvent
      → PipelineConfig
      → Pipeline F X
      → CallState F X
      → CallState F X × Outcome
  apply_mode fl ev cfg p call =
      let change : Live F X → CallState F X × Outcome =
        λ l. (record call { pipeline = some (cfg, record p { live = l }) }, handled) in
      if same_name ev.mode (codes "disabled")
      then change (set_bypass true p.live)
      else if same_name ev.mode (codes "enabled")
      then change (set_bypass false p.live)
      else if is_tuning ev.mode
      then (let tuned =
            reconfigure o.settings cfg (some (aggressiveness_to_thresholds fl ev.mode)) none
              p.live in
          change (
            if ltb_ℤ (pos 0) ev.level
            then set_aggressiveness o.settings cfg ev.level tuned
            else tuned))
      else (call, failed unknown_mode)

  unfoldable pub handle_reconfigure :
      Float F
      → ReconfigureEvent
      → Option (PipelineConfig × Pipeline F X)
      → CallState F X
      → CallState F X × Outcome
  handle_reconfigure fl ev none call = (call, failed no_pipeline)
  handle_reconfigure fl ev (some (cfg, p)) call = apply_mode fl ev cfg p call

module _ {F X : Type 0} ⦃fl : Float F⦄ (o : Outside F X) where
  unfoldable pub process_payload :
      MediaEvent
      → PipelineConfig
      → Pipeline F X
      → CallState F X
      → Option (List ℕ)
      → CallState F X × Outcome
  process_payload ev cfg p call none = (call, failed decode_payload_failed)
  process_payload ev cfg p call (some raw) =
      emit_answer o ev cfg
        (process_frames (buffered o.stages) cfg raw
          (record p { live = record p.live { out = [] } }))
        call

  unfoldable pub handle_media :
      MediaEvent → Option (PipelineConfig × Pipeline F X) → CallState F X → CallState F X × Outcome
  handle_media ev none call = (call, failed no_pipeline)
  handle_media ev (some (cfg, p)) call = process_payload ev cfg p call (o.decode_string ev.payload)
