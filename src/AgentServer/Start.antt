-- ===== src/AgentServer/Start.antt =====
-- pkg/agentstream/server.go, handleStart: a call's pipeline, made of the parameters of its start event.
use clear_stream.Prelude.{
  ℕ, Bool, true, false, ◌||◌, Option, none, some, List, [], ◌∷◌, if◌then◌else◌, ℤ, pos, Float,
  codes, same_name,
}
use clear_stream.StreamState.{streaming}
use clear_stream.Pipeline.{PipelineConfig}
use clear_stream.Pipeline.Calls.{VadConfig}
use clear_stream.Pipeline.Tuning.{new_pipeline}
use clear_stream.AgentServer.Events.{StartEvent, param, first_non_empty, atoi_or, parse_float_param}
use clear_stream.AgentServer.{
  CallState, Outside, Outcome, handled, failed, SuppressorConfig, suppressor_failed, or_float,
  is_some, is_zero,
}

module _ {F X : Type 0} ⦃fl : Float F⦄ (o : Outside F X) where
  -- The settings that a start event asks for.
  unfoldable pub suppressor_config : List ℕ → List (List ℕ × List ℕ) → SuppressorConfig
  suppressor_config default_backend params = record {
    backend = first_non_empty (param (codes "ns_model") params ∷ default_backend ∷ []);
    model_path = param (codes "ns_model_path") params;
    aggressiveness = atoi_or (param (codes "ns_aggressiveness") params) (pos 0);
  }

  unfoldable pub agc_target : List (List ℕ × List ℕ) → Option F
  agc_target params =
      if same_name (param (codes "ns_agc") params) (codes "true")
      then some (
          or_float (fl.of_int (pos 3000))
            (parse_float_param o.parse_float (codes "ns_agc_target_rms") params))
      else none

  unfoldable pub tier_thresholds : List (List ℕ × List ℕ) → Option (F × F)
  tier_thresholds params =
      if same_name (param (codes "ns_mode") params) (codes "adaptive")
      then some (
        or_float (fl.of_int (pos 25))
            (parse_float_param o.parse_float (codes "ns_high_snr_db") params),
        or_float (fl.of_int (pos 10))
            (parse_float_param o.parse_float (codes "ns_low_snr_db") params),
      )
      else none

  unfoldable pub static_vad : List (List ℕ × List ℕ) → Option (VadConfig F)
  static_vad params =
      let vad = param (codes "ns_vad") params in
      if same_name vad (codes "static") || same_name vad (codes "true")
      then some (record { energy_threshold = fl.of_int (pos 0); hangover_frames = pos 0 })
      else none

  unfoldable pub pipeline_config : ℤ → SuppressorConfig → Bool → Bool → PipelineConfig
  pipeline_config rate supp agc tiered = record {
    input_sample_rate = rate;
    sample_rate = pos 0;
    has_aec = false;
    has_tiered_nr = tiered;
    has_noise_reducer = false;
    has_suppressor = true;
    is_passthrough = same_name supp.backend (codes "passthrough");
    has_agc = agc;
    has_limiter = false;
    has_diarizer = false;
  }

  -- The flags are set, and never taken back.
  unfoldable pub start_with :
      SuppressorConfig → List (List ℕ × List ℕ) → Option X → CallState F X → CallState F X × Outcome
  start_with supp params none call = (call, failed suppressor_failed)
  start_with supp params (some x) call =
      let agc = is_some (agc_target params) in
      let tiered = is_some (tier_thresholds params) in
      let adaptive = same_name (param (codes "ns_vad") params) (codes "adaptive") in
      (
        record call {
          pipeline = some (
            pipeline_config call.sample_rate supp agc tiered,
            new_pipeline none adaptive (static_vad params) (pos 0) none x,
          );
          state = streaming;
          agc_enabled = agc || call.agc_enabled;
          tiered_enabled = tiered || call.tiered_enabled;
        },
        handled,
      )

  unfoldable pub handle_start : List ℕ → StartEvent → CallState F X → CallState F X × Outcome
  handle_start default_backend ev call =
      let params = ev.custom_parameters in
      let supp = suppressor_config default_backend params in
      start_with supp params (o.new_stages supp (agc_target params) (tier_thresholds params))
        (record call {
          stream_sid = ev.stream_sid;
          call_sid = ev.call_sid;
          sample_rate = if is_zero ev.sample_rate then pos 8000 else ev.sample_rate;
        })
