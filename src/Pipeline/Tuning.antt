-- ===== src/Pipeline/Tuning.antt =====
-- pkg/audio/pipeline.go: a new pipeline, and the settings that change during a call.
use clear_stream.Prelude.{Bool, false, Option, none, some, [], if◌then◌else◌, ℤ, Float}
use clear_stream.TurnEnd.{
  VadEr, plain, adaptive, other, OwnVad, plain_own, adaptive_own, new_turn_end_tracker,
}
use clear_stream.Diarizer.{EnergyDiarizer}
use clear_stream.Pipeline.{Pipeline, PipelineConfig}
use clear_stream.Pipeline.Steps.{Live}
use clear_stream.Pipeline.Calls.{VadConfig, vad_of_config}

-- What the stages do with new settings: the thresholds of the tiered reducer, the level of the gain
-- control, and the aggressiveness of the flat reducer and of the tiered one's gate.
pub record Settings (F X : Type 0) : Type 0 where
  pub set_thresholds : F → F → X → X
  pub set_target_rms : F → X → X
  pub set_nr_aggressiveness : ℤ → X → X
  pub set_gate_aggressiveness : ℤ → X → X

abbrev pub as_vad_er : {F : Type 0} → Option (OwnVad F) → VadEr F
as_vad_er none = other
as_vad_er (some (plain_own v)) = plain v
as_vad_er (some (adaptive_own a)) = adaptive a

module _ {F X : Type 0} ⦃fl : Float F⦄ where
  -- NewPipeline; the stages start in the state that is given.
  unfoldable pub new_pipeline :
      Option (OwnVad F)
      → Bool
      → Option (VadConfig F)
      → ℤ
      → Option (EnergyDiarizer F)
      → X
      → Pipeline F X
  new_pipeline given use_adaptive_vad vad_config turn_end_buffer_size diarizer x =
      let vad = vad_of_config given use_adaptive_vad vad_config in
      record {
        buf = [];
        live = record {
          vad = vad;
          turn_end = new_turn_end_tracker turn_end_buffer_size (as_vad_er vad);
          diarizer = diarizer;
          far_end = [];
          bypassed = false;
          frames_processed = 0;
          frames_suppressed = 0;
          frames_silent = 0;
          down_hist = none;
          up_hist = none;
          stages = x;
          out = [];
        };
      }

module _ {F X : Type 0} (t : Settings F X) (cfg : PipelineConfig) where
  abbrev pub change_stages : (X → X) → Live F X → Live F X
  change_stages f l = record l { stages = f l.stages }

  unfoldable pub set_aggressiveness : ℤ → Live F X → Live F X
  set_aggressiveness n l =
      let flat = if cfg.has_noise_reducer then change_stages (t.set_nr_aggressiveness n) l else l in
      if cfg.has_tiered_nr then change_stages (t.set_gate_aggressiveness n) flat else flat

  unfoldable pub set_agc_target : F → Live F X → Live F X
  set_agc_target x l = if cfg.has_agc then change_stages (t.set_target_rms x) l else l

  abbrev pub retune : Option F → Live F X → Live F X
  retune none l = l
  retune (some x) l = set_agc_target x l

  -- The thresholds and the level that the new configuration has.
  unfoldable pub reconfigure : Option (F × F) → Option F → Live F X → Live F X
  reconfigure none agc l = retune agc l
  reconfigure (some (high, low)) agc l =
      retune agc (if cfg.has_tiered_nr then change_stages (t.set_thresholds high low) l else l)
