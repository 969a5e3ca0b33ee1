-- ===== src/Pipeline/Calls.antt =====
-- pkg/audio/pipeline.go: the calls beside ProcessFrames.
use clear_stream.Prelude.{
  ℕ, ◌+◌, Bool, true, false, not, ◌&&◌, Option, none, some, List, [], ◌∷◌, ◌++◌, if◌then◌else◌,
  ◌==◌, take, length, replicate, u64, ℤ, pos, leb_ℤ, Float, geb,
}
use clear_stream.Vad.Adaptive.{default_adaptive_vad}
use clear_stream.TurnEnd.{
  OwnVad, plain_own, adaptive_own, own_reset, own_set_threshold, set_threshold, reset_tracker,
  close,
}
use clear_stream.Diarizer.{reset}
use clear_stream.Pipeline.{
  Pipeline, PipelineConfig, Stages, frame_size_bytes, frame_48k_samples, bytes_to_int16,
  int16_to_bytes, observe_turn, speech_with, run_fallible, run_stage, diarize_with, with_stages,
}
use clear_stream.Pipeline.Steps.{
  Live, bad_length, reducer_failed, suppress_failed, write_failed, panics, Answer, done, stop, Step,
  ◌>>=◌, return,
}

-- VADConfig: a threshold or a hangover that is not positive stands for the default.
pub record VadConfig (F : Type 0) : Type 0 where
  pub energy_threshold : F
  pub hangover_frames : ℤ

module _ {F : Type 0} ⦃fl : Float F⦄ where
  -- NewPipeline: the detector that is given, or an adaptive one, or one of the configured energy.
  unfoldable pub vad_of_config : Option (OwnVad F) → Bool → Option (VadConfig F) → Option (OwnVad F)
  vad_of_config (some v) use_adaptive config = some v
  vad_of_config none true config = some (adaptive_own default_adaptive_vad)
  vad_of_config none false none = none
  vad_of_config none false (some c) = some (
      plain_own (record {
        threshold_rms =
            if geb (fl.of_int (pos 0)) c.energy_threshold
            then fl.of_int (pos 300)
            else c.energy_threshold;
        hangover_frames = if leb_ℤ c.hangover_frames (pos 0) then pos 8 else c.hangover_frames;
        hangover = pos 0;
        threshold_override = none;
      }))

abbrev pub silent_again : Option (List ℤ) → Option (List ℤ)
silent_again none = none
silent_again (some hist) = some (replicate (length hist) (pos 0))

-- Whether the session may forward payloads without decoding them.
unfoldable pub is_bypass : PipelineConfig → Bool
is_bypass cfg =
    cfg.is_passthrough
    && not cfg.has_aec
    && not cfg.has_agc
    && not cfg.has_noise_reducer
    && not cfg.has_tiered_nr
    && not cfg.has_diarizer

-- The bytes left, cut or padded to a frame at 16 kHz.
unfoldable pub padded : List ℕ → List ℕ
padded buf = take frame_size_bytes (buf ++ replicate frame_size_bytes 0)

-- The history of a filter, silence at first.
abbrev pub history : ℕ → Option (List ℤ) → List ℤ
history n none = replicate n (pos 0)
history n (some hist) = hist

module _ {F X : Type 0} where
  abbrev pub with_live : Pipeline F X → Live F X × Answer Unit → Pipeline F X × Answer Unit
  with_live p (l, a) = (record p { live = l }, a)

  unfoldable pub set_far_end : List ℤ → Live F X → Live F X
  set_far_end samples l = record l { far_end = samples }

  unfoldable pub set_bypass : Bool → Live F X → Live F X
  set_bypass b l = record l { bypassed = b }

  unfoldable pub reset_stats : Live F X → Live F X
  reset_stats l = record l { frames_processed = 0; frames_suppressed = 0; frames_silent = 0 }

  -- Close, which closes the channel of turn ends.
  unfoldable pub close_turn_end : Live F X → Live F X
  close_turn_end l = record l {
    turn_end = elim l.turn_end [ none ↦ none | some t ↦ some (close t) ];
  }

module _ {F X : Type 0} ⦃fl : Float F⦄ where
  -- SetVADThreshold: the detector before the suppressor, and that of the turn ends.
  unfoldable pub set_vad_threshold : F → Live F X → Live F X
  set_vad_threshold t l = record l {
    vad = elim l.vad [ none ↦ none | some v ↦ some (own_set_threshold t v) ];
    turn_end = elim l.turn_end [ none ↦ none | some e ↦ some (set_threshold t e) ];
  }

  -- Nothing of the stream before is left; the far end and the bypass stay.
  unfoldable pub reset_pipeline : Stages X → Pipeline F X → Pipeline F X
  reset_pipeline o p =
      let l = p.live in
      record {
        buf = [];
        live = reset_stats (record l {
          vad = elim l.vad [ none ↦ none | some v ↦ some (own_reset v) ];
          turn_end = elim l.turn_end [ none ↦ none | some t ↦ some (reset_tracker t) ];
          diarizer = elim l.diarizer [ none ↦ none | some d ↦ some (reset d) ];
          down_hist = silent_again l.down_hist;
          up_hist = silent_again l.up_hist;
          stages = o.reset l.stages;
        });
      }

module _ {F X : Type 0} ⦃fl : Float F⦄ (o : Stages X) (cfg : PipelineConfig) where
  unfoldable pub suppress_present : List ℤ → Step (Live F X) (List ℤ)
  suppress_present samples l =
      if cfg.has_suppressor
      then run_fallible suppress_failed (o.suppress samples) l
      else (l, stop panics)

  unfoldable pub write_bytes : List ℤ → Step (Live F X) Unit
  write_bytes samples l =
      let bytes = int16_to_bytes samples in
      let (x, ok) = o.writes bytes l.stages in
      if ok
      then (record l { stages = x; out = l.out ++ bytes }, done tt)
      else (with_stages l x, stop write_failed)

  unfoldable pub flush_bytes : List ℕ → Step (Pipeline F X) Unit
  flush_bytes [] p = (p, done tt)
  flush_bytes (c ∷ buf) p =
      with_live (record p { buf = [] })
        ((suppress_present (bytes_to_int16 (padded (c ∷ buf))) >>= write_bytes) p.live)

  unfoldable pub flush : Step (Pipeline F X) Unit
  flush p = flush_bytes p.buf p

  unfoldable pub down_48k : List ℤ → Step (Live F X) (List ℤ)
  down_48k frame l =
      let (down, hist) = o.down_3x frame (history o.down_history l.down_hist) in
      (
        record l {
          down_hist = some hist;
          up_hist = some (history o.up_history l.up_hist);
          frames_processed = u64 (l.frames_processed + 1);
        },
        done down,
      )

  -- The reducers, whether the pipeline is bypassed or not.
  unfoldable pub reduce_always : List ℤ → Step (Live F X) (List ℤ)
  reduce_always samples l =
      if cfg.has_tiered_nr
      then run_fallible reducer_failed (o.tiered_nr samples) l
      else if cfg.has_noise_reducer
      then run_fallible reducer_failed (o.noise_reducer samples) l
      else (l, done samples)

  unfoldable pub clean_48k : List ℤ → Bool → Step (Live F X) (List ℤ)
  clean_48k samples false l = (record l { frames_silent = u64 (l.frames_silent + 1) }, done samples)
  clean_48k samples true l =
      if cfg.has_suppressor
      then (run_fallible suppress_failed (o.suppress samples) >>= λ cleaned l'.
            (record l' { frames_suppressed = u64 (l'.frames_suppressed + 1) }, done cleaned))
          l
      else (l, done samples)

  unfoldable pub agc_always : List ℤ → Step (Live F X) (List ℤ)
  agc_always samples l = if cfg.has_agc then run_stage (o.agc samples) l else (l, done samples)

  unfoldable pub limit_always : List ℤ → Step (Live F X) (List ℤ)
  limit_always samples l =
      if cfg.has_limiter then run_stage (o.limiter samples) l else (l, done samples)

  unfoldable pub up_48k : List ℤ → Step (Live F X) (List ℤ)
  up_48k samples l =
      let (out, hist) = o.up_3x samples (history o.up_history l.up_hist) in
      (record l { up_hist = some hist }, done out)

  -- The diarizer hears no far end here.
  unfoldable pub diarize_48k : List ℤ → Step (Live F X) Unit
  diarize_48k samples l = diarize_with o cfg (λ far d. d) samples l.diarizer l

  -- One frame of 480 samples.
  unfoldable pub process_48k : List ℤ → Step (Live F X) (List ℤ)
  process_48k frame =
      if length frame == frame_48k_samples
      then (do
        down ← down_48k frame
        reduced ← reduce_always down
        _ ← observe_turn o cfg reduced
        speech ← (λ l. speech_with o cfg reduced l.vad l)
        cleaned ← clean_48k reduced speech
        gained ← agc_always cleaned
        limited ← limit_always gained
        out ← up_48k limited
        _ ← diarize_48k out
        return out)
      else λ l. (l, stop bad_length)
