-- ===== src/Pipeline.antt =====
-- pkg/audio/pipeline.go: the frames of a stream, from the input through the stages to the output.
pub mod Calls
pub mod Chunks
pub mod Counters
pub mod Frames
pub mod Invariant
pub mod Output
pub mod Steps
pub mod Tail
pub mod Tuning
pub mod Writing
use clear_stream.Prelude.{
  ℕ, ◌+◌, ◌-◌, ◌*◌, ◌/◌, ◌%◌, Bool, true, false, not, ◌&&◌, ◌||◌, Option, none, some, List, [], ◌∷◌,
  ◌++◌, if◌then◌else◌, ◌==◌, leb, take, length, replicate, u64, ℤ, pos, pos_part, leb_ℤ, Float, geb,
}
use clear_stream.Vad.{Vad}
use clear_stream.Vad.Adaptive.{AdaptiveVad, default_adaptive_vad}
use clear_stream.TurnEnd.{
  TurnEndTracker, OwnVad, plain_own, adaptive_own, own_is_speech, own_reset, own_set_threshold,
  observe, set_threshold, reset_tracker,
}
use clear_stream.TurnEnd
use clear_stream.Diarizer.{EnergyDiarizer, SpeakerLabel, process_frame, set_far_end_rms}
use clear_stream.Diarizer
use clear_stream.Session.Pcm.{int16_of, word_of}
use clear_stream.Pipeline.Frames.{frames_of}
use clear_stream.Pipeline.Steps.{
  Live, PipelineError, panics, bad_length, resample_input_failed, reducer_failed, suppress_failed,
  resample_output_failed, write_failed, Answer, done, stop, Step, continue, ◌>>=◌, answer, return,
}

abbrev pub frame_size_samples : ℕ
frame_size_samples = 160

abbrev pub frame_size_bytes : ℕ
frame_size_bytes = frame_size_samples * 2

abbrev pub processor_sample_rate : ℕ
processor_sample_rate = 16000

abbrev pub frame_48k_samples : ℕ
frame_48k_samples = 480

unfoldable pub bytes_to_int16 : List ℕ → List ℤ
bytes_to_int16 (lo ∷ hi ∷ rest) = int16_of lo hi ∷ bytes_to_int16 rest
bytes_to_int16 short = []

unfoldable pub int16_to_bytes : List ℤ → List ℕ
int16_to_bytes [] = []
int16_to_bytes (v ∷ rest) = word_of v % 256 ∷ word_of v / 256 ∷ int16_to_bytes rest

-- Which stages are there, and the rates; a rate that is not positive is left unset.
pub record PipelineConfig : Type 0 where
  pub input_sample_rate : ℤ
  pub sample_rate : ℤ
  pub has_aec : Bool
  pub has_tiered_nr : Bool
  pub has_noise_reducer : Bool
  pub has_suppressor : Bool
  pub is_passthrough : Bool
  pub has_agc : Bool
  pub has_limiter : Bool
  pub has_diarizer : Bool

-- The stages, the clocks and the writer, with a state of their own.
pub record Stages (X : Type 0) : Type 0 where
  pub resample : List ℤ → ℕ → ℕ → Option (List ℤ)
  pub cancel_echo : List ℤ → List ℤ → X → X × List ℤ
  pub tiered_nr : List ℤ → X → X × Option (List ℤ)
  pub noise_reducer : List ℤ → X → X × Option (List ℤ)
  pub suppress : List ℤ → X → X × Option (List ℤ)
  pub agc : List ℤ → X → X × List ℤ
  pub limiter : List ℤ → X → X × List ℤ
  pub down_3x : List ℤ → List ℤ → List ℤ × List ℤ
  pub up_3x : List ℤ → List ℤ → List ℤ × List ℤ
  pub down_history : ℕ
  pub up_history : ℕ
  pub now : X → X × ℕ
  pub now_ms : X → X × ℕ
  pub writes : List ℕ → X → X × Bool
  pub reset : X → X

pub record Pipeline (F X : Type 0) : Type 0 where
  pub buf : List ℕ
  pub live : Live F X

unfoldable pub input_rate : PipelineConfig → ℕ
input_rate cfg =
    if leb_ℤ cfg.input_sample_rate (pos 0)
    then (if leb_ℤ cfg.sample_rate (pos 0) then 8000 else pos_part cfg.sample_rate)
    else pos_part cfg.input_sample_rate

-- 10 ms at the input's rate.
unfoldable pub input_frame_bytes : ℕ → ℕ
input_frame_bytes rate =
    let n = frame_size_samples * rate / processor_sample_rate * 2 in
    if rate == processor_sample_rate
    then frame_size_bytes
    else if n == 0
    then frame_size_bytes
    else n

module _ {F X : Type 0} where
  abbrev pub with_stages : Live F X → X → Live F X
  with_stages l x = record l { stages = x }

  -- A stage that always answers, and one that may fail.
  unfoldable pub run_stage : (X → X × List ℤ) → Step (Live F X) (List ℤ)
  run_stage f l = let (x, samples) = f l.stages in (with_stages l x, done samples)

  unfoldable pub run_fallible : PipelineError → (X → X × Option (List ℤ)) → Step (Live F X) (List ℤ)
  run_fallible e f l = let (x, r) = f l.stages in answer e (with_stages l x, r)

  unfoldable pub resampled : PipelineError → Option (List ℤ) → Step (Live F X) (List ℤ)
  resampled e r l = answer e (l, r)

module _ {F X : Type 0} where
  -- The rest of the input waits for the next call, but for an error.
  abbrev pub keep_rest : List ℕ → Live F X × Answer Unit → Pipeline F X × Answer Unit
  keep_rest rest (l, done u) = (record { buf = rest; live = l }, done u)
  keep_rest rest (l, stop e) = (record { buf = []; live = l }, stop e)

module _ {F X : Type 0} ⦃fl : Float F⦄ (o : Stages X) (cfg : PipelineConfig) where
  unfoldable pub to_processor_rate : List ℤ → Step (Live F X) (List ℤ)
  to_processor_rate samples =
      let rate = input_rate cfg in
      if rate == processor_sample_rate
      then return samples
      else resampled resample_input_failed (o.resample samples rate processor_sample_rate)

  unfoldable pub cancel_echo : List ℤ → Step (Live F X) (List ℤ)
  cancel_echo samples l =
      if not l.bypassed && cfg.has_aec
      then run_stage (o.cancel_echo l.far_end samples) l
      else (l, done samples)

  -- The tiered reducer goes before the flat one.
  unfoldable pub reduce_noise : List ℤ → Step (Live F X) (List ℤ)
  reduce_noise samples l =
      if not l.bypassed && cfg.has_tiered_nr
      then run_fallible reducer_failed (o.tiered_nr samples) l
      else if not l.bypassed && cfg.has_noise_reducer
      then run_fallible reducer_failed (o.noise_reducer samples) l
      else (l, done samples)

  abbrev pub tracked : Live F X → Option (TurnEndTracker F) → Live F X × Answer Unit
  tracked l none = (l, stop panics)
  tracked l (some t) = (record l { turn_end = some t }, done tt)

  abbrev pub observe_with : List ℤ → Option (TurnEndTracker F) → Step (Live F X) Unit
  observe_with samples none l = (l, done tt)
  observe_with samples (some t) l =
      let (x, now) = o.now l.stages in tracked (with_stages l x) (observe now samples t)

  unfoldable pub observe_turn : List ℤ → Step (Live F X) Unit
  observe_turn samples l = observe_with samples l.turn_end l

  abbrev pub speech_with : List ℤ → Option (OwnVad F) → Step (Live F X) Bool
  speech_with samples none l = (l, done true)
  speech_with samples (some v) l =
      let (v', speech) = own_is_speech samples v in (record l { vad = some v' }, done speech)

  -- Whether the suppressor takes the frame: not a silent one.
  unfoldable pub is_for_suppressor : List ℤ → Step (Live F X) Bool
  is_for_suppressor samples l = if l.bypassed then (l, done false) else speech_with samples l.vad l

  unfoldable pub suppress_if : List ℤ → Bool → Step (Live F X) (List ℤ)
  suppress_if samples false l = (l, done samples)
  suppress_if samples true l =
      if cfg.has_suppressor
      then run_fallible suppress_failed (o.suppress samples) l
      else (l, stop panics)

  unfoldable pub apply_agc : List ℤ → Step (Live F X) (List ℤ)
  apply_agc samples l =
      if not l.bypassed && cfg.has_agc then run_stage (o.agc samples) l else (l, done samples)

  unfoldable pub apply_limiter : List ℤ → Step (Live F X) (List ℤ)
  apply_limiter samples l =
      if not l.bypassed && cfg.has_limiter
      then run_stage (o.limiter samples) l
      else (l, done samples)

  unfoldable pub to_input_rate : List ℤ → Step (Live F X) (List ℤ)
  to_input_rate samples =
      let rate = input_rate cfg in
      if rate == processor_sample_rate
      then return samples
      else resampled resample_output_failed (o.resample samples processor_sample_rate rate)

  abbrev pub diarize_with :
      (List ℤ → EnergyDiarizer F → EnergyDiarizer F)
      → List ℤ
      → Option (EnergyDiarizer F)
      → Step (Live F X) Unit
  diarize_with hear samples none l = (l, done tt)
  diarize_with hear samples (some d) l =
      let (x, now) = o.now_ms l.stages in
      let (d', label) = process_frame samples now (hear l.far_end d) in
      (record l { stages = x; diarizer = some d' }, done tt)

  -- The diarizer hears the far end first.
  unfoldable pub diarize : List ℤ → Step (Live F X) Unit
  diarize samples l = diarize_with set_far_end_rms samples l.diarizer l

  unfoldable pub count_frame : Bool → Step (Live F X) Unit
  count_frame true l = (
    record l {
      frames_processed = u64 (l.frames_processed + 1);
      frames_suppressed = u64 (l.frames_suppressed + 1);
    },
    done tt,
  )
  count_frame false l = (
    record l {
      frames_processed = u64 (l.frames_processed + 1);
      frames_silent = u64 (l.frames_silent + 1);
    },
    done tt,
  )

  unfoldable pub write_out : List ℤ → Step (Live F X) Unit
  write_out samples l =
      let bytes = int16_to_bytes samples in
      let (x, ok) = o.writes bytes l.stages in
      if ok
      then (record l { stages = x; out = l.out ++ bytes }, done tt)
      else (with_stages l x, stop write_failed)

  unfoldable pub finish_frame : Bool → List ℤ → Step (Live F X) Unit
  finish_frame used samples = do _ ← diarize samples; _ ← count_frame used; write_out samples

  unfoldable pub send_cleaned : Bool → List ℤ → Step (Live F X) Unit
  send_cleaned used cleaned = do
    gained ← apply_agc cleaned
    limited ← apply_limiter gained
    samples ← to_input_rate limited
    finish_frame used samples

  unfoldable pub clean_frame : List ℤ → Step (Live F X) Unit
  clean_frame reduced = do
    _ ← observe_turn reduced
    used ← is_for_suppressor reduced
    cleaned ← suppress_if reduced used
    send_cleaned used cleaned

  -- One frame of ProcessFrames.
  unfoldable pub process_one : List ℕ → Step (Live F X) Unit
  process_one frame = do
    input ← to_processor_rate (bytes_to_int16 frame)
    near ← cancel_echo input
    reduced ← reduce_noise near
    clean_frame reduced

  unfoldable pub process_all : List (List ℕ) → Step (Live F X) Unit
  process_all [] = return tt
  process_all (frame ∷ frames) = process_one frame >>= λ _. process_all frames

  unfoldable pub process_frames : List ℕ → Step (Pipeline F X) Unit
  process_frames input p =
      let (frames, rest) = frames_of (input_frame_bytes (input_rate cfg)) (p.buf ++ input) in
      keep_rest rest (process_all frames p.live)
