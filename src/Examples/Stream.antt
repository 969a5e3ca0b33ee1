-- ===== src/Examples/Stream.antt =====
-- The theorems on the pipeline at concrete inputs: frames of two bytes, and stages that change nothing.
use clear_stream.Prelude.{
  ℕ, ◌+◌, ◌≡◌, refl, true, false, none, some, [], ◌∷◌, ◌++◌, replicate, ℤ, pos,
}
use clear_stream.Pipeline.{
  Pipeline, PipelineConfig, Stages, process_frames, input_rate, input_frame_bytes, bytes_to_int16,
  int16_to_bytes, run_stage, run_fallible, resampled, to_processor_rate, cancel_echo, reduce_noise,
  observe_turn, is_for_suppressor, suppress_if, apply_agc, apply_limiter, to_input_rate, diarize,
  count_frame, write_out, finish_frame, send_cleaned, clean_frame, process_one, process_all,
}
use clear_stream.Pipeline.Calls.{flush}
use clear_stream.Pipeline.Chunks.{process_frames-append}
use clear_stream.Pipeline.Counters.{IsCounted, process_frames-IsCounted}
use clear_stream.Pipeline.Frames.{frames_of, split_frames}
use clear_stream.Pipeline.Steps.{Live, continue, ◌>>=◌}
use clear_stream.Pipeline.Output.{process_frames-buffers}
use clear_stream.Pipeline.Tail.{flush-forgets}
use clear_stream.Examples.{thousandths}

abbrev pub stages : Stages ℕ
stages = record {
  resample = λ s from to. some s;
  cancel_echo = λ far s x. (x, s);
  tiered_nr = λ s x. (x, some s);
  noise_reducer = λ s x. (x, some s);
  suppress = λ s x. (x + 1, some s);
  agc = λ s x. (x, s);
  limiter = λ s x. (x, s);
  down_3x = λ s h. (s, h);
  up_3x = λ s h. (s, h);
  down_history = 2;
  up_history = 2;
  now = λ x. (x, 0);
  now_ms = λ x. (x, 0);
  writes = λ bytes x. (x, true);
  reset = λ x. 0;
}

abbrev pub setup : PipelineConfig
setup = record {
  input_sample_rate = pos 100;
  sample_rate = pos 0;
  has_aec = false;
  has_tiered_nr = false;
  has_noise_reducer = true;
  has_suppressor = true;
  is_passthrough = false;
  has_agc = true;
  has_limiter = false;
  has_diarizer = false;
}

abbrev pub fresh : Live ℤ ℕ
fresh = record {
  vad = none;
  turn_end = none;
  diarizer = none;
  far_end = [];
  bypassed = false;
  frames_processed = 0;
  frames_suppressed = 0;
  frames_silent = 0;
  down_hist = none;
  up_hist = none;
  stages = 0;
  out = [];
}

abbrev pub empty : Pipeline ℤ ℕ
empty = record { buf = []; live = fresh }

abbrev after_one : Pipeline ℤ ℕ
after_one = record {
  buf = 5 ∷ [];
  live = record fresh { frames_processed = 1; frames_suppressed = 1; stages = 1; out = 1 ∷ 2 ∷ [] };
}

process_frames-append_example :
    process_frames ⦃fl = thousandths⦄ stages setup ((1 ∷ 2 ∷ 5 ∷ []) ++ (6 ∷ 7 ∷ [])) empty
    ≡ process_frames ⦃fl = thousandths⦄ stages setup (6 ∷ 7 ∷ []) after_one
unfolding process_frames frames_of split_frames input_rate input_frame_bytes bytes_to_int16
    int16_to_bytes run_stage run_fallible resampled to_processor_rate cancel_echo reduce_noise
    observe_turn is_for_suppressor suppress_if apply_agc apply_limiter to_input_rate diarize
    count_frame write_out finish_frame send_cleaned clean_frame process_one process_all continue
    ◌>>=◌
process_frames-append_example =
    process_frames-append ⦃fl = thousandths⦄ stages setup (1 ∷ 2 ∷ 5 ∷ []) (6 ∷ 7 ∷ []) empty
      after_one refl

process_frames-buffers_example :
    let once =
      process_frames ⦃fl = thousandths⦄ stages setup ((1 ∷ 2 ∷ 5 ∷ []) ++ (6 ∷ 7 ∷ [])) empty in
    let again =
      process_frames ⦃fl = thousandths⦄ stages setup
        (6 ∷ 7 ∷ [])
        (record after_one { live = record after_one.live { out = [] } }) in
    (once.0.live.out ≡ after_one.live.out ++ again.0.live.out) × (once.1 ≡ again.1)
unfolding process_frames frames_of split_frames input_rate input_frame_bytes bytes_to_int16
    int16_to_bytes run_stage run_fallible resampled to_processor_rate cancel_echo reduce_noise
    observe_turn is_for_suppressor suppress_if apply_agc apply_limiter to_input_rate diarize
    count_frame write_out finish_frame send_cleaned clean_frame process_one process_all continue
    ◌>>=◌
process_frames-buffers_example =
    process_frames-buffers ⦃fl = thousandths⦄ stages setup (1 ∷ 2 ∷ 5 ∷ []) (6 ∷ 7 ∷ []) empty
      after_one refl

process_frames-IsCounted_example :
    IsCounted (process_frames ⦃fl = thousandths⦄ stages setup (1 ∷ 2 ∷ 5 ∷ []) empty).0.live
process_frames-IsCounted_example =
    process_frames-IsCounted ⦃fl = thousandths⦄ stages setup (1 ∷ 2 ∷ 5 ∷ []) empty refl

flush-forgets_example :
    flush ⦃fl = thousandths⦄ stages setup
      (record { buf = replicate 320 1 ++ (2 ∷ 3 ∷ []); live = fresh })
    ≡ flush ⦃fl = thousandths⦄ stages setup (record { buf = replicate 320 1; live = fresh })
flush-forgets_example =
    flush-forgets ⦃fl = thousandths⦄ stages setup (replicate 320 1) (2 ∷ 3 ∷ []) fresh refl
