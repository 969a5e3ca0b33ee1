-- ===== src/Pipeline/Counters.antt =====
-- pkg/audio/pipeline.go, ProcessFrames: the counters of the frames, and that a pipeline does not panic.
use clear_stream.Prelude.{
  ℕ, ◌≡◌, refl, Bool, true, false, none, List, [], ◌∷◌, ◌++◌, ℤ, Float, arith,
}
use clear_stream.Pipeline.{
  Pipeline, PipelineConfig, Stages, process_frames, process_all, process_one, finish_frame,
  send_cleaned, clean_frame, keep_rest, input_frame_bytes, to_processor_rate, cancel_echo,
  reduce_noise, observe_turn, is_for_suppressor, suppress_if, apply_agc, apply_limiter,
  to_input_rate, diarize, count_frame, input_rate, bytes_to_int16,
}
use clear_stream.Pipeline.Frames.{frames_of}
use clear_stream.Pipeline.Steps.{Live, Answer, done, stop}
pub use clear_stream.Pipeline.Invariant.{IsCounted, IsFine}
use clear_stream.Pipeline.Invariant.{
  IsFit, Keeps, bind-Keeps, return-Keeps, to_processor_rate-Keeps, cancel_echo-Keeps,
  reduce_noise-Keeps, observe_turn-Keeps, is_for_suppressor-Keeps, suppress_if-Keeps,
  apply_agc-Keeps, apply_limiter-Keeps, to_input_rate-Keeps, diarize-Keeps, count_frame-Keeps,
  write_out-Keeps,
}

module _ {F X : Type 0} ⦃fl : Float F⦄ (calm : Bool) (o : Stages X) (cfg : PipelineConfig) where
  finish_frame-Keeps :
      (used : Bool) (s : List ℤ) → Keeps {F = F} {X = X} calm (finish_frame o cfg used s)
  unfolding finish_frame
  finish_frame-Keeps used s = bind-Keeps calm (diarize o cfg s) _ (diarize-Keeps calm o cfg s) λ v.
      bind-Keeps calm (count_frame o cfg used) _ (count_frame-Keeps calm o cfg used)
        λ w. write_out-Keeps calm o cfg s

  send_cleaned-Keeps :
      (used : Bool) (s : List ℤ) → Keeps {F = F} {X = X} calm (send_cleaned o cfg used s)
  unfolding send_cleaned
  send_cleaned-Keeps used s =
      bind-Keeps calm (apply_agc o cfg s) _ (apply_agc-Keeps calm o cfg s) λ gained.
        bind-Keeps calm (apply_limiter o cfg gained) _ (apply_limiter-Keeps calm o cfg gained)
          λ limited.
            bind-Keeps calm (to_input_rate o cfg limited) _ (to_input_rate-Keeps calm o cfg limited)
              λ samples. finish_frame-Keeps used samples

  clean_frame-Keeps :
      (calm ≡ true → cfg.has_suppressor ≡ true)
      → (s : List ℤ) → Keeps {F = F} {X = X} calm (clean_frame o cfg s)
  unfolding clean_frame
  clean_frame-Keeps has s =
      bind-Keeps calm (observe_turn o cfg s) _ (observe_turn-Keeps calm o cfg s) λ u.
        bind-Keeps calm (is_for_suppressor o cfg s) _ (is_for_suppressor-Keeps calm o cfg s) λ used.
          bind-Keeps calm (suppress_if o cfg s used) _ (suppress_if-Keeps calm o cfg s used has)
            λ cleaned. send_cleaned-Keeps used cleaned

  process_one-Keeps :
      (calm ≡ true → cfg.has_suppressor ≡ true)
      → (frame : List ℕ) → Keeps {F = F} {X = X} calm (process_one o cfg frame)
  unfolding process_one
  process_one-Keeps has frame =
      bind-Keeps calm (to_processor_rate o cfg (bytes_to_int16 frame)) _
        (to_processor_rate-Keeps calm o cfg (bytes_to_int16 frame))
        λ input.
          bind-Keeps calm (cancel_echo o cfg input) _ (cancel_echo-Keeps calm o cfg input) λ near.
            bind-Keeps calm (reduce_noise o cfg near) _ (reduce_noise-Keeps calm o cfg near)
              λ reduced. clean_frame-Keeps has reduced

  process_all-Keeps :
      (calm ≡ true → cfg.has_suppressor ≡ true)
      → (frames : List (List ℕ)) → Keeps {F = F} {X = X} calm (process_all o cfg frames)
  unfolding process_all
  process_all-Keeps has [] = return-Keeps calm tt
  process_all-Keeps has (frame ∷ frames) =
      bind-Keeps calm (process_one o cfg frame) _ (process_one-Keeps has frame)
        λ u. process_all-Keeps has frames

  keep_rest-IsFit :
      (rest : List ℕ) (r : Live F X × Answer Unit)
      → IsFit calm r.0 × IsFine calm r.1
      → IsFit calm (keep_rest rest r).0.live × IsFine calm (keep_rest rest r).1
  keep_rest-IsFit rest (l, done u) h = h
  keep_rest-IsFit rest (l, stop e) h = h

  process_frames-IsFit :
      (calm ≡ true → cfg.has_suppressor ≡ true)
      → (input : List ℕ) (p : Pipeline F X) → IsFit calm p.live
      → IsFit calm (process_frames o cfg input p).0.live
        × IsFine calm (process_frames o cfg input p).1
  unfolding process_frames
  process_frames-IsFit has input p c =
      let s = frames_of (input_frame_bytes (input_rate cfg)) (p.buf ++ input) in
      keep_rest-IsFit s.1 (process_all o cfg s.0 p.live)
        ((process_all-Keeps has s.0).keeps p.live c)

module _ {F X : Type 0} ⦃fl : Float F⦄ (o : Stages X) (cfg : PipelineConfig) where
  -- Whatever the stages answer and whichever of them fail, the frames that were processed are those
  -- that were suppressed and those that were silent, after the input as before it.
  pub process_frames-IsCounted :
      (input : List ℕ) (p : Pipeline F X)
      → IsCounted p.live
      → IsCounted (process_frames o cfg input p).0.live
  process_frames-IsCounted input p c =
      (process_frames-IsFit false o cfg (λ h. absurd (ground arith)) input p
        (c, λ h. absurd (ground arith))).0.0

  -- A pipeline with a suppressor and without a tracker does not panic, and still has no tracker.
  pub process_frames-panics :
      (input : List ℕ) (p : Pipeline F X)
      → cfg.has_suppressor ≡ true
      → IsCounted p.live
      → p.live.turn_end ≡ none
      → ((process_frames o cfg input p).0.live.turn_end ≡ none)
        × IsFine true (process_frames o cfg input p).1
  process_frames-panics input p has c no_one =
      let r = process_frames-IsFit true o cfg (λ h. has) input p (c, λ h. no_one) in
      (r.0.1 refl, r.1)
