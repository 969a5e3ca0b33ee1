-- ===== src/Pipeline/Output.antt =====
-- pkg/audio/pipeline.go, ProcessFrames: the output of input that comes in several calls.
use mathlib.Core.List.{append-nil}
use clear_stream.Prelude.{ℕ, ◌≡◌, refl, sym, ap, ◌∙◌, Bool, List, [], ◌∷◌, ◌++◌, ℤ, Float}
use clear_stream.Pipeline.{
  Pipeline, PipelineConfig, Stages, process_frames, process_all, process_one, finish_frame,
  send_cleaned, clean_frame, keep_rest, input_frame_bytes, to_processor_rate, cancel_echo,
  reduce_noise, observe_turn, is_for_suppressor, suppress_if, apply_agc, apply_limiter,
  to_input_rate, diarize, count_frame, input_rate, bytes_to_int16,
}
use clear_stream.Pipeline.Chunks.{process_frames-append}
use clear_stream.Pipeline.Frames.{frames_of}
use clear_stream.Pipeline.Steps.{Live, Answer, done, stop}
use clear_stream.Pipeline.Writing.{
  Adds, after, answer_after, bind-Adds, return-Adds, to_processor_rate-Adds, cancel_echo-Adds,
  reduce_noise-Adds, is_for_suppressor-Adds, suppress_if-Adds, apply_agc-Adds, apply_limiter-Adds,
  to_input_rate-Adds, count_frame-Adds, write_out-Adds, observe_turn-Adds, diarize-Adds,
}

module _ {F X : Type 0} ⦃fl : Float F⦄ (o : Stages X) (cfg : PipelineConfig) where
  finish_frame-Adds : (used : Bool) (s : List ℤ) → Adds {F = F} {X = X} (finish_frame o cfg used s)
  unfolding finish_frame
  finish_frame-Adds used s = bind-Adds (diarize o cfg s) _ (diarize-Adds o cfg s) λ v.
      bind-Adds (count_frame o cfg used) _ (count_frame-Adds o cfg used) λ w. write_out-Adds o cfg s

  send_cleaned-Adds : (used : Bool) (s : List ℤ) → Adds {F = F} {X = X} (send_cleaned o cfg used s)
  unfolding send_cleaned
  send_cleaned-Adds used s = bind-Adds (apply_agc o cfg s) _ (apply_agc-Adds o cfg s) λ gained.
      bind-Adds (apply_limiter o cfg gained) _ (apply_limiter-Adds o cfg gained) λ limited.
        bind-Adds (to_input_rate o cfg limited) _ (to_input_rate-Adds o cfg limited)
          λ samples. finish_frame-Adds used samples

  clean_frame-Adds : (s : List ℤ) → Adds {F = F} {X = X} (clean_frame o cfg s)
  unfolding clean_frame
  clean_frame-Adds s = bind-Adds (observe_turn o cfg s) _ (observe_turn-Adds o cfg s) λ u.
      bind-Adds (is_for_suppressor o cfg s) _ (is_for_suppressor-Adds o cfg s) λ used.
        bind-Adds (suppress_if o cfg s used) _ (suppress_if-Adds o cfg s used)
          λ cleaned. send_cleaned-Adds used cleaned

  process_one-Adds : (frame : List ℕ) → Adds {F = F} {X = X} (process_one o cfg frame)
  unfolding process_one
  process_one-Adds frame =
      bind-Adds (to_processor_rate o cfg (bytes_to_int16 frame)) _
        (to_processor_rate-Adds o cfg (bytes_to_int16 frame))
        λ input. bind-Adds (cancel_echo o cfg input) _ (cancel_echo-Adds o cfg input) λ near.
          bind-Adds (reduce_noise o cfg near) _ (reduce_noise-Adds o cfg near)
            λ reduced. clean_frame-Adds reduced

  process_all-Adds : (frames : List (List ℕ)) → Adds {F = F} {X = X} (process_all o cfg frames)
  unfolding process_all
  process_all-Adds [] = return-Adds tt
  process_all-Adds (frame ∷ frames) =
      bind-Adds (process_one o cfg frame) _ (process_one-Adds frame) λ u. process_all-Adds frames

  keep_rest-after :
      (rest : List ℕ) (before : List ℕ) (r : Live F X × Answer Unit)
      → ((keep_rest rest (answer_after before r)).0.live.out
          ≡ before ++ (keep_rest rest r).0.live.out)
        × ((keep_rest rest (answer_after before r)).1 ≡ (keep_rest rest r).1)
  keep_rest-after rest before (l, done u) = (refl, refl)
  keep_rest-after rest before (l, stop e) = (refl, refl)

  process_frames-after :
      (input before : List ℕ) (p : Pipeline F X)
      → let late = process_frames o cfg input (record p { live = after before p.live }) in
        (late.0.live.out ≡ before ++ (process_frames o cfg input p).0.live.out)
        × (late.1 ≡ (process_frames o cfg input p).1)
  unfolding process_frames
  process_frames-after input before p =
      let s = frames_of (input_frame_bytes (input_rate cfg)) (p.buf ++ input) in
      rw ((process_all-Adds s.0).adds before p.live)
        (keep_rest-after s.1 before (process_all o cfg s.0 p.live))

  -- Input that comes in two calls, the second of which has an empty buffer for its output, leaves in the
  -- two buffers together what it leaves in one when it comes at once, and the second call answers what
  -- the one call answers, if the first returns no error.
  pub process_frames-buffers :
      (a b : List ℕ) (p p' : Pipeline F X)
      → process_frames o cfg a p ≡ (p', done tt)
      → let once = process_frames o cfg (a ++ b) p in
        let again = process_frames o cfg b (record p' { live = record p'.live { out = [] } }) in
        (once.0.live.out ≡ p'.live.out ++ again.0.live.out) × (once.1 ≡ again.1)
  process_frames-buffers a b p p' h =
      let q : Pipeline F X = record p' { live = record p'.live { out = [] } } in
      let same : process_frames o cfg (a ++ b) p
          ≡ process_frames o cfg b (record q { live = after p'.live.out q.live }) =
        process_frames-append o cfg a b p p' h
        ∙ ap (λ out. process_frames o cfg b (record p' { live = record p'.live { out = out } }))
            (sym (append-nil p'.live.out)) in
      rw same (process_frames-after b p'.live.out q)
