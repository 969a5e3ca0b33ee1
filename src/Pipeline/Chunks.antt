-- ===== src/Pipeline/Chunks.antt =====
-- pkg/audio/pipeline.go, ProcessFrames: how the input is cut into calls makes no difference.
use mathlib.Core.List.{append_assoc}
use clear_stream.Prelude.{ℕ, ◌<◌, ◌≡◌, refl, sym, ap, ◌∙◌, List, [], ◌∷◌, ◌++◌, Float, arith}
use clear_stream.Pipeline.{
  Pipeline, PipelineConfig, Stages, process_frames, process_all, process_one, keep_rest,
  input_frame_bytes, input_rate,
}
use clear_stream.Pipeline.Frames.{frames_of, frames_of-append}
use clear_stream.Pipeline.Steps.{Live, Answer, done, stop, Step, continue, ◌>>=◌}

input_frame_bytes-positive : (rate : ℕ) → 0 < input_frame_bytes rate
unfolding input_frame_bytes
input_frame_bytes-positive rate = ground arith

continue_assoc :
    {S A B C : Type 0} (f : A → Step S B) (g : B → Step S C) (r : S × Answer A)
    → continue g (continue f r) ≡ continue (λ a s. continue g (f a s)) r
unfolding continue
continue_assoc f g (s, done a) = refl
continue_assoc f g (s, stop e) = refl

module _ {F X : Type 0} ⦃fl : Float F⦄ (o : Stages X) (cfg : PipelineConfig) where
  process_all-append :
      (fs gs : List (List ℕ)) (l : Live F X)
      → process_all o cfg (fs ++ gs) l
        ≡ continue (λ _. process_all o cfg gs) (process_all o cfg fs l)
  unfolding process_all continue ◌>>=◌
  process_all-append [] gs l = refl
  process_all-append (f ∷ fs) gs l =
      ap (λ k. continue k (process_one o cfg f l)) (λ i u l'. process_all-append fs gs l' i)
      ∙ sym (
          continue_assoc (λ _. process_all o cfg fs) (λ _. process_all o cfg gs)
            (process_one o cfg f l))

  goes_on :
      (first rest : List ℕ) (gs : List (List ℕ)) (r : Live F X × Answer Unit) (p : Pipeline F X)
      → keep_rest first r ≡ (p, done tt)
      → keep_rest rest (continue (λ _. process_all o cfg gs) r)
        ≡ keep_rest rest (process_all o cfg gs p.live)
  unfolding continue
  goes_on first rest gs (l, done u) p h = ap (λ q. keep_rest rest (process_all o cfg gs q.0.live)) h
  goes_on first rest gs (l, stop e) p h = absurd (ground (arith, h))

  rest_kept :
      (first : List ℕ) (r : Live F X × Answer Unit) (p : Pipeline F X)
      → keep_rest first r ≡ (p, done tt)
      → first ≡ p.buf
  rest_kept first (l, done u) p h = ap (λ q. q.0.buf) h
  rest_kept first (l, stop e) p h = absurd (ground (arith, h))

  -- Input that comes in two calls is processed as if it came in one, the counters, the state of every
  -- stage and the bytes written included, if the first call returns no error: no matter where in a
  -- frame it is cut.
  pub process_frames-append :
      (a b : List ℕ) (p p' : Pipeline F X)
      → process_frames o cfg a p ≡ (p', done tt)
      → process_frames o cfg (a ++ b) p ≡ process_frames o cfg b p'
  unfolding process_frames
  process_frames-append a b p p' h =
      let n = input_frame_bytes (input_rate cfg) in
      let first = frames_of n (p.buf ++ a) in
      let rest = frames_of n (first.1 ++ b) in
      let split : frames_of n (p.buf ++ (a ++ b)) ≡ (first.0 ++ rest.0, rest.1) =
        ap (frames_of n) (sym (append_assoc p.buf a b))
        ∙ frames_of-append n (p.buf ++ a) b (input_frame_bytes-positive (input_rate cfg)) in
      ap (λ s. keep_rest s.1 (process_all o cfg s.0 p.live)) split
      ∙ ap (keep_rest rest.1) (process_all-append first.0 rest.0 p.live)
      ∙ goes_on first.1 rest.1 rest.0 (process_all o cfg first.0 p.live) p' h
      ∙ ap (λ x. let s = frames_of n (x ++ b) in keep_rest s.1 (process_all o cfg s.0 p'.live))
          (rest_kept first.1 (process_all o cfg first.0 p.live) p' h)
