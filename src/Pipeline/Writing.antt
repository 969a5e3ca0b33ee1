-- ===== src/Pipeline/Writing.antt =====
-- pkg/audio/pipeline.go, ProcessFrames: what a step writes does not depend on what was written before.
use mathlib.Core.List.{append_assoc}
use clear_stream.Prelude.{
  ℕ, ◌≡◌, refl, ap, ◌∙◌, inl, inr, Bool, true, false, not, ◌&&◌, Option, none, some, List, ◌++◌,
  ◌==◌, if◌then◌else◌, ℤ, Float, Bool-cases,
}
use clear_stream.TurnEnd.{TurnEndTracker, OwnVad, observe}
use clear_stream.Diarizer.{EnergyDiarizer}
use clear_stream.Pipeline.{
  PipelineConfig, Stages, to_processor_rate, cancel_echo, reduce_noise, observe_turn, observe_with,
  tracked, is_for_suppressor, speech_with, suppress_if, apply_agc, apply_limiter, to_input_rate,
  diarize, diarize_with, count_frame, write_out, run_stage, run_fallible, resampled,
  processor_sample_rate, input_rate, int16_to_bytes,
}
use clear_stream.Pipeline.Steps.{
  Live, PipelineError, panics, Answer, done, stop, Step, continue, ◌>>=◌, answer, return,
}

module _ {F X : Type 0} where
  -- More output in front of what a live part has, and of what a step leaves.
  abbrev pub after : List ℕ → Live F X → Live F X
  after before l = record l { out = before ++ l.out }

  abbrev pub answer_after : {A : Type 0} → List ℕ → Live F X × Answer A → Live F X × Answer A
  answer_after before (l, a) = (after before l, a)

  pub record Adds {A : Type 0} (m : Step (Live F X) A) : Type 0 where
    pub adds : (before : List ℕ) (l : Live F X) → m (after before l) ≡ answer_after before (m l)

  continue-Adds :
      {A B : Type 0} (f : A → Step (Live F X) B) (before : List ℕ) (r : Live F X × Answer A)
      → ((a : A) → Adds (f a))
      → continue f (answer_after before r) ≡ answer_after before (continue f r)
  unfolding continue
  continue-Adds f before (l, done a) h = (h a).adds before l
  continue-Adds f before (l, stop e) h = refl

  pub bind-Adds :
      {A B : Type 0} (m : Step (Live F X) A) (f : A → Step (Live F X) B)
      → Adds m
      → ((a : A) → Adds (f a))
      → Adds (m >>= f)
  unfolding ◌>>=◌
  bind-Adds m f h k = record {
    adds = λ before l. ap (continue f) (h.adds before l) ∙ continue-Adds f before (m l) k;
  }

  chosen-Adds :
      {A : Type 0} (b : Bool) (before : List ℕ) (l : Live F X) (m n : Step (Live F X) A)
      → Adds m
      → Adds n
      → (if b then m (after before l) else n (after before l))
        ≡ answer_after before (if b then m l else n l)
  chosen-Adds true before l m n h k = h.adds before l
  chosen-Adds false before l m n h k = k.adds before l

  if-Adds :
      {A : Type 0} (b : Bool) (m n : Step (Live F X) A)
      → Adds m
      → Adds n
      → Adds (λ l. if b then m l else n l)
  if-Adds true m n h k = h
  if-Adds false m n h k = k

  -- A stage that is passed over in bypass.
  stage-Adds :
      {A : Type 0} (b : Bool) (m n : Step (Live F X) A)
      → Adds m
      → Adds n
      → Adds (λ l. if not l.bypassed && b then m l else n l)
  stage-Adds b m n h k = record {
    adds = λ before l. chosen-Adds (not l.bypassed && b) before l m n h k;
  }

  pub return-Adds : {A : Type 0} (a : A) → Adds (return a)
  return-Adds a = record { adds = λ before l. refl }

  stop-Adds : (A : Type 0) (e : PipelineError) → Adds {A = A} (λ l. (l, stop e))
  stop-Adds A e = record { adds = λ before l. refl }

  run_stage-Adds : (f : X → X × List ℤ) → Adds (run_stage f)
  unfolding run_stage
  run_stage-Adds f = record { adds = λ before l. refl }

  answer-Adds :
      {A : Type 0} (e : PipelineError) (before : List ℕ) (l : Live F X) (o : Option A)
      → answer e (after before l, o) ≡ answer_after before (answer e (l, o))
  answer-Adds e before l none = refl
  answer-Adds e before l (some a) = refl

  run_fallible-Adds : (e : PipelineError) (f : X → X × Option (List ℤ)) → Adds (run_fallible e f)
  unfolding run_fallible
  run_fallible-Adds e f = record {
    adds = λ before l. answer-Adds e before (record l { stages = (f l.stages).0 }) (f l.stages).1;
  }

  resampled-Adds : (e : PipelineError) (o : Option (List ℤ)) → Adds (resampled e o)
  unfolding resampled
  resampled-Adds e o = record { adds = λ before l. answer-Adds e before l o }

module _ {F X : Type 0} ⦃fl : Float F⦄ (o : Stages X) (cfg : PipelineConfig) where
  pub to_processor_rate-Adds : (s : List ℤ) → Adds {F = F} {X = X} (to_processor_rate o cfg s)
  unfolding to_processor_rate
  to_processor_rate-Adds s = elim (Bool-cases (input_rate cfg == processor_sample_rate)) [
    | inl same ↦ rw same (return-Adds s)
    | inr other ↦ rw other (resampled-Adds _ (o.resample s (input_rate cfg) processor_sample_rate))
  ]

  pub to_input_rate-Adds : (s : List ℤ) → Adds {F = F} {X = X} (to_input_rate o cfg s)
  unfolding to_input_rate
  to_input_rate-Adds s = elim (Bool-cases (input_rate cfg == processor_sample_rate)) [
    | inl same ↦ rw same (return-Adds s)
    | inr other ↦ rw other (resampled-Adds _ (o.resample s processor_sample_rate (input_rate cfg)))
  ]

  pub cancel_echo-Adds : (s : List ℤ) → Adds {F = F} {X = X} (cancel_echo o cfg s)
  unfolding cancel_echo
  cancel_echo-Adds s =
      stage-Adds cfg.has_aec (λ l. run_stage (o.cancel_echo l.far_end s) l) (return s)
        (record { adds = λ before l. (run_stage-Adds (o.cancel_echo l.far_end s)).adds before l })
        (return-Adds s)

  pub reduce_noise-Adds : (s : List ℤ) → Adds {F = F} {X = X} (reduce_noise o cfg s)
  unfolding reduce_noise
  reduce_noise-Adds s = stage-Adds cfg.has_tiered_nr _ _ (run_fallible-Adds _ (o.tiered_nr s)) (
      stage-Adds cfg.has_noise_reducer _ _ (run_fallible-Adds _ (o.noise_reducer s))
        (return-Adds s))

  tracked-Adds :
      (before : List ℕ) (l : Live F X) (t : Option (TurnEndTracker F))
      → tracked o cfg (after before l) t ≡ answer_after before (tracked o cfg l t)
  tracked-Adds before l none = refl
  tracked-Adds before l (some t) = refl

  observe_with-Adds :
      (s : List ℤ) (t : Option (TurnEndTracker F)) → Adds {X = X} (observe_with o cfg s t)
  observe_with-Adds s none = record { adds = λ before l. refl }
  observe_with-Adds s (some t) = record {
    adds = λ before l.
        tracked-Adds before (record l { stages = (o.now l.stages).0 })
          (observe (o.now l.stages).1 s t);
  }

  pub observe_turn-Adds : (s : List ℤ) → Adds {F = F} {X = X} (observe_turn o cfg s)
  unfolding observe_turn
  observe_turn-Adds s = record { adds = λ before l. (observe_with-Adds s l.turn_end).adds before l }

  speech_with-Adds : (s : List ℤ) (v : Option (OwnVad F)) → Adds {X = X} (speech_with o cfg s v)
  speech_with-Adds s none = record { adds = λ before l. refl }
  speech_with-Adds s (some v) = record { adds = λ before l. refl }

  pub is_for_suppressor-Adds : (s : List ℤ) → Adds {F = F} {X = X} (is_for_suppressor o cfg s)
  unfolding is_for_suppressor
  is_for_suppressor-Adds s = record {
    adds = λ before l.
        chosen-Adds l.bypassed before l (return false) (speech_with o cfg s l.vad)
          (return-Adds false) (speech_with-Adds s l.vad);
  }

  pub suppress_if-Adds : (s : List ℤ) (b : Bool) → Adds {F = F} {X = X} (suppress_if o cfg s b)
  unfolding suppress_if
  suppress_if-Adds s false = return-Adds s
  suppress_if-Adds s true =
      if-Adds cfg.has_suppressor _ _ (run_fallible-Adds _ (o.suppress s))
        (stop-Adds (List ℤ) panics)

  pub apply_agc-Adds : (s : List ℤ) → Adds {F = F} {X = X} (apply_agc o cfg s)
  unfolding apply_agc
  apply_agc-Adds s = stage-Adds cfg.has_agc _ _ (run_stage-Adds (o.agc s)) (return-Adds s)

  pub apply_limiter-Adds : (s : List ℤ) → Adds {F = F} {X = X} (apply_limiter o cfg s)
  unfolding apply_limiter
  apply_limiter-Adds s =
      stage-Adds cfg.has_limiter _ _ (run_stage-Adds (o.limiter s)) (return-Adds s)

  diarize_with-Adds :
      (hear : List ℤ → EnergyDiarizer F → EnergyDiarizer F) (s : List ℤ)
      (d : Option (EnergyDiarizer F))
      → Adds {X = X} (diarize_with o cfg hear s d)
  diarize_with-Adds hear s none = record { adds = λ before l. refl }
  diarize_with-Adds hear s (some d) = record { adds = λ before l. refl }

  pub diarize-Adds : (s : List ℤ) → Adds {F = F} {X = X} (diarize o cfg s)
  unfolding diarize
  diarize-Adds s = record { adds = λ before l. (diarize_with-Adds _ s l.diarizer).adds before l }

  pub count_frame-Adds : (b : Bool) → Adds {F = F} {X = X} (count_frame o cfg b)
  unfolding count_frame
  count_frame-Adds true = record { adds = λ before l. refl }
  count_frame-Adds false = record { adds = λ before l. refl }

  pub write_out-Adds : (s : List ℤ) → Adds {F = F} {X = X} (write_out o cfg s)
  unfolding write_out
  write_out-Adds s = record {
    adds = λ before l. elim (Bool-cases (o.writes (int16_to_bytes s) l.stages).1) [
      | inl ok ↦ rw ok (
          ap
            (λ out.
              (record l { stages = (o.writes (int16_to_bytes s) l.stages).0; out = out }, done tt))
            (append_assoc before l.out (int16_to_bytes s)))
      | inr fails ↦ rw fails refl
    ];
  }
