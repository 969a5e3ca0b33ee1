-- ===== src/Pipeline/Invariant.antt =====
-- pkg/audio/pipeline.go, ProcessFrames: what every step of a frame keeps, the counters and the calm of a
-- pipeline that has a suppressor and no tracker of turn ends.
use clear_stream.Prelude.{
  ◌+◌, ◌≡◌, ◌≢◌, refl, inl, inr, Bool, true, false, not, ◌&&◌, Option, none, some, List, ◌==◌,
  if◌then◌else◌, u64, ℤ, Float, Bool-cases, arith, sym, ◌∙◌,
}
use clear_stream.TurnEnd.{TurnEndTracker, OwnVad, observe}
use clear_stream.Diarizer.{EnergyDiarizer}
use clear_stream.Pipeline.{
  PipelineConfig, Stages, to_processor_rate, cancel_echo, reduce_noise, observe_turn, observe_with,
  tracked, is_for_suppressor, speech_with, suppress_if, apply_agc, apply_limiter, to_input_rate,
  diarize, diarize_with, count_frame, write_out, run_stage, run_fallible, resampled,
  processor_sample_rate, input_rate, int16_to_bytes,
}
use clear_stream.Pipeline.Steps.{
  Live, PipelineError, is_panic, Answer, done, stop, Step, continue, ◌>>=◌, answer, return,
}

module _ {F X : Type 0} where
  -- Every frame that was processed was suppressed or silent, up to the wrap-around of a uint64.
  abbrev pub IsCounted : Live F X → Type 0
  IsCounted l = l.frames_processed ≡ u64 (l.frames_suppressed + l.frames_silent)

  -- For a calm pipeline, there is no tracker.
  abbrev pub IsFit : Bool → Live F X → Type 0
  IsFit calm l = IsCounted l × (calm ≡ true → l.turn_end ≡ none)

-- No panic, if the pipeline is calm.
abbrev pub IsFine : {A : Type 0} → Bool → Answer A → Type 0
IsFine calm (done a) = Unit
IsFine calm (stop e) = calm ≡ true → is_panic e ≡ false

module _ {F X : Type 0} (calm : Bool) where
  pub record Keeps {A : Type 0} (m : Step (Live F X) A) : Type 0 where
    pub keeps : (l : Live F X) → IsFit calm l → IsFit calm (m l).0 × IsFine calm (m l).1

  continue-Keeps :
      {A B : Type 0} (f : A → Step (Live F X) B) (r : Live F X × Answer A)
      → ((a : A) → Keeps (f a))
      → IsFit calm r.0
      → IsFine calm r.1
      → IsFit calm (continue f r).0 × IsFine calm (continue f r).1
  unfolding continue
  continue-Keeps f (l, done a) h c fine = (h a).keeps l c
  continue-Keeps f (l, stop e) h c fine = (c, fine)

  pub bind-Keeps :
      {A B : Type 0} (m : Step (Live F X) A) (f : A → Step (Live F X) B)
      → Keeps m
      → ((a : A) → Keeps (f a))
      → Keeps (m >>= f)
  unfolding ◌>>=◌
  bind-Keeps m f h k = record {
    keeps = λ l c. let (fit, fine) = h.keeps l c in continue-Keeps f (m l) k fit fine;
  }

  -- A choice of two steps.
  if-Keeps :
      {A : Type 0} (b : Live F X → Bool) (m n : Step (Live F X) A)
      → Keeps m
      → Keeps n
      → Keeps (λ l. if b l then m l else n l)
  if-Keeps b m n h k = record {
    keeps = λ l c. elim (Bool-cases (b l)) [
      | inl first ↦ rw first (h.keeps l c)
      | inr second ↦ rw second (k.keeps l c)
    ];
  }

  pub return-Keeps : {A : Type 0} (a : A) → Keeps (return a)
  return-Keeps a = record { keeps = λ l c. (c, tt) }

  run_stage-Keeps : (f : X → X × List ℤ) → Keeps (run_stage f)
  unfolding run_stage
  run_stage-Keeps f = record { keeps = λ l c. (c, tt) }

  answer-Keeps :
      {A : Type 0} (e : PipelineError) (o : Option A) (l : Live F X)
      → is_panic e ≡ false
      → IsFit calm l
      → IsFit calm (answer e (l, o)).0 × IsFine calm (answer e (l, o)).1
  answer-Keeps e none l other c = (c, λ h. other)
  answer-Keeps e (some a) l other c = (c, tt)

  run_fallible-Keeps :
      (e : PipelineError) (f : X → X × Option (List ℤ))
      → is_panic e ≡ false
      → Keeps (run_fallible e f)
  unfolding run_fallible
  run_fallible-Keeps e f other = record {
    keeps = λ l c. answer-Keeps e (f l.stages).1 (record l { stages = (f l.stages).0 }) other c;
  }

module _ {F X : Type 0} ⦃fl : Float F⦄ (calm : Bool) (o : Stages X) (cfg : PipelineConfig) where
  pub to_processor_rate-Keeps :
      (s : List ℤ) → Keeps {F = F} {X = X} calm (to_processor_rate o cfg s)
  unfolding to_processor_rate resampled
  to_processor_rate-Keeps s = record {
    keeps = λ l c. elim (Bool-cases (input_rate cfg == processor_sample_rate)) [
      | inl same ↦ rw same (c, tt)
      | inr other ↦
          rw other
            (answer-Keeps calm _ (o.resample s (input_rate cfg) processor_sample_rate) l refl c)
    ];
  }

  pub cancel_echo-Keeps : (s : List ℤ) → Keeps {F = F} {X = X} calm (cancel_echo o cfg s)
  unfolding cancel_echo
  cancel_echo-Keeps s =
      if-Keeps calm (λ l. not l.bypassed && cfg.has_aec)
        (λ l. run_stage (o.cancel_echo l.far_end s) l) (return s)
        (record { keeps = λ l c. (run_stage-Keeps calm (o.cancel_echo l.far_end s)).keeps l c })
        (return-Keeps calm s)

  pub reduce_noise-Keeps : (s : List ℤ) → Keeps {F = F} {X = X} calm (reduce_noise o cfg s)
  unfolding reduce_noise
  reduce_noise-Keeps s =
      if-Keeps calm (λ l. not l.bypassed && cfg.has_tiered_nr) _ _
        (run_fallible-Keeps calm _ (o.tiered_nr s) refl)
        (if-Keeps calm (λ l. not l.bypassed && cfg.has_noise_reducer) _ _
          (run_fallible-Keeps calm _ (o.noise_reducer s) refl) (return-Keeps calm s))

  -- A calm pipeline has no tracker.
  tracked-Keeps :
      (t : Option (TurnEndTracker F)) (l : Live F X)
      → IsCounted l
      → calm ≢ true
      → IsFit calm (tracked o cfg l t).0 × IsFine calm (tracked o cfg l t).1
  tracked-Keeps none l c loud = ((c, λ h. absurd (loud h)), λ h. absurd (loud h))
  tracked-Keeps (some t) l c loud = ((c, λ h. absurd (loud h)), tt)

  observe_with-Keeps :
      (s : List ℤ) (t : Option (TurnEndTracker F)) (l : Live F X)
      → l.turn_end ≡ t
      → IsFit calm l
      → IsFit calm (observe_with o cfg s t l).0 × IsFine calm (observe_with o cfg s t l).1
  observe_with-Keeps s none l e c = (c, tt)
  observe_with-Keeps s (some t) l e c =
      tracked-Keeps (observe (o.now l.stages).1 s t) (record l { stages = (o.now l.stages).0 }) c.0
        λ h. let no = sym e ∙ c.1 h in absurd (ground arith)

  speech_with-Keeps :
      (s : List ℤ) (v : Option (OwnVad F)) → Keeps {X = X} calm (speech_with o cfg s v)
  speech_with-Keeps s none = record { keeps = λ l c. (c, tt) }
  speech_with-Keeps s (some v) = record { keeps = λ l c. (c, tt) }

  pub is_for_suppressor-Keeps :
      (s : List ℤ) → Keeps {F = F} {X = X} calm (is_for_suppressor o cfg s)
  unfolding is_for_suppressor
  is_for_suppressor-Keeps s =
      if-Keeps calm (λ l. l.bypassed) _ (λ l. speech_with o cfg s l.vad l) (return-Keeps calm false)
        (record { keeps = λ l c. (speech_with-Keeps s l.vad).keeps l c })

  pub suppress_if-Keeps :
      (s : List ℤ) (b : Bool)
      → (calm ≡ true → cfg.has_suppressor ≡ true)
      → Keeps {F = F} {X = X} calm (suppress_if o cfg s b)
  unfolding suppress_if
  suppress_if-Keeps s false has = return-Keeps calm s
  suppress_if-Keeps s true has = elim (Bool-cases cfg.has_suppressor) [
    | inl there_is ↦ rw there_is (run_fallible-Keeps calm _ (o.suppress s) refl)
    | inr no_one ↦
        rw no_one
          (record { keeps = λ l c. (c, λ h. let no = sym no_one ∙ has h in absurd (ground arith)) })
  ]

  pub apply_agc-Keeps : (s : List ℤ) → Keeps {F = F} {X = X} calm (apply_agc o cfg s)
  unfolding apply_agc
  apply_agc-Keeps s =
      if-Keeps calm (λ l. not l.bypassed && cfg.has_agc) _ _ (run_stage-Keeps calm (o.agc s))
        (return-Keeps calm s)

  pub apply_limiter-Keeps : (s : List ℤ) → Keeps {F = F} {X = X} calm (apply_limiter o cfg s)
  unfolding apply_limiter
  apply_limiter-Keeps s =
      if-Keeps calm (λ l. not l.bypassed && cfg.has_limiter) _ _
        (run_stage-Keeps calm (o.limiter s)) (return-Keeps calm s)

  pub to_input_rate-Keeps : (s : List ℤ) → Keeps {F = F} {X = X} calm (to_input_rate o cfg s)
  unfolding to_input_rate resampled
  to_input_rate-Keeps s = record {
    keeps = λ l c. elim (Bool-cases (input_rate cfg == processor_sample_rate)) [
      | inl same ↦ rw same (c, tt)
      | inr other ↦
          rw other
            (answer-Keeps calm _ (o.resample s processor_sample_rate (input_rate cfg)) l refl c)
    ];
  }

  diarize_with-Keeps :
      (hear : List ℤ → EnergyDiarizer F → EnergyDiarizer F) (s : List ℤ)
      (d : Option (EnergyDiarizer F))
      → Keeps {X = X} calm (diarize_with o cfg hear s d)
  diarize_with-Keeps hear s none = record { keeps = λ l c. (c, tt) }
  diarize_with-Keeps hear s (some d) = record { keeps = λ l c. (c, tt) }

  pub count_frame-Keeps : (b : Bool) → Keeps {F = F} {X = X} calm (count_frame o cfg b)
  unfolding count_frame
  count_frame-Keeps true = record { keeps = λ l c. let counted = c.0 in ((omega arith, c.1), tt) }
  count_frame-Keeps false = record { keeps = λ l c. let counted = c.0 in ((omega arith, c.1), tt) }

  pub write_out-Keeps : (s : List ℤ) → Keeps {F = F} {X = X} calm (write_out o cfg s)
  unfolding write_out
  write_out-Keeps s = record {
    keeps = λ l c. elim (Bool-cases (o.writes (int16_to_bytes s) l.stages).1) [
      | inl ok ↦ rw ok (c, tt)
      | inr fails ↦ rw fails (c, λ h. refl)
    ];
  }

  pub observe_turn-Keeps : (s : List ℤ) → Keeps {F = F} {X = X} calm (observe_turn o cfg s)
  unfolding observe_turn
  observe_turn-Keeps s = record { keeps = λ l c. observe_with-Keeps s l.turn_end l refl c }

  pub diarize-Keeps : (s : List ℤ) → Keeps {F = F} {X = X} calm (diarize o cfg s)
  unfolding diarize
  diarize-Keeps s = record { keeps = λ l c. (diarize_with-Keeps _ s l.diarizer).keeps l c }
