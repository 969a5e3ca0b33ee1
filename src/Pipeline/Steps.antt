-- ===== src/Pipeline/Steps.antt =====
-- pkg/audio/pipeline.go: the pipeline's state, and its steps, which change it and may fail.
use clear_stream.Prelude.{ℕ, Bool, true, false, Option, none, some, List, ℤ}
use clear_stream.TurnEnd.{TurnEndTracker, OwnVad}
use clear_stream.Diarizer.{EnergyDiarizer}

-- Why a frame goes no further. `panics` is a send on a closed channel, or a call of a suppressor that
-- is nil.
pub data PipelineError : Type 0 where
  bad_length resample_input_failed reducer_failed suppress_failed : PipelineError
  resample_output_failed write_failed panics : PipelineError

abbrev pub is_panic : PipelineError → Bool
is_panic panics = true
is_panic e = false

-- The live part of a pipeline. `stages` is the state of the stages that are parameters, and `out` what
-- the writer was given.
pub record Live (F X : Type 0) : Type 0 where
  pub vad : Option (OwnVad F)
  pub turn_end : Option (TurnEndTracker F)
  pub diarizer : Option (EnergyDiarizer F)
  pub far_end : List ℤ
  pub bypassed : Bool
  pub frames_processed : ℕ  -- uint64, as the next two
  pub frames_suppressed : ℕ
  pub frames_silent : ℕ
  pub down_hist : Option (List ℤ)
  pub up_hist : Option (List ℤ)
  pub stages : X
  pub out : List ℕ

pub data Answer (A : Type 0) : Type 0 where
  done : A → Answer A
  stop : PipelineError → Answer A

-- A step on a state.
abbrev pub Step : Type 0 → Type 0 → Type 0
Step S A = S → S × Answer A

module _ {S A B : Type 0} where
  unfoldable pub continue : (A → Step S B) → S × Answer A → S × Answer B
  continue f (s, done a) = f a s
  continue f (s, stop e) = (s, stop e)

  infixl 5 ◌>>=◌
  unfoldable pub ◌>>=◌ : Step S A → (A → Step S B) → Step S B
  (m >>= f) s = continue f (m s)

module _ {S A : Type 0} where
  -- A step that has an answer or fails.
  abbrev pub answer : PipelineError → S × Option A → S × Answer A
  answer e (s, none) = (s, stop e)
  answer e (s, some a) = (s, done a)

  abbrev pub return : A → Step S A
  return a s = (s, done a)
