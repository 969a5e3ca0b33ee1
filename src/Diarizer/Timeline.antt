-- ===== src/Diarizer/Timeline.antt =====
-- pkg/audio/diarize.go: the segments follow each other without a gap.
use clear_stream.Prelude.{
  ℕ, ◌≤◌, ◌≡◌, refl, ◌∙◌, ◌⊎◌, inl, inr, true, false, none, List, [], ◌∷◌, Bool-cases, ℤ, sub_ℕ,
  leb_ℤ, Float, arith,
}
use clear_stream.Diarizer.{
  SpeakerLabel, near, far, silence, same_speaker, EnergyDiarizer, EnergyDiarizerConfig,
  new_energy_diarizer, set_far_end_rms, label_of, speak, is_silence, end_speech, silence_since,
  stay_silent, start_session, classify, process_frame, reset, rms,
}
pub use clear_stream.Diarizer.Segments.{
  LastDiffers, Timeline, nothing, then_segment, IsSilentSince, IsOnTime, IsFresh,
}
use clear_stream.Diarizer.Segments.{classify-IsOnTime}

module _ {F : Type 0} ⦃fl : Float F⦄ where
  -- Before the first frame, or running.
  abbrev pub IsGood : EnergyDiarizer F → ℕ → Type 0
  IsGood d now = ((d.started ≡ false) × IsFresh d) ⊎ ((d.started ≡ true) × IsOnTime d now)

  speak-started :
      (label : SpeakerLabel) (energy : F) (now : ℕ) (d : EnergyDiarizer F)
      → (speak label energy now d).started ≡ d.started
  unfolding speak
  speak-started label energy now d = elim (Bool-cases (same_speaker d.current.speaker label)) [
    | inl same ↦ rw same refl
    | inr other ↦ rw other refl
  ]

  end_speech-started :
      (since now : ℕ) (d : EnergyDiarizer F) → (end_speech since now d).started ≡ d.started
  unfolding end_speech
  end_speech-started since now d =
      elim (Bool-cases (leb_ℤ d.cfg.speaker_change_gap_ms (sub_ℕ now since))) [
        | inl long ↦ elim (Bool-cases (is_silence d.current.speaker)) [
          | inl quiet ↦ simp (long, quiet) refl
          | inr spoke ↦ simp (long, spoke) refl
        ]
        | inr short ↦ rw short refl
      ]

  classify-started :
      (r : SpeakerLabel × F) (now : ℕ) (d : EnergyDiarizer F)
      → (classify r now d).0.started ≡ d.started
  unfolding classify stay_silent
  classify-started (silence, energy) now d =
      end_speech-started (silence_since d.sil_start_ms now) now d
  classify-started (near, energy) now d = speak-started near energy now d
  classify-started (far, energy) now d = speak-started far energy now d

  begin : (d : EnergyDiarizer F) (now : ℕ) → EnergyDiarizer F
  begin d now = record d {
    session_start_ms = now;
    started = true;
    current = record d.current { start_ms = now };
  }

  begin-IsOnTime : (d : EnergyDiarizer F) (now : ℕ) → IsFresh d → IsOnTime (begin d now) now
  unfolding begin
  begin-IsOnTime d now (empty, quiet, ongoing, sil) = record {
    last = none;
    closed = rw empty nothing;
    differs = tt;
    goes_on = ongoing;
    begun = omega arith;
    silent = rw sil tt;
  }

  process_frame-IsGood :
      (samples : List ℤ) (now before : ℕ) (d : EnergyDiarizer F)
      → before ≤ now
      → IsGood d before
      → IsGood (process_frame samples now d).0 now
  unfolding process_frame start_session begin
  process_frame-IsGood samples now before d h (inl (fresh, p)) =
      let r = label_of (rms samples) d in
      simp fresh (
        inr (
          classify-started r now (begin d now),
          classify-IsOnTime r now now (begin d now) (omega arith) (begin-IsOnTime d now p),
        ))
  process_frame-IsGood samples now before d h (inr (going, p)) =
      let r = label_of (rms samples) d in
      simp going (inr (classify-started r now d ∙ going, classify-IsOnTime r now before d h p))

  set_far_end_rms-IsGood :
      (samples : List ℤ) (now : ℕ) (d : EnergyDiarizer F)
      → IsGood d now
      → IsGood (set_far_end_rms samples d) now
  unfolding set_far_end_rms
  set_far_end_rms-IsGood samples now d (inl p) = inl p
  set_far_end_rms-IsGood samples now d (inr (going, p)) = inr (
    going,
    record {
      last = p.last;
      closed = p.closed;
      differs = p.differs;
      goes_on = p.goes_on;
      begun = p.begun;
      silent = p.silent;
    },
  )

  reset-IsGood : (now : ℕ) (d : EnergyDiarizer F) → IsGood (reset d) now
  unfolding reset
  reset-IsGood now d = inl (refl, (refl, refl, refl, refl))

-- The calls of a diarizer.
pub data Call : Type 0 where
  far_end : List ℤ → Call
  frame : List ℤ → ℕ → Call
  reset_all : Call

-- The time does not go back.
abbrev pub IsForward : ℕ → List Call → Type 0
IsForward now [] = Unit
IsForward now (far_end samples ∷ calls) = IsForward now calls
IsForward now (frame samples t ∷ calls) = (now ≤ t) × IsForward t calls
IsForward now (reset_all ∷ calls) = IsForward now calls

-- The time of the last frame.
abbrev pub last_time : ℕ → List Call → ℕ
last_time now [] = now
last_time now (far_end samples ∷ calls) = last_time now calls
last_time now (frame samples t ∷ calls) = last_time t calls
last_time now (reset_all ∷ calls) = last_time now calls

module _ {F : Type 0} ⦃fl : Float F⦄ where
  unfoldable pub call : Call → EnergyDiarizer F → EnergyDiarizer F
  call (far_end samples) d = set_far_end_rms samples d
  call (frame samples t) d = (process_frame samples t d).0
  call reset_all d = reset d

  unfoldable pub run : List Call → EnergyDiarizer F → EnergyDiarizer F
  run [] d = d
  run (c ∷ calls) d = run calls (call c d)

  run-IsGood :
      (calls : List Call) (now : ℕ) (d : EnergyDiarizer F)
      → IsForward now calls
      → IsGood d now
      → IsGood (run calls d) (last_time now calls)
  unfolding run call
  run-IsGood [] now d h p = p
  run-IsGood (far_end samples ∷ calls) now d h p =
      run-IsGood calls now (set_far_end_rms samples d) h (set_far_end_rms-IsGood samples now d p)
  run-IsGood (frame samples t ∷ calls) now d (le, h) p =
      run-IsGood calls t (process_frame samples t d).0 h (process_frame-IsGood samples t now d le p)
  run-IsGood (reset_all ∷ calls) now d h p = run-IsGood calls now (reset d) h (reset-IsGood now d)

  -- After any calls whose frame times do not go back, a new diarizer has not started or its closed
  -- segments run without a gap from the start of the session to the start of the open segment, each
  -- no earlier at its end than at its start and by another speaker than the one before; the open
  -- segment has no end, and another speaker than the last closed one.
  pub run-IsTimeline :
      (cfg : EnergyDiarizerConfig F) (calls : List Call)
      → IsForward 0 calls
      → IsGood (run calls (new_energy_diarizer cfg)) (last_time 0 calls)
  unfolding new_energy_diarizer
  run-IsTimeline cfg calls h =
      run-IsGood calls 0 (new_energy_diarizer cfg) h (inl (refl, (refl, refl, refl, refl)))
