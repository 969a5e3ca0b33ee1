-- ===== src/Diarizer/Segments.antt =====
-- pkg/audio/diarize.go: segments that follow each other, and what a frame does to them.
use clear_stream.Prelude.{
  ℕ, ◌≤◌, ◌≡◌, refl, inl, inr, false, Option, none, some, List, [], ◌∷◌, ◌++◌, Bool-cases, ℤ, pos,
  negsuc, sub_ℕ, leb_ℤ, Float, arith,
}
use clear_stream.Diarizer.{
  SpeakerLabel, near, far, silence, same_speaker, DiarizedSegment, EnergyDiarizer, speak,
  is_silence, end_speech, silence_since, stay_silent, classify,
}

abbrev pub LastDiffers : Option SpeakerLabel → SpeakerLabel → Type 0
LastDiffers none s = Unit
LastDiffers (some l) s = same_speaker l s ≡ false

-- Segments from one time to another, each from the end of the one before, by another speaker; and the
-- speaker of the last.
pub data Timeline {F : Type 0} (start : ℕ)
    : List (DiarizedSegment F) → ℕ → Option SpeakerLabel → Type 0 where
  nothing : Timeline start [] start none
  then_segment :
      {segs : List (DiarizedSegment F)} {a b : ℕ} {last : Option SpeakerLabel}
      → Timeline start segs a last
      → (s : DiarizedSegment F) → s.start_ms ≡ a
      → s.end_ms ≡ pos b
      → a ≤ b
      → LastDiffers last s.speaker
      → Timeline start (segs ++ s ∷ []) b (some s.speaker)

abbrev pub IsSilentSince : ℤ → ℕ → ℕ → Type 0
IsSilentSince (pos s) start now = (start ≤ s) × (s ≤ now)
IsSilentSince (negsuc n) start now = Unit

-- The segments of a running session, the open one behind them.
pub record IsOnTime {F : Type 0} (d : EnergyDiarizer F) (now : ℕ) : Type 0 where
  pub last : Option SpeakerLabel
  pub closed : Timeline d.session_start_ms d.segments d.current.start_ms last
  pub differs : LastDiffers last d.current.speaker
  pub goes_on : d.current.end_ms ≡ negsuc 0
  pub begun : d.current.start_ms ≤ now
  pub silent : IsSilentSince d.sil_start_ms d.current.start_ms now

-- Before the first frame.
abbrev pub IsFresh : {F : Type 0} → EnergyDiarizer F → Type 0
IsFresh d =
    (d.segments ≡ [])
    × (d.current.speaker ≡ silence)
    × (d.current.end_ms ≡ negsuc 0)
    × (d.sil_start_ms ≡ negsuc 0)

pub not_silence : (s : SpeakerLabel) → is_silence s ≡ false → same_speaker s silence ≡ false
not_silence near h = refl
not_silence far h = refl
not_silence silence h = absurd (ground arith)

pub since_bounds :
    (sil : ℤ) (start before now : ℕ)
    → before ≤ now
    → start ≤ before
    → IsSilentSince sil start before
    → (start ≤ silence_since sil now) × (silence_since sil now ≤ now)
since_bounds (pos s) start before now h k p = (p.0, omega (arith, p.1))
since_bounds (negsuc n) start before now h k p = omega arith

module _ {F : Type 0} ⦃fl : Float F⦄ where
  pub speak-IsOnTime :
      (label : SpeakerLabel) (energy : F) (now before : ℕ) (d : EnergyDiarizer F)
      → before ≤ now
      → IsOnTime d before
      → IsOnTime (speak label energy now d) now
  unfolding speak
  speak-IsOnTime label energy now before d h p =
      elim (Bool-cases (same_speaker d.current.speaker label)) [
        | inl same ↦ rw same (record {
          last = p.last;
          closed = p.closed;
          differs = p.differs;
          goes_on = p.goes_on;
          begun = omega (arith, p.begun);
          silent = tt;
        })
        | inr other ↦ rw other (record {
          last = some d.current.speaker;
          closed =
              then_segment p.closed (record d.current { end_ms = pos now; energy_rms = energy })
                refl refl (omega (arith, p.begun)) p.differs;
          differs = other;
          goes_on = refl;
          begun = omega arith;
          silent = tt;
        })
      ]

  pub end_speech-IsOnTime :
      (since now before : ℕ) (d : EnergyDiarizer F)
      → before ≤ now
      → (d.current.start_ms ≤ since) × (since ≤ now)
      → IsOnTime d before
      → IsOnTime (end_speech since now d) now
  unfolding end_speech
  end_speech-IsOnTime since now before d h between p =
      let same : IsOnTime (record d { sil_start_ms = pos since }) now = record {
        last = p.last;
        closed = p.closed;
        differs = p.differs;
        goes_on = p.goes_on;
        begun = omega (arith, p.begun);
        silent = between;
      } in
      elim (Bool-cases (leb_ℤ d.cfg.speaker_change_gap_ms (sub_ℕ now since))) [
        | inl long ↦ elim (Bool-cases (is_silence d.current.speaker)) [
          | inl quiet ↦ simp (long, quiet) same
          | inr spoke ↦
              simp (long, spoke)
                (record {
                  last = some d.current.speaker;
                  closed =
                      then_segment p.closed (record d.current { end_ms = pos since }) refl refl
                        between.0 p.differs;
                  differs = not_silence d.current.speaker spoke;
                  goes_on = refl;
                  begun = between.1;
                  silent = (omega arith, between.1);
                })
        ]
        | inr short ↦ rw short same
      ]

  pub classify-IsOnTime :
      (r : SpeakerLabel × F) (now before : ℕ) (d : EnergyDiarizer F)
      → before ≤ now
      → IsOnTime d before
      → IsOnTime (classify r now d).0 now
  unfolding classify stay_silent
  classify-IsOnTime (silence, energy) now before d h p =
      end_speech-IsOnTime (silence_since d.sil_start_ms now) now before d h
        (since_bounds d.sil_start_ms d.current.start_ms before now h p.begun p.silent) p
  classify-IsOnTime (near, energy) now before d h p = speak-IsOnTime near energy now before d h p
  classify-IsOnTime (far, energy) now before d h p = speak-IsOnTime far energy now before d h p
