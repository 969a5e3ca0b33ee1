-- ===== src/Examples/Audio.antt =====
-- The theorems on voice activity, turns, speakers, the pipeline and transcripts at concrete inputs.
use clear_stream.Prelude.{
  ℕ, ◌-◌, ◌≤◌, ◌≡◌, refl, true, false, none, some, List, [], ◌∷◌, ◌==◌, map, replicate, newest, ℤ,
  pos, negsuc, geb, arith,
}
use clear_stream.Vad.{Vad, decide, rms_energy, threshold}
use clear_stream.Vad.Hangover.{hears, held, is_loud, hears-held}
use clear_stream.Vad.Adaptive.{AdaptiveVad, is_speech_adaptive, with_decision, noise_floor, sort}
use clear_stream.Vad.Adaptive.Calibration.{
  hears_adaptive, IsCalibratedBy, hears_adaptive-IsCalibratedBy, is_speech_adaptive-margin,
}
use clear_stream.TurnEnd.{TurnEndTracker, plain, new_turn_end_tracker, clone_vad_for_turn_end}
use clear_stream.TurnEnd.Detection.{observes, own_hears, new_turn_end_tracker-observes}
use clear_stream.TurnEnd.Frames.{turn_ends}
use clear_stream.Diarizer.{
  EnergyDiarizerConfig, new_energy_diarizer, stats, process_frame, classify, label_of,
  start_session, speak, rms, set_far_end_rms, stay_silent, end_speech,
}
use clear_stream.Diarizer.Timeline.{Call, far_end, frame, IsGood, run, call, run-IsTimeline}
use clear_stream.Diarizer.Totals.{Sums, stats-Sums}
use clear_stream.Transcript.{lcs_matcher}
use clear_stream.Transcript.Longest.{Common, finished, skip_left, matched, lcs_matcher-Common}
use clear_stream.Examples.{thousandths}

abbrev loud : List ℤ
loud = pos 1000 ∷ pos 1000 ∷ []

abbrev quiet : List ℤ
quiet = pos 10 ∷ pos 10 ∷ []

abbrev detector : Vad ℤ
detector = record {
  threshold_rms = pos 300000;
  hangover_frames = pos 1;
  hangover = pos 0;
  threshold_override = none;
}

hears-held_example :
    hears ⦃fl = thousandths⦄ (loud ∷ quiet ∷ quiet ∷ []) detector
    ≡ held 1 [] (map (is_loud ⦃fl = thousandths⦄ detector) (loud ∷ quiet ∷ quiet ∷ []))
hears-held_example = hears-held ⦃fl = thousandths⦄ detector 1 (loud ∷ quiet ∷ quiet ∷ []) refl refl

abbrev adaptive_detector : AdaptiveVad ℤ
adaptive_detector = record {
  vad = detector;
  calibration_frames = pos 2;
  sensitivity_factor = pos 4500;
  min_speech_margin = pos 1500;
  calibrated = false;
  frame_count = 0;
  rms_window = [];
  total_frames = 0;
  speech_frames = 0;
}

hears_adaptive-IsCalibratedBy_example :
    let r = hears_adaptive ⦃fl = thousandths⦄ (quiet ∷ loud ∷ []) adaptive_detector in
    (r.1 ≡ false ∷ false ∷ [])
    × IsCalibratedBy ⦃fl = thousandths⦄ adaptive_detector
        (map (rms_energy ⦃fl = thousandths⦄) (quiet ∷ loud ∷ []))
        2
        r.0
hears_adaptive-IsCalibratedBy_example =
    hears_adaptive-IsCalibratedBy ⦃fl = thousandths⦄ adaptive_detector quiet (loud ∷ []) refl refl
      refl refl

abbrev calibrated_detector : AdaptiveVad ℤ
calibrated_detector = record adaptive_detector {
  vad = record detector { threshold_rms = pos 45000 };
  calibrated = true;
  rms_window = pos 10000 ∷ pos 12000 ∷ [];
}

above_margin :
    (x : ℤ)
    → geb ⦃fl = thousandths⦄ x (pos 45000) ≡ true
    → geb ⦃fl = thousandths⦄ x (pos 15000) ≡ true
above_margin (pos n) h = ground arith
above_margin (negsuc n) h = ground arith

is_speech_adaptive-margin_example :
    is_speech_adaptive ⦃fl = thousandths⦄ loud calibrated_detector
    ≡ with_decision
        (record calibrated_detector { total_frames = 1 })
        (decide
          (geb ⦃fl = thousandths⦄ (rms_energy ⦃fl = thousandths⦄ loud) (
            thousandths.mul
              (noise_floor ⦃fl = thousandths⦄ calibrated_detector.rms_window)
              (pos 1500)))
          calibrated_detector.vad)
unfolding threshold noise_floor sort
is_speech_adaptive-margin_example =
    is_speech_adaptive-margin ⦃fl = thousandths⦄ loud calibrated_detector refl refl above_margin

abbrev speech_then_silence : List (ℕ × List ℤ)
speech_then_silence = (1, loud) ∷ map (λ n. (n, quiet)) (replicate 20 2)

new_turn_end_tracker-observes_example :
    (t t' : TurnEndTracker ℤ) × (new_turn_end_tracker ⦃fl = thousandths⦄ (pos 2) (plain detector)
      ≡ some t)
    × (observes ⦃fl = thousandths⦄ speech_then_silence t ≡ some t')
    × (t'.events
        ≡ newest 2 (
            turn_ends [] (
              own_hears ⦃fl = thousandths⦄ speech_then_silence
                (clone_vad_for_turn_end ⦃fl = thousandths⦄ (plain detector)))))
new_turn_end_tracker-observes_example =
    new_turn_end_tracker-observes ⦃fl = thousandths⦄ 2 (plain detector) speech_then_silence
      (omega arith)

abbrev diarizer_config : EnergyDiarizerConfig ℤ
diarizer_config = record {
  silence_threshold = pos 10;
  speaker_change_gap_ms = pos 300;
  sample_rate = pos 16000;
}

abbrev talk : List Call
talk = frame loud 5 ∷ frame quiet 15 ∷ far_end loud ∷ frame quiet 25 ∷ []

run-IsTimeline_example :
    IsGood ⦃fl = thousandths⦄
      (run ⦃fl = thousandths⦄ talk (new_energy_diarizer ⦃fl = thousandths⦄ diarizer_config))
      25
run-IsTimeline_example =
    run-IsTimeline ⦃fl = thousandths⦄ diarizer_config talk
      (omega arith, (omega arith, (omega arith, tt)))

stats-Sums_example :
    let d = run ⦃fl = thousandths⦄ talk (new_energy_diarizer ⦃fl = thousandths⦄ diarizer_config) in
    Sums (stats 30 d) (d.current.start_ms - d.session_start_ms)
    × (d.session_start_ms ≤ d.current.start_ms)
    × (d.current.start_ms ≤ 25)
unfolding run call process_frame classify label_of start_session new_energy_diarizer speak rms
    set_far_end_rms stay_silent end_speech
stats-Sums_example =
    stats-Sums ⦃fl = thousandths⦄ diarizer_config talk 30
      (omega arith, (omega arith, (omega arith, tt))) refl

abbrev first_words : List ℕ
first_words = 1 ∷ 2 ∷ 3 ∷ []

lcs_matcher-Common_example :
    Common ◌==◌ first_words (1 ∷ 3 ∷ []) (lcs_matcher ◌==◌ first_words (1 ∷ 3 ∷ []))
    × (2 ≤ lcs_matcher ◌==◌ first_words (1 ∷ 3 ∷ []))
lcs_matcher-Common_example =
    lcs_matcher-Common ◌==◌ first_words (1 ∷ 3 ∷ []) 2
      (matched 1 1 refl (skip_left 2 (matched 3 3 refl finished)))
