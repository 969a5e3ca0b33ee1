-- ===== src/Vad/Adaptive.antt =====
-- pkg/audio/vad.go: the detector that measures the noise floor first.
pub mod Calibration
use clear_stream.Prelude.{
  ℕ, suc, ◌+◌, ◌-◌, Bool, true, false, not, Option, none, some, List, [], ◌∷◌, ◌++◌, if◌then◌else◌,
  ◌||◌, ◌&&◌, length, get_or, ℤ, pos, negsuc, pos_part, neg_part, leb_ℤ, ltb_ℤ, sub_ℕ, Float, geb,
}
use clear_stream.Vad.{Vad, default_vad, decide, is_speech, threshold, rms_energy, reset}

pub record AdaptiveVad (F : Type 0) : Type 0 where
  pub vad : Vad F
  pub calibration_frames : ℤ
  pub sensitivity_factor : F
  pub min_speech_margin : F
  pub calibrated : Bool
  pub frame_count : ℕ
  pub rms_window : List F
  pub total_frames : ℕ
  pub speech_frames : ℕ

-- The index of the 20th percentile, which the length bounds.
abbrev percentile_index : {F : Type 0} → Float F → ℕ → ℕ
percentile_index fl n =
    let idx = fl.to_int (fl.mul (fl.of_int (pos n)) (fl.ratio 20 100)) in
    if leb_ℤ (pos n) idx then n - 1 else pos_part idx

unfoldable pub count_speech : {F : Type 0} → Bool → AdaptiveVad F → AdaptiveVad F
count_speech true a = record a { speech_frames = a.speech_frames + 1 }
count_speech false a = a

unfoldable pub with_decision : {F : Type 0} → AdaptiveVad F → Vad F × Bool → AdaptiveVad F × Bool
with_decision a (v, speech) = (count_speech speech (record a { vad = v }), speech)

unfoldable pub reset_adaptive : {F : Type 0} → AdaptiveVad F → AdaptiveVad F
reset_adaptive a = record a {
  vad = reset a.vad;
  calibrated = false;
  frame_count = 0;
  rms_window = [];
  total_frames = 0;
  speech_frames = 0;
}

module _ {F : Type 0} ⦃fl : Float F⦄ where
  abbrev pub default_adaptive_vad : AdaptiveVad F
  default_adaptive_vad = record {
    vad = default_vad;
    calibration_frames = pos 50;
    sensitivity_factor = fl.ratio 45 10;
    min_speech_margin = fl.ratio 15 10;
    calibrated = false;
    frame_count = 0;
    rms_window = [];
    total_frames = 0;
    speech_frames = 0;
  }

  -- The order of sort.Float64s, which puts NaN first.
  abbrev less : F → F → Bool
  less a b = fl.lt a b || (not (fl.eq a a) && fl.eq b b)

  place : F → List F → List F
  place x [] = x ∷ []
  place x (y ∷ ys) = let later = place x ys in if less x y then x ∷ y ∷ ys else y ∷ later

  unfoldable pub sort : List F → List F
  unfolding place
  sort [] = []
  sort (x ∷ xs) = place x (sort xs)

  -- The 20th percentile of a window, 0 if it is empty.
  unfoldable pub noise_floor : List F → F
  unfolding sort
  noise_floor [] = fl.of_int (pos 0)
  noise_floor (x ∷ xs) =
      get_or (sort (x ∷ xs)) (percentile_index fl (length (x ∷ xs))) (fl.of_int (pos 0))

  unfoldable pub compute_threshold : List F → AdaptiveVad F → F
  compute_threshold [] a = a.vad.threshold_rms
  compute_threshold (x ∷ xs) a =
      let t = fl.mul (noise_floor (x ∷ xs)) a.sensitivity_factor in
      if fl.lt t (fl.of_int (pos 100)) then fl.of_int (pos 100) else t

  -- A frame of the calibration, which counts as silence; the last one sets the threshold.
  unfoldable pub calibrate : F → AdaptiveVad F → AdaptiveVad F
  calibrate rms a =
      let window = a.rms_window ++ rms ∷ [] in
      let taken = record a { rms_window = window; frame_count = a.frame_count + 1 } in
      if leb_ℤ a.calibration_frames (pos (a.frame_count + 1))
      then record taken {
        vad = record a.vad { threshold_rms = compute_threshold window a };
        calibrated = true;
      }
      else taken

  -- Whether the energy is far enough above the noise floor to be speech at once.
  unfoldable pub is_above_floor : F → AdaptiveVad F → Bool
  is_above_floor rms a =
      fl.lt (fl.of_int (pos 0)) a.min_speech_margin
      && geb rms (fl.mul (noise_floor a.rms_window) a.min_speech_margin)

  unfoldable pub is_speech_counted : List ℤ → AdaptiveVad F → AdaptiveVad F × Bool
  is_speech_counted frame a =
      let rms = rms_energy frame in
      if not a.calibrated
      then (calibrate rms a, false)
      else if is_above_floor rms a
      then with_decision a (decide true a.vad)
      else with_decision a (is_speech frame a.vad)

  unfoldable pub is_speech_adaptive : List ℤ → AdaptiveVad F → AdaptiveVad F × Bool
  is_speech_adaptive frame a =
      is_speech_counted frame (record a { total_frames = a.total_frames + 1 })

  -- SpeechRatio: of the frames after the calibration.
  unfoldable pub speech_ratio : AdaptiveVad F → F
  speech_ratio a =
      let post = pos a.total_frames in
      if leb_ℤ post a.calibration_frames
      then fl.of_int (pos 0)
      else fl.div (fl.of_int (pos a.speech_frames)) (
          fl.of_int (
            sub_ℕ (a.total_frames + neg_part a.calibration_frames) (pos_part a.calibration_frames)))

  unfoldable pub measured_floor : AdaptiveVad F → F
  measured_floor a = if not a.calibrated then fl.of_int (pos 0) else noise_floor a.rms_window

  -- QuickVAD, which keeps no state.
  unfoldable pub quick_vad : List ℤ → F → Bool
  quick_vad [] t = false
  quick_vad (s ∷ frame) t =
      geb (rms_energy (s ∷ frame)) (if geb (fl.of_int (pos 0)) t then fl.ratio 200 1 else t)
