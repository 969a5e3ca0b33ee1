-- ===== src/Vad.antt =====
-- pkg/audio/vad.go: voice activity by the energy of a frame.
pub mod Adaptive
pub mod Hangover
use clear_stream.Prelude.{
  ℕ, suc, ◌-◌, Bool, true, false, Option, none, some, List, [], ◌∷◌, if◌then◌else◌, ◌||◌, length, ℤ,
  pos, negsuc, ltb_ℤ, sub_ℕ, Float, geb,
}

-- `threshold_override` holds what SetThresholdRMS stored, which is never 0.
pub record Vad (F : Type 0) : Type 0 where
  pub threshold_rms : F
  pub hangover_frames : ℤ
  pub hangover : ℤ
  pub threshold_override : Option F

-- a - 1
abbrev pub pred_ℤ : ℤ → ℤ
pred_ℤ (pos n) = sub_ℕ n 1
pred_ℤ (negsuc n) = negsuc (suc n)

abbrev pub or_field : {F : Type 0} → Option F → F → F
or_field none field = field
or_field (some t) field = t

unfoldable pub threshold : {F : Type 0} → Vad F → F
threshold v = or_field v.threshold_override v.threshold_rms

-- IsSpeech once the energy is known to be high or not.
unfoldable pub decide : {F : Type 0} → Bool → Vad F → Vad F × Bool
decide true v = (record v { hangover = v.hangover_frames }, true)
decide false v =
    if ltb_ℤ (pos 0) v.hangover
    then (record v { hangover = pred_ℤ v.hangover }, true)
    else (v, false)

unfoldable pub reset : {F : Type 0} → Vad F → Vad F
reset v = record v { hangover = pos 0 }

module _ {F : Type 0} ⦃fl : Float F⦄ where
  sum_squares : F → List ℤ → F
  sum_squares sum [] = sum
  sum_squares sum (s ∷ frame) = let f = fl.of_int s in sum_squares (fl.add sum (fl.mul f f)) frame

  -- The root of the mean of the squares.
  unfoldable pub rms_energy : List ℤ → F
  unfolding sum_squares
  rms_energy [] = fl.of_int (pos 0)
  rms_energy (s ∷ frame) =
      fl.sqrt (
        fl.div (sum_squares (fl.of_int (pos 0)) (s ∷ frame)) (fl.of_int (pos (length (s ∷ frame)))))

  -- a <= 0
  abbrev pub not_positive : F → Bool
  not_positive a = geb (fl.of_int (pos 0)) a

  unfoldable pub set_threshold_rms : F → Vad F → Vad F
  set_threshold_rms t v =
      if not_positive t then v else record v { threshold_rms = t; threshold_override = some t }

  abbrev pub default_vad : Vad F
  default_vad = record {
    threshold_rms = fl.of_int (pos 300);
    hangover_frames = pos 8;
    hangover = pos 0;
    threshold_override = none;
  }

  unfoldable pub is_speech : List ℤ → Vad F → Vad F × Bool
  is_speech frame v = decide (geb (rms_energy frame) (threshold v)) v
