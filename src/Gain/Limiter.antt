-- ===== src/Gain/Limiter.antt =====
-- pkg/audio/limiter.go: the peak limiter.
use clear_stream.Prelude.{List, [], ◌∷◌, if◌then◌else◌, ℤ, pos, negsuc, Float}

record PeakLimiter (F : Type 0) : Type 0 where
  threshold_rms : F
  release_coeff : F
  peak : F

module _ {F : Type 0} ⦃fl : Float F⦄ where
  unfoldable new_peak_limiter : PeakLimiter F
  new_peak_limiter = record {
    threshold_rms = fl.of_int (pos 28000);
    release_coeff = fl.ratio 999 1000;
    peak = fl.of_int (pos 0);
  }

  -- The peak falls slowly, and rises at once.
  unfoldable follow : F → PeakLimiter F → PeakLimiter F
  follow level l =
      let decayed = fl.mul l.peak l.release_coeff in
      record l { peak = if fl.lt decayed level then level else decayed }

  unfoldable attenuated : ℤ → PeakLimiter F → F
  attenuated s l =
      if fl.lt l.threshold_rms l.peak
      then fl.mul (fl.of_int s) (fl.div l.threshold_rms l.peak)
      else fl.of_int s

  abbrev clamp : F → ℤ
  clamp v =
      if fl.lt (fl.of_int (pos 32767)) v
      then pos 32767
      else if fl.lt v (fl.of_int (negsuc 32766))
      then negsuc 32766
      else fl.to_int v

  unfoldable limit_all : List ℤ → PeakLimiter F → PeakLimiter F × List ℤ
  limit_all [] l = (l, [])
  limit_all (s ∷ frame) l =
      let l' = follow (fl.abs (fl.of_int s)) l in
      let (l'', out) = limit_all frame l' in (l'', clamp (attenuated s l') ∷ out)

  unfoldable reset_peak : PeakLimiter F → PeakLimiter F
  reset_peak l = record l { peak = fl.of_int (pos 0) }
