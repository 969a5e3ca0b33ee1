-- ===== src/Gain.antt =====
-- pkg/audio/agc.go: the automatic gain control.
pub mod Clips
pub mod Limiter
use clear_stream.Prelude.{
  ℕ, ◌+◌, Bool, true, false, List, [], ◌∷◌, length, if◌then◌else◌, ℤ, pos, negsuc, leb_ℤ, Float,
  geb,
}

record AgcConfig (F : Type 0) : Type 0 where
  target_rms : F
  max_gain : F
  attack_ms : F
  release_ms : F
  soft_limit_threshold : F
  sample_rate : ℤ

record Agc (F : Type 0) : Type 0 where
  cfg : AgcConfig F
  current_gain : F
  target_gain : F
  attack_coef : F
  release_coef : F
  clip_count : ℕ  -- int64, too few samples to wrap

-- The functions of the math package on a float64.
record Curves (F : Type 0) : Type 0 where
  exp : F → F
  tanh : F → F

module _ {F : Type 0} ⦃fl : Float F⦄ where
  abbrev whole : ℕ → F
  whole n = fl.of_int (pos n)

  -- A setting that is not positive is replaced.
  abbrev or_default : ℕ → F → F
  or_default n x = if geb (whole 0) x then whole n else x

  unfoldable with_defaults : AgcConfig F → AgcConfig F
  with_defaults cfg = record {
    target_rms = or_default 3000 cfg.target_rms;
    max_gain = or_default 4 cfg.max_gain;
    attack_ms = or_default 20 cfg.attack_ms;
    release_ms = or_default 200 cfg.release_ms;
    soft_limit_threshold = or_default 28000 cfg.soft_limit_threshold;
    sample_rate = if leb_ℤ cfg.sample_rate (pos 0) then pos 16000 else cfg.sample_rate;
  }

  -- e to the power of -1 / (ms * rate / 1000)
  unfoldable coefficient : Curves F → F → ℤ → F
  coefficient m ms rate =
      m.exp (fl.div (fl.of_int (negsuc 0)) (fl.div (fl.mul ms (fl.of_int rate)) (whole 1000)))

  unfoldable new_agc : Curves F → AgcConfig F → Agc F
  new_agc m given =
      let cfg = with_defaults given in
      record {
        cfg = cfg;
        current_gain = whole 1;
        target_gain = whole 1;
        attack_coef = coefficient m cfg.attack_ms cfg.sample_rate;
        release_coef = coefficient m cfg.release_ms cfg.sample_rate;
        clip_count = 0;
      }

  unfoldable soft_limit : Curves F → F → F → F
  soft_limit m val thr =
      if geb (whole 0) thr
      then val
      else if geb thr (fl.abs val)
      then val
      else let limited =
          fl.mul (fl.div (m.tanh (fl.div (fl.abs val) thr)) (m.tanh (whole 1))) thr in
        fl.mul (if fl.lt val (whole 0) then fl.of_int (negsuc 0) else whole 1) limited

  unfoldable set_target_rms : F → Agc F → Agc F
  set_target_rms x a =
      if geb (whole 0) x then a else record a { cfg = record a.cfg { target_rms = x } }

  abbrev sum_squares : F → List ℤ → F
  sum_squares sum [] = sum
  sum_squares sum (s ∷ samples) =
      sum_squares (fl.add sum (fl.mul (fl.of_int s) (fl.of_int s))) samples

  abbrev peak_of : F → List ℤ → F
  peak_of peak [] = peak
  peak_of peak (s ∷ samples) =
      peak_of (if fl.lt peak (fl.abs (fl.of_int s)) then fl.abs (fl.of_int s) else peak) samples

  -- The gain allowed for a frame of a peak, less and less from 23197 on, none from 29491 on.
  unfoldable effective_max_gain : F → F → F
  effective_max_gain max_gain peak =
      if fl.lt (whole 29491) peak
      then whole 1
      else if fl.lt (whole 23197) peak
      then (let frac = fl.div (fl.sub peak (whole 23197)) (fl.sub (whole 29491) (whole 23197)) in
          fl.add (fl.mul max_gain (fl.sub (whole 1) frac)) (fl.mul (whole 1) frac))
      else max_gain

  -- The gain that a frame asks for; a silent one leaves it as it is.
  unfoldable aim : List ℤ → Agc F → Agc F
  aim samples a =
      let rms = fl.sqrt (fl.div (sum_squares (whole 0) samples) (whole (length samples))) in
      let desired = fl.div a.cfg.target_rms rms in
      let most = effective_max_gain a.cfg.max_gain (peak_of (whole 0) samples) in
      if geb rms (whole 1)
      then record a { target_gain = if fl.lt most desired then most else desired }
      else a

  abbrev towards : F → F → F → F
  towards coef current target = fl.add (fl.mul coef current) (fl.mul (fl.sub (whole 1) coef) target)

  unfoldable approach : Agc F → Agc F
  approach a = record a {
    current_gain =
        if fl.lt a.current_gain a.target_gain
        then towards a.attack_coef a.current_gain a.target_gain
        else towards a.release_coef a.current_gain a.target_gain;
  }

  -- A value beyond the range of int16 is cut, and counted.
  unfoldable clip : F → Agc F → Agc F × ℤ
  clip val a =
      if fl.lt (whole 32767) val
      then (record a { clip_count = a.clip_count + 1 }, pos 32767)
      else if fl.lt val (fl.of_int (negsuc 32767))
      then (record a { clip_count = a.clip_count + 1 }, negsuc 32767)
      else (a, fl.to_int val)

  unfoldable gain_sample : Curves F → ℤ → Agc F → Agc F × ℤ
  gain_sample m s a =
      let a' = approach a in
      clip (soft_limit m (fl.mul (fl.of_int s) a'.current_gain) a'.cfg.soft_limit_threshold) a'

  unfoldable gain_all : Curves F → List ℤ → Agc F → Agc F × List ℤ
  gain_all m [] a = (a, [])
  gain_all m (s ∷ samples) a =
      let (a', v) = gain_sample m s a in let (a'', out) = gain_all m samples a' in (a'', v ∷ out)

  unfoldable process : Curves F → List ℤ → Agc F → Agc F × List ℤ
  process m [] a = (a, [])
  process m (s ∷ samples) a = gain_all m (s ∷ samples) (aim (s ∷ samples) a)

  -- The count of clips stays.
  unfoldable reset : Agc F → Agc F
  reset a = record a { current_gain = whole 1; target_gain = whole 1 }

  unfoldable reset_clip_count : Agc F → Agc F
  reset_clip_count a = record a { clip_count = 0 }
