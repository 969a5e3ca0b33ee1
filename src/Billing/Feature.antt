-- ===== src/Billing/Feature.antt =====
-- pkg/billing/feature.go: the mask of a call's features, and its printed form.
pub mod Printed
use Prim.Native.Nat.{bit_and}
use Prim.Native.String.{String}
use Prim.Native.String as string
use clear_stream.Prelude.{ℕ, Bool, not, List, [], ◌∷◌, ◌==◌, if◌then◌else◌}

abbrev pub feature_vad : ℕ
feature_vad = 1

abbrev pub feature_spectral_nr : ℕ
feature_spectral_nr = 2

abbrev pub feature_rn_noise : ℕ
feature_rn_noise = 4

abbrev pub feature_deep_filter : ℕ
feature_deep_filter = 8

abbrev pub feature_agc : ℕ
feature_agc = 16

abbrev pub feature_rtp_monitor : ℕ
feature_rtp_monitor = 32

abbrev pub feature_eval : ℕ
feature_eval = 64

-- `f&flag != 0`
unfoldable pub has : ℕ → ℕ → Bool
has f flag = not (bit_and f flag == 0)

abbrev pub all_features : List (ℕ × String)
all_features =
    (feature_vad, "VAD")
    ∷ (feature_spectral_nr, "SpectralNR")
    ∷ (feature_rn_noise, "RNNoise")
    ∷ (feature_deep_filter, "DeepFilter")
    ∷ (feature_agc, "AGC")
    ∷ (feature_rtp_monitor, "RTPMonitor")
    ∷ (feature_eval, "Eval")
    ∷ []

unfoldable pub parts : ℕ → List (ℕ × String) → List String
parts f [] = []
parts f ((bit, name) ∷ rest) = let later = parts f rest in if has f bit then name ∷ later else later

-- strings.Join
unfoldable pub join : String → List String → String
join sep [] = ""
join sep (x ∷ []) = x
join sep (x ∷ y ∷ rest) = string.◌++◌ x (string.◌++◌ sep (join sep (y ∷ rest)))

-- The names, or "none" where there are none.
unfoldable pub or_none : List String → String
or_none [] = "none"
or_none (x ∷ rest) = join "," (x ∷ rest)

unfoldable pub to_string : ℕ → String
to_string f = or_none (parts f all_features)
