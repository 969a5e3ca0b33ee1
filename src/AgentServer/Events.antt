-- ===== src/AgentServer/Events.antt =====
-- pkg/agentstream/events.go: the events that the server reads and writes, and the parameters of a call.
use clear_stream.Prelude.{
  ℕ, ◌+◌, ◌-◌, ◌*◌, ◌^◌, Bool, ◌&&◌, Option, none, some, List, [], ◌∷◌, ltb, leb, ◌==◌,
  if◌then◌else◌, ℤ, pos, same_name, sub_ℕ,
}

-- Of the events, the fields that the server reads or sets.
pub record StartEvent : Type 0 where
  pub call_sid : List ℕ
  pub stream_sid : List ℕ
  pub sample_rate : ℤ
  pub custom_parameters : List (List ℕ × List ℕ)

pub record MediaEvent : Type 0 where
  pub track : List ℕ
  pub codec : List ℕ
  pub sample_rate : ℤ
  pub timestamp_ms : ℤ
  pub payload : List ℕ

pub record ReconfigureEvent : Type 0 where
  pub mode : List ℕ
  pub level : ℤ

-- The two fields of EnhancementInfo that the server sets; it leaves the others false.
pub record EnhancementInfo : Type 0 where
  pub noise_suppression : Bool
  pub gain_normalization : Bool

pub record CleanMediaEvent : Type 0 where
  pub stream_sid : List ℕ
  pub sequence_number : ℕ
  pub track : List ℕ
  pub codec : List ℕ
  pub sample_rate : ℤ
  pub timestamp_ms : ℤ
  pub enhancement : EnhancementInfo
  pub payload : List ℕ

-- params[key], "" where it is missing.
unfoldable pub param : List ℕ → List (List ℕ × List ℕ) → List ℕ
param key [] = []
param key ((k, v) ∷ params) = let later = param key params in if same_name k key then v else later

unfoldable pub first_non_empty : List (List ℕ) → List ℕ
first_non_empty [] = []
first_non_empty ([] ∷ vals) = first_non_empty vals
first_non_empty ((c ∷ v) ∷ vals) = c ∷ v

-- The decimal number of a text of digits alone.
abbrev pub digits_from : ℕ → List ℕ → Option ℕ
digits_from n [] = some n
digits_from n (c ∷ text) =
    let rest = digits_from (n * 10 + (c - b'0')) text in
    if leb b'0' c && leb c b'9' then rest else none

abbrev pub digits : List ℕ → Option ℕ
digits [] = none
digits (c ∷ text) = digits_from 0 (c ∷ text)

abbrev pub in_range : ℕ → (ℕ → ℤ) → Option ℕ → Option ℤ
in_range limit sign none = none
in_range limit sign (some n) = if ltb limit n then none else some (sign n)

-- strconv.Atoi, whose int has 64 bits.
unfoldable pub atoi : List ℕ → Option ℤ
atoi [] = none
atoi (c ∷ text) =
    if c == b'-'
    then in_range (2 ^ 63) (λ n. sub_ℕ 0 n) (digits text)
    else if c == b'+'
    then in_range (2 ^ 63 - 1) pos (digits text)
    else in_range (2 ^ 63 - 1) pos (digits (c ∷ text))

abbrev pub or_default : ℤ → Option ℤ → ℤ
or_default def none = def
or_default def (some n) = n

unfoldable pub atoi_or : List ℕ → ℤ → ℤ
atoi_or s def = or_default def (atoi s)

-- parseFloatParam: none where the key is missing, empty or no number.
unfoldable pub parse_float_param :
    {F : Type 0} → (List ℕ → Option F) → List ℕ → List (List ℕ × List ℕ) → Option F
parse_float_param parse_float key params = elim (param key params) [
  | [] ↦ none
  | (c ∷ v) ↦ parse_float (c ∷ v)
]
