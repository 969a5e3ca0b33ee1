-- ===== src/Dtmf.antt =====
-- pkg/rtp/dtmf.go: the detector of RFC 4733 telephone events.
pub mod Digits
use Prim.Native.String.{String}
use clear_stream.Prelude.{
  ℕ, ◌+◌, ◌*◌, ◌/◌, ◌%◌, Bool, true, false, ◌&&◌, Option, none, some, List, [], ◌∷◌, ltb, leb, ◌==◌,
  if◌then◌else◌, length, get_elem?, ℤ, pos, pos_part, leb_ℤ,
}

pub record DtmfDigit : Type 0 where
  pub digit : String
  pub duration_ms : ℕ
  pub volume : ℕ
  pub is_end : Bool

abbrev pub dtmf_event_table : List String
dtmf_event_table =
    "0" ∷ "1" ∷ "2" ∷ "3" ∷ "4" ∷ "5" ∷ "6" ∷ "7" ∷ "8" ∷ "9" ∷ "*" ∷ "#" ∷ "A" ∷ "B" ∷ "C" ∷ "D"
    ∷ []

pub record DtmfDetector : Type 0 where
  pub sample_rate : ℕ
  pub last_event : ℕ  -- uint8
  pub last_end : Bool

pub data DtmfError : Type 0 where
  payload_too_short : ℕ → DtmfError
  unknown_event : ℕ → DtmfError

-- A digit, no digit for a duplicate, or an error.
pub data Parsed : Type 0 where
  digit : DtmfDigit → Parsed
  duplicate : Parsed
  failed : DtmfError → Parsed

unfoldable pub new_dtmf_detector : ℤ → DtmfDetector
new_dtmf_detector rate = record {
  sample_rate = if leb_ℤ rate (pos 0) then 8000 else pos_part rate;
  last_event = 255;
  last_end = false;
}

-- payload[1] & 0x80 != 0, and payload[1] & 0x3F, of a byte.
abbrev pub end_bit : ℕ → Bool
end_bit b = leb 128 b

abbrev pub volume_bits : ℕ → ℕ
volume_bits b = b % 64

abbrev pub same_end : Bool → Bool → Bool
same_end true b = b
same_end false true = false
same_end false false = true

abbrev pub decode_event : ℕ → ℕ → Bool → ℕ → ℕ → Parsed
decode_event rate event is_end volume duration = elim (get_elem? dtmf_event_table event) [
  | none ↦ failed (unknown_event event)
  | some name ↦ digit (record {
    digit = name;
    duration_ms = if ltb 0 rate then duration * 1000 / rate else 0;
    volume = volume;
    is_end = is_end;
  })
]

unfoldable pub parse_dtmf_payload : DtmfDetector → List ℕ → DtmfDetector × Parsed
parse_dtmf_payload d (event ∷ flags ∷ hi ∷ lo ∷ rest) =
    if event == d.last_event && same_end (end_bit flags) d.last_end then (d, duplicate) else (
      record d { last_event = event; last_end = end_bit flags },
      decode_event d.sample_rate event (end_bit flags) (volume_bits flags) (hi * 256 + lo),
    )
parse_dtmf_payload d short = (d, failed (payload_too_short (length short)))

unfoldable pub reset : DtmfDetector → DtmfDetector
reset d = record d { last_event = 255; last_end = false }
