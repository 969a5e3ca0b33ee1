-- ===== src/Header.antt =====
-- pkg/rtp/session.go, parseRTPHeader and buildRTPPacket: the RTP header on the wire.
pub mod RoundTrip
use Prim.Native.Nat.{bit_or}
use clear_stream.Prelude.{
  ℕ, ◌+◌, ◌*◌, ◌/◌, ◌%◌, Bool, true, false, ◌&&◌, List, [], ◌∷◌, ltb, leb, ◌==◌, if◌then◌else◌,
  length, get_or, drop,
}

-- The code never fills the list of contributing sources, and the model leaves it out.
pub record RtpHeader : Type 0 where
  pub version : ℕ  -- uint8
  pub padding : Bool
  pub extension : Bool
  pub csrc_count : ℕ  -- uint8
  pub marker : Bool
  pub payload_type : ℕ  -- uint8
  pub sequence_number : ℕ  -- uint16
  pub timestamp : ℕ  -- uint32
  pub ssrc : ℕ  -- uint32

pub data ParsedPacket : Type 0 where
  ok : RtpHeader → List ℕ → ParsedPacket
  too_short : ParsedPacket
  header_exceeds : RtpHeader → ParsedPacket

abbrev pub byte : List ℕ → ℕ → ℕ
byte raw i = get_or raw i 0

abbrev pub uint16 : List ℕ → ℕ → ℕ
uint16 raw i = byte raw i * 256 + byte raw (i + 1)

abbrev pub uint32 : List ℕ → ℕ → ℕ
uint32 raw i =
    byte raw i * 16777216 + byte raw (i + 1) * 65536 + byte raw (i + 2) * 256 + byte raw (i + 3)

-- The fields of the twelve bytes that every packet has.
abbrev pub fixed_header : List ℕ → RtpHeader
fixed_header raw = record {
  version = byte raw 0 / 64 % 4;
  padding = byte raw 0 / 32 % 2 == 1;
  extension = byte raw 0 / 16 % 2 == 1;
  csrc_count = byte raw 0 % 16;
  marker = byte raw 1 / 128 % 2 == 1;
  payload_type = byte raw 1 % 128;
  sequence_number = uint16 raw 2;
  timestamp = uint32 raw 4;
  ssrc = uint32 raw 8;
}

-- Where the payload begins: behind the contributing sources, and the extension if it can be read.
abbrev pub payload_offset : RtpHeader → List ℕ → ℕ
payload_offset h raw =
    let offset = 12 + h.csrc_count * 4 in
    if h.extension && leb (offset + 4) (length raw)
    then offset + (4 + uint16 raw (offset + 2) * 4)
    else offset

unfoldable pub split_payload : RtpHeader → ℕ → List ℕ → ParsedPacket
split_payload h offset raw =
    if ltb (length raw) offset then header_exceeds h else ok h (drop offset raw)

unfoldable pub read_packet : RtpHeader → List ℕ → ParsedPacket
read_packet h raw = split_payload h (payload_offset h raw) raw

unfoldable pub parse_rtp_header : List ℕ → ParsedPacket
parse_rtp_header raw = if ltb (length raw) 12 then too_short else read_packet (fixed_header raw) raw

abbrev pub bool_byte : Bool → ℕ
bool_byte true = 1
bool_byte false = 0

unfoldable pub first_byte : ℕ → Bool → Bool → ℕ → ℕ
first_byte version padding extension csrc_count =
    bit_or
      (bit_or (bit_or (version * 64 % 256) (bool_byte padding * 32)) (bool_byte extension * 16))
      csrc_count

unfoldable pub second_byte : Bool → ℕ → ℕ
second_byte marker payload_type = bit_or (bool_byte marker * 128) payload_type

abbrev pub put16 : ℕ → List ℕ → List ℕ
put16 n rest = n / 256 % 256 ∷ n % 256 ∷ rest

abbrev pub put32 : ℕ → List ℕ → List ℕ
put32 n rest = n / 16777216 % 256 ∷ n / 65536 % 256 ∷ n / 256 % 256 ∷ n % 256 ∷ rest

unfoldable pub build_rtp_packet : RtpHeader → List ℕ → List ℕ
build_rtp_packet h payload =
    first_byte h.version h.padding h.extension h.csrc_count
    ∷ second_byte h.marker h.payload_type
    ∷ put16 h.sequence_number (put32 h.timestamp (put32 h.ssrc payload))
