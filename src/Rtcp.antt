-- ===== src/Rtcp.antt =====
-- pkg/rtp/rtcp.go: the RTCP Receiver and Sender Reports.
pub mod Blocks
pub mod Encode
use clear_stream.Prelude.{
  ℕ, zero, suc, ◌+◌, ◌-◌, ◌*◌, ◌/◌, ◌%◌, Bool, true, false, Option, none, some, List, [], ◌∷◌, ltb,
  leb, ◌==◌, if◌then◌else◌, length, get_or, drop, ℤ, pos, sub_ℕ,
}

abbrev pub type_receiver_report : ℕ
type_receiver_report = 201

abbrev pub type_sender_report : ℕ
type_sender_report = 200

-- `fraction_lost` is the byte that the code divides by 256.0.
pub record ReceiverReport : Type 0 where
  pub ssrc : ℕ  -- uint32
  pub fraction_lost : ℕ
  pub cumulative_lost : ℤ
  pub highest_seq : ℕ  -- uint32
  pub jitter : ℕ  -- uint32
  pub last_sr : ℕ  -- uint32
  pub delay_since_last_sr : ℕ  -- uint32

pub record SenderReport : Type 0 where
  pub ssrc : ℕ
  pub ntp_sec : ℕ
  pub ntp_frac : ℕ
  pub rtp_timestamp : ℕ
  pub packet_count : ℕ
  pub octet_count : ℕ

pub data RtcpError : Type 0 where
  packet_too_short : ℕ → RtcpError
  invalid_version : ℕ → RtcpError
  blocks_too_short : ℕ → ℕ → ℕ → RtcpError
  sender_report_too_short : ℕ → RtcpError

-- A value with a nil error, nil with a nil error, or an error.
pub data Outcome {ℓ} (A : Type ℓ) : Type ℓ where
  ok : A → Outcome A
  ignored : Outcome A
  failed : RtcpError → Outcome A

-- data[i], of a packet that is long enough.
abbrev pub byte : List ℕ → ℕ → ℕ
byte packet i = get_or packet i 0

-- binary.BigEndian.Uint32(data[i : i+4])
unfoldable pub uint32 : List ℕ → ℕ → ℕ
uint32 packet i =
    byte packet i * 16777216
    + byte packet (i + 1) * 65536
    + byte packet (i + 2) * 256
    + byte packet (i + 3)

-- The three bytes of the loss.
unfoldable pub uint24 : List ℕ → ℕ → ℕ
uint24 packet i = byte packet i * 65536 + byte packet (i + 1) * 256 + byte packet (i + 2)

-- A 24-bit number with its sign: the top bit is extended.
unfoldable pub sign_extend_24 : ℕ → ℤ
sign_extend_24 n = if leb 8388608 n then sub_ℕ n 16777216 else pos n

unfoldable pub report_block : List ℕ → ℕ → ReceiverReport
unfolding uint32 uint24 sign_extend_24
report_block packet off = record {
  ssrc = uint32 packet off;
  fraction_lost = byte packet (off + 4);
  cumulative_lost = sign_extend_24 (uint24 packet (off + 5));
  highest_seq = uint32 packet (off + 8);
  jitter = uint32 packet (off + 12);
  last_sr = uint32 packet (off + 16);
  delay_since_last_sr = uint32 packet (off + 20);
}

-- The loop over the blocks: `rc` are left, and the next one is at `off`.
unfoldable pub report_blocks : List ℕ → ℕ → ℕ → List ReceiverReport
report_blocks packet zero off = []
report_blocks packet (suc rc) off = report_block packet off ∷ report_blocks packet rc (off + 24)

abbrev pub version : List ℕ → ℕ
version packet = byte packet 0 / 64 % 4

abbrev pub report_count : List ℕ → ℕ
report_count packet = byte packet 0 % 32

-- The blocks of a report whose sender's part has `base` bytes.
unfoldable pub blocks_from : List ℕ → ℕ → Outcome (List ReceiverReport)
blocks_from packet base =
    let rc = report_count packet in
    let need = base + rc * 24 in
    if rc == 0
    then ignored
    else if ltb (length packet) need
    then failed (blocks_too_short rc (length packet) need)
    else ok (report_blocks packet rc base)

unfoldable pub parse_receiver_report_blocks : List ℕ → Outcome (List ReceiverReport)
unfolding blocks_from
parse_receiver_report_blocks packet =
    if ltb (length packet) 8
    then failed (packet_too_short (length packet))
    else if version packet == 2
    then (if byte packet 1 == type_receiver_report then blocks_from packet 8 else ignored)
    else failed (invalid_version (version packet))

-- The first block, if there is one.
abbrev pub first_block : Outcome (List ReceiverReport) → Outcome ReceiverReport
first_block (ok []) = ignored
first_block (ok (first ∷ rest)) = ok first
first_block ignored = ignored
first_block (failed e) = failed e

unfoldable pub parse_receiver_report : List ℕ → Outcome ReceiverReport
parse_receiver_report packet = first_block (parse_receiver_report_blocks packet)

unfoldable pub parse_report_blocks : List ℕ → Outcome (List ReceiverReport)
unfolding blocks_from
parse_report_blocks packet =
    if ltb (length packet) 8
    then failed (packet_too_short (length packet))
    else if version packet == 2
    then (if byte packet 1 == type_receiver_report
        then blocks_from packet 8
        else if byte packet 1 == type_sender_report
        then blocks_from packet 28
        else ignored)
    else failed (invalid_version (version packet))

unfoldable pub parse_sender_report : List ℕ → Outcome SenderReport
unfolding uint32
parse_sender_report packet =
    if ltb (length packet) 8
    then failed (packet_too_short (length packet))
    else if version packet == 2
    then (if byte packet 1 == type_sender_report
        then (if ltb (length packet) 28
            then failed (sender_report_too_short (length packet))
            else ok (record {
              ssrc = uint32 packet 4;
              ntp_sec = uint32 packet 8;
              ntp_frac = uint32 packet 12;
              rtp_timestamp = uint32 packet 16;
              packet_count = uint32 packet 20;
              octet_count = uint32 packet 24;
            }))
        else ignored)
    else failed (invalid_version (version packet))
