-- ===== src/Header/RoundTrip.antt =====
-- pkg/rtp/session.go: what parseRTPHeader reads of a packet that buildRTPPacket wrote.
use mathlib.Core.Path.{subst}
use clear_stream.Prelude.{
  ℕ, zero, suc, ◌+◌, ◌*◌, ◌≤◌, ◌<◌, ◌≡◌, refl, Bool, true, false, List, [], ◌∷◌, ltb, ◌==◌, ==_iff,
  if◌then◌else◌, length, get_or, drop, All, arith, ap, ◌∙◌, Bool-cases, inl, inr, passes_below,
  passes_below_at,
}
use clear_stream.Header.{
  RtpHeader, ok, header_exceeds, fixed_header, payload_offset, read_packet, split_payload,
  parse_rtp_header, bool_byte, first_byte, second_byte, build_rtp_packet,
}

-- The fields are in the ranges of their widths.
pub record IsWire (h : RtpHeader) : Type 0 where
  pub version : h.version < 4
  pub csrc_count : h.csrc_count < 16
  pub payload_type : h.payload_type < 128
  pub sequence_number : h.sequence_number < 65536
  pub timestamp : h.timestamp < 4294967296
  pub ssrc : h.ssrc < 4294967296

abbrev first_sum : ℕ → Bool → Bool → ℕ → ℕ
first_sum v p x c = v * 64 + bool_byte p * 32 + bool_byte x * 16 + c

first_table :
    (p x : Bool)
    → passes_below (λ v. passes_below (λ c. first_byte v p x c == first_sum v p x c) 16) 4 ≡ true
unfolding passes_below first_byte
first_table true true = refl
first_table true false = refl
first_table false true = refl
first_table false false = refl

-- The bits of the first byte do not overlap.
first_byte_lem :
    (v : ℕ) (p x : Bool) (c : ℕ) → v < 4 → c < 16 → first_byte v p x c ≡ first_sum v p x c
first_byte_lem v p x c hv hc = (==_iff _ (first_sum v p x c)).0 (
    passes_below_at (λ c. first_byte v p x c == first_sum v p x c) 16
      (passes_below_at _ 4 (first_table p x) v hv) c hc)

second_table : (m : Bool) → passes_below (λ t. second_byte m t == bool_byte m * 128 + t) 128 ≡ true
unfolding passes_below second_byte
second_table true = refl
second_table false = refl

second_byte_lem : (m : Bool) (t : ℕ) → t < 128 → second_byte m t ≡ bool_byte m * 128 + t
second_byte_lem m t h =
    (==_iff _ (bool_byte m * 128 + t)).0 (passes_below_at _ 128 (second_table m) t h)

-- The header is read back as it was written.
fixed_header-build :
    (h : RtpHeader) (payload : List ℕ) → IsWire h → fixed_header (build_rtp_packet h payload) ≡ h
unfolding build_rtp_packet
fixed_header-build h payload w = ground (
  arith,
  first_byte_lem h.version h.padding h.extension h.csrc_count,
  second_byte_lem h.marker h.payload_type,
)

length-build :
    (h : RtpHeader) (payload : List ℕ) → length (build_rtp_packet h payload) ≡ 12 + length payload
unfolding build_rtp_packet
length-build h payload = omega arith

drop-build :
    (h : RtpHeader) (payload : List ℕ) (n : ℕ)
    → drop (12 + n) (build_rtp_packet h payload) ≡ drop n payload
unfolding build_rtp_packet
drop-build h payload n =
    let e : 12 + n ≡ suc (suc (suc (suc (suc (suc (suc (suc (suc (suc (suc (suc n))))))))))) =
      omega arith in
    ap (λ m. drop m (build_rtp_packet h payload)) e

read_packet-build :
    (h : RtpHeader) (payload : List ℕ)
    → h.extension ≡ false
    → read_packet h (build_rtp_packet h payload) ≡ (
        if ltb (length payload) (h.csrc_count * 4)
        then header_exceeds h
        else ok h (drop (h.csrc_count * 4) payload))
unfolding read_packet split_payload
read_packet-build h payload plain =
    let raw = build_rtp_packet h payload in
    let offset : payload_offset h raw ≡ 12 + h.csrc_count * 4 = ground arith in
    ap (λ o. split_payload h o raw) offset
    ∙ ground (arith, length-build h payload, drop-build h payload (h.csrc_count * 4))

-- A packet written without an extension is read back with its header. Its payload is read back whole
-- exactly if the header counts no contributing sources: `build_rtp_packet` writes their count and not
-- the sources, so the reader takes four bytes of the payload for each, and rejects the packet if it
-- does not have as many.
pub parse-build :
    (h : RtpHeader) (payload : List ℕ)
    → IsWire h
    → h.extension ≡ false
    → parse_rtp_header (build_rtp_packet h payload) ≡ (
        if ltb (length payload) (h.csrc_count * 4)
        then header_exceeds h
        else ok h (drop (h.csrc_count * 4) payload))
unfolding parse_rtp_header
parse-build h payload w plain =
    let long : ltb (length (build_rtp_packet h payload)) 12 ≡ false =
      ground (arith, length-build h payload) in
    rw long (
      ap (λ k. read_packet k (build_rtp_packet h payload)) (fixed_header-build h payload w)
      ∙ read_packet-build h payload plain)

get_or-All : (raw : List ℕ) (i : ℕ) → All (λ b. b < 256) raw → get_or raw i 0 < 256
get_or-All [] i h = omega arith
get_or-All (x ∷ raw) zero h = h.0
get_or-All (x ∷ raw) (suc i) h = get_or-All raw i h.1

fixed_header-IsWire : (raw : List ℕ) → All (λ b. b < 256) raw → IsWire (fixed_header raw)
fixed_header-IsWire raw h =
    let bound = λ (i : ℕ). get_or-All raw i h in
    omega (
      arith,
      bound 2,
      bound 3,
      bound 4,
      bound 5,
      bound 6,
      bound 7,
      bound 8,
      bound 9,
      bound 10,
      bound 11,
    )

read_packet_inv :
    (h h' : RtpHeader) (raw payload : List ℕ)
    → read_packet h raw ≡ ok h' payload
    → (h ≡ h') × (payload_offset h raw ≤ length raw) × (payload ≡ drop (payload_offset h raw) raw)
unfolding read_packet split_payload
read_packet_inv h h' raw payload e = ground arith

payload_offset-le : (h : RtpHeader) (raw : List ℕ) → 12 + h.csrc_count * 4 ≤ payload_offset h raw
payload_offset-le h raw = ground arith

-- An accepted packet has the twelve bytes of the fixed header, its header's fields are in their
-- ranges, and its payload is what stands behind the header, its contributing sources, and its
-- extension where that was read.
parse_rtp_header_bounds :
    (raw : List ℕ) (h : RtpHeader) (payload : List ℕ)
    → All (λ b. b < 256) raw
    → parse_rtp_header raw ≡ ok h payload
    → (12 ≤ length raw)
      × IsWire h
      × (12 + h.csrc_count * 4 ≤ payload_offset h raw)
      × (payload_offset h raw ≤ length raw)
      × (payload ≡ drop (payload_offset h raw) raw)
unfolding parse_rtp_header
parse_rtp_header_bounds raw h payload bytes e = elim (Bool-cases (ltb (length raw) 12)) [
  | inl short ↦ ground arith
  | inr long ↦
      let (same, fits, rest) = read_packet_inv (fixed_header raw) h raw payload (ground arith) in
      (
        ground arith,
        subst IsWire same (fixed_header-IsWire raw bytes),
        payload_offset-le h raw,
        subst (λ k. payload_offset k raw ≤ length raw) same fits,
        subst (λ k. payload ≡ drop (payload_offset k raw) raw) same rest,
      )
]
