-- ===== src/Rtcp/Encode.antt =====
-- pkg/rtp/rtcp.go: the parsers read back what RFC 3550 says that a report's bytes are.
use native.Mathlib.Nat.{add_assoc, add-zero}
use clear_stream.Prelude.{
  ℕ, zero, suc, ◌+◌, ◌-◌, ◌*◌, ◌/◌, ◌%◌, ◌≤◌, ◌<◌, ◌≡◌, refl, ap, ap₂, sym, ◌∙◌, List, [], ◌∷◌,
  length, drop, ℤ, pos, negsuc, pos_part, neg_part, All, arith,
}
use clear_stream.Rtcp.{
  ReceiverReport, SenderReport, ok, byte, uint32, uint24, sign_extend_24, report_block,
  report_blocks, blocks_from, parse_receiver_report_blocks, parse_report_blocks,
  parse_sender_report,
}

-- The bytes of a block, up to the last of them.
abbrev lost_bits : ℤ → ℕ
lost_bits (pos n) = n
lost_bits (negsuc n) = 16777215 - n

abbrev put32 : ℕ → List ℕ → List ℕ
put32 n rest = n / 16777216 ∷ n / 65536 % 256 ∷ n / 256 % 256 ∷ n % 256 ∷ rest

abbrev pub encode_block : ReceiverReport → List ℕ → List ℕ
encode_block r rest =
    let lost = lost_bits r.cumulative_lost in
    put32 r.ssrc (
      r.fraction_lost
      ∷ lost / 65536
      ∷ lost / 256 % 256
      ∷ lost % 256
      ∷ put32 r.highest_seq (put32 r.jitter (put32 r.last_sr (put32 r.delay_since_last_sr rest))))

-- The loss is a number of 24 bits with its sign.
abbrev pub Fits24 : ReceiverReport → Type 0
Fits24 r = (pos_part r.cumulative_lost < 8388608) × (neg_part r.cumulative_lost ≤ 8388608)

sign_extend_24-lost_bits :
    (z : ℤ) → pos_part z < 8388608 → neg_part z ≤ 8388608 → sign_extend_24 (lost_bits z) ≡ z
unfolding sign_extend_24
sign_extend_24-lost_bits z p n = ground arith

byte-drop : (n i : ℕ) (packet : List ℕ) → byte packet (n + i) ≡ byte (drop n packet) i
byte-drop zero i packet = ap (byte packet) (omega arith)
byte-drop (suc n) i [] = refl
byte-drop (suc n) i (x ∷ packet) =
    let e : suc n + i ≡ suc (n + i) = omega arith in ap (byte (x ∷ packet)) e ∙ byte-drop n i packet

put32_back :
    (n : ℕ) → n / 16777216 * 16777216 + n / 65536 % 256 * 65536 + n / 256 % 256 * 256 + n % 256 ≡ n
put32_back n = omega arith

lost_back : (n : ℕ) → n / 65536 * 65536 + n / 256 % 256 * 256 + n % 256 ≡ n
lost_back n = omega arith

report_block-encode :
    (r : ReceiverReport) (rest : List ℕ) → Fits24 r → report_block (encode_block r rest) 0 ≡ r
unfolding report_block
report_block-encode r rest fits =
    let lost =
      ap sign_extend_24 (lost_back (lost_bits r.cumulative_lost))
      ∙ sign_extend_24-lost_bits r.cumulative_lost fits.0 fits.1 in
    λ i. record {
      ssrc = put32_back r.ssrc i;
      fraction_lost = r.fraction_lost;
      cumulative_lost = lost i;
      highest_seq = put32_back r.highest_seq i;
      jitter = put32_back r.jitter i;
      last_sr = put32_back r.last_sr i;
      delay_since_last_sr = put32_back r.delay_since_last_sr i;
    }

-- A block read at an offset is the block at the front of what is left there.
uint32-drop : (n i m : ℕ) (packet : List ℕ) → m ≡ n + i → uint32 packet m ≡ uint32 (drop n packet) i
unfolding uint32
uint32-drop n i m packet e =
    let at = λ (k : ℕ).
      ap (λ a. byte packet (a + k)) e
      ∙ ap (byte packet) (add_assoc n i k)
      ∙ byte-drop n (i + k) packet in
    omega (arith, ap (byte packet) e ∙ byte-drop n i packet, at 1, at 2, at 3)

uint24-drop : (n i : ℕ) (packet : List ℕ) → uint24 packet (n + i) ≡ uint24 (drop n packet) i
unfolding uint24
uint24-drop n i packet =
    let at = λ (k : ℕ). ap (byte packet) (add_assoc n i k) ∙ byte-drop n (i + k) packet in
    omega (arith, byte-drop n i packet, at 1, at 2)

report_block-drop :
    (n : ℕ) (packet : List ℕ) → report_block packet n ≡ report_block (drop n packet) 0
unfolding report_block
report_block-drop n packet = λ i. record {
  ssrc = uint32-drop n 0 n packet (omega arith) i;
  fraction_lost = byte-drop n 4 packet i;
  cumulative_lost = sign_extend_24 (uint24-drop n 5 packet i);
  highest_seq = uint32-drop n 8 (n + 8) packet refl i;
  jitter = uint32-drop n 12 (n + 12) packet refl i;
  last_sr = uint32-drop n 16 (n + 16) packet refl i;
  delay_since_last_sr = uint32-drop n 20 (n + 20) packet refl i;
}

abbrev empty : List ℕ
empty = []

drop-drop : (n m : ℕ) (packet : List ℕ) → drop (n + m) packet ≡ drop m (drop n packet)
drop-drop zero m packet = ap (λ k. drop k packet) (omega arith)
drop-drop (suc n) zero [] = let e : suc n + 0 ≡ suc n = omega arith in ap (λ k. drop k empty) e
drop-drop (suc n) (suc m) [] =
    let e : suc n + suc m ≡ suc (n + suc m) = omega arith in ap (λ k. drop k empty) e
drop-drop (suc n) m (x ∷ packet) =
    let e : suc n + m ≡ suc (n + m) = omega arith in
    ap (λ k. drop k (x ∷ packet)) e ∙ drop-drop n m packet

report_blocks-drop :
    (rc n m : ℕ) (packet : List ℕ)
    → report_blocks packet rc (n + m) ≡ report_blocks (drop n packet) rc m
unfolding report_blocks
report_blocks-drop zero n m packet = refl
report_blocks-drop (suc rc) n m packet =
    ap₂ (λ b bs. b ∷ bs)
      (report_block-drop (n + m) packet
        ∙ ap (λ p. report_block p 0) (drop-drop n m packet)
        ∙ sym (report_block-drop m (drop n packet)))
      (ap (report_blocks packet rc) (add_assoc n m 24) ∙ report_blocks-drop rc n (m + 24) packet)

-- The bytes of the blocks, and of a report of each type that carries them.
abbrev pub encode_blocks : List ReceiverReport → List ℕ
encode_blocks [] = []
encode_blocks (r ∷ rs) = encode_block r (encode_blocks rs)

report_blocks-encode :
    (rs : List ReceiverReport) → All Fits24 rs → report_blocks (encode_blocks rs) (length rs) 0 ≡ rs
unfolding report_blocks
report_blocks-encode [] fits = refl
report_blocks-encode (r ∷ rs) fits =
    ap₂ (λ b bs. b ∷ bs) (report_block-encode r (encode_blocks rs) fits.0)
      (report_blocks-drop (length rs) 24 0 (encode_block r (encode_blocks rs))
        ∙ report_blocks-encode rs fits.1)

length-encode_blocks : (rs : List ReceiverReport) → length (encode_blocks rs) ≡ length rs * 24
length-encode_blocks [] = refl
length-encode_blocks (r ∷ rs) = omega (arith, length-encode_blocks rs)

-- The header of a packet with `n` blocks: version 2, no padding.
abbrev pub header : ℕ → ℕ → ℕ → List ℕ → List ℕ
header n type ssrc rest = (128 + n) ∷ type ∷ 0 ∷ 0 ∷ put32 ssrc rest

abbrev pub encode_receiver_report : ℕ → List ReceiverReport → List ℕ
encode_receiver_report ssrc rs = header (length rs) 201 ssrc (encode_blocks rs)

abbrev pub encode_sender_report : SenderReport → List ReceiverReport → List ℕ
encode_sender_report s rs = header (length rs) 200 s.ssrc (
    put32 s.ntp_sec (
      put32 s.ntp_frac
        (put32 s.rtp_timestamp (put32 s.packet_count (put32 s.octet_count (encode_blocks rs))))))

blocks_from-encode :
    (packet : List ℕ) (base : ℕ) (rs : List ReceiverReport)
    → byte packet 0 ≡ 128 + length rs
    → length packet ≡ base + length rs * 24
    → drop base packet ≡ encode_blocks rs
    → 0 < length rs
    → length rs < 32
    → All Fits24 rs
    → blocks_from packet base ≡ ok rs
unfolding blocks_from
blocks_from-encode packet base rs first len rest filled few fits =
    let count : byte packet 0 % 32 ≡ length rs = omega arith in
    let read =
      ap (report_blocks packet (length rs)) (sym (add-zero base))
      ∙ report_blocks-drop (length rs) base 0 packet
      ∙ ap (λ p. report_blocks p (length rs) 0) rest
      ∙ report_blocks-encode rs fits in
    rw count (ground (arith, read))

-- The parsers read back every packet of 1 to 31 blocks whose losses fit 24 bits: the blocks of a
-- Receiver Report, by both parsers, and those of a Sender Report, by the one that knows both types.
pub parse_report_blocks-encode :
    (ssrc : ℕ) (s : SenderReport) (rs : List ReceiverReport)
    → 0 < length rs
    → length rs < 32
    → All Fits24 rs
    → (parse_receiver_report_blocks (encode_receiver_report ssrc rs) ≡ ok rs)
      × (parse_report_blocks (encode_receiver_report ssrc rs) ≡ ok rs)
      × (parse_report_blocks (encode_sender_report s rs) ≡ ok rs)
unfolding parse_receiver_report_blocks parse_report_blocks
parse_report_blocks-encode ssrc s rs filled few fits =
    let len = length-encode_blocks rs in
    let rr =
      blocks_from-encode (encode_receiver_report ssrc rs) 8 rs refl (omega arith) refl filled few
        fits in
    let sr =
      blocks_from-encode (encode_sender_report s rs) 28 rs refl (omega arith) refl filled few
        fits in
    (ground (arith, rr), ground (arith, rr), ground (arith, sr))

-- The sender's part of a Sender Report is read back, with up to 31 blocks behind it.
parse_sender_report-encode :
    (s : SenderReport) (rs : List ReceiverReport)
    → length rs < 32
    → parse_sender_report (encode_sender_report s rs) ≡ ok s
unfolding parse_sender_report
parse_sender_report-encode s rs few = ground (
  arith,
  put32_back s.ssrc,
  put32_back s.ntp_sec,
  put32_back s.ntp_frac,
  put32_back s.rtp_timestamp,
  put32_back s.packet_count,
  put32_back s.octet_count,
)
