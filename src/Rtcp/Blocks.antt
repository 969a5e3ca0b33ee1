-- ===== src/Rtcp/Blocks.antt =====
-- pkg/rtp/rtcp.go: what the parsers accept, and how they agree.
use native.Mathlib.Decide.{ℕ_discrete}
use clear_stream.Prelude.{
  ℕ, zero, suc, ◌+◌, ◌*◌, ◌≤◌, ◌<◌, ◌≡◌, ◌⊎◌, ◌↔◌, inl, inr, refl, ap, List, [], ◌∷◌, length, arith,
  ◌≢◌,
}
use clear_stream.Rtcp.{
  ReceiverReport, Outcome, ok, ignored, failed, byte, report_blocks, report_count, version,
  parse_receiver_report_blocks, first_block, parse_receiver_report, parse_report_blocks,
}

length-report_blocks : (packet : List ℕ) (rc off : ℕ) → length (report_blocks packet rc off) ≡ rc
unfolding report_blocks
length-report_blocks packet zero off = refl
length-report_blocks packet (suc rc) off = ap suc (length-report_blocks packet rc (off + 24))

-- Accepted reports come from a packet of version 2 that holds all of its blocks, behind 8 bytes in a
-- Receiver Report and 28 in a Sender Report: their number is the header's count, at least one, and
-- the last byte read lies in the packet.
parse_report_blocks_bounds :
    (packet : List ℕ) (rs : List ReceiverReport)
    → parse_report_blocks packet ≡ ok rs
    → (version packet ≡ 2)
      × (length rs ≡ report_count packet)
      × (0 < length rs)
      × (((byte packet 1 ≡ 201) × (8 + length rs * 24 ≤ length packet))
          ⊎ ((byte packet 1 ≡ 200) × (28 + length rs * 24 ≤ length packet)))
unfolding parse_report_blocks
parse_report_blocks_bounds packet rs h = ground (
  arith,
  length-report_blocks packet (report_count packet) 8,
  length-report_blocks packet (report_count packet) 28,
)

-- The two block parsers agree on every packet that is no Sender Report. On a Sender Report the one
-- for Receiver Reports never has a block.
parse_receiver_report_blocks_agree :
    (packet : List ℕ)
    → ((byte packet 1 ≢ 200) × (parse_receiver_report_blocks packet ≡ parse_report_blocks packet))
      ⊎ ((byte packet 1 ≡ 200)
          × ((rs : List ReceiverReport) → parse_receiver_report_blocks packet ≢ ok rs))
unfolding parse_receiver_report_blocks parse_report_blocks
parse_receiver_report_blocks_agree packet = elim (ℕ_discrete (byte packet 1) 200) [
  | yes sender ↦ inr (sender, λ rs h. ground arith)
  | no other ↦ inl (other, ground arith)
]

first_block_inv :
    (o : Outcome (List ReceiverReport)) (r : ReceiverReport)
    → first_block o ≡ ok r
    → (more : List ReceiverReport) × (o ≡ ok (r ∷ more))
first_block_inv (ok []) r h = cc
first_block_inv (ok (first ∷ rest)) r h = (rest, cc)
first_block_inv ignored r h = cc
first_block_inv (failed e) r h = cc

-- The single report is the first of the blocks, and there is one exactly if there are blocks.
pub parse_receiver_report-first :
    (packet : List ℕ) (r : ReceiverReport)
    → (parse_receiver_report packet ≡ ok r)
      ↔ ((more : List ReceiverReport) × (parse_receiver_report_blocks packet ≡ ok (r ∷ more)))
unfolding parse_receiver_report
parse_receiver_report-first packet r =
    (λ h. first_block_inv (parse_receiver_report_blocks packet) r h, λ (more, h). ap first_block h)
