-- ===== src/Examples/Packets.antt =====
-- Concrete inputs for the theorems on the RTP header, RTCP, DTMF and G.711.
use clear_stream.Prelude.{
  ℕ, ◌+◌, ◌*◌, ◌≤◌, inl, if◌then◌else◌, ltb, map, ◌++◌, negsuc, List, [], ◌∷◌, true, false, refl,
  ◌≡◌, arith,
}
use clear_stream.Header.{RtpHeader, ok, header_exceeds, parse_rtp_header, build_rtp_packet}
use clear_stream.Header.RoundTrip.{IsWire, parse-build}
use clear_stream.Dtmf.{DtmfDetector}
use clear_stream.Dtmf.Digits.{Packet, payload, reports, digit_of, reports-press}
use clear_stream.Rtcp as rtcp
use clear_stream.Rtcp.{
  ReceiverReport, SenderReport, parse_receiver_report_blocks, parse_receiver_report,
  parse_report_blocks, parse_sender_report, report_count, version,
}
use clear_stream.Rtcp.Encode.{
  encode_receiver_report, encode_sender_report, parse_report_blocks-encode,
}
use clear_stream.G711.{encode_g711u, decode_g711u, ulaw_to_linear, linear_to_ulaw, alaw_to_linear}
use clear_stream.G711.RoundTrip.{encode-decode_g711u}
use clear_stream.G711.Precision.{gap, gap-ulaw}
use clear_stream.G711.Reference.{itu_alaw, negate, alaw_to_linear-reference}

-- A packet of a mixer, with one contributing source in its count.
abbrev mixed : RtpHeader
mixed = record {
  version = 2;
  padding = false;
  extension = false;
  csrc_count = 1;
  marker = true;
  payload_type = 8;
  sequence_number = 65535;
  timestamp = 4294967295;
  ssrc = 77;
}

mixed-IsWire : IsWire mixed
mixed-IsWire = record {
  version = omega arith;
  csrc_count = omega arith;
  payload_type = omega arith;
  sequence_number = omega arith;
  timestamp = omega arith;
  ssrc = omega arith;
}

parse-build_example :
    parse_rtp_header (build_rtp_packet mixed (1 ∷ 2 ∷ 3 ∷ 4 ∷ 5 ∷ []))
    ≡ (if ltb 5 (1 * 4) then header_exceeds mixed else ok mixed (5 ∷ []))
parse-build_example = parse-build mixed (1 ∷ 2 ∷ 3 ∷ 4 ∷ 5 ∷ []) mixed-IsWire refl

-- Twelve bytes and a payload of one.
abbrev thirteen : List ℕ
thirteen = 128 ∷ 0 ∷ 0 ∷ 1 ∷ 0 ∷ 0 ∷ 0 ∷ 2 ∷ 0 ∷ 0 ∷ 0 ∷ 3 ∷ 9 ∷ []

abbrev detector : DtmfDetector
detector = record { sample_rate = 8000; last_event = 255; last_end = false }

abbrev press : List Packet
press = record { flags = 10; hi = 0; lo = 160 } ∷ record { flags = 10; hi = 1; lo = 64 } ∷ []

abbrev release : List Packet
release = record { flags = 138; hi = 1; lo = 224 } ∷ record { flags = 138; hi = 1; lo = 224 } ∷ []

reports-press_example : reports detector (map (payload 11) press ++ map (payload 11) release) ≡ (
  record detector { last_event = 11; last_end = true },
  digit_of 8000 "#" (record { flags = 10; hi = 0; lo = 160 })
      ∷ digit_of 8000 "#" (record { flags = 138; hi = 1; lo = 224 })
      ∷ [],
)
reports-press_example =
    reports-press detector 11 (record { flags = 10; hi = 0; lo = 160 })
      (record { flags = 10; hi = 1; lo = 64 } ∷ []) (record { flags = 138; hi = 1; lo = 224 })
      (record { flags = 138; hi = 1; lo = 224 } ∷ []) {name = "#"} refl (inl (omega arith))
      (refl, (refl, tt)) (refl, (refl, tt))

-- A block that reports a loss of -2 packets.
abbrev block : ReceiverReport
block = record {
  ssrc = 3;
  fraction_lost = 64;
  cumulative_lost = negsuc 1;
  highest_seq = 70000;
  jitter = 12;
  last_sr = 5;
  delay_since_last_sr = 65536;
}

abbrev sender : SenderReport
sender = record {
  ssrc = 9;
  ntp_sec = 1;
  ntp_frac = 2;
  rtp_timestamp = 3;
  packet_count = 4;
  octet_count = 5;
}

parse_report_blocks-encode_example :
    (parse_receiver_report_blocks (encode_receiver_report 9 (block ∷ [])) ≡ rtcp.ok (block ∷ []))
    × (parse_report_blocks (encode_receiver_report 9 (block ∷ [])) ≡ rtcp.ok (block ∷ []))
    × (parse_report_blocks (encode_sender_report sender (block ∷ [])) ≡ rtcp.ok (block ∷ []))
parse_report_blocks-encode_example =
    parse_report_blocks-encode 9 sender (block ∷ []) (omega arith) (omega arith)
      ((omega arith, omega arith), tt)

encode-decode_g711u_example : encode_g711u (decode_g711u (0 ∷ 127 ∷ 255 ∷ [])) ≡ 0 ∷ 255 ∷ 255 ∷ []
encode-decode_g711u_example =
    encode-decode_g711u (0 ∷ 127 ∷ 255 ∷ []) (omega arith, (omega arith, (omega arith, tt)))

gap-ulaw_example :
    gap (ulaw_to_linear (linear_to_ulaw (negsuc 32767))) (negsuc 32767) * 32 ≤ 32768 + 132
gap-ulaw_example = gap-ulaw (negsuc 32767) (omega arith)

alaw_to_linear-reference_example : alaw_to_linear 213 ≡ negate (itu_alaw 213)
alaw_to_linear-reference_example = alaw_to_linear-reference 213 (omega arith)
