-- ===== src/Dtmf/Digits.antt =====
-- pkg/rtp/dtmf.go: which packets report a digit.
use Prim.Native.String.{String}
use mathlib.Core.List.{append-nil}
use clear_stream.Prelude.{
  ℕ, ◌+◌, ◌*◌, ◌/◌, ◌%◌, ◌<◌, ◌≡◌, ◌≢◌, ◌⊎◌, refl, Bool, true, false, ◌&&◌, some, List, [], ◌∷◌,
  ltb, ◌==◌, if◌then◌else◌, get_elem?, arith, ap, sym, ◌∙◌, map, ◌++◌, All, get_elem?-total,
}
use clear_stream.Dtmf.{
  DtmfDigit, DtmfDetector, Parsed, digit, duplicate, parse_dtmf_payload, reset, dtmf_event_table,
  end_bit, same_end,
}

-- A retransmission of the packet that was just parsed reports no digit, whatever its duration and
-- volume, and leaves the detector as it is.
parse_again :
    (d : DtmfDetector) (event flags hi lo flags' hi' lo' : ℕ) (rest rest' : List ℕ)
    → end_bit flags' ≡ end_bit flags
    → let d' = (parse_dtmf_payload d (event ∷ flags ∷ hi ∷ lo ∷ rest)).0 in
      parse_dtmf_payload d' (event ∷ flags' ∷ hi' ∷ lo' ∷ rest') ≡ (d', duplicate)
unfolding parse_dtmf_payload
parse_again d event flags hi lo flags' hi' lo' rest rest' e = ground arith

-- A packet of an event or an end bit other than the last one, for one of the 16 keys.
parse_fresh :
    (d : DtmfDetector) (event flags hi lo : ℕ) (rest : List ℕ) {name : String}
    → get_elem? dtmf_event_table event ≡ some name
    → (event == d.last_event && same_end (end_bit flags) d.last_end) ≡ false
    → parse_dtmf_payload d (event ∷ flags ∷ hi ∷ lo ∷ rest) ≡ (
      record d { last_event = event; last_end = end_bit flags },
      digit (record {
        digit = name;
        duration_ms = if ltb 0 d.sample_rate then (hi * 256 + lo) * 1000 / d.sample_rate else 0;
        volume = flags % 64;
        is_end = end_bit flags;
      }),
    )
unfolding parse_dtmf_payload
parse_fresh d event flags hi lo rest e f = rw (f, e)

-- The digits that a run of packets reports.
pub reports : DtmfDetector → List (List ℕ) → DtmfDetector × List DtmfDigit
reports d [] = (d, [])
reports d (p ∷ ps) =
    let (d', parsed) = parse_dtmf_payload d p in
    let (d'', digits) = reports d' ps in (d'', elim parsed [ digit x ↦ x ∷ digits | _ ↦ digits ])

-- A packet of the key `event`, with its flags and duration.
pub record Packet : Type 0 where
  pub flags : ℕ
  pub hi : ℕ
  pub lo : ℕ

abbrev pub payload : ℕ → Packet → List ℕ
payload event p = event ∷ p.flags ∷ p.hi ∷ p.lo ∷ []

-- Packets that all have the same end bit.
abbrev pub EndsAre : Bool → List Packet → Type 0
EndsAre b = All (λ p. end_bit p.flags ≡ b)

-- What follows the first packet of a run with one end bit reports nothing.
reports_rest :
    (d : DtmfDetector) (event : ℕ) (b : Bool) (ps : List Packet) (more : List (List ℕ))
    → d.last_event ≡ event
    → d.last_end ≡ b
    → EndsAre b ps
    → reports d (map (payload event) ps ++ more) ≡ reports d more
unfolding reports parse_dtmf_payload
reports_rest d event b [] more e f h = refl
reports_rest d event b (p ∷ ps) more e f h = ground (arith, reports_rest d event b ps more)

-- The digit of a packet.
abbrev pub digit_of : ℕ → String → Packet → DtmfDigit
digit_of rate name p = record {
  digit = name;
  duration_ms = if ltb 0 rate then (p.hi * 256 + p.lo) * 1000 / rate else 0;
  volume = p.flags % 64;
  is_end = end_bit p.flags;
}

-- A run of packets of one end bit reports the digit of its first packet.
reports_run :
    (d : DtmfDetector) (event : ℕ) (b : Bool) (p : Packet) (ps : List Packet) {name : String}
    (more : List (List ℕ))
    → get_elem? dtmf_event_table event ≡ some name
    → (event == d.last_event && same_end b d.last_end) ≡ false
    → EndsAre b (p ∷ ps)
    → reports d (map (payload event) (p ∷ ps) ++ more) ≡ (
      (reports (record d { last_event = event; last_end = b }) more).0,
      digit_of d.sample_rate name p
          ∷ (reports (record d { last_event = event; last_end = b }) more).1,
    )
unfolding reports
reports_run d event b p ps {name} more e f ends =
    let d' : DtmfDetector = record d { last_event = event; last_end = b } in
    let first = parse_fresh d event p.flags p.hi p.lo [] {name = name} e (rw ends.0 f) in
    let rest = reports_rest d' event b ps more refl refl ends.1 in
    ground (arith, first, rest, ends.0)

-- A pressed key, some packets without the end bit and then some with it, is reported exactly twice,
-- by the first packet of each kind, and the detector is then ready for a press of any key, of the
-- same one too. The hypothesis on the detector holds after a reset, and after a press.
pub reports-press :
    (d : DtmfDetector) (event : ℕ) (s : Packet) (ss : List Packet) (e : Packet) (es : List Packet)
    {name : String}
    → get_elem? dtmf_event_table event ≡ some name
    → (event ≢ d.last_event) ⊎ (d.last_end ≡ true)
    → EndsAre false (s ∷ ss)
    → EndsAre true (e ∷ es)
    → reports d (map (payload event) (s ∷ ss) ++ map (payload event) (e ∷ es)) ≡ (
      record d { last_event = event; last_end = true },
      digit_of d.sample_rate name s ∷ digit_of d.sample_rate name e ∷ [],
    )
unfolding reports
reports-press d event s ss e es {name} known ready starts ends =
    let began : DtmfDetector = record d { last_event = event; last_end = false } in
    let first =
      reports_run d event false s ss {name = name} (map (payload event) (e ∷ es)) known
        (ground arith) starts in
    let second = reports_run began event true e es {name = name} [] known (ground arith) ends in
    let all = append-nil (map (payload event) (e ∷ es)) in
    let after = ap (reports began) (sym all) ∙ second in
    first
    ∙ ap (λ (r : DtmfDetector × List DtmfDigit). (r.0, digit_of d.sample_rate name s ∷ r.1)) after

-- After a reset, as on a new call leg, every well-formed packet for one of the 16 keys reports its
-- digit, whatever was detected before.
pub parse-reset :
    (d : DtmfDetector) (event flags hi lo : ℕ) (rest : List ℕ)
    → event < 16
    → (name : String) × (get_elem? dtmf_event_table event ≡ some name)
      × ((parse_dtmf_payload (reset d) (event ∷ flags ∷ hi ∷ lo ∷ rest)).1
          ≡ digit (digit_of d.sample_rate name (record { flags = flags; hi = hi; lo = lo })))
unfolding reset
parse-reset d event flags hi lo rest h =
    let (name, known) = get_elem?-total dtmf_event_table event h in
    let fresh : (event == 255 && same_end (end_bit flags) false) ≡ false = ground arith in
    (
      name,
      known,
      ap (λ (r : DtmfDetector × Parsed). r.1)
          (parse_fresh (reset d) event flags hi lo rest {name = name} known fresh),
    )
