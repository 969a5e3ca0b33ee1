-- ===== src/Diarizer/Totals.antt =====
-- pkg/audio/diarize.go, Stats: the totals of the closed segments.
use clear_stream.Prelude.{
  ℕ, ◌+◌, ◌-◌, ◌≤◌, ◌≡◌, refl, sym, ◌∙◌, inl, inr, true, Option, List, [], ◌∷◌, ◌++◌, if◌then◌else◌,
  Bool-cases, ℤ, pos, Float, arith,
}
use clear_stream.Diarizer.{
  SpeakerLabel, silence, same_speaker, DiarizedSegment, EnergyDiarizerConfig, SpeakerStats,
  add_segments, stats, add_ℤ, minus_ℕ, new_energy_diarizer,
}
use clear_stream.Diarizer.Timeline.{
  Timeline, nothing, then_segment, IsForward, last_time, Call, run, run-IsTimeline,
}

-- The two sums, as natural numbers.
abbrev pub Sums : SpeakerStats → ℕ → Type 0
Sums s total =
    (speech quiet : ℕ) × (s.speech_ms ≡ pos speech)
    × (s.silence_ms ≡ pos quiet)
    × (speech + quiet ≡ total)

-- A sum grows by the length of a segment.
grow :
    (x : ℤ) (q : ℕ) (stop : ℤ) (start a b : ℕ)
    → x ≡ pos q
    → start ≡ a
    → stop ≡ pos b
    → a ≤ b
    → add_ℤ x (minus_ℕ stop start) ≡ pos (q + (b - a))
grow x q stop start a b h from to k = ground arith

module _ {F : Type 0} where
  abbrev add_one : DiarizedSegment F → SpeakerStats → SpeakerStats
  add_one s st =
      let dur = minus_ℕ s.end_ms s.start_ms in
      if same_speaker s.speaker silence
      then record st { silence_ms = add_ℤ st.silence_ms dur }
      else record st { speech_ms = add_ℤ st.speech_ms dur; turns = st.turns + 1 }

  add_segments-append :
      (segs : List (DiarizedSegment F)) (s : DiarizedSegment F) (st : SpeakerStats)
      → add_segments (segs ++ s ∷ []) st ≡ add_one s (add_segments segs st)
  unfolding add_segments
  add_segments-append [] s st = refl
  add_segments-append (t ∷ segs) s st = add_segments-append segs s (add_one t st)

  add_one-Sums :
      (s : DiarizedSegment F) (st : SpeakerStats) (start a b : ℕ)
      → s.start_ms ≡ a
      → s.end_ms ≡ pos b
      → start ≤ a
      → a ≤ b
      → Sums st (a - start)
      → Sums (add_one s st) (b - start)
  add_one-Sums s st start a b from to h k (speech, quiet, x, y, sum) =
      elim (Bool-cases (same_speaker s.speaker silence)) [
        | inl silent ↦ (
          speech,
          quiet + (b - a),
          simp silent x,
          simp silent (grow _ quiet _ _ a b y from to k),
          omega arith,
        )
        | inr spoke ↦ (
          speech + (b - a),
          quiet,
          simp spoke (grow _ speech _ _ a b x from to k),
          simp spoke y,
          omega arith,
        )
      ]

  Timeline-le :
      (start : ℕ) (segs : List (DiarizedSegment F)) (b : ℕ) (last : Option SpeakerLabel)
      → Timeline start segs b last
      → start ≤ b
  Timeline-le start _ _ _ nothing = omega arith
  Timeline-le start _ b _ (then_segment line s from to h d) =
      omega (arith, Timeline-le start _ _ _ line)

  Timeline-Sums :
      (start : ℕ) (segs : List (DiarizedSegment F)) (b : ℕ) (last : Option SpeakerLabel)
      (st : SpeakerStats)
      → Timeline start segs b last
      → (st.speech_ms ≡ pos 0) × (st.silence_ms ≡ pos 0)
      → Sums (add_segments segs st) (b - start)
  unfolding add_segments
  Timeline-Sums start _ b _ st nothing (x, y) = (0, 0, x, y, omega arith)
  Timeline-Sums start _ b _ st (then_segment {segs} {a} line s from to h d) zero_sums =
      rw (add_segments-append segs s st) (
        add_one-Sums s (add_segments segs st) start a b from to (Timeline-le start _ _ _ line) h
          (Timeline-Sums start segs a _ st line zero_sums))

module _ {F : Type 0} ⦃fl : Float F⦄ where
  -- In a session that has started, of calls whose frame times do not go back, the times of speech and
  -- of silence that Stats gives add up to the time from the session's start to that of the open
  -- segment, which the last frame does not precede.
  pub stats-Sums :
      (cfg : EnergyDiarizerConfig F) (calls : List Call) (now : ℕ)
      → IsForward 0 calls
      → (run calls (new_energy_diarizer cfg)).started ≡ true
      → let d = run calls (new_energy_diarizer cfg) in
        Sums (stats now d) (d.current.start_ms - d.session_start_ms)
        × (d.session_start_ms ≤ d.current.start_ms)
        × (d.current.start_ms ≤ last_time 0 calls)
  unfolding stats
  stats-Sums cfg calls now h going = elim (run-IsTimeline cfg calls h) [
    | inl (fresh, p) ↦ let no = sym fresh ∙ going in absurd (ground arith)
    | inr (started, p) ↦
        (Timeline-Sums _ _ _ _ _ p.closed (refl, refl), Timeline-le _ _ _ _ p.closed, p.begun)
  ]
