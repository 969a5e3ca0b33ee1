-- ===== src/Diarizer.antt =====
-- pkg/audio/diarize.go: who speaks when, by the energy of the two channels.
pub mod Segments
pub mod Timeline
pub mod Totals
use clear_stream.Prelude.{
  ℕ, ◌+◌, ◌-◌, Bool, true, false, Option, none, some, List, [], ◌∷◌, ◌++◌, if◌then◌else◌, length,
  ltb, ℤ, pos, negsuc, pos_part, neg_part, sub_ℕ, leb_ℤ, ltb_ℤ, Float, geb,
}

pub data SpeakerLabel : Type 0 where
  near far silence : SpeakerLabel

abbrev pub same_speaker : SpeakerLabel → SpeakerLabel → Bool
same_speaker near near = true
same_speaker far far = true
same_speaker silence silence = true
same_speaker _ _ = false

-- The end is -1 while the segment goes on.
pub record DiarizedSegment (F : Type 0) : Type 0 where
  pub speaker : SpeakerLabel
  pub start_ms : ℕ
  pub end_ms : ℤ
  pub energy_rms : F

pub record EnergyDiarizerConfig (F : Type 0) : Type 0 where
  pub silence_threshold : F
  pub speaker_change_gap_ms : ℤ
  pub sample_rate : ℤ

pub record EnergyDiarizer (F : Type 0) : Type 0 where
  pub cfg : EnergyDiarizerConfig F
  pub segments : List (DiarizedSegment F)
  pub current : DiarizedSegment F
  pub sil_start_ms : ℤ  -- -1 if not in silence
  pub session_start_ms : ℕ
  pub started : Bool
  pub far_end_rms : F

abbrev positive_or : ℤ → ℤ → ℤ
positive_or a default = if leb_ℤ a (pos 0) then default else a

abbrev pub is_silence : SpeakerLabel → Bool
is_silence silence = true
is_silence _ = false

-- When the run of silence began: now, if there was none.
abbrev pub silence_since : ℤ → ℕ → ℕ
silence_since (pos since) now = since
silence_since (negsuc n) now = now

-- The first frame starts the session.
unfoldable pub start_session : {F : Type 0} → ℕ → EnergyDiarizer F → EnergyDiarizer F
start_session now d = if d.started then d else record d {
  session_start_ms = now;
  started = true;
  current = record d.current { start_ms = now };
}

module _ {F : Type 0} ⦃fl : Float F⦄ where
  sum_normalized : F → List ℤ → F
  sum_normalized sum [] = sum
  sum_normalized sum (s ∷ samples) =
      let v = fl.div (fl.of_int s) (fl.of_int (pos 32768)) in
      sum_normalized (fl.add sum (fl.mul v v)) samples

  -- The energy of a frame, between 0 and 1.
  unfoldable pub rms : List ℤ → F
  unfolding sum_normalized
  rms [] = fl.of_int (pos 0)
  rms (s ∷ samples) = fl.sqrt (
      fl.div (sum_normalized (fl.of_int (pos 0)) (s ∷ samples))
        (fl.of_int (pos (length (s ∷ samples)))))

  abbrev pub open_segment : SpeakerLabel → ℕ → DiarizedSegment F
  open_segment speaker start = record {
    speaker = speaker;
    start_ms = start;
    end_ms = negsuc 0;
    energy_rms = fl.of_int (pos 0);
  }

  unfoldable pub new_energy_diarizer : EnergyDiarizerConfig F → EnergyDiarizer F
  new_energy_diarizer cfg = record {
    cfg = record {
      silence_threshold =
          if geb (fl.of_int (pos 0)) cfg.silence_threshold
          then fl.ratio 1 100
          else cfg.silence_threshold;
      speaker_change_gap_ms = positive_or cfg.speaker_change_gap_ms (pos 300);
      sample_rate = positive_or cfg.sample_rate (pos 16000);
    };
    segments = [];
    current = open_segment silence 0;
    sil_start_ms = negsuc 0;
    session_start_ms = 0;
    started = false;
    far_end_rms = fl.of_int (pos 0);
  }

  unfoldable pub set_far_end_rms : List ℤ → EnergyDiarizer F → EnergyDiarizer F
  set_far_end_rms samples d = record d { far_end_rms = rms samples }

  -- The near end comes first if both are active.
  unfoldable pub label_of : F → EnergyDiarizer F → SpeakerLabel × F
  label_of near_energy d =
      if geb near_energy d.cfg.silence_threshold
      then (near, near_energy)
      else if geb d.far_end_rms d.cfg.silence_threshold
      then (far, d.far_end_rms)
      else (silence, fl.of_int (pos 0))

  -- A frame of speech ends a segment of another speaker.
  unfoldable pub speak : SpeakerLabel → F → ℕ → EnergyDiarizer F → EnergyDiarizer F
  speak label energy now d =
      if same_speaker d.current.speaker label
      then record d { sil_start_ms = negsuc 0; current = record d.current { energy_rms = energy } }
      else record d {
        sil_start_ms = negsuc 0;
        segments = d.segments ++ record d.current { end_ms = pos now; energy_rms = energy } ∷ [];
        current = record (open_segment label now) { energy_rms = energy };
      }

  -- Silence that lasts long enough ends a segment of speech, where the silence began.
  unfoldable pub end_speech : ℕ → ℕ → EnergyDiarizer F → EnergyDiarizer F
  end_speech since now d =
      if leb_ℤ d.cfg.speaker_change_gap_ms (sub_ℕ now since)
      then (if is_silence d.current.speaker
          then record d { sil_start_ms = pos since }
          else record d {
            sil_start_ms = pos since;
            segments = d.segments ++ record d.current { end_ms = pos since } ∷ [];
            current = open_segment silence since;
          })
      else record d { sil_start_ms = pos since }

  unfoldable pub stay_silent : ℕ → EnergyDiarizer F → EnergyDiarizer F
  stay_silent now d = end_speech (silence_since d.sil_start_ms now) now d

  unfoldable pub classify :
      SpeakerLabel × F → ℕ → EnergyDiarizer F → EnergyDiarizer F × SpeakerLabel
  classify (silence, energy) now d = (stay_silent now d, silence)
  classify (near, energy) now d = (speak near energy now d, near)
  classify (far, energy) now d = (speak far energy now d, far)

  unfoldable pub process_frame : List ℤ → ℕ → EnergyDiarizer F → EnergyDiarizer F × SpeakerLabel
  process_frame samples frame_ms d =
      classify (label_of (rms samples) d) frame_ms (start_session frame_ms d)

  -- The start of the session is kept until the next frame.
  unfoldable pub reset : EnergyDiarizer F → EnergyDiarizer F
  reset d = record d {
    segments = [];
    current = open_segment silence 0;
    sil_start_ms = negsuc 0;
    started = false;
    far_end_rms = fl.of_int (pos 0);
  }

-- Stats without AvgTurnMs, which `avg_turn_ms` computes.
pub record SpeakerStats : Type 0 where
  pub total_ms : ℤ
  pub speech_ms : ℤ
  pub silence_ms : ℤ
  pub turns : ℕ

abbrev pub add_ℤ : ℤ → ℤ → ℤ
add_ℤ a b = sub_ℕ (pos_part a + pos_part b) (neg_part a + neg_part b)

-- a - b, for a time b.
abbrev pub minus_ℕ : ℤ → ℕ → ℤ
minus_ℕ a b = sub_ℕ (pos_part a) (neg_part a + b)

module _ {F : Type 0} where
  unfoldable pub add_segments : List (DiarizedSegment F) → SpeakerStats → SpeakerStats
  add_segments [] stats = stats
  add_segments (s ∷ segs) stats =
      let dur = minus_ℕ s.end_ms s.start_ms in
      add_segments segs (
        if same_speaker s.speaker silence
        then record stats { silence_ms = add_ℤ stats.silence_ms dur }
        else record stats { speech_ms = add_ℤ stats.speech_ms dur; turns = stats.turns + 1 })

  unfoldable pub stats : ℕ → EnergyDiarizer F → SpeakerStats
  stats now_ms d = add_segments d.segments (record {
    total_ms = sub_ℕ now_ms d.session_start_ms;
    speech_ms = pos 0;
    silence_ms = pos 0;
    turns = 0;
  })

-- SpeakerStats.AvgTurnMs
unfoldable pub avg_turn_ms : {F : Type 0} → Float F → SpeakerStats → F
avg_turn_ms fl s =
    if ltb 0 s.turns
    then fl.div (fl.of_int s.speech_ms) (fl.of_int (pos s.turns))
    else fl.of_int (pos 0)
