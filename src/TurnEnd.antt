-- ===== src/TurnEnd.antt =====
-- pkg/audio/turnend.go: the end of a speaker's turn.
pub mod Detection
pub mod Frames
use clear_stream.Prelude.{
  ℕ, suc, ◌+◌, ◌-◌, ◌*◌, Bool, true, false, Option, none, some, List, [], ◌∷◌, ◌++◌, if◌then◌else◌,
  ltb, length, drop, ℤ, pos, Float, leb_ℤ, pos_part,
}
use clear_stream.Vad.{Vad, is_speech, reset, set_threshold_rms}
use clear_stream.Vad.Adaptive.{AdaptiveVad, is_speech_adaptive, reset_adaptive}

abbrev pub turn_end_silence_frame_threshold : ℕ
turn_end_silence_frame_threshold = 20

abbrev pub turn_end_frame_duration_ms : ℕ
turn_end_frame_duration_ms = 10

pub record TurnEndEvent : Type 0 where
  pub timestamp : ℕ
  pub silence_ms : ℕ

-- The detectors that the tracker knows, and any other.
pub data VadEr (F : Type 0) : Type 0 where
  plain : Vad F → VadEr F
  adaptive : AdaptiveVad F → VadEr F
  other : VadEr F

-- The tracker's own detector is of one of the two kinds it knows; `events` is the channel, oldest first.
pub data OwnVad (F : Type 0) : Type 0 where
  plain_own : Vad F → OwnVad F
  adaptive_own : AdaptiveVad F → OwnVad F

pub record TurnEndTracker (F : Type 0) : Type 0 where
  pub vad : OwnVad F
  pub saw_speech : Bool
  pub silence_frames : ℕ
  pub capacity : ℕ
  pub events : List TurnEndEvent
  pub closed : Bool

module _ {F : Type 0} ⦃fl : Float F⦄ where
  -- A detector of its own, with no hangover and, if it is adaptive, not calibrated.
  unfoldable pub clone_vad_for_turn_end : VadEr F → OwnVad F
  clone_vad_for_turn_end (plain v) =
      plain_own (record v { hangover_frames = pos 0; hangover = pos 0 })
  clone_vad_for_turn_end (adaptive a) = adaptive_own (record a {
    vad = record a.vad { hangover_frames = pos 0; hangover = pos 0 };
    calibrated = false;
    frame_count = 0;
    rms_window = [];
    total_frames = 0;
    speech_frames = 0;
  })
  clone_vad_for_turn_end other = plain_own (record {
    threshold_rms = fl.of_int (pos 300);
    hangover_frames = pos 0;
    hangover = pos 0;
    threshold_override = none;
  })

  -- No tracker without a buffer for its events.
  unfoldable pub new_turn_end_tracker : ℤ → VadEr F → Option (TurnEndTracker F)
  new_turn_end_tracker buf_size vad =
      if leb_ℤ buf_size (pos 0)
      then none
      else some (record {
        vad = clone_vad_for_turn_end vad;
        saw_speech = false;
        silence_frames = 0;
        capacity = pos_part buf_size;
        events = [];
        closed = false;
      })

  abbrev pub own_is_speech : List ℤ → OwnVad F → OwnVad F × Bool
  own_is_speech frame (plain_own v) = let (v', speech) = is_speech frame v in (plain_own v', speech)
  own_is_speech frame (adaptive_own a) =
      let (a', speech) = is_speech_adaptive frame a in (adaptive_own a', speech)

-- The two selects: the oldest event makes room for the new one if the channel is full.
abbrev pub send_latest : ℕ → TurnEndEvent → List TurnEndEvent → List TurnEndEvent
send_latest capacity e events =
    if ltb (length events) capacity then events ++ e ∷ [] else drop 1 events ++ e ∷ []

module _ {F : Type 0} where
  -- The event of a turn's end, after which speech must come first; sending it on a closed channel
  -- panics, which is `none`.
  unfoldable pub fire : ℕ → TurnEndTracker F → Option (TurnEndTracker F)
  fire now t =
      let event : TurnEndEvent = record {
        timestamp = now;
        silence_ms = t.silence_frames * turn_end_frame_duration_ms;
      } in
      if t.closed
      then none
      else some (record t {
        events = send_latest t.capacity event t.events;
        saw_speech = false;
        silence_frames = 0;
      })

  -- A frame, once it is known to be speech or not.
  unfoldable pub observe_decision : ℕ → Bool → TurnEndTracker F → Option (TurnEndTracker F)
  observe_decision now true t = some (record t { saw_speech = true; silence_frames = 0 })
  observe_decision now false t =
      let longer = record t { silence_frames = t.silence_frames + 1 } in
      if t.saw_speech
      then (if ltb longer.silence_frames turn_end_silence_frame_threshold
          then some longer
          else fire now longer)
      else some t

module _ {F : Type 0} ⦃fl : Float F⦄ where
  unfoldable pub observe : ℕ → List ℤ → TurnEndTracker F → Option (TurnEndTracker F)
  observe now frame t =
      let (vad, speech) = own_is_speech frame t.vad in
      observe_decision now speech (record t { vad = vad })

  abbrev pub own_set_threshold : F → OwnVad F → OwnVad F
  own_set_threshold x (plain_own v) = plain_own (set_threshold_rms x v)
  own_set_threshold x (adaptive_own a) = adaptive_own (record a { vad = set_threshold_rms x a.vad })

  unfoldable pub set_threshold : F → TurnEndTracker F → TurnEndTracker F
  set_threshold x t = record t { vad = own_set_threshold x t.vad }

module _ {F : Type 0} where
  abbrev pub own_reset : OwnVad F → OwnVad F
  own_reset (plain_own v) = plain_own (reset v)
  own_reset (adaptive_own a) = adaptive_own (reset_adaptive a)

  -- The channel stays open, and keeps its events.
  unfoldable pub reset_tracker : TurnEndTracker F → TurnEndTracker F
  reset_tracker t = record t { vad = own_reset t.vad; saw_speech = false; silence_frames = 0 }

  -- Once; a second call does nothing.
  unfoldable pub close : TurnEndTracker F → TurnEndTracker F
  close t = record t { closed = true }
