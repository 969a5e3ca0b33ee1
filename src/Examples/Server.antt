-- ===== src/Examples/Server.antt =====
-- The theorems on the AgentStream server at concrete inputs: messages of one letter, of frames of two
-- bytes.
use clear_stream.Prelude.{
  ℕ, ◌≡◌, refl, inl, true, false, Option, none, some, List, [], ◌∷◌, codes, ◌==◌, if◌then◌else◌, ℤ,
  pos,
}
use clear_stream.StreamState.{streaming, completed}
use clear_stream.AgentServer.Events.{MediaEvent}
use clear_stream.AgentServer.{Incoming, CallState, Outside, text_message, handle_media, handle_stop}
use clear_stream.AgentServer.Serve.{serve_ws}
use clear_stream.AgentServer.Serving.{serve_ws-GoesOn}
use clear_stream.AgentServer.Stopped.{in_state, handle_media-handle_stop}
use clear_stream.AgentServer.Validity.{IsValid}
use clear_stream.Examples.{thousandths}
use clear_stream.Examples.Stream.{stages, setup, empty}

abbrev event_of : List ℕ → Option (List ℕ)
event_of [] = none
event_of (c ∷ text) =
    if c == 1
    then some (codes "start")
    else if c == 2
    then some (codes "media")
    else some (codes "stop")

abbrev media : MediaEvent
media = record {
  track = [];
  codec = [];
  sample_rate = pos 100;
  timestamp_ms = pos 0;
  payload = 1 ∷ 2 ∷ 3 ∷ 4 ∷ [];
}

abbrev bench : Outside ℤ ℕ
bench = record {
  envelope = event_of;
  start_event = λ text. some (record {
    call_sid = [];
    stream_sid = 7 ∷ [];
    sample_rate = pos 100;
    custom_parameters = (codes "ns_agc", codes "true") ∷ [];
  });
  media_event = λ text. some media;
  reconfigure_event = λ text. none;
  stop_event = λ text. true;
  decode_string = λ text. some text;
  encode_to_string = λ bytes. bytes;
  parse_float = λ text. none;
  new_stages = λ supp agc tiers. some 0;
  stages = stages;
  settings = record {
    set_thresholds = λ high low x. x;
    set_target_rms = λ target x. x;
    set_nr_aggressiveness = λ n x. x;
    set_gate_aggressiveness = λ n x. x;
  };
  delivers = λ n event. true;
}

abbrev start_media_stop : List Incoming
start_media_stop =
    text_message (1 ∷ [])
    ∷ text_message (2 ∷ [])
    ∷ text_message (3 ∷ [])
    ∷ text_message (2 ∷ [])
    ∷ []

serve_ws-GoesOn_example :
    let r = serve_ws ⦃fl = thousandths⦄ bench (codes "passthrough") start_media_stop in
    IsValid r.0 × (r.1 ≡ false)
serve_ws-GoesOn_example =
    serve_ws-GoesOn ⦃fl = thousandths⦄ bench (codes "passthrough") start_media_stop

abbrev running : CallState ℤ ℕ
running = record {
  pipeline = some (setup, empty);
  state = streaming;
  stream_sid = 7 ∷ [];
  call_sid = [];
  sample_rate = pos 100;
  seq = 0;
  agc_enabled = true;
  tiered_enabled = false;
  sent = [];
}

handle_media-handle_stop_example :
    handle_media ⦃fl = thousandths⦄ bench media
      (handle_stop running).0.pipeline
      (handle_stop running).0
    ≡ in_state completed (handle_media ⦃fl = thousandths⦄ bench media (some (setup, empty)) running)
handle_media-handle_stop_example =
    handle_media-handle_stop ⦃fl = thousandths⦄ bench media running
      (record { numbered = (0, refl, refl); phase = (inl refl, (refl, refl, refl)) })
