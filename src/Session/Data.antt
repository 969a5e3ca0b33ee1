-- ===== src/Session/Data.antt =====
-- pkg/rtp/session.go: the data of a session, its codecs and its destinations.
use clear_stream.Prelude.{
  ℕ, zero, suc, Bool, true, false, Option, some, List, [], ◌∷◌, ◌++◌, ltb, ◌==◌, if◌then◌else◌,
  length, drop, ℤ, pos,
}
use clear_stream.Jitter.{JitterBuffer}
use clear_stream.Dtmf.{DtmfDetector, DtmfDigit, Parsed, digit, duplicate, failed}
use clear_stream.Rtcp.{ReceiverReport, SenderReport}
use clear_stream.G711.{decode_g711u, decode_g711a, encode_g711u, encode_g711a}
use clear_stream.Session.Pcm.{bytes_to_int16_slice, int16_slice_to_bytes}

-- audio.Codec; `other_codec` is any other string, and "".
pub data Codec : Type 0 where
  unknown pcm g711u g711a opus g722 g729 other_codec : Codec

pub record Config : Type 0 where
  pub codec : Codec
  pub dtmf_payload_type : ℕ  -- uint8
  pub has_on_dtmf : Bool
  pub forks : ℕ  -- how many fork destinations there are
  pub clean_audio_buffer_size : ℕ  -- 0 for no clean-audio feed

pub record CleanAudioFrame : Type 0 where
  pub pcm : List ℤ
  pub timestamp : ℕ

-- What a session calls of the audio pipeline (`P` is its state), of FFmpeg and of the outside (`W`):
-- `none` is an error, destination 0 the primary one, and the Boolean tells whether a write succeeded.
pub record Outside (P W : Type 0) : Type 0 where
  pub process_frames : P → List ℕ → P × Option (List ℕ)
  pub reset_pipeline : P → P
  pub is_bypass : P → Bool
  pub decode_via_ffmpeg : Codec → List ℕ → Option (List ℤ)
  pub encode_via_ffmpeg : Codec → List ℤ → Option (List ℕ)
  pub on_dtmf : DtmfDigit → W → W
  pub write_to : ℕ → List ℕ → W → Bool × W

pub record Session (F P : Type 0) : Type 0 where
  pub jitter : JitterBuffer F
  pub pipeline : P
  pub dtmf : DtmfDetector
  pub clean_audio : List CleanAudioFrame
  pub current_ssrc : ℕ  -- uint32
  pub ssrc_set : Bool
  pub packets_sent : ℕ  -- uint64
  pub packets_lost : ℕ  -- uint64
  pub rtcp_stats : ReceiverReport
  pub last_sr : SenderReport
  pub last_sr_received_at : Option ℕ  -- `none` is the zero time

pub data SessionError : Type 0 where
  packet_too_short : ℕ → SessionError
  bad_header decode_failed suppress_failed encode_failed forward_failed : SessionError

-- `panics` is a slice index out of range.
pub data Handled : Type 0 where
  done panics : Handled
  failed_with : SessionError → Handled

abbrev pub no_receiver_report : ReceiverReport
no_receiver_report = record {
  ssrc = 0;
  fraction_lost = 0;
  cumulative_lost = pos 0;
  highest_seq = 0;
  jitter = 0;
  last_sr = 0;
  delay_since_last_sr = 0;
}

abbrev pub no_sender_report : SenderReport
no_sender_report = record {
  ssrc = 0;
  ntp_sec = 0;
  ntp_frac = 0;
  rtp_timestamp = 0;
  packet_count = 0;
  octet_count = 0;
}

unfoldable pub payload_type_to_codec : ℕ → Codec
payload_type_to_codec pt =
    if pt == 0
    then g711u
    else if pt == 8
    then g711a
    else if pt == 9
    then g722
    else if pt == 18
    then g729
    else if pt == 111
    then opus
    else if pt == 120
    then opus
    else g711u

unfoldable pub is_ffmpeg_codec : Codec → Bool
is_ffmpeg_codec opus = true
is_ffmpeg_codec g722 = true
is_ffmpeg_codec g729 = true
is_ffmpeg_codec other = false

-- The configured codec, or that of the packet.
abbrev pub codec_for : Codec → ℕ → Codec
codec_for unknown pt = payload_type_to_codec pt
codec_for pcm pt = pcm
codec_for g711u pt = g711u
codec_for g711a pt = g711a
codec_for opus pt = opus
codec_for g722 pt = g722
codec_for g729 pt = g729
codec_for other_codec pt = other_codec

-- The sends to the clean-audio feed: the oldest frame makes room for the newest.
unfoldable pub deliver_clean :
    Config → CleanAudioFrame → List CleanAudioFrame → List CleanAudioFrame
deliver_clean cfg frame queue =
    if cfg.clean_audio_buffer_size == 0
    then queue
    else if ltb (length queue) cfg.clean_audio_buffer_size
    then queue ++ frame ∷ []
    else drop 1 queue ++ frame ∷ []

module _ {P W : Type 0} (o : Outside P W) (cfg : Config) where
  unfoldable pub decode_to_pcm : List ℕ → ℕ → Option (List ℤ)
  decode_to_pcm payload pt = elim (codec_for cfg.codec pt) [
    | g711u ↦ some (decode_g711u payload)
    | g711a ↦ some (decode_g711a payload)
    | pcm ↦ some (bytes_to_int16_slice payload)
    | opus ↦ o.decode_via_ffmpeg opus payload
    | g722 ↦ o.decode_via_ffmpeg g722 payload
    | g729 ↦ o.decode_via_ffmpeg g729 payload
    | _ ↦ some (bytes_to_int16_slice payload)
  ]

  unfoldable pub encode_from_pcm : List ℤ → ℕ → Option (List ℕ)
  encode_from_pcm samples pt = elim (codec_for cfg.codec pt) [
    | g711u ↦ some (encode_g711u samples)
    | g711a ↦ some (encode_g711a samples)
    | pcm ↦ some (int16_slice_to_bytes samples)
    | opus ↦ o.encode_via_ffmpeg opus samples
    | g722 ↦ o.encode_via_ffmpeg g722 samples
    | g729 ↦ o.encode_via_ffmpeg g729 samples
    | _ ↦ some (int16_slice_to_bytes samples)
  ]

  -- The writes to the fork destinations, which may fail one by one.
  unfoldable pub write_forks : ℕ → ℕ → List ℕ → W → W
  write_forks zero i packet w = w
  write_forks (suc left) i packet w = write_forks left (suc i) packet (o.write_to i packet w).1

  unfoldable pub notify : Parsed → W → W
  notify (digit d) w = if cfg.has_on_dtmf then o.on_dtmf d w else w
  notify duplicate w = w
  notify (failed e) w = w
