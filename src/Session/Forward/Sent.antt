-- ===== src/Session/Forward/Sent.antt =====
-- pkg/rtp/session.go, handlePacket: what a call may send. The outside is the log of the datagrams that
-- were written, each with its destination.
use clear_stream.Prelude.{
  ℕ, zero, suc, ◌+◌, ◌≡◌, ◌⊎◌, Bool, true, false, ◌≢◌, Option, none, some, List, [], ◌∷◌, ◌++◌, ℤ,
  u64, Float,
}
use clear_stream.Jitter.{JitterBuffer}
use clear_stream.Jitter.Plc.{generate_plc}
use clear_stream.Header.{RtpHeader, build_rtp_packet}
use clear_stream.Session.Pcm.{bytes_to_int16_slice, int16_slice_to_bytes}
use clear_stream.Session.Data.{
  done, Handled, Config, Outside, Session, encode_from_pcm, decode_to_pcm,
}

abbrev pub Log : Type 0
Log = List (ℕ × List ℕ)

-- The same packet to the destinations from i on.
abbrev pub fan_out : ℕ → ℕ → List ℕ → Log
fan_out i zero packet = []
fan_out i (suc n) packet = (i, packet) ∷ fan_out (suc i) n packet

-- An error, or a panic, with nothing sent or counted; or one packet went, under that header and with a payload as `Q` tells,
-- to each destination in their order, and was counted once.
abbrev pub SendsOne :
    {F P : Type 0}
    → Config
    → RtpHeader
    → (List ℕ → Type 0)
    → ℕ
    → Log
    → Session F P × Log × Handled
    → Type 0
SendsOne cfg h Q count w (s', w', r) =
    ((w' ≡ w) × (s'.packets_sent ≡ count) × (r ≢ done))
    ⊎ ((payload : List ℕ) × Q payload
        × (w' ≡ w ++ fan_out 0 (suc cfg.forks) (build_rtp_packet h payload))
        × (s'.packets_sent ≡ u64 (count + 1))
        × (r ≡ done))

-- With nothing to play, nothing is sent or counted.
abbrev pub Forwards :
    {F P : Type 0}
    → Config
    → RtpHeader
    → Bool
    → (List ℕ → Type 0)
    → ℕ
    → Log
    → Session F P × Log × Handled
    → Type 0
Forwards cfg h plays Q count w (s', w', r) =
    ((plays ≡ false) × (w' ≡ w) × (s'.packets_sent ≡ count))
    ⊎ ((plays ≡ true) × SendsOne cfg h Q count w (s', w', r))

module _ {P W : Type 0} (o : Outside P W) (cfg : Config) (h : RtpHeader) where
  -- The payload is the samples as the pipeline in state `p` answers them, encoded anew.
  abbrev pub IsCleaned : P → List ℤ → List ℕ → Type 0
  IsCleaned p samples payload =
      (bytes : List ℕ) × ((o.process_frames p (int16_slice_to_bytes samples)).1 ≡ some bytes)
      × (encode_from_pcm o cfg (bytes_to_int16_slice bytes) h.payload_type ≡ some payload)

  -- The payload is the concealment of a lost frame, or the frame decoded, as it was cleaned.
  abbrev pub IsVoice :
      {F : Type 0} → ⦃fl : Float F⦄ → JitterBuffer F → P → Option (List ℕ) → List ℕ → Type 0
  IsVoice {F = F} j p none payload =
      (j' : JitterBuffer F) × (samples : List ℤ) × (generate_plc j ≡ some (j', samples))
      × IsCleaned p samples payload
  IsVoice j p (some frame) payload =
      (samples : List ℤ) × (decode_to_pcm o cfg frame h.payload_type ≡ some samples)
      × IsCleaned p samples payload

  -- A frame that is not lost goes out as it is where the pipeline is bypassed.
  abbrev pub IsPlayed :
      {F : Type 0} → ⦃fl : Float F⦄ → JitterBuffer F → P → Option (List ℕ) → List ℕ → Type 0
  IsPlayed j p none payload = IsVoice j p none payload
  IsPlayed j p (some frame) payload =
      ((o.is_bypass p ≡ true) × (payload ≡ frame))
      ⊎ ((o.is_bypass p ≡ false) × IsVoice j p (some frame) payload)
