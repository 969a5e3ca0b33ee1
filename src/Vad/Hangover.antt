-- ===== src/Vad/Hangover.antt =====
-- pkg/audio/vad.go, IsSpeech: how long a frame of speech lasts.
use clear_stream.Prelude.{
  ℕ, suc, ◌-◌, ◌≡◌, refl, ap, ◌∙◌, Bool, true, false, Option, none, some, List, [], ◌∷◌, map, ℤ,
  pos, Float, geb, since, any_true, one_more, within, any_true-take, take, arith,
}
use clear_stream.Vad.{Vad, decide, is_speech, threshold, rms_energy}

-- What is left of the hangover, that many frames after the last loud one.
abbrev left : ℕ → Option ℕ → ℕ
left n none = 0
left n (some k) = n - k

-- Whether each frame counts as speech if it does where it or one of the n before it is loud.
unfoldable pub held : ℕ → List Bool → List Bool → List Bool
held n past [] = []
held n past (b ∷ bs) = any_true (take (suc n) (b ∷ past)) ∷ held n (b ∷ past) bs

module _ {F : Type 0} where
  -- The detector after a history, and its decision on a frame.
  decide-since :
      (v : Vad F) (n : ℕ) (b : Bool) (past : List Bool)
      → v.hangover_frames ≡ pos n
      → decide b (record v { hangover = pos (left n (since past)) })
        ≡ (record v { hangover = pos (left n (since (b ∷ past))) }, within n (since (b ∷ past)))
  unfolding decide since
  decide-since v n true past h = ground (arith, h)
  decide-since v n false past h = quiet (since past)
    where
      quiet :
          (o : Option ℕ)
          → decide false (record v { hangover = pos (left n o) })
            ≡ (record v { hangover = pos (left n (one_more o)) }, within n (one_more o))
      quiet none = refl
      quiet (some k) = ground arith

module _ {F : Type 0} ⦃fl : Float F⦄ where
  -- The energy of a frame reaches the threshold.
  abbrev pub is_loud : Vad F → List ℤ → Bool
  is_loud v frame = geb (rms_energy frame) (threshold v)

  -- The detector's decisions on a stream of frames.
  unfoldable pub hears : List (List ℤ) → Vad F → List Bool
  hears [] v = []
  hears (frame ∷ frames) v =
      let (v', speech) = is_speech frame v in let later = hears frames v' in speech ∷ later

  hears-since :
      (v : Vad F) (n : ℕ) (past : List Bool) (frames : List (List ℤ))
      → v.hangover_frames ≡ pos n
      → hears frames (record v { hangover = pos (left n (since past)) })
        ≡ held n past (map (is_loud v) frames)
  unfolding hears held is_speech decide any_true threshold rms_energy
  hears-since v n past [] h = refl
  hears-since v n past (frame ∷ frames) h =
      let b = is_loud v frame in
      rw (decide-since v n b past h, any_true-take n (b ∷ past))
        (ap (◌∷◌ (within n (since (b ∷ past)))) (hears-since v n (b ∷ past) frames h))

  -- A detector that starts with no hangover takes a frame for speech just if the frame or one of the
  -- `hangover_frames` before it is loud.
  pub hears-held :
      (v : Vad F) (n : ℕ) (frames : List (List ℤ))
      → v.hangover_frames ≡ pos n
      → v.hangover ≡ pos 0
      → hears frames v ≡ held n [] (map (is_loud v) frames)
  unfolding since
  hears-held v n frames h start =
      ap (λ x. hears frames (record v { hangover = x })) start ∙ hears-since v n [] frames h
