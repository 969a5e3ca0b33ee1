-- ===== src/TurnEnd/Detection.antt =====
-- pkg/audio/turnend.go, observe: which frames end a turn.
use mathlib.Core.List.{append-nil, append_assoc}
use clear_stream.Prelude.{
  ℕ, ◌<◌, ◌≡◌, refl, sym, ap, ap₂, ◌∙◌, Bool, false, Option, none, some, List, [], ◌∷◌, ◌++◌,
  newest, newest_all, since, ℤ, pos, leb_ℤ, Float, arith,
}
use clear_stream.TurnEnd.{
  TurnEndEvent, TurnEndTracker, OwnVad, VadEr, own_is_speech, observe, new_turn_end_tracker,
  clone_vad_for_turn_end,
}
use clear_stream.TurnEnd.Frames.{
  Follows, turn_ends, is_twentieth, ended, next, since-next, observe_decision-Follows,
}

module _ {F : Type 0} ⦃fl : Float F⦄ where
  -- The decisions of a tracker's own detector on a stream of frames, each with its time.
  unfoldable pub own_hears : List (ℕ × List ℤ) → OwnVad F → List (ℕ × Bool)
  own_hears [] v = []
  own_hears ((now, frame) ∷ frames) v =
      let (v', speech) = own_is_speech frame v in
      let later = own_hears frames v' in (now, speech) ∷ later

  unfoldable pub observes : List (ℕ × List ℤ) → TurnEndTracker F → Option (TurnEndTracker F)
  observes [] t = some t
  observes ((now, frame) ∷ frames) t = elim (observe now frame t) [
    | none ↦ none
    | some t' ↦ observes frames t'
  ]

  Follows-vad :
      (vad : OwnVad F) (last : Option ℕ) (all : List TurnEndEvent) (t : TurnEndTracker F)
      → Follows last all t
      → Follows last all (record t { vad = vad })
  Follows-vad vad last all t p = record {
    seen = p.seen;
    count = p.count;
    is_open = p.is_open;
    kept = p.kept;
    room = p.room;
  }

  observes-Follows :
      (frames : List (ℕ × List ℤ)) (past : List Bool) (all : List TurnEndEvent)
      (t : TurnEndTracker F)
      → Follows (since past) all t
      → (t' : TurnEndTracker F) × (observes frames t ≡ some t')
        × (t'.events ≡ newest t.capacity (all ++ turn_ends past (own_hears frames t.vad)))
  unfolding observes own_hears turn_ends observe
  observes-Follows [] past all t p = (t, refl, rw (append-nil all) p.kept)
  observes-Follows ((now, frame) ∷ frames) past all t p =
      let (v, b) = own_is_speech frame t.vad in
      let (t1, ok, q, vad, cap) =
        observe_decision-Follows now b (since past) all (record t { vad = v })
          (Follows-vad v (since past) all t p) in
      let (t2, rest, events) =
        observes-Follows frames (b ∷ past) (all ++ ended (is_twentieth (next b (since past))) now)
          t1 (rw (since-next b past) q) in
      let news = ended (is_twentieth (next b (since past))) now in
      let later = turn_ends (b ∷ past) (own_hears frames v) in
      let last : (all ++ news) ++ later
          ≡ all ++ (ended (is_twentieth (since (b ∷ past))) now ++ later) =
        append_assoc all news later
        ∙ ap (λ l. all ++ (ended (is_twentieth l) now ++ later)) (sym (since-next b past)) in
      (
        t2,
        ap (λ o. elim o [ none ↦ none | some t' ↦ observes frames t' ]) ok ∙ rest,
        events
            ∙ ap₂ (λ c w. newest c ((all ++ news) ++ turn_ends (b ∷ past) (own_hears frames w))) cap
                vad
            ∙ ap (newest t.capacity) last,
      )

  -- A new tracker with room for n events goes through any stream of frames without a panic, and its
  -- channel, which no one reads meanwhile, then holds the last n of the turns that ended: a turn ends
  -- at a frame just if that is the 20th silent one after a frame of speech.
  pub new_turn_end_tracker-observes :
      (n : ℕ) (vad : VadEr F) (frames : List (ℕ × List ℤ))
      → 0 < n
      → (t t' : TurnEndTracker F) × (new_turn_end_tracker (pos n) vad ≡ some t)
        × (observes frames t ≡ some t')
        × (t'.events ≡ newest n (turn_ends [] (own_hears frames (clone_vad_for_turn_end vad))))
  unfolding new_turn_end_tracker since
  new_turn_end_tracker-observes n vad frames h =
      let t : TurnEndTracker F = record {
        vad = clone_vad_for_turn_end vad;
        saw_speech = false;
        silence_frames = 0;
        capacity = n;
        events = [];
        closed = false;
      } in
      let start : Follows none [] t = record {
        seen = refl;
        count = refl;
        is_open = refl;
        kept = sym (newest_all n [] (omega arith));
        room = h;
      } in
      let (t', run, events) = observes-Follows frames [] [] t start in
      let positive : leb_ℤ (pos n) (pos 0) ≡ false = ground arith in
      (t, t', rw positive refl, run, events)
