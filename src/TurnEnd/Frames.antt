-- ===== src/TurnEnd/Frames.antt =====
-- pkg/audio/turnend.go, observe: what one frame does, by the frames since the last speech.
use mathlib.Core.List.{append-nil}
use clear_stream.Prelude.{
  ℕ, suc, ◌+◌, ◌<◌, ◌≤◌, ◌≡◌, refl, sym, ap, ◌∙◌, ◌⊎◌, inl, inr, Bool, true, false, Option, none,
  some, List, [], ◌∷◌, ◌++◌, if◌then◌else◌, ltb, ◌==◌, length, length-append, newest, newest_all,
  newest-append, length-newest, since, one_more, arith,
}
use clear_stream.TurnEnd.{TurnEndEvent, TurnEndTracker, send_latest, fire, observe_decision}

-- Whether the last speech was just 20 frames ago.
abbrev pub is_twentieth : Option ℕ → Bool
is_twentieth none = false
is_twentieth (some k) = k == 20

abbrev pub saw : Option ℕ → Bool
saw none = false
saw (some k) = ltb k 20

abbrev pub silent : Option ℕ → ℕ
silent none = 0
silent (some k) = if ltb k 20 then k else 0

abbrev event_at : ℕ → TurnEndEvent
event_at now = record { timestamp = now; silence_ms = 200 }

abbrev pub ended : Bool → ℕ → List TurnEndEvent
ended true now = event_at now ∷ []
ended false now = []

-- The turns that end in a stream of frames, each with its time and whether it is speech: one ends at a
-- frame just if that frame is the 20th silent one after a frame of speech.
unfoldable pub turn_ends : List Bool → List (ℕ × Bool) → List TurnEndEvent
turn_ends past [] = []
turn_ends past ((now, speech) ∷ frames) =
    ended (is_twentieth (since (speech ∷ past))) now ++ turn_ends (speech ∷ past) frames

send_latest-newest :
    (n : ℕ) (e : TurnEndEvent) (all : List TurnEndEvent)
    → 0 < n
    → send_latest n e (newest n all) ≡ newest n (all ++ e ∷ [])
send_latest-newest n e all h = elim (room all) [
  | inl (less, free) ↦ rw free (
      ap (λ l. l ++ e ∷ []) (newest_all n all (omega arith))
      ∙ sym (newest_all n (all ++ e ∷ []) (omega (arith, length-append all (e ∷ [])))))
  | inr (more, full) ↦ rw full (sym (newest-append n all e h more))
]
  where
    room :
        (all : List TurnEndEvent)
        → ((length all < n) × (ltb (length (newest n all)) n ≡ true))
          ⊎ ((n ≤ length all) × (ltb (length (newest n all)) n ≡ false))
    room all = ground (arith, length-newest n all)

abbrev pub next : Bool → Option ℕ → Option ℕ
next true last = some 0
next false last = one_more last

pub since-next : (b : Bool) (past : List Bool) → since (b ∷ past) ≡ next b (since past)
unfolding since
since-next true past = refl
since-next false past = refl

age : (k : ℕ) → ((k < 19) ⊎ (k ≡ 19)) ⊎ (20 ≤ k)
age k = ground arith

module _ {F : Type 0} where
  -- The tracker some frames after the last speech, when the turns of a list have ended.
  pub record Follows (last : Option ℕ) (all : List TurnEndEvent) (t : TurnEndTracker F)
      : Type 0 where
    pub seen : t.saw_speech ≡ saw last
    pub count : t.silence_frames ≡ silent last
    pub is_open : t.closed ≡ false
    pub kept : t.events ≡ newest t.capacity all
    pub room : 0 < t.capacity

  abbrev Observes : ℕ → Bool → Option ℕ → List TurnEndEvent → TurnEndTracker F → Type 0
  Observes now b last all t =
      (t' : TurnEndTracker F) × (observe_decision now b t ≡ some t')
      × Follows last (all ++ ended (is_twentieth last) now) t'
      × (t'.vad ≡ t.vad)
      × (t'.capacity ≡ t.capacity)

  observe-silence :
      (now k : ℕ) (all : List TurnEndEvent) (t : TurnEndTracker F)
      → Follows (some k) all t
      → Observes now false (some (suc k)) all t
  unfolding observe_decision fire
  observe-silence now k all t p = elim (age k) [
    | inl (inl early) ↦
        let yes : t.saw_speech ≡ true = ground (arith, p.seen) in
        let few : ltb (t.silence_frames + 1) 20 ≡ true = ground (arith, p.count) in
        let no : is_twentieth (some (suc k)) ≡ false = ground arith in
        (
          record t { silence_frames = t.silence_frames + 1 },
          simp (yes, few) refl,
          record {
            seen = ground (arith, p.seen);
            count = ground (arith, p.count);
            is_open = p.is_open;
            kept = rw (no, append-nil all) p.kept;
            room = p.room;
          },
          refl,
          refl,
        )
    | inl (inr exact) ↦
        let seen : t.saw_speech ≡ true = ground (arith, p.seen) in
        let count : t.silence_frames ≡ 19 = ground (arith, p.count) in
        let full : is_twentieth (some (suc k)) ≡ true = ground arith in
        let sent =
          ap (send_latest t.capacity (event_at now)) p.kept
          ∙ send_latest-newest t.capacity (event_at now) all p.room in
        (
          record t {
            events = send_latest t.capacity (event_at now) t.events;
            saw_speech = false;
            silence_frames = 0;
          },
          simp (seen, count, p.is_open) refl,
          record {
            seen = ground arith;
            count = ground arith;
            is_open = p.is_open;
            kept = rw full sent;
            room = p.room;
          },
          refl,
          refl,
        )
    | inr late ↦
        let unseen : t.saw_speech ≡ false = ground (arith, p.seen) in
        let other : is_twentieth (some (suc k)) ≡ false = ground arith in
        (
          t,
          rw unseen refl,
          record {
            seen = ground (arith, p.seen);
            count = ground (arith, p.count);
            is_open = p.is_open;
            kept = rw (other, append-nil all) p.kept;
            room = p.room;
          },
          refl,
          refl,
        )
  ]

  pub observe_decision-Follows :
      (now : ℕ) (b : Bool) (last : Option ℕ) (all : List TurnEndEvent) (t : TurnEndTracker F)
      → Follows last all t
      → Observes now b (next b last) all t
  unfolding observe_decision
  observe_decision-Follows now true last all t p = (
    record t { saw_speech = true; silence_frames = 0 },
    refl,
    record {
      seen = refl;
      count = refl;
      is_open = p.is_open;
      kept = rw (append-nil all) p.kept;
      room = p.room;
    },
    refl,
    refl,
  )
  observe_decision-Follows now false none all t p = (
    t,
    rw p.seen refl,
    record {
      seen = p.seen;
      count = p.count;
      is_open = p.is_open;
      kept = rw (append-nil all) p.kept;
      room = p.room;
    },
    refl,
    refl,
  )
  observe_decision-Follows now false (some k) all t p = observe-silence now k all t p
