-- ===== src/Playback/Inject.antt =====
-- pkg/rtp/playback.go, InjectBotAudioAtRate: how samples are cut into frames, and what is queued.
use mathlib.Core.List.{append_assoc, append-nil}
use native.Mathlib.Decide.{dec_lt}
use clear_stream.Prelude.{
  ℕ, zero, suc, ◌+◌, ◌-◌, ◌*◌, ◌/◌, ◌%◌, ◌≤◌, ◌<◌, ◌≡◌, refl, ap, ap₂, sym, ◌∙◌, true, false, List,
  [], ◌∷◌, ◌++◌, map, ltb, leb, length, length-append, length-replicate, take, take_all, All-append,
  take_add, take-append-drop, drop_all, length-drop, length-take, drop, replicate, All, ℤ, pos, u64,
  arith,
}
use clear_stream.Playback.{PlaybackQueue, push, whole_chunks, last_chunk, push_all, inject_samples}

abbrev pushed_frame : List ℕ → PlaybackQueue → PlaybackQueue
pushed_frame frame q = record q { frames = q.frames ++ frame ∷ []; pushed = u64 (q.pushed + 1) }

push_room :
    (frame : List ℕ) (q : PlaybackQueue)
    → length q.frames < q.max_depth
    → push frame q ≡ (pushed_frame frame q, true)
unfolding push
push_room frame q room = ground arith

push_full :
    (frame : List ℕ) (q : PlaybackQueue)
    → q.max_depth ≤ length q.frames
    → push frame q ≡ (record q { dropped = u64 (q.dropped + 1) }, false)
unfolding push
push_full frame q full = ground arith

-- What is queued of the chunks: as many as there is room for. They are all accepted exactly if there
-- is room for all.
push_all-frames :
    (encode : List ℤ → List ℕ) (chunks : List (List ℤ)) (q : PlaybackQueue)
    → length q.frames ≤ q.max_depth
    → ((push_all encode chunks q).0.frames
        ≡ q.frames ++ take (q.max_depth - length q.frames) (map encode chunks))
      × ((push_all encode chunks q).1 ≡ leb (length q.frames + length chunks) q.max_depth)
unfolding push_all
push_all-frames encode [] q fits =
    let nothing = take_all (q.max_depth - length q.frames) (map encode []) (omega arith) in
    (sym (ap (λ xs. q.frames ++ xs) nothing ∙ append-nil q.frames), ground arith)
push_all-frames encode (chunk ∷ chunks) q fits = elim (dec_lt (length q.frames) q.max_depth) [
  | yes room ↦
      let len = length-append q.frames (encode chunk ∷ []) in
      let later =
        push_all-frames encode chunks (pushed_frame (encode chunk) q) (omega (arith, len)) in
      let fewer : q.max_depth - length q.frames
          ≡ suc (q.max_depth - length (q.frames ++ encode chunk ∷ [])) =
        omega (arith, len) in
      rw (push_room (encode chunk) q room, fewer)
        (
          later.0 ∙ append_assoc q.frames (encode chunk ∷ []) _,
          later.1 ∙ ap (λ n. leb n q.max_depth) (omega (arith, len)),
        )
  | no full ↦
      let none_left : q.max_depth - length q.frames ≡ 0 = omega arith in
      let later = push_all-frames encode chunks (record q { dropped = u64 (q.dropped + 1) }) fits in
      rw (push_full (encode chunk) q (omega arith), none_left)
        (later.0 ∙ ap (λ n. q.frames ++ take n (map encode chunks)) none_left, ground arith)
]

abbrev cut : List ℤ → List (List ℤ)
cut samples = whole_chunks (length samples / 160) samples ++ last_chunk samples

abbrev pub join : List (List ℤ) → List ℤ
join [] = []
join (xs ∷ xss) = xs ++ join xss

join-append : (xss yss : List (List ℤ)) → join (xss ++ yss) ≡ join xss ++ join yss
join-append [] yss = refl
join-append (xs ∷ xss) yss =
    ap (λ r. xs ++ r) (join-append xss yss) ∙ sym (append_assoc xs (join xss) (join yss))

abbrev pub IsFrame : List ℤ → Type 0
IsFrame chunk = length chunk ≡ 160

whole_chunks_lem :
    (n : ℕ) (samples : List ℤ)
    → n * 160 ≤ length samples
    → (join (whole_chunks n samples) ≡ take (n * 160) samples)
      × All IsFrame (whole_chunks n samples)
      × (length (whole_chunks n samples) ≡ n)
unfolding whole_chunks
whole_chunks_lem zero samples h = (refl, tt, refl)
whole_chunks_lem (suc n) samples h =
    let later = whole_chunks_lem n (drop 160 samples) (omega (arith, length-drop 160 samples)) in
    (
      ap (λ r. take 160 samples ++ r) later.0
          ∙ sym (take_add 160 (n * 160) samples)
          ∙ ap (λ k. take k samples) (omega arith),
      (length-take 160 samples (omega arith), later.1),
      ap suc later.2,
    )

last_chunk_lem :
    (samples : List ℤ)
    → let rest = length samples % 160 in
      (join (last_chunk samples)
        ≡ drop (length samples - rest) samples ++ replicate ((160 - rest) % 160) (pos 0))
      × All IsFrame (last_chunk samples)
      × (length (last_chunk samples) ≡ (rest + 159) / 160)
unfolding last_chunk
last_chunk_lem samples = elim (dec_lt 0 (length samples % 160)) [
  | yes part ↦
      let rest = length samples % 160 in
      let tail = drop (length samples - rest) samples in
      let silence = replicate (160 - rest) (pos 0) in
      let test : ltb 0 (length samples % 160) ≡ true = ground arith in
      let same : (160 - length samples % 160) % 160 ≡ 160 - length samples % 160 = omega arith in
      rw (test, same)
        (
          append-nil (tail ++ silence),
          (
            omega (
              arith,
              length-append tail silence,
              length-drop (length samples - rest) samples,
              length-replicate (160 - rest) (pos 0),
            ),
            tt,
          ),
          omega arith,
        )
  | no whole ↦
      let test : ltb 0 (length samples % 160) ≡ false = ground arith in
      let all : length samples - length samples % 160 ≡ length samples = omega arith in
      let pad : (160 - length samples % 160) % 160 ≡ 0 = omega arith in
      rw test (
        sym (
            ap₂ (λ n k. drop n samples ++ replicate k (pos 0)) all pad
            ∙ append-nil (drop (length samples) samples)
            ∙ drop_all samples),
        tt,
        omega arith,
      )
]

cut_lem :
    (samples : List ℤ)
    → (join (cut samples) ≡ samples ++ replicate ((160 - length samples % 160) % 160) (pos 0))
      × All IsFrame (cut samples)
      × (length (cut samples) ≡ (length samples + 159) / 160)
cut_lem samples =
    let n = length samples / 160 in
    let front = whole_chunks_lem n samples (omega arith) in
    let back = last_chunk_lem samples in
    let silence = replicate ((160 - length samples % 160) % 160) (pos 0) in
    let at : n * 160 ≡ length samples - length samples % 160 = omega arith in
    (
      join-append (whole_chunks n samples) (last_chunk samples)
          ∙ ap₂ (◌++◌) (front.0 ∙ ap (λ k. take k samples) at) back.0
          ∙ sym (append_assoc (take (length samples - length samples % 160) samples) _ silence)
          ∙ ap (λ xs. xs ++ silence)
              (take-append-drop (length samples - length samples % 160) samples),
      All-append IsFrame (whole_chunks n samples) (last_chunk samples) front.1 back.1,
      omega (arith, length-append (whole_chunks n samples) (last_chunk samples), front.2, back.2),
    )

-- On a queue within its depth, the samples are cut into frames of 160 that, put together again, are the
-- samples in their order with silence for what the last frame lacks: one frame for each 160 samples
-- begun. As many of these as there is room for are queued, encoded, behind the frames that wait, and the
-- call reports true exactly if there is room for all of them.
pub inject_samples_lem :
    (encode : List ℤ → List ℕ) (samples : List ℤ) (q : PlaybackQueue)
    → length q.frames ≤ q.max_depth
    → (chunks : List (List ℤ)) × (join chunks
        ≡ samples ++ replicate ((160 - length samples % 160) % 160) (pos 0))
      × All IsFrame chunks
      × (length chunks ≡ (length samples + 159) / 160)
      × ((inject_samples encode samples q).0.frames
          ≡ q.frames ++ take (q.max_depth - length q.frames) (map encode chunks))
      × ((inject_samples encode samples q).1
          ≡ leb (length q.frames + (length samples + 159) / 160) q.max_depth)
unfolding inject_samples
inject_samples_lem encode samples q fits =
    let (joined, framed, count) = cut_lem samples in
    let (queued, accepted) = push_all-frames encode (cut samples) q fits in
    (
      cut samples,
      joined,
      framed,
      count,
      queued,
      accepted ∙ ap (λ n. leb (length q.frames + n) q.max_depth) count,
    )
