-- ===== src/Billing/Wal/Written.antt =====
-- pkg/billing/wal.go, Write: what is stored after a write.
use mathlib.Core.List.{append_assoc}
use clear_stream.Prelude.{
  ℕ, ◌≡◌, refl, sym, ap, ◌⊎◌, inl, inr, true, false, Option, none, some, List, [], ◌∷◌, ◌++◌, here,
  Any-append_left, Any-append_right, Bool-cases, arith,
}
use clear_stream.Billing.Wal.{
  WalWriter, WalError, Entry, Handle, Outside, is_wal, find_entry, append_to, append_bytes,
  write_line, append_cdr,
}
use clear_stream.Billing.Wal.Lines.{newline, scan_file}
use clear_stream.Billing.Wal.Append.{IsWhole, IsLogLine, scan_file_append}
use clear_stream.Billing.Wal.Directory.{
  with_more, find_entry-append_to, append_to-IsOnDisk, append_to-IsIn,
}
use clear_stream.Billing.Wal.Stored.{IsIn, IsStored}

-- A file of the log whose lines are all ended and short enough.
abbrev pub IsLogFile : {C : Type 0} → (List ℕ → Option C) → Entry → Type 0
IsLogFile unmarshal e =
    (e.is_dir ≡ false)
    × (is_wal e.name ≡ true)
    × IsWhole e.content
    × ((scan_file unmarshal e.content).1 ≡ false)

-- The writer has a file open, which is a file of the log.
abbrev pub IsReady : {C : Type 0} → Outside C → WalWriter C → Type 0
IsReady o w =
    (h : Handle) × (w.file ≡ some h)
    × (e : Entry) × (find_entry h.path w.dir ≡ some e)
    × IsLogFile o.unmarshal e

module _ {C : Type 0} (o : Outside C) where
  -- Without an error the writer is ready, and a record stored.
  abbrev pub Keeps : C → WalWriter C × Option WalError → Type 0
  Keeps d (w, err) = err ≡ none → IsReady o w × IsStored o d w

  module _ (c : C) (line : List ℕ) (good : IsLogLine o.unmarshal c line) where
    abbrev pub ended : List ℕ
    ended = line ++ newline ∷ []

    with_more-scan :
        (e : Entry)
        → IsLogFile o.unmarshal e
        → scan_file o.unmarshal (e.content ++ ended)
          ≡ ((scan_file o.unmarshal e.content).0 ++ c ∷ [], false)
    with_more-scan e (file, wal, whole, ok) =
        scan_file_append o.unmarshal e.content line c whole ok good

    with_more-IsLogFile :
        (e : Entry) → IsLogFile o.unmarshal e → IsLogFile o.unmarshal (with_more ended e)
    with_more-IsLogFile e (file, wal, whole, ok) = (
      file,
      wal,
      inr (e.content ++ line, sym (append_assoc e.content line (newline ∷ []))),
      ap (λ r. r.1) (with_more-scan e (file, wal, whole, ok)),
    )

    with_more-IsIn :
        (d : C) (e : Entry) → IsLogFile o.unmarshal e → IsIn o d e → IsIn o d (with_more ended e)
    with_more-IsIn d e log (file, wal, (fine, h)) =
        (file, wal, rw (with_more-scan e log) (refl, Any-append_left (λ x. x ≡ d) _ (c ∷ []) h))

    with_more-IsIn_new : (e : Entry) → IsLogFile o.unmarshal e → IsIn o c (with_more ended e)
    with_more-IsIn_new e log = (
      log.0,
      log.1,
      rw (with_more-scan e log) (refl, Any-append_right (λ x. x ≡ c) _ (c ∷ []) (here refl)),
    )

    added-IsStored :
        (d : C) (path : List ℕ) (e : Entry) (w : WalWriter C)
        → find_entry path w.dir ≡ some e
        → IsLogFile o.unmarshal e
        → IsStored o d w ⊎ (d ≡ c)
        → IsStored o d (record w { dir = append_to path ended w.dir })
    added-IsStored d path e w found log (inl (inl accepted)) = inl accepted
    added-IsStored d path e w found log (inl (inr disk)) =
        inr (append_to-IsOnDisk o d path ended w.dir e found (with_more-IsIn d e log) disk)
    added-IsStored d path e w found log (inr same) =
        inr (append_to-IsIn o d path ended w.dir e found (rw same (with_more-IsIn_new e log)))

    append_bytes-Keeps :
        (d : C) (failure : Option ℕ) (w : WalWriter C) (h : Handle) (e : Entry)
        → w.file ≡ some h
        → find_entry h.path w.dir ≡ some e
        → IsLogFile o.unmarshal e
        → IsStored o d w ⊎ (d ≡ c)
        → Keeps d (append_bytes h.path ended failure w)
    unfolding append_bytes
    append_bytes-Keeps d (some n) w h e file found log s = λ err. absurd (ground arith)
    append_bytes-Keeps d none w h e file found log s = λ err. (
      (
        h,
        file,
        with_more ended e,
        find_entry-append_to h.path ended w.dir e found,
        with_more-IsLogFile e log,
      ),
      added-IsStored d h.path e w found log s,
    )

    pub append-Keeps :
        (d : C) (now : ℕ) (w : WalWriter C)
        → IsReady o w
        → IsStored o d w ⊎ (d ≡ c)
        → Keeps d (append_cdr o now (some line) w)
    unfolding append_cdr write_line
    append-Keeps d now w (h, file, e, found, log) s = elim (Bool-cases h.closed) [
      | inl shut ↦ rw (write_line, file, shut) (λ err. absurd (ground arith))
      | inr usable ↦
          simp (write_line, file, usable)
            (append_bytes-Keeps d (o.writes now ended) w h e file found log s)
    ]
