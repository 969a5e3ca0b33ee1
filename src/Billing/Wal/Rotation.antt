-- ===== src/Billing/Wal/Rotation.antt =====
-- pkg/billing/wal.go, rotate: what is stored after a rotation, and what is lost in one.
use clear_stream.Prelude.{
  ℕ, ◌+◌, ◌-◌, ◌≡◌, refl, ◌⊎◌, inl, inr, Bool, true, false, not, ◌||◌, ◌&&◌, Option, none, some,
  List, [], ◌∷◌, ◌++◌, here, there, Bool-cases, leb, length, length-append, drop, if◌then◌else◌,
  arith, codes, same_name,
}
use clear_stream.Billing.Wal.{
  WalWriter, WalError, Entry, Handle, Outside, is_wal, find_entry, remove_entry, read_entry,
  flush_cdrs, start_anew, rotate_file, rotate_from, rotate, open_new, with_opened, wal_file_name,
  write_after, write, is_there, open_path, four_digits,
}
use clear_stream.Billing.Wal.Lines.{scan_file, scan_lines, lines_from}
use clear_stream.Billing.Wal.Append.{IsLogLine}
use clear_stream.Billing.Wal.Directory.{remove_entry-IsOnDisk}
use clear_stream.Billing.Wal.Stored.{IsRead, IsAccepted, IsStored}
use clear_stream.Billing.Wal.Written.{IsReady, Keeps, append-Keeps}

drop-append : (a b : List ℕ) → drop (length a) (a ++ b) ≡ b
drop-append [] b = refl
drop-append (x ∷ a) b = drop-append a b

is_wal-append : (a : List ℕ) → is_wal (a ++ codes ".wal") ≡ true
unfolding is_wal
is_wal-append a =
    let n : length (a ++ codes ".wal") ≡ length a + 4 = length-append a (codes ".wal") in
    let rest : length a + 4 - 4 ≡ length a = omega arith in
    rw (n, rest, drop-append a (codes ".wal")) (ground arith)

same_name_self : (a : List ℕ) → same_name a a ≡ true
same_name_self [] = refl
same_name_self (c ∷ a) = ground (arith, same_name_self a)

pub find_entry-remove_entry :
    (path gone : List ℕ) (dir : List Entry)
    → find_entry path dir ≡ none
    → find_entry path (remove_entry gone dir) ≡ none
unfolding find_entry remove_entry
find_entry-remove_entry path gone [] h = refl
find_entry-remove_entry path gone (e ∷ dir) h =
    let later = find_entry-remove_entry path gone dir in
    elim (Bool-cases (same_name e.name path)) [
      | inl same ↦ let no : some e ≡ none = rw same at h in absurd (ground arith)
      | inr other ↦
          let rest : find_entry path dir ≡ none = rw other at h in
          elim (Bool-cases (same_name e.name gone)) [
            | inl removed ↦ rw removed rest
            | inr stays ↦ rw (stays, other) (later rest)
          ]
    ]

module _ {C : Type 0} (o : Outside C) where
  is_wal-wal_file_name : (now r : ℕ) → is_wal (wal_file_name o now r) ≡ true
  unfolding wal_file_name
  is_wal-wal_file_name now r =
      is_wal-append (codes "cdrs_" ++ o.stamp now ++ codes "_" ++ four_digits r)

  -- Without an error the writer is ready, and a record stored if it was before.
  abbrev Carries : C → Type 0 → WalWriter C × Option WalError → Type 0
  Carries d A (w, err) = err ≡ none → IsReady o w × (IsStored o d w ⊎ A)

  with_opened-Carries :
      (d : C) (A : Type 0) (now r : ℕ) (w : WalWriter C)
      → IsStored o d w ⊎ A
      → (b : Bool)
      → let path = wal_file_name o now r in
        Carries d A (with_opened path now (if b then open_path path none w.dir else none) w)
  unfolding with_opened find_entry scan_file scan_lines lines_from
  with_opened-Carries d A now r w s false = λ err. absurd (ground arith)
  with_opened-Carries d A now r w s true = λ err. (
    (
      record { path = wal_file_name o now r; closed = false },
      refl,
      record { name = wal_file_name o now r; is_dir = false; content = [] },
      rw (same_name_self (wal_file_name o now r)) refl,
      (refl, is_wal-wal_file_name now r, inl refl, refl),
    ),
    elim s [
      | inl (inl accepted) ↦ inl (inl accepted)
      | inl (inr disk) ↦ inl (inr (there disk))
      | inr a ↦ inr a
    ],
  )

  open_new-Carries :
      (d : C) (A : Type 0) (now r : ℕ) (w : WalWriter C)
      → find_entry (wal_file_name o now r) w.dir ≡ none
      → IsStored o d w ⊎ A
      → Carries d A (open_new o now r w)
  unfolding open_new
  open_new-Carries d A now r w fresh s =
      rw (open_new, fresh) (with_opened-Carries d A now r w s (o.opens now (wal_file_name o now r)))

  start_anew-Carries :
      (d : C) (A : Type 0) (now r : ℕ) (path : List ℕ) (w : WalWriter C)
      → find_entry (wal_file_name o now r) w.dir ≡ none
      → IsStored o d (record w { dir = remove_entry path w.dir }) ⊎ A
      → Carries d A (start_anew o now r path w)
  unfolding start_anew
  start_anew-Carries d A now r path w fresh s =
      elim (Bool-cases (is_there (find_entry path w.dir) && not (o.removes now path))) [
        | inl fails ↦ rw fails (λ err. absurd (ground arith))
        | inr removed ↦ rw removed (
            open_new-Carries d A now r (record w { dir = remove_entry path w.dir })
              (find_entry-remove_entry (wal_file_name o now r) path w.dir fresh) s)
      ]

  module _ (f : ℕ → List C → Bool) (now : ℕ) (w : WalWriter C) where
    flush-dir : (read : List C × Bool) → (flush_cdrs now (some f) read w).dir ≡ w.dir
    unfolding flush_cdrs
    flush-dir ([], failed) = refl
    flush-dir (c ∷ cdrs, true) = refl
    flush-dir (c ∷ cdrs, false) = refl

    flush-IsAccepted :
        (d : C) (read : List C × Bool)
        → IsAccepted d w.flushed
        → IsAccepted d (flush_cdrs now (some f) read w).flushed
    unfolding flush_cdrs
    flush-IsAccepted d ([], failed) h = h
    flush-IsAccepted d (c ∷ cdrs, true) h = h
    flush-IsAccepted d (c ∷ cdrs, false) h = there h

    flush-delivers :
        (d : C) (read : List C × Bool)
        → ((batch : List C) → f now batch ≡ true)
        → IsRead d read
        → IsAccepted d (flush_cdrs now (some f) read w).flushed
    unfolding flush_cdrs
    flush-delivers d ([], failed) accepts (ok, h) = elim h [ ]
    flush-delivers d (c ∷ cdrs, true) accepts (ok, h) = absurd (ground arith)
    flush-delivers d (c ∷ cdrs, false) accepts (ok, h) = here (accepts (c ∷ cdrs), h)

  module _ (f : ℕ → List C → Bool) (now r : ℕ) (on : o.on_flush ≡ some f)
      (accepts : (batch : List C) → f now batch ≡ true) where
    delivered-IsStored :
        (d : C) (h : Handle) (e : Entry) (w : WalWriter C)
        → find_entry h.path w.dir ≡ some e
        → e.is_dir ≡ false
        → o.reads now e.name ≡ true
        → IsStored o d w
        → let read = read_entry o now (some e) in
          let flushed = flush_cdrs now (some f) read (record w { file = none }) in
          IsStored o d (record flushed { dir = remove_entry h.path flushed.dir })
    unfolding read_entry
    delivered-IsStored d h e w found file reads (inl accepted) =
        inl (flush-IsAccepted f now _ d (read_entry o now (some e)) accepted)
    delivered-IsStored d h e w found file reads (inr disk) =
        elim (remove_entry-IsOnDisk o d h.path w.dir e found disk) [
          | inl (was, wal, read) ↦
              inl (
                flush-delivers f now _ d (read_entry o now (some e)) accepts
                  (rw (reads, file) read))
          | inr other ↦
              inr
                (rw (flush-dir f now (record w { file = none }) (read_entry o now (some e))) other)
        ]

    rotate-Carries :
        (d : C) (A : Type 0) (w : WalWriter C)
        → ((name : List ℕ) → o.reads now name ≡ true)
        → find_entry (wal_file_name o now r) w.dir ≡ none
        → IsReady o w
        → IsStored o d w ⊎ A
        → Carries d A (rotate o now r w)
    unfolding rotate rotate_from rotate_file
    rotate-Carries d A w reads fresh (h, file, e, found, log) s =
        elim (Bool-cases (h.closed || not (o.closes now h.path))) [
          | inl fails ↦ rw (rotate_from, file, fails) (λ err. absurd (ground arith))
          | inr shut ↦
              simp (rotate_from, file, shut, found, on)
                (start_anew-Carries d A now r h.path _
                  (rw (flush-dir f now (record w { file = none }) (read_entry o now (some e)))
                    fresh)
                  (elim s [
                    | inl stored ↦
                        inl (delivered-IsStored d h e w found log.0 (reads e.name) stored)
                    | inr a ↦ inr a
                  ]))
        ]

  write_after-Keeps :
      (c d : C) (line : List ℕ) (now : ℕ)
      → IsLogLine o.unmarshal c line
      → o.marshal c ≡ some line
      → (res : WalWriter C × Option WalError) → Carries d (d ≡ c) res
      → Keeps o d (write_after o now c res)
  unfolding write_after
  write_after-Keeps c d line now good marshals (w, some e) k = λ err. absurd (ground arith)
  write_after-Keeps c d line now good marshals (w, none) k =
      let carried = k refl in rw marshals (append-Keeps o c line good d now w carried.0 carried.1)

  -- A write that returns no error keeps every record that was on disk in a file of the log or had
  -- been accepted by OnFlush, through a rotation too, and its own record is one of them afterwards;
  -- the writer is ready for the next one. OnFlush is there and accepts what it is given, files can be
  -- read, the open file is a whole file of the log, the record's line reads as the record, and the
  -- name that a rotation takes is new.
  pub write-IsStored :
      (f : ℕ → List C → Bool) (now r : ℕ) (c d : C) (line : List ℕ) (w : WalWriter C)
      → o.on_flush ≡ some f
      → ((batch : List C) → f now batch ≡ true)
      → ((name : List ℕ) → o.reads now name ≡ true)
      → find_entry (wal_file_name o now r) w.dir ≡ none
      → o.marshal c ≡ some line
      → IsLogLine o.unmarshal c line
      → IsReady o w
      → IsStored o d w ⊎ (d ≡ c)
      → (write o now r c w).1 ≡ none
      → IsReady o (write o now r c w).0 × IsStored o d (write o now r c w).0
  unfolding write
  write-IsStored f now r c d line w on accepts reads fresh marshals good ready s =
      elim (Bool-cases (leb w.rotate_interval (now - w.created))) [
        | inl due ↦ rw due (
            write_after-Keeps c d line now good marshals (rotate o now r w)
              (rotate-Carries f now r on accepts d (d ≡ c) w reads fresh ready s))
        | inr early ↦
            rw early (write_after-Keeps c d line now good marshals (w, none) (λ err. (ready, s)))
      ]
