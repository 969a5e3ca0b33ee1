-- ===== src/Billing/Wal/Recovery.antt =====
-- pkg/billing/wal.go, RecoverAndFlush: what recovery keeps.
use clear_stream.Prelude.{
  ℕ, ◌≡◌, refl, ◌⊎◌, inl, inr, Bool, true, false, some, List, [], ◌∷◌, here, there, Bool-cases,
  arith,
}
use clear_stream.Billing.Wal.{
  WalWriter, Entry, Outside, read_entry, recover_cdrs, recover_entry, recover_entries, is_skipped,
  keep_if, recover_and_flush, current_name,
}
use clear_stream.Billing.Wal.Stored.{IsRead, IsAccepted, IsIn, IsOnDisk, IsStored}

module _ {C : Type 0} (o : Outside C) where
  module _ (f : ℕ → List C → Bool) (now : ℕ) (e : Entry) where
    recover_cdrs-IsAccepted :
        (c : C) (read : List C × Bool) (flushed : List (List C × Bool))
        → IsAccepted c flushed
        → IsAccepted c (recover_cdrs o now (some f) e read flushed).1
    unfolding recover_cdrs
    recover_cdrs-IsAccepted c (cdrs, true) flushed h = h
    recover_cdrs-IsAccepted c ([], false) flushed h = h
    recover_cdrs-IsAccepted c (d ∷ cdrs, false) flushed h = there h

    recover_cdrs-keeps :
        (c : C) (read : List C × Bool) (flushed : List (List C × Bool))
        → IsRead c read
        → let r = recover_cdrs o now (some f) e read flushed in (r.0 ≡ true) ⊎ IsAccepted c r.1
    unfolding recover_cdrs
    recover_cdrs-keeps c (cdrs, true) flushed h = inl refl
    recover_cdrs-keeps c ([], false) flushed (ok, h) = elim h [ ]
    recover_cdrs-keeps c (d ∷ cdrs, false) flushed (ok, h) = elim (Bool-cases (f now (d ∷ cdrs))) [
      | inl accepted ↦ inr (here (accepted, h))
      | inr refused ↦ inl (rw refused refl)
    ]

  read_entry-IsRead :
      (c : C) (now : ℕ) (e : Entry)
      → IsIn o c e
      → (read_entry o now (some e) ≡ ([], true)) ⊎ IsRead c (read_entry o now (some e))
  unfolding read_entry
  read_entry-IsRead c now e (file, wal, h) = elim (Bool-cases (o.reads now e.name)) [
    | inl can ↦ inr (rw (can, file) h)
    | inr cannot ↦ inl (rw cannot refl)
  ]

  kept_here :
      (c : C) (b : Bool) (e : Entry) (rest : List Entry)
      → b ≡ true
      → IsIn o c e
      → IsOnDisk o c (keep_if b e rest)
  kept_here c true e rest h k = here k
  kept_here c false e rest h k = absurd (ground arith)

  kept_later :
      {A : Type 0} (c : C) (b : Bool) (e : Entry) {rest : List Entry}
      → A ⊎ IsOnDisk o c rest
      → A ⊎ IsOnDisk o c (keep_if b e rest)
  kept_later c b e (inl a) = inl a
  kept_later c true e (inr h) = inr (there h)
  kept_later c false e (inr h) = inr h

  module _ (f : ℕ → List C → Bool) (now : ℕ) (current : List ℕ) (on : o.on_flush ≡ some f) where
    recover_entry-IsAccepted :
        (c : C) (e : Entry) (flushed : List (List C × Bool))
        → IsAccepted c flushed
        → IsAccepted c (recover_entry o now current e flushed).1
    unfolding recover_entry
    recover_entry-IsAccepted c e flushed h = elim (Bool-cases (is_skipped current e)) [
      | inl skip ↦ rw (recover_entry, skip) h
      | inr take ↦
          simp (recover_entry, take, on)
            (recover_cdrs-IsAccepted f now e c (read_entry o now (some e)) flushed h)
    ]

    recover_read-keeps :
        (c : C) (e : Entry) (flushed : List (List C × Bool))
        → (read_entry o now (some e) ≡ ([], true)) ⊎ IsRead c (read_entry o now (some e))
        → let r = recover_cdrs o now (some f) e (read_entry o now (some e)) flushed in
          (r.0 ≡ true) ⊎ IsAccepted c r.1
    unfolding recover_cdrs
    recover_read-keeps c e flushed (inl failed) = inl (rw failed refl)
    recover_read-keeps c e flushed (inr read) =
        recover_cdrs-keeps f now e c (read_entry o now (some e)) flushed read

    recover_entry-keeps :
        (c : C) (e : Entry) (flushed : List (List C × Bool))
        → IsIn o c e
        → let r = recover_entry o now current e flushed in (r.0 ≡ true) ⊎ IsAccepted c r.1
    unfolding recover_entry
    recover_entry-keeps c e flushed h = elim (Bool-cases (is_skipped current e)) [
      | inl skip ↦ inl (rw (recover_entry, skip) refl)
      | inr take ↦
          simp (recover_entry, take, on)
            (recover_read-keeps c e flushed (read_entry-IsRead c now e h))
    ]

    recover_entries-IsAccepted :
        (c : C) (dir : List Entry) (flushed : List (List C × Bool))
        → IsAccepted c flushed
        → IsAccepted c (recover_entries o now current dir flushed).1
    unfolding recover_entries
    recover_entries-IsAccepted c [] flushed h = h
    recover_entries-IsAccepted c (e ∷ dir) flushed h =
        recover_entries-IsAccepted c dir _ (recover_entry-IsAccepted c e flushed h)

    recover_entries-keeps :
        (c : C) (dir : List Entry) (flushed : List (List C × Bool))
        → IsOnDisk o c dir
        → let r = recover_entries o now current dir flushed in IsAccepted c r.1 ⊎ IsOnDisk o c r.0
    unfolding recover_entries
    recover_entries-keeps c [] flushed h = elim h [ ]
    recover_entries-keeps c (e ∷ dir) flushed (there h) =
        kept_later c (recover_entry o now current e flushed).0 e
          (recover_entries-keeps c dir (recover_entry o now current e flushed).1 h)
    recover_entries-keeps c (e ∷ dir) flushed (here h) =
        let stay = recover_entry-keeps c e flushed h in
        elim stay [
          | inl stays ↦ inr (kept_here c _ e _ stays h)
          | inr accepted ↦ inl (recover_entries-IsAccepted c dir _ accepted)
        ]

  -- Recovery loses no record, if there is an OnFlush: a record that is on disk in a readable file of
  -- the log, or that OnFlush has accepted, is so afterwards, whatever OnFlush answers and whichever
  -- reads and removals fail.
  pub recover_and_flush-IsStored :
      (f : ℕ → List C → Bool) (now : ℕ) (c : C) (w : WalWriter C)
      → o.on_flush ≡ some f
      → IsStored o c w
      → IsStored o c (recover_and_flush o now w).0
  unfolding recover_and_flush
  recover_and_flush-IsStored f now c w on h = elim (Bool-cases (o.reads_dir now)) [
    | inl can ↦ rw can (elim h [
      | inl accepted ↦
          inl (recover_entries-IsAccepted f now (current_name w.file) on c w.dir w.flushed accepted)
      | inr disk ↦ recover_entries-keeps f now (current_name w.file) on c w.dir w.flushed disk
    ])
    | inr cannot ↦ rw cannot h
  ]
