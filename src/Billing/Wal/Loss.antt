-- ===== src/Billing/Wal/Loss.antt =====
-- pkg/billing/wal.go, rotate: what a batch that OnFlush refuses comes to.
use clear_stream.Prelude.{ℕ, ◌≡◌, refl, Bool, true, false, none, some, List, [], ◌∷◌}
use clear_stream.Billing.Wal.{
  WalWriter, Entry, Outside, find_entry, remove_entry, read_entry, flush_cdrs, start_anew,
  rotate_file, rotate_from, rotate, open_new, with_opened, wal_file_name,
}
use clear_stream.Billing.Wal.Lines.{scan_file}
use clear_stream.Billing.Wal.Rotation.{find_entry-remove_entry}

module _ {C : Type 0} (o : Outside C) where
  -- A rotation removes the log's file though OnFlush refuses its records, and reports no error: the
  -- records are in no file afterwards but in the list of refused batches. The file is open and can
  -- be closed, read and removed, and the next one has a new name and can be opened.
  pub rotate-loses :
      (f : ℕ → List C → Bool) (now r : ℕ) (w : WalWriter C) (path : List ℕ) (e : Entry) (c : C)
      (cdrs : List C)
      → o.on_flush ≡ some f
      → w.file ≡ some (record { path = path; closed = false })
      → find_entry path w.dir ≡ some e
      → (e.is_dir ≡ false) × (scan_file o.unmarshal e.content ≡ (c ∷ cdrs, false))
      → f now (c ∷ cdrs) ≡ false
      → (o.closes now path ≡ true) × (o.reads now e.name ≡ true) × (o.removes now path ≡ true)
      → find_entry (wal_file_name o now r) w.dir ≡ none
      → o.opens now (wal_file_name o now r) ≡ true
      → rotate o now r w ≡ (
        record w {
          file = some (record { path = wal_file_name o now r; closed = false });
          created = now;
          dir =
              record { name = wal_file_name o now r; is_dir = false; content = [] }
              ∷ remove_entry path w.dir;
          flushed = (c ∷ cdrs, false) ∷ w.flushed;
        },
        none,
      )
  unfolding rotate rotate_from rotate_file start_anew open_new with_opened read_entry flush_cdrs
  rotate-loses f now r w path e c cdrs on file found (plain, scan) refused (closes, reads, removes)
        fresh opens =
      let still = find_entry-remove_entry (wal_file_name o now r) path w.dir fresh in
      simp
        (rotate_from, file, closes, found, reads, plain, scan, on, refused, removes, still, opens)
        refl
