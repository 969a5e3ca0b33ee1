-- ===== src/Billing/Wal/Stored.antt =====
-- pkg/billing/wal.go: the records that are on disk or were accepted by OnFlush.
use clear_stream.Prelude.{◌≡◌, ◌⊎◌, Bool, true, false, List, Any}
use clear_stream.Billing.Wal.{WalWriter, Entry, Outside, is_wal}
use clear_stream.Billing.Wal.Lines.{scan_file}

module _ {C : Type 0} where
  abbrev pub Contains : C → List C → Type 0
  Contains c = Any (λ d. d ≡ c)

  -- A record among those that reading gives, without an error.
  abbrev pub IsRead : C → List C × Bool → Type 0
  IsRead c (cdrs, failed) = (failed ≡ false) × Contains c cdrs

  -- A record in a batch that OnFlush accepted.
  abbrev pub IsAccepted : C → List (List C × Bool) → Type 0
  IsAccepted c = Any (λ call. (call.1 ≡ true) × Contains c call.0)

  module _ (o : Outside C) where
    -- A record that can be read from a file of the log.
    abbrev pub IsIn : C → Entry → Type 0
    IsIn c e =
        (e.is_dir ≡ false) × (is_wal e.name ≡ true) × IsRead c (scan_file o.unmarshal e.content)

    abbrev pub IsOnDisk : C → List Entry → Type 0
    IsOnDisk c = Any (IsIn c)

    abbrev pub IsStored : C → WalWriter C → Type 0
    IsStored c w = IsAccepted c w.flushed ⊎ IsOnDisk c w.dir
