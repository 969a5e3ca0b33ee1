-- ===== src/Examples/Billing.antt =====
-- The theorems on billing at concrete inputs: a log whose records are numbers, on lines of their own.
use clear_stream.Prelude.{
  ℕ, ◌≡◌, refl, inl, inr, Bool, true, false, Option, none, some, List, [], ◌∷◌, ◌++◌, here, pos,
  arith,
}
use clear_stream.Billing.{MeterConfig, finalize, new_session_meter}
use clear_stream.Billing.Units.{IsBilled, finalize-IsBilled}
use clear_stream.Prelude.{codes}
use clear_stream.Billing.Wal.{
  WalWriter, Entry, Outside, write, rotate, recover_and_flush, wal_file_name, find_entry,
  remove_entry, is_wal, write_after, rotate_from, rotate_file, start_anew, open_new, with_opened,
  read_entry, flush_cdrs, append_cdr, write_line, append_bytes, append_to,
}
use clear_stream.Billing.Wal.Lines.{scan_file, scan_lines, lines_from, drop_cr}
use clear_stream.Billing.Wal.Append.{scan_file_torn}
use clear_stream.Billing.Wal.Loss.{rotate-loses}
use clear_stream.Billing.Wal.Recovery.{recover_and_flush-IsStored}
use clear_stream.Billing.Wal.Rotation.{write-IsStored}
use clear_stream.Billing.Wal.Stored.{IsIn, IsStored}
use clear_stream.Billing.Wal.Written.{IsReady}
use clear_stream.Examples.{thousandths}

abbrev one_number : List ℕ → Option ℕ
one_number [] = none
one_number (c ∷ []) = some c
one_number (c ∷ d ∷ rest) = none

abbrev system : Bool → Outside ℕ
system accepts = record {
  marshal = λ c. some (c ∷ []);
  unmarshal = one_number;
  stamp = λ t. b'0' ∷ [];
  makes_dir = λ t. true;
  reads_dir = λ t. true;
  opens = λ t name. true;
  reads = λ t name. true;
  writes = λ t line. none;
  closes = λ t name. true;
  removes = λ t name. true;
  on_flush = some (λ t batch. accepts);
}

abbrev old_log : Entry
old_log = record { name = codes "old.wal"; is_dir = false; content = 7 ∷ 10 ∷ [] }

abbrev running : WalWriter ℕ
running = record {
  rotate_interval = 600;
  file = some (record { path = codes "old.wal"; closed = false });
  created = 0;
  dir = old_log ∷ [];
  flushed = [];
}

old_log-IsIn : IsIn (system true) 7 old_log
unfolding find_entry is_wal scan_file scan_lines lines_from drop_cr
old_log-IsIn = (refl, refl, (refl, here refl))

running-IsReady : IsReady (system true) running
unfolding find_entry is_wal scan_file scan_lines lines_from drop_cr
running-IsReady = (
  record { path = codes "old.wal"; closed = false },
  refl,
  old_log,
  refl,
  (refl, refl, inr (7 ∷ [], refl), refl),
)

write-IsStored_example :
    let w = (write (system true) 1000 1 5 running).0 in
    IsReady (system true) w × IsStored (system true) 7 w
unfolding write write_after rotate rotate_from rotate_file start_anew open_new with_opened
    find_entry remove_entry read_entry flush_cdrs append_cdr write_line append_bytes append_to
    scan_file scan_lines lines_from drop_cr wal_file_name
write-IsStored_example =
    write-IsStored (system true) (λ t batch. true) 1000 1 5 7 (5 ∷ []) running refl (λ batch. refl)
      (λ name. refl) refl refl ((refl, tt), refl, refl) running-IsReady
      (inl (inr (here old_log-IsIn))) refl

recover_and_flush-IsStored_example :
    IsStored (system true) 7 (recover_and_flush (system true) 1000 running).0
recover_and_flush-IsStored_example =
    recover_and_flush-IsStored (system true) (λ t batch. true) 1000 7 running refl
      (inr (here old_log-IsIn))

rotate-loses_example : rotate (system false) 1000 1 running ≡ (
  record running {
    file = some (record { path = wal_file_name (system false) 1000 1; closed = false });
    created = 1000;
    dir =
        record { name = wal_file_name (system false) 1000 1; is_dir = false; content = [] }
        ∷ remove_entry (codes "old.wal") running.dir;
    flushed = (7 ∷ [], false) ∷ [];
  },
  none,
)
unfolding find_entry scan_file scan_lines lines_from drop_cr wal_file_name
rotate-loses_example =
    rotate-loses (system false) (λ t batch. false) 1000 1 running (codes "old.wal") old_log 7 []
      refl refl refl (refl, refl) refl (refl, refl, refl) refl refl

scan_file_torn_example :
    scan_file one_number (((7 ∷ 10 ∷ []) ++ 8 ∷ []) ++ (9 ∷ [] ++ 10 ∷ []))
    ≡ scan_file one_number (7 ∷ 10 ∷ [])
unfolding scan_file scan_lines lines_from drop_cr
scan_file_torn_example =
    scan_file_torn one_number (7 ∷ 10 ∷ []) (8 ∷ []) (9 ∷ []) (inr (7 ∷ [], refl)) refl
      (refl, (refl, tt)) refl refl

abbrev config : MeterConfig
config = record { session_id = []; account_id = []; region = []; node_id = []; pulse_ms = pos 6000 }

-- A call of seven seconds.
finalize-IsBilled_example :
    let r =
      finalize ⦃fl = thousandths⦄
        (new_session_meter config [] 1000000000)
        8000000000
        (pos 0)
        (pos 0)
        (pos 0)
        (pos 0) in
    (r.duration_ms ≡ pos 7000) × ((u : ℕ) × (r.billed_units ≡ pos u) × IsBilled 7000 6000 u)
finalize-IsBilled_example =
    finalize-IsBilled thousandths config [] 1000000000 8000000000 6000 (pos 0) (pos 0) (pos 0)
      (pos 0) refl (omega arith) (omega arith) refl
