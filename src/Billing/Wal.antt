-- ===== src/Billing/Wal.antt =====
-- pkg/billing/wal.go: the write-ahead log of call detail records.
pub mod Append
pub mod Directory
pub mod Lines
pub mod Loss
pub mod Recovery
pub mod Rotation
pub mod Stored
pub mod Written
use clear_stream.Prelude.{
  ℕ, ◌+◌, ◌-◌, ◌*◌, ◌/◌, ◌%◌, Bool, true, false, not, ◌&&◌, ◌||◌, Option, none, some, List, [], ◌∷◌,
  ◌++◌, leb, ◌==◌, if◌then◌else◌, take, drop, length, codes, same_name,
}
use clear_stream.Billing.Wal.Lines.{newline, scan_file}

-- strings.HasSuffix(name, ".wal")
unfoldable pub is_wal : List ℕ → Bool
is_wal name = leb 4 (length name) && same_name (drop (length name - 4) name) (codes ".wal")

-- The files of the log's directory.
pub record Entry : Type 0 where
  pub name : List ℕ
  pub is_dir : Bool
  pub content : List ℕ

pub record Handle : Type 0 where
  pub path : List ℕ
  pub closed : Bool

pub data WalError : Type 0 where
  mkdir_failed open_failed close_failed remove_failed : WalError
  read_dir_failed marshal_failed write_failed : WalError

-- The writer, its directory, and the calls of OnFlush with their success, the latest first.
pub record WalWriter (C : Type 0) : Type 0 where
  pub rotate_interval : ℕ  -- in nanoseconds
  pub file : Option Handle
  pub created : ℕ
  pub dir : List Entry
  pub flushed : List (List C × Bool)

-- The operating system and the callback; the number is the time of the call. `writes` tells after how
-- many bytes a write failed, and `stamp` is the printed time.
pub record Outside (C : Type 0) : Type 0 where
  pub marshal : C → Option (List ℕ)
  pub unmarshal : List ℕ → Option C
  pub stamp : ℕ → List ℕ
  pub makes_dir : ℕ → Bool
  pub reads_dir : ℕ → Bool
  pub opens : ℕ → List ℕ → Bool
  pub reads : ℕ → List ℕ → Bool
  pub writes : ℕ → List ℕ → Option ℕ
  pub closes : ℕ → List ℕ → Bool
  pub removes : ℕ → List ℕ → Bool
  pub on_flush : Option (ℕ → List C → Bool)

abbrev pub four_digits : ℕ → List ℕ
four_digits r =
    (b'0' + r / 1000 % 10) ∷ (b'0' + r / 100 % 10) ∷ (b'0' + r / 10 % 10) ∷ (b'0' + r % 10) ∷ []

-- The file of a name, and the directory with that file changed or without it.
unfoldable pub find_entry : List ℕ → List Entry → Option Entry
find_entry path [] = none
find_entry path (e ∷ rest) =
    let later = find_entry path rest in if same_name e.name path then some e else later

unfoldable pub append_to : List ℕ → List ℕ → List Entry → List Entry
append_to path bytes [] = []
append_to path bytes (e ∷ rest) =
    let later = append_to path bytes rest in
    if same_name e.name path then record e { content = e.content ++ bytes } ∷ rest else e ∷ later

unfoldable pub remove_entry : List ℕ → List Entry → List Entry
remove_entry path [] = []
remove_entry path (e ∷ rest) =
    let later = remove_entry path rest in if same_name e.name path then rest else e ∷ later

-- os.OpenFile, which creates the file if there is none; no directory can be opened.
abbrev pub open_path : List ℕ → Option Entry → List Entry → Option (List Entry)
open_path path none dir = some (record { name = path; is_dir = false; content = [] } ∷ dir)
open_path path (some e) dir = if e.is_dir then none else some dir

abbrev pub is_there : Option Entry → Bool
is_there none = false
is_there (some e) = true

abbrev pub current_name : Option Handle → List ℕ
current_name none = []
current_name (some h) = h.path

-- Whether recovery passes an entry over.
unfoldable pub is_skipped : List ℕ → Entry → Bool
is_skipped current e = e.is_dir || not (is_wal e.name) || same_name e.name current

abbrev pub keep_if : Bool → Entry → List Entry → List Entry
keep_if true e rest = e ∷ rest
keep_if false e rest = rest

unfoldable pub with_opened :
    {C : Type 0} → List ℕ → ℕ → Option (List Entry) → WalWriter C → WalWriter C × Option WalError
with_opened path now none w = (w, some open_failed)
with_opened path now (some dir) w = (
  record w { dir = dir; file = some (record { path = path; closed = false }); created = now },
  none,
)

-- OnFlush gets the records that were read, unless it is nil, reading failed or there are none.
unfoldable pub flush_cdrs :
    {C : Type 0} → ℕ → Option (ℕ → List C → Bool) → List C × Bool → WalWriter C → WalWriter C
flush_cdrs now none read w = w
flush_cdrs now (some f) ([], failed) w = w
flush_cdrs now (some f) (c ∷ cdrs, true) w = w
flush_cdrs now (some f) (c ∷ cdrs, false) w = record w {
  flushed = (c ∷ cdrs, f now (c ∷ cdrs)) ∷ w.flushed;
}

-- A write that fails may have written a part.
unfoldable pub append_bytes :
    {C : Type 0} → List ℕ → List ℕ → Option ℕ → WalWriter C → WalWriter C × Option WalError
append_bytes path line none w = (record w { dir = append_to path line w.dir }, none)
append_bytes path line (some n) w =
    (record w { dir = append_to path (take n line) w.dir }, some write_failed)

abbrev pub recovered : {C : Type 0} → List Entry × List (List C × Bool) → WalWriter C → WalWriter C
recovered (dir, flushed) w = record w { dir = dir; flushed = flushed }

module _ {C : Type 0} (o : Outside C) where
  -- The name for a time and a random number below 10000.
  unfoldable pub wal_file_name : ℕ → ℕ → List ℕ
  wal_file_name now r = (codes "cdrs_" ++ o.stamp now ++ codes "_" ++ four_digits r) ++ codes ".wal"

  unfoldable pub open_new : ℕ → ℕ → WalWriter C → WalWriter C × Option WalError
  open_new now r w =
      let path = wal_file_name now r in
      let opened =
        if o.opens now path then open_path path (find_entry path w.dir) w.dir else none in
      with_opened path now opened w

  -- A file's records, and whether reading them failed.
  unfoldable pub read_entry : ℕ → Option Entry → List C × Bool
  read_entry now none = ([], true)
  read_entry now (some e) =
      if o.reads now e.name && not e.is_dir then scan_file o.unmarshal e.content else ([], true)

  -- The rotated file is removed, which is no error if it is not there, and a new one opened.
  unfoldable pub start_anew : ℕ → ℕ → List ℕ → WalWriter C → WalWriter C × Option WalError
  start_anew now r path w =
      if is_there (find_entry path w.dir) && not (o.removes now path)
      then (w, some remove_failed)
      else open_new now r (record w { dir = remove_entry path w.dir })

  unfoldable pub rotate_file : ℕ → ℕ → Handle → WalWriter C → WalWriter C × Option WalError
  rotate_file now r h w =
      if h.closed || not (o.closes now h.path)
      then (record w { file = some (record h { closed = true }) }, some close_failed)
      else let read = read_entry now (find_entry h.path w.dir) in
        start_anew now r h.path (flush_cdrs now o.on_flush read (record w { file = none }))

  unfoldable pub rotate_from : ℕ → ℕ → Option Handle → WalWriter C → WalWriter C × Option WalError
  rotate_from now r none w = open_new now r w
  rotate_from now r (some h) w = rotate_file now r h w

  unfoldable pub rotate : ℕ → ℕ → WalWriter C → WalWriter C × Option WalError
  rotate now r w = rotate_from now r w.file w

  unfoldable pub write_line :
      ℕ → List ℕ → Option Handle → WalWriter C → WalWriter C × Option WalError
  write_line now line none w = (w, some write_failed)
  write_line now line (some h) w =
      if h.closed then (w, some write_failed) else append_bytes h.path line (o.writes now line) w

  unfoldable pub append_cdr : ℕ → Option (List ℕ) → WalWriter C → WalWriter C × Option WalError
  append_cdr now none w = (w, some marshal_failed)
  append_cdr now (some line) w = write_line now (line ++ newline ∷ []) w.file w

  unfoldable pub write_after : ℕ → C → WalWriter C × Option WalError → WalWriter C × Option WalError
  write_after now c (w, some e) = (w, some e)
  write_after now c (w, none) = append_cdr now (o.marshal c) w

  unfoldable pub write : ℕ → ℕ → C → WalWriter C → WalWriter C × Option WalError
  write now r c w =
      write_after now c
        (if leb w.rotate_interval (now - w.created) then rotate now r w else (w, none))

  unfoldable pub new_wal_writer : ℕ → ℕ → List Entry → WalWriter C × Option WalError
  new_wal_writer now r dir =
      let w : WalWriter C = record {
        rotate_interval = 600000000000;
        file = none;
        created = 0;
        dir = dir;
        flushed = [];
      } in
      if o.makes_dir now then open_new now r w else (w, some mkdir_failed)

  -- One file of the log: whether it stays, and the calls of OnFlush. It stays where reading or OnFlush
  -- fails, and where the system does not remove it.
  unfoldable pub recover_cdrs :
      ℕ
      → Option (ℕ → List C → Bool)
      → Entry
      → List C × Bool
      → List (List C × Bool)
      → Bool × List (List C × Bool)
  recover_cdrs now f e (cdrs, true) flushed = (true, flushed)
  recover_cdrs now f e ([], false) flushed = (not (o.removes now e.name), flushed)
  recover_cdrs now none e (c ∷ cdrs, false) flushed = (not (o.removes now e.name), flushed)
  recover_cdrs now (some f) e (c ∷ cdrs, false) flushed =
      let ok = f now (c ∷ cdrs) in (not ok || not (o.removes now e.name), (c ∷ cdrs, ok) ∷ flushed)

  unfoldable pub recover_entry :
      ℕ → List ℕ → Entry → List (List C × Bool) → Bool × List (List C × Bool)
  recover_entry now current e flushed =
      if is_skipped current e
      then (true, flushed)
      else recover_cdrs now o.on_flush e (read_entry now (some e)) flushed

  -- The loop over the entries, whose names differ: what is left of them, and the calls of OnFlush.
  unfoldable pub recover_entries :
      ℕ → List ℕ → List Entry → List (List C × Bool) → List Entry × List (List C × Bool)
  recover_entries now current [] flushed = ([], flushed)
  recover_entries now current (e ∷ rest) flushed =
      let (stays, calls) = recover_entry now current e flushed in
      let (left, all) = recover_entries now current rest calls in (keep_if stays e left, all)

  unfoldable pub recover_and_flush : ℕ → WalWriter C → WalWriter C × Option WalError
  recover_and_flush now w =
      if o.reads_dir now
      then (recovered (recover_entries now (current_name w.file) w.dir w.flushed) w, none)
      else (w, some read_dir_failed)

  unfoldable pub close_from : ℕ → Option Handle → WalWriter C → WalWriter C × Option WalError
  close_from now none w = (w, none)
  close_from now (some h) w = (
    record w { file = none },
    if h.closed || not (o.closes now h.path) then some close_failed else none,
  )

  unfoldable pub close : ℕ → WalWriter C → WalWriter C × Option WalError
  close now w = close_from now w.file w
