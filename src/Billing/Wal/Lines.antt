-- ===== src/Billing/Wal/Lines.antt =====
-- pkg/billing/wal.go, readWALFile: the lines of a file, and the records on them.
use clear_stream.Prelude.{
  ℕ, Bool, true, false, Option, none, some, List, [], ◌∷◌, ◌++◌, leb, ◌==◌, if◌then◌else◌, length,
}

abbrev pub newline : ℕ
newline = 10

abbrev pub max_token_size : ℕ
max_token_size = 65536

-- What is left at the end of a file is a line if it is not empty.
abbrev pub last_line : List ℕ → List (List ℕ)
last_line [] = []
last_line (c ∷ word) = (c ∷ word) ∷ []

-- The lines of a text, the first of which has begun with a word.
unfoldable pub lines_from : List ℕ → List ℕ → List (List ℕ)
lines_from word [] = last_line word
lines_from word (c ∷ text) =
    let ended = lines_from [] text in
    let longer = lines_from (word ++ c ∷ []) text in if c == newline then word ∷ ended else longer

-- A line without the carriage return at its end.
unfoldable pub drop_cr : List ℕ → List ℕ
drop_cr [] = []
drop_cr (c ∷ []) = if c == 13 then [] else c ∷ []
drop_cr (c ∷ d ∷ line) = c ∷ drop_cr (d ∷ line)

-- The records of a file's lines, and whether a line is too long for the scanner, which stops it.
-- Empty and malformed lines are passed over.
module _ {C : Type 0} (unmarshal : List ℕ → Option C) where
  abbrev pub unmarshal_line : List ℕ → Option C
  unmarshal_line [] = none
  unmarshal_line (c ∷ line) = unmarshal (c ∷ line)

  abbrev pub add_cdr : Option C → List C × Bool → List C × Bool
  add_cdr none (cdrs, failed) = (cdrs, failed)
  add_cdr (some c) (cdrs, failed) = (c ∷ cdrs, failed)

  unfoldable pub scan_lines : List (List ℕ) → List C × Bool
  scan_lines [] = ([], false)
  scan_lines (line ∷ rest) =
      let later = scan_lines rest in
      if leb max_token_size (length line)
      then ([], true)
      else add_cdr (unmarshal_line (drop_cr line)) later

  unfoldable pub scan_file : List ℕ → List C × Bool
  scan_file content = scan_lines (lines_from [] content)
