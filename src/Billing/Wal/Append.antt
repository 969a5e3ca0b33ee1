-- ===== src/Billing/Wal/Append.antt =====
-- pkg/billing/wal.go: a line that is written is read back.
use mathlib.Core.List.{append_assoc, append-nil}
use clear_stream.Prelude.{
  ℕ, ◌≡◌, refl, sym, ap, ap₂, ◌∙◌, ◌⊎◌, inl, inr, Bool, true, false, Option, none, some, List, [],
  ◌∷◌, ◌++◌, leb, ◌==◌, length, All, Bool-cases, arith,
}
use clear_stream.Billing.Wal.Lines.{
  newline, max_token_size, lines_from, drop_cr, scan_lines, scan_file, add_cdr, unmarshal_line,
}

lines_append :
    (word a b : List ℕ)
    → lines_from word (a ++ newline ∷ b) ≡ lines_from word (a ++ newline ∷ []) ++ lines_from [] b
unfolding lines_from
lines_append word [] b = refl
lines_append word (c ∷ a) b = elim (Bool-cases (c == newline)) [
  | inl ends ↦ rw ends (ap (◌∷◌ word) (lines_append [] a b))
  | inr goes ↦ rw goes (lines_append (word ++ c ∷ []) a b)
]

-- No character of a line ends it.
abbrev pub IsOneLine : List ℕ → Type 0
IsOneLine = All (λ c. (c == newline) ≡ false)

lines_one :
    (word line : List ℕ)
    → IsOneLine line
    → lines_from word (line ++ newline ∷ []) ≡ (word ++ line) ∷ []
unfolding lines_from
lines_one word [] h = ap (λ w. w ∷ []) (sym (append-nil word))
lines_one word (c ∷ line) (goes, h) =
    rw goes (lines_one (word ++ c ∷ []) line h ∙ ap (λ w. w ∷ []) (append_assoc word (c ∷ []) line))

-- A file that has no line begun.
abbrev pub IsWhole : List ℕ → Type 0
IsWhole content = (content ≡ []) ⊎ ((a : List ℕ) × (content ≡ a ++ newline ∷ []))

lines_whole :
    (content more : List ℕ)
    → IsWhole content
    → lines_from [] (content ++ more) ≡ lines_from [] content ++ lines_from [] more
unfolding lines_from
lines_whole content more (inl e) = rw e refl
lines_whole content more (inr (a, e)) =
    rw e (ap (lines_from []) (append_assoc a (newline ∷ []) more) ∙ lines_append [] a more)

module _ {C : Type 0} (unmarshal : List ℕ → Option C) where
  add_cdr_append :
      (o : Option C) (a b c : List C × Bool)
      → (a.1 ≡ false → b ≡ (a.0 ++ c.0, c.1))
      → (add_cdr unmarshal o a).1 ≡ false
      → add_cdr unmarshal o b ≡ ((add_cdr unmarshal o a).0 ++ c.0, c.1)
  add_cdr_append none a b c both k = both k
  add_cdr_append (some x) a b c both k = ap (add_cdr unmarshal (some x)) (both k)

  scan_lines_append :
      (xs ys : List (List ℕ))
      → (scan_lines unmarshal xs).1 ≡ false
      → scan_lines unmarshal (xs ++ ys)
        ≡ ((scan_lines unmarshal xs).0 ++ (scan_lines unmarshal ys).0, (scan_lines unmarshal ys).1)
  unfolding scan_lines
  scan_lines_append [] ys h = refl
  scan_lines_append (x ∷ xs) ys h = elim (Bool-cases (leb max_token_size (length x))) [
    | inl long ↦ let no : true ≡ false = rw long at h in absurd (ground arith)
    | inr fits ↦ rw fits (
        add_cdr_append (unmarshal_line unmarshal (drop_cr x)) (scan_lines unmarshal xs) _ _
          (scan_lines_append xs ys) (rw fits at h))
  ]

  -- A line that reads as a record.
  abbrev pub IsLogLine : C → List ℕ → Type 0
  IsLogLine c line =
      IsOneLine line
      × (leb max_token_size (length line) ≡ false)
      × (unmarshal_line unmarshal (drop_cr line) ≡ some c)

  -- A line at the end of a whole file that reads without an error adds its record.
  pub scan_file_append :
      (content line : List ℕ) (c : C)
      → IsWhole content
      → (scan_file unmarshal content).1 ≡ false
      → IsLogLine c line
      → scan_file unmarshal (content ++ (line ++ newline ∷ []))
        ≡ ((scan_file unmarshal content).0 ++ c ∷ [], false)
  unfolding scan_file scan_lines
  scan_file_append content line c whole ok (one, fits, reads) =
      rw (lines_whole content (line ++ newline ∷ []) whole, lines_one [] line one)
        (scan_lines_append (lines_from [] content) (line ∷ []) ok ∙ rw (fits, reads) refl)

  -- A line that follows an unfinished one at the end of a whole file is lost with it, where the two
  -- together read as no record.
  pub scan_file_torn :
      (content torn line : List ℕ)
      → IsWhole content
      → (scan_file unmarshal content).1 ≡ false
      → IsOneLine (torn ++ line)
      → leb max_token_size (length (torn ++ line)) ≡ false
      → unmarshal_line unmarshal (drop_cr (torn ++ line)) ≡ none
      → scan_file unmarshal ((content ++ torn) ++ (line ++ newline ∷ []))
        ≡ scan_file unmarshal content
  unfolding scan_file scan_lines
  scan_file_torn content torn line whole ok one fits fails =
      rw
        (
          append_assoc content torn (line ++ newline ∷ []),
          sym (append_assoc torn line (newline ∷ [])),
          lines_whole content ((torn ++ line) ++ newline ∷ []) whole,
          lines_one [] (torn ++ line) one,
        )
        (scan_lines_append (lines_from [] content) ((torn ++ line) ∷ []) ok
          ∙ rw (fits, fails)
              (ap₂ (λ a b. (a, b)) (append-nil (scan_lines unmarshal (lines_from [] content)).0)
                (sym ok)))
