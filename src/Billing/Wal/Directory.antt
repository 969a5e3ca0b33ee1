-- ===== src/Billing/Wal/Directory.antt =====
-- pkg/billing/wal.go: the files of the directory when one of them is written or removed.
use clear_stream.Prelude.{
  ℕ, ◌≡◌, sym, ◌⊎◌, inl, inr, some, List, [], ◌∷◌, ◌++◌, here, there, Bool-cases, arith,
}
use clear_stream.Prelude.{same_name}
use clear_stream.Billing.Wal.{Entry, Outside, find_entry, append_to, remove_entry}
use clear_stream.Billing.Wal.Stored.{IsIn, IsOnDisk}

abbrev pub with_more : List ℕ → Entry → Entry
with_more bytes e = record e { content = e.content ++ bytes }

pub find_entry-append_to :
    (path bytes : List ℕ) (dir : List Entry) (e : Entry)
    → find_entry path dir ≡ some e
    → find_entry path (append_to path bytes dir) ≡ some (with_more bytes e)
unfolding find_entry append_to
find_entry-append_to path bytes [] e h = absurd (ground arith)
find_entry-append_to path bytes (d ∷ dir) e h = elim (Bool-cases (same_name d.name path)) [
  | inl same ↦ rw (same, same) (ground (arith, rw same at h))
  | inr other ↦ rw (other, other) (find_entry-append_to path bytes dir e (rw other at h))
]

module _ {C : Type 0} (o : Outside C) (c : C) where
  first :
      {d d' : Entry} {dir : List Entry}
      → (IsIn o c d → IsIn o c d')
      → IsOnDisk o c (d ∷ dir)
      → IsOnDisk o c (d' ∷ dir)
  first f (here h) = here (f h)
  first f (there h) = there h

  next :
      {d : Entry} {dir dir' : List Entry}
      → (IsOnDisk o c dir → IsOnDisk o c dir')
      → IsOnDisk o c (d ∷ dir)
      → IsOnDisk o c (d ∷ dir')
  next f (here h) = here h
  next f (there h) = there (f h)

  split : {d : Entry} {dir : List Entry} → IsOnDisk o c (d ∷ dir) → IsIn o c d ⊎ IsOnDisk o c dir
  split (here h) = inl h
  split (there h) = inr h

  split_later :
      {A : Type 0} {d : Entry} {dir dir' : List Entry}
      → (IsOnDisk o c dir → A ⊎ IsOnDisk o c dir')
      → IsOnDisk o c (d ∷ dir)
      → A ⊎ IsOnDisk o c (d ∷ dir')
  split_later f (here h) = inr (here h)
  split_later f (there h) = elim (f h) [ inl k ↦ inl k | inr k ↦ inr (there k) ]

  pub append_to-IsOnDisk :
      (path bytes : List ℕ) (dir : List Entry) (e : Entry)
      → find_entry path dir ≡ some e
      → (IsIn o c e → IsIn o c (with_more bytes e))
      → IsOnDisk o c dir
      → IsOnDisk o c (append_to path bytes dir)
  unfolding find_entry append_to
  append_to-IsOnDisk path bytes [] e h keep k = elim k [ ]
  append_to-IsOnDisk path bytes (d ∷ dir) e h keep k = elim (Bool-cases (same_name d.name path)) [
    | inl same ↦
        let q : d ≡ e = ground (arith, rw same at h) in
        rw same (first (λ m. rw q (keep (rw q at m))) k)
    | inr other ↦ rw other (next (append_to-IsOnDisk path bytes dir e (rw other at h) keep) k)
  ]

  pub append_to-IsIn :
      (path bytes : List ℕ) (dir : List Entry) (e : Entry)
      → find_entry path dir ≡ some e
      → IsIn o c (with_more bytes e)
      → IsOnDisk o c (append_to path bytes dir)
  unfolding find_entry append_to
  append_to-IsIn path bytes [] e h k = absurd (ground arith)
  append_to-IsIn path bytes (d ∷ dir) e h k = elim (Bool-cases (same_name d.name path)) [
    | inl same ↦ let q : d ≡ e = ground (arith, rw same at h) in rw (same, q) (here k)
    | inr other ↦ rw other (there (append_to-IsIn path bytes dir e (rw other at h) k))
  ]

  pub remove_entry-IsOnDisk :
      (path : List ℕ) (dir : List Entry) (e : Entry)
      → find_entry path dir ≡ some e
      → IsOnDisk o c dir
      → IsIn o c e ⊎ IsOnDisk o c (remove_entry path dir)
  unfolding find_entry remove_entry
  remove_entry-IsOnDisk path [] e h k = elim k [ ]
  remove_entry-IsOnDisk path (d ∷ dir) e h k = elim (Bool-cases (same_name d.name path)) [
    | inl same ↦ let q : d ≡ e = ground (arith, rw same at h) in rw (same, sym q) (split k)
    | inr other ↦ rw other (split_later (remove_entry-IsOnDisk path dir e (rw other at h)) k)
  ]
