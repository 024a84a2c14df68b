-- ===== src/Lsm/Merge/Compact/Reads.antt =====
-- What the output of a merge answers.
use agent_mem_io.Prelude.{
  ℕ, ◌≡◌, refl, ◌∙◌, true, false, Option, none, some, List, [], ◌∷◌, ◌++◌, lookup, Bool, Bool-cases,
  false, inl, inr, if◌then◌else◌,
}
use agent_mem_io.Lsm.Entry.{success, io_error, Vector, Entry}
use agent_mem_io.Lsm.SsTable.{done, write_file}
use agent_mem_io.Lsm.SsTable.Codec.{Storable, stamp_from, read_file-write_file}
use agent_mem_io.Lsm.SsTable.Manager.{Metadata, Manager, read_sstable_entries, read_open_file}
use agent_mem_io.Lsm.Merge.{merge_entries, merged}
use agent_mem_io.Lsm.Merge.Compact.{merge_tables, write_merged, merge_sstables}

-- The tables of a merge with the entries that their files hold.
abbrev pub Stored : Manager → List (ℕ × List Entry) → Type 0
Stored m [] = Unit
Stored m ((id, es) ∷ ts) =
    ((meta : Metadata) × (lookup id m.sstables ≡ some meta))
    × (lookup id m.files ≡ some (write_file es))
    × Storable es
    × Stored m ts

abbrev pub names : List (ℕ × List Entry) → List ℕ
names [] = []
names ((id, es) ∷ ts) = id ∷ names ts

-- All that a merge reads, in the order of reading: a file that does not open is left out.
abbrev pub reading : Bool → (ℕ → ℕ) → List Entry → List Entry
reading opens now es = if opens then stamp_from now 0 es else []

abbrev pub readings : (ℕ → Bool) → (ℕ → ℕ → ℕ) → List (ℕ × List Entry) → List Entry
readings opens clock [] = []
readings opens clock ((id, es) ∷ ts) = reading (opens id) (clock id) es ++ readings opens clock ts

merge_entries-append :
    (xs ys acc : List Entry)
    → merge_entries (xs ++ ys) acc ≡ merge_entries ys (merge_entries xs acc)
unfolding merge_entries
merge_entries-append [] ys acc = refl
merge_entries-append (x ∷ xs) ys acc = merge_entries-append xs ys _

module _ (opens : ℕ → Bool) (clock : ℕ → ℕ → ℕ) (m : Manager) where
  read_stored :
      (id : ℕ) (es : List Entry) (meta : Metadata)
      → lookup id m.sstables ≡ some meta
      → lookup id m.files ≡ some (write_file es)
      → Storable es
      → read_sstable_entries true (clock id) id m ≡ done (success, stamp_from (clock id) 0 es)
  unfolding read_sstable_entries read_open_file
  read_stored id es meta known file fits =
      rw
        (known, read_sstable_entries, file, read_open_file, read_file-write_file (clock id) es fits)
        refl

  read_closed :
      (id : ℕ) (meta : Metadata)
      → lookup id m.sstables ≡ some meta
      → read_sstable_entries false (clock id) id m ≡ done (io_error, [])
  unfolding read_sstable_entries read_open_file
  read_closed id meta known = rw (known, read_sstable_entries) refl

  merge_tables-Stored :
      (ts : List (ℕ × List Entry)) (acc : List Entry)
      → Stored m ts
      → merge_tables opens clock (names ts) acc m
        ≡ done (merge_entries (readings opens clock ts) acc)
  unfolding merge_tables
  merge_tables-Stored [] acc s = unfold merge_entries in refl
  merge_tables-Stored ((id, es) ∷ ts) acc s =
      let known = s.0 in
      elim (Bool-cases (opens id)) [
        | inl e ↦
            rw
              (
                e,
                merge_tables,
                read_stored id es known.0 known.1 s.1 s.2,
                merge_tables,
                merge_entries-append (stamp_from (clock id) 0 es) (readings opens clock ts) acc,
              )
              (merge_tables-Stored ts _ s.3)
        | inr e ↦
            rw (e, merge_tables, read_closed id known.0 known.1, merge_tables)
              (merge_tables-Stored ts _ s.3)
      ]

abbrev pub vector_of : Option Entry → Option Vector
vector_of none = none
vector_of (some e) = some e.vector

AllAlive : List Entry → Type 0
AllAlive [] = Unit
AllAlive (e ∷ es) = (e.is_deleted ≡ false) × AllAlive es

module _ (opens : ℕ → Bool) (now : ℕ) (clock : ℕ → ℕ → ℕ) (m : Manager) (id : ℕ)
    (first : List Entry) (ts : List (ℕ × List Entry)) (stored : Stored m ((id, first) ∷ ts)) where
  abbrev read_all : List Entry
  read_all = readings opens clock ((id, first) ∷ ts)

  merge_sstables-Stored :
      merge_sstables opens true now clock (names ((id, first) ∷ ts)) m
      ≡ done (write_merged true now (merged read_all) m)
  unfolding merge_sstables merged
  merge_sstables-Stored =
      rw (merge_tables-Stored opens clock m ((id, first) ∷ ts) [] stored, merge_sstables) refl

  -- For tables that are in the metadata and whose files were written from storable entries, any of
  -- which may fail to open, if nothing is left of the merge, merge_sstables succeeds, makes no table and changes nothing.
  pub merge_sstables_empty :
      merged read_all ≡ []
      → merge_sstables opens true now clock (names ((id, first) ∷ ts)) m ≡ done (success, (0, m))
  merge_sstables_empty output = merge_sstables-Stored ∙ rw output (unfold write_merged in refl)
