-- ===== src/Lsm/SsTable/Manager/Lookup.antt =====
-- What is found in a table after it was made and after one was deleted.
use agent_mem_io.Prelude.{
  ℕ, ◌≤◌, ◌≡◌, refl, subst, Bool, true, false, ◌||◌, none, some, List, [], ◌∷◌, length, min, max,
  member, ◌==◌, if◌then◌else◌, arith, inl, inr, Bool-cases, Map, lookup, lookup-insert,
  lookup-erase,
}
use agent_mem_io.Lsm.Entry.{success, Entry}
use agent_mem_io.Lsm.Bloom.{bloom_filter_test-build_bloom_filter}
use agent_mem_io.Lsm.SsTable.{done, write_file}
use agent_mem_io.Lsm.SsTable.Codec.{
  Storable, first_live, stamp_from, scan_file-write_file, read_file-write_file,
}
use agent_mem_io.Lsm.SsTable.Manager.{
  Metadata, Manager, min_id, max_id, ids_of, describe, store, create_from_memtable, outside,
  read_in_range, scan_open_file, read_vector, delete_sstable, may_contain, candidates,
  get_sstables_containing, read_sstable_entries, read_open_file,
}

min_id-le : (lo : ℕ) (es : List Entry) → min_id lo es ≤ lo
unfolding min_id
min_id-le lo [] = omega arith
min_id-le lo (e ∷ es) = omega (arith, min_id-le (min lo e.node_id) es)

max_id-le : (hi : ℕ) (es : List Entry) → hi ≤ max_id hi es
unfolding max_id
max_id-le hi [] = omega arith
max_id-le hi (e ∷ es) = omega (arith, max_id-le (max hi e.node_id) es)

-- The range of a table covers the nodes of its entries.
min_id-member :
    (node lo : ℕ) (es : List Entry) → member node (ids_of es) ≡ true → min_id lo es ≤ node
unfolding min_id
min_id-member node lo [] h = cc
min_id-member node lo (e ∷ es) h =
    ground (arith, min_id-le (min lo e.node_id) es, min_id-member node (min lo e.node_id) es)

max_id-member :
    (node hi : ℕ) (es : List Entry) → member node (ids_of es) ≡ true → node ≤ max_id hi es
unfolding max_id
max_id-member node hi [] h = cc
max_id-member node hi (e ∷ es) h =
    ground (arith, max_id-le (max hi e.node_id) es, max_id-member node (max hi e.node_id) es)

first_live-absent :
    (node : ℕ) (es : List Entry) → member node (ids_of es) ≡ false → first_live node es ≡ none
unfolding first_live
first_live-absent node [] h = refl
first_live-absent node (e ∷ es) h = ground (arith, first_live-absent node es)

module _ (now : ℕ) (e : Entry) (es : List Entry) (m : Manager) where
  abbrev made : Manager
  made = store now (length m.sstables) e es m

  in_range :
      (id node : ℕ)
      → member node (ids_of (e ∷ es)) ≡ true
      → outside node (describe now id e es) ≡ false
  unfolding outside describe
  in_range id node h =
      ground
        (arith, min_id-member node e.node_id (e ∷ es) h, max_id-member node e.node_id (e ∷ es) h)

  abbrev new_id : ℕ
  new_id = length m.sstables

  sstables-made : lookup new_id made.sstables ≡ some (describe now new_id e es)
  unfolding store
  sstables-made = ground (arith, lookup-insert new_id new_id (describe now new_id e es) m.sstables)

  files-made : lookup new_id made.files ≡ some (write_file (e ∷ es))
  unfolding store
  files-made = ground (arith, lookup-insert new_id new_id (write_file (e ∷ es)) m.files)

  read_in_range-made :
      (node : ℕ)
      → Storable (e ∷ es)
      → read_in_range true new_id node (describe now new_id e es) made
        ≡ done (first_live node (e ∷ es))
  unfolding read_in_range scan_open_file
  read_in_range-made node fits = elim (Bool-cases (member node (ids_of (e ∷ es)))) [
    | inl there ↦
        rw
          (
            in_range new_id node there,
            read_in_range,
            files-made,
            scan_open_file,
            scan_file-write_file node (e ∷ es) fits,
          )
          refl
    | inr missing ↦ elim (Bool-cases (outside node (describe now new_id e es))) [
      | inl out ↦ rw (out, read_in_range, first_live-absent node (e ∷ es) missing) refl
      | inr inside ↦
          rw
            (
              inside,
              read_in_range,
              files-made,
              scan_open_file,
              scan_file-write_file node (e ∷ es) fits,
            )
            refl
    ]
  ]

  -- After create_from_memtable of storable entries, at least one, with a file that opens,
  -- read_vector in the new table gives for every node what its first entry says: its vector, and
  -- nothing for a tombstone or a node without an entry.
  pub read_vector-create_from_memtable :
      (node : ℕ)
      → Storable (e ∷ es)
      → read_vector true new_id node (create_from_memtable true now (e ∷ es) m).1
        ≡ done (first_live node (e ∷ es))
  unfolding read_vector create_from_memtable
  read_vector-create_from_memtable node fits =
      rw (sstables-made, read_vector) (read_in_range-made node fits)

  -- After create_from_memtable of storable entries, at least one, with a file that opens,
  -- read_sstable_entries of the new table gives those entries in their order, with the times that
  -- the read gives them.
  pub read_sstable_entries-create_from_memtable :
      (clock : ℕ → ℕ)
      → Storable (e ∷ es)
      → read_sstable_entries true clock new_id (create_from_memtable true now (e ∷ es) m).1
        ≡ done (success, stamp_from clock 0 (e ∷ es))
  unfolding read_sstable_entries create_from_memtable read_open_file
  read_sstable_entries-create_from_memtable clock fits =
      rw
        (
          sstables-made,
          read_sstable_entries,
          files-made,
          read_open_file,
          read_file-write_file clock (e ∷ es) fits,
        )
        refl

  may_contain-describe :
      (id node : ℕ)
      → member node (ids_of (e ∷ es)) ≡ true
      → may_contain node (describe now id e es) ≡ true
  unfolding may_contain
  may_contain-describe id node h =
      rw (in_range id node h, may_contain)
        (unfold describe in bloom_filter_test-build_bloom_filter (ids_of (e ∷ es)) node h)

abbrev pub has_id : ℕ → List Metadata → Bool
has_id id [] = false
has_id id (x ∷ xs) = (x.id == id) || has_id id xs

has_id-cons : (x : Metadata) (xs : List Metadata) → has_id x.id (x ∷ xs) ≡ true
has_id-cons x xs = ground arith

candidates-found :
    (node id : ℕ) (t : Map Metadata) (meta : Metadata)
    → lookup id t ≡ some meta
    → may_contain node meta ≡ true
    → has_id meta.id (candidates node t) ≡ true
unfolding candidates
candidates-found node id [] meta h c = cc
candidates-found node id ((j, x) ∷ t) meta h c = elim (Bool-cases (j == id)) [
  | inl same ↦
      let e : some x ≡ some meta = ground (arith, h) in
      let e' : x ≡ meta = cc in
      subst
        (λ (y : Metadata).
          may_contain node y ≡ true → has_id y.id (candidates node ((j, x) ∷ t)) ≡ true)
        e' (λ c'. rw (c', candidates) (has_id-cons x (candidates node t))) c
  | inr other ↦
      let ih : has_id meta.id (candidates node t) ≡ true =
        candidates-found node id t meta (ground (arith, h)) c in
      elim (Bool-cases (may_contain node x)) [
        | inl may ↦ rw (may, candidates) (ground (arith, ih))
        | inr never ↦ rw (never, candidates) ih
      ]
]

-- After create_from_memtable with a file that opens, get_sstables_containing of the node of any of
-- the entries lists the new table: neither the range nor the Bloom filter leaves it out.
pub get_sstables_containing-create_from_memtable :
    (now : ℕ) (e : Entry) (es : List Entry) (m : Manager) (node : ℕ)
    → member node (ids_of (e ∷ es)) ≡ true
    → has_id
        (length m.sstables)
        (get_sstables_containing node (create_from_memtable true now (e ∷ es) m).1)
      ≡ true
unfolding get_sstables_containing create_from_memtable describe
get_sstables_containing-create_from_memtable now e es m node h =
    candidates-found node (length m.sstables) (store now (length m.sstables) e es m).sstables
      (describe now (length m.sstables) e es) (sstables-made now e es m)
      (may_contain-describe now e es m (length m.sstables) node h)

-- After delete_sstable the deleted table answers nothing, and every other table answers as before.
pub read_vector-delete_sstable :
    (opens : Bool) (id other node : ℕ) (m : Manager)
    → read_vector opens other node (delete_sstable id m).1
      ≡ (if id == other then done none else read_vector opens other node m)
unfolding read_vector delete_sstable read_in_range
read_vector-delete_sstable opens id other node m =
    ground (arith, lookup-erase id other m.sstables, lookup-erase id other m.files)
