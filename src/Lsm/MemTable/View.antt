-- ===== src/Lsm/MemTable/View.antt =====
-- A memory table is a map from nodes to what was last written for them, a vector or a tombstone.
use agent_mem_io.Prelude.{
  zero, ℕ, suc, ◌<◌, ◌≤◌, ◌≡◌, ◌≢◌, refl, sym, ap, ◌∙◌, subst, ◌⊎◌, true, false, Option, none, some,
  List, [], ◌∷◌, ◌++◌, arith, ◌==◌, if◌then◌else◌, length, get_elem?, set, lookup, lookup-insert,
  inl, inr, Option-cases, Bool-cases, get_elem?-set_self, get_elem?-set_ne, get_elem?-append_end,
  get_elem?-append_left, length-set, length-append,
}
use agent_mem_io.Lsm.Entry.{ErrorCode, success, invalid_argument, Vector, Entry}
use agent_mem_io.Lsm.MemTable.{
  MemTable, new, store_entry, live_entry, update_entry, append_entry, insert_entry, tombstone,
  mark_deleted, bury_entry, delete_entry, entry_at, get, contains, is_deleted,
}

-- The index points every node at its own entry, and every entry is indexed.
pub record IsIndexed (m : MemTable) : Type 0 where
  pub points :
      (id i : ℕ)
      → lookup id m.index ≡ some i
      → (e : Entry) × (get_elem? m.entries i ≡ some e) × (e.node_id ≡ id)
  pub indexed :
      (i : ℕ) (e : Entry) → get_elem? m.entries i ≡ some e → lookup e.node_id m.index ≡ some i

-- What is known of a node: nothing, its vector, or that it was deleted.
pub data Known : Type 0 where
  unknown : Known
  vector : Vector → Known
  removed : Known

abbrev pub known : Option Entry → Known
known none = unknown
known (some e) = if e.is_deleted then removed else vector e.vector

unfoldable pub view : MemTable → ℕ → Known
view m id = known (entry_at (lookup id m.index) m)

code_cases : (c : ErrorCode) → (c ≡ success) ⊎ (c ≢ success)
code_cases success = inl refl
code_cases _ = inr (λ e. cc)

lt_length : {A : Type 0} (xs : List A) (i : ℕ) (x : A) → get_elem? xs i ≡ some x → i < length xs
lt_length [] i x h = cc
lt_length (y ∷ ys) zero x h = omega arith
lt_length (y ∷ ys) (suc i) x h = omega (arith, lt_length ys i x h)

snoc_cases :
    (xs : List Entry) (x y : Entry) (i : ℕ)
    → get_elem? (xs ++ x ∷ []) i ≡ some y
    → (get_elem? xs i ≡ some y) ⊎ ((i ≡ length xs) × (x ≡ y))
snoc_cases [] x y zero h = inr (refl, cc)
snoc_cases [] x y (suc i) h = cc
snoc_cases (z ∷ zs) x y zero h = inl h
snoc_cases (z ∷ zs) x y (suc i) h = elim (snoc_cases zs x y i h) [
  | inl old ↦ inl old
  | inr (here, same) ↦ inr (ap suc here, same)
]

-- A write at the position of a node changes what is known of that node alone.
module _ (m : MemTable) (x : IsIndexed m) (id i : ℕ) (at : lookup id m.index ≡ some i) (e : Entry)
    (same : e.node_id ≡ id) (n : ℕ) where
  abbrev rewritten : MemTable
  rewritten = record m { entries = set m.entries i e; current_size = n }

  in_bounds : i < length m.entries
  in_bounds = let (f, h, _) = x.points id i at in lt_length m.entries i f h

  other_index : (k j : ℕ) → lookup k m.index ≡ some j → id ≢ k → i ≢ j
  other_index k j h n p =
      let (f, f_at, f_id) = x.points id i at in let (g, g_at, g_id) = x.points k j h in n (cc)

  view-rewritten : (k : ℕ) → view rewritten k ≡ (if id == k then known (some e) else view m k)
  unfolding view
  view-rewritten k = elim (Bool-cases (id == k)) [
    | inl same_id ↦
        let here : lookup k m.index ≡ some i = ground (arith, at) in
        rw (same_id, here, get_elem?-set_self m.entries i e in_bounds) refl
    | inr other ↦ elim (Option-cases (lookup k m.index)) [
      | inl miss ↦ rw (other, miss) refl
      | inr (j, h) ↦
          rw (other, h, get_elem?-set_ne m.entries e (other_index k j h (ground arith))) refl
    ]
  ]

  rewritten-IsIndexed : IsIndexed rewritten
  rewritten-IsIndexed = record {
    points = λ k j h. elim (Bool-cases (id == k)) [
      | inl same_id ↦
          let here : i ≡ j = ground (arith, at) in
          (
            e,
            subst (λ (p : ℕ). get_elem? (set m.entries i e) p ≡ some e) here
                (get_elem?-set_self m.entries i e in_bounds),
            ground (arith, same),
          )
      | inr other ↦
          let (g, g_at, g_id) = x.points k j h in
          (g, get_elem?-set_ne m.entries e (other_index k j h (ground arith)) ∙ g_at, g_id)
    ];
    indexed = λ j g h. elim (Bool-cases (i == j)) [
      | inl here ↦ ground (arith, at, same, get_elem?-set_self m.entries i e in_bounds)
      | inr other ↦
          x.indexed j g (sym (get_elem?-set_ne m.entries {i = i} {j = j} e (ground arith)) ∙ h)
    ];
  }

-- A new entry at the end changes what is known of its node alone.
module _ (m : MemTable) (x : IsIndexed m) (e : Entry)
    (new_id : lookup e.node_id m.index ≡ none) where
  view-append_entry :
      (k n : ℕ)
      → view (record (append_entry e m) { current_size = n }) k
        ≡ (if e.node_id == k then known (some e) else view m k)
  unfolding view append_entry
  view-append_entry k n = elim (Bool-cases (e.node_id == k)) [
    | inl same ↦
        rw
          (
            lookup-insert e.node_id k (length m.entries) m.index,
            same,
            get_elem?-append_end m.entries e,
          )
          refl
    | inr other ↦ elim (Option-cases (lookup k m.index)) [
      | inl miss ↦ rw (lookup-insert e.node_id k (length m.entries) m.index, other, miss) refl
      | inr (j, h) ↦
          let (f, f_at, _) = x.points k j h in
          rw
            (
              lookup-insert e.node_id k (length m.entries) m.index,
              other,
              h,
              get_elem?-append_left m.entries (e ∷ []) j (lt_length m.entries j f f_at),
            )
            refl
    ]
  ]

  append_entry-IsIndexed : (n : ℕ) → IsIndexed (record (append_entry e m) { current_size = n })
  unfolding append_entry
  append_entry-IsIndexed n = record {
    points = λ k j h. elim (Bool-cases (e.node_id == k)) [
      | inl same ↦
          let here : length m.entries ≡ j =
            ground (arith, lookup-insert e.node_id k (length m.entries) m.index) in
          (
            e,
            subst (λ (p : ℕ). get_elem? (m.entries ++ e ∷ []) p ≡ some e) here
                (get_elem?-append_end m.entries e),
            ground arith,
          )
      | inr other ↦
          let old : lookup k m.index ≡ some j =
            ground (arith, lookup-insert e.node_id k (length m.entries) m.index) in
          let (f, f_at, f_id) = x.points k j old in
          (
            f,
            get_elem?-append_left m.entries (e ∷ []) j (lt_length m.entries j f f_at) ∙ f_at,
            f_id,
          )
    ];
    indexed = λ j g h. elim (snoc_cases m.entries e g j h) [
      | inl old ↦ ground (
        arith,
        x.indexed j g old,
        new_id,
        lookup-insert e.node_id g.node_id (length m.entries) m.index,
      )
      | inr (here, same) ↦ ground (
        arith,
        ap (λ (y : Entry). y.node_id) same,
        lookup-insert e.node_id g.node_id (length m.entries) m.index,
      )
    ];
  }

module _ (now id : ℕ) (m : MemTable) (x : IsIndexed m) where
  store_entry_lem :
      (v : Vector)
      → IsIndexed (store_entry now id v m)
        × ((k : ℕ) → view (store_entry now id v m) k ≡ (if id == k then vector v else view m k))
  unfolding store_entry update_entry
  store_entry_lem v = elim (Option-cases (lookup id m.index)) [
    | inl miss ↦
        rw (miss, store_entry)
          (
            append_entry-IsIndexed m x (live_entry now id v) miss _,
            λ k. view-append_entry m x (live_entry now id v) miss k _,
          )
    | inr (i, at) ↦
        let (e, e_at, e_id) = x.points id i at in
        let f : Entry = record e { vector = v; timestamp = now; is_deleted = false } in
        rw (at, store_entry, e_at, update_entry)
          (rewritten-IsIndexed m x id i at f e_id _, λ k. view-rewritten m x id i at f e_id _ k)
  ]

  insert_entry-success :
      (v : Vector)
      → (insert_entry now id v m).0 ≡ success
      → (insert_entry now id v m).1 ≡ store_entry now id v m
  unfolding insert_entry
  insert_entry-success v ok = ground arith

  insert_entry-refused :
      (v : Vector) → (insert_entry now id v m).0 ≢ success → (insert_entry now id v m).1 ≡ m
  unfolding insert_entry
  insert_entry-refused v ok = ground arith

  -- What a call may do to the map of the table: write one node, or nothing at all.
  abbrev pub Writes : ErrorCode × MemTable → Known → Type 0
  Writes r w =
      IsIndexed r.1
      × ((r.0 ≡ success) × ((k : ℕ) → view r.1 k ≡ (if id == k then w else view m k))
          ⊎ (r.0 ≢ success) × (r.1 ≡ m))

  -- On a table whose index is right, insert keeps the index right and either succeeds, after which
  -- the table maps the node to the vector and every other node as before, or fails and changes
  -- nothing.
  pub insert_entry-Writes : (v : Vector) → Writes (insert_entry now id v m) (vector v)
  insert_entry-Writes v = elim (code_cases (insert_entry now id v m).0) [
    | inl ok ↦
        let (kept, written) = store_entry_lem v in
        let same = insert_entry-success v ok in (rw same kept, inl (ok, λ k. rw same (written k)))
    | inr refused ↦ let same = insert_entry-refused v refused in (rw same x, inr (refused, same))
  ]

  bury_entry_lem :
      IsIndexed (bury_entry now id m)
      × ((k : ℕ) → view (bury_entry now id m) k ≡ (if id == k then removed else view m k))
  unfolding bury_entry mark_deleted append_entry
  bury_entry_lem = elim (Option-cases (lookup id m.index)) [
    | inl miss ↦
        rw (miss, bury_entry)
          (
            append_entry-IsIndexed m x (tombstone now id) miss m.current_size,
            λ k. view-append_entry m x (tombstone now id) miss k m.current_size,
          )
    | inr (i, at) ↦
        let (e, e_at, e_id) = x.points id i at in
        let f : Entry = record e { is_deleted = true } in
        rw (at, bury_entry, e_at, mark_deleted)
          (
            rewritten-IsIndexed m x id i at f e_id m.current_size,
            λ k. view-rewritten m x id i at f e_id m.current_size k,
          )
  ]

  delete_entry_frozen : m.immutable ≡ true → delete_entry now id m ≡ (invalid_argument, m)
  unfolding delete_entry
  delete_entry_frozen h = ground arith

  delete_entry_open : m.immutable ≡ false → delete_entry now id m ≡ (success, bury_entry now id m)
  unfolding delete_entry
  delete_entry_open h = ground arith

  -- On a table whose index is right, delete_entry keeps the index right and either succeeds, after
  -- which the table maps the node to a tombstone and every other node as before, or fails and
  -- changes nothing.
  pub delete_entry-Writes : Writes (delete_entry now id m) removed
  delete_entry-Writes = elim (Bool-cases m.immutable) [
    | inl frozen ↦
        subst (λ (r : ErrorCode × MemTable). Writes r removed) (sym (delete_entry_frozen frozen))
          (x, inr (λ e. cc, refl))
    | inr ready ↦
        let (kept, written) = bury_entry_lem in
        subst (λ (r : ErrorCode × MemTable). Writes r removed) (sym (delete_entry_open ready))
          (kept, inl (refl, written))
  ]

-- On a table whose index is right, get, contains and is_deleted answer as the map of the table
-- says: the vector, anything at all, or a tombstone.
pub reads-view :
    (m : MemTable) (id : ℕ)
    → IsIndexed m
    → (get id m ≡ (elim (view m id) [ vector v ↦ some v | _ ↦ none ]))
      × (contains id m ≡ (elim (view m id) [ unknown ↦ false | _ ↦ true ]))
      × (is_deleted id m ≡ (elim (view m id) [ removed ↦ true | _ ↦ false ]))
unfolding get contains is_deleted view
reads-view m id x = elim (Option-cases (lookup id m.index)) [
  | inl miss ↦ rw miss (refl, refl, refl)
  | inr (i, at) ↦
      let (e, e_at, _) = x.points id i at in
      elim (Bool-cases e.is_deleted) [
        | inl gone ↦ rw (at, e_at, gone) (refl, refl, refl)
        | inr there ↦ rw (at, e_at, there) (refl, refl, refl)
      ]
]

pub new-IsIndexed : (size count : ℕ) → IsIndexed (new size count)
new-IsIndexed size count = record { points = λ id i h. absurd (cc); indexed = λ i e h. cc }

update_entry-count :
    (now i : ℕ) (v : Vector) (m : MemTable)
    → length (update_entry now i v m).entries ≡ length m.entries
unfolding update_entry
update_entry-count now i v m = elim (Option-cases (get_elem? m.entries i)) [
  | inl out ↦ ground (arith, out)
  | inr (e, at) ↦ ground (
    arith,
    at,
    length-set m.entries i (record e { vector = v; timestamp = now; is_deleted = false }),
  )
]

store_entry-count :
    (now id : ℕ) (v : Vector) (m : MemTable)
    → length m.entries < m.max_entries
    → length (store_entry now id v m).entries ≤ m.max_entries
unfolding store_entry append_entry
store_entry-count now id v m h = elim (Option-cases (lookup id m.index)) [
  | inl miss ↦ ground (arith, miss, length-append m.entries (live_entry now id v ∷ []))
  | inr (i, at) ↦ ground (arith, at, update_entry-count now i v m)
]

-- insert never takes a table that has at most its greatest count of entries past that count.
pub insert_entry_bounds :
    (now id : ℕ) (v : Vector) (m : MemTable)
    → length m.entries ≤ m.max_entries
    → length (insert_entry now id v m).1.entries ≤ m.max_entries
unfolding insert_entry
insert_entry_bounds now id v m h = ground (arith, store_entry-count now id v m)
