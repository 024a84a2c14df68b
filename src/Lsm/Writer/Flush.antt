-- ===== src/Lsm/Writer/Flush.antt =====
-- What a write and a flush leave to be read.
use agent_mem_io.Prelude.{
  ℕ, zero, suc, ◌≡◌, ◌≢◌, refl, ◌∙◌, sym, ap, subst, Bool, true, false, Option, none, some, List,
  [], ◌∷◌, ◌==◌, get_elem?, length, lookup, arith, inl, inr, Bool-cases, Option-cases,
}
use agent_mem_io.Lsm.Entry.{success, ok, Vector, Entry}
use agent_mem_io.Lsm.MemTable.{MemTable, mark_immutable, is_full, insert_entry, entry_at, live}
use agent_mem_io.Lsm.MemTable
use agent_mem_io.Lsm.MemTable.View.{IsIndexed, view, vector, insert_entry-Writes, reads-view}
use agent_mem_io.Lsm.SsTable.{done}
use agent_mem_io.Lsm.SsTable.Codec.{Storable, first_live}
use agent_mem_io.Lsm.SsTable.Manager.{create_from_memtable, read_vector}
use agent_mem_io.Lsm.SsTable.Manager.Lookup.{read_vector-create_from_memtable}
use agent_mem_io.Lsm.Wal.{log_insert}
use agent_mem_io.Lsm.Writer.{
  Writer, Env, flush_oldest, retire, rotate_memtable, flush, insert_logged, insert_with_id, get,
}

test_of : (a b : ℕ) → a ≡ b → (a == b) ≡ true
test_of a b h = ground arith

suc_back : {i j : ℕ} → suc i ≡ suc j → i ≡ j
suc_back h = omega (arith, h)

-- In a list with one entry of a node, that entry decides.
first_live_unique :
    (node : ℕ) (es : List Entry) (k : ℕ) (e : Entry)
    → get_elem? es k ≡ some e
    → e.node_id ≡ node
    → ((i : ℕ) (f : Entry) → get_elem? es i ≡ some f → f.node_id ≡ node → i ≡ k)
    → first_live node es ≡ live (some e)
unfolding first_live
first_live_unique node [] k e at same only = cc
first_live_unique node (x ∷ xs) zero e at same only =
    let is : x ≡ e = cc in
    let here : (x.node_id == node) ≡ true =
      subst (λ (y : Entry). (y.node_id == node) ≡ true) (sym is) (test_of e.node_id node same) in
    rw here (ap (λ (y : Entry). live (some y)) is)
first_live_unique node (x ∷ xs) (suc k) e at same only =
    let later = first_live_unique node xs k e at same (λ i f h q. suc_back (only (suc i) f h q)) in
    elim (Bool-cases (x.node_id == node)) [
      | inl here ↦
          let clash : 0 ≡ suc k = only 0 x refl (ground arith) in absurd (omega (arith, clash))
      | inr other ↦ rw other later
    ]

first_live-none :
    (node : ℕ) (es : List Entry)
    → ((i : ℕ) (f : Entry) → get_elem? es i ≡ some f → f.node_id ≢ node)
    → first_live node es ≡ none
unfolding first_live
first_live-none node [] h = refl
first_live-none node (x ∷ xs) h = elim (Bool-cases (x.node_id == node)) [
  | inl here ↦ absurd (h 0 x refl (ground arith))
  | inr later ↦ rw later (first_live-none node xs (λ i. h (suc i)))
]

live_cases : (id : ℕ) (m : MemTable) → IsIndexed m → first_live id m.entries ≡ MemTable.get id m
unfolding MemTable.get
live_cases id m x = elim (Option-cases (lookup id m.index)) [
  | inl miss ↦
      rw (miss, MemTable.get)
        (first_live-none id m.entries (λ i f h q.
          none_not_some miss (subst (λ (k : ℕ). lookup k m.index ≡ some i) q (x.indexed i f h))))
  | inr (k, at) ↦
      let (e, e_at, e_id) = x.points id k at in
      rw (at, MemTable.get)
        (first_live_unique id m.entries k e e_at e_id (λ i f h q.
            one_index (subst (λ (j : ℕ). lookup j m.index ≡ some i) q (x.indexed i f h)) at)
          ∙ ap live (sym e_at))
]
  where
    none_not_some : {o : Option ℕ} {i : ℕ} → o ≡ none → o ≢ some i
    none_not_some h g = cc

    one_index : {o : Option ℕ} {i k : ℕ} → o ≡ some i → o ≡ some k → i ≡ k
    one_index h g = cc

module _ (e : Env) (s : Writer) (first : Entry) (rest : List Entry) where
  flush_lem :
      s.immutables ≡ []
      → s.active.entries ≡ first ∷ rest
      → e.table_opens ≡ true
      → ((flush e s).0 ≡ success)
        × ((flush e s).1.tables ≡ (create_from_memtable true e.now (first ∷ rest) s.tables).1)
        × ((flush e s).1.immutables ≡ [])
  unfolding flush rotate_memtable retire flush_oldest create_from_memtable mark_immutable
  flush_lem none_waits entries opens = ground (arith, none_waits, entries, opens)

  -- If no table waits, the index of the active table is right, its entries are storable and at
  -- least one, and the file of the new table opens, flush succeeds, no table waits, and the table
  -- whose id was the number of tables answers for every node what the active table answered
  -- before.
  pub flush-read_vector :
      s.immutables ≡ []
      → IsIndexed s.active
      → s.active.entries ≡ first ∷ rest
      → Storable s.active.entries
      → e.table_opens ≡ true
      → ((flush e s).0 ≡ success)
        × ((flush e s).1.immutables ≡ [])
        × ((id : ℕ)
            → read_vector true (length s.tables.sstables) id (flush e s).1.tables
              ≡ done (MemTable.get id s.active))
  flush-read_vector none_waits x entries fits opens =
      let (ok, made, gone) = flush_lem none_waits entries opens in
      (
        ok,
        gone,
        λ id.
            rw (made, ← live_cases id s.active x, entries)
              (read_vector-create_from_memtable e.now first rest s.tables id (rw entries at fits)),
      )

get-insert_entry :
    (now id : ℕ) (v : Vector) (m : MemTable)
    → IsIndexed m
    → (insert_entry now id v m).0 ≡ success
    → MemTable.get id (insert_entry now id v m).1 ≡ some v
get-insert_entry now id v m x fine =
    let (kept, outcome) = insert_entry-Writes now id m x v in
    elim outcome [
      | inl (_, written) ↦
          let seen : view (insert_entry now id v m).1 id ≡ vector v =
            written id ∙ rw (test_of id id refl) refl in
          let (answer, _, _) = reads-view (insert_entry now id v m).1 id kept in
          answer ∙ rw seen refl
      | inr (refused, _) ↦ absurd (refused fine)
    ]

insert_logged_lem :
    (e : Env) (id : ℕ) (v : Vector) (s : Writer)
    → (insert_entry e.now id v s.active).0 ≡ success
    → is_full (insert_entry e.now id v s.active).1 ≡ false
    → insert_logged e id v s ≡ (success, record s { active = (insert_entry e.now id v s.active).1 })
unfolding insert_logged
insert_logged_lem e id v s fine room = ground (arith, fine, room)

get_active :
    (opens : Bool) (id : ℕ) (v : Vector) (s : Writer)
    → MemTable.get id s.active ≡ some v
    → get opens id s ≡ done (some v)
unfolding get
get_active opens id v s h = rw (h, get) refl

insert_with_id_lem :
    (e : Env) (id : ℕ) (v : Vector) (s : Writer)
    → (log_insert e.logged e.now id v s.wal).0 ≡ success
    → insert_with_id e id v s
      ≡ insert_logged e id v (record s { wal = (log_insert e.logged e.now id v s.wal).1 })
unfolding insert_with_id
insert_with_id_lem e id v s logged = ground (arith, logged)

-- If the index of the active table is right, the log takes the record, the table takes the entry
-- and is not full afterwards, insert_with_id succeeds and get of the node gives the vector.
pub get-insert_with_id :
    (e : Env) (id : ℕ) (v : Vector) (s : Writer) (opens : Bool)
    → IsIndexed s.active
    → (log_insert e.logged e.now id v s.wal).0 ≡ success
    → (insert_entry e.now id v s.active).0 ≡ success
    → is_full (insert_entry e.now id v s.active).1 ≡ false
    → ((insert_with_id e id v s).0 ≡ success)
      × (get opens id (insert_with_id e id v s).1 ≡ done (some v))
get-insert_with_id e id v s opens x logged fine room =
    let s' : Writer = record s { wal = (log_insert e.logged e.now id v s.wal).1 } in
    rw (insert_with_id_lem e id v s logged, insert_logged_lem e id v s' fine room)
      (
        refl,
        get_active opens id v (record s' { active = (insert_entry e.now id v s.active).1 })
            (get-insert_entry e.now id v s.active x fine),
      )
