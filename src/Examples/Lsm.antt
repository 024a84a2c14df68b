-- ===== src/Examples/Lsm.antt =====
-- The write path on a small table.
use agent_mem_io.Prelude.{
  ℕ, ◌*◌, ◌≡◌, subst, sym, refl, ltb, ◌==◌, Bool, true, false, none, some, List, [], ◌∷◌, ◌++◌,
  arith, length, replicate, length-replicate,
}
use agent_mem_io.Lsm.Entry.{success, Vector, Entry, charge}
use agent_mem_io.Lsm.MemTable.{MemTable, new, store_entry, append_entry, is_full, insert_entry, get}
use agent_mem_io.Lsm.MemTable.View.{IsIndexed, vector, Writes, insert_entry-Writes, new-IsIndexed}
use agent_mem_io.Lsm.Bloom.{
  bloom_filter_test, build_bloom_filter, bloom_filter_test-build_bloom_filter,
}
use agent_mem_io.Lsm.SsTable.{done}
use agent_mem_io.Lsm.SsTable.Codec.{Storable, first_live}
use agent_mem_io.Lsm.SsTable.Manager.{
  Manager, empty_manager, store, create_from_memtable, read_vector, get_sstables_containing,
}
use agent_mem_io.Lsm.SsTable.Manager.Lookup.{
  read_vector-create_from_memtable, has_id, get_sstables_containing-create_from_memtable,
}
use agent_mem_io.Lsm.Merge.{
  merged, sort, merge_entries, merge_entry, insert_sorted, drop_tombstones,
}
use agent_mem_io.Lsm.Merge.Newest.{IsSorted, entry_of, alive, newest, merged-newest}
use agent_mem_io.Lsm.Wal.{
  Wal, clear, log_insert, append_record, insert_record, decode_record, live_entry, Recovery,
}
use agent_mem_io.Lsm.Wal.Record.{decode_record_long}
use agent_mem_io.Lsm.Wal.Recover.{Op, inserted, deleted, log, log_all}
use agent_mem_io.Lsm.Writer.{Writer, Env, insert_with_id, flush, get as read}
use agent_mem_io.Lsm.Writer.Flush.{flush-read_vector, get-insert_with_id}

abbrev table : MemTable
table = (insert_entry 5 7 (1 ∷ 2 ∷ []) (new 1000 10)).1

table-IsIndexed : IsIndexed table
table-IsIndexed = (insert_entry-Writes 5 7 (new 1000 10) (new-IsIndexed 1000 10) (1 ∷ 2 ∷ [])).0

insert_entry-Writes_example :
    Writes 6 7 table table-IsIndexed (insert_entry 6 7 (3 ∷ []) table) (vector (3 ∷ []))
insert_entry-Writes_example = insert_entry-Writes 6 7 table table-IsIndexed (3 ∷ [])

bloom_filter_test-build_bloom_filter_example :
    bloom_filter_test (build_bloom_filter (5 ∷ 1029 ∷ [])) 1029 ≡ true
bloom_filter_test-build_bloom_filter_example =
    bloom_filter_test-build_bloom_filter (5 ∷ 1029 ∷ []) 1029 refl

abbrev entry : ℕ → ℕ → Vector → Bool → Entry
entry time id v d = record { node_id = id; vector = v; timestamp = time; is_deleted = d }

abbrev old : List Entry
old = entry 1 7 (10 ∷ 11 ∷ []) false ∷ entry 2 9 (12 ∷ []) false ∷ []

abbrev young : List Entry
young = entry 3 9 [] true ∷ entry 4 3 (13 ∷ []) false ∷ []

old-Storable : Storable old
old-Storable = (
  omega arith,
  (
    record { id = omega arith; count = omega arith; words = (omega arith, (omega arith, tt)) },
    (record { id = omega arith; count = omega arith; words = (omega arith, tt) }, tt),
  ),
)

abbrev clock : ℕ → ℕ
clock i = 100

abbrev one : Manager
one = (create_from_memtable true 50 old empty_manager).1

abbrev two : Manager
two = (create_from_memtable true 51 young one).1

read_vector-create_from_memtable_example : read_vector true 0 9 one ≡ done (first_live 9 old)
read_vector-create_from_memtable_example =
    read_vector-create_from_memtable 50 (entry 1 7 (10 ∷ 11 ∷ []) false)
      (entry 2 9 (12 ∷ []) false ∷ []) empty_manager 9 old-Storable

get_sstables_containing-create_from_memtable_example :
    has_id 0 (get_sstables_containing 9 one) ≡ true
get_sstables_containing-create_from_memtable_example =
    get_sstables_containing-create_from_memtable 50 (entry 1 7 (10 ∷ 11 ∷ []) false)
      (entry 2 9 (12 ∷ []) false ∷ []) empty_manager 9 refl

merged-newest_example :
    IsSorted (merged (old ++ young))
    × ((id : ℕ) → entry_of id (merged (old ++ young)) ≡ alive (newest id none (old ++ young)))
merged-newest_example = merged-newest (old ++ young)

program : Unit {0}
unfolding create_from_memtable store merged sort merge_entries merge_entry insert_sorted
    drop_tombstones
program = tt

abbrev clocks : ℕ → ℕ → ℕ
clocks id i = 100 * id

abbrev output : List Entry
output = entry 101 3 (13 ∷ []) false ∷ entry 0 7 (10 ∷ 11 ∷ []) false ∷ []

abbrev two_open : ℕ → Bool
two_open id = ltb id 2

abbrev graves : List Entry
graves = entry 1 7 [] true ∷ []

graves-Storable : Storable graves
graves-Storable = (omega arith, (record { id = omega arith; count = omega arith; words = tt }, tt))

abbrev buried : Manager
buried = (create_from_memtable true 50 graves empty_manager).1

abbrev ops : List Op
ops = inserted 5 7 (1 ∷ 2 ∷ []) ∷ deleted 6 7 ∷ []

abbrev closed : Wal
closed = record { is_open = false; file = none; current_size = 0 }

-- The read of the second record fails.
abbrev one_read : Recovery
one_read = record { readable = true; allocated = true; reads = λ i. i == 0; opens = true }

abbrev torn_log : Wal
torn_log = (log 100 (inserted 8 9 (3 ∷ [])) (log_all ops (clear true closed).1)).1

abbrev wide : Vector
wide = replicate 1022 7

decode_record_long_example :
    decode_record (insert_record 5 7 wide) ≡ some (live_entry 7 (replicate (length wide) 0) 0)
decode_record_long_example =
    decode_record_long 5 7 wide (omega arith) (omega arith)
      (omega (arith, length-replicate {A = ℕ} 1022 7))
      (omega (arith, length-replicate {A = ℕ} 1022 7))

abbrev env : Env
env = record { now = 9; logged = some 4096; table_opens = true; wal_opens = true }

-- A writer with one entry in its table.
abbrev writer : Writer
writer = record {
  active = table;
  immutables = [];
  tables = one;
  wal = (clear true closed).1;
  next_node_id = 8;
}

fresh_entry : table.entries ≡ entry 5 7 (1 ∷ 2 ∷ []) false ∷ []
unfolding insert_entry store_entry append_entry charge
fresh_entry = refl

fresh-Storable : Storable table.entries
fresh-Storable = subst Storable (sym fresh_entry) (
  omega arith,
  (record { id = omega arith; count = omega arith; words = (omega arith, (omega arith, tt)) }, tt),
)

flush-read_vector_example :
    ((flush env writer).0 ≡ success)
    × ((flush env writer).1.immutables ≡ [])
    × ((id : ℕ) → read_vector true 1 id (flush env writer).1.tables ≡ done (get id table))
unfolding program
flush-read_vector_example =
    flush-read_vector env writer (entry 5 7 (1 ∷ 2 ∷ []) false) [] refl table-IsIndexed fresh_entry
      fresh-Storable refl

get-insert_with_id_example :
    ((insert_with_id env 9 (3 ∷ []) writer).0 ≡ success)
    × (read true 9 (insert_with_id env 9 (3 ∷ []) writer).1 ≡ done (some (3 ∷ [])))
unfolding log_insert append_record clear insert_entry store_entry append_entry charge is_full
get-insert_with_id_example =
    get-insert_with_id env 9 (3 ∷ []) writer true table-IsIndexed refl refl refl
