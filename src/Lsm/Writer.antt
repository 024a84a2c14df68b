-- ===== src/Lsm/Writer.antt =====
-- `LsmWriteManager` of src/compaction/memtable.cpp: the log, the active table, the tables that wait
-- for their flush, and the tables on disk.
pub mod Flush
pub mod Start
use agent_mem_io.Prelude.{
  ℕ, ◌+◌, ◌%◌, ◌^◌, Bool, true, false, Option, none, some, List, [], ◌∷◌, ◌++◌, if◌then◌else◌,
}
use agent_mem_io.Lsm.Entry.{ErrorCode, success, invalid_argument, ok, Vector}
use agent_mem_io.Lsm.MemTable.{MemTable, new_default, insert_entry, mark_immutable, is_full}
use agent_mem_io.Lsm.MemTable
use agent_mem_io.Lsm.SsTable.{Read, bad_format, undefined, done}
use agent_mem_io.Lsm.SsTable.Manager.{
  Metadata, Manager, create_from_memtable, get_sstables_containing, read_vector,
}
use agent_mem_io.Lsm.Wal.{Wal, log_insert, log_delete}
use agent_mem_io.Lsm.Wal

pub record Writer : Type 0 where
  pub active : MemTable
  pub immutables : List MemTable
  pub tables : Manager
  pub wal : Wal
  pub next_node_id : ℕ

-- What a call meets: the clock, the fate of its write to the log, and whether the file of a new
-- table and the new log open.
pub record Env : Type 0 where
  pub now : ℕ
  pub logged : Option ℕ
  pub table_opens : Bool
  pub wal_opens : Bool

-- The flush of the oldest table that waits. When the new log does not open, nobody is told.
unfoldable pub flush_oldest : Env → Writer → ErrorCode × Writer
flush_oldest e s = elim s.immutables [
  | [] ↦ (success, s)
  | t ∷ ts ↦
      let (code, m) = create_from_memtable e.table_opens e.now t.entries s.tables in
      if ok code
      then (
        success,
        record s { immutables = ts; tables = m; wal = (Wal.clear e.wal_opens s.wal).1 },
      )
      else (code, record s { tables = m })
]

-- The active table joins those that wait. The new one has the default limits.
unfoldable pub retire : Writer → Writer
retire s = record s {
  active = new_default;
  immutables = s.immutables ++ mark_immutable s.active ∷ [];
}

unfoldable pub rotate_memtable : Env → Writer → ErrorCode × Writer
rotate_memtable e s = flush_oldest e (retire s)

unfoldable pub flush : Env → Writer → ErrorCode × Writer
unfolding rotate_memtable
flush e s = rotate_memtable e s

-- `insert_with_id` past the log.
unfoldable pub insert_logged : Env → ℕ → Vector → Writer → ErrorCode × Writer
insert_logged e id v s =
    let (code, t) = insert_entry e.now id v s.active in
    let s' : Writer = record s { active = t } in
    if ok code then (if is_full t then rotate_memtable e s' else (success, s')) else (code, s')

unfoldable pub insert_with_id : Env → ℕ → Vector → Writer → ErrorCode × Writer
insert_with_id e id v s =
    let (code, w) = log_insert e.logged e.now id v s.wal in
    let s' : Writer = record s { wal = w } in
    if ok code then insert_logged e id v s' else (code, s')

-- The id of the new node comes with the answer.
unfoldable pub insert : Env → Vector → Writer → ℕ × (ErrorCode × Writer)
insert e v s =
    let id = s.next_node_id in
    (id, insert_with_id e id v (record s { next_node_id = (id + 1) % 2 ^ 32 }))

unfoldable pub delete_entry : Env → ℕ → Writer → ErrorCode × Writer
delete_entry e id s =
    let (code, w) = log_delete e.logged e.now id s.wal in
    let (code', t) = MemTable.delete_entry e.now id s.active in
    if ok code then (code', record s { wal = w; active = t }) else (code, record s { wal = w })

unfoldable pub get_waiting : ℕ → List MemTable → Option Vector
get_waiting id [] = none
get_waiting id (t ∷ ts) =
    let rest = get_waiting id ts in elim (MemTable.get id t) [ none ↦ rest | some v ↦ some v ]

unfoldable pub get_on_disk : Bool → ℕ → List Metadata → Manager → Read (Option Vector)
get_on_disk opens id [] m = done none
get_on_disk opens id (t ∷ ts) m =
    let rest = get_on_disk opens id ts m in
    elim (read_vector opens t.id id m) [
      | bad_format ↦ bad_format
      | undefined ↦ undefined
      | done none ↦ rest
      | done (some v) ↦ done (some v)
    ]

unfoldable pub get_below : Bool → ℕ → Writer → Read (Option Vector)
get_below opens id s = elim (get_waiting id s.immutables) [
  | some v ↦ done (some v)
  | none ↦ get_on_disk opens id (get_sstables_containing id s.tables) s.tables
]

-- The active table, those that wait, then those on disk.
unfoldable pub get : Bool → ℕ → Writer → Read (Option Vector)
get opens id s = elim (MemTable.get id s.active) [
  | some v ↦ done (some v)
  | none ↦ get_below opens id s
]
