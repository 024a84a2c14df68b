-- ===== src/Lsm/Writer/Start.antt =====
-- The construction and the start of `LsmWriteManager` (src/compaction/memtable.cpp).
use agent_mem_io.Prelude.{ℕ, Bool, false, Option, [], if◌then◌else◌}
use agent_mem_io.Prelude.Bytes.{Bytes}
use agent_mem_io.Lsm.Entry.{ErrorCode, ok, Entry}
use agent_mem_io.Lsm.MemTable
use agent_mem_io.Lsm.MemTable.{MemTable}
use agent_mem_io.Lsm.SsTable.Manager.{empty_manager}
use agent_mem_io.Lsm.Wal
use agent_mem_io.Lsm.Wal.{Wal}
use agent_mem_io.Lsm.Worker.{Worker}
use agent_mem_io.Lsm.Worker
use agent_mem_io.Lsm.Writer.{Writer}

-- The members that the constructor makes: a table with its limits, no SSTable, and the log, whose
-- file may be there already. `next_node_id_` starts at 0.
unfoldable pub new_manager : ℕ → ℕ → Option Bytes → Writer
new_manager max_size max_entries file = record {
  active = MemTable.new max_size max_entries;
  immutables = [];
  tables = empty_manager;
  wal = record { is_open = false; file = file; current_size = 0 };
  next_node_id = 0;
}

-- The log is opened, and the thread of the compaction is started.
unfoldable pub init : ℕ → Bool → Bool → Writer → Worker → ErrorCode × Writer × Worker
init max_levels background opens s w =
    let (code, l) = Wal.init opens s.wal in
    let (code', w') = Worker.start max_levels background w in
    let s' : Writer = record s { wal = l } in if ok code then (code', s', w') else (code, s', w)
