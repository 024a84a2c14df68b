-- ===== src/Lsm/Entry.antt =====
-- The entries that the write path stores (`MemTableEntry` of src/compaction/memtable.h), and the
-- error codes of src/common/types.h. A float is modelled by its 32-bit pattern: the write path
-- copies floats and never computes with them. An error is modelled by its code; its message is
-- text for a reader.
use agent_mem_io.Prelude.{ℕ, ◌+◌, ◌-◌, ◌*◌, ◌%◌, ◌^◌, Bool, true, false, List, length}

pub data ErrorCode : Type 0 where
  success invalid_argument io_error memory_limit_exceeded node_not_found : ErrorCode
  graph_build_failed compaction_failed wal_error buffer_pool_full unknown_error : ErrorCode

-- `Error::ok`
abbrev pub ok : ErrorCode → Bool
ok ErrorCode.success = true
ok _ = false

abbrev pub Vector : Type 0
Vector = List ℕ

pub record Entry : Type 0 where
  pub node_id : ℕ
  pub vector : Vector
  pub timestamp : ℕ
  pub is_deleted : Bool

-- `sizeof(MemTableEntry)` on a 64-bit machine: an id, a vector's three words, a time and a flag, padded.
abbrev pub sizeof_entry : ℕ
sizeof_entry = 48

abbrev pub sizeof_float : ℕ
sizeof_float = 4

-- The bytes that an entry with this vector is charged for.
unfoldable pub charge : Vector → ℕ
charge v = (sizeof_entry + length v * sizeof_float) % 2 ^ 64

abbrev pub add64 : ℕ → ℕ → ℕ
add64 a b = (a + b) % 2 ^ 64

abbrev pub sub64 : ℕ → ℕ → ℕ
sub64 a b = (a + 2 ^ 64 - b) % 2 ^ 64
