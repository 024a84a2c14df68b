-- ===== src/Lsm/SsTable/Manager.antt =====
-- The manager of SSTables (`SSTableManager` of src/compaction/memtable.cpp): the metadata, the ids
-- of each level, and the files, which are known by the id in their path. `opens` says whether the
-- file system opens the file that a call names.
pub mod Lookup
use agent_mem_io.Prelude.{
  ℕ, suc, ◌+◌, ◌*◌, ◌%◌, ◌^◌, Bool, true, false, ◌&&◌, ◌||◌, not, Option, none, some, List, [], ◌∷◌,
  ◌++◌, map, length, min, max, ltb, ◌==◌, if◌then◌else◌, remove, Map, lookup, insert, erase,
}
use agent_mem_io.Prelude.Bytes.{Bytes}
use agent_mem_io.Lsm.Entry.{
  ErrorCode, success, invalid_argument, io_error, node_not_found, Vector, Entry, add64,
}
use agent_mem_io.Lsm.Bloom.{Filter, build_bloom_filter, bloom_filter_test}
use agent_mem_io.Lsm.SsTable.{Read, bad_format, undefined, done, write_file, read_file, scan_file}

pub record Metadata : Type 0 where
  pub id : ℕ
  pub min_node_id : ℕ
  pub max_node_id : ℕ
  pub num_entries : ℕ
  pub size_bytes : ℕ
  pub creation_time : ℕ
  pub level : ℕ
  pub bloom_filter : Filter

pub record Manager : Type 0 where
  pub sstables : Map Metadata
  pub level_map : Map (List ℕ)
  pub files : Map Bytes

abbrev pub empty_manager : Manager
empty_manager = record { sstables = []; level_map = []; files = [] }

-- `SSTableMetadata()`: no table, with `INVALID_NODE_ID` at both ends of its range.
abbrev pub no_metadata : Metadata
no_metadata = record {
  id = 0;
  min_node_id = 4294967295;
  max_node_id = 4294967295;
  num_entries = 0;
  size_bytes = 0;
  creation_time = 0;
  level = 0;
  bloom_filter = [];
}

unfoldable pub min_id : ℕ → List Entry → ℕ
min_id lo [] = lo
min_id lo (e ∷ es) = min_id (min lo e.node_id) es

unfoldable pub max_id : ℕ → List Entry → ℕ
max_id hi [] = hi
max_id hi (e ∷ es) = max_id (max hi e.node_id) es

abbrev pub ids_of : List Entry → List ℕ
ids_of = map (λ e. e.node_id)

-- The size that the metadata records: as if every vector had 128 floats.
abbrev pub estimate : ℕ → ℕ
estimate n = (n * (4 + 4 + 128 * 4 + 1)) % 2 ^ 64

-- The metadata of a table of the entries `e ∷ es`.
unfoldable pub describe : ℕ → ℕ → Entry → List Entry → Metadata
describe now id e es = record {
  id = id;
  min_node_id = min_id e.node_id (e ∷ es);
  max_node_id = max_id e.node_id (e ∷ es);
  num_entries = length (e ∷ es);
  size_bytes = estimate (length (e ∷ es));
  creation_time = now;
  level = 0;
  bloom_filter = build_bloom_filter (ids_of (e ∷ es));
}

-- `level_map_[level]`, which is made empty where it is missing.
abbrev pub level_ids : ℕ → Map (List ℕ) → List ℕ
level_ids level m = elim (lookup level m) [ none ↦ [] | some ids ↦ ids ]

unfoldable pub store : ℕ → ℕ → Entry → List Entry → Manager → Manager
store now id e es m = record m {
  sstables = insert id (describe now id e es) m.sstables;
  level_map = insert 0 (level_ids 0 m.level_map ++ id ∷ []) m.level_map;
  files = insert id (write_file (e ∷ es)) m.files;
}

-- The id of the new table is the number of tables. A file that cannot be opened stops the call
-- before the metadata.
unfoldable pub create_from_memtable : Bool → ℕ → List Entry → Manager → ErrorCode × Manager
create_from_memtable opens now [] m = (invalid_argument, m)
create_from_memtable opens now (e ∷ es) m =
    if opens then (success, store now (length m.sstables) e es m) else (io_error, m)

-- The same with the id as the answer, and with 0 where there is no new table.
unfoldable pub create_from_entries : Bool → ℕ → List Entry → Manager → ℕ × Manager
create_from_entries opens now [] m = (0, m)
create_from_entries opens now (e ∷ es) m =
    if opens then (length m.sstables, store now (length m.sstables) e es m) else (0, m)

-- The bytes of the file of a table, if it opens.
abbrev pub open_file : Bool → ℕ → Manager → Option Bytes
open_file opens id m = if opens then lookup id m.files else none

-- A file of the wrong format is a miss.
unfoldable pub scan_open_file : ℕ → Option Bytes → Read (Option Vector)
scan_open_file node none = done none
scan_open_file node (some bs) = elim (scan_file node bs) [
  | bad_format ↦ done none
  | undefined ↦ undefined
  | done v ↦ done v
]

-- The range test that reads and searches share.
unfoldable pub outside : ℕ → Metadata → Bool
outside node meta = ltb node meta.min_node_id || ltb meta.max_node_id node

unfoldable pub read_in_range : Bool → ℕ → ℕ → Metadata → Manager → Read (Option Vector)
read_in_range opens id node meta m =
    if outside node meta then done none else scan_open_file node (open_file opens id m)

unfoldable pub read_vector : Bool → ℕ → ℕ → Manager → Read (Option Vector)
read_vector opens id node m = elim (lookup id m.sstables) [
  | none ↦ done none
  | some meta ↦ read_in_range opens id node meta m
]

unfoldable pub read_open_file : (ℕ → ℕ) → Option Bytes → Read (ErrorCode × List Entry)
read_open_file clock none = done (io_error, [])
read_open_file clock (some bs) = elim (read_file clock bs) [
  | bad_format ↦ done (io_error, [])
  | undefined ↦ undefined
  | done es ↦ done (success, es)
]

-- The entries of the answer count only with `success`.
unfoldable pub read_sstable_entries : Bool → (ℕ → ℕ) → ℕ → Manager → Read (ErrorCode × List Entry)
read_sstable_entries opens clock id m = elim (lookup id m.sstables) [
  | none ↦ done (node_not_found, [])
  | some meta ↦ read_open_file clock (open_file opens id m)
]

unfoldable pub delete_sstable : ℕ → Manager → ErrorCode × Manager
delete_sstable id m = elim (lookup id m.sstables) [
  | none ↦ (node_not_found, m)
  | some meta ↦ (
    success,
    record m {
      sstables = erase id m.sstables;
      level_map = insert meta.level (remove id (level_ids meta.level m.level_map)) m.level_map;
      files = erase id m.files;
    },
  )
]

unfoldable pub get_metadata : ℕ → Manager → Metadata
get_metadata id m = elim (lookup id m.sstables) [ none ↦ no_metadata | some meta ↦ meta ]

unfoldable pub get_all_metadata : Manager → List Metadata
get_all_metadata m = map (λ p. p.1) m.sstables

unfoldable pub found : List ℕ → Map Metadata → List Metadata
found [] t = []
found (id ∷ ids) t =
    let rest = found ids t in elim (lookup id t) [ none ↦ rest | some meta ↦ meta ∷ rest ]

unfoldable pub get_sstables_in_level : ℕ → Manager → List Metadata
get_sstables_in_level level m = found (level_ids level m.level_map) m.sstables

-- The range, then the Bloom filter.
unfoldable pub may_contain : ℕ → Metadata → Bool
may_contain node meta = not (outside node meta) && bloom_filter_test meta.bloom_filter node

unfoldable pub candidates : ℕ → Map Metadata → List Metadata
candidates node [] = []
candidates node ((id, meta) ∷ t) =
    let rest = candidates node t in if may_contain node meta then meta ∷ rest else rest

unfoldable pub get_sstables_containing : ℕ → Manager → List Metadata
get_sstables_containing node m = candidates node m.sstables

unfoldable pub sizes : Map Metadata → ℕ
sizes [] = 0
sizes ((id, meta) ∷ t) = add64 meta.size_bytes (sizes t)

unfoldable pub get_total_size : Manager → ℕ
get_total_size m = sizes m.sstables

unfoldable pub get_sstables_at_level : ℕ → Manager → List ℕ
get_sstables_at_level level m = level_ids level m.level_map

unfoldable pub get_sstable_count_at_level : ℕ → Manager → ℕ
get_sstable_count_at_level level m = length (level_ids level m.level_map)
