-- ===== src/Lsm/Merge/Compact.antt =====
-- `merge_sstables`, `compact_level` and the level-tiered variant of
-- src/compaction/compaction_manager.cpp, on the manager of SSTables. `clock id i` is the clock at the
-- reading of the entry `i` of the table `id`.
pub mod Reads
use agent_mem_io.Prelude.{
  ℕ, zero, suc, ◌+◌, ◌*◌, ◌%◌, ◌-◌, ◌^◌, Bool, true, false, ◌&&◌, List, [], ◌∷◌, map, length, take,
  ltb, leb, if◌then◌else◌,
}
use agent_mem_io.Lsm.Entry.{ErrorCode, success, invalid_argument, ok, Entry, add64}
use agent_mem_io.Lsm.SsTable.{Read, bad_format, undefined, done}
use agent_mem_io.Lsm.SsTable.Manager.{
  Metadata, Manager, read_sstable_entries, create_from_entries, delete_sstable,
  get_sstables_in_level, sizes,
}
use agent_mem_io.Lsm.Merge.{merge_entries, sort, drop_tombstones}

pub record Config : Type 0 where
  pub max_levels : ℕ
  pub level_size_ratio : ℕ
  pub min_sstables_to_compact : ℕ
  pub level_tiered_max_levels : ℕ

abbrev pub default_config : Config
default_config = record {
  max_levels = 7;
  level_size_ratio = 10;
  min_sstables_to_compact = 2;
  level_tiered_max_levels = 3;
}

-- The loop over the tables, of which `opens` tells whose file opens; a table that cannot be read is
-- left out.
unfoldable pub merge_tables :
    (ℕ → Bool) → (ℕ → ℕ → ℕ) → List ℕ → List Entry → Manager → Read (List Entry)
merge_tables opens clock [] acc m = done acc
merge_tables opens clock (id ∷ ids) acc m = elim (read_sstable_entries (opens id) (clock id) id m) [
  | bad_format ↦ bad_format
  | undefined ↦ undefined
  | done (code, es) ↦ merge_tables opens clock ids (if ok code then merge_entries es acc else acc) m
]

-- The answer of a merge: its status and the id of its output, 0 where there is none.
abbrev pub Merged : Type 0
Merged = ErrorCode × (ℕ × Manager)

unfoldable pub write_merged : Bool → ℕ → List Entry → Manager → Merged
write_merged opens now [] m = (success, (0, m))
write_merged opens now (e ∷ es) m = (success, create_from_entries opens now (e ∷ es) m)

unfoldable pub merge_sstables : (ℕ → Bool) → Bool → ℕ → (ℕ → ℕ → ℕ) → List ℕ → Manager → Read Merged
merge_sstables opens created now clock [] m = done (invalid_argument, (0, m))
merge_sstables opens created now clock (id ∷ ids) m =
    elim (merge_tables opens clock (id ∷ ids) [] m) [
      | bad_format ↦ bad_format
      | undefined ↦ undefined
      | done es ↦ done (write_merged created now (drop_tombstones (sort es)) m)
    ]

unfoldable pub delete_all : List ℕ → Manager → Manager
delete_all [] m = m
delete_all (id ∷ ids) m = delete_all ids (delete_sstable id m).1

-- A merge of some tables, and the deletion of those when it went well.
unfoldable pub replace_tables :
    (ℕ → Bool) → Bool → ℕ → (ℕ → ℕ → ℕ) → List ℕ → Manager → Read (ErrorCode × Manager)
replace_tables opens created now clock ids m = elim (merge_sstables opens created now clock ids m) [
  | bad_format ↦ bad_format
  | undefined ↦ undefined
  | done (code, (output, m')) ↦ done (if ok code then (success, delete_all ids m') else (code, m'))
]

abbrev pub table_ids : List Metadata → List ℕ
table_ids = map (λ (x : Metadata). x.id)

unfoldable pub compact_level :
    Config → (ℕ → Bool) → Bool → ℕ → (ℕ → ℕ → ℕ) → ℕ → Manager → Read (ErrorCode × Manager)
compact_level c opens created now clock level m =
    let tables = get_sstables_in_level level m in
    let least = c.min_sstables_to_compact in
    if ltb (length tables) least
    then done (success, m)
    else replace_tables opens created now clock (take (least * 2) (table_ids tables)) m

unfoldable pub needs_compaction : Config → ℕ → Manager → Bool
needs_compaction c level m = leb c.min_sstables_to_compact (length (get_sstables_in_level level m))

unfoldable pub compute_level_max_size : Config → ℕ → ℕ
compute_level_max_size c zero = 1048576
compute_level_max_size c (suc level) = compute_level_max_size c level * c.level_size_ratio % 2 ^ 64

unfoldable pub total_size : List Metadata → ℕ
total_size [] = 0
total_size (x ∷ xs) = add64 x.size_bytes (total_size xs)

unfoldable pub merge_into_next_level :
    (ℕ → Bool) → Bool → ℕ → (ℕ → ℕ → ℕ) → List Metadata → Manager → Read (ErrorCode × Manager)
merge_into_next_level opens created now clock [] m = done (invalid_argument, m)
merge_into_next_level opens created now clock (x ∷ xs) m =
    replace_tables opens created now clock (table_ids (x ∷ xs)) m

-- The loop over the levels from `level` on, `n` of them: the first that is too large is merged. A
-- configuration of no levels, whose count less one wraps around, is outside the model.
unfoldable pub compact_levels :
    Config → (ℕ → Bool) → Bool → ℕ → (ℕ → ℕ → ℕ) → ℕ → ℕ → Manager → Read (ErrorCode × Manager)
compact_levels c opens created now clock level zero m = done (success, m)
compact_levels c opens created now clock level (suc n) m =
    let tables = get_sstables_in_level level m in
    let rest = compact_levels c opens created now clock (suc level) n m in
    if ltb (compute_level_max_size c level) (total_size tables) && leb 2 (length tables)
    then merge_into_next_level opens created now clock tables m
    else rest

unfoldable pub compact_level_tiered :
    Config → (ℕ → Bool) → Bool → ℕ → (ℕ → ℕ → ℕ) → Manager → Read (ErrorCode × Manager)
compact_level_tiered c opens created now clock m =
    compact_levels c opens created now clock 0 (c.level_tiered_max_levels - 1) m
