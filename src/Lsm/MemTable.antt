-- ===== src/Lsm/MemTable.antt =====
-- `MemTable` of src/compaction/memtable.cpp: entries in order of arrival, an index from node ids to
-- positions, and a charge in bytes.
pub mod View
use agent_mem_io.Prelude.{
  ℕ, suc, ◌+◌, ◌*◌, Bool, true, false, ◌&&◌, ◌||◌, Option, none, some, List, [], ◌∷◌, ◌++◌, length,
  get_elem?, set, ltb, leb, ◌==◌, if◌then◌else◌, Map, lookup, insert, is_some,
}
use agent_mem_io.Lsm.Entry.{
  ErrorCode, success, invalid_argument, memory_limit_exceeded, Vector, Entry, charge, add64, sub64,
}

pub record MemTable : Type 0 where
  pub max_size : ℕ
  pub max_entries : ℕ
  pub entries : List Entry
  pub index : Map ℕ
  pub current_size : ℕ
  pub immutable : Bool

-- The defaults of `MemTableConfig` are 10 MB and 100000 entries.
abbrev pub new : ℕ → ℕ → MemTable
new max_size max_entries = record {
  max_size = max_size;
  max_entries = max_entries;
  entries = [];
  index = [];
  current_size = 0;
  immutable = false;
}

abbrev pub new_default : MemTable
new_default = new (10 * 1024 * 1024) 100000

-- The update of an entry that is there. An index past the entries, which the index never holds,
-- would be undefined behaviour.
unfoldable pub update_entry : ℕ → ℕ → Vector → MemTable → MemTable
update_entry now i v m = elim (get_elem? m.entries i) [
  | none ↦ m
  | some e ↦ record m {
    entries = set m.entries i (record e { vector = v; timestamp = now; is_deleted = false });
    current_size = add64 (sub64 m.current_size (charge e.vector)) (charge v);
  }
]

unfoldable pub append_entry : Entry → MemTable → MemTable
append_entry e m = record m {
  entries = m.entries ++ e ∷ [];
  index = insert e.node_id (length m.entries) m.index;
}

abbrev pub live_entry : ℕ → ℕ → Vector → Entry
live_entry now id v = record { node_id = id; vector = v; timestamp = now; is_deleted = false }

-- `insert` past its checks: an update in place, or a new entry.
unfoldable pub store_entry : ℕ → ℕ → Vector → MemTable → MemTable
store_entry now id v m = elim (lookup id m.index) [
  | some i ↦ update_entry now i v m
  | none ↦ record (append_entry (live_entry now id v) m) {
    current_size = add64 m.current_size (charge v);
  }
]

unfoldable pub insert_entry : ℕ → ℕ → Vector → MemTable → ErrorCode × MemTable
insert_entry now id v m =
    if m.immutable
    then (invalid_argument, m)
    else if leb m.max_entries (length m.entries)
    then (memory_limit_exceeded, m)
    else if ltb m.max_size (add64 m.current_size (charge v))
    then (memory_limit_exceeded, m)
    else (success, store_entry now id v m)

abbrev pub tombstone : ℕ → ℕ → Entry
tombstone now id = record { node_id = id; vector = []; timestamp = now; is_deleted = true }

unfoldable pub mark_deleted : ℕ → MemTable → MemTable
mark_deleted i m = elim (get_elem? m.entries i) [
  | none ↦ m
  | some e ↦ record m { entries = set m.entries i (record e { is_deleted = true }) }
]

-- `delete_entry` past its check: a mark on the entry, or a tombstone.
unfoldable pub bury_entry : ℕ → ℕ → MemTable → MemTable
bury_entry now id m = elim (lookup id m.index) [
  | none ↦ append_entry (tombstone now id) m
  | some i ↦ mark_deleted i m
]

unfoldable pub delete_entry : ℕ → ℕ → MemTable → ErrorCode × MemTable
delete_entry now id m =
    if m.immutable then (invalid_argument, m) else (success, bury_entry now id m)

-- The entry of a node, if it has one.
abbrev pub entry_at : Option ℕ → MemTable → Option Entry
entry_at none m = none
entry_at (some i) m = get_elem? m.entries i

abbrev pub live : Option Entry → Option Vector
live none = none
live (some e) = if e.is_deleted then none else some e.vector

unfoldable pub get : ℕ → MemTable → Option Vector
get id m = live (entry_at (lookup id m.index) m)

unfoldable pub contains : ℕ → MemTable → Bool
contains id m = is_some (lookup id m.index)

abbrev pub deleted : Option Entry → Bool
deleted none = false
deleted (some e) = e.is_deleted

unfoldable pub is_deleted : ℕ → MemTable → Bool
is_deleted id m = deleted (entry_at (lookup id m.index) m)

unfoldable pub entries_in : ℕ → ℕ → List Entry → List Entry
entries_in lo hi [] = []
entries_in lo hi (e ∷ es) =
    if leb lo e.node_id && leb e.node_id hi then e ∷ entries_in lo hi es else entries_in lo hi es

unfoldable pub get_entries_in_range : ℕ → ℕ → MemTable → List Entry
unfolding entries_in
get_entries_in_range lo hi m = entries_in lo hi m.entries

unfoldable pub is_full : MemTable → Bool
is_full m = leb m.max_size m.current_size || leb m.max_entries (length m.entries)

unfoldable pub mark_immutable : MemTable → MemTable
mark_immutable m = record m { immutable = true }

unfoldable pub clear : MemTable → MemTable
clear m = record m { entries = []; index = []; current_size = 0; immutable = false }
