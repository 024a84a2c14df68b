-- ===== src/Lsm/Merge.antt =====
-- The merge of SSTables (`CompactionManager::merge_sstables` of src/compaction/compaction_manager.cpp),
-- on the entries that were read. `std::sort` by node id is an insertion sort here: the ids are
-- distinct by then, so that every sort gives the same list.
pub mod Newest
pub mod Compact
use agent_mem_io.Prelude.{
  ℕ, Bool, true, false, Option, none, some, List, [], ◌∷◌, ◌++◌, ltb, leb, ◌==◌, if◌then◌else◌,
}
use agent_mem_io.Lsm.Entry.{Entry}

-- One entry is merged: it takes the place of an older one of its node, or goes to the end.
unfoldable pub merge_entry : Entry → List Entry → List Entry
merge_entry e [] = e ∷ []
merge_entry e (x ∷ xs) =
    let rest = merge_entry e xs in
    if x.node_id == e.node_id
    then (if ltb x.timestamp e.timestamp then e ∷ xs else x ∷ xs)
    else x ∷ rest

unfoldable pub merge_entries : List Entry → List Entry → List Entry
merge_entries [] acc = acc
merge_entries (e ∷ es) acc = merge_entries es (merge_entry e acc)

unfoldable pub insert_sorted : Entry → List Entry → List Entry
insert_sorted e [] = e ∷ []
insert_sorted e (x ∷ xs) =
    let rest = insert_sorted e xs in if leb e.node_id x.node_id then e ∷ x ∷ xs else x ∷ rest

unfoldable pub sort : List Entry → List Entry
sort [] = []
sort (e ∷ es) = insert_sorted e (sort es)

unfoldable pub drop_tombstones : List Entry → List Entry
drop_tombstones [] = []
drop_tombstones (e ∷ es) = let rest = drop_tombstones es in if e.is_deleted then rest else e ∷ rest

-- The entries of the new table, from those of the old ones in the order of reading.
unfoldable pub merged : List Entry → List Entry
merged es = drop_tombstones (sort (merge_entries es []))
