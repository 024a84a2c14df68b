-- ===== src/Disk/Writer.antt =====
-- `DiskIndexWriter::write_index` of src/io/disk_layout.cpp: one record for each node, at the offset
-- of its number. Node numbers stay below 2 ^ 32, the range of the loop's counter.
--
-- `pwrite` is the system's: from the file, the offset and the data it gives the count that it
-- reports and the file that it leaves.
pub mod File
use agent_mem_io.Prelude.{
  ℕ, zero, suc, ◌+◌, ◌*◌, Bool, true, false, Option, none, some, List, [], ◌∷◌, get_elem?, ◌==◌,
  if◌then◌else◌,
}
use agent_mem_io.Prelude.Bytes.{Bytes}
use agent_mem_io.Lsm.Entry.{Vector}
use agent_mem_io.Disk.Record.{disk_record_size, pack_record}

-- `(i < graph.size()) ? graph[i] : {}`
abbrev pub neighbors_of : List (List ℕ) → ℕ → List ℕ
neighbors_of graph i = elim (get_elem? graph i) [ none ↦ [] | some ns ↦ ns ]

-- What the writer is given.
pub record Index : Type 0 where
  pub num_vectors : ℕ
  pub max_degree : ℕ
  pub vectors : List Vector
  pub graph : List (List ℕ)
  pub pq_codes : List Bytes

-- The record of one node; `vectors[i]` past the end is not defined.
unfoldable pub pack_node : Index → ℕ → Option Bytes
pack_node x i = elim (get_elem? x.vectors i) [
  | none ↦ none
  | some v ↦ pack_record x.max_degree v (neighbors_of x.graph i) x.pq_codes i
]

module _ (pwrite : Bytes → ℕ → Bytes → ℕ × Bytes) where
  -- The loop, from node `i` on for `n` nodes: the bytes that are reported written, and the file.
  unfoldable pub write_nodes : Index → ℕ → ℕ → Bytes → ℕ → Option (ℕ × Bytes)
  write_nodes x i zero file total = some (total, file)
  write_nodes x i (suc n) file total = elim (pack_node x i) [
    | none ↦ none
    | some b ↦
        let r = pwrite file (i * disk_record_size) b in
        let rest = write_nodes x (suc i) n r.1 (total + r.0) in
        if r.0 == disk_record_size then rest else some (total, r.1)
  ]

  -- `opened` tells whether one of the two calls of `open` succeeded, which truncates the file, and
  -- `allocated` whether there was memory for the buffer.
  unfoldable pub write_index : Bool → Bool → Index → Bytes → Option (ℕ × Bytes)
  write_index opened allocated x file =
      if opened
      then (if allocated then write_nodes x 0 x.num_vectors [] 0 else some (0, []))
      else some (0, file)
