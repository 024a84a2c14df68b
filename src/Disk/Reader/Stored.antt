-- ===== src/Disk/Reader/Stored.antt =====
-- The writer and the reader together: what is read is what was written.
use agent_mem_io.Prelude.{
  ℕ, ◌<◌, ◌≡◌, sym, ◌∙◌, subst, ap, true, Option, none, some, [], ◌++◌, length,
}
use agent_mem_io.Prelude.Bytes.{Bytes}
use agent_mem_io.Disk.Record.{parse_record}
use agent_mem_io.Disk.Writer.{Index, write_index}
use agent_mem_io.Disk.Writer.File.{record_at, HasNodes, stored, vector_of, Stores, write_index_lem}
use agent_mem_io.Disk.Reader.{Reader, read_record, read_vector}
use agent_mem_io.Disk.Reader.Reads.{Delivers, IsReady, read_record-Reads}

module _ (x : Index) (pwrite : Bytes → ℕ → Bytes → ℕ × Bytes)
    (appends : (file b : Bytes) → pwrite file (length file) b ≡ (length b, file ++ b))
    (has : HasNodes x 0 x.num_vectors) (old file : Bytes) (total : ℕ)
    (written : write_index pwrite true true x old ≡ some (total, file)) where
  file_of : Stores x file
  file_of =
      let (f, e, l, s) = write_index_lem x pwrite appends old has in
      subst (Stores x) (ap contents (sym e ∙ written)) s
    where
      contents : Option (ℕ × Bytes) → Bytes
      contents none = []
      contents (some (n, f)) = f

  -- The system's `pwrite` at the end of a file reports the whole record written and appends it,
  -- and its `pread` delivers what it is asked for inside the file. The index has a vector for each
  -- of its nodes, and a record has room for each node's data. Then an open reader of the file that
  -- write_index left, with the index's bounds, a valid cache of that file or none, and memory for
  -- a buffer, reads back each node's id, vector, neighbours and codes with read_record, and its
  -- vector with read_vector.
  pub read_record-write_index :
      (pread : ℕ → ℕ → Bytes)
      → Delivers file pread
      → (r : Reader) → IsReady file r
      → r.num_vectors ≡ x.num_vectors
      → r.max_degree ≡ x.max_degree
      → (spare : Bytes) (now : ℕ) (fresh : Bytes) (id : ℕ) → id < r.num_vectors
      → ((read_record pread (some spare) now fresh id r).0 ≡ some (stored x id))
        × ((read_vector pread (some spare) now fresh id r).0 ≡ some (vector_of x id))
  read_record-write_index pread delivers r ready count degree spare now fresh id inside =
      let parses : (rest : Bytes)
          → parse_record r.max_degree (record_at file id ++ rest) ≡ some (stored x id) =
        λ rest. rw degree (file_of id (subst (λ n. id < n) count inside) rest) in
      let (a, b, c, d) =
        read_record-Reads file pread delivers r ready id inside (stored x id) parses spare now
          fresh in
      (a, b)
