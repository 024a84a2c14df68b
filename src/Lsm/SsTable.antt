-- ===== src/Lsm/SsTable.antt =====
-- `SSTableManager` of src/compaction/memtable.cpp: the format of its files here, the manager in
-- the child module.
--
-- A file is the bytes "SSTABLE1", the count in 8 bytes, and the entries: node id and length of the
-- vector in 4 bytes each, the floats' words, and one byte for the tombstone flag. The streams of
-- the code leave their variables unset when a file is too short; such a read is `undefined`.
pub mod Codec
pub mod Manager
use agent_mem_io.Prelude.{
  ℕ, zero, suc, ◌+◌, ◌%◌, ◌^◌, Bool, true, false, not, ◌&&◌, Option, none, some, List, [], ◌∷◌,
  ◌++◌, length, ◌==◌, if◌then◌else◌,
}
use agent_mem_io.Prelude.Bytes.{Bytes, to_le, from_le, read_bytes, read_le}
use agent_mem_io.Lsm.Entry.{Vector, Entry}

abbrev pub magic : Bytes
magic = 83 ∷ 83 ∷ 84 ∷ 65 ∷ 66 ∷ 76 ∷ 69 ∷ 49 ∷ []

unfoldable pub write_vector : Vector → Bytes
write_vector [] = []
write_vector (w ∷ ws) = to_le 4 w ++ write_vector ws

abbrev pub flag : Bool → Bytes
flag true = 1 ∷ []
flag false = 0 ∷ []

unfoldable pub write_entry : Entry → Bytes
write_entry e =
    to_le 4 e.node_id
    ++ (to_le 4 (length e.vector % 2 ^ 32) ++ (write_vector e.vector ++ flag e.is_deleted))

unfoldable pub write_entries : List Entry → Bytes
write_entries [] = []
write_entries (e ∷ es) = write_entry e ++ write_entries es

-- What `write_sstable_file` writes.
unfoldable pub write_file : List Entry → Bytes
write_file es = magic ++ (to_le 8 (length es % 2 ^ 64) ++ write_entries es)

unfoldable pub read_vector_words : ℕ → Bytes → Option (Vector × Bytes)
read_vector_words zero bs = some ([], bs)
read_vector_words (suc n) bs = elim (read_le 4 bs) [
  | none ↦ none
  | some (w, rest) ↦ elim (read_vector_words n rest) [
    | none ↦ none
    | some (ws, rest') ↦ some (w ∷ ws, rest')
  ]
]

-- The fields of one entry, read in the order of the file.
unfoldable pub read_flag : Bytes → Option (Bool × Bytes)
read_flag bs = elim (read_le 1 bs) [ none ↦ none | some (b, rest) ↦ some (not (b == 0), rest) ]

unfoldable pub read_tail : ℕ → ℕ → Vector → Bytes → Option (Entry × Bytes)
read_tail id now v bs = elim (read_flag bs) [
  | none ↦ none
  | some (d, rest) ↦
      some (record { node_id = id; vector = v; timestamp = now; is_deleted = d }, rest)
]

unfoldable pub read_body : ℕ → ℕ → Bytes → Option (Entry × Bytes)
read_body id now bs = elim (read_le 4 bs) [
  | none ↦ none
  | some (n, rest) ↦ elim (read_vector_words n rest) [
    | none ↦ none
    | some (v, rest') ↦ read_tail id now v rest'
  ]
]

unfoldable pub read_entry : ℕ → Bytes → Option (Entry × Bytes)
read_entry now bs = elim (read_le 4 bs) [ none ↦ none | some (id, rest) ↦ read_body id now rest ]

-- The outcome of reading a file: the wrong format, a file cut short, or a result.
pub data Read {ℓ} (A : Type ℓ) : Type ℓ where
  bad_format : Read A
  undefined : Read A
  done : A → Read A

-- The loop of `read_sstable_entries`: the entry `i` gets the time `clock i` plus `i`.
unfoldable pub read_entries : (ℕ → ℕ) → ℕ → ℕ → Bytes → Read (List Entry)
read_entries clock i zero bs = done []
read_entries clock i (suc n) bs = elim (read_entry ((clock i + i) % 2 ^ 64) bs) [
  | none ↦ undefined
  | some (e, rest) ↦ elim (read_entries clock (suc i) n rest) [
    | done es ↦ done (e ∷ es)
    | bad_format ↦ bad_format
    | undefined ↦ undefined
  ]
]

-- The scan of `read_vector`: the first entry of the node decides.
unfoldable pub scan_entries : ℕ → ℕ → Bytes → Read (Option Vector)
scan_entries id zero bs = done none
scan_entries id (suc n) bs = elim (read_entry 0 bs) [
  | none ↦ undefined
  | some (e, rest) ↦
      let later = scan_entries id n rest in
      if e.node_id == id then done (if e.is_deleted then none else some e.vector) else later
]

unfoldable pub same_bytes : Bytes → Bytes → Bool
same_bytes [] [] = true
same_bytes (x ∷ xs) (y ∷ ys) = (x == y) && same_bytes xs ys
same_bytes _ _ = false

-- The header's checks: the count and what follows it.
unfoldable pub read_header : Bytes → Read (ℕ × Bytes)
read_header bs = elim (read_bytes 8 bs) [
  | none ↦ undefined
  | some (m, rest) ↦
      if same_bytes m magic
      then elim (read_le 8 rest) [ none ↦ undefined | some (n, rest') ↦ done (n, rest') ]
      else bad_format
]

-- `read_sstable_entries` and `read_vector` on the bytes of an open file.
unfoldable pub read_file : (ℕ → ℕ) → Bytes → Read (List Entry)
read_file clock bs = elim (read_header bs) [
  | bad_format ↦ bad_format
  | undefined ↦ undefined
  | done (n, rest) ↦ read_entries clock 0 n rest
]

unfoldable pub scan_file : ℕ → Bytes → Read (Option Vector)
scan_file id bs = elim (read_header bs) [
  | bad_format ↦ bad_format
  | undefined ↦ undefined
  | done (n, rest) ↦ scan_entries id n rest
]
