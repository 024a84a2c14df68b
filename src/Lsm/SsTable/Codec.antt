-- ===== src/Lsm/SsTable/Codec.antt =====
-- What the files of SSTables read back to.
use agent_mem_io.Prelude.{
  ℕ, suc, ◌+◌, ◌%◌, ◌^◌, ◌<◌, ◌≡◌, refl, ap, Bool, true, false, Option, none, some, List, [], ◌∷◌,
  ◌++◌, All, length, ◌==◌, if◌then◌else◌, arith,
}
use agent_mem_io.Prelude.Bytes.{
  Bytes, to_le, from_le, read_bytes, read_le, read_le-to_le, read_bytes-append,
}
use mathlib.Core.List.{append_assoc}
use agent_mem_io.Lsm.Entry.{Vector, Entry}
use agent_mem_io.Lsm.SsTable.{
  magic, write_vector, flag, write_entry, write_entries, write_file, read_vector_words, read_flag,
  read_tail, read_body, read_entry, done, read_entries, scan_entries, read_header, read_file,
  scan_file, same_bytes,
}

-- The words of an entry fit the fields of the file.
pub record Fits (e : Entry) : Type 0 where
  pub id : e.node_id < 2 ^ 32
  pub count : length e.vector < 2 ^ 32
  pub words : All (λ w. w < 2 ^ 32) e.vector

pub read_vector_words-write_vector :
    (v : Vector) (rest : Bytes)
    → All (λ w. w < 2 ^ 32) v
    → read_vector_words (length v) (write_vector v ++ rest) ≡ some (v, rest)
unfolding read_vector_words write_vector
read_vector_words-write_vector [] rest a = refl
read_vector_words-write_vector (w ∷ ws) rest a =
    rw
      (
        append_assoc (to_le 4 w) (write_vector ws) rest,
        read_le-to_le 4 w (write_vector ws ++ rest) a.0,
        read_vector_words,
        read_vector_words-write_vector ws rest a.1,
      )
      refl

read_flag-flag : (d : Bool) (rest : Bytes) → read_flag (flag d ++ rest) ≡ some (d, rest)
unfolding read_flag read_le read_bytes from_le
read_flag-flag true rest = refl
read_flag-flag false rest = refl

-- An entry as a read at the time `now` gives it back: its own time is not in the file.
abbrev pub stamped : ℕ → Entry → Entry
stamped now e = record e { timestamp = now }

read_tail-flag :
    (id now : ℕ) (v : Vector) (d : Bool) (rest : Bytes)
    → read_tail id now v (flag d ++ rest)
      ≡ some (record { node_id = id; vector = v; timestamp = now; is_deleted = d }, rest)
unfolding read_tail
read_tail-flag id now v d rest = rw (read_flag-flag d rest, read_tail) refl

read_body-lem :
    (id now : ℕ) (v : Vector) (d : Bool) (rest : Bytes)
    → length v < 2 ^ 32
    → All (λ w. w < 2 ^ 32) v
    → read_body id now (to_le 4 (length v) ++ (write_vector v ++ (flag d ++ rest)))
      ≡ some (record { node_id = id; vector = v; timestamp = now; is_deleted = d }, rest)
unfolding read_body
read_body-lem id now v d rest l a =
    rw
      (
        read_le-to_le 4 (length v) (write_vector v ++ (flag d ++ rest)) l,
        read_body,
        read_vector_words-write_vector v (flag d ++ rest) a,
      )
      (read_tail-flag id now v d rest)

written :
    (e : Entry) (rest : Bytes)
    → Fits e
    → write_entry e ++ rest
      ≡ to_le 4 e.node_id
        ++ (to_le 4 (length e.vector) ++ (write_vector e.vector ++ (flag e.is_deleted ++ rest)))
unfolding write_entry
written e rest f =
    let small : length e.vector % 2 ^ 32 ≡ length e.vector = omega (arith, f.count) in
    rw
      (
        append_assoc (to_le 4 e.node_id)
            (to_le 4 (length e.vector % 2 ^ 32) ++ (write_vector e.vector ++ flag e.is_deleted))
            rest,
        append_assoc (to_le 4 (length e.vector % 2 ^ 32))
            (write_vector e.vector ++ flag e.is_deleted) rest,
        append_assoc (write_vector e.vector) (flag e.is_deleted) rest,
        small,
      )
      refl

read_entry-write_entry :
    (now : ℕ) (e : Entry) (rest : Bytes)
    → Fits e
    → read_entry now (write_entry e ++ rest) ≡ some (stamped now e, rest)
unfolding read_entry
read_entry-write_entry now e rest f =
    let tail : Bytes =
      to_le 4 (length e.vector) ++ (write_vector e.vector ++ (flag e.is_deleted ++ rest)) in
    rw (written e rest f, read_le-to_le 4 e.node_id tail f.id, read_entry)
      (read_body-lem e.node_id now e.vector e.is_deleted rest f.count f.words)

-- The entries of a file with the times that the read gives them.
abbrev pub stamp_from : (ℕ → ℕ) → ℕ → List Entry → List Entry
stamp_from clock i [] = []
stamp_from clock i (e ∷ es) = stamped ((clock i + i) % 2 ^ 64) e ∷ stamp_from clock (suc i) es

-- The first entry of a node decides what a scan finds.
unfoldable pub first_live : ℕ → List Entry → Option Vector
first_live id [] = none
first_live id (e ∷ es) =
    let later = first_live id es in
    if e.node_id == id then (if e.is_deleted then none else some e.vector) else later

read_entries-write_entries :
    (clock : ℕ → ℕ) (i : ℕ) (es : List Entry) (rest : Bytes)
    → All Fits es
    → read_entries clock i (length es) (write_entries es ++ rest) ≡ done (stamp_from clock i es)
unfolding read_entries write_entries
read_entries-write_entries clock i [] rest a = refl
read_entries-write_entries clock i (e ∷ es) rest a =
    rw
      (
        append_assoc (write_entry e) (write_entries es) rest,
        read_entry-write_entry ((clock i + i) % 2 ^ 64) e (write_entries es ++ rest) a.0,
        read_entries,
        read_entries-write_entries clock (suc i) es rest a.1,
      )
      refl

scan_entries-write_entries :
    (id : ℕ) (es : List Entry) (rest : Bytes)
    → All Fits es
    → scan_entries id (length es) (write_entries es ++ rest) ≡ done (first_live id es)
unfolding scan_entries write_entries first_live
scan_entries-write_entries id [] rest a = refl
scan_entries-write_entries id (e ∷ es) rest a =
    rw
      (
        append_assoc (write_entry e) (write_entries es) rest,
        read_entry-write_entry 0 e (write_entries es ++ rest) a.0,
        scan_entries,
        scan_entries-write_entries id es rest a.1,
      )
      (branch (e.node_id == id))
  where
    branch :
        (b : Bool)
        → (if b
            then done (if e.is_deleted then none else some e.vector)
            else done (first_live id es))
          ≡ done (if b then (if e.is_deleted then none else some e.vector) else first_live id es)
    branch true = refl
    branch false = refl

read_header-write_file :
    (es : List Entry)
    → length es < 2 ^ 64
    → read_header (write_file es) ≡ done (length es, write_entries es)
unfolding read_header write_file same_bytes
read_header-write_file es l =
    let small : length es % 2 ^ 64 ≡ length es = omega (arith, l) in
    rw
      (
        small,
        read_bytes-append magic (to_le 8 (length es) ++ write_entries es),
        read_header,
        read_le-to_le 8 (length es) (write_entries es) l,
      )
      refl

abbrev pub Storable : List Entry → Type 0
Storable es = (length es < 2 ^ 64) × All Fits es

append_nil : (bs : Bytes) → bs ++ [] ≡ bs
append_nil [] = refl
append_nil (b ∷ bs) = ap (◌∷◌ b) (append_nil bs)

-- A file written from storable entries (32-bit ids, lengths and words, and a 64-bit count) reads
-- back to those entries in their order, with the times that the read gives them.
pub read_file-write_file :
    (clock : ℕ → ℕ) (es : List Entry)
    → Storable es
    → read_file clock (write_file es) ≡ done (stamp_from clock 0 es)
unfolding read_file
read_file-write_file clock es (l, a) =
    rw (read_header-write_file es l, read_file, ← append_nil (write_entries es))
      (read_entries-write_entries clock 0 es [] a)

-- A scan for a node in a file written from storable entries finds what the first entry of the node
-- says.
pub scan_file-write_file :
    (id : ℕ) (es : List Entry)
    → Storable es
    → scan_file id (write_file es) ≡ done (first_live id es)
unfolding scan_file
scan_file-write_file id es (l, a) =
    rw (read_header-write_file es l, scan_file, ← append_nil (write_entries es))
      (scan_entries-write_entries id es [] a)
