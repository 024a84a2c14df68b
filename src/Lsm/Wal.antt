-- ===== src/Lsm/Wal.antt =====
-- The write-ahead log (`WalManager` of src/compaction/wal.cpp): a file of records of 4096 bytes. A
-- record is built in a buffer of zeros; here it is its content, padded with zeros. The outcomes of
-- system calls are arguments: whether an open works, and what becomes of a write.
pub mod Record
pub mod Recover
use agent_mem_io.Prelude.{
  ℕ, zero, suc, ◌+◌, ◌*◌, ◌%◌, ◌-◌, ◌^◌, Bool, true, false, Option, none, some, List, [], ◌∷◌, ◌++◌,
  length, not, take, drop, replicate, leb, ◌==◌, if◌then◌else◌,
}
use agent_mem_io.Prelude.Bytes.{Bytes, to_le, read_bytes, read_le}
use agent_mem_io.Lsm.Entry.{ErrorCode, success, io_error, Vector, Entry, add64}
use agent_mem_io.Lsm.SsTable.{write_vector, read_vector_words}

-- `WAL_RECORD_SIZE`
abbrev pub record_size : ℕ
record_size = 4096

-- The entry types `WAL_INSERT` and `WAL_DELETE`.
abbrev pub wal_insert : ℕ
wal_insert = 1

abbrev pub wal_delete : ℕ
wal_delete = 2

unfoldable pub pad : Bytes → Bytes
pad bs = bs ++ replicate (record_size - length bs) 0

abbrev pub header : ℕ → ℕ → Bytes
header id n = to_le 4 wal_insert ++ (to_le 4 id ++ to_le 4 (n % 2 ^ 32))

-- A vector that fits is followed by the time, if that fits too. Of one that does not fit, the
-- beginning is written, and the time over its first eight bytes.
unfoldable pub insert_record : ℕ → ℕ → Vector → Bytes
insert_record now id v =
    let n = length v in
    if leb (12 + n * 4) record_size
    then (if leb (12 + n * 4 + 8) record_size
        then pad (header id n ++ (write_vector v ++ to_le 8 now))
        else pad (header id n ++ write_vector v))
    else pad (header id n ++ (to_le 8 now ++ drop 8 (take (record_size - 12) (write_vector v))))

unfoldable pub delete_record : ℕ → ℕ → Bytes
delete_record now id = pad (to_le 4 wal_delete ++ (to_le 4 id ++ to_le 8 now))

pub record Wal : Type 0 where
  pub is_open : Bool
  pub file : Option Bytes
  pub current_size : ℕ

unfoldable pub content : Wal → Bytes
content w = elim w.file [ none ↦ [] | some bs ↦ bs ]

unfoldable pub init : Bool → Wal → ErrorCode × Wal
init opens w =
    if opens
    then (success, record w { is_open = true; file = some (content w) })
    else (io_error, record w { is_open = false })

-- The buffer and the write of a record: there may be no memory for the buffer, and `n` bytes may be
-- written.
unfoldable pub append_record : Option ℕ → Bytes → Wal → ErrorCode × Wal
append_record none bs w = (io_error, w)
append_record (some n) bs w =
    let file' = some (content w ++ take n bs) in
    if n == record_size
    then (success, record w { file = file'; current_size = add64 w.current_size record_size })
    else (io_error, record w { file = file' })

unfoldable pub log_insert : Option ℕ → ℕ → ℕ → Vector → Wal → ErrorCode × Wal
log_insert outcome now id v w =
    if w.is_open then append_record outcome (insert_record now id v) w else (io_error, w)

unfoldable pub log_delete : Option ℕ → ℕ → ℕ → Wal → ErrorCode × Wal
log_delete outcome now id w =
    if w.is_open then append_record outcome (delete_record now id) w else (io_error, w)

unfoldable pub write_entry : Option ℕ → ℕ → Entry → Wal → ErrorCode × Wal
write_entry outcome now e w =
    if e.is_deleted
    then log_delete outcome now e.node_id w
    else log_insert outcome now e.node_id e.vector w

unfoldable pub sync : Bool → Wal → ErrorCode
sync synced w = if w.is_open then (if synced then success else io_error) else io_error

unfoldable pub clear : Bool → Wal → ErrorCode × Wal
clear opens w =
    if opens
    then (success, record { is_open = true; file = some []; current_size = 0 })
    else (io_error, record { is_open = false; file = none; current_size = 0 })

-- The time at the end of a record of `n` floats, if it was in the record at all.
unfoldable pub decode_time : ℕ → Bytes → ℕ
decode_time n bs =
    if leb (12 + n * 4 + 8) record_size
    then elim (read_le 8 bs) [ none ↦ 0 | some (ts, rest) ↦ ts ]
    else 0

abbrev pub live_entry : ℕ → Vector → ℕ → Entry
live_entry id v ts = record { node_id = id; vector = v; timestamp = ts; is_deleted = false }

-- A vector that is said to reach past the record is left at zeros.
unfoldable pub decode_vector : ℕ → ℕ → Bytes → Option Entry
decode_vector id n bs =
    if leb (12 + n * 4) record_size
    then elim (read_vector_words n bs) [
      | none ↦ none
      | some (v, rest) ↦ some (live_entry id v (decode_time n rest))
    ]
    else some (live_entry id (replicate n 0) 0)

unfoldable pub decode_insert : ℕ → Bytes → Option Entry
decode_insert id bs = elim (read_le 4 bs) [ none ↦ none | some (n, rest) ↦ decode_vector id n rest ]

unfoldable pub decode_delete : ℕ → Bytes → Option Entry
decode_delete id bs = elim (read_le 8 bs) [
  | none ↦ none
  | some (ts, rest) ↦ some (record { node_id = id; vector = []; timestamp = ts; is_deleted = true })
]

unfoldable pub decode_body : ℕ → ℕ → Bytes → Option Entry
decode_body kind id bs =
    if kind == wal_insert
    then decode_insert id bs
    else if kind == wal_delete
    then decode_delete id bs
    else none

unfoldable pub decode_kind : ℕ → Bytes → Option Entry
decode_kind kind bs = elim (read_le 4 bs) [
  | none ↦ none
  | some (id, rest) ↦ decode_body kind id rest
]

-- The entry of a record, none for a record of another type.
unfoldable pub decode_record : Bytes → Option Entry
decode_record bs = elim (read_le 4 bs) [ none ↦ none | some (kind, rest) ↦ decode_kind kind rest ]

abbrev pub with_entry : Option Entry → List Entry → List Entry
with_entry none es = es
with_entry (some e) es = e ∷ es

-- The loop of `recover` from the record `i` on, which stops before a record that is not whole, and
-- at a read that fails or is cut short, which `reads` tells of each record. A file has fewer records
-- than bytes, so that its length is fuel enough.
unfoldable pub recover_records : (ℕ → Bool) → ℕ → ℕ → Bytes → List Entry
recover_records reads i zero bs = []
recover_records reads i (suc fuel) bs = elim (read_bytes record_size bs) [
  | none ↦ []
  | some (r, rest) ↦
      let later = recover_records reads (suc i) fuel rest in
      if reads i then with_entry (decode_record r) later else []
]

-- What `recover` meets: whether the log opens for reading, whether there is memory for the buffer,
-- which of the reads deliver a whole record, and whether the log opens for writing again.
pub record Recovery : Type 0 where
  pub readable : Bool
  pub allocated : Bool
  pub reads : ℕ → Bool
  pub opens : Bool

-- The entries of the log, behind those that the caller has. A log that is not there or does not open
-- is no error, and is not opened again; nor is an error reported when it does not open for writing.
unfoldable pub recover_file :
    Recovery → List Entry → Wal → Option Bytes → ErrorCode × (List Entry × Wal)
recover_file r es w none = (success, (es, record w { is_open = false }))
recover_file r es w (some bs) =
    if not r.readable
    then (success, (es, record w { is_open = false }))
    else if not r.allocated
    then (io_error, (es, record w { is_open = false }))
    else (success, (es ++ recover_records r.reads 0 (length bs) bs, record w { is_open = r.opens }))

unfoldable pub recover : Recovery → List Entry → Wal → ErrorCode × (List Entry × Wal)
recover r es w = recover_file r es w w.file
