-- ===== src/Lsm/Wal/Recover.antt =====
-- What a recovery gives back of a log, also after a write that was cut short.
use agent_mem_io.Prelude.{
  ℕ, zero, suc, ◌-◌, ◌%◌, ◌^◌, ◌<◌, ◌≤◌, ◌≡◌, refl, ◌∙◌, ap, subst, Bool, true, false, not,
  if◌then◌else◌, none, some, List, [], ◌∷◌, ◌++◌, All, map, length, length-append, length-replicate,
  replicate, arith,
}
use mathlib.Core.List.{append_assoc}
use agent_mem_io.Prelude.Bytes.{Bytes, to_le, length-to_le, read_bytes, read_bytes-append}
use agent_mem_io.Lsm.Entry.{ErrorCode, success, io_error, Vector, Entry}
use agent_mem_io.Lsm.SsTable.{write_vector}
use agent_mem_io.Lsm.Wal.{
  record_size, pad, header, insert_record, delete_record, live_entry, decode_record,
  recover_records, Recovery, recover_file, recover, Wal, log_insert, log_delete,
}
use agent_mem_io.Lsm.Wal.Record.{
  length-write_vector, decode_record-insert_record, decode_record-delete_record, record_short,
}

-- A logged operation with its time.
pub data Op : Type 0 where
  inserted : ℕ → ℕ → Vector → Op
  deleted : ℕ → ℕ → Op

abbrev pub record_of : Op → Bytes
record_of (inserted now id v) = insert_record now id v
record_of (deleted now id) = delete_record now id

abbrev pub entry_of : Op → Entry
entry_of (inserted now id v) = live_entry id v now
entry_of (deleted now id) = record { node_id = id; vector = []; timestamp = now; is_deleted = true }

-- The operation fits its record.
abbrev pub Loggable : Op → Type 0
Loggable (inserted now id v) =
    (now < 2 ^ 64) × (id < 2 ^ 32) × (length v ≤ 1019) × All (λ w. w < 2 ^ 32) v
Loggable (deleted now id) = (now < 2 ^ 64) × (id < 2 ^ 32)

abbrev pub records : List Op → Bytes
records [] = []
records (o ∷ os) = record_of o ++ records os

length-pad : (bs : Bytes) → length bs ≤ 4096 → length (pad bs) ≡ 4096
unfolding pad
length-pad bs h = omega (
  arith,
  length-append bs (replicate (4096 - length bs) 0),
  length-replicate {A = ℕ} (4096 - length bs) 0,
)

length-header : (id n : ℕ) → length (header id n) ≡ 12
length-header id n = omega (
  arith,
  length-append (to_le 4 1) (to_le 4 id ++ to_le 4 (n % 2 ^ 32)),
  length-append (to_le 4 id) (to_le 4 (n % 2 ^ 32)),
  length-to_le 4 1,
  length-to_le 4 id,
  length-to_le 4 (n % 2 ^ 32),
)

length-record_of : (o : Op) → Loggable o → length (record_of o) ≡ 4096
length-record_of (inserted now id v) (t, n, l, a) = rw (record_short now id v t n l) (
    length-pad _ (
      omega (
        arith,
        length-append (header id (length v)) (write_vector v ++ to_le 8 now),
        length-append (write_vector v) (to_le 8 now),
        length-header id (length v),
        length-write_vector v,
        length-to_le 8 now,
      )))
length-record_of (deleted now id) (t, n) =
    unfold delete_record in
    length-pad (to_le 4 2 ++ (to_le 4 id ++ to_le 8 now)) (
      omega (
        arith,
        length-append (to_le 4 2) (to_le 4 id ++ to_le 8 now),
        length-append (to_le 4 id) (to_le 8 now),
        length-to_le 4 2,
        length-to_le 4 id,
        length-to_le 8 now,
      ))

decode_record-record_of : (o : Op) → Loggable o → decode_record (record_of o) ≡ some (entry_of o)
decode_record-record_of (inserted now id v) (t, n, l, a) =
    decode_record-insert_record now id v t n l a
decode_record-record_of (deleted now id) (t, n) = decode_record-delete_record now id [] t n

read_bytes_short : (n : ℕ) (bs : Bytes) → length bs < n → read_bytes n bs ≡ none
unfolding read_bytes
read_bytes_short zero bs h = absurd (omega arith)
read_bytes_short (suc n) [] h = refl
read_bytes_short (suc n) (b ∷ bs) h = rw (read_bytes_short n bs (omega arith), read_bytes) refl

read_record :
    (o : Op) (rest : Bytes)
    → Loggable o
    → read_bytes record_size (record_of o ++ rest) ≡ some (record_of o, rest)
read_record o rest l =
    subst (λ (n : ℕ). read_bytes n (record_of o ++ rest) ≡ some (record_of o, rest))
      (length-record_of o l) (read_bytes-append (record_of o) rest)

-- The operations before the first whose read is not whole.
unfoldable pub delivered : (ℕ → Bool) → ℕ → List Op → List Op
delivered reads i [] = []
delivered reads i (o ∷ os) =
    let later = delivered reads (suc i) os in if reads i then o ∷ later else []

recover_records-records :
    (reads : ℕ → Bool) (i fuel : ℕ) (ops : List Op) (torn : Bytes)
    → length ops ≤ fuel
    → All Loggable ops
    → length torn < 4096
    → recover_records reads i fuel (records ops ++ torn) ≡ map entry_of (delivered reads i ops)
unfolding recover_records delivered
recover_records-records reads i zero [] torn h a t = refl
recover_records-records reads i zero (o ∷ os) torn h a t = absurd (omega arith)
recover_records-records reads i (suc fuel) [] torn h a t =
    rw (read_bytes_short record_size torn t, recover_records) refl
recover_records-records reads i (suc fuel) (o ∷ os) torn h a t =
    rw
      (
        append_assoc (record_of o) (records os) torn,
        read_record o (records os ++ torn) a.0,
        recover_records,
        decode_record-record_of o a.0,
        recover_records-records reads (suc i) fuel os torn (omega arith) a.1 t,
      )
      (by_read (reads i))
  where
    by_read :
        (b : Bool)
        → (if b then entry_of o ∷ map entry_of (delivered reads (suc i) os) else [])
          ≡ map entry_of (if b then o ∷ delivered reads (suc i) os else [])
    by_read true = refl
    by_read false = refl

length-records : (ops : List Op) → All Loggable ops → length ops ≤ length (records ops)
length-records [] a = omega arith
length-records (o ∷ os) a =
    omega (
      arith,
      length-append (record_of o) (records os),
      length-record_of o a.0,
      length-records os a.1,
    )

-- What a recovery of a log of operations reports, gives and leaves: without the file or the memory
-- nothing, else the operations before the first whose read is not whole.
abbrev pub Recovers : Recovery → List Op → List Entry → Wal → Type 0
Recovers r ops es w = recover r es w ≡ (
    if not r.readable
    then (success, (es, record w { is_open = false }))
    else if not r.allocated
    then (io_error, (es, record w { is_open = false }))
    else (success, (es ++ map entry_of (delivered r.reads 0 ops), record w { is_open = r.opens })))

-- A recovery of a log of whole records and less than one more gives back all the operations.
pub recover-records :
    (r : Recovery) (es : List Entry) (w : Wal) (ops : List Op) (torn : Bytes)
    → w.file ≡ some (records ops ++ torn)
    → All Loggable ops
    → length torn < 4096
    → Recovers r ops es w
unfolding recover recover_file
recover-records r es w ops torn file a t =
    let all : recover_records r.reads 0 (length (records ops ++ torn)) (records ops ++ torn)
        ≡ map entry_of (delivered r.reads 0 ops) =
      recover_records-records r.reads 0 _ ops torn
        (omega (arith, length-append (records ops) torn, length-records ops a)) a t in
    ap (recover_file r es w) file ∙ rw all refl

-- A call of the log whose write puts `n` bytes into the file.
unfoldable pub log : ℕ → Op → Wal → ErrorCode × Wal
log n (inserted now id v) w = log_insert (some n) now id v w
log n (deleted now id) w = log_delete (some n) now id w

-- Calls whose writes are whole.
unfoldable pub log_all : List Op → Wal → Wal
log_all [] w = w
log_all (o ∷ os) w = log_all os (log record_size o w).1
