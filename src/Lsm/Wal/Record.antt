-- ===== src/Lsm/Wal/Record.antt =====
-- What a record of the log is decoded to.
use agent_mem_io.Prelude.{
  ℕ, ◌+◌, ◌*◌, ◌-◌, ◌%◌, ◌^◌, ◌<◌, ◌≤◌, ◌≡◌, refl, ap, true, some, [], ◌∷◌, ◌++◌, All, length,
  length-append, replicate, leb, arith, take, drop,
}
use mathlib.Core.List.{append_assoc}
use agent_mem_io.Prelude.Bytes.{Bytes, to_le, length-to_le, read_le-to_le}
use agent_mem_io.Lsm.Entry.{Vector}
use agent_mem_io.Lsm.SsTable.{write_vector}
use agent_mem_io.Lsm.SsTable.Codec.{read_vector_words-write_vector}
use agent_mem_io.Lsm.Wal.{
  pad, header, insert_record, delete_record, decode_time, live_entry, decode_vector, decode_insert,
  decode_delete, decode_body, decode_kind, decode_record,
}

pub length-write_vector : (v : Vector) → length (write_vector v) ≡ length v * 4
unfolding write_vector
length-write_vector [] = refl
length-write_vector (w ∷ ws) =
    omega
      (arith, length-append (to_le 4 w) (write_vector ws), length-to_le 4 w, length-write_vector ws)

-- The first fields of a record of an insert: what is left is its vector.
decode_header :
    (id n : ℕ) (rest : Bytes)
    → id < 2 ^ 32
    → n < 2 ^ 32
    → decode_record (header id n ++ rest) ≡ decode_vector id n rest
unfolding decode_record decode_kind decode_body decode_insert
decode_header id n rest a b =
    let small : n % 2 ^ 32 ≡ n = omega arith in
    rw
      (
        small,
        append_assoc (to_le 4 1) (to_le 4 id ++ to_le 4 n) rest,
        append_assoc (to_le 4 id) (to_le 4 n) rest,
        read_le-to_le 4 1 (to_le 4 id ++ (to_le 4 n ++ rest)) (omega arith),
        decode_record,
        read_le-to_le 4 id (to_le 4 n ++ rest) a,
        decode_kind,
        read_le-to_le 4 n rest b,
        decode_insert,
      )
      refl

decode_vector-fits :
    (id : ℕ) (v : Vector) (rest : Bytes)
    → 12 + length v * 4 ≤ 4096
    → All (λ w. w < 2 ^ 32) v
    → decode_vector id (length v) (write_vector v ++ rest)
      ≡ some (live_entry id v (decode_time (length v) rest))
unfolding decode_vector
decode_vector-fits id v rest h a =
    let test : leb (12 + length v * 4) 4096 ≡ true = ground arith in
    rw (test, decode_vector, read_vector_words-write_vector v rest a) refl

decode_time-fits :
    (n ts : ℕ) (rest : Bytes)
    → 12 + n * 4 + 8 ≤ 4096
    → ts < 2 ^ 64
    → decode_time n (to_le 8 ts ++ rest) ≡ ts
unfolding decode_time
decode_time-fits n ts rest h a =
    let test : leb (12 + n * 4 + 8) 4096 ≡ true = ground arith in
    rw (test, decode_time, read_le-to_le 8 ts rest a) refl

module _ (now id : ℕ) (v : Vector) (time : now < 2 ^ 64) (node : id < 2 ^ 32) where
  pub record_short :
      length v ≤ 1019
      → insert_record now id v ≡ pad (header id (length v) ++ (write_vector v ++ to_le 8 now))
  unfolding insert_record
  record_short h = ground arith

  record_middle :
      1019 < length v
      → length v ≤ 1021
      → insert_record now id v ≡ pad (header id (length v) ++ write_vector v)
  unfolding insert_record
  record_middle h l = ground arith

  record_long :
      1021 < length v
      → insert_record now id v
        ≡ pad (header id (length v) ++ (to_le 8 now ++ drop 8 (take 4084 (write_vector v))))
  unfolding insert_record
  record_long h = ground arith

  -- The record of an insert of at most 1019 floats, with a 32-bit id and words and a 64-bit time,
  -- decodes to a live entry of the node with the vector and the time.
  pub decode_record-insert_record :
      length v ≤ 1019
      → All (λ w. w < 2 ^ 32) v
      → decode_record (insert_record now id v) ≡ some (live_entry id v now)
  unfolding pad
  decode_record-insert_record h a =
      let fill : Bytes =
        replicate (4096 - length (header id (length v) ++ (write_vector v ++ to_le 8 now))) 0 in
      rw
        (
          record_short h,
          append_assoc (header id (length v)) (write_vector v ++ to_le 8 now) fill,
          append_assoc (write_vector v) (to_le 8 now) fill,
          decode_header id (length v) (write_vector v ++ (to_le 8 now ++ fill)) node (omega arith),
          decode_vector-fits id v (to_le 8 now ++ fill) (omega arith) a,
          decode_time-fits (length v) now fill (omega arith) time,
        )
        refl

  -- With 1020 or 1021 floats the time is lost.
  decode_record_middle :
      1019 < length v
      → length v ≤ 1021
      → All (λ w. w < 2 ^ 32) v
      → decode_record (insert_record now id v) ≡ some (live_entry id v 0)
  unfolding pad
  decode_record_middle h l a =
      let fill : Bytes = replicate (4096 - length (header id (length v) ++ write_vector v)) 0 in
      rw
        (
          record_middle h l,
          append_assoc (header id (length v)) (write_vector v) fill,
          decode_header id (length v) (write_vector v ++ fill) node (omega arith),
          decode_vector-fits id v fill (omega arith) a,
        )
        (ap (λ (t : ℕ). some (live_entry id v t)) (no_time fill))
    where
      no_time : (bs : Bytes) → decode_time (length v) bs ≡ 0
      no_time bs = unfold decode_time in ground arith

  -- The record of an insert of 1022 floats or more (fewer than 2^32), with a 32-bit id and a
  -- 64-bit time, decodes to a vector of as many zeros with the time 0.
  pub decode_record_long :
      1021 < length v
      → length v < 2 ^ 32
      → decode_record (insert_record now id v) ≡ some (live_entry id (replicate (length v) 0) 0)
  unfolding pad
  decode_record_long h l =
      let body : Bytes = to_le 8 now ++ drop 8 (take 4084 (write_vector v)) in
      let fill : Bytes = replicate (4096 - length (header id (length v) ++ body)) 0 in
      rw
        (
          record_long h,
          append_assoc (header id (length v)) body fill,
          decode_header id (length v) (body ++ fill) node l,
        )
        (zeros (body ++ fill))
    where
      zeros :
          (bs : Bytes)
          → decode_vector id (length v) bs ≡ some (live_entry id (replicate (length v) 0) 0)
      zeros bs = unfold decode_vector in ground arith

  -- A record of a delete decodes to a tombstone.
  pub decode_record-delete_record :
      decode_record (delete_record now id)
      ≡ some (record { node_id = id; vector = []; timestamp = now; is_deleted = true })
  unfolding delete_record pad decode_record decode_kind decode_body decode_delete
  decode_record-delete_record =
      let fill : Bytes = replicate (4096 - length (to_le 4 2 ++ (to_le 4 id ++ to_le 8 now))) 0 in
      rw
        (
          append_assoc (to_le 4 2) (to_le 4 id ++ to_le 8 now) fill,
          append_assoc (to_le 4 id) (to_le 8 now) fill,
          read_le-to_le 4 2 (to_le 4 id ++ (to_le 8 now ++ fill)) (omega arith),
          decode_record,
          read_le-to_le 4 id (to_le 8 now ++ fill) node,
          decode_kind,
          read_le-to_le 8 now fill time,
          decode_delete,
        )
        refl
