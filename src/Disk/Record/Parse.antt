-- ===== src/Disk/Record/Parse.antt =====
-- What a packed record parses to.
use agent_mem_io.Prelude.{
  ℕ, zero, suc, ◌-◌, ◌*◌, ◌^◌, ◌≤◌, ◌<◌, min, ◌≡◌, refl, sym, false, Option, none, some, List, ◌++◌,
  All, length, take, drop, replicate, length-take, length-append, length-replicate, arith, ltb, inl,
  inr, Option-cases,
}
use agent_mem_io.Prelude.Bytes.{Bytes, to_le, read_bytes, read_le, read_le-to_le, read_bytes-append}
use mathlib.Core.List.{append_assoc}
use agent_mem_io.Lsm.Entry.{Vector}
use agent_mem_io.Lsm.SsTable.{write_vector, read_vector_words}
use agent_mem_io.Lsm.SsTable.Codec.{read_vector_words-write_vector}
use agent_mem_io.Disk.Record.{
  disk_record_size, disk_record_header_size, default_disk_max_degree, default_dimension,
  default_pq_m, DiskNodeRecord, fields, fill_buffer, pack_record, parse_neighbors, parse_rest,
  parse_record,
}
use agent_mem_io.Disk.Record.Fields.{
  codes_of, node_record, IsPackable, All-take, neighbor_codes_lem, fields-append, length-fields,
}

parse_neighbors_lem :
    (n id : ℕ) (v : Vector) (ids : List ℕ) (codes rest : Bytes)
    → length ids ≡ n
    → length codes ≡ n * default_pq_m
    → n ≤ default_disk_max_degree
    → All (λ w. w < 2 ^ 32) ids
    → parse_neighbors n id v (write_vector ids ++ (codes ++ rest))
      ≡ some (record {
        node_id = id;
        vector_data = v;
        num_neighbors = n;
        neighbor_ids = ids;
        neighbor_pq_codes = codes;
      })
unfolding parse_neighbors
parse_neighbors_lem n id v ids codes rest l lc small a =
    let within : ltb default_disk_max_degree n ≡ false = ground (arith, small) in
    let words : read_vector_words n (write_vector ids ++ (codes ++ rest))
        ≡ some (ids, codes ++ rest) =
      rw (sym l) (read_vector_words-write_vector ids (codes ++ rest) a) in
    let bytes : read_bytes (n * default_pq_m) (codes ++ rest) ≡ some (codes, rest) =
      rw (sym lc) (read_bytes-append codes rest) in
    rw (within, parse_neighbors, words, parse_neighbors, bytes) refl

-- Data whose fields can be read back, neighbours and codes included.
record IsReadable (max_degree : ℕ) (v : Vector) (ids : List ℕ) (codes : Bytes) : Type 0 where
  dimension : length v ≡ default_dimension
  words : All (λ w. w < 2 ^ 32) v
  few : length ids ≤ max_degree
  degree : max_degree ≤ default_disk_max_degree
  id_words : All (λ w. w < 2 ^ 32) ids
  codes_length : length codes ≡ length ids * default_pq_m

module _ (max_degree id : ℕ) (v : Vector) (ids : List ℕ) (codes rest : Bytes)
    (r : IsReadable max_degree v ids codes) where
  abbrev parsed : DiskNodeRecord
  parsed = record {
    node_id = id;
    vector_data = v;
    num_neighbors = length ids;
    neighbor_ids = ids;
    neighbor_pq_codes = codes;
  }

  vector_read :
      (bs : Bytes) → read_vector_words default_dimension (write_vector v ++ bs) ≡ some (v, bs)
  vector_read bs = rw (sym r.dimension) (read_vector_words-write_vector v bs r.words)

  parse_rest_lem :
      parse_rest max_degree id
        (write_vector v ++ (to_le 8 (length ids) ++ (write_vector ids ++ (codes ++ rest))))
      ≡ some parsed
  unfolding parse_rest
  parse_rest_lem =
      let clamped : min (length ids) max_degree ≡ length ids = omega (arith, r.few) in
      rw
        (
          vector_read (to_le 8 (length ids) ++ (write_vector ids ++ (codes ++ rest))),
          parse_rest,
          read_le-to_le 8 (length ids) (write_vector ids ++ (codes ++ rest))
              (omega (arith, r.few, r.degree)),
          parse_rest,
          clamped,
        )
        (parse_neighbors_lem (length ids) id v ids codes rest refl r.codes_length
          (omega (arith, r.few, r.degree)) r.id_words)

  past_header :
      (bs : Bytes) → drop disk_record_header_size (to_le 4 id ++ (replicate 28 0 ++ bs)) ≡ bs
  unfolding to_le
  past_header bs = refl

  -- The reads of the fields of a record of the right dimension.
  parse_record-fields :
      id < 2 ^ 32 → parse_record max_degree (fields id v ids codes ++ rest) ≡ some parsed
  unfolding parse_record
  parse_record-fields idw =
      let body : Bytes =
        write_vector v ++ (to_le 8 (length ids) ++ (write_vector ids ++ (codes ++ rest))) in
      rw
        (
          fields-append id v ids codes rest,
          read_le-to_le 4 id (replicate 28 0 ++ body) idw,
          parse_record,
          fields-append id v ids codes rest,
          past_header body,
        )
        parse_rest_lem

fill_buffer_lem :
    (bs : Bytes)
    → length bs ≤ disk_record_size
    → (fill_buffer bs ≡ some (bs ++ replicate (disk_record_size - length bs) 0))
      × (length (bs ++ replicate (disk_record_size - length bs) 0) ≡ disk_record_size)
unfolding fill_buffer
fill_buffer_lem bs h = (
  ground (arith, h),
  omega (
    arith,
    length-append bs (replicate (disk_record_size - length bs) 0),
    length-replicate {A = ℕ} (disk_record_size - length bs) 0,
    h,
  ),
)

-- A node that a record has room for (a degree bound of at most 32, 128 words, codes of 8 bytes,
-- 32-bit ids) is packed into exactly 4096 bytes, which parse, whatever follows them, to its id,
-- its vector, its first neighbours up to the degree bound, and the code of each of them, zeros for
-- one without a code.
pub parse_record-pack_record :
    (max_degree : ℕ) (v : Vector) (neighbors : List ℕ) (pq_codes : List Bytes) (id : ℕ)
    → IsPackable max_degree v neighbors pq_codes id
    → (b : Bytes) × (pack_record max_degree v neighbors pq_codes id ≡ some b)
      × (length b ≡ disk_record_size)
      × ((rest : Bytes)
          → parse_record max_degree (b ++ rest)
            ≡ some (node_record max_degree v neighbors pq_codes id))
unfolding pack_record
parse_record-pack_record max_degree v neighbors pq_codes id p =
    let ids : List ℕ = take (min (length neighbors) max_degree) neighbors in
    let few : length ids ≤ max_degree =
      omega (arith, length-take (min (length neighbors) max_degree) neighbors) in
    let (e, lc) = neighbor_codes_lem pq_codes ids p.codes in
    let bs : Bytes = fields id v ids (codes_of pq_codes ids) in
    let (f, l) = fill_buffer_lem bs (
      omega
        (arith, length-fields id v ids (codes_of pq_codes ids), p.dimension, few, p.degree, lc)) in
    (
      bs ++ replicate (disk_record_size - length bs) 0,
      rw (e, pack_record) f,
      l,
      λ rest.
          let pad : Bytes = replicate (disk_record_size - length bs) 0 in
          rw (append_assoc bs pad rest) (
            parse_record-fields max_degree id v ids (codes_of pq_codes ids) (pad ++ rest)
              (record {
                dimension = p.dimension;
                words = p.words;
                few = few;
                degree = p.degree;
                id_words = All-take _ _ neighbors p.neighbor_words;
                codes_length = lc;
              })
              p.id_word),
    )

pub length-read_vector_words :
    (n : ℕ) (bs : Bytes) (v : Vector) (rest : Bytes)
    → read_vector_words n bs ≡ some (v, rest)
    → length v ≡ n
unfolding read_vector_words
length-read_vector_words zero bs v rest e = ground arith
length-read_vector_words (suc n) bs v rest e = elim (Option-cases (read_le 4 bs)) [
  | inl h ↦ ground (arith, h)
  | inr (t, h) ↦ elim (Option-cases (read_vector_words n t.1)) [
    | inl g ↦ ground (arith, h, g)
    | inr (u, g) ↦ ground (arith, h, g, length-read_vector_words n t.1 u.0 u.1 g)
  ]
]

vector_read_first : Option (Vector × Bytes) → Option Vector
vector_read_first o = elim o [ none ↦ none | some (v, rest) ↦ some v ]

first_some :
    (o : Option (Vector × Bytes)) (v : Vector)
    → vector_read_first o ≡ some v
    → (rest : Bytes) × (o ≡ some (v, rest))
unfolding vector_read_first
first_some none v e = absurd (cc)
first_some (some (w, rest)) v e = (rest, cc)

-- The vector of a parsed record is at its offset in the buffer.
pub parse_record-words :
    (max_degree : ℕ) (b : Bytes) (d : DiskNodeRecord)
    → parse_record max_degree b ≡ some d
    → (rest : Bytes) × (read_vector_words default_dimension (drop disk_record_header_size b)
        ≡ some (d.vector_data, rest))
unfolding parse_record parse_rest parse_neighbors vector_read_first
parse_record-words max_degree b d e =
    first_some (read_vector_words default_dimension (drop disk_record_header_size b)) d.vector_data
      (ground arith)
