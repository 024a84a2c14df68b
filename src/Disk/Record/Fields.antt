-- ===== src/Disk/Record/Fields.antt =====
-- The bytes of a record in the order in which they are written, and their lengths.
use agent_mem_io.Prelude.{
  ℕ, zero, suc, ◌+◌, ◌*◌, ◌^◌, ◌≤◌, ◌<◌, min, ◌≡◌, ◌≢◌, refl, ap, none, some, List, [], ◌∷◌, ◌++◌,
  All, length, get_elem?, take, replicate, length-append, length-replicate, arith,
}
use agent_mem_io.Prelude.Bytes.{Bytes, to_le, length-to_le}
use mathlib.Core.List.{append_assoc}
use agent_mem_io.Lsm.Entry.{Vector}
use agent_mem_io.Lsm.SsTable.{write_vector}
use agent_mem_io.Disk.Record.{
  default_disk_max_degree, default_dimension, default_pq_m, DiskNodeRecord, code_bytes,
  neighbor_codes, fields,
}

-- The code of a node: that of the table, or zeros.
abbrev pub code_of : List Bytes → ℕ → Bytes
code_of pq_codes id = elim (get_elem? pq_codes id) [ none ↦ replicate default_pq_m 0 | some c ↦ c ]

abbrev pub codes_of : List Bytes → List ℕ → Bytes
codes_of pq_codes [] = []
codes_of pq_codes (id ∷ ids) = code_of pq_codes id ++ codes_of pq_codes ids

-- What the index holds of a node.
abbrev pub node_record : ℕ → Vector → List ℕ → List Bytes → ℕ → DiskNodeRecord
node_record max_degree v neighbors pq_codes id =
    let ids = take (min (length neighbors) max_degree) neighbors in
    record {
      node_id = id;
      vector_data = v;
      num_neighbors = length ids;
      neighbor_ids = ids;
      neighbor_pq_codes = codes_of pq_codes ids;
    }

-- The data of a node that a record has room for.
pub record IsPackable (max_degree : ℕ) (v : Vector) (neighbors : List ℕ) (pq_codes : List Bytes)
    (id : ℕ) : Type 0 where
  pub degree : max_degree ≤ default_disk_max_degree
  pub dimension : length v ≡ default_dimension
  pub words : All (λ w. w < 2 ^ 32) v
  pub id_word : id < 2 ^ 32
  pub neighbor_words : All (λ w. w < 2 ^ 32) neighbors
  pub codes : All (λ c. length c ≡ default_pq_m) pq_codes

length-write_vector : (v : Vector) → length (write_vector v) ≡ 4 * length v
unfolding write_vector
length-write_vector [] = refl
length-write_vector (w ∷ ws) =
    rw (length-append (to_le 4 w) (write_vector ws), length-to_le 4 w, length-write_vector ws)
      (omega arith)

pub take_all : {A : Type 0} (n : ℕ) (xs : List A) → length xs ≡ n → take n xs ≡ xs
take_all zero [] e = refl
take_all zero (x ∷ xs) e = absurd (suc_zero e)
  where
    suc_zero : {n : ℕ} → suc n ≢ 0
    suc_zero e = omega arith
take_all (suc n) [] e = refl
take_all (suc n) (x ∷ xs) e = ap (◌∷◌ x) (take_all n xs (omega arith))

pub All-take : {A : Type 0} (P : A → Type 0) (n : ℕ) (xs : List A) → All P xs → All P (take n xs)
All-take P zero xs a = tt
All-take P (suc n) [] a = tt
All-take P (suc n) (x ∷ xs) a = (a.0, All-take P n xs a.1)

code_bytes_lem :
    (pq_codes : List Bytes) (id : ℕ)
    → All (λ c. length c ≡ default_pq_m) pq_codes
    → (code_bytes pq_codes id ≡ some (code_of pq_codes id))
      × (length (code_of pq_codes id) ≡ default_pq_m)
unfolding code_bytes
code_bytes_lem [] id a = (refl, refl)
code_bytes_lem (c ∷ cs) zero a = (ground (arith, a.0, take_all default_pq_m c a.0), a.0)
code_bytes_lem (c ∷ cs) (suc id) a = code_bytes_lem cs id a.1

pub neighbor_codes_lem :
    (pq_codes : List Bytes) (ids : List ℕ)
    → All (λ c. length c ≡ default_pq_m) pq_codes
    → (neighbor_codes pq_codes ids ≡ some (codes_of pq_codes ids))
      × (length (codes_of pq_codes ids) ≡ length ids * default_pq_m)
unfolding neighbor_codes
neighbor_codes_lem pq_codes [] a = (refl, refl)
neighbor_codes_lem pq_codes (id ∷ ids) a =
    let (e, l) = code_bytes_lem pq_codes id a in
    let (es, ls) = neighbor_codes_lem pq_codes ids a in
    (
      rw (e, neighbor_codes, es) refl,
      omega (arith, length-append (code_of pq_codes id) (codes_of pq_codes ids), l, ls),
    )

-- The fields of a record in the nesting in which they are read.
pub fields-append :
    (id : ℕ) (v : Vector) (ids : List ℕ) (codes rest : Bytes)
    → fields id v ids codes ++ rest
      ≡ to_le 4 id
        ++ (replicate 28 0
            ++ (write_vector v ++ (to_le 8 (length ids) ++ (write_vector ids ++ (codes ++ rest)))))
unfolding fields
fields-append id v ids codes rest =
    rw
      (
        append_assoc (to_le 4 id)
            (replicate 28 0
              ++ (write_vector v ++ (to_le 8 (length ids) ++ (write_vector ids ++ codes))))
            rest,
        append_assoc (replicate 28 0)
            (write_vector v ++ (to_le 8 (length ids) ++ (write_vector ids ++ codes))) rest,
        append_assoc (write_vector v) (to_le 8 (length ids) ++ (write_vector ids ++ codes)) rest,
        append_assoc (to_le 8 (length ids)) (write_vector ids ++ codes) rest,
        append_assoc (write_vector ids) codes rest,
      )
      refl

pub length-fields :
    (id : ℕ) (v : Vector) (ids : List ℕ) (codes : Bytes)
    → length (fields id v ids codes) ≡ 40 + 4 * length v + 4 * length ids + length codes
unfolding fields
length-fields id v ids codes =
    rw
      (
        length-append (to_le 4 id) (
            replicate 28 0
            ++ (write_vector v ++ (to_le 8 (length ids) ++ (write_vector ids ++ codes)))),
        length-append (replicate 28 0)
            (write_vector v ++ (to_le 8 (length ids) ++ (write_vector ids ++ codes))),
        length-append (write_vector v) (to_le 8 (length ids) ++ (write_vector ids ++ codes)),
        length-append (to_le 8 (length ids)) (write_vector ids ++ codes),
        length-append (write_vector ids) codes,
        length-to_le 4 id,
        length-to_le 8 (length ids),
        length-write_vector v,
        length-write_vector ids,
      )
      (omega (arith, length-replicate {A = ℕ} 28 0))
