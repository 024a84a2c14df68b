-- ===== src/Disk/Record.antt =====
-- The records of the disk index: `DiskIndexWriter::pack_record`, `DiskIndexReader::parse_record` and
-- `DiskNodeRecord` of src/io/disk_layout.cpp and src/io/disk_layout.h.
--
-- A record takes 4096 bytes: the node id in 4 bytes, zeros up to byte 32, the words of the vector,
-- the number of neighbours in 8 bytes, their ids in 4 bytes each, their codes in 8 bytes each, and
-- zeros. `none` stands for an access out of bounds, whose behaviour C++ does not define.
pub mod Fields
pub mod Parse
use agent_mem_io.Prelude.{
  ℕ, ◌+◌, ◌-◌, ◌*◌, min, Option, none, some, List, [], ◌∷◌, ◌++◌, length, get_elem?, take, drop,
  replicate, ltb, leb, if◌then◌else◌,
}
use agent_mem_io.Prelude.Bytes.{Bytes, to_le, read_bytes, read_le}
use agent_mem_io.Lsm.Entry.{Vector}
use agent_mem_io.Lsm.SsTable.{write_vector, read_vector_words}

abbrev pub disk_record_size : ℕ
disk_record_size = 4096

abbrev pub disk_record_header_size : ℕ
disk_record_header_size = 32

abbrev pub default_disk_max_degree : ℕ
default_disk_max_degree = 32

abbrev pub default_dimension : ℕ
default_dimension = 128

abbrev pub default_pq_m : ℕ
default_pq_m = 8

-- The arrays of the struct hold what was read; their slots past `num_neighbors` are unset.
pub record DiskNodeRecord : Type 0 where
  pub node_id : ℕ
  pub vector_data : Vector
  pub num_neighbors : ℕ
  pub neighbor_ids : List ℕ
  pub neighbor_pq_codes : Bytes

unfoldable pub used_bytes : DiskNodeRecord → ℕ
used_bytes r =
    disk_record_header_size
    + default_dimension * 4
    + 8
    + r.num_neighbors * 4
    + r.num_neighbors * default_pq_m

unfoldable pub get_neighbor_pq_code : ℕ → DiskNodeRecord → Option Bytes
get_neighbor_pq_code j r =
    elim (read_bytes default_pq_m (drop (j * default_pq_m) r.neighbor_pq_codes)) [
      | none ↦ none
      | some (code, rest) ↦ some code
    ]

-- The code bytes of one neighbour: those of the table, or zeros for an id past its end. A code of
-- fewer than 8 bytes is read past its end.
unfoldable pub code_bytes : List Bytes → ℕ → Option Bytes
code_bytes pq_codes id = elim (get_elem? pq_codes id) [
  | none ↦ some (replicate default_pq_m 0)
  | some c ↦ if leb default_pq_m (length c) then some (take default_pq_m c) else none
]

-- The second loop of `pack_record`.
unfoldable pub neighbor_codes : List Bytes → List ℕ → Option Bytes
neighbor_codes pq_codes [] = some []
neighbor_codes pq_codes (id ∷ ids) = elim (code_bytes pq_codes id) [
  | none ↦ none
  | some c ↦ elim (neighbor_codes pq_codes ids) [ none ↦ none | some cs ↦ some (c ++ cs) ]
]

-- The bytes that `pack_record` writes, from the start of the buffer on.
unfoldable pub fields : ℕ → Vector → List ℕ → Bytes → Bytes
fields id v ids codes =
    to_le 4 id
    ++ (replicate 28 0 ++ (write_vector v ++ (to_le 8 (length ids) ++ (write_vector ids ++ codes))))

-- The buffer is zeroed first, so that what is not written is zero.
unfoldable pub fill_buffer : Bytes → Option Bytes
fill_buffer bs =
    if leb (length bs) disk_record_size
    then some (bs ++ replicate (disk_record_size - length bs) 0)
    else none

unfoldable pub pack_record : ℕ → Vector → List ℕ → List Bytes → ℕ → Option Bytes
pack_record max_degree v neighbors pq_codes id =
    let ids = take (min (length neighbors) max_degree) neighbors in
    elim (neighbor_codes pq_codes ids) [
      | none ↦ none
      | some codes ↦ fill_buffer (fields id v ids codes)
    ]

-- The neighbours' loops of `parse_record`, for a count that is already clamped: the arrays of the
-- struct have 32 places.
unfoldable pub parse_neighbors : ℕ → ℕ → Vector → Bytes → Option DiskNodeRecord
parse_neighbors n id v bs =
    if ltb default_disk_max_degree n then none else elim (read_vector_words n bs) [
      | none ↦ none
      | some (ids, rest) ↦ elim (read_bytes (n * default_pq_m) rest) [
        | none ↦ none
        | some (codes, rest') ↦ some (record {
          node_id = id;
          vector_data = v;
          num_neighbors = n;
          neighbor_ids = ids;
          neighbor_pq_codes = codes;
        })
      ]
    ]

unfoldable pub parse_rest : ℕ → ℕ → Bytes → Option DiskNodeRecord
parse_rest max_degree id bs = elim (read_vector_words default_dimension bs) [
  | none ↦ none
  | some (v, rest) ↦ elim (read_le 8 rest) [
    | none ↦ none
    | some (n, rest') ↦ parse_neighbors (min n max_degree) id v rest'
  ]
]

unfoldable pub parse_record : ℕ → Bytes → Option DiskNodeRecord
parse_record max_degree buffer = elim (read_le 4 buffer) [
  | none ↦ none
  | some (id, rest) ↦ parse_rest max_degree id (drop disk_record_header_size buffer)
]
