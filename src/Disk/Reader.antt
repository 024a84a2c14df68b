-- ===== src/Disk/Reader.antt =====
-- `DiskIndexReader` of src/io/disk_layout.cpp: the reads of records, through the buffer pool where
-- there is one. The child modules hold the batches, the pinned reads, and what a reader gives back.
--
-- `pread` is the system's: from the offset and the size it gives the bytes that it delivers, none
-- when it fails. `fresh` is what a new frame's buffer holds, `spare` what `posix_memalign` gives,
-- and `now` the time that the pool stamps on a frame.
pub mod Reads
pub mod Stored
pub mod Pinned
pub mod Batch
use agent_mem_io.Prelude.{
  ℕ, suc, ◌*◌, ◌%◌, ◌^◌, Bool, true, false, Option, none, some, List, [], ◌∷◌, ◌++◌, length, drop,
  replicate, ◌==◌, leb, if◌then◌else◌,
}
use agent_mem_io.Prelude.Bytes.{Bytes}
use agent_mem_io.Lsm.Entry.{Vector}
use agent_mem_io.Buffer.Pool.{Pool, init, get_page, get_or_load_page}
use agent_mem_io.Buffer.Pool.Methods
use agent_mem_io.Disk.Record.{disk_record_size, default_dimension, DiskNodeRecord, parse_record}

-- `is_open` tells whether `fd_` is a descriptor; the pool of buffers has its back first.
pub record Reader : Type 0 where
  pub is_open : Bool
  pub num_vectors : ℕ
  pub max_degree : ℕ
  pub buffer_pool_mgr : Option Pool
  pub io_buffer_pool : List Bytes

unfoldable pub calculate_offset : ℕ → ℕ
calculate_offset id = (id * disk_record_size) % 2 ^ 64

-- The constructor; the cache comes with `set_cache_capacity`.
unfoldable pub new_reader : ℕ → ℕ → Reader
new_reader num_vectors max_degree = record {
  is_open = false;
  num_vectors = num_vectors;
  max_degree = max_degree;
  buffer_pool_mgr = none;
  io_buffer_pool = [];
}

abbrev pub put_pool : Pool → Reader → Reader
put_pool s r = record r { buffer_pool_mgr = some s }

-- `hot_max` is the number of pages that the policy's hot queue may hold, 0.3 of the capacity.
unfoldable pub set_cache_capacity : ℕ → ℕ → Reader → Reader
set_cache_capacity max_pages hot_max r =
    if max_pages == 0
    then record r { buffer_pool_mgr = none }
    else put_pool (init max_pages disk_record_size hot_max) r

-- The copy of `vector_data` into a vector.
abbrev pub vector_of_record : Option DiskNodeRecord → Option Vector
vector_of_record found = elim found [ none ↦ none | some x ↦ some x.vector_data ]

unfoldable pub is_cached : ℕ → Reader → Bool
is_cached id r = elim r.buffer_pool_mgr [ none ↦ false | some s ↦ Methods.contains id s ]

-- `none` is a record whose fields are unset.
unfoldable pub get_cached_record : ℕ → ℕ → Reader → Option DiskNodeRecord × Reader
get_cached_record now id r = elim r.buffer_pool_mgr [
  | none ↦ (none, r)
  | some s ↦
      let t = get_page now id s in
      (elim t.0 [ none ↦ none | some b ↦ parse_record r.max_degree b ], put_pool t.1 r)
]

-- The loop of `update_in_degrees`, from node `i` on.
unfoldable pub degrees_loop : ℕ → List ℕ → Pool → Pool
degrees_loop i [] s = s
degrees_loop i (d ∷ ds) s =
    degrees_loop (suc i) ds (if d == 0 then s else Methods.update_in_degree i d s)

unfoldable pub update_in_degrees : List ℕ → Reader → Reader
update_in_degrees in_degrees r = elim r.buffer_pool_mgr [
  | none ↦ r
  | some s ↦ put_pool (degrees_loop 0 in_degrees s) r
]

module _ (spare : Option Bytes) where
  unfoldable pub borrow_buffer : Reader → Option Bytes × Reader
  borrow_buffer r = elim r.io_buffer_pool [
    | [] ↦ (spare, r)
    | b ∷ bs ↦ (some b, record r { io_buffer_pool = bs })
  ]

unfoldable pub return_buffer : Bytes → Reader → Reader
return_buffer b r = record r { io_buffer_pool = b ∷ r.io_buffer_pool }

module _ (pread : ℕ → ℕ → Bytes) where
  -- The result, and the buffer: what was delivered overwrites its start.
  unfoldable pub read_node : Reader → ℕ → Bytes → Bool × Bytes
  read_node r id buffer =
      let got = pread (calculate_offset id) disk_record_size in
      if r.is_open
      then (if leb r.num_vectors id
          then (false, buffer)
          else (length got == disk_record_size, got ++ drop (length got) buffer))
      else (false, buffer)

  -- The `load_func` of the cached reads: it ignores the result.
  abbrev pub load_func : Reader → Bytes → ℕ → Bytes
  load_func r buffer page = (read_node r (page % 2 ^ 32) buffer).1

  -- The fallback of `read_record` once it has tried to borrow a buffer.
  unfoldable pub record_through :
      ℕ → Reader → Option Bytes × Reader → Option DiskNodeRecord × Reader
  record_through id r (none, r') = (none, r')
  record_through id r (some buffer, r') =
      let t = read_node r id buffer in
      (if t.0 then parse_record r.max_degree t.1 else none, return_buffer t.1 r')

  -- The fallback of `read_vector`: a failed read gives a vector of zeros.
  unfoldable pub vector_through : ℕ → Reader → Option Bytes × Reader → Option Vector × Reader
  vector_through id r (none, r') = (some [], r')
  vector_through id r (some buffer, r') =
      let t = read_node r id buffer in
      (
        if t.0
            then vector_of_record (parse_record r.max_degree t.1)
            else some (replicate default_dimension 0),
        return_buffer t.1 r',
      )

  module _ (spare : Option Bytes) where
    unfoldable pub read_record_direct : ℕ → Reader → Option DiskNodeRecord × Reader
    read_record_direct id r = record_through id r (borrow_buffer spare r)

    unfoldable pub read_vector_direct : ℕ → Reader → Option Vector × Reader
    read_vector_direct id r = vector_through id r (borrow_buffer spare r)

    -- The reads once the pool has handed out a page or nothing.
    unfoldable pub record_found : ℕ → Option Bytes → Reader → Option DiskNodeRecord × Reader
    record_found id none r = read_record_direct id r
    record_found id (some b) r = (parse_record r.max_degree b, r)

    unfoldable pub vector_found : ℕ → Option Bytes → Reader → Option Vector × Reader
    vector_found id none r = read_vector_direct id r
    vector_found id (some b) r = (vector_of_record (parse_record r.max_degree b), r)

    module _ (now : ℕ) (fresh : Bytes) where
      unfoldable pub read_record : ℕ → Reader → Option DiskNodeRecord × Reader
      read_record id r = elim r.buffer_pool_mgr [
        | none ↦ read_record_direct id r
        | some s ↦
            let t = get_or_load_page now id id fresh (load_func r) s in
            record_found id t.0 (put_pool t.1 r)
      ]

      unfoldable pub read_vector : ℕ → Reader → Option Vector × Reader
      read_vector id r = elim r.buffer_pool_mgr [
        | none ↦ read_vector_direct id r
        | some s ↦
            let t = get_or_load_page now id id fresh (load_func r) s in
            vector_found id t.0 (put_pool t.1 r)
      ]
