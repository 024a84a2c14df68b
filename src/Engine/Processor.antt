-- ===== src/Engine/Processor.antt =====
-- `QueryProcessor` of src/engine/storage_engine.cpp: the vectors and the distances behind its
-- search, and the prefetcher that runs next to it.
--
-- `pread` is the system's on the file of vectors, and `pread_index` on that of the disk reader.
-- `l2_distance` and `l2_distance_sq` are the distance functions, `furthest` the greatest distance,
-- `negative` the test of a distance against 0, and `failed` the -1 of the disk reader.
pub mod Pages
pub mod Records
pub mod Searches
use agent_mem_io.Prelude.{
  ℕ, ◌*◌, Bool, true, false, Option, none, some, List, [], ◌∷◌, ◌++◌, length, take, drop, replicate,
  leb, ltb, ◌==◌, if◌then◌else◌,
}
use agent_mem_io.Prelude.Bytes.{Bytes}
use agent_mem_io.Lsm.Entry.{Vector, ErrorCode, io_error, invalid_argument}
use agent_mem_io.Lsm.SsTable.{read_vector_words}
use agent_mem_io.Buffer.Pool.{Pool, get_or_load_page}
use agent_mem_io.Graph.Nav.{Nav}
use agent_mem_io.Disk.Record.{default_dimension}
use agent_mem_io.Disk.Reader.{Reader, read_vector}
use agent_mem_io.Disk.Reader.Pinned.{compute_distance_direct}
use agent_mem_io.Engine.IoEngine.{IoRequest, Ring}
use agent_mem_io.Engine.Prefetcher.{
  Prefetcher, vector_size_bytes, page_size, calculate_vector_offset, prefetch_neighbors,
  wait_prefetch_completions,
}
use agent_mem_io.Engine.Query.{Calls}

-- The pool and the engine of the processor are those of the prefetcher, whether it has one or not.
pub record Processor (K : Type 0) : Type 0 where
  pub prefetcher : Prefetcher K
  pub has_prefetcher : Bool
  pub disk_reader : Option Reader

-- A vector, an error, or words that are not there.
pub data VectorRead : Type 0 where
  vector : Vector → VectorRead
  refused : ErrorCode → VectorRead
  beyond : VectorRead

-- The words of the page.
abbrev pub parsed : Option (Vector × Bytes) → VectorRead
parsed none = beyond
parsed (some (v, rest)) = vector v

abbrev pub parse_vector : Option Bytes → VectorRead
parse_vector none = refused io_error
parse_vector (some b) = parsed (read_vector_words default_dimension b)

abbrev pub distance_of_words :
    {D : Type 0} → (Vector → Vector → D) → Vector → Option Vector → Option D
distance_of_words l2_distance_sq query none = none
distance_of_words l2_distance_sq query (some v) =
    if leb (length query) (length v)
    then some (l2_distance_sq query (take (length query) v))
    else none

module _ (pread : ℕ → ℕ → Bytes) where
  -- A short read leaves a page of zeros.
  unfoldable pub load_page : ℕ → Bytes → ℕ → Bytes
  load_page node_id buffer page =
      let got = pread (calculate_vector_offset node_id) page_size in
      if ltb (length got) vector_size_bytes
      then replicate page_size 0
      else got ++ drop (length got) buffer

  module _ {K : Type 0} (now : ℕ) (fresh : Bytes) where
    abbrev pub vector_in : Option Pool → ℕ → Prefetcher K → VectorRead × Prefetcher K
    vector_in none node_id p = (refused invalid_argument, p)
    vector_in (some s) node_id p =
        let t = get_or_load_page now node_id node_id fresh (load_page node_id) s in
        (parse_vector t.0, record p { buffer_pool = some t.1 })

    unfoldable pub get_vector : ℕ → Prefetcher K → VectorRead × Prefetcher K
    get_vector node_id p = vector_in p.buffer_pool node_id p

module _ {D : Type 0} (l2_distance : Vector → Vector → D) (furthest : D) where
  -- `none` is the exception of vectors of different dimensions.
  abbrev pub distance_of : Vector → VectorRead → Option D
  distance_of query (vector v) =
      if length query == length v then some (l2_distance query v) else none
  distance_of query (refused e) = some furthest
  distance_of query beyond = none

  module _ (pread : ℕ → ℕ → Bytes) {K : Type 0} (now : ℕ) (fresh : Bytes) where
    unfoldable pub calculate_distance : Vector → ℕ → Prefetcher K → Option D × Prefetcher K
    calculate_distance query node_id p =
        let t = get_vector pread now fresh node_id p in (distance_of query t.0, t.1)

    abbrev pub by_pool : Vector → ℕ → Processor K → Option D × Processor K
    by_pool query node_id q =
        let t = calculate_distance query node_id q.prefetcher in
        (t.0, record q { prefetcher = t.1 })

    module _ (pread_index : ℕ → ℕ → Bytes) (l2_distance_sq : Vector → Vector → D)
        (negative : D → Bool) (failed : D) (spare : Option Bytes) where
      -- The distance that the disk reader gave, or a fallback.
      abbrev pub unless_negative :
          Option D → Option D × Processor K → Option D × Processor K → Option D × Processor K
      unless_negative none direct fallback = direct
      unless_negative (some d) direct fallback = if negative d then fallback else direct

      abbrev pub direct : Vector → ℕ → Reader → Processor K → Option D × Processor K
      direct query node_id r q =
          let t =
            compute_distance_direct pread_index l2_distance_sq failed spare now fresh node_id query
              r in
          (t.0, record q { disk_reader = some t.1 })

      abbrev pub measure_in : Option Reader → Vector → ℕ → Processor K → Option D × Processor K
      measure_in none query node_id q = by_pool query node_id q
      measure_in (some r) query node_id q =
          let t = direct query node_id r q in
          if r.is_open
          then unless_negative t.0 t (by_pool query node_id t.1)
          else by_pool query node_id q

      -- The distance of a neighbour.
      unfoldable pub measure : Vector → ℕ → Processor K → Option D × Processor K
      measure query node_id q = measure_in q.disk_reader query node_id q

      -- The fallback of the entry point: the vector from the reader.
      abbrev pub entry_by_vector : Vector → ℕ → Option Reader → Processor K → Option D × Processor K
      entry_by_vector query node_id none q = (none, q)
      entry_by_vector query node_id (some r) q =
          let t = read_vector pread_index spare now fresh node_id r in
          (distance_of_words l2_distance_sq query t.0, record q { disk_reader = some t.1 })

      abbrev pub entry_in : Option Reader → Vector → ℕ → Processor K → Option D × Processor K
      entry_in none query node_id q = by_pool query node_id q
      entry_in (some r) query node_id q =
          let t = direct query node_id r q in
          if r.is_open
          then unless_negative t.0 t (entry_by_vector query node_id t.1.disk_reader t.1)
          else by_pool query node_id q

      -- The distance of the entry point.
      unfoldable pub entry_distance : Vector → ℕ → Processor K → Option D × Processor K
      entry_distance query node_id q = entry_in q.disk_reader query node_id q

      module _ (liburing : Ring K) (transfers : IoRequest → Bool) (malloc : ℕ → Bool)
          (vector_fd : ℕ) (g : Nav) where
        abbrev pub prefetch : ℕ → Processor K → Processor K
        prefetch node_id q =
            let t =
              prefetch_neighbors liburing transfers now malloc vector_fd (some g) node_id
                q.prefetcher in
            if q.has_prefetcher then record q { prefetcher = t.2 } else q

        abbrev pub wait : Processor K → Processor K
        wait q =
            let t = wait_prefetch_completions liburing now fresh q.prefetcher in
            if q.has_prefetcher then record q { prefetcher = t.1 } else q

        -- The calls of the search for a query.
        unfoldable pub calls : Vector → Calls (Processor K) D
        calls query = record {
          measure = measure query;
          prefetch_neighbors = prefetch;
          wait_prefetch_completions = wait;
        }
