-- ===== src/Engine/Storage.antt =====
-- `StorageEngine` of src/engine/storage_engine.cpp: the guards of its calls, its counters, and the
-- calls of the write manager, the index and the query processor.
--
-- `Q` is the state of the query processor, and `ask` its `search` (Engine/Query.antt). Times are
-- arguments. The sizes of memory are those that the components report.
pub mod Counters
pub mod Histories
use agent_mem_io.Prelude.{
  ℕ, suc, ◌+◌, ◌*◌, ◌/◌, ◌%◌, ◌^◌, ◌≤◌, ◌≡◌, Bool, true, false, not, ◌&&◌, ◌||◌, Option, none, some,
  List, [], ◌∷◌, ◌++◌, length, drop, ltb, leb, ◌==◌, if◌then◌else◌,
}
use agent_mem_io.Lsm.Entry.{ErrorCode, success, io_error, invalid_argument, ok, Vector}
use agent_mem_io.Lsm.Worker.{Worker}
use agent_mem_io.Lsm.Writer.{Writer, Env}
use agent_mem_io.Lsm.Writer
use agent_mem_io.Lsm.Writer.Start
use agent_mem_io.Graph.Index.{Index}
use agent_mem_io.Engine.Query.{Answer, found, invalid_argument as refused, failed}

pub record Metrics : Type 0 where
  pub total_queries : ℕ
  pub total_query_time_ns : ℕ
  pub total_io_reads : ℕ
  pub total_inserts : ℕ

abbrev pub no_metrics : Metrics
no_metrics = record {
  total_queries = 0;
  total_query_time_ns = 0;
  total_io_reads = 0;
  total_inserts = 0;
}

abbrev pub add64 : ℕ → ℕ → ℕ
add64 a b = (a + b) % 2 ^ 64

pub record Engine (Q : Type 0) : Type 0 where
  pub initialized : Bool
  pub enable_metrics : Bool
  pub num_vectors : ℕ
  pub write_manager : Option Writer
  pub graph_index : Option Index
  pub vector_file : Bool
  pub query_processor : Option Q
  pub metrics : Metrics
  pub latency_samples : List ℕ

-- The constructor.
unfoldable pub new : {Q : Type 0} → Bool → Engine Q
new enable_metrics = record {
  initialized = false;
  enable_metrics = enable_metrics;
  num_vectors = 0;
  write_manager = none;
  graph_index = none;
  vector_file = false;
  query_processor = none;
  metrics = no_metrics;
  latency_samples = [];
}

-- An index that is not built.
abbrev pub new_index : Index
new_index = record { vectors = []; nav_data = none; has_builder = false; is_built = false }

-- Of more than 10000 samples the first 5000 are dropped.
abbrev pub trim : List ℕ → List ℕ
trim samples = if ltb 10000 (length samples) then drop 5000 samples else samples

module _ {Q : Type 0} where
  -- The directory is there or could be made, or not; the engine of the input and output always
  -- starts, since it falls back to synchronous calls.
  unfoldable pub init : Bool → ℕ → Bool → Bool → Writer → Worker → Engine Q → ErrorCode × Engine Q
  init directory max_levels background opens s w e =
      let t = Start.init max_levels background opens s w in
      let e' : Engine Q = record e { write_manager = some t.1 } in
      if e.initialized
      then (invalid_argument, e)
      else if not directory
      then (io_error, e)
      else if ok t.0
      then (success, record e' { initialized = true })
      else (t.0, e')

  unfoldable pub shutdown : Engine Q → Engine Q
  shutdown e = record e { vector_file = false; initialized = false }

  -- `size` vectors were read from the file, or the loader threw.
  unfoldable pub load_dataset : Option ℕ → ℕ → Engine Q → ErrorCode × Engine Q
  load_dataset read num_vectors e = if not e.initialized then (invalid_argument, e) else elim read [
    | none ↦ (io_error, e)
    | some size ↦ if size == 0 then (io_error, e) else (
      success,
      record e {
        num_vectors = if ltb 0 num_vectors && ltb num_vectors size then num_vectors else size;
      },
    )
  ]

  unfoldable pub build_index : Engine Q → ErrorCode × Engine Q
  build_index e =
      if not e.initialized || (e.num_vectors == 0)
      then (invalid_argument, e)
      else (success, record e { graph_index = some new_index })

  abbrev pub count_insert : Engine Q → Engine Q
  count_insert e =
      let m : Metrics = e.metrics in
      record e {
        num_vectors = add64 e.num_vectors 1;
        metrics = record m { total_inserts = add64 m.total_inserts 1 };
      }

  -- After the call of the write manager.
  abbrev pub inserted : ErrorCode × Writer → Engine Q → ErrorCode × Engine Q
  inserted (code, s) e =
      let e' : Engine Q = record e { write_manager = some s } in
      if ok code then (code, count_insert e') else (code, e')

  unfoldable pub insert_with_id : Env → ℕ → Vector → Engine Q → ErrorCode × Engine Q
  insert_with_id env id v e =
      if not e.initialized then (invalid_argument, e) else elim e.write_manager [
        | none ↦ (invalid_argument, e)
        | some s ↦ inserted (Writer.insert_with_id env id v s) e
      ]

  -- The id is that of the write manager.
  unfoldable pub insert : Env → Vector → Engine Q → Option ℕ × (ErrorCode × Engine Q)
  insert env v e =
      if not e.initialized then (none, (invalid_argument, e)) else elim e.write_manager [
        | none ↦ (none, (invalid_argument, e))
        | some s ↦ let t = Writer.insert env v s in (some t.0, inserted t.1 e)
      ]

  unfoldable pub delete_vector : Env → ℕ → Engine Q → ErrorCode × Engine Q
  delete_vector env id e =
      if not e.initialized then (invalid_argument, e) else elim e.write_manager [
        | none ↦ (invalid_argument, e)
        | some s ↦
            let t = Writer.delete_entry env id s in (t.0, record e { write_manager = some t.1 })
      ]

  unfoldable pub update_search_metrics : ℕ → ℕ → Engine Q → Engine Q
  update_search_metrics latency_ns io_count e =
      let m : Metrics = e.metrics in
      record e {
        metrics = record m {
          total_queries = add64 m.total_queries 1;
          total_query_time_ns = add64 m.total_query_time_ns latency_ns;
          total_io_reads = add64 m.total_io_reads io_count;
        };
        latency_samples =
            if e.enable_metrics
            then trim (e.latency_samples ++ latency_ns ∷ [])
            else e.latency_samples;
      }

  module _ {D : Type 0} (ask : Vector → ℕ → Q → Answer Q D) where
    abbrev pub answered : Answer Q D → Engine Q → Option (List (ℕ × D)) × Engine Q
    answered (found rs q) e = (some rs, record e { query_processor = some q })
    answered refused e = (none, e)
    answered failed e = (none, e)

    -- The results, none where there is an error.
    unfoldable pub search_with_details : Vector → ℕ → Engine Q → Option (List (ℕ × D)) × Engine Q
    search_with_details query k e =
        if not e.initialized
        then (none, e)
        else elim e.query_processor [ none ↦ (none, e) | some q ↦ answered (ask query k q) e ]

    abbrev pub is_failed : Answer Q D → Bool
    is_failed (found rs q) = false
    is_failed refused = false
    is_failed failed = true

    -- An exception of the query processor, which no method of the engine catches.
    unfoldable pub throws : Vector → ℕ → Engine Q → Bool
    throws query k e =
        if not e.initialized
        then false
        else elim e.query_processor [ none ↦ false | some q ↦ is_failed (ask query k q) ]

    -- The query is counted whether it succeeds or gives an error, but an exception leaves before
    -- that; `io_count` stays 0.
    unfoldable pub search : ℕ → Vector → ℕ → Engine Q → Option (List (ℕ × D)) × Engine Q
    search latency_ns query k e =
        let t = search_with_details query k e in
        if throws query k e then t else (t.0, update_search_metrics latency_ns 0 t.1)

    abbrev pub with_first :
        Option (List (ℕ × D))
        → Bool × (List (List (ℕ × D)) × Engine Q)
        → Engine Q
        → Bool × (List (List (ℕ × D)) × Engine Q)
    with_first none rest e = (false, ([], e))
    with_first (some rs) (fine, (more, e')) e = (fine, (rs ∷ more, e'))

    -- Whether all went well, and the results up to the first error.
    unfoldable pub batch_search :
        ℕ → List Vector → ℕ → Engine Q → Bool × (List (List (ℕ × D)) × Engine Q)
    batch_search latency_ns [] k e = (true, ([], e))
    batch_search latency_ns (v ∷ vs) k e =
        let t = search latency_ns v k e in with_first t.0 (batch_search latency_ns vs k t.1) t.1

  unfoldable pub reset_metrics : Engine Q → Engine Q
  reset_metrics e = record e { metrics = no_metrics }

  unfoldable pub is_memory_within_limits : ℕ → ℕ → Engine Q → Bool
  is_memory_within_limits memory dimension e =
      let dataset_size = (e.num_vectors * dimension * 4) % 2 ^ 64 in
      leb (dataset_size / 10) memory && leb memory (dataset_size / 5)

  -- The index that is there, or a new one.
  unfoldable pub index_of : Engine Q → Index
  index_of e = elim e.graph_index [ none ↦ new_index | some x ↦ x ]

  -- `read` is the index's `load` from the file, `opens` tells whether the vector file opens, and
  -- `processor` makes the query processor with its prefetcher.
  unfoldable pub load :
      (Index → ErrorCode × Index) → Bool → (Index → Q) → Engine Q → ErrorCode × Engine Q
  load read opens processor e =
      let t = read (index_of e) in
      let e' : Engine Q = record e { graph_index = some t.1 } in
      if not (ok t.0)
      then (t.0, e')
      else if opens
      then (success, record e' { vector_file = true; query_processor = some (processor t.1) })
      else (io_error, e')

  unfoldable pub flush : Env → Engine Q → ErrorCode × Engine Q
  flush env e = elim e.write_manager [
    | none ↦ (success, e)
    | some s ↦ let t = Writer.flush env s in (t.0, record e { write_manager = some t.1 })
  ]

  unfoldable pub compact : Env → Engine Q → ErrorCode × Engine Q
  compact env e = if not e.initialized then (invalid_argument, e) else elim e.write_manager [
    | none ↦ (invalid_argument, e)
    | some s ↦ let t = Writer.flush env s in (t.0, record e { write_manager = some t.1 })
  ]
