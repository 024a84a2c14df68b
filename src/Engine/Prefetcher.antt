-- ===== src/Engine/Prefetcher.antt =====
-- `TopologyAwarePrefetcher` of src/engine/prefetcher.cpp.
--
-- `now` and `fresh` are the time and the buffer of a new frame of the pool, and `malloc` tells
-- whether the system has memory for the buffer of a node.
pub mod Requests
pub mod Pools
use agent_mem_io.Prelude.{
  ℕ, suc, ◌*◌, ◌%◌, ◌^◌, Bool, true, false, not, ◌&&◌, Option, none, some, List, [], ◌∷◌, ◌++◌,
  length, take, drop, map, leb, ltb, ◌==◌, if◌then◌else◌, is_some,
}
use agent_mem_io.Prelude.Bytes.{Bytes}
use agent_mem_io.Buffer.Pool.{Pool, get_page, get_or_load_page, invalid_node_id, bump64}
use agent_mem_io.Buffer.Pool.Methods.{contains}
use agent_mem_io.Graph.Nav.{Nav, get_neighbors}
use agent_mem_io.Engine.IoEngine.{IoRequest, IoCompletion, Ring}
use agent_mem_io.Engine.IoEngine.Facade.{Facade, submit_batch_read, wait_completion_batch}

-- `DEFAULT_DIMENSION * sizeof(VectorValue)`
abbrev pub vector_size_bytes : ℕ
vector_size_bytes = 512

abbrev pub page_size : ℕ
page_size = 4096

unfoldable pub calculate_vector_offset : ℕ → ℕ
calculate_vector_offset node_id = (node_id * page_size) % 2 ^ 64

-- The pool and the engine are shared with the query processor.
pub record Prefetcher (K : Type 0) : Type 0 where
  pub io_engine : Option (Facade K)
  pub buffer_pool : Option Pool
  pub batch_size : ℕ
  pub total_prefetches : ℕ
  pub successful_prefetches : ℕ
  pub cache_hits : ℕ

unfoldable pub new : {K : Type 0} → Option (Facade K) → Option Pool → Prefetcher K
new io_engine buffer_pool = record {
  io_engine = io_engine;
  buffer_pool = buffer_pool;
  batch_size = 32;
  total_prefetches = 0;
  successful_prefetches = 0;
  cache_hits = 0;
}

module _ {K : Type 0} where
  abbrev pub hit : Prefetcher K → Prefetcher K
  hit p = record p { cache_hits = bump64 p.cache_hits }

  unfoldable pub reset_stats : Prefetcher K → Prefetcher K
  reset_stats p = record p { total_prefetches = 0; successful_prefetches = 0; cache_hits = 0 }

  unfoldable pub set_batch_size : ℕ → Prefetcher K → Prefetcher K
  set_batch_size batch_size p = record p { batch_size = batch_size }

-- The two looks into the pool: whether there is a page, and the pool after them.
unfoldable pub look : ℕ → ℕ → Pool → Bool × Pool
look now neighbor s =
    let t = get_page now neighbor s in if contains neighbor s then (true, s) else (is_some t.0, t.1)

abbrev pub request : ℕ → ℕ → IoRequest
request vector_fd neighbor = record {
  fd = vector_fd;
  offset = calculate_vector_offset neighbor;
  size = vector_size_bytes;
  node_id = neighbor;
  is_read = true;
}

module _ {K : Type 0} where
  abbrev pub looked : Bool × Pool → Prefetcher K → Bool × Prefetcher K
  looked (true, s) p = (true, hit (record p { buffer_pool = some s }))
  looked (false, s) p = (false, record p { buffer_pool = some s })

module _ {K : Type 0} (now : ℕ) where
  abbrev pub look_in : Option Pool → ℕ → Prefetcher K → Bool × Prefetcher K
  look_in none neighbor p = (false, p)
  look_in (some s) neighbor p = looked (look now neighbor s) p

  unfoldable pub look_pool : ℕ → Prefetcher K → Bool × Prefetcher K
  look_pool neighbor p = look_in p.buffer_pool neighbor p

  module _ (malloc : ℕ → Bool) (vector_fd : ℕ) where
    -- The loop over the neighbours: the requests, of which there are `count` already.
    unfoldable pub collect : List ℕ → ℕ → Prefetcher K → List IoRequest × Prefetcher K
    collect [] count p = ([], p)
    collect (n ∷ ns) count p =
        let t = look_pool n p in
        let q : Prefetcher K = t.1 in
        let takes = not t.0 && malloc n in
        let rest =
          collect ns (if takes then suc count else count)
            (if takes then record q { total_prefetches = bump64 q.total_prefetches } else q) in
        if leb p.batch_size count
        then ([], p)
        else if takes
        then (request vector_fd n ∷ rest.0, rest.1)
        else rest

module _ {K : Type 0} (liburing : Ring K) (transfers : IoRequest → Bool) where
  -- The submission. The buffers of the requests past the number that was submitted are freed.
  abbrev pub submitted : Facade K → List IoRequest × Prefetcher K → List IoRequest × Prefetcher K
  submitted f (rs, p) =
      let t = submit_batch_read liburing transfers rs f in
      (drop t.0 rs, record p { io_engine = some t.1 })

  abbrev pub submit_requests :
      Facade K → List IoRequest × Prefetcher K → List IoRequest × Prefetcher K
  submit_requests f ([], p) = ([], p)
  submit_requests f (r ∷ rs, p) = submitted f (r ∷ rs, p)

  module _ (now : ℕ) (malloc : ℕ → Bool) (vector_fd : ℕ) where
    abbrev pub prefetch_list :
        Option (List ℕ) → Facade K → Prefetcher K → ℕ × List IoRequest × Prefetcher K
    prefetch_list none f p = (0, [], p)
    prefetch_list (some ns) f p =
        let c = collect now malloc vector_fd ns 0 p in
        let u = submit_requests f c in (length c.0, u.0, u.1)

    abbrev pub prefetch_in :
        Option Nav → Option (Facade K) → ℕ → Prefetcher K → ℕ × List IoRequest × Prefetcher K
    prefetch_in none o node_id p = (0, [], p)
    prefetch_in (some g) none node_id p = (0, [], p)
    prefetch_in (some g) (some f) node_id p = prefetch_list (get_neighbors node_id g) f p

    -- The count, the requests whose buffers are freed, and the state. Where the graph's
    -- `get_neighbors` throws, this call throws too, and the search that made it ends.
    unfoldable pub prefetch_neighbors :
        Option Nav → ℕ → Prefetcher K → ℕ × List IoRequest × Prefetcher K
    prefetch_neighbors graph node_id p = prefetch_in graph p.io_engine node_id p

-- `memcpy` of the vector into the page.
abbrev pub load_func : Bytes → Bytes → ℕ → Bytes
load_func source buffer page = take vector_size_bytes source ++ drop vector_size_bytes buffer

module _ (now : ℕ) (fresh : Bytes) where
  abbrev pub enter : IoCompletion → Option Bytes → Pool → Pool
  enter c none s = s
  enter c (some b) s =
      if c.node_id == invalid_node_id
      then s
      else (get_or_load_page now c.node_id c.node_id fresh (load_func b) s).1

  module _ {K : Type 0} where
    abbrev pub store_in : Option Pool → IoCompletion → Prefetcher K → Prefetcher K
    store_in none c p = p
    store_in (some s) c p = record p { buffer_pool = some (enter c c.buffer s) }

    -- A completion that succeeded.
    unfoldable pub store_completion : IoCompletion → Prefetcher K → Prefetcher K
    store_completion c p =
        store_in p.buffer_pool c
          (record p { successful_prefetches = bump64 p.successful_prefetches })

    abbrev pub completed : Bool → IoCompletion → Prefetcher K → Prefetcher K
    completed true c p = p
    completed false c p = store_completion c p

    unfoldable pub complete_all : List IoCompletion → ℕ → Prefetcher K → ℕ × Prefetcher K
    complete_all [] count p = (count, p)
    complete_all (c ∷ cs) count p =
        complete_all cs (if c.failed then count else suc count) (completed c.failed c p)

module _ {K : Type 0} (liburing : Ring K) (now : ℕ) (fresh : Bytes) where
  abbrev pub complete_waited : List IoCompletion × Facade K → Prefetcher K → ℕ × Prefetcher K
  complete_waited (cs, f) p = complete_all now fresh cs 0 (record p { io_engine = some f })

  abbrev pub wait_in : Option (Facade K) → Prefetcher K → ℕ × Prefetcher K
  wait_in none p = (0, p)
  wait_in (some f) p = complete_waited (wait_completion_batch liburing p.batch_size f) p

  unfoldable pub wait_prefetch_completions : Prefetcher K → ℕ × Prefetcher K
  wait_prefetch_completions p = wait_in p.io_engine p
