-- ===== src/Engine/Processor/Searches.antt =====
-- The search of the query processor over its vectors.
use agent_mem_io.Prelude.{
  ℕ, ◌^◌, ◌<◌, ◌≡◌, Bool, true, false, some, List, ◌++◌, length, take, All, Distinct, member, arith,
}
use agent_mem_io.Prelude.Bytes.{Bytes}
use agent_mem_io.Lsm.Entry.{Vector}
use agent_mem_io.Disk.Record.{default_dimension, DiskNodeRecord, parse_record}
use agent_mem_io.Disk.Writer.File.{record_at}
use agent_mem_io.Disk.Reader.Reads.{Delivers}
use agent_mem_io.Graph.Nav.{Nav}
use agent_mem_io.Graph.Nav.Degrees.{IsGraph}
use agent_mem_io.Graph.Index.{Index}
use agent_mem_io.Graph.Search.Queues.{Reachable, ids}
use agent_mem_io.Engine.IoEngine.{IoRequest, Ring}
use agent_mem_io.Engine.Order.{IsWeakOrder, Ordered}
use agent_mem_io.Engine.Query.{found, search_with_beam_width}
use agent_mem_io.Engine.Query.Beams.{NoNearer}
use agent_mem_io.Engine.Query.Answers.{search_with_beam_width-Reachable}
use agent_mem_io.Engine.Processor.{Processor, entry_distance}
use agent_mem_io.Engine.Processor.Records.{
  record_calls, IsOpen, record_calls-IsCalls, entry_distance-Exact,
}

module _ {D : Type 0} (lt : D → D → Bool) (w : IsWeakOrder lt) (l2_distance : Vector → Vector → D)
    (furthest : D) (pread : ℕ → ℕ → Bytes) {K : Type 0} (now : ℕ) (fresh : Bytes)
    (pread_index : ℕ → ℕ → Bytes) (l2_distance_sq : Vector → Vector → D) (negative : D → Bool)
    (failed : D) (liburing : Ring K) (transfers : IoRequest → Bool) (malloc : ℕ → Bool)
    (vector_fd : ℕ) (g : Nav) (x : IsGraph g) (small : g.num_nodes < 2 ^ 32)
    (inside : g.entry_point < g.num_nodes) (index : Index) (built : index.nav_data ≡ some g)
    (query : Vector) (dim : length query ≡ default_dimension) (k : ℕ) where
  module _ (spare : Bytes) (file : Bytes) (delivers : Delivers file pread_index) (degree : ℕ)
      (records : ℕ → DiskNodeRecord)
      (parses : (id : ℕ) (rest : Bytes)
        → id < g.num_nodes
        → parse_record degree (record_at file id ++ rest) ≡ some (records id))
      (positive : (a b : Vector) → negative (l2_distance_sq a b) ≡ false) where
    -- On a graph of fewer than 2^32 nodes whose lists hold nodes of the graph, distinct and within
    -- the degree limit, and whose entry point is a node, with fewer nodes than ef_search, for a
    -- query of 128 words, over an open disk reader of an index file whose records parse, with a
    -- valid cache or none, and memory for a buffer, where the system's `pread` delivers what it is
    -- asked for inside the file, the test of distances is a weak order (no distance is a NaN), and
    -- no squared distance is negative: search_with_beam_width gives the first `k` of a ranking
    -- that holds every reachable node, each once, with the squared distance to the vector of its
    -- record, the nearer ones first.
    pub search_with_beam_width-Exact :
        (ef_search : ℕ) (q : Processor K)
        → g.num_nodes < ef_search
        → IsOpen l2_distance furthest pread now fresh pread_index l2_distance_sq negative failed
            spare liburing transfers malloc vector_fd g file delivers degree records parses positive
            query dim q
        → (ranked : List (ℕ × D)) × (left : Processor K) × (search_with_beam_width lt ef_search
              (record_calls l2_distance furthest pread now fresh pread_index l2_distance_sq negative
                failed spare liburing transfers malloc vector_fd g file delivers degree records
                parses positive query dim)
              (entry_distance l2_distance furthest pread now fresh pread_index l2_distance_sq
                negative failed
                (some spare)
                query)
              (some index)
              k
              q
            ≡ found (take k ranked) left)
          × Ordered (NoNearer lt) ranked
          × Distinct (ids ranked)
          × All
              (λ p.
                (p.0 < g.num_nodes)
                × (p.1 ≡ l2_distance_sq query (records p.0).vector_data)
                × Reachable g p.0)
              ranked
          × ((a : ℕ) → Reachable g a → member a (ids ranked) ≡ true)
    unfolding record_calls-IsCalls
    search_with_beam_width-Exact ef_search q few v =
        search_with_beam_width-Reachable lt ef_search _ g
          (record_calls-IsCalls l2_distance furthest pread now fresh pread_index l2_distance_sq
            negative failed spare liburing transfers malloc vector_fd g file delivers degree records
            parses positive query dim)
          w (omega (arith, few)) x small inside
          (entry_distance l2_distance furthest pread now fresh pread_index l2_distance_sq negative
            failed (some spare) query)
          index k q built
          (entry_distance-Exact l2_distance furthest pread now fresh pread_index l2_distance_sq
            negative failed spare liburing transfers malloc vector_fd g file delivers degree records
            parses positive query dim g.entry_point q inside v)
          few
