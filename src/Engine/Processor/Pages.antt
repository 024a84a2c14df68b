-- ===== src/Engine/Processor/Pages.antt =====
-- The processor without a disk reader: its vectors come from the pages of the vector file.
use agent_mem_io.Prelude.{
  ℕ, ◌^◌, ◌<◌, ◌≤◌, ◌≡◌, ◌≢◌, ◌⊎◌, refl, sym, subst, ap, ◌∙◌, Bool, true, false, Option, none, some,
  ◌++◌, length, ltb, ◌==◌, if◌then◌else◌, arith, inl, inr,
}
use agent_mem_io.Prelude.Bytes.{Bytes}
use agent_mem_io.Lsm.Entry.{Vector}
use agent_mem_io.Lsm.SsTable.{read_vector_words}
use agent_mem_io.Buffer.Policy.{invalid_page_id}
use agent_mem_io.Buffer.Pool.{Pool, get_or_load_page}
use agent_mem_io.Buffer.Pool.Valid.{IsValid}
use agent_mem_io.Buffer.Pool.Cache.{get_or_load_page-Serves}
use agent_mem_io.Disk.Record.{default_dimension}
use agent_mem_io.Disk.Record.Parse.{length-read_vector_words}
use agent_mem_io.Graph.Nav.{Nav}
use agent_mem_io.Engine.IoEngine.{IoRequest, Ring}
use agent_mem_io.Engine.Prefetcher.{
  Prefetcher, vector_size_bytes, page_size, calculate_vector_offset,
}
use agent_mem_io.Engine.Prefetcher.Pools.{prefetch_neighbors-pool}
use agent_mem_io.Engine.Prefetcher.Requests.{wait_prefetch_completions-pool}
use agent_mem_io.Engine.Query.{Calls}
use agent_mem_io.Engine.Query.Beams.{IsCalls}
use agent_mem_io.Engine.Processor.{
  Processor, parsed, parse_vector, load_page, vector_in, get_vector, distance_of,
  calculate_distance, by_pool, measure, measure_in, entry_in, entry_distance, calls,
}

-- The file of vectors: each node of the graph has its page there, which starts with its vector.
pub record IsVectorFile (pread : ℕ → ℕ → Bytes) (vectors : ℕ → Vector) (n : ℕ) : Type 0 where
  pub small : n ≤ 2 ^ 32
  pub long :
      (node : ℕ)
      → node < n
      → vector_size_bytes ≤ length (pread (calculate_vector_offset node) page_size)
  pub words :
      (node : ℕ) (more : Bytes)
      → node < n
      → (rest : Bytes) × (read_vector_words default_dimension
            (pread (calculate_vector_offset node) page_size ++ more)
          ≡ some (vectors node, rest))

-- A page that starts with the vector of its node.
abbrev pub HoldsVector : (ℕ → Vector) → ℕ → Bytes → Type 0
HoldsVector vectors page b =
    (rest : Bytes) × (read_vector_words default_dimension b ≡ some (vectors page, rest))

module _ (pread : ℕ → ℕ → Bytes) (vectors : ℕ → Vector) (n : ℕ)
    (file : IsVectorFile pread vectors n) {D : Type 0} (l2_distance : Vector → Vector → D)
    (furthest : D) (query : Vector) (dim : length query ≡ default_dimension) where
  load_page-HoldsVector :
      (node : ℕ) (buffer : Bytes)
      → node < n
      → HoldsVector vectors node (load_page pread node buffer node)
  unfolding load_page
  load_page-HoldsVector node buffer h =
      let l = file.long node h in
      let whole : ltb (length (pread (calculate_vector_offset node) page_size)) vector_size_bytes
          ≡ false =
        ground (arith, l) in
      rw whole (file.words node _ h)

  -- A distance that the processor may give a node: that to its vector, or the greatest one, which
  -- it gives when the pool has no frame for the page.
  abbrev pub IsDistance : ℕ → D → Type 0
  IsDistance node d = (d ≡ l2_distance query (vectors node)) ⊎ (d ≡ furthest)

  distance_of-page :
      (node : ℕ) (b : Bytes)
      → HoldsVector vectors node b
      → distance_of l2_distance furthest query (parse_vector (some b))
        ≡ some (l2_distance query (vectors node))
  distance_of-page node b (rest, e) =
      let l : length (vectors node) ≡ default_dimension =
        length-read_vector_words default_dimension b (vectors node) rest e in
      let same : (length query == length (vectors node)) ≡ true = ground (arith, dim, l) in
      ap (λ o. distance_of l2_distance furthest query (parsed o)) e ∙ rw same refl

  module _ {K : Type 0} (now : ℕ) (fresh : Bytes) where
    -- The pool, if there is one, is valid, and its pages start with their vectors.
    abbrev pub IsCached : Prefetcher K → Type 0
    IsCached p = (s : Pool) → p.buffer_pool ≡ some s → IsValid (HoldsVector vectors) s

    Measured : ℕ → Option D × Prefetcher K → Type 0
    Measured node t = (d : D) × (t.0 ≡ some d) × IsDistance node d × IsCached t.1

    vector_in-Measured :
        (o : Option Pool) (node : ℕ) (p : Prefetcher K)
        → node < n
        → p.buffer_pool ≡ o
        → IsCached p
        → let t = vector_in pread now fresh o node p in
          Measured node (distance_of l2_distance furthest query t.0, t.1)
    unfolding Measured
    vector_in-Measured none node p h e v = (furthest, refl, inr refl, v)
    vector_in-Measured (some s) node p h e v =
        let named : node ≢ invalid_page_id = λ same. absurd (omega (arith, same, h, file.small)) in
        let x =
          get_or_load_page-Serves (HoldsVector vectors) now node node fresh (load_page pread node) s
            (v s e) named (λ b. load_page-HoldsVector node b h) in
        let cached =
          λ (u : Pool)
              (f : some (get_or_load_page now node node fresh (load_page pread node) s).1 ≡ some u).
            let same : (get_or_load_page now node node fresh (load_page pread node) s).1 ≡ u = cc in
            subst (IsValid (HoldsVector vectors)) same x.valid in
        elim x.answer [
          | inl nothing ↦ (furthest, rw nothing refl, inr refl, cached)
          | inr (b, i, at, ok, known, there) ↦ (
            l2_distance query (vectors node),
            rw at (distance_of-page node b ok),
            inl refl,
            cached,
          )
        ]

-- A processor without a disk reader.
module _ {D : Type 0} (l2_distance : Vector → Vector → D) (furthest : D) (pread : ℕ → ℕ → Bytes)
    {K : Type 0} (now : ℕ) (fresh : Bytes) (pread_index : ℕ → ℕ → Bytes)
    (l2_distance_sq : Vector → Vector → D) (negative : D → Bool) (failed : D) (spare : Option Bytes)
    (liburing : Ring K) (transfers : IoRequest → Bool) (malloc : ℕ → Bool) (vector_fd : ℕ) (g : Nav)
    (vectors : ℕ → Vector) (file : IsVectorFile pread vectors g.num_nodes) (query : Vector)
    (dim : length query ≡ default_dimension) where
  abbrev pub page_calls : Calls (Processor K) D
  page_calls =
      calls l2_distance furthest pread now fresh pread_index l2_distance_sq negative failed spare
        liburing transfers malloc vector_fd g query

  abbrev pub Cached : Prefetcher K → Type 0
  Cached = IsCached pread vectors g.num_nodes file l2_distance furthest query dim now fresh

  abbrev pub IsPaged : Processor K → Type 0
  IsPaged q = (q.disk_reader ≡ none) × Cached q.prefetcher

  abbrev pub Answers : ℕ → Option D × Processor K → Type 0
  Answers node t =
      (d : D) × (t.0 ≡ some d)
      × IsDistance pread vectors g.num_nodes file l2_distance furthest query dim node d
      × IsPaged t.1

  by_pool-Answers :
      (node : ℕ) (q : Processor K)
      → node < g.num_nodes
      → IsPaged q
      → Answers node (by_pool l2_distance furthest pread now fresh query node q)
  unfolding calculate_distance get_vector Measured
  by_pool-Answers node q h (e, v) =
      let (d, f, right, v') =
        vector_in-Measured pread vectors g.num_nodes file l2_distance furthest query dim now fresh
          q.prefetcher.buffer_pool node q.prefetcher h refl v in
      (d, f, right, (e, v'))

  pub measure-Answers :
      (node : ℕ) (q : Processor K)
      → node < g.num_nodes
      → IsPaged q
      → Answers node (page_calls.measure node q)
  unfolding calls measure
  measure-Answers node q h (e, v) =
      subst
        (λ o. Answers node (
          measure_in l2_distance furthest pread now fresh pread_index l2_distance_sq negative failed
            spare o query node q))
        (sym e) (by_pool-Answers node q h (e, v))

  pub entry-Answers :
      (node : ℕ) (q : Processor K)
      → node < g.num_nodes
      → IsPaged q
      → Answers node (
          entry_distance l2_distance furthest pread now fresh pread_index l2_distance_sq negative
            failed spare query node q)
  unfolding entry_distance
  entry-Answers node q h (e, v) =
      subst
        (λ o. Answers node (
          entry_in l2_distance furthest pread now fresh pread_index l2_distance_sq negative failed
            spare o query node q))
        (sym e) (by_pool-Answers node q h (e, v))

  same-Cached : (p p' : Prefetcher K) → p'.buffer_pool ≡ p.buffer_pool → Cached p → Cached p'
  same-Cached p p' e v s f = v s (sym e ∙ f)

  pub next-IsPaged :
      (b : Bool) (p : Prefetcher K) (q : Processor K)
      → p.buffer_pool ≡ q.prefetcher.buffer_pool
      → IsPaged q
      → IsPaged (if b then record q { prefetcher = p } else q)
  next-IsPaged true p q e (i, v) = (i, same-Cached q.prefetcher p e v)
  next-IsPaged false p q e x = x

  unfoldable pub page_calls-IsCalls : IsCalls page_calls g
  unfolding calls
  page_calls-IsCalls = record {
    Ok = IsPaged;
    Right = IsDistance pread vectors g.num_nodes file l2_distance furthest query dim;
    measured = λ n q h v. measure-Answers n q h v;
    prefetched = λ n q h v.
        next-IsPaged q.has_prefetcher _ q
          (prefetch_neighbors-pool liburing transfers now malloc vector_fd g n q.prefetcher) v;
    waited = λ q v.
        next-IsPaged q.has_prefetcher _ q
          (wait_prefetch_completions-pool liburing now fresh q.prefetcher).0 v;
  }
