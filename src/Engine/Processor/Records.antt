-- ===== src/Engine/Processor/Records.antt =====
-- The processor with an open disk reader: its distances come from the records of the index file.
use agent_mem_io.Prelude.{
  ℕ, ◌<◌, ◌≡◌, refl, sym, subst, ◌∙◌, Bool, true, false, Option, none, some, ◌++◌, length,
  if◌then◌else◌, inl, inr, Option-cases, List-cases,
}
use agent_mem_io.Prelude.Bytes.{Bytes}
use agent_mem_io.Lsm.Entry.{Vector}
use agent_mem_io.Buffer.Pool.{Pool}
use agent_mem_io.Disk.Record.{default_dimension, DiskNodeRecord, parse_record}
use agent_mem_io.Disk.Writer.File.{record_at}
use agent_mem_io.Disk.Reader.{
  Reader, borrow_buffer, return_buffer, vector_through, read_vector_direct, vector_found,
  read_vector,
}
use agent_mem_io.Disk.Reader.Reads.{Delivers, IsReady}
use agent_mem_io.Disk.Reader.Pinned.{
  distance_by_vector, distance_pinned, distance_loaded, compute_distance_direct,
}
use agent_mem_io.Disk.Reader.Pinned.Distance.{compute_distance_direct-Measures}
use agent_mem_io.Graph.Nav.{Nav}
use agent_mem_io.Engine.IoEngine.{IoRequest, Ring}
use agent_mem_io.Engine.Query.{Calls}
use agent_mem_io.Engine.Query.Beams.{IsCalls}
use agent_mem_io.Engine.Processor.{
  Processor, unless_negative, direct, measure, measure_in, entry_in, entry_distance, calls,
}

-- The bounds of the index that a reader was opened with.
abbrev pub Bounds : ℕ → ℕ → Reader → Type 0
Bounds n degree r = (r.num_vectors ≡ n) × (r.max_degree ≡ degree)

module _ (n degree : ℕ) where
  borrow_buffer-Bounds :
      (spare : Option Bytes) (r : Reader)
      → Bounds n degree r
      → Bounds n degree (borrow_buffer spare r).1
  unfolding borrow_buffer
  borrow_buffer-Bounds spare r b = elim (List-cases r.io_buffer_pool) [
    | inl e ↦ rw (e, borrow_buffer) b
    | inr (x, xs, e) ↦ rw (e, borrow_buffer) b
  ]

  module _ (pread : ℕ → ℕ → Bytes) (id : ℕ) where
    vector_through-Bounds :
        (r : Reader) (t : Option Bytes × Reader)
        → Bounds n degree t.1
        → Bounds n degree (vector_through pread id r t).1
    unfolding vector_through return_buffer
    vector_through-Bounds r (none, r') b = b
    vector_through-Bounds r (some x, r') b = b

    vector_found-Bounds :
        (spare : Option Bytes) (o : Option Bytes) (r : Reader)
        → Bounds n degree r
        → Bounds n degree (vector_found pread spare id o r).1
    unfolding vector_found read_vector_direct
    vector_found-Bounds spare none r b =
        vector_through-Bounds r (borrow_buffer spare r) (borrow_buffer-Bounds spare r b)
    vector_found-Bounds spare (some x) r b = b

    read_vector-Bounds :
        (spare : Option Bytes) (now : ℕ) (fresh : Bytes) (r : Reader)
        → Bounds n degree r
        → Bounds n degree (read_vector pread spare now fresh id r).1
    unfolding read_vector read_vector_direct
    read_vector-Bounds spare now fresh r b = elim (Option-cases r.buffer_pool_mgr) [
      | inl e ↦ rw (e, read_vector) (vector_through-Bounds _ _ (borrow_buffer-Bounds spare _ b))
      | inr (s, e) ↦ rw (e, read_vector) (vector_found-Bounds spare _ _ b)
    ]

    module _ {D : Type 0} (l2_distance_sq : Vector → Vector → D) where
      distance_pinned-Bounds :
          (query : Vector) (o : Option Bytes) (s : Pool) (r : Reader) (next : Option D × Reader)
          → Bounds n degree r
          → Bounds n degree next.1
          → Bounds n degree (distance_pinned l2_distance_sq id query o s r next).1
      unfolding distance_pinned
      distance_pinned-Bounds query none s r next b c = c
      distance_pinned-Bounds query (some x) s r next b c = b

      compute_distance_direct-Bounds :
          (failed : D) (spare : Option Bytes) (now : ℕ) (fresh : Bytes) (query : Vector)
          (r : Reader)
          → Bounds n degree r
          → Bounds n degree
              (compute_distance_direct pread l2_distance_sq failed spare now fresh id query r).1
      unfolding compute_distance_direct distance_by_vector distance_loaded
      compute_distance_direct-Bounds failed spare now fresh query r b =
          elim (Option-cases r.buffer_pool_mgr) [
            | inl e ↦ rw (e, compute_distance_direct) (read_vector-Bounds spare now fresh _ b)
            | inr (s, e) ↦
                rw (e, compute_distance_direct)
                  (distance_pinned-Bounds query _ _ _ _ b (
                    distance_pinned-Bounds query _ _ _ _ b
                      (read_vector-Bounds spare now fresh _ b)))
          ]

-- A processor with an open reader of an index file whose records parse to `records`.
module _ {D : Type 0} (l2_distance : Vector → Vector → D) (furthest : D) (pread : ℕ → ℕ → Bytes)
    {K : Type 0} (now : ℕ) (fresh : Bytes) (pread_index : ℕ → ℕ → Bytes)
    (l2_distance_sq : Vector → Vector → D) (negative : D → Bool) (failed : D) (spare : Bytes)
    (liburing : Ring K) (transfers : IoRequest → Bool) (malloc : ℕ → Bool) (vector_fd : ℕ) (g : Nav)
    (file : Bytes) (delivers : Delivers file pread_index) (degree : ℕ)
    (records : ℕ → DiskNodeRecord)
    (parses : (id : ℕ) (rest : Bytes)
      → id < g.num_nodes
      → parse_record degree (record_at file id ++ rest) ≡ some (records id))
    (positive : (a b : Vector) → negative (l2_distance_sq a b) ≡ false) (query : Vector)
    (dim : length query ≡ default_dimension) where
  abbrev pub record_calls : Calls (Processor K) D
  record_calls =
      calls l2_distance furthest pread now fresh pread_index l2_distance_sq negative failed
        (some spare) liburing transfers malloc vector_fd g query

  -- The reader is open, its cache is valid, and its bounds are those of the index.
  abbrev pub IsOpen : Processor K → Type 0
  IsOpen q = (r : Reader) × (q.disk_reader ≡ some r) × IsReady file r × Bounds g.num_nodes degree r

  abbrev pub IsExact : ℕ → D → Type 0
  IsExact node d = d ≡ l2_distance_sq query (records node).vector_data

  abbrev pub Exact : ℕ → Option D × Processor K → Type 0
  Exact node t = (d : D) × (t.0 ≡ some d) × IsExact node d × IsOpen t.1

  direct-Exact :
      (node : ℕ) (r : Reader) (q : Processor K)
      → node < g.num_nodes
      → IsReady file r
      → Bounds g.num_nodes degree r
      → let t =
          direct l2_distance furthest pread now fresh pread_index l2_distance_sq negative failed
            (some spare)
            query
            node
            r
            q in
        (t.0 ≡ some (l2_distance_sq query (records node).vector_data)) × IsOpen t.1
  direct-Exact node r q h ready (count, bound) =
      let inside : node < r.num_vectors = subst (λ k. node < k) (sym count) h in
      let parses' = λ (rest : Bytes).
        subst (λ k. parse_record k (record_at file node ++ rest) ≡ some (records node)) (sym bound)
          (parses node rest h) in
      let (e, ready') =
        compute_distance_direct-Measures file pread_index delivers r ready node inside
          (records node) parses' l2_distance_sq failed query dim spare now fresh in
      (
        e,
        (
          _,
          refl,
          ready',
          compute_distance_direct-Bounds g.num_nodes degree pread_index node l2_distance_sq failed
              (some spare) now fresh query r (count, bound),
        ),
      )

  -- The fallback is not taken: the distance is not negative.
  unless_negative-Exact :
      (node : ℕ) (t fallback other : Option D × Processor K) (is_open : Bool)
      → is_open ≡ true
      → t.0 ≡ some (l2_distance_sq query (records node).vector_data)
      → IsOpen t.1
      → Exact node (
          if is_open
          then unless_negative l2_distance furthest pread now fresh pread_index l2_distance_sq
              negative failed
              (some spare)
              t.0
              t
              fallback
          else other)
  unless_negative-Exact node t fallback other is_open o e v =
      let d = l2_distance_sq query (records node).vector_data in
      subst (λ b. Exact node (if b then unless b else other)) (sym o)
        (subst (λ m. Exact node (unless_in m)) (sym e)
          (subst (λ b. Exact node (if b then fallback else t))
            (sym (positive query (records node).vector_data)) (d, e, refl, v)))
    where
      unless_in : Option D → Option D × Processor K
      unless_in m =
          unless_negative l2_distance furthest pread now fresh pread_index l2_distance_sq negative
            failed (some spare) m t fallback

      unless : Bool → Option D × Processor K
      unless b = unless_in t.0

  pub measure-Exact :
      (node : ℕ) (q : Processor K)
      → node < g.num_nodes
      → IsOpen q
      → Exact node (record_calls.measure node q)
  unfolding calls measure
  measure-Exact node q h (r, e, ready, b) =
      let (d, v) = direct-Exact node r q h ready b in
      subst
        (λ o. Exact node (
          measure_in l2_distance furthest pread now fresh pread_index l2_distance_sq negative failed
            (some spare) o query node q))
        (sym e) (unless_negative-Exact node _ _ _ r.is_open ready.opened d v)

  pub entry_distance-Exact :
      (node : ℕ) (q : Processor K)
      → node < g.num_nodes
      → IsOpen q
      → Exact node (
          entry_distance l2_distance furthest pread now fresh pread_index l2_distance_sq negative
            failed
            (some spare)
            query
            node
            q)
  unfolding entry_distance
  entry_distance-Exact node q h (r, e, ready, b) =
      let (d, v) = direct-Exact node r q h ready b in
      subst
        (λ o. Exact node (
          entry_in l2_distance furthest pread now fresh pread_index l2_distance_sq negative failed
            (some spare) o query node q))
        (sym e) (unless_negative-Exact node _ _ _ r.is_open ready.opened d v)

  pub flagged-IsOpen :
      (b : Bool) (q q' : Processor K)
      → q'.disk_reader ≡ q.disk_reader
      → IsOpen q
      → IsOpen (if b then q' else q)
  flagged-IsOpen true q q' e (r, f, v, b) = (r, e ∙ f, v, b)
  flagged-IsOpen false q q' e v = v

  unfoldable pub record_calls-IsCalls : IsCalls record_calls g
  unfolding calls
  record_calls-IsCalls = record {
    Ok = IsOpen;
    Right = IsExact;
    measured = λ n q h v. measure-Exact n q h v;
    prefetched = λ n q h v. flagged-IsOpen q.has_prefetcher q _ refl v;
    waited = λ q v. flagged-IsOpen q.has_prefetcher q _ refl v;
  }
