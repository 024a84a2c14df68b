-- ===== src/Disk/Reader/Batch/Uncached.antt =====
-- The batched reads of a reader without a cache read every record.
use agent_mem_io.Prelude.{
  ℕ, zero, suc, ◌+◌, ◌<◌, ◌≤◌, ◌≡◌, refl, sym, ◌∙◌, subst, ap, Option, none, some, List, [], ◌∷◌,
  ◌++◌, length, get_elem?, set, drop, All, arith, get_elem?-set_self, get_elem?-set_ne, length-set,
  if◌then◌else◌,
}
use mathlib.Core.List.{append_assoc}
use agent_mem_io.Prelude.Bytes.{Bytes}
use agent_mem_io.Lsm.Entry.{Vector}
use agent_mem_io.Disk.Record.{DiskNodeRecord, parse_record, disk_record_size}
use agent_mem_io.Disk.Writer.File.{record_at}
use agent_mem_io.Disk.Reader.{Reader, vector_of_record, return_buffer, borrow_buffer}
use agent_mem_io.Disk.Reader.Reads.{Delivers, IsReady, read_node_lem, borrow_buffer_lem}
use agent_mem_io.Disk.Reader.Batch.{
  Batch, resize, serve, miss, probe, probe_all, fetch_direct, fetch, fetch_all, read_batch,
  read_records_batch, read_vectors_batch,
}
use agent_mem_io.Disk.Reader.Batch.Reads.{length-resize}

-- The places of a list from `i` on, with their nodes.
abbrev numbered : ℕ → List ℕ → List (ℕ × ℕ)
numbered i [] = []
numbered i (id ∷ ids) = (i, id) ∷ numbered (suc i) ids

append_none : (ms : List (ℕ × ℕ)) → ms ++ [] ≡ ms
append_none [] = refl
append_none (m ∷ ms) = ap (◌∷◌ m) (append_none ms)

-- What a whole batch leaves.
pub record Answers {A : Type 0} (value : ℕ → A) (ids : List ℕ) (b : Batch A) : Type 0 where
  pub count : length b.output ≡ length ids
  pub places : (i id : ℕ) → get_elem? ids i ≡ some id → get_elem? b.output i ≡ some (value id)
  pub served : b.success_count ≡ length ids

module _ {A : Type 0} (parse : ℕ → Bytes → A) (initial : A) (file : Bytes) (max_degree n : ℕ)
    (value : ℕ → A)
    (parses : (id : ℕ) (rest : Bytes)
      → id < n
      → parse max_degree (record_at file id ++ rest) ≡ value id)
    (pread : ℕ → ℕ → Bytes) (delivers : Delivers file pread) (spare : Bytes) (now : ℕ)
    (fresh : Bytes) where
  probe_bare :
      (i id : ℕ) (b : Batch A)
      → b.reader.buffer_pool_mgr ≡ none
      → probe parse initial now i id b ≡ miss parse initial i id b
  unfolding probe
  probe_bare i id b e = at (miss parse initial i id b) refl
    where
      at : (c : Batch A) → miss parse initial i id b ≡ c → probe parse initial now i id b ≡ c
      at c h = rw (e, probe) h

  -- Without a cache the first phase only collects the places.
  probe_all-numbered :
      (ids : List ℕ) (i : ℕ) (b : Batch A)
      → b.reader.buffer_pool_mgr ≡ none
      → probe_all parse initial now i ids b ≡ record b { misses = b.misses ++ numbered i ids }
  unfolding probe_all
  probe_all-numbered [] i b e = ap (λ ms. record b { misses = ms }) (sym (append_none b.misses))
  probe_all-numbered (id ∷ ids) i b e =
      let missed : probe parse initial now i id b ≡ record b { misses = b.misses ++ (i, id) ∷ [] } =
        probe_bare i id b e ∙ unfold miss in refl in
      ap (probe_all parse initial now (suc i) ids) missed
      ∙ probe_all-numbered ids (suc i) (record b { misses = b.misses ++ (i, id) ∷ [] }) e
      ∙ ap (λ ms. record b { misses = ms })
          (append_assoc b.misses ((i, id) ∷ []) (numbered (suc i) ids))

  -- A reader of the file and the index, without a cache.
  record IsBare (r : Reader) : Type 0 where
    ready : IsReady file r
    bare : r.buffer_pool_mgr ≡ none
    degree : r.max_degree ≡ max_degree
    nodes : r.num_vectors ≡ n

  fetch_bare :
      (i id : ℕ) (b : Batch A)
      → b.reader.buffer_pool_mgr ≡ none
      → fetch parse initial pread (some spare) now fresh i id b
        ≡ fetch_direct parse initial pread
            (some spare)
            now
            fresh
            i
            id
            (borrow_buffer (some spare) b.reader)
            b
  unfolding fetch
  fetch_bare i id b e = at _ refl
    where
      at :
          (c : Batch A)
          → fetch_direct parse initial pread
              (some spare)
              now
              fresh
              i
              id
              (borrow_buffer (some spare) b.reader)
              b
            ≡ c
          → fetch parse initial pread (some spare) now fresh i id b ≡ c
      at c h = rw (e, fetch) h

  -- One read of the second phase puts the value of its node in its place.
  fetch_lem :
      (i id : ℕ) (b : Batch A)
      → IsBare b.reader
      → id < n
      → (bs : List Bytes) × (fetch parse initial pread (some spare) now fresh i id b ≡ record b {
        reader = record b.reader { io_buffer_pool = bs };
        output = set b.output i (value id);
        success_count = b.success_count + 1;
      })
  unfolding fetch_direct return_buffer serve
  fetch_lem i id b x low =
      let inside : id < b.reader.num_vectors = omega (arith, low, x.nodes) in
      let (c, bs, e) = borrow_buffer_lem file pread delivers b.reader x.ready id inside spare in
      let page = record_at file id ++ drop disk_record_size c in
      let good : parse b.reader.max_degree page ≡ value id =
        rw x.degree (parses id (drop disk_record_size c) low) in
      (
        page ∷ bs,
        fetch_bare i id b x.bare
            ∙ subst
                (λ t. fetch_direct parse initial pread (some spare) now fresh i id t b ≡ record b {
                  reader = record b.reader { io_buffer_pool = page ∷ bs };
                  output = set b.output i (value id);
                  success_count = b.success_count + 1;
                })
                (sym e)
                (rw (read_node_lem file pread delivers b.reader x.ready id inside c, good) refl),
      )

  -- What the second phase leaves of a batch whose places from `i` on are those of `ids`.
  record Filled (i : ℕ) (ids : List ℕ) (old : List A) (count : ℕ) (b : Batch A) : Type 0 where
    same_length : length b.output ≡ length old
    before : (j : ℕ) → j < i → get_elem? b.output j ≡ get_elem? old j
    right : (j id : ℕ) → get_elem? ids j ≡ some id → get_elem? b.output (i + j) ≡ some (value id)
    counted : b.success_count ≡ count + length ids

  fetch_all-Filled :
      (ids : List ℕ) (i : ℕ) (b : Batch A)
      → IsBare b.reader
      → All (λ (x : ℕ). x < n) ids
      → i + length ids ≤ length b.output
      → Filled i ids b.output b.success_count
          (fetch_all parse initial pread (some spare) now fresh (numbered i ids) b)
  unfolding fetch_all
  fetch_all-Filled [] i b x a h = record {
    same_length = refl;
    before = λ j k. refl;
    right = λ j id e. absurd (cc);
    counted = omega arith;
  }
  fetch_all-Filled (id ∷ ids) i b x a h =
      let (bs, e) = fetch_lem i id b x a.0 in
      let out = set b.output i (value id) in
      let b' : Batch A = record b {
        reader = record b.reader { io_buffer_pool = bs };
        output = out;
        success_count = b.success_count + 1;
      } in
      let l : length out ≡ length b.output = length-set b.output i (value id) in
      let y =
        fetch_all-Filled ids (suc i) b'
          (record {
            ready = record {
              opened = x.ready.opened;
              nodes = x.ready.nodes;
              covers = x.ready.covers;
              cache = x.ready.cache;
            };
            bare = x.bare;
            degree = x.degree;
            nodes = x.nodes;
          })
          a.1 (omega (arith, h, l)) in
      subst
        (λ t.
          Filled i (id ∷ ids) b.output b.success_count
            (fetch_all parse initial pread (some spare) now fresh (numbered (suc i) ids) t))
        (sym e)
        (record {
          same_length = y.same_length ∙ l;
          before = λ j k.
              y.before j (omega (arith, k))
              ∙ get_elem?-set_ne b.output (value id) (omega (arith, k));
          right = λ j d at. placed j d at _ y l;
          counted = omega (arith, y.counted);
        })
    where
      same_node : {d : ℕ} → some id ≡ some d → id ≡ d
      same_node e = cc

      placed :
          (j d : ℕ)
          → get_elem? (id ∷ ids) j ≡ some d
          → (c : Batch A) → Filled (suc i) ids (set b.output i (value id)) (b.success_count + 1) c
          → length (set b.output i (value id)) ≡ length b.output
          → get_elem? c.output (i + j) ≡ some (value d)
      placed zero d at c y l =
          let here = get_elem?-set_self b.output i (value id) (omega (arith, h)) in
          let at_end : i ≡ i + 0 = omega arith in
          subst (λ k. get_elem? c.output k ≡ some (value d)) at_end
            (y.before i (omega arith) ∙ here ∙ ap (λ k. some (value k)) (same_node at))
      placed (suc j) d at c y l =
          let next : suc i + j ≡ i + suc j = omega arith in
          subst (λ k. get_elem? c.output k ≡ some (value d)) next (y.right j d at)

  read_batch-Answers :
      (ids : List ℕ) (output : List A) (r : Reader)
      → IsBare r
      → All (λ (x : ℕ). x < n) ids
      → Answers value ids (read_batch parse initial pread (some spare) now fresh ids output r)
  unfolding read_batch
  read_batch-Answers ids output r x a =
      let start : Batch A = record {
        reader = r;
        output = resize initial (length ids) output;
        misses = [];
        success_count = 0;
      } in
      let l : length start.output ≡ length ids = length-resize initial (length ids) output in
      let probed = probe_all-numbered ids 0 start x.bare in
      let y =
        fetch_all-Filled ids 0 (record start { misses = numbered 0 ids }) x a (omega (arith, l)) in
      let z =
        subst
          (λ t.
            Filled 0 ids start.output 0
              (fetch_all parse initial pread (some spare) now fresh t.misses t))
          (sym probed) y in
      subst
        (λ t. Answers value ids (
          if t
          then fetch_all parse initial pread (some spare) now fresh
              (probe_all parse initial now 0 ids start).misses
              (probe_all parse initial now 0 ids start)
          else probe_all parse initial now 0 ids start))
        (sym x.ready.opened)
        (record {
          count = z.same_length ∙ l;
          places = λ i id e.
              let at : 0 + i ≡ i = omega arith in
              subst
                (λ j.
                  get_elem?
                    (fetch_all parse initial pread (some spare) now fresh
                      (probe_all parse initial now 0 ids start).misses
                      (probe_all parse initial now 0 ids start)).output
                    j
                  ≡ some (value id))
                at (z.right i id e);
          served =
              z.counted ∙ (let none_yet : 0 + length ids ≡ length ids = omega arith in none_yet);
        })

module _ (file : Bytes) (pread : ℕ → ℕ → Bytes) (delivers : Delivers file pread) (r : Reader)
    (ready : IsReady file r) (bare : r.buffer_pool_mgr ≡ none) (ids : List ℕ)
    (known : All (λ (y : ℕ). y < r.num_vectors) ids) (spare : Bytes) (now : ℕ) (fresh : Bytes) where
  -- An open reader without a cache, whose file has a record for each node and comes whole from the
  -- system's `pread`, with memory for a buffer, reads a batch of nodes of the index whose records
  -- parse to given values: read_records_batch counts every one of them as read, its output has one
  -- place for each, and each place holds the value of its node. The same holds of
  -- read_vectors_batch and the vectors.
  pub read_records_batch-Answers :
      (value : ℕ → DiskNodeRecord)
      → ((id : ℕ) (rest : Bytes)
          → id < r.num_vectors
          → parse_record r.max_degree (record_at file id ++ rest) ≡ some (value id))
      → (records : List (Option DiskNodeRecord)) (vectors : List (Option Vector))
      → Answers
          (λ id. some (value id))
          ids
          (read_records_batch pread (some spare) now fresh ids records r)
        × Answers
            (λ id. some (value id).vector_data)
            ids
            (read_vectors_batch pread (some spare) now fresh ids vectors r)
  unfolding read_records_batch read_vectors_batch
  read_records_batch-Answers value parses records vectors = (
    read_batch-Answers parse_record none file r.max_degree r.num_vectors (λ id. some (value id))
        parses pread delivers spare now fresh ids records r
        (record { ready = ready; bare = bare; degree = refl; nodes = refl }) known,
    read_batch-Answers (λ m b. vector_of_record (parse_record m b)) (some []) file r.max_degree
        r.num_vectors (λ id. some (value id).vector_data)
        (λ id rest h. ap vector_of_record (parses id rest h)) pread delivers spare now fresh ids
        vectors r (record { ready = ready; bare = bare; degree = refl; nodes = refl }) known,
  )
