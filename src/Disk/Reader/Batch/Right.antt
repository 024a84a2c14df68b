-- ===== src/Disk/Reader/Batch/Right.antt =====
-- What the batched reads put out.
use agent_mem_io.Prelude.{
  ℕ, suc, ◌+◌, ◌<◌, ◌≡◌, ◌≢◌, ◌⊎◌, refl, sym, ◌∙◌, subst, ap, true, Option, none, some, List, [],
  ◌∷◌, ◌++◌, length, get_elem?, set, drop, All, lookup, ◌==◌, arith, inl, inr, Bool-cases,
  Option-cases, get_elem?-set_self, get_elem?-set_ne, length-set,
}
use agent_mem_io.Prelude.Bytes.{Bytes}
use agent_mem_io.Buffer.Pool.{Pool, get_page, get_or_load_page}
use agent_mem_io.Buffer.Pool.Valid.{IsValid}
use agent_mem_io.Buffer.Pool.Cache.{Serves, get_or_load_page-Serves}
use agent_mem_io.Buffer.Pool.Methods.{contains}
use agent_mem_io.Disk.Record.{disk_record_size}
use agent_mem_io.Disk.Writer.File.{record_at}
use agent_mem_io.Disk.Reader.{put_pool, return_buffer, borrow_buffer, load_func}
use agent_mem_io.Disk.Reader.Reads.{
  Holds, Delivers, IsReady, put_pool-IsReady, named, load_func-Holds, read_node_lem,
  borrow_buffer_lem, buffers-IsReady,
}
use agent_mem_io.Disk.Reader.Batch.{
  Batch, serve, miss, probe_page, probe, probe_all, fetch_direct, fetch_page, fetch, fetch_all,
}

-- Each place of the output is as it was, or holds the value of the node of this place.
abbrev pub Right : {A : Type 0} → (ℕ → A) → List ℕ → List A → List A → Type 0
Right value ids old out =
    (length out ≡ length old)
    × ((i : ℕ)
        → (get_elem? out i ≡ get_elem? old i)
          ⊎ ((id : ℕ) × (get_elem? ids i ≡ some id) × (get_elem? out i ≡ some (value id))))

module _ {A : Type 0} (parse : ℕ → Bytes → A) (initial : A) (file : Bytes) (max_degree n : ℕ)
    (value : ℕ → A)
    (parses : (id : ℕ) (rest : Bytes)
      → id < n
      → parse max_degree (record_at file id ++ rest) ≡ value id)
    (ids : List ℕ) (old : List A) where
  pub record IsBatch (b : Batch A) : Type 0 where
    pub ready : IsReady file b.reader
    pub degree : b.reader.max_degree ≡ max_degree
    pub nodes : b.reader.num_vectors ≡ n
    pub right : Right value ids old b.output
    pub pending : All (λ m. get_elem? ids m.0 ≡ some m.1) b.misses

  serve-IsBatch :
      (i id : ℕ) (page : Bytes) (b : Batch A)
      → IsBatch b
      → id < n
      → i < length old
      → get_elem? ids i ≡ some id
      → Holds file id page
      → IsBatch (serve parse initial i page b)
  unfolding serve
  serve-IsBatch i id page b x inside place at h = record {
    ready = x.ready;
    degree = x.degree;
    nodes = x.nodes;
    right = (
      length-set b.output i _ ∙ x.right.0,
      λ j. elim (Bool-cases (i == j)) [
        | inl e ↦
            let same : i ≡ j = ground (arith, e) in
            let good : parse b.reader.max_degree page ≡ value id =
              rw (x.degree, h.1) (parses id h.0 inside) in
            subst
              (λ k.
                (get_elem? (set b.output i (parse b.reader.max_degree page)) k ≡ get_elem? old k)
                ⊎ ((d : ℕ) × (get_elem? ids k ≡ some d)
                    × (get_elem? (set b.output i (parse b.reader.max_degree page)) k
                        ≡ some (value d))))
              same
              (inr (
                id,
                at,
                get_elem?-set_self b.output i _ (omega (arith, x.right.0, place)) ∙ ap some good,
              ))
        | inr e ↦
            let apart : i ≢ j = ground (arith, e) in
            rw (get_elem?-set_ne b.output (parse b.reader.max_degree page) apart) (x.right.1 j)
      ],
    );
    pending = x.pending;
  }

  miss-IsBatch :
      (i id : ℕ) (b : Batch A)
      → IsBatch b
      → get_elem? ids i ≡ some id
      → IsBatch (miss parse initial i id b)
  unfolding miss
  miss-IsBatch i id b x at = record {
    ready = x.ready;
    degree = x.degree;
    nodes = x.nodes;
    right = x.right;
    pending = All-snoc b.misses x.pending;
  }
    where
      All-snoc :
          (ms : List (ℕ × ℕ))
          → All (λ m. get_elem? ids m.0 ≡ some m.1) ms
          → All (λ m. get_elem? ids m.0 ≡ some m.1) (ms ++ (i, id) ∷ [])
      All-snoc [] a = (at, tt)
      All-snoc (m ∷ ms) a = (a.0, All-snoc ms a.1)

  module _ (pread : ℕ → ℕ → Bytes) (delivers : Delivers file pread)
      (placed : (i id : ℕ) → get_elem? ids i ≡ some id → (id < n) × (i < length old)) (now : ℕ)
      (fresh : Bytes) where
    module _ (i id : ℕ) (at : get_elem? ids i ≡ some id) (b : Batch A) (x : IsBatch b) where
      inside : id < b.reader.num_vectors
      inside = rw x.nodes ((placed i id at).0)

      pool-IsBatch :
          (s : Pool) → IsValid (Holds file) s → IsBatch (record b { reader = put_pool s b.reader })
      pool-IsBatch s v = record {
        ready = put_pool-IsReady file pread delivers b.reader x.ready id inside s v;
        degree = x.degree;
        nodes = x.nodes;
        right = x.right;
        pending = x.pending;
      }

      loaded-Serves :
          (s : Pool)
          → b.reader.buffer_pool_mgr ≡ some s
          → Serves
              (Holds file)
              id
              s
              (get_or_load_page now id id fresh (load_func pread b.reader) s).0
              (get_or_load_page now id id fresh (load_func pread b.reader) s).1
      loaded-Serves s e =
          get_or_load_page-Serves (Holds file) now id id fresh (load_func pread b.reader) s
            (x.ready.cache s e) (named file pread delivers b.reader x.ready id inside)
            (load_func-Holds file pread delivers b.reader x.ready id inside)

      answer_of :
          {s t : Pool} {found : Option Bytes}
          → Serves (Holds file) id s found t
          → (found ≡ none) ⊎ ((c : Bytes) × (found ≡ some c) × Holds file id c)
      answer_of y = elim y.answer [
        | inl e ↦ inl e
        | inr (c, j, e, h, there, loaded) ↦ inr (c, e, h)
      ]

      fetch_page-IsBatch :
          (t : Pool) (found : Option Bytes)
          → IsValid (Holds file) t
          → (found ≡ none) ⊎ ((c : Bytes) × (found ≡ some c) × Holds file id c)
          → IsBatch (fetch_page parse initial i found (record b { reader = put_pool t b.reader }))
            × IsBatch
                (probe_page parse initial i id found (record b { reader = put_pool t b.reader }))
      unfolding fetch_page probe_page
      fetch_page-IsBatch t found v answer =
          let y = pool-IsBatch t v in
          let b' : Batch A = record b { reader = put_pool t b.reader } in
          elim answer [
            | inl e ↦ rw e (y, miss-IsBatch i id b' y at)
            | inr (c, e, h) ↦
                let z = serve-IsBatch i id c b' y (placed i id at).0 (placed i id at).1 at h in
                rw e (z, z)
          ]

      page_held : (s : Pool) → contains id s ≡ true → (j : ℕ) × (lookup id s.page_table ≡ some j)
      unfolding contains
      page_held s c = elim (Option-cases (lookup id s.page_table)) [
        | inl e ↦ absurd (ground (arith, e, c))
        | inr (j, e) ↦ (j, e)
      ]

      -- A page that is cached is handed out by the two methods in the same way.
      get_page-get_or_load_page :
          (s : Pool)
          → b.reader.buffer_pool_mgr ≡ some s
          → contains id s ≡ true
          → get_page now id s ≡ get_or_load_page now id id fresh (load_func pread b.reader) s
      unfolding get_page get_or_load_page
      get_page-get_or_load_page s e c =
          let (j, known) = page_held s c in
          let (bytes, loaded, ok) = ((x.ready.cache s e).entry id j known).loaded in
          ground (arith, known, loaded)

      probe-IsBatch : IsBatch (probe parse initial now i id b)
      unfolding probe
      probe-IsBatch = elim (Option-cases b.reader.buffer_pool_mgr) [
        | inl e ↦ rw (e, probe) (miss-IsBatch i id b x at)
        | inr (s, e) ↦ elim (Bool-cases (contains id s)) [
          | inl c ↦
              let y = loaded-Serves s e in
              let done = (fetch_page-IsBatch _ _ y.valid (answer_of y)).1 in
              rw (e, probe, c)
                (subst
                  (λ t. IsBatch (
                    probe_page parse initial i id t.0
                      (record b { reader = put_pool t.1 b.reader })))
                  (sym (get_page-get_or_load_page s e c)) done)
          | inr c ↦ rw (e, probe, c) (miss-IsBatch i id b x at)
        ]
      ]

      buffers-IsBatch :
          (bs : List Bytes)
          → IsBatch (record b { reader = record b.reader { io_buffer_pool = bs } })
      buffers-IsBatch bs = record {
        ready = buffers-IsReady file pread delivers b.reader x.ready id inside bs;
        degree = x.degree;
        nodes = x.nodes;
        right = x.right;
        pending = x.pending;
      }

      direct-IsBatch :
          (spare : Bytes)
          → IsBatch (
              fetch_direct parse initial pread
                (some spare)
                now
                fresh
                i
                id
                (borrow_buffer (some spare) b.reader)
                b)
      unfolding fetch_direct return_buffer
      direct-IsBatch spare =
          let (c, bs, e) = borrow_buffer_lem file pread delivers b.reader x.ready id inside spare in
          let page = record_at file id ++ drop disk_record_size c in
          let y = buffers-IsBatch (page ∷ bs) in
          subst (λ t. IsBatch (fetch_direct parse initial pread (some spare) now fresh i id t b))
            (sym e)
            (rw (read_node_lem file pread delivers b.reader x.ready id inside c) (
              serve-IsBatch i id page
                (record b { reader = record b.reader { io_buffer_pool = page ∷ bs } }) y
                (placed i id at).0 (placed i id at).1 at (drop disk_record_size c, refl)))

      fetch-IsBatch :
          (spare : Bytes) → IsBatch (fetch parse initial pread (some spare) now fresh i id b)
      unfolding fetch
      fetch-IsBatch spare = elim (Option-cases b.reader.buffer_pool_mgr) [
        | inl e ↦ rw (e, fetch) (direct-IsBatch spare)
        | inr (s, e) ↦
            let y = loaded-Serves s e in
            rw (e, fetch) (fetch_page-IsBatch _ _ y.valid (answer_of y)).0
      ]

    pub probe_all-IsBatch :
        (i : ℕ) (later : List ℕ) (b : Batch A)
        → ((k id : ℕ) → get_elem? later k ≡ some id → get_elem? ids (i + k) ≡ some id)
        → IsBatch b
        → IsBatch (probe_all parse initial now i later b)
    unfolding probe_all
    probe_all-IsBatch i [] b f x = x
    probe_all-IsBatch i (id ∷ later) b f x =
        let at : get_elem? ids i ≡ some id =
          subst (λ k. get_elem? ids k ≡ some id) (omega arith) (f 0 id refl) in
        probe_all-IsBatch (suc i) later (probe parse initial now i id b)
          (λ k d e. subst (λ j. get_elem? ids j ≡ some d) (omega arith) (f (suc k) d e))
          (probe-IsBatch i id at b x)

    pub fetch_all-IsBatch :
        (spare : Bytes) (ms : List (ℕ × ℕ)) (b : Batch A)
        → All (λ m. get_elem? ids m.0 ≡ some m.1) ms
        → IsBatch b
        → IsBatch (fetch_all parse initial pread (some spare) now fresh ms b)
    unfolding fetch_all
    fetch_all-IsBatch spare [] b a x = x
    fetch_all-IsBatch spare (m ∷ ms) b a x =
        fetch_all-IsBatch spare ms (fetch parse initial pread (some spare) now fresh m.0 m.1 b) a.1
          (fetch-IsBatch m.0 m.1 a.0 b x spare)
