-- ===== src/Disk/Reader/Pinned/Distance.antt =====
-- What a distance that is computed in a pinned page is the distance to.
use agent_mem_io.Prelude.{
  ℕ, ◌%◌, ◌^◌, ◌<◌, ◌≡◌, ◌⊎◌, refl, sym, ◌∙◌, subst, Option, none, some, [], ◌∷◌, ◌++◌, length,
  drop, lookup, arith, inl, inr, Option-cases,
}
use agent_mem_io.Prelude.Bytes.{Bytes}
use agent_mem_io.Lsm.Entry.{Vector}
use agent_mem_io.Buffer.Pool.{Pool}
use agent_mem_io.Buffer.Pool.Valid.{IsValid}
use agent_mem_io.Buffer.Pool.Steps.{put_frame-IsSound}
use agent_mem_io.Buffer.Pool.Cache.{Serves, get_or_load_and_pin_page-Serves}
use agent_mem_io.Buffer.Pool.Methods.{get_and_pin_page, get_or_load_and_pin_page, unpin_page}
use agent_mem_io.Disk.Record.{disk_record_size, default_dimension, DiskNodeRecord, parse_record}
use agent_mem_io.Disk.Record.Fields.{take_all}
use agent_mem_io.Disk.Record.Parse.{parse_record-words, length-read_vector_words}
use agent_mem_io.Disk.Writer.File.{record_at}
use agent_mem_io.Disk.Reader.{Reader, put_pool}
use agent_mem_io.Disk.Reader.Reads.{
  Holds, Delivers, IsReady, delivered, put_pool-IsReady, named, read_record-Reads,
}
use agent_mem_io.Disk.Reader.Pinned.{
  page_func, distance_in_page, distance_of_vector, distance_by_vector, distance_pinned,
  distance_loaded, compute_distance_direct,
}

unpin_page-IsValid :
    (Ok : ℕ → Bytes → Type 0) (page : ℕ) (s : Pool)
    → IsValid Ok s
    → IsValid Ok (unpin_page page s).1
unfolding unpin_page
unpin_page-IsValid Ok page s v = elim (Option-cases (lookup page s.page_table)) [
  | inl e ↦ rw (e, unpin_page) v
  | inr (i, e) ↦ rw (e, unpin_page) (put_frame-IsSound Ok s.free_frames s i _ refl refl refl v)
]

module _ (now page : ℕ) (s : Pool) where
  get_and_pin_page_miss : lookup page s.page_table ≡ none → get_and_pin_page now page s ≡ (none, s)
  unfolding get_and_pin_page
  get_and_pin_page_miss e = rw (e, get_and_pin_page) refl

  -- A cached page is pinned by the two methods in the same way.
  get_and_pin_page_hit :
      (i : ℕ) (fresh : Bytes) (load : Bytes → ℕ → Bytes)
      → lookup page s.page_table ≡ some i
      → get_and_pin_page now page s ≡ get_or_load_and_pin_page now page page fresh load s
  unfolding get_and_pin_page get_or_load_and_pin_page
  get_and_pin_page_hit i fresh load e = rw (e, get_and_pin_page, get_or_load_and_pin_page) refl

  get_or_load_and_pin_page_found :
      (i : ℕ) (fresh : Bytes) (load : Bytes → ℕ → Bytes)
      → lookup page s.page_table ≡ some i
      → (get_or_load_and_pin_page now page page fresh load s).0 ≡ (s.frames i).bytes
  unfolding get_or_load_and_pin_page
  get_or_load_and_pin_page_found i fresh load e = rw (e, get_or_load_and_pin_page) refl

module _ (file : Bytes) (pread : ℕ → ℕ → Bytes) (delivers : Delivers file pread) (r : Reader)
    (ready : IsReady file r) (id : ℕ) (inside : id < r.num_vectors) (d : DiskNodeRecord)
    (parses : (rest : Bytes) → parse_record r.max_degree (record_at file id ++ rest) ≡ some d)
    {D : Type 0} (l2_distance_sq : Vector → Vector → D) (failed : D) (query : Vector)
    (dim : length query ≡ default_dimension) where
  page_func-Holds : (buffer : Bytes) → Holds file id (page_func pread r buffer id)
  unfolding page_func
  page_func-Holds buffer =
      let small : id % 2 ^ 32 ≡ id = omega (arith, inside, ready.nodes) in
      let (e, l) = delivered file pread delivers r ready id inside in
      (drop disk_record_size buffer, rw (ready.opened, small, e, l) refl)

  distance_in_page_lem :
      (b : Bytes)
      → Holds file id b
      → distance_in_page l2_distance_sq query b ≡ some (l2_distance_sq query d.vector_data)
  unfolding distance_in_page
  distance_in_page_lem b h =
      let p : parse_record r.max_degree b ≡ some d = rw h.1 (parses h.0) in
      let (rest, e) = parse_record-words r.max_degree b d p in rw (distance_in_page, dim, e) refl

  -- The vector of the record has the dimension of the index.
  dimension_of : length d.vector_data ≡ default_dimension
  dimension_of =
      let (rest, e) = parse_record-words r.max_degree (record_at file id ++ []) d (parses []) in
      length-read_vector_words default_dimension _ d.vector_data rest e

  distance_of_vector_lem :
      distance_of_vector l2_distance_sq failed query (some d.vector_data)
      ≡ some (l2_distance_sq query d.vector_data)
  unfolding distance_of_vector
  distance_of_vector_lem = by_words d.vector_data (dimension_of)
    where
      by_words :
          (v : Vector)
          → length v ≡ default_dimension
          → distance_of_vector l2_distance_sq failed query (some v) ≡ some (l2_distance_sq query v)
      by_words [] e = absurd (omega (arith, e))
      by_words (w ∷ ws) e =
          let l : length query ≡ length (w ∷ ws) = dim ∙ sym e in
          ground (arith, l, take_all (length query) (w ∷ ws) (sym l))

  distance_by_vector-Reads :
      (spare : Bytes) (now : ℕ) (fresh : Bytes)
      → ((distance_by_vector pread l2_distance_sq failed (some spare) now fresh id query r).0
          ≡ some (l2_distance_sq query d.vector_data))
        × IsReady file
            (distance_by_vector pread l2_distance_sq failed (some spare) now fresh id query r).1
  unfolding distance_by_vector
  distance_by_vector-Reads spare now fresh =
      let (a, v, b, c) =
        read_record-Reads file pread delivers r ready id inside d parses spare now fresh in
      (rw v distance_of_vector_lem, c)

  -- After a call that hands out a page of a valid pool.
  distance_pinned-Reads :
      (b : Bytes) (s : Pool) (next : Option D × Reader)
      → IsValid (Holds file) s
      → Holds file id b
      → let t = distance_pinned l2_distance_sq id query (some b) s r next in
        (t.0 ≡ some (l2_distance_sq query d.vector_data)) × IsReady file t.1
  unfolding distance_pinned
  distance_pinned-Reads b s next v h = (
    distance_in_page_lem b h,
    put_pool-IsReady file pread delivers r ready id inside (unpin_page id s).1
        (unpin_page-IsValid (Holds file) id s v),
  )

-- A distance from an open reader with a valid cache or none, and memory for a buffer.
module _ (file : Bytes) (pread : ℕ → ℕ → Bytes) (delivers : Delivers file pread) (r : Reader)
    (ready : IsReady file r) (id : ℕ) (inside : id < r.num_vectors) (d : DiskNodeRecord)
    (parses : (rest : Bytes) → parse_record r.max_degree (record_at file id ++ rest) ≡ some d)
    {D : Type 0} (l2_distance_sq : Vector → Vector → D) (failed : D) (query : Vector)
    (dim : length query ≡ default_dimension) (spare : Bytes) (now : ℕ) (fresh : Bytes) where
  abbrev Measures : Option D × Reader → Type 0
  Measures t = (t.0 ≡ some (l2_distance_sq query d.vector_data)) × IsReady file t.1

  by_answer :
      (t : Pool) (found : Option Bytes)
      → IsValid (Holds file) t
      → (found ≡ none) ⊎ ((b : Bytes) × (found ≡ some b) × Holds file id b)
      → Measures (
          distance_pinned l2_distance_sq id query found t r (
            distance_by_vector pread l2_distance_sq failed
              (some spare)
              now
              fresh
              id
              query
              (put_pool t r)))
  unfolding distance_pinned
  by_answer t found v answer = elim answer [
    | inl e ↦
        let ready' = put_pool-IsReady file pread delivers r ready id inside t v in
        rw e (
          distance_by_vector-Reads file pread delivers (put_pool t r) ready' id inside d parses
            l2_distance_sq failed query dim spare now fresh)
    | inr (b, e, h) ↦ rw e (
        distance_pinned-Reads file pread delivers r ready id inside d parses l2_distance_sq failed
          query dim b t
          (distance_by_vector pread l2_distance_sq failed (some spare) now fresh id query
            (put_pool t r))
          v h)
  ]

  module _ (s : Pool) (cached : r.buffer_pool_mgr ≡ some s) where
    loaded-Serves :
        Serves
          (Holds file)
          id
          s
          (get_or_load_and_pin_page now id id fresh (page_func pread r) s).0
          (get_or_load_and_pin_page now id id fresh (page_func pread r) s).1
    loaded-Serves =
        get_or_load_and_pin_page-Serves (Holds file) now id id fresh (page_func pread r) s
          (ready.cache s cached) (named file pread delivers r ready id inside)
          (page_func-Holds file pread delivers r ready id inside d parses l2_distance_sq failed
            query dim)

    distance_loaded-Measures :
        Measures (distance_loaded pread l2_distance_sq failed (some spare) now fresh id query s r)
    unfolding distance_loaded
    distance_loaded-Measures =
        let x = loaded-Serves in
        by_answer _ _ x.valid
          (elim x.answer [ inl e ↦ inl e | inr (b, i, e, h, at, there) ↦ inr (b, e, h) ])

    -- The path through a cached page is that of a page that is loaded.
    hit-Measures :
        (i : ℕ) (next : Option D × Reader)
        → lookup id s.page_table ≡ some i
        → let t = get_and_pin_page now id s in
          Measures (distance_pinned l2_distance_sq id query t.0 t.1 r next)
    hit-Measures i next e =
        let x = loaded-Serves in
        let (b, at, ok) = ((ready.cache s cached).entry id i e).loaded in
        let handed : (get_or_load_and_pin_page now id id fresh (page_func pread r) s).0 ≡ some b =
          get_or_load_and_pin_page_found now id s i fresh (page_func pread r) e ∙ at in
        subst (λ t. Measures (distance_pinned l2_distance_sq id query t.0 t.1 r next))
          (sym (get_and_pin_page_hit now id s i fresh (page_func pread r) e))
          (rw handed (
            distance_pinned-Reads file pread delivers r ready id inside d parses l2_distance_sq
              failed query dim b _ next x.valid ok))
    -- An open reader whose file has a record for each node, and whose cache, if it has one, is
    -- valid with pages that start with their records: for a node whose record parses to `d`, and a
    -- query of 128 words, compute_distance_direct gives the distance from the query to the vector
    -- of `d`, whether the page was cached, was loaded, or found no frame, and leaves such a reader.
    -- The system's `pread` delivers what it is asked for inside the file, and there must be memory
    -- for a buffer.

  -- An open reader whose file has a record for each node, and whose cache, if it has one, is valid
  -- with pages that start with their records: for a node whose record parses to `d`, and a query
  -- of 128 words, compute_distance_direct gives the distance from the query to the vector of `d`,
  -- whether the page was cached, was loaded, or found no frame, and leaves such a reader. The
  -- system's `pread` delivers what it is asked for inside the file, and there must be memory for a
  -- buffer.
  pub compute_distance_direct-Measures :
      Measures
        (compute_distance_direct pread l2_distance_sq failed (some spare) now fresh id query r)
  unfolding compute_distance_direct distance_pinned
  compute_distance_direct-Measures = elim (Option-cases r.buffer_pool_mgr) [
    | inl e ↦
        rw (e, compute_distance_direct)
          (distance_by_vector-Reads file pread delivers r ready id inside d parses l2_distance_sq
            failed query dim spare now fresh)
    | inr (s, e) ↦ elim (Option-cases (lookup id s.page_table)) [
      | inl miss ↦
          rw (e, compute_distance_direct, get_and_pin_page_miss now id s miss, distance_pinned)
            (distance_loaded-Measures s e)
      | inr (i, hit) ↦ rw (e, compute_distance_direct) (hit-Measures s e i _ hit)
    ]
  ]
