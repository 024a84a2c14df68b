-- ===== src/Disk/Reader/Reads.antt =====
-- What the reads of one record give back, with the cache and without.
use agent_mem_io.Prelude.{
  ℕ, ◌+◌, ◌*◌, ◌%◌, ◌^◌, ◌<◌, ◌≤◌, ◌≡◌, ◌≢◌, ◌⊎◌, refl, sym, ◌∙◌, subst, ap, true, false, Option,
  none, some, List, ◌++◌, length, take, drop, length-take, length-drop, leb, arith, inl, inr,
  Option-cases, List-cases,
}
use agent_mem_io.Prelude.Bytes.{Bytes}
use agent_mem_io.Buffer.Policy.{invalid_page_id}
use agent_mem_io.Buffer.Pool.{Pool, get_or_load_page}
use agent_mem_io.Buffer.Pool.Valid.{IsValid}
use agent_mem_io.Buffer.Pool.Cache.{Serves, get_or_load_page-Serves}
use agent_mem_io.Disk.Record.{disk_record_size, DiskNodeRecord, parse_record}
use agent_mem_io.Disk.Writer.File.{record_at}
use agent_mem_io.Disk.Reader.{
  Reader, calculate_offset, put_pool, vector_of_record, borrow_buffer, return_buffer, read_node,
  record_through, vector_through, record_found, vector_found, load_func, read_record_direct,
  read_vector_direct, read_record, read_vector,
}

-- The bytes of a page start with those of the file's record of the same number.
abbrev pub Holds : Bytes → ℕ → Bytes → Type 0
Holds file page b = (rest : Bytes) × (b ≡ record_at file page ++ rest)

-- An open reader of a file that has a record for each node, with a valid cache of it if any.
pub record IsReady (file : Bytes) (r : Reader) : Type 0 where
  pub opened : r.is_open ≡ true
  pub nodes : r.num_vectors ≤ 2 ^ 32
  pub covers : r.num_vectors * disk_record_size ≤ length file
  pub cache : (s : Pool) → r.buffer_pool_mgr ≡ some s → IsValid (Holds file) s

-- What the system's `pread` delivers inside the file.
abbrev pub Delivers : Bytes → (ℕ → ℕ → Bytes) → Type 0
Delivers file pread = (off n : ℕ) → off + n ≤ length file → pread off n ≡ take n (drop off file)

module _ (file : Bytes) (pread : ℕ → ℕ → Bytes) (delivers : Delivers file pread) (r : Reader)
    (ready : IsReady file r) (id : ℕ) (inside : id < r.num_vectors) where
  pub delivered :
      (pread (calculate_offset id) disk_record_size ≡ record_at file id)
      × (length (record_at file id) ≡ disk_record_size)
  unfolding calculate_offset record_at
  delivered =
      let at : (id * disk_record_size) % 2 ^ 64 ≡ id * disk_record_size =
        omega (arith, inside, ready.nodes) in
      let end : id * disk_record_size + disk_record_size ≤ length file =
        omega (arith, inside, ready.covers) in
      (
        rw at (delivers (id * disk_record_size) disk_record_size end),
        omega (
          arith,
          length-take disk_record_size (drop (id * disk_record_size) file),
          length-drop (id * disk_record_size) file,
          end,
        ),
      )

  pub read_node_lem :
      (buffer : Bytes)
      → read_node pread r id buffer ≡ (true, record_at file id ++ drop disk_record_size buffer)
  unfolding read_node
  read_node_lem buffer =
      let (e, l) = delivered in
      let within : leb r.num_vectors id ≡ false = ground (arith, inside) in
      rw (ready.opened, within, e, l) refl

  pub load_func-Holds : (buffer : Bytes) → Holds file id (load_func pread r buffer id)
  load_func-Holds buffer =
      let small : id % 2 ^ 32 ≡ id = omega (arith, inside, ready.nodes) in
      (
        drop disk_record_size buffer,
        ap (λ k. (read_node pread r k buffer).1) small ∙ ap (λ t. t.1) (read_node_lem buffer),
      )

  -- A reader that differs in its spare buffers only.
  pub buffers-IsReady : (bs : List Bytes) → IsReady file (record r { io_buffer_pool = bs })
  buffers-IsReady bs = record {
    opened = ready.opened;
    nodes = ready.nodes;
    covers = ready.covers;
    cache = ready.cache;
  }

  -- There is always a buffer to borrow when the allocator gives one.
  pub borrow_buffer_lem :
      (spare : Bytes)
      → (b : Bytes) × (bs : List Bytes) × (borrow_buffer (some spare) r
          ≡ (some b, record r { io_buffer_pool = bs }))
  unfolding borrow_buffer
  borrow_buffer_lem spare = elim (List-cases r.io_buffer_pool) [
    | inl e ↦ (spare, r.io_buffer_pool, rw e refl)
    | inr (b, bs, e) ↦ (b, bs, rw e refl)
  ]

  -- A reader with another valid pool.
  pub put_pool-IsReady : (s : Pool) → IsValid (Holds file) s → IsReady file (put_pool s r)
  put_pool-IsReady s v = record {
    opened = ready.opened;
    nodes = ready.nodes;
    covers = ready.covers;
    cache = λ t e. subst (IsValid (Holds file)) (some_injective e) v;
  }
    where
      some_injective : {a b : Pool} → some a ≡ some b → a ≡ b
      some_injective e = cc

  pub named : id ≢ invalid_page_id
  named = omega (arith, inside, ready.nodes)

  module _ (d : DiskNodeRecord)
      (parses : (rest : Bytes) → parse_record r.max_degree (record_at file id ++ rest) ≡ some d)
      (spare : Bytes) where
    read_record_direct-Reads :
        ((read_record_direct pread (some spare) id r).0 ≡ some d)
        × IsReady file (read_record_direct pread (some spare) id r).1
    unfolding read_record_direct return_buffer record_through
    read_record_direct-Reads =
        let (b, bs, e) = borrow_buffer_lem spare in
        subst
          (λ t.
            ((record_through pread id r t).0 ≡ some d)
            × IsReady file (record_through pread id r t).1)
          (sym e) (rw (read_node_lem b) (parses (drop disk_record_size b)), buffers-IsReady _)

    read_vector_direct-Reads :
        ((read_vector_direct pread (some spare) id r).0 ≡ some d.vector_data)
        × IsReady file (read_vector_direct pread (some spare) id r).1
    unfolding read_vector_direct return_buffer vector_through
    read_vector_direct-Reads =
        let (b, bs, e) = borrow_buffer_lem spare in
        subst
          (λ t.
            ((vector_through pread id r t).0 ≡ some d.vector_data)
            × IsReady file (vector_through pread id r t).1)
          (sym e)
          (
            rw (read_node_lem b) (ap vector_of_record (parses (drop disk_record_size b))),
            buffers-IsReady _,
          )

-- A read of one node of an open file through a valid cache or none, with memory for a buffer.
module _ (file : Bytes) (pread : ℕ → ℕ → Bytes) (delivers : Delivers file pread) (r : Reader)
    (ready : IsReady file r) (id : ℕ) (inside : id < r.num_vectors) (d : DiskNodeRecord)
    (parses : (rest : Bytes) → parse_record r.max_degree (record_at file id ++ rest) ≡ some d)
    (spare : Bytes) (now : ℕ) (fresh : Bytes) where
  found-Reads :
      (s : Pool) (found : Option Bytes)
      → IsValid (Holds file) s
      → (found ≡ none) ⊎ ((b : Bytes) × (found ≡ some b) × Holds file id b)
      → ((record_found pread (some spare) id found (put_pool s r)).0 ≡ some d)
        × ((vector_found pread (some spare) id found (put_pool s r)).0 ≡ some d.vector_data)
        × IsReady file (record_found pread (some spare) id found (put_pool s r)).1
        × IsReady file (vector_found pread (some spare) id found (put_pool s r)).1
  unfolding record_found vector_found
  found-Reads s found v answer =
      let ready' = put_pool-IsReady file pread delivers r ready id inside s v in
      elim answer [
        | inl e ↦
            let x =
              read_record_direct-Reads file pread delivers (put_pool s r) ready' id inside d parses
                spare in
            let y =
              read_vector_direct-Reads file pread delivers (put_pool s r) ready' id inside d parses
                spare in
            rw (e, record_found, vector_found) (x.0, y.0, x.1, y.1)
        | inr (b, e, h) ↦
            let p : parse_record r.max_degree b ≡ some d = rw h.1 (parses h.0) in
            rw (e, record_found, vector_found) (p, ap vector_of_record p, ready', ready')
      ]

  served :
      (s : Pool)
      → r.buffer_pool_mgr ≡ some s
      → Serves
          (Holds file)
          id
          s
          (get_or_load_page now id id fresh (load_func pread r) s).0
          (get_or_load_page now id id fresh (load_func pread r) s).1
  served s e =
      get_or_load_page-Serves (Holds file) now id id fresh (load_func pread r) s (ready.cache s e)
        (named file pread delivers r ready id inside)
        (load_func-Holds file pread delivers r ready id inside)

  answer_of :
      {s t : Pool} {found : Option Bytes}
      → Serves (Holds file) id s found t
      → (found ≡ none) ⊎ ((b : Bytes) × (found ≡ some b) × Holds file id b)
  answer_of x = elim x.answer [ inl e ↦ inl e | inr (b, i, e, h, at, loaded) ↦ inr (b, e, h) ]
      -- An open reader whose file has a record for each node, and whose cache, if it has one, is
      -- valid with pages that start with their records: a read of a node whose record parses to `d`
      -- gives `d` from read_record and its vector from read_vector, whether the page was cached, was
      -- loaded, or found no frame, and leaves such a reader. The system's `pread` delivers what it is
      -- asked for inside the file, and there must be memory for a buffer.

  -- An open reader whose file has a record for each node, and whose cache, if it has one, is valid
  -- with pages that start with their records: a read of a node whose record parses to `d` gives
  -- `d` from read_record and its vector from read_vector, whether the page was cached, was loaded,
  -- or found no frame, and leaves such a reader. The system's `pread` delivers what it is asked
  -- for inside the file, and there must be memory for a buffer.
  pub read_record-Reads :
      ((read_record pread (some spare) now fresh id r).0 ≡ some d)
      × ((read_vector pread (some spare) now fresh id r).0 ≡ some d.vector_data)
      × IsReady file (read_record pread (some spare) now fresh id r).1
      × IsReady file (read_vector pread (some spare) now fresh id r).1
  unfolding read_record read_vector
  read_record-Reads = elim (Option-cases r.buffer_pool_mgr) [
    | inl e ↦
        let x = read_record_direct-Reads file pread delivers r ready id inside d parses spare in
        let y = read_vector_direct-Reads file pread delivers r ready id inside d parses spare in
        rw (e, read_record, read_vector) (x.0, y.0, x.1, y.1)
    | inr (s, e) ↦
        let x = served s e in
        rw (e, read_record, read_vector) (found-Reads _ _ x.valid (answer_of x))
  ]
