-- ===== src/Engine/Prefetcher/Requests.antt =====
-- What a prefetch hands over to the ring, and what its completions leave of the pool.
use agent_mem_io.Prelude.{
  ℕ, zero, suc, ◌+◌, ◌-◌, ◌≤◌, ◌≡◌, refl, sym, subst, ap, ◌∙◌, Bool, true, false, Option, none,
  some, List, [], ◌∷◌, ◌++◌, map, length, take, drop, All, min, leb, lookup, if◌then◌else◌, arith,
  inl, inr, Bool-cases, Option-cases, length-take,
}
use agent_mem_io.Prelude.Bytes.{Bytes}
use agent_mem_io.Buffer.Pool.{Pool, get_page, bump64}
use agent_mem_io.Buffer.Pool.Methods.{contains}
use agent_mem_io.Graph.Nav.{Nav, get_neighbors}
use agent_mem_io.Engine.IoEngine.{IoRequest, IoCompletion, Ring, IoUring}
use agent_mem_io.Engine.IoEngine
use agent_mem_io.Engine.IoEngine.Batches.{
  IsQueue, IsPlain, submit_batch-Sends, wait_completion_batch-IsPlain,
}
use agent_mem_io.Engine.IoEngine.Facade.{Facade, submit_batch_read, wait_completion_batch}
use agent_mem_io.Engine.Prefetcher.{
  Prefetcher, look, request, looked, look_in, look_pool, collect, submit_requests,
  prefetch_neighbors, enter, store_in, store_completion, completed, wait_in, prefetch_list,
  prefetch_in, complete_all, wait_prefetch_completions, hit,
}

-- The neighbours that are not in the pool.
abbrev pub uncached : Pool → List ℕ → List ℕ
uncached s [] = []
uncached s (n ∷ ns) = if contains n s then uncached s ns else n ∷ uncached s ns

pub look_lem : (now n : ℕ) (s : Pool) → look now n s ≡ (contains n s, s)
unfolding look contains get_page
look_lem now n s = elim (Option-cases (lookup n s.page_table)) [
  | inl e ↦ rw (e, look, contains, get_page) refl
  | inr (i, e) ↦ rw (e, look, contains) refl
]

length-map : {A B : Type 0} (f : A → B) (xs : List A) → length (map f xs) ≡ length xs
length-map f [] = refl
length-map f (x ∷ xs) = ap suc (length-map f xs)

module _ (vector_fd : ℕ) (s : Pool) where
  abbrev pub wanted : ℕ → List ℕ → List IoRequest
  wanted room ns = map (request vector_fd) (take room (uncached s ns))

  wanted-cached :
      (room n : ℕ) (ns : List ℕ) → contains n s ≡ true → wanted room (n ∷ ns) ≡ wanted room ns
  wanted-cached room n ns e = rw e refl

  wanted-uncached :
      (room n : ℕ) (ns : List ℕ)
      → contains n s ≡ false
      → wanted (suc room) (n ∷ ns) ≡ request vector_fd n ∷ wanted room ns
  wanted-uncached room n ns e = rw e refl

module _ {K : Type 0} (now : ℕ) (malloc : ℕ → Bool) (vector_fd : ℕ)
    (memory : (n : ℕ) → malloc n ≡ true) (s : Pool) where
  -- What the loop gives, from a prefetcher with the pool `s`.
  pub record Collects (room : ℕ) (ns : List ℕ) (p : Prefetcher K)
      (c : List IoRequest × Prefetcher K) : Type 0 where
    pub requests : c.0 ≡ wanted vector_fd s room ns
    pub pool : c.1.buffer_pool ≡ some s
    pub engine : c.1.io_engine ≡ p.io_engine

  pub collect-Collects :
      (ns : List ℕ) (count : ℕ) (p : Prefetcher K)
      → p.buffer_pool ≡ some s
      → Collects (p.batch_size - count) ns p (collect now malloc vector_fd ns count p)
  unfolding collect look_pool
  collect-Collects [] count p e = record {
    requests = none_left (p.batch_size - count);
    pool = e;
    engine = refl;
  }
    where
      none_left : (room : ℕ) → [] ≡ map (request vector_fd) (take room [])
      none_left zero = refl
      none_left (suc room) = refl
  collect-Collects (n ∷ ns) count p e = elim (Bool-cases (leb p.batch_size count)) [
    | inl full ↦
        let room : p.batch_size - count ≡ 0 = ground (arith, full) in
        rw (full, collect) (record { requests = rw room refl; pool = e; engine = refl })
    | inr open_batch ↦
        let seen : look_pool now n p ≡ looked (contains n s, s) p =
          ap (λ o. look_in now o n p) e ∙ ap (λ (x : Bool × Pool). looked x p) (look_lem now n s) in
        elim (Bool-cases (contains n s)) [
          | inl cached ↦
              let rest = collect-Collects ns count (hit (record p { buffer_pool = some s })) refl in
              rw (open_batch, collect, seen, cached)
                (record {
                  requests =
                      rest.requests
                      ∙ sym (wanted-cached vector_fd s (p.batch_size - count) n ns cached);
                  pool = rest.pool;
                  engine = rest.engine;
                })
          | inr fresh ↦
              let q : Prefetcher K = record p {
                buffer_pool = some s;
                total_prefetches = bump64 p.total_prefetches;
              } in
              let rest = collect-Collects ns (suc count) q refl in
              let room : p.batch_size - count ≡ suc (p.batch_size - suc count) =
                ground (arith, open_batch) in
              rw (open_batch, collect, seen, fresh, memory n)
                (record {
                  requests =
                      ap (◌∷◌ (request vector_fd n)) rest.requests
                      ∙ sym (
                          rw room
                            (wanted-uncached vector_fd s (p.batch_size - suc count) n ns fresh));
                  pool = rest.pool;
                  engine = rest.engine;
                })
        ]
  ]

-- A prefetch through the ring.
module _ {K : Type 0} (liburing : Ring K) (depth : ℕ) (laws : IsQueue liburing depth)
    (transfers : IoRequest → Bool) (now : ℕ) (malloc : ℕ → Bool) (vector_fd : ℕ)
    (memory : (n : ℕ) → malloc n ≡ true) (s : Pool) (f : Facade K) (through : f.use_io_uring ≡ true)
    (idle : laws.queued f.io_uring_engine.ring ≡ []) where
  -- The requests were handed over, and no buffer is freed.
  pub record HandsOver (rs : List IoRequest) (t : List IoRequest × Prefetcher K) : Type 0 where
    pub freed : t.0 ≡ []
    pub pool : t.1.buffer_pool ≡ some s
    pub engine : Facade K
    pub engine_left : t.1.io_engine ≡ some engine
    pub sent : laws.sent engine.io_uring_engine.ring ≡ laws.sent f.io_uring_engine.ring ++ rs
    pub queued : laws.queued engine.io_uring_engine.ring ≡ []

  drop_all : {A : Type 0} (xs : List A) → drop (length xs) xs ≡ []
  drop_all [] = refl
  drop_all (x ∷ xs) = drop_all xs

  nothing_more : (xs : List IoRequest) → xs ++ [] ≡ xs
  nothing_more [] = refl
  nothing_more (x ∷ xs) = ap (◌∷◌ x) (nothing_more xs)

  submit_requests-HandsOver :
      (rs : List IoRequest) (p : Prefetcher K)
      → p.buffer_pool ≡ some s
      → p.io_engine ≡ some f
      → HandsOver rs (submit_requests liburing transfers f (rs, p))
  unfolding submit_batch_read
  submit_requests-HandsOver [] p e i = record {
    freed = refl;
    pool = e;
    engine = f;
    engine_left = i;
    sent = sym (nothing_more (laws.sent f.io_uring_engine.ring));
    queued = idle;
  }
  submit_requests-HandsOver (r ∷ rs) p e i =
      let (count, sent, clear) =
        submit_batch-Sends liburing depth laws (r ∷ rs) f.io_uring_engine idle in
      let ring : submit_batch_read liburing transfers (r ∷ rs) f ≡ (
        (IoEngine.submit_batch liburing (r ∷ rs) f.io_uring_engine).0,
        record f {
          io_uring_engine = (IoEngine.submit_batch liburing (r ∷ rs) f.io_uring_engine).1;
        },
      ) =
        rw (submit_batch_read, through) refl in
      rw (ring, count)
        (record {
          freed = drop_all rs;
          pool = e;
          engine = record f {
            io_uring_engine = (IoEngine.submit_batch liburing (r ∷ rs) f.io_uring_engine).1;
          };
          engine_left = refl;
          sent = sent;
          queued = clear;
        })

  -- A prefetcher with a ring that is free of queued requests and whose submissions succeed, and
  -- memory for the buffers: prefetch_neighbors of a node with the neighbours `ns` hands over one
  -- read of 512 bytes, at 4096 times the id modulo 2^64, for each of the first neighbours that are
  -- not in the pool, up to the batch size, in their order. It gives their number, frees no buffer,
  -- and leaves the pool as it was.
  pub prefetch_neighbors-HandsOver :
      (g : Nav) (node : ℕ) (ns : List ℕ) (p : Prefetcher K)
      → get_neighbors node g ≡ some ns
      → p.buffer_pool ≡ some s
      → p.io_engine ≡ some f
      → let (count, freed, q) =
          prefetch_neighbors liburing transfers now malloc vector_fd (some g) node p in
        (count ≡ min p.batch_size (length (uncached s ns)))
        × HandsOver (wanted vector_fd s p.batch_size ns) (freed, q)
  unfolding prefetch_neighbors
  prefetch_neighbors-HandsOver g node ns p at e i =
      let c = collect now malloc vector_fd ns 0 p in
      let x = collect-Collects now malloc vector_fd memory s ns 0 p e in
      let none_yet : p.batch_size - 0 ≡ p.batch_size = omega arith in
      let asked : c.0 ≡ wanted vector_fd s p.batch_size ns =
        x.requests ∙ ap (λ room. wanted vector_fd s room ns) none_yet in
      let handed = submit_requests-HandsOver c.0 c.1 x.pool (x.engine ∙ i) in
      let count : length c.0 ≡ min p.batch_size (length (uncached s ns)) = rw asked (
        length-map (request vector_fd) (take p.batch_size (uncached s ns))
        ∙ length-take p.batch_size (uncached s ns)) in
      let whole : prefetch_list liburing transfers now malloc vector_fd (get_neighbors node g) f p
          ≡ prefetch_in liburing transfers now malloc vector_fd (some g) p.io_engine node p =
        sym (ap (λ o. prefetch_in liburing transfers now malloc vector_fd (some g) o node p) i) in
      subst Handed
        (ap (λ o. prefetch_list liburing transfers now malloc vector_fd o f p) (sym at) ∙ whole)
        (count, subst (λ rs. HandsOver rs (submit_requests liburing transfers f c)) asked handed)
    where
      Handed : ℕ × List IoRequest × Prefetcher K → Type 0
      Handed t =
          (t.0 ≡ min p.batch_size (length (uncached s ns)))
          × HandsOver (wanted vector_fd s p.batch_size ns) (t.1, t.2)

module _ {K : Type 0} (now : ℕ) (fresh : Bytes) where
  store_in-pool :
      (o : Option Pool) (c : IoCompletion) (p : Prefetcher K)
      → c.buffer ≡ none
      → p.buffer_pool ≡ o
      → (store_in now fresh o c p).buffer_pool ≡ p.buffer_pool
  store_in-pool none c p e i = refl
  store_in-pool (some s) c p e i = ap (λ b. some (enter now fresh c b s)) e ∙ sym i

  complete_all-pool :
      (cs : List IoCompletion) (n : ℕ) (p : Prefetcher K)
      → All IsPlain cs
      → ((complete_all now fresh cs n p).1.buffer_pool ≡ p.buffer_pool)
        × ((complete_all now fresh cs n p).0 ≤ n + length cs)
  unfolding complete_all store_completion
  complete_all-pool [] n p a = (refl, omega arith)
  complete_all-pool (c ∷ cs) n p a =
      let m = if c.failed then n else suc n in
      let (same, few) = complete_all-pool cs m (completed now fresh c.failed c p) a.1 in
      (same ∙ by_flag c.failed, ground (arith, few))
    where
      by_flag : (b : Bool) → (completed now fresh b c p).buffer_pool ≡ p.buffer_pool
      by_flag true = refl
      by_flag false = store_in-pool p.buffer_pool c _ a.0.1 refl

module _ {K : Type 0} (liburing : Ring K) (now : ℕ) (fresh : Bytes) where
  facade-IsPlain :
      (n : ℕ) (f : Facade K)
      → (length (wait_completion_batch liburing n f).0 ≤ n)
        × All IsPlain (wait_completion_batch liburing n f).0
  unfolding wait_completion_batch
  facade-IsPlain n f = elim (Bool-cases f.use_io_uring) [
    | inl e ↦
        rw (e, wait_completion_batch) (wait_completion_batch-IsPlain liburing n f.io_uring_engine)
    | inr e ↦ rw (e, wait_completion_batch) (omega arith, tt)
  ]

  wait_in-pool :
      (o : Option (Facade K)) (p : Prefetcher K)
      → ((wait_in liburing now fresh o p).1.buffer_pool ≡ p.buffer_pool)
        × ((wait_in liburing now fresh o p).0 ≤ p.batch_size)
  wait_in-pool none p = (refl, omega arith)
  wait_in-pool (some f) p =
      let (l, a) = facade-IsPlain p.batch_size f in
      let cs = (wait_completion_batch liburing p.batch_size f).0 in
      let (same, few) =
        complete_all-pool now fresh cs 0
          (record p { io_engine = some (wait_completion_batch liburing p.batch_size f).1 }) a in
      (same, omega (arith, few, l))

  -- Whatever the ring delivers, wait_prefetch_completions counts no more completions than the
  -- batch size, and enters nothing into the pool.
  pub wait_prefetch_completions-pool :
      (p : Prefetcher K)
      → ((wait_prefetch_completions liburing now fresh p).1.buffer_pool ≡ p.buffer_pool)
        × ((wait_prefetch_completions liburing now fresh p).0 ≤ p.batch_size)
  unfolding wait_prefetch_completions
  wait_prefetch_completions-pool p = wait_in-pool p.io_engine p
