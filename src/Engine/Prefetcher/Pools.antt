-- ===== src/Engine/Prefetcher/Pools.antt =====
-- A prefetch leaves the pool as it was.
use agent_mem_io.Prelude.{
  ℕ, suc, ◌≡◌, refl, sym, subst, ◌∙◌, Bool, true, false, not, ◌&&◌, Option, none, some, List, [],
  ◌∷◌, leb, if◌then◌else◌,
}
use agent_mem_io.Buffer.Pool.{Pool, bump64}
use agent_mem_io.Buffer.Pool.Methods.{contains}
use agent_mem_io.Graph.Nav.{Nav, get_neighbors}
use agent_mem_io.Engine.IoEngine.{IoRequest, Ring}
use agent_mem_io.Engine.IoEngine.Facade.{Facade}
use agent_mem_io.Engine.Prefetcher.{
  Prefetcher, request, looked, look_in, look_pool, collect, submit_requests, prefetch_list,
  prefetch_in, prefetch_neighbors,
}
use agent_mem_io.Engine.Prefetcher.Requests.{look_lem}

-- Whatever the memory and the ring give, a prefetch leaves the pool as it was.
module _ {K : Type 0} (liburing : Ring K) (transfers : IoRequest → Bool) (now : ℕ)
    (malloc : ℕ → Bool) (vector_fd : ℕ) where
  looked-pool :
      (o : Option Pool) (n : ℕ) (p : Prefetcher K)
      → p.buffer_pool ≡ o
      → (look_in now o n p).1.buffer_pool ≡ o
  looked-pool none n p e = e
  looked-pool (some s) n p e =
      subst (λ (x : Bool × Pool). (looked x p).1.buffer_pool ≡ some s) (sym (look_lem now n s))
        (by_flag (contains n s))
    where
      by_flag : (b : Bool) → (looked (b, s) p).1.buffer_pool ≡ some s
      by_flag true = refl
      by_flag false = refl

  abbrev next : Bool → Prefetcher K → Prefetcher K
  next takes q = if takes then record q { total_prefetches = bump64 q.total_prefetches } else q

  -- Which of the outcomes of one step it is does not matter for the pool.
  outcome-pool :
      (full takes : Bool) (r : IoRequest) (p : Prefetcher K) (rest : List IoRequest × Prefetcher K)
      → rest.1.buffer_pool ≡ p.buffer_pool
      → (if full then ([], p) else (if takes then (r ∷ rest.0, rest.1) else rest)).1.buffer_pool
        ≡ p.buffer_pool
  outcome-pool true takes r p rest e = refl
  outcome-pool false true r p rest e = e
  outcome-pool false false r p rest e = e

  next-pool : (takes : Bool) (q : Prefetcher K) → (next takes q).buffer_pool ≡ q.buffer_pool
  next-pool true q = refl
  next-pool false q = refl

  collect-pool :
      (ns : List ℕ) (count : ℕ) (p : Prefetcher K)
      → (collect now malloc vector_fd ns count p).1.buffer_pool ≡ p.buffer_pool
  unfolding collect look_pool
  collect-pool [] count p = refl
  collect-pool (n ∷ ns) count p =
      let t = look_pool now n p in
      let kept : t.1.buffer_pool ≡ p.buffer_pool = looked-pool p.buffer_pool n p refl in
      let takes = not t.0 && malloc n in
      let count' = if takes then suc count else count in
      outcome-pool (leb p.batch_size count) takes (request vector_fd n) p
        (collect now malloc vector_fd ns count' (next takes t.1))
        (collect-pool ns count' (next takes t.1) ∙ (next-pool takes t.1 ∙ kept))

  submit_requests-pool :
      (f : Facade K) (rs : List IoRequest) (p : Prefetcher K)
      → (submit_requests liburing transfers f (rs, p)).1.buffer_pool ≡ p.buffer_pool
  submit_requests-pool f [] p = refl
  submit_requests-pool f (r ∷ rs) p = refl

  prefetch_in-pool :
      (g : Nav) (o : Option (Facade K)) (node : ℕ) (p : Prefetcher K)
      → (prefetch_in liburing transfers now malloc vector_fd (some g) o node p).2.buffer_pool
        ≡ p.buffer_pool
  prefetch_in-pool g none node p = refl
  prefetch_in-pool g (some f) node p = by_list (get_neighbors node g)
    where
      by_list :
          (l : Option (List ℕ))
          → (prefetch_list liburing transfers now malloc vector_fd l f p).2.buffer_pool
            ≡ p.buffer_pool
      by_list none = refl
      by_list (some ns) =
          let c = collect now malloc vector_fd ns 0 p in
          submit_requests-pool f c.0 c.1 ∙ collect-pool ns 0 p

  pub prefetch_neighbors-pool :
      (g : Nav) (node : ℕ) (p : Prefetcher K)
      → (prefetch_neighbors liburing transfers now malloc vector_fd (some g) node p).2.buffer_pool
        ≡ p.buffer_pool
  unfolding prefetch_neighbors
  prefetch_neighbors-pool g node p = prefetch_in-pool g p.io_engine node p
