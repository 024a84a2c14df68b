-- ===== src/Engine/Query/Beams.antt =====
-- The invariant of the query processor's search, and that a neighbour keeps it.
use agent_mem_io.Prelude.{
  ℕ, suc, ◌+◌, ◌<◌, ◌≤◌, ◌≡◌, ◌⊎◌, refl, ap, Bool, true, false, some, List, [], ◌∷◌, length, All,
  Distinct, member, ltb, arith, inl, inr, Bool-cases,
}
use agent_mem_io.Graph.Nav.{Nav, get_neighbors}
use agent_mem_io.Graph.Search.Queues.{Reachable, ids}
use agent_mem_io.Engine.Order.{IsWeakOrder, Has, Ordered, push-Ordered}
use agent_mem_io.Engine.Query.{Calls, pair_lt, push_candidate, push_result, shrink}

-- What the calls of the search promise: they keep the state right, and the distance that they
-- measure is a right one of the node.
pub record IsCalls {S D : Type 0} (calls : Calls S D) (g : Nav) : Type 1 where
  pub Ok : S → Type 0
  pub Right : ℕ → D → Type 0
  pub measured :
      (n : ℕ) (s : S)
      → n < g.num_nodes
      → Ok s
      → (d : D) × ((calls.measure n s).0 ≡ some d) × Right n d × Ok (calls.measure n s).1
  pub prefetched : (n : ℕ) (s : S) → n < g.num_nodes → Ok s → Ok (calls.prefetch_neighbors n s)
  pub waited : (s : S) → Ok s → Ok (calls.wait_prefetch_completions s)

module _ {D : Type 0} (lt : D → D → Bool) where
  -- A pair that comes out later is no nearer, or no further.
  abbrev pub NoNearer : ℕ × D → ℕ × D → Type 0
  NoNearer p q = lt q.1 p.1 ≡ false

  abbrev pub NoFurther : ℕ × D → ℕ × D → Type 0
  NoFurther p q = lt p.1 q.1 ≡ false

  pub NoNearer-push :
      IsWeakOrder lt
      → (p : ℕ × D) (qs : List (ℕ × D)) → Ordered NoNearer qs
      → Ordered NoNearer (push_candidate lt p qs)
  NoNearer-push w p qs o =
      push-Ordered NoNearer (pair_lt lt) first second (λ a b c x y. w.not_lt_trans a.1 b.1 c.1 x y)
        p qs o
    where
      first : (p q : ℕ × D) → pair_lt lt p q ≡ true → lt q.1 p.1 ≡ false
      first p q e = ground (arith, e, w.asym p.1 q.1)

      second : (p q : ℕ × D) → pair_lt lt p q ≡ false → lt p.1 q.1 ≡ false
      second p q e = ground (arith, e)

  pub NoFurther-push :
      IsWeakOrder lt
      → (p : ℕ × D) (qs : List (ℕ × D)) → Ordered NoFurther qs
      → Ordered NoFurther (push_result lt p qs)
  NoFurther-push w p qs o =
      push-Ordered NoFurther (λ p q. pair_lt lt q p) first second
        (λ a b c x y. w.not_lt_trans c.1 b.1 a.1 y x) p qs o
    where
      first : (p q : ℕ × D) → pair_lt lt q p ≡ true → lt p.1 q.1 ≡ false
      first p q e = ground (arith, e, w.asym q.1 p.1)

      second : (p q : ℕ × D) → pair_lt lt q p ≡ false → lt q.1 p.1 ≡ false
      second p q e = ground (arith, e)

-- A heap that is at most one too large is kept or loses its top.
pub shrink-cases :
    {D : Type 0} (ef_search : ℕ) (b : List (ℕ × D))
    → length b ≤ suc ef_search
    → ((shrink ef_search b ≡ b) × (length b ≤ ef_search))
      ⊎ ((q : ℕ × D) × (qs : List (ℕ × D)) × (b ≡ q ∷ qs)
          × (shrink ef_search b ≡ qs)
          × (length qs ≡ ef_search))
unfolding shrink
shrink-cases ef_search [] h = inl (refl, omega arith)
shrink-cases {D} ef_search (q ∷ qs) h = elim (Bool-cases (ltb ef_search (length (q ∷ qs)))) [
  | inl e ↦ elim (shrink-cases ef_search qs (omega (arith, h))) [
    | inl (same, l) ↦ inr (q, qs, refl, rw (shrink, e) same, ground (arith, e, h))
    | inr (r, rs, at, s, l) ↦
        let m : length qs ≡ suc (length rs) = ap length at in absurd (omega (arith, m, h, l))
  ]
  | inr e ↦ inl (rw (shrink, e) refl, ground (arith, e))
]

module _ {D : Type 0} where
  -- `fd` is the distance of the top of the heap.
  abbrev pub IsTop : D → List (ℕ × D) → Type 0
  IsTop fd [] = ⊥
  IsTop fd (q ∷ qs) = q.1 ≡ fd

module _ {D : Type 0} (lt : D → D → Bool) (ef_search : ℕ) where
  -- A pair that was seen is in the heap, or the heap is full of pairs that are no further.
  abbrev pub Kept : List (ℕ × D) → ℕ × D → Type 0
  Kept best x = Has x best ⊎ ((ef_search ≤ length best) × All (λ r. lt x.1 r.1 ≡ false) best)

module _ {D : Type 0} (g : Nav) where
  -- Every neighbour of a node was seen.
  abbrev pub Explored : List (ℕ × D) → ℕ → Type 0
  Explored seen a =
      (ns : List ℕ) × (get_neighbors a g ≡ some ns) × All (λ m. member m (ids seen) ≡ true) ns

  -- A result is being explored, waits to be, or was.
  abbrev pub Closed : List ℕ → List (ℕ × D) → List (ℕ × D) → ℕ × D → Type 0
  Closed busy cands seen r = (member r.0 busy ≡ true) ⊎ (Has r cands ⊎ Explored seen r.0)

module _ {S D : Type 0} (calls : Calls S D) (g : Nav) (laws : IsCalls calls g) where
  -- A node of the graph that edges lead to from the entry point, with a right distance.
  abbrev pub IsHit : ℕ × D → Type 0
  IsHit p = (p.0 < g.num_nodes) × laws.Right p.0 p.1 × Reachable g p.0

module _ {S D : Type 0} (lt : D → D → Bool) (ef_search : ℕ) (calls : Calls S D) (g : Nav)
    (laws : IsCalls calls g) where
  -- The heaps after `taken` rounds, where `seen` lists the nodes that were visited, each with the
  -- distance that was measured.
  pub record IsQueues (bound : ℕ) (busy : List ℕ) (taken : ℕ) (best cands seen : List (ℕ × D))
      : Type 0 where
    pub best_hits : All (IsHit calls g laws) best
    pub best_distinct : Distinct (ids best)
    pub best_seen : (a : ℕ) → member a (ids best) ≡ true → member a (ids seen) ≡ true
    pub best_order : Ordered (NoFurther lt) best
    pub best_some : 1 ≤ length best
    pub best_few : length best ≤ bound
    pub cand_hits : All (IsHit calls g laws) cands
    pub cand_order : Ordered (NoNearer lt) cands
    pub seen_hits : All (IsHit calls g laws) seen
    pub seen_distinct : Distinct (ids seen)
    pub entry_seen : member g.entry_point (ids seen) ≡ true
    pub kept : All (Kept lt ef_search best) seen
    pub closed : All (Closed g busy cands seen) best
    pub count : length cands + taken ≤ length seen
