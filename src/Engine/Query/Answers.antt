-- ===== src/Engine/Query/Answers.antt =====
-- What `search_with_beam_width` answers on a graph.
use agent_mem_io.Prelude.{
  ℕ, suc, ◌+◌, ◌^◌, ◌<◌, ◌≤◌, ◌≡◌, refl, subst, ap, ◌∙◌, Bool, true, false, ◌||◌, Option, none,
  some, List, [], ◌∷◌, length, take, All, Distinct, member, leb, ◌==◌, arith, inl, inr, Bool-cases,
}
use agent_mem_io.Graph.Nav.{Nav, no_node, get_neighbors}
use agent_mem_io.Graph.Nav.Degrees.{IsGraph}
use agent_mem_io.Graph.Index.{Index}
use agent_mem_io.Graph.Search.Queues.{
  Reachable, entry, edge, ids, length-push, push-All, member-push, push-Distinct,
  length-Distinct-le,
}
use agent_mem_io.Graph.Visited
use agent_mem_io.Graph.Visited.Marks.{test-mark, new-IsBitmap}
use agent_mem_io.Engine.Order.{
  IsWeakOrder, Has, All-map, member-Has, push-Has, push-Has_new, Ordered,
}
use agent_mem_io.Engine.Query.{
  Calls, Beam, Walk, ended, Answer, found, pair_lt, sort, start, walk, top_k,
  search_with_beam_width,
}
use agent_mem_io.Engine.Query.Beams.{IsCalls, NoNearer, NoNearer-push, Kept, Explored, IsHit}
use agent_mem_io.Engine.Query.Rounds.{IsBeam}
use agent_mem_io.Engine.Query.Results.{Ends, rounds-Ends}

module _ {D : Type 0} (lt : D → D → Bool) where
  sort-All : (P : ℕ × D → Type 0) (qs : List (ℕ × D)) → All P qs → All P (sort lt qs)
  unfolding sort
  sort-All P [] a = tt
  sort-All P (q ∷ qs) a = push-All P (pair_lt lt) q (sort lt qs) a.0 (sort-All P qs a.1)

  length-sort : (qs : List (ℕ × D)) → length (sort lt qs) ≡ length qs
  unfolding sort
  length-sort [] = refl
  length-sort (q ∷ qs) = length-push (pair_lt lt) q (sort lt qs) ∙ ap suc (length-sort qs)

  member-sort : (a : ℕ) (qs : List (ℕ × D)) → member a (ids (sort lt qs)) ≡ member a (ids qs)
  unfolding sort
  member-sort a [] = refl
  member-sort a (q ∷ qs) =
      ground (arith, member-push (pair_lt lt) a q (sort lt qs), member-sort a qs)

  sort-Distinct : (qs : List (ℕ × D)) → Distinct (ids qs) → Distinct (ids (sort lt qs))
  unfolding sort
  sort-Distinct [] d = tt
  sort-Distinct (q ∷ qs) d =
      push-Distinct (pair_lt lt) q (sort lt qs) (member-sort q.0 qs ∙ d.0) (sort-Distinct qs d.1)

  sort-Has : (p : ℕ × D) (qs : List (ℕ × D)) → Has p qs → Has p (sort lt qs)
  unfolding sort
  sort-Has p [] h = absurd h
  sort-Has p (q ∷ qs) h = elim h [
    | inl e ↦ subst (λ x. Has x (sort lt (q ∷ qs))) e (push-Has_new (pair_lt lt) q (sort lt qs))
    | inr t ↦ push-Has (pair_lt lt) q p (sort lt qs) (sort-Has p qs t)
  ]

  sort-Ordered : IsWeakOrder lt → (qs : List (ℕ × D)) → Ordered (NoNearer lt) (sort lt qs)
  unfolding sort
  sort-Ordered w [] = tt
  sort-Ordered w (q ∷ qs) = NoNearer-push lt w q (sort lt qs) (sort-Ordered w qs)

module _ {S D : Type 0} (lt : D → D → Bool) (ef_search : ℕ) (calls : Calls S D) (g : Nav)
    (laws : IsCalls calls g) where
  -- The ranking whose first pairs are the results: reachable nodes with right distances, the
  -- nearer ones first. The entry point and every neighbour of a ranked node was seen, and what was
  -- seen is ranked, or the ranking is full of nodes that are no further.
  pub record IsRanking (ranked seen : List (ℕ × D)) : Type 0 where
    pub hits : All (IsHit calls g laws) ranked
    pub distinct : Distinct (ids ranked)
    pub order : Ordered (NoNearer lt) ranked
    pub some_hit : 1 ≤ length ranked
    pub few : length ranked ≤ ef_search
    pub entry_seen : member g.entry_point (ids seen) ≡ true
    pub explored : All (λ r. Explored g seen r.0) ranked
    pub kept : All (Kept lt ef_search ranked) seen
    pub seen_hits : All (IsHit calls g laws) seen

  abbrev pub Finds : ℕ → Answer S D → Type 0
  Finds k o =
      (ranked : List (ℕ × D)) × (seen : List (ℕ × D)) × (left : S) × (o
        ≡ found (take k ranked) left)
      × IsRanking ranked seen
      × laws.Ok left

  sort-Kept :
      (best : List (ℕ × D)) (x : ℕ × D)
      → Kept lt ef_search best x
      → Kept lt ef_search (sort lt best) x
  sort-Kept best x k = elim k [
    | inl h ↦ inl (sort-Has lt x best h)
    | inr (full, far) ↦
        inr
          (omega (arith, full, length-sort lt best), sort-All lt (λ r. lt x.1 r.1 ≡ false) best far)
  ]

  top_k-Finds :
      IsWeakOrder lt
      → (k : ℕ) (o : Walk S D)
      → (s : Beam S D) × (taken : ℕ) × (seen : List (ℕ × D)) × (o ≡ ended s)
        × IsBeam lt ef_search calls g laws [] taken seen s
        × All (λ r. Explored g seen r.0) s.result_heap
      → Finds k (top_k lt k o)
  top_k-Finds w k o (s, taken, seen, e, v, all) = (
    sort lt s.result_heap,
    seen,
    s.state,
    rw e refl,
    record {
      hits = sort-All lt (IsHit calls g laws) s.result_heap v.queues.best_hits;
      distinct = sort-Distinct lt s.result_heap v.queues.best_distinct;
      order = sort-Ordered lt w s.result_heap;
      some_hit = omega (arith, length-sort lt s.result_heap, v.queues.best_some);
      few = omega (arith, length-sort lt s.result_heap, v.queues.best_few);
      entry_seen = v.queues.entry_seen;
      explored = sort-All lt (λ r. Explored g seen r.0) s.result_heap all;
      kept =
          All-map (Kept lt ef_search s.result_heap) (Kept lt ef_search (sort lt s.result_heap)) seen
            (sort-Kept s.result_heap) v.queues.kept;
      seen_hits = v.queues.seen_hits;
    },
    v.good,
  )

  -- What the distance of the entry point must be.
  abbrev pub IsEntry : (ℕ → S → Option D × S) → S → Type 0
  IsEntry entry_distance q =
      (d : D) × ((entry_distance g.entry_point q).0 ≡ some d)
      × laws.Right g.entry_point d
      × laws.Ok (entry_distance g.entry_point q).1

  module _ (w : IsWeakOrder lt) (positive : 1 ≤ ef_search) (x : IsGraph g)
      (small : g.num_nodes < 2 ^ 32) (inside : g.entry_point < g.num_nodes) where
    start-IsBeam :
        (d : D) (q : S)
        → laws.Right g.entry_point d
        → laws.Ok q
        → IsBeam lt ef_search calls g laws [] 0 ((g.entry_point, d) ∷ []) (record {
          result_heap = (g.entry_point, d) ∷ [];
          candidates = (g.entry_point, d) ∷ [];
          visited = Visited.mark g.entry_point (Visited.new g.num_nodes);
          fd = d;
          state = q;
        })
    start-IsBeam d q right ok =
        let room : g.num_nodes + 7 < 2 ^ 64 = omega (arith, small) in
        let hit : IsHit calls g laws (g.entry_point, d) = (inside, right, entry) in
        let self : member g.entry_point (g.entry_point ∷ []) ≡ true = ground arith in
        let fresh = λ (n : ℕ). new-IsBitmap g.num_nodes n room in
        let marked = λ (n : ℕ). test-mark g.entry_point n (Visited.new g.num_nodes) (fresh n).0 in
        record {
          queues = record {
            best_hits = (hit, tt);
            best_distinct = (refl, tt);
            best_seen = λ a m. m;
            best_order = (tt, tt);
            best_some = omega arith;
            best_few = positive;
            cand_hits = (hit, tt);
            cand_order = (tt, tt);
            seen_hits = (hit, tt);
            seen_distinct = (refl, tt);
            entry_seen = self;
            kept = (inl (inl refl), tt);
            closed = (inr (inl (inl refl)), tt);
            count = omega arith;
          };
          top = refl;
          bitmap = (marked 0).1;
          marks = λ n below.
              let clear : Visited.test n (Visited.new g.num_nodes) ≡ leb g.num_nodes n =
                (fresh n).1 in
              let low : leb g.num_nodes n ≡ false = ground (arith, below) in
              (marked n).0 ∙ ap (λ b. (g.entry_point == n) || b) (clear ∙ low);
          good = ok;
        }

    walk-Ends :
        (m : Option D × S) (d : D)
        → m.0 ≡ some d
        → laws.Right g.entry_point d
        → laws.Ok m.1
        → Ends lt ef_search calls g laws w positive (walk lt ef_search calls g m)
    unfolding walk
    walk-Ends (none, q) d e right ok = absurd (cc)
    walk-Ends (some y, q) d e right ok =
        let same : d ≡ y = cc in
        rounds-Ends lt ef_search calls g laws w positive x g.num_nodes 0 ((g.entry_point, y) ∷ []) _
          (omega arith) (start-IsBeam y q (subst (laws.Right g.entry_point) same right) ok)

    -- On a graph of fewer than 2^32 nodes whose lists hold nodes of the graph, distinct and within
    -- the degree limit, and whose entry point is a node, with a positive ef_search, a weak order
    -- of distances, and calls that keep their promises: search_with_beam_width ends, throws
    -- nothing, and answers with the first `k` of a ranking of at least one and at most ef_search
    -- distinct reachable nodes, each with a right distance, the nearer ones first. The entry point
    -- and every neighbour of a ranked node was measured; and what was measured is ranked, or
    -- ef_search nodes that are no further are.
    pub search_with_beam_width-Finds :
        (entry_distance : ℕ → S → Option D × S) (index : Index) (k : ℕ) (q : S)
        → index.nav_data ≡ some g
        → IsEntry entry_distance q
        → Finds k (search_with_beam_width lt ef_search calls entry_distance (some index) k q)
    unfolding search_with_beam_width
    search_with_beam_width-Finds entry_distance index k q at (d, e, right, ok) =
        let named : (g.entry_point == no_node) ≡ false = ground (arith, small, inside) in
        rw (at, search_with_beam_width, named)
          (top_k-Finds w k _ (walk-Ends (entry_distance g.entry_point q) d e right ok))

    -- A node that was seen is ranked, where the ranking is not full.
    seen-ranked :
        (ranked seen : List (ℕ × D))
        → IsRanking ranked seen
        → length ranked < ef_search
        → (a : ℕ) → member a (ids seen) ≡ true
        → member a (ids ranked) ≡ true
    seen-ranked ranked seen v short a m = among seen v.kept m
      where
        among :
            (xs : List (ℕ × D))
            → All (Kept lt ef_search ranked) xs
            → member a (ids xs) ≡ true
            → member a (ids ranked) ≡ true
        among [] b h = absurd (cc)
        among (p ∷ ps) b h = elim (Bool-cases (p.0 == a)) [
          | inl e ↦ elim b.0 [
            | inl there ↦
                let same : p.0 ≡ a = ground (arith, e) in
                subst (λ c. member c (ids ranked) ≡ true) same (member-Has p ranked there)
            | inr (full, far) ↦ absurd (omega (arith, full, short))
          ]
          | inr e ↦ among ps b.1 (ground (arith, h, e))
        ]

    pub Reachable-ranked :
        (ranked seen : List (ℕ × D))
        → IsRanking ranked seen
        → length ranked < ef_search
        → (a : ℕ) → Reachable g a
        → member a (ids ranked) ≡ true
    Reachable-ranked ranked seen v short a entry =
        seen-ranked ranked seen v short g.entry_point v.entry_seen
    Reachable-ranked ranked seen v short b (edge a _ ns r e m) =
        seen-ranked ranked seen v short b
          (neighbor ranked v.explored (Reachable-ranked ranked seen v short a r))
      where
        listed :
            (ms : List ℕ)
            → All (λ c. member c (ids seen) ≡ true) ms
            → member b ms ≡ true
            → member b (ids seen) ≡ true
        listed [] t h = absurd (cc)
        listed (c ∷ cs) t h = ground (arith, listed cs t.1, t.0, h)

        neighbor :
            (qs : List (ℕ × D))
            → All (λ p. Explored g seen p.0) qs
            → member a (ids qs) ≡ true
            → member b (ids seen) ≡ true
        neighbor [] t h = absurd (cc)
        neighbor (p ∷ ps) t h = elim (Bool-cases (p.0 == a)) [
          | inl s ↦
              let (ns', e', all) = t.0 in
              let same : p.0 ≡ a = ground (arith, s) in
              let e'' : get_neighbors a g ≡ some ns' =
                subst (λ c. get_neighbors c g ≡ some ns') same e' in
              let lists : ns' ≡ ns = cc in
              listed ns (subst (λ ms. All (λ c. member c (ids seen) ≡ true) ms) lists all) m
          | inr s ↦ neighbor ps t.1 (ground (arith, h, s))
        ]

    -- On such a graph with fewer nodes than ef_search, search_with_beam_width is exact: the ranking
    -- whose first `k` it answers with holds every node that can be reached from the entry point,
    -- each once, the nearer ones first.
    pub search_with_beam_width-Reachable :
        (entry_distance : ℕ → S → Option D × S) (index : Index) (k : ℕ) (q : S)
        → index.nav_data ≡ some g
        → IsEntry entry_distance q
        → g.num_nodes < ef_search
        → (ranked : List (ℕ × D)) × (left : S) × (search_with_beam_width lt ef_search calls
              entry_distance
              (some index)
              k
              q
            ≡ found (take k ranked) left)
          × Ordered (NoNearer lt) ranked
          × Distinct (ids ranked)
          × All (IsHit calls g laws) ranked
          × ((a : ℕ) → Reachable g a → member a (ids ranked) ≡ true)
    search_with_beam_width-Reachable entry_distance index k q at start all =
        let (ranked, seen, left, e, v, ok) =
          search_with_beam_width-Finds entry_distance index k q at start in
        let short : length ranked < ef_search = omega (
          arith,
          all,
          length-hits ranked,
          length-Distinct-le g.num_nodes (ids ranked) v.distinct (nodes ranked v.hits),
        ) in
        (ranked, left, e, v.order, v.distinct, v.hits, Reachable-ranked ranked seen v short)
      where
        nodes :
            (qs : List (ℕ × D))
            → All (IsHit calls g laws) qs
            → All (λ (a : ℕ). a < g.num_nodes) (ids qs)
        nodes [] a = tt
        nodes (p ∷ ps) a = (a.0.0, nodes ps a.1)

        length-hits : (qs : List (ℕ × D)) → length (ids qs) ≡ length qs
        length-hits [] = refl
        length-hits (p ∷ ps) = ap suc (length-hits ps)
