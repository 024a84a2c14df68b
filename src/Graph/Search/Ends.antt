-- ===== src/Graph/Search/Ends.antt =====
-- The search ends, and what it finds.
use agent_mem_io.Prelude.{
  ℕ, zero, suc, ◌+◌, ◌<◌, ◌≤◌, max, ◌≡◌, refl, subst, ap, Bool, true, false, some, List, [], ◌∷◌,
  length, All, Distinct, member, ltb, if◌then◌else◌, arith, inl, inr, Bool-cases, List-cases,
}
use agent_mem_io.Graph.Nav.{Nav, get_neighbors}
use agent_mem_io.Graph.Nav.Degrees.{IsGraph, get_neighbors-IsList}
use agent_mem_io.Graph.Search.{
  Outcome, found, Beam, pop, reversed, pair_lt, push_best, explore, explore_all, stops, start,
  rounds, search_for_construction,
}
use agent_mem_io.Graph.Search.Queues.{
  length-Distinct-le, get_neighbors-some, Reachable, entry, edge, ids, push-All, length-push,
  member-push, push-Distinct, pop-All, pop-Distinct, reversed-All, length-reversed,
  reversed-Distinct, Apart-nil,
}

module _ {D : Type 0} (lt : D → D → Bool) (distance : ℕ → D) (k : ℕ) (g : Nav) where
  -- A pair of a queue: a node of the graph that can be reached, with its distance.
  abbrev pub IsHit : ℕ × D → Type 0
  IsHit p = (p.0 < g.num_nodes) × (p.1 ≡ distance p.0) × Reachable g p.0

  -- The queues and the visited nodes after `taken` rounds.
  record IsBeam (taken : ℕ) (s : Beam D) : Type 0 where
    best_hits : All IsHit s.best
    best_distinct : Distinct (ids s.best)
    best_visited : (a : ℕ) → member a (ids s.best) ≡ true → member a s.visited ≡ true
    best_few : length s.best ≤ max 1 k
    best_some : 1 ≤ length s.best
    candidate_hits : All IsHit s.candidates
    visited_nodes : All (λ (x : ℕ). x < g.num_nodes) s.visited
    visited_distinct : Distinct s.visited
    count : length s.candidates + taken ≡ length s.visited

  -- What is kept of a queue `b` when the top is popped if `x` holds.
  abbrev kept : Bool → List (ℕ × D) → List (ℕ × D)
  kept x b = if x then pop b else b

  kept-All : (x : Bool) (b : List (ℕ × D)) → All IsHit b → All IsHit (kept x b)
  kept-All true b a = pop-All IsHit b a
  kept-All false b a = a

  kept-Distinct : (x : Bool) (b : List (ℕ × D)) → Distinct (ids b) → Distinct (ids (kept x b))
  kept-Distinct true b d = pop-Distinct b d
  kept-Distinct false b d = d

  member-kept :
      (x : Bool) (a : ℕ) (b : List (ℕ × D))
      → member a (ids (kept x b)) ≡ true
      → member a (ids b) ≡ true
  member-kept true a [] m = m
  member-kept true a (q ∷ qs) m = ground arith
  member-kept false a b m = m

  length-kept :
      (n : ℕ) (b : List (ℕ × D))
      → length b ≡ suc n
      → n ≤ max 1 k
      → 1 ≤ n
      → (length (kept (ltb k (length b)) b) ≤ max 1 k) × (1 ≤ length (kept (ltb k (length b)) b))
  length-kept n [] l m h = absurd (omega (arith, l))
  length-kept n (q ∷ qs) l m h = elim (Bool-cases (ltb k (length (q ∷ qs)))) [
    | inl e ↦ rw e (omega (arith, l, m), omega (arith, l, h))
    | inr e ↦
        let in_bound : suc (length qs) ≤ k = ground (arith, e) in
        rw e (omega (arith, in_bound), omega arith)
  ]

  explore-IsBeam :
      (n taken : ℕ) (s : Beam D)
      → IsHit (n, distance n)
      → IsBeam taken s
      → IsBeam taken (explore lt distance k n s)
  unfolding explore
  explore-IsBeam n taken s h v = elim (Bool-cases (member n s.visited)) [
    | inl e ↦ rw (e, explore) v
    | inr e ↦
        let fresh : member n (ids s.best) ≡ false = ground (arith, v.best_visited n) in
        let b = push_best lt (n, distance n) s.best in
        let l : length b ≡ suc (length s.best) = length-push (pair_lt lt) (n, distance n) s.best in
        let hits : All IsHit b = push-All IsHit (pair_lt lt) (n, distance n) s.best h v.best_hits in
        let apart : Distinct (ids b) =
          push-Distinct (pair_lt lt) (n, distance n) s.best fresh v.best_distinct in
        let sizes = length-kept (length s.best) b l v.best_few v.best_some in
        rw (e, explore)
          (record {
            best_hits = kept-All (ltb k (length b)) b hits;
            best_distinct = kept-Distinct (ltb k (length b)) b apart;
            best_visited = λ a m.
                let m' : member a (ids b) ≡ true = member-kept (ltb k (length b)) a b m in
                ground
                  (arith, m', member-push (pair_lt lt) a (n, distance n) s.best, v.best_visited a);
            best_few = sizes.0;
            best_some = sizes.1;
            candidate_hits = push-All IsHit _ (n, distance n) s.candidates h v.candidate_hits;
            visited_nodes = (h.0, v.visited_nodes);
            visited_distinct = (e, v.visited_distinct);
            count =
                omega (
                  arith,
                  length-push (λ p q. pair_lt lt q p) (n, distance n) s.candidates,
                  v.count,
                );
          })
  ]

  explore_all-IsBeam :
      (fits : ℕ → Bool) (ns : List ℕ) (taken : ℕ) (s : Beam D)
      → ((n : ℕ) → n < g.num_nodes → fits n ≡ true)
      → All (λ n. IsHit (n, distance n)) ns
      → IsBeam taken s
      → (s' : Beam D) × (explore_all lt distance k fits ns s ≡ some s') × IsBeam taken s'
  unfolding explore_all
  explore_all-IsBeam fits [] taken s all a v = (s, refl, v)
  explore_all-IsBeam fits (n ∷ ns) taken s all a v =
      let (s', e, v') =
        explore_all-IsBeam fits ns taken (explore lt distance k n s) all a.1
          (explore-IsBeam n taken s a.0 v) in
      (s', ground (arith, all n a.0.0, e), v')

  -- The neighbours of a node that can be reached can be reached.
  neighbors-hits :
      (c : ℕ) (ns : List ℕ)
      → IsGraph g
      → Reachable g c
      → get_neighbors c g ≡ some ns
      → All (λ n. IsHit (n, distance n)) ns
  neighbors-hits c ns x r e = each ns (get_neighbors-IsList c ns g x e).0 (λ b m. edge c b ns r e m)
    where
      each :
          (ms : List ℕ)
          → All (λ (b : ℕ). b < g.num_nodes) ms
          → ((b : ℕ) → member b ms ≡ true → Reachable g b)
          → All (λ n. IsHit (n, distance n)) ms
      each [] a f = tt
      each (m ∷ ms) a f = ((a.0, refl, f m (ground arith)), each ms a.1 (λ b h. f b (ground arith)))

  -- A result: pairs of distinct nodes that can be reached, each with its distance, at least one
  -- and no more than `k`, or one where `k` is 0.
  pub record IsResult (out : List (ℕ × D)) : Type 0 where
    pub hits : All IsHit out
    pub distinct : Distinct (ids out)
    pub some_hit : 1 ≤ length out
    pub few : length out ≤ max 1 k

  abbrev pub Finds : Outcome D → Type 0
  Finds o = (out : List (ℕ × D)) × (o ≡ found out) × IsResult out

  reversed-Finds : (taken : ℕ) (s : Beam D) → IsBeam taken s → Finds (found (reversed s.best []))
  reversed-Finds taken s v = (
    reversed s.best [],
    refl,
    record {
      hits = reversed-All IsHit s.best [] v.best_hits tt;
      distinct = reversed-Distinct s.best [] v.best_distinct tt (Apart-nil s.best);
      some_hit = omega (arith, length-reversed s.best [], v.best_some);
      few = omega (arith, length-reversed s.best [], v.best_few);
    },
  )

  next_round :
      (taken : ℕ) (s : Beam D) (p : ℕ × D) (ps : List (ℕ × D))
      → s.candidates ≡ p ∷ ps
      → IsBeam taken s
      → IsBeam (suc taken) (record s { candidates = ps })
  next_round taken s p ps e v =
      let l : length s.candidates ≡ suc (length ps) = ap length e in
      record {
        best_hits = v.best_hits;
        best_distinct = v.best_distinct;
        best_visited = v.best_visited;
        best_few = v.best_few;
        best_some = v.best_some;
        candidate_hits = (subst (All IsHit) e v.candidate_hits).1;
        visited_nodes = v.visited_nodes;
        visited_distinct = v.visited_distinct;
        count = omega (arith, l, v.count);
      }

  rounds-Finds :
      (fits : ℕ → Bool) (fuel taken : ℕ) (s : Beam D)
      → ((n : ℕ) → n < g.num_nodes → fits n ≡ true)
      → IsGraph g
      → g.num_nodes ≤ fuel + taken
      → IsBeam taken s
      → Finds (rounds lt distance k fits fuel g s)
  unfolding rounds
  rounds-Finds fits zero taken s all x enough v = elim (List-cases s.candidates) [
    | inl e ↦ rw (e, rounds) (reversed-Finds taken s v)
    | inr (p, ps, e) ↦
        let l : length s.candidates ≡ suc (length ps) = rw e refl in
        absurd (
          omega (
            arith,
            l,
            v.count,
            enough,
            length-Distinct-le g.num_nodes s.visited v.visited_distinct v.visited_nodes,
          ))
  ]
  rounds-Finds fits (suc fuel) taken s all x enough v = elim (List-cases s.candidates) [
    | inl e ↦ rw (e, rounds) (reversed-Finds taken s v)
    | inr (p, ps, e) ↦ elim (Bool-cases (stops lt distance k p.1 s.best)) [
      | inl halt ↦ rw (e, rounds, halt) (reversed-Finds taken s v)
      | inr go ↦
          let hits : IsHit p × All IsHit ps = subst (All IsHit) e v.candidate_hits in
          let (ns, at) = get_neighbors-some p.0 x hits.0.0 in
          let s' : Beam D = record s { candidates = ps } in
          let v' : IsBeam (suc taken) s' = next_round taken s p ps e v in
          let (s2, explored, v2) =
            explore_all-IsBeam fits ns (suc taken) s' all (neighbors-hits p.0 ns x hits.0.2 at)
              v' in
          rw (e, rounds, go, at, explored)
            (rounds-Finds fits fuel (suc taken) s2 all x (omega (arith, enough)) v2)
    ]
  ]

  -- On a graph whose lists hold nodes of the graph, distinct and within the degree limit, whose
  -- entry point is a node, and whose nodes have vectors of the query's dimension,
  -- search_for_construction ends within as many rounds as the graph has nodes, throws no
  -- exception, and finds distinct nodes that edges lead to from the entry point, each with its
  -- distance, at least one and no more than `k`, or one where `k` is 0.
  pub search_for_construction-Finds :
      (fits : ℕ → Bool)
      → IsGraph g
      → g.entry_point < g.num_nodes
      → ((n : ℕ) → n < g.num_nodes → fits n ≡ true)
      → Finds (search_for_construction lt distance k fits g)
  unfolding search_for_construction start
  search_for_construction-Finds fits x h all = rw (all g.entry_point h) (
      rounds-Finds fits g.num_nodes 0 (start lt distance k g) all x (omega arith) (record {
        best_hits = ((h, refl, entry), tt);
        best_distinct = (refl, tt);
        best_visited = λ a m. m;
        best_few = omega arith;
        best_some = omega arith;
        candidate_hits = ((h, refl, entry), tt);
        visited_nodes = (h, tt);
        visited_distinct = (refl, tt);
        count = refl;
      }))
