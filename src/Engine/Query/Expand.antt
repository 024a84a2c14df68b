-- ===== src/Engine/Query/Expand.antt =====
-- One round of the search, and what holds when the rounds stop.
use agent_mem_io.Prelude.{
  ℕ, suc, ◌<◌, ◌≤◌, ◌≡◌, refl, sym, subst, Bool, true, false, some, List, [], ◌∷◌, All, member,
  arith, inl, inr,
}
use agent_mem_io.Graph.Nav.{Nav, get_neighbors}
use agent_mem_io.Graph.Nav.Degrees.{IsGraph, get_neighbors-IsList}
use agent_mem_io.Graph.Search.Queues.{Reachable, edge, ids, get_neighbors-some}
use agent_mem_io.Engine.Order.{IsWeakOrder, All-Has, All-map, Ordered}
use agent_mem_io.Engine.Query.{Calls, Beam, expand}
use agent_mem_io.Engine.Query.Beams.{IsCalls, NoNearer, IsTop, Explored, Closed, IsHit, IsQueues}
use agent_mem_io.Engine.Query.Rounds.{IsBeam, explore_all-GoesOn}

module _ {S D : Type 0} (lt : D → D → Bool) (ef_search : ℕ) (calls : Calls S D) (g : Nav)
    (laws : IsCalls calls g) (w : IsWeakOrder lt) (positive : 1 ≤ ef_search) where
  abbrev pub Beams : List ℕ → ℕ → List (ℕ × D) → Beam S D → Type 0
  Beams = IsBeam lt ef_search calls g laws

  -- The node that is taken from the candidates is the one that is explored.
  taken-Closed :
      (c : ℕ) (d : D) (cs seen : List (ℕ × D)) (r : ℕ × D)
      → Closed g [] ((c, d) ∷ cs) seen r
      → Closed g (c ∷ []) cs seen r
  taken-Closed c d cs seen r x = elim x [
    | inl m ↦ absurd (cc)
    | inr (inl (inl e)) ↦ let same : c ≡ r.0 = cc in inl (ground (arith, same))
    | inr (inl (inr h)) ↦ inr (inl h)
    | inr (inr y) ↦ inr (inr y)
  ]

  explored-Closed :
      (c : ℕ) (ns : List ℕ) (cs seen : List (ℕ × D))
      → get_neighbors c g ≡ some ns
      → All (λ m. member m (ids seen) ≡ true) ns
      → (r : ℕ × D) → Closed g (c ∷ []) cs seen r
      → Closed g [] cs seen r
  explored-Closed c ns cs seen e all r x = elim x [
    | inl m ↦
        let same : c ≡ r.0 = ground (arith, m) in
        inr (inr (subst (Explored g seen) same (ns, e, all)))
    | inr y ↦ inr y
  ]

  take_candidate :
      (taken c : ℕ) (d fd : D) (cs seen : List (ℕ × D)) (s : Beam S D)
      → s.candidates ≡ (c, d) ∷ cs
      → IsTop fd s.result_heap
      → Beams [] taken seen s
      → Beams
          (c ∷ [])
          (suc taken)
          seen
          (record s { candidates = cs; fd = fd; state = calls.prefetch_neighbors c s.state })
  take_candidate taken c d fd cs seen s e top v =
      let q =
        subst (λ x. IsQueues lt ef_search calls g laws ef_search [] taken s.result_heap x seen) e
          v.queues in
      record {
        queues = record {
          best_hits = q.best_hits;
          best_distinct = q.best_distinct;
          best_seen = q.best_seen;
          best_order = q.best_order;
          best_some = q.best_some;
          best_few = q.best_few;
          cand_hits = q.cand_hits.1;
          cand_order = q.cand_order.1;
          seen_hits = q.seen_hits;
          seen_distinct = q.seen_distinct;
          entry_seen = q.entry_seen;
          kept = q.kept;
          closed = All-map _ _ s.result_heap (taken-Closed c d cs seen) q.closed;
          count = omega (arith, q.count);
        };
        top = top;
        bitmap = v.bitmap;
        marks = v.marks;
        good = laws.prefetched c s.state q.cand_hits.0.0 v.good;
      }

  finish_candidate :
      (taken c : ℕ) (ns : List ℕ) (seen : List (ℕ × D)) (s : Beam S D)
      → get_neighbors c g ≡ some ns
      → All (λ m. member m (ids seen) ≡ true) ns
      → Beams (c ∷ []) taken seen s
      → Beams [] taken seen (record s { state = calls.wait_prefetch_completions s.state })
  finish_candidate taken c ns seen s e all v = record {
    queues = record {
      best_hits = v.queues.best_hits;
      best_distinct = v.queues.best_distinct;
      best_seen = v.queues.best_seen;
      best_order = v.queues.best_order;
      best_some = v.queues.best_some;
      best_few = v.queues.best_few;
      cand_hits = v.queues.cand_hits;
      cand_order = v.queues.cand_order;
      seen_hits = v.queues.seen_hits;
      seen_distinct = v.queues.seen_distinct;
      entry_seen = v.queues.entry_seen;
      kept = v.queues.kept;
      closed =
          All-map _ _ s.result_heap (explored-Closed c ns s.candidates seen e all) v.queues.closed;
      count = v.queues.count;
    };
    top = v.top;
    bitmap = v.bitmap;
    marks = v.marks;
    good = laws.waited s.state v.good;
  }

  -- The neighbours of a node that can be reached are nodes that can be reached.
  reachable_neighbors :
      IsGraph g
      → (c : ℕ) (ns : List ℕ) → Reachable g c
      → get_neighbors c g ≡ some ns
      → All (λ n. (n < g.num_nodes) × Reachable g n) ns
  reachable_neighbors x c ns r e =
      each ns (get_neighbors-IsList c ns g x e).0 (λ b m. edge c b ns r e m)
    where
      each :
          (ms : List ℕ)
          → All (λ (b : ℕ). b < g.num_nodes) ms
          → ((b : ℕ) → member b ms ≡ true → Reachable g b)
          → All (λ n. (n < g.num_nodes) × Reachable g n) ms
      each [] a f = tt
      each (m ∷ ms) a f = ((a.0, f m (ground arith)), each ms a.1 (λ b h. f b (ground arith)))

  pub expand_lem :
      IsGraph g
      → (taken c : ℕ) (d fd : D) (cs seen : List (ℕ × D)) (s : Beam S D)
      → s.candidates ≡ (c, d) ∷ cs
      → IsTop fd s.result_heap
      → Beams [] taken seen s
      → (t : Beam S D) × (seen' : List (ℕ × D)) × (expand lt ef_search calls g c
            (record s { candidates = cs; fd = fd })
          ≡ some t)
        × Beams [] (suc taken) seen' t
  unfolding expand
  expand_lem x taken c d fd cs seen s e top v =
      let hits : All (IsHit calls g laws) ((c, d) ∷ cs) =
        subst (All (IsHit calls g laws)) e v.queues.cand_hits in
      let (ns, at) = get_neighbors-some c x hits.0.0 in
      let (t, seen', gives, v', more, all) =
        explore_all-GoesOn lt ef_search calls g laws w positive ns (c ∷ []) (suc taken) seen _
          (take_candidate taken c d fd cs seen s e top v)
          (reachable_neighbors x c ns hits.0.2 at) in
      (
        record t { state = calls.wait_prefetch_completions t.state },
        seen',
        rw (expand, at, gives) refl,
        finish_candidate (suc taken) c ns seen' t at all v',
      )

  -- A result is no candidate once the least candidate is further than the top.
  pub halted-Explored :
      (d fd : D) (c : ℕ) (cs seen : List (ℕ × D)) (r : ℕ × D)
      → lt fd d ≡ true
      → Ordered (NoNearer lt) ((c, d) ∷ cs)
      → lt fd r.1 ≡ false
      → Closed g [] ((c, d) ∷ cs) seen r
      → Explored g seen r.0
  halted-Explored d fd c cs seen r far o h x = elim x [
    | inl m ↦ absurd (cc)
    | inr (inl (inl e)) ↦
        let same : lt fd d ≡ false = subst (λ (y : ℕ × D). lt fd y.1 ≡ false) (sym e) h in
        absurd (cc)
    | inr (inl (inr m)) ↦
        let later : lt r.1 d ≡ false = All-Has (NoNearer lt (c, d)) r cs o.0 m in
        let same : lt fd d ≡ false = w.not_lt_trans d r.1 fd later h in absurd (cc)
    | inr (inr y) ↦ y
  ]
