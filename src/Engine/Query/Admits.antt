-- ===== src/Engine/Query/Admits.antt =====
-- A neighbour of the search keeps the invariant.
use agent_mem_io.Prelude.{
  ℕ, suc, ◌≤◌, ◌≡◌, sym, subst, Bool, true, false, ◌||◌, List, [], ◌∷◌, length, All, member, ltb,
  arith, inl, inr,
}
use agent_mem_io.Graph.Nav.{Nav}
use agent_mem_io.Graph.Search.Queues.{ids, push-All, length-push, member-push, push-Distinct}
use agent_mem_io.Engine.Order.{IsWeakOrder, All-map, push-Has, push-Has_new, Ordered}
use agent_mem_io.Engine.Query.{Calls, pair_lt, push_candidate, push_result}
use agent_mem_io.Engine.Query.Beams.{
  IsCalls, NoFurther, NoNearer-push, NoFurther-push, IsHit, Kept, Explored, Closed, IsQueues, IsTop,
}

module _ {S D : Type 0} (lt : D → D → Bool) (ef_search : ℕ) (calls : Calls S D) (g : Nav)
    (laws : IsCalls calls g) where
  abbrev pub Hit : ℕ × D → Type 0
  Hit = IsHit calls g laws

  abbrev pub Queues : ℕ → List ℕ → ℕ → List (ℕ × D) → List (ℕ × D) → List (ℕ × D) → Type 0
  Queues = IsQueues lt ef_search calls g laws

  Explored-cons :
      (p : ℕ × D) (seen : List (ℕ × D)) (a : ℕ) → Explored g seen a → Explored g (p ∷ seen) a
  Explored-cons p seen a (ns, e, all) = (ns, e, each ns all)
    where
      each :
          (ms : List ℕ)
          → All (λ m. member m (ids seen) ≡ true) ms
          → All (λ m. member m (ids (p ∷ seen)) ≡ true) ms
      each [] b = tt
      each (m ∷ ms) b = (ground (arith, b.0), each ms b.1)

  Closed-push :
      (busy : List ℕ) (cands seen : List (ℕ × D)) (p r : ℕ × D)
      → Closed g busy cands seen r
      → Closed g busy (push_candidate lt p cands) (p ∷ seen) r
  Closed-push busy cands seen p r c = elim c [
    | inl b ↦ inl b
    | inr (inl h) ↦ inr (inl (push-Has (pair_lt lt) p r cands h))
    | inr (inr x) ↦ inr (inr (Explored-cons p seen r.0 x))
  ]

  Closed-skip :
      (busy : List ℕ) (cands seen : List (ℕ × D)) (p r : ℕ × D)
      → Closed g busy cands seen r
      → Closed g busy cands (p ∷ seen) r
  Closed-skip busy cands seen p r c = elim c [
    | inl b ↦ inl b
    | inr (inl h) ↦ inr (inl h)
    | inr (inr x) ↦ inr (inr (Explored-cons p seen r.0 x))
  ]

  -- What is no nearer than the top is no nearer than any result, and the other way round.
  below_top :
      IsWeakOrder lt
      → (fd d : D) (best : List (ℕ × D)) → IsTop fd best
      → Ordered (NoFurther lt) best
      → lt d fd ≡ false
      → All (λ r. lt d r.1 ≡ false) best
  below_top w fd d [] t o h = tt
  below_top w fd d (q ∷ qs) t o h =
      let h' : lt d q.1 ≡ false = subst (λ x. lt d x ≡ false) (sym t) h in
      (
        h',
        All-map (NoFurther lt q) (λ r. lt d r.1 ≡ false) qs (λ r e. w.not_lt_trans r.1 q.1 d e h')
            o.0,
      )

  top_below :
      (fd d : D) (best : List (ℕ × D))
      → IsTop fd best
      → All (λ r. lt d r.1 ≡ false) best
      → lt d fd ≡ false
  top_below fd d [] t a = absurd t
  top_below fd d (q ∷ qs) t a = subst (λ x. lt d x ≡ false) t a.0

  module _ (w : IsWeakOrder lt) (busy : List ℕ) (taken : ℕ) (best cands seen : List (ℕ × D))
      (v : Queues ef_search busy taken best cands seen) (fd : D) (top : IsTop fd best) (p : ℕ × D)
      (hit : Hit p) (fresh : member p.0 (ids seen) ≡ false) where
    -- A pair that is not admitted.
    pub refused-IsQueues :
        ef_search ≤ length best
        → lt p.1 fd ≡ false
        → Queues ef_search busy taken best cands (p ∷ seen)
    refused-IsQueues full far = record {
      best_hits = v.best_hits;
      best_distinct = v.best_distinct;
      best_seen = λ a m. ground (arith, v.best_seen a m);
      best_order = v.best_order;
      best_some = v.best_some;
      best_few = v.best_few;
      cand_hits = v.cand_hits;
      cand_order = v.cand_order;
      seen_hits = (hit, v.seen_hits);
      seen_distinct = (fresh, v.seen_distinct);
      entry_seen = ground (arith, v.entry_seen);
      kept = (inr (full, below_top w fd p.1 best top v.best_order far), v.kept);
      closed =
          All-map (Closed g busy cands seen) (Closed g busy cands (p ∷ seen)) best
            (Closed-skip busy cands seen p) v.closed;
      count = omega (arith, v.count);
    }

    abbrev pub grown : List (ℕ × D)
    grown = push_result lt p best

    grown-Kept :
        (ltb (length best) ef_search || lt p.1 fd) ≡ true
        → (x : ℕ × D) → Kept lt ef_search best x
        → Kept lt ef_search grown x
    grown-Kept goes x k = elim k [
      | inl h ↦ inl (push-Has _ p x best h)
      | inr (full, far) ↦
          let near : lt p.1 fd ≡ true = ground (arith, goes, full) in
          let far_p : lt x.1 p.1 ≡ false =
            w.not_lt_trans p.1 fd x.1 (w.asym p.1 fd near) (top_below fd x.1 best top far) in
          inr (
            omega (arith, full, length-push (λ p q. pair_lt lt q p) p best),
            push-All (λ r. lt x.1 r.1 ≡ false) _ p best far_p far,
          )
    ]

    pub grown-IsQueues :
        (ltb (length best) ef_search || lt p.1 fd) ≡ true
        → Queues (suc ef_search) busy taken grown (push_candidate lt p cands) (p ∷ seen)
    grown-IsQueues goes =
        let l = length-push (λ p q. pair_lt lt q p) p best in
        let absent : member p.0 (ids best) ≡ false = ground (arith, fresh, v.best_seen p.0) in
        record {
          best_hits = push-All Hit _ p best hit v.best_hits;
          best_distinct = push-Distinct _ p best absent v.best_distinct;
          best_seen =
              λ a m. ground (arith, m, member-push (λ p q. pair_lt lt q p) a p best, v.best_seen a);
          best_order = NoFurther-push lt w p best v.best_order;
          best_some = omega (arith, l);
          best_few = omega (arith, l, v.best_few);
          cand_hits = push-All Hit _ p cands hit v.cand_hits;
          cand_order = NoNearer-push lt w p cands v.cand_order;
          seen_hits = (hit, v.seen_hits);
          seen_distinct = (fresh, v.seen_distinct);
          entry_seen = ground (arith, v.entry_seen);
          kept = (
            inl (push-Has_new _ p best),
            All-map (Kept lt ef_search best) (Kept lt ef_search grown) seen (grown-Kept goes)
                v.kept,
          );
          closed =
              push-All (Closed g busy (push_candidate lt p cands) (p ∷ seen)) _ p best
                (inr (inl (push-Has_new (pair_lt lt) p cands)))
                (All-map (Closed g busy cands seen)
                  (Closed g busy (push_candidate lt p cands) (p ∷ seen)) best
                  (Closed-push busy cands seen p) v.closed);
          count = omega (arith, length-push (pair_lt lt) p cands, v.count);
        }

  -- A heap that is one too large loses a furthest pair.
  popped-Kept :
      (q : ℕ × D) (qs : List (ℕ × D))
      → All (NoFurther lt q) qs
      → ef_search ≤ length qs
      → (x : ℕ × D) → Kept lt ef_search (q ∷ qs) x
      → Kept lt ef_search qs x
  popped-Kept q qs o full x k = elim k [
    | inl (inl e) ↦ inr (full, subst (λ (y : ℕ × D). All (λ r. lt y.1 r.1 ≡ false) qs) e o)
    | inl (inr h) ↦ inl h
    | inr (l, far) ↦ inr (full, far.1)
  ]

  pub popped-IsQueues :
      (busy : List ℕ) (taken : ℕ) (q : ℕ × D) (qs cands seen : List (ℕ × D))
      → 1 ≤ ef_search
      → length qs ≡ ef_search
      → Queues (suc ef_search) busy taken (q ∷ qs) cands seen
      → Queues ef_search busy taken qs cands seen
  popped-IsQueues busy taken q qs cands seen positive l v = record {
    best_hits = v.best_hits.1;
    best_distinct = v.best_distinct.1;
    best_seen = λ a m. v.best_seen a (ground (arith, m));
    best_order = v.best_order.1;
    best_some = omega (arith, l, positive);
    best_few = omega (arith, l);
    cand_hits = v.cand_hits;
    cand_order = v.cand_order;
    seen_hits = v.seen_hits;
    seen_distinct = v.seen_distinct;
    entry_seen = v.entry_seen;
    kept =
        All-map (Kept lt ef_search (q ∷ qs)) (Kept lt ef_search qs) seen
          (popped-Kept q qs v.best_order.0 (omega (arith, l))) v.kept;
    closed = v.closed.1;
    count = v.count;
  }
