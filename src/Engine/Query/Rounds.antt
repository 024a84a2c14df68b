-- ===== src/Engine/Query/Rounds.antt =====
-- The loop over the neighbours, and the rounds, on the whole state of the search.
use agent_mem_io.Prelude.{
  ℕ, suc, ◌<◌, ◌≤◌, ◌≡◌, refl, sym, subst, ap, ◌∙◌, Bool, true, false, ◌||◌, Option, none, some,
  List, [], ◌∷◌, length, All, member, ltb, leb, ◌==◌, arith, inl, inr, Bool-cases,
}
use agent_mem_io.Graph.Nav.{Nav}
use agent_mem_io.Graph.Search.Queues.{Reachable, ids}
use agent_mem_io.Graph.Visited
use agent_mem_io.Graph.Visited.Marks.{IsBitmap, test-mark}
use agent_mem_io.Engine.Order.{IsWeakOrder}
use agent_mem_io.Engine.Query.{
  Calls, Beam, push_candidate, push_result, refresh, admit, admit_measured, explore, explore_all,
}
use agent_mem_io.Engine.Query.Beams.{IsCalls, shrink-cases, IsTop, IsHit, IsQueues}
use agent_mem_io.Engine.Query.Admits.{refused-IsQueues, grown-IsQueues, popped-IsQueues}

module _ {S D : Type 0} (lt : D → D → Bool) (ef_search : ℕ) (calls : Calls S D) (g : Nav)
    (laws : IsCalls calls g) where
  -- The invariant of the loop over the neighbours of the nodes in `busy`.
  pub record IsBeam (busy : List ℕ) (taken : ℕ) (seen : List (ℕ × D)) (s : Beam S D) : Type 0 where
    pub queues :
        IsQueues lt ef_search calls g laws ef_search busy taken s.result_heap s.candidates seen
    pub top : IsTop s.fd s.result_heap
    pub bitmap : IsBitmap s.visited
    pub marks : (n : ℕ) → n < g.num_nodes → Visited.test n s.visited ≡ member n (ids seen)
    pub good : laws.Ok s.state

  -- What an admission gives: the queues with one more pair seen, the rest as before.
  record Admitted (busy : List ℕ) (taken : ℕ) (seen : List (ℕ × D)) (s : Beam S D)
      (o : Option (Beam S D)) : Type 0 where
    after : Beam S D
    gives : o ≡ some after
    queues' :
        IsQueues lt ef_search calls g laws ef_search busy taken after.result_heap after.candidates
          seen
    top' : IsTop after.fd after.result_heap
    visited' : after.visited ≡ s.visited
    state' : after.state ≡ s.state

  refresh-Admitted :
      (busy : List ℕ) (taken : ℕ) (seen b : List (ℕ × D)) (s : Beam S D)
      → IsQueues lt ef_search calls g laws ef_search busy taken b s.candidates seen
      → Admitted busy taken seen s (refresh b s)
  refresh-Admitted busy taken seen [] s v = absurd (omega (arith, v.best_some))
  refresh-Admitted busy taken seen (q ∷ qs) s v = record {
    after = record s { result_heap = q ∷ qs; fd = q.1 };
    gives = refl;
    queues' = v;
    top' = refl;
    visited' = refl;
    state' = refl;
  }

  module _ (w : IsWeakOrder lt) (positive : 1 ≤ ef_search) where
    admit-Admitted :
        (busy : List ℕ) (taken : ℕ) (seen : List (ℕ × D)) (s : Beam S D) (p : ℕ × D)
        → IsQueues lt ef_search calls g laws ef_search busy taken s.result_heap s.candidates seen
        → IsTop s.fd s.result_heap
        → IsHit calls g laws p
        → member p.0 (ids seen) ≡ false
        → Admitted busy taken (p ∷ seen) s (admit lt ef_search p s)
    unfolding admit
    admit-Admitted busy taken seen s p v top hit fresh =
        elim (Bool-cases (ltb (length s.result_heap) ef_search || lt p.1 s.fd)) [
          | inr stays ↦
              rw (stays, admit)
                (record {
                  after = s;
                  gives = refl;
                  queues' =
                      refused-IsQueues lt ef_search calls g laws w busy taken s.result_heap
                        s.candidates seen v s.fd top p hit fresh (ground (arith, stays))
                        (ground (arith, stays));
                  top' = top;
                  visited' = refl;
                  state' = refl;
                })
          | inl goes ↦
              let b = push_result lt p s.result_heap in
              let t =
                grown-IsQueues lt ef_search calls g laws w busy taken s.result_heap s.candidates
                  seen v s.fd top p hit fresh goes in
              elim (shrink-cases ef_search b t.best_few) [
                | inl (same, l) ↦
                    rw (goes, admit, same)
                      (widen (refresh-Admitted busy taken (p ∷ seen) b _ (few b _ _ l t)))
                | inr (q, qs, at, cut, l) ↦
                    rw (goes, admit, cut)
                      (widen (
                        refresh-Admitted busy taken (p ∷ seen) qs _ (
                          popped-IsQueues lt ef_search calls g laws busy taken q qs _ _ positive l (
                            subst
                              (λ x.
                                IsQueues lt ef_search calls g laws (suc ef_search) busy taken x
                                  (push_candidate lt p s.candidates) (p ∷ seen))
                              at t))))
              ]
        ]
      where
        few :
            (b cands seen' : List (ℕ × D))
            → length b ≤ ef_search
            → IsQueues lt ef_search calls g laws (suc ef_search) busy taken b cands seen'
            → IsQueues lt ef_search calls g laws ef_search busy taken b cands seen'
        few b cands seen' l t = record {
          best_hits = t.best_hits;
          best_distinct = t.best_distinct;
          best_seen = t.best_seen;
          best_order = t.best_order;
          best_some = t.best_some;
          best_few = l;
          cand_hits = t.cand_hits;
          cand_order = t.cand_order;
          seen_hits = t.seen_hits;
          seen_distinct = t.seen_distinct;
          entry_seen = t.entry_seen;
          kept = t.kept;
          closed = t.closed;
          count = t.count;
        }

        widen :
            {cands : List (ℕ × D)} {seen' : List (ℕ × D)} {o : Option (Beam S D)}
            → Admitted busy taken seen' (record s { candidates = cands }) o
            → Admitted busy taken seen' s o
        widen a = record {
          after = a.after;
          gives = a.gives;
          queues' = a.queues';
          top' = a.top';
          visited' = a.visited';
          state' = a.state';
        }

    -- What a step of the loop over the neighbours gives: it goes on, and has seen what it had seen.
    abbrev pub GoesOn : List ℕ → ℕ → List (ℕ × D) → List ℕ → Option (Beam S D) → Type 0
    GoesOn busy taken seen ns o =
        (t : Beam S D) × (seen' : List (ℕ × D)) × (o ≡ some t)
        × IsBeam busy taken seen' t
        × ((a : ℕ) → member a (ids seen) ≡ true → member a (ids seen') ≡ true)
        × All (λ m. member m (ids seen') ≡ true) ns

    admit_measured-some :
        (n : ℕ) (d : D) (m : Option D × S) (s : Beam S D)
        → m.0 ≡ some d
        → admit_measured lt ef_search n m s ≡ admit lt ef_search (n, d) (record s { state = m.1 })
    admit_measured-some n d (none, q) s e = absurd (cc)
    admit_measured-some n d (some x, q) s e = let same : x ≡ d = cc in rw same refl

    visit-GoesOn :
        (busy : List ℕ) (taken n : ℕ) (seen : List (ℕ × D)) (s : Beam S D)
        → IsBeam busy taken seen s
        → n < g.num_nodes
        → Reachable g n
        → Visited.test n s.visited ≡ false
        → GoesOn busy taken seen (n ∷ []) (
            admit_measured lt ef_search n
              (calls.measure n s.state)
              (record s { visited = Visited.mark n s.visited }))
    visit-GoesOn busy taken n seen s v inside r miss =
        let (d, e, right, ok) = laws.measured n s.state inside v.good in
        let s' : Beam S D = record s {
          visited = Visited.mark n s.visited;
          state = (calls.measure n s.state).1;
        } in
        let fresh : member n (ids seen) ≡ false = sym (v.marks n inside) ∙ miss in
        let a = admit-Admitted busy taken seen s' (n, d) v.queues v.top (inside, right, r) fresh in
        rw (admit_measured-some n d (calls.measure n s.state) _ e) (
          a.after,
          (n, d) ∷ seen,
          a.gives,
          record {
            queues = a.queues';
            top = a.top';
            bitmap = subst IsBitmap (sym a.visited') (test-mark n n s.visited v.bitmap).1;
            marks = λ m below.
                subst (λ b. Visited.test m b ≡ ((n == m) || member m (ids seen))) (sym a.visited')
                  ((test-mark n m s.visited v.bitmap).0
                    ∙ ap (λ x. (n == m) || x) (v.marks m below));
            good = subst laws.Ok (sym a.state') ok;
          },
          (λ m h. ground (arith, h)),
          (ground arith, tt),
        )

    explore-GoesOn :
        (busy : List ℕ) (taken n : ℕ) (seen : List (ℕ × D)) (s : Beam S D)
        → IsBeam busy taken seen s
        → n < g.num_nodes
        → Reachable g n
        → GoesOn busy taken seen (n ∷ []) (explore lt ef_search calls g n s)
    unfolding explore
    explore-GoesOn busy taken n seen s v inside r =
        let out : leb g.num_nodes n ≡ false = ground (arith, inside) in
        elim (Bool-cases (Visited.test n s.visited)) [
          | inl e ↦
              rw (out, explore, e) (s, seen, refl, v, λ a h. h, (sym (v.marks n inside) ∙ e, tt))
          | inr e ↦ rw (out, explore, e) (visit-GoesOn busy taken n seen s v inside r e)
        ]

    pub explore_all-GoesOn :
        (ns : List ℕ) (busy : List ℕ) (taken : ℕ) (seen : List (ℕ × D)) (s : Beam S D)
        → IsBeam busy taken seen s
        → All (λ n. (n < g.num_nodes) × Reachable g n) ns
        → GoesOn busy taken seen ns (explore_all lt ef_search calls g ns s)
    unfolding explore_all
    explore_all-GoesOn [] busy taken seen s v a = (s, seen, refl, v, λ a h. h, tt)
    explore_all-GoesOn (n ∷ ns) busy taken seen s v a =
        let (t, seen', e, v', more, one) = explore-GoesOn busy taken n seen s v a.0.0 a.0.1 in
        let (u, seen'', e', v'', more', rest) = explore_all-GoesOn ns busy taken seen' t v' a.1 in
        rw (e, explore_all) (u, seen'', e', v'', λ m h. more' m (more m h), (more' n one.0, rest))
