-- ===== src/Engine/Query/Results.antt =====
-- The rounds end, and what the search answers.
use agent_mem_io.Prelude.{
  ℕ, zero, suc, ◌+◌, ◌<◌, ◌≤◌, ◌≡◌, refl, subst, ap, Bool, true, false, List, [], ◌∷◌, length, All,
  arith, inl, inr, Bool-cases, List-cases,
}
use agent_mem_io.Graph.Nav.{Nav}
use agent_mem_io.Graph.Nav.Degrees.{IsGraph}
use agent_mem_io.Graph.Search.Queues.{ids, length-Distinct-le}
use agent_mem_io.Engine.Order.{IsWeakOrder, irrefl, All-map, Ordered}
use agent_mem_io.Engine.Query.{Calls, Beam, Walk, ended, halts, rounds}
use agent_mem_io.Engine.Query.Beams.{IsCalls, NoNearer, IsTop, Explored, Closed, IsHit}
use agent_mem_io.Engine.Query.Rounds.{IsBeam}
use agent_mem_io.Engine.Query.Expand.{expand_lem, halted-Explored}

module _ {S D : Type 0} (lt : D → D → Bool) (ef_search : ℕ) (calls : Calls S D) (g : Nav)
    (laws : IsCalls calls g) (w : IsWeakOrder lt) (positive : 1 ≤ ef_search) where
  abbrev pub Beams : List ℕ → ℕ → List (ℕ × D) → Beam S D → Type 0
  Beams = IsBeam lt ef_search calls g laws

  -- The state at the end: every result was explored.
  abbrev pub Ends : Walk S D → Type 0
  Ends o =
      (s : Beam S D) × (taken : ℕ) × (seen : List (ℕ × D)) × (o ≡ ended s)
      × Beams [] taken seen s
      × All (λ r. Explored g seen r.0) s.result_heap

  -- No candidate is left.
  idle-Explored :
      (cands seen best : List (ℕ × D))
      → cands ≡ []
      → All (Closed g [] cands seen) best
      → All (λ r. Explored g seen r.0) best
  idle-Explored cands seen best e a =
      All-map (Closed g [] [] seen) (λ r. Explored g seen r.0) best
        (λ r x. elim x [ inl m ↦ absurd (cc) | inr (inl m) ↦ absurd m | inr (inr y) ↦ y ])
        (subst (λ x. All (Closed g [] x seen) best) e a)

  halted-All :
      (d fd : D) (c : ℕ) (cs cands seen best : List (ℕ × D))
      → lt fd d ≡ true
      → cands ≡ (c, d) ∷ cs
      → Ordered (NoNearer lt) cands
      → IsTop fd best
      → Ordered (λ p q. lt p.1 q.1 ≡ false) best
      → All (Closed g [] cands seen) best
      → All (λ r. Explored g seen r.0) best
  halted-All d fd c cs cands seen [] far e o top p a = tt
  halted-All d fd c cs cands seen (r ∷ rs) far e o top p a =
      let o' : Ordered (NoNearer lt) ((c, d) ∷ cs) = subst (Ordered (NoNearer lt)) e o in
      let a' = subst (λ x. All (Closed g [] x seen) (r ∷ rs)) e a in
      let step = halted-Explored lt ef_search calls g laws w positive d fd c cs seen in
      (
        step r far o' (subst (λ x. lt x r.1 ≡ false) top (self r.1)) a'.0,
        each rs (subst (λ x. All (λ q. lt x q.1 ≡ false) rs) top p.0) a'.1,
      )
    where
      self : (x : D) → lt x x ≡ false
      self x = irrefl lt w x

      each :
          (qs : List (ℕ × D))
          → All (λ q. lt fd q.1 ≡ false) qs
          → All (Closed g [] ((c, d) ∷ cs) seen) qs
          → All (λ r. Explored g seen r.0) qs
      each [] b x = tt
      each (q ∷ qs) b x = (
        halted-Explored lt ef_search calls g laws w positive d fd c cs seen q far
            (subst (Ordered (NoNearer lt)) e o) b.0 x.0,
        each qs b.1 x.1,
      )

  pub rounds-Ends :
      IsGraph g
      → (fuel taken : ℕ) (seen : List (ℕ × D)) (s : Beam S D) → g.num_nodes ≤ fuel + taken
      → Beams [] taken seen s
      → Ends (rounds lt ef_search calls g fuel s)
  unfolding rounds
  rounds-Ends x zero taken seen s enough v = elim (List-cases s.candidates) [
    | inl e ↦
        rw (e, rounds)
          (s, taken, seen, refl, v, idle-Explored s.candidates seen s.result_heap e v.queues.closed)
    | inr (p, ps, e) ↦
        let l : length s.candidates ≡ suc (length ps) = ap length e in
        absurd (
          omega (
            arith,
            l,
            v.queues.count,
            enough,
            length-Distinct-le g.num_nodes (ids seen) v.queues.seen_distinct
                (below seen v.queues.seen_hits),
            ids_length seen,
          ))
  ]
    where
      below :
          (qs : List (ℕ × D))
          → All (IsHit calls g laws) qs
          → All (λ (a : ℕ). a < g.num_nodes) (ids qs)
      below [] a = tt
      below (q ∷ qs) a = (a.0.0, below qs a.1)

      ids_length : (qs : List (ℕ × D)) → length (ids qs) ≡ length qs
      ids_length [] = refl
      ids_length (q ∷ qs) = ap suc (ids_length qs)
  rounds-Ends x (suc fuel) taken seen s enough v = elim (List-cases s.candidates) [
    | inl e ↦
        rw (e, rounds)
          (s, taken, seen, refl, v, idle-Explored s.candidates seen s.result_heap e v.queues.closed)
    | inr (p, ps, e) ↦ elim (List-cases s.result_heap) [
      | inl f ↦
          let l : length s.result_heap ≡ 0 = ap length f in
          absurd (omega (arith, l, v.queues.best_some))
      | inr (r, rs, f) ↦
          let top : IsTop r.1 s.result_heap = rw f refl in
          elim (Bool-cases (halts lt ef_search p.1 r.1 (length (r ∷ rs)))) [
            | inl halt ↦
                rw (e, f, rounds, halt)
                  (
                    s,
                    taken,
                    seen,
                    refl,
                    v,
                    halted-All p.1 r.1 p.0 ps s.candidates seen s.result_heap (ground (arith, halt))
                        e v.queues.cand_order top v.queues.best_order v.queues.closed,
                  )
            | inr go ↦
                let (t, seen', gives, v') =
                  expand_lem lt ef_search calls g laws w positive x taken p.0 p.1 r.1 ps seen s e
                    top v in
                rw (e, f, rounds, go, gives)
                  (rounds-Ends x fuel (suc taken) seen' t (omega (arith, enough)) v')
          ]
    ]
  ]
