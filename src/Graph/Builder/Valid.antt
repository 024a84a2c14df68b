-- ===== src/Graph/Builder/Valid.antt =====
-- The graph stays well formed while it is built and while it grows.
use agent_mem_io.Prelude.{
  ℕ, ◌+◌, ◌<◌, ◌≤◌, ◌≡◌, ◌⊎◌, refl, sym, ◌∙◌, subst, ap, Bool, true, false, some, List, [], ◌∷◌,
  ◌++◌, length, All, Distinct, member, ltb, arith, inl, inr, Option-cases, member-append,
  append-Distinct, length-append,
}
use agent_mem_io.Graph.Nav.{Nav, get_neighbors, set_neighbors, add_neighbor, link, get_degree}
use agent_mem_io.Graph.Nav.Degrees.{
  IsList, IsGraph, get_neighbors-IsList, set_neighbors-IsGraph, add_neighbor-IsGraph,
}
use agent_mem_io.Graph.Prune.{robust_prune, prune_sorted}
use agent_mem_io.Graph.Prune.Spread.{robust_prune-Chosen}
use agent_mem_io.Graph.Search.Queues.{ids, Reachable, get_neighbors-some}
use agent_mem_io.Graph.Search.Ends.{search_for_construction-Finds}
use agent_mem_io.Graph.Builder.{Config, fill, choose, add_reverse, improve}

-- The sizes, the bound and the entry point are those of the other graph.
abbrev pub SameFrame : Nav → Nav → Type 0
SameFrame g g' =
    (g'.num_nodes ≡ g.num_nodes) × (g'.max_degree ≡ g.max_degree) × (g'.entry_point ≡ g.entry_point)

pub add_neighbor-SameFrame : (n node : ℕ) (g : Nav) → SameFrame g (add_neighbor n node g).1
unfolding add_neighbor link set_neighbors
add_neighbor-SameFrame n node g = (ground arith, ground arith, ground arith)

fill_lem :
    (max_degree : ℕ) (ns acc : List ℕ)
    → length acc + length ns ≤ max_degree
    → fill max_degree ns acc ≡ acc ++ ns
unfolding fill
fill_lem max_degree [] acc h = sym (append_nil acc)
  where
    append_nil : (xs : List ℕ) → xs ++ [] ≡ xs
    append_nil [] = refl
    append_nil (x ∷ xs) = ap (◌∷◌ x) (append_nil xs)
fill_lem max_degree (n ∷ ns) acc h =
    let room : ltb (length acc) max_degree ≡ true = ground (arith, h) in
    rw (room, append_one acc n ns)
      (fill_lem max_degree ns (acc ++ n ∷ []) (omega (arith, length-append acc (n ∷ []), h)))
  where
    append_one : (xs : List ℕ) (y : ℕ) (ys : List ℕ) → xs ++ y ∷ ys ≡ (xs ++ y ∷ []) ++ ys
    append_one [] y ys = refl
    append_one (x ∷ xs) y ys = ap (◌∷◌ x) (append_one xs y ys)

pub add_reverse-IsGraph :
    (node : ℕ) (ns : List ℕ) (g : Nav)
    → IsGraph g
    → IsGraph (add_reverse node ns g) × SameFrame g (add_reverse node ns g)
unfolding add_reverse
add_reverse-IsGraph node [] g x = (x, (refl, refl, refl))
add_reverse-IsGraph node (n ∷ ns) g x =
    let (a, b, c) = add_neighbor-SameFrame n node g in
    let (y, f) =
      add_reverse-IsGraph node ns (add_neighbor n node g).1 (add_neighbor-IsGraph n node g x) in
    (y, (f.0 ∙ a, f.1 ∙ b, f.2 ∙ c))

-- No list of a graph is longer than its bound.
pub get_degree-le : (n : ℕ) (g : Nav) → IsGraph g → get_degree n g ≤ g.max_degree
unfolding get_degree
get_degree-le n g x = elim (Option-cases (get_neighbors n g)) [
  | inl e ↦ rw (e, get_degree) (omega arith)
  | inr (ns, e) ↦
      let (a, d, l) = get_neighbors-IsList n ns g x e in rw (e, get_degree) (omega (arith, l))
]

-- The sort keeps the candidates: what holds of all of them, and that they are distinct.
pub record IsSort {D : Type 0} (sort : List (ℕ × D) → List (ℕ × D)) : Type 1 where
  pub keeps : (P : ℕ → Type 0) (cs : List (ℕ × D)) → All P (ids cs) → All P (ids (sort cs))
  pub distinct : (cs : List (ℕ × D)) → Distinct (ids cs) → Distinct (ids (sort cs))

module _ {D : Type 0} (lt : D → D → Bool) (scale : D → D) (distance : ℕ → ℕ → D) where
  prune_sorted_next :
      (max_degree node : ℕ) (p : ℕ × D) (cs : List (ℕ × D)) (result : List ℕ)
      → let pruned = prune_sorted lt scale distance max_degree node in
        (pruned (p ∷ cs) result ≡ result)
        ⊎ (pruned (p ∷ cs) result ≡ pruned cs result)
        ⊎ (pruned (p ∷ cs) result ≡ pruned cs (result ++ p.0 ∷ []))
  unfolding prune_sorted
  prune_sorted_next max_degree node p cs result = ground arith

  -- What is chosen from distinct candidates is distinct, and of what the candidates are.
  pub prune_sorted-Distinct :
      (P : ℕ → Type 0) (max_degree node : ℕ) (cs : List (ℕ × D)) (result : List ℕ)
      → Distinct (ids cs)
      → Distinct result
      → All (λ a. member a result ≡ false) (ids cs)
      → All P (ids cs)
      → All P result
      → Distinct (prune_sorted lt scale distance max_degree node cs result)
        × All P (prune_sorted lt scale distance max_degree node cs result)
  unfolding prune_sorted
  prune_sorted-Distinct P max_degree node [] result d e a b c = (e, c)
  prune_sorted-Distinct P max_degree node (p ∷ cs) result d e a b c =
      let skip = prune_sorted-Distinct P max_degree node cs result d.1 e a.1 b.1 c in
      let taken =
        prune_sorted-Distinct P max_degree node cs (result ++ p.0 ∷ []) d.1
          (append-Distinct p.0 result e a.0) (still_apart (ids cs) d.0 a.1) b.1
          (All-snoc result c b.0) in
      let Good : List ℕ → Type 0 = λ out. Distinct out × All P out in
      elim (prune_sorted_next max_degree node p cs result) [
        | inl same ↦ subst Good (sym same) (e, c)
        | inr (inl same) ↦ subst Good (sym same) skip
        | inr (inr same) ↦ subst Good (sym same) taken
      ]
    where
      All-snoc : (xs : List ℕ) → All P xs → P p.0 → All P (xs ++ p.0 ∷ [])
      All-snoc [] h k = (k, tt)
      All-snoc (x ∷ xs) h k = (h.0, All-snoc xs h.1 k)

      still_apart :
          (xs : List ℕ)
          → member p.0 xs ≡ false
          → All (λ y. member y result ≡ false) xs
          → All (λ y. member y (result ++ p.0 ∷ []) ≡ false) xs
      still_apart [] m h = tt
      still_apart (x ∷ xs) m h = (
        ground (arith, m, h.0, member-append x result (p.0 ∷ [])),
        still_apart xs (ground (arith, m)) h.1,
      )

  module _ (sort : List (ℕ × D) → List (ℕ × D)) (sorts : IsSort sort) (config : Config) where
    robust_prune-IsList :
        (n node : ℕ) (cs : List (ℕ × D))
        → Distinct (ids cs)
        → All (λ (x : ℕ). x < n) (ids cs)
        → IsList n config.max_degree (robust_prune lt scale distance sort config.max_degree node cs)
    unfolding robust_prune
    robust_prune-IsList n node [] d a = (tt, tt, omega arith)
    robust_prune-IsList n node (c ∷ cs) d a =
        let ((ps, same, spread, absent, few), settled) =
          robust_prune-Chosen lt scale distance sort config.max_degree node (c ∷ cs) in
        let (e, h) =
          prune_sorted-Distinct (λ (x : ℕ). x < n) config.max_degree node (sort (c ∷ cs)) []
            (sorts.distinct (c ∷ cs) d) tt (none_member (ids (sort (c ∷ cs))))
            (sorts.keeps (λ (x : ℕ). x < n) (c ∷ cs) a) tt in
        (h, e, few)
      where
        none_member : (xs : List ℕ) → All (λ a. member a [] ≡ false) xs
        none_member [] = tt
        none_member (x ∷ xs) = (refl, none_member xs)

    choose_lem :
        (node : ℕ) (cs : List (ℕ × D))
        → choose lt scale sort config distance node cs
          ≡ robust_prune lt scale distance sort config.max_degree node cs
    unfolding choose
    choose_lem node cs =
        let ((ps, same, spread, absent, few), settled) =
          robust_prune-Chosen lt scale distance sort config.max_degree node cs in
        fill_lem config.max_degree (robust_prune lt scale distance sort config.max_degree node cs)
          [] (omega (arith, few))

    module _ (g : Nav) (x : IsGraph g) (degree : g.max_degree ≡ config.max_degree) where
      choose-IsList :
          (node : ℕ) (cs : List (ℕ × D))
          → Distinct (ids cs)
          → All (λ (x : ℕ). x < g.num_nodes) (ids cs)
          → IsList g.num_nodes g.max_degree (choose lt scale sort config distance node cs)
      choose-IsList node cs d a =
          rw (choose_lem node cs, degree) (robust_prune-IsList g.num_nodes node cs d a)

    module _ (g : Nav) (x : IsGraph g) (degree : g.max_degree ≡ config.max_degree)
        (inside : g.entry_point < g.num_nodes) where
      -- What the search finds are candidates that the pruning takes.
      pub found-All :
          (near : ℕ → D) (out : List (ℕ × D))
          → All (λ p. (p.0 < g.num_nodes) × (p.1 ≡ near p.0) × Reachable g p.0) out
          → All (λ (y : ℕ). y < g.num_nodes) (ids out)
      found-All near [] a = tt
      found-All near (p ∷ ps) a = (a.0.0, found-All near ps a.1)

      pub chosen-IsGraph :
          (node : ℕ) (cs : List (ℕ × D))
          → Distinct (ids cs)
          → All (λ (y : ℕ). y < g.num_nodes) (ids cs)
          → IsGraph (set_neighbors node (choose lt scale sort config distance node cs) g)
      chosen-IsGraph node cs d a =
          set_neighbors-IsGraph node (choose lt scale sort config distance node cs) g x
            (choose-IsList g x degree node cs d a)

      pub set_chosen-IsGraph :
          (node : ℕ) (cs : List (ℕ × D))
          → Distinct (ids cs)
          → All (λ (y : ℕ). y < g.num_nodes) (ids cs)
          → let chosen = choose lt scale sort config distance node cs in
            IsGraph (add_reverse node chosen (set_neighbors node chosen g))
            × SameFrame g (add_reverse node chosen (set_neighbors node chosen g))
      set_chosen-IsGraph node cs d a =
          let chosen = choose lt scale sort config distance node cs in
          let (z, f) =
            add_reverse-IsGraph node chosen (set_neighbors node chosen g)
              (chosen-IsGraph node cs d a) in
          (z, unfold set_neighbors in f)

      pub improve-IsGraph :
          (fits : ℕ → ℕ → Bool) (node : ℕ)
          → ((a b : ℕ) → a < g.num_nodes → b < g.num_nodes → fits a b ≡ true)
          → node < g.num_nodes
          → (g' : Nav) × (improve lt scale sort config distance fits node g ≡ some g')
            × IsGraph g'
            × SameFrame g g'
      unfolding improve
      improve-IsGraph fits node all h =
          let (out, e, r) =
            search_for_construction-Finds lt (distance node) config.search_list_size g (fits node) x
              inside (λ n. all node n h) in
          let (ns, at) = get_neighbors-some node x h in
          let (y, f) =
            set_chosen-IsGraph node out r.distinct (found-All (distance node) out r.hits) in
          (_, rw (e, improve, at) refl, y, f)
