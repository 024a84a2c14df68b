-- ===== src/Graph/Builder/Grow.antt =====
-- Whole constructions and single insertions keep the graph well formed.
use agent_mem_io.Prelude.{
  ℕ, zero, suc, ◌+◌, ◌-◌, ◌<◌, ◌≤◌, min, ◌≡◌, refl, sym, ◌∙◌, subst, ap, ◌^◌, Bool, true, false,
  some, List, [], ◌∷◌, length, take, replicate, length-replicate, length-take, All, Distinct,
  member, ltb, ◌==◌, if◌then◌else◌, arith, inl, inr, Bool-cases,
}
use agent_mem_io.Graph.Nav.{
  Nav, new, count32, get_neighbors, set_neighbors, add_neighbor, get_degree,
}
use agent_mem_io.Graph.Nav.Degrees.{IsList, IsGraph, set_neighbors-IsGraph, add_neighbor-IsGraph}
use agent_mem_io.Graph.Search.Queues.{get_neighbors-some}
use agent_mem_io.Graph.Search.Ends.{search_for_construction-Finds}
use agent_mem_io.Graph.Builder.{
  Config, others, random_lists, init_random_graph, find_medoid, choose, add_reverse, improve_all,
  build, add_reverse_pruned, connect, candidates_or_entry, add_node_incremental,
}
use agent_mem_io.Graph.Builder.Valid.{
  SameFrame, IsSort, get_degree-le, add_neighbor-SameFrame, set_chosen-IsGraph, chosen-IsGraph,
  found-All, improve-IsGraph,
}

-- A random permutation, as far as its numbers are nodes and distinct.
abbrev pub IsShuffle : ℕ → List ℕ → Type 0
IsShuffle n xs = Distinct xs × All (λ (x : ℕ). x < n) xs

member-take : (a n : ℕ) (xs : List ℕ) → member a xs ≡ false → member a (take n xs) ≡ false
member-take a zero xs h = refl
member-take a (suc n) [] h = refl
member-take a (suc n) (x ∷ xs) h = ground (arith, member-take a n xs)

take-IsShuffle : (n k : ℕ) (xs : List ℕ) → IsShuffle n xs → IsShuffle n (take k xs)
take-IsShuffle n zero xs s = (tt, tt)
take-IsShuffle n (suc k) [] s = (tt, tt)
take-IsShuffle n (suc k) (x ∷ xs) (d, a) =
    let (e, b) = take-IsShuffle n k xs (d.1, a.1) in ((member-take x k xs d.0, e), (a.0, b))

member-others : (a i : ℕ) (xs : List ℕ) → member a xs ≡ false → member a (others i xs) ≡ false
unfolding others
member-others a i [] h = refl
member-others a i (x ∷ xs) h = ground (arith, member-others a i xs)

others-IsShuffle : (n i : ℕ) (xs : List ℕ) → IsShuffle n xs → IsShuffle n (others i xs)
unfolding others
others-IsShuffle n i [] s = (tt, tt)
others-IsShuffle n i (x ∷ xs) (d, a) =
    let (e, b) = others-IsShuffle n i xs (d.1, a.1) in
    elim (Bool-cases (x == i)) [
      | inl same ↦ rw (others, same) (e, b)
      | inr other ↦ rw (others, other) ((member-others x i xs d.0, e), (a.0, b))
    ]

length-others : (i : ℕ) (xs : List ℕ) → length (others i xs) ≤ length xs
unfolding others
length-others i [] = omega arith
length-others i (x ∷ xs) = ground (arith, length-others i xs)

new-IsGraph : (n max_degree : ℕ) → IsGraph (new n max_degree)
unfolding new
new-IsGraph n max_degree = record { count = length-replicate n []; lists = empty_lists n }
  where
    empty_lists : (m : ℕ) → All (IsList n max_degree) (replicate m [])
    empty_lists zero = tt
    empty_lists (suc m) = ((tt, tt, omega arith), empty_lists m)

random_lists-IsGraph :
    (init_degree : ℕ) (shuffled : ℕ → List ℕ) (num_nodes : ℕ)
    → ((i : ℕ) → IsShuffle num_nodes (shuffled i))
    → (i n : ℕ) (g : Nav) → IsGraph g
    → g.num_nodes ≡ num_nodes
    → init_degree ≤ g.max_degree
    → IsGraph (random_lists init_degree shuffled num_nodes i n g)
      × SameFrame g (random_lists init_degree shuffled num_nodes i n g)
unfolding random_lists set_neighbors
random_lists-IsGraph init_degree shuffled num_nodes s i zero g x c d = (x, (refl, refl, refl))
random_lists-IsGraph init_degree shuffled num_nodes s i (suc n) g x c d =
    let ns = others i (take (min init_degree (num_nodes - 1)) (shuffled i)) in
    let (e, a) =
      others-IsShuffle num_nodes i (take (min init_degree (num_nodes - 1)) (shuffled i))
        (take-IsShuffle num_nodes (min init_degree (num_nodes - 1)) (shuffled i) (s i)) in
    let few : length ns ≤ g.max_degree = omega (
      arith,
      length-others i (take (min init_degree (num_nodes - 1)) (shuffled i)),
      length-take (min init_degree (num_nodes - 1)) (shuffled i),
      d,
    ) in
    let x' : IsGraph (set_neighbors i ns g) = set_neighbors-IsGraph i ns g x (rw c a, e, few) in
    random_lists-IsGraph init_degree shuffled num_nodes s (suc i) n (set_neighbors i ns g) x' c d

module _ {D : Type 0} (lt : D → D → Bool) (scale : D → D) (distance : ℕ → ℕ → D)
    (sort : List (ℕ × D) → List (ℕ × D)) (config : Config) where
  -- On a graph whose lists are within the builder's degree bound, the step of add_node_incremental
  -- that adds reverse edges and prunes the lists that have become too long does what the plain
  -- reverse edges do: no list becomes too long.
  pub add_reverse_pruned-add_reverse :
      (node : ℕ) (ns : List ℕ) (g : Nav)
      → IsGraph g
      → g.max_degree ≡ config.max_degree
      → add_reverse_pruned lt scale sort config distance node ns g ≡ add_reverse node ns g
  unfolding add_reverse_pruned add_reverse
  add_reverse_pruned-add_reverse node [] g x d = refl
  add_reverse_pruned-add_reverse node (n ∷ ns) g x d =
      let g' = (add_neighbor n node g).1 in
      let (a, b, c) = add_neighbor-SameFrame n node g in
      let x' = add_neighbor-IsGraph n node g x in
      let short : ltb config.max_degree (get_degree n g') ≡ false =
        ground (arith, get_degree-le n g' x', b, d) in
      rw short (add_reverse_pruned-add_reverse node ns g' x' (b ∙ d))

module _ {D : Type 0} (lt : D → D → Bool) where
  find_medoid-lt :
      (alike : ℕ → Bool) (to_centroid : ℕ → D) (num_nodes i n : ℕ) (d : D) (medoid : ℕ)
      → ((a : ℕ) → a < num_nodes → alike a ≡ true)
      → i + n ≤ num_nodes
      → medoid < num_nodes
      → (found : ℕ) × (find_medoid lt alike to_centroid i n d medoid ≡ some found)
        × (found < num_nodes)
  unfolding find_medoid
  find_medoid-lt alike to_centroid num_nodes i zero d medoid all h m = (medoid, refl, m)
  find_medoid-lt alike to_centroid num_nodes i (suc n) d medoid all h m =
      rw (all i (omega (arith, h))) (
        find_medoid-lt alike to_centroid num_nodes (suc i) n
          (if lt (to_centroid i) d then to_centroid i else d)
          (if lt (to_centroid i) d then i else medoid) all (omega (arith, h))
          (ground (arith, h, m)))

  module _ (scale : D → D) (distance : ℕ → ℕ → D) (sort : List (ℕ × D) → List (ℕ × D))
      (sorts : IsSort sort) (config : Config) (fits : ℕ → ℕ → Bool) where
    improve_all-IsGraph :
        (nodes : List ℕ) (g : Nav)
        → IsGraph g
        → g.max_degree ≡ config.max_degree
        → g.entry_point < g.num_nodes
        → ((a b : ℕ) → a < g.num_nodes → b < g.num_nodes → fits a b ≡ true)
        → All (λ (y : ℕ). y < g.num_nodes) nodes
        → (g' : Nav) × (improve_all lt scale sort config distance fits nodes g ≡ some g')
          × IsGraph g'
          × SameFrame g g'
    unfolding improve_all
    improve_all-IsGraph [] g x d h all a = (g, refl, x, (refl, refl, refl))
    improve_all-IsGraph (node ∷ nodes) g x d h all a =
        let (g1, e, y, (c1, d1, p1)) =
          improve-IsGraph lt scale distance sort sorts config g x d h fits node all a.0 in
        let entry : g1.entry_point < g1.num_nodes = rw (c1, p1) h in
        let (g2, e2, z, (c2, d2, p2)) =
          improve_all-IsGraph nodes g1 y (d1 ∙ d) entry
            (λ a b k l. all a b (rw (← c1) k) (rw (← c1) l))
            (subst (λ n. All (λ (y : ℕ). y < n) nodes) (sym c1) a.1) in
        (g2, rw (e, improve_all) e2, z, (c2 ∙ c1, d2 ∙ d1, p2 ∙ p1))

    -- With a sort that keeps the candidates, permutations of the nodes for the random graphs and
    -- for the order, at least one and fewer than 2 ^ 32 vectors, which all have the same
    -- dimension, and an initial degree within the bound, build throws no exception and gives a
    -- graph of all the nodes whose lists hold distinct nodes of the graph within the degree bound,
    -- and whose entry point is a node.
    pub build-IsGraph :
        (n : ℕ) (shuffled : ℕ → List ℕ) (order : List ℕ) (alike : ℕ → Bool) (to_centroid : ℕ → D)
        (far : D)
        → 1 ≤ n
        → n < 2 ^ 32
        → ((a b : ℕ) → a < n → b < n → fits a b ≡ true)
        → ((a : ℕ) → a < n → alike a ≡ true)
        → ((i : ℕ) → IsShuffle n (shuffled i))
        → All (λ (y : ℕ). y < n) order
        → config.init_degree ≤ config.max_degree
        → (g : Nav) × (build lt scale sort config distance fits n shuffled order alike to_centroid
              far
            ≡ some (some g))
          × IsGraph g
          × (g.num_nodes ≡ n)
          × (g.max_degree ≡ config.max_degree)
          × (g.entry_point < n)
    unfolding build new init_random_graph
    build-IsGraph n shuffled order alike to_centroid far h small all same s a d =
        let g0 =
          random_lists config.init_degree shuffled n 0 (count32 n) (new n config.max_degree) in
        let (medoid, found, low) =
          find_medoid-lt alike to_centroid n 0 (count32 n) far 0 same (omega (arith, small))
            (omega (arith, h)) in
        let (x, (c, m, p)) =
          random_lists-IsGraph config.init_degree shuffled n s 0 (count32 n)
            (new n config.max_degree) (new-IsGraph n config.max_degree) refl d in
        let g1 : Nav = record g0 { entry_point = medoid } in
        let entry : medoid < g1.num_nodes = rw c low in
        let x1 : IsGraph g1 = record { count = x.count; lists = x.lists } in
        let (g2, e, y, (c2, m2, p2)) =
          improve_all-IsGraph order g1 x1 m entry (λ a b k l. all a b (rw (← c) k) (rw (← c) l))
            (subst (λ k. All (λ (y : ℕ). y < k) order) (sym c) a) in
        let some_node : (n == 0) ≡ false = ground (arith, h) in
        (
          g2,
          rw (some_node, found, e) refl,
          y,
          c2 ∙ c,
          m2 ∙ m,
          rw p2 (subst (λ k. medoid < k) c entry),
        )

    candidates_or_entry-Finds :
        (node : ℕ) (g : Nav) (out : List (ℕ × D))
        → 1 ≤ length out
        → candidates_or_entry lt scale sort config distance node g out ≡ out
    unfolding candidates_or_entry
    candidates_or_entry-Finds node g [] h = absurd (elim h [ ])
    candidates_or_entry-Finds node g (c ∷ cs) h = refl

    connect_lem :
        (node : ℕ) (g : Nav) (ns : List ℕ) (cs : List (ℕ × D))
        → get_neighbors node g ≡ some ns
        → let chosen = choose lt scale sort config distance node cs in
          connect lt scale sort config distance node cs g
          ≡ some (
              add_reverse_pruned lt scale sort config distance node chosen
                (set_neighbors node chosen g))
    unfolding connect
    connect_lem node g ns cs at = rw (connect, at) refl

    -- With a sort that keeps the candidates, on a graph whose lists hold distinct nodes within the
    -- builder's degree bound, whose entry point is a node, and whose nodes have vectors of the same
    -- dimension, add_node_incremental of a node of the graph throws no exception and leaves such a graph of the same size and entry point.
    pub add_node_incremental-IsGraph :
        (node : ℕ) (g : Nav)
        → IsGraph g
        → g.max_degree ≡ config.max_degree
        → g.entry_point < g.num_nodes
        → ((a b : ℕ) → a < g.num_nodes → b < g.num_nodes → fits a b ≡ true)
        → node < g.num_nodes
        → (g' : Nav) × (add_node_incremental lt scale sort config distance fits node g ≡ some g')
          × IsGraph g'
          × SameFrame g g'
    unfolding add_node_incremental
    add_node_incremental-IsGraph node g x d entry all h =
        let (out, e, r) =
          search_for_construction-Finds lt (distance node) config.search_list_size g (fits node) x
            entry (λ n. all node n h) in
        let (ns, at) = get_neighbors-some node x h in
        let cs = out in
        let hits =
          found-All lt scale distance sort sorts config g x d entry (distance node) out r.hits in
        let (y, f) =
          set_chosen-IsGraph lt scale distance sort sorts config g x d entry node out r.distinct
            hits in
        let some_node : (g.num_nodes == 0) ≡ false = ground (arith, h) in
        let chosen = choose lt scale sort config distance node out in
        let x' =
          chosen-IsGraph lt scale distance sort sorts config g x d entry node out r.distinct hits in
        let plain =
          add_reverse_pruned-add_reverse lt scale distance sort config node chosen
            (set_neighbors node chosen g) x' (unfold set_neighbors in d) in
        (
          add_reverse node chosen (set_neighbors node chosen g),
          rw (some_node, e, candidates_or_entry-Finds node g out r.some_hit)
              (connect_lem node g ns out at ∙ ap some plain),
          y,
          f,
        )
