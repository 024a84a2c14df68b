-- ===== src/Graph/Builder.antt =====
-- The construction of the graph: `VamanaBuilder::build`, `init_random_graph`,
-- `add_node_incremental` and `GraphIndex::build`, `add_vector` of src/core/graph_index.cpp.
--
-- Distances are machine floats, as in `Prune` and `Search`; `distance a b` is that of the stored
-- vectors of two nodes. The random permutations that the code draws are parameters.
pub mod Valid
pub mod Grow
use agent_mem_io.Prelude.{
  ℕ, zero, suc, ◌+◌, ◌-◌, min, Bool, true, false, Option, none, some, List, [], ◌∷◌, ◌++◌, map,
  length, take, ltb, ◌==◌, if◌then◌else◌,
}
use agent_mem_io.Graph.Nav.{
  Nav, new, count32, add_node, get_neighbors, set_neighbors, add_neighbor, get_degree,
}
use agent_mem_io.Graph.Prune.{robust_prune}
use agent_mem_io.Graph.Search.{Outcome, found, thrown, out_of_fuel, search_for_construction}

-- `config_`
pub record Config : Type 0 where
  pub max_degree : ℕ
  pub init_degree : ℕ
  pub search_list_size : ℕ

-- The loop that copies the chosen neighbours while there is room.
unfoldable pub fill : ℕ → List ℕ → List ℕ → List ℕ
fill max_degree [] neighbors = neighbors
fill max_degree (n ∷ ns) neighbors =
    fill max_degree ns
      (if ltb (length neighbors) max_degree then neighbors ++ n ∷ [] else neighbors)

-- The neighbours of node `i` in the random graph: the first of a permutation of the nodes.
unfoldable pub others : ℕ → List ℕ → List ℕ
others i [] = []
others i (n ∷ ns) = let rest = others i ns in if n == i then rest else n ∷ rest

-- The loop of `init_random_graph`, from node `i` on for `n` nodes.
unfoldable pub random_lists : ℕ → (ℕ → List ℕ) → ℕ → ℕ → ℕ → Nav → Nav
random_lists init_degree shuffled num_nodes i zero g = g
random_lists init_degree shuffled num_nodes i (suc n) g =
    random_lists init_degree shuffled num_nodes (suc i) n
      (set_neighbors i (others i (take (min init_degree (num_nodes - 1)) (shuffled i))) g)

unfoldable pub init_random_graph : ℕ → (ℕ → List ℕ) → ℕ → Nav → Nav
init_random_graph init_degree shuffled num_nodes g =
    random_lists init_degree shuffled num_nodes 0 (count32 num_nodes) g

-- The reverse edges of `build`.
unfoldable pub add_reverse : ℕ → List ℕ → Nav → Nav
add_reverse node [] g = g
add_reverse node (n ∷ ns) g = add_reverse node ns (add_neighbor n node g).1

module _ {D : Type 0} (lt : D → D → Bool) where
  -- The search for the node nearest to the centroid, from node `i` on for `n` nodes; none stands for
  -- the exception of `l2_distance` at a vector of another dimension than the centroid's.
  unfoldable pub find_medoid : (ℕ → Bool) → (ℕ → D) → ℕ → ℕ → D → ℕ → Option ℕ
  find_medoid alike to_centroid i zero min_dist medoid = some medoid
  find_medoid alike to_centroid i (suc n) min_dist medoid =
      let nearer = lt (to_centroid i) min_dist in
      let later =
        find_medoid alike to_centroid (suc i) n (if nearer then to_centroid i else min_dist)
          (if nearer then i else medoid) in
      if alike i then later else none

  module _ (scale : D → D) (sort : List (ℕ × D) → List (ℕ × D)) (config : Config)
      (distance : ℕ → ℕ → D) where
    -- The pruned candidates become the neighbours of the node.
    unfoldable pub choose : ℕ → List (ℕ × D) → List ℕ
    choose node cs =
        fill config.max_degree (robust_prune lt scale distance sort config.max_degree node cs) []

    -- The list of a node whose degree exceeds the bound is chosen again from its neighbours, whose
    -- vectors have its dimension: else the code throws.
    unfoldable pub prune_again : ℕ → Nav → Nav
    prune_again node g = elim (get_neighbors node g) [
      | none ↦ g
      | some ns ↦
          set_neighbors node
            (robust_prune lt scale distance sort config.max_degree node
              (map (λ n. (n, distance node n)) ns))
            g
    ]

    unfoldable pub add_reverse_pruned : ℕ → List ℕ → Nav → Nav
    add_reverse_pruned node [] g = g
    add_reverse_pruned node (n ∷ ns) g =
        let g' = (add_neighbor n node g).1 in
        add_reverse_pruned node ns
          (if ltb config.max_degree (get_degree n g') then prune_again n g' else g')

    unfoldable pub connect : ℕ → List (ℕ × D) → Nav → Option Nav
    connect node cs g = elim (get_neighbors node g) [
      | none ↦ none
      | some old ↦
          let chosen = choose node cs in
          some (add_reverse_pruned node chosen (set_neighbors node chosen g))
    ]

    -- A search that finds nothing is replaced by the entry point.
    unfoldable pub candidates_or_entry : ℕ → Nav → List (ℕ × D) → List (ℕ × D)
    candidates_or_entry node g [] = (g.entry_point, distance node g.entry_point) ∷ []
    candidates_or_entry node g (c ∷ cs) = c ∷ cs

    -- `fits a b` tells whether the vectors of two nodes have the same dimension: else `l2_distance`
    -- throws.
    module _ (fits : ℕ → ℕ → Bool) where
      -- The body of the loop of `build`; none stands for an exception.
      unfoldable pub improve : ℕ → Nav → Option Nav
      improve node g =
          elim (search_for_construction lt (distance node) config.search_list_size (fits node) g) [
            | found cs ↦ elim (get_neighbors node g) [
              | none ↦ none
              | some old ↦
                  let chosen = choose node cs in
                  some (add_reverse node chosen (set_neighbors node chosen g))
            ]
            | thrown ↦ none
            | out_of_fuel ↦ none
          ]

      unfoldable pub improve_all : List ℕ → Nav → Option Nav
      improve_all [] g = some g
      improve_all (node ∷ nodes) g = elim (improve node g) [
        | none ↦ none
        | some g' ↦ improve_all nodes g'
      ]

      -- `build` on `n` vectors: `shuffled` and `order` are its random permutations, `far` the
      -- greatest distance, and `alike i` tells whether the vector `i` has the dimension of the first,
      -- which is that of the centroid. An empty data set is refused.
      unfoldable pub build :
          ℕ → (ℕ → List ℕ) → List ℕ → (ℕ → Bool) → (ℕ → D) → D → Option (Option Nav)
      build n shuffled order alike to_centroid far =
          let g = init_random_graph config.init_degree shuffled n (new n config.max_degree) in
          if n == 0 then some none else elim (find_medoid alike to_centroid 0 (count32 n) far 0) [
            | none ↦ none
            | some medoid ↦ elim (improve_all order (record g { entry_point = medoid })) [
              | none ↦ none
              | some g' ↦ some (some g')
            ]
          ]

      unfoldable pub add_node_incremental : ℕ → Nav → Option Nav
      add_node_incremental node g =
          if g.num_nodes == 0
          then some (record g { entry_point = node })
          else elim (search_for_construction lt (distance node) config.search_list_size (fits node)
              g) [
                | found cs ↦ connect node (candidates_or_entry node g cs) g
                | thrown ↦ none
                | out_of_fuel ↦ none
              ]
