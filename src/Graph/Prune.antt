-- ===== src/Graph/Prune.antt =====
-- The choice of neighbours (`VamanaBuilder::robust_prune` of src/core/graph_index.cpp). Distances
-- are machine floats: their type `D`, the order test, the product with `alpha` and the distance of two
-- nodes are parameters. `std::sort` by distance is the parameter `sort`.
pub mod Spread
use agent_mem_io.Prelude.{
  ℕ, Bool, true, false, List, [], ◌∷◌, ◌++◌, length, leb, ◌==◌, if◌then◌else◌,
}

module _ {D : Type 0} (lt : D → D → Bool) (scale : D → D) (distance : ℕ → ℕ → D) where
  -- Is the candidate far enough from every neighbour that is chosen already?
  unfoldable pub should_add : ℕ → D → List ℕ → Bool
  should_add c d [] = true
  should_add c d (x ∷ xs) =
      let rest = should_add c d xs in if lt (distance c x) (scale d) then false else rest

  unfoldable pub prune_sorted : ℕ → ℕ → List (ℕ × D) → List ℕ → List ℕ
  prune_sorted max_degree node [] result = result
  prune_sorted max_degree node ((c, d) ∷ cs) result =
      let skip = prune_sorted max_degree node cs result in
      let taken = prune_sorted max_degree node cs (result ++ c ∷ []) in
      if leb max_degree (length result)
      then result
      else if c == node
      then skip
      else if should_add c d result
      then taken
      else skip

  unfoldable pub robust_prune : (List (ℕ × D) → List (ℕ × D)) → ℕ → ℕ → List (ℕ × D) → List ℕ
  robust_prune sort max_degree node [] = []
  robust_prune sort max_degree node (c ∷ cs) = prune_sorted max_degree node (sort (c ∷ cs)) []
