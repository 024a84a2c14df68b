-- ===== src/Buffer/Hubs.antt =====
-- The hub nodes: `classify_hub_nodes` and `compute_hub_threshold` of src/buffer/eviction_policy.cpp,
-- and the `update_hub_threshold` of the policy and of the pool in src/buffer/buffer_pool.cpp.
--
-- `rank n` is `ceil(n * percentile)` in machine floats.
pub mod Threshold
use agent_mem_io.Prelude.{
  ℕ, suc, ◌-◌, Bool, true, false, Option, none, some, List, [], ◌∷◌, length, get_elem?, leb, ◌==◌,
  if◌then◌else◌,
}
use agent_mem_io.Buffer.Policy.{Policy}
use agent_mem_io.Buffer.Pool.{Pool}

-- The loop from node `i` on.
unfoldable pub classify_from : ℕ → ℕ → List ℕ → List ℕ
classify_from threshold i [] = []
classify_from threshold i (d ∷ ds) =
    let rest = classify_from threshold (suc i) ds in if leb threshold d then i ∷ rest else rest

unfoldable pub classify_hub_nodes : List ℕ → ℕ → List ℕ
classify_hub_nodes in_degrees threshold = classify_from threshold 0 in_degrees

-- `std::sort` of numbers, and what follows the zeros of a sorted list.
unfoldable pub insert_sorted : ℕ → List ℕ → List ℕ
insert_sorted d [] = d ∷ []
insert_sorted d (x ∷ xs) = let rest = insert_sorted d xs in if leb d x then d ∷ x ∷ xs else x ∷ rest

unfoldable pub sort : List ℕ → List ℕ
sort [] = []
sort (d ∷ ds) = insert_sorted d (sort ds)

unfoldable pub after_zeros : List ℕ → List ℕ
after_zeros [] = []
after_zeros (x ∷ xs) = if x == 0 then after_zeros xs else x ∷ xs

-- The place of the threshold among `n` positive in-degrees.
unfoldable pub place : (ℕ → ℕ) → ℕ → ℕ
place rank n = if leb n (rank n) then n - 1 else rank n

unfoldable pub compute_hub_threshold : (ℕ → ℕ) → List ℕ → ℕ
compute_hub_threshold rank in_degrees =
    let positive = after_zeros (sort in_degrees) in
    elim (get_elem? positive (place rank (length positive))) [ none ↦ 1 | some d ↦ d ]

unfoldable pub update_policy : (ℕ → ℕ) → List ℕ → Policy → Policy
update_policy rank in_degrees r = record r { hub_threshold = compute_hub_threshold rank in_degrees }

unfoldable pub update_hub_threshold : (ℕ → ℕ) → List ℕ → Pool → Pool
update_hub_threshold rank in_degrees s = record s {
  policy = update_policy rank in_degrees s.policy;
}
