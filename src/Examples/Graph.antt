-- ===== src/Examples/Graph.antt =====
-- A graph of three nodes.
use agent_mem_io.Prelude.{List, ℕ, ◌-◌, ◌*◌, refl, [], ◌∷◌, arith, ltb, All}
use agent_mem_io.Graph.Nav.{Nav, new, add_neighbor}
use agent_mem_io.Graph.Nav.Degrees.{IsGraph, IsList, add_neighbor-IsGraph}
use agent_mem_io.Graph.Prune.{robust_prune}
use agent_mem_io.Graph.Prune.Spread.{Chosen, Settled, robust_prune-Chosen}

abbrev three : Nav
three = new 3 2

bare : IsList 3 2 []
bare = (tt, tt, omega arith)

three-IsGraph : IsGraph three
unfolding new
three-IsGraph = record { count = refl; lists = (bare, (bare, (bare, tt))) }

linked-IsGraph : IsGraph (add_neighbor 0 1 three).1
linked-IsGraph = add_neighbor-IsGraph 0 1 three three-IsGraph

-- Points on a line, at their numbers.
abbrev apart : ℕ → ℕ → ℕ
apart a b = (a - b) * (a - b)

abbrev chosen : List ℕ
chosen = robust_prune ltb (λ d. d * 2) apart (λ cs. cs) 2 0 ((1, 1) ∷ (2, 4) ∷ (9, 81) ∷ [])

robust_prune-Chosen_example :
    Chosen ltb (λ d. d * 2) apart 2 0 chosen
    × All (Settled ltb (λ d. d * 2) apart 2 0 chosen) ((1, 1) ∷ (2, 4) ∷ (9, 81) ∷ [])
robust_prune-Chosen_example =
    robust_prune-Chosen ltb (λ d. d * 2) apart (λ cs. cs) 2 0 ((1, 1) ∷ (2, 4) ∷ (9, 81) ∷ [])
