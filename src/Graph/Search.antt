-- ===== src/Graph/Search.antt =====
-- The beam search of the builder (`VamanaBuilder::search_for_construction` of
-- src/core/graph_index.cpp), on the distances of the query to the nodes: their type `D` and the
-- order test of machine floats are parameters.
--
-- The code's queues order pairs by node id first. A queue is kept here in the order in which its
-- elements come out, so that its head is `top()`.
pub mod Queues
pub mod Ends
use agent_mem_io.Prelude.{
  ℕ, zero, suc, Bool, true, false, ◌&&◌, ◌||◌, Option, none, some, List, [], ◌∷◌, length, member,
  ltb, leb, ◌==◌, if◌then◌else◌,
}
use agent_mem_io.Graph.Nav.{Nav, get_neighbors}

-- The result, an exception of `get_neighbors` or of `l2_distance`, or no fuel left.
pub data Outcome (D : Type 0) : Type 0 where
  found : List (ℕ × D) → Outcome D
  thrown : Outcome D
  out_of_fuel : Outcome D

pub record Beam (D : Type 0) : Type 0 where
  pub best : List (ℕ × D)
  pub candidates : List (ℕ × D)
  pub visited : List ℕ

module _ {D : Type 0} where
  -- A push into a queue: `before p q` tells that `p` comes out before `q`.
  unfoldable pub push : (ℕ × D → ℕ × D → Bool) → ℕ × D → List (ℕ × D) → List (ℕ × D)
  push before p [] = p ∷ []
  push before p (q ∷ qs) =
      let rest = push before p qs in if before p q then p ∷ q ∷ qs else q ∷ rest

  abbrev pub pop : List (ℕ × D) → List (ℕ × D)
  pop [] = []
  pop (q ∷ qs) = qs

  unfoldable pub reversed : List (ℕ × D) → List (ℕ × D) → List (ℕ × D)
  reversed [] acc = acc
  reversed (p ∷ ps) acc = reversed ps (p ∷ acc)

module _ {D : Type 0} (lt : D → D → Bool) where
  -- `operator<` of pairs.
  abbrev pub pair_lt : ℕ × D → ℕ × D → Bool
  pair_lt (a, d) (b, e) = ltb a b || ((a == b) && lt d e)

  -- `best` is a queue with `std::greater`, whose top is the least pair, and `candidates` one with
  -- `std::less`, whose top is the greatest.
  abbrev pub push_best : ℕ × D → List (ℕ × D) → List (ℕ × D)
  push_best = push pair_lt

  abbrev pub push_candidate : ℕ × D → List (ℕ × D) → List (ℕ × D)
  push_candidate = push (λ p q. pair_lt q p)

  module _ (distance : ℕ → D) (k : ℕ) where
    -- The body of the loop over the neighbours.
    unfoldable pub explore : ℕ → Beam D → Beam D
    explore n s =
        let best = push_best (n, distance n) s.best in
        if member n s.visited then s else record {
          best = if ltb k (length best) then pop best else best;
          candidates = push_candidate (n, distance n) s.candidates;
          visited = n ∷ s.visited;
        }

    -- `best.size() >= k && current_dist > best.top().second`
    unfoldable pub stops : D → List (ℕ × D) → Bool
    stops d [] = false
    stops d (p ∷ ps) = leb k (length (p ∷ ps)) && lt p.1 d

    unfoldable pub start : Nav → Beam D
    start g = record {
      best = (g.entry_point, distance g.entry_point) ∷ [];
      candidates = (g.entry_point, distance g.entry_point) ∷ [];
      visited = g.entry_point ∷ [];
    }

    -- `fits n` tells whether the vector of the node has the dimension of the query: else
    -- `l2_distance` throws. It is also false where there is no such vector, which the code does not
    -- test.
    module _ (fits : ℕ → Bool) where
      -- The loop over the neighbours; none stands for an exception.
      unfoldable pub explore_all : List ℕ → Beam D → Option (Beam D)
      explore_all [] s = some s
      explore_all (n ∷ ns) s =
          let rest = explore_all ns (explore n s) in
          if member n s.visited || fits n then rest else none

      -- Each round takes a candidate; `best` is emptied from its top and reversed at the end.
      unfoldable pub rounds : ℕ → Nav → Beam D → Outcome D
      rounds zero g s = elim s.candidates [ [] ↦ found (reversed s.best []) | c ∷ cs ↦ out_of_fuel ]
      rounds (suc fuel) g s = elim s.candidates [
        | [] ↦ found (reversed s.best [])
        | (c, d) ∷ cs ↦
            let s' : Beam D = record s { candidates = cs } in
            if stops d s.best then found (reversed s.best []) else elim (get_neighbors c g) [
              | none ↦ thrown
              | some ns ↦ elim (explore_all ns s') [ none ↦ thrown | some s'' ↦ rounds fuel g s'' ]
            ]
      ]

      -- Each node becomes a candidate once, so that as many rounds as nodes are enough.
      unfoldable pub search_for_construction : Nav → Outcome D
      search_for_construction g =
          if fits g.entry_point then rounds g.num_nodes g (start g) else thrown
