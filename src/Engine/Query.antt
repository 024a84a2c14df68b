-- ===== src/Engine/Query.antt =====
-- `QueryProcessor::search_with_beam_width` of src/engine/storage_engine.cpp.
--
-- What the search calls while it runs (the distance of a node, the prefetch of the neighbours, the
-- wait for it) changes the state `S` of the buffer pool and the readers; these calls are the
-- interface `Calls`, which Engine/Query/Vectors.antt fills. Distances are a parameter `D`, with
-- the order test of machine floats.
pub mod Beams
pub mod Admits
pub mod Rounds
pub mod Expand
pub mod Results
pub mod Answers
use agent_mem_io.Prelude.{
  ℕ, zero, suc, Bool, true, false, ◌&&◌, ◌||◌, not, Option, none, some, List, [], ◌∷◌, length, take,
  ltb, leb, ◌==◌, if◌then◌else◌,
}
use agent_mem_io.Graph.Nav.{Nav, no_node, get_neighbors}
use agent_mem_io.Graph.Index.{Index}
use agent_mem_io.Graph.Search.{push}
use agent_mem_io.Graph.Visited
use agent_mem_io.Graph.Visited.{Bitmap}

-- `none` is an exception, or words that are not there.
pub record Calls (S : Type 0) (D : Type 0) : Type 0 where
  pub measure : ℕ → S → Option D × S
  pub prefetch_neighbors : ℕ → S → S
  pub wait_prefetch_completions : S → S

-- The heaps, kept in the order in which their elements come out, and `fd`.
pub record Beam (S : Type 0) (D : Type 0) : Type 0 where
  pub result_heap : List (ℕ × D)
  pub candidates : List (ℕ × D)
  pub visited : Bitmap
  pub fd : D
  pub state : S

-- The end of the loop; `thrown` stands also for the top of an empty heap.
pub data Walk (S : Type 0) (D : Type 0) : Type 0 where
  ended : Beam S D → Walk S D
  thrown : Walk S D
  out_of_fuel : Walk S D

-- The results with the state that is left, or an error.
pub data Answer (S : Type 0) (D : Type 0) : Type 0 where
  found : List (ℕ × D) → S → Answer S D
  invalid_argument : Answer S D
  failed : Answer S D

module _ {D : Type 0} where
  -- `while (result_heap.size() > ef_search) result_heap.pop()`
  unfoldable pub shrink : ℕ → List (ℕ × D) → List (ℕ × D)
  shrink ef_search [] = []
  shrink ef_search (q ∷ qs) =
      let rest = shrink ef_search qs in if ltb ef_search (length (q ∷ qs)) then rest else q ∷ qs

module _ {D : Type 0} (lt : D → D → Bool) where
  -- `operator<` of pairs of a distance and an id.
  abbrev pub pair_lt : ℕ × D → ℕ × D → Bool
  pair_lt (a, d) (b, e) = lt d e || (not (lt e d) && ltb a b)

  abbrev pub push_candidate : ℕ × D → List (ℕ × D) → List (ℕ × D)
  push_candidate = push pair_lt

  abbrev pub push_result : ℕ × D → List (ℕ × D) → List (ℕ × D)
  push_result = push (λ p q. pair_lt q p)

  unfoldable pub sort : List (ℕ × D) → List (ℕ × D)
  sort [] = []
  sort (p ∷ ps) = push_candidate p (sort ps)

  -- `current_dist > fd && result_heap.size() >= ef_search`
  abbrev pub halts : ℕ → D → D → ℕ → Bool
  halts ef_search current_dist fd size = lt fd current_dist && leb ef_search size

-- The heap as it is left, and `fd` from its top.
abbrev pub refresh : {S D : Type 0} → List (ℕ × D) → Beam S D → Option (Beam S D)
refresh [] s = none
refresh (q ∷ qs) s = some (record s { result_heap = q ∷ qs; fd = q.1 })

module _ {S D : Type 0} (lt : D → D → Bool) where
  abbrev pub top_k : ℕ → Walk S D → Answer S D
  top_k k (ended s) = found (take k (sort lt s.result_heap)) s.state
  top_k k thrown = failed
  top_k k out_of_fuel = failed

  module _ (ef_search : ℕ) where
    unfoldable pub admit : ℕ × D → Beam S D → Option (Beam S D)
    admit p s =
        if ltb (length s.result_heap) ef_search || lt p.1 s.fd
        then refresh (shrink ef_search (push_result lt p s.result_heap))
            (record s { candidates = push_candidate lt p s.candidates })
        else some s

    abbrev pub admit_measured : ℕ → Option D × S → Beam S D → Option (Beam S D)
    admit_measured n (none, q) s = none
    admit_measured n (some d, q) s = admit (n, d) (record s { state = q })

    module _ (calls : Calls S D) (g : Nav) where
      -- The body of the loop over the neighbours.
      unfoldable pub explore : ℕ → Beam S D → Option (Beam S D)
      explore n s =
          if leb g.num_nodes n
          then some s
          else if Visited.test n s.visited
          then some s
          else admit_measured n (calls.measure n s.state)
              (record s { visited = Visited.mark n s.visited })

      unfoldable pub explore_all : List ℕ → Beam S D → Option (Beam S D)
      explore_all [] s = some s
      explore_all (n ∷ ns) s = elim (explore n s) [ none ↦ none | some t ↦ explore_all ns t ]

      -- A round on the candidate `c`, once the loop goes on.
      unfoldable pub expand : ℕ → Beam S D → Option (Beam S D)
      expand c s = elim (get_neighbors c g) [
        | none ↦ none
        | some ns ↦
            elim (explore_all ns (record s { state = calls.prefetch_neighbors c s.state })) [
              | none ↦ none
              | some t ↦ some (record t { state = calls.wait_prefetch_completions t.state })
            ]
      ]

      unfoldable pub rounds : ℕ → Beam S D → Walk S D
      rounds zero s = elim s.candidates [ [] ↦ ended s | c ∷ cs ↦ out_of_fuel ]
      rounds (suc fuel) s = elim s.candidates [
        | [] ↦ ended s
        | (c, d) ∷ cs ↦ elim s.result_heap [
          | [] ↦ thrown
          | (r, fd) ∷ rs ↦
              if halts lt ef_search d fd (length ((r, fd) ∷ rs))
              then ended s
              else elim (expand c (record s { candidates = cs; fd = fd })) [
                | none ↦ thrown
                | some t ↦ rounds fuel t
              ]
        ]
      ]

      abbrev pub start : ℕ → Option D × S → Option (Beam S D)
      start entry (none, q) = none
      start entry (some d, q) = some (record {
        result_heap = (entry, d) ∷ [];
        candidates = (entry, d) ∷ [];
        visited = Visited.mark entry (Visited.new g.num_nodes);
        fd = d;
        state = q;
      })

      -- Each node becomes a candidate once, so that as many rounds as nodes are enough.
      unfoldable pub walk : Option D × S → Walk S D
      walk measured = elim (start g.entry_point measured) [
        | none ↦ thrown
        | some s ↦ rounds g.num_nodes s
      ]

    -- `entry_distance` is the distance of the entry point, which the code computes by itself.
    unfoldable pub search_with_beam_width :
        Calls S D → (ℕ → S → Option D × S) → Option Index → ℕ → S → Answer S D
    search_with_beam_width calls entry_distance graph_index k q = elim graph_index [
      | none ↦ invalid_argument
      | some x ↦ elim x.nav_data [
        | none ↦ invalid_argument
        | some g ↦
            if g.entry_point == no_node
            then invalid_argument
            else top_k k (walk calls g (entry_distance g.entry_point q))
      ]
    ]

  -- `search` with the default width 350 of the beam.
  unfoldable pub search : Calls S D → (ℕ → S → Option D × S) → Option Index → ℕ → S → Answer S D
  search calls entry_distance = search_with_beam_width 350 calls entry_distance
