-- ===== src/Examples/Builder.antt =====
-- Three points on a line: a search, a construction, an insertion and a file.
use agent_mem_io.Prelude.{
  ℕ, ◌+◌, ◌-◌, ◌*◌, ◌<◌, ◌≡◌, refl, Bool, ◌&&◌, true, some, List, [], ◌∷◌, ◌++◌, length, ltb, arith,
}
use agent_mem_io.Lsm.Entry.{Vector}
use agent_mem_io.Lsm.SsTable.{done}
use agent_mem_io.Graph.Nav.{Nav, add_node}
use agent_mem_io.Graph.Nav.Degrees.{IsGraph}
use agent_mem_io.Graph.Search.{search_for_construction}
use agent_mem_io.Graph.Search.Ends.{Finds, search_for_construction-Finds}
use agent_mem_io.Graph.Builder.{Config, build, add_reverse, add_reverse_pruned}
use agent_mem_io.Graph.Builder.Valid.{IsSort}
use agent_mem_io.Graph.Builder.Grow.{build-IsGraph, add_reverse_pruned-add_reverse}
use agent_mem_io.Graph.Index.{Index, success, thrown, add_vector, save, load}
use agent_mem_io.Graph.Index.Insert.{IsBuilt, add_vector-IsBuilt, add_vector_thrown}
use agent_mem_io.Graph.Index.File.{IsStorable, load-save}
use agent_mem_io.Lsm.Entry.{success as saved}
use agent_mem_io.Prelude.Bytes.{Bytes}
use agent_mem_io.Graph.Visited
use agent_mem_io.Graph.Visited.{Bitmap, mark, test}

abbrev path : Nav
path = record {
  num_nodes = 3;
  max_degree = 2;
  entry_point = 0;
  lists = (1 ∷ []) ∷ (2 ∷ []) ∷ [] ∷ [];
}

path-IsGraph : IsGraph path
path-IsGraph = record {
  count = refl;
  lists = (
    ((omega arith, tt), (refl, tt), omega arith),
    (((omega arith, tt), (refl, tt), omega arith), ((tt, tt, omega arith), tt)),
  );
}

-- The vectors of three nodes are there, with one dimension.
abbrev stored : ℕ → Bool
stored n = ltb n 3

abbrev both_stored : ℕ → ℕ → Bool
both_stored a b = ltb a 3 && ltb b 3

search_for_construction-Finds_example :
    Finds ltb (λ n. n) 2 path (search_for_construction ltb (λ n. n) 2 stored path)
search_for_construction-Finds_example =
    search_for_construction-Finds ltb (λ n. n) 2 path stored path-IsGraph (omega arith)
      (λ n h. ground (arith, h))

abbrev apart : ℕ → ℕ → ℕ
apart a b = (a - b) + (b - a)

abbrev keep : List (ℕ × ℕ) → List (ℕ × ℕ)
keep cs = cs

keep-IsSort : IsSort keep
keep-IsSort = record { keeps = λ P cs a. a; distinct = λ cs d. d }

abbrev config : Config
config = record { max_degree = 2; init_degree = 2; search_list_size = 2 }

abbrev nodes : List ℕ
nodes = 0 ∷ 1 ∷ 2 ∷ []

build-IsGraph_example :
    (g : Nav) × (build ltb
        (λ d. d * 2)
        keep
        config
        apart
        both_stored
        3
        (λ i. nodes)
        nodes
        stored
        (λ n. n)
        9
      ≡ some (some g))
    × IsGraph g
    × (g.num_nodes ≡ 3)
    × (g.max_degree ≡ 2)
    × (g.entry_point < 3)
build-IsGraph_example =
    build-IsGraph ltb (λ d. d * 2) apart keep keep-IsSort config both_stored 3 (λ i. nodes) nodes
      stored (λ n. n) 9 (omega arith) (omega arith) (λ a b h k. ground (arith, h, k))
      (λ a h. ground (arith, h))
      (λ i. ((refl, (refl, (refl, tt))), (omega arith, (omega arith, (omega arith, tt)))))
      (omega arith, (omega arith, (omega arith, tt))) (omega arith)

add_reverse_pruned-add_reverse_example :
    add_reverse_pruned ltb (λ d. d * 2) keep config apart 2 (0 ∷ 1 ∷ []) path
    ≡ add_reverse 2 (0 ∷ 1 ∷ []) path
add_reverse_pruned-add_reverse_example =
    add_reverse_pruned-add_reverse ltb (λ d. d * 2) apart keep config 2 (0 ∷ 1 ∷ []) path
      path-IsGraph refl

abbrev index : Index
index = record {
  vectors = (1 ∷ []) ∷ (2 ∷ []) ∷ (3 ∷ []) ∷ [];
  nav_data = some path;
  has_builder = true;
  is_built = true;
}

index-IsBuilt : IsBuilt config 1 path index
index-IsBuilt = record {
  nav = refl;
  built = refl;
  builder = refl;
  graph = path-IsGraph;
  count = refl;
  degree = refl;
  entry = omega arith;
  vectors = (refl, (refl, (refl, tt)));
}

abbrev l2 : Vector → Vector → ℕ
l2 v w = apart (length v) (length w)

add_vector-IsBuilt_example :
    (g : Nav) × (y : Index) × (add_vector ltb (λ d. d * 2) keep config l2 (4 ∷ []) 3 index
      ≡ (success, y))
    × IsBuilt config 1 g y
    × (y.vectors ≡ index.vectors ++ (4 ∷ []) ∷ [])
    × (g.entry_point ≡ 0)
add_vector-IsBuilt_example =
    add_vector-IsBuilt ltb (λ d. d * 2) keep keep-IsSort config l2 (4 ∷ []) 1 path index
      index-IsBuilt refl (omega arith)

add_vector_thrown_example : add_vector ltb (λ d. d * 2) keep config l2 (4 ∷ 5 ∷ []) 3 index ≡ (
  thrown,
  record index { vectors = index.vectors ++ (4 ∷ 5 ∷ []) ∷ []; nav_data = some (add_node path).1 },
)
add_vector_thrown_example =
    add_vector_thrown ltb (λ d. d * 2) keep keep-IsSort config l2 (4 ∷ 5 ∷ []) 1 path index
      index-IsBuilt (omega arith) (omega arith)

path-IsStorable : IsStorable path
path-IsStorable = record {
  graph = path-IsGraph;
  nodes = omega arith;
  degree = omega arith;
  entry = omega arith;
}

load-save_example :
    (b : Bytes) × (save true index ≡ some (saved, some b))
    × (load true 0 b index ≡ done (saved, record index { nav_data = some path; is_built = true }))
load-save_example = load-save index index path refl path-IsStorable

abbrev twenty : Bitmap
twenty = Visited.new 20
