-- ===== src/Graph/Nav.antt =====
-- The adjacency lists of the graph (`GraphNavData` of src/core/graph_index.cpp).
pub mod Degrees
use agent_mem_io.Prelude.{
  ℕ, suc, ◌+◌, ◌%◌, ◌^◌, Bool, true, false, ◌||◌, Option, none, some, List, [], ◌∷◌, ◌++◌, map,
  length, get_elem?, set, member, replicate, leb, ◌==◌, if◌then◌else◌,
}

pub record Nav : Type 0 where
  pub num_nodes : ℕ
  pub max_degree : ℕ
  pub entry_point : ℕ
  pub lists : List (List ℕ)

-- `static_cast<NodeId>`, the bound of the loops over the nodes.
abbrev pub count32 : ℕ → ℕ
count32 num_nodes = num_nodes % 2 ^ 32

-- `INVALID_NODE_ID`
abbrev pub no_node : ℕ
no_node = 4294967295

unfoldable pub new : ℕ → ℕ → Nav
new num_nodes max_degree = record {
  num_nodes = num_nodes;
  max_degree = max_degree;
  entry_point = no_node;
  lists = replicate num_nodes [];
}

unfoldable pub add_node : Nav → ℕ × Nav
add_node g =
    (g.num_nodes % 2 ^ 32, record g { num_nodes = suc g.num_nodes; lists = g.lists ++ [] ∷ [] })

-- The list of a node, none where the code throws.
unfoldable pub get_neighbors : ℕ → Nav → Option (List ℕ)
get_neighbors node g = if leb g.num_nodes node then none else get_elem? g.lists node

unfoldable pub set_neighbors : ℕ → List ℕ → Nav → Nav
set_neighbors node ns g = record g { lists = set g.lists node ns }

-- The two tests of `add_neighbor` on the list itself.
unfoldable pub link : ℕ → ℕ → List ℕ → Nav → Bool × Nav
link node neighbor ns g =
    if member neighbor ns || leb g.max_degree (length ns)
    then (false, g)
    else (true, set_neighbors node (ns ++ neighbor ∷ []) g)

unfoldable pub add_neighbor : ℕ → ℕ → Nav → Bool × Nav
add_neighbor node neighbor g =
    if leb g.num_nodes neighbor
    then (false, g)
    else elim (get_neighbors node g) [ none ↦ (false, g) | some ns ↦ link node neighbor ns g ]

-- `erase` of the first occurrence.
abbrev pub erase_first : ℕ → List ℕ → List ℕ
erase_first n [] = []
erase_first n (x ∷ xs) = let rest = erase_first n xs in if x == n then xs else x ∷ rest

unfoldable pub unlink : ℕ → ℕ → List ℕ → Nav → Bool × Nav
unlink node neighbor ns g =
    if member neighbor ns
    then (true, set_neighbors node (erase_first neighbor ns) g)
    else (false, g)

unfoldable pub remove_neighbor : ℕ → ℕ → Nav → Bool × Nav
remove_neighbor node neighbor g = elim (get_neighbors node g) [
  | none ↦ (false, g)
  | some ns ↦ unlink node neighbor ns g
]

unfoldable pub get_degree : ℕ → Nav → ℕ
get_degree node g = elim (get_neighbors node g) [ none ↦ 0 | some ns ↦ length ns % 2 ^ 32 ]

unfoldable pub clear : Nav → Nav
clear g = record g { lists = map (λ (ns : List ℕ). []) g.lists; entry_point = no_node }
