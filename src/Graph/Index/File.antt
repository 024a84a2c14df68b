-- ===== src/Graph/Index/File.antt =====
-- A saved graph is loaded again.
use agent_mem_io.Prelude.{
  ℕ, suc, ◌+◌, ◌-◌, ◌%◌, ◌^◌, ◌<◌, ◌≤◌, ◌≡◌, refl, sym, ◌∙◌, subst, ap, true, false, some, List, [],
  ◌∷◌, ◌++◌, length, replicate, get_elem?, All, leb, arith, length-append,
}
use agent_mem_io.Prelude.Bytes.{Bytes, to_le, read_le-to_le, read_bytes-append}
use agent_mem_io.Lsm.Entry.{success}
use agent_mem_io.Lsm.SsTable.{write_vector, done, same_bytes}
use agent_mem_io.Lsm.SsTable.Codec.{read_vector_words-write_vector}
use agent_mem_io.Graph.Nav.{Nav, count32, get_neighbors}
use agent_mem_io.Graph.Nav.Degrees.{IsGraph, IsList}
use agent_mem_io.Graph.Index.{
  Index, magic, write_lists, save_nav, save, read_lists, read_graph, read_sizes, load_nav, load,
}

-- The bytes of some lists.
abbrev list_bytes : List (List ℕ) → Bytes
list_bytes [] = []
list_bytes (ns ∷ lists) = to_le 4 (length ns % 2 ^ 32) ++ (write_vector ns ++ list_bytes lists)

-- The words of a list fit the fields of the file.
abbrev Fits : List ℕ → Type 0
Fits ns = (length ns < 2 ^ 32) × All (λ (x : ℕ). x < 2 ^ 32) ns

read_lists_lem :
    (lists : List (List ℕ))
    → All Fits lists
    → read_lists (length lists) (list_bytes lists) ≡ some lists
unfolding read_lists
read_lists_lem [] a = refl
read_lists_lem (ns ∷ lists) a =
    let small : length ns % 2 ^ 32 ≡ length ns = omega (arith, a.0.0) in
    rw
      (
        small,
        read_le-to_le 4 (length ns) (write_vector ns ++ list_bytes lists) a.0.0,
        read_lists,
        read_vector_words-write_vector ns (list_bytes lists) a.0.1,
        read_lists,
        read_lists_lem lists a.1,
      )
      refl

-- The list of the node that follows some lists.
get_elem?-after :
    (done_lists : List (List ℕ)) (ns : List ℕ) (rest : List (List ℕ))
    → get_elem? (done_lists ++ ns ∷ rest) (length done_lists) ≡ some ns
get_elem?-after [] ns rest = refl
get_elem?-after (l ∷ ls) ns rest = get_elem?-after ls ns rest

append_one :
    (xs : List (List ℕ)) (y : List ℕ) (ys : List (List ℕ)) → (xs ++ y ∷ []) ++ ys ≡ xs ++ y ∷ ys
append_one [] y ys = refl
append_one (x ∷ xs) y ys = ap (◌∷◌ x) (append_one xs y ys)

list_at :
    (g : Nav) (before : List (List ℕ)) (ns : List ℕ) (lists : List (List ℕ))
    → g.lists ≡ before ++ ns ∷ lists
    → length before < g.num_nodes
    → get_neighbors (length before) g ≡ some ns
unfolding get_neighbors
list_at g before ns lists e h =
    let inside : leb g.num_nodes (length before) ≡ false = ground (arith, h) in
    rw (get_neighbors, inside, e) (get_elem?-after before ns lists)

write_lists_lem :
    (g : Nav) (before lists : List (List ℕ))
    → g.lists ≡ before ++ lists
    → length before + length lists ≤ g.num_nodes
    → write_lists (length before) (length lists) g ≡ some (list_bytes lists)
unfolding write_lists
write_lists_lem g before [] e h = refl
write_lists_lem g before (ns ∷ lists) e h =
    let longer : length (before ++ ns ∷ []) ≡ suc (length before) =
      omega (arith, length-append before (ns ∷ [])) in
    let later =
      write_lists_lem g (before ++ ns ∷ []) lists (e ∙ sym (append_one before ns lists))
        (omega (arith, longer, h)) in
    let later' : write_lists (suc (length before)) (length lists) g ≡ some (list_bytes lists) =
      subst (λ k. write_lists k (length lists) g ≡ some (list_bytes lists)) longer later in
    rw (list_at g before ns lists e (omega (arith, h)), write_lists, later') refl

-- The sizes of a graph and the words of its lists fit the fields of the file.
pub record IsStorable (g : Nav) : Type 0 where
  pub graph : IsGraph g
  pub nodes : g.num_nodes < 2 ^ 32
  pub degree : g.max_degree < 2 ^ 32
  pub entry : g.entry_point < 2 ^ 32

Fits-lists :
    (n degree : ℕ) (lists : List (List ℕ))
    → n < 2 ^ 32
    → degree < 2 ^ 32
    → All (IsList n degree) lists
    → All Fits lists
Fits-lists n degree [] h d a = tt
Fits-lists n degree (ns ∷ lists) h d a =
    ((omega (arith, a.0.2, d), words ns a.0.0), Fits-lists n degree lists h d a.1)
  where
    words : (xs : List ℕ) → All (λ (x : ℕ). x < n) xs → All (λ (x : ℕ). x < 2 ^ 32) xs
    words [] b = tt
    words (x ∷ xs) b = (omega (arith, b.0, h), words xs b.1)

file_bytes : Nav → Bytes
file_bytes g =
    magic
    ++ (to_le 8 g.num_nodes
        ++ (to_le 4 g.max_degree ++ (to_le 4 g.entry_point ++ list_bytes g.lists)))

module _ (g : Nav) (s : IsStorable g) where
  count32_lem : count32 g.num_nodes ≡ g.num_nodes
  count32_lem = omega (arith, s.nodes)

  append_none : (xs : List (List ℕ)) → xs ++ [] ≡ xs
  append_none [] = refl
  append_none (x ∷ xs) = ap (◌∷◌ x) (append_none xs)

  tail : g.lists ++ replicate (g.num_nodes - count32 g.num_nodes) [] ≡ g.lists
  tail =
      let left : g.num_nodes - count32 g.num_nodes ≡ 0 = omega (arith, count32_lem) in
      rw left (append_none g.lists)

  save_nav_lem : save_nav g ≡ some (file_bytes g)
  unfolding save_nav file_bytes
  save_nav_lem =
      let all : write_lists 0 g.num_nodes g ≡ some (list_bytes g.lists) =
        subst (λ n. write_lists 0 n g ≡ some (list_bytes g.lists)) s.graph.count
          (write_lists_lem g [] g.lists refl (omega (arith, s.graph.count))) in
      rw (count32_lem, save_nav, all) refl

  read_graph_lem : read_graph g.num_nodes g.max_degree g.entry_point (list_bytes g.lists) ≡ done g
  unfolding read_graph
  read_graph_lem =
      let all : read_lists g.num_nodes (list_bytes g.lists) ≡ some g.lists =
        subst (λ n. read_lists n (list_bytes g.lists) ≡ some g.lists) s.graph.count
          (read_lists_lem g.lists
            (Fits-lists g.num_nodes g.max_degree g.lists s.nodes s.degree s.graph.lists)) in
      rw (count32_lem, all, read_graph) (ap (λ ls. done (record g { lists = ls })) tail)

  load_nav_lem : load_nav 0 (file_bytes g) ≡ done g
  unfolding load_nav read_sizes file_bytes same_bytes
  load_nav_lem =
      let lists = list_bytes g.lists in
      let sizes : Bytes = to_le 4 g.max_degree ++ (to_le 4 g.entry_point ++ lists) in
      rw
        (
          read_bytes-append magic (to_le 8 g.num_nodes ++ sizes),
          load_nav,
          read_le-to_le 8 g.num_nodes sizes (omega (arith, s.nodes)),
          read_sizes,
          read_le-to_le 4 g.max_degree (to_le 4 g.entry_point ++ lists) s.degree,
          read_sizes,
          read_le-to_le 4 g.entry_point lists s.entry,
        )
        read_graph_lem

-- A graph whose lists hold distinct nodes of the graph within its degree bound, with fewer than 2
-- ^ 32 nodes, a 32-bit bound and a 32-bit entry point, is saved, and load of the saved bytes, when
-- a zero byte follows the array of the magic in memory, succeeds, sets the same graph and marks
-- the index as built. Either file must open.
pub load-save :
    (x y : Index) (g : Nav)
    → x.nav_data ≡ some g
    → IsStorable g
    → (b : Bytes) × (save true x ≡ some (success, some b))
      × (load true 0 b y ≡ done (success, record y { nav_data = some g; is_built = true }))
unfolding save load
load-save x y g e s =
    (file_bytes g, rw (e, save, save_nav_lem g s) refl, rw (load_nav_lem g s, load) refl)
