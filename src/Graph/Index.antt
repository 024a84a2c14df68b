-- ===== src/Graph/Index.antt =====
-- `GraphIndex` of src/core/graph_index.cpp: insertion into a built index, and its file.
--
-- The file is the bytes "GRAPH001", the number of nodes in 8 bytes, the degree bound and the entry
-- point in 4 bytes each, and for each node its degree and its neighbours in 4 bytes each.
pub mod File
pub mod Insert
use agent_mem_io.Prelude.{
  ℕ, zero, suc, ◌+◌, ◌%◌, ◌^◌, ◌-◌, not, replicate, Bool, true, false, ◌&&◌, Option, none, some,
  List, [], ◌∷◌, ◌++◌, length, get_elem?, ◌==◌, if◌then◌else◌, is_some,
}
use agent_mem_io.Prelude.Bytes.{Bytes, to_le, read_bytes, read_le}
use agent_mem_io.Lsm.Entry.{ErrorCode, success as saved, invalid_argument, io_error, Vector}
use agent_mem_io.Lsm.SsTable.{
  write_vector, read_vector_words, Read, bad_format, undefined, done, same_bytes,
}
use agent_mem_io.Graph.Nav.{Nav, count32, add_node, get_neighbors}
use agent_mem_io.Graph.Builder.{Config, add_node_incremental}

-- `has_builder` tells whether `builder_` is set: `load` leaves it as it is.
pub record Index : Type 0 where
  pub vectors : List Vector
  pub nav_data : Option Nav
  pub has_builder : Bool
  pub is_built : Bool

pub data Reply : Type 0 where
  success not_built wrong_id id_mismatch thrown : Reply

-- `vectors[i]`, which the code reads in range only.
abbrev pub vector_at : List Vector → ℕ → Vector
vector_at vs i = elim (get_elem? vs i) [ none ↦ [] | some v ↦ v ]

module _ {D : Type 0} (lt : D → D → Bool) (scale : D → D) (sort : List (ℕ × D) → List (ℕ × D))
    (config : Config) (l2_distance : Vector → Vector → D) where
  abbrev pub between : List Vector → ℕ → ℕ → D
  between vs a b = l2_distance (vector_at vs a) (vector_at vs b)

  -- Whether `l2_distance` of two stored vectors throws nothing.
  abbrev pub alike : List Vector → ℕ → ℕ → Bool
  alike vs a b = length (vector_at vs a) == length (vector_at vs b)

  -- `add_vector` once the checks are passed. An exception of the builder leaves the vector and the
  -- node behind: the vector is only taken back for an error that is returned.
  unfoldable pub insert_node : Vector → ℕ → Nav → Index → Reply × Index
  insert_node v id g x =
      let vs = x.vectors ++ v ∷ [] in
      let t = add_node g in
      if t.0 == id
      then elim (add_node_incremental lt scale sort config (between vs) (alike vs) id t.1) [
        | none ↦ (thrown, record x { vectors = vs; nav_data = some t.1 })
        | some g' ↦ (success, record x { vectors = vs; nav_data = some g' })
      ]
      else (id_mismatch, record x { nav_data = some t.1 })

  unfoldable pub add_vector : Vector → ℕ → Index → Reply × Index
  add_vector v id x = elim x.nav_data [
    | none ↦ (not_built, x)
    | some g ↦
        if x.is_built && x.has_builder
        then if id == length x.vectors then insert_node v id g x else (wrong_id, x)
        else (not_built, x)
  ]

abbrev pub magic : Bytes
magic = 71 ∷ 82 ∷ 65 ∷ 80 ∷ 72 ∷ 48 ∷ 48 ∷ 49 ∷ []

-- The lists from node `i` on for `n` nodes, which are `count32` of all.
unfoldable pub write_lists : ℕ → ℕ → Nav → Option Bytes
write_lists i zero g = some []
write_lists i (suc n) g = elim (get_neighbors i g) [
  | none ↦ none
  | some ns ↦ elim (write_lists (suc i) n g) [
    | none ↦ none
    | some rest ↦ some (to_le 4 (length ns % 2 ^ 32) ++ (write_vector ns ++ rest))
  ]
]

-- What `save` writes of an index with a graph.
unfoldable pub save_nav : Nav → Option Bytes
save_nav g = elim (write_lists 0 (count32 g.num_nodes) g) [
  | none ↦ none
  | some rest ↦
      some (
        magic ++ (to_le 8 g.num_nodes ++ (to_le 4 g.max_degree ++ (to_le 4 g.entry_point ++ rest))))
]

-- What `save` reports, with the bytes of the file; none stands for an exception. `opens` tells
-- whether the file opens.
unfoldable pub save : Bool → Index → Option (ErrorCode × Option Bytes)
save opens x = elim x.nav_data [
  | none ↦ some (invalid_argument, none)
  | some g ↦
      if not opens
      then some (io_error, none)
      else elim (save_nav g) [ none ↦ none | some bs ↦ some (saved, some bs) ]
]

-- The loop of `load`: the lists of `n` nodes, which are `count32` of all.
unfoldable pub read_lists : ℕ → Bytes → Option (List (List ℕ))
read_lists zero bs = some []
read_lists (suc n) bs = elim (read_le 4 bs) [
  | none ↦ none
  | some (degree, rest) ↦ elim (read_vector_words degree rest) [
    | none ↦ none
    | some (ns, rest') ↦ elim (read_lists n rest') [ none ↦ none | some lists ↦ some (ns ∷ lists) ]
  ]
]

-- The graph is made with an empty list for each node; the loop fills the first ones.
unfoldable pub read_graph : ℕ → ℕ → ℕ → Bytes → Read Nav
read_graph num_nodes max_degree entry_point bs = elim (read_lists (count32 num_nodes) bs) [
  | none ↦ undefined
  | some lists ↦ done (record {
    num_nodes = num_nodes;
    max_degree = max_degree;
    entry_point = entry_point;
    lists = lists ++ replicate (num_nodes - count32 num_nodes) [];
  })
]

unfoldable pub read_sizes : Bytes → Read Nav
read_sizes bs = elim (read_le 8 bs) [
  | none ↦ undefined
  | some (n, rest) ↦ elim (read_le 4 rest) [
    | none ↦ undefined
    | some (d, rest') ↦ elim (read_le 4 rest') [
      | none ↦ undefined
      | some (e, rest'') ↦ read_graph n d e rest''
    ]
  ]
]

-- The code makes a `std::string` of the 8 bytes of the magic, which end in no zero: the string goes
-- on with what follows the array in memory, whose first byte is `after`. It is the expected one if
-- the 8 bytes are and `after` is 0.
unfoldable pub load_nav : ℕ → Bytes → Read Nav
load_nav after bs = elim (read_bytes 8 bs) [
  | none ↦ bad_format
  | some (m, rest) ↦ if same_bytes m magic && (after == 0) then read_sizes rest else bad_format
]

-- A file that does not open, or of a wrong format, is an error.
unfoldable pub load : Bool → ℕ → Bytes → Index → Read (ErrorCode × Index)
load opens after bs x = if not opens then done (io_error, x) else elim (load_nav after bs) [
  | bad_format ↦ done (io_error, x)
  | undefined ↦ undefined
  | done g ↦ done (saved, record x { nav_data = some g; is_built = true })
]
