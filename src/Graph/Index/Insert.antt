-- ===== src/Graph/Index/Insert.antt =====
-- What an insertion into a built index leaves.
use agent_mem_io.Prelude.{
  ℕ, zero, suc, All, ◌^◌, ◌<◌, ◌≡◌, ◌≢◌, ◌%◌, false, refl, ◌∙◌, Bool, true, some, List, [], ◌∷◌,
  ◌++◌, length, length-append, ◌==◌, arith,
}
use agent_mem_io.Lsm.Entry.{Vector}
use agent_mem_io.Graph.Nav.{Nav, add_node}
use agent_mem_io.Graph.Nav.Degrees.{IsGraph, add_node-IsGraph}
use agent_mem_io.Graph.Search.{search_for_construction}
use agent_mem_io.Graph.Builder.{Config, add_node_incremental}
use agent_mem_io.Graph.Builder.Valid.{SameFrame, IsSort}
use agent_mem_io.Graph.Builder.Grow.{add_node_incremental-IsGraph}
use agent_mem_io.Graph.Index.{
  Index, success, thrown, between, vector_at, alike, insert_node, add_vector,
}

-- An index that was built, with the graph `g` on its vectors, which have the dimension `dim`.
pub record IsBuilt (config : Config) (dim : ℕ) (g : Nav) (x : Index) : Type 0 where
  pub nav : x.nav_data ≡ some g
  pub built : x.is_built ≡ true
  pub builder : x.has_builder ≡ true
  pub graph : IsGraph g
  pub count : g.num_nodes ≡ length x.vectors
  pub degree : g.max_degree ≡ config.max_degree
  pub entry : g.entry_point < g.num_nodes
  pub vectors : All (λ (v : Vector). length v ≡ dim) x.vectors

length-vector_at :
    (dim : ℕ) (vs : List Vector) (i : ℕ)
    → All (λ (v : Vector). length v ≡ dim) vs
    → i < length vs
    → length (vector_at vs i) ≡ dim
length-vector_at dim [] i a h = absurd (elim h [ ])
length-vector_at dim (v ∷ vs) zero a h = a.0
length-vector_at dim (v ∷ vs) (suc i) a h = length-vector_at dim vs i a.1 (omega (arith, h))

All-snoc :
    (dim : ℕ) (vs : List Vector) (v : Vector)
    → All (λ (w : Vector). length w ≡ dim) vs
    → length v ≡ dim
    → All (λ (w : Vector). length w ≡ dim) (vs ++ v ∷ [])
All-snoc dim [] v a h = (h, tt)
All-snoc dim (w ∷ ws) v a h = (a.0, All-snoc dim ws v a.1 h)

vector_at-last : (vs : List Vector) (v : Vector) → vector_at (vs ++ v ∷ []) (length vs) ≡ v
vector_at-last [] v = refl
vector_at-last (w ∷ ws) v = vector_at-last ws v

length-vector_at_before :
    (dim : ℕ) (vs : List Vector) (v : Vector) (i : ℕ)
    → All (λ (w : Vector). length w ≡ dim) vs
    → i < length vs
    → length (vector_at (vs ++ v ∷ []) i) ≡ dim
length-vector_at_before dim [] v i a h = absurd (elim h [ ])
length-vector_at_before dim (w ∷ ws) v zero a h = a.0
length-vector_at_before dim (w ∷ ws) v (suc i) a h =
    length-vector_at_before dim ws v i a.1 (omega (arith, h))

module _ {D : Type 0} (lt : D → D → Bool) (scale : D → D) (sort : List (ℕ × D) → List (ℕ × D))
    (sorts : IsSort sort) (config : Config) (l2_distance : Vector → Vector → D) where
  module _ (v : Vector) (dim : ℕ) (g : Nav) (x : Index) (b : IsBuilt config dim g x)
      (same : length v ≡ dim) (small : length x.vectors < 2 ^ 32) where
    all_alike :
        (i j : ℕ)
        → i < suc (length x.vectors)
        → j < suc (length x.vectors)
        → alike lt scale sort config l2_distance (x.vectors ++ v ∷ []) i j ≡ true
    all_alike i j h k =
        let vs = x.vectors ++ v ∷ [] in
        let all = All-snoc dim x.vectors v b.vectors same in
        let longer = length-append x.vectors (v ∷ []) in
        let e = length-vector_at dim vs i all (omega (arith, h, longer)) in
        let f = length-vector_at dim vs j all (omega (arith, k, longer)) in rw (e, f) (ground arith)

    grown :
        (g' : Nav) × (add_node_incremental lt scale sort config
            (between lt scale sort config l2_distance (x.vectors ++ v ∷ []))
            (alike lt scale sort config l2_distance (x.vectors ++ v ∷ []))
            (length x.vectors)
            (add_node g).1
          ≡ some g')
        × IsGraph g'
        × SameFrame (add_node g).1 g'
    grown =
        unfold add_node in
        add_node_incremental-IsGraph lt scale
          (between lt scale sort config l2_distance (x.vectors ++ v ∷ [])) sort sorts config
          (alike lt scale sort config l2_distance (x.vectors ++ v ∷ [])) (length x.vectors)
          (add_node g).1 (add_node-IsGraph g b.graph) b.degree (omega (arith, b.entry))
          (λ i j h k. all_alike i j (omega (arith, h, b.count)) (omega (arith, k, b.count)))
          (omega (arith, b.count))

    insert_node_lem :
        (g' : Nav) × (insert_node lt scale sort config l2_distance v (length x.vectors) g x
          ≡ (success, record x { vectors = x.vectors ++ v ∷ []; nav_data = some g' }))
        × IsGraph g'
        × SameFrame (add_node g).1 g'
    unfolding insert_node
    insert_node_lem =
        let (g', e, y, f) = grown in
        let same_id : ((add_node g).0 == length x.vectors) ≡ true =
          unfold add_node in ground (arith, b.count, small) in
        (g', rw (same_id, insert_node, e) refl, y, f)

    -- The checks pass.
    checked :
        add_vector lt scale sort config l2_distance v (length x.vectors) x
        ≡ insert_node lt scale sort config l2_distance v (length x.vectors) g x
    unfolding add_vector
    checked = ground (arith, b.nav, b.built, b.builder)

    -- With a sort that keeps the candidates, on a built index of fewer than 2 ^ 32 vectors of one
    -- dimension, whose graph has one node for each vector, lists of distinct nodes within the
    -- builder's degree bound, and a node as its entry point, add_vector of a vector of that
    -- dimension with the next id succeeds and leaves such an index with the vector appended and
    -- the same entry point.
    pub add_vector-IsBuilt :
        (g' : Nav) × (y : Index) × (add_vector lt scale sort config l2_distance v
            (length x.vectors)
            x
          ≡ (success, y))
        × IsBuilt config dim g' y
        × (y.vectors ≡ x.vectors ++ v ∷ [])
        × (g'.entry_point ≡ g.entry_point)
    add_vector-IsBuilt =
        let (g', e, z, f) = insert_node_lem in
        let (c, d, p) : SameFrame (add_node g).1 g' = f in
        (
          g',
          record x { vectors = x.vectors ++ v ∷ []; nav_data = some g' },
          checked ∙ e,
          record {
            nav = refl;
            built = b.built;
            builder = b.builder;
            graph = z;
            count = unfold add_node in omega (arith, c, b.count, length-append x.vectors (v ∷ []));
            degree = unfold add_node in d ∙ b.degree;
            entry = unfold add_node in ground (arith, c, p, b.entry);
            vectors = All-snoc dim x.vectors v b.vectors same;
          },
          refl,
          unfold add_node in p,
        )

  module _ (v : Vector) (dim : ℕ) (g : Nav) (x : Index) (b : IsBuilt config dim g x)
      (other : length v ≢ dim) (small : length x.vectors < 2 ^ 32) where
    -- The new vector does not have the dimension of the entry point's.
    unlike :
        alike lt scale sort config l2_distance
          (x.vectors ++ v ∷ [])
          (length x.vectors)
          g.entry_point
        ≡ false
    unlike =
        let inside : g.entry_point < length x.vectors = omega (arith, b.entry, b.count) in
        let e : length (vector_at (x.vectors ++ v ∷ []) g.entry_point) ≡ dim =
          length-vector_at_before dim x.vectors v g.entry_point b.vectors inside in
        rw (vector_at-last x.vectors v, e) (ground (arith, other))

    insert_node_thrown :
        insert_node lt scale sort config l2_distance v (length x.vectors) g x
        ≡ (thrown, record x { vectors = x.vectors ++ v ∷ []; nav_data = some (add_node g).1 })
    unfolding insert_node add_node_incremental search_for_construction add_node
    insert_node_thrown =
        let same_id : (g.num_nodes % 2 ^ 32 == length x.vectors) ≡ true =
          ground (arith, b.count, small) in
        let some_node : (suc g.num_nodes == 0) ≡ false = ground arith in
        rw (same_id, some_node, unlike) refl

    -- On a built index of fewer than 2 ^ 32 vectors of one dimension, add_vector of a vector of
    -- another dimension with the next id throws, and leaves the vector and a node without edges
    -- behind.
    pub add_vector_thrown :
        add_vector lt scale sort config l2_distance v (length x.vectors) x
        ≡ (thrown, record x { vectors = x.vectors ++ v ∷ []; nav_data = some (add_node g).1 })
    unfolding add_vector
    add_vector_thrown = ground (arith, b.nav, b.built, b.builder) ∙ insert_node_thrown
