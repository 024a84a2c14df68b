-- ===== src/Graph/Nav/Degrees.antt =====
-- The invariant of the graph and the edges after each operation.
use agent_mem_io.Prelude.{
  ℕ, zero, suc, ◌<◌, ◌≤◌, ◌≡◌, ◌⊎◌, refl, ◌∙◌, subst, true, false, some, List, [], ◌∷◌, ◌++◌,
  length, get_elem?, set, All, Distinct, member, leb, ◌==◌, arith, inl, inr, Bool-cases,
  Option-cases, length-set, length-append, append-Distinct,
}
use agent_mem_io.Graph.Nav.{
  Nav, add_node, get_neighbors, set_neighbors, link, add_neighbor, erase_first, unlink,
  remove_neighbor,
}

-- The neighbours of one node: nodes of the graph, each once, and no more than the limit.
abbrev pub IsList : ℕ → ℕ → List ℕ → Type 0
IsList n degree ns = All (λ (x : ℕ). x < n) ns × Distinct ns × (length ns ≤ degree)

pub record IsGraph (g : Nav) : Type 0 where
  pub count : length g.lists ≡ g.num_nodes
  pub lists : All (IsList g.num_nodes g.max_degree) g.lists

All-set :
    {A : Type 0} (P : A → Type 0) (xs : List A) (i : ℕ) (y : A)
    → All P xs
    → P y
    → All P (set xs i y)
All-set P [] i y a h = tt
All-set P (x ∷ xs) zero y a h = (h, a.1)
All-set P (x ∷ xs) (suc i) y a h = (a.0, All-set P xs i y a.1 h)

All-get_elem? :
    {A : Type 0} (P : A → Type 0) (xs : List A) (i : ℕ) (y : A)
    → All P xs
    → get_elem? xs i ≡ some y
    → P y
All-get_elem? P [] i y a h = absurd (cc)
All-get_elem? P (x ∷ xs) zero y a h = let e : x ≡ y = cc in subst P e a.0
All-get_elem? P (x ∷ xs) (suc i) y a h = All-get_elem? P xs i y a.1 h

All-append :
    {A : Type 0} (P : A → Type 0) (xs : List A) (y : A) → All P xs → P y → All P (xs ++ y ∷ [])
All-append P [] y a h = (h, tt)
All-append P (x ∷ xs) y a h = (a.0, All-append P xs y a.1 h)

All-map :
    {A : Type 0} (P Q : A → Type 0) (xs : List A) → ((x : A) → P x → Q x) → All P xs → All Q xs
All-map P Q [] f a = tt
All-map P Q (x ∷ xs) f a = (f x a.0, All-map P Q xs f a.1)

pub get_neighbors-IsList :
    (node : ℕ) (ns : List ℕ) (g : Nav)
    → IsGraph g
    → get_neighbors node g ≡ some ns
    → IsList g.num_nodes g.max_degree ns
unfolding get_neighbors
get_neighbors-IsList node ns g x h =
    All-get_elem? (IsList g.num_nodes g.max_degree) g.lists node ns x.lists (ground (arith, h))

pub set_neighbors-IsGraph :
    (node : ℕ) (ns : List ℕ) (g : Nav)
    → IsGraph g
    → IsList g.num_nodes g.max_degree ns
    → IsGraph (set_neighbors node ns g)
unfolding set_neighbors
set_neighbors-IsGraph node ns g x h = record {
  count = length-set g.lists node ns ∙ x.count;
  lists = All-set (IsList g.num_nodes g.max_degree) g.lists node ns x.lists h;
}

link_cases :
    (node neighbor : ℕ) (ns : List ℕ) (g : Nav)
    → (link node neighbor ns g ≡ (false, g))
      ⊎ ((member neighbor ns ≡ false)
          × (length ns < g.max_degree)
          × (link node neighbor ns g ≡ (true, set_neighbors node (ns ++ neighbor ∷ []) g)))
unfolding link
link_cases node neighbor ns g = ground arith

add_neighbor_cases :
    (node neighbor : ℕ) (g : Nav)
    → (add_neighbor node neighbor g ≡ (false, g))
      ⊎ ((neighbor < g.num_nodes)
          × ((ns : List ℕ) × (get_neighbors node g ≡ some ns)
              × (add_neighbor node neighbor g ≡ link node neighbor ns g)))
unfolding add_neighbor
add_neighbor_cases node neighbor g = elim (Bool-cases (leb g.num_nodes neighbor)) [
  | inl out ↦ inl (rw (out, add_neighbor) refl)
  | inr inside ↦ elim (Option-cases (get_neighbors node g)) [
    | inl miss ↦ inl (rw (inside, add_neighbor, miss) refl)
    | inr (ns, at) ↦ inr (ground arith, (ns, at, rw (inside, add_neighbor, at) refl))
  ]
]

snoc-IsList :
    (n degree y : ℕ) (ns : List ℕ)
    → IsList n degree ns
    → y < n
    → member y ns ≡ false
    → length ns < degree
    → IsList n degree (ns ++ y ∷ [])
snoc-IsList n degree y ns (a, d, l) h fresh room = (
  All-append (λ (x : ℕ). x < n) ns y a h,
  append-Distinct y ns d fresh,
  omega (arith, length-append ns (y ∷ [])),
)

-- On a graph in which every list has distinct nodes of the graph and no more than the degree
-- limit, add_neighbor keeps all of this.
pub add_neighbor-IsGraph :
    (node neighbor : ℕ) (g : Nav) → IsGraph g → IsGraph (add_neighbor node neighbor g).1
add_neighbor-IsGraph node neighbor g x = elim (add_neighbor_cases node neighbor g) [
  | inl same ↦ rw same x
  | inr (small, (ns, at, e)) ↦ elim (link_cases node neighbor ns g) [
    | inl same ↦ rw (e, same) x
    | inr (fresh, room, e') ↦
        rw (e, e')
          (set_neighbors-IsGraph node (ns ++ neighbor ∷ []) g x (
            snoc-IsList g.num_nodes g.max_degree neighbor ns (get_neighbors-IsList node ns g x at)
              small fresh room))
  ]
]

member-erase_first :
    (a n : ℕ) (ns : List ℕ) → member a ns ≡ false → member a (erase_first n ns) ≡ false
member-erase_first a n [] h = refl
member-erase_first a n (x ∷ xs) h = ground (arith, member-erase_first a n xs)

erase_first-Distinct : (n : ℕ) (ns : List ℕ) → Distinct ns → Distinct (erase_first n ns)
erase_first-Distinct n [] d = tt
erase_first-Distinct n (x ∷ xs) d =
    ground (arith, erase_first-Distinct n xs d.1, member-erase_first x n xs d.0)

All-erase_first :
    (n k : ℕ) (ns : List ℕ) → All (λ (x : ℕ). x < k) ns → All (λ (x : ℕ). x < k) (erase_first n ns)
All-erase_first n k [] a = tt
All-erase_first n k (x ∷ xs) a = ground (arith, All-erase_first n k xs a.1)

length-erase_first : (n : ℕ) (ns : List ℕ) → length (erase_first n ns) ≤ length ns
length-erase_first n [] = omega arith
length-erase_first n (x ∷ xs) = ground (arith, length-erase_first n xs)

erase_first-gone : (n : ℕ) (ns : List ℕ) → Distinct ns → member n (erase_first n ns) ≡ false
erase_first-gone n [] d = refl
erase_first-gone n (x ∷ xs) d = elim (Bool-cases (x == n)) [
  | inl same ↦
      let e : x ≡ n = ground arith in rw same (subst (λ (k : ℕ). member k xs ≡ false) e d.0)
  | inr other ↦ ground (arith, erase_first-gone n xs d.1)
]

remove_neighbor_cases :
    (node neighbor : ℕ) (g : Nav)
    → (remove_neighbor node neighbor g ≡ (false, g))
      ⊎ ((ns : List ℕ) × (get_neighbors node g ≡ some ns)
          × (remove_neighbor node neighbor g
              ≡ (true, set_neighbors node (erase_first neighbor ns) g)))
unfolding remove_neighbor unlink
remove_neighbor_cases node neighbor g = elim (Option-cases (get_neighbors node g)) [
  | inl miss ↦ inl (rw (miss, remove_neighbor) refl)
  | inr (ns, at) ↦ elim (Bool-cases (member neighbor ns)) [
    | inl there ↦ inr (ns, at, rw (at, remove_neighbor, there) refl)
    | inr gone ↦ inl (rw (at, remove_neighbor, gone) refl)
  ]
]

-- On a graph in which every list has distinct nodes of the graph and no more than the degree
-- limit, remove_neighbor keeps all of this.
pub remove_neighbor-IsGraph :
    (node neighbor : ℕ) (g : Nav) → IsGraph g → IsGraph (remove_neighbor node neighbor g).1
remove_neighbor-IsGraph node neighbor g x = elim (remove_neighbor_cases node neighbor g) [
  | inl same ↦ rw same x
  | inr (ns, at, e) ↦
      let (a, d, l) = get_neighbors-IsList node ns g x at in
      rw e (
        set_neighbors-IsGraph node (erase_first neighbor ns) g x (
          All-erase_first neighbor g.num_nodes ns a,
          erase_first-Distinct neighbor ns d,
          omega (arith, length-erase_first neighbor ns),
        ))
]

-- On a graph in which every list has distinct nodes of the graph and no more than the degree
-- limit, add_node keeps all of this.
pub add_node-IsGraph : (g : Nav) → IsGraph g → IsGraph (add_node g).1
unfolding add_node
add_node-IsGraph g x = record {
  count = omega (arith, length-append g.lists ([] ∷ []), x.count);
  lists =
      All-append (IsList (suc g.num_nodes) g.max_degree) g.lists []
        (All-map (IsList g.num_nodes g.max_degree) (IsList (suc g.num_nodes) g.max_degree) g.lists
          (λ ns l. (
            All-map (λ (k : ℕ). k < g.num_nodes) (λ (k : ℕ). k < suc g.num_nodes) ns
                (λ k h. omega arith) l.0,
            l.1,
            l.2,
          ))
          x.lists)
        (tt, tt, omega arith);
}
