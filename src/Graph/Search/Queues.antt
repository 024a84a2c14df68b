-- ===== src/Graph/Search/Queues.antt =====
-- The queues of the search: what a push, a pop and a reversal keep.
use agent_mem_io.Prelude.{
  ℕ, zero, suc, ◌+◌, ◌<◌, ◌≤◌, ◌≡◌, refl, ap, Bool, true, false, ◌||◌, some, List, [], ◌∷◌, length,
  All, Distinct, member, remove, ◌==◌, arith, inl, inr, Bool-cases, get_elem?, remove-Distinct,
  remove_absent, length-remove-member,
}
use agent_mem_io.Graph.Nav.{Nav, get_neighbors}
use agent_mem_io.Graph.Nav.Degrees.{IsGraph}
use agent_mem_io.Graph.Search.{push, pop, reversed}

-- A list of distinct numbers below `n` has no more than `n`.
pub length-Distinct-le :
    (n : ℕ) (xs : List ℕ) → Distinct xs → All (λ (x : ℕ). x < n) xs → length xs ≤ n
length-Distinct-le zero [] d a = omega arith
length-Distinct-le zero (x ∷ xs) d a = absurd (elim a.0 [ ])
length-Distinct-le (suc n) xs d a =
    let rec = length-Distinct-le n (remove n xs) (remove-Distinct n xs d) (lower xs a) in
    elim (Bool-cases (member n xs)) [
      | inl m ↦ omega (arith, length-remove-member n xs d m, rec)
      | inr m ↦
          let e : length (remove n xs) ≡ length xs = ap length (remove_absent n xs m) in
          omega (arith, e, rec)
    ]
  where
    lower : (ys : List ℕ) → All (λ (x : ℕ). x < suc n) ys → All (λ (x : ℕ). x < n) (remove n ys)
    lower [] b = tt
    lower (y ∷ ys) b = ground (arith, lower ys b.1)

get_elem?-some :
    {A : Type 0} (xs : List A) (i : ℕ) → i < length xs → (x : A) × (get_elem? xs i ≡ some x)
get_elem?-some [] i h = absurd (elim h [ ])
get_elem?-some (x ∷ xs) zero h = (x, refl)
get_elem?-some (x ∷ xs) (suc i) h = get_elem?-some xs i (omega arith)

pub get_neighbors-some :
    (c : ℕ) {g : Nav} → IsGraph g → c < g.num_nodes → (ns : List ℕ) × (get_neighbors c g ≡ some ns)
unfolding get_neighbors
get_neighbors-some c {g} x h =
    let (ns, e) = get_elem?-some g.lists c (omega (arith, x.count)) in (ns, ground (arith, e))

-- The nodes that a path of edges leads to from the entry point.
pub data Reachable (g : Nav) : ℕ → Type 0 where
  entry : Reachable g g.entry_point
  edge :
      (a b : ℕ) (ns : List ℕ)
      → Reachable g a
      → get_neighbors a g ≡ some ns
      → member b ns ≡ true
      → Reachable g b

module _ {D : Type 0} where
  abbrev pub ids : List (ℕ × D) → List ℕ
  ids [] = []
  ids (p ∷ ps) = p.0 ∷ ids ps

  pub push-All :
      (P : ℕ × D → Type 0) (before : ℕ × D → ℕ × D → Bool) (p : ℕ × D) (qs : List (ℕ × D))
      → P p
      → All P qs
      → All P (push before p qs)
  unfolding push
  push-All P before p [] h a = (h, tt)
  push-All P before p (q ∷ qs) h a = elim (Bool-cases (before p q)) [
    | inl e ↦ rw (push, e) (h, a)
    | inr e ↦ rw (push, e) (a.0, push-All P before p qs h a.1)
  ]

  pub length-push :
      (before : ℕ × D → ℕ × D → Bool) (p : ℕ × D) (qs : List (ℕ × D))
      → length (push before p qs) ≡ suc (length qs)
  unfolding push
  length-push before p [] = refl
  length-push before p (q ∷ qs) = ground (arith, length-push before p qs)

  pub member-push :
      (before : ℕ × D → ℕ × D → Bool) (a : ℕ) (p : ℕ × D) (qs : List (ℕ × D))
      → member a (ids (push before p qs)) ≡ ((p.0 == a) || member a (ids qs))
  unfolding push
  member-push before a p [] = refl
  member-push before a p (q ∷ qs) = ground (arith, member-push before a p qs)

  pub push-Distinct :
      (before : ℕ × D → ℕ × D → Bool) (p : ℕ × D) (qs : List (ℕ × D))
      → member p.0 (ids qs) ≡ false
      → Distinct (ids qs)
      → Distinct (ids (push before p qs))
  unfolding push
  push-Distinct before p [] m d = (refl, tt)
  push-Distinct before p (q ∷ qs) m d =
      ground (arith, push-Distinct before p qs, member-push before q.0 p qs)

  pub pop-All : (P : ℕ × D → Type 0) (qs : List (ℕ × D)) → All P qs → All P (pop qs)
  pop-All P [] a = tt
  pop-All P (q ∷ qs) a = a.1

  pub pop-Distinct : (qs : List (ℕ × D)) → Distinct (ids qs) → Distinct (ids (pop qs))
  pop-Distinct [] d = tt
  pop-Distinct (q ∷ qs) d = d.1

  pub reversed-All :
      (P : ℕ × D → Type 0) (ps acc : List (ℕ × D)) → All P ps → All P acc → All P (reversed ps acc)
  unfolding reversed
  reversed-All P [] acc a b = b
  reversed-All P (p ∷ ps) acc a b = reversed-All P ps (p ∷ acc) a.1 (a.0, b)

  pub length-reversed : (ps acc : List (ℕ × D)) → length (reversed ps acc) ≡ length ps + length acc
  unfolding reversed
  length-reversed [] acc = omega arith
  length-reversed (p ∷ ps) acc = omega (arith, length-reversed ps (p ∷ acc))

  -- No id of the one list is in the other.
  abbrev Apart : List (ℕ × D) → List (ℕ × D) → Type 0
  Apart ps qs = All (λ p. member p.0 (ids qs) ≡ false) ps

  Apart-cons :
      (p : ℕ × D) (ps acc : List (ℕ × D))
      → Apart ps acc
      → member p.0 (ids ps) ≡ false
      → Apart ps (p ∷ acc)
  Apart-cons p [] acc a m = tt
  Apart-cons p (q ∷ qs) acc a m = ground (arith, Apart-cons p qs acc a.1)

  pub reversed-Distinct :
      (ps acc : List (ℕ × D))
      → Distinct (ids ps)
      → Distinct (ids acc)
      → Apart ps acc
      → Distinct (ids (reversed ps acc))
  unfolding reversed
  reversed-Distinct [] acc d e a = e
  reversed-Distinct (p ∷ ps) acc d e a =
      reversed-Distinct ps (p ∷ acc) d.1 (a.0, e) (Apart-cons p ps acc a.1 d.0)

  pub Apart-nil : (ps : List (ℕ × D)) → Apart ps []
  Apart-nil [] = tt
  Apart-nil (p ∷ ps) = (refl, Apart-nil ps)
