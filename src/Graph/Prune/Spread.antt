-- ===== src/Graph/Prune/Spread.antt =====
-- The neighbours that the pruning chooses.
use agent_mem_io.Prelude.{
  ℕ, ◌≤◌, ◌≡◌, ◌⊎◌, refl, sym, subst, Bool, true, false, List, [], ◌∷◌, ◌++◌, length, All, member,
  leb, ◌==◌, arith, inl, inr, Bool-cases, length-append, member-append,
}
use agent_mem_io.Graph.Prune.{should_add, prune_sorted, robust_prune}

module _ {D : Type 0} (lt : D → D → Bool) (scale : D → D) (distance : ℕ → ℕ → D) where
  -- The neighbours in the order of their choice, from the pairs with the last choice first.
  abbrev pub ids : List (ℕ × D) → List ℕ
  ids [] = []
  ids ((c, d) ∷ ps) = ids ps ++ c ∷ []

  -- A neighbour `c` at the distance `d` is no nearer than `alpha * d` to any that was chosen before.
  abbrev pub Spread : List (ℕ × D) → Type 0
  Spread [] = Unit
  Spread ((c, d) ∷ ps) = All (λ x. lt (distance c x) (scale d) ≡ false) (ids ps) × Spread ps

  abbrev pub Chosen : ℕ → ℕ → List ℕ → Type 0
  Chosen max_degree node out =
      (ps : List (ℕ × D)) × (out ≡ ids ps)
      × Spread ps
      × (member node out ≡ false)
      × (length out ≤ max_degree)

  should_add-All :
      (c : ℕ) (d : D) (xs : List ℕ)
      → should_add lt scale distance c d xs ≡ true
      → All (λ x. lt (distance c x) (scale d) ≡ false) xs
  unfolding should_add
  should_add-All c d [] h = tt
  should_add-All c d (x ∷ xs) h = ground (arith, should_add-All c d xs)

  prune_sorted-Chosen :
      (max_degree node : ℕ) (cs ps : List (ℕ × D))
      → Spread ps
      → member node (ids ps) ≡ false
      → length (ids ps) ≤ max_degree
      → Chosen max_degree node (prune_sorted lt scale distance max_degree node cs (ids ps))
  unfolding prune_sorted
  prune_sorted-Chosen max_degree node [] ps s m l = (ps, refl, s, m, l)
  prune_sorted-Chosen max_degree node ((c, d) ∷ cs) ps s m l =
      let skip = prune_sorted-Chosen max_degree node cs ps s m l in
      elim (Bool-cases (leb max_degree (length (ids ps)))) [
        | inl full ↦ rw (full, prune_sorted) (ps, refl, s, m, l)
        | inr room ↦ elim (Bool-cases (c == node)) [
          | inl same ↦ rw (room, same, prune_sorted) skip
          | inr other ↦ elim (Bool-cases (should_add lt scale distance c d (ids ps))) [
            | inl far ↦
                rw (room, other, far, prune_sorted)
                  (prune_sorted-Chosen max_degree node cs ((c, d) ∷ ps)
                    (should_add-All c d (ids ps) far, s)
                    (ground (arith, member-append node (ids ps) (c ∷ [])))
                    (ground (arith, length-append (ids ps) (c ∷ []))))
            | inr near ↦ rw (room, other, near, prune_sorted) skip
          ]
        ]
      ]

  prune_sorted-keeps :
      (max_degree node x : ℕ) (cs : List (ℕ × D)) (result : List ℕ)
      → member x result ≡ true
      → member x (prune_sorted lt scale distance max_degree node cs result) ≡ true
  unfolding prune_sorted
  prune_sorted-keeps max_degree node x [] result h = h
  prune_sorted-keeps max_degree node x ((c, d) ∷ cs) result h = ground (
    arith,
    h,
    prune_sorted-keeps max_degree node x cs result h,
    prune_sorted-keeps max_degree node x cs (result ++ c ∷ [])
        (ground (arith, h, member-append x result (c ∷ []))),
  )

  -- Why a candidate needs no place: there is none left, it is the node itself, it was chosen, or a
  -- chosen neighbour is nearer to it than `alpha` times its distance.
  abbrev pub Settled : ℕ → ℕ → List ℕ → ℕ × D → Type 0
  Settled max_degree node out (c, d) =
      (max_degree ≤ length out)
      ⊎ (c ≡ node)
      ⊎ (member c out ≡ true)
      ⊎ ((x : ℕ) × (member x out ≡ true) × (lt (distance c x) (scale d) ≡ true))

  near_one :
      (c : ℕ) (d : D) (xs : List ℕ)
      → should_add lt scale distance c d xs ≡ false
      → (x : ℕ) × (member x xs ≡ true) × (lt (distance c x) (scale d) ≡ true)
  unfolding should_add
  near_one c d [] h = cc
  near_one c d (x ∷ xs) h = elim (Bool-cases (lt (distance c x) (scale d))) [
    | inl near ↦ (x, ground arith, near)
    | inr far ↦ let (y, m, near) = near_one c d xs (rw far at h) in (y, ground (arith, m), near)
  ]

  All-full :
      (max_degree node : ℕ) (out : List ℕ) (cs : List (ℕ × D))
      → max_degree ≤ length out
      → All (Settled max_degree node out) cs
  All-full max_degree node out [] h = tt
  All-full max_degree node out ((c, d) ∷ cs) h = (inl h, All-full max_degree node out cs h)

  Settled-near :
      (max_degree node c : ℕ) (d : D) (cs : List (ℕ × D)) (result : List ℕ)
      → should_add lt scale distance c d result ≡ false
      → Settled max_degree node (prune_sorted lt scale distance max_degree node cs result) (c, d)
  Settled-near max_degree node c d cs result h =
      let (x, m, near) = near_one c d result h in
      inr (inr (inr (x, prune_sorted-keeps max_degree node x cs result m, near)))

  Settled-far :
      (max_degree node c : ℕ) (d : D) (cs : List (ℕ × D)) (result : List ℕ)
      → Settled max_degree node
          (prune_sorted lt scale distance max_degree node cs (result ++ c ∷ []))
          (c, d)
  Settled-far max_degree node c d cs result = inr (
      inr (
        inl (
          prune_sorted-keeps max_degree node c cs (result ++ c ∷ [])
            (ground (arith, member-append c result (c ∷ []))))))

  -- One candidate is passed over, or taken, or finds the list full.
  prune_sorted_cases :
      (max_degree node c : ℕ) (d : D) (cs : List (ℕ × D)) (result : List ℕ)
      → let pruned = prune_sorted lt scale distance max_degree node in
        ((max_degree ≤ length result) × (pruned ((c, d) ∷ cs) result ≡ result))
        ⊎ ((c ≡ node) × (pruned ((c, d) ∷ cs) result ≡ pruned cs result))
        ⊎ ((should_add lt scale distance c d result ≡ false)
            × (pruned ((c, d) ∷ cs) result ≡ pruned cs result))
        ⊎ (pruned ((c, d) ∷ cs) result ≡ pruned cs (result ++ c ∷ []))
  unfolding prune_sorted
  prune_sorted_cases max_degree node c d cs result = ground arith

  prune_sorted-Settled :
      (max_degree node : ℕ) (cs : List (ℕ × D)) (result : List ℕ)
      → All (Settled max_degree node (prune_sorted lt scale distance max_degree node cs result)) cs
  prune_sorted-Settled max_degree node [] result = tt
  prune_sorted-Settled max_degree node ((c, d) ∷ cs) result =
      let skip = prune_sorted-Settled max_degree node cs result in
      let taken = prune_sorted-Settled max_degree node cs (result ++ c ∷ []) in
      let P : List ℕ → Type 0 = λ out. All (Settled max_degree node out) ((c, d) ∷ cs) in
      elim (prune_sorted_cases max_degree node c d cs result) [
        | inl (full, e) ↦ subst P (sym e) (All-full max_degree node result ((c, d) ∷ cs) full)
        | inr (inl (same, e)) ↦ subst P (sym e) (inr (inl same), skip)
        | inr (inr (inl (near, e))) ↦
            subst P (sym e) (Settled-near max_degree node c d cs result near, skip)
        | inr (inr (inr e)) ↦ subst P (sym e) (Settled-far max_degree node c d cs result, taken)
      ]

  -- The candidates in the order in which they are looked at.
  abbrev pub in_order : (List (ℕ × D) → List (ℕ × D)) → List (ℕ × D) → List (ℕ × D)
  in_order sort [] = []
  in_order sort (c ∷ cs) = sort (c ∷ cs)

  -- However the candidates are sorted, robust_prune chooses at most the given degree of
  -- neighbours, never the node itself, and none whose distance to one chosen before it is less
  -- than alpha times its distance to the node; and each candidate is chosen, or is the node
  -- itself, or has such a distance to a chosen one, or the degree is reached.
  pub robust_prune-Chosen :
      (sort : List (ℕ × D) → List (ℕ × D)) (max_degree node : ℕ) (cs : List (ℕ × D))
      → Chosen max_degree node (robust_prune lt scale distance sort max_degree node cs)
        × All
            (Settled max_degree node (robust_prune lt scale distance sort max_degree node cs))
            (in_order sort cs)
  unfolding robust_prune
  robust_prune-Chosen sort max_degree node [] = (([], refl, tt, refl, omega arith), tt)
  robust_prune-Chosen sort max_degree node (c ∷ cs) = (
    prune_sorted-Chosen max_degree node (sort (c ∷ cs)) [] tt refl (omega arith),
    prune_sorted-Settled max_degree node (sort (c ∷ cs)) [],
  )
