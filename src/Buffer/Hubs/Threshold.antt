-- ===== src/Buffer/Hubs/Threshold.antt =====
-- The threshold is a positive in-degree that some node has, so that some node is a hub.
use agent_mem_io.Prelude.{
  ℕ, zero, suc, ◌+◌, ◌<◌, ◌≤◌, ◌≡◌, refl, sym, ◌∙◌, subst, Bool, true, false, ◌||◌, none, some,
  List, [], ◌∷◌, length, get_elem?, All, member, leb, ◌==◌, arith, inl, inr, Bool-cases,
  Option-cases,
}
use agent_mem_io.Buffer.Policy.{uint32_max}
use agent_mem_io.Buffer.Pool.{Bytes, Pool}
use agent_mem_io.Buffer.Pool.Valid.{IsValid}
use agent_mem_io.Buffer.Pool.Steps.{policy-IsSound}
use agent_mem_io.Buffer.Hubs.{
  classify_from, classify_hub_nodes, insert_sorted, sort, after_zeros, place, compute_hub_threshold,
  update_policy, update_hub_threshold,
}

-- Some place of a list has a number that satisfies a condition.
abbrev pub Somewhere : List ℕ → (ℕ → Type 0) → Type 0
Somewhere ds P = (i : ℕ) × (d : ℕ) × (get_elem? ds i ≡ some d) × P d

member-insert_sorted :
    (a d : ℕ) (xs : List ℕ) → member a (insert_sorted d xs) ≡ ((d == a) || member a xs)
unfolding insert_sorted
member-insert_sorted a d [] = refl
member-insert_sorted a d (x ∷ xs) = ground (arith, member-insert_sorted a d xs)

member-sort : (a : ℕ) (xs : List ℕ) → member a (sort xs) ≡ member a xs
unfolding sort
member-sort a [] = refl
member-sort a (x ∷ xs) = ground (arith, member-insert_sorted a x (sort xs), member-sort a xs)

member-after_zeros : (a : ℕ) (xs : List ℕ) → member a (after_zeros xs) ≡ true → member a xs ≡ true
unfolding after_zeros
member-after_zeros a [] m = m
member-after_zeros a (x ∷ xs) m = ground (arith, member-after_zeros a xs)

-- A sorted list, and its part after the zeros.
abbrev Sorted : List ℕ → Type 0
Sorted [] = Unit
Sorted (x ∷ xs) = All (λ (y : ℕ). x ≤ y) xs × Sorted xs

All-insert_sorted :
    (m d : ℕ) (xs : List ℕ)
    → m ≤ d
    → All (λ (y : ℕ). m ≤ y) xs
    → All (λ (y : ℕ). m ≤ y) (insert_sorted d xs)
unfolding insert_sorted
All-insert_sorted m d [] h a = (h, tt)
All-insert_sorted m d (x ∷ xs) h a = ground (arith, h, All-insert_sorted m d xs h a.1)

All-le : (m n : ℕ) (xs : List ℕ) → m ≤ n → All (λ (y : ℕ). n ≤ y) xs → All (λ (y : ℕ). m ≤ y) xs
All-le m n [] h a = tt
All-le m n (x ∷ xs) h a = (omega (arith, h, a.0), All-le m n xs h a.1)

insert_sorted-Sorted : (d : ℕ) (xs : List ℕ) → Sorted xs → Sorted (insert_sorted d xs)
unfolding insert_sorted
insert_sorted-Sorted d [] s = (tt, tt)
insert_sorted-Sorted d (x ∷ xs) s = elim (Bool-cases (leb d x)) [
  | inl h ↦
      let le : d ≤ x = ground (arith, h) in rw (insert_sorted, h) ((le, All-le d x xs le s.0), s)
  | inr h ↦
      let le : x ≤ d = ground (arith, h) in
      rw (insert_sorted, h) (All-insert_sorted x d xs le s.0, insert_sorted-Sorted d xs s.1)
]

sort-Sorted : (xs : List ℕ) → Sorted (sort xs)
unfolding sort
sort-Sorted [] = tt
sort-Sorted (x ∷ xs) = insert_sorted-Sorted x (sort xs) (sort-Sorted xs)

after_zeros-positive : (xs : List ℕ) → Sorted xs → All (λ (y : ℕ). 1 ≤ y) (after_zeros xs)
unfolding after_zeros
after_zeros-positive [] s = tt
after_zeros-positive (x ∷ xs) s = elim (Bool-cases (x == 0)) [
  | inl h ↦ rw (after_zeros, h) (after_zeros-positive xs s.1)
  | inr h ↦ let pos : 1 ≤ x = ground (arith, h) in rw (after_zeros, h) (pos, All-le 1 x xs pos s.0)
]

-- A place within a list has a number of the list.
member-get_elem? : (xs : List ℕ) (i d : ℕ) → get_elem? xs i ≡ some d → member d xs ≡ true
member-get_elem? [] i d e = absurd (cc)
member-get_elem? (x ∷ xs) zero d e = ground (arith, e)
member-get_elem? (x ∷ xs) (suc i) d e = ground (arith, member-get_elem? xs i d e)

get_elem?-positive :
    (xs : List ℕ) (i d : ℕ) → All (λ (y : ℕ). 1 ≤ y) xs → get_elem? xs i ≡ some d → 1 ≤ d
get_elem?-positive [] i d a e = absurd (cc)
get_elem?-positive (x ∷ xs) zero d a e = ground (arith, e, a.0)
get_elem?-positive (x ∷ xs) (suc i) d a e = get_elem?-positive xs i d a.1 e

get_elem?-none : (xs : List ℕ) (i : ℕ) → get_elem? xs i ≡ none → length xs ≤ i
get_elem?-none [] i e = omega arith
get_elem?-none (x ∷ xs) zero e = absurd (cc)
get_elem?-none (x ∷ xs) (suc i) e = omega (arith, get_elem?-none xs i e)

after_zeros-member :
    (a : ℕ) (xs : List ℕ) → 1 ≤ a → member a xs ≡ true → member a (after_zeros xs) ≡ true
unfolding after_zeros
after_zeros-member a [] h m = m
after_zeros-member a (x ∷ xs) h m = ground (arith, after_zeros-member a xs h)

-- What is not within a list is not in it.
member_empty : (a : ℕ) (xs : List ℕ) → member a xs ≡ true → 1 ≤ length xs
member_empty a [] m = absurd (cc)
member_empty a (x ∷ xs) m = omega arith

-- Which nodes `classify_hub_nodes` takes.
is_hub : ℕ → List ℕ → ℕ → Bool
is_hub threshold in_degrees i = elim (get_elem? in_degrees i) [
  | none ↦ false
  | some d ↦ leb threshold d
]

classify_from_below :
    (threshold k i : ℕ) (ds : List ℕ) → i < k → member i (classify_from threshold k ds) ≡ false
unfolding classify_from
classify_from_below threshold k i [] h = refl
classify_from_below threshold k i (d ∷ ds) h =
    ground (arith, h, classify_from_below threshold (suc k) i ds (omega arith))

member-classify_from :
    (threshold k i : ℕ) (ds : List ℕ)
    → member (k + i) (classify_from threshold k ds) ≡ is_hub threshold ds i
unfolding classify_from is_hub
member-classify_from threshold k i [] = refl
member-classify_from threshold k zero (d ∷ ds) =
    ground (arith, classify_from_below threshold (suc k) k ds (omega arith))
member-classify_from threshold k (suc i) (d ∷ ds) =
    let rec : member (k + suc i) (classify_from threshold (suc k) ds) ≡ is_hub threshold ds i =
      subst (λ n. member n (classify_from threshold (suc k) ds) ≡ is_hub threshold ds i)
        (omega arith) (member-classify_from threshold (suc k) i ds) in
    ground (arith, rec)

place-lt : (rank : ℕ → ℕ) (n : ℕ) → 1 ≤ n → place rank n < n
unfolding place
place-lt rank n h = ground (arith, h)

index_of : (d : ℕ) (xs : List ℕ) → member d xs ≡ true → (i : ℕ) × (get_elem? xs i ≡ some d)
index_of d [] m = absurd (cc)
index_of d (x ∷ xs) m = elim (Bool-cases (x == d)) [
  | inl e ↦ (0, ground (arith, e))
  | inr e ↦ let (i, at) = index_of d xs (ground (arith, m, e)) in (suc i, at)
]

-- A node is a hub if its in-degree reaches the threshold.
pub classify_hub_nodes-reach :
    (in_degrees : List ℕ) (threshold i : ℕ)
    → member i (classify_hub_nodes in_degrees threshold)
      ≡ elim (get_elem? in_degrees i) [ none ↦ false | some d ↦ leb threshold d ]
unfolding classify_hub_nodes is_hub
classify_hub_nodes-reach in_degrees threshold i =
    subst
      (λ n.
        member n (classify_from threshold 0 in_degrees)
        ≡ elim (get_elem? in_degrees i) [ none ↦ false | some d ↦ leb threshold d ])
      (omega arith) (member-classify_from threshold 0 i in_degrees)

-- A positive in-degree that some node has, and a node that it makes a hub.
abbrev pub IsHubThreshold : List ℕ → ℕ → Type 0
IsHubThreshold in_degrees t =
    (1 ≤ t)
    × (member t in_degrees ≡ true)
    × ((i : ℕ) × (member i (classify_hub_nodes in_degrees t) ≡ true))

attained-IsHubThreshold :
    (in_degrees : List ℕ) (d : ℕ) → 1 ≤ d → member d in_degrees ≡ true → IsHubThreshold in_degrees d
attained-IsHubThreshold in_degrees d h m =
    let (i, at) = index_of d in_degrees m in
    let reached : leb d d ≡ true = ground arith in
    (h, m, (i, rw (classify_hub_nodes-reach in_degrees d i, at) reached))

compute_hub_threshold_lem :
    (rank : ℕ → ℕ) (in_degrees : List ℕ) (d : ℕ)
    → let positive = after_zeros (sort in_degrees) in
      get_elem? positive (place rank (length positive)) ≡ some d
      → compute_hub_threshold rank in_degrees ≡ d
unfolding compute_hub_threshold
compute_hub_threshold_lem rank in_degrees d e = rw (compute_hub_threshold, e) refl

-- Where some in-degree is positive, compute_hub_threshold gives a positive in-degree that some
-- node has, so that classify_hub_nodes with it takes at least one node.
pub compute_hub_threshold-IsHubThreshold :
    (rank : ℕ → ℕ) (in_degrees : List ℕ) (a : ℕ)
    → 1 ≤ a
    → member a in_degrees ≡ true
    → IsHubThreshold in_degrees (compute_hub_threshold rank in_degrees)
compute_hub_threshold-IsHubThreshold rank in_degrees a h m =
    let positive = after_zeros (sort in_degrees) in
    let i = place rank (length positive) in
    let there : member a positive ≡ true =
      after_zeros-member a (sort in_degrees) h (member-sort a in_degrees ∙ m) in
    let below : i < length positive =
      place-lt rank (length positive) (member_empty a positive there) in
    elim (Option-cases (get_elem? positive i)) [
      | inl e ↦ absurd (omega (arith, below, get_elem?-none positive i e))
      | inr (d, e) ↦
          let pos : 1 ≤ d =
            get_elem?-positive positive i d
              (after_zeros-positive (sort in_degrees) (sort-Sorted in_degrees)) e in
          let m' : member d in_degrees ≡ true =
            sym (member-sort d in_degrees)
            ∙ member-after_zeros d (sort in_degrees) (member-get_elem? positive i d e) in
          subst (IsHubThreshold in_degrees) (sym (compute_hub_threshold_lem rank in_degrees d e))
            (attained-IsHubThreshold in_degrees d pos m')
    ]

All-member : (m d : ℕ) (xs : List ℕ) → All (λ (y : ℕ). y ≤ m) xs → member d xs ≡ true → d ≤ m
All-member m d [] a e = absurd (cc)
All-member m d (x ∷ xs) a e = elim (Bool-cases (x == d)) [
  | inl h ↦ ground (arith, h, a.0)
  | inr h ↦ All-member m d xs a.1 (ground (arith, e, h))
]

compute_hub_threshold-le :
    (rank : ℕ → ℕ) (in_degrees : List ℕ)
    → All (λ (d : ℕ). d ≤ uint32_max) in_degrees
    → compute_hub_threshold rank in_degrees ≤ uint32_max
unfolding compute_hub_threshold
compute_hub_threshold-le rank in_degrees a =
    let positive = after_zeros (sort in_degrees) in
    let i = place rank (length positive) in
    elim (Option-cases (get_elem? positive i)) [
      | inl e ↦ rw (compute_hub_threshold, e) (omega arith)
      | inr (d, e) ↦
          let m' : member d in_degrees ≡ true =
            sym (member-sort d in_degrees)
            ∙ member-after_zeros d (sort in_degrees) (member-get_elem? positive i d e) in
          rw (compute_hub_threshold, e) (All-member uint32_max d in_degrees a m')
    ]

-- With 32-bit in-degrees, update_hub_threshold keeps a valid pool valid.
pub update_hub_threshold-IsValid :
    (Ok : ℕ → Bytes → Type 0) (rank : ℕ → ℕ) (in_degrees : List ℕ) (s : Pool)
    → All (λ (d : ℕ). d ≤ uint32_max) in_degrees
    → IsValid Ok s
    → IsValid Ok (update_hub_threshold rank in_degrees s)
unfolding update_hub_threshold update_policy
update_hub_threshold-IsValid Ok rank in_degrees s a v =
    policy-IsSound Ok s.free_frames s
      (record s.policy { hub_threshold = compute_hub_threshold rank in_degrees })
      (record { hot = v.policy.hot; warm = v.policy.warm; apart = v.policy.apart }) v.fits
      (compute_hub_threshold-le rank in_degrees a) (λ p h. h) v
