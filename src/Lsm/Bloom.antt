-- ===== src/Lsm/Bloom.antt =====
-- The Bloom filter of an SSTable (`SSTableMetadata::build_bloom_filter` and `bloom_filter_test` of
-- src/compaction/memtable.h). A byte of the filter is its eight bits, the lowest first, so
-- `|= 1 << k` sets the bit `k` and `& (1 << k)` reads it.
use agent_mem_io.Prelude.{
  ℕ, zero, suc, ◌+◌, ◌*◌, ◌/◌, ◌%◌, ◌^◌, ◌<◌, ◌≡◌, refl, ◌∙◌, subst, Bool, true, false, ◌&&◌,
  Option, none, some, List, [], ◌∷◌, arith, ◌==◌, length, get_elem?, set, replicate, member, All,
  inl, inr, Bool-cases, get_elem?-set_self, get_elem?-set_ne, length-set,
}

abbrev pub Filter : Type 0
Filter = List (List Bool)

-- `BLOOM_FILTER_BITS`
abbrev pub filter_bits : ℕ
filter_bits = 1024

abbrev pub hash1 : ℕ → ℕ
hash1 id = id % filter_bits

abbrev pub hash2 : ℕ → ℕ
hash2 id = (id * 31 + 7) % 2 ^ 64 % filter_bits

abbrev pub hash3 : ℕ → ℕ
hash3 id = (id * 37 + 13) % 2 ^ 64 % filter_bits

-- `filter[h / 8] |= 1 << (h % 8)`
unfoldable pub set_bit : ℕ → Filter → Filter
set_bit h f = elim (get_elem? f (h / 8)) [ none ↦ f | some b ↦ set f (h / 8) (set b (h % 8) true) ]

abbrev bit_of : Option Bool → Bool
bit_of none = false
bit_of (some b) = b

-- `filter[h / 8] & (1 << (h % 8))`
unfoldable pub test_bit : ℕ → Filter → Bool
test_bit h f = elim (get_elem? f (h / 8)) [ none ↦ false | some b ↦ bit_of (get_elem? b (h % 8)) ]

unfoldable pub add_id : ℕ → Filter → Filter
add_id id f = set_bit (hash3 id) (set_bit (hash2 id) (set_bit (hash1 id) f))

unfoldable pub add_ids : List ℕ → Filter → Filter
add_ids [] f = f
add_ids (id ∷ ids) f = add_ids ids (add_id id f)

unfoldable pub build_bloom_filter : List ℕ → Filter
build_bloom_filter ids = add_ids ids (replicate (filter_bits / 8) (replicate 8 false))

unfoldable pub bloom_filter_test : Filter → ℕ → Bool
bloom_filter_test [] id = true
bloom_filter_test (b ∷ bs) id =
    test_bit (hash1 id) (b ∷ bs) && test_bit (hash2 id) (b ∷ bs) && test_bit (hash3 id) (b ∷ bs)

-- A filter has 128 bytes of eight bits.
IsFilter : Filter → Type 0
IsFilter f = (length f ≡ 128) × All (λ b. length b ≡ 8) f

byte_at :
    (f : Filter) (i : ℕ)
    → All (λ b. length b ≡ 8) f
    → i < length f
    → (b : List Bool) × (get_elem? f i ≡ some b) × (length b ≡ 8)
byte_at [] i a l = absurd (omega arith)
byte_at (b ∷ bs) zero a l = (b, refl, a.0)
byte_at (b ∷ bs) (suc i) a l = byte_at bs i a.1 (omega arith)

set_byte :
    (f : Filter) (i : ℕ) (b : List Bool)
    → All (λ c. length c ≡ 8) f
    → length b ≡ 8
    → All (λ c. length c ≡ 8) (set f i b)
set_byte [] i b a w = tt
set_byte (c ∷ cs) zero b a w = (w, a.1)
set_byte (c ∷ cs) (suc i) b a w = (a.0, set_byte cs i b a.1 w)

module _ (h : ℕ) (f : Filter) (small : h < 1024) (x : IsFilter f) where
  byte_lem : (b : List Bool) × (get_elem? f (h / 8) ≡ some b) × (length b ≡ 8)
  unfolding IsFilter
  byte_lem = byte_at f (h / 8) x.1 (omega (arith, x.0))

  set_bit_lem : set_bit h f ≡ set f (h / 8) (set byte_lem.0 (h % 8) true)
  unfolding set_bit
  set_bit_lem = rw (byte_lem.1, set_bit) refl

  IsFilter-set_bit : IsFilter (set_bit h f)
  unfolding IsFilter
  IsFilter-set_bit = rw set_bit_lem (
    length-set f (h / 8) _ ∙ x.0,
    set_byte f (h / 8) _ x.1 (length-set byte_lem.0 (h % 8) true ∙ byte_lem.2),
  )

  test_bit-set_bit : test_bit h (set_bit h f) ≡ true
  unfolding test_bit IsFilter
  test_bit-set_bit =
      rw
        (
          set_bit_lem,
          get_elem?-set_self f (h / 8) (set byte_lem.0 (h % 8) true) (omega (arith, x.0)),
          test_bit,
          get_elem?-set_self byte_lem.0 (h % 8) true (omega (arith, byte_lem.2)),
        )
        refl

  bit_kept :
      (k : ℕ)
      → bit_of (get_elem? byte_lem.0 (k % 8)) ≡ true
      → bit_of (get_elem? (set byte_lem.0 (h % 8) true) (k % 8)) ≡ true
  bit_kept k t = elim (Bool-cases ((h % 8) == (k % 8))) [
    | inl same ↦
        let e : h % 8 ≡ k % 8 = ground arith in
        subst (λ (i : ℕ). bit_of (get_elem? (set byte_lem.0 (h % 8) true) i) ≡ true) e
          (rw (get_elem?-set_self byte_lem.0 (h % 8) true (omega (arith, byte_lem.2))) refl)
    | inr other ↦ rw (get_elem?-set_ne byte_lem.0 {i = h % 8} {j = k % 8} true (ground arith)) t
  ]

  -- Setting a bit clears no other.
  test_bit-kept : (k : ℕ) → test_bit k f ≡ true → test_bit k (set_bit h f) ≡ true
  unfolding test_bit IsFilter
  test_bit-kept k t = elim (Bool-cases ((h / 8) == (k / 8))) [
    | inl here ↦
        let e : h / 8 ≡ k / 8 = ground arith in
        let at : get_elem? f (k / 8) ≡ some byte_lem.0 =
          subst (λ (i : ℕ). get_elem? f i ≡ some byte_lem.0) e byte_lem.1 in
        let at' : get_elem? (set_bit h f) (k / 8) ≡ some (set byte_lem.0 (h % 8) true) =
          rw set_bit_lem (
            subst
              (λ (i : ℕ).
                get_elem? (set f (h / 8) (set byte_lem.0 (h % 8) true)) i
                ≡ some (set byte_lem.0 (h % 8) true))
              e (get_elem?-set_self f (h / 8) _ (omega (arith, x.0)))) in
        rw (at', test_bit) (bit_kept k (rw (at, test_bit) at t))
    | inr there ↦
        rw
          (
            set_bit_lem,
            test_bit,
            get_elem?-set_ne f {i = h / 8} {j = k / 8} (set byte_lem.0 (h % 8) true) (ground arith),
          )
          t
  ]

IsFilter-add_id : (id : ℕ) (f : Filter) → IsFilter f → IsFilter (add_id id f)
unfolding add_id
IsFilter-add_id id f x =
    IsFilter-set_bit (hash3 id) _ (omega arith)
      (IsFilter-set_bit (hash2 id) _ (omega arith) (IsFilter-set_bit (hash1 id) f (omega arith) x))

-- The three bits of a node are set.
Holds : ℕ → Filter → Type 0
Holds id f =
    (test_bit (hash1 id) f ≡ true) × (test_bit (hash2 id) f ≡ true) × (test_bit (hash3 id) f ≡ true)

module _ (id : ℕ) (f : Filter) (x : IsFilter f) where
  abbrev f1 : Filter
  f1 = set_bit (hash1 id) f

  abbrev f2 : Filter
  f2 = set_bit (hash2 id) f1

  x1 : IsFilter f1
  x1 = IsFilter-set_bit (hash1 id) f (omega arith) x

  x2 : IsFilter f2
  x2 = IsFilter-set_bit (hash2 id) f1 (omega arith) x1

  kept : (k : ℕ) → test_bit k f ≡ true → test_bit k (add_id id f) ≡ true
  unfolding add_id
  kept k t = test_bit-kept (hash3 id) f2 (omega arith) x2 k (
      test_bit-kept (hash2 id) f1 (omega arith) x1 k
        (test_bit-kept (hash1 id) f (omega arith) x k t))

  Holds-kept : (k : ℕ) → Holds k f → Holds k (add_id id f)
  unfolding Holds
  Holds-kept k (a, b, c) = (kept (hash1 k) a, kept (hash2 k) b, kept (hash3 k) c)

  Holds-add_id : Holds id (add_id id f)
  unfolding Holds add_id
  Holds-add_id = (
    test_bit-kept (hash3 id) f2 (omega arith) x2 (hash1 id) (
        test_bit-kept (hash2 id) f1 (omega arith) x1 (hash1 id)
          (test_bit-set_bit (hash1 id) f (omega arith) x)),
    test_bit-kept (hash3 id) f2 (omega arith) x2 (hash2 id)
        (test_bit-set_bit (hash2 id) f1 (omega arith) x1),
    test_bit-set_bit (hash3 id) f2 (omega arith) x2,
  )

add_ids-kept :
    (ids : List ℕ) (f : Filter) (k : ℕ)
    → IsFilter f
    → Holds k f
    → IsFilter (add_ids ids f) × Holds k (add_ids ids f)
unfolding add_ids
add_ids-kept [] f k x t = (x, t)
add_ids-kept (id ∷ ids) f k x t =
    add_ids-kept ids (add_id id f) k (IsFilter-add_id id f x) (Holds-kept id f x k t)

add_ids-Holds :
    (ids : List ℕ) (f : Filter) (k : ℕ)
    → IsFilter f
    → member k ids ≡ true
    → IsFilter (add_ids ids f) × Holds k (add_ids ids f)
unfolding add_ids
add_ids-Holds [] f k x m = cc
add_ids-Holds (id ∷ ids) f k x m = elim (Bool-cases (id == k)) [
  | inl same ↦
      let e : id ≡ k = ground arith in
      add_ids-kept ids (add_id id f) k (IsFilter-add_id id f x)
        (subst (λ (j : ℕ). Holds j (add_id id f)) e (Holds-add_id id f x))
  | inr other ↦ add_ids-Holds ids (add_id id f) k (IsFilter-add_id id f x) (ground arith)
]

bloom_filter_test-Holds : (f : Filter) (id : ℕ) → Holds id f → bloom_filter_test f id ≡ true
unfolding Holds bloom_filter_test
bloom_filter_test-Holds [] id h = refl
bloom_filter_test-Holds (b ∷ bs) id (x, y, z) = rw (x, y, z) refl

empty-IsFilter : IsFilter (replicate 128 (replicate 8 false))
unfolding IsFilter
empty-IsFilter = (refl, all_clear 128)
  where
    all_clear : (n : ℕ) → All (λ b. length b ≡ 8) (replicate n (replicate 8 false))
    all_clear zero = tt
    all_clear (suc n) = (refl, all_clear n)

-- The filter that build_bloom_filter makes from a list of ids accepts every id of the list.
pub bloom_filter_test-build_bloom_filter :
    (ids : List ℕ) (id : ℕ)
    → member id ids ≡ true
    → bloom_filter_test (build_bloom_filter ids) id ≡ true
unfolding build_bloom_filter
bloom_filter_test-build_bloom_filter ids id m =
    bloom_filter_test-Holds (build_bloom_filter ids) id
      (add_ids-Holds ids (replicate 128 (replicate 8 false)) id empty-IsFilter m).1
