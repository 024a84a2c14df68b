-- ===== src/Graph/Visited/Marks.antt =====
-- A bitmap is the set of the nodes that were marked.
use agent_mem_io.Prelude.{
  ℕ, zero, suc, ◌+◌, ◌*◌, ◌/◌, ◌%◌, ◌^◌, ◌<◌, ◌≤◌, ◌≡◌, ◌≢◌, refl, sym, ◌∙◌, subst, Bool, true,
  false, ◌||◌, Option, none, some, List, [], ◌∷◌, length, get_elem?, set, replicate, All, leb, ◌==◌,
  if◌then◌else◌, arith, inl, inr, Bool-cases, get_elem?-set_self, get_elem?-set_ne, length-set,
  length-replicate,
}
use agent_mem_io.Lsm.Bloom.{Filter, set_bit, test_bit}
use agent_mem_io.Graph.Visited.{Bitmap, new, test, mark, clear}

-- The bytes have eight bits, and there is a bit for each node.
pub record IsBitmap (b : Bitmap) : Type 0 where
  pub bytes : All (λ c. length c ≡ 8) b.bitmap
  pub room : b.size ≤ 8 * length b.bitmap

byte_at :
    (f : Filter) (i : ℕ)
    → All (λ c. length c ≡ 8) f
    → i < length f
    → (c : List Bool) × (get_elem? f i ≡ some c) × (length c ≡ 8)
byte_at [] i a l = absurd (elim l [ ])
byte_at (c ∷ cs) zero a l = (c, refl, a.0)
byte_at (c ∷ cs) (suc i) a l = byte_at cs i a.1 (omega arith)

set-All :
    (f : Filter) (i : ℕ) (c : List Bool)
    → All (λ d. length d ≡ 8) f
    → length c ≡ 8
    → All (λ d. length d ≡ 8) (set f i c)
set-All [] i c a l = tt
set-All (d ∷ ds) zero c a l = (l, a.1)
set-All (d ∷ ds) (suc i) c a l = (a.0, set-All ds i c a.1 l)

-- The bit of a byte, none outside.
abbrev bit : Option Bool → Bool
bit none = false
bit (some x) = x

module _ (f : Filter) (h : ℕ) (a : All (λ c. length c ≡ 8) f) (inside : h / 8 < length f) where
  abbrev byte : List Bool
  byte = (byte_at f (h / 8) a inside).0

  abbrev marked : List Bool
  marked = set byte (h % 8) true

  set_bit_lem : set_bit h f ≡ set f (h / 8) marked
  unfolding set_bit
  set_bit_lem = rw ((byte_at f (h / 8) a inside).1, set_bit) refl

  test_bit_at :
      (g : Filter) (k : ℕ) (c : List Bool)
      → get_elem? g (k / 8) ≡ some c
      → test_bit k g ≡ bit (get_elem? c (k % 8))
  unfolding test_bit
  test_bit_at g k c e = rw (test_bit, e) (by_bit (get_elem? c (k % 8)))
    where
      by_bit : (o : Option Bool) → elim o [ none ↦ false | some x ↦ x ] ≡ bit o
      by_bit none = refl
      by_bit (some x) = refl

  stored_byte : get_elem? (set_bit h f) (h / 8) ≡ some marked
  stored_byte = rw set_bit_lem (get_elem?-set_self f (h / 8) marked inside)

  same_byte : (k : ℕ) → k / 8 ≡ h / 8 → test_bit k (set_bit h f) ≡ ((h == k) || test_bit k f)
  same_byte k e =
      let (c, at, l) = byte_at f (h / 8) a inside in
      let old : test_bit k f ≡ bit (get_elem? byte (k % 8)) =
        test_bit_at f k byte (subst (λ i. get_elem? f i ≡ some byte) (sym e) at) in
      let new_bit : test_bit k (set_bit h f) ≡ bit (get_elem? marked (k % 8)) =
        test_bit_at (set_bit h f) k marked
          (subst (λ i. get_elem? (set_bit h f) i ≡ some marked) (sym e) stored_byte) in
      elim (Bool-cases ((h % 8) == (k % 8))) [
        | inl hit ↦
            let r : h % 8 ≡ k % 8 = ground (arith, hit) in
            let same : h ≡ k = omega (arith, r, e) in
            let test : (h == k) ≡ true = ground (arith, same) in
            let at' : get_elem? marked (k % 8) ≡ some true =
              subst (λ i. get_elem? marked i ≡ some true) r
                (get_elem?-set_self byte (h % 8) true (omega (arith, l))) in
            rw (new_bit, test, at') refl
        | inr miss ↦
            let r : h % 8 ≢ k % 8 = ground (arith, miss) in
            let test : (h == k) ≡ false = ground (arith, miss) in
            rw (new_bit, old, test, get_elem?-set_ne byte true r) refl
      ]

  other_byte : (k : ℕ) → k / 8 ≢ h / 8 → test_bit k (set_bit h f) ≡ ((h == k) || test_bit k f)
  unfolding test_bit
  other_byte k e =
      let r : h / 8 ≢ k / 8 = λ q. e (sym q) in
      let test : (h == k) ≡ false = ground (arith, e) in
      rw (test, set_bit_lem, test_bit, get_elem?-set_ne f marked r) refl

  set_bit-bytes : All (λ c. length c ≡ 8) (set_bit h f) × (length (set_bit h f) ≡ length f)
  set_bit-bytes = rw set_bit_lem (
    set-All f (h / 8) marked a (length-set byte (h % 8) true ∙ (byte_at f (h / 8) a inside).2),
    length-set f (h / 8) marked,
  )

-- What is out of range stays visited.
guarded :
    (out t x y : Bool) → y ≡ (t || x) → (if out then true else y) ≡ (t || (if out then true else x))
guarded true true x y e = refl
guarded true false x y e = refl
guarded false t x y e = e

out_of_range :
    (id k size : ℕ) (x : Bool)
    → leb size id ≡ true
    → (if leb size k then true else x) ≡ ((id == k) || (if leb size k then true else x))
out_of_range id k size x out = ground (arith, out)

-- On a bitmap with a bit for each node, marking a node makes the test answer that this node, the
-- nodes that were marked before, and every node out of range are visited, and leaves such a
-- bitmap.
pub test-mark :
    (id k : ℕ) (b : Bitmap)
    → IsBitmap b
    → (test k (mark id b) ≡ ((id == k) || test k b)) × IsBitmap (mark id b)
unfolding test mark
test-mark id k b x = elim (Bool-cases (leb b.size id)) [
  | inl out ↦ rw (out, mark) (out_of_range id k b.size (test_bit k b.bitmap) out, x)
  | inr inside ↦
      let below : id / 8 < length b.bitmap = ground (arith, inside, x.room) in
      let (c, at, l) = byte_at b.bitmap (id / 8) x.bytes below in
      let law : test_bit k (set_bit id b.bitmap) ≡ ((id == k) || test_bit k b.bitmap) =
        elim (Bool-cases ((k / 8) == (id / 8))) [
          | inl e ↦ same_byte b.bitmap id x.bytes below k (ground (arith, e))
          | inr e ↦ other_byte b.bitmap id x.bytes below k (ground (arith, e))
        ] in
      let shape = set_bit-bytes b.bitmap id x.bytes below in
      rw (inside, mark)
        (
          guarded (leb b.size k) (id == k) (test_bit k b.bitmap) (test_bit k (set_bit id b.bitmap))
              law,
          record { bytes = shape.0; room = subst (λ n. b.size ≤ 8 * n) (sym shape.1) x.room },
        )
]

replicate-bytes : (n : ℕ) → All (λ c. length c ≡ 8) (replicate n (replicate 8 false))
replicate-bytes zero = tt
replicate-bytes (suc n) = (refl, replicate-bytes n)

test_bit-zeros : (n k : ℕ) → test_bit k (replicate n (replicate 8 false)) ≡ false
unfolding test_bit
test_bit-zeros n k = by_byte n (k / 8)
  where
    no_bit :
        (m : ℕ) (i : ℕ)
        → elim (get_elem? (replicate m false) i) [ none ↦ false | some x ↦ x ] ≡ false
    no_bit zero i = refl
    no_bit (suc m) zero = refl
    no_bit (suc m) (suc i) = no_bit m i

    by_byte :
        (m i : ℕ)
        → elim (get_elem? (replicate m (replicate 8 false)) i) [
          | none ↦ false
          | some c ↦ elim (get_elem? c (k % 8)) [ none ↦ false | some x ↦ x ]
        ]
          ≡ false
    by_byte zero i = refl
    by_byte (suc m) zero = no_bit 8 (k % 8)
    by_byte (suc m) (suc i) = by_byte m i

-- A new bitmap, for a size that does not overflow when it is rounded up, has a bit for each node,
-- and no node in range is visited; clear brings every bitmap with a bit for each node to this state.
pub new-IsBitmap :
    (n k : ℕ)
    → n + 7 < 2 ^ 64
    → IsBitmap (new n)
      × (test k (new n) ≡ leb n k)
      × ((b : Bitmap) → IsBitmap b → IsBitmap (clear b) × (test k (clear b) ≡ leb b.size k))
unfolding new test clear
new-IsBitmap n k h =
    let bytes = (n + 7) % 2 ^ 64 / 8 in
    (
      record {
        bytes = replicate-bytes bytes;
        room = omega (arith, length-replicate {A = List Bool} bytes (replicate 8 false), h);
      },
      guard_false (leb n k) _ (test_bit-zeros bytes k),
      λ b x. (
        record {
          bytes = replicate-bytes (length b.bitmap);
          room = omega (
            arith,
            length-replicate {A = List Bool} (length b.bitmap) (replicate 8 false),
            x.room,
          );
        },
        guard_false (leb b.size k) _ (test_bit-zeros (length b.bitmap) k),
      ),
    )
  where
    guard_false : (t y : Bool) → y ≡ false → (if t then true else y) ≡ t
    guard_false true y e = refl
    guard_false false y e = e
