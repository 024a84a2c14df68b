-- ===== src/Prelude/Maps.antt =====
-- A `std::unordered_map` from numbers, as an association list in which the first pair of a key
-- counts.
use Prim.Native.Nat.{ℕ, suc, ◌+◌}
use mathlib.Core.Path.{◌≡◌, refl, ap}
use mathlib.Core.Bool.{Bool, true, false}
use mathlib.Core.List.{List, [], ◌∷◌, ◌++◌, map}
use mathlib.Core.Option.{Option, none, some}
use native.Mathlib.Omega.{arith}
use agent_mem_io.Prelude.Tests.{◌==◌, if◌then◌else◌}
use agent_mem_io.Prelude.Lists.{
  length, member, remove, Distinct, remove-Distinct, append-Distinct, length-remove-member,
}

abbrev pub Map {ℓ} : Type ℓ → Type ℓ
Map V = List (ℕ × V)

abbrev pub is_some {ℓ} : {A : Type ℓ} → Option A → Bool
is_some none = false
is_some (some a) = true

module _ {ℓ} {V : Type ℓ} where
  abbrev pub keys : Map V → List ℕ
  keys = map (λ e. e.0)

  abbrev pub lookup : ℕ → Map V → Option V
  lookup k [] = none
  lookup k ((j, v) ∷ m) = if j == k then some v else lookup k m

  -- `m[k] = v`
  abbrev pub insert : ℕ → V → Map V → Map V
  insert k v [] = (k, v) ∷ []
  insert k v ((j, w) ∷ m) = if j == k then (k, v) ∷ m else (j, w) ∷ insert k v m

  -- `m.erase(k)`
  abbrev pub erase : ℕ → Map V → Map V
  erase k [] = []
  erase k ((j, w) ∷ m) = if j == k then erase k m else (j, w) ∷ erase k m

  pub lookup-insert :
      (k j : ℕ) (v : V) (m : Map V)
      → lookup j (insert k v m) ≡ (if k == j then some v else lookup j m)
  lookup-insert k j v [] = refl
  lookup-insert k j v ((i, w) ∷ m) = ground (arith, lookup-insert k j v m)

  pub lookup-erase :
      (k j : ℕ) (m : Map V) → lookup j (erase k m) ≡ (if k == j then none else lookup j m)
  lookup-erase k j [] = ground arith
  lookup-erase k j ((i, w) ∷ m) = ground (arith, lookup-erase k j m)

  pub length-insert_new :
      (k : ℕ) (v : V) (m : Map V) → lookup k m ≡ none → length (insert k v m) ≡ suc (length m)
  length-insert_new k v [] h = refl
  length-insert_new k v ((i, w) ∷ m) h = ground (arith, length-insert_new k v m)

  pub length-insert_old :
      (k : ℕ) (v w : V) (m : Map V) → lookup k m ≡ some w → length (insert k v m) ≡ length m
  length-insert_old k v w [] h = cc
  length-insert_old k v w ((i, x) ∷ m) h = ground (arith, length-insert_old k v w m)

  pub member-keys : (k : ℕ) (m : Map V) → member k (keys m) ≡ is_some (lookup k m)
  member-keys k [] = refl
  member-keys k ((i, x) ∷ m) = ground (arith, member-keys k m)

  length-keys : (m : Map V) → length (keys m) ≡ length m
  length-keys [] = refl
  length-keys ((i, x) ∷ m) = ap suc (length-keys m)

  keys-erase : (k : ℕ) (m : Map V) → keys (erase k m) ≡ remove k (keys m)
  keys-erase k [] = refl
  keys-erase k ((i, x) ∷ m) = ground (arith, keys-erase k m)

  keys-insert_new :
      (k : ℕ) (v : V) (m : Map V) → lookup k m ≡ none → keys (insert k v m) ≡ keys m ++ k ∷ []
  keys-insert_new k v [] h = refl
  keys-insert_new k v ((i, x) ∷ m) h = ground (arith, keys-insert_new k v m)

  pub keys-erase-Distinct : (k : ℕ) (m : Map V) → Distinct (keys m) → Distinct (keys (erase k m))
  keys-erase-Distinct k m d = rw (keys-erase k m) (remove-Distinct k (keys m) d)

  pub keys-insert-Distinct :
      (k : ℕ) (v : V) (m : Map V)
      → lookup k m ≡ none
      → Distinct (keys m)
      → Distinct (keys (insert k v m))
  keys-insert-Distinct k v m h d =
      rw (keys-insert_new k v m h) (append-Distinct k (keys m) d (rw (member-keys k m, h) refl))

  pub length-erase :
      (k : ℕ) (v : V) (m : Map V)
      → Distinct (keys m)
      → lookup k m ≡ some v
      → length (erase k m) + 1 ≡ length m
  length-erase k v m d h =
      rw (← length-keys (erase k m), ← length-keys m, keys-erase k m)
        (length-remove-member k (keys m) d (rw (member-keys k m, h) refl))
