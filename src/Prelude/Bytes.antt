-- ===== src/Prelude/Bytes.antt =====
-- Words as little-endian bytes, as `memcpy` and the file streams of a little-endian machine move
-- them, and reads that fail on a short input.
use Prim.Native.Nat.{ℕ, zero, suc, ◌+◌, ◌*◌, ◌/◌, ◌%◌, ◌^◌, ◌<◌}
use mathlib.Core.Path.{◌≡◌, refl, subst}
use mathlib.Core.List.{List, [], ◌∷◌, ◌++◌}
use mathlib.Core.Option.{Option, none, some}
use native.Mathlib.Nat.{pow-suc}
use native.Mathlib.Omega.{arith}
use agent_mem_io.Prelude.Lists.{length}

abbrev pub Bytes : Type 0
Bytes = List ℕ

-- The `n` low bytes of a number, the lowest first.
unfoldable pub to_le : ℕ → ℕ → Bytes
to_le zero x = []
to_le (suc n) x = (x % 256) ∷ to_le n (x / 256)

unfoldable pub from_le : Bytes → ℕ
from_le [] = 0
from_le (b ∷ bs) = b + 256 * from_le bs

pub length-to_le : (n x : ℕ) → length (to_le n x) ≡ n
unfolding to_le
length-to_le zero x = refl
length-to_le (suc n) x = omega (arith, length-to_le n (x / 256))

pub from_le-to_le : (n x : ℕ) → x < 256 ^ n → from_le (to_le n x) ≡ x
unfolding to_le from_le
from_le-to_le zero x h = omega arith
from_le-to_le (suc n) x h = omega (arith, from_le-to_le n (x / 256) (omega (arith, pow-suc 256 n)))

-- Takes `n` bytes off the input.
unfoldable pub read_bytes : ℕ → Bytes → Option (Bytes × Bytes)
read_bytes zero bs = some ([], bs)
read_bytes (suc n) [] = none
read_bytes (suc n) (b ∷ bs) = elim (read_bytes n bs) [
  | none ↦ none
  | some (xs, rest) ↦ some (b ∷ xs, rest)
]

unfoldable pub read_le : ℕ → Bytes → Option (ℕ × Bytes)
read_le n bs = elim (read_bytes n bs) [ none ↦ none | some (xs, rest) ↦ some (from_le xs, rest) ]

pub read_bytes-append : (xs rest : Bytes) → read_bytes (length xs) (xs ++ rest) ≡ some (xs, rest)
unfolding read_bytes
read_bytes-append [] rest = refl
read_bytes-append (x ∷ xs) rest = ground (arith, read_bytes-append xs rest)

pub read_le-to_le :
    (n x : ℕ) (rest : Bytes) → x < 256 ^ n → read_le n (to_le n x ++ rest) ≡ some (x, rest)
unfolding read_le
read_le-to_le n x rest h =
    let e : read_bytes n (to_le n x ++ rest) ≡ some (to_le n x, rest) =
      subst (λ (k : ℕ). read_bytes k (to_le n x ++ rest) ≡ some (to_le n x, rest))
        (length-to_le n x) (read_bytes-append (to_le n x) rest) in
    rw (e, read_le) (rw (from_le-to_le n x h))
