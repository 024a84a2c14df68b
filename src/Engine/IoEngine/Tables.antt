-- ===== src/Engine/IoEngine/Tables.antt =====
-- The tables of registered files and buffers, next to those of the kernel.
use agent_mem_io.Prelude.{
  ℕ, zero, suc, ◌<◌, ◌≤◌, ◌≡◌, refl, ap, true, false, Option, none, some, List, [], ◌∷◌, ◌++◌,
  length, set, take, drop, map, leb, arith, false, ◌⊎◌, ◌∙◌, inl, inr, Bool-cases,
}
use agent_mem_io.Lsm.Entry.{success}
use agent_mem_io.Engine.IoEngine.{Ring, IoUring, register_file, iovs, reregister, unregister_buffer}

iovs-map : (xs : List (ℕ × ℕ)) → iovs (map some xs) ≡ xs
unfolding iovs
iovs-map [] = refl
iovs-map (x ∷ xs) = ap (◌∷◌ x) (iovs-map xs)

iovs-set :
    (xs : List (ℕ × ℕ)) (i : ℕ) → iovs (set (map some xs) i none) ≡ take i xs ++ drop (suc i) xs
unfolding iovs
iovs-set [] zero = refl
iovs-set [] (suc i) = refl
iovs-set (x ∷ xs) zero = iovs-map xs
iovs-set (x ∷ xs) (suc i) = ap (◌∷◌ x) (iovs-set xs i)

module _ {K : Type 0} (liburing : Ring K) where
  -- The file table of the kernel, as io_uring_register_files documents it: a registration that
  -- succeeds enters the table, one that fails changes nothing, and where there is a table already it
  -- fails with EBUSY.
  pub record IsFileTable : Type 1 where
    pub file_table : K → Option (List (Option ℕ))
    pub enters :
        (fs : List (Option ℕ)) (k : K)
        → (liburing.register_files fs k).0 ≡ true
        → file_table (liburing.register_files fs k).1 ≡ some fs
    pub keeps :
        (fs : List (Option ℕ)) (k : K)
        → (liburing.register_files fs k).0 ≡ false
        → file_table (liburing.register_files fs k).1 ≡ file_table k
    pub refuses :
        (fs : List (Option ℕ)) (k : K) (gs : List (Option ℕ))
        → file_table k ≡ some gs
        → (liburing.register_files fs k).0 ≡ false

  -- Calls of register_file one after the other.
  unfoldable pub register_all : List ℕ → IoUring K → IoUring K
  register_all [] u = u
  register_all (fd ∷ fds) u = register_all fds (register_file liburing fd u).1

  -- The engine has no file, like the kernel, or one, which is the kernel's table.
  abbrev pub HoldsOne : IsFileTable → IoUring K → Type 0
  HoldsOne laws u =
      ((u.registered_files ≡ []) × (laws.file_table u.ring ≡ none))
      ⊎ ((fd : ℕ) × (u.registered_files ≡ some fd ∷ [])
          × (laws.file_table u.ring ≡ some (some fd ∷ [])))

  module _ (laws : IsFileTable) where
    registered-HoldsOne :
        (fd : ℕ) (u : IoUring K) → HoldsOne laws u → HoldsOne laws (register_file liburing fd u).1
    unfolding register_file
    registered-HoldsOne fd u h = elim (Bool-cases u.initialized) [
      | inr off ↦ rw (off, register_file) h
      | inl on ↦ elim h [
        | inl (e, f) ↦
            elim (Bool-cases
              (liburing.register_files (u.registered_files ++ some fd ∷ []) u.ring).0) [
                | inl went ↦
                    let alone : u.registered_files ++ some fd ∷ [] ≡ some fd ∷ [] =
                      ap (λ fs. fs ++ some fd ∷ []) e in
                    rw (on, register_file, went)
                      (inr (fd, alone, laws.enters _ u.ring went ∙ ap some alone))
                | inr failed ↦
                    rw (on, register_file, failed) (inl (e, laws.keeps _ u.ring failed ∙ f))
              ]
        | inr (d, e, f) ↦
            let failed = laws.refuses (u.registered_files ++ some fd ∷ []) u.ring _ f in
            rw (on, register_file, failed) (inr (d, e, laws.keeps _ u.ring failed ∙ f))
      ]
    ]

    -- With a kernel that refuses a second table, enters one that it takes and else changes
    -- nothing: however many files an engine without files registers, by register_file one after
    -- the other, over a kernel without a table, it holds no file, like the kernel, or one, which
    -- is alone in the table of the kernel.
    pub register_all-HoldsOne :
        (fds : List ℕ) (u : IoUring K)
        → u.registered_files ≡ []
        → laws.file_table u.ring ≡ none
        → HoldsOne laws (register_all fds u)
    unfolding register_all
    register_all-HoldsOne fds u e f = all fds u (inl (e, f))
      where
        all : (gs : List ℕ) (t : IoUring K) → HoldsOne laws t → HoldsOne laws (register_all gs t)
        all [] t h = h
        all (g ∷ gs) t h = all gs (register_file liburing g t).1 (registered-HoldsOne g t h)

  -- The buffer table of the kernel, which takes a table when it has none.
  pub record IsBufferTable : Type 1 where
    pub buffer_table : K → Option (List (ℕ × ℕ))
    pub takes :
        (bs : List (ℕ × ℕ)) (k : K)
        → buffer_table k ≡ none
        → ((liburing.register_buffers bs k).0 ≡ true)
          × (buffer_table (liburing.register_buffers bs k).1 ≡ some bs)
    pub clears : (k : K) → buffer_table (liburing.unregister_buffers k) ≡ none

  -- An initialised engine whose buffers are all there, with a kernel that takes a table when it
  -- has none: unregister_buffer of one of several succeeds, its place stays empty in the engine's
  -- table, and the table of the kernel closes up, so that the buffers after it move down by one
  -- there.
  pub unregister_buffer-closes_up :
      (laws : IsBufferTable) (u : IoUring K) (xs : List (ℕ × ℕ)) (i : ℕ)
      → u.initialized ≡ true
      → u.registered_buffers ≡ map some xs
      → i < length xs
      → 2 ≤ length xs
      → let t = unregister_buffer liburing i u in
        (t.0 ≡ success)
        × (t.1.registered_buffers ≡ set (map some xs) i none)
        × (laws.buffer_table t.1.ring ≡ some (take i xs ++ drop (suc i) xs))
  unfolding unregister_buffer
  unregister_buffer-closes_up laws u xs i ready all inside several =
      let count : length (map some xs) ≡ length xs = length-map xs in
      let known : leb (length (map some xs)) i ≡ false = ground (arith, count, inside) in
      rw (ready, all, known, iovs-set xs i)
        (by_rest _ (take i xs ++ drop (suc i) xs) (rest_length xs i inside several))
    where
      length-map : (ys : List (ℕ × ℕ)) → length (map some ys) ≡ length ys
      length-map [] = refl
      length-map (y ∷ ys) = ap suc (length-map ys)

      rest_length :
          (ys : List (ℕ × ℕ)) (j : ℕ)
          → j < length ys
          → 2 ≤ length ys
          → 1 ≤ length (take j ys ++ drop (suc j) ys)
      rest_length [] j h g = absurd (elim h [ ])
      rest_length (y ∷ []) j h g = absurd (omega (arith, g))
      rest_length (y ∷ z ∷ ys) zero h g = omega arith
      rest_length (y ∷ z ∷ ys) (suc j) h g = omega arith

      by_rest :
          (v : IoUring K) (rest : List (ℕ × ℕ))
          → 1 ≤ length rest
          → let t = reregister liburing rest (set (map some xs) i none) v in
            (t.0 ≡ success)
            × (t.1.registered_buffers ≡ set (map some xs) i none)
            × (laws.buffer_table t.1.ring ≡ some rest)
      by_rest v [] h = absurd (omega (arith, h))
      by_rest v (b ∷ bs) h =
          let (e, t) =
            laws.takes (b ∷ bs) (liburing.unregister_buffers v.ring) (laws.clears v.ring) in
          rw e (refl, refl, t)
