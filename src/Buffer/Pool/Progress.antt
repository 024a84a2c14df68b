-- ===== src/Buffer/Pool/Progress.antt =====
-- When a page is handed out for certain.
use agent_mem_io.Prelude.{
  ℕ, ◌≡◌, ◌≢◌, ◌⊎◌, Option, none, some, List, ◌∷◌, arith, lookup, inl, inr, Option-cases,
}
use agent_mem_io.Buffer.Pool.{
  Bytes, Pool, buffer_of, load_into_frame, claim_frame, find_free_frame, load_locked, get_page,
  get_or_load_page,
}
use agent_mem_io.Buffer.Pool.Valid.{IsValid}

module _ (now node page : ℕ) (fresh : Bytes) (load : Bytes → ℕ → Bytes) (s : Pool) where
  found_hit :
      (i : ℕ) (b : Bytes)
      → lookup page s.page_table ≡ some i
      → (s.frames i).bytes ≡ some b
      → (get_or_load_page now node page fresh load s).0 ≡ some b
  unfolding get_or_load_page get_page
  found_hit i b known at = ground (arith, known, at)

  found_free :
      (i : ℕ) (fs : List ℕ)
      → lookup page s.page_table ≡ none
      → s.free_frames ≡ i ∷ fs
      → (get_or_load_page now node page fresh load s).0
        ≡ some (load (buffer_of fresh (s.frames i)) page)
  unfolding get_or_load_page get_page load_locked load_into_frame claim_frame find_free_frame
  found_free i fs miss free = ground (arith, miss, free)

module _ (Ok : ℕ → Bytes → Type 0) (now node page : ℕ) (fresh : Bytes) (load : Bytes → ℕ → Bytes)
    (s : Pool) (v : IsValid Ok s) (ok : (b : Bytes) → Ok page (load b page)) where
  -- On a valid pool in which the page is cached or a frame is free, with a loader whose bytes are
  -- acceptable for the page, get_or_load_page hands out acceptable bytes.
  pub get_or_load_page-some :
      ((i : ℕ) × (lookup page s.page_table ≡ some i))
        ⊎ ((i : ℕ) × (fs : List ℕ) × (s.free_frames ≡ i ∷ fs))
      → (b : Bytes) × ((get_or_load_page now node page fresh load s).0 ≡ some b) × Ok page b
  get_or_load_page-some ready = elim (Option-cases (lookup page s.page_table)) [
    | inl miss ↦ elim ready [
      | inl (i, known) ↦ absurd (clash miss known)
      | inr (i, fs, free) ↦ (_, found_free now node page fresh load s i fs miss free, ok _)
    ]
    | inr (i, known) ↦
        let (b, at, good) = (v.entry page i known).loaded in
        (b, found_hit now node page fresh load s i b known at, good)
  ]
    where
      clash : {o : Option ℕ} {i : ℕ} → o ≡ none → o ≢ some i
      clash h g = cc
