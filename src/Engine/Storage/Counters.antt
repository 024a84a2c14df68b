-- ===== src/Engine/Storage/Counters.antt =====
-- The calls of the engine keep its bounds.
use agent_mem_io.Prelude.{
  ℕ, ◌≤◌, ◌≡◌, refl, Bool, true, false, not, ◌||◌, Option, none, some, List, [], ◌∷◌, ◌++◌, length,
  ltb, ◌==◌, is_some, if◌then◌else◌, arith, inl, inr, Bool-cases, length-append, length-drop,
}
use agent_mem_io.Lsm.Entry.{ErrorCode, success, invalid_argument, ok, Vector}
use agent_mem_io.Lsm.Worker.{Worker}
use agent_mem_io.Lsm.Writer.{Writer, Env}
use agent_mem_io.Lsm.Writer
use agent_mem_io.Lsm.Writer.Start
use agent_mem_io.Graph.Index.{Index}
use agent_mem_io.Engine.Storage.{
  Engine, init, load_dataset, build_index, inserted, insert_with_id, insert, delete_vector, trim,
  update_search_metrics, index_of, load, flush, compact,
}

-- No more than 10000 samples are kept, and an engine that is initialised has a write manager.
abbrev pub IsBounded : {Q : Type 0} → Engine Q → Type 0
IsBounded e =
    (length e.latency_samples ≤ 10000) × (e.initialized ≡ true → is_some e.write_manager ≡ true)

length-trim : (xs : List ℕ) → length xs ≤ 10001 → length (trim xs) ≤ 10000
length-trim xs h = elim (Bool-cases (ltb 10000 (length xs))) [
  | inl e ↦ rw e (omega (arith, length-drop 5000 xs, h))
  | inr e ↦ rw e (ground (arith, e))
]

module _ {Q : Type 0} where
  -- Of two outcomes that are bounded, so is the one that is taken.
  choose :
      (b : Bool) (s t : ErrorCode × Engine Q)
      → IsBounded s.1
      → IsBounded t.1
      → let u = if b then s else t in IsBounded u.1
  choose true s t x y = x
  choose false s t x y = y

  pub update-IsBounded :
      (t io : ℕ) (e : Engine Q) → IsBounded e → IsBounded (update_search_metrics t io e)
  unfolding update_search_metrics
  update-IsBounded t io e (few, there) = (by_flag e.enable_metrics, there)
    where
      by_flag :
          (b : Bool)
          → length (if b then trim (e.latency_samples ++ t ∷ []) else e.latency_samples) ≤ 10000
      by_flag true =
          length-trim (e.latency_samples ++ t ∷ [])
            (omega (arith, few, length-append e.latency_samples (t ∷ [])))
      by_flag false = few

  inserted-IsBounded :
      (t : ErrorCode × Writer) (e : Engine Q) → IsBounded e → IsBounded (inserted t e).1
  inserted-IsBounded (code, s) e (few, there) =
      choose (ok code) _ _ (few, λ h. refl) (few, λ h. refl)

  pub init-IsBounded :
      (d : Bool) (max_levels : ℕ) (b o : Bool) (s : Writer) (w : Worker) (e : Engine Q)
      → IsBounded e
      → IsBounded (init d max_levels b o s w e).1
  unfolding init
  init-IsBounded d max_levels b o s w e (few, there) =
      choose e.initialized _ _ (few, there)
        (choose (not d) _ _ (few, there)
          (choose (ok (Start.init max_levels b o s w).0) _ _ (few, λ h. refl) (few, λ h. refl)))

  pub load_dataset-IsBounded :
      (r : Option ℕ) (n : ℕ) (e : Engine Q) → IsBounded e → IsBounded (load_dataset r n e).1
  unfolding load_dataset
  load_dataset-IsBounded none n e x = choose (not e.initialized) _ _ x x
  load_dataset-IsBounded (some size) n e x =
      choose (not e.initialized) _ _ x (choose (size == 0) _ _ x x)

  pub build_index-IsBounded : (e : Engine Q) → IsBounded e → IsBounded (build_index e).1
  unfolding build_index
  build_index-IsBounded e x = choose (not e.initialized || (e.num_vectors == 0)) _ _ x x

  pub load-IsBounded :
      (r : Index → ErrorCode × Index) (o : Bool) (p : Index → Q) (e : Engine Q)
      → IsBounded e
      → IsBounded (load r o p e).1
  unfolding load
  load-IsBounded r o p e x = choose (not (ok (r (index_of e)).0)) _ _ x (choose o _ _ x x)

  -- With the write manager that is there, or none.
  by_manager :
      (f : Writer → ErrorCode × Engine Q) (t : ErrorCode × Engine Q) (e : Engine Q)
      → ((s : Writer) → IsBounded (f s).1)
      → IsBounded t.1
      → (o : Option Writer)
      → let u : ErrorCode × Engine Q = elim o [ none ↦ t | some s ↦ f s ] in IsBounded u.1
  by_manager f t e g x none = x
  by_manager f t e g x (some s) = g s

  pub insert_with_id-IsBounded :
      (env : Env) (id : ℕ) (v : Vector) (e : Engine Q)
      → IsBounded e
      → IsBounded (insert_with_id env id v e).1
  unfolding insert_with_id
  insert_with_id-IsBounded env id v e x = choose (not e.initialized) _ _ x (
      by_manager (λ s. inserted (Writer.insert_with_id env id v s) e) (invalid_argument, e) e
        (λ s. inserted-IsBounded (Writer.insert_with_id env id v s) e x) x e.write_manager)

  pub insert-IsBounded :
      (env : Env) (v : Vector) (e : Engine Q) → IsBounded e → IsBounded (insert env v e).1.1
  unfolding insert
  insert-IsBounded env v e x = by_flag e.initialized e.write_manager
    where
      by_flag :
          (b : Bool) (o : Option Writer)
          → let t : Option ℕ × (ErrorCode × Engine Q) =
              if not b then (none, (invalid_argument, e)) else elim o [
                | none ↦ (none, (invalid_argument, e))
                | some s ↦ let u = Writer.insert env v s in (some u.0, inserted u.1 e)
              ] in
            IsBounded t.1.1
      by_flag false o = x
      by_flag true none = x
      by_flag true (some s) = inserted-IsBounded (Writer.insert env v s).1 e x

  pub delete_vector-IsBounded :
      (env : Env) (id : ℕ) (e : Engine Q) → IsBounded e → IsBounded (delete_vector env id e).1
  unfolding delete_vector
  delete_vector-IsBounded env id e x = choose (not e.initialized) _ _ x (
      by_manager
        (λ s. (
          (Writer.delete_entry env id s).0,
          record e { write_manager = some (Writer.delete_entry env id s).1 },
        ))
        (invalid_argument, e) e (λ s. (x.0, λ h. refl)) x e.write_manager)

  pub flush-IsBounded : (env : Env) (e : Engine Q) → IsBounded e → IsBounded (flush env e).1
  unfolding flush
  flush-IsBounded env e x =
      by_manager
        (λ s. ((Writer.flush env s).0, record e { write_manager = some (Writer.flush env s).1 }))
        (success, e) e (λ s. (x.0, λ h. refl)) x e.write_manager

  pub compact-IsBounded : (env : Env) (e : Engine Q) → IsBounded e → IsBounded (compact env e).1
  unfolding compact
  compact-IsBounded env e x = choose (not e.initialized) _ _ x (
      by_manager
        (λ s. ((Writer.flush env s).0, record e { write_manager = some (Writer.flush env s).1 }))
        (invalid_argument, e) e (λ s. (x.0, λ h. refl)) x e.write_manager)
