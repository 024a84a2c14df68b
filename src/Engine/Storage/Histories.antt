-- ===== src/Engine/Storage/Histories.antt =====
-- What holds of the engine after any calls, and what a batch of queries gives.
use agent_mem_io.Prelude.{
  ℕ, suc, ◌+◌, ◌%◌, ◌^◌, ◌≡◌, refl, ap, Bool, true, false, not, Option, none, some, List, [], ◌∷◌,
  length, if◌then◌else◌, arith, inl, inr, Bool-cases,
}
use agent_mem_io.Lsm.Entry.{ErrorCode, Vector}
use agent_mem_io.Lsm.Worker.{Worker}
use agent_mem_io.Lsm.Writer.{Writer, Env}
use agent_mem_io.Graph.Index.{Index}
use agent_mem_io.Engine.Query.{Answer, found, invalid_argument as refused, failed}
use agent_mem_io.Engine.Storage.{
  Engine, add64, new, init, shutdown, load_dataset, build_index, insert_with_id, insert,
  delete_vector, update_search_metrics, answered, search_with_details, throws, search, with_first,
  batch_search, reset_metrics, load, flush, compact,
}
use agent_mem_io.Engine.Storage.Counters.{
  IsBounded, update-IsBounded, init-IsBounded, load_dataset-IsBounded, build_index-IsBounded,
  load-IsBounded, insert_with_id-IsBounded, insert-IsBounded, delete_vector-IsBounded,
  flush-IsBounded, compact-IsBounded,
}

-- A call of the engine, with what it meets.
pub data Call (Q : Type 0) : Type 0 where
  inits : Bool → ℕ → Bool → Bool → Writer → Worker → Call Q
  shuts_down : Call Q
  loads_dataset : Option ℕ → ℕ → Call Q
  builds_index : Call Q
  inserts : Env → Vector → Call Q
  inserts_with_id : Env → ℕ → Vector → Call Q
  deletes : Env → ℕ → Call Q
  searches : ℕ → Vector → ℕ → Call Q
  batch_searches : ℕ → List Vector → ℕ → Call Q
  resets : Call Q
  loads : (Index → ErrorCode × Index) → Bool → (Index → Q) → Call Q
  flushes : Env → Call Q
  compacts : Env → Call Q

module _ {Q D : Type 0} (ask : Vector → ℕ → Q → Answer Q D) where
  unfoldable pub apply : Call Q → Engine Q → Engine Q
  apply (inits d max_levels b o s w) e = (init d max_levels b o s w e).1
  apply shuts_down e = shutdown e
  apply (loads_dataset r n) e = (load_dataset r n e).1
  apply builds_index e = (build_index e).1
  apply (inserts env v) e = (insert env v e).1.1
  apply (inserts_with_id env id v) e = (insert_with_id env id v e).1
  apply (deletes env id) e = (delete_vector env id e).1
  apply (searches t v k) e = (search ask t v k e).1
  apply (batch_searches t vs k) e = (batch_search ask t vs k e).1.1
  apply resets e = reset_metrics e
  apply (loads r o p) e = (load r o p e).1
  apply (flushes env) e = (flush env e).1
  apply (compacts env) e = (compact env e).1

  unfoldable pub history : List (Call Q) → Engine Q → Engine Q
  history [] e = e
  history (c ∷ cs) e = history cs (apply c e)

module _ {Q D : Type 0} (ask : Vector → ℕ → Q → Answer Q D) where
  answered-IsBounded :
      (a : Answer Q D) (e : Engine Q) → IsBounded e → IsBounded (answered ask a e).1
  answered-IsBounded (found rs q) e x = x
  answered-IsBounded refused e x = x
  answered-IsBounded failed e x = x

  details-IsBounded :
      (v : Vector) (k : ℕ) (e : Engine Q)
      → IsBounded e
      → IsBounded (search_with_details ask v k e).1
  unfolding search_with_details
  details-IsBounded v k e x = by_flag e.initialized e.query_processor
    where
      by_flag :
          (b : Bool) (o : Option Q)
          → let t : Option (List (ℕ × D)) × Engine Q =
              if not b
              then (none, e)
              else elim o [ none ↦ (none, e) | some q ↦ answered ask (ask v k q) e ] in
            IsBounded t.1
      by_flag false o = x
      by_flag true none = x
      by_flag true (some q) = answered-IsBounded (ask v k q) e x

  search-IsBounded :
      (t : ℕ) (v : Vector) (k : ℕ) (e : Engine Q) → IsBounded e → IsBounded (search ask t v k e).1
  unfolding search
  search-IsBounded t v k e x = elim (Bool-cases (throws ask v k e)) [
    | inl e' ↦ rw (e', search) (details-IsBounded v k e x)
    | inr e' ↦ rw (e', search) (update-IsBounded t 0 _ (details-IsBounded v k e x))
  ]

  with_first-IsBounded :
      (o : Option (List (ℕ × D))) (rest : Bool × (List (List (ℕ × D)) × Engine Q)) (e : Engine Q)
      → IsBounded e
      → IsBounded rest.1.1
      → IsBounded (with_first ask o rest e).1.1
  with_first-IsBounded none rest e x y = x
  with_first-IsBounded (some rs) (b, r) e x y = y

  batch_search-IsBounded :
      (t : ℕ) (vs : List Vector) (k : ℕ) (e : Engine Q)
      → IsBounded e
      → IsBounded (batch_search ask t vs k e).1.1
  unfolding batch_search
  batch_search-IsBounded t [] k e x = x
  batch_search-IsBounded t (v ∷ vs) k e x =
      let y = search-IsBounded t v k e x in
      with_first-IsBounded (search ask t v k e).0 _ (search ask t v k e).1 y
        (batch_search-IsBounded t vs k (search ask t v k e).1 y)

  module _ (Ok : Q → Type 0)
      (answers : (v : Vector) (k : ℕ) (q : Q)
        → Ok q
        → (rs : List (ℕ × D)) × (q' : Q) × (ask v k q ≡ found rs q') × Ok q') where
    -- The engine answers: it is initialised and has a query processor in a good state.
    abbrev pub IsServing : Engine Q → Type 0
    IsServing e = (e.initialized ≡ true) × (q : Q) × (e.query_processor ≡ some q) × Ok q

    search-some :
        (t : ℕ) (v : Vector) (k : ℕ) (e : Engine Q)
        → IsServing e
        → (rs : List (ℕ × D)) × ((search ask t v k e).0 ≡ some rs)
          × IsServing (search ask t v k e).1
          × ((search ask t v k e).1.metrics.total_queries ≡ add64 e.metrics.total_queries 1)
    unfolding search search_with_details throws update_search_metrics
    search-some t v k e (ready, q, there, good) =
        let (rs, q', at, good') = answers v k q good in
        rw (ready, there, at) (rs, refl, (ready, q', refl, good'), refl)

    -- On an engine that is initialised, with a query processor that answers from every good state
    -- and is left in one: batch_search succeeds with a list of results for each query, counts each
    -- query once, up to the wrap-around of the counter, and leaves such an engine.
    pub batch_search-all :
        (t : ℕ) (vs : List Vector) (k : ℕ) (e : Engine Q)
        → IsServing e
        → let b = batch_search ask t vs k e in
          (b.0 ≡ true)
          × (length b.1.0 ≡ length vs)
          × IsServing b.1.1
          × (b.1.1.metrics.total_queries % 2 ^ 64 ≡ (e.metrics.total_queries + length vs) % 2 ^ 64)
    unfolding batch_search
    batch_search-all t [] k e x = (refl, refl, x, ap (λ n. n % 2 ^ 64) (omega arith))
    batch_search-all t (v ∷ vs) k e x =
        let (rs, found_it, y, counted) = search-some t v k e x in
        let e' = (search ask t v k e).1 in
        let (fine, l, z, total) = batch_search-all t vs k e' y in
        rw found_it (fine, ap suc l, z, omega (arith, total, counted))

module _ {Q D : Type 0} (ask : Vector → ℕ → Q → Answer Q D) where
  apply-IsBounded : (c : Call Q) (e : Engine Q) → IsBounded e → IsBounded (apply ask c e)
  unfolding apply shutdown reset_metrics
  apply-IsBounded (inits d max_levels b o s w) e x = init-IsBounded d max_levels b o s w e x
  apply-IsBounded shuts_down e x = (x.0, λ h. absurd (cc))
  apply-IsBounded (loads_dataset r n) e x = load_dataset-IsBounded r n e x
  apply-IsBounded builds_index e x = build_index-IsBounded e x
  apply-IsBounded (inserts env v) e x = insert-IsBounded env v e x
  apply-IsBounded (inserts_with_id env id v) e x = insert_with_id-IsBounded env id v e x
  apply-IsBounded (deletes env id) e x = delete_vector-IsBounded env id e x
  apply-IsBounded (searches t v k) e x = search-IsBounded ask t v k e x
  apply-IsBounded (batch_searches t vs k) e x = batch_search-IsBounded ask t vs k e x
  apply-IsBounded resets e x = x
  apply-IsBounded (loads r o p) e x = load-IsBounded r o p e x
  apply-IsBounded (flushes env) e x = flush-IsBounded env e x
  apply-IsBounded (compacts env) e x = compact-IsBounded env e x

  history-from : (cs : List (Call Q)) (e : Engine Q) → IsBounded e → IsBounded (history ask cs e)
  unfolding history
  history-from [] e x = x
  history-from (c ∷ cs) e x = history-from cs (apply ask c e) (apply-IsBounded c e x)

  -- After any sequence of calls on a new engine, no more than 10000 latency samples are kept, and
  -- if the engine is initialised it has a write manager.
  pub history-IsBounded :
      (cs : List (Call Q)) (enabled : Bool) → IsBounded (history ask cs (new enabled))
  unfolding new
  history-IsBounded cs enabled = history-from cs (new enabled) (omega arith, λ h. absurd (cc))
