-- ===== src/Engine/IoEngine/Facade.antt =====
-- `IoEngine` of src/io/io_uring_engine.cpp: the ring where it could be set up, or reads and writes
-- that are done at once.
--
-- `queue_init` is liburing's set-up of the ring, and `transfers` tells whether the system's `pread`
-- or `pwrite` of a request succeeds.
use agent_mem_io.Prelude.{ℕ, suc, Bool, true, false, Option, none, List, [], ◌∷◌, if◌then◌else◌}
use agent_mem_io.Lsm.Entry.{ErrorCode, success, io_error, invalid_argument}
use agent_mem_io.Engine.IoEngine
use agent_mem_io.Engine.IoEngine.{IoRequest, IoCompletion, no_completion, Ring, IoUring}

pub record Facade (K : Type 0) : Type 0 where
  pub use_io_uring : Bool
  pub initialized : Bool
  pub io_uring_engine : IoUring K

module _ {K : Type 0} where
  unfoldable pub init : (K → Bool × K) → Facade K → ErrorCode × Facade K
  init queue_init f =
      let t = queue_init f.io_uring_engine.ring in
      let u : IoUring K = f.io_uring_engine in
      if f.use_io_uring
      then (if t.0
          then (
            success,
            record f {
              initialized = true;
              io_uring_engine = record u { ring = t.1; initialized = true };
            },
          )
          else (
            success,
            record f {
              initialized = true;
              use_io_uring = false;
              io_uring_engine = record u { ring = t.1 };
            },
          ))
      else (success, record f { initialized = true })

  unfoldable pub shutdown : Facade K → Facade K
  shutdown f =
      let u : IoUring K = f.io_uring_engine in
      record f { initialized = false; io_uring_engine = record u { initialized = false } }

module _ (transfers : IoRequest → Bool) where
  -- The loop of the synchronous fallback.
  unfoldable pub count_transfers : List IoRequest → ℕ
  count_transfers [] = 0
  count_transfers (r ∷ rs) = let rest = count_transfers rs in if transfers r then suc rest else rest

module _ {K : Type 0} (liburing : Ring K) where
  module _ (transfers : IoRequest → Bool) where
    -- `submit_read` and `submit_write` make such a request of their arguments.
    unfoldable pub submit_request : IoRequest → Facade K → ErrorCode × Facade K
    submit_request r f =
        let t = IoEngine.submit liburing r f.io_uring_engine in
        if f.use_io_uring
        then (t.0, record f { io_uring_engine = t.1 })
        else (if transfers r then success else io_error, f)

    unfoldable pub submit_batch_read : List IoRequest → Facade K → ℕ × Facade K
    submit_batch_read rs f =
        let t = IoEngine.submit_batch liburing rs f.io_uring_engine in
        if f.use_io_uring
        then (t.0, record f { io_uring_engine = t.1 })
        else (count_transfers transfers rs, f)

  unfoldable pub wait_completion_batch : ℕ → Facade K → List IoCompletion × Facade K
  wait_completion_batch n f =
      let t = IoEngine.wait_completion_batch liburing n f.io_uring_engine in
      if f.use_io_uring then (t.0, record f { io_uring_engine = t.1 }) else ([], f)

  unfoldable pub register_file : ℕ → Facade K → Option ℕ × Facade K
  register_file fd f =
      let t = IoEngine.register_file liburing fd f.io_uring_engine in
      if f.use_io_uring then (t.0, record f { io_uring_engine = t.1 }) else (none, f)

  unfoldable pub register_buffer : ℕ → ℕ → Facade K → Option ℕ × Facade K
  register_buffer buffer size f =
      let t = IoEngine.register_buffer liburing buffer size f.io_uring_engine in
      if f.use_io_uring then (t.0, record f { io_uring_engine = t.1 }) else (none, f)

  unfoldable pub unregister_buffer : ℕ → Facade K → ErrorCode × Facade K
  unregister_buffer index f =
      let t = IoEngine.unregister_buffer liburing index f.io_uring_engine in
      if f.use_io_uring then (t.0, record f { io_uring_engine = t.1 }) else (invalid_argument, f)
