-- ===== src/Engine/IoEngine.antt =====
-- `IoUringEngine` and `IoEngine` of src/io/io_uring_engine.cpp, and the requests and completions of
-- its header.
--
-- The ring is liburing's: `Ring` has the calls that the code makes on it. A result that liburing
-- gives as a negative number is `false`, or an `error` of a completion. A buffer is modelled by
-- whether it is there and by its bytes.
pub mod Batches
pub mod Tables
pub mod Facade
use agent_mem_io.Prelude.{
  ℕ, zero, suc, ◌+◌, ◌-◌, ◌%◌, ◌^◌, ◌*◌, Bool, true, false, ◌&&◌, ◌||◌, not, Option, none, some,
  List, [], ◌∷◌, ◌++◌, length, set, take, leb, ltb, ◌==◌, if◌then◌else◌,
}
use agent_mem_io.Prelude.Bytes.{Bytes}
use agent_mem_io.Lsm.Entry.{ErrorCode, success, io_error, invalid_argument}
use agent_mem_io.Buffer.Pool.{invalid_node_id, bump64}

pub record IoRequest : Type 0 where
  pub fd : ℕ
  pub offset : ℕ
  pub size : ℕ
  pub node_id : ℕ
  pub is_read : Bool

pub record IoCompletion : Type 0 where
  pub node_id : ℕ
  pub buffer : Option Bytes
  pub size : ℕ
  pub failed : Bool

-- `IoCompletion()`
abbrev pub no_completion : IoCompletion
no_completion = record { node_id = invalid_node_id; buffer = none; size = 0; failed = false }

-- An entry of the completion queue: its user data, and its result, an error or a number.
pub record Cqe : Type 0 where
  pub user_data : ℕ
  pub error : Bool
  pub res : ℕ

pub record Ring (K : Type 0) : Type 0 where
  pub get_sqe : K → Bool × K
  pub prep : IoRequest → K → K
  pub submit : K → Bool × K
  pub wait_cqe : K → Option Cqe × K
  pub register_files : List (Option ℕ) → K → Bool × K
  pub register_buffers : List (ℕ × ℕ) → K → Bool × K
  pub unregister_buffers : K → K

-- A file that was unregistered is -1, and a buffer that was is the null pointer: `none`.
pub record IoUring (K : Type 0) : Type 0 where
  pub ring : K
  pub initialized : Bool
  pub total_submitted : ℕ
  pub total_completed : ℕ
  pub total_errors : ℕ
  pub registered_files : List (Option ℕ)
  pub registered_buffers : List (Option (ℕ × ℕ))

-- What looking for an entry gives: an entry, none, or a return from the function.
pub data Acquired (K : Type 0) : Type 0 where
  got : K → Acquired K
  skipped : K → Acquired K
  stopped : K → Acquired K

-- The first phase of a batch: it goes on with the count, or returns it early.
pub data Filled (K : Type 0) : Type 0 where
  filled : ℕ → K → Filled K
  cut : ℕ → K → Filled K

abbrev pub second : {K : Type 0} → Bool × K → Acquired K
second (true, k) = got k
second (false, k) = skipped k

-- The buffers that are there.
unfoldable pub iovs : List (Option (ℕ × ℕ)) → List (ℕ × ℕ)
iovs [] = []
iovs (none ∷ bs) = iovs bs
iovs (some b ∷ bs) = b ∷ iovs bs

-- `register_buffer` hands the table on as it is: a null pointer with the length 0.
unfoldable pub table : List (Option (ℕ × ℕ)) → List (ℕ × ℕ)
table [] = []
table (none ∷ bs) = (0, 0) ∷ table bs
table (some b ∷ bs) = b ∷ table bs

module _ {K : Type 0} where
  -- The id is the low 32 bits of the user data; the buffer is not set.
  unfoldable pub process_cqe : Option Cqe → IoUring K → IoCompletion × IoUring K
  process_cqe none u = (no_completion, u)
  process_cqe (some c) u = (
    record {
      node_id = c.user_data % 2 ^ 32;
      buffer = none;
      size = if c.error then 0 else c.res;
      failed = c.error;
    },
    record u {
      total_completed = bump64 u.total_completed;
      total_errors = if c.error then bump64 u.total_errors else u.total_errors;
    },
  )

module _ {K : Type 0} (liburing : Ring K) where
  -- `none` in place of the entry is a ring that is full.
  unfoldable pub submit : IoRequest → IoUring K → ErrorCode × IoUring K
  submit request u =
      let t = liburing.get_sqe u.ring in
      let v = liburing.submit (liburing.prep request t.1) in
      if t.0
      then (if v.0
          then (success, record u { ring = v.1; total_submitted = bump64 u.total_submitted })
          else (io_error, record u { ring = v.1 }))
      else (io_error, record u { ring = t.1 })

  -- A second try for an entry, after the partial submission if there was one.
  unfoldable pub retry : ℕ → K → Acquired K
  retry sqe_count k =
      let v = liburing.submit k in
      if sqe_count == 0
      then second (liburing.get_sqe k)
      else if v.0
      then second (liburing.get_sqe v.1)
      else stopped v.1

  unfoldable pub acquire : ℕ → K → Acquired K
  acquire sqe_count k = let t = liburing.get_sqe k in if t.0 then got t.1 else retry sqe_count t.1

  -- The first phase. A request for which the ring stays full is skipped.
  unfoldable pub fill : List IoRequest → ℕ → K → Filled K
  fill [] sqe_count k = filled sqe_count k
  fill (r ∷ rs) sqe_count k = elim (acquire sqe_count k) [
    | got l ↦ fill rs (suc sqe_count) (liburing.prep r l)
    | skipped l ↦ fill rs sqe_count l
    | stopped l ↦ cut sqe_count l
  ]

  -- The second phase.
  abbrev pub submit_filled : Filled K → IoUring K → ℕ × IoUring K
  submit_filled (cut n k) u = (n, record u { ring = k })
  submit_filled (filled n k) u =
      let v = liburing.submit k in
      if n == 0
      then (0, record u { ring = k })
      else if v.0
      then (n, record u { ring = v.1; total_submitted = (u.total_submitted + n) % 2 ^ 64 })
      else (0, record u { ring = v.1 })

  unfoldable pub submit_batch : List IoRequest → IoUring K → ℕ × IoUring K
  submit_batch requests u = submit_filled (fill requests 0 u.ring) u

  unfoldable pub wait_completion : IoUring K → IoCompletion × IoUring K
  wait_completion u = let t = liburing.wait_cqe u.ring in process_cqe t.0 (record u { ring = t.1 })

  unfoldable pub wait_completion_batch : ℕ → IoUring K → List IoCompletion × IoUring K
  wait_completion_batch zero u = ([], u)
  wait_completion_batch (suc n) u =
      let t = wait_completion u in
      let rest = wait_completion_batch n t.1 in
      if t.0.node_id == invalid_node_id then ([], t.1) else (t.0 ∷ rest.0, rest.1)

  -- The index, or `none` for -1.
  unfoldable pub register_file : ℕ → IoUring K → Option ℕ × IoUring K
  register_file fd u =
      let files = u.registered_files ++ some fd ∷ [] in
      let v = liburing.register_files files u.ring in
      if u.initialized
      then (if v.0
          then (some (length u.registered_files), record u { ring = v.1; registered_files = files })
          else (none, record u { ring = v.1 }))
      else (none, u)

  unfoldable pub unregister_file : ℕ → IoUring K → ErrorCode × IoUring K
  unregister_file index u =
      let files = set u.registered_files index none in
      let v = liburing.register_files files u.ring in
      if not u.initialized || leb (length u.registered_files) index
      then (invalid_argument, u)
      else (if v.0 then success else io_error, record u { ring = v.1; registered_files = files })

  unfoldable pub register_buffer : ℕ → ℕ → IoUring K → Option ℕ × IoUring K
  register_buffer buffer size u =
      let buffers = u.registered_buffers ++ some (buffer, size) ∷ [] in
      let v = liburing.register_buffers (table buffers) u.ring in
      if u.initialized
      then (if v.0
          then (
            some (length u.registered_buffers),
            record u { ring = v.1; registered_buffers = buffers },
          )
          else (none, record u { ring = v.1 }))
      else (none, u)

  -- The rest of `unregister_buffer`, with the buffers that remain.
  abbrev pub reregister : List (ℕ × ℕ) → List (Option (ℕ × ℕ)) → IoUring K → ErrorCode × IoUring K
  reregister [] buffers u =
      (success, record u { ring = liburing.unregister_buffers u.ring; registered_buffers = [] })
  reregister (b ∷ bs) buffers u =
      let v = liburing.register_buffers (b ∷ bs) (liburing.unregister_buffers u.ring) in
      (if v.0 then success else io_error, record u { ring = v.1; registered_buffers = buffers })

  unfoldable pub unregister_buffer : ℕ → IoUring K → ErrorCode × IoUring K
  unregister_buffer index u =
      let buffers = set u.registered_buffers index none in
      if not u.initialized || leb (length u.registered_buffers) index
      then (invalid_argument, u)
      else reregister (iovs buffers) buffers u
