-- ===== src/Examples/Engine.antt =====
-- A ring of two entries, and a processor over a file of zeros.
use agent_mem_io.Prelude.{
  ℕ, zero, suc, ◌*◌, ◌≤◌, ◌≡◌, refl, subst, Bool, true, false, Option, none, some, List, [], ◌∷◌,
  ◌++◌, length, min, replicate, length-replicate, ltb, arith,
}
use agent_mem_io.Prelude.Bytes.{Bytes, read_le, read_bytes, from_le}
use agent_mem_io.Lsm.Entry.{Vector, success}
use agent_mem_io.Lsm.SsTable.{read_vector_words}
use agent_mem_io.Buffer.Pool.{Pool}
use agent_mem_io.Buffer.Pool
use agent_mem_io.Buffer.Pool.Valid.{IsValid}
use agent_mem_io.Buffer.Pool.Pins.{init-IsValid}
use agent_mem_io.Graph.Nav.{Nav, get_neighbors}
use agent_mem_io.Graph.Nav.Degrees.{IsGraph}
use agent_mem_io.Graph.Index.{Index}
use agent_mem_io.Engine.Order.{IsWeakOrder}
use agent_mem_io.Engine.IoEngine.{IoRequest, Ring, IoUring, submit_batch, unregister_buffer}
use agent_mem_io.Engine.IoEngine.Facade.{Facade}
use agent_mem_io.Engine.IoEngine.Batches.{IsQueue, submit_batch-Sends}
use agent_mem_io.Engine.IoEngine.Tables.{
  IsFileTable, HoldsOne, register_all, register_all-HoldsOne, IsBufferTable,
  unregister_buffer-closes_up,
}
use agent_mem_io.Engine.Prefetcher.{Prefetcher, new, prefetch_neighbors, wait_prefetch_completions}
use agent_mem_io.Engine.Prefetcher.Requests.{
  uncached, wanted, HandsOver, prefetch_neighbors-HandsOver, wait_prefetch_completions-pool,
}
use agent_mem_io.Engine.Query.{Calls, search_with_beam_width}
use agent_mem_io.Engine.Query.Beams.{IsCalls}
use agent_mem_io.Engine.Query.Answers.{Finds, search_with_beam_width-Finds}
use agent_mem_io.Engine.Processor.{Processor}
use agent_mem_io.Engine.Processor.Pages.{IsVectorFile, HoldsVector, IsPaged}

-- The queue, what was sent, and the tables of the kernel.
record Kernel : Type 0 where
  queue : List IoRequest
  sent : List IoRequest
  files : Option (List (Option ℕ))
  buffers : Option (List (ℕ × ℕ))

abbrev enter_files : Option (List (Option ℕ)) → List (Option ℕ) → Kernel → Bool × Kernel
enter_files none fs k = (true, record k { files = some fs })
enter_files (some gs) fs k = (false, k)

abbrev enter_buffers : Option (List (ℕ × ℕ)) → List (ℕ × ℕ) → Kernel → Bool × Kernel
enter_buffers none bs k = (true, record k { buffers = some bs })
enter_buffers (some cs) bs k = (false, k)

abbrev liburing : Ring Kernel
liburing = record {
  get_sqe = λ k. (ltb (length k.queue) 2, k);
  prep = λ r k. record k { queue = k.queue ++ r ∷ [] };
  submit = λ k. (true, record k { queue = []; sent = k.sent ++ k.queue });
  wait_cqe = λ k. (none, k);
  register_files = λ fs k. enter_files k.files fs k;
  register_buffers = λ bs k. enter_buffers k.buffers bs k;
  unregister_buffers = λ k. record k { buffers = none };
}

abbrev liburing-IsQueue : IsQueue liburing 2
liburing-IsQueue = record {
  queued = λ k. k.queue;
  sent = λ k. k.sent;
  positive = omega arith;
  entry_there = λ k. refl;
  entry_queued = λ k. refl;
  entry_sent = λ k. refl;
  prep_queued = λ r k. refl;
  prep_sent = λ r k. refl;
  submits = λ k. refl;
  submit_queued = λ k. refl;
  submit_sent = λ k. refl;
}

entered :
    (o : Option (List (Option ℕ))) (fs : List (Option ℕ)) (k : Kernel)
    → (enter_files o fs k).0 ≡ true
    → (enter_files o fs k).1.files ≡ some fs
entered none fs k e = refl
entered (some hs) fs k e = absurd (cc)

kept :
    (o : Option (List (Option ℕ))) (fs : List (Option ℕ)) (k : Kernel)
    → (enter_files o fs k).0 ≡ false
    → (enter_files o fs k).1.files ≡ k.files
kept none fs k e = absurd (cc)
kept (some hs) fs k e = refl

refused :
    (o : Option (List (Option ℕ))) (fs : List (Option ℕ)) (k : Kernel) (gs : List (Option ℕ))
    → o ≡ some gs
    → (enter_files o fs k).0 ≡ false
refused none fs k gs e = absurd (cc)
refused (some hs) fs k gs e = refl

abbrev liburing-IsFileTable : IsFileTable liburing
liburing-IsFileTable = record {
  file_table = λ k. k.files;
  enters = λ fs k e. entered k.files fs k e;
  keeps = λ fs k e. kept k.files fs k e;
  refuses = λ fs k gs e. refused k.files fs k gs e;
}

taken_in :
    (o : Option (List (ℕ × ℕ))) (bs : List (ℕ × ℕ)) (k : Kernel)
    → o ≡ none
    → ((enter_buffers o bs k).0 ≡ true) × ((enter_buffers o bs k).1.buffers ≡ some bs)
taken_in none bs k e = (refl, refl)
taken_in (some cs) bs k e = absurd (cc)

abbrev liburing-IsBufferTable : IsBufferTable liburing
liburing-IsBufferTable = record {
  buffer_table = λ k. k.buffers;
  takes = λ bs k e. taken_in k.buffers bs k e;
  clears = λ k. refl;
}

abbrev ring : IoUring Kernel
ring = record {
  ring = record {
    queue = [];
    sent = [];
    files = some (some 5 ∷ []);
    buffers = some ((1, 8) ∷ (2, 8) ∷ []);
  };
  initialized = true;
  total_submitted = 0;
  total_completed = 0;
  total_errors = 0;
  registered_files = some 5 ∷ [];
  registered_buffers = some (1, 8) ∷ some (2, 8) ∷ [];
}

abbrev read_of : ℕ → IoRequest
read_of n = record { fd = 3; offset = 0; size = 512; node_id = n; is_read = true }

submit_batch-Sends_example :
    let t = submit_batch liburing (read_of 1 ∷ read_of 2 ∷ read_of 3 ∷ []) ring in
    (t.0 ≡ 3) × (t.1.ring.sent ≡ read_of 1 ∷ read_of 2 ∷ read_of 3 ∷ []) × (t.1.ring.queue ≡ [])
submit_batch-Sends_example =
    submit_batch-Sends liburing 2 liburing-IsQueue (read_of 1 ∷ read_of 2 ∷ read_of 3 ∷ []) ring
      refl

abbrev bare : IoUring Kernel
bare =
    let k : Kernel = ring.ring in
    record ring { registered_files = []; ring = record k { files = none } }

register_all-HoldsOne_example :
    HoldsOne liburing liburing-IsFileTable (register_all liburing (5 ∷ 6 ∷ 7 ∷ []) bare)
register_all-HoldsOne_example =
    register_all-HoldsOne liburing liburing-IsFileTable (5 ∷ 6 ∷ 7 ∷ []) bare refl refl

unregister_buffer-closes_up_example :
    let t = unregister_buffer liburing 0 ring in
    (t.0 ≡ success)
    × (t.1.registered_buffers ≡ none ∷ some (2, 8) ∷ [])
    × (t.1.ring.buffers ≡ some ((2, 8) ∷ []))
unregister_buffer-closes_up_example =
    unregister_buffer-closes_up liburing liburing-IsBufferTable ring ((1, 8) ∷ (2, 8) ∷ []) 0 refl
      refl (omega arith) (omega arith)

abbrev two : Nav
two = record { num_nodes = 2; max_degree = 1; entry_point = 0; lists = (1 ∷ []) ∷ [] ∷ [] }

two-IsGraph : IsGraph two
two-IsGraph = record {
  count = refl;
  lists = (((omega arith, tt), (refl, tt), omega arith), ((tt, tt, omega arith), tt));
}

abbrev facade : Facade Kernel
facade = record { use_io_uring = true; initialized = true; io_uring_engine = ring }

abbrev pool : Pool
pool = Pool.init 2 4096 1

abbrev prefetcher : Prefetcher Kernel
prefetcher = new (some facade) (some pool)

prefetch_neighbors-HandsOver_example :
    let t = prefetch_neighbors liburing (λ r. true) 0 (λ n. true) 3 (some two) 0 prefetcher in
    (t.0 ≡ min 32 (length (uncached pool (1 ∷ []))))
    × HandsOver liburing 2 liburing-IsQueue
        (λ r. true)
        0
        (λ n. true)
        3
        (λ n. refl)
        pool
        facade
        refl
        refl
        (wanted 3 pool 32 (1 ∷ []))
        (t.1, t.2)
unfolding new get_neighbors
prefetch_neighbors-HandsOver_example =
    prefetch_neighbors-HandsOver liburing 2 liburing-IsQueue (λ r. true) 0 (λ n. true) 3 (λ n. refl)
      pool facade refl refl two 0 (1 ∷ []) prefetcher refl refl refl

wait_prefetch_completions-pool_example :
    ((wait_prefetch_completions liburing 0 [] prefetcher).1.buffer_pool ≡ some pool)
    × ((wait_prefetch_completions liburing 0 [] prefetcher).0 ≤ 32)
unfolding new
wait_prefetch_completions-pool_example = wait_prefetch_completions-pool liburing 0 [] prefetcher

ltb-IsWeakOrder : IsWeakOrder ltb
ltb-IsWeakOrder = record {
  asym = λ a b h. ground (arith, h);
  not_lt_trans = λ a b c h k. ground (arith, h, k);
}

-- Distances that are the ids, with no state.
abbrev ids_calls : Calls ℕ ℕ
ids_calls = record {
  measure = λ n s. (some n, s);
  prefetch_neighbors = λ n s. s;
  wait_prefetch_completions = λ s. s;
}

abbrev ids_calls-IsCalls : IsCalls ids_calls two
ids_calls-IsCalls = record {
  Ok = λ s. Unit;
  Right = λ n d. d ≡ n;
  measured = λ n s h v. (n, refl, refl, tt);
  prefetched = λ n s h v. tt;
  waited = λ s v. tt;
}

abbrev index : Index
index = record { vectors = [] ∷ [] ∷ []; nav_data = some two; has_builder = false; is_built = true }

search_with_beam_width-Finds_example :
    Finds ltb 1 ids_calls two ids_calls-IsCalls 5
      (search_with_beam_width ltb 1 ids_calls (λ n s. (some n, s)) (some index) 5 0)
search_with_beam_width-Finds_example =
    search_with_beam_width-Finds ltb 1 ids_calls two ids_calls-IsCalls ltb-IsWeakOrder (omega arith)
      two-IsGraph (omega arith) (omega arith) (λ n s. (some n, s)) index 5 0 refl
      (0, refl, refl, tt)

-- A file of vectors that are 0.
abbrev pread : ℕ → ℕ → Bytes
pread off n = replicate n 0

abbrev zeros : Vector
zeros = replicate 128 0

read_zeros :
    (n : ℕ) (more : Bytes)
    → read_vector_words n (replicate (4 * n) 0 ++ more) ≡ some (replicate n 0, more)
unfolding read_vector_words read_le read_bytes from_le
read_zeros zero more = refl
read_zeros (suc n) more =
    let e : 4 * suc n ≡ suc (suc (suc (suc (4 * n)))) = omega arith in
    rw (e, read_zeros n more) refl

page_words :
    (more : Bytes)
    → (rest : Bytes) × (read_vector_words 128 (replicate 4096 0 ++ more) ≡ some (zeros, rest))
page_words more = (replicate 3584 0 ++ more, read_zeros 128 (replicate 3584 0 ++ more))

pread-IsVectorFile : IsVectorFile pread (λ n. zeros) 2
pread-IsVectorFile = record {
  small = omega arith;
  long = λ node h. omega (arith, length-replicate {A = ℕ} 4096 0);
  words = λ node more h. page_words more;
}

abbrev processor : Processor Kernel
processor = record { prefetcher = prefetcher; has_prefetcher = true; disk_reader = none }

abbrev l2 : Vector → Vector → ℕ
l2 a b = length b

query_size : length zeros ≡ 128
query_size = length-replicate {A = ℕ} 128 0

processor-IsPaged :
    IsPaged l2 999 pread 0 [] pread l2
      (λ d. false)
      0
      none
      liburing
      (λ r. true)
      (λ n. true)
      3
      two
      (λ n. zeros)
      pread-IsVectorFile
      zeros
      query_size
      processor
unfolding new
processor-IsPaged = (
  refl,
  λ s e.
      subst (IsValid (HoldsVector (λ n. zeros))) (same_pool e)
        (init-IsValid (HoldsVector (λ n. zeros)) 2 4096 1),
)
  where
    same_pool : {a b : Pool} → some a ≡ some b → a ≡ b
    same_pool e = cc
