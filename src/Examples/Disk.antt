-- ===== src/Examples/Disk.antt =====
-- An index of one node on disk, and a reader with a cache.
use agent_mem_io.Prelude.{
  Bool, false, List, false, ltb, member, Distinct, ℕ, zero, suc, ◌*◌, ◌^◌, ◌<◌, ◌≡◌, refl, subst,
  true, none, some, [], ◌∷◌, ◌++◌, length, take, drop, replicate, length-replicate, All, arith,
}
use agent_mem_io.Prelude.Bytes.{Bytes}
use agent_mem_io.Lsm.Entry.{Vector}
use agent_mem_io.Buffer.Pool.{Pool, init}
use agent_mem_io.Buffer.Pool.Valid.{IsValid}
use agent_mem_io.Buffer.Pool.Pins.{init-IsValid}
use agent_mem_io.Disk.Record.{disk_record_size, pack_record, parse_record}
use agent_mem_io.Disk.Record.Fields.{IsPackable, node_record}
use agent_mem_io.Disk.Record.Parse.{parse_record-pack_record}
use agent_mem_io.Disk.Writer.{Index, write_index}
use agent_mem_io.Disk.Writer.File.{
  HasNode, HasNodes, Stores, stored, vector_of, write_index_lem, write_index-Stores,
}
use agent_mem_io.Disk.Reader.{Reader, read_record, read_vector}
use agent_mem_io.Disk.Reader.Reads.{Holds, IsReady, read_record-Reads}
use agent_mem_io.Disk.Reader.Batch.{read_records_batch, read_vectors_batch}
use agent_mem_io.Disk.Reader.Batch.Uncached.{Answers, read_records_batch-Answers}
use agent_mem_io.Disk.Reader.Stored.{read_record-write_index}
use agent_mem_io.Disk.Reader.Pinned.{compute_distance_direct}
use agent_mem_io.Disk.Reader.Pinned.Distance.{compute_distance_direct-Measures}
use agent_mem_io.Graph.Nav.{Nav}
use agent_mem_io.Graph.Nav.Degrees.{IsGraph}
use agent_mem_io.Graph.Search.Queues.{Reachable, ids}
use agent_mem_io.Engine.Order.{IsWeakOrder, Ordered}
use agent_mem_io.Engine.IoEngine.{Ring}
use agent_mem_io.Engine.Prefetcher.{new}
use agent_mem_io.Engine.Query.{found, search_with_beam_width}
use agent_mem_io.Engine.Query.Beams.{NoNearer}
use agent_mem_io.Engine.Processor.{Processor, entry_distance}
use agent_mem_io.Engine.Processor.Records.{record_calls}
use agent_mem_io.Engine.Processor.Searches.{search_with_beam_width-Exact}

abbrev vector : Vector
vector = replicate 128 1

words : (n : ℕ) → All (λ (w : ℕ). w < 2 ^ 32) (replicate n 1)
words zero = tt
words (suc n) = (omega arith, words n)

node-IsPackable : IsPackable 32 vector (7 ∷ []) [] 0
node-IsPackable = record {
  degree = omega arith;
  dimension = length-replicate {A = ℕ} 128 1;
  words = words 128;
  id_word = omega arith;
  neighbor_words = (omega arith, tt);
  codes = tt;
}

parse_record-pack_record_example :
    (b : Bytes) × (pack_record 32 vector (7 ∷ []) [] 0 ≡ some b)
    × (length b ≡ disk_record_size)
    × ((rest : Bytes) → parse_record 32 (b ++ rest) ≡ some (node_record 32 vector (7 ∷ []) [] 0))
parse_record-pack_record_example = parse_record-pack_record 32 vector (7 ∷ []) [] 0 node-IsPackable

abbrev one : Index
one = record {
  num_vectors = 1;
  max_degree = 32;
  vectors = vector ∷ [];
  graph = (7 ∷ []) ∷ [];
  pq_codes = [];
}

one-HasNode : HasNode one 0
one-HasNode = record { vector = vector; found = refl; room = node-IsPackable }

one-HasNodes : HasNodes one 0 1
one-HasNodes k h l = let e : 0 ≡ k = omega (arith, l) in subst (HasNode one) e one-HasNode

-- A system that writes what it is given at the end of the file.
abbrev pwrite : Bytes → ℕ → Bytes → ℕ × Bytes
pwrite file off b = (length b, file ++ b)

write_index-Stores_example :
    ((file : Bytes) × (write_index pwrite true true one [] ≡ some (1 * disk_record_size, file))
      × (length file ≡ 1 * disk_record_size)
      × Stores one file)
    × (write_index pwrite true false one [] ≡ some (0, []))
    × ((allocated : Bool) → write_index pwrite false allocated one [] ≡ some (0, []))
write_index-Stores_example =
    write_index-Stores one pwrite (λ f b. refl) [] (omega arith) one-HasNodes

abbrev reader : Reader
reader = record {
  is_open = true;
  num_vectors = 1;
  max_degree = 32;
  buffer_pool_mgr = some (init 4 4096 1);
  io_buffer_pool = [];
}

reader-IsReady : (file : Bytes) → length file ≡ 1 * disk_record_size → IsReady file reader
reader-IsReady file l = record {
  opened = refl;
  nodes = omega arith;
  covers = omega (arith, l);
  cache = λ s e. subst (IsValid (Holds file)) (same_pool e) (init-IsValid (Holds file) 4 4096 1);
}
  where
    same_pool : {a b : Pool} → some a ≡ some b → a ≡ b
    same_pool e = cc

abbrev written :
    (file : Bytes) × (write_index pwrite true true one [] ≡ some (1 * disk_record_size, file))
    × (length file ≡ 1 * disk_record_size)
    × Stores one file
written = write_index_lem one pwrite (λ f b. refl) [] one-HasNodes

-- A system that delivers the bytes of the file.
abbrev pread : ℕ → ℕ → Bytes
pread off n = take n (drop off written.0)

read_record-write_index_example :
    ((read_record pread (some []) 5 [] 0 reader).0 ≡ some (stored one 0))
    × ((read_vector pread (some []) 5 [] 0 reader).0 ≡ some (vector_of one 0))
read_record-write_index_example =
    read_record-write_index one pwrite (λ f b. refl) one-HasNodes [] written.0
      (1 * disk_record_size) written.1 pread (λ off n h. refl) reader
      (reader-IsReady written.0 written.2) refl refl [] 5 [] 0 (omega arith)

compute_distance_direct-Measures_example :
    ((compute_distance_direct pread (λ q v. length v) 0 (some []) 5 [] 0 vector reader).0
      ≡ some (length (stored one 0).vector_data))
    × IsReady written.0
        (compute_distance_direct pread (λ q v. length v) 0 (some []) 5 [] 0 vector reader).1
compute_distance_direct-Measures_example =
    compute_distance_direct-Measures written.0 pread (λ off n h. refl) reader
      (reader-IsReady written.0 written.2) 0 (omega arith) (stored one 0)
      (written.3 0 (omega arith)) (λ q v. length v) 0 vector (length-replicate {A = ℕ} 128 1) [] 5
      []

read_record-Reads_example :
    ((read_record pread (some []) 5 [] 0 reader).0 ≡ some (stored one 0))
    × ((read_vector pread (some []) 5 [] 0 reader).0 ≡ some (stored one 0).vector_data)
    × IsReady written.0 (read_record pread (some []) 5 [] 0 reader).1
    × IsReady written.0 (read_vector pread (some []) 5 [] 0 reader).1
read_record-Reads_example =
    read_record-Reads written.0 pread (λ off n h. refl) reader (reader-IsReady written.0 written.2)
      0 (omega arith) (stored one 0) (written.3 0 (omega arith)) [] 5 []

abbrev bare_reader : Reader
bare_reader = record reader { buffer_pool_mgr = none }

bare_reader-IsReady : (file : Bytes) → length file ≡ 1 * disk_record_size → IsReady file bare_reader
bare_reader-IsReady file l = record {
  opened = refl;
  nodes = omega arith;
  covers = omega (arith, l);
  cache = λ s e. absurd (cc);
}

read_records_batch-Answers_example :
    Answers
      (λ id. some (stored one id))
      (0 ∷ 0 ∷ [])
      (read_records_batch pread (some []) 5 [] (0 ∷ 0 ∷ []) [] bare_reader)
    × Answers
        (λ id. some (stored one id).vector_data)
        (0 ∷ 0 ∷ [])
        (read_vectors_batch pread (some []) 5 [] (0 ∷ 0 ∷ []) [] bare_reader)
read_records_batch-Answers_example =
    read_records_batch-Answers written.0 pread (λ off n h. refl) bare_reader
      (bare_reader-IsReady written.0 written.2) refl (0 ∷ 0 ∷ []) (omega arith, (omega arith, tt))
      [] 5 [] (stored one) (λ id rest h. written.3 id h rest) [] []

-- The query processor over this index.
abbrev lone : Nav
lone = record { num_nodes = 1; max_degree = 1; entry_point = 0; lists = [] ∷ [] }

lone-IsGraph : IsGraph lone
lone-IsGraph = record { count = refl; lists = ((tt, tt, omega arith), tt) }

abbrev idle : Ring ℕ
idle = record {
  get_sqe = λ k. (false, k);
  prep = λ r k. k;
  submit = λ k. (true, k);
  wait_cqe = λ k. (none, k);
  register_files = λ fs k. (true, k);
  register_buffers = λ bs k. (true, k);
  unregister_buffers = λ k. k;
}

abbrev processor : Processor ℕ
processor = record { prefetcher = new none none; has_prefetcher = false; disk_reader = some reader }

abbrev size_of : Vector → Vector → ℕ
size_of q v = length v

ltb-IsWeakOrder : IsWeakOrder ltb
ltb-IsWeakOrder = record {
  asym = λ a b h. ground (arith, h);
  not_lt_trans = λ a b c h k. ground (arith, h, k);
}

search_with_beam_width-Exact_example :
    (ranked : List (ℕ × ℕ)) × (left : Processor ℕ) × (search_with_beam_width ltb 2
        (record_calls size_of 999 pread 5 [] pread size_of
          (λ d. false)
          0
          []
          idle
          (λ r. true)
          (λ n. true)
          3
          lone
          written.0
          (λ off n h. refl)
          32
          (stored one)
          (λ id rest h. written.3 id h rest)
          (λ a b. refl)
          vector
          (length-replicate {A = ℕ} 128 1))
        (entry_distance size_of 999 pread 5 [] pread size_of (λ d. false) 0 (some []) vector)
        (some (record { vectors = []; nav_data = some lone; has_builder = false; is_built = true }))
        1
        processor
      ≡ found (take 1 ranked) left)
    × Ordered (NoNearer ltb) ranked
    × Distinct (ids ranked)
    × All
        (λ p. (p.0 < 1) × (p.1 ≡ size_of vector (stored one p.0).vector_data) × Reachable lone p.0)
        ranked
    × ((a : ℕ) → Reachable lone a → member a (ids ranked) ≡ true)
search_with_beam_width-Exact_example =
    search_with_beam_width-Exact ltb ltb-IsWeakOrder size_of 999 pread 5 [] pread size_of
      (λ d. false) 0 idle (λ r. true) (λ n. true) 3 lone lone-IsGraph (omega arith) (omega arith)
      (record { vectors = []; nav_data = some lone; has_builder = false; is_built = true }) refl
      vector (length-replicate {A = ℕ} 128 1) 1 [] written.0 (λ off n h. refl) 32 (stored one)
      (λ id rest h. written.3 id h rest) (λ a b. refl) 2 processor (omega arith)
      (reader, refl, reader-IsReady written.0 written.2, (refl, refl))
