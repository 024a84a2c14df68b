-- ===== src/Disk/Reader/Batch/Reads.antt =====
-- The batched reads put out what the file holds.
use agent_mem_io.Prelude.{
  ℕ, zero, suc, ◌<◌, ◌≡◌, refl, sym, if◌then◌else◌, subst, ap, Option, none, some, List, [], ◌∷◌,
  ◌++◌, length, get_elem?, All, arith, inl,
}
use agent_mem_io.Prelude.Bytes.{Bytes}
use agent_mem_io.Lsm.Entry.{Vector}
use agent_mem_io.Disk.Record.{DiskNodeRecord, parse_record}
use agent_mem_io.Disk.Writer.File.{record_at}
use agent_mem_io.Disk.Reader.{Reader, vector_of_record}
use agent_mem_io.Disk.Reader.Reads.{Delivers, IsReady}
use agent_mem_io.Disk.Reader.Batch.{
  Batch, resize, probe_all, fetch_all, read_batch, read_records_batch, read_vectors_batch,
}
use agent_mem_io.Disk.Reader.Batch.Right.{Right, probe_all-IsBatch, fetch_all-IsBatch}

get_elem?-lt : {A : Type 0} (xs : List A) (i : ℕ) (x : A) → get_elem? xs i ≡ some x → i < length xs
get_elem?-lt [] i x e = absurd (cc)
get_elem?-lt (y ∷ xs) zero x e = omega arith
get_elem?-lt (y ∷ xs) (suc i) x e = omega (arith, get_elem?-lt xs i x e)

All-get_elem? :
    (n : ℕ) (xs : List ℕ) (i x : ℕ) → All (λ (y : ℕ). y < n) xs → get_elem? xs i ≡ some x → x < n
All-get_elem? n [] i x a e = absurd (cc)
All-get_elem? n (y ∷ xs) zero x a e = ground (arith, e, a.0)
All-get_elem? n (y ∷ xs) (suc i) x a e = All-get_elem? n xs i x a.1 e

pub length-resize :
    {A : Type 0} (initial : A) (n : ℕ) (xs : List A) → length (resize initial n xs) ≡ n
unfolding resize
length-resize initial zero xs = refl
length-resize initial (suc n) [] = ap suc (length-resize initial n [])
length-resize initial (suc n) (x ∷ xs) = ap suc (length-resize initial n xs)

module _ (file : Bytes) (pread : ℕ → ℕ → Bytes) (delivers : Delivers file pread) (r : Reader)
    (ready : IsReady file r) (ids : List ℕ) (known : All (λ (y : ℕ). y < r.num_vectors) ids)
    (spare : Bytes) (now : ℕ) (fresh : Bytes) where
  read_batch-Right :
      {A : Type 0} (parse : ℕ → Bytes → A) (initial : A) (value : ℕ → A) (output : List A)
      → ((id : ℕ) (rest : Bytes)
          → id < r.num_vectors
          → parse r.max_degree (record_at file id ++ rest) ≡ value id)
      → let b = read_batch parse initial pread (some spare) now fresh ids output r in
        Right value ids (resize initial (length ids) output) b.output × IsReady file b.reader
  unfolding read_batch
  read_batch-Right {A} parse initial value output parses =
      let old = resize initial (length ids) output in
      let start : Batch A = record { reader = r; output = old; misses = []; success_count = 0 } in
      let placed : (i id : ℕ)
          → get_elem? ids i ≡ some id
          → (id < r.num_vectors) × (i < length old) =
        λ i id e. (
          All-get_elem? r.num_vectors ids i id known e,
          omega (arith, get_elem?-lt ids i id e, length-resize initial (length ids) output),
        ) in
      let x =
        probe_all-IsBatch parse initial file r.max_degree r.num_vectors value parses ids old pread
          delivers placed now fresh 0 ids start
          (λ k id e. subst (λ j. get_elem? ids j ≡ some id) (omega arith) e)
          (record {
            ready = ready;
            degree = refl;
            nodes = refl;
            right = (refl, λ i. inl refl);
            pending = tt;
          }) in
      let y =
        fetch_all-IsBatch parse initial file r.max_degree r.num_vectors value parses ids old pread
          delivers placed now fresh spare (probe_all parse initial now 0 ids start).misses
          (probe_all parse initial now 0 ids start) x.pending x in
      let probed = probe_all parse initial now 0 ids start in
      let fetched = fetch_all parse initial pread (some spare) now fresh probed.misses probed in
      subst
        (λ t.
          Right value ids old (if t then fetched else probed).output
          × IsReady file (if t then fetched else probed).reader)
        (sym ready.opened) (y.right, y.ready)

  -- An open reader whose file has a record for each node, and whose cache, if it has one, is valid
  -- with pages that start with their records, reads a batch of nodes of the index whose records
  -- parse to given values: afterwards each place of the output of read_records_batch holds the
  -- value of its node, or is as the resized output was, the same holds of the vectors of
  -- read_vectors_batch, and both leave such a reader. The system's `pread` delivers what it is asked
  -- for inside the file, and there must be memory for a buffer.
  read_records_batch-Right :
      (value : ℕ → DiskNodeRecord)
      → ((id : ℕ) (rest : Bytes)
          → id < r.num_vectors
          → parse_record r.max_degree (record_at file id ++ rest) ≡ some (value id))
      → (records : List (Option DiskNodeRecord)) (vectors : List (Option Vector))
      → let b = read_records_batch pread (some spare) now fresh ids records r in
        let c = read_vectors_batch pread (some spare) now fresh ids vectors r in
        Right (λ id. some (value id)) ids (resize none (length ids) records) b.output
        × IsReady file b.reader
        × Right
            (λ id. some (value id).vector_data)
            ids
            (resize (some []) (length ids) vectors)
            c.output
        × IsReady file c.reader
  unfolding read_records_batch read_vectors_batch
  read_records_batch-Right value parses records vectors =
      let (a, b) = read_batch-Right parse_record none (λ id. some (value id)) records parses in
      let (c, d) =
        read_batch-Right (λ m p. vector_of_record (parse_record m p)) (some [])
          (λ id. some (value id).vector_data) vectors
          (λ id rest h. ap vector_of_record (parses id rest h)) in
      (a, b, c, d)
