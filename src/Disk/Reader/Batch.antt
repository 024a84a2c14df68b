-- ===== src/Disk/Reader/Batch.antt =====
-- The batched reads of src/io/disk_layout.cpp: `read_vectors_batch` and `read_records_batch`, which
-- differ only in what they make of a record's bytes, the parameter `parse`, and in what stands for
-- an element that was not read, `initial`.
pub mod Right
pub mod Reads
pub mod Uncached
use agent_mem_io.Prelude.{
  ℕ, zero, suc, ◌+◌, Bool, true, false, not, Option, none, some, List, [], ◌∷◌, ◌++◌, length, set,
  take, if◌then◌else◌,
}
use agent_mem_io.Prelude.Bytes.{Bytes}
use agent_mem_io.Lsm.Entry.{Vector}
use agent_mem_io.Buffer.Pool.{Pool, get_page, get_or_load_page}
use agent_mem_io.Buffer.Pool.Methods
use agent_mem_io.Disk.Record.{DiskNodeRecord, parse_record}
use agent_mem_io.Disk.Reader.{
  Reader, put_pool, vector_of_record, borrow_buffer, return_buffer, read_node, load_func,
}

-- `misses` pairs `miss_indices` and `miss_node_ids`.
pub record Batch (A : Type 0) : Type 0 where
  pub reader : Reader
  pub output : List A
  pub misses : List (ℕ × ℕ)
  pub success_count : ℕ

module _ {A : Type 0} (initial : A) where
  -- `output.resize(n)`
  unfoldable pub resize : ℕ → List A → List A
  resize zero xs = []
  resize (suc n) [] = initial ∷ resize n []
  resize (suc n) (x ∷ xs) = x ∷ resize n xs

module _ {A : Type 0} (parse : ℕ → Bytes → A) (initial : A) where
  -- An element that was read from the bytes of its record.
  unfoldable pub serve : ℕ → Bytes → Batch A → Batch A
  serve i page b = record b {
    output = set b.output i (parse b.reader.max_degree page);
    success_count = b.success_count + 1;
  }

  unfoldable pub miss : ℕ → ℕ → Batch A → Batch A
  miss i id b = record b { misses = b.misses ++ (i, id) ∷ [] }

  -- Phase 1, after the pool was asked for a page that it holds.
  unfoldable pub probe_page : ℕ → ℕ → Option Bytes → Batch A → Batch A
  probe_page i id none b = miss i id b
  probe_page i id (some page) b = serve i page b

  unfoldable pub probe : ℕ → ℕ → ℕ → Batch A → Batch A
  probe now i id b = elim b.reader.buffer_pool_mgr [
    | none ↦ miss i id b
    | some s ↦
        let t = get_page now id s in
        if Methods.contains id s
        then probe_page i id t.0 (record b { reader = put_pool t.1 b.reader })
        else miss i id b
  ]

  unfoldable pub probe_all : ℕ → ℕ → List ℕ → Batch A → Batch A
  probe_all now i [] b = b
  probe_all now i (id ∷ ids) b = probe_all now (suc i) ids (probe now i id b)

  -- Phase 2, after the pool was asked to load a page.
  unfoldable pub fetch_page : ℕ → Option Bytes → Batch A → Batch A
  fetch_page i none b = b
  fetch_page i (some page) b = serve i page b

  module _ (pread : ℕ → ℕ → Bytes) (spare : Option Bytes) (now : ℕ) (fresh : Bytes) where
    -- Phase 2 without a pool, once a buffer was asked for.
    unfoldable pub fetch_direct : ℕ → ℕ → Option Bytes × Reader → Batch A → Batch A
    fetch_direct i id (none, r) b = b
    fetch_direct i id (some buffer, r) b =
        let t = read_node pread b.reader id buffer in
        let b' : Batch A = record b { reader = return_buffer t.1 r } in
        if t.0 then serve i t.1 b' else b'

    unfoldable pub fetch : ℕ → ℕ → Batch A → Batch A
    fetch i id b = elim b.reader.buffer_pool_mgr [
      | none ↦ fetch_direct i id (borrow_buffer spare b.reader) b
      | some s ↦
          let t = get_or_load_page now id id fresh (load_func pread b.reader) s in
          fetch_page i t.0 (record b { reader = put_pool t.1 b.reader })
    ]

    unfoldable pub fetch_all : List (ℕ × ℕ) → Batch A → Batch A
    fetch_all [] b = b
    fetch_all ((i, id) ∷ ms) b = fetch_all ms (fetch i id b)

    unfoldable pub read_batch : List ℕ → List A → Reader → Batch A
    read_batch ids output r =
        let b = probe_all now 0 ids (record {
          reader = r;
          output = resize initial (length ids) output;
          misses = [];
          success_count = 0;
        }) in
        if r.is_open then fetch_all b.misses b else b

module _ (pread : ℕ → ℕ → Bytes) (spare : Option Bytes) (now : ℕ) (fresh : Bytes) where
  -- `none` is a record whose fields are unset.
  unfoldable pub read_records_batch :
      List ℕ → List (Option DiskNodeRecord) → Reader → Batch (Option DiskNodeRecord)
  read_records_batch = read_batch parse_record none pread spare now fresh

  unfoldable pub read_vectors_batch : List ℕ → List (Option Vector) → Reader → Batch (Option Vector)
  read_vectors_batch =
      read_batch (λ m b. vector_of_record (parse_record m b)) (some []) pread spare now fresh
