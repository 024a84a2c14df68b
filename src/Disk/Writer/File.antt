-- ===== src/Disk/Writer/File.antt =====
-- What a written index file holds.
use agent_mem_io.Prelude.{
  ℕ, zero, suc, ◌+◌, ◌*◌, ◌^◌, Bool, false, ◌<◌, ◌≤◌, ◌≡◌, refl, sym, ◌∙◌, subst, ap, true, none,
  some, [], ◌∷◌, ◌++◌, length, take, drop, get_elem?, length-append, take-append, arith,
}
use mathlib.Core.List.{append_assoc}
use agent_mem_io.Prelude.Bytes.{Bytes}
use agent_mem_io.Lsm.Entry.{Vector}
use agent_mem_io.Disk.Record.{disk_record_size, DiskNodeRecord, parse_record}
use agent_mem_io.Disk.Record.Fields.{IsPackable, node_record}
use agent_mem_io.Disk.Record.Parse.{parse_record-pack_record}
use agent_mem_io.Disk.Writer.{neighbors_of, Index, pack_node, write_nodes, write_index}

-- The bytes of record `i` of a file.
unfoldable pub record_at : Bytes → ℕ → Bytes
record_at file i = take disk_record_size (drop (i * disk_record_size) file)

-- The index has a vector for the node, and a record has room for the node's data.
pub record HasNode (x : Index) (i : ℕ) : Type 0 where
  pub vector : Vector
  pub found : get_elem? x.vectors i ≡ some vector
  pub room : IsPackable x.max_degree vector (neighbors_of x.graph i) x.pq_codes i

abbrev pub vector_of : Index → ℕ → Vector
vector_of x i = elim (get_elem? x.vectors i) [ none ↦ [] | some v ↦ v ]

-- What the index holds of a node.
abbrev pub stored : Index → ℕ → DiskNodeRecord
stored x i = node_record x.max_degree (vector_of x i) (neighbors_of x.graph i) x.pq_codes i

pack_node_lem :
    (x : Index) (i : ℕ)
    → HasNode x i
    → (b : Bytes) × (pack_node x i ≡ some b)
      × (length b ≡ disk_record_size)
      × ((rest : Bytes) → parse_record x.max_degree (b ++ rest) ≡ some (stored x i))
unfolding pack_node
pack_node_lem x i h =
    let v : vector_of x i ≡ h.vector = rw (vector_of, h.found) refl in
    let (b, e, l, r) =
      parse_record-pack_record x.max_degree h.vector (neighbors_of x.graph i) x.pq_codes i h.room in
    (b, rw (h.found, pack_node) e, l, λ rest. rw v (r rest))

-- The records of nodes `i`, `i + 1`, ... one after the other.
abbrev records : Index → ℕ → ℕ → Bytes
records x i zero = []
records x i (suc n) = elim (pack_node x i) [ none ↦ [] | some b ↦ b ++ records x (suc i) n ]

drop-append_more : (xs ys : Bytes) (k : ℕ) → drop (length xs + k) (xs ++ ys) ≡ drop k ys
drop-append_more [] ys k = ground arith
drop-append_more (x ∷ xs) ys k =
    let e : length (x ∷ xs) + k ≡ suc (length xs + k) = omega arith in
    rw e (drop-append_more xs ys k)

record_at-append :
    (b bs : Bytes) (k : ℕ)
    → length b ≡ disk_record_size
    → record_at (b ++ bs) (suc k) ≡ record_at bs k
unfolding record_at
record_at-append b bs k l =
    let e : suc k * disk_record_size ≡ length b + k * disk_record_size = omega (arith, l) in
    ap (take disk_record_size) (rw e (drop-append_more b bs (k * disk_record_size)))

record_at_first : (b bs : Bytes) → length b ≡ disk_record_size → record_at (b ++ bs) 0 ≡ b
unfolding record_at
record_at_first b bs l = subst (λ n. take n (b ++ bs) ≡ b) l (take-append b bs)

none_below : {A : Type 0} {k : ℕ} → k < 0 → A
none_below h = absurd (elim h [ ])

append_nil : (bs : Bytes) → bs ++ [] ≡ bs
append_nil [] = refl
append_nil (b ∷ bs) = ap (◌∷◌ b) (append_nil bs)

module _ (x : Index) where
  -- A run of nodes that the index has.
  abbrev pub HasNodes : ℕ → ℕ → Type 0
  HasNodes i n = (k : ℕ) → i ≤ k → k < i + n → HasNode x k

  -- The bytes at each node's offset parse, whatever follows them, to the node's data.
  abbrev pub Stores : Bytes → Type 0
  Stores file =
      (k : ℕ)
      → k < x.num_vectors
      → (rest : Bytes) → parse_record x.max_degree (record_at file k ++ rest) ≡ some (stored x k)

  first : (i n : ℕ) → HasNodes i (suc n) → HasNode x i
  first i n has = has i (omega arith) (omega arith)

  others : (i n : ℕ) → HasNodes i (suc n) → HasNodes (suc i) n
  others i n has k h l = has k (omega arith) (omega arith)

  records_step :
      (i n : ℕ) (b : Bytes)
      → pack_node x i ≡ some b
      → records x i (suc n) ≡ b ++ records x (suc i) n
  records_step i n b e = rw (records, e) refl

  length-records : (i n : ℕ) → HasNodes i n → length (records x i n) ≡ n * disk_record_size
  length-records i zero has = refl
  length-records i (suc n) has =
      let (b, e, l, r) = pack_node_lem x i (first i n has) in
      rw (records_step i n b e, length-append b (records x (suc i) n))
        (omega (arith, l, length-records (suc i) n (others i n has)))

  -- Each record of a run of them stands at its offset.
  record_at-records :
      (i n k : ℕ) → HasNodes i n → k < n → pack_node x (i + k) ≡ some (record_at (records x i n) k)
  record_at-records i zero k has h = none_below h
  record_at-records i (suc n) zero has h =
      let (b, e, l, r) = pack_node_lem x i (first i n has) in
      rw (records_step i n b e, record_at_first b (records x (suc i) n) l)
        (subst (λ j. pack_node x j ≡ some b) (omega arith) e)
  record_at-records i (suc n) (suc k) has h =
      let (b, e, l, r) = pack_node_lem x i (first i n has) in
      rw (records_step i n b e, record_at-append b (records x (suc i) n) k l)
        (subst (λ j. pack_node x j ≡ some (record_at (records x (suc i) n) k)) (omega arith)
          (record_at-records (suc i) n k (others i n has) (omega arith)))

  module _ (pwrite : Bytes → ℕ → Bytes → ℕ × Bytes)
      (appends : (file b : Bytes) → pwrite file (length file) b ≡ (length b, file ++ b)) where
    write_nodes_lem :
        (i n : ℕ) (file : Bytes) (total : ℕ)
        → length file ≡ i * disk_record_size
        → HasNodes i n
        → write_nodes pwrite x i n file total
          ≡ some (total + n * disk_record_size, file ++ records x i n)
    unfolding write_nodes
    write_nodes_lem i zero file total l has =
        rw (append_nil file) (ap (λ t. some (t, file)) (omega arith))
    write_nodes_lem i (suc n) file total l has =
        let (b, e, lb, r) = pack_node_lem x i (first i n has) in
        let w : pwrite file (i * disk_record_size) b ≡ (disk_record_size, file ++ b) =
          rw (← l, appends file b, lb) refl in
        let longer : length (file ++ b) ≡ suc i * disk_record_size =
          omega (arith, length-append file b, lb, l) in
        let later =
          write_nodes_lem (suc i) n (file ++ b) (total + disk_record_size) longer
            (others i n has) in
        let sum : total + disk_record_size + n * disk_record_size
            ≡ total + suc n * disk_record_size =
          omega arith in
        rw
          (
            e,
            write_nodes,
            w,
            records_step i n b e,
            ← append_assoc file b (records x (suc i) n),
            ← sum,
          )
          later

    pub write_index_lem :
        (old : Bytes)
        → HasNodes 0 x.num_vectors
        → (file : Bytes) × (write_index pwrite true true x old
            ≡ some (x.num_vectors * disk_record_size, file))
          × (length file ≡ x.num_vectors * disk_record_size)
          × Stores file
    unfolding write_index
    write_index_lem old has = (
      records x 0 x.num_vectors,
      write_nodes_lem 0 x.num_vectors [] 0 (omega arith) has
          ∙ ap (λ t. some (t, records x 0 x.num_vectors)) (omega arith),
      length-records 0 x.num_vectors has,
      λ k h rest.
          let (b, e, l, r) = pack_node_lem x k (has k (omega arith) (omega (arith, h))) in
          let same : b ≡ record_at (records x 0 x.num_vectors) k =
            some_injective (sym e ∙ placed k h) in
          subst (λ c. parse_record x.max_degree (c ++ rest) ≡ some (stored x k)) same (r rest),
    )
      where
        placed :
            (k : ℕ)
            → k < x.num_vectors
            → pack_node x k ≡ some (record_at (records x 0 x.num_vectors) k)
        placed k h =
            subst (λ j. pack_node x j ≡ some (record_at (records x 0 x.num_vectors) k))
              (omega arith) (record_at-records 0 x.num_vectors k has h)

        some_injective : {a b : Bytes} → some a ≡ some b → a ≡ b
        some_injective e = cc

    -- The system's `pwrite` at the end of a file reports the whole record written and appends it.
    -- Then, if the index has fewer than 2 ^ 32 nodes and a vector for each of them, and a record
    -- has room for each node's data: where the file opens and there is memory for the buffer,
    -- write_index reports one record's bytes for each node, leaves a file of that many bytes, and
    -- the bytes at each node's offset parse, whatever follows them, to the node's data. Without
    -- the memory it reports nothing written and leaves an empty file, and where the file does not
    -- open it reports nothing written and leaves it as it was.
    pub write_index-Stores :
        (old : Bytes)
        → x.num_vectors < 2 ^ 32
        → HasNodes 0 x.num_vectors
        → ((file : Bytes) × (write_index pwrite true true x old
              ≡ some (x.num_vectors * disk_record_size, file))
            × (length file ≡ x.num_vectors * disk_record_size)
            × Stores file)
          × (write_index pwrite true false x old ≡ some (0, []))
          × ((allocated : Bool) → write_index pwrite false allocated x old ≡ some (0, old))
    unfolding write_index
    write_index-Stores old small has = (write_index_lem old has, refl, λ allocated. refl)
