-- ===== src/Buffer/Pool/Methods.antt =====
-- The other methods of `BufferPoolManager`.
use agent_mem_io.Prelude.{
  ℕ, ◌+◌, ◌*◌, min, Bool, true, false, ◌&&◌, Option, none, some, List, [], ◌∷◌, ◌++◌, length, take,
  drop, ltb, if◌then◌else◌, lookup, is_some,
}
use agent_mem_io.Buffer.Policy
use agent_mem_io.Buffer.Pool.{
  Bytes, Frame, Pool, invalid_node_id, frames_from, put_frame, count_hit, touch, pinned, unpinned,
  load_into_frame, get_or_load_page,
}

unfoldable pub contains : ℕ → Pool → Bool
contains page s = is_some (lookup page s.page_table)

unfoldable pub size : Pool → ℕ
size s = length s.page_table

unfoldable pub get_memory_usage : Pool → ℕ
unfolding size
get_memory_usage s = size s * s.page_size

-- `memcpy(buffer, data, min(data_size, page_size))`
abbrev pub copy_page : ℕ → Bytes → ℕ → Bytes → Bytes
copy_page page_size source data_size b =
    let n = min data_size page_size in take n source ++ drop n b

-- `put_page_data`: the look-up is made once under the shared lock, and again under the other.
unfoldable pub put_locked : ℕ → ℕ → ℕ → Bytes → Bytes → ℕ → Pool → Option Bytes × Pool
put_locked now node page fresh source data_size s = elim (lookup page s.page_table) [
  | some i ↦ ((s.frames i).bytes, count_hit s)
  | none ↦ load_into_frame now node page fresh (copy_page s.page_size source data_size) false s
]

unfoldable pub put_page_data : ℕ → ℕ → ℕ → Bytes → Bytes → ℕ → Pool → Option Bytes × Pool
put_page_data now node page fresh source data_size s = elim (lookup page s.page_table) [
  | some i ↦ ((s.frames i).bytes, count_hit s)
  | none ↦ put_locked now node page fresh source data_size s
]

unfoldable pub pin_page : ℕ → Pool → Bool × Pool
pin_page page s = elim (lookup page s.page_table) [
  | none ↦ (false, s)
  | some i ↦ (true, put_frame i (pinned (s.frames i)) s)
]

unfoldable pub unpin_page : ℕ → Pool → Bool × Pool
unpin_page page s = elim (lookup page s.page_table) [
  | none ↦ (false, s)
  | some i ↦ (true, put_frame i (unpinned (s.frames i)) s)
]

-- The loop makes the changes of `unpin_page` under one lock.
unfoldable pub unpin_all_pages : List ℕ → Pool → Pool
unpin_all_pages [] s = s
unpin_all_pages (page ∷ pages) s = elim (lookup page s.page_table) [
  | none ↦ unpin_all_pages pages s
  | some i ↦ unpin_all_pages pages (put_frame i (unpinned (s.frames i)) s)
]

unfoldable pub get_and_pin_page : ℕ → ℕ → Pool → Option Bytes × Pool
get_and_pin_page now page s = elim (lookup page s.page_table) [
  | none ↦ (none, s)
  | some i ↦
      let s' = touch now page i s in
      ((s.frames i).bytes, count_hit (put_frame i (pinned (s'.frames i)) s'))
]

unfoldable pub get_or_load_and_pin_page :
    ℕ → ℕ → ℕ → Bytes → (Bytes → ℕ → Bytes) → Pool → Option Bytes × Pool
get_or_load_and_pin_page now node page fresh load s = elim (lookup page s.page_table) [
  | some i ↦
      let s' = touch now page i s in
      ((s.frames i).bytes, count_hit (put_frame i (pinned (s'.frames i)) s'))
  | none ↦ load_into_frame now node page fresh (λ b. load b page) true s
]

unfoldable pub mark_dirty : ℕ → Pool → Pool
mark_dirty page s = elim (lookup page s.page_table) [
  | none ↦ s
  | some i ↦ put_frame i (record (s.frames i) { is_dirty = true }) s
]

-- What `flush_dirty_pages` does: the pages that it hands to `flush_func`, in order, their number,
-- and the frames that it marks clean.
pub record Flush : Type 0 where
  pub written : List (ℕ × Option Bytes)
  pub count : ℕ
  pub pool : Pool

unfoldable pub flush_frame : ℕ → Flush → Flush
flush_frame i r =
    let f = r.pool.frames i in
    if f.is_valid && f.is_dirty
    then record {
      written = r.written ++ (f.page_id, f.bytes) ∷ [];
      count = r.count + 1;
      pool = put_frame i (record f { is_dirty = false }) r.pool;
    }
    else r

unfoldable pub flush_frames : List ℕ → Flush → Flush
flush_frames [] r = r
flush_frames (i ∷ is) r = flush_frames is (flush_frame i r)

-- Without a `flush_func` nothing is written.
unfoldable pub flush_dirty_pages : Bool → Pool → Flush
flush_dirty_pages given s =
    let start : Flush = record { written = []; count = 0; pool = s } in
    if given then flush_frames (frames_from 0 s.max_pages) start else start

-- `calculate_page_id` maps a node to the page of the same number.
unfoldable pub update_in_degree : ℕ → ℕ → Pool → Pool
update_in_degree node d s = elim (lookup node s.page_table) [
  | none ↦ s
  | some i ↦ record (put_frame i (record (s.frames i) { in_degree = d }) s) {
    policy = Policy.update_in_degree node d s.policy;
  }
]

-- The times at which the pages are loaded are those of a clock; here they are one time.
unfoldable pub prefetch_pages : ℕ → Bytes → (Bytes → ℕ → Bytes) → List ℕ → Pool → Pool
prefetch_pages now fresh load [] s = s
prefetch_pages now fresh load (page ∷ pages) s =
    prefetch_pages now fresh load pages
      (if contains page s then s else (get_or_load_page now invalid_node_id page fresh load s).1)

abbrev pub cleared : Frame → Frame
cleared f = record f { is_valid = false; is_dirty = false; pin_count = 0; is_pinned = false }

unfoldable pub reset_stats : Pool → Pool
reset_stats s = record s { hits = 0; misses = 0 }

unfoldable pub clear : Pool → Pool
clear s = reset_stats (record s {
  page_table = [];
  frames = λ i. if ltb i s.max_pages then cleared (s.frames i) else s.frames i;
  free_frames = frames_from 0 s.max_pages;
  policy = Policy.clear s.policy;
})
