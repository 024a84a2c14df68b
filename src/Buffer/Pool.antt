-- ===== src/Buffer/Pool.antt =====
-- `BufferPoolManager` of src/buffer/buffer_pool.cpp. Each method is one step: it holds the pool's
-- lock from its first read to its last write, except `get_or_load_page` and `put_page_data`, whose
-- two critical sections are two functions here.
-- A pointer to a page is modelled by the bytes that it points at, and `nullptr` by `none`.
pub mod Valid
pub mod Steps
pub mod Evict
pub mod Methods
pub mod Cache
pub mod Pins
pub mod Progress
use agent_mem_io.Prelude.{
  ℕ, zero, suc, ◌+◌, ◌-◌, ◌%◌, ◌^◌, min, Bool, true, false, not, ◌&&◌, Option, none, some, List, [],
  ◌∷◌, ◌++◌, length, take, drop, ltb, ◌==◌, if◌then◌else◌, Map, lookup, insert, erase,
}
use agent_mem_io.Buffer.Policy
use agent_mem_io.Buffer.Policy.{Policy, invalid_page_id, get_eviction_candidate}

abbrev pub Bytes : Type 0
Bytes = List ℕ

abbrev pub invalid_node_id : ℕ
invalid_node_id = 2 ^ 32 - 1

pub record Frame : Type 0 where
  pub page_id : ℕ
  pub node_id : ℕ
  pub bytes : Option Bytes
  pub is_valid : Bool
  pub is_dirty : Bool
  pub is_pinned : Bool
  pub pin_count : ℕ
  pub access_count : ℕ
  pub last_access_time : ℕ
  pub in_degree : ℕ

abbrev pub new_frame : Frame
new_frame = record {
  page_id = invalid_page_id;
  node_id = invalid_node_id;
  bytes = none;
  is_valid = false;
  is_dirty = false;
  is_pinned = false;
  pin_count = 0;
  access_count = 0;
  last_access_time = 0;
  in_degree = 0;
}

-- `free_frames` has the back of the list first: the code works at the back alone.
pub record Pool : Type 0 where
  pub max_pages : ℕ
  pub page_size : ℕ
  pub frames : ℕ → Frame
  pub page_table : Map ℕ
  pub free_frames : List ℕ
  pub policy : Policy
  pub hits : ℕ
  pub misses : ℕ

abbrev pub bump64 : ℕ → ℕ
bump64 n = (n + 1) % 2 ^ 64

abbrev pub bump32 : ℕ → ℕ
bump32 n = (n + 1) % 2 ^ 32

-- `i, i + 1, ..., i + n - 1`
abbrev pub frames_from : ℕ → ℕ → List ℕ
frames_from i zero = []
frames_from i (suc n) = i ∷ frames_from (suc i) n

unfoldable pub init : ℕ → ℕ → ℕ → Pool
init max_pages page_size hot_max = record {
  max_pages = max_pages;
  page_size = page_size;
  frames = λ i. new_frame;
  page_table = [];
  free_frames = frames_from 0 max_pages;
  policy = Policy.init hot_max;
  hits = 0;
  misses = 0;
}

-- `frames_[i] = f`
abbrev pub put_frame : ℕ → Frame → Pool → Pool
put_frame i f s = record s { frames = λ j. if j == i then f else s.frames j }

abbrev pub count_hit : Pool → Pool
count_hit s = record s { hits = bump64 s.hits }

abbrev pub count_miss : Pool → Pool
count_miss s = record s { misses = bump64 s.misses }

-- What a hit writes: the statistics of the frame, and the policy's queues.
unfoldable pub touch : ℕ → ℕ → ℕ → Pool → Pool
touch now page i s =
    let f = s.frames i in
    record (put_frame i (record f { access_count = bump64 f.access_count; last_access_time = now })
      s) { policy = Policy.on_access page f.in_degree s.policy }

abbrev pub pinned : Frame → Frame
pinned f = record f { is_pinned = true; pin_count = bump32 f.pin_count }

abbrev pub unpinned : Frame → Frame
unpinned f =
    let n = if ltb 0 f.pin_count then f.pin_count - 1 else f.pin_count in
    record f { pin_count = n; is_pinned = if n == 0 then false else f.is_pinned }

unfoldable pub get_page : ℕ → ℕ → Pool → Option Bytes × Pool
get_page now page s = elim (lookup page s.page_table) [
  | none ↦ (none, s)
  | some i ↦ ((s.frames i).bytes, count_hit (touch now page i s))
]

unfoldable pub find_free_frame : Pool → Option ℕ × Pool
find_free_frame s = elim s.free_frames [
  | [] ↦ (none, s)
  | i ∷ fs ↦ (some i, record s { free_frames = fs })
]

-- The reset of an evicted frame, and its return to the free list.
unfoldable pub release : ℕ → ℕ → Pool → Pool
release victim i s =
    record (put_frame i
      (record (s.frames i) {
        page_id = invalid_page_id;
        node_id = invalid_node_id;
        is_valid = false;
        is_dirty = false;
      })
      s) { page_table = erase victim s.page_table; free_frames = i ∷ s.free_frames }

-- `evict_page` once the policy has named a victim and is in the state `r`.
unfoldable pub evict_victim : ℕ → Policy → Pool → Bool × Pool
evict_victim victim r s =
    let s' : Pool = record s { policy = r } in
    if victim == invalid_page_id then (false, s') else elim (lookup victim s.page_table) [
      | none ↦ (false, s')
      | some i ↦ if (s.frames i).is_pinned then (false, s') else (true, release victim i s')
    ]

-- `evict_page()`: every caller leaves `flush_func` empty, so a dirty page is not written back.
unfoldable pub evict_page : Pool → Bool × Pool
evict_page s = let (victim, r) = get_eviction_candidate s.policy in evict_victim victim r s

-- A free frame, at the price of an eviction if need be.
unfoldable pub claim_frame : Pool → Option ℕ × Pool
claim_frame s = elim s.free_frames [
  | i ∷ fs ↦ find_free_frame s
  | [] ↦ let (done, s') = evict_page s in if done then find_free_frame s' else (none, s')
]

-- What is in the frame's buffer; a new buffer holds whatever the allocator left in it.
abbrev pub buffer_of : Bytes → Frame → Bytes
buffer_of fresh f = elim f.bytes [ none ↦ fresh | some b ↦ b ]

-- The frame is filled and entered into the page table and the policy. `pin` tells whether the
-- caller pins the page.
unfoldable pub install : ℕ → ℕ → ℕ → ℕ → Bytes → Bool → Pool → Pool
install now node page i b pin s =
    let f = s.frames i in
    let f' : Frame = record f {
      page_id = page;
      node_id = node;
      bytes = some b;
      is_valid = true;
      is_dirty = false;
      access_count = 1;
      last_access_time = now;
      is_pinned = if pin then true else f.is_pinned;
      pin_count = if pin then 1 else f.pin_count;
    } in
    count_miss (record (put_frame i f' s) {
      page_table = insert page i s.page_table;
      policy = Policy.on_add page f.in_degree s.policy;
    })

-- The part of a miss that `get_or_load_page`, `put_page_data` and `get_or_load_and_pin_page`
-- share. `fill` is what the caller does to the buffer.
unfoldable pub load_into_frame :
    ℕ → ℕ → ℕ → Bytes → (Bytes → Bytes) → Bool → Pool → Option Bytes × Pool
load_into_frame now node page fresh fill pin s =
    let (claimed, s') = claim_frame s in
    elim claimed [
      | none ↦ (none, count_miss s')
      | some i ↦
          let b = fill (buffer_of fresh (s'.frames i)) in (some b, install now node page i b pin s')
    ]

-- `get_or_load_page` from the second lock on: another thread may have loaded the page meanwhile.
unfoldable pub load_locked : ℕ → ℕ → ℕ → Bytes → (Bytes → ℕ → Bytes) → Pool → Option Bytes × Pool
load_locked now node page fresh load s = elim (lookup page s.page_table) [
  | some i ↦ ((s.frames i).bytes, count_miss s)
  | none ↦ load_into_frame now node page fresh (λ b. load b page) false s
]

unfoldable pub get_or_load_page :
    ℕ → ℕ → ℕ → Bytes → (Bytes → ℕ → Bytes) → Pool → Option Bytes × Pool
get_or_load_page now node page fresh load s =
    let (found, s') = get_page now page s in
    elim found [ some b ↦ (some b, s') | none ↦ load_locked now node page fresh load s' ]
