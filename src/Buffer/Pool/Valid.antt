-- ===== src/Buffer/Pool/Valid.antt =====
-- The invariant of the buffer pool: frames are either in the page table or free, each cached page
-- stands in a frame of its own that carries its label and acceptable bytes, and the policy knows
-- only cached pages.
use agent_mem_io.Prelude.{
  ℕ, ◌+◌, ◌<◌, ◌≤◌, ◌≡◌, true, false, none, some, List, All, Distinct, member, length, lookup, keys,
  is_some,
}
use agent_mem_io.Buffer.Policy.{invalid_page_id, uint32_max}
use agent_mem_io.Buffer.Policy.Tracking.{IsConsistent, tracks, Fits}
use agent_mem_io.Buffer.Pool.{Bytes, Pool}

-- `Ok p b` says that the bytes `b` are acceptable for the page `p`.
module _ (Ok : ℕ → Bytes → Type 0) where
  pub record IsEntry (s : Pool) (fs : List ℕ) (p i : ℕ) : Type 0 where
    pub in_range : i < s.max_pages
    pub label : (s.frames i).page_id ≡ p
    pub loaded : (b : Bytes) × ((s.frames i).bytes ≡ some b) × Ok p b
    pub valid : (s.frames i).is_valid ≡ true
    pub apart : member i fs ≡ false

  -- `fs` are the frames that hold no page: the free list, and a frame that a method has claimed.
  pub record IsSound (fs : List ℕ) (s : Pool) : Type 0 where
    pub entry : (p i : ℕ) → lookup p s.page_table ≡ some i → IsEntry s fs p i
    pub free_range : All (λ i. i < s.max_pages) fs
    pub free_distinct : Distinct fs
    pub keys_distinct : Distinct (keys s.page_table)
    pub count : length s.page_table + length fs ≡ s.max_pages
    pub policy : IsConsistent s.policy
    pub fits : Fits s.policy
    pub small : s.policy.hub_threshold ≤ uint32_max
    pub cached : (p : ℕ) → tracks p s.policy ≡ true → is_some (lookup p s.page_table) ≡ true
    pub named : lookup invalid_page_id s.page_table ≡ none

  abbrev pub IsValid : Pool → Type 0
  IsValid s = IsSound s.free_frames s
