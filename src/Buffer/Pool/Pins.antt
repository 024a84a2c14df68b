-- ===== src/Buffer/Pool/Pins.antt =====
-- Pins, dirty marks, the flush, and the reset of the pool.
use agent_mem_io.Prelude.{
  ℕ, zero, suc, ◌+◌, ◌%◌, ◌^◌, ◌<◌, ◌≤◌, ◌≡◌, refl, ap, ◌∙◌, true, false, none, some, [], arith,
  ◌==◌, ltb, lookup, inl, inr, Bool-cases, length, member, All, Distinct,
}
use agent_mem_io.Buffer.Policy.{invalid_page_id, uint32_max, get_eviction_candidate}
use agent_mem_io.Buffer.Policy.Tracking.{tracks, clear-IsConsistent, init-IsConsistent}
use agent_mem_io.Buffer.Policy.Candidate.{
  GivesUp, get_eviction_candidate-GivesUp, get_eviction_candidate_blocked,
}
use agent_mem_io.Buffer.Policy
use agent_mem_io.Buffer.Pool.{
  Bytes, Frame, Pool, init, frames_from, pinned, unpinned, put_frame, evict_page, evict_victim,
  claim_frame, load_into_frame, load_locked, get_page, get_or_load_page, count_miss,
}
use agent_mem_io.Buffer.Pool.Methods.{pin_page, unpin_page, clear, reset_stats, size}
use agent_mem_io.Buffer.Pool.Valid.{IsValid}

-- A valid pool never holds more pages than it has frames.
pub size-le-max_pages : (Ok : ℕ → Bytes → Type 0) (s : Pool) → IsValid Ok s → size s ≤ s.max_pages
unfolding size
size-le-max_pages Ok s v = omega (arith, v.count)

unpinned-pinned :
    (f : Frame)
    → f.pin_count < uint32_max
    → f.is_pinned ≡ ltb 0 f.pin_count
    → unpinned (pinned f) ≡ f
unpinned-pinned f small agree = ground (arith, count-back f.pin_count small)
  where
    count-back : (n : ℕ) → n < uint32_max → (n + 1) % 2 ^ 32 ≡ n + 1
    count-back n h = omega arith

test_self : (n : ℕ) → (n == n) ≡ true
test_self n = ground arith

module _ (page i : ℕ) (s : Pool) (e : lookup page s.page_table ≡ some i) where
  pin_page_lem : pin_page page s ≡ (true, put_frame i (pinned (s.frames i)) s)
  unfolding pin_page
  pin_page_lem = rw (e, pin_page) refl

  unpin_page_lem : unpin_page page s ≡ (true, put_frame i (unpinned (s.frames i)) s)
  unfolding unpin_page
  unpin_page_lem = rw (e, unpin_page) refl

module _ (page : ℕ) (s : Pool) where
  restored :
      (i : ℕ)
      → (s.frames i).pin_count < uint32_max
      → (s.frames i).is_pinned ≡ ltb 0 (s.frames i).pin_count
      → (j : ℕ)
      → let t = put_frame i (pinned (s.frames i)) s in
        (put_frame i (unpinned (t.frames i)) t).frames j ≡ s.frames j
  restored i small agree j =
      let t = put_frame i (pinned (s.frames i)) s in
      let at : t.frames i ≡ pinned (s.frames i) = rw (test_self i) refl in
      let back : unpinned (t.frames i) ≡ s.frames i =
        ap unpinned at ∙ unpinned-pinned (s.frames i) small agree in
      elim (Bool-cases (j == i)) [
        | inl same ↦ let k : i ≡ j = ground arith in rw same (back ∙ ap s.frames k)
        | inr other ↦ rw other refl
      ]

  -- For a cached page whose pin count is below the greatest 32-bit number and whose pin flag
  -- agrees with its count, pinning and then unpinning leaves every frame as it was.
  pub unpin_page-pin_page :
      (i : ℕ)
      → lookup page s.page_table ≡ some i
      → (s.frames i).pin_count < uint32_max
      → (s.frames i).is_pinned ≡ ltb 0 (s.frames i).pin_count
      → (j : ℕ) → (unpin_page page (pin_page page s).1).1.frames j ≡ s.frames j
  unpin_page-pin_page i e small agree j =
      rw (pin_page_lem page i s e, unpin_page_lem page i (put_frame i (pinned (s.frames i)) s) e)
        (restored i small agree j)

frames_from-range : (i n m : ℕ) → i + n ≤ m → All (λ j. j < m) (frames_from i n)
frames_from-range i zero m h = tt
frames_from-range i (suc n) m h = (omega arith, frames_from-range (suc i) n m (omega arith))

frames_from-above : (i n j : ℕ) → j < i → member j (frames_from i n) ≡ false
frames_from-above i zero j h = refl
frames_from-above i (suc n) j h = ground (arith, frames_from-above (suc i) n j)

frames_from-Distinct : (i n : ℕ) → Distinct (frames_from i n)
frames_from-Distinct i zero = tt
frames_from-Distinct i (suc n) =
    (frames_from-above (suc i) n i (omega arith), frames_from-Distinct (suc i) n)

length-frames_from : (i n : ℕ) → length (frames_from i n) ≡ n
length-frames_from i zero = refl
length-frames_from i (suc n) = ap suc (length-frames_from (suc i) n)

module _ (Ok : ℕ → Bytes → Type 0) where
  -- A new pool is valid, for every number of frames, page size and capacity of the hot queue.
  pub init-IsValid : (n page_size hot_max : ℕ) → IsValid Ok (init n page_size hot_max)
  unfolding init
  init-IsValid n page_size hot_max = record {
    entry = λ p i e. absurd (cc);
    free_range = frames_from-range 0 n n (omega arith);
    free_distinct = frames_from-Distinct 0 n;
    keys_distinct = tt;
    count = omega (arith, length-frames_from 0 n);
    policy = init-IsConsistent hot_max;
    fits = omega arith;
    small = omega arith;
    cached = λ p h. cc;
    named = refl;
  }

  -- If the hub threshold fits in 32 bits, clear leaves a valid pool without pages, whatever the
  -- pool was before.
  pub clear-IsValid :
      (s : Pool) → s.policy.hub_threshold ≤ uint32_max → IsValid Ok (clear s) × (size (clear s) ≡ 0)
  unfolding clear reset_stats size
  clear-IsValid s h = (
    record {
      entry = λ p i e. absurd (cc);
      free_range = frames_from-range 0 s.max_pages s.max_pages (omega arith);
      free_distinct = frames_from-Distinct 0 s.max_pages;
      keys_distinct = tt;
      count = omega (arith, length-frames_from 0 s.max_pages);
      policy = clear-IsConsistent s.policy;
      fits = unfold Policy.clear in omega arith;
      small = unfold Policy.clear in h;
      cached = λ p h. unfold Policy.clear in cc h;
      named = refl;
    },
    refl,
  )

-- With a hot queue of no capacity, as three frames at the default ratio have, a full pool refuses
-- every page that it does not hold.
module _ (Ok : ℕ → Bytes → Type 0) (s : Pool) (v : IsValid Ok s) where
  evict_page_blocked : s.policy.hot_max ≡ 0 → evict_page s ≡ (false, s)
  unfolding evict_page evict_victim
  evict_page_blocked h = rw (get_eviction_candidate_blocked s.policy v.fits h) refl

  -- On a valid pool whose hot queue has no capacity and that has no free frame, get_or_load_page
  -- of a page that is not cached hands out nothing and only counts a miss.
  pub get_or_load_page_blocked :
      (now node page : ℕ) (fresh : Bytes) (load : Bytes → ℕ → Bytes)
      → s.policy.hot_max ≡ 0
      → s.free_frames ≡ []
      → lookup page s.page_table ≡ none
      → get_or_load_page now node page fresh load s ≡ (none, count_miss s)
  unfolding get_or_load_page get_page load_locked load_into_frame claim_frame
  get_or_load_page_blocked now node page fresh load h full miss =
      ground (arith, evict_page_blocked h, miss, full)

  evict_victim_pinned :
      (victim i : ℕ) (r : Policy.Policy)
      → GivesUp s.policy victim r
      → lookup victim s.page_table ≡ some i
      → (s.frames i).is_pinned ≡ true
      → ((evict_victim victim r s).0 ≡ false)
        × (lookup victim (evict_victim victim r s).1.page_table ≡ some i)
        × (tracks victim (evict_victim victim r s).1.policy ≡ false)
  unfolding evict_victim
  evict_victim_pinned victim i r g e held =
      let gone : tracks victim r ≡ false = ground (arith, g.rest victim) in
      elim (Bool-cases (victim == invalid_page_id)) [
        | inl bad ↦ rw bad (refl, e, gone)
        | inr good ↦ rw (good, e, evict_victim, held) (refl, e, gone)
      ]

  -- On a valid pool whose next victim is cached in a pinned frame, evict_page fails, the victim
  -- stays cached in its frame, and the policy tracks it no more.
  pub evict_page_pinned :
      (i : ℕ)
      → lookup (get_eviction_candidate s.policy).0 s.page_table ≡ some i
      → (s.frames i).is_pinned ≡ true
      → ((evict_page s).0 ≡ false)
        × (lookup (get_eviction_candidate s.policy).0 (evict_page s).1.page_table ≡ some i)
        × (tracks (get_eviction_candidate s.policy).0 (evict_page s).1.policy ≡ false)
  unfolding evict_page
  evict_page_pinned i e held =
      elim (get_eviction_candidate-GivesUp s.policy v.policy
        (ground (arith, v.named, v.cached invalid_page_id)) v.small) [
          | inl g ↦ evict_victim_pinned _ i _ g e held
          | inr nothing ↦ absurd (
              ground (
                arith,
                v.named,
                e,
                ap (λ (t : ℕ × Policy.Policy). lookup t.0 s.page_table) nothing,
              ))
        ]
