-- ===== src/Buffer/Pool/Evict.antt =====
-- Eviction: what `evict_page` and the claim of a frame do to the pool.
use agent_mem_io.Prelude.{
  ℕ, ◌≤◌, ◌≡◌, ◌⊎◌, refl, sym, ap, ◌∙◌, subst, Bool, true, false, Option, none, some, List, [], ◌∷◌,
  arith, ◌==◌, lookup, lookup-erase, inl, inr, Option-cases, Bool-cases,
}
use agent_mem_io.Buffer.Policy.{Policy, invalid_page_id, uint32_max}
use agent_mem_io.Buffer.Policy.Tracking.{IsConsistent, Fits, tracks}
use agent_mem_io.Buffer.Policy.Candidate.{GivesUp, get_eviction_candidate-GivesUp}
use agent_mem_io.Buffer.Pool.{
  Bytes, Pool, release, evict_page, evict_victim, find_free_frame, claim_frame,
}
use agent_mem_io.Buffer.Pool.Valid.{IsSound, IsValid}
use agent_mem_io.Buffer.Pool.Steps.{policy-IsSound, free_frames-IsSound, release-IsSound}

-- A pinned page keeps its frame and its bytes, and stays pinned.
abbrev pub KeepsPinned : Pool → Pool → Type 0
KeepsPinned s s' =
    (p i : ℕ)
    → lookup p s.page_table ≡ some i
    → (s.frames i).is_pinned ≡ true
    → (lookup p s'.page_table ≡ some i)
      × ((s'.frames i).bytes ≡ (s.frames i).bytes)
      × ((s'.frames i).is_pinned ≡ true)

-- No page is cached that was not.
abbrev pub NoNewPage : Pool → Pool → Type 0
NoNewPage s s' = (p : ℕ) → lookup p s.page_table ≡ none → lookup p s'.page_table ≡ none

list_cases : (fs : List ℕ) → (fs ≡ []) ⊎ ((i : ℕ) × (gs : List ℕ) × (fs ≡ i ∷ gs))
list_cases [] = inl refl
list_cases (i ∷ fs) = inr (i, fs, refl)

some_lem : (i j : ℕ) → some i ≡ some j → i ≡ j
some_lem i j h = cc

module _ (s : Pool) where
  claim_done :
      s.free_frames ≡ []
      → (evict_page s).0 ≡ true
      → claim_frame s ≡ find_free_frame (evict_page s).1
  unfolding claim_frame
  claim_done e d = ground (arith, e, d)

  claim_failed :
      s.free_frames ≡ [] → (evict_page s).0 ≡ false → claim_frame s ≡ (none, (evict_page s).1)
  unfolding claim_frame
  claim_failed e d = ground (arith, e, d)

  claim_at_once : (i : ℕ) (fs : List ℕ) → s.free_frames ≡ i ∷ fs → claim_frame s ≡ find_free_frame s
  unfolding claim_frame
  claim_at_once i fs e = ground (arith, e)

module _ (Ok : ℕ → Bytes → Type 0) where
  pub record Evicts (s : Pool) (done : Bool) (s' : Pool) : Type 0 where
    pub valid : IsValid Ok s'
    pub none_new : NoNewPage s s'
    pub pinned : KeepsPinned s s'
    pub freed : (done ≡ true → (i : ℕ) × (s'.free_frames ≡ i ∷ s.free_frames))
    pub stuck : done ≡ false → s'.free_frames ≡ s.free_frames

  module _ (victim : ℕ) (r : Policy) (s : Pool) (v : IsValid Ok s) where
    quiet :
        IsConsistent r
        → Fits r
        → r.hub_threshold ≤ uint32_max
        → ((p : ℕ) → tracks p r ≡ true → tracks p s.policy ≡ true)
        → Evicts s false (record s { policy = r })
    quiet c f h t = record {
      valid = policy-IsSound Ok s.free_frames s r c f h t v;
      none_new = λ p h. h;
      pinned = λ p i e h. (e, refl, h);
      freed = λ h. cc;
      stuck = λ h. refl;
    }

    module _ (g : GivesUp s.policy victim r) where
      evicted :
          (i : ℕ)
          → lookup victim s.page_table ≡ some i
          → (s.frames i).is_pinned ≡ false
          → Evicts s true (release victim i (record s { policy = r }))
      unfolding release
      evicted i e free = record {
        valid = release-IsSound Ok s.free_frames s v victim i r g e;
        none_new = λ p h. ground (arith, lookup-erase victim p s.page_table);
        pinned = λ p j f h.
            let other : (j == i) ≡ false = pinned_other i j free h in
            (ground (arith, lookup-erase victim p s.page_table), rw other refl, rw other h);
        freed = λ h. (i, refl);
        stuck = λ h. cc;
      }
        where
          pinned_other :
              (i j : ℕ)
              → (s.frames i).is_pinned ≡ false
              → (s.frames j).is_pinned ≡ true
              → (j == i) ≡ false
          pinned_other i j f h = elim (Bool-cases (j == i)) [
            | inl same ↦
                let k : j ≡ i = ground arith in
                absurd (ground (arith, sym h ∙ ap (λ n. (s.frames n).is_pinned) k ∙ f))
            | inr other ↦ other
          ]

      evict_victim-Evicts : Evicts s (evict_victim victim r s).0 (evict_victim victim r s).1
      unfolding evict_victim
      evict_victim-Evicts =
          let still =
            quiet g.consistent (g.fits v.fits) (rw g.hub v.small)
              (λ x k. ground (arith, g.rest x)) in
          elim (Bool-cases (victim == invalid_page_id)) [
            | inl bad ↦ rw bad still
            | inr good ↦ elim (Option-cases (lookup victim s.page_table)) [
              | inl miss ↦ rw (good, miss, evict_victim) still
              | inr (i, e) ↦ elim (Bool-cases (s.frames i).is_pinned) [
                | inl held ↦ rw (good, e, evict_victim, held) still
                | inr free ↦ rw (good, e, evict_victim, free) (evicted i e free)
              ]
            ]
          ]

  -- On a valid pool evict_page leaves a valid pool that caches no page anew and keeps every pinned
  -- page in its frame; when it reports success the free list has exactly one frame more, and when
  -- it reports failure the free list is the same.
  pub evict_page-Evicts : (s : Pool) → IsValid Ok s → Evicts s (evict_page s).0 (evict_page s).1
  unfolding evict_page evict_victim
  evict_page-Evicts s v =
      elim (get_eviction_candidate-GivesUp s.policy v.policy
        (ground (arith, v.named, v.cached invalid_page_id)) v.small) [
          | inl g ↦ evict_victim-Evicts _ _ s v g
          | inr e ↦
              rw (e, evict_page)
                (quiet invalid_page_id s.policy s v v.policy v.fits v.small (λ p h. h))
        ]

  pub record Claims (s : Pool) (claimed : Option ℕ) (s' : Pool) : Type 0 where
    pub ready : (i : ℕ) → claimed ≡ some i → IsSound Ok (i ∷ s'.free_frames) s'
    pub refused : claimed ≡ none → IsValid Ok s'
    pub none_new : NoNewPage s s'
    pub pinned : KeepsPinned s s'

  find_free_frame_lem :
      (s : Pool) (i : ℕ) (fs : List ℕ)
      → s.free_frames ≡ i ∷ fs
      → find_free_frame s ≡ (some i, record s { free_frames = fs })
  unfolding find_free_frame
  find_free_frame_lem s i fs e = ground (arith, e)

  claim_free :
      (s r : Pool) (i : ℕ) (fs : List ℕ)
      → IsValid Ok r
      → NoNewPage s r
      → KeepsPinned s r
      → r.free_frames ≡ i ∷ fs
      → Claims s (find_free_frame r).0 (find_free_frame r).1
  claim_free s r i fs v n k e =
      subst (λ (t : Option ℕ × Pool). Claims s t.0 t.1) (sym (find_free_frame_lem r i fs e))
        (record {
          ready = λ j f. free_frames-IsSound Ok (j ∷ fs) fs r (
              subst (λ (l : List ℕ). IsSound Ok l r) (e ∙ ap (λ (n : ℕ). n ∷ fs) (some_lem i j f))
                v);
          refused = λ h. cc;
          none_new = n;
          pinned = k;
        })

  -- A claimed frame is off the free list and in no page's use.
  pub claim_frame-Claims : (s : Pool) → IsValid Ok s → Claims s (claim_frame s).0 (claim_frame s).1
  unfolding claim_frame
  claim_frame-Claims s v = elim (list_cases s.free_frames) [
    | inl bare ↦
        let x = evict_page-Evicts s v in
        elim (Bool-cases (evict_page s).0) [
          | inl done ↦
              let (i, e) = x.freed done in
              subst (λ (t : Option ℕ × Pool). Claims s t.0 t.1) (sym (claim_done s bare done))
                (claim_free s (evict_page s).1 i s.free_frames x.valid x.none_new x.pinned e)
          | inr failed ↦
              subst (λ (t : Option ℕ × Pool). Claims s t.0 t.1) (sym (claim_failed s bare failed))
                (record {
                  ready = λ j f. cc;
                  refused = λ h. x.valid;
                  none_new = x.none_new;
                  pinned = x.pinned;
                })
        ]
    | inr (i, fs, e) ↦
        subst (λ (t : Option ℕ × Pool). Claims s t.0 t.1) (sym (claim_at_once s i fs e))
          (claim_free s s i fs v (λ p h. h) (λ p j f h. (f, refl, h)) e)
  ]
