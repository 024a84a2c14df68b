-- ===== src/Buffer/Pool/Cache.antt =====
-- What a caller sees of the loading methods: the invariant holds, pinned pages stay, and a page that
-- is handed out has acceptable bytes.
use agent_mem_io.Prelude.{
  ℕ, ◌≡◌, ◌≢◌, ◌⊎◌, refl, sym, ◌∙◌, subst, Bool, true, false, Option, none, some, List, [], ◌∷◌,
  arith, ◌==◌, if◌then◌else◌, lookup, lookup-insert, inl, inr, Option-cases, member,
}
use agent_mem_io.Buffer.Policy.{invalid_page_id}
use agent_mem_io.Buffer.Pool.{
  Bytes, Pool, touch, install, claim_frame, load_into_frame, load_locked, get_page,
  get_or_load_page, put_frame, count_hit, pinned, invalid_node_id,
}
use agent_mem_io.Buffer.Pool.Methods.{
  put_locked, put_page_data, copy_page, get_or_load_and_pin_page, contains, prefetch_pages,
}
use agent_mem_io.Buffer.Pool.Valid.{IsSound, IsValid}
use agent_mem_io.Buffer.Pool.Steps.{
  touch-IsSound, install-IsSound, counters-IsSound, put_frame-IsSound, frame_field,
}
use agent_mem_io.Buffer.Pool.Evict.{KeepsPinned, claim_frame-Claims}

module _ (now node page : ℕ) (fresh : Bytes) (load : Bytes → ℕ → Bytes) (s : Pool) where
  get_or_load_page_miss :
      lookup page s.page_table ≡ none
      → get_or_load_page now node page fresh load s ≡ load_locked now node page fresh load s
  unfolding get_or_load_page get_page
  get_or_load_page_miss e = ground (arith, e)

  get_or_load_page_hit :
      (i : ℕ) (b : Bytes)
      → lookup page s.page_table ≡ some i
      → (s.frames i).bytes ≡ some b
      → get_or_load_page now node page fresh load s ≡ (some b, count_hit (touch now page i s))
  unfolding get_or_load_page get_page
  get_or_load_page_hit i b e h = ground (arith, e, h)

module _ (Ok : ℕ → Bytes → Type 0) where
  -- The outcome of a method that looks for a page: the pool is valid, the pinned pages are kept,
  -- and either there is no page or the page is cached now and its bytes are acceptable.
  pub record Serves (page : ℕ) (s : Pool) (found : Option Bytes) (s' : Pool) : Type 0 where
    pub valid : IsValid Ok s'
    pub pinned : KeepsPinned s s'
    pub answer :
        (found ≡ none)
        ⊎ ((b : Bytes) × (i : ℕ) × (found ≡ some b)
            × Ok page b
            × (lookup page s'.page_table ≡ some i)
            × ((s'.frames i).bytes ≡ some b))

  -- What a hit does to the frames of pinned pages.
  touch-KeepsPinned : (now page i : ℕ) (s : Pool) → KeepsPinned s (touch now page i s)
  unfolding touch
  touch-KeepsPinned now page i s p j e h =
      (e, frame_field s i _ (λ g. g.bytes) refl j, frame_field s i _ (λ g. g.is_pinned) refl j ∙ h)

  chain-KeepsPinned : (s t u : Pool) → KeepsPinned s t → KeepsPinned t u → KeepsPinned s u
  chain-KeepsPinned s t u k l p i e h =
      let (e', b, h') = k p i e h in let (e'', b', h'') = l p i e' h' in (e'', b' ∙ b, h'')

  pin-KeepsPinned : (s : Pool) (i : ℕ) → KeepsPinned s (put_frame i (pinned (s.frames i)) s)
  pin-KeepsPinned s i p j e h =
      (e, frame_field s i (pinned (s.frames i)) (λ g. g.bytes) refl j, ground arith)

  module _ (now page : ℕ) (s : Pool) (v : IsValid Ok s) where
    touch-Serves :
        (i : ℕ)
        → lookup page s.page_table ≡ some i
        → Serves page s (s.frames i).bytes (count_hit (touch now page i s))
    unfolding touch
    touch-Serves i e =
        let (b, at, ok) = (v.entry page i e).loaded in
        record {
          valid =
              counters-IsSound Ok s.free_frames _ _ s.misses
                (touch-IsSound Ok now page i s.free_frames s v);
          pinned = touch-KeepsPinned now page i s;
          answer = inr (b, i, at, ok, e, frame_field s i _ (λ g. g.bytes) refl i ∙ at);
        }

    pin_hit-Serves :
        (i : ℕ)
        → lookup page s.page_table ≡ some i
        → Serves page s
            (s.frames i).bytes
            (count_hit (put_frame i (pinned ((touch now page i s).frames i)) (touch now page i s)))
    unfolding touch
    pin_hit-Serves i e =
        let t = touch now page i s in
        let u = put_frame i (pinned (t.frames i)) t in
        let (b, at, ok) = (v.entry page i e).loaded in
        record {
          valid = counters-IsSound Ok s.free_frames u _ s.misses (
              put_frame-IsSound Ok s.free_frames t i (pinned (t.frames i)) refl refl refl
                (touch-IsSound Ok now page i s.free_frames s v));
          pinned = chain-KeepsPinned s t u (touch-KeepsPinned now page i s) (pin-KeepsPinned t i);
          answer = inr (
            b,
            i,
            at,
            ok,
            e,
            frame_field t i (pinned (t.frames i)) (λ g. g.bytes) refl i
                ∙ frame_field s i _ (λ g. g.bytes) refl i
                ∙ at,
          );
        }

  install-Serves :
      (now node page i : ℕ) (b : Bytes) (pin : Bool) (s : Pool)
      → IsSound Ok (i ∷ s.free_frames) s
      → lookup page s.page_table ≡ none
      → page ≢ invalid_page_id
      → Ok page b
      → Serves page s (some b) (install now node page i b pin s)
  install-Serves now node page i b pin s v new named ok = record {
    valid =
        unfold install in install-IsSound Ok s.free_frames i s v now node page b pin new named ok;
    pinned =
        unfold install in
        λ p j e h.
          let w = v.entry p j e in
          let moved : (j == i) ≡ false = ground (arith, w.apart) in
          (ground (arith, lookup-insert page p i s.page_table), rw moved refl, rw moved h);
    answer =
        unfold install in
        inr (
          b,
          i,
          refl,
          ok,
          ground (arith, lookup-insert page page i s.page_table),
          rw (same_test i) refl,
        );
  }
    where
      same_test : (n : ℕ) → (n == n) ≡ true
      same_test n = ground arith

  chain-Serves :
      (page : ℕ) (s t : Pool) (found : Option Bytes) (u : Pool)
      → KeepsPinned s t
      → Serves page t found u
      → Serves page s found u
  chain-Serves page s t found u k x = record {
    valid = x.valid;
    pinned = chain-KeepsPinned s t u k x.pinned;
    answer = x.answer;
  }

  module _ (now node page : ℕ) (fresh : Bytes) (fill : Bytes → Bytes) (pin : Bool) (s : Pool)
      (v : IsValid Ok s) (named : page ≢ invalid_page_id)
      (ok : (b : Bytes) → Ok page (fill b)) where
    load_into_frame-Serves :
        lookup page s.page_table ≡ none
        → Serves page s
            (load_into_frame now node page fresh fill pin s).0
            (load_into_frame now node page fresh fill pin s).1
    unfolding load_into_frame
    load_into_frame-Serves new =
        let c = claim_frame-Claims Ok s v in
        elim (Option-cases (claim_frame s).0) [
          | inl full ↦
              rw (full, load_into_frame)
                (record {
                  valid = counters-IsSound Ok _ (claim_frame s).1 _ _ (c.refused full);
                  pinned = c.pinned;
                  answer = inl refl;
                })
          | inr (i, e) ↦
              rw (e, load_into_frame)
                (chain-Serves page s (claim_frame s).1 _ _ c.pinned (
                  install-Serves now node page i _ pin (claim_frame s).1 (c.ready i e)
                    (c.none_new page new) named (ok _)))
        ]

  module _ (now node page : ℕ) (fresh : Bytes) (load : Bytes → ℕ → Bytes) (s : Pool)
      (v : IsValid Ok s) (named : page ≢ invalid_page_id)
      (ok : (b : Bytes) → Ok page (load b page)) where
    -- The second critical section of `get_or_load_page`, from any valid pool that it may find.
    pub load_locked-Serves :
        Serves page s
          (load_locked now node page fresh load s).0
          (load_locked now node page fresh load s).1
    unfolding load_locked
    load_locked-Serves = elim (Option-cases (lookup page s.page_table)) [
      | inl miss ↦
          rw (miss, load_locked)
            (load_into_frame-Serves now node page fresh (λ b. load b page) false s v named ok miss)
      | inr (i, e) ↦
          let (b, at, good) = (v.entry page i e).loaded in
          rw (e, load_locked)
            (record {
              valid = counters-IsSound Ok _ s _ _ v;
              pinned = λ p j f h. (f, refl, h);
              answer = inr (b, i, at, good, e, at);
            })
    ]

    -- On a valid pool and a page id that is not the invalid one, with a loader whose bytes are
    -- acceptable for the page, get_or_load_page leaves a valid pool and every pinned page in its
    -- frame with its bytes, and either hands out nothing or acceptable bytes that are those of a
    -- frame in which the page is cached now.
    pub get_or_load_page-Serves :
        Serves page s
          (get_or_load_page now node page fresh load s).0
          (get_or_load_page now node page fresh load s).1
    get_or_load_page-Serves = elim (Option-cases (lookup page s.page_table)) [
      | inl miss ↦
          subst (λ (t : Option Bytes × Pool). Serves page s t.0 t.1)
            (sym (get_or_load_page_miss now node page fresh load s miss)) load_locked-Serves
      | inr (i, e) ↦
          let (b, at, good) = (v.entry page i e).loaded in
          subst (λ (t : Option Bytes × Pool). Serves page s t.0 t.1)
            (sym (get_or_load_page_hit now node page fresh load s i b e at))
            (rw at at (touch-Serves now page s v i e))
    ]

    -- On a valid pool and a page id that is not the invalid one, with a loader whose bytes are
    -- acceptable for the page, get_or_load_and_pin_page leaves a valid pool and keeps every pinned
    -- page, and either hands out nothing or acceptable bytes of a frame in which the page is
    -- cached now.
    pub get_or_load_and_pin_page-Serves :
        Serves page s
          (get_or_load_and_pin_page now node page fresh load s).0
          (get_or_load_and_pin_page now node page fresh load s).1
    unfolding get_or_load_and_pin_page
    get_or_load_and_pin_page-Serves = elim (Option-cases (lookup page s.page_table)) [
      | inl miss ↦
          rw (miss, get_or_load_and_pin_page)
            (load_into_frame-Serves now node page fresh (λ b. load b page) true s v named ok miss)
      | inr (i, e) ↦ rw (e, get_or_load_and_pin_page) (pin_hit-Serves now page s v i e)
    ]

  module _ (now node page : ℕ) (fresh source : Bytes) (n : ℕ) (s : Pool) (v : IsValid Ok s)
      (named : page ≢ invalid_page_id)
      (ok : (b : Bytes) → Ok page (copy_page s.page_size source n b)) where
    -- On a valid pool and a page id that is not the invalid one, if every copy of the given bytes
    -- into a buffer is acceptable for the page, put_page_data leaves a valid pool and keeps every
    -- pinned page, and either hands out nothing or acceptable bytes of a frame in which the page
    -- is cached now.
    pub put_page_data-Serves :
        Serves page s
          (put_page_data now node page fresh source n s).0
          (put_page_data now node page fresh source n s).1
    unfolding put_page_data put_locked
    put_page_data-Serves = elim (Option-cases (lookup page s.page_table)) [
      | inl miss ↦
          rw (miss, put_page_data, miss, put_locked)
            (load_into_frame-Serves now node page fresh (copy_page s.page_size source n) false s v
              named ok miss)
      | inr (i, e) ↦
          let (b, at, good) = (v.entry page i e).loaded in
          rw (e, put_page_data)
            (record {
              valid = counters-IsSound Ok _ s _ _ v;
              pinned = λ p j f h. (f, refl, h);
              answer = inr (b, i, at, good, e, at);
            })
    ]

  prefetch_one :
      (now : ℕ) (fresh : Bytes) (load : Bytes → ℕ → Bytes) (p : ℕ) (s : Pool)
      → ((b : Bytes) → Ok p (load b p))
      → p ≢ invalid_page_id
      → IsValid Ok s
      → (b : Bool)
      → let t = if b then s else (get_or_load_page now invalid_node_id p fresh load s).1 in
        IsValid Ok t × KeepsPinned s t
  prefetch_one now fresh load p s ok named v true = (v, λ p i e h. (e, refl, h))
  prefetch_one now fresh load p s ok named v false =
      let x = get_or_load_page-Serves now invalid_node_id p fresh load s v named ok in
      (x.valid, x.pinned)

  -- On a valid pool, with a loader whose bytes are acceptable for every page, prefetch_pages of
  -- pages other than the invalid one leaves a valid pool and keeps every pinned page.
  pub prefetch_pages-IsValid :
      (now : ℕ) (fresh : Bytes) (load : Bytes → ℕ → Bytes)
      → ((p : ℕ) (b : Bytes) → Ok p (load b p))
      → (pages : List ℕ) (s : Pool) → member invalid_page_id pages ≡ false
      → IsValid Ok s
      → IsValid Ok (prefetch_pages now fresh load pages s)
        × KeepsPinned s (prefetch_pages now fresh load pages s)
  unfolding prefetch_pages
  prefetch_pages-IsValid now fresh load ok [] s m v = (v, λ p i e h. (e, refl, h))
  prefetch_pages-IsValid now fresh load ok (p ∷ ps) s m v =
      let t : Pool =
        if contains p s then s else (get_or_load_page now invalid_node_id p fresh load s).1 in
      let (v', k) = prefetch_one now fresh load p s (ok p) (ground arith) v (contains p s) in
      let (v'', k') = prefetch_pages-IsValid now fresh load ok ps t (ground arith) v' in
      (v'', chain-KeepsPinned s t (prefetch_pages now fresh load ps t) k k')
