-- ===== src/Buffer/Pool/Steps.antt =====
-- The steps of which the methods consist keep the invariant.
use agent_mem_io.Prelude.{
  ℕ, ◌≤◌, ◌≡◌, ◌≢◌, refl, sym, ap, ◌∙◌, Bool, true, false, none, some, List, ◌∷◌, arith, ◌==◌,
  lookup, lookup-insert, lookup-erase, length-erase, length-insert_new, keys-erase-Distinct,
  keys-insert-Distinct, inl, inr, Bool-cases,
}
use agent_mem_io.Buffer.Policy.{Policy, invalid_page_id, uint32_max, on_access}
use agent_mem_io.Buffer.Policy.Tracking.{
  IsConsistent, tracks, Fits, on_access-IsConsistent, tracks-on_access, on_access-Fits,
  hub_threshold-on_access, on_add-IsConsistent, tracks-on_add, on_add-Fits, hub_threshold-on_add,
}
use agent_mem_io.Buffer.Policy.Candidate.{GivesUp}
use agent_mem_io.Buffer.Pool.{Bytes, Frame, Pool, touch, release, install, put_frame}
use agent_mem_io.Buffer.Pool.Valid.{IsSound}

pub frame_field {ℓ} :
    {A : Type ℓ} (s : Pool) (i : ℕ) (f : Frame) (g : Frame → A)
    → g f ≡ g (s.frames i)
    → (j : ℕ) → g ((put_frame i f s).frames j) ≡ g (s.frames j)
frame_field s i f g e j = elim (Bool-cases (j == i)) [
  | inl same ↦ let k : i ≡ j = ground arith in rw same (e ∙ ap (λ n. g (s.frames n)) k)
  | inr other ↦ rw other refl
]

module _ (Ok : ℕ → Bytes → Type 0) where
  -- Distinct pages stand in distinct frames, since a frame has one label.
  pub same_page :
      {fs : List ℕ} {s : Pool} (p q i : ℕ)
      → IsSound Ok fs s
      → lookup p s.page_table ≡ some i
      → lookup q s.page_table ≡ some i
      → p ≡ q
  same_page p q i v e f = sym (v.entry p i e).label ∙ (v.entry q i f).label

  -- Of the frames the invariant reads labels, bytes and validity alone.
  pub frames-IsSound :
      (fs : List ℕ) (s : Pool) (g : ℕ → Frame)
      → ((j : ℕ) → (g j).page_id ≡ (s.frames j).page_id)
      → ((j : ℕ) → (g j).bytes ≡ (s.frames j).bytes)
      → ((j : ℕ) → (g j).is_valid ≡ (s.frames j).is_valid)
      → IsSound Ok fs s
      → IsSound Ok fs (record s { frames = g })
  frames-IsSound fs s g a b c v = record {
    entry = λ q j e.
        let w = v.entry q j e in
        record {
          in_range = w.in_range;
          label = a j ∙ w.label;
          loaded = (w.loaded.0, b j ∙ w.loaded.1, w.loaded.2);
          valid = c j ∙ w.valid;
          apart = w.apart;
        };
    free_range = v.free_range;
    free_distinct = v.free_distinct;
    keys_distinct = v.keys_distinct;
    count = v.count;
    policy = v.policy;
    fits = v.fits;
    small = v.small;
    cached = v.cached;
    named = v.named;
  }

  -- A write to one frame that leaves its label, its bytes and its validity alone.
  pub put_frame-IsSound :
      (fs : List ℕ) (s : Pool) (i : ℕ) (f : Frame)
      → f.page_id ≡ (s.frames i).page_id
      → f.bytes ≡ (s.frames i).bytes
      → f.is_valid ≡ (s.frames i).is_valid
      → IsSound Ok fs s
      → IsSound Ok fs (put_frame i f s)
  put_frame-IsSound fs s i f a b c =
      frames-IsSound fs s (put_frame i f s).frames (frame_field s i f (λ g. g.page_id) a)
        (frame_field s i f (λ g. g.bytes) b) (frame_field s i f (λ g. g.is_valid) c)

  -- The policy may be replaced by one that tracks no page that is not cached.
  pub policy-IsSound :
      (fs : List ℕ) (s : Pool) (r : Policy)
      → IsConsistent r
      → Fits r
      → r.hub_threshold ≤ uint32_max
      → ((p : ℕ) → tracks p r ≡ true → tracks p s.policy ≡ true)
      → IsSound Ok fs s
      → IsSound Ok fs (record s { policy = r })
  policy-IsSound fs s r c f h t v = record {
    entry = λ q j e.
        let w = v.entry q j e in
        record {
          in_range = w.in_range;
          label = w.label;
          loaded = w.loaded;
          valid = w.valid;
          apart = w.apart;
        };
    free_range = v.free_range;
    free_distinct = v.free_distinct;
    keys_distinct = v.keys_distinct;
    count = v.count;
    policy = c;
    fits = f;
    small = h;
    cached = λ p k. v.cached p (t p k);
    named = v.named;
  }

  -- The free list itself stands in the invariant only as the list of frames without a page.
  pub free_frames-IsSound :
      (fs gs : List ℕ) (s : Pool) → IsSound Ok fs s → IsSound Ok fs (record s { free_frames = gs })
  free_frames-IsSound fs gs s v = record {
    entry = λ q j e.
        let w = v.entry q j e in
        record {
          in_range = w.in_range;
          label = w.label;
          loaded = w.loaded;
          valid = w.valid;
          apart = w.apart;
        };
    free_range = v.free_range;
    free_distinct = v.free_distinct;
    keys_distinct = v.keys_distinct;
    count = v.count;
    policy = v.policy;
    fits = v.fits;
    small = v.small;
    cached = v.cached;
    named = v.named;
  }

  -- The counters of hits and misses are free.
  pub counters-IsSound :
      (fs : List ℕ) (s : Pool) (h m : ℕ)
      → IsSound Ok fs s
      → IsSound Ok fs (record s { hits = h; misses = m })
  counters-IsSound fs s h m v = record {
    entry = λ q j e.
        let w = v.entry q j e in
        record {
          in_range = w.in_range;
          label = w.label;
          loaded = w.loaded;
          valid = w.valid;
          apart = w.apart;
        };
    free_range = v.free_range;
    free_distinct = v.free_distinct;
    keys_distinct = v.keys_distinct;
    count = v.count;
    policy = v.policy;
    fits = v.fits;
    small = v.small;
    cached = v.cached;
    named = v.named;
  }

  pub touch-IsSound :
      (now p i : ℕ) (fs : List ℕ) (s : Pool) → IsSound Ok fs s → IsSound Ok fs (touch now p i s)
  unfolding touch
  touch-IsSound now p i fs s v =
      let d = (s.frames i).in_degree in
      policy-IsSound fs (put_frame i _ s) (on_access p d s.policy)
        (on_access-IsConsistent p d s.policy v.policy) (on_access-Fits p d s.policy v.policy v.fits)
        (rw hub_threshold-on_access v.small)
        (λ x k. sym (tracks-on_access p d s.policy v.policy x) ∙ k)
        (put_frame-IsSound fs s i _ refl refl refl v)

  module _ (fs : List ℕ) (s : Pool) (v : IsSound Ok fs s) where
    -- An evicted page leaves the table, and its frame joins the free ones.
    pub release-IsSound :
        (p i : ℕ) (r : Policy)
        → GivesUp s.policy p r
        → lookup p s.page_table ≡ some i
        → IsSound Ok (i ∷ fs) (release p i (record s { policy = r }))
    unfolding release
    release-IsSound p i r g e = record {
      entry = λ q j x.
          let other : (p == q) ≡ false = ground (arith, lookup-erase p q s.page_table) in
          let old : lookup q s.page_table ≡ some j =
            ground (arith, lookup-erase p q s.page_table) in
          let w = v.entry q j old in
          let moved : (j == i) ≡ false = release_other p q i j e old other in
          record {
            in_range = w.in_range;
            label = rw moved w.label;
            loaded = rw moved w.loaded;
            valid = rw moved w.valid;
            apart = ground (arith, w.apart);
          };
      free_range = ((v.entry p i e).in_range, v.free_range);
      free_distinct = ((v.entry p i e).apart, v.free_distinct);
      keys_distinct = keys-erase-Distinct p s.page_table v.keys_distinct;
      count = omega (arith, v.count, length-erase p i s.page_table v.keys_distinct e);
      policy = g.consistent;
      fits = g.fits v.fits;
      small = rw g.hub v.small;
      cached = λ x k. ground (arith, g.rest x, v.cached x, lookup-erase p x s.page_table);
      named = ground (arith, v.named, lookup-erase p invalid_page_id s.page_table);
    }
      where
        release_other :
            (p q i j : ℕ)
            → lookup p s.page_table ≡ some i
            → lookup q s.page_table ≡ some j
            → (p == q) ≡ false
            → (j == i) ≡ false
        release_other p q i j e f n = elim (Bool-cases (j == i)) [
          | inl same ↦
              let k : j ≡ i = ground arith in
              absurd (ground (arith, same_page p q i v e (f ∙ ap some k)))
          | inr other ↦ other
        ]

  same_key : (p q : ℕ) → (p == q) ≡ true → p ≡ q
  same_key p q h = ground arith

  module _ (fs : List ℕ) (i : ℕ) (s : Pool) (v : IsSound Ok (i ∷ fs) s) where
    -- A page that is loaded into a claimed frame is cached.
    pub install-IsSound :
        (now node p : ℕ) (b : Bytes) (pin : Bool)
        → lookup p s.page_table ≡ none
        → p ≢ invalid_page_id
        → Ok p b
        → IsSound Ok fs (install now node p i b pin s)
    unfolding install
    install-IsSound now node p b pin new named ok =
        let d = (s.frames i).in_degree in
        let untracked : tracks p s.policy ≡ false = ground (arith, v.cached p) in
        record {
          entry = λ q j x. elim (Bool-cases (p == q)) [
            | inl same ↦
                let here : (j == i) ≡ true = ground (arith, lookup-insert p q i s.page_table) in
                record {
                  in_range = ground (arith, lookup-insert p q i s.page_table, v.free_range.0);
                  label = rw here (ground arith);
                  loaded = (b, rw here refl, rw (← same_key p q same) ok);
                  valid = rw here refl;
                  apart = ground (arith, lookup-insert p q i s.page_table, v.free_distinct.0);
                }
            | inr other ↦
                let old : lookup q s.page_table ≡ some j =
                  ground (arith, lookup-insert p q i s.page_table) in
                let w = v.entry q j old in
                let moved : (j == i) ≡ false = ground (arith, w.apart) in
                record {
                  in_range = w.in_range;
                  label = rw moved w.label;
                  loaded = rw moved w.loaded;
                  valid = rw moved w.valid;
                  apart = ground (arith, w.apart);
                }
          ];
          free_range = v.free_range.1;
          free_distinct = v.free_distinct.1;
          keys_distinct = keys-insert-Distinct p i s.page_table new v.keys_distinct;
          count = omega (arith, v.count, length-insert_new p i s.page_table new);
          policy = on_add-IsConsistent p d s.policy v.policy untracked;
          fits = on_add-Fits p d s.policy v.policy v.fits;
          small = rw hub_threshold-on_add v.small;
          cached = λ x k. ground (
            arith,
            tracks-on_add p d s.policy v.policy x,
            v.cached x,
            lookup-insert p x i s.page_table,
          );
          named = ground (arith, v.named, lookup-insert p invalid_page_id i s.page_table);
        }
