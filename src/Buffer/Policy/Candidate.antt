-- ===== src/Buffer/Policy/Candidate.antt =====
-- Which page the policy gives up, and what it tracks afterwards.
use agent_mem_io.Prelude.{
  ℕ, suc, ◌<◌, ◌≤◌, ◌≡◌, ◌≢◌, ◌⊎◌, refl, sym, subst, ◌∙◌, true, false, some, List, ◌∷◌, [], arith,
  ◌==◌, if◌then◌else◌, member, length, Option-cases, Bool-cases, inl, inr, lookup-insert,
  member-append, member-remove, length-remove-le, Map, All, leb, take, zero,
}
use agent_mem_io.Buffer.Queue.{Queue, pages, size, back, front, last, delete, pop_front}
use agent_mem_io.Buffer.Queue.Linked.{pages-delete, delete-IsLinked}
use agent_mem_io.Buffer.Queue.Ends.{
  member-last, member-first, length-last-none, pages-pop_front, pop_front-IsLinked,
}
use agent_mem_io.Buffer.Policy.{
  Policy, Scan, invalid_page_id, uint32_max, degree_of, scan, scan_step, reverse, oldest,
  best_candidate, choose, evict_from_hot_queue, get_eviction_candidate,
}
use agent_mem_io.Buffer.Policy.Tracking.{IsConsistent, Fits, tracks}

-- The scan only records degrees: no page's degree changes.
pub degree_of-scan_step :
    (hub c x : ℕ) (st : Scan) → degree_of x (scan_step hub c st).degrees ≡ degree_of x st.degrees
unfolding scan_step
degree_of-scan_step hub c x st =
    ground (arith, lookup-insert c x (degree_of c st.degrees) st.degrees)

-- What a scan of `cs` from the variables `st` ends with: the same choice, if no page beats it, or
-- a page of `cs` that is no hub, has a smaller degree, and has the least degree of the pages that
-- are no hubs.
abbrev Beats : ℕ → (ℕ → ℕ) → ℕ → ℕ → Type 0
Beats hub deg least c = (hub ≤ deg c) ⊎ (least ≤ deg c)

record Kept (hub : ℕ) (deg : ℕ → ℕ) (cs : List ℕ) (st st' : Scan) : Type 0 where
  best : st'.best ≡ st.best
  least : st'.least ≡ st.least
  none_better : All (Beats hub deg st.least) cs

record Chosen (hub : ℕ) (deg : ℕ → ℕ) (cs : List ℕ) (st st' : Scan) : Type 0 where
  among : member st'.best cs ≡ true
  degree : deg st'.best ≡ st'.least
  smaller : st'.least < st.least
  no_hub : st'.least < hub
  none_better : All (Beats hub deg st'.least) cs

-- One page is passed over, or becomes the choice.
step_cases :
    (hub c d : ℕ) (st : Scan)
    → degree_of c st.degrees ≡ d
    → (((hub ≤ d) ⊎ (st.least ≤ d))
        × ((scan_step hub c st).best ≡ st.best)
        × ((scan_step hub c st).least ≡ st.least))
      ⊎ ((d < st.least)
          × (d < hub)
          × ((scan_step hub c st).best ≡ c)
          × ((scan_step hub c st).least ≡ d))
unfolding scan_step
step_cases hub c d st e = ground arith

scan_lem_step :
    (hub : ℕ) (deg : ℕ → ℕ) (c : ℕ) (cs : List ℕ) (st r : Scan)
    → degree_of c st.degrees ≡ deg c
    → Kept hub deg cs (scan_step hub c st) r ⊎ Chosen hub deg cs (scan_step hub c st) r
    → Kept hub deg (c ∷ cs) st r ⊎ Chosen hub deg (c ∷ cs) st r
scan_lem_step hub deg c cs st r same (inl k) = elim (step_cases hub c (deg c) st same) [
  | inl (beats, e, f) ↦ inl (record {
    best = k.best ∙ e;
    least = k.least ∙ f;
    none_better = (beats, rw f at k.none_better);
  })
  | inr (l, n, e, f) ↦ inr (record {
    among = ground (arith, k.best);
    degree = rw (k.best ∙ e, k.least ∙ f) refl;
    smaller = omega (arith, k.least);
    no_hub = omega (arith, k.least);
    none_better = (inr (omega (arith, k.least)), rw (← k.least) at k.none_better);
  })
]
scan_lem_step hub deg c cs st r same (inr k) =
    let facts = step_cases hub c (deg c) st same in
    inr (record {
      among = ground (arith, k.among);
      degree = k.degree;
      smaller = ground (arith, k.smaller);
      no_hub = k.no_hub;
      none_better = (ground (arith, k.smaller), k.none_better);
    })

scan_lem :
    (hub : ℕ) (deg : ℕ → ℕ) (cs : List ℕ) (st : Scan)
    → ((x : ℕ) → degree_of x st.degrees ≡ deg x)
    → Kept hub deg cs st (scan hub cs st) ⊎ Chosen hub deg cs st (scan hub cs st)
unfolding scan
scan_lem hub deg [] st same = inl (record { best = refl; least = refl; none_better = tt })
scan_lem hub deg (c ∷ cs) st same =
    let same' : (x : ℕ) → degree_of x (scan_step hub c st).degrees ≡ deg x =
      λ x. degree_of-scan_step hub c x st ∙ same x in
    let ih = scan_lem hub deg cs (scan_step hub c st) same' in
    scan_lem_step hub deg c cs st (scan hub cs (scan_step hub c st)) (same c) ih

member-reverse : (x : ℕ) (ps : List ℕ) → member x (reverse ps) ≡ member x ps
member-reverse x [] = refl
member-reverse x (p ∷ ps) =
    ground (arith, member-append x (reverse ps) (p ∷ []), member-reverse x ps)

member-take : (x n : ℕ) (ps : List ℕ) → member x (take n ps) ≡ true → member x ps ≡ true
member-take x zero ps h = cc
member-take x (suc n) [] h = cc
member-take x (suc n) (p ∷ ps) h = ground (arith, member-take x n ps)

member-oldest : (x : ℕ) (q : Queue) → member x (oldest q) ≡ true → member x (pages q) ≡ true
member-oldest x q h = sym (member-reverse x (pages q)) ∙ member-take x 10 (reverse (pages q)) h

last_of_nonempty : (ps : List ℕ) → length ps ≢ 0 → (v : ℕ) × (last ps ≡ some v)
last_of_nonempty ps h = elim (Option-cases (last ps)) [
  | inl e ↦ absurd (h (length-last-none ps e))
  | inr (v, e) ↦ (v, e)
]

-- A hub is a page of at least the threshold's in-degree.
abbrev pub IsHub : Policy → ℕ → Type 0
IsHub s p = s.hub_threshold ≤ degree_of p s.in_degree

-- The victim that the hot queue should give up: a page among the ten oldest that is no hub, of the
-- least in-degree of those; and if all ten are hubs, the oldest page.
abbrev pub IsVictim : Policy → ℕ → Type 0
IsVictim s v =
    (All (IsHub s) (oldest s.hot) × (back s.hot ≡ some v))
    ⊎ ((member v (oldest s.hot) ≡ true)
        × (degree_of v s.in_degree < s.hub_threshold)
        × All
            (λ p.
              (s.hub_threshold ≤ degree_of p s.in_degree)
              ⊎ (degree_of v s.in_degree ≤ degree_of p s.in_degree))
            (oldest s.hot))

hubs_of_Beats :
    (hub : ℕ) (deg : ℕ → ℕ) (least : ℕ) (cs : List ℕ)
    → hub ≤ least
    → All (Beats hub deg least) cs
    → All (λ p. hub ≤ deg p) cs
hubs_of_Beats hub deg least [] h a = tt
hubs_of_Beats hub deg least (c ∷ cs) h a =
    (omega (arith, a.0), hubs_of_Beats hub deg least cs h a.1)

filled_test : (n : ℕ) → n ≢ 0 → (n == 0) ≡ false
filled_test n h = ground arith

module _ (s : Policy) (c : IsConsistent s) (named : tracks invalid_page_id s ≡ false)
    (small : s.hub_threshold ≤ uint32_max) (filled : size s.hot ≢ 0) where
  Choice : ℕ → Type 0
  Choice v = IsVictim s v × (member v (pages s.hot) ≡ true)

  choice-kept : (b v : ℕ) → b ≡ invalid_page_id → back s.hot ≡ some v → choose s b ≡ v
  choice-kept b v h e = rw (h, e) refl

  choice-chosen : (b : ℕ) → member b (oldest s.hot) ≡ true → choose s b ≡ b
  choice-chosen b h = elim (Bool-cases (b == invalid_page_id)) [
    | inl same ↦
        let e : b ≡ invalid_page_id = ground arith in
        absurd (ground (arith, rw e at (member-oldest b s.hot h)))
    | inr other ↦ rw other refl
  ]

  choice_lem : Choice (choose s (best_candidate s).best)
  unfolding best_candidate Choice
  choice_lem =
      let st : Scan = record {
        degrees = s.in_degree;
        best = invalid_page_id;
        least = uint32_max;
      } in
      let (v, e) = last_of_nonempty (pages s.hot) filled in
      elim (scan_lem s.hub_threshold (λ x. degree_of x s.in_degree) (oldest s.hot) st (λ x. refl)) [
        | inl k ↦ subst Choice (sym (choice-kept _ v k.best e)) (
          inl (
            hubs_of_Beats s.hub_threshold (λ x. degree_of x s.in_degree) uint32_max (oldest s.hot)
                small k.none_better,
            e,
          ),
          member-last v (pages s.hot) e,
        )
        | inr k ↦ subst Choice (sym (choice-chosen _ k.among)) (
          inr (k.among, rw k.degree k.no_hub, rw k.degree k.none_better),
          member-oldest _ s.hot k.among,
        )
      ]

  -- In a consistent policy that does not track the invalid page, whose hub threshold fits in 32
  -- bits and whose hot queue is not empty, evict_from_hot_queue names a page of the ten oldest
  -- that is no hub and has the least in-degree of those that are no hubs, or, when all ten are
  -- hubs, the oldest page.
  pub evict_from_hot_queue-IsVictim : IsVictim s (evict_from_hot_queue s).0
  unfolding evict_from_hot_queue Choice
  evict_from_hot_queue-IsVictim =
      rw (filled_test (size s.hot) filled, evict_from_hot_queue) choice_lem.0

-- What a call that gives up the page `v` leaves: that page is tracked no more, all others are.
pub record GivesUp (s : Policy) (v : ℕ) (s' : Policy) : Type 0 where
  pub consistent : IsConsistent s'
  pub fits : Fits s → Fits s'
  pub hub : s'.hub_threshold ≡ s.hub_threshold
  pub capacity : s'.hot_max ≡ s.hot_max
  pub was : tracks v s ≡ true
  pub rest : (x : ℕ) → tracks x s' ≡ (if v == x then false else tracks x s)

module _ (s : Policy) (c : IsConsistent s) where
  delete-GivesUp :
      (v : ℕ) (m : Map ℕ)
      → member v (pages s.hot) ≡ true
      → GivesUp s v (record s { hot = delete v s.hot; in_degree = m })
  delete-GivesUp v m h = record {
    consistent = record {
      hot = delete-IsLinked v s.hot c.hot;
      warm = c.warm;
      apart = λ x. rw (pages-delete v s.hot c.hot, member-remove) (ground (arith, c.apart x));
    };
    fits = λ f. rw (pages-delete v s.hot c.hot) (omega (arith, length-remove-le v (pages s.hot)));
    hub = refl;
    capacity = refl;
    was = ground arith;
    rest = λ x. rw (pages-delete v s.hot c.hot, member-remove) (ground (arith, c.apart v));
  }

  pop_front-GivesUp :
      (v : ℕ) (m : Map ℕ)
      → front s.warm ≡ some v
      → GivesUp s v (record s { warm = pop_front v s.warm; in_degree = m })
  pop_front-GivesUp v m e =
      let w = member-first v (pages s.warm) e in
      record {
        consistent = record {
          hot = c.hot;
          warm = pop_front-IsLinked v s.warm c.warm e;
          apart = λ x.
              rw (pages-pop_front v s.warm c.warm e, member-remove) (ground (arith, c.apart x));
        };
        fits = λ f. f;
        hub = refl;
        capacity = refl;
        was = ground arith;
        rest =
            λ x. rw (pages-pop_front v s.warm c.warm e, member-remove) (ground (arith, c.apart v));
      }

  module _ (named : tracks invalid_page_id s ≡ false) (small : s.hub_threshold ≤ uint32_max) where
    tracked_test : (v : ℕ) → tracks v s ≡ true → (v == invalid_page_id) ≡ false
    tracked_test v h = elim (Bool-cases (v == invalid_page_id)) [
      | inl same ↦ let e : v ≡ invalid_page_id = ground arith in absurd (ground (arith, rw e at h))
      | inr other ↦ other
    ]

    evict_from_hot_queue-GivesUp :
        size s.hot ≢ 0 → GivesUp s (evict_from_hot_queue s).0 (evict_from_hot_queue s).1
    unfolding evict_from_hot_queue Choice
    evict_from_hot_queue-GivesUp filled =
        let m = (choice_lem s c named small filled).1 in
        rw
          (
            filled_test (size s.hot) filled,
            evict_from_hot_queue,
            tracked_test (choose s (best_candidate s).best) (ground arith),
            evict_from_hot_queue,
          )
          (delete-GivesUp _ _ m)

    evict_cases :
        GivesUp s (evict_from_hot_queue s).0 (evict_from_hot_queue s).1
        ⊎ (evict_from_hot_queue s ≡ (invalid_page_id, s))
    evict_cases = elim (Bool-cases (size s.hot == 0)) [
      | inl zero_size ↦ inr (unfold evict_from_hot_queue in rw zero_size refl)
      | inr filled ↦ inl (evict_from_hot_queue-GivesUp (ground arith))
    ]

    -- In a consistent policy that does not track the invalid page and whose hub threshold fits in
    -- 32 bits, get_eviction_candidate either gives up one tracked page, after which the policy is
    -- consistent, tracks exactly the others and keeps its capacity and threshold, or it answers
    -- with the invalid page and changes nothing.
    pub get_eviction_candidate-GivesUp :
        GivesUp s (get_eviction_candidate s).0 (get_eviction_candidate s).1
        ⊎ (get_eviction_candidate s ≡ (invalid_page_id, s))
    unfolding get_eviction_candidate
    get_eviction_candidate-GivesUp = elim (Option-cases (front s.warm)) [
      | inl bare ↦ elim (Bool-cases (size s.hot == 0)) [
        | inl zero_size ↦ inr (rw (bare, get_eviction_candidate, zero_size) refl)
        | inr filled ↦ rw (bare, get_eviction_candidate, filled) evict_cases
      ]
      | inr (v, e) ↦ elim (Bool-cases (leb s.hot_max (size s.hot))) [
        | inl over ↦ rw (e, get_eviction_candidate, over) evict_cases
        | inr under ↦
            rw (e, get_eviction_candidate, under, get_eviction_candidate)
              (inl (pop_front-GivesUp v _ e))
      ]
    ]

-- A hot queue without capacity blocks every eviction: whatever the warm queue holds, the answer is
-- that there is no page to evict.
pub get_eviction_candidate_blocked :
    (s : Policy) → Fits s → s.hot_max ≡ 0 → get_eviction_candidate s ≡ (invalid_page_id, s)
unfolding get_eviction_candidate evict_from_hot_queue
get_eviction_candidate_blocked s f h =
    let e : (size s.hot == 0) ≡ true = ground arith in
    let o : leb s.hot_max (size s.hot) ≡ true = ground arith in
    elim (Option-cases (front s.warm)) [
      | inl bare ↦ rw (bare, get_eviction_candidate, e) refl
      | inr (v, w) ↦ rw (w, get_eviction_candidate, o, e) refl
    ]
