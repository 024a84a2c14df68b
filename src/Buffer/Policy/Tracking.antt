-- ===== src/Buffer/Policy/Tracking.antt =====
-- The two queues stay disjoint and in step with their maps, and each operation tracks the pages
-- that it should.
use agent_mem_io.Prelude.{
  ℕ, ◌+◌, ◌≤◌, ◌≡◌, refl, Bool, true, false, some, ◌||◌, arith, ◌==◌, if◌then◌else◌, member,
  Option-cases, Bool-cases, inl, inr, insert, member-append, member-remove, length-remove-member,
  ltb,
}
use agent_mem_io.Buffer.Queue
use agent_mem_io.Buffer.Queue.{Queue, pages, size, has, push_front, push_back, delete, back}
use agent_mem_io.Buffer.Queue.Linked.{
  IsLinked, has-eq-member, pages-push_front, pages-push_back, pages-delete, pages-move_front,
  push_front-IsLinked, push_back-IsLinked, delete-IsLinked, move_front-IsLinked, empty-IsLinked,
}
use agent_mem_io.Buffer.Queue.Ends.{
  member-last, length-last-none, pages-pop_back, pop_back-IsLinked,
}
use agent_mem_io.Buffer.Policy.{
  Policy, init, demote, promote_to_hot_queue, on_access, on_add, on_remove, update_in_degree, clear,
}

pub record IsConsistent (s : Policy) : Type 0 where
  pub hot : IsLinked s.hot
  pub warm : IsLinked s.warm
  pub apart : (p : ℕ) → member p (pages s.hot) ≡ true → member p (pages s.warm) ≡ false

-- The hot queue is within its capacity.
abbrev pub Fits : Policy → Type 0
Fits s = size s.hot ≤ s.hot_max

abbrev pub tracks : ℕ → Policy → Bool
tracks p s = member p (pages s.hot) || member p (pages s.warm)

module _ (s : Policy) (c : IsConsistent s) where
  demote-back :
      (d : ℕ)
      → back s.hot ≡ some d
      → IsConsistent (record s { hot = Queue.pop_back d s.hot; warm = push_back d s.warm })
  demote-back d e =
      let m = member-last d (pages s.hot) e in
      record {
        hot = pop_back-IsLinked d s.hot c.hot e;
        warm = push_back-IsLinked d s.warm c.warm (c.apart d m);
        apart = λ p.
            rw (pages-pop_back d s.hot c.hot e, pages-push_back, member-remove, member-append)
              (ground (arith, c.apart p));
      }

  pub demote-IsConsistent : IsConsistent (demote s)
  unfolding demote
  demote-IsConsistent = elim (Option-cases (back s.hot)) [
    | inl none_left ↦ elim (Bool-cases (ltb s.hot_max (size s.hot))) [
      | inl over ↦ rw (over, none_left) c
      | inr fits ↦ rw fits c
    ]
    | inr (d, e) ↦ elim (Bool-cases (ltb s.hot_max (size s.hot))) [
      | inl over ↦ rw (over, demote, e, demote) (demote-back d e)
      | inr fits ↦ rw fits c
    ]
  ]

  pub tracks-demote : (x : ℕ) → tracks x (demote s) ≡ tracks x s
  unfolding demote
  tracks-demote x = elim (Option-cases (back s.hot)) [
    | inl none_left ↦ ground (arith, none_left)
    | inr (d, e) ↦ elim (Bool-cases (ltb s.hot_max (size s.hot))) [
      | inl over ↦
          rw
            (
              over,
              demote,
              e,
              demote,
              pages-pop_back d s.hot c.hot e,
              pages-push_back,
              member-remove,
              member-append,
            )
            (ground (arith, member-last d (pages s.hot) e))
      | inr fits ↦ rw fits refl
    ]
  ]

  pub demote-Fits : size s.hot ≤ s.hot_max + 1 → Fits (demote s)
  unfolding demote
  demote-Fits h = elim (Option-cases (back s.hot)) [
    | inl none_left ↦ ground (arith, length-last-none (pages s.hot) none_left)
    | inr (d, e) ↦ elim (Bool-cases (ltb s.hot_max (size s.hot))) [
      | inl over ↦
          rw (over, demote, e, demote, pages-pop_back d s.hot c.hot e)
            (omega (
              arith,
              length-remove-member d (pages s.hot) c.hot.distinct (member-last d (pages s.hot) e),
            ))
      | inr fits ↦ rw fits (ground arith)
    ]
  ]

module _ (p d : ℕ) (s : Policy) (c : IsConsistent s) where
  promote-ready :
      member p (pages s.warm) ≡ true
      → IsConsistent (record s { warm = delete p s.warm; hot = push_front p s.hot })
  promote-ready m = record {
    hot = push_front-IsLinked p s.hot c.hot (ground (arith, c.apart p));
    warm = delete-IsLinked p s.warm c.warm;
    apart = λ x.
        rw (pages-delete p s.warm c.warm, pages-push_front, member-remove)
          (ground (arith, c.apart x));
  }

  pub promote-IsConsistent :
      member p (pages s.warm) ≡ true → IsConsistent (promote_to_hot_queue p s)
  unfolding promote_to_hot_queue
  promote-IsConsistent m = demote-IsConsistent _ (promote-ready m)

  pub tracks-promote :
      (x : ℕ) → member p (pages s.warm) ≡ true → tracks x (promote_to_hot_queue p s) ≡ tracks x s
  unfolding promote_to_hot_queue
  tracks-promote x m =
      rw
        (
          tracks-demote _ (promote-ready m) x,
          pages-push_front,
          pages-delete p s.warm c.warm,
          member-remove,
        )
        (ground arith)

  pub promote-Fits : member p (pages s.warm) ≡ true → Fits s → Fits (promote_to_hot_queue p s)
  unfolding promote_to_hot_queue
  promote-Fits m f = demote-Fits _ (promote-ready m) (rw pages-push_front (omega arith))

module _ (p d : ℕ) (s : Policy) (c : IsConsistent s) where
  degrees-IsConsistent : IsConsistent (record s { in_degree = insert p d s.in_degree })
  degrees-IsConsistent = record { hot = c.hot; warm = c.warm; apart = c.apart }

  moved-IsConsistent :
      member p (pages s.hot) ≡ true
      → IsConsistent
          (record s { in_degree = insert p d s.in_degree; hot = Queue.move_front p s.hot })
  moved-IsConsistent m = record {
    hot = move_front-IsLinked p s.hot c.hot;
    warm = c.warm;
    apart = λ x.
        rw (pages-move_front p s.hot c.hot m)
          (ground (arith, c.apart x, member-remove x p (pages s.hot)));
  }

  -- on_access of any page keeps the two queues of a consistent policy consistent: the iterator
  -- maps match the lists, and no page is in both.
  pub on_access-IsConsistent : IsConsistent (on_access p d s)
  unfolding on_access
  on_access-IsConsistent =
      rw (has-eq-member p s.warm c.warm, has-eq-member p s.hot c.hot)
        (elim (Bool-cases (member p (pages s.warm))) [
          | inl w ↦ rw w (promote-IsConsistent p d _ degrees-IsConsistent w)
          | inr n ↦ elim (Bool-cases (member p (pages s.hot))) [
            | inl h ↦ rw (n, h) (moved-IsConsistent h)
            | inr o ↦ rw (n, o) degrees-IsConsistent
          ]
        ])

  -- In a consistent policy on_access neither loses nor gains a page.
  pub tracks-on_access : (x : ℕ) → tracks x (on_access p d s) ≡ tracks x s
  unfolding on_access
  tracks-on_access x =
      rw (has-eq-member p s.warm c.warm, has-eq-member p s.hot c.hot)
        (elim (Bool-cases (member p (pages s.warm))) [
          | inl w ↦ rw w (tracks-promote p d _ degrees-IsConsistent x w)
          | inr n ↦ elim (Bool-cases (member p (pages s.hot))) [
            | inl h ↦
                rw (n, h, pages-move_front p s.hot c.hot h)
                  (ground (arith, member-remove x p (pages s.hot)))
            | inr o ↦ rw (n, o) refl
          ]
        ])

  pub on_access-Fits : Fits s → Fits (on_access p d s)
  unfolding on_access
  on_access-Fits f =
      rw (has-eq-member p s.warm c.warm, has-eq-member p s.hot c.hot)
        (elim (Bool-cases (member p (pages s.warm))) [
          | inl w ↦ rw w (promote-Fits p d _ degrees-IsConsistent w f)
          | inr n ↦ elim (Bool-cases (member p (pages s.hot))) [
            | inl h ↦
                rw (n, h, pages-move_front p s.hot c.hot h)
                  (omega (arith, length-remove-member p (pages s.hot) c.hot.distinct h))
            | inr o ↦ rw (n, o) f
          ]
        ])

  -- A new page joins the tracked ones.
  pub on_add-IsConsistent : tracks p s ≡ false → IsConsistent (on_add p d s)
  unfolding on_add
  on_add-IsConsistent n = record {
    hot = c.hot;
    warm = push_back-IsLinked p s.warm c.warm (ground arith);
    apart = λ x. rw (pages-push_back, member-append) (ground (arith, c.apart x));
  }

  pub tracks-on_add : (x : ℕ) → tracks x (on_add p d s) ≡ ((p == x) || tracks x s)
  unfolding on_add
  tracks-on_add x = rw (pages-push_back, member-append) (ground arith)

  pub on_add-Fits : Fits s → Fits (on_add p d s)
  unfolding on_add
  on_add-Fits f = f

  pub on_remove-IsConsistent : IsConsistent (on_remove p s)
  unfolding on_remove
  on_remove-IsConsistent =
      rw (has-eq-member p s.warm c.warm, has-eq-member p s.hot c.hot)
        (elim (Bool-cases (member p (pages s.hot))) [
          | inl h ↦ rw h (record {
            hot = delete-IsLinked p s.hot c.hot;
            warm = c.warm;
            apart = λ x. rw (pages-delete p s.hot c.hot, member-remove) (ground (arith, c.apart x));
          })
          | inr n ↦ elim (Bool-cases (member p (pages s.warm))) [
            | inl w ↦
                rw (n, w)
                  (record {
                    hot = c.hot;
                    warm = delete-IsLinked p s.warm c.warm;
                    apart = λ x.
                        rw (pages-delete p s.warm c.warm, member-remove)
                          (ground (arith, c.apart x));
                  })
            | inr o ↦ rw (n, o) (record { hot = c.hot; warm = c.warm; apart = c.apart })
          ]
        ])

  -- In a consistent policy on_remove takes out exactly the given page.
  pub tracks-on_remove : (x : ℕ) → tracks x (on_remove p s) ≡ (if p == x then false else tracks x s)
  unfolding on_remove
  tracks-on_remove x =
      rw (has-eq-member p s.warm c.warm, has-eq-member p s.hot c.hot)
        (elim (Bool-cases (member p (pages s.hot))) [
          | inl h ↦
              rw (h, pages-delete p s.hot c.hot)
                (ground (arith, member-remove x p (pages s.hot), c.apart p))
          | inr n ↦ elim (Bool-cases (member p (pages s.warm))) [
            | inl w ↦
                rw (n, w, pages-delete p s.warm c.warm)
                  (ground (arith, member-remove x p (pages s.warm)))
            | inr o ↦ rw (n, o) (ground arith)
          ]
        ])

pub init-IsConsistent : (n : ℕ) → IsConsistent (init n)
init-IsConsistent n = record { hot = empty-IsLinked; warm = empty-IsLinked; apart = λ p h. refl }

pub clear-IsConsistent : (s : Policy) → IsConsistent (clear s)
unfolding clear
clear-IsConsistent s = record { hot = empty-IsLinked; warm = empty-IsLinked; apart = λ p h. refl }

pub update_in_degree-IsConsistent :
    (p d : ℕ) (s : Policy) → IsConsistent s → IsConsistent (update_in_degree p d s)
unfolding update_in_degree
update_in_degree-IsConsistent p d s c = record { hot = c.hot; warm = c.warm; apart = c.apart }

pub hub_threshold-on_access :
    (p d : ℕ) (s : Policy) → (on_access p d s).hub_threshold ≡ s.hub_threshold
unfolding on_access promote_to_hot_queue demote
hub_threshold-on_access p d s = ground arith

pub hub_threshold-on_add : (p d : ℕ) (s : Policy) → (on_add p d s).hub_threshold ≡ s.hub_threshold
unfolding on_add
hub_threshold-on_add p d s = refl
