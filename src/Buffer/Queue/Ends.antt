-- ===== src/Buffer/Queue/Ends.antt =====
-- Taking a page off either end of a queue.
use agent_mem_io.Prelude.{
  ℕ, ◌≡◌, refl, true, false, none, some, List, [], ◌∷◌, arith, Map, lookup, erase, All, Distinct,
  member, remove, Option-cases, inl, inr, drop, length,
}
use agent_mem_io.Buffer.Queue.{
  Queue, pages, pop_front, pop_back, drop_last, front, back, first, last,
}
use agent_mem_io.Buffer.Queue.Linked.{IsLinked, snds, same_cell, cut-IsLinked, absent}

pub member-last : (p : ℕ) (ps : List ℕ) → last ps ≡ some p → member p ps ≡ true
member-last p [] e = cc
member-last p (r ∷ []) e = ground arith
member-last p (r ∷ s ∷ ps) e = ground (arith, member-last p (s ∷ ps) e)

pub length-last-none : (ps : List ℕ) → last ps ≡ none → length ps ≡ 0
length-last-none [] e = refl
length-last-none (r ∷ []) e = cc
length-last-none (r ∷ s ∷ ps) e = absurd (ground (arith, length-last-none (s ∷ ps) e))

pub member-first : (p : ℕ) (ps : List ℕ) → first ps ≡ some p → member p ps ≡ true
member-first p [] e = cc
member-first p (r ∷ ps) e = ground arith

module _ (p h : ℕ) (q : Queue) (l : IsLinked q) (hit : lookup p q.index ≡ some h) where
  erase_other :
      (cs : Map ℕ)
      → All (λ c. lookup c.1 q.index ≡ some c.0) cs
      → member p (snds cs) ≡ false
      → erase h cs ≡ cs
  erase_other [] a m = refl
  erase_other ((g, r) ∷ cs) a m =
      ground (arith, erase_other cs a.1, a.0, l.back p h hit, l.back r g a.0)

  drop_last-erase :
      (cs : Map ℕ)
      → All (λ c. lookup c.1 q.index ≡ some c.0) cs
      → Distinct (snds cs)
      → last (snds cs) ≡ some p
      → drop_last cs ≡ erase h cs
  drop_last-erase [] a d e = refl
  drop_last-erase ((g, r) ∷ []) a d e = ground (arith, a.0)
  drop_last-erase ((g, r) ∷ (g', r') ∷ cs) a d e = ground (
    arith,
    drop_last-erase ((g', r') ∷ cs) a.1 d.1 e,
    a.0,
    l.back p h hit,
    l.back r g a.0,
    member-last p (snds ((g', r') ∷ cs)) e,
  )

  drop-first-erase :
      (cs : Map ℕ)
      → All (λ c. lookup c.1 q.index ≡ some c.0) cs
      → Distinct (snds cs)
      → first (snds cs) ≡ some p
      → drop 1 cs ≡ erase h cs
  drop-first-erase [] a d e = refl
  drop-first-erase ((g, r) ∷ cs) a d e = ground (arith, erase_other cs a.1, a.0, d.0)

module _ (p : ℕ) (q : Queue) (l : IsLinked q) where
  pub pages-pop_back : back q ≡ some p → pages (pop_back p q) ≡ remove p (pages q)
  unfolding pop_back
  pages-pop_back e = elim (Option-cases (lookup p q.index)) [
    | inl miss ↦ absurd (ground (arith, absent p q l miss, member-last p (pages q) e))
    | inr (h, hit) ↦
        rw (drop_last-erase p h q l hit q.cells l.forth l.distinct e)
          (same_cell p h q l hit q.cells l.forth)
  ]

  pub pop_back-IsLinked : back q ≡ some p → IsLinked (pop_back p q)
  unfolding pop_back
  pop_back-IsLinked e = elim (Option-cases (lookup p q.index)) [
    | inl miss ↦ absurd (ground (arith, absent p q l miss, member-last p (pages q) e))
    | inr (h, hit) ↦
        rw (drop_last-erase p h q l hit q.cells l.forth l.distinct e) (cut-IsLinked p h q l hit)
  ]

  pub pages-pop_front : front q ≡ some p → pages (pop_front p q) ≡ remove p (pages q)
  unfolding pop_front
  pages-pop_front e = elim (Option-cases (lookup p q.index)) [
    | inl miss ↦ absurd (ground (arith, absent p q l miss, member-first p (pages q) e))
    | inr (h, hit) ↦
        rw (drop-first-erase p h q l hit q.cells l.forth l.distinct e)
          (same_cell p h q l hit q.cells l.forth)
  ]

  pub pop_front-IsLinked : front q ≡ some p → IsLinked (pop_front p q)
  unfolding pop_front
  pop_front-IsLinked e = elim (Option-cases (lookup p q.index)) [
    | inl miss ↦ absurd (ground (arith, absent p q l miss, member-first p (pages q) e))
    | inr (h, hit) ↦
        rw (drop-first-erase p h q l hit q.cells l.forth l.distinct e) (cut-IsLinked p h q l hit)
  ]
