-- ===== src/Buffer/Queue/Linked.antt =====
-- The list and the map of a queue stay in step, and then each operation is an operation on the
-- plain list of pages.
use agent_mem_io.Prelude.{
  ℕ, ◌+◌, ◌<◌, ◌≤◌, ◌≡◌, refl, ap, true, false, none, some, List, [], ◌∷◌, ◌++◌, map, arith, Map,
  lookup, insert, erase, lookup-insert, lookup-erase, All, Bool-cases, Option-cases, inl, inr,
  if◌then◌else◌, Distinct, member, remove, remove-Distinct, append-Distinct, remove_absent, is_some,
  member-remove, sym, ◌∙◌,
}
use agent_mem_io.Buffer.Queue.{Queue, empty, pages, has, push_front, push_back, delete, move_front}

pub record IsLinked (q : Queue) : Type 0 where
  pub forth : All (λ c. lookup c.1 q.index ≡ some c.0) q.cells
  pub back : (p h : ℕ) → lookup p q.index ≡ some h → lookup h q.cells ≡ some p
  pub below : All (λ c. c.0 < q.fresh) q.cells
  pub distinct : Distinct (pages q)

abbrev pub snds : Map ℕ → List ℕ
snds = map (λ c. c.1)

pub member_of_lookup : (h p : ℕ) (cs : Map ℕ) → lookup h cs ≡ some p → member p (snds cs) ≡ true
member_of_lookup h p [] e = cc
member_of_lookup h p ((g, r) ∷ cs) e = ground (arith, member_of_lookup h p cs)

indexed_of_member :
    (p : ℕ) (ix cs : Map ℕ)
    → All (λ c. lookup c.1 ix ≡ some c.0) cs
    → member p (snds cs) ≡ true
    → is_some (lookup p ix) ≡ true
indexed_of_member p ix [] a m = cc
indexed_of_member p ix ((g, r) ∷ cs) a m = ground (arith, indexed_of_member p ix cs a.1)

fresh_absent : (n m : ℕ) (cs : Map ℕ) → All (λ c. c.0 < n) cs → n ≤ m → lookup m cs ≡ none
fresh_absent n m [] a h = refl
fresh_absent n m ((g, r) ∷ cs) a h = ground (arith, a.0, fresh_absent n m cs a.1 h)

-- What the map knows is exactly what stands in the list.
pub has-eq-member : (p : ℕ) (q : Queue) → IsLinked q → has p q ≡ member p (pages q)
unfolding has
has-eq-member p q l = elim (Option-cases (lookup p q.index)) [
  | inl miss ↦ elim (Bool-cases (member p (pages q))) [
    | inl m ↦ absurd (ground (arith, indexed_of_member p q.index q.cells l.forth m))
    | inr n ↦ rw (miss, n)
  ]
  | inr (h, hit) ↦ rw (hit, member_of_lookup h p q.cells (l.back p h hit))
]

-- The new cell of a push does not disturb the others.
forth-insert :
    (p n : ℕ) (ix cs : Map ℕ)
    → All (λ c. lookup c.1 ix ≡ some c.0) cs
    → lookup p ix ≡ none
    → All (λ c. lookup c.1 (insert p n ix) ≡ some c.0) cs
forth-insert p n ix [] a e = tt
forth-insert p n ix ((g, r) ∷ cs) a e =
    (ground (arith, lookup-insert p r n ix, a.0), forth-insert p n ix cs a.1 e)

below_weaken : (n : ℕ) (cs : Map ℕ) → All (λ c. c.0 < n) cs → All (λ c. c.0 < n + 1) cs
below_weaken n [] a = tt
below_weaken n ((g, r) ∷ cs) a = (omega (arith, a.0), below_weaken n cs a.1)

module _ {ℓ} {A : Type ℓ} (P : A → Type 0) where
  All-snoc : (xs : List A) (x : A) → All P xs → P x → All P (xs ++ x ∷ [])
  All-snoc [] x a h = (h, tt)
  All-snoc (y ∷ ys) x a h = (a.0, All-snoc ys x a.1 h)

lookup-snoc :
    (h n p : ℕ) (cs : Map ℕ)
    → lookup h (cs ++ (n, p) ∷ [])
      ≡ (if is_some (lookup h cs) then lookup h cs else lookup h ((n, p) ∷ []))
lookup-snoc h n p [] = refl
lookup-snoc h n p ((g, r) ∷ cs) = ground (arith, lookup-snoc h n p cs)

pub snds-snoc : (cs : Map ℕ) (n p : ℕ) → snds (cs ++ (n, p) ∷ []) ≡ snds cs ++ p ∷ []
snds-snoc [] n p = refl
snds-snoc ((g, r) ∷ cs) n p = ap (◌∷◌ r) (snds-snoc cs n p)

unindexed : (p : ℕ) (q : Queue) → IsLinked q → member p (pages q) ≡ false → lookup p q.index ≡ none
unfolding has
unindexed p q l e = ground (arith, has-eq-member p q l)

pub push_front-IsLinked :
    (p : ℕ) (q : Queue) → IsLinked q → member p (pages q) ≡ false → IsLinked (push_front p q)
unfolding push_front
push_front-IsLinked p q l e =
    let new = unindexed p q l e in
    record {
      forth = (
        ground (arith, lookup-insert p p q.fresh q.index),
        forth-insert p q.fresh q.index q.cells l.forth new,
      );
      back = λ r h x. ground (
        arith,
        lookup-insert p r q.fresh q.index,
        l.back r h,
        fresh_absent q.fresh q.fresh q.cells l.below (omega arith),
      );
      below = (omega arith, below_weaken q.fresh q.cells l.below);
      distinct = (e, l.distinct);
    }

pub push_back-IsLinked :
    (p : ℕ) (q : Queue) → IsLinked q → member p (pages q) ≡ false → IsLinked (push_back p q)
unfolding push_back
push_back-IsLinked p q l e =
    let new = unindexed p q l e in
    record {
      forth =
          All-snoc _ q.cells (q.fresh, p) (forth-insert p q.fresh q.index q.cells l.forth new)
            (ground (arith, lookup-insert p p q.fresh q.index));
      back = λ r h x. ground (
        arith,
        lookup-insert p r q.fresh q.index,
        lookup-snoc h q.fresh p q.cells,
        l.back r h,
        fresh_absent q.fresh q.fresh q.cells l.below (omega arith),
      );
      below = All-snoc _ q.cells (q.fresh, p) (below_weaken q.fresh q.cells l.below) (omega arith);
      distinct = rw snds-snoc (append-Distinct p (pages q) l.distinct e);
    }

-- Only what the map answers counts.
IsLinked-index :
    (q : Queue) (ix : Map ℕ)
    → ((p : ℕ) → lookup p ix ≡ lookup p q.index)
    → IsLinked q
    → IsLinked (record q { index = ix })
IsLinked-index q ix same l = record {
  forth = moved q.cells l.forth;
  back = λ p h x. l.back p h (sym (same p) ∙ x);
  below = l.below;
  distinct = l.distinct;
}
  where
    moved :
        (cs : Map ℕ)
        → All (λ c. lookup c.1 q.index ≡ some c.0) cs
        → All (λ c. lookup c.1 ix ≡ some c.0) cs
    moved [] a = tt
    moved ((g, r) ∷ cs) a = (same r ∙ a.0, moved cs a.1)

-- Erasing the cell of an iterator erases the page that the map has for it.
module _ (p h : ℕ) (q : Queue) (l : IsLinked q) (hit : lookup p q.index ≡ some h) where
  pub same_cell :
      (cs : Map ℕ)
      → All (λ c. lookup c.1 q.index ≡ some c.0) cs
      → snds (erase h cs) ≡ remove p (snds cs)
  same_cell [] a = refl
  same_cell ((g, r) ∷ cs) a = ground (arith, same_cell cs a.1, a.0, l.back p h hit, l.back r g a.0)

  erase-forth :
      (cs : Map ℕ)
      → All (λ c. lookup c.1 q.index ≡ some c.0) cs
      → All (λ c. lookup c.1 (erase p q.index) ≡ some c.0) (erase h cs)
  erase-forth [] a = tt
  erase-forth ((g, r) ∷ cs) a = ground (arith, erase-forth cs a.1, a.0, lookup-erase p r q.index)

  erase-below : (n : ℕ) (cs : Map ℕ) → All (λ c. c.0 < n) cs → All (λ c. c.0 < n) (erase h cs)
  erase-below n [] a = tt
  erase-below n ((g, r) ∷ cs) a = ground (arith, erase-below n cs a.1, a.0)

  -- The queue between the erasure from the list and the update of the map.
  pub cut-IsLinked : IsLinked (record q { cells = erase h q.cells; index = erase p q.index })
  cut-IsLinked = record {
    forth = erase-forth q.cells l.forth;
    back = λ r g x.
        ground
          (arith, lookup-erase p r q.index, lookup-erase h g q.cells, l.back r g, l.back p h hit);
    below = erase-below q.fresh q.cells l.below;
    distinct = rw (same_cell q.cells l.forth) (remove-Distinct p (pages q) l.distinct);
  }

  cut-absent : member p (snds (erase h q.cells)) ≡ false
  cut-absent = rw (same_cell q.cells l.forth) (ground (arith, member-remove p p (pages q)))

  cut_moved-IsLinked : IsLinked (push_front p (record q { cells = erase h q.cells }))
  unfolding push_front
  cut_moved-IsLinked =
      IsLinked-index (push_front p (record q { cells = erase h q.cells; index = erase p q.index }))
        (insert p q.fresh q.index)
        (λ x. ground (
          arith,
          lookup-insert p x q.fresh q.index,
          lookup-insert p x q.fresh (erase p q.index),
          lookup-erase p x q.index,
        ))
        (push_front-IsLinked p (record q { cells = erase h q.cells; index = erase p q.index })
          cut-IsLinked cut-absent)

pub absent : (p : ℕ) (q : Queue) → IsLinked q → lookup p q.index ≡ none → member p (pages q) ≡ false
unfolding has
absent p q l miss = ground (arith, has-eq-member p q l)

pub pages-push_front : (p : ℕ) (q : Queue) → pages (push_front p q) ≡ p ∷ pages q
unfolding push_front
pages-push_front p q = refl

pub pages-push_back : (p : ℕ) (q : Queue) → pages (push_back p q) ≡ pages q ++ p ∷ []
unfolding push_back
pages-push_back p q = snds-snoc q.cells q.fresh p

pub pages-delete : (p : ℕ) (q : Queue) → IsLinked q → pages (delete p q) ≡ remove p (pages q)
unfolding delete
pages-delete p q l = elim (Option-cases (lookup p q.index)) [
  | inl miss ↦ rw (miss, delete) (sym (remove_absent p (pages q) (absent p q l miss)))
  | inr (h, hit) ↦ rw (hit, delete) (same_cell p h q l hit q.cells l.forth)
]

pub delete-IsLinked : (p : ℕ) (q : Queue) → IsLinked q → IsLinked (delete p q)
unfolding delete
delete-IsLinked p q l = elim (Option-cases (lookup p q.index)) [
  | inl miss ↦ rw (miss, delete) l
  | inr (h, hit) ↦ rw (hit, delete) (cut-IsLinked p h q l hit)
]

pub pages-move_front :
    (p : ℕ) (q : Queue)
    → IsLinked q
    → member p (pages q) ≡ true
    → pages (move_front p q) ≡ p ∷ remove p (pages q)
unfolding move_front
pages-move_front p q l m = elim (Option-cases (lookup p q.index)) [
  | inl miss ↦ absurd (ground (arith, absent p q l miss))
  | inr (h, hit) ↦ rw (hit, move_front) (ap (◌∷◌ p) (same_cell p h q l hit q.cells l.forth))
]

pub move_front-IsLinked : (p : ℕ) (q : Queue) → IsLinked q → IsLinked (move_front p q)
unfolding move_front
move_front-IsLinked p q l = elim (Option-cases (lookup p q.index)) [
  | inl miss ↦ rw (miss, move_front) l
  | inr (h, hit) ↦ rw (hit, move_front) (cut_moved-IsLinked p h q l hit)
]

pub empty-IsLinked : IsLinked empty
empty-IsLinked = record { forth = tt; back = λ p h x. cc; below = tt; distinct = tt }
