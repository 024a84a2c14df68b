-- ===== src/Engine/Order.antt =====
-- Queues of pairs that are kept in an order: what a push keeps of the order and of the pairs.
use agent_mem_io.Prelude.{
  ℕ, ◌≡◌, ◌⊎◌, refl, subst, Bool, true, false, List, [], ◌∷◌, All, member, arith, inl, inr,
  Bool-cases,
}
use agent_mem_io.Graph.Search.{push}
use agent_mem_io.Graph.Search.Queues.{ids, push-All}

-- The order test of distances is that of a weak order, as `<` on floats that are numbers.
pub record IsWeakOrder {D : Type 0} (lt : D → D → Bool) : Type 0 where
  pub asym : (a b : D) → lt a b ≡ true → lt b a ≡ false
  pub not_lt_trans : (a b c : D) → lt b a ≡ false → lt c b ≡ false → lt c a ≡ false

pub irrefl : {D : Type 0} (lt : D → D → Bool) → IsWeakOrder lt → (a : D) → lt a a ≡ false
irrefl lt w a = elim (Bool-cases (lt a a)) [ inl e ↦ w.asym a a e | inr e ↦ e ]

module _ {D : Type 0} where
  -- A pair is in a queue.
  abbrev pub Has : ℕ × D → List (ℕ × D) → Type 0
  Has p [] = ⊥
  Has p (q ∷ qs) = (q ≡ p) ⊎ Has p qs

  pub All-Has : (P : ℕ × D → Type 0) (p : ℕ × D) (qs : List (ℕ × D)) → All P qs → Has p qs → P p
  All-Has P p [] a h = absurd h
  All-Has P p (q ∷ qs) a h = elim h [ inl e ↦ subst P e a.0 | inr t ↦ All-Has P p qs a.1 t ]

  pub All-map :
      (P Q : ℕ × D → Type 0) (qs : List (ℕ × D)) → ((p : ℕ × D) → P p → Q p) → All P qs → All Q qs
  All-map P Q [] f a = tt
  All-map P Q (q ∷ qs) f a = (f q a.0, All-map P Q qs f a.1)

  pub Has-All : (qs : List (ℕ × D)) → All (λ p. Has p qs) qs
  Has-All [] = tt
  Has-All (q ∷ qs) =
      (inl refl, All-map (λ p. Has p qs) (λ p. Has p (q ∷ qs)) qs (λ p h. inr h) (Has-All qs))

  pub member-Has : (p : ℕ × D) (qs : List (ℕ × D)) → Has p qs → member p.0 (ids qs) ≡ true
  member-Has p [] h = absurd h
  member-Has p (q ∷ qs) h = elim h [
    | inl e ↦ let s : q.0 ≡ p.0 = cc in ground (arith, s)
    | inr t ↦ ground (arith, member-Has p qs t)
  ]

  pub push-Has_new :
      (before : ℕ × D → ℕ × D → Bool) (p : ℕ × D) (qs : List (ℕ × D)) → Has p (push before p qs)
  unfolding push
  push-Has_new before p [] = inl refl
  push-Has_new before p (q ∷ qs) = elim (Bool-cases (before p q)) [
    | inl e ↦ rw (push, e) (inl refl)
    | inr e ↦ rw (push, e) (inr (push-Has_new before p qs))
  ]

  pub push-Has :
      (before : ℕ × D → ℕ × D → Bool) (p r : ℕ × D) (qs : List (ℕ × D))
      → Has r qs
      → Has r (push before p qs)
  unfolding push
  push-Has before p r [] h = absurd h
  push-Has before p r (q ∷ qs) h = elim (Bool-cases (before p q)) [
    | inl e ↦ rw (push, e) (inr h)
    | inr e ↦ rw (push, e) (elim h [ inl s ↦ inl s | inr t ↦ inr (push-Has before p r qs t) ])
  ]

  module _ (R : ℕ × D → ℕ × D → Type 0) where
    -- Each pair is related to those that come out after it.
    abbrev pub Ordered : List (ℕ × D) → Type 0
    Ordered [] = Unit
    Ordered (q ∷ qs) = All (R q) qs × Ordered qs

    pub push-Ordered :
        (before : ℕ × D → ℕ × D → Bool)
        → ((p q : ℕ × D) → before p q ≡ true → R p q)
        → ((p q : ℕ × D) → before p q ≡ false → R q p)
        → ((p q r : ℕ × D) → R p q → R q r → R p r)
        → (p : ℕ × D) (qs : List (ℕ × D)) → Ordered qs
        → Ordered (push before p qs)
    unfolding push
    push-Ordered before f b t p [] o = (tt, tt)
    push-Ordered before f b t p (q ∷ qs) o = elim (Bool-cases (before p q)) [
      | inl e ↦
          let pq = f p q e in rw (push, e) ((pq, All-map (R q) (R p) qs (λ r. t p q r pq) o.0), o)
      | inr e ↦
          rw (push, e)
            (push-All (R q) before p qs (b p q e) o.0, push-Ordered before f b t p qs o.1)
    ]
