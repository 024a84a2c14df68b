-- ===== src/Engine/IoEngine/Batches.antt =====
-- What becomes of a batch, and of the completions that are waited for.
use agent_mem_io.Prelude.{
  ℕ, zero, suc, ◌+◌, ◌<◌, ◌≤◌, ◌≡◌, ◌≢◌, refl, sym, subst, ap, ◌∙◌, Bool, true, false, Option, none,
  some, List, [], ◌∷◌, ◌++◌, length, All, ltb, ◌==◌, arith, inl, inr, Bool-cases,
}
use agent_mem_io.Buffer.Pool.{invalid_node_id}
use mathlib.Core.List.{append_assoc}
use agent_mem_io.Engine.IoEngine.{
  IoRequest, IoCompletion, Cqe, Ring, IoUring, Acquired, got, filled, second, retry, acquire, fill,
  submit_filled, submit_batch, process_cqe, wait_completion, wait_completion_batch,
}

-- A submission queue of liburing of a positive depth, whose submissions succeed: there is an entry
-- while the queue is not full, an entry is prepared at its end, and a submission hands over all of
-- it in its order.
pub record IsQueue {K : Type 0} (liburing : Ring K) (depth : ℕ) : Type 0 where
  pub queued : K → List IoRequest
  pub sent : K → List IoRequest
  pub positive : 1 ≤ depth
  pub entry_there : (k : K) → (liburing.get_sqe k).0 ≡ ltb (length (queued k)) depth
  pub entry_queued : (k : K) → queued (liburing.get_sqe k).1 ≡ queued k
  pub entry_sent : (k : K) → sent (liburing.get_sqe k).1 ≡ sent k
  pub prep_queued : (r : IoRequest) (k : K) → queued (liburing.prep r k) ≡ queued k ++ r ∷ []
  pub prep_sent : (r : IoRequest) (k : K) → sent (liburing.prep r k) ≡ sent k
  pub submits : (k : K) → (liburing.submit k).0 ≡ true
  pub submit_queued : (k : K) → queued (liburing.submit k).1 ≡ []
  pub submit_sent : (k : K) → sent (liburing.submit k).1 ≡ sent k ++ queued k

append_nil : (xs : List IoRequest) → xs ++ [] ≡ xs
append_nil [] = refl
append_nil (x ∷ xs) = ap (◌∷◌ x) (append_nil xs)

module _ {K : Type 0} (liburing : Ring K) (depth : ℕ) (laws : IsQueue liburing depth) where
  -- All that was handed over or waits to be.
  abbrev pub requested : K → List IoRequest
  requested k = laws.sent k ++ laws.queued k

  -- An entry, with the requests as before.
  abbrev Entry : K → Acquired K → Type 0
  Entry k a = (l : K) × (a ≡ got l) × (requested l ≡ requested k)

  second-Entry : (k : K) → length (laws.queued k) < depth → Entry k (second (liburing.get_sqe k))
  second-Entry k h =
      by_pair (liburing.get_sqe k) (laws.entry_there k) (laws.entry_queued k) (laws.entry_sent k)
    where
      by_pair :
          (t : Bool × K)
          → t.0 ≡ ltb (length (laws.queued k)) depth
          → laws.queued t.1 ≡ laws.queued k
          → laws.sent t.1 ≡ laws.sent k
          → Entry k (second t)
      by_pair (true, l) e q s = (l, refl, rw (q, s) refl)
      by_pair (false, l) e q s = absurd (ground (arith, e, h))

  -- On a full queue the requests are handed over; there must be some that this batch has counted.
  acquire-Entry : (n : ℕ) (k : K) → (n ≡ 0 → laws.queued k ≡ []) → Entry k (acquire liburing n k)
  unfolding acquire retry
  acquire-Entry n k fresh = elim (Bool-cases (liburing.get_sqe k).0) [
    | inl e ↦
        rw (e, acquire)
          ((liburing.get_sqe k).1, refl, rw (laws.entry_queued k, laws.entry_sent k) refl)
    | inr e ↦
        let l = (liburing.get_sqe k).1 in
        let full : ltb (length (laws.queued k)) depth ≡ false = sym (laws.entry_there k) ∙ e in
        elim (Bool-cases (n == 0)) [
          | inl z ↦
              let none_queued : length (laws.queued k) ≡ 0 =
                ap length (fresh (ground (arith, z))) in
              absurd (ground (arith, full, none_queued, laws.positive))
          | inr z ↦
              let m = (liburing.submit l).1 in
              let some_room : length (laws.queued m) < depth =
                subst (λ x. length x < depth) (sym (laws.submit_queued l)) laws.positive in
              let (o, at, same) = second-Entry m some_room in
              let moved : requested m ≡ requested k =
                rw
                  (laws.submit_queued l, laws.submit_sent l, laws.entry_queued k, laws.entry_sent k)
                  (append_nil (laws.sent k ++ laws.queued k)) in
              rw (e, acquire, retry, z, laws.submits l) (o, at, same ∙ moved)
        ]
  ]

  -- The first phase fills an entry for each request.
  fill-Entry :
      (rs : List IoRequest) (n : ℕ) (k : K)
      → (n ≡ 0 → laws.queued k ≡ [])
      → (l : K) × (fill liburing rs n k ≡ filled (length rs + n) l)
        × (requested l ≡ requested k ++ rs)
  unfolding fill
  fill-Entry [] n k fresh = (k, ap (λ x. filled x k) (omega arith), sym (append_nil (requested k)))
  fill-Entry (r ∷ rs) n k fresh =
      let (l, e, same) = acquire-Entry n k fresh in
      let (m, f, all) =
        fill-Entry rs (suc n) (liburing.prep r l) (λ z. absurd (omega (arith, z))) in
      let count : length rs + suc n ≡ suc (length rs) + n = omega arith in
      let more : requested (liburing.prep r l) ≡ requested k ++ r ∷ [] =
        rw (laws.prep_queued r l, laws.prep_sent r l, sym same)
          (sym (append_assoc (laws.sent l) (laws.queued l) (r ∷ []))) in
      (
        m,
        rw (fill, e) (f ∙ ap (λ x. filled x m) count),
        all ∙ rw more (append_assoc (requested k) (r ∷ []) rs),
      )

  submit_filled-Sends :
      (n : ℕ) (k : K) (u : IoUring K)
      → let t = submit_filled liburing (filled n k) u in
        (t.0 ≡ n)
        × (requested t.1.ring ≡ requested k)
        × ((n ≡ 0 → laws.queued k ≡ []) → laws.queued t.1.ring ≡ [])
  submit_filled-Sends n k u = elim (Bool-cases (n == 0)) [
    | inl z ↦ rw z (ground (arith, z), refl, λ f. f (ground (arith, z)))
    | inr z ↦
        rw (z, laws.submits k)
          (
            refl,
            rw (laws.submit_queued k, laws.submit_sent k) (append_nil (requested k)),
            λ f. laws.submit_queued k,
          )
  ]

  -- On a queue of liburing of a positive depth, empty at the start, whose submissions succeed, a
  -- batch of any size, also one larger than the queue, is handed over whole and in its order:
  -- submit_batch gives the number of its requests, what was sent grows by them, and the queue is
  -- empty again.
  pub submit_batch-Sends :
      (rs : List IoRequest) (u : IoUring K)
      → laws.queued u.ring ≡ []
      → let t = submit_batch liburing rs u in
        (t.0 ≡ length rs)
        × (laws.sent t.1.ring ≡ laws.sent u.ring ++ rs)
        × (laws.queued t.1.ring ≡ [])
  unfolding submit_batch fill
  submit_batch-Sends [] u clear = (refl, sym (append_nil (laws.sent u.ring)), clear)
  submit_batch-Sends (r ∷ rs) u clear =
      let (k, e, all) = fill-Entry (r ∷ rs) 0 u.ring (λ z. clear) in
      let n = length (r ∷ rs) + 0 in
      let u' = (submit_filled liburing (filled n k) u).1 in
      let (count, same, idle) = submit_filled-Sends n k u in
      let none_left : laws.queued u'.ring ≡ [] = idle (λ z. absurd (omega (arith, z))) in
      let before : requested u.ring ≡ laws.sent u.ring =
        ap (λ x. laws.sent u.ring ++ x) clear ∙ append_nil (laws.sent u.ring) in
      let after : requested u'.ring ≡ laws.sent u'.ring =
        ap (λ x. laws.sent u'.ring ++ x) none_left ∙ append_nil (laws.sent u'.ring) in
      rw e (
        count ∙ omega arith,
        sym after ∙ (same ∙ (all ∙ ap (λ x. x ++ (r ∷ rs)) before)),
        none_left,
      )

-- A completion of the ring: it names a node and has no buffer.
abbrev pub IsPlain : IoCompletion → Type 0
IsPlain c = (c.node_id ≢ invalid_node_id) × (c.buffer ≡ none)

process_cqe-buffer :
    {K : Type 0} (c : Option Cqe) (u : IoUring K) → (process_cqe c u).0.buffer ≡ none
unfolding process_cqe
process_cqe-buffer none u = refl
process_cqe-buffer (some c) u = refl

module _ {K : Type 0} (liburing : Ring K) where
  -- wait_completion_batch gives at most as many completions as it is asked for; each names a node,
  -- and none has a buffer.
  pub wait_completion_batch-IsPlain :
      (n : ℕ) (u : IoUring K)
      → (length (wait_completion_batch liburing n u).0 ≤ n)
        × All IsPlain (wait_completion_batch liburing n u).0
  unfolding wait_completion_batch wait_completion
  wait_completion_batch-IsPlain zero u = (omega arith, tt)
  wait_completion_batch-IsPlain (suc n) u =
      let t = wait_completion liburing u in
      let (l, a) = wait_completion_batch-IsPlain n t.1 in
      elim (Bool-cases (t.0.node_id == invalid_node_id)) [
        | inl e ↦ rw (e, wait_completion_batch) (omega arith, tt)
        | inr e ↦
            rw (e, wait_completion_batch)
              (omega (arith, l), ((ground (arith, e), process_cqe-buffer _ _), a))
      ]
