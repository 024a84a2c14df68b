-- ===== src/Lsm/Worker/Turns.antt =====
-- What holds of the compaction thread between its steps, and the steps that keep it.
use agent_mem_io.Prelude.{
  ℕ, ◌+◌, ◌<◌, ◌≡◌, refl, sym, subst, ap, ◌∙◌, Bool, true, false, ◌||◌, List, [], ◌∷◌, ◌++◌, length,
  All, leb, if◌then◌else◌, arith, length-append, inl, inr, Bool-cases,
}
use mathlib.Core.List.{append_assoc}
use agent_mem_io.Lsm.Entry.{ErrorCode, success, invalid_argument}
use agent_mem_io.Lsm.Worker.{
  Thread, absent, waiting, woken, holds, compacts, returned, reports_next, Owner, free, tested,
  raised, cleared, resumed, halted, joining, Worker, clear_compacting, create_thread,
  trigger_compaction, halt, wake, take_level, take_next, begin_compaction, return_compaction,
  end_compaction, call_back,
}

-- The level that the thread has in its hands.
abbrev pub held : Thread → List ℕ
held absent = []
held waiting = []
held woken = []
held (holds l) = l ∷ []
held (compacts l) = l ∷ []
held (returned b) = []
held (reports_next b) = []

abbrev pub works : Thread → Bool
works absent = false
works waiting = false
works woken = false
works (holds l) = false
works (compacts l) = true
works (returned b) = true
works (reports_next b) = false

-- The compaction whose report is still to come.
abbrev pub unreported : Thread → ℕ
unreported absent = 0
unreported waiting = 0
unreported woken = 0
unreported (holds l) = 0
unreported (compacts l) = 0
unreported (returned b) = 1
unreported (reports_next b) = 1

abbrev pub alive : Thread → Bool
alive absent = false
alive waiting = true
alive woken = true
alive (holds l) = true
alive (compacts l) = true
alive (returned b) = true
alive (reports_next b) = true

-- What the owner's place tells of the thread and of the flag. In `start` there is no thread, so that
-- the new one takes no other's place.
abbrev pub Owns : Owner → Bool → Bool → Type 0
Owns free running there_is = running ≡ there_is
Owns tested running there_is = (running ≡ false) × (there_is ≡ false)
Owns raised running there_is = (running ≡ true) × (there_is ≡ false)
Owns cleared running there_is = (running ≡ true) × (there_is ≡ false)
Owns resumed running there_is = (running ≡ true) × (there_is ≡ false)
Owns halted running there_is = running ≡ false
Owns joining running there_is = running ≡ false

All-append : (P : ℕ → Type 0) (xs ys : List ℕ) → All P xs → All P ys → All P (xs ++ ys)
All-append P [] ys a b = b
All-append P (x ∷ xs) ys a b = (a.0, All-append P xs ys a.1 b)

All-around :
    (P : ℕ → Type 0) (xs : List ℕ) (y : ℕ) (ys : List ℕ)
    → All P (xs ++ y ∷ ys)
    → P y × All P (xs ++ ys)
All-around P [] y ys a = a
All-around P (x ∷ xs) y ys a = let (h, t) = All-around P xs y ys a.1 in (h, (a.0, t))

nil_right : (xs : List ℕ) → xs ++ [] ≡ xs
nil_right [] = refl
nil_right (x ∷ xs) = ap (◌∷◌ x) (nil_right xs)

module _ (max_levels : ℕ) (enabled : Bool) (has_callback : Bool) where
  -- The levels that were pushed are, in their order, those whose compaction is finished, the one in
  -- the thread's hands, and those that are pending.
  pub record IsRight (pushed : List ℕ) (w : Worker) : Type 0 where
    pub finished : List ℕ
    pub order : pushed ≡ finished ++ (held w.thread ++ w.pending_queue)
    pub reported : has_callback ≡ true → length w.reports + unreported w.thread ≡ length finished
    pub levels : All (λ (l : ℕ). l < max_levels) pushed
    pub allowed : All (λ (l : ℕ). l < max_levels) w.admitted
    pub flag : w.compacting ≡ works w.thread
    pub owns : Owns w.owner w.running (alive w.thread)

  -- A step that pushes nothing.
  pub quiet : (pushed : List ℕ) (w : Worker) → IsRight pushed w → IsRight (pushed ++ []) w
  quiet pushed w v = subst (λ xs. IsRight xs w) (sym (nil_right pushed)) v

  Owns-wake : (o : Owner) (running : Bool) → Owns o running true → Owns o running running
  Owns-wake free running h = refl
  Owns-wake tested running h = absurd (cc)
  Owns-wake raised running h = absurd (cc)
  Owns-wake cleared running h = absurd (cc)
  Owns-wake resumed running h = absurd (cc)
  Owns-wake halted running h = h
  Owns-wake joining running h = h

  -- A step of a thread that is there, which stays there.
  module _ (pushed : List ℕ) (w : Worker) (v : IsRight pushed w) (t : Thread)
      (at : w.thread ≡ t) where
    order_of_place : pushed ≡ v.finished ++ (held t ++ w.pending_queue)
    order_of_place = v.order ∙ ap (λ x. v.finished ++ (held x ++ w.pending_queue)) at

    reported_of_place : has_callback ≡ true → length w.reports + unreported t ≡ length v.finished
    reported_of_place c =
        subst (λ x. length w.reports + unreported x ≡ length v.finished) at (v.reported c)

    flag_of_place : w.compacting ≡ works t
    flag_of_place = v.flag ∙ ap works at

    place-Owns : (b : Bool) → alive t ≡ b → Owns w.owner w.running b
    place-Owns b e = subst (Owns w.owner w.running) (ap alive at ∙ e) v.owns

  pub wake-IsRight :
      (pushed : List ℕ) (w : Worker)
      → w.thread ≡ waiting
      → IsRight pushed w
      → IsRight pushed (wake w)
  unfolding wake
  wake-IsRight pushed w t v =
      let owns = Owns-wake w.owner w.running (place-Owns pushed w v waiting t true refl) in
      elim (Bool-cases w.running) [
        | inl e ↦ subst (IsRight pushed) (sym (picked true e)) (record {
          finished = v.finished;
          order = order_of_place pushed w v waiting t;
          reported = reported_of_place pushed w v waiting t;
          levels = v.levels;
          allowed = v.allowed;
          flag = flag_of_place pushed w v waiting t;
          owns = subst (Owns w.owner w.running) e owns;
        })
        | inr e ↦ subst (IsRight pushed) (sym (picked false e)) (record {
          finished = v.finished;
          order = order_of_place pushed w v waiting t;
          reported = reported_of_place pushed w v waiting t;
          levels = v.levels;
          allowed = v.allowed;
          flag = flag_of_place pushed w v waiting t;
          owns = subst (Owns w.owner w.running) e owns;
        })
      ]
    where
      picked :
          (b : Bool)
          → w.running ≡ b
          → wake w ≡ (if b then record w { thread = woken } else record w { thread = absent })
      picked b e =
          ap (λ x. if x then record w { thread = woken } else record w { thread = absent }) e

  back-IsRight :
      (pushed : List ℕ) (w : Worker)
      → w.thread ≡ woken
      → IsRight pushed w
      → IsRight pushed (record w { thread = waiting })
  back-IsRight pushed w t v = record {
    finished = v.finished;
    order = order_of_place pushed w v woken t;
    reported = reported_of_place pushed w v woken t;
    levels = v.levels;
    allowed = v.allowed;
    flag = flag_of_place pushed w v woken t;
    owns = place-Owns pushed w v woken t true refl;
  }

  take_level-IsRight :
      (queue pushed : List ℕ) (w : Worker)
      → w.pending_queue ≡ queue
      → w.thread ≡ woken
      → IsRight pushed w
      → IsRight pushed (take_level queue w)
  take_level-IsRight [] pushed w q t v = back-IsRight pushed w t v
  take_level-IsRight (x ∷ xs) pushed w q t v = record {
    finished = v.finished;
    order = order_of_place pushed w v woken t ∙ ap (λ y. v.finished ++ y) q;
    reported = reported_of_place pushed w v woken t;
    levels = v.levels;
    allowed = v.allowed;
    flag = flag_of_place pushed w v woken t;
    owns = place-Owns pushed w v woken t true refl;
  }

  pub take_next-IsRight :
      (pushed : List ℕ) (w : Worker)
      → w.thread ≡ woken
      → IsRight pushed w
      → IsRight pushed (take_next w)
  unfolding take_next
  take_next-IsRight pushed w t v = by_pause w.paused
    where
      by_pause :
          (b : Bool)
          → IsRight pushed
              (if b then record w { thread = waiting } else take_level w.pending_queue w)
      by_pause true = back-IsRight pushed w t v
      by_pause false = take_level-IsRight w.pending_queue pushed w refl t v

  pub begin-IsRight :
      (l : ℕ) (pushed : List ℕ) (w : Worker)
      → w.thread ≡ holds l
      → IsRight pushed w
      → IsRight pushed (begin_compaction l w)
  unfolding begin_compaction
  begin-IsRight l pushed w t v = record {
    finished = v.finished;
    order = order_of_place pushed w v (holds l) t;
    reported = reported_of_place pushed w v (holds l) t;
    levels = v.levels;
    allowed = v.allowed;
    flag = refl;
    owns = place-Owns pushed w v (holds l) t true refl;
  }

  pub return-IsRight :
      (l : ℕ) (code : ErrorCode) (pushed : List ℕ) (w : Worker)
      → w.thread ≡ compacts l
      → IsRight pushed w
      → IsRight pushed (return_compaction code w)
  unfolding return_compaction
  return-IsRight l code pushed w t v = record {
    finished = v.finished ++ l ∷ [];
    order =
        order_of_place pushed w v (compacts l) t
        ∙ sym (append_assoc v.finished (l ∷ []) w.pending_queue);
    reported = λ c.
        omega
          (arith, reported_of_place pushed w v (compacts l) t c, length-append v.finished (l ∷ []));
    levels = v.levels;
    allowed = v.allowed;
    flag = flag_of_place pushed w v (compacts l) t;
    owns = place-Owns pushed w v (compacts l) t true refl;
  }

  pub end-IsRight :
      (fine : Bool) (pushed : List ℕ) (w : Worker)
      → w.thread ≡ returned fine
      → IsRight pushed w
      → IsRight pushed (end_compaction fine w)
  unfolding end_compaction
  end-IsRight fine pushed w t v = record {
    finished = v.finished;
    order = order_of_place pushed w v (returned fine) t;
    reported = reported_of_place pushed w v (returned fine) t;
    levels = v.levels;
    allowed = v.allowed;
    flag = refl;
    owns = place-Owns pushed w v (returned fine) t true refl;
  }

  pub call_back-IsRight :
      (fine : Bool) (pushed : List ℕ) (w : Worker)
      → w.thread ≡ reports_next fine
      → IsRight pushed w
      → IsRight pushed (call_back has_callback fine w)
  unfolding call_back
  call_back-IsRight fine pushed w t v = record {
    finished = v.finished;
    order = order_of_place pushed w v (reports_next fine) t;
    reported = λ c. rw c (omega (arith, reported_of_place pushed w v (reports_next fine) t c));
    levels = v.levels;
    allowed = v.allowed;
    flag = flag_of_place pushed w v (reports_next fine) t;
    owns = place-Owns pushed w v (reports_next fine) t true refl;
  }

  pub trigger-IsRight :
      (level : ℕ) (pushed : List ℕ) (w : Worker)
      → IsRight pushed w
      → IsRight pushed (trigger_compaction max_levels enabled level w).1
  unfolding trigger_compaction
  trigger-IsRight level pushed w v =
      by_flag (leb max_levels level || w.compacting) (λ e. ground (arith, e))
    where
      by_flag :
          (x : Bool)
          → (x ≡ false → level < max_levels)
          → let t : ErrorCode × Worker =
              if x
              then (invalid_argument, w)
              else (success, record w { admitted = level ∷ w.admitted }) in
            IsRight pushed t.1
      by_flag true h = v
      by_flag false h = record {
        finished = v.finished;
        order = v.order;
        reported = v.reported;
        levels = v.levels;
        allowed = (h refl, v.allowed);
        flag = v.flag;
        owns = v.owns;
      }

  pub push-IsRight :
      (level : ℕ) (before after pushed : List ℕ) (w : Worker)
      → w.admitted ≡ before ++ level ∷ after
      → IsRight pushed w
      → IsRight
          (pushed ++ level ∷ [])
          (record w { pending_queue = w.pending_queue ++ level ∷ []; admitted = before ++ after })
  push-IsRight level before after pushed w e v =
      let (h, rest) =
        All-around (λ (x : ℕ). x < max_levels) before level after
          (subst (All (λ (x : ℕ). x < max_levels)) e v.allowed) in
      record {
        finished = v.finished;
        order =
            ap (λ x. x ++ level ∷ []) v.order
            ∙ (append_assoc v.finished (held w.thread ++ w.pending_queue) (level ∷ [])
                ∙ ap (λ x. v.finished ++ x)
                    (append_assoc (held w.thread) w.pending_queue (level ∷ [])));
        reported = v.reported;
        levels = All-append (λ (x : ℕ). x < max_levels) pushed (level ∷ []) v.levels (h, tt);
        allowed = rest;
        flag = v.flag;
        owns = v.owns;
      }

  -- A step of the owner, which changes its place and the flag of the manager.
  pub own-IsRight :
      (o : Owner) (running paused : Bool) (pushed : List ℕ) (w : Worker)
      → IsRight pushed w
      → Owns o running (alive w.thread)
      → IsRight pushed (record w { owner = o; running = running; paused = paused })
  own-IsRight o running paused pushed w v h = record {
    finished = v.finished;
    order = v.order;
    reported = v.reported;
    levels = v.levels;
    allowed = v.allowed;
    flag = v.flag;
    owns = h;
  }

  pub owned :
      (o : Owner) (pushed : List ℕ) (w : Worker)
      → w.owner ≡ o
      → IsRight pushed w
      → Owns o w.running (alive w.thread)
  owned o pushed w e v = subst (λ x. Owns x w.running (alive w.thread)) e v.owns

  not_alive : (t : Thread) → alive t ≡ false → t ≡ absent
  not_alive absent h = refl
  not_alive waiting h = absurd (cc)
  not_alive woken h = absurd (cc)
  not_alive (holds l) h = absurd (cc)
  not_alive (compacts l) h = absurd (cc)
  not_alive (returned b) h = absurd (cc)
  not_alive (reports_next b) h = absurd (cc)

  pub clear-IsRight :
      (pushed : List ℕ) (w : Worker)
      → w.owner ≡ raised
      → IsRight pushed w
      → IsRight pushed (clear_compacting w)
  unfolding clear_compacting
  clear-IsRight pushed w e v = record {
    finished = v.finished;
    order = v.order;
    reported = v.reported;
    levels = v.levels;
    allowed = v.allowed;
    flag = sym (ap works (not_alive w.thread (owned raised pushed w e v).1));
    owns = owned raised pushed w e v;
  }

  pub create-IsRight :
      (pushed : List ℕ) (w : Worker)
      → w.owner ≡ resumed
      → IsRight pushed w
      → IsRight pushed (create_thread w)
  unfolding create_thread
  create-IsRight pushed w e v =
      let (up, none_there) = owned resumed pushed w e v in
      let t = not_alive w.thread none_there in
      record {
        finished = v.finished;
        order = order_of_place pushed w v absent t;
        reported = reported_of_place pushed w v absent t;
        levels = v.levels;
        allowed = v.allowed;
        flag = flag_of_place pushed w v absent t;
        owns = up;
      }

  pub halt-IsRight : (pushed : List ℕ) (w : Worker) → IsRight pushed w → IsRight pushed (halt w)
  unfolding halt
  halt-IsRight pushed w v = by_flag w.running
    where
      by_flag :
          (b : Bool)
          → IsRight pushed (if b then record w { running = false; owner = halted } else w)
      by_flag true = own-IsRight halted false w.paused pushed w v refl
      by_flag false = v
