-- ===== src/Lsm/Worker/Fifo.antt =====
-- What the thread does with the levels, whatever the order of its steps and those of the callers.
use agent_mem_io.Prelude.{ℕ, refl, sym, subst, ap, ◌∙◌, Bool, true, false, List, [], ◌∷◌, ◌++◌}
use agent_mem_io.Lsm.Entry.{ErrorCode}
use agent_mem_io.Lsm.Worker.{
  free, tested, raised, cleared, resumed, halted, joining, Worker, new, raise, clear_paused, pause,
  resume, Step, tests, raises, clears, unpauses, creates, halts, stops, joins, triggers, pushes,
  pauses, resumes, wakes, takes, begins, returns, ends, calls_back, Reach, here, there,
}
use agent_mem_io.Lsm.Worker.Turns.{
  alive, IsRight, quiet, wake-IsRight, take_next-IsRight, begin-IsRight, return-IsRight,
  end-IsRight, call_back-IsRight, trigger-IsRight, push-IsRight, own-IsRight, owned, clear-IsRight,
  create-IsRight, halt-IsRight,
}

module _ (max_levels : ℕ) (enabled : Bool) (has_callback : Bool) where
  step-IsRight :
      (pushed more : List ℕ) (w w' : Worker)
      → Step max_levels enabled has_callback more w w'
      → IsRight max_levels enabled has_callback pushed w
      → IsRight max_levels enabled has_callback (pushed ++ more) w'
  unfolding raise clear_paused pause resume
  step-IsRight pushed _ w w' (tests _ on o down) v =
      let same = owned max_levels enabled has_callback free pushed w o v in
      quiet max_levels enabled has_callback pushed w' (
        own-IsRight max_levels enabled has_callback tested w.running w.paused pushed w v
          (down, sym same ∙ down))
  step-IsRight pushed _ w w' (raises _ _ o e) v =
      let h = owned max_levels enabled has_callback tested pushed w o v in
      quiet max_levels enabled has_callback pushed w' (
        subst (IsRight max_levels enabled has_callback pushed) e
          (own-IsRight max_levels enabled has_callback raised true w.paused pushed w v (refl, h.1)))
  step-IsRight pushed _ w w' (clears _ _ o e) v = quiet max_levels enabled has_callback pushed w' (
      subst (IsRight max_levels enabled has_callback pushed) e
        (clear-IsRight max_levels enabled has_callback pushed w o v))
  step-IsRight pushed _ w w' (unpauses _ _ o e) v =
      quiet max_levels enabled has_callback pushed w' (
        subst (IsRight max_levels enabled has_callback pushed) e (
          own-IsRight max_levels enabled has_callback resumed w.running false pushed w v
            (owned max_levels enabled has_callback cleared pushed w o v)))
  step-IsRight pushed _ w w' (creates _ _ o e) v = quiet max_levels enabled has_callback pushed w' (
      subst (IsRight max_levels enabled has_callback pushed) e
        (create-IsRight max_levels enabled has_callback pushed w o v))
  step-IsRight pushed _ w w' (halts _ _ o e) v = quiet max_levels enabled has_callback pushed w' (
      subst (IsRight max_levels enabled has_callback pushed) e
        (halt-IsRight max_levels enabled has_callback pushed w v))
  step-IsRight pushed _ w w' (stops _ o) v = quiet max_levels enabled has_callback pushed w' (
      own-IsRight max_levels enabled has_callback joining w.running false pushed w v
        (owned max_levels enabled has_callback halted pushed w o v))
  step-IsRight pushed _ w w' (joins _ o gone) v = quiet max_levels enabled has_callback pushed w' (
      own-IsRight max_levels enabled has_callback free w.running w.paused pushed w v
        (owned max_levels enabled has_callback joining pushed w o v ∙ sym (ap alive gone)))
  step-IsRight pushed _ w w' (triggers l _ _ e) v =
      quiet max_levels enabled has_callback pushed w' (
        subst (IsRight max_levels enabled has_callback pushed)
          (ap (λ (t : ErrorCode × Worker). t.1) e)
          (trigger-IsRight max_levels enabled has_callback l pushed w v))
  step-IsRight pushed _ w w' (pushes l before after _ _ a e) v =
      subst (IsRight max_levels enabled has_callback (pushed ++ l ∷ [])) e
        (push-IsRight max_levels enabled has_callback l before after pushed w a v)
  step-IsRight pushed _ w w' (pauses _ _ e) v = quiet max_levels enabled has_callback pushed w' (
      subst (IsRight max_levels enabled has_callback pushed) e
        (own-IsRight max_levels enabled has_callback w.owner w.running true pushed w v v.owns))
  step-IsRight pushed _ w w' (resumes _ _ e) v = quiet max_levels enabled has_callback pushed w' (
      subst (IsRight max_levels enabled has_callback pushed) e
        (own-IsRight max_levels enabled has_callback w.owner w.running false pushed w v v.owns))
  step-IsRight pushed _ w w' (wakes _ _ t e) v = quiet max_levels enabled has_callback pushed w' (
      subst (IsRight max_levels enabled has_callback pushed) e
        (wake-IsRight max_levels enabled has_callback pushed w t v))
  step-IsRight pushed _ w w' (takes _ _ t e) v = quiet max_levels enabled has_callback pushed w' (
      subst (IsRight max_levels enabled has_callback pushed) e
        (take_next-IsRight max_levels enabled has_callback pushed w t v))
  step-IsRight pushed _ w w' (begins l _ _ t e) v =
      quiet max_levels enabled has_callback pushed w' (
        subst (IsRight max_levels enabled has_callback pushed) e
          (begin-IsRight max_levels enabled has_callback l pushed w t v))
  step-IsRight pushed _ w w' (returns l code _ _ t e) v =
      quiet max_levels enabled has_callback pushed w' (
        subst (IsRight max_levels enabled has_callback pushed) e
          (return-IsRight max_levels enabled has_callback l code pushed w t v))
  step-IsRight pushed _ w w' (ends fine _ _ t e) v =
      quiet max_levels enabled has_callback pushed w' (
        subst (IsRight max_levels enabled has_callback pushed) e
          (end-IsRight max_levels enabled has_callback fine pushed w t v))
  step-IsRight pushed _ w w' (calls_back fine _ _ t e) v =
      quiet max_levels enabled has_callback pushed w' (
        subst (IsRight max_levels enabled has_callback pushed) e
          (call_back-IsRight max_levels enabled has_callback fine pushed w t v))

  -- In every state that the manager can come to, whatever the order in which its thread and its
  -- callers take their steps, where one owner makes the calls of start and stop one after the
  -- other and the callback is set before them or not at all: the levels that were pushed are, in
  -- their order, those whose compaction is finished, the one in the thread's hands, and those that
  -- are pending; with a callback each finished one but the one that the thread is about to report
  -- has had its report; every level is below max_levels; is_compacting holds from the beginning of
  -- a compaction until its end is marked, and at no other time; and between the owner's calls
  -- there is a thread exactly when the manager runs, while start, until it makes the thread, finds
  -- none.
  pub Reach-IsRight :
      (pushed : List ℕ) (w : Worker)
      → Reach max_levels enabled has_callback pushed w
      → IsRight max_levels enabled has_callback pushed w
  unfolding new
  Reach-IsRight _ _ here = record {
    finished = [];
    order = refl;
    reported = λ c. refl;
    levels = tt;
    allowed = tt;
    flag = refl;
    owns = refl;
  }
  Reach-IsRight _ w' (there pushed more w _ r s) =
      step-IsRight pushed more w w' s (Reach-IsRight pushed w r)
