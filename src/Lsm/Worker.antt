-- ===== src/Lsm/Worker.antt =====
-- The thread of `CompactionManager` (src/compaction/compaction_manager.cpp), and the calls that
-- other threads make on it.
--
-- Each access of a shared variable is a step of its own. What a compaction does to the tables is no
-- part of this state: the write manager changes them too, and both meet in the locks of
-- `SSTableManager`. Here a compaction ends with some status. `start` and `stop` are the calls of one
-- owner, the write manager, which makes them one after the other; any thread may make the others.
-- The callback is there from the beginning, or not at all.
pub mod Turns
pub mod Fifo
use agent_mem_io.Prelude.{
  ℕ, suc, ◌≡◌, Bool, true, false, not, ◌&&◌, ◌||◌, Option, none, some, List, [], ◌∷◌, ◌++◌, length,
  leb, if◌then◌else◌,
}
use agent_mem_io.Lsm.Entry.{ErrorCode, success, invalid_argument, ok}

-- Where the thread stands: there is none, it waits for a level, it has seen that the manager runs,
-- has taken a level, compacts it, has compacted one, or is about to call the callback.
pub data Thread : Type 0 where
  absent : Thread
  waiting : Thread
  woken : Thread
  holds : ℕ → Thread
  compacts : ℕ → Thread
  returned : Bool → Thread
  reports_next : Bool → Thread

-- Where the owner stands: outside of the two methods, in `start` after its test or one of its three
-- assignments, or in `stop` after its first or its second assignment.
pub data Owner : Type 0 where
  free tested raised cleared resumed halted joining : Owner

-- `admitted` lists the levels that passed the tests of `trigger_compaction` and are not pushed yet,
-- and `reports` what the callback was told, the newest first.
pub record Worker : Type 0 where
  pub running : Bool
  pub paused : Bool
  pub compacting : Bool
  pub pending_queue : List ℕ
  pub thread : Thread
  pub owner : Owner
  pub admitted : List ℕ
  pub reports : List Bool

-- The constructor.
unfoldable pub new : Worker
new = record {
  running = false;
  paused = false;
  compacting = false;
  pending_queue = [];
  thread = absent;
  owner = free;
  admitted = [];
  reports = [];
}

-- The assignments of `start`, and the creation of its thread.
unfoldable pub raise : Worker → Worker
raise w = record w { running = true; owner = raised }

unfoldable pub clear_compacting : Worker → Worker
clear_compacting w = record w { compacting = false; owner = cleared }

unfoldable pub clear_paused : Worker → Worker
clear_paused w = record w { paused = false; owner = resumed }

unfoldable pub create_thread : Worker → Worker
create_thread w = record w { thread = waiting; owner = free }

module _ (max_levels : ℕ) (enable_background_compaction : Bool) where
  -- `start` with nothing in between.
  unfoldable pub start : Worker → ErrorCode × Worker
  start w =
      if w.running
      then (invalid_argument, w)
      else if not enable_background_compaction
      then (success, w)
      else (success, create_thread (clear_paused (clear_compacting (raise w))))

  -- The tests of `trigger_compaction`.
  unfoldable pub trigger_compaction : ℕ → Worker → ErrorCode × Worker
  trigger_compaction level w =
      if leb max_levels level || w.compacting
      then (invalid_argument, w)
      else (success, record w { admitted = level ∷ w.admitted })

-- The assignments of `stop`, which then joins the thread.
unfoldable pub halt : Worker → Worker
halt w = if w.running then record w { running = false; owner = halted } else w

unfoldable pub pause : Worker → Worker
pause w = record w { paused = true }

unfoldable pub resume : Worker → Worker
resume w = record w { paused = false }

unfoldable pub is_compacting : Worker → Bool
is_compacting w = w.compacting

unfoldable pub pending_compactions : Worker → ℕ
pending_compactions w = length w.pending_queue

-- The thread that waits tests whether the manager runs.
unfoldable pub wake : Worker → Worker
wake w = if w.running then record w { thread = woken } else record w { thread = absent }

-- Under the lock it goes back to its wait, or takes a level.
abbrev pub take_level : List ℕ → Worker → Worker
take_level [] w = record w { thread = waiting }
take_level (l ∷ ls) w = record w { pending_queue = ls; thread = holds l }

unfoldable pub take_next : Worker → Worker
take_next w = if w.paused then record w { thread = waiting } else take_level w.pending_queue w

unfoldable pub begin_compaction : ℕ → Worker → Worker
begin_compaction l w = record w { compacting = true; thread = compacts l }

unfoldable pub return_compaction : ErrorCode → Worker → Worker
return_compaction code w = record w { thread = returned (ok code) }

unfoldable pub end_compaction : Bool → Worker → Worker
end_compaction fine w = record w { compacting = false; thread = reports_next fine }

unfoldable pub call_back : Bool → Bool → Worker → Worker
call_back has_callback fine w = record w {
  reports = if has_callback then fine ∷ w.reports else w.reports;
  thread = waiting;
}

-- A step of the thread, of the owner or of another caller. The levels that a step pushes are its
-- index.
module _ (max_levels : ℕ) (enable_background_compaction : Bool) (has_callback : Bool) where
  pub data Step : List ℕ → Worker → Worker → Type 0 where
    tests :
        (w : Worker)
        → enable_background_compaction ≡ true
        → w.owner ≡ free
        → w.running ≡ false
        → Step [] w (record w { owner = tested })
    raises : (w w' : Worker) → w.owner ≡ tested → raise w ≡ w' → Step [] w w'
    clears : (w w' : Worker) → w.owner ≡ raised → clear_compacting w ≡ w' → Step [] w w'
    unpauses : (w w' : Worker) → w.owner ≡ cleared → clear_paused w ≡ w' → Step [] w w'
    creates : (w w' : Worker) → w.owner ≡ resumed → create_thread w ≡ w' → Step [] w w'
    halts : (w w' : Worker) → w.owner ≡ free → halt w ≡ w' → Step [] w w'
    stops :
        (w : Worker) → w.owner ≡ halted → Step [] w (record w { paused = false; owner = joining })
    joins :
        (w : Worker) → w.owner ≡ joining → w.thread ≡ absent → Step [] w (record w { owner = free })
    triggers :
        (l : ℕ) (w w' : Worker)
        → trigger_compaction max_levels enable_background_compaction l w ≡ (success, w')
        → Step [] w w'
    pushes :
        (l : ℕ) (before after : List ℕ) (w w' : Worker)
        → w.admitted ≡ before ++ l ∷ after
        → record w { pending_queue = w.pending_queue ++ l ∷ []; admitted = before ++ after } ≡ w'
        → Step (l ∷ []) w w'
    pauses : (w w' : Worker) → pause w ≡ w' → Step [] w w'
    resumes : (w w' : Worker) → resume w ≡ w' → Step [] w w'
    wakes : (w w' : Worker) → w.thread ≡ waiting → wake w ≡ w' → Step [] w w'
    takes : (w w' : Worker) → w.thread ≡ woken → take_next w ≡ w' → Step [] w w'
    begins : (l : ℕ) (w w' : Worker) → w.thread ≡ holds l → begin_compaction l w ≡ w' → Step [] w w'
    returns :
        (l : ℕ) (code : ErrorCode) (w w' : Worker)
        → w.thread ≡ compacts l
        → return_compaction code w ≡ w'
        → Step [] w w'
    ends :
        (fine : Bool) (w w' : Worker)
        → w.thread ≡ returned fine
        → end_compaction fine w ≡ w'
        → Step [] w w'
    calls_back :
        (fine : Bool) (w w' : Worker)
        → w.thread ≡ reports_next fine
        → call_back has_callback fine w ≡ w'
        → Step [] w w'

  -- The states that the steps lead to, with the levels that were pushed on the way, in their order.
  pub data Reach : List ℕ → Worker → Type 0 where
    here : Reach [] new
    there :
        (pushed more : List ℕ) (w w' : Worker)
        → Reach pushed w
        → Step more w w'
        → Reach (pushed ++ more) w'
