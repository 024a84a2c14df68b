-- ===== src/Examples/Storage.antt =====
-- The thread of the compaction, a start over a log, and an engine whose processor answers nothing.
use agent_mem_io.Prelude.{ℕ, suc, refl, true, false, none, some, List, [], ◌∷◌}
use agent_mem_io.Lsm.Entry.{Vector}
use agent_mem_io.Lsm.Entry.{Entry}
use agent_mem_io.Lsm.Wal.Recover.{Op, inserted}
use agent_mem_io.Lsm.Worker.{
  Worker, absent, waiting, woken, holds, compacts, free, tested, raised, cleared, resumed, new,
  raise, clear_compacting, clear_paused, create_thread, trigger_compaction, wake, take_next,
  begin_compaction, tests, raises, clears, unpauses, creates, triggers, pushes, wakes, takes,
  begins, Reach, here, there,
}
use agent_mem_io.Lsm.Worker.Fifo.{Reach-IsRight}
use agent_mem_io.Lsm.Worker.Turns.{IsRight}
use agent_mem_io.Lsm.Writer.Start
use agent_mem_io.Lsm.Writer.Start.{new_manager}
use agent_mem_io.Engine.Query.{Answer, found}
use agent_mem_io.Engine.Storage.{Engine, batch_search}
use agent_mem_io.Engine.Storage
use agent_mem_io.Engine.Storage.Counters.{IsBounded}
use agent_mem_io.Engine.Storage.Histories.{
  Call, inits, shuts_down, builds_index, searches, history, history-IsBounded,
}

abbrev idle : Worker
idle = record {
  running = false;
  paused = false;
  compacting = false;
  pending_queue = [];
  thread = absent;
  owner = free;
  admitted = [];
  reports = [];
}

-- Started, with a level that was pushed and taken, and its compaction begun.
abbrev running : Worker
running = record idle { running = true; thread = waiting }

abbrev begun : Worker
begun = record running { thread = compacts 3; compacting = true }

running-Reach : Reach 7 true true [] running
unfolding new raise clear_compacting clear_paused create_thread
running-Reach =
    there [] [] (record idle { running = true; owner = resumed }) running
      (there [] [] (record idle { running = true; owner = cleared }) _
        (there [] [] (record idle { running = true; owner = raised }) _
          (there [] [] (record idle { owner = tested }) _
            (there [] [] idle _ here (tests idle refl refl refl)) (raises _ _ refl refl))
          (clears _ _ refl refl))
        (unpauses _ _ refl refl))
      (creates _ _ refl refl)

begun-Reach : Reach 7 true true (3 ∷ []) begun
unfolding trigger_compaction wake take_next begin_compaction
begun-Reach =
    there (3 ∷ []) [] (record running { thread = holds 3 }) begun
      (there (3 ∷ []) [] (record running { pending_queue = 3 ∷ []; thread = woken }) _
        (there (3 ∷ []) [] (record running { pending_queue = 3 ∷ [] }) _
          (there [] (3 ∷ []) (record running { admitted = 3 ∷ [] }) _
            (there [] [] running _ running-Reach (triggers 3 _ _ refl))
            (pushes 3 [] [] _ _ refl refl))
          (wakes _ _ refl refl))
        (takes _ _ refl refl))
      (begins 3 _ _ refl refl)

Reach-IsRight_example : IsRight 7 true true (3 ∷ []) begun
Reach-IsRight_example = Reach-IsRight 7 true true (3 ∷ []) begun begun-Reach

abbrev logged : List Op
logged = inserted 5 7 (1 ∷ 2 ∷ []) ∷ []

abbrev ask : Vector → ℕ → ℕ → Answer ℕ ℕ
ask v k q = found [] (suc q)

abbrev calls : List (Call ℕ)
calls =
    inits true 7 false true (new_manager 100 10 none) (record {
      running = false;
      paused = false;
      compacting = false;
      pending_queue = [];
      thread = absent;
      owner = free;
      admitted = [];
      reports = [];
    })
    ∷ searches 5 [] 1
    ∷ builds_index
    ∷ shuts_down
    ∷ []

history-IsBounded_example : IsBounded (history ask calls (Storage.new true))
history-IsBounded_example = history-IsBounded ask calls true

abbrev engine : Engine ℕ
engine = record {
  initialized = true;
  enable_metrics = true;
  num_vectors = 0;
  write_manager = some (new_manager 100 10 none);
  graph_index = none;
  vector_file = true;
  query_processor = some 0;
  metrics = Storage.no_metrics;
  latency_samples = [];
}
