-- ===== src/Engine/Workers/Tests.antt =====
-- The workers (core/execution_engine.go) with a limit of one and a queued run.
use dvf.Prelude.{◌+◌, ◌≤◌, ◌≡◌, refl, String, some, [], ◌∷◌, true, false, arith}
use dvf.Prelude.Int.{pos}
use dvf.Scheduler.{Scheduler, got, new_scheduler, enqueue, next, close}
use dvf.Allocator.{ResourceBudget}
use dvf.Allocator.Ledger.{Accounts, request}
use dvf.Allocator.Tests.{small}
use dvf.Engine.Workers.{Orchestrator, submit, new_orchestrator, Reach, here, later}
use dvf.Engine.Workers.Sound.{count_runs, IsSound, Reach-IsSound}
use dvf.Engine.Workers.Drain.{work, Moves, drains}
use dvf.Engine.Workers.Stop.{
  Stopping, stopping, dispatches, Ends, done, first, end_count, IsOver, stop_ends,
}
use dvf.Store.Tests.{test_run}

abbrev idle : ResourceBudget
idle = record {
  total_cpus = pos 8;
  total_mem_mb = pos 4096;
  used_cpus = pos 0;
  used_mem_mb = pos 0;
}

idle-Accounts : Accounts [] idle
idle-Accounts = record {
  cpus = refl;
  mem_mb = refl;
  cpus_fit = omega arith;
  mem_mb_fit = omega arith;
  cpus_int = omega arith;
  mem_mb_int = omega arith;
}

abbrev queued : Scheduler
queued = record {
  max_concurrent = 1;
  active_count = 0;
  queue = test_run ∷ [];
  signalled = true;
  closed = false;
}

abbrev submitted : Orchestrator
submitted = record (new_orchestrator (pos 1) idle) { scheduler = queued; given = test_run ∷ [] }

submitted-Reach : Reach (request small) (new_orchestrator (pos 1) idle) submitted
unfolding enqueue new_scheduler
submitted-Reach = later here (submit test_run queued refl)

Reach-IsSound_example : IsSound small submitted
Reach-IsSound_example =
    Reach-IsSound small (pos 1) idle submitted idle-Accounts (omega arith) submitted-Reach

drains_example : (t : Orchestrator) × Moves (request small) submitted t × (work t ≡ 0)
drains_example = drains small submitted Reach-IsSound_example

abbrev shut : Scheduler
shut = record queued { closed = true }

abbrev shut_taken : Scheduler
shut_taken = record shut { queue = []; active_count = 1 }

still_taken : next shut ≡ (shut_taken, got test_run)
unfolding next
still_taken = refl

-- Stop comes before the queued run is taken.
abbrev last_run : Stopping
last_run = record {
  engine = record submitted { scheduler = shut_taken; starting = test_run ∷ [] };
  working = true;
}

abbrev one_end : Ends (request small) (stopping submitted) last_run
one_end = first (dispatches test_run shut_taken refl refl still_taken) done

stop_ends_example :
    (close queued ≡ some shut)
    × (end_count one_end ≤ work submitted + 2)
    × ((t : Stopping) × Ends (request small) last_run t
        × IsOver t
        × ((k : String)
            → count_runs k (test_run ∷ [])
              ≡ count_runs k t.engine.ended
                + count_runs k t.engine.scheduler.queue
                + count_runs k t.engine.deferred))
stop_ends_example =
    stop_ends small (pos 1) idle submitted last_run one_end idle-Accounts (omega arith)
      submitted-Reach
