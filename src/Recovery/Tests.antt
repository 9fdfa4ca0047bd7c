-- ===== src/Recovery/Tests.antt =====
-- The recovery (core/state_manager.go) of one crashed run.
use dvf.Prelude.{◌≡◌, refl, String-discrete, [], ◌∷◌, ◌++◌, some, false}
use dvf.Prelude.Int.{ℤ, pos}
use dvf.Types.{Time}
use dvf.Scheduler.{new_scheduler}
use dvf.Store.Tests.{test_run, stored}
use dvf.Store.{MemoryStore}
use dvf.Recovery.{memory_recovery, recover_runs, Recovered}
use dvf.Recovery.Requeue.{recover_runs-queue, requeued_all}
use dvf.Workflow.Tests.{plain_range}

abbrev elapsed : Time → Time → ℤ
elapsed s t = pos t

abbrev crashed : Recovered MemoryStore
crashed = record { store = stored; scheduler = new_scheduler (pos 2); killed = [] }

recover_runs-queue_example :
    (t : Recovered MemoryStore) × (recover_runs
        (memory_recovery plain_range elapsed 9)
        (test_run ∷ [])
        crashed
      ≡ some t)
    × (t.scheduler.queue ≡ crashed.scheduler.queue ++ requeued_all (test_run ∷ []))
    × (t.scheduler.closed ≡ false)
recover_runs-queue_example =
    recover_runs-queue plain_range elapsed 9 (test_run ∷ []) crashed (unfold new_scheduler in refl)
      (refl, unfold String-discrete in refl, tt)
