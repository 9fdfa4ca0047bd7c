-- ===== src/Engine/Workers.antt =====
-- The worker of go-orchestrator/internal/core/execution_engine.go and the goroutines that it starts,
-- with the scheduler and the allocator that they share. A goroutine is in executeTestRun before its
-- reservation or behind it, or it has returned and its deferred Release is due. Each step is one call
-- under a mutex, and the steps come in any order.
pub mod Sound
pub mod Drain
pub mod Stop
mod Tests
use dvf.Prelude.{ℕ, suc, List, [], ◌∷◌, ◌++◌, Option, some, Bool, true, false, ◌≡◌}
use dvf.Prelude.Int.{ℤ}
use dvf.Types.{TestRun}
use dvf.Scheduler.{Scheduler, got, blocks, new_scheduler, enqueue, next, release}
use dvf.Allocator.{Allocation, ResourceBudget, try_acquire}
use dvf.Allocator.{release as give_back}

pub record Orchestrator : Type 0 where
  pub scheduler : Scheduler
  pub parked : Bool  -- the worker waits for a signal in Next
  pub budget : ResourceBudget
  pub starting : List TestRun  -- in executeTestRun, without a reservation
  pub holding : List TestRun  -- in executeTestRun, with one
  pub ending : ℕ  -- returned, the slot still taken
  pub deferred : List TestRun  -- asleep before they are submitted again
  pub given : List TestRun  -- every run that SubmitTestRun got from outside
  pub ended : List TestRun

-- What the worker and the goroutines of runs do. A worker that waits in Next looks at the queue again
-- only behind a signal, which it takes. `need` is the configured reservation.
pub data Move (need : Allocation) (s : Orchestrator) : Orchestrator → Type 0 where
  dispatch :
      (run : TestRun) (t : Scheduler)
      → s.parked ≡ false
      → next s.scheduler ≡ (t, got run)
      → Move need s (record s { scheduler = t; starting = run ∷ s.starting })
  wakes :
      s.parked ≡ true
      → s.scheduler.signalled ≡ true
      → Move need s
          (record s { scheduler = record s.scheduler { signalled = false }; parked = false })
  reserve :
      (before after : List TestRun) (run : TestRun) (b : ResourceBudget)
      → s.starting ≡ before ++ run ∷ after
      → try_acquire need s.budget ≡ (b, true)
      → Move need s (record s { budget = b; starting = before ++ after; holding = run ∷ s.holding })
  defer :
      (before after : List TestRun) (run : TestRun) (b : ResourceBudget)
      → s.starting ≡ before ++ run ∷ after
      → try_acquire need s.budget ≡ (b, false)
      → Move need s (record s {
        budget = b;
        starting = before ++ after;
        ending = suc s.ending;
        deferred = run ∷ s.deferred;
      })
  abandon :
      (before after : List TestRun) (run : TestRun)
      → s.starting ≡ before ++ run ∷ after
      → Move need s
          (record s { starting = before ++ after; ending = suc s.ending; ended = run ∷ s.ended })
  finish :
      (before after : List TestRun) (run : TestRun)
      → s.holding ≡ before ++ run ∷ after
      → Move need s (record s {
        budget = give_back need s.budget;
        holding = before ++ after;
        ending = suc s.ending;
        ended = run ∷ s.ended;
      })
  free :
      (n : ℕ)
      → s.ending ≡ suc n
      → Move need s (record s { scheduler = release s.scheduler; ending = n })

-- And what comes from outside or from a timer, and the worker's wait.
pub data Step (need : Allocation) (s : Orchestrator) : Orchestrator → Type 0 where
  moves : {t : Orchestrator} → Move need s t → Step need s t
  submit :
      (run : TestRun) (t : Scheduler)
      → enqueue run s.scheduler ≡ some t
      → Step need s (record s { scheduler = t; given = run ∷ s.given })
  resubmit :
      (before after : List TestRun) (run : TestRun) (t : Scheduler)
      → s.deferred ≡ before ++ run ∷ after
      → enqueue run s.scheduler ≡ some t
      → Step need s (record s { scheduler = t; deferred = before ++ after })
  wait :
      (t : Scheduler)
      → s.parked ≡ false
      → next s.scheduler ≡ (t, blocks)
      → Step need s (record s { scheduler = t; parked = true })

-- NewExecutionEngine and Start, with a new scheduler and an allocator.
abbrev pub new_orchestrator : ℤ → ResourceBudget → Orchestrator
new_orchestrator max b = record {
  scheduler = new_scheduler max;
  parked = false;
  budget = b;
  starting = [];
  holding = [];
  ending = 0;
  deferred = [];
  given = [];
  ended = [];
}

pub data Reach (need : Allocation) (s : Orchestrator) : Orchestrator → Type 0 where
  here : Reach need s s
  later : {t u : Orchestrator} → Reach need s t → Step need t u → Reach need s u
