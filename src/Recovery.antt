-- ===== src/Recovery.antt =====
-- RecoverState of go-orchestrator/internal/core/state_manager.go: at a start the runs and machines
-- that a crash left unfinished are reconciled with the scheduler. The store is the interface
-- RecoveryStore, and storage/memory.go implements it. Logging is left out; signals to processes are a
-- list of process identifiers.
pub mod Requeue
mod Tests
use dvf.Prelude.{
  ℕ, String, List, [], ◌∷◌, ◌++◌, Option, none, some, Bool, true, false, if◌then◌else◌,
}
use dvf.Prelude.Int.{ℤ, pos, ltb_ℤ}
use dvf.Prelude.Panic.{◌>>=◌}
use dvf.Prelude.Dict.{MapRange, is_some}
use dvf.Types.{
  Time, TestRun, TestRunStatus, VmInstance, VmStatus, pending, queued, running, errored, error,
}
use dvf.Scheduler.{Scheduler, enqueue}
use dvf.Store.{
  MemoryStore, list_running_test_runs, update_test_run_status, list_orphaned_vms, update_vm_status,
}

-- RecoveryStore, over the states of a store. An update tells whether it succeeded.
pub record RecoveryStore (S : Type 0) : Type 0 where
  pub list_runs : S → Option (List TestRun)
  pub update_run : String → TestRunStatus → String → S → S × Bool
  pub list_orphans : S → Option (List VmInstance)
  pub update_vm : String → VmStatus → S → S × Bool

abbrev pub attempt {ℓ} : {S : Type ℓ} → S → Option S → S × Bool
attempt s none = (s, false)
attempt s (some t) = (t, true)

abbrev pub memory_recovery : MapRange → (Time → Time → ℤ) → Time → RecoveryStore MemoryStore
memory_recovery range elapsed now = record {
  list_runs = λ m. some (list_running_test_runs range m);
  update_run = λ id status msg m. attempt m (update_test_run_status elapsed now id status msg m);
  list_orphans = λ m. some (list_orphaned_vms range m);
  update_vm = λ id status m. attempt m (update_vm_status id status m);
}

abbrev pub restarted : String
restarted = "orchestrator restarted — re-queued for retry"

-- A crashed run as it goes back into the queue.
abbrev pub reset : TestRun → TestRun
reset run = record run { status = some pending; vm_id = "" }

-- How a run is recovered, by its status.
pub data RunAction : Type 0 where
  restart requeue ignore : RunAction

abbrev pub action_of : Option TestRunStatus → RunAction
action_of (some running) = restart
action_of (some queued) = restart
action_of (some pending) = requeue
action_of _ = ignore

pub record Recovered (S : Type 0) : Type 0 where
  pub store : S
  pub scheduler : Scheduler
  pub killed : List ℤ

pub data RecoveryEnd (S : Type 0) : Type 0 where
  done : Recovered S → RecoveryEnd S
  runs_failed vms_failed : Recovered S → RecoveryEnd S
  panicked : RecoveryEnd S

module _ {S : Type 0} (io : RecoveryStore S) where
  enqueue_run : TestRun → Recovered S → Option (Recovered S)
  enqueue_run run r = enqueue run r.scheduler >>= λ s. some (record r { scheduler = s })

  -- A crashed run, after the update of its stored status.
  restart_run : TestRun → Recovered S → S × Bool → Option (Recovered S)
  unfolding enqueue_run
  restart_run run r (s, true) = enqueue_run (reset run) (record r { store = s })
  restart_run run r (s, false) = some (record r { store = s })

  recover_run : RunAction → TestRun → Recovered S → Option (Recovered S)
  unfolding restart_run
  recover_run restart run r = restart_run run r (io.update_run run.id errored restarted r.store)
  recover_run requeue run r = enqueue_run run r
  recover_run ignore run r = some r

  -- The first loop.
  unfoldable pub recover_runs : List TestRun → Recovered S → Option (Recovered S)
  unfolding recover_run
  recover_runs [] r = some r
  recover_runs (run ∷ runs) r = recover_run (action_of run.status) run r >>= recover_runs runs

  -- The second loop: a known process is killed, and the machine is marked as an error.
  unfoldable pub clean_vms : List VmInstance → Recovered S → Recovered S
  clean_vms [] r = r
  clean_vms (vm ∷ vms) r = clean_vms vms (record r {
    store = (io.update_vm vm.id error r.store).0;
    killed = if ltb_ℤ (pos 0) vm.pid then r.killed ++ vm.pid ∷ [] else r.killed;
  })

  clean : Recovered S → Option (List VmInstance) → RecoveryEnd S
  unfolding clean_vms
  clean r none = vms_failed r
  clean r (some vms) = done (clean_vms vms r)

  recover_vms : Option (Recovered S) → RecoveryEnd S
  unfolding clean
  recover_vms none = panicked
  recover_vms (some r) = clean r (io.list_orphans r.store)

  recover_listed : Recovered S → Option (List TestRun) → RecoveryEnd S
  unfolding recover_vms
  recover_listed r none = runs_failed r
  recover_listed r (some runs) = recover_vms (recover_runs runs r)

  -- RecoverState
  unfoldable pub recover_state : S → Scheduler → RecoveryEnd S
  unfolding recover_listed
  recover_state s scheduler =
      recover_listed (record { store = s; scheduler = scheduler; killed = [] }) (io.list_runs s)
