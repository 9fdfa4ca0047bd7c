-- ===== src/Recovery/Requeue.antt =====
-- The first loop of RecoverState (core/state_manager.go) over the in-memory store.
use mathlib.Core.List.{append_assoc, append-nil}
use dvf.Prelude.{
  ◌≡◌, ◌≢◌, inl, inr, refl, sym, ◌∙◌, ap, String, List, [], ◌∷◌, ◌++◌, Option, none, some, true,
  false, ◌==◌, if◌then◌else◌, arith, Option-cases, String-discrete,
}
use dvf.Prelude.Int.{ℤ}
use dvf.Prelude.Dict.{MapRange, is_some}
use dvf.Prelude.Panic.{◌>>=◌}
use dvf.Types.{Time, TestRun, TestRunStatus, errored, pending, running, queued}
use dvf.Scheduler.{enqueue}
use dvf.Store.{MemoryStore, get_test_run, updated, in_flight}
use dvf.Store.Laws.{update_test_run_status-get}
use dvf.Recovery.{
  memory_recovery, restarted, reset, RunAction, restart, requeue, ignore, action_of, Recovered,
  recover_runs, recover_run, restart_run, enqueue_run, attempt,
}

abbrev pub requeued_by : RunAction → TestRun → TestRun
requeued_by restart run = reset run
requeued_by requeue run = run
requeued_by ignore run = run

-- A recovered run as it is queued: a pending run as it is, any other one reset.
abbrev pub requeued : TestRun → TestRun
requeued run = requeued_by (action_of run.status) run

-- A run as RecoverState promises to queue it: a pending run as it is, and a run that was running or
-- queued as a pending one without a machine.
abbrev pub as_pending : Option TestRunStatus → TestRun → TestRun
as_pending (some pending) run = run
as_pending _ run = record run { status = some pending; vm_id = "" }

requeued-as_pending :
    (run : TestRun) → in_flight run.status ≡ true → requeued run ≡ as_pending run.status run
requeued-as_pending run h = by_status run.status h
  where
    by_status :
        (s : Option TestRunStatus)
        → in_flight s ≡ true
        → requeued_by (action_of s) run ≡ as_pending s run
    by_status (some pending) h = refl
    by_status (some running) h = refl
    by_status (some queued) h = refl
    by_status (some TestRunStatus.passed) h = absurd (ground (arith, h))
    by_status (some TestRunStatus.failed) h = absurd (ground (arith, h))
    by_status (some errored) h = absurd (ground (arith, h))
    by_status (some TestRunStatus.cancelled) h = absurd (ground (arith, h))
    by_status (some TestRunStatus.timeout) h = absurd (ground (arith, h))
    by_status none h = absurd (ground (arith, h))

abbrev pub requeued_all : List TestRun → List TestRun
requeued_all [] = []
requeued_all (run ∷ runs) = as_pending run.status run ∷ requeued_all runs

-- The runs are in flight and stored.
abbrev pub AreStored : MemoryStore → List TestRun → Type 0
AreStored m [] = Unit {0}
AreStored m (run ∷ runs) =
    (in_flight run.status ≡ true) × (is_some (m.test_runs.get run.id) ≡ true) × AreStored m runs

AreStored-same :
    (m t : MemoryStore) (runs : List TestRun)
    → ((k : String) → is_some (t.test_runs.get k) ≡ is_some (m.test_runs.get k))
    → AreStored m runs
    → AreStored t runs
AreStored-same m t [] h a = tt
AreStored-same m t (run ∷ runs) h a = (a.0, h run.id ∙ a.1, AreStored-same m t runs h a.2)

in_flight_acts :
    (status : Option TestRunStatus) → in_flight status ≡ true → action_of status ≢ ignore
in_flight_acts status h e = ground arith

module _ (range : MapRange) (elapsed : Time → Time → ℤ) (now : Time) where
  -- One recovered run.
  record Queued (run : TestRun) (r t : Recovered MemoryStore) : Type 0 where
    queue : t.scheduler.queue ≡ r.scheduler.queue ++ run ∷ []
    open_still : t.scheduler.closed ≡ false
    stored : (k : String) → is_some (t.store.test_runs.get k) ≡ is_some (r.store.test_runs.get k)

  enqueue_run-Queued :
      (run : TestRun) (r : Recovered MemoryStore)
      → r.scheduler.closed ≡ false
      → (t : Recovered MemoryStore) × (enqueue_run (memory_recovery range elapsed now) run r
          ≡ some t)
        × Queued run r t
  unfolding enqueue_run enqueue
  enqueue_run-Queued run r o =
      let s = record (r.scheduler) { queue = r.scheduler.queue ++ run ∷ []; signalled = true } in
      (
        record r { scheduler = s },
        ground arith,
        record { queue = refl; open_still = o; stored = λ k. refl },
      )

  recover_run-Queued :
      (a : RunAction) (run : TestRun) (r : Recovered MemoryStore)
      → a ≢ ignore
      → r.scheduler.closed ≡ false
      → is_some (r.store.test_runs.get run.id) ≡ true
      → (t : Recovered MemoryStore) × (recover_run (memory_recovery range elapsed now) a run r
          ≡ some t)
        × Queued (requeued_by a run) r t
  unfolding recover_run get_test_run
  recover_run-Queued ignore run r n o h = absurd (n refl)
  recover_run-Queued requeue run r n o h = enqueue_run-Queued run r o
  recover_run-Queued restart run r n o h = elim (Option-cases (r.store.test_runs.get run.id)) [
    | inl e ↦ absurd (ground arith)
    | inr (old, e) ↦
        let (m, f, g, r1, r2, r3) =
          update_test_run_status-get elapsed now run.id errored restarted r.store old e in
        let (t, e', q) = enqueue_run-Queued (reset run) (record r { store = m }) o in
        let kept : (k : String)
            → m.test_runs.get k ≡ (
                if run.id == k
                then some (updated elapsed now errored restarted old)
                else r.store.test_runs.get k)
            → is_some (m.test_runs.get k) ≡ is_some (r.store.test_runs.get k) =
          λ k p. rw p (ground (arith, String-discrete run.id k, e)) in
        (
          t,
          ap
                (λ (u : Option MemoryStore).
                  restart_run (memory_recovery range elapsed now) run r (attempt r.store u))
                f
              ∙ e',
          record {
            queue = q.queue;
            open_still = q.open_still;
            stored = λ k. q.stored k ∙ kept k (g k);
          },
        )
  ]

  -- The first loop of RecoverState puts every in-flight stored run into an open scheduler once, in the
  -- order of the listing, a run that was running or queued as a pending one without a machine and a
  -- pending run as it is, and does not panic.
  pub recover_runs-queue :
      (runs : List TestRun) (r : Recovered MemoryStore)
      → r.scheduler.closed ≡ false
      → AreStored r.store runs
      → (t : Recovered MemoryStore) × (recover_runs (memory_recovery range elapsed now) runs r
          ≡ some t)
        × (t.scheduler.queue ≡ r.scheduler.queue ++ requeued_all runs)
        × (t.scheduler.closed ≡ false)
  unfolding recover_runs
  recover_runs-queue [] r o a = (r, refl, sym (append-nil r.scheduler.queue), o)
  recover_runs-queue (run ∷ runs) r o a =
      let (t, e, q) =
        recover_run-Queued (action_of run.status) run r (in_flight_acts run.status a.0) o a.1 in
      let (u, f, p, c) =
        recover_runs-queue runs t q.open_still (AreStored-same r.store t.store runs q.stored a.2) in
      (
        u,
        ap
              (λ (m : Option (Recovered MemoryStore)).
                m >>= recover_runs (memory_recovery range elapsed now) runs)
              e
            ∙ f,
        p
            ∙ ap (λ l. l ++ requeued_all runs) q.queue
            ∙ append_assoc r.scheduler.queue (requeued run ∷ []) (requeued_all runs)
            ∙ ap (λ x. r.scheduler.queue ++ x ∷ requeued_all runs) (requeued-as_pending run (a.0)),
        c,
      )
