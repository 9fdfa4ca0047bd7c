-- ===== src/Api/Runs.antt =====
-- The life of a run through the gRPC server (api/grpc_server.go), the store (storage/memory.go) and the
-- scheduler (core/scheduler.go).
use dvf.Prelude.{
  ◌≡◌, refl, ◌∙◌, ap, String, String-discrete, List, [], ◌∷◌, ◌++◌, Option, some, true, false, ◌==◌,
  if◌then◌else◌, arith,
}
use dvf.Prelude.Int.{ℤ}
use dvf.Prelude.Dict.{MapRange}
use dvf.Types.{Time, TestRun, TestRunStatus, pending, running, cancelled}
use dvf.Config.{DeviceEntry, find_device}
use dvf.Scheduler.{enqueue}
use dvf.Store.{MemoryStore, Format, create_test_run, get_test_run, updated, update_test_run_status}
use dvf.Store.Laws.{update_test_run_status-get, updated_fields}
use dvf.Recovery.{attempt}
use dvf.Api.{test_run_to_proto}
use dvf.Api.Handlers.{
  Storage, memory_storage, replies, fails, invalid_argument, SubmitRequest, Server, submit_test_run,
  submit_for, after_create, handed_over, requested, cancel_test_run, cancel_run, after_cancel,
  can_cancel,
}

module _ (format : Format) (range : MapRange) (elapsed : Time → Time → ℤ) (now : Time) where
  stored_at :
      (id : String) (run : TestRun) (f : String → Option TestRun)
      → (if id == id then some run else f id) ≡ some run
  stored_at id run f = ground arith

  abbrev io : Storage MemoryStore
  io = memory_storage format range elapsed now

  -- SubmitTestRun for a known device and a named suite, on an open scheduler, stores a pending run of the
  -- request and puts it at the end of the queue; its reply is the message of the run that the store then
  -- has under its name.
  pub submit_test_run-get :
      (devices : List DeviceEntry) (d : DeviceEntry) (req : SubmitRequest) (v : Server MemoryStore)
      → find_device req.device_id devices ≡ some d
      → (req.test_suite_id == "") ≡ false
      → v.scheduler.closed ≡ false
      → (w : Server MemoryStore) × (run : TestRun) × (submit_test_run io devices req v
          ≡ some (w, replies (test_run_to_proto run)))
        × (run.status ≡ some pending)
        × (run.device_id ≡ req.device_id)
        × (run.test_suite_id ≡ req.test_suite_id)
        × (w.scheduler.queue ≡ v.scheduler.queue ++ run ∷ [])
        × (w.scheduler.closed ≡ false)
        × (get_test_run run.id w.store ≡ some run)
  unfolding submit_test_run enqueue create_test_run get_test_run String-discrete
  submit_test_run-get devices d req v e s o =
      let made = create_test_run format now (requested io req) v.store in
      let t = record (v.scheduler) { queue = v.scheduler.queue ++ made.0 ∷ []; signalled = true } in
      let opened : enqueue made.0 v.scheduler ≡ some t = rw o refl in
      (
        record { store = made.1; scheduler = t },
        made.0,
        ap (submit_for io req v) e
            ∙ ap
                (λ b.
                  if b
                  then some (v, fails invalid_argument)
                  else after_create io v (made.1, some made.0))
                s
            ∙ ap (handed_over io made.0 made.1) opened,
        refl,
        refl,
        refl,
        refl,
        o,
        stored_at made.0.id made.0 v.store.test_runs.get,
      )

  stored_again :
      (id : String) (status : TestRunStatus) (msg : String) (m : MemoryStore) (run : TestRun)
      → get_test_run id m ≡ some run
      → (t : MemoryStore) × (update_test_run_status elapsed now id status msg m ≡ some t)
        × (stored : TestRun) × (get_test_run id t ≡ some stored)
        × (stored.status ≡ some status)
  stored_again id status msg m run e =
      let (t, f, g, _, _, _) = update_test_run_status-get elapsed now id status msg m run e in
      (
        t,
        f,
        updated elapsed now status msg run,
        g id ∙ stored_at id (updated elapsed now status msg run) (λ j. get_test_run j m),
        (updated_fields elapsed now status msg run).0,
      )

  -- CancelTestRun of a stored run that is pending, queued or running marks it as cancelled, and does
  -- not take it out of the scheduler; the update to RUNNING with which its execution begins goes through
  -- and replaces the status.
  pub cancel_test_run-ignored :
      (id : String) (v : Server MemoryStore) (run : TestRun)
      → (id == "") ≡ false
      → get_test_run id v.store ≡ some run
      → can_cancel run.status ≡ true
      → (w : Server MemoryStore) × (cancel_test_run io id v ≡ (w, replies true))
        × (w.scheduler ≡ v.scheduler)
        × ((stored : TestRun) × (get_test_run id w.store ≡ some stored)
            × (stored.status ≡ some cancelled))
        × ((m : MemoryStore) × (stored : TestRun) × (update_test_run_status elapsed now id running
                "" w.store
              ≡ some m)
            × (get_test_run id m ≡ some stored)
            × (stored.status ≡ some running))
  unfolding cancel_test_run
  cancel_test_run-ignored id v run n e c =
      let (m, f, cancelled_run, g, p) =
        stored_again id cancelled "cancelled by user" v.store run e in
      let (t, h, started_run, k, q) = stored_again id running "" m cancelled_run g in
      (
        record v { store = m },
        rw n (
            ap (cancel_run io id v) e
            ∙ rw c (ap (λ (o : Option MemoryStore). after_cancel io v (attempt v.store o)) f)),
        refl,
        (cancelled_run, g, p),
        (t, started_run, h, k, q),
      )
