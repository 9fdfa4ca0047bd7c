-- ===== src/Api/Tests.antt =====
-- The gRPC server (api/grpc_server.go) with one stored run.
use dvf.Prelude.{All, ◌≡◌, refl, String-discrete, [], ◌∷◌, ◌++◌, some, true, false}
use dvf.Prelude.Int.{ℤ, pos}
use dvf.Types.{Time, TestRun, pending, running, cancelled}
use dvf.Config.{DeviceEntry, find_device, validate_registry}
use dvf.Scheduler.{new_scheduler}
use dvf.Store.{MemoryStore, Format, get_test_run, update_test_run_status}
use dvf.Store.Tests.{test_run, stored}
use dvf.Engine.Execute.Tests.{device}
use dvf.Workflow.Tests.{plain_range}
use dvf.Api.{test_run_to_proto}
use dvf.Api.Handlers.{
  memory_storage, replies, SubmitRequest, Server, submit_test_run, cancel_test_run,
}
use dvf.Api.Devices.{DeviceMessage, list_devices, get_device, list_devices-get_device}
use dvf.Api.Runs.{submit_test_run-get, cancel_test_run-ignored}

abbrev elapsed : Time → Time → ℤ
elapsed s t = pos t

abbrev format : Format
format prefix n = "tr-2"

abbrev server : Server MemoryStore
server = record { store = stored; scheduler = new_scheduler (pos 2) }

abbrev request : SubmitRequest
request = record {
  device_id = "gpgpu";
  test_suite_id = "smoke";
  priority = pos 0;
  tags = [];
  requested_by = "ci";
}

submit_test_run-get_example :
    (w : Server MemoryStore) × (run : TestRun) × (submit_test_run
        (memory_storage format plain_range elapsed 9)
        (device ∷ [])
        request
        server
      ≡ some (w, replies (test_run_to_proto run)))
    × (run.status ≡ some pending)
    × (run.device_id ≡ "gpgpu")
    × (run.test_suite_id ≡ "smoke")
    × (w.scheduler.queue ≡ server.scheduler.queue ++ run ∷ [])
    × (w.scheduler.closed ≡ false)
    × (get_test_run run.id w.store ≡ some run)
submit_test_run-get_example =
    submit_test_run-get format plain_range elapsed 9 (device ∷ []) device request server
      (unfold find_device String-discrete in refl) (unfold String-discrete in refl)
      (unfold new_scheduler in refl)

cancel_test_run-ignored_example :
    (w : Server MemoryStore) × (cancel_test_run
        (memory_storage format plain_range elapsed 9)
        "tr-1"
        server
      ≡ (w, replies true))
    × (w.scheduler ≡ server.scheduler)
    × ((run : TestRun) × (get_test_run "tr-1" w.store ≡ some run) × (run.status ≡ some cancelled))
    × ((m : MemoryStore) × (run : TestRun) × (update_test_run_status elapsed 9 "tr-1" running ""
            w.store
          ≡ some m)
        × (get_test_run "tr-1" m ≡ some run)
        × (run.status ≡ some running))
cancel_test_run-ignored_example =
    cancel_test_run-ignored format plain_range elapsed 9 "tr-1" server test_run
      (unfold String-discrete in refl) (unfold get_test_run String-discrete in refl) refl

abbrev second : DeviceEntry
second = record device { id = "npu" }

list_devices-get_device_example :
    All
      (λ (m : DeviceMessage). get_device m.id (device ∷ second ∷ []) ≡ replies m)
      (list_devices (device ∷ second ∷ []))
list_devices-get_device_example =
    list_devices-get_device (device ∷ second ∷ [])
      (unfold validate_registry String-discrete in refl)
