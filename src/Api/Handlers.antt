-- ===== src/Api/Handlers.antt =====
-- The handlers of the gRPC server (go-orchestrator/internal/api/grpc_server.go), over the store that they
-- call and the scheduler behind the engine's SubmitTestRun. The audit is left out.
use dvf.Prelude.{
  String, List, Option, none, some, Bool, true, false, ◌==◌, if◌then◌else◌, length, map,
}
use dvf.Prelude.Int.{ℤ, pos}
use dvf.Prelude.Dict.{MapRange}
use dvf.Types.{
  Time, TestRun, TestResult, VmInstance, TestRunStatus, ListTestRunsRequest, ListVmsRequest,
  pending, queued, running, cancelled,
}
use dvf.Config.{DeviceEntry, find_device}
use dvf.Scheduler.{Scheduler, enqueue}
use dvf.Store.{
  MemoryStore, Format, create_test_run, get_test_run, update_test_run_status, list_test_runs,
  get_test_results, list_vms, get_vm,
}
use dvf.Recovery.{attempt}
use dvf.Api.{
  RunStatusCode, VmStatusCode, TestRunMessage, VmMessage, TestResultMessage, to_int32,
  test_run_to_proto, vm_to_proto, result_to_proto, proto_to_test_run_status, proto_to_vm_status,
}

-- The methods of Store that the handlers call.
pub record Storage (S : Type 0) : Type 0 where
  pub create_run : TestRun → S → S × Option TestRun
  pub get_run : String → S → Option TestRun
  pub update_run : String → TestRunStatus → String → S → S × Bool
  pub list_runs : ListTestRunsRequest → S → Option (List TestRun)
  pub get_results : String → S → Option (List TestResult)
  pub list_machines : ListVmsRequest → S → Option (List VmInstance)
  pub get_machine : String → S → Option VmInstance
  pub ping : S → Bool

abbrev pub memory_storage : Format → MapRange → (Time → Time → ℤ) → Time → Storage MemoryStore
memory_storage format range elapsed now = record {
  create_run = λ run m. let (stored, t) = create_test_run format now run m in (t, some stored);
  get_run = get_test_run;
  update_run = λ id status msg m. attempt m (update_test_run_status elapsed now id status msg m);
  list_runs = λ req m. some (list_test_runs range req m);
  get_results = λ id m. some (get_test_results id m);
  list_machines = λ req m. some (list_vms range req m);
  get_machine = get_vm;
  ping = λ _. true;
}

pub data Code : Type 0 where
  invalid_argument not_found internal : Code

pub data Reply {ℓ} (A : Type ℓ) : Type ℓ where
  replies : A → Reply A
  fails : Code → Reply A

pub record SubmitRequest : Type 0 where
  pub device_id : String
  pub test_suite_id : String
  pub priority : ℤ
  pub tags : List String
  pub requested_by : String

pub record ListRequest : Type 0 where
  pub device_id : String
  pub status : RunStatusCode
  pub limit : ℤ
  pub offset : ℤ

pub record ListResponse : Type 0 where
  pub test_runs : List TestRunMessage
  pub total_count : ℤ

pub record Server (S : Type 0) : Type 0 where
  pub store : S
  pub scheduler : Scheduler

-- The runs that CancelTestRun cancels.
abbrev pub can_cancel : Option TestRunStatus → Bool
can_cancel (some pending) = true
can_cancel (some running) = true
can_cancel (some queued) = true
can_cancel _ = false

module _ {S : Type 0} (io : Storage S) where
  abbrev pub requested : SubmitRequest → TestRun
  requested req = record {
    id = "";
    device_id = req.device_id;
    test_suite_id = req.test_suite_id;
    status = some pending;
    vm_id = "";
    priority = req.priority;
    created_at = 0;
    started_at = none;
    completed_at = none;
    duration_ms = pos 0;
    requested_by = req.requested_by;
    tags = req.tags;
    error_message = "";
  }

  -- SubmitTestRun of the engine, which panics where the scheduler is closed.
  unfoldable pub handed_over :
      TestRun → S → Option Scheduler → Option (Server S × Reply TestRunMessage)
  unfolding test_run_to_proto
  handed_over run s none = none
  handed_over run s (some t) =
      some (record { store = s; scheduler = t }, replies (test_run_to_proto run))

  unfoldable pub after_create :
      Server S → S × Option TestRun → Option (Server S × Reply TestRunMessage)
  unfolding handed_over
  after_create v (s, none) = some (record v { store = s }, fails internal)
  after_create v (s, some run) = handed_over run s (enqueue run v.scheduler)

  unfoldable pub submit_for :
      SubmitRequest → Server S → Option DeviceEntry → Option (Server S × Reply TestRunMessage)
  unfolding after_create
  submit_for req v none = some (v, fails not_found)
  submit_for req v (some _) =
      if req.test_suite_id == ""
      then some (v, fails invalid_argument)
      else after_create v (io.create_run (requested req) v.store)

  -- SubmitTestRun; `none` is a panic.
  unfoldable pub submit_test_run :
      List DeviceEntry → SubmitRequest → Server S → Option (Server S × Reply TestRunMessage)
  unfolding submit_for
  submit_test_run devices req v = submit_for req v (find_device req.device_id devices)

  unfoldable pub run_reply : Option TestRun → Reply TestRunMessage
  unfolding test_run_to_proto
  run_reply none = fails not_found
  run_reply (some run) = replies (test_run_to_proto run)

  -- GetTestRun
  unfoldable pub get_test_run_by : String → Server S → Reply TestRunMessage
  unfolding run_reply
  get_test_run_by id v =
      if id == "" then fails invalid_argument else run_reply (io.get_run id v.store)

  runs_reply : Option (List TestRun) → Reply ListResponse
  unfolding test_run_to_proto to_int32
  runs_reply none = fails internal
  runs_reply (some runs) = replies (record {
    test_runs = map test_run_to_proto runs;
    total_count = to_int32 (pos (length runs));
  })

  -- ListTestRuns
  unfoldable pub list_test_runs_by : ListRequest → Server S → Reply ListResponse
  unfolding runs_reply proto_to_test_run_status
  list_test_runs_by req v = runs_reply (
      io.list_runs
        (record {
          device_id = req.device_id;
          status = proto_to_test_run_status req.status;
          limit = req.limit;
          offset = req.offset;
        })
        v.store)

  unfoldable pub after_cancel : Server S → S × Bool → Server S × Reply Bool
  after_cancel v (s, true) = (record v { store = s }, replies true)
  after_cancel v (s, false) = (record v { store = s }, fails internal)

  unfoldable pub cancel_run : String → Server S → Option TestRun → Server S × Reply Bool
  unfolding after_cancel
  cancel_run id v none = (v, fails not_found)
  cancel_run id v (some run) =
      if can_cancel run.status
      then after_cancel v (io.update_run id cancelled "cancelled by user" v.store)
      else (v, replies false)

  -- CancelTestRun, with the Success of its response.
  unfoldable pub cancel_test_run : String → Server S → Server S × Reply Bool
  unfolding cancel_run
  cancel_test_run id v =
      if id == "" then (v, fails invalid_argument) else cancel_run id v (io.get_run id v.store)

  results_reply : Option (List TestResult) → Reply (List TestResultMessage)
  unfolding result_to_proto
  results_reply none = fails internal
  results_reply (some rs) = replies (map result_to_proto rs)

  -- GetTestResults
  unfoldable pub get_test_results_by : String → Server S → Reply (List TestResultMessage)
  unfolding results_reply
  get_test_results_by id v =
      if id == "" then fails invalid_argument else results_reply (io.get_results id v.store)

  machines_reply : Option (List VmInstance) → Reply (List VmMessage)
  unfolding vm_to_proto
  machines_reply none = fails internal
  machines_reply (some vms) = replies (map vm_to_proto vms)

  -- ListVMs
  unfoldable pub list_vms_by : String → VmStatusCode → Server S → Reply (List VmMessage)
  unfolding machines_reply proto_to_vm_status
  list_vms_by device_id status v = machines_reply (
      io.list_machines (record { status = proto_to_vm_status status; device_id = device_id })
        v.store)

  machine_reply : Option VmInstance → Reply VmMessage
  unfolding vm_to_proto
  machine_reply none = fails not_found
  machine_reply (some vm) = replies (vm_to_proto vm)

  -- GetVM
  unfoldable pub get_vm_by : String → Server S → Reply VmMessage
  unfolding machine_reply
  get_vm_by id v =
      if id == "" then fails invalid_argument else machine_reply (io.get_machine id v.store)

  -- GetHealth: whether the overall status is healthy.
  unfoldable pub get_health : Server S → Bool
  get_health v = io.ping v.store
