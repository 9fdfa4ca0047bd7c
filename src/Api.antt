-- ===== src/Api.antt =====
-- The gRPC server of go-orchestrator/internal/api/grpc_server.go: its messages, as proto/orchestrator.proto
-- declares them, and the conversions to and from the domain types. The texts of errors are left out.
-- The handlers are in Api/Handlers.
pub mod Handlers
pub mod Statuses
pub mod Runs
pub mod Devices
mod Tests
use dvf.Prelude.{ℕ, ◌-◌, ◌%◌, ◌^◌, String, List, [], ◌∷◌, Option, none, some, if◌then◌else◌, ltb}
use dvf.Prelude.Int.{ℤ, pos, negsuc, to_word}
use dvf.Types.{
  Time, Float64, TestRun, TestResult, VmInstance, TestRunStatus, VmStatus, AgentStatus,
  TestCategory, pending, queued, running, passed, failed, errored, cancelled, timeout, creating,
  booting, ready, running_test, stopping, stopped, error, destroyed,
}

-- An enum of a message is open: a client may send a number that has no name.
pub data RunStatusCode : Type 0 where
  test_run_status_unspecified test_run_status_pending test_run_status_queued
        test_run_status_running :
      RunStatusCode
  test_run_status_passed test_run_status_failed test_run_status_errored test_run_status_cancelled :
      RunStatusCode
  test_run_status_timeout : RunStatusCode
  test_run_status_other : ℕ → RunStatusCode

pub data VmStatusCode : Type 0 where
  vm_status_unspecified vm_status_creating vm_status_booting vm_status_ready : VmStatusCode
  vm_status_running_test vm_status_stopping vm_status_stopped vm_status_error vm_status_destroyed :
      VmStatusCode
  vm_status_other : ℕ → VmStatusCode

-- Go's `int32(n)`.
unfoldable pub to_int32 : ℤ → ℤ
to_int32 n = let w = to_word n % 2 ^ 32 in if ltb w (2 ^ 31) then pos w else negsuc (2 ^ 32 - 1 - w)

pub record TestRunMessage : Type 0 where
  pub id : String
  pub device_id : String
  pub test_suite_id : String
  pub status : RunStatusCode
  pub vm_id : String
  pub priority : ℤ
  pub created_at : Time
  pub started_at : Option Time
  pub completed_at : Option Time
  pub duration_ms : ℤ
  pub requested_by : String
  pub tags : List String
  pub error_message : String

pub record VmMessage : Type 0 where
  pub id : String
  pub status : VmStatusCode
  pub device_id : String
  pub qmp_socket_path : String
  pub serial_ports : List String
  pub pid : ℤ
  pub allocated_cpus : ℤ
  pub allocated_mem_mb : ℤ
  pub image_path : String
  pub created_at : Time
  pub agent_status : AgentStatus
  pub last_heartbeat : Option Time
  pub current_test_run_id : String

pub record TestResultMessage : Type 0 where
  pub id : String
  pub test_run_id : String
  pub test_name : String
  pub category : Option TestCategory
  pub status : RunStatusCode
  pub duration_ms : ℤ
  pub message : String
  pub metrics : List (String × Float64)
  pub logs : String
  pub completed_at : Time

-- testRunStatusToProto
unfoldable pub test_run_status_to_proto : Option TestRunStatus → RunStatusCode
test_run_status_to_proto none = test_run_status_unspecified
test_run_status_to_proto (some pending) = test_run_status_pending
test_run_status_to_proto (some queued) = test_run_status_queued
test_run_status_to_proto (some running) = test_run_status_running
test_run_status_to_proto (some passed) = test_run_status_passed
test_run_status_to_proto (some failed) = test_run_status_failed
test_run_status_to_proto (some errored) = test_run_status_errored
test_run_status_to_proto (some cancelled) = test_run_status_cancelled
test_run_status_to_proto (some timeout) = test_run_status_timeout

-- protoToTestRunStatus
unfoldable pub proto_to_test_run_status : RunStatusCode → Option TestRunStatus
proto_to_test_run_status test_run_status_pending = some pending
proto_to_test_run_status test_run_status_queued = some queued
proto_to_test_run_status test_run_status_running = some running
proto_to_test_run_status test_run_status_passed = some passed
proto_to_test_run_status test_run_status_failed = some failed
proto_to_test_run_status test_run_status_errored = some errored
proto_to_test_run_status test_run_status_cancelled = some cancelled
proto_to_test_run_status test_run_status_timeout = some timeout
proto_to_test_run_status _ = none

-- vmStatusToProto
unfoldable pub vm_status_to_proto : VmStatus → VmStatusCode
vm_status_to_proto creating = vm_status_creating
vm_status_to_proto booting = vm_status_booting
vm_status_to_proto ready = vm_status_ready
vm_status_to_proto running_test = vm_status_running_test
vm_status_to_proto stopping = vm_status_stopping
vm_status_to_proto stopped = vm_status_stopped
vm_status_to_proto error = vm_status_error
vm_status_to_proto destroyed = vm_status_destroyed

-- protoToVMStatus
unfoldable pub proto_to_vm_status : VmStatusCode → Option VmStatus
proto_to_vm_status vm_status_creating = some creating
proto_to_vm_status vm_status_booting = some booting
proto_to_vm_status vm_status_ready = some ready
proto_to_vm_status vm_status_running_test = some running_test
proto_to_vm_status vm_status_stopping = some stopping
proto_to_vm_status vm_status_stopped = some stopped
proto_to_vm_status vm_status_error = some error
proto_to_vm_status vm_status_destroyed = some destroyed
proto_to_vm_status _ = none

-- testRunToProto
unfoldable pub test_run_to_proto : TestRun → TestRunMessage
unfolding test_run_status_to_proto to_int32
test_run_to_proto r = record {
  id = r.id;
  device_id = r.device_id;
  test_suite_id = r.test_suite_id;
  status = test_run_status_to_proto r.status;
  vm_id = r.vm_id;
  priority = to_int32 r.priority;
  created_at = r.created_at;
  started_at = r.started_at;
  completed_at = r.completed_at;
  duration_ms = r.duration_ms;
  requested_by = r.requested_by;
  tags = r.tags;
  error_message = r.error_message;
}

-- vmToProto
unfoldable pub vm_to_proto : VmInstance → VmMessage
unfolding vm_status_to_proto to_int32
vm_to_proto vm = record {
  id = vm.id;
  status = vm_status_to_proto vm.status;
  device_id = vm.device_id;
  qmp_socket_path = vm.qmp_socket_path;
  serial_ports = vm.serial_ports;
  pid = to_int32 vm.pid;
  allocated_cpus = to_int32 vm.allocated_cpus;
  allocated_mem_mb = to_int32 vm.allocated_mem_mb;
  image_path = vm.image_path;
  created_at = vm.created_at;
  agent_status = vm.agent_status;
  last_heartbeat = vm.last_heartbeat;
  current_test_run_id = vm.current_test_run_id;
}

-- The conversion of one result in GetTestResults.
unfoldable pub result_to_proto : TestResult → TestResultMessage
unfolding test_run_status_to_proto
result_to_proto r = record {
  id = r.id;
  test_run_id = r.test_run_id;
  test_name = r.test_name;
  category = r.category;
  status = test_run_status_to_proto (some r.status);
  duration_ms = r.duration_ms;
  message = r.message;
  metrics = r.metrics;
  logs = r.logs;
  completed_at = r.completed_at;
}
