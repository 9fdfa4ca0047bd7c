-- ===== src/Types.antt =====
-- The domain types of go-orchestrator/internal/core/types.go, and those of agent commands and
-- results in execution_engine.go. A `time.Time` is a count of nanoseconds, a `float64` metric is
-- its bit pattern, and a pointer that may be nil is an option.
use dvf.Prelude.{ℕ, String, List, Option}
use dvf.Prelude.Int.{ℤ}

abbrev pub Time : Type 0
Time = ℕ

abbrev pub Float64 : Type 0
Float64 = ℕ

pub data TestRunStatus : Type 0 where
  pending queued running passed failed errored cancelled timeout : TestRunStatus

pub data VmStatus : Type 0 where
  creating booting ready running_test stopping stopped error destroyed : VmStatus

pub data AgentStatus : Type 0 where
  unknown initializing ready executing reporting dead : AgentStatus

pub data TestCategory : Type 0 where
  read_write interrupt error_injection stress power_management concurrency : TestCategory
  data_integrity : TestCategory

pub TestRunStatus-discrete : Discrete TestRunStatus
TestRunStatus-discrete = hlevel

pub VmStatus-discrete : Discrete VmStatus
VmStatus-discrete = hlevel

pub record TestRun : Type 0 where
  pub id : String
  pub device_id : String
  pub test_suite_id : String
  pub status : Option TestRunStatus  -- none is the empty text of a run that has not been stored
  pub vm_id : String
  pub priority : ℤ
  pub created_at : Time
  pub started_at : Option Time
  pub completed_at : Option Time
  pub duration_ms : ℤ
  pub requested_by : String
  pub tags : List String
  pub error_message : String

pub record TestResult : Type 0 where
  pub id : String
  pub test_run_id : String
  pub test_name : String
  pub category : Option TestCategory
  pub status : TestRunStatus
  pub duration_ms : ℤ
  pub message : String
  pub metrics : List (String × Float64)
  pub logs : String
  pub completed_at : Time

pub record VmInstance : Type 0 where
  pub id : String
  pub status : VmStatus
  pub device_id : String
  pub qemu_device_name : String
  pub qmp_socket_path : String
  pub serial_ports : List String
  pub pid : ℤ
  pub allocated_cpus : ℤ
  pub allocated_mem_mb : ℤ
  pub image_path : String
  pub overlay_path : String
  pub created_at : Time
  pub agent_status : AgentStatus
  pub last_heartbeat : Option Time
  pub current_test_run_id : String

pub record WorkflowStep : Type 0 where
  pub id : String
  pub test_binary : String
  pub args : List String
  pub depends_on : List String
  pub retry_max : ℤ
  pub timeout_sec : ℤ

pub record TestSuite : Type 0 where
  pub id : String
  pub name : String
  pub device_id : String
  pub category : Option TestCategory
  pub description : String
  pub binary_path : String
  pub steps : List WorkflowStep
  pub timeout : ℤ
  pub tags : List String

pub record ListTestRunsRequest : Type 0 where
  pub device_id : String
  pub status : Option TestRunStatus
  pub limit : ℤ
  pub offset : ℤ

pub record ListVmsRequest : Type 0 where
  pub status : Option VmStatus
  pub device_id : String
