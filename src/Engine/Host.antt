-- ===== src/Engine/Host.antt =====
-- What executeTestRun (go-orchestrator/internal/core/execution_engine.go) works on: the engine's
-- collaborators by what they answer, the commands to an agent, and the world that a run changes.
use dvf.Prelude.{String, List, Option, Bool}
use dvf.Prelude.Int.{ℤ}
use dvf.Prelude.Dict.{MapRange}
use dvf.Types.{TestRun, TestResult, TestRunStatus, VmInstance, TestSuite}
use dvf.Config.{DeviceEntry}
use dvf.Allocator.{ResourceBudget}
use dvf.Engine.Loop.{Environment, WorkflowEnd}

pub record AgentCommand : Type 0 where
  pub id : String
  pub kind : String
  pub parameters : List (String × String)

pub record AgentResult : Type 0 where
  pub command_id : String
  pub status : String
  pub output : String
  pub logs : String
  pub duration_ms : ℤ

-- A Go result: a value or the text of an error.
pub data Answer {ℓ} (A : Type ℓ) : Type ℓ where
  gives : A → Answer A
  refuses : String → Answer A

-- The calls that make and undo a machine and its agent state.
pub data HostCall : Type 0 where
  created started stopped destroyed registered unregistered : String → HostCall

-- The engine's collaborators and configuration. `step_results` is what the steps of a suite save.
pub record Engine (S : Type 0) : Type 0 where
  pub update_status : String → TestRunStatus → String → S → S × Bool
  pub get_results : String → S → List TestResult
  pub step_results : TestRun → TestSuite → S → S
  pub find_device : String → Answer DeviceEntry
  pub load_suite : String → DeviceEntry → Answer TestSuite
  pub default_cpus : ℤ
  pub default_memory_mb : ℤ
  pub has_agents : Bool
  pub create_vm : DeviceEntry → Answer VmInstance
  pub start_vm : String → Option String
  pub wait_for_agent : String → Option String
  pub send_command : String → AgentCommand → Answer AgentResult
  pub range : MapRange
  pub step_events : Environment
  pub error_text : WorkflowEnd → String

pub record World (S : Type 0) : Type 0 where
  pub store : S
  pub budget : Option ResourceBudget
  pub calls : List HostCall

pub data RunEnd : Type 0 where
  not_updated skipped deferred : RunEnd
  failed_with : String → RunEnd
  completed : TestRunStatus → RunEnd
