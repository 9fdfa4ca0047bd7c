-- ===== src/Engine/Execute.antt =====
-- executeTestRun of go-orchestrator/internal/core/execution_engine.go for one run: its store, its
-- reservation and its calls of the machine manager and the agent coordinator, with the deferred calls
-- on each way out. What the collaborators answer is a parameter; no other run acts meanwhile. Tracing,
-- logging, events and the audit are left out.
pub mod Stages
pub mod Balance
pub mod Budget
pub mod Verdict
pub mod Tests
use Prim.Native.String.{len, slice}
use dvf.Prelude.{
  ℕ, String, List, [], ◌∷◌, ◌++◌, Option, none, some, Bool, true, false, ◌==◌, ◌&&◌, ◌||◌,
  if◌then◌else◌, ltb,
}
use dvf.Prelude.Int.{ℤ}
use dvf.Prelude.Dict.{MapRange}
use dvf.Types.{
  TestRun, TestResult, TestRunStatus, VmInstance, TestSuite, pending, running, passed, failed,
  errored, cancelled,
}
use dvf.Allocator.{Allocation, ResourceBudget, try_acquire, release}
use dvf.Engine.Loop.{Environment, WorkflowEnd, all_passed_end, workflow_failed, run_workflow}
use dvf.Config.{DeviceEntry}
use dvf.Engine.Host.{
  AgentCommand, AgentResult, Answer, gives, refuses, HostCall, created, started, stopped, destroyed,
  registered, unregistered, Engine, World, RunEnd, not_updated, skipped, deferred, failed_with,
  completed,
}

-- deviceSupportsQEMU
abbrev pub has_mode : String → List String → Bool
has_mode mode [] = false
has_mode mode (m ∷ ms) = m == mode || has_mode mode ms

unfoldable pub device_supports_qemu : List String → Bool
device_supports_qemu [] = true
device_supports_qemu (m ∷ ms) = has_mode "qemu" (m ∷ ms)

-- isVishwaSuite
unfoldable pub is_vishwa_suite : String → Bool
is_vishwa_suite id = ltb 7 (len id) && slice id 0 7 == "vishwa/"

abbrev pub is_bad : TestRunStatus → Bool
is_bad failed = true
is_bad errored = true
is_bad _ = false

-- Step 7: the final status, by the results that are stored.
unfoldable pub final_status : List TestResult → TestRunStatus
final_status [] = passed
final_status (r ∷ rs) = let rest = final_status rs in if is_bad r.status then failed else rest

abbrev pub text : String → String → String
text a b = Prim.Native.String.◌++◌ a b

-- What is wrong with the answer to a command: an error, or a status other than "passed".
unfoldable pub command_error : String → Answer AgentResult → Option String
command_error what (refuses e) = some e
command_error what (gives r) = if r.status == "passed" then none else some (text what r.status)

load_command : TestRun → DeviceEntry → AgentCommand
load_command run device = record {
  id = text "cmd-load-" run.id;
  kind = "load_driver";
  parameters = ("ko_path", device.driver_path) ∷ ("module_name", device.driver_module) ∷ [];
}

verify_command : TestRun → DeviceEntry → AgentCommand
verify_command run device = record {
  id = text "cmd-verify-" run.id;
  kind = "verify_device";
  parameters = ("device_node", device.device_node) ∷ [];
}

module _ {S : Type 0} (io : Engine S) where
  -- An update whose error is ignored.
  abbrev pub set_status : TestRun → TestRunStatus → String → World S → World S
  set_status run status msg w = record w { store = (io.update_status run.id status msg w.store).0 }

  abbrev pub fail : TestRun → String → String → World S → World S × RunEnd
  fail run msg e w = (set_status run errored msg w, failed_with e)

  -- Step 7
  unfoldable pub complete : TestRun → World S → World S × RunEnd
  unfolding final_status
  complete run w =
      let status = final_status (io.get_results run.id w.store) in
      (set_status run status "" w, completed status)

  -- Step 6. A workflow with failed or skipped steps is no error of the run.
  unfoldable pub after_workflow : TestRun → WorkflowEnd → World S → World S × RunEnd
  unfolding complete
  after_workflow run all_passed_end w = complete run w
  after_workflow run (workflow_failed f k) w = complete run w
  after_workflow run end w =
      fail run (text "workflow execution failed: " (io.error_text end))
        (text "executing workflow: " (io.error_text end)) w

  unfoldable pub run_steps : TestRun → TestSuite → World S → World S × RunEnd
  unfolding after_workflow run_workflow
  run_steps run suite w =
      after_workflow run (run_workflow io.range io.step_events run.id suite)
        (record w { store = io.step_results run suite w.store })

  unfoldable pub with_verified : TestRun → TestSuite → Option String → World S → World S × RunEnd
  unfolding run_steps
  with_verified run suite none w = run_steps run suite w
  with_verified run suite (some e) w = fail run e (text "verifying device: " e) w

  -- Step 5
  unfoldable pub with_driver :
      TestRun → DeviceEntry → TestSuite → VmInstance → Option String → World S → World S × RunEnd
  unfolding with_verified is_vishwa_suite command_error verify_command
  with_driver run device suite vm none w =
      if is_vishwa_suite run.test_suite_id
      then with_verified run suite
          (command_error "verify status: " (io.send_command vm.id (verify_command run device))) w
      else run_steps run suite w
  with_driver run device suite vm (some e) w = fail run e (text "loading driver: " e) w

  -- Step 4
  unfoldable pub with_agent :
      TestRun → DeviceEntry → TestSuite → VmInstance → Option String → World S → World S × RunEnd
  unfolding with_driver load_command
  with_agent run device suite vm none w =
      with_driver run device suite vm
        (command_error "driver load status: " (io.send_command vm.id (load_command run device))) w
  with_agent run device suite vm (some e) w =
      fail run (text "agent registration timeout: " e) (text "waiting for agent: " e) w

  unfoldable pub test_on :
      TestRun → DeviceEntry → TestSuite → VmInstance → World S → World S × RunEnd
  unfolding with_agent
  test_on run device suite vm w =
      if io.has_agents
      then with_agent run device suite vm (io.wait_for_agent vm.id) w
      else complete run w

  abbrev pub if_agents : HostCall → List HostCall
  if_agents c = if io.has_agents then c ∷ [] else []

  abbrev pub note : List HostCall → World S → World S
  note cs w = record w { calls = w.calls ++ cs }

  -- The deferred clean-up of the machine.
  abbrev pub tear_down : String → World S × RunEnd → World S × RunEnd
  tear_down id r = (note (if_agents (unregistered id) ++ stopped id ∷ destroyed id ∷ []) (r.0), r.1)

  -- Step 3, from the start of the machine.
  unfoldable pub boot :
      TestRun → DeviceEntry → TestSuite → VmInstance → Option String → World S → World S × RunEnd
  unfolding test_on
  boot run device suite vm none w =
      tear_down vm.id (test_on run device suite vm (note (started vm.id ∷ []) w))
  boot run device suite vm (some e) w =
      fail run (text "VM start failed: " e) (text "starting VM: " e)
        (note (if_agents (unregistered vm.id) ++ destroyed vm.id ∷ []) w)

  unfoldable pub with_vm :
      TestRun → DeviceEntry → TestSuite → Answer VmInstance → World S → World S × RunEnd
  unfolding boot
  with_vm run device suite (refuses e) w =
      fail run (text "VM creation failed: " e) (text "creating VM: " e) w
  with_vm run device suite (gives vm) w =
      boot (record run { vm_id = vm.id }) device suite vm (io.start_vm vm.id)
        (note (created vm.id ∷ if_agents (registered vm.id)) w)

  abbrev pub needed : Allocation
  needed = record { cpus = io.default_cpus; mem_mb = io.default_memory_mb }

  -- The deferred Release.
  unfoldable pub give_back : World S × RunEnd → World S × RunEnd
  give_back (w, end) =
      (record w { budget = elim w.budget [ none ↦ none | some b ↦ some (release needed b) ] }, end)

  -- Step 2c. A run without room is submitted again by a goroutine, after a while.
  unfoldable pub with_room :
      TestRun → DeviceEntry → TestSuite → ResourceBudget × Bool → World S → World S × RunEnd
  unfolding with_vm give_back
  with_room run device suite (b, true) w =
      give_back (with_vm run device suite (io.create_vm device) (record w { budget = some b }))
  with_room run device suite (b, false) w =
      (set_status run pending "waiting for resources" (record w { budget = some b }), deferred)

  unfoldable pub reserve :
      TestRun → DeviceEntry → TestSuite → Option ResourceBudget → World S → World S × RunEnd
  unfolding with_room
  reserve run device suite none w = with_vm run device suite (io.create_vm device) w
  reserve run device suite (some b) w = with_room run device suite (try_acquire needed b) w

  -- Step 2b
  unfoldable pub with_suite : TestRun → DeviceEntry → Answer TestSuite → World S → World S × RunEnd
  unfolding reserve
  with_suite run device (refuses e) w =
      fail run (text "failed to load test suite: " e) (text "failed to load test suite: " e) w
  with_suite run device (gives suite) w = reserve run device suite w.budget w

  -- Steps 2 and 2a. The message of a skipped run names the device and its modes.
  unfoldable pub with_device :
      (DeviceEntry → String) → TestRun → Answer DeviceEntry → World S → World S × RunEnd
  unfolding with_suite device_supports_qemu
  with_device why run (refuses e) w =
      fail run (text "device not found: " e) (text "device lookup: " e) w
  with_device why run (gives device) w =
      if device_supports_qemu device.target_modes
      then with_suite run device (io.load_suite run.test_suite_id device) w
      else (set_status run cancelled (why device) w, skipped)

  unfoldable pub begin : (DeviceEntry → String) → TestRun → World S → S × Bool → World S × RunEnd
  unfolding with_device
  begin why run w (s, false) = (record w { store = s }, not_updated)
  begin why run w (s, true) =
      with_device why run (io.find_device run.device_id) (record w { store = s })

  -- executeTestRun
  unfoldable pub execute_test_run : (DeviceEntry → String) → TestRun → World S → World S × RunEnd
  unfolding begin
  execute_test_run why run w = begin why run w (io.update_status run.id running "" w.store)
