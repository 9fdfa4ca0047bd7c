-- ===== src/Engine/Execute/Tests.antt =====
-- A run (core/execution_engine.go) on a device with a QEMU mode, whose agent passes every command.
use dvf.Prelude.{◌≡◌, refl, String, List, [], ◌∷◌, Option, none, some, true, false, arith}
use dvf.Prelude.Int.{pos}
use dvf.Types.{TestResult, TestRunStatus, TestSuite}
use dvf.Allocator.{ResourceBudget}
use dvf.Allocator.Ledger.{Accounts}
use dvf.Allocator.Tests.{host, host-Accounts, small, large}
use dvf.Engine.Loop.Tests.{eager}
use dvf.Config.{DeviceEntry}
use dvf.Engine.Host.{gives, AgentResult, Engine, World}
use dvf.Engine.Execute.{execute_test_run}
use dvf.Engine.Execute.Stages.{after_calls, vm_after, agent_after}
use dvf.Engine.Execute.Balance.{execute_test_run-cleans}
use dvf.Engine.Execute.Budget.{execute_test_run-Accounts}
use dvf.Store.Tests.{test_run, machine, result}
use dvf.Workflow.Tests.{plain_range, diamond}

abbrev Cell : Type 0
Cell = Option TestRunStatus × List TestResult

abbrev pub device : DeviceEntry
device = record {
  id = "gpgpu";
  name = "GPGPU";
  vendor_id = "0x1234";
  device_id = "0x11e9";
  pci_class = "0x0300";
  qemu_device_name = "gp_gpu";
  driver_module = "gpgpu";
  driver_path = "/mnt/share/gpgpu.ko";
  device_node = "/dev/gpgpu0";
  description = "";
  target_modes = "fpga" ∷ "qemu" ∷ [];
  capabilities = [];
  bar_layout = [];
  test_suites = [];
  vishwa_env = [];
  vishwa_loader = "";
  vishwa_lib_dir = "";
  vishwa_test_dir = "";
}

abbrev suite : TestSuite
suite = record {
  id = "smoke";
  name = "smoke";
  device_id = "gpgpu";
  category = none;
  description = "";
  binary_path = "";
  steps = diamond;
  timeout = pos 60;
  tags = [];
}

abbrev answer : AgentResult
answer = record { command_id = ""; status = "passed"; output = ""; logs = ""; duration_ms = pos 1 }

abbrev engine : Engine Cell
engine = record {
  update_status = λ id status msg s. ((some status, s.1), true);
  get_results = λ id s. s.1;
  step_results = λ run suite s. (s.0, result ∷ s.1);
  find_device = λ id. gives device;
  load_suite = λ id d. gives suite;
  default_cpus = pos 2;
  default_memory_mb = pos 1024;
  has_agents = true;
  create_vm = λ d. gives machine;
  start_vm = λ id. none;
  wait_for_agent = λ id. none;
  send_command = λ id c. gives answer;
  range = plain_range;
  step_events = eager;
  error_text = λ e. "";
}

abbrev world : World Cell
world = record { store = (none, []); budget = some host; calls = [] }

abbrev why : DeviceEntry → String
why d = "skipped"

execute_test_run-cleans_example :
    let (t, end) = execute_test_run engine why test_run world in
    (after_calls (vm_after "vm-1") false t.calls ≡ true
      → after_calls (vm_after "vm-1") false world.calls ≡ true)
    × (after_calls (agent_after "vm-1") false t.calls ≡ true
        → after_calls (agent_after "vm-1") false world.calls ≡ true)
execute_test_run-cleans_example = execute_test_run-cleans engine why test_run world "vm-1"

execute_test_run-Accounts_example :
    (t : ResourceBudget) × ((execute_test_run engine why test_run world).0.budget ≡ some t)
    × Accounts (small ∷ large ∷ []) t
execute_test_run-Accounts_example =
    execute_test_run-Accounts engine why test_run world host small (small ∷ large ∷ []) refl refl
      host-Accounts (omega arith)
