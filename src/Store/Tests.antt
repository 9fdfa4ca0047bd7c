-- ===== src/Store/Tests.antt =====
-- The in-memory store (storage/memory.go) with two runs and a machine.
use dvf.Prelude.{
  ℕ, zero, suc, ◌+◌, ◌≡◌, refl, sym, ◌∙◌, ap, String, String-discrete, [], none, some, ◌==◌,
  if◌then◌else◌, arith,
}
use dvf.Prelude.Int.{ℤ, pos, negsuc}
use dvf.Prelude.Dict.{insert, empty, IsMap, insert-IsMap}
use dvf.Types.{Time, TestRun, TestResult, VmInstance, running, passed, booting, ready}
use dvf.Store.{MemoryStore, Format, create_test_run, get_test_run, or_pending}
use dvf.Store.Fresh.{create_test_run-fresh, IsNumbered}
use dvf.Store.Listing.{IsKeyed}

abbrev pub test_run : TestRun
test_run = record {
  id = "tr-1";
  device_id = "gpgpu";
  test_suite_id = "smoke";
  status = some running;
  vm_id = "vm-1";
  priority = pos 0;
  created_at = 3;
  started_at = some 4;
  completed_at = none;
  duration_ms = pos 0;
  requested_by = "ci";
  tags = [];
  error_message = "";
}

abbrev pub machine : VmInstance
machine = record {
  id = "vm-1";
  status = booting;
  device_id = "gpgpu";
  qemu_device_name = "virtio-gpgpu";
  qmp_socket_path = "/tmp/vm-1.sock";
  serial_ports = [];
  pid = pos 77;
  allocated_cpus = pos 2;
  allocated_mem_mb = pos 1024;
  image_path = "base.qcow2";
  overlay_path = "vm-1.qcow2";
  created_at = 3;
  agent_status = ready;
  last_heartbeat = none;
  current_test_run_id = "tr-1";
}

abbrev pub stored : MemoryStore
stored = record {
  test_runs = insert "tr-1" test_run empty;
  test_results = empty;
  vms = insert "vm-1" machine empty;
  counter = pos 1;
}

abbrev pub result : TestResult
result = record {
  id = "";
  test_run_id = "tr-1";
  test_name = "smoke";
  category = none;
  status = passed;
  duration_ms = pos 5;
  message = "";
  metrics = [];
  logs = "";
  completed_at = 9;
}

abbrev elapsed : Time → Time → ℤ
elapsed s t = pos (t + s)

-- A text for each number, of that length.
abbrev mark : ℕ → String
mark zero = ""
mark (suc n) = String.◌∷◌ "i" (mark n)

abbrev size : String → ℕ
size String.[] = 0
size (String.◌∷◌ c s) = suc (size s)

size-mark : (n : ℕ) → size (mark n) ≡ n
size-mark zero = refl
size-mark (suc n) = ap suc (size-mark n)

abbrev format : Format
format prefix (pos n) = mark n
format prefix (negsuc n) = "minus"

runs-IsMap : IsMap stored.test_runs
runs-IsMap = insert-IsMap "tr-1" test_run empty (λ k. refl)

vms-IsMap : IsMap stored.vms
vms-IsMap = insert-IsMap "vm-1" machine empty (λ k. refl)

runs-IsKeyed : IsKeyed (λ (r : TestRun). r.id) stored.test_runs
runs-IsKeyed k v e = ground (arith, String-discrete "tr-1" k, e)

vms-IsKeyed : IsKeyed (λ (v : VmInstance). v.id) stored.vms
vms-IsKeyed k v e = ground (arith, String-discrete "vm-1" k, e)

abbrev named : MemoryStore
named = record {
  test_runs = insert "i" test_run empty;
  test_results = empty;
  vms = empty;
  counter = pos 1;
}

named-IsNumbered : IsNumbered format 1 named
named-IsNumbered = record {
  counted = refl;
  numbered = λ k e. (1, omega arith, ground (arith, String-discrete "i" k, e));
}

create_test_run-fresh_example :
    let (r, t) = create_test_run format 9 test_run named in
    (get_test_run r.id named ≡ none)
    × (r.status ≡ or_pending (some running))
    × ((j : String) → get_test_run j t ≡ (if r.id == j then some r else get_test_run j named))
    × IsNumbered format 2 t
create_test_run-fresh_example =
    create_test_run-fresh format 9 test_run 1 named
      (λ i j e. sym (size-mark i) ∙ ap size e ∙ size-mark j) (omega arith) named-IsNumbered
