-- ===== src/Machines.antt =====
-- VMManager of go-orchestrator/internal/vm/manager.go over a store of machines. What the host answers
-- (files, processes, the QMP socket) is an argument; the model keeps the machines that are live, the
-- QEMU processes that it started and did not stop, each an os.Process of its own, and the overlay
-- files. Paths are joined and numbers are printed by the Go library, which are arguments.
pub mod Args
pub mod Life
pub mod Held
pub mod Adapter
mod Tests
use dvf.Prelude.{
  ℕ, suc, eqb, String, List, [], ◌∷◌, ◌++◌, Option, none, some, Bool, true, false, ◌==◌,
  if◌then◌else◌,
}
use dvf.Prelude.Int.{ℤ, pos, add64, ltb_ℤ}
use dvf.Prelude.Dict.{Dict, insert, erase, empty, is_some}
use dvf.Types.{
  Time, VmInstance, VmStatus, AgentStatus, creating, booting, ready, stopping, stopped, error,
  destroyed, unknown,
}
use dvf.Config.{QemuConfig, DeviceEntry}
use dvf.Engine.Host.{Answer, gives, refuses}
use dvf.Engine.Execute.{text}
use dvf.Store.{MemoryStore, Format, get_vm, save_vm, update_vm_status}

-- The methods of Store that the manager calls. An update reports an error, which the manager ignores.
pub record VmStore (S : Type 0) : Type 0 where
  pub save : VmInstance → S → Option S
  pub get : String → S → Option VmInstance
  pub update : String → VmStatus → S → S

abbrev pub or_same {ℓ} : {S : Type ℓ} → S → Option S → S
or_same s none = s
or_same s (some t) = t

abbrev pub memory_vms : Format → VmStore MemoryStore
memory_vms format = record {
  save = λ vm m. some (save_vm format vm m).1;
  get = get_vm;
  update = λ id status m. or_same m (update_vm_status id status m);
}

-- VMConfig; a zero and an empty text stand for the default.
pub record VmConfig : Type 0 where
  pub device_entry : Option DeviceEntry
  pub memory_mb : ℤ
  pub cpus : ℤ
  pub kernel_path : String
  pub rootfs_path : String
  pub share_dir : String
  pub guest_mount : String

pub record LiveVm : Type 0 where
  pub process : ℕ  -- its os.Process
  pub instance : VmInstance

pub record Manager (S : Type 0) : Type 0 where
  pub store : S
  pub live_vms : Dict LiveVm
  pub counter : ℤ
  pub started : ℕ  -- how many QEMU processes were started, which numbers their os.Process
  pub processes : List ℕ  -- those that StopVM has not stopped
  pub ended : List ℕ  -- those that have ended by themselves or with the context of their StartVM
  pub overlays : Dict ℕ  -- the overlay files, by machine

-- What the host answers to one StartVM.
pub record Boot : Type 0 where
  pub dirs_made : Bool
  pub overlay_made : Bool
  pub process_started : Option ℤ
  pub qmp_connected : Bool
  pub reports_running : Option Bool

abbrev pub or_default : ℤ → ℤ → ℤ
or_default n d = if ltb_ℤ n (pos 0) then n else if ltb_ℤ (pos 0) n then n else d

abbrev pub or_text : String → String → String
or_text s d = if s == "" then d else s

abbrev pub device_of : (DeviceEntry → String) → Option DeviceEntry → String
device_of f none = ""
device_of f (some d) = f d

-- The record that CreateVM makes.
unfoldable pub new_instance :
    (String → String → String) → QemuConfig → Time → String → VmConfig → VmInstance
new_instance join q now id c = record {
  id = id;
  status = creating;
  device_id = device_of (λ d. d.id) c.device_entry;
  qemu_device_name = device_of (λ d. d.qemu_device_name) c.device_entry;
  qmp_socket_path = join (or_text q.socket_dir "/tmp/dvf/qmp") (text id ".sock");
  serial_ports = [];
  pid = pos 0;
  allocated_cpus = or_default c.cpus q.default_cpus;
  allocated_mem_mb = or_default c.memory_mb q.default_memory_mb;
  image_path = or_text c.rootfs_path q.rootfs_path;
  overlay_path = "";
  created_at = now;
  agent_status = unknown;
  last_heartbeat = none;
  current_test_run_id = "";
}

-- The device entry that StartVM makes from the record: the QEMU name alone.
abbrev pub named_device : String → DeviceEntry
named_device name = record {
  id = "";
  name = "";
  vendor_id = "";
  device_id = "";
  pci_class = "";
  qemu_device_name = name;
  driver_module = "";
  driver_path = "";
  device_node = "";
  description = "";
  target_modes = [];
  capabilities = [];
  bar_layout = [];
  test_suites = [];
  vishwa_env = [];
  vishwa_loader = "";
  vishwa_lib_dir = "";
  vishwa_test_dir = "";
}

-- The configuration with which StartVM builds the arguments.
unfoldable pub start_config : VmInstance → VmConfig
start_config vm = record {
  device_entry =
      if vm.qemu_device_name == "" then none else some (named_device vm.qemu_device_name);
  memory_mb = vm.allocated_mem_mb;
  cpus = vm.allocated_cpus;
  kernel_path = "";
  rootfs_path = "";
  share_dir = "";
  guest_mount = "";
}

abbrev pub without : ℕ → List ℕ → List ℕ
without p [] = []
without p (q ∷ qs) = let rest = without p qs in if eqb p q then rest else q ∷ rest

module _ {S : Type 0} (io : VmStore S) where
  abbrev pub set_status : String → VmStatus → Manager S → Manager S
  set_status id status m = record m { store = io.update id status m.store }

  saved_vm : VmInstance → Manager S → Option S → Manager S × Answer VmInstance
  saved_vm vm m none = (m, refuses "saving VM record")
  saved_vm vm m (some s) = (record m { store = s }, gives vm)

  -- CreateVM. The name is made from the clock and the counter.
  unfoldable pub create_vm :
      (String → String → String)
      → (Time → ℤ → String)
      → QemuConfig
      → Time
      → VmConfig
      → Manager S
      → Manager S × Answer VmInstance
  unfolding saved_vm new_instance
  create_vm join name q now c m =
      let counter = add64 m.counter (pos 1) in
      let vm = new_instance join q now (name now counter) c in
      saved_vm vm (record m { counter = counter }) (io.save vm m.store)

  -- QEMU's answer to query-status.
  unfoldable pub running_status : String → Option Bool → Manager S → Manager S
  running_status id (some true) m = set_status id ready m
  running_status id _ m = m

  unfoldable pub connect :
      String → VmInstance → ℕ → ℤ → Boot → Manager S → Manager S × Option String
  unfolding running_status
  connect id vm process pid b m =
      if b.qmp_connected
      then (
        running_status id b.reports_running (record m {
          live_vms =
              insert id (record { process = process; instance = record vm { pid = pid } })
                m.live_vms;
        }),
        none,
      )
      else (set_status id error m, some "connecting QMP")

  unfoldable pub launch :
      String → VmInstance → Boot → Option ℤ → Manager S → Manager S × Option String
  unfolding connect
  launch id vm b none m = (set_status id error m, some "starting QEMU process")
  launch id vm b (some pid) m = connect id vm m.started pid b (
      set_status id booting
        (record m { started = suc m.started; processes = m.started ∷ m.processes }))

  unfoldable pub start_at :
      String → Boot → Manager S → Option VmInstance → Manager S × Option String
  unfolding launch
  start_at id b m none = (m, some "getting VM")
  start_at id b m (some vm) =
      if b.dirs_made
      then if b.overlay_made
        then launch id vm b b.process_started (record m { overlays = insert id 0 m.overlays })
        else (m, some "creating qcow2 overlay")
      else (m, some "creating socket dir")

  -- StartVM, with its error. The instance that gets the process identifier is the copy that the store
  -- returned.
  unfoldable pub start_vm : String → Boot → Manager S → Manager S × Option String
  unfolding start_at
  start_vm id b m = start_at id b m (io.get id m.store)

  unfoldable pub stop_at : String → Manager S → Option LiveVm → Manager S × Option String
  stop_at id m none = (m, some "VM is not running")
  stop_at id m (some vm) = (
    set_status id stopped (record (set_status id stopping m) {
      live_vms = erase id m.live_vms;
      processes = without vm.process m.processes;
    }),
    none,
  )

  -- StopVM. The process ends by QMP or is killed.
  unfoldable pub stop_vm : String → Manager S → Manager S × Option String
  unfolding stop_at
  stop_vm id m = stop_at id m (m.live_vms.get id)

  -- DestroyVM. StopVM is called where the machine is live, and otherwise does nothing.
  unfoldable pub destroy_vm : String → Manager S → Manager S
  unfolding stop_vm
  destroy_vm id m =
      let t = (stop_vm id m).0 in
      record (set_status id destroyed t) { overlays = erase id t.overlays }

  -- A QEMU process ends by itself, or exec.CommandContext kills it at the end of the context of StartVM. The
  -- machine stays live.
  abbrev pub process_ends : ℕ → Manager S → Manager S
  process_ends p m = record m { ended = p ∷ m.ended }
