-- ===== src/Machines/Tests.antt =====
-- One machine of VMManager (vm/manager.go): made, started and destroyed.
use dvf.Prelude.{String, [], ◌∷◌, some}
use dvf.Prelude.Int.{pos}
use dvf.Prelude.Dict.{insert, empty}
use dvf.Config.{QemuConfig}
use dvf.Engine.Execute.{text}
use dvf.Engine.Execute.Tests.{device}
use dvf.Store.{MemoryStore, Format}
use dvf.Store.Tests.{stored, machine}
use dvf.Machines.{memory_vms, VmConfig, Manager, start_vm}
use dvf.Machines.Args.{Library}
use dvf.Machines.Life.{good_boot}
use dvf.Machines.Held.{IsHeld, Reach, new_manager, starts, here, later, Reach-IsHeld}

abbrev join : String → String → String
join a b = text a (text "/" b)

abbrev library : Library
library = record { join = join; dir = λ p. "/opt/qemu"; itoa = λ n. "2" }

abbrev qemu : QemuConfig
qemu = record {
  binary_path = "/opt/qemu/bin/qemu-system-x86_64";
  data_dir = "";
  kernel_path = "bzImage";
  rootfs_path = "rootfs.ext4";
  share_dir = "/srv/share";
  guest_mount = "";
  default_memory_mb = pos 2048;
  default_cpus = pos 2;
  vm_image_dir = "";
  socket_dir = "";
  serial_socket_dir = "";
}

abbrev asked : VmConfig
asked = record {
  device_entry = some device;
  memory_mb = pos 0;
  cpus = pos 4;
  kernel_path = "";
  rootfs_path = "";
  share_dir = "";
  guest_mount = "";
}

abbrev format : Format
format = λ prefix n. "x"

abbrev held_one : Manager MemoryStore
held_one = record {
  store = stored;
  live_vms = insert "vm-1" (record { process = 0; instance = machine }) empty;
  counter = pos 1;
  started = 1;
  processes = 0 ∷ [];
  ended = [];
  overlays = insert "vm-1" 0 empty;
}

abbrev one_up : Manager MemoryStore
one_up =
    (start_vm (memory_vms format) "vm-1" (good_boot (pos 78))
      (new_manager (memory_vms format) stored)).0

one_up-Reach : Reach (memory_vms format) (new_manager (memory_vms format) stored) one_up
one_up-Reach = later here (starts "vm-1" (good_boot (pos 78)))

Reach-IsHeld_example : IsHeld one_up
Reach-IsHeld_example = Reach-IsHeld (memory_vms format) stored one_up one_up-Reach
