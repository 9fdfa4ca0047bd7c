-- ===== src/Machines/Args.antt =====
-- BuildQEMUArgs of go-orchestrator/internal/vm/manager.go, and how it fits the record of the machine.
use dvf.Prelude.{◌≡◌, refl, String, List, [], ◌∷◌, ◌++◌, Option, none, some, false, ◌==◌, arith}
use dvf.Prelude.Int.{ℤ}
use dvf.Types.{Time}
use dvf.Config.{QemuConfig, DeviceEntry}
use dvf.Engine.Execute.{text}
use dvf.Machines.{VmConfig, or_default, or_text, new_instance, start_config}

-- filepath.Join, filepath.Dir and strconv.Itoa.
pub record Library : Type 0 where
  pub join : String → String → String
  pub dir : String → String
  pub itoa : ℤ → String

abbrev device_args : Option DeviceEntry → List String
device_args none = []
device_args (some d) = "-device" ∷ d.qemu_device_name ∷ []

abbrev pub texts : List String → String
texts [] = ""
texts (s ∷ ss) = text s (texts ss)

module _ (lib : Library) (q : QemuConfig) (id : String) (c : VmConfig) where
  abbrev pub data_dir : String
  data_dir =
      or_text q.data_dir (lib.join (lib.join (lib.dir (lib.dir q.binary_path)) "share") "qemu")

  abbrev pub kernel_args : List String
  kernel_args =
      "-L"
      ∷ data_dir
      ∷ "-machine"
      ∷ "q35"
      ∷ "-enable-kvm"
      ∷ "-cpu"
      ∷ "host"
      ∷ "-kernel"
      ∷ or_text c.kernel_path q.kernel_path
      ∷ "-drive"
      ∷ texts (
          "file="
          ∷ lib.join "/tmp/dvf/overlays" (text id ".qcow2")
          ∷ ",format=qcow2,if=virtio"
          ∷ [])
      ∷ "-append"
      ∷ text "root=/dev/vda console=ttyS0 rw init=/dvf-init dvf_vm_id=" id
      ∷ []

  abbrev pub resource_args : List String
  resource_args =
      "-m"
      ∷ lib.itoa (or_default c.memory_mb q.default_memory_mb)
      ∷ "-smp"
      ∷ lib.itoa (or_default c.cpus q.default_cpus)
      ∷ []

  abbrev pub share_args : List String
  share_args =
      "-nographic"
      ∷ "-virtfs"
      ∷ texts (
          "local,path="
          ∷ or_text c.share_dir q.share_dir
          ∷ ",mount_tag=hostshare,security_model=none,id=hostshare"
          ∷ [])
      ∷ []

  abbrev pub qmp_args : List String
  qmp_args =
      "-qmp"
      ∷ texts (
          "unix:"
          ∷ lib.join (or_text q.socket_dir "/tmp/dvf/qmp") (text id ".sock")
          ∷ ",server,wait=off"
          ∷ [])
      ∷ []

  abbrev pub agent_args : List String
  agent_args =
      "-chardev"
      ∷ texts (
          "socket,id=agent-chr,path="
          ∷ lib.join "/tmp/dvf/agent" (text id ".sock")
          ∷ ",server=on,wait=off"
          ∷ [])
      ∷ "-device"
      ∷ "virtio-serial-pci"
      ∷ "-device"
      ∷ "virtserialport,chardev=agent-chr,name=dvf.agent.0"
      ∷ []

  -- BuildQEMUArgs
  unfoldable pub build_qemu_args : List String
  build_qemu_args =
      kernel_args
      ++ resource_args
      ++ share_args
      ++ qmp_args
      ++ agent_args
      ++ device_args c.device_entry

or_default-same : (n d : ℤ) → or_default (or_default n d) d ≡ or_default n d
or_default-same n d = ground arith

-- The command line with which StartVM starts a machine that CreateVM made for a device with a QEMU name:
-- it asks for the memory and the processors of the machine's record, it has QEMU listen on the QMP
-- socket of the record, and it ends with the device under test.
pub build_qemu_args-new_instance :
    (lib : Library) (q : QemuConfig) (now : Time) (id : String) (c : VmConfig) (d : DeviceEntry)
    → c.device_entry ≡ some d
    → (d.qemu_device_name == "") ≡ false
    → let vm = new_instance lib.join q now id c in
      let used = start_config vm in
      build_qemu_args lib q id used
      ≡ kernel_args lib q id used
        ++ ("-m" ∷ lib.itoa vm.allocated_mem_mb ∷ "-smp" ∷ lib.itoa vm.allocated_cpus ∷ [])
        ++ share_args lib q id used
        ++ ("-qmp" ∷ texts ("unix:" ∷ vm.qmp_socket_path ∷ ",server,wait=off" ∷ []) ∷ [])
        ++ agent_args lib q id used
        ++ ("-device" ∷ d.qemu_device_name ∷ [])
unfolding build_qemu_args new_instance start_config
build_qemu_args-new_instance lib q now id c d e n =
    rw
      (e, n, or_default-same c.memory_mb q.default_memory_mb, or_default-same c.cpus q.default_cpus)
      refl
