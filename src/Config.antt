-- ===== src/Config.antt =====
-- The configuration of go-orchestrator/internal/config: types.go, and what loader.go checks after it has
-- read a file. Config/Load reads the files.
pub mod Registry
pub mod Load
use dvf.Prelude.{
  ℕ, suc, String, List, [], ◌∷◌, Option, none, some, Bool, true, false, if◌then◌else◌, ◌==◌,
}
use dvf.Prelude.Int.{ℤ, pos, ltb_ℤ}

pub record ServerConfig : Type 0 where
  pub grpc_port : ℤ
  pub rest_port : ℤ
  pub host : String

pub record QemuConfig : Type 0 where
  pub binary_path : String
  pub data_dir : String
  pub kernel_path : String
  pub rootfs_path : String
  pub share_dir : String
  pub guest_mount : String
  pub default_memory_mb : ℤ
  pub default_cpus : ℤ
  pub vm_image_dir : String
  pub socket_dir : String
  pub serial_socket_dir : String

pub record VmDefaultsConfig : Type 0 where
  pub boot_timeout_seconds : ℤ
  pub heartbeat_interval_seconds : ℤ
  pub heartbeat_timeout_seconds : ℤ
  pub test_timeout_seconds : ℤ
  pub max_concurrent_vms : ℤ

-- The parts of GlobalConfig that are checked or that the machines read.
pub record GlobalConfig : Type 0 where
  pub server : ServerConfig
  pub qemu : QemuConfig
  pub vm_defaults : VmDefaultsConfig

pub record BarDef : Type 0 where
  pub kind : String
  pub size_bytes : ℤ
  pub description : String

pub record DeviceEntry : Type 0 where
  pub id : String
  pub name : String
  pub vendor_id : String
  pub device_id : String
  pub pci_class : String
  pub qemu_device_name : String
  pub driver_module : String
  pub driver_path : String
  pub device_node : String
  pub description : String
  pub target_modes : List String
  pub capabilities : List String
  pub bar_layout : List (String × BarDef)
  pub test_suites : List String
  pub vishwa_env : List (String × String)
  pub vishwa_loader : String
  pub vishwa_lib_dir : String
  pub vishwa_test_dir : String

pub data GlobalError : Type 0 where
  grpc_port_required rest_port_required binary_path_required : GlobalError

-- A checked value or an error.
pub data Checked {ℓ κ} (E : Type ℓ) (A : Type κ) : Type (ℓ ⊔ κ) where
  valid : A → Checked E A
  refused : E → Checked E A

abbrev pub is_zero : ℤ → Bool
is_zero n = if ltb_ℤ n (pos 0) then false else if ltb_ℤ (pos 0) n then false else true

abbrev pub with_default_vms : VmDefaultsConfig → VmDefaultsConfig
with_default_vms d =
    if is_zero d.max_concurrent_vms then record d { max_concurrent_vms = pos 5 } else d

-- GlobalConfig.validate, with the default that it fills in.
unfoldable pub validate_global : GlobalConfig → Checked GlobalError GlobalConfig
validate_global c =
    if is_zero c.server.grpc_port
    then refused grpc_port_required
    else if is_zero c.server.rest_port
    then refused rest_port_required
    else if c.qemu.binary_path == ""
    then refused binary_path_required
    else valid (record c { vm_defaults = with_default_vms c.vm_defaults })

-- The number is the position of the device.
pub data RegistryError : Type 0 where
  no_devices : RegistryError
  id_required : ℕ → RegistryError
  duplicate_id : String → RegistryError
  qemu_device_name_required driver_module_required : ℕ → String → RegistryError

abbrev pub member : String → List String → Bool
member k [] = false
member k (x ∷ xs) = if x == k then true else member k xs

-- The loop of DeviceRegistry.validate, with the names seen.
unfoldable pub check_devices : ℕ → List String → List DeviceEntry → Option RegistryError
check_devices i seen [] = none
check_devices i seen (d ∷ ds) =
    let rest = check_devices (suc i) (d.id ∷ seen) ds in
    if d.id == ""
    then some (id_required i)
    else if member d.id seen
    then some (duplicate_id d.id)
    else if d.qemu_device_name == ""
    then some (qemu_device_name_required i d.id)
    else if d.driver_module == ""
    then some (driver_module_required i d.id)
    else rest

-- DeviceRegistry.validate; `none` is success.
unfoldable pub validate_registry : List DeviceEntry → Option RegistryError
unfolding check_devices
validate_registry [] = some no_devices
validate_registry (d ∷ ds) = check_devices 0 [] (d ∷ ds)

-- FindDevice
unfoldable pub find_device : String → List DeviceEntry → Option DeviceEntry
find_device id [] = none
find_device id (d ∷ ds) = let rest = find_device id ds in if d.id == id then some d else rest
