-- ===== src/Machines/Adapter.antt =====
-- vmManagerAdapter of go-orchestrator/cmd/orchestrator/main.go, through which the engine uses VMManager
-- (vm/manager.go) together with VirtioSerialHub (vm/virtio_serial.go).
pub mod Wired
mod Tests
use dvf.Prelude.{
  ℕ, suc, ◌<◌, ◌+◌, ◌≡◌, ◌≢◌, ◌⊎◌, inl, inr, refl, sym, ◌∙◌, ap, subst, String, String-discrete,
  List, [], ◌∷◌, Option, none, some, Bool, true, false, ◌==◌, if◌then◌else◌, arith, Option-cases,
  Bool-cases,
}
use dvf.Prelude.Int.{ℤ, pos, add64}
use dvf.Prelude.Dict.{Dict, insert, erase, empty, is_some}
use dvf.Types.{Time, VmInstance}
use dvf.Config.{QemuConfig, DeviceEntry}
use dvf.Engine.Host.{Answer}
use dvf.Agents.Guests.{VirtioSerialHub, new_virtio_serial_hub, connect_vm, disconnect_vm, cancel}
use dvf.Machines.{
  VmStore, VmConfig, Manager, LiveVm, Boot, create_vm, saved_vm, new_instance, start_vm, start_at,
  launch, connect, running_status, stop_vm, stop_at, destroy_vm,
}
use dvf.Machines.Held.{new_manager}

pub record Adapter (S : Type 0) : Type 0 where
  pub manager : Manager S
  pub hub : VirtioSerialHub

-- The configuration that the adapter makes for a device.
abbrev pub device_config : DeviceEntry → VmConfig
device_config device = record {
  device_entry = some device;
  memory_mb = pos 0;
  cpus = pos 0;
  kernel_path = "";
  rootfs_path = "";
  share_dir = "";
  guest_mount = "";
}

module _ {S : Type 0} (io : VmStore S) where
  unfoldable pub adapter_create :
      (String → String → String)
      → (Time → ℤ → String)
      → QemuConfig
      → Time
      → DeviceEntry
      → Adapter S
      → Adapter S × Answer VmInstance
  adapter_create join name q now device a =
      let (m, answer) = create_vm io join name q now (device_config device) a.manager in
      (record a { manager = m }, answer)

  abbrev pub wired :
      String → VirtioSerialHub → Manager S × Option String → Adapter S × Option String
  wired id h (m, none) = (record { manager = m; hub = connect_vm id h }, none)
  wired id h (m, some e) = (record { manager = m; hub = h }, some e)

  -- StartVM: the hub connects to a machine that has started.
  unfoldable pub adapter_start : String → Boot → Adapter S → Adapter S × Option String
  adapter_start id b a = wired id a.hub (start_vm io id b a.manager)

  -- StopVM: the hub lets go first.
  unfoldable pub adapter_stop : String → Adapter S → Adapter S × Option String
  adapter_stop id a =
      let (m, e) = stop_vm io id a.manager in
      (record { manager = m; hub = disconnect_vm id a.hub }, e)

  unfoldable pub adapter_destroy : String → Adapter S → Adapter S
  adapter_destroy id a = record a { manager = destroy_vm io id a.manager }

  -- What StartVM does to the live machines: nothing where it reports an error.
  abbrev pub Started : String → Manager S → Manager S × Option String → Type 0
  Started id m t =
      ((e : String) × (t.1 ≡ some e) × (t.0.live_vms ≡ m.live_vms))
      ⊎ ((l : LiveVm) × (t.1 ≡ none) × (t.0.live_vms ≡ insert id l m.live_vms))

  running_status-live :
      (id : String) (o : Option Bool) (m : Manager S)
      → (running_status io id o m).live_vms ≡ m.live_vms
  unfolding running_status
  running_status-live id none m = refl
  running_status-live id (some true) m = refl
  running_status-live id (some false) m = refl

  pub start_vm-Started :
      (id : String) (b : Boot) (m : Manager S) → Started id m (start_vm io id b m)
  unfolding start_vm start_at launch connect
  start_vm-Started id b m = got (io.get id m.store)
    where
      launched :
          (vm : VmInstance) (o : Option ℤ) (t : Manager S) → Started id t (launch io id vm b o t)
      launched vm none t = inl (_, refl, refl)
      launched vm (some pid) t = elim (Bool-cases b.qmp_connected) [
        | inl c ↦ rw c (
            inr (
              record { process = t.started; instance = record vm { pid = pid } },
              refl,
              running_status-live id b.reports_running _,
            ))
        | inr c ↦ rw c (inl (_, refl, refl))
      ]

      got : (o : Option VmInstance) → Started id m (start_at io id b m o)
      got none = inl (_, refl, refl)
      got (some vm) = elim (Bool-cases b.dirs_made) [
        | inr c ↦ rw c (inl (_, refl, refl))
        | inl c ↦ elim (Bool-cases b.overlay_made) [
          | inr d ↦ rw (c, d) (inl (_, refl, refl))
          | inl d ↦
              rw (c, d)
                (launched vm b.process_started (record m { overlays = insert id 0 m.overlays }))
        ]
      ]
