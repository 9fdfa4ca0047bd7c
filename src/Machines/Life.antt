-- ===== src/Machines/Life.antt =====
-- The life of a machine in VMManager (vm/manager.go) over the in-memory store (storage/memory.go).
use dvf.Prelude.{
  ◌≡◌, ℕ, suc, inl, inr, refl, ◌∙◌, ap, String, String-discrete, List, ◌∷◌, Option, none, some,
  true, false, ◌==◌, if◌then◌else◌, arith, Option-cases,
}
use dvf.Prelude.Int.{ℤ}
use dvf.Prelude.Dict.{insert, erase, is_some}
use dvf.Types.{VmInstance, VmStatus, booting, ready, stopping, stopped, destroyed}
use dvf.Store.{MemoryStore, Format, get_vm, update_vm_status, update_vm_at, is_orphan}
use dvf.Machines.{
  VmStore, memory_vms, or_same, Manager, LiveVm, Boot, set_status, start_vm, start_at, stop_vm,
  stop_at, destroy_vm, without,
}

-- A start at which the host does all that is asked, and QEMU reports that it runs.
abbrev pub good_boot : ℤ → Boot
good_boot pid = record {
  dirs_made = true;
  overlay_made = true;
  process_started = some pid;
  qmp_connected = true;
  reports_running = some true;
}

-- The processes without that of a machine, where it is live.
abbrev pub kept_by : Option LiveVm → List ℕ → List ℕ
kept_by none ps = ps
kept_by (some l) ps = without l.process ps

module _ (format : Format) where
  abbrev io : VmStore MemoryStore
  io = memory_vms format

  set_status-get :
      (id : String) (status : VmStatus) (m : Manager MemoryStore) (vm : VmInstance)
      → get_vm id m.store ≡ some vm
      → get_vm id (set_status io id status m).store ≡ some (record vm { status = status })
  unfolding get_vm update_vm_status
  set_status-get id status m vm e =
      ap (λ (s : Option MemoryStore). (or_same m.store s).vms.get id)
        (ap (update_vm_at status id m.store) e)
      ∙ here m.store.vms.get (record vm { status = status })
    where
      here :
          (f : String → Option VmInstance) (v : VmInstance)
          → (if id == id then some v else f id) ≡ some v
      here f v = ground arith

  stop_vm-get :
      (id : String) (m : Manager MemoryStore) (vm : VmInstance)
      → get_vm id m.store ≡ some vm
      → (stored : VmInstance) × (get_vm id (stop_vm io id m).0.store ≡ some stored)
  unfolding stop_vm
  stop_vm-get id m vm e = elim (Option-cases (m.live_vms.get id)) [
    | inl f ↦ (vm, ap (λ o. get_vm id (stop_at io id m o).0.store) f ∙ e)
    | inr (l, f) ↦
        let halting = set_status-get id stopping m vm e in
        let halted = record (set_status io id stopping m) {
          live_vms = erase id m.live_vms;
          processes = without l.process m.processes;
        } in
        (
          record (record vm { status = stopping }) { status = stopped },
          ap (λ o. get_vm id (stop_at io id m o).0.store) f
              ∙ set_status-get id stopped halted (record vm { status = stopping }) halting,
        )
  ]

  -- After DestroyVM of a stored machine it is not live, it has no overlay and its status is DESTROYED; its
  -- process, where it was live, was killed, and no other machine stops being live.
  pub destroy_vm-clears :
      (id : String) (m : Manager MemoryStore) (vm : VmInstance)
      → get_vm id m.store ≡ some vm
      → let t = destroy_vm io id m in
        (t.overlays.get id ≡ none)
        × ((j : String) → t.live_vms.get j ≡ (if id == j then none else m.live_vms.get j))
        × (t.processes ≡ kept_by (m.live_vms.get id) m.processes)
        × ((stored : VmInstance) × (get_vm id t.store ≡ some stored) × (stored.status ≡ destroyed))
  unfolding destroy_vm stop_vm
  destroy_vm-clears id m vm e =
      let (stored, f) = stop_vm-get id m vm e in
      (
        ground arith,
        λ j. live_after j (m.live_vms.get id) refl,
        processes_after (m.live_vms.get id),
        (
          record stored { status = destroyed },
          set_status-get id destroyed ((stop_vm io id m).0) stored f,
          refl,
        ),
      )
    where
      live_after :
          (j : String) (o : Option LiveVm)
          → m.live_vms.get id ≡ o
          → (stop_at io id m o).0.live_vms.get j ≡ (if id == j then none else m.live_vms.get j)
      live_after j none p = ground (arith, p, String-discrete id j)
      live_after j (some l) p = refl

      processes_after :
          (o : Option LiveVm) → (stop_at io id m o).0.processes ≡ kept_by o m.processes
      processes_after none = refl
      processes_after (some l) = refl

  -- StartVM that succeeds and finds QEMU running makes the machine live, but the stored record keeps the
  -- process identifier that it had, and its status READY is not one that ListOrphanedVMs looks for.
  pub start_vm-unrecorded :
      (id : String) (m : Manager MemoryStore) (vm : VmInstance) (pid : ℤ)
      → get_vm id m.store ≡ some vm
      → (t : Manager MemoryStore) × (start_vm io id (good_boot pid) m ≡ (t, none))
        × (is_some (t.live_vms.get id) ≡ true)
        × ((stored : VmInstance) × (get_vm id t.store ≡ some stored)
            × (stored.pid ≡ vm.pid)
            × (is_orphan stored.status ≡ false))
  unfolding start_vm
  start_vm-unrecorded id m vm pid e =
      let m1 = record m {
        overlays = insert id 0 m.overlays;
        started = suc m.started;
        processes = m.started ∷ m.processes;
      } in
      let m2 = set_status io id booting m1 in
      let m3 = record m2 {
        live_vms =
            insert id (record { process = m.started; instance = record vm { pid = pid } })
              m2.live_vms;
      } in
      let g = set_status-get id booting m1 vm e in
      let h = set_status-get id ready m3 (record vm { status = booting }) g in
      (
        set_status io id ready m3,
        ap (start_at io id (good_boot pid) m) e,
        ground arith,
        (record (record vm { status = booting }) { status = ready }, h, refl, refl),
      )
