-- ===== src/Postgres/Refines.antt =====
-- PostgresStore (storage/postgres.go) does what MemoryStore (storage/memory.go) does, over any sequence of
-- the calls on which their contracts are the same, for two stores that name a run alike.
use dvf.Prelude.{
  ◌≡◌, refl, sym, subst, String, List, [], ◌∷◌, Option, none, some, true, false, ◌==◌, ◌&&◌,
  if◌then◌else◌, arith, eqb,
}
use dvf.Prelude.Int.{ℤ, pos}
use dvf.Prelude.Dict.{insert, is_some}
use dvf.Types.{Time, TestRun, VmInstance, TestRunStatus, VmStatus}
use dvf.Store.{MemoryStore, Format, new_memory_store, or_pending, next_id, delete_vm_at}
use dvf.Store
use dvf.Machines.{or_same}
use dvf.Postgres.{
  Database, new_database, RunRow, VmRow, run_of, vm_of, read_at, is_int4, new_row, row_of,
  create_test_run, update_test_run_status, save_vm, update_vm_status, delete_vm, get_test_run,
  get_vm,
}
use dvf.Postgres.Agreement.{
  Mirrors-insert, Mirrors-erase, Represents, Agree, new-Represents, update_vm_status-Agree,
  update_test_run_status-Agree, IsCommonUpdate, coalesce-nullable_str,
}

-- The calls that change a store. The key that the database generates comes with CreateTestRun.
pub data Call : Type 0 where
  creates : String → Time → TestRun → Call
  updates_run : Time → String → TestRunStatus → String → Call
  saves_vm : Time → VmInstance → Call
  updates_vm : String → VmStatus → Call
  deletes_vm : String → Call

abbrev second {ℓ} : {A B : Type ℓ} → Option (A × B) → Option B
second none = none
second (some (a, b)) = some b

module _ (kept : Time → Time) (rounded elapsed : Time → Time → ℤ) (format : Format) where
  abbrev pub on_postgres : Call → Database → Option Database
  on_postgres (creates key now run) d = second (create_test_run kept key now run d)
  on_postgres (updates_run now id status msg) d =
      update_test_run_status kept rounded now id status msg d
  on_postgres (saves_vm now vm) d = save_vm kept now vm d
  on_postgres (updates_vm id status) d = update_vm_status id status d
  on_postgres (deletes_vm id) d = some (delete_vm id d)

  abbrev pub on_memory : Call → MemoryStore → Option MemoryStore
  on_memory (creates key now run) m = some (dvf.Store.create_test_run format now run m).1
  on_memory (updates_run now id status msg) m =
      dvf.Store.update_test_run_status elapsed now id status msg m
  on_memory (saves_vm now vm) m = some (dvf.Store.save_vm format vm m).1
  on_memory (updates_vm id status) m = dvf.Store.update_vm_status id status m
  on_memory (deletes_vm id) m = dvf.Store.delete_vm id m

  -- A run as the API makes it, with the same free key in both stores.
  pub record IsCommonRun (key : String) (now : Time) (run : TestRun) (d : Database)
      (m : MemoryStore) : Type 0 where
    pub same_key : (next_id format "tr" m).0 ≡ key
    pub free : is_some (d.test_runs.get key) ≡ false
    pub fits : is_int4 run.priority ≡ true
    pub time : kept now ≡ now
    pub not_started : run.started_at ≡ none
    pub not_completed : run.completed_at ≡ none
    pub no_duration : run.duration_ms ≡ pos 0

  -- A machine that has a name and is not stored, with numbers and times that the columns hold.
  pub record IsCommonVm (vm : VmInstance) (d : Database) : Type 0 where
    pub named : (vm.id == "") ≡ false
    pub free : d.vms.get vm.id ≡ none
    pub fits : (is_int4 vm.pid && is_int4 vm.allocated_cpus && is_int4 vm.allocated_mem_mb) ≡ true
    pub dated : eqb vm.created_at 0 ≡ false
    pub time : kept vm.created_at ≡ vm.created_at
    pub no_heartbeat : vm.last_heartbeat ≡ none

  -- Where a call means the same in both stores.
  abbrev pub IsCommon : Call → Database → MemoryStore → Type 0
  IsCommon (creates key now run) d m = IsCommonRun key now run d m
  IsCommon (updates_run now id status msg) d m =
      (r : RunRow)
      → d.test_runs.get id ≡ some r
      → IsCommonUpdate kept rounded elapsed now status msg r
  IsCommon (saves_vm now vm) d m = IsCommonVm vm d
  IsCommon (updates_vm id status) d m = Unit {0}
  IsCommon (deletes_vm id) d m = is_some (d.vms.get id) ≡ true

  creates-Agree :
      (key : String) (now : Time) (run : TestRun) (d : Database) (m : MemoryStore)
      → IsCommonRun key now run d m
      → Represents d m
      → Agree (on_postgres (creates key now run) d) (on_memory (creates key now run) m)
  unfolding create_test_run dvf.Store.create_test_run next_id
  creates-Agree key now run d m c v =
      subst (λ x. Agree x (on_memory (creates key now run) m)) (sym made)
        (rw c.same_key (record {
          runs =
              Mirrors-insert run_of m.test_runs d.test_runs v.runs key (new_row kept now run) _
                same;
          machines = v.machines;
        }))
    where
      made :
          on_postgres (creates key now run) d
          ≡ some (record d { test_runs = insert key (new_row kept now run) d.test_runs })
      made = rw (c.fits, c.free) refl

      same :
          record run { id = key; created_at = now; status = or_pending run.status }
          ≡ run_of key (new_row kept now run)
      same i = record run {
        id = key;
        created_at = sym c.time i;
        status = or_pending run.status;
        vm_id = sym (coalesce-nullable_str run.vm_id) i;
        started_at = c.not_started i;
        completed_at = c.not_completed i;
        duration_ms = c.no_duration i;
        requested_by = sym (coalesce-nullable_str run.requested_by) i;
        error_message = sym (coalesce-nullable_str run.error_message) i;
      }

  saves_vm-Agree :
      (now : Time) (vm : VmInstance) (d : Database) (m : MemoryStore)
      → IsCommonVm vm d
      → Represents d m
      → Agree (on_postgres (saves_vm now vm) d) (on_memory (saves_vm now vm) m)
  unfolding save_vm dvf.Store.save_vm
  saves_vm-Agree now vm d m c v =
      subst (λ x. Agree x (on_memory (saves_vm now vm) m)) (sym made)
        (rw c.named (record {
          runs = v.runs;
          machines = Mirrors-insert vm_of m.vms d.vms v.machines vm.id (row_of kept now vm) _ same;
        }))
    where
      made :
          on_postgres (saves_vm now vm) d
          ≡ some (record d { vms = insert vm.id (row_of kept now vm) d.vms })
      made = rw (c.fits, c.free) refl

      dated : kept (if eqb vm.created_at 0 then now else vm.created_at) ≡ vm.created_at
      dated = rw c.dated c.time

      same : record vm { id = vm.id } ≡ vm_of vm.id (row_of kept now vm)
      same = rw c.no_heartbeat (λ i. record vm {
        qemu_device_name = sym (coalesce-nullable_str vm.qemu_device_name) i;
        qmp_socket_path = sym (coalesce-nullable_str vm.qmp_socket_path) i;
        image_path = sym (coalesce-nullable_str vm.image_path) i;
        overlay_path = sym (coalesce-nullable_str vm.overlay_path) i;
        created_at = sym dated i;
        last_heartbeat = none;
        current_test_run_id = sym (coalesce-nullable_str vm.current_test_run_id) i;
      })

  deletes_vm-Agree :
      (id : String) (d : Database) (m : MemoryStore)
      → is_some (d.vms.get id) ≡ true
      → Represents d m
      → Agree (some (delete_vm id d)) (dvf.Store.delete_vm id m)
  unfolding delete_vm dvf.Store.delete_vm delete_vm_at
  deletes_vm-Agree id d m e v =
      subst (λ o. Agree (some (delete_vm id d)) (delete_vm_at id m o)) (sym (v.machines.same id))
        (at (d.vms.get id) refl)
    where
      at :
          (o : Option VmRow)
          → d.vms.get id ≡ o
          → Agree (some (delete_vm id d)) (delete_vm_at id m (read_at vm_of id o))
      at none f = absurd (ground (arith, e, f))
      at (some r) f = record {
        runs = v.runs;
        machines = Mirrors-erase vm_of m.vms d.vms v.machines id r f;
      }

  call-Agree :
      (c : Call) (d : Database) (m : MemoryStore)
      → IsCommon c d m
      → Represents d m
      → Agree (on_postgres c d) (on_memory c m)
  call-Agree (creates key now run) d m h v = creates-Agree key now run d m h v
  call-Agree (updates_run now id status msg) d m h v =
      update_test_run_status-Agree kept rounded elapsed now id status msg d m h v
  call-Agree (saves_vm now vm) d m h v = saves_vm-Agree now vm d m h v
  call-Agree (updates_vm id status) d m h v = update_vm_status-Agree id status d m v
  call-Agree (deletes_vm id) d m h v = deletes_vm-Agree id d m h v

  -- A call that fails changes nothing.
  abbrev pub run_postgres : List Call → Database → Database
  run_postgres [] d = d
  run_postgres (c ∷ cs) d = run_postgres cs (or_same d (on_postgres c d))

  abbrev pub run_memory : List Call → MemoryStore → MemoryStore
  run_memory [] m = m
  run_memory (c ∷ cs) m = run_memory cs (or_same m (on_memory c m))

  abbrev pub AreCommon : List Call → Database → MemoryStore → Type 0
  AreCommon [] d m = Unit {0}
  AreCommon (c ∷ cs) d m =
      IsCommon c d m × AreCommon cs (or_same d (on_postgres c d)) (or_same m (on_memory c m))

  or_same-Represents :
      (d : Database) (m : MemoryStore) (x : Option Database) (y : Option MemoryStore)
      → Represents d m
      → Agree x y
      → Represents (or_same d x) (or_same m y)
  or_same-Represents d m none none v a = v
  or_same-Represents d m (some t) (some u) v a = a
  or_same-Represents d m none (some u) v a = absurd a
  or_same-Represents d m (some t) none v a = absurd a

  run-Represents :
      (cs : List Call) (d : Database) (m : MemoryStore)
      → AreCommon cs d m
      → Represents d m
      → Represents (run_postgres cs d) (run_memory cs m)
  run-Represents [] d m h v = v
  run-Represents (c ∷ cs) d m h v =
      run-Represents cs (or_same d (on_postgres c d)) (or_same m (on_memory c m)) h.1
        (or_same-Represents d m (on_postgres c d) (on_memory c m) v (call-Agree c d m h.0 v))

  -- From new stores, whatever calls come, each where it means the same in both and a new run gets the same
  -- key, the database holds the
  -- runs and machines of the in-memory store, so GetTestRun and GetVM answer the same in both.
  pub run_postgres-run_memory :
      (cs : List Call)
      → AreCommon cs new_database new_memory_store
      → let d = run_postgres cs new_database in
        let m = run_memory cs new_memory_store in
        Represents d m
        × ((id : String) → get_test_run id d ≡ dvf.Store.get_test_run id m)
        × ((id : String) → get_vm id d ≡ dvf.Store.get_vm id m)
  unfolding get_test_run get_vm dvf.Store.get_test_run dvf.Store.get_vm
  run_postgres-run_memory cs h =
      let v = run-Represents cs new_database new_memory_store h new-Represents in
      (v, λ id. sym (v.runs.same id), λ id. sym (v.machines.same id))
