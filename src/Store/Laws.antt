-- ===== src/Store/Laws.antt =====
-- What a read of the store (storage/memory.go) returns after a write.
use dvf.Prelude.{◌≡◌, refl, ap, String, [], ◌∷◌, ◌++◌, none, some, ◌==◌, if◌then◌else◌, arith}
use dvf.Prelude.Int.{ℤ}
use dvf.Prelude.Dict.{insert, erase}
use dvf.Types.{Time, TestRun, TestResult, VmInstance, TestRunStatus, VmStatus}
use dvf.Store.{
  MemoryStore, Format, get_test_run, is_terminal, is_running, updated, update_test_run_status,
  update_run_at, save_test_result, get_test_results, get_vm, update_vm_status, update_vm_at,
  delete_vm, delete_vm_at,
}

-- The run that UpdateTestRunStatus leaves: the new status, the error message where one is given, the
-- start time where the status is RUNNING, and the end time where it is terminal. All else is kept.
pub updated_fields :
    (elapsed : Time → Time → ℤ) (now : Time) (status : TestRunStatus) (err_msg : String)
    (run : TestRun)
    → let r = updated elapsed now status err_msg run in
      (r.status ≡ some status)
      × (r.id ≡ run.id)
      × (r.error_message ≡ (if err_msg == "" then run.error_message else err_msg))
      × (r.started_at ≡ (if is_running status then some now else run.started_at))
      × (r.completed_at ≡ (if is_terminal status then some now else run.completed_at))
unfolding updated
updated_fields elapsed now status err_msg run = ground arith

-- UpdateTestRunStatus of a stored run changes that run alone, and nothing else of the store.
pub update_test_run_status-get :
    (elapsed : Time → Time → ℤ) (now : Time) (id : String) (status : TestRunStatus)
    (err_msg : String) (m : MemoryStore) (run : TestRun)
    → get_test_run id m ≡ some run
    → (t : MemoryStore) × (update_test_run_status elapsed now id status err_msg m ≡ some t)
      × ((j : String)
          → get_test_run j t
            ≡ (if id == j then some (updated elapsed now status err_msg run) else get_test_run j m))
      × (t.test_results ≡ m.test_results)
      × (t.vms ≡ m.vms)
      × (t.counter ≡ m.counter)
unfolding update_test_run_status get_test_run
update_test_run_status-get elapsed now id status err_msg m run e = (
  record m { test_runs = insert id (updated elapsed now status err_msg run) m.test_runs },
  ap (update_run_at (updated elapsed now status err_msg) id m) e,
  λ j. refl,
  refl,
  refl,
  refl,
)

-- SaveTestResult appends to the results of its run, and to no other.
pub get_test_results-save_test_result :
    (format : Format) (result : TestResult) (m : MemoryStore) (id : String)
    → let (stored, t) = save_test_result format result m in
      get_test_results id t ≡ (
        if result.test_run_id == id
        then get_test_results id m ++ stored ∷ []
        else get_test_results id m)
unfolding get_test_results save_test_result
get_test_results-save_test_result format result m id = ground arith

-- DeleteVM removes the machine that it names and no other; UpdateVMStatus and DeleteVM of a machine
-- that is not there are errors.
pub delete_vm-get :
    (id : String) (m : MemoryStore) (vm : VmInstance) (status : VmStatus)
    → get_vm id m ≡ some vm
    → (t : MemoryStore) × (delete_vm id m ≡ some t)
      × ((j : String) → get_vm j t ≡ (if id == j then none else get_vm j m))
      × (delete_vm id t ≡ none)
      × (update_vm_status id status t ≡ none)
unfolding delete_vm get_vm update_vm_status
delete_vm-get id m vm status e =
    let t = record m { vms = erase id m.vms } in
    let gone : t.vms.get id ≡ none = ground arith in
    (
      t,
      ap (delete_vm_at id m) e,
      λ j. refl,
      ap (delete_vm_at id t) gone,
      ap (update_vm_at status id t) gone,
    )
