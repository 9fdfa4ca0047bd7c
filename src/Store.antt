-- ===== src/Store.antt =====
-- The in-memory store of go-orchestrator/internal/storage/memory.go. Each method is atomic under its
-- lock. The store keeps copies, so no caller shares a record with it. `none` is the "not found"
-- error. The texts of new names come from fmt.Sprintf, an argument, and so do the clock's reading and
-- the milliseconds between two readings.
pub mod Laws
pub mod Listing
pub mod Fresh
pub mod Tests
use dvf.Prelude.{
  ℕ, zero, suc, ◌+◌, String, List, [], ◌∷◌, ◌++◌, Option, none, some, Bool, true, false, not, ◌==◌,
  ◌&&◌, if◌then◌else◌, length,
}
use dvf.Prelude.Int.{ℤ, pos, negsuc, add64, ltb_ℤ}
use dvf.Prelude.Dict.{Dict, insert, erase, empty, MapRange}
use dvf.Types.{
  Time, TestRun, TestResult, VmInstance, TestRunStatus, VmStatus, ListTestRunsRequest,
  ListVmsRequest, pending, queued, running, passed, failed, errored, cancelled, timeout, creating,
  booting, running_test, TestRunStatus-discrete, VmStatus-discrete,
}

pub record MemoryStore : Type 0 where
  pub test_runs : Dict TestRun
  pub test_results : Dict (List TestResult)
  pub vms : Dict VmInstance
  pub counter : ℤ

-- NewMemoryStore
abbrev pub new_memory_store : MemoryStore
new_memory_store = record { test_runs = empty; test_results = empty; vms = empty; counter = pos 0 }

-- `fmt.Sprintf("%s-%d", prefix, counter)`
abbrev pub Format : Type 0
Format = String → ℤ → String

-- nextID
unfoldable pub next_id : Format → String → MemoryStore → String × MemoryStore
next_id format prefix m =
    let counter = add64 m.counter (pos 1) in (format prefix counter, record m { counter = counter })

abbrev pub or_pending : Option TestRunStatus → Option TestRunStatus
or_pending none = some pending
or_pending (some s) = some s

-- CreateTestRun, with the run that it returns.
unfoldable pub create_test_run : Format → Time → TestRun → MemoryStore → TestRun × MemoryStore
unfolding next_id
create_test_run format now run m =
    let n = next_id format "tr" m in
    let stored = record run { id = n.0; created_at = now; status = or_pending run.status } in
    (stored, record (n.1) { test_runs = insert n.0 stored m.test_runs })

-- GetTestRun
unfoldable pub get_test_run : String → MemoryStore → Option TestRun
get_test_run id m = m.test_runs.get id

abbrev pub is_terminal : TestRunStatus → Bool
is_terminal passed = true
is_terminal failed = true
is_terminal errored = true
is_terminal cancelled = true
is_terminal timeout = true
is_terminal _ = false

abbrev pub is_running : TestRunStatus → Bool
is_running running = true
is_running _ = false

-- The `switch` of UpdateTestRunStatus.
unfoldable pub stamp : (Time → Time → ℤ) → Time → TestRunStatus → TestRun → TestRun
stamp elapsed now status run =
    if is_running status
    then record run { started_at = some now }
    else if is_terminal status
    then record run {
      completed_at = some now;
      duration_ms = elim run.started_at [ none ↦ run.duration_ms | some t ↦ elapsed t now ];
    }
    else run

-- UpdateTestRunStatus
unfoldable pub updated : (Time → Time → ℤ) → Time → TestRunStatus → String → TestRun → TestRun
unfolding stamp
updated elapsed now status err_msg run = stamp elapsed now status (record run {
  status = some status;
  error_message = if err_msg == "" then run.error_message else err_msg;
})

unfoldable pub update_run_at :
    (TestRun → TestRun) → String → MemoryStore → Option TestRun → Option MemoryStore
update_run_at f id m none = none
update_run_at f id m (some run) = some (record m { test_runs = insert id (f run) m.test_runs })

unfoldable pub update_test_run_status :
    (Time → Time → ℤ) → Time → String → TestRunStatus → String → MemoryStore → Option MemoryStore
unfolding update_run_at
update_test_run_status elapsed now id status err_msg m =
    update_run_at (updated elapsed now status err_msg) id m (m.test_runs.get id)

-- The records of a range over a map that pass a test.
unfoldable pub select {ℓ} : {V : Type ℓ} → (V → Bool) → Dict V → List String → List V
select p m [] = []
select p m (k ∷ keys) =
    let rest = select p m keys in
    elim (m.get k) [ none ↦ rest | some v ↦ if p v then v ∷ rest else rest ]

abbrev pub has_status : Option TestRunStatus → Option TestRunStatus → Bool
has_status none _ = true
has_status (some a) none = false
has_status (some a) (some b) = elim (TestRunStatus-discrete b a) [ yes _ ↦ true | no _ ↦ false ]

abbrev pub has_device : String → String → Bool
has_device want device = if want == "" then true else device == want

abbrev pub drop {ℓ} : {V : Type ℓ} → ℕ → List V → List V
drop zero vs = vs
drop (suc n) [] = []
drop (suc n) (v ∷ vs) = drop n vs

abbrev pub take {ℓ} : {V : Type ℓ} → ℕ → List V → List V
take zero vs = []
take (suc n) [] = []
take (suc n) (v ∷ vs) = v ∷ take n vs

-- `results[offset:]` and `results[:limit]`, where the bound is positive and below the length.
unfoldable pub page_offset {ℓ} : {V : Type ℓ} → ℤ → List V → List V
page_offset (negsuc n) vs = vs
page_offset (pos n) vs = if ltb_ℤ (pos n) (pos (length vs)) then drop n vs else vs

unfoldable pub page_limit {ℓ} : {V : Type ℓ} → ℤ → List V → List V
page_limit (negsuc n) vs = vs
page_limit (pos zero) vs = vs
page_limit (pos (suc n)) vs = if ltb_ℤ (pos (suc n)) (pos (length vs)) then take (suc n) vs else vs

-- ListTestRuns
unfoldable pub list_test_runs : MapRange → ListTestRunsRequest → MemoryStore → List TestRun
unfolding select page_offset page_limit
list_test_runs range req m = page_limit req.limit (
    page_offset req.offset (
      select
        (λ (r : TestRun). has_device req.device_id r.device_id && has_status req.status r.status)
        m.test_runs (range.visit 0 m.test_runs.keys)))

abbrev pub in_flight : Option TestRunStatus → Bool
in_flight (some running) = true
in_flight (some queued) = true
in_flight (some pending) = true
in_flight _ = false

-- ListRunningTestRuns
unfoldable pub list_running_test_runs : MapRange → MemoryStore → List TestRun
unfolding select
list_running_test_runs range m =
    select (λ (r : TestRun). in_flight r.status) m.test_runs (range.visit 0 m.test_runs.keys)

abbrev pub or_nil {ℓ} : {V : Type ℓ} → Option (List V) → List V
or_nil none = []
or_nil (some vs) = vs

-- SaveTestResult, with the identifier that it fills in.
unfoldable pub save_test_result : Format → TestResult → MemoryStore → TestResult × MemoryStore
unfolding next_id
save_test_result format result m =
    let n = if result.id == "" then next_id format "tres" m else (result.id, m) in
    let stored = record result { id = n.0 } in
    (
      stored,
      record (n.1) {
        test_results =
            insert result.test_run_id
              (or_nil (m.test_results.get result.test_run_id) ++ stored ∷ []) m.test_results;
      },
    )

-- GetTestResults
unfoldable pub get_test_results : String → MemoryStore → List TestResult
get_test_results id m = or_nil (m.test_results.get id)

-- SaveVM
unfoldable pub save_vm : Format → VmInstance → MemoryStore → VmInstance × MemoryStore
unfolding next_id
save_vm format vm m =
    let n = if vm.id == "" then next_id format "vm" m else (vm.id, m) in
    let stored = record vm { id = n.0 } in (stored, record (n.1) { vms = insert n.0 stored m.vms })

-- GetVM
unfoldable pub get_vm : String → MemoryStore → Option VmInstance
get_vm id m = m.vms.get id

unfoldable pub update_vm_at :
    VmStatus → String → MemoryStore → Option VmInstance → Option MemoryStore
update_vm_at status id m none = none
update_vm_at status id m (some vm) =
    some (record m { vms = insert id (record vm { status = status }) m.vms })

-- UpdateVMStatus
unfoldable pub update_vm_status : String → VmStatus → MemoryStore → Option MemoryStore
unfolding update_vm_at
update_vm_status id status m = update_vm_at status id m (m.vms.get id)

abbrev pub has_vm_status : Option VmStatus → VmStatus → Bool
has_vm_status none _ = true
has_vm_status (some a) b = elim (VmStatus-discrete b a) [ yes _ ↦ true | no _ ↦ false ]

-- ListVMs
unfoldable pub list_vms : MapRange → ListVmsRequest → MemoryStore → List VmInstance
unfolding select
list_vms range req m =
    select
      (λ (v : VmInstance).
        has_vm_status req.status v.status && has_device req.device_id v.device_id)
      m.vms (range.visit 0 m.vms.keys)

abbrev pub is_orphan : VmStatus → Bool
is_orphan creating = true
is_orphan booting = true
is_orphan running_test = true
is_orphan _ = false

-- ListOrphanedVMs
unfoldable pub list_orphaned_vms : MapRange → MemoryStore → List VmInstance
unfolding select
list_orphaned_vms range m =
    select (λ (v : VmInstance). is_orphan v.status) m.vms (range.visit 0 m.vms.keys)

unfoldable pub delete_vm_at : String → MemoryStore → Option VmInstance → Option MemoryStore
delete_vm_at id m none = none
delete_vm_at id m (some _) = some (record m { vms = erase id m.vms })

-- DeleteVM
unfoldable pub delete_vm : String → MemoryStore → Option MemoryStore
unfolding delete_vm_at
delete_vm id m = delete_vm_at id m (m.vms.get id)
