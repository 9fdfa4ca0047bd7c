-- ===== src/Postgres.antt =====
-- PostgresStore of go-orchestrator/internal/storage/postgres.go over the tables of its schema. Each method
-- is what PostgreSQL documents for its statement: a column that may be NULL is an option, a table is the
-- map from its primary key to its rows, and the order in which a scan meets the rows is not specified.
-- `none` is an error, after which nothing has changed. The texts of new keys, the microseconds that a
-- column keeps of a time and the milliseconds between two times are arguments. A JSONB column is what
-- json.Unmarshal reads back. A failing connection is left out.
mod Tables
pub mod Agreement
pub mod Refines
pub mod Listing
pub mod Differences
mod Tests
unfoldable pub use Tables.*
use dvf.Prelude.{
  ℕ, zero, suc, String, List, [], ◌∷◌, ◌++◌, Option, none, some, Bool, true, false, not, ◌&&◌, ◌||◌,
  ◌==◌, if◌then◌else◌, map, ltb, eqb, ◌^◌, ◌-◌, ◌+◌,
}
use dvf.Prelude.Int.{ℤ, pos, negsuc, ltb_ℤ, leb_ℤ}
use dvf.Prelude.Dict.{Dict, insert, erase, empty, is_some, MapRange}
use dvf.Types.{
  Time, Float64, TestRun, TestResult, VmInstance, TestRunStatus, VmStatus, AgentStatus,
  TestCategory, ListTestRunsRequest, ListVmsRequest,
}
use dvf.Store.{
  or_pending, is_terminal, is_running, select, has_status, has_device, has_vm_status, drop, take,
  in_flight, is_orphan,
}

update_at : (RunRow → RunRow) → String → Database → Option RunRow → Option Database
update_at f id d none = none
update_at f id d (some r) = some (record d { test_runs = insert id (f r) d.test_runs })

module _ (kept : Time → Time) where
  abbrev pub new_row : Time → TestRun → RunRow
  new_row now run = record {
    device_id = run.device_id;
    test_suite_id = run.test_suite_id;
    status = or_pending run.status;
    vm_id = nullable_str run.vm_id;
    priority = run.priority;
    created_at = kept now;
    started_at = none;
    completed_at = none;
    duration_ms = pos 0;
    requested_by = nullable_str run.requested_by;
    tags = run.tags;
    error_message = nullable_str run.error_message;
  }

  -- CreateTestRun with the key that the database generates; one that is there already is an error.
  unfoldable pub create_test_run : String → Time → TestRun → Database → Option (TestRun × Database)
  create_test_run key now run d =
      if is_int4 run.priority && not (is_some (d.test_runs.get key))
      then some (
        record run { id = key; created_at = kept now; status = or_pending run.status },
        record d { test_runs = insert key (new_row now run) d.test_runs },
      )
      else none

  abbrev since_start : RunRow → Time
  since_start r = elim r.started_at [ none ↦ r.created_at | some t ↦ t ]

  -- The statement that UpdateTestRunStatus chooses. PostgreSQL rounds the seconds between two times, times
  -- 1000, to a BIGINT: rounded gives these milliseconds.
  unfoldable pub updated_row : (Time → Time → ℤ) → Time → TestRunStatus → String → RunRow → RunRow
  updated_row rounded now status err_msg r =
      if is_running status
      then record r {
        status = some status;
        started_at = some (kept now);
        error_message = nullable_str err_msg;
      }
      else if is_terminal status
      then record r {
        status = some status;
        completed_at = some (kept now);
        duration_ms = rounded (since_start r) (kept now);
        error_message = nullable_str err_msg;
      }
      else record r { status = some status; error_message = nullable_str err_msg }

  -- UpdateTestRunStatus
  unfoldable pub update_test_run_status :
      (Time → Time → ℤ) → Time → String → TestRunStatus → String → Database → Option Database
  unfolding updated_row update_at
  update_test_run_status rounded now id status err_msg d =
      update_at (updated_row rounded now status err_msg) id d (d.test_runs.get id)

  abbrev has_result : String → List ResultRow → Bool
  has_result key [] = false
  has_result key (r ∷ rs) = r.id == key || has_result key rs

  -- SaveTestResult, with the key that the database generates; one that is there already is an error, and
  -- so is a result of a run that is not stored.
  unfoldable pub save_test_result :
      String → Time → TestResult → Database → Option (TestResult × Database)
  save_test_result key now result d =
      let at = if eqb result.completed_at 0 then now else result.completed_at in
      if is_some (d.test_runs.get result.test_run_id) && not (has_result key d.test_results)
      then some (
        record result { id = key; completed_at = at },
        record d {
          test_results =
              d.test_results
              ++ (record {
                id = key;
                test_run_id = result.test_run_id;
                test_name = result.test_name;
                category = result.category;
                status = result.status;
                duration_ms = result.duration_ms;
                message = nullable_str result.message;
                metrics = result.metrics;
                logs = nullable_str result.logs;
                completed_at = kept at;
              })
                ∷ [];
        },
      )
      else none

  abbrev pub row_of : Time → VmInstance → VmRow
  row_of now vm = record {
    status = vm.status;
    device_id = vm.device_id;
    qemu_device_name = nullable_str vm.qemu_device_name;
    qmp_socket_path = nullable_str vm.qmp_socket_path;
    serial_ports = vm.serial_ports;
    pid = vm.pid;
    allocated_cpus = vm.allocated_cpus;
    allocated_mem_mb = vm.allocated_mem_mb;
    image_path = nullable_str vm.image_path;
    overlay_path = nullable_str vm.overlay_path;
    created_at = kept (if eqb vm.created_at 0 then now else vm.created_at);
    agent_status = vm.agent_status;
    last_heartbeat = kept_at vm.last_heartbeat;
    current_test_run_id = nullable_str vm.current_test_run_id;
  }
    where
      kept_at : Option Time → Option Time
      kept_at none = none
      kept_at (some t) = some (kept t)

  -- INSERT ... ON CONFLICT (id) DO UPDATE: the columns that the statement sets, and the old others.
  abbrev pub upserted : VmRow → Option VmRow → VmRow
  upserted new none = new
  upserted new (some old) = record old {
    status = new.status;
    qmp_socket_path = new.qmp_socket_path;
    serial_ports = new.serial_ports;
    pid = new.pid;
    agent_status = new.agent_status;
    last_heartbeat = new.last_heartbeat;
    current_test_run_id = new.current_test_run_id;
  }

  -- SaveVM
  unfoldable pub save_vm : Time → VmInstance → Database → Option Database
  save_vm now vm d =
      if is_int4 vm.pid && is_int4 vm.allocated_cpus && is_int4 vm.allocated_mem_mb
      then some (record d { vms = insert vm.id (upserted (row_of now vm) (d.vms.get vm.id)) d.vms })
      else none

-- GetTestRun
unfoldable pub get_test_run : String → Database → Option TestRun
get_test_run id d = read_at run_of id (d.test_runs.get id)

-- ListTestRuns
unfoldable pub list_test_runs : MapRange → ListTestRunsRequest → Database → List TestRun
unfolding select order_by read_table
list_test_runs scan req d = sql_limit req.limit (
    sql_offset req.offset (
      order_by newest_run (
        select
          (λ (r : TestRun). has_device req.device_id r.device_id && has_status req.status r.status)
          (read_table run_of d.test_runs) (scan.visit 0 d.test_runs.keys))))

-- GetTestResults
abbrev of_run : String → List ResultRow → List TestResult
of_run id [] = []
of_run id (r ∷ rs) =
    let rest = of_run id rs in if r.test_run_id == id then result_of r ∷ rest else rest

unfoldable pub get_test_results : String → Database → List TestResult
unfolding order_by
get_test_results id d =
    order_by (λ (a b : TestResult). ltb a.completed_at b.completed_at) (of_run id d.test_results)

-- GetVM
unfoldable pub get_vm : String → Database → Option VmInstance
get_vm id d = read_at vm_of id (d.vms.get id)

update_vm_row : VmStatus → String → Database → Option VmRow → Option Database
update_vm_row status id d none = none
update_vm_row status id d (some r) =
    some (record d { vms = insert id (record r { status = status }) d.vms })

-- UpdateVMStatus
unfoldable pub update_vm_status : String → VmStatus → Database → Option Database
unfolding update_vm_row
update_vm_status id status d = update_vm_row status id d (d.vms.get id)

-- ListVMs
unfoldable pub list_vms : MapRange → ListVmsRequest → Database → List VmInstance
unfolding select order_by read_table
list_vms scan req d = order_by newest_vm (
    select
      (λ (v : VmInstance).
        has_vm_status req.status v.status && has_device req.device_id v.device_id)
      (read_table vm_of d.vms) (scan.visit 0 d.vms.keys))

-- DeleteVM
unfoldable pub delete_vm : String → Database → Database
delete_vm id d = record d { vms = erase id d.vms }

-- ListRunningTestRuns
unfoldable pub list_running_test_runs : MapRange → Database → List TestRun
unfolding select order_by read_table
list_running_test_runs scan d = order_by oldest_run (
    select (λ (r : TestRun). in_flight r.status) (read_table run_of d.test_runs)
      (scan.visit 0 d.test_runs.keys))

-- ListOrphanedVMs
unfoldable pub list_orphaned_vms : MapRange → Database → List VmInstance
unfolding select order_by read_table
list_orphaned_vms scan d = order_by oldest_vm (
    select (λ (v : VmInstance). is_orphan v.status) (read_table vm_of d.vms)
      (scan.visit 0 d.vms.keys))
