-- ===== src/Postgres/Tables.antt =====
-- The tables of the schema that PostgresStore (storage/postgres.go) makes, and what its statements read
-- from a row.
use dvf.Prelude.{
  suc, String, List, [], ◌∷◌, Option, none, some, Bool, ◌&&◌, ◌==◌, if◌then◌else◌, ltb, ◌^◌, ◌-◌,
}
use dvf.Prelude.Int.{ℤ, pos, negsuc, ltb_ℤ, leb_ℤ}
use dvf.Prelude.Dict.{Dict, empty}
use dvf.Types.{
  Time, Float64, TestRun, TestResult, VmInstance, TestRunStatus, VmStatus, AgentStatus,
  TestCategory,
}
use dvf.Store.{drop, take}

-- The rows, without their primary keys. A status is NOT NULL text, where none is the empty text.
pub record RunRow : Type 0 where
  pub device_id : String
  pub test_suite_id : String
  pub status : Option TestRunStatus
  pub vm_id : Option String
  pub priority : ℤ
  pub created_at : Time
  pub started_at : Option Time
  pub completed_at : Option Time
  pub duration_ms : ℤ
  pub requested_by : Option String
  pub tags : List String
  pub error_message : Option String

pub record ResultRow : Type 0 where
  pub id : String
  pub test_run_id : String
  pub test_name : String
  pub category : Option TestCategory
  pub status : TestRunStatus
  pub duration_ms : ℤ
  pub message : Option String
  pub metrics : List (String × Float64)
  pub logs : Option String
  pub completed_at : Time

pub record VmRow : Type 0 where
  pub status : VmStatus
  pub device_id : String
  pub qemu_device_name : Option String
  pub qmp_socket_path : Option String
  pub serial_ports : List String
  pub pid : ℤ
  pub allocated_cpus : ℤ
  pub allocated_mem_mb : ℤ
  pub image_path : Option String
  pub overlay_path : Option String
  pub created_at : Time
  pub agent_status : AgentStatus
  pub last_heartbeat : Option Time
  pub current_test_run_id : Option String

pub record Database : Type 0 where
  pub test_runs : Dict RunRow
  pub test_results : List ResultRow
  pub vms : Dict VmRow

-- The tables that ensureSchema makes on a new database.
abbrev pub new_database : Database
new_database = record { test_runs = empty; test_results = []; vms = empty }

-- nullableStr, which is also what NULLIF(x, '') is.
abbrev pub nullable_str : String → Option String
nullable_str s = if s == "" then none else some s

-- COALESCE(x, '')
abbrev pub coalesce : Option String → String
coalesce none = ""
coalesce (some s) = s

-- The values of an INTEGER column; another one is an error.
abbrev pub is_int4 : ℤ → Bool
is_int4 n = ltb_ℤ n (pos (2 ^ 31)) && leb_ℤ (negsuc (2 ^ 31 - 1)) n

-- A row as the SELECT statements read it.
abbrev pub run_of : String → RunRow → TestRun
run_of id r = record {
  id = id;
  device_id = r.device_id;
  test_suite_id = r.test_suite_id;
  status = r.status;
  vm_id = coalesce r.vm_id;
  priority = r.priority;
  created_at = r.created_at;
  started_at = r.started_at;
  completed_at = r.completed_at;
  duration_ms = r.duration_ms;
  requested_by = coalesce r.requested_by;
  tags = r.tags;
  error_message = coalesce r.error_message;
}

abbrev pub result_of : ResultRow → TestResult
result_of r = record {
  id = r.id;
  test_run_id = r.test_run_id;
  test_name = r.test_name;
  category = r.category;
  status = r.status;
  duration_ms = r.duration_ms;
  message = coalesce r.message;
  metrics = r.metrics;
  logs = coalesce r.logs;
  completed_at = r.completed_at;
}

abbrev pub vm_of : String → VmRow → VmInstance
vm_of id r = record {
  id = id;
  status = r.status;
  device_id = r.device_id;
  qemu_device_name = coalesce r.qemu_device_name;
  qmp_socket_path = coalesce r.qmp_socket_path;
  serial_ports = r.serial_ports;
  pid = r.pid;
  allocated_cpus = r.allocated_cpus;
  allocated_mem_mb = r.allocated_mem_mb;
  image_path = coalesce r.image_path;
  overlay_path = coalesce r.overlay_path;
  created_at = r.created_at;
  agent_status = r.agent_status;
  last_heartbeat = r.last_heartbeat;
  current_test_run_id = coalesce r.current_test_run_id;
}

abbrev pub read_at {ℓ} : {R V : Type ℓ} → (String → R → V) → String → Option R → Option V
read_at f id none = none
read_at f id (some r) = some (f id r)

-- Rows in the order of a key, where `before` tells that a key stands before another. Rows of equal keys
-- stand as the scan meets them.
abbrev pub insert_by {ℓ} : {V : Type ℓ} → (V → V → Bool) → V → List V → List V
insert_by before v [] = v ∷ []
insert_by before v (w ∷ ws) =
    let rest = insert_by before v ws in if before w v then w ∷ rest else v ∷ w ∷ ws

unfoldable pub order_by {ℓ} : {V : Type ℓ} → (V → V → Bool) → List V → List V
order_by before [] = []
order_by before (v ∷ vs) = insert_by before v (order_by before vs)

-- The rows of a table as records, each with its primary key.
unfoldable pub read_table {ℓ} : {R V : Type ℓ} → (String → R → V) → Dict R → Dict V
read_table f d = record { keys = d.keys; get = λ k. read_at f k (d.get k) }

abbrev pub oldest_run : TestRun → TestRun → Bool
oldest_run a b = ltb a.created_at b.created_at

abbrev pub newest_run : TestRun → TestRun → Bool
newest_run a b = ltb b.created_at a.created_at

abbrev pub oldest_vm : VmInstance → VmInstance → Bool
oldest_vm a b = ltb a.created_at b.created_at

abbrev pub newest_vm : VmInstance → VmInstance → Bool
newest_vm a b = ltb b.created_at a.created_at

-- LIMIT and OFFSET, which are there where the request's numbers are positive.
abbrev pub sql_limit {ℓ} : {V : Type ℓ} → ℤ → List V → List V
sql_limit (pos (suc n)) vs = take (suc n) vs
sql_limit _ vs = vs

abbrev pub sql_offset {ℓ} : {V : Type ℓ} → ℤ → List V → List V
sql_offset (pos n) vs = drop n vs
sql_offset (negsuc n) vs = vs
