-- ===== src/Postgres/Tests.antt =====
-- PostgresStore (storage/postgres.go) with one run and one machine.
use dvf.Prelude.{◌≡◌, refl, String-discrete, [], ◌∷◌, List, none, some}
use dvf.Prelude.Int.{ℤ, pos}
use dvf.Prelude.Bags.{bag_of}
use dvf.Types.{Time, TestRun, ListVmsRequest, running, passed, booting}
use dvf.Store.{MemoryStore, Format, new_memory_store}
use dvf.Store
use dvf.Store.Tests.{machine, test_run}
use dvf.Workflow.Tests.{plain_range}
use dvf.Postgres.{
  Database, new_database, RunRow, VmRow, run_of, vm_of, list_running_test_runs, list_orphaned_vms,
  list_vms, get_test_run, get_vm, new_row, row_of, update_test_run_status, coalesce,
}
use dvf.Postgres.Agreement.{Represents}
use dvf.Postgres.Refines.{
  Call, creates, updates_run, saves_vm, updates_vm, deletes_vm, AreCommon, run_postgres, run_memory,
  run_postgres-run_memory,
}
use dvf.Postgres.Listing.{listings-Represents}
use dvf.Postgres.Differences.{update_test_run_status-clears}

abbrev kept : Time → Time
kept t = t

abbrev elapsed : Time → Time → ℤ
elapsed a b = pos 7

abbrev format : Format
format = λ prefix n. "tr-1"

abbrev new_run : TestRun
new_run = record test_run { id = ""; started_at = none; error_message = "late" }

abbrev calls : List Call
calls =
    creates "tr-1" 3 new_run
    ∷ saves_vm 3 machine
    ∷ updates_vm "vm-1" booting
    ∷ updates_vm "vm-9" booting
    ∷ updates_run 4 "tr-1" running "going"
    ∷ deletes_vm "vm-1"
    ∷ []

abbrev database : Database
database =
    run_postgres kept elapsed elapsed format (creates "tr-1" 3 new_run ∷ saves_vm 3 machine ∷ [])
      new_database

abbrev memory : MemoryStore
memory =
    run_memory kept elapsed elapsed format (creates "tr-1" 3 new_run ∷ saves_vm 3 machine ∷ [])
      new_memory_store

calls-AreCommon : AreCommon kept elapsed elapsed format calls new_database new_memory_store
unfolding String-discrete dvf.Postgres.create_test_run dvf.Postgres.save_vm
    dvf.Postgres.update_vm_status dvf.Postgres.update_vm_row dvf.Postgres.update_test_run_status
    dvf.Postgres.update_at dvf.Store.next_id dvf.Store.create_test_run
calls-AreCommon = (
  record {
    same_key = refl;
    free = refl;
    fits = refl;
    time = refl;
    not_started = refl;
    not_completed = refl;
    no_duration = refl;
  },
  (
    record {
      named = refl;
      free = refl;
      fits = refl;
      dated = refl;
      time = refl;
      no_heartbeat = refl;
    },
    (
      tt,
      (
        tt,
        (
          λ r e. record { time = refl; message = refl; started = refl; lasted = λ t f. refl },
          (refl, tt),
        ),
      ),
    ),
  ),
)

abbrev two_calls : List Call
two_calls = creates "tr-1" 3 new_run ∷ saves_vm 3 machine ∷ []

both : Represents database memory
unfolding String-discrete dvf.Postgres.create_test_run dvf.Postgres.save_vm dvf.Store.next_id
    dvf.Store.create_test_run
both =
    (run_postgres-run_memory kept elapsed elapsed format two_calls
      (calls-AreCommon.0, (calls-AreCommon.1.0, tt))).0

abbrev every_vm : ListVmsRequest
every_vm = record { status = none; device_id = "" }

listings-Represents_example :
    (bag_of (list_running_test_runs plain_range database)
      ≡ bag_of (dvf.Store.list_running_test_runs plain_range memory))
    × (bag_of (list_orphaned_vms plain_range database)
        ≡ bag_of (dvf.Store.list_orphaned_vms plain_range memory))
    × (bag_of (list_vms plain_range every_vm database)
        ≡ bag_of (dvf.Store.list_vms plain_range every_vm memory))
listings-Represents_example =
    listings-Represents plain_range plain_range every_vm database memory both

update_test_run_status-clears_example :
    (t : Database) × (u : MemoryStore) × (a : TestRun) × (b : TestRun) × (update_test_run_status
        kept elapsed 9 "tr-1" passed "" database
      ≡ some t)
    × (dvf.Store.update_test_run_status elapsed 9 "tr-1" passed "" memory ≡ some u)
    × (get_test_run "tr-1" t ≡ some a)
    × (dvf.Store.get_test_run "tr-1" u ≡ some b)
    × (a.error_message ≡ "")
    × (b.error_message ≡ "late")
unfolding String-discrete dvf.Postgres.create_test_run dvf.Postgres.save_vm
update_test_run_status-clears_example =
    update_test_run_status-clears kept elapsed elapsed 9 passed "tr-1" (new_row kept 3 new_run)
      database memory both refl
