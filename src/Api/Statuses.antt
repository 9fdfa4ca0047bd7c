-- ===== src/Api/Statuses.antt =====
-- The conversions of statuses (api/grpc_server.go) there and back.
pub mod Types
use dvf.Prelude.{◌≡◌, refl, Option, none, some, Bool, true, false}
use dvf.Types.{TestRunStatus, VmStatus}
use dvf.Api.{
  test_run_status_to_proto, proto_to_test_run_status, vm_status_to_proto, proto_to_vm_status,
  RunStatusCode, VmStatusCode, test_run_status_other, vm_status_other, vm_status_unspecified,
}

-- Each status of a run, also a missing one, and of a machine comes back from its message.
pub statuses_roundtrip :
    ((s : Option TestRunStatus) → proto_to_test_run_status (test_run_status_to_proto s) ≡ s)
    × ((s : VmStatus) → proto_to_vm_status (vm_status_to_proto s) ≡ some s)
unfolding test_run_status_to_proto proto_to_test_run_status vm_status_to_proto proto_to_vm_status
statuses_roundtrip = (runs, machines)
  where
    runs : (s : Option TestRunStatus) → proto_to_test_run_status (test_run_status_to_proto s) ≡ s
    runs none = refl
    runs (some TestRunStatus.pending) = refl
    runs (some TestRunStatus.queued) = refl
    runs (some TestRunStatus.running) = refl
    runs (some TestRunStatus.passed) = refl
    runs (some TestRunStatus.failed) = refl
    runs (some TestRunStatus.errored) = refl
    runs (some TestRunStatus.cancelled) = refl
    runs (some TestRunStatus.timeout) = refl

    machines : (s : VmStatus) → proto_to_vm_status (vm_status_to_proto s) ≡ some s
    machines VmStatus.creating = refl
    machines VmStatus.booting = refl
    machines VmStatus.ready = refl
    machines VmStatus.running_test = refl
    machines VmStatus.stopping = refl
    machines VmStatus.stopped = refl
    machines VmStatus.error = refl
    machines VmStatus.destroyed = refl
