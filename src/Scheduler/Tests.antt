-- ===== src/Scheduler/Tests.antt =====
-- The scheduler (core/scheduler.go) with room for one run.
use dvf.Prelude.{List, [], ◌∷◌, none, some}
use dvf.Prelude.Int.{pos}
use dvf.Types.{TestRun, TestRunStatus}
use dvf.Scheduler.Fifo.{Call, enqueues, asks, releases}

abbrev test_run : TestRun
test_run = record {
  id = "tr-1";
  device_id = "gpgpu";
  test_suite_id = "smoke";
  status = some TestRunStatus.pending;
  vm_id = "";
  priority = pos 0;
  created_at = 0;
  started_at = none;
  completed_at = none;
  duration_ms = pos 0;
  requested_by = "ci";
  tags = [];
  error_message = "";
}

abbrev calls : List Call
calls = enqueues test_run ∷ enqueues test_run ∷ asks ∷ asks ∷ releases ∷ asks ∷ []
