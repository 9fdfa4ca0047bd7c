-- ===== src/Engine/Attempts/Tests.antt =====
-- A step (core/execution_engine.go) that fails at its first attempt and passes at its second.
use dvf.Prelude.{ℕ, zero, suc, ◌≤◌, ◌<◌, ◌≡◌, ◌⊎◌, String, none}
use dvf.Prelude.Int.{pos}
use dvf.Workflow.{StepStatus}
use dvf.Engine.Host.{Answer, gives, AgentResult}
use dvf.Engine.Attempts.{Parser, run_step}
use dvf.Engine.Attempts.Retry.{Answered, run_step_exact}
use dvf.Store.Tests.{test_run}

abbrev parser : Parser
parser = record { parse_object = λ s. none; parse_array = λ s. none }

abbrev reply : String → AgentResult
reply s = record { command_id = ""; status = s; output = "done"; logs = ""; duration_ms = pos 1 }

abbrev send : ℕ → Answer AgentResult
send zero = gives (reply "failed")
send (suc n) = gives (reply "passed")

run_step_exact_example :
    (((run_step parser 9 test_run "s" send (pos 1)).0 ≡ StepStatus.passed)
      × (j : ℕ) × (j ≤ 1)
      × Answered parser 9 test_run "s" send j
      × ((i : ℕ) → i < j → Answered parser 9 test_run "s" send i → ⊥))
    ⊎ (((run_step parser 9 test_run "s" send (pos 1)).0 ≡ StepStatus.failed)
        × ((i : ℕ) → i ≤ 1 → Answered parser 9 test_run "s" send i → ⊥))
run_step_exact_example = run_step_exact parser 9 test_run "s" send 1
