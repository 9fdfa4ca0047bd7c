-- ===== src/Engine/Attempts.antt =====
-- The goroutine that runWorkflow (go-orchestrator/internal/core/execution_engine.go) launches for one
-- step: its attempts, and the results that each of them saves (processResultsForStep). The JSON
-- library, the clock and the agent's answers are arguments; the waits between attempts are left out.
pub mod Retry
mod Tests
use dvf.Prelude.{
  ℕ, zero, suc, ◌+◌, String, List, [], ◌∷◌, ◌++◌, Option, none, some, Bool, true, false, ◌==◌, ◌||◌,
  if◌then◌else◌,
}
use dvf.Prelude.Int.{ℤ, pos, negsuc}
use dvf.Types.{Time, Float64, TestRun, TestResult, TestRunStatus, passed, failed, errored}
use dvf.Workflow.{StepStatus}
use dvf.Engine.Host.{Answer, gives, refuses, AgentResult}

-- An item of a parsed output; its duration is already cut to an integer.
pub record RawResult : Type 0 where
  pub test : String
  pub status : String
  pub duration_ms : ℤ
  pub message : String
  pub metrics : List (String × Float64)

-- What the JSON library reads from a text: the field "results" of an object, or an array.
pub record Parser : Type 0 where
  pub parse_object : String → Option (List RawResult)
  pub parse_array : String → Option (List RawResult)

-- mapAgentStatus
unfoldable pub map_agent_status : String → TestRunStatus
map_agent_status s =
    if s == "passed" || s == "PASS"
    then passed
    else if s == "failed" || s == "FAIL"
    then failed
    else errored

module _ (parser : Parser) (now : Time) (run : TestRun) (step_id : String) where
  whole_output : AgentResult → TestResult
  unfolding map_agent_status
  whole_output a = record {
    id = "";
    test_run_id = run.id;
    test_name = step_id;
    category = none;
    status = map_agent_status a.status;
    duration_ms = a.duration_ms;
    message = a.output;
    metrics = [];
    logs = a.logs;
    completed_at = now;
  }

  item : AgentResult → RawResult → TestResult
  unfolding map_agent_status
  item a raw = record {
    id = "";
    test_run_id = run.id;
    test_name = raw.test;
    category = none;
    status = map_agent_status raw.status;
    duration_ms = raw.duration_ms;
    message = raw.message;
    metrics = raw.metrics;
    logs = a.logs;
    completed_at = now;
  }

  items : AgentResult → List RawResult → List TestResult
  unfolding item
  items a [] = []
  items a (raw ∷ raws) = item a raw ∷ items a raws

  from_array : AgentResult → Option (List RawResult) → List TestResult
  unfolding items whole_output
  from_array a none = whole_output a ∷ []
  from_array a (some raws) = items a raws

  from_object : AgentResult → Option (List RawResult) → List TestResult
  unfolding from_array
  from_object a (some (raw ∷ raws)) = items a (raw ∷ raws)
  from_object a (some []) = from_array a (parser.parse_array a.output)
  from_object a none = from_array a (parser.parse_array a.output)

  -- processResultsForStep, as the results that it saves.
  unfoldable pub results_for_step : AgentResult → List TestResult
  unfolding from_object
  results_for_step a = if a.output == "" then [] else from_object a (parser.parse_object a.output)

  -- Whether the answer to an attempt ends the step.
  abbrev pub is_pass : Answer AgentResult → Bool
  is_pass (refuses e) = false
  is_pass (gives a) = a.status == "passed"

  -- What an attempt saves.
  unfoldable pub saved : Answer AgentResult → List TestResult
  unfolding results_for_step
  saved (refuses e) = []
  saved (gives a) = results_for_step a

  -- The attempts from the given one on, with the number of retries that remain, and what they save.
  unfoldable pub attempts_from : (ℕ → Answer AgentResult) → ℕ → ℕ → StepStatus × List TestResult
  unfolding saved
  attempts_from send k zero =
      (if is_pass (send k) then StepStatus.passed else StepStatus.failed, saved (send k))
  attempts_from send k (suc more) =
      let rest = attempts_from send (k + 1) more in
      if is_pass (send k)
      then (StepStatus.passed, saved (send k))
      else (rest.0, saved (send k) ++ rest.1)

  abbrev pub retries : ℤ → ℕ
  retries (pos n) = n
  retries (negsuc n) = 0

  -- A step with the given RetryMax.
  unfoldable pub run_step : (ℕ → Answer AgentResult) → ℤ → StepStatus × List TestResult
  unfolding attempts_from
  run_step send retry_max = attempts_from send 0 (retries retry_max)
