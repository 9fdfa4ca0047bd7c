-- ===== src/Engine/Loop.antt =====
-- runWorkflow (go-orchestrator/internal/core/execution_engine.go): the loop that launches the ready
-- steps of a workflow and advances it by one result at a time. What the launched goroutines send
-- is chosen by the environment; the agent and its clock decide it.
pub mod Launch
pub mod Measure
pub mod Termination
pub mod Tests
use dvf.Prelude.{
  ℕ, zero, suc, String, List, [], ◌∷◌, ◌++◌, Option, none, some, Bool, true, false, if◌then◌else◌,
  ltb, count, remove, length, ◌||◌,
}
use dvf.Prelude.Dict.{MapRange}
use dvf.Prelude.Panic.{◌>>=◌}
use dvf.Types.{TestSuite}
use dvf.Workflow.{StepStatus, Workflow, WorkflowError, Result, ok, err, new_workflow}
use dvf.Workflow.Steps.{ready, mark_running, advance, is_done, Tally, summary}

-- The workflow and the names in the map `running`, one goroutine each.
pub record LoopState : Type 0 where
  pub workflow : Workflow
  pub running : List String

-- The loop over the ready steps that launches those that are not running yet.
unfoldable pub launch : List String → LoopState → LoopState
launch [] s = s
launch (sid ∷ ready) s = launch ready (
    if ltb 0 (count sid s.running)
    then s
    else (record { workflow = (mark_running s.workflow sid).0; running = s.running ++ sid ∷ [] }))

-- The part of an iteration under the lock.
unfoldable pub launch_ready : LoopState → Option LoopState
launch_ready s = ready s.workflow >>= λ l. some (launch l s)

-- A result from the channel: the step leaves `running`, and the workflow advances. An error of
-- Advance is only logged.
unfoldable pub receive : String → StepStatus → LoopState → Option LoopState
receive sid status s = advance s.workflow sid status >>= λ r.
    some (record { workflow = r.0; running = remove sid s.running })

pub record StepResult : Type 0 where
  pub step_id : String
  pub status : StepStatus

-- The result that arrives next, by the state of the loop that waits for it; none is the end of the
-- context.
abbrev pub Environment : Type 0
Environment = LoopState → Option StepResult

pub data Outcome : Type 0 where
  finished : LoopState → Outcome
  cancelled : LoopState → Outcome
  panicked : Outcome
  out_of_fuel : Outcome

unfoldable pub resume : (LoopState → Outcome) → Option LoopState → Outcome
resume next none = panicked
resume next (some t) = next t

unfoldable pub await : (LoopState → Outcome) → Option StepResult → LoopState → Outcome
unfolding resume
await next none s = cancelled s
await next (some r) s = resume next (receive r.step_id r.status s)

unfoldable pub turn : (LoopState → Outcome) → Environment → Option LoopState → Outcome
unfolding await
turn next env none = panicked
turn next env (some s) = await next (env s) s

-- The loop itself, with fuel for the results that it receives.
unfoldable pub run_loop : ℕ → MapRange → Environment → LoopState → Outcome
unfolding turn
run_loop zero range env s = if is_done range s.workflow then finished s else out_of_fuel
run_loop (suc fuel) range env s =
    if is_done range s.workflow
    then finished s
    else turn (run_loop fuel range env) env (launch_ready s)

-- What runWorkflow returns: nil, ErrWorkflowFailed with its counts, the error of the context or that
-- of NewWorkflow.
pub data WorkflowEnd : Type 0 where
  all_passed_end : WorkflowEnd
  workflow_failed : ℕ → ℕ → WorkflowEnd
  context_ended : WorkflowEnd
  invalid : WorkflowError → WorkflowEnd
  crashed : WorkflowEnd
  no_fuel : WorkflowEnd

conclude : Tally → WorkflowEnd
conclude t =
    if ltb 0 t.failed_count || ltb 0 t.skipped_count
    then workflow_failed t.failed_count t.skipped_count
    else all_passed_end

end_of : MapRange → Outcome → WorkflowEnd
unfolding conclude
end_of range (finished s) = conclude (summary range s.workflow)
end_of range (cancelled s) = context_ended
end_of range panicked = crashed
end_of range out_of_fuel = no_fuel

run_built : MapRange → Environment → Result Workflow → WorkflowEnd
unfolding end_of
run_built range env (err e) = invalid e
run_built range env (ok w) =
    end_of range (run_loop (length w.steps.keys) range env (record { workflow = w; running = [] }))

-- runWorkflow, with fuel for one result of each step.
unfoldable pub run_workflow : MapRange → Environment → String → TestSuite → WorkflowEnd
unfolding run_built
run_workflow range env run_id suite =
    run_built range env (new_workflow range suite.id run_id suite.steps)
