-- ===== src/Engine/Loop/Tests.antt =====
-- The loop of runWorkflow (execution_engine.go) on a diamond of steps.
use dvf.Prelude.{
  ◌<◌, ◌≡◌, ◌⊎◌, inl, refl, String, List, [], ◌∷◌, Option, none, some, false, arith, length, count,
  count_self,
}
use dvf.Workflow.{passed, failed}
use dvf.Workflow.Steps.{is_open}
use dvf.Workflow.Skip.{holds}
use dvf.Workflow.Runtime.{IsConsistent}
use dvf.Workflow.Tests.{plain_range, diamond, built, new_workflow-diamond}
use dvf.Engine.Loop.{LoopState, StepResult, Environment, finished, run_loop}
use dvf.Engine.Loop.Termination.{IsFair, run_loop_ends}

abbrev first_passes : List String → Option StepResult
first_passes [] = none
first_passes (k ∷ ks) = some (record { step_id = k; status = passed })

-- The step that was launched first passes next.
abbrev pub eager : Environment
eager s = first_passes s.running

eager_at :
    (running : List String) (k : String)
    → 0 < count k running
    → (r : StepResult) × (first_passes running ≡ some r)
      × (0 < count r.step_id running)
      × ((r.status ≡ passed) ⊎ (r.status ≡ failed))
eager_at [] k p = absurd (omega arith)
eager_at (x ∷ ks) k p =
    (record { step_id = x; status = passed }, refl, omega (arith, count_self x ks), inl refl)

eager-IsFair : IsFair eager
eager-IsFair s k p = eager_at s.running k p

run_loop_ends_example :
    (t : LoopState) × (run_loop
        (length built.steps.keys)
        plain_range
        eager
        (record { workflow = built; running = [] })
      ≡ finished t)
    × IsConsistent t.workflow
    × ((k : String) → holds is_open t.workflow.steps k ≡ false)
run_loop_ends_example =
    run_loop_ends plain_range eager "w" "r" diamond built eager-IsFair new_workflow-diamond
