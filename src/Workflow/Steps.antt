-- ===== src/Workflow/Steps.antt =====
-- The operations that drive a workflow (go-orchestrator/internal/core/workflow.go). The steps are
-- pointers that the map shares with nobody, so a write through one is an insertion at its key.
use dvf.Prelude.{
  ℕ, suc, String, List, [], ◌∷◌, Option, none, some, Bool, true, false, if◌then◌else◌,
}
use dvf.Prelude.Int.{ℤ, pos, add64}
use dvf.Prelude.Dict.{Dict, insert, MapRange}
use dvf.Prelude.Panic.{◌>>=◌}
use dvf.Types.{WorkflowStep}
use dvf.Workflow.{
  StepStatus, pending, running, passed, failed, skipped, Step, Workflow, WorkflowError,
  unknown_step,
}

abbrev pub is_pending : StepStatus → Bool
is_pending pending = true
is_pending _ = false

abbrev pub is_passed : StepStatus → Bool
is_passed passed = true
is_passed _ = false

abbrev pub is_failed : StepStatus → Bool
is_failed failed = true
is_failed _ = false

abbrev pub is_skipped : StepStatus → Bool
is_skipped skipped = true
is_skipped _ = false

abbrev pub is_running : StepStatus → Bool
is_running running = true
is_running _ = false

-- Running, passed or failed.
abbrev pub is_started : StepStatus → Bool
is_started pending = false
is_started skipped = false
is_started _ = true

-- Failed or skipped.
abbrev pub is_lost : StepStatus → Bool
is_lost failed = true
is_lost skipped = true
is_lost _ = false

-- Pending or running.
abbrev pub is_open : StepStatus → Bool
is_open pending = true
is_open running = true
is_open _ = false

-- depsAllPassed
unfoldable pub deps_all_passed : Dict Step → List String → Option Bool
deps_all_passed steps [] = some true
deps_all_passed steps (dep ∷ ds) =
    let rest = deps_all_passed steps ds in
    steps.get dep >>= λ s. if is_passed s.status then rest else some false

-- depsAnyFailed
unfoldable pub deps_any_failed : Dict Step → List String → Option Bool
deps_any_failed steps [] = some false
deps_any_failed steps (dep ∷ ds) =
    let rest = deps_any_failed steps ds in
    steps.get dep >>= λ s. if is_lost s.status then some true else rest

-- The loop of Ready over the order.
unfoldable pub ready_steps : Dict Step → List String → Option (List String)
ready_steps steps [] = some []
ready_steps steps (sid ∷ order) =
    let rest = ready_steps steps order in
    steps.get sid >>= λ s.
    if is_pending s.status
    then (deps_all_passed steps s.def.depends_on >>= λ all.
        if all then (rest >>= λ l. some (sid ∷ l)) else rest)
    else rest

unfoldable pub ready : Workflow → Option (List String)
unfolding ready_steps
ready w = ready_steps w.steps w.order

-- The loop of propagateSkip. Dependencies are looked at only where the step is pending.
unfoldable pub propagate_skip : List String → Dict Step → Option (Dict Step)
propagate_skip [] steps = some steps
propagate_skip (sid ∷ order) steps = do
  s ← steps.get sid
  skip ← (if is_pending s.status then deps_any_failed steps s.def.depends_on else some false)
  propagate_skip order (if skip then insert sid (record s { status = skipped }) steps else steps)

unfoldable pub advance_step :
    Workflow → String → StepStatus → Step → Option (Workflow × Option WorkflowError)
unfolding propagate_skip
advance_step w sid status s =
    let steps = insert sid (record s { status = status }) w.steps in
    if is_failed status
    then (propagate_skip w.order steps >>= λ t. some (record w { steps = t }, none))
    else some (record w { steps = steps }, none)

unfoldable pub advance_at :
    Workflow → String → StepStatus → Option Step → Option (Workflow × Option WorkflowError)
unfolding advance_step
advance_at w sid status none = some (w, some (unknown_step sid))
advance_at w sid status (some s) = advance_step w sid status s

-- Advance
unfoldable pub advance : Workflow → String → StepStatus → Option (Workflow × Option WorkflowError)
unfolding advance_at
advance w sid status = advance_at w sid status (w.steps.get sid)

-- A step as MarkRunning leaves it.
abbrev pub marked : Step → Step
marked s = record s { status = running; attempts = add64 s.attempts (pos 1) }

unfoldable pub mark_at : Workflow → String → Option Step → Workflow × Option WorkflowError
mark_at w sid none = (w, some (unknown_step sid))
mark_at w sid (some s) = (record w { steps = insert sid (marked s) w.steps }, none)

-- MarkRunning
unfoldable pub mark_running : Workflow → String → Workflow × Option WorkflowError
unfolding mark_at
mark_running w sid = mark_at w sid (w.steps.get sid)

-- StepDef, StepStatus and Attempts
unfoldable pub step_def : Workflow → String → Option WorkflowStep
step_def w sid = w.steps.get sid >>= λ s. some s.def

unfoldable pub step_status : Workflow → String → Option StepStatus
step_status w sid = w.steps.get sid >>= λ s. some s.status

unfoldable pub attempts : Workflow → String → ℤ
attempts w sid = elim (w.steps.get sid) [ none ↦ pos 0 | some s ↦ s.attempts ]

-- The loop of IsDone, over the steps that the range visits.
unfoldable pub all_closed : Dict Step → List String → Bool
all_closed steps [] = true
all_closed steps (sid ∷ ids) =
    let rest = all_closed steps ids in
    elim (steps.get sid) [ none ↦ rest | some s ↦ if is_open s.status then false else rest ]

unfoldable pub is_done : MapRange → Workflow → Bool
unfolding all_closed
is_done range w = all_closed w.steps (range.visit 3 w.steps.keys)

abbrev pub is_empty : List String → Bool
is_empty [] = true
is_empty (_ ∷ _) = false

-- IsBlocked
unfoldable pub is_blocked : MapRange → Workflow → Option Bool
is_blocked range w = if is_done range w then some false else (ready w >>= λ l. some (is_empty l))

pub record Tally : Type 0 where
  pub passed_count : ℕ
  pub failed_count : ℕ
  pub skipped_count : ℕ

abbrev pub tally_status : StepStatus → Tally → Tally
tally_status passed t = record t { passed_count = suc t.passed_count }
tally_status failed t = record t { failed_count = suc t.failed_count }
tally_status skipped t = record t { skipped_count = suc t.skipped_count }
tally_status _ t = t

unfoldable pub tally : Dict Step → List String → Tally → Tally
tally steps [] t = t
tally steps (sid ∷ ids) t =
    tally steps ids (elim (steps.get sid) [ none ↦ t | some s ↦ tally_status s.status t ])

-- Summary. The counts stay below the number of steps in memory, so they do not wrap.
unfoldable pub summary : MapRange → Workflow → Tally
unfolding tally
summary range w =
    tally w.steps (range.visit 4 w.steps.keys)
      (record { passed_count = 0; failed_count = 0; skipped_count = 0 })
