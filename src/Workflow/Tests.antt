-- ===== src/Workflow/Tests.antt =====
-- Runs of the workflow (workflow.go) on a diamond of steps, and the theorems at it.
use dvf.Prelude.{
  ◌≡◌, refl, String, String-discrete, List, [], ◌∷◌, Option, none, some, arith, inr, subst, ap,
}
use dvf.Prelude.Int.{pos}
use dvf.Prelude.Dict.{MapRange, empty, insert}
use dvf.Types.{WorkflowStep}
use dvf.Workflow.{
  failed, Workflow, WorkflowError, ok, err, new_workflow, index_steps, check_steps, topological,
  finish, cycle_detected,
}
use dvf.Workflow.Steps.{advance, marked}
use dvf.Workflow.Skip.{all_passed}
use dvf.Workflow.Build.Construct.{new_workflow-IsOrdered, new_workflow_ok, IsOrdered}
use dvf.Workflow.Build.Index.{indexed, IsNamed, as_step, find_def, fresh}
use dvf.Workflow.Runtime.{
  new_workflow-IsConsistent, IsConsistent, mark_running-IsConsistent, mark_running-eq,
  advance-IsConsistent, advanced,
}

abbrev pub plain_range : MapRange
plain_range = record { visit = λ n keys. keys; visits = λ n keys k. refl }

abbrev pub step : String → List String → WorkflowStep
step id ds = record {
  id = id;
  test_binary = "/bin/true";
  args = [];
  depends_on = ds;
  retry_max = pos 1;
  timeout_sec = pos 60;
}

abbrev pub diamond : List WorkflowStep
diamond = step "d" ("b" ∷ "c" ∷ []) ∷ step "b" ("a" ∷ []) ∷ step "c" ("a" ∷ []) ∷ step "a" [] ∷ []

abbrev pub built : Workflow
built = record {
  id = "w";
  run_id = "r";
  steps = indexed diamond empty;
  order = "a" ∷ "b" ∷ "c" ∷ "d" ∷ [];
}

pub new_workflow-diamond : new_workflow plain_range "w" "r" diamond ≡ ok built
unfolding new_workflow index_steps check_steps finish topological String-discrete
new_workflow-diamond = refl

-- Two steps that wait for each other.
new_workflow-cycle :
    new_workflow plain_range "w" "r" (step "a" ("b" ∷ []) ∷ step "b" ("a" ∷ []) ∷ [])
    ≡ err cycle_detected
unfolding new_workflow index_steps check_steps finish topological String-discrete
new_workflow-cycle = refl

abbrev pub single : List WorkflowStep
single = step "a" [] ∷ []

built-IsConsistent : IsConsistent built
built-IsConsistent =
    new_workflow-IsConsistent plain_range "w" "r" diamond built new_workflow-diamond

new_workflow-IsOrdered_example :
    IsNamed empty diamond
    × IsOrdered built
    × ((k : String) → built.steps.get k ≡ as_step (find_def k diamond))
new_workflow-IsOrdered_example =
    new_workflow-IsOrdered plain_range "w" "r" diamond built new_workflow-diamond

single-IsNamed : IsNamed empty single
unfolding String-discrete
single-IsNamed = record { distinct = λ k. ground arith; named = refl }

new_workflow_ok_example : (w : Workflow) × (new_workflow plain_range "w" "r" single ≡ ok w)
new_workflow_ok_example =
    new_workflow_ok plain_range "w" "r" (step "a" []) [] (λ s. 0) single-IsNamed
      (λ s d p q. absurd (ground (arith, q))) (λ s e p q. absurd (ground (arith, q)))

abbrev running_a : Workflow
running_a = record built { steps = insert "a" (marked (fresh (step "a" []))) built.steps }

running_a-IsConsistent : IsConsistent running_a
unfolding String-discrete all_passed
running_a-IsConsistent =
    subst IsConsistent
      (ap (λ (r : Workflow × Option WorkflowError). r.0)
        (mark_running-eq built "a" (fresh (step "a" [])) refl))
      (mark_running-IsConsistent built "a" built-IsConsistent refl refl)

advance-IsConsistent_example :
    (advance running_a "a" failed
      ≡ some (
        record running_a { steps = advanced running_a "a" failed (marked (fresh (step "a" []))) },
        none,
      ))
    × IsConsistent
        (record running_a { steps = advanced running_a "a" failed (marked (fresh (step "a" []))) })
unfolding String-discrete
advance-IsConsistent_example =
    advance-IsConsistent running_a "a" failed (marked (fresh (step "a" []))) running_a-IsConsistent
      refl refl (inr refl)
