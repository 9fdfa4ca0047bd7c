-- ===== src/Workflow.antt =====
-- The DAG workflow of go-orchestrator/internal/core/workflow.go: its construction with cycle
-- detection, and the operations that drive it. The steps are a map from names to mutable steps.
-- Every `range` over a map takes its order from a `MapRange`. A read through the nil pointer of a
-- missing step is a panic, `none`.
pub mod Build
pub mod Steps
pub mod Skip
pub mod Settle
pub mod Put
pub mod Runtime
pub mod Ready
pub mod Tests
use dvf.Prelude.{
  ℕ, zero, suc, ◌+◌, ◌-◌, String, List, [], ◌∷◌, ◌++◌, Option, none, some, Bool, true, false, ◌&&◌,
  ◌==◌, eqb, if◌then◌else◌, length,
}
use dvf.Prelude.Dict.{Dict, empty, insert, update, is_some, MapRange}
use dvf.Types.{WorkflowStep}
use dvf.Prelude.Int.{ℤ, pos, add64}

-- StepStatus
pub data StepStatus : Type 0 where
  pending running passed failed skipped : StepStatus

pub StepStatus-discrete : Discrete StepStatus
StepStatus-discrete = hlevel

pub record Step : Type 0 where
  pub def : WorkflowStep
  pub status : StepStatus
  pub attempts : ℤ

pub record Workflow : Type 0 where
  pub id : String
  pub run_id : String
  pub steps : Dict Step
  pub order : List String

pub data WorkflowError : Type 0 where
  no_steps : WorkflowError
  empty_id : ℕ → WorkflowError
  duplicate_id unknown_step : String → WorkflowError
  unknown_dependency : String → String → WorkflowError
  cycle_detected : WorkflowError

-- The pair that NewWorkflow returns: a workflow or an error.
pub data Result {ℓ} (W : Type ℓ) : Type ℓ where
  err : WorkflowError → Result W
  ok : W → Result W

infixl 5 ◌>>=◌
abbrev pub ◌>>=◌ {ℓ κ} : {V : Type ℓ} {W : Type κ} → Result V → (V → Result W) → Result W
err reason >>= next = err reason
ok value >>= next = next value

-- A dependency list, read at a name that the map has.
abbrev pub deps_of : Option Step → List String
deps_of none = []
deps_of (some s) = s.def.depends_on

abbrev pub deps : Dict Step → String → List String
deps steps k = deps_of (steps.get k)

-- NewWorkflow, the loop that indexes the steps by name.
pub index_steps : ℕ → List WorkflowStep → Dict Step → Result (Dict Step)
index_steps i [] steps = ok steps
index_steps i (d ∷ ds) steps =
    let rest =
      index_steps (i + 1) ds
        (insert d.id (record { def = d; status = pending; attempts = pos 0 }) steps) in
    if d.id == ""
    then err (empty_id i)
    else if is_some (steps.get d.id)
    then err (duplicate_id d.id)
    else rest

-- NewWorkflow, the check that every dependency names a step.
pub check_deps : Dict Step → String → List String → Result (Unit {0})
check_deps steps sid [] = ok tt
check_deps steps sid (dep ∷ ds) =
    let rest = check_deps steps sid ds in
    if is_some (steps.get dep) then rest else err (unknown_dependency sid dep)

pub check_steps : Dict Step → List String → Result (Unit {0})
unfolding check_deps
check_steps steps [] = ok tt
check_steps steps (sid ∷ ids) =
    let rest = check_steps steps ids in
    elim (check_deps steps sid (deps steps sid)) [ ok _ ↦ rest | err e ↦ err e ]

abbrev pub Degrees : Type 0
Degrees = String → ℕ

abbrev pub Adjacency : Type 0
Adjacency = String → List String

-- The inner loop over one step's dependencies. A missing map entry reads as 0 or as no list.
pub add_edges : String → List String → Degrees → Adjacency → Degrees × Adjacency
add_edges sid [] deg adj = (deg, adj)
add_edges sid (dep ∷ ds) deg adj =
    add_edges sid ds (update deg sid (deg sid + 1)) (update adj dep (adj dep ++ sid ∷ []))

pub build_graph : Dict Step → List String → Degrees → Adjacency → Degrees × Adjacency
unfolding add_edges
build_graph steps [] deg adj = (deg, adj)
build_graph steps (sid ∷ ids) deg adj =
    let g = add_edges sid (deps steps sid) deg adj in build_graph steps ids g.0 g.1

-- The names of in-degree 0, in the order of the range.
pub roots : Degrees → List String → List String
roots deg [] = []
roots deg (sid ∷ ids) = let rest = roots deg ids in if eqb (deg sid) 0 then sid ∷ rest else rest

-- The loop over the dependents: each has one open dependency less, and joins the queue at 0.
pub relax : List String → Degrees → List String → Degrees × List String
relax [] deg queue = (deg, queue)
relax (next ∷ rest) deg queue =
    relax rest (update deg next (deg next - 1))
      (if eqb (deg next - 1) 0 then queue ++ next ∷ [] else queue)

-- Kahn's loop; it also returns the queue that it ends with.
pub kahn : ℕ → Adjacency → Degrees → List String → List String → List String × List String
unfolding relax
kahn zero adj deg queue order = (order, queue)
kahn (suc fuel) adj deg [] order = (order, [])
kahn (suc fuel) adj deg (cur ∷ queue) order =
    let r = relax (adj cur) deg queue in kahn fuel adj r.0 r.1 (order ++ cur ∷ [])

-- NewWorkflow, from the edges on: fuel for each step once and for the last test.
pub topological : MapRange → Dict Step → List String × List String
unfolding build_graph roots kahn
topological range steps =
    let g = build_graph steps (range.visit 1 steps.keys) (λ _. 0) (λ _. []) in
    kahn (suc (length steps.keys)) g.1 g.0 (roots g.0 (range.visit 2 steps.keys)) []

finish : String → String → Dict Step → List String → Result Workflow
finish id run_id steps order =
    if eqb (length order) (length steps.keys)
    then ok (record { id = id; run_id = run_id; steps = steps; order = order })
    else err cycle_detected

pub new_workflow : MapRange → String → String → List WorkflowStep → Result Workflow
new_workflow range id run_id [] = err no_steps
new_workflow range id run_id (d ∷ ds) = do
  steps ← index_steps 0 (d ∷ ds) empty
  checked ← check_steps steps (range.visit 0 steps.keys)
  finish id run_id steps (topological range steps).0
