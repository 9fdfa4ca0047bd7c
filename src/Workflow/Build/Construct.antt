-- ===== src/Workflow/Build/Construct.antt =====
-- NewWorkflow (workflow.go) as a whole: what a new workflow is, and when there is one.
use dvf.Prelude.{
  ℕ, ◌<◌, ◌≡◌, refl, String, List, [], ◌∷◌, length, count, arith, ap, sym, ◌∙◌, subst,
}
use dvf.Prelude.Dict.{Dict, IsMap, MapRange, empty}
use dvf.Types.{WorkflowStep}
use dvf.Workflow.{
  Step, Workflow, Result, ok, err, ◌>>=◌, index_steps, check_steps, topological, finish,
  new_workflow, deps,
}
use dvf.Workflow.Build.Invariant.{IsTopological}
use dvf.Workflow.Build.Order.{
  IsClosed, topological-IsTopological, topological-count, length-topological,
}
use dvf.Workflow.Build.Index.{
  IsNamed, indexed, find_def, as_step, index_steps-IsNamed, index_steps_ok, get-indexed,
  indexed-IsMap, check_steps_known, check_steps_ok,
}

-- What the operations of a workflow rely on: each step stands once in the order, after all its
-- dependencies, and every dependency is a step.
pub record IsOrdered (w : Workflow) : Type 0 where
  pub is_map : IsMap w.steps
  pub once : (s : String) → count s w.order ≡ count s w.steps.keys
  pub closed : IsClosed w.steps
  pub sorted : IsTopological (deps w.steps) [] w.order

IsClosed-of_check :
    (range : MapRange) (steps : Dict Step) (u : Unit {0})
    → IsMap steps
    → check_steps steps (range.visit 0 steps.keys) ≡ ok u
    → IsClosed steps
IsClosed-of_check range steps u m e s d p q = ground (
  arith,
  m d,
  range.visits 0 steps.keys s,
  check_steps_known steps (range.visit 0 steps.keys) u s d,
)

finish-eq-ok :
    (id run_id : String) (steps : Dict Step) (order : List String) (w : Workflow)
    → finish id run_id steps order ≡ ok w
    → (w ≡ record { id = id; run_id = run_id; steps = steps; order = order })
      × (length order ≡ length steps.keys)
unfolding finish
finish-eq-ok id run_id steps order w e = ground arith

bind-ok {ℓ κ} :
    {V : Type ℓ} {W : Type κ} {w : W} (r : Result V) (next : V → Result W)
    → ok w ≡ (r >>= next)
    → (v : V) × (r ≡ ok v) × (ok w ≡ next v)
bind-ok (ok v) next same = (v, refl, same)
bind-ok (err reason) next same = cc

-- The parts of a successful construction.
record IsBuilt (range : MapRange) (id run_id : String) (ds : List WorkflowStep) (w : Workflow)
    (steps : Dict Step) : Type 0 where
  names_differ : IsNamed empty ds
  index : steps ≡ indexed ds empty
  is_map : IsMap steps
  closed : IsClosed steps
  complete : length (topological range steps).0 ≡ length steps.keys
  result :
      w ≡ record { id = id; run_id = run_id; steps = steps; order = (topological range steps).0 }

module _ (range : MapRange) (id run_id : String) where
  new_workflow-IsBuilt :
      (ds : List WorkflowStep) (w : Workflow)
      → new_workflow range id run_id ds ≡ ok w
      → (steps : Dict Step) × IsBuilt range id run_id ds w steps
  unfolding new_workflow
  new_workflow-IsBuilt [] w e = absurd (cc)
  new_workflow-IsBuilt (d ∷ ds) w e =
      let (steps, e1, k1) = bind-ok (index_steps 0 (d ∷ ds) empty) _ (sym e) in
      let (u, e2, k2) = bind-ok (check_steps steps (range.visit 0 steps.keys)) _ k1 in
      let (eq, len) = finish-eq-ok id run_id steps (topological range steps).0 w (sym k2) in
      let (n, same) = index_steps-IsNamed 0 (d ∷ ds) empty steps e1 in
      let m : IsMap steps = subst IsMap (sym same) (indexed-IsMap (d ∷ ds) empty (λ k. refl)) in
      (
        steps,
        record {
          names_differ = n;
          index = same;
          is_map = m;
          closed = IsClosed-of_check range steps u m e2;
          complete = len;
          result = eq;
        },
      )

  ordered :
      (ds : List WorkflowStep) (w : Workflow) (steps : Dict Step)
      → IsBuilt range id run_id ds w steps
      → IsOrdered w
  ordered ds w steps b = subst IsOrdered (sym b.result) (record {
    is_map = b.is_map;
    once = topological-count range steps b.is_map b.complete;
    closed = b.closed;
    sorted = topological-IsTopological range steps b.is_map;
  })

  -- A workflow that is built has the given definitions as its steps, all pending and never tried,
  -- no empty and no repeated name, and an order in which each step stands once, after its
  -- dependencies.
  pub new_workflow-IsOrdered :
      (ds : List WorkflowStep) (w : Workflow)
      → new_workflow range id run_id ds ≡ ok w
      → IsNamed empty ds × IsOrdered w × ((k : String) → w.steps.get k ≡ as_step (find_def k ds))
  new_workflow-IsOrdered ds w e =
      let (steps, b) = new_workflow-IsBuilt ds w e in
      (
        b.names_differ,
        ordered ds w steps b,
        λ k.
            ap (λ (v : Workflow). v.steps.get k) b.result
            ∙ ap (λ (m : Dict Step). m.get k) b.index
            ∙ get-indexed ds empty k b.names_differ,
      )

  -- Where the names are not empty and differ, every dependency is named, and some rank falls along
  -- every dependency, a non-empty list of steps makes a workflow.
  pub new_workflow_ok :
      (d : WorkflowStep) (ds : List WorkflowStep) (rank : String → ℕ)
      → IsNamed empty (d ∷ ds)
      → IsClosed (indexed (d ∷ ds) empty)
      → ((s e : String)
          → count s (indexed (d ∷ ds) empty).keys ≡ 1
          → 0 < count e (deps (indexed (d ∷ ds) empty) s)
          → rank e < rank s)
      → (w : Workflow) × (new_workflow range id run_id (d ∷ ds) ≡ ok w)
  unfolding new_workflow finish
  new_workflow_ok d ds rank n c f =
      let steps = indexed (d ∷ ds) empty in
      let m : IsMap steps = indexed-IsMap (d ∷ ds) empty (λ k. refl) in
      (
        record { id = id; run_id = run_id; steps = steps; order = (topological range steps).0 },
        rw
            (
              index_steps_ok 0 (d ∷ ds) empty n,
              check_steps_ok steps (range.visit 0 steps.keys)
                  (λ s e p q. ground (arith, c s e, m s, m e, range.visits 0 steps.keys s)),
              length-topological range steps m c rank f,
            )
            (ground arith),
      )
