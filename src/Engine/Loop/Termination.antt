-- ===== src/Engine/Loop/Termination.antt =====
-- runWorkflow (execution_engine.go) ends, whatever the order and the outcome of its results.
use dvf.Prelude.{
  ℕ, zero, suc, ◌≤◌, ◌<◌, ◌≡◌, ◌⊎◌, inl, inr, refl, sym, ◌∙◌, ap, subst, String, List, [], Option,
  none, some, true, false, count, arith, Option-cases, length, Bool-cases, remove, count-remove,
}
use dvf.Prelude.Dict.{MapRange}
use dvf.Prelude.Panic.{◌>>=◌}
use dvf.Types.{WorkflowStep}
use dvf.Workflow.{StepStatus, passed, failed, Step, Workflow, WorkflowError, ok, new_workflow}
use dvf.Workflow.Steps.{is_open, is_running, mark_running, is_done}
use dvf.Workflow.Skip.{holds}
use dvf.Workflow.Runtime.{
  mark_running-eq, advanced, advance-IsConsistent, new_workflow-IsConsistent, IsConsistent,
}
use dvf.Workflow.Build.Construct.{new_workflow-IsOrdered}
use dvf.Workflow.Ready.{may_run, is_done_exact}
use dvf.Engine.Loop.{
  LoopState, StepResult, Environment, finished, run_loop, receive, turn, await, resume,
}
use dvf.Engine.Loop.Launch.{IsDriven, launched, launch_ready-IsDriven}
use dvf.Engine.Loop.Measure.{
  open_steps, open_steps-le, open_steps_mono, open_steps_pos, open_steps-advanced, open_mark,
  advanced-keys, advanced-running,
}

-- The steps are those of `s`, and no step is open that was not.
pub record Within (s t : LoopState) : Type 0 where
  pub same_keys : t.workflow.steps.keys ≡ s.workflow.steps.keys
  pub still :
      (k : String)
      → holds is_open t.workflow.steps k ≡ true
      → holds is_open s.workflow.steps k ≡ true

Within-launched :
    (r : LoopState) (x : String) (s : LoopState)
    → IsDriven s
    → may_run s.workflow.steps x ≡ true
    → Within r s
    → Within r (launched x s)
Within-launched r x s d m w = record {
  same_keys = keys (s.workflow.steps.get x) refl ∙ w.same_keys;
  still = λ k h. w.still k (open_mark s.workflow x k (s.workflow.steps.get x) refl h m);
}
  where
    keys :
        (o : Option Step)
        → s.workflow.steps.get x ≡ o
        → (mark_running s.workflow x).0.steps.keys ≡ s.workflow.steps.keys
    keys none e = absurd (ground arith)
    keys (some st) e = rw (mark_running-eq s.workflow x st e) (ground arith)

-- What the goroutines deliver: a result of a step that is running, passed or failed.
abbrev pub IsFair : Environment → Type 0
IsFair env =
    (s : LoopState) (k : String)
    → 0 < count k s.running
    → (r : StepResult) × (env s ≡ some r)
      × (0 < count r.step_id s.running)
      × ((r.status ≡ passed) ⊎ (r.status ≡ failed))

is_open_end : (status : StepStatus) → (status ≡ passed) ⊎ (status ≡ failed) → is_open status ≡ false
is_open_end status q = ground arith

-- The state after a result is received.
abbrev received : LoopState → String → StepStatus → Step → LoopState
received s k status st = record {
  workflow = record s.workflow { steps = advanced s.workflow k status st };
  running = remove k s.running;
}

module _ (s : LoopState) (k : String) (status : StepStatus) (d : IsDriven s)
    (p : 0 < count k s.running) (q : (status ≡ passed) ⊎ (status ≡ failed)) (st : Step)
    (e : s.workflow.steps.get k ≡ some st) where
  runs : is_running st.status ≡ true
  runs = ground (arith, d.flights k)

  -- A delivered result is taken without a panic or an error.
  receive-eq : receive k status s ≡ some (received s k status st)
  unfolding receive
  receive-eq =
      ap
        (λ (o : Option (Workflow × Option WorkflowError)).
          o >>= λ r. some (record { workflow = r.0; running = remove k s.running }))
        (advance-IsConsistent s.workflow k status st d.consistent e runs q).0

  received-IsDriven : IsDriven (received s k status st)
  received-IsDriven = record {
    consistent = (advance-IsConsistent s.workflow k status st d.consistent e runs q).1;
    flights = λ j. ground (
      arith,
      advanced-running s.workflow k status st e (ground (arith, runs)) (is_open_end status q) j,
      count-remove k j s.running p,
      d.flights j,
      d.flights k,
    );
  }

  received-open :
      open_steps (received s k status st).workflow.steps s.workflow.steps.keys
      < open_steps s.workflow.steps s.workflow.steps.keys
  received-open =
      open_steps-advanced s.workflow k status st e (ground (arith, runs)) (is_open_end status q)
        s.workflow.steps.keys (ground (arith, d.consistent.ordered.is_map k))

there_of :
    (s : LoopState) (k : String)
    → IsDriven s
    → 0 < count k s.running
    → (st : Step) × (s.workflow.steps.get k ≡ some st)
there_of s k d p = elim (Option-cases (s.workflow.steps.get k)) [
  | inl e ↦ absurd (ground (arith, d.flights k))
  | inr r ↦ r
]

smaller :
    (s t : LoopState) (k : String) (status : StepStatus) (d : IsDriven t)
    (p : 0 < count k t.running) (q : (status ≡ passed) ⊎ (status ≡ failed)) (st : Step)
    (e : t.workflow.steps.get k ≡ some st)
    → Within s t
    → (fuel : ℕ) → open_steps s.workflow.steps s.workflow.steps.keys ≤ suc fuel
    → open_steps
        (received t k status st).workflow.steps
        (received t k status st).workflow.steps.keys
      ≤ fuel
smaller s t k status d p q st e w fuel h =
    subst (λ ids. open_steps (received t k status st).workflow.steps ids ≤ fuel)
      (sym (
        advanced-keys t.workflow k status st e (ground (arith, runs t k status d p q st e))
          (is_open_end status q)))
      (omega (
        arith,
        received-open t k status d p q st e,
        subst
            (λ ids.
              open_steps t.workflow.steps ids ≤ open_steps s.workflow.steps s.workflow.steps.keys)
            (sym w.same_keys)
            (open_steps_mono s.workflow.steps t.workflow.steps s.workflow.steps.keys w.still),
      ))

-- The loop from a state in order, with fuel for the open steps, ends by its own test.
run_loop-finished :
    (fuel : ℕ) (range : MapRange) (env : Environment) (s : LoopState)
    → IsFair env
    → IsDriven s
    → open_steps s.workflow.steps s.workflow.steps.keys ≤ fuel
    → (t : LoopState) × (run_loop fuel range env s ≡ finished t)
      × IsDriven t
      × (is_done range t.workflow ≡ true)
unfolding run_loop
run_loop-finished zero range env s fair d h = elim (Bool-cases (is_done range s.workflow)) [
  | inl e ↦ (s, rw e, d, e)
  | inr e ↦
      let (k, o) = (is_done_exact range s.workflow d.consistent.ordered).1 e in
      absurd (
        omega (
          arith,
          open_steps_pos s.workflow.steps s.workflow.steps.keys k o
              (ground (arith, d.consistent.ordered.is_map k)),
        ))
]
run_loop-finished (suc fuel) range env s fair d h = elim (Bool-cases (is_done range s.workflow)) [
  | inl e ↦ (s, rw e, d, e)
  | inr e ↦
      let (t, e1, d1, w, fly) =
        launch_ready-IsDriven range (Within s) (Within-launched s) s d
          (record { same_keys = refl; still = λ k o. o }) in
      let (k, p) = fly e in
      let (r, e2, p2, q) = fair t k p in
      let (st, e3) = there_of t r.step_id d1 p2 in
      let next = run_loop fuel range env in
      let (u, f, d2, done) =
        run_loop-finished fuel range env (received t r.step_id r.status st) fair
          (received-IsDriven t r.step_id r.status d1 p2 q st e3)
          (smaller s t r.step_id r.status d1 p2 q st e3 w fuel h) in
      (
        u,
        rw e (
            ap (turn next env) e1
            ∙ ap (λ (o : Option StepResult). await next o t) e2
            ∙ ap (resume next) (receive-eq t r.step_id r.status d1 p2 q st e3)
            ∙ f),
        d2,
        done,
      )
]

-- The loop that runWorkflow starts on a workflow that was built ends with every step passed, failed
-- or skipped, without a panic, after at most one result for each step: whatever step the
-- environment lets finish next, and however.
pub run_loop_ends :
    (range : MapRange) (env : Environment) (id run_id : String) (ds : List WorkflowStep)
    (w : Workflow)
    → IsFair env
    → new_workflow range id run_id ds ≡ ok w
    → (t : LoopState) × (run_loop
          (length w.steps.keys)
          range
          env
          (record { workflow = w; running = [] })
        ≡ finished t)
      × IsConsistent t.workflow
      × ((k : String) → holds is_open t.workflow.steps k ≡ false)
run_loop_ends range env id run_id ds w fair e =
    let c = new_workflow-IsConsistent range id run_id ds w e in
    let (n, o, at) = new_workflow-IsOrdered range id run_id ds w e in
    let d : IsDriven (record { workflow = w; running = [] }) = record {
      consistent = c;
      flights = λ k. ground (arith, at k);
    } in
    let (t, f, d', done) =
      run_loop-finished (length w.steps.keys) range env (record { workflow = w; running = [] }) fair
        d (open_steps-le w.steps w.steps.keys) in
    (t, f, d'.consistent, (is_done_exact range t.workflow d'.consistent.ordered).0 done)
