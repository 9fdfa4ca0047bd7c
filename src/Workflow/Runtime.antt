-- ===== src/Workflow/Runtime.antt =====
-- The invariant of a driven workflow (workflow.go), kept by MarkRunning and Advance.
use dvf.Prelude.{
  ◌≡◌, ◌⊎◌, inl, inr, refl, sym, ◌∙◌, ap, subst, fun_ext, String, List, [], ◌∷◌, Option, none, some,
  true, false, if◌then◌else◌, arith, Option-cases, Bool-cases,
}
use dvf.Prelude.Dict.{Dict, insert, is_some, MapRange}
use dvf.Prelude.Panic.{◌>>=◌}
use dvf.Types.{WorkflowStep}
use dvf.Workflow.{StepStatus, passed, failed, Step, Workflow, deps, new_workflow, ok}
use dvf.Workflow.Build.Invariant.{IsTopological}
use dvf.Workflow.Build.Construct.{IsOrdered, new_workflow-IsOrdered}
use dvf.Workflow.Steps.{
  is_pending, is_passed, is_failed, is_lost, is_skipped, is_running, is_started, advance_at,
  advance, mark_at, mark_running, marked,
}
use dvf.Workflow.Skip.{holds, all_passed, any_lost, skip_all}
use dvf.Workflow.Settle.{
  AllKnown, IsSettled, HasCause, propagate_skip-some, skip_all-keys, skip_all-is_some,
  deps-skip_all, holds-skip_all, all_passed-skip_all, skip_all-IsSettled, HasCause-skip_all,
}
use dvf.Workflow.Put.{
  put_keys, put_is_some, put_deps, put_all_passed, put_any_lost, put_all_passed_mono,
  put_any_lost_mono,
}

-- A step was started only after its dependencies passed, was skipped only below a failed or skipped
-- one, and is pending only above none such.
pub record IsConsistent (w : Workflow) : Type 0 where
  pub ordered : IsOrdered w
  pub started :
      (k : String) → holds is_started w.steps k ≡ true → all_passed w.steps (deps w.steps k) ≡ true
  pub cause : HasCause w.steps
  pub settled : (k : String) → IsSettled w.steps k

-- The steps of a map whose entries are all pending.
any_lost_new :
    (steps : Dict Step) (ds : List String)
    → ((k : String) → holds is_lost steps k ≡ false)
    → any_lost steps ds ≡ false
unfolding any_lost
any_lost_new steps [] h = refl
any_lost_new steps (d ∷ ds) h = ground (arith, h d, any_lost_new steps ds h)

-- A new workflow is consistent.
pub new_workflow-IsConsistent :
    (range : MapRange) (id run_id : String) (ds : List WorkflowStep) (w : Workflow)
    → new_workflow range id run_id ds ≡ ok w
    → IsConsistent w
new_workflow-IsConsistent range id run_id ds w e =
    let (n, o, at) = new_workflow-IsOrdered range id run_id ds w e in
    record {
      ordered = o;
      started = λ k h. ground (arith, at k);
      cause = λ k h. ground (arith, at k);
      settled = λ k h. any_lost_new w.steps (deps w.steps k) (λ j. ground (arith, at j));
    }

-- A change of the steps that keeps the names and the dependencies.
pub IsOrdered-same :
    (w : Workflow) (steps : Dict Step)
    → (steps.keys ≡ w.steps.keys)
    → ((k : String) → is_some (steps.get k) ≡ is_some (w.steps.get k))
    → ((k : String) → deps steps k ≡ deps w.steps k)
    → IsOrdered w
    → IsOrdered (record w { steps = steps })
IsOrdered-same w steps e f g o = record {
  is_map = λ k. ground (arith, f k, o.is_map k);
  once = λ k. rw e (o.once k);
  closed = λ s d p q. ground (arith, g s, o.closed s d);
  sorted = subst (λ h. IsTopological h [] w.order) (sym (fun_ext g)) o.sorted;
}

-- Every step of the order is there, with its dependencies.
pub IsOrdered-AllKnown : {w : Workflow} → IsOrdered w → AllKnown w.steps w.order
IsOrdered-AllKnown {w} o = record {
  there = λ s p. ground (arith, o.is_map s, o.once s);
  depends = λ s p d q. ground (arith, o.is_map s, o.is_map d, o.once s, o.closed s d);
}

-- A write to a step that was pending with passed dependencies, or running, and that stays or
-- becomes a started step that is not failed.
module _ (w : Workflow) (k : String) (s t : Step) (at : w.steps.get k ≡ some s)
    (def : t.def ≡ s.def) (c : IsConsistent w) (begun : is_started t.status ≡ true)
    (enabled : all_passed w.steps (deps w.steps k) ≡ true) (not_passed : is_passed s.status ≡ false)
    (not_lost : is_lost s.status ≡ false) where
  put-IsOrdered : IsOrdered (record w { steps = insert k t w.steps })
  put-IsOrdered =
      IsOrdered-same w (insert k t w.steps) (put_keys k w.steps s t at)
        (put_is_some k w.steps s t at) (λ j. put_deps k w.steps s t at j def) c.ordered

  put_enabled :
      (j : String)
      → all_passed w.steps (deps w.steps j) ≡ true
      → all_passed (insert k t w.steps) (deps (insert k t w.steps) j) ≡ true
  put_enabled j h = rw (put_deps k w.steps s t at j def) (elim (Bool-cases (is_passed t.status)) [
    | inl e ↦ put_all_passed_mono k w.steps s t at (deps w.steps j) e h
    | inr e ↦ put_all_passed k w.steps s t at (deps w.steps j) (e ∙ sym not_passed) ∙ h
  ])

  put_started :
      (j : String)
      → holds is_started (insert k t w.steps) j ≡ true
      → all_passed (insert k t w.steps) (deps (insert k t w.steps) j) ≡ true
  put_started j h = put_enabled j (ground (arith, c.started j, enabled))

  put-HasCause : HasCause (insert k t w.steps)
  put-HasCause j h = rw (put_deps k w.steps s t at j def) (elim (Bool-cases (is_lost t.status)) [
    | inl e ↦ put_any_lost_mono k w.steps s t at (deps w.steps j) e (c.cause j old)
    | inr e ↦ put_any_lost k w.steps s t at (deps w.steps j) (e ∙ sym not_lost) ∙ c.cause j old
  ])
    where
      old : holds is_skipped w.steps j ≡ true
      old = ground arith

  put-IsSettled : is_lost t.status ≡ false → (j : String) → IsSettled (insert k t w.steps) j
  put-IsSettled e j h = rw (put_deps k w.steps s t at j def) (
      put_any_lost k w.steps s t at (deps w.steps j) (e ∙ sym not_lost)
      ∙ c.settled j (ground arith))

  put-IsConsistent :
      is_lost t.status ≡ false → IsConsistent (record w { steps = insert k t w.steps })
  put-IsConsistent e = record {
    ordered = put-IsOrdered;
    started = put_started;
    cause = put-HasCause;
    settled = put-IsSettled e;
  }

  skip-IsConsistent : IsConsistent (record w { steps = skip_all w.order (insert k t w.steps) })
  skip-IsConsistent =
      let m = insert k t w.steps in
      let o = put-IsOrdered in
      record {
        ordered =
            IsOrdered-same (record w { steps = m }) (skip_all w.order m) (skip_all-keys w.order m)
              (skip_all-is_some w.order m) (deps-skip_all w.order m) o;
        started = λ j h. rw (deps-skip_all w.order m j) (
            all_passed-skip_all w.order m (deps m j)
            ∙ put_started j (sym (holds-skip_all w.order m is_started j refl) ∙ h));
        cause = HasCause-skip_all w.order m put-HasCause;
        settled = λ j h.
            skip_all-IsSettled w.order m o.sorted (λ i. ground (arith, o.once i, o.is_map i)) j
              (ground (arith, o.once j, o.is_map j, skip_all-is_some w.order m j)) h;
      }

pub mark_running-eq :
    (w : Workflow) (k : String) (s : Step)
    → w.steps.get k ≡ some s
    → mark_running w k ≡ (record w { steps = insert k (marked s) w.steps }, none)
unfolding mark_running
mark_running-eq w k s e = ap (mark_at w k) e

-- MarkRunning of a pending step whose dependencies have passed keeps the workflow consistent.
pub mark_running-IsConsistent :
    (w : Workflow) (k : String)
    → IsConsistent w
    → holds is_pending w.steps k ≡ true
    → all_passed w.steps (deps w.steps k) ≡ true
    → IsConsistent (mark_running w k).0
unfolding mark_running
mark_running-IsConsistent w k c p a = elim (Option-cases (w.steps.get k)) [
  | inl e ↦ ground arith
  | inr (s, e) ↦
      rw (mark_running-eq w k s e)
        (put-IsConsistent w k s (marked s) e refl c refl a (ground arith) (ground arith) refl)
]

-- The steps after Advance.
unfoldable pub advanced : Workflow → String → StepStatus → Step → Dict Step
advanced w k status s =
    let m = insert k (record s { status = status }) w.steps in
    if is_failed status then skip_all w.order m else m

module _ (w : Workflow) (k : String) (c : IsConsistent w) (s : Step) (e : w.steps.get k ≡ some s)
    (p : is_running s.status ≡ true) where
  enabled : all_passed w.steps (deps w.steps k) ≡ true
  enabled = c.started k (ground arith)

  advance_passed : advance w k passed ≡ some (record w { steps = advanced w k passed s }, none)
  unfolding advance advanced
  advance_passed = ap (advance_at w k passed) e

  advance_failed : advance w k failed ≡ some (record w { steps = advanced w k failed s }, none)
  unfolding advance advanced
  advance_failed =
      ap (advance_at w k failed) e
      ∙ ap (λ (o : Option (Dict Step)). o >>= λ t. some (record w { steps = t }, none))
          (propagate_skip-some w.order (insert k (record s { status = failed }) w.steps) (
            IsOrdered-AllKnown (
              put-IsOrdered w k s (record s { status = failed }) e refl c refl enabled
                (ground arith) (ground arith))))

  advanced_passed : IsConsistent (record w { steps = advanced w k passed s })
  unfolding advanced
  advanced_passed =
      put-IsConsistent w k s (record s { status = passed }) e refl c refl enabled (ground arith)
        (ground arith) refl

  advanced_failed : IsConsistent (record w { steps = advanced w k failed s })
  unfolding advanced
  advanced_failed =
      skip-IsConsistent w k s (record s { status = failed }) e refl c refl enabled (ground arith)
        (ground arith)

-- Advance of a running step to passed or failed does not panic and reports no error, and leaves the
-- workflow consistent.
pub advance-IsConsistent :
    (w : Workflow) (k : String) (status : StepStatus) (s : Step)
    → IsConsistent w
    → w.steps.get k ≡ some s
    → is_running s.status ≡ true
    → (status ≡ passed) ⊎ (status ≡ failed)
    → (advance w k status ≡ some (record w { steps = advanced w k status s }, none))
      × IsConsistent (record w { steps = advanced w k status s })
advance-IsConsistent w k status s c e p (inl q) =
    rw q (advance_passed w k c s e p, advanced_passed w k c s e p)
advance-IsConsistent w k status s c e p (inr q) =
    rw q (advance_failed w k c s e p, advanced_failed w k c s e p)
