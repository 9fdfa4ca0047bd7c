-- ===== src/Engine/Loop/Measure.antt =====
-- How many steps are still open: the measure of the loop of runWorkflow (execution_engine.go).
use dvf.Prelude.{
  ℕ, ◌+◌, ◌≤◌, ◌<◌, ◌≡◌, refl, String, List, [], ◌∷◌, ◌==◌, Option, none, some, Bool, true, false,
  if◌then◌else◌, count, arith, length, Bool-cases, String-discrete, inl, inr,
}
use dvf.Prelude.Dict.{Dict, insert}
use dvf.Workflow.{StepStatus, Step, Workflow}
use dvf.Workflow.Steps.{is_open, is_running, is_failed, mark_running, marked}
use dvf.Workflow.Skip.{holds, skip_one, skip_all}
use dvf.Workflow.Settle.{skip_all-keys, holds-skip_all}
use dvf.Workflow.Runtime.{mark_running-eq, advanced}
use dvf.Workflow.Ready.{may_run}

pub open_steps : Dict Step → List String → ℕ
open_steps steps [] = 0
open_steps steps (k ∷ ids) = (if holds is_open steps k then 1 else 0) + open_steps steps ids

pub open_steps-le : (steps : Dict Step) (ids : List String) → open_steps steps ids ≤ length ids
unfolding open_steps
open_steps-le steps [] = omega arith
open_steps-le steps (k ∷ ids) = ground (arith, open_steps-le steps ids)

pub open_steps_mono :
    (steps after : Dict Step) (ids : List String)
    → ((k : String) → holds is_open after k ≡ true → holds is_open steps k ≡ true)
    → open_steps after ids ≤ open_steps steps ids
unfolding open_steps
open_steps_mono steps after [] h = omega arith
open_steps_mono steps after (k ∷ ids) h = ground (arith, h k, open_steps_mono steps after ids h)

pub open_steps_pos :
    (steps : Dict Step) (ids : List String) (k : String)
    → holds is_open steps k ≡ true
    → 0 < count k ids
    → 0 < open_steps steps ids
unfolding open_steps
open_steps_pos steps [] k h p = absurd (omega arith)
open_steps_pos steps (x ∷ ids) k h p = ground (arith, open_steps_pos steps ids k h)

-- One step less.
open_steps_drop :
    (steps after : Dict Step) (ids : List String) (x : String)
    → ((k : String) → holds is_open after k ≡ true → holds is_open steps k ≡ true)
    → holds is_open steps x ≡ true
    → holds is_open after x ≡ false
    → 0 < count x ids
    → open_steps after ids < open_steps steps ids
unfolding open_steps
open_steps_drop steps after [] x h a b p = absurd (omega arith)
open_steps_drop steps after (k ∷ ids) x h a b p = elim (String-discrete k x) [
  | yes e ↦ ground (arith, open_steps_mono steps after ids h)
  | no e ↦ ground (arith, h k, open_steps_drop steps after ids x h a b)
]

open_skip_one :
    (x : String) (steps : Dict Step) (k : String)
    → holds is_open (skip_one x steps) k ≡ true
    → holds is_open steps k ≡ true
unfolding skip_one
open_skip_one x steps k h = ground arith

open_skip_all :
    (order : List String) (steps : Dict Step) (k : String)
    → holds is_open (skip_all order steps) k ≡ true
    → holds is_open steps k ≡ true
unfolding skip_all
open_skip_all [] steps k h = h
open_skip_all (x ∷ order) steps k h =
    open_skip_one x steps k (open_skip_all order (skip_one x steps) k h)

open_skip_if :
    (b : Bool) (order : List String) (steps : Dict Step) (k : String)
    → holds is_open (if b then skip_all order steps else steps) k ≡ true
    → holds is_open steps k ≡ true
open_skip_if true order steps k h = open_skip_all order steps k h
open_skip_if false order steps k h = h

module _ (w : Workflow) (k : String) (status : StepStatus) (s : Step) (e : w.steps.get k ≡ some s)
    (was : is_open s.status ≡ true) (closed : is_open status ≡ false) where
  open_advanced :
      (j : String) → holds is_open (advanced w k status s) j ≡ true → holds is_open w.steps j ≡ true
  unfolding advanced
  open_advanced j h =
      let m = insert k (record s { status = status }) w.steps in
      ground (arith, open_skip_if (is_failed status) w.order m j h)

  closed_advanced : holds is_open (advanced w k status s) k ≡ false
  unfolding advanced
  closed_advanced = elim (Bool-cases (holds is_open (advanced w k status s) k)) [
    | inl h ↦
        let m = insert k (record s { status = status }) w.steps in
        absurd (ground (arith, open_skip_if (is_failed status) w.order m k h))
    | inr h ↦ h
  ]

  pub advanced-keys : (advanced w k status s).keys ≡ w.steps.keys
  unfolding advanced
  advanced-keys =
      let m = insert k (record s { status = status }) w.steps in
      ground (arith, skip_all-keys w.order m)

  pub advanced-running :
      (j : String)
      → holds is_running (advanced w k status s) j
        ≡ (if k == j then false else holds is_running w.steps j)
  unfolding advanced
  advanced-running j =
      let m = insert k (record s { status = status }) w.steps in
      ground (arith, holds-skip_all w.order m is_running j refl)

  -- Advance closes one step, and opens none.
  pub open_steps-advanced :
      (ids : List String)
      → 0 < count k ids
      → open_steps (advanced w k status s) ids < open_steps w.steps ids
  open_steps-advanced ids p =
      open_steps_drop w.steps (advanced w k status s) ids k open_advanced (ground arith)
        closed_advanced p

pub open_mark :
    (w : Workflow) (x k : String) (o : Option Step)
    → w.steps.get x ≡ o
    → holds is_open (mark_running w x).0.steps k ≡ true
    → may_run w.steps x ≡ true
    → holds is_open w.steps k ≡ true
open_mark w x k none e h m = absurd (ground arith)
open_mark w x k (some s) e h m =
    let g : holds is_open (insert x (marked s) w.steps) k ≡ true =
      rw (mark_running-eq w x s e) at h in
    ground arith
