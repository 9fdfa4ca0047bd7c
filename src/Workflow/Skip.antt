-- ===== src/Workflow/Skip.antt =====
-- propagateSkip (workflow.go): one pass in topological order settles every step.
use dvf.Prelude.{
  ◌<◌, ◌≡◌, ◌≢◌, ◌⊎◌, refl, String, List, [], ◌∷◌, none, some, Bool, true, false, if◌then◌else◌,
  count, count_self, arith,
}
use dvf.Prelude.Dict.{Dict, insert, is_some}
use dvf.Workflow.{StepStatus, pending, skipped, Step, deps}
use dvf.Workflow.Steps.{
  is_pending, is_passed, is_lost, is_skipped, deps_all_passed, deps_any_failed,
}

-- A test of the status at a name; false where there is no step.
abbrev pub holds : (StepStatus → Bool) → Dict Step → String → Bool
holds p steps k = elim (steps.get k) [ none ↦ false | some s ↦ p s.status ]

unfoldable pub all_passed : Dict Step → List String → Bool
all_passed steps [] = true
all_passed steps (d ∷ ds) = if holds is_passed steps d then all_passed steps ds else false

unfoldable pub any_lost : Dict Step → List String → Bool
any_lost steps [] = false
any_lost steps (d ∷ ds) = if holds is_lost steps d then true else any_lost steps ds

abbrev pub IsKnown : Dict Step → List String → Type 0
IsKnown steps ds = (d : String) → 0 < count d ds → is_some (steps.get d) ≡ true

IsKnown-tail :
    (steps : Dict Step) (x : String) (ds : List String) → IsKnown steps (x ∷ ds) → IsKnown steps ds
IsKnown-tail steps x ds h d p = h d (omega arith)

-- Where every dependency is a step, the two tests do not panic.
pub deps_all_passed-some :
    (steps : Dict Step) (ds : List String)
    → IsKnown steps ds
    → deps_all_passed steps ds ≡ some (all_passed steps ds)
unfolding deps_all_passed all_passed
deps_all_passed-some steps [] h = refl
deps_all_passed-some steps (x ∷ ds) h =
    ground (arith, h x, count_self x ds, deps_all_passed-some steps ds (IsKnown-tail steps x ds h))

pub deps_any_failed-some :
    (steps : Dict Step) (ds : List String)
    → IsKnown steps ds
    → deps_any_failed steps ds ≡ some (any_lost steps ds)
unfolding deps_any_failed any_lost
deps_any_failed-some steps [] h = refl
deps_any_failed-some steps (x ∷ ds) h =
    ground (arith, h x, count_self x ds, deps_any_failed-some steps ds (IsKnown-tail steps x ds h))

unfoldable pub skip_one : String → Dict Step → Dict Step
skip_one sid steps = elim (steps.get sid) [
  | none ↦ steps
  | some s ↦
      if is_pending s.status
      then if any_lost steps s.def.depends_on
        then insert sid (record s { status = skipped }) steps
        else steps
      else steps
]

unfoldable pub skip_all : List String → Dict Step → Dict Step
skip_all [] steps = steps
skip_all (sid ∷ order) steps = skip_all order (skip_one sid steps)

module _ (x : String) (steps : Dict Step) where
  pub skip_one-is_some : (k : String) → is_some ((skip_one x steps).get k) ≡ is_some (steps.get k)
  unfolding skip_one
  skip_one-is_some k = ground arith

  pub skip_one-keys : (skip_one x steps).keys ≡ steps.keys
  unfolding skip_one
  skip_one-keys = ground arith

  pub deps-skip_one : (k : String) → deps (skip_one x steps) k ≡ deps steps k
  unfolding skip_one
  deps-skip_one k = ground arith

  -- Only a pending step changes, and it becomes skipped.
  pub holds-skip_one :
      (p : StepStatus → Bool) (k : String)
      → p pending ≡ p skipped
      → holds p (skip_one x steps) k ≡ holds p steps k
  unfolding skip_one
  holds-skip_one p k h = ground arith

  pub skip_one_other : (k : String) → x ≢ k → (skip_one x steps).get k ≡ steps.get k
  unfolding skip_one
  skip_one_other k h = ground arith

  pub skip_one_self :
      holds is_pending (skip_one x steps) x ≡ true
      → (holds is_pending steps x ≡ true) × (any_lost steps (deps steps x) ≡ false)
  unfolding skip_one
  skip_one_self h = ground arith

  pub skip_one_pending :
      (k : String) → holds is_pending (skip_one x steps) k ≡ true → holds is_pending steps k ≡ true
  unfolding skip_one
  skip_one_pending k h = ground arith

  pub skip_one_skipped :
      (k : String)
      → holds is_skipped (skip_one x steps) k ≡ true
      → (holds is_skipped steps k ≡ true) ⊎ (any_lost steps (deps steps k) ≡ true)
  unfolding skip_one
  skip_one_skipped k h = ground arith

  pub skip_one_lost :
      (k : String) → holds is_lost steps k ≡ true → holds is_lost (skip_one x steps) k ≡ true
  unfolding skip_one
  skip_one_lost k h = ground arith

  pub any_lost-skip_one_fresh :
      (ds : List String) → count x ds ≡ 0 → any_lost (skip_one x steps) ds ≡ any_lost steps ds
  unfolding any_lost
  any_lost-skip_one_fresh [] h = refl
  any_lost-skip_one_fresh (d ∷ ds) h =
      ground (arith, skip_one_other d, any_lost-skip_one_fresh ds, count_self x ds)

  pub any_lost-skip_one :
      (ds : List String) → any_lost steps ds ≡ true → any_lost (skip_one x steps) ds ≡ true
  unfolding any_lost
  any_lost-skip_one [] h = h
  any_lost-skip_one (d ∷ ds) h = ground (arith, skip_one_lost d, any_lost-skip_one ds)

  pub all_passed-skip_one :
      (ds : List String) → all_passed (skip_one x steps) ds ≡ all_passed steps ds
  unfolding all_passed
  all_passed-skip_one [] = refl
  all_passed-skip_one (d ∷ ds) =
      ground (arith, holds-skip_one is_passed d refl, all_passed-skip_one ds)
