-- ===== src/Workflow/Settle.antt =====
-- The loop of propagateSkip (workflow.go) over a topological order.
use mathlib.Core.List.{append_assoc}
use dvf.Prelude.{
  ◌≤◌, ◌<◌, ◌≡◌, refl, sym, ◌∙◌, subst, fun_ext, String, List, [], ◌∷◌, ◌++◌, some, Bool, true,
  false, String-discrete, count, count-append, count_self, arith,
}
use dvf.Prelude.Dict.{Dict, is_some}
use dvf.Workflow.{StepStatus, Step, deps}
use dvf.Workflow.Build.Invariant.{IsTopological}
use dvf.Workflow.Build.Order.{zero_unmet}
use dvf.Workflow.Steps.{is_pending, is_skipped, propagate_skip}
use dvf.Workflow.Skip.{
  holds, all_passed, any_lost, IsKnown, deps_any_failed-some, skip_one, skip_all, skip_one-is_some,
  skip_one-keys, deps-skip_one, holds-skip_one, skip_one_self, skip_one_pending, skip_one_skipped,
  any_lost-skip_one_fresh, any_lost-skip_one, all_passed-skip_one,
}

-- Every listed step is there, with all its dependencies.
pub record AllKnown (steps : Dict Step) (order : List String) : Type 0 where
  pub there : (s : String) → 0 < count s order → is_some (steps.get s) ≡ true
  pub depends : (s : String) → 0 < count s order → IsKnown steps (deps steps s)

AllKnown-skip_one :
    (x : String) (order : List String) (steps : Dict Step)
    → AllKnown steps (x ∷ order)
    → AllKnown (skip_one x steps) order
AllKnown-skip_one x order steps k = record {
  there = λ s p. skip_one-is_some x steps s ∙ k.there s (omega arith);
  depends = λ s p d q.
      skip_one-is_some x steps d
      ∙ k.depends s (omega arith) d (subst (λ ds. 0 < count d ds) (deps-skip_one x steps s) q);
}

propagate_skip-cons :
    (x : String) (order : List String) (steps : Dict Step)
    → is_some (steps.get x) ≡ true
    → IsKnown steps (deps steps x)
    → propagate_skip (x ∷ order) steps ≡ propagate_skip order (skip_one x steps)
unfolding propagate_skip skip_one
propagate_skip-cons x order steps h k = ground (arith, deps_any_failed-some steps (deps steps x) k)

-- The pass does not panic where every dependency is a step.
pub propagate_skip-some :
    (order : List String) (steps : Dict Step)
    → AllKnown steps order
    → propagate_skip order steps ≡ some (skip_all order steps)
unfolding skip_all
propagate_skip-some [] steps k = unfold propagate_skip in refl
propagate_skip-some (x ∷ order) steps k =
    propagate_skip-cons x order steps (k.there x (omega (arith, count_self x order)))
      (k.depends x (omega (arith, count_self x order)))
    ∙ propagate_skip-some order (skip_one x steps) (AllKnown-skip_one x order steps k)

-- What the pass leaves alone.
pub skip_all-keys :
    (order : List String) (steps : Dict Step) → (skip_all order steps).keys ≡ steps.keys
unfolding skip_all
skip_all-keys [] steps = refl
skip_all-keys (x ∷ order) steps = skip_all-keys order (skip_one x steps) ∙ skip_one-keys x steps

pub skip_all-is_some :
    (order : List String) (steps : Dict Step) (k : String)
    → is_some ((skip_all order steps).get k) ≡ is_some (steps.get k)
unfolding skip_all
skip_all-is_some [] steps k = refl
skip_all-is_some (x ∷ order) steps k =
    skip_all-is_some order (skip_one x steps) k ∙ skip_one-is_some x steps k

pub deps-skip_all :
    (order : List String) (steps : Dict Step) (k : String)
    → deps (skip_all order steps) k ≡ deps steps k
unfolding skip_all
deps-skip_all [] steps k = refl
deps-skip_all (x ∷ order) steps k =
    deps-skip_all order (skip_one x steps) k ∙ deps-skip_one x steps k

pub holds-skip_all :
    (order : List String) (steps : Dict Step) (p : StepStatus → Bool) (k : String)
    → p StepStatus.pending ≡ p StepStatus.skipped
    → holds p (skip_all order steps) k ≡ holds p steps k
unfolding skip_all
holds-skip_all [] steps p k h = refl
holds-skip_all (x ∷ order) steps p k h =
    holds-skip_all order (skip_one x steps) p k h ∙ holds-skip_one x steps p k h

pub all_passed-skip_all :
    (order : List String) (steps : Dict Step) (ds : List String)
    → all_passed (skip_all order steps) ds ≡ all_passed steps ds
unfolding skip_all
all_passed-skip_all [] steps ds = refl
all_passed-skip_all (x ∷ order) steps ds =
    all_passed-skip_all order (skip_one x steps) ds ∙ all_passed-skip_one x steps ds

-- A pending step has no failed or skipped dependency.
abbrev pub IsSettled : Dict Step → String → Type 0
IsSettled steps k = holds is_pending steps k ≡ true → any_lost steps (deps steps k) ≡ false

-- `seen` holds the dependencies of its members.
abbrev IsLower : Dict Step → List String → Type 0
IsLower steps seen =
    (k d : String) → 0 < count k seen → 0 < count d (deps steps k) → 0 < count d seen

module _ (x : String) (order seen : List String) (steps : Dict Step) (l : IsLower steps seen)
    (t : IsTopological (deps steps) seen (x ∷ order)) where
  IsLower-snoc : IsLower (skip_one x steps) (seen ++ x ∷ [])
  IsLower-snoc k d p q = ground (
    arith,
    count-append k seen (x ∷ []),
    count-append d seen (x ∷ []),
    deps-skip_one x steps k,
    l k d,
    zero_unmet seen (deps steps x) d t.0,
  )

  IsTopological-skip_one : IsTopological (deps (skip_one x steps)) (seen ++ x ∷ []) order
  IsTopological-skip_one =
      subst (λ f. IsTopological f (seen ++ x ∷ []) order) (sym (fun_ext (deps-skip_one x steps)))
        t.1

  module _ (u : (k : String) → count k (seen ++ x ∷ order) ≤ 1)
      (h : (k : String) → 0 < count k seen → IsSettled steps k) where
    x_fresh : count x seen ≡ 0
    x_fresh = omega (arith, u x, count-append x seen (x ∷ order), count_self x order)

    x_not_below : (k : String) → 0 < count k (seen ++ x ∷ []) → count x (deps steps k) ≡ 0
    x_not_below k p =
        ground (
          arith,
          count-append k seen (x ∷ []),
          l k x,
          zero_unmet seen (deps steps x) x t.0,
          x_fresh,
        )

    IsSettled-snoc : (k : String) → 0 < count k (seen ++ x ∷ []) → IsSettled (skip_one x steps) k
    IsSettled-snoc k p q =
        rw
          (
            deps-skip_one x steps k,
            any_lost-skip_one_fresh x steps (deps steps k) (x_not_below k p),
          )
          (elim (String-discrete x k) [
            | yes e ↦
                subst (λ j. any_lost steps (deps steps j) ≡ false) e
                  (skip_one_self x steps
                    (subst (λ j. holds is_pending (skip_one x steps) j ≡ true) (sym e) q)).1
            | no e ↦
                h k (ground (arith, count-append k seen (x ∷ []))) (skip_one_pending x steps k q)
          ])

settle :
    (order seen : List String) (steps : Dict Step)
    → IsLower steps seen
    → IsTopological (deps steps) seen order
    → ((k : String) → count k (seen ++ order) ≤ 1)
    → ((k : String) → 0 < count k seen → IsSettled steps k)
    → (k : String) → 0 < count k (seen ++ order)
    → IsSettled (skip_all order steps) k
unfolding skip_all
settle [] seen steps l t u h k p = h k (ground (arith, count-append k seen []))
settle (x ∷ order) seen steps l t u h k p =
    settle order (seen ++ x ∷ []) (skip_one x steps) (IsLower-snoc x order seen steps l t)
      (IsTopological-skip_one x order seen steps l t)
      (λ j. rw (append_assoc seen (x ∷ []) order) (u j)) (IsSettled-snoc x order seen steps l t u h)
      k (rw (append_assoc seen (x ∷ []) order) p)

-- After the pass over a topological order no listed step is pending below a failed or skipped one.
pub skip_all-IsSettled :
    (order : List String) (steps : Dict Step)
    → IsTopological (deps steps) [] order
    → ((k : String) → count k order ≤ 1)
    → (k : String) → 0 < count k order
    → IsSettled (skip_all order steps) k
skip_all-IsSettled order steps t u =
    settle order [] steps (λ k d p q. absurd (omega arith)) t u (λ k p. absurd (omega arith))

-- What the pass keeps of the steps that were started or skipped before.
pub any_lost-skip_all :
    (order : List String) (steps : Dict Step) (ds : List String)
    → any_lost steps ds ≡ true
    → any_lost (skip_all order steps) ds ≡ true
unfolding skip_all
any_lost-skip_all [] steps ds h = h
any_lost-skip_all (x ∷ order) steps ds h =
    any_lost-skip_all order (skip_one x steps) ds (any_lost-skip_one x steps ds h)

-- Every skipped step has a failed or skipped dependency.
abbrev pub HasCause : Dict Step → Type 0
HasCause steps =
    (k : String) → holds is_skipped steps k ≡ true → any_lost steps (deps steps k) ≡ true

HasCause-skip_one : (x : String) (steps : Dict Step) → HasCause steps → HasCause (skip_one x steps)
HasCause-skip_one x steps c k h =
    rw (deps-skip_one x steps k)
      (any_lost-skip_one x steps (deps steps k) (ground (arith, skip_one_skipped x steps k h, c k)))

pub HasCause-skip_all :
    (order : List String) (steps : Dict Step) → HasCause steps → HasCause (skip_all order steps)
unfolding skip_all
HasCause-skip_all [] steps c = c
HasCause-skip_all (x ∷ order) steps c =
    HasCause-skip_all order (skip_one x steps) (HasCause-skip_one x steps c)
