-- ===== src/Workflow/Ready.antt =====
-- Ready, IsDone and IsBlocked (workflow.go): what may run, and that something always may.
use dvf.Prelude.{
  ℕ, ◌<◌, ◌≡◌, ◌⊎◌, ◌↔◌, inl, inr, refl, ap, String, List, [], ◌∷◌, ◌++◌, Option, some, Bool, true,
  false, if◌then◌else◌, count, count-append, count_self, arith, Bool-cases,
}
use dvf.Prelude.Dict.{Dict, MapRange}
use dvf.Workflow.{Step, Workflow, deps}
use dvf.Workflow.Build.Invariant.{IsTopological}
use dvf.Workflow.Build.Order.{zero_unmet}
use dvf.Workflow.Build.Construct.{IsOrdered}
use dvf.Workflow.Steps.{
  is_pending, is_running, is_open, is_empty, ready_steps, ready, all_closed, is_done, is_blocked,
}
use dvf.Workflow.Skip.{holds, all_passed, any_lost, IsKnown, deps_all_passed-some}
use dvf.Workflow.Settle.{AllKnown}
use dvf.Workflow.Runtime.{IsConsistent, IsOrdered-AllKnown}

-- A step that may run: pending, with its dependencies passed.
abbrev pub may_run : Dict Step → String → Bool
may_run steps k = if holds is_pending steps k then all_passed steps (deps steps k) else false

ready_list : Dict Step → List String → List String
ready_list steps [] = []
ready_list steps (sid ∷ order) =
    if may_run steps sid then sid ∷ ready_list steps order else ready_list steps order

count-ready_list :
    (steps : Dict Step) (order : List String) (k : String)
    → count k (ready_list steps order) ≡ (if may_run steps k then count k order else 0)
unfolding ready_list
count-ready_list steps [] k = ground arith
count-ready_list steps (sid ∷ order) k = ground (arith, count-ready_list steps order k)

AllKnown-tail :
    {steps : Dict Step} (x : String) (order : List String)
    → AllKnown steps (x ∷ order)
    → AllKnown steps order
AllKnown-tail x order k = record {
  there = λ s p. k.there s (omega arith);
  depends = λ s p. k.depends s (omega arith);
}

ready_steps-some :
    (steps : Dict Step) (order : List String)
    → AllKnown steps order
    → ready_steps steps order ≡ some (ready_list steps order)
unfolding ready_steps ready_list
ready_steps-some steps [] k = refl
ready_steps-some steps (x ∷ order) k = ground (
  arith,
  k.there x (omega (arith, count_self x order)),
  deps_all_passed-some steps (deps steps x) (k.depends x (omega (arith, count_self x order))),
  ready_steps-some steps order (AllKnown-tail x order k),
)

-- Ready does not panic, and lists exactly the steps of the workflow that are pending with all
-- their dependencies passed, each once.
pub ready_exact :
    (w : Workflow)
    → IsOrdered w
    → (l : List String) × (ready w ≡ some l)
      × ((k : String) → count k l ≡ (if may_run w.steps k then 1 else 0))
unfolding ready
ready_exact w o = (
  ready_list w.steps w.order,
  ready_steps-some w.steps w.order (IsOrdered-AllKnown o),
  λ k. ground (arith, count-ready_list w.steps w.order k, o.once k, o.is_map k),
)

-- The first pending step of a topological order has its dependencies before it.
first_pending :
    (steps : Dict Step) (order seen : List String)
    → IsTopological (deps steps) seen order
    → ((k : String) → 0 < count k seen → holds is_pending steps k ≡ false)
    → ((k : String) → 0 < count k order → holds is_pending steps k ≡ false)
      ⊎ ((k : String) × (holds is_pending steps k ≡ true)
          × (0 < count k order)
          × ((d : String) → 0 < count d (deps steps k) → holds is_pending steps d ≡ false))
first_pending steps [] seen t h = inl (λ k p. absurd (omega arith))
first_pending steps (x ∷ order) seen t h = elim (Bool-cases (holds is_pending steps x)) [
  | inl e ↦
      inr (
        x,
        e,
        omega (arith, count_self x order),
        λ d p. h d (zero_unmet seen (deps steps x) d t.0 p),
      )
  | inr e ↦
      elim (first_pending steps order (seen ++ x ∷ []) t.1
        (λ k p. ground (arith, h k, count-append k seen (x ∷ [])))) [
          | inl f ↦ inl (λ k p. ground (arith, f k))
          | inr (k, f, p, g) ↦ inr (k, f, omega arith, g)
        ]
]

-- Dependencies that are not pending, running, failed or skipped have passed.
all_passed_rest :
    (steps : Dict Step) (ds : List String)
    → IsKnown steps ds
    → ((d : String) → 0 < count d ds → holds is_pending steps d ≡ false)
    → ((d : String) → holds is_running steps d ≡ false)
    → any_lost steps ds ≡ false
    → all_passed steps ds ≡ true
unfolding all_passed any_lost
all_passed_rest steps [] k p r l = refl
all_passed_rest steps (d ∷ ds) k p r l = ground (
  arith,
  k d,
  p d,
  r d,
  count_self d ds,
  all_passed_rest steps ds (λ e q. k e (omega arith)) (λ e q. p e (omega arith)) r,
)

all_closed-eq-false :
    (steps : Dict Step) (ids : List String)
    → all_closed steps ids ≡ false
    → (k : String) × (0 < count k ids) × (holds is_open steps k ≡ true)
unfolding all_closed
all_closed-eq-false steps [] h = absurd (cc)
all_closed-eq-false steps (x ∷ ids) h = elim (Bool-cases (holds is_open steps x)) [
  | inl e ↦ (x, omega (arith, count_self x ids), e)
  | inr e ↦ let (k, p, o) = all_closed-eq-false steps ids (ground arith) in (k, omega arith, o)
]

all_closed-eq-true :
    (steps : Dict Step) (ids : List String) (k : String)
    → all_closed steps ids ≡ true
    → 0 < count k ids
    → holds is_open steps k ≡ false
unfolding all_closed
all_closed-eq-true steps [] k h p = absurd (omega arith)
all_closed-eq-true steps (x ∷ ids) k h p = ground (arith, all_closed-eq-true steps ids k)

pub is_done_exact :
    (range : MapRange) (w : Workflow)
    → IsOrdered w
    → (is_done range w ≡ true → (k : String) → holds is_open w.steps k ≡ false)
      × (is_done range w ≡ false → (k : String) × (holds is_open w.steps k ≡ true))
unfolding is_done
is_done_exact range w o = (
  λ h k. ground (
    arith,
    all_closed-eq-true w.steps (range.visit 3 w.steps.keys) k h,
    range.visits 3 w.steps.keys k,
    o.is_map k,
  ),
  λ h. let (k, p, q) = all_closed-eq-false w.steps (range.visit 3 w.steps.keys) h in (k, q),
)

-- IsDone says true exactly where no step is pending or running, whatever the order of the range.
pub is_done_iff :
    (range : MapRange) (w : Workflow)
    → IsOrdered w
    → (is_done range w ≡ true) ↔ ((k : String) → holds is_open w.steps k ≡ false)
is_done_iff range w o = (
  (is_done_exact range w o).0,
  λ h. elim (Bool-cases (is_done range w)) [
    | inl e ↦ e
    | inr e ↦ let (k, q) = (is_done_exact range w o).1 e in absurd (ground (arith, h k))
  ],
)

-- While no step runs and the workflow is not done, some step is ready: the loop never starves.
pub ready_progress :
    (range : MapRange) (w : Workflow)
    → IsConsistent w
    → ((k : String) → holds is_running w.steps k ≡ false)
    → is_done range w ≡ false
    → (k : String) × (may_run w.steps k ≡ true)
ready_progress range w c r d =
    let (x, open_x) = (is_done_exact range w c.ordered).1 d in
    elim (first_pending w.steps w.order [] c.ordered.sorted (λ k p. absurd (omega arith))) [
      | inl f ↦
          absurd (never x open_x (f x) (λ p. ground (arith, c.ordered.once x, c.ordered.is_map x)))
      | inr (k, e, p, g) ↦ (k, rw e (enabled k e p g))
    ]
  where
    never :
        (x : String)
        → holds is_open w.steps x ≡ true
        → (0 < count x w.order → holds is_pending w.steps x ≡ false)
        → (holds is_pending w.steps x ≡ true → 0 < count x w.order)
        → ⊥
    never x o f g = ground (arith, r x)

    enabled :
        (k : String)
        → holds is_pending w.steps k ≡ true
        → 0 < count k w.order
        → ((d : String) → 0 < count d (deps w.steps k) → holds is_pending w.steps d ≡ false)
        → all_passed w.steps (deps w.steps k) ≡ true
    enabled k e p g =
        all_passed_rest w.steps (deps w.steps k) ((IsOrdered-AllKnown c.ordered).depends k p) g r
          (c.settled k e)

-- So IsBlocked is false while no step runs.
pub is_blocked_idle :
    (range : MapRange) (w : Workflow)
    → IsConsistent w
    → ((k : String) → holds is_running w.steps k ≡ false)
    → is_blocked range w ≡ some false
unfolding is_blocked
is_blocked_idle range w c r = elim (Bool-cases (is_done range w)) [
  | inl e ↦ rw e
  | inr e ↦
      let (l, p, q) = ready_exact w c.ordered in
      let (k, m) = ready_progress range w c r e in
      rw (e, p) (nonempty l k (omega (arith, q k, ap {B = ℕ} (λ (b : Bool). if b then 1 else 0) m)))
]
  where
    nonempty :
        (l : List String) (k : String)
        → 0 < count k l
        → ◌≡◌ {A = Option Bool} (some (is_empty l)) (some false)
    nonempty [] k h = absurd (omega arith)
    nonempty (x ∷ l) k h = refl
