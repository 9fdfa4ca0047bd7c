-- ===== src/Engine/Loop/Launch.antt =====
-- The launching part of runWorkflow (execution_engine.go).
use dvf.Prelude.{
  ◌≤◌, ◌<◌, ◌≡◌, ◌≢◌, inl, inr, refl, ◌∙◌, ap, subst, String, String-discrete, List, [], ◌∷◌, ◌++◌,
  ◌==◌, Option, some, true, false, if◌then◌else◌, count, count-append, count_self, arith,
  Option-cases, ltb,
}
use dvf.Prelude.Dict.{MapRange}
use dvf.Prelude.Panic.{◌>>=◌}
use dvf.Workflow.{Step, Workflow, deps}
use dvf.Workflow.Steps.{is_pending, is_running, mark_running, marked, is_done}
use dvf.Workflow.Skip.{holds}
use dvf.Workflow.Put.{put_all_passed}
use dvf.Workflow.Runtime.{IsConsistent, mark_running-IsConsistent, mark_running-eq}
use dvf.Workflow.Ready.{may_run, ready_exact, ready_progress}
use dvf.Engine.Loop.{LoopState, launch, launch_ready}

-- The workflow is consistent, and exactly its running steps have a goroutine, one each.
pub record IsDriven (s : LoopState) : Type 0 where
  pub consistent : IsConsistent s.workflow
  pub flights :
      (k : String) → count k s.running ≡ (if holds is_running s.workflow.steps k then 1 else 0)

mark_running-holds :
    (w : Workflow) (k j : String) (s : Step)
    → w.steps.get k ≡ some s
    → holds is_running (mark_running w k).0.steps j
      ≡ (if k == j then true else holds is_running w.steps j)
mark_running-holds w k j s e = rw (mark_running-eq w k s e) (ground arith)

mark_running-may_run :
    (w : Workflow) (k j : String) (s : Step)
    → w.steps.get k ≡ some s
    → is_pending s.status ≡ true
    → k ≢ j
    → may_run (mark_running w k).0.steps j ≡ may_run w.steps j
mark_running-may_run w k j s e p n =
    rw (mark_running-eq w k s e)
      (ground (arith, put_all_passed k w.steps s (marked s) e (deps w.steps j) (ground arith)))

-- The state of the loop after one launch.
abbrev pub launched : String → LoopState → LoopState
launched x s = record { workflow = (mark_running s.workflow x).0; running = s.running ++ x ∷ [] }

module _ (x : String) (s : LoopState) (d : IsDriven s) (st : Step)
    (e : s.workflow.steps.get x ≡ some st) (m : may_run s.workflow.steps x ≡ true) where
  was_pending : holds is_pending s.workflow.steps x ≡ true
  was_pending = ground arith

  launched-IsDriven : IsDriven (launched x s)
  launched-IsDriven = record {
    consistent =
        mark_running-IsConsistent s.workflow x d.consistent was_pending
          (ground (arith, was_pending));
    flights = λ k. ground (
      arith,
      mark_running-holds s.workflow x k st e,
      d.flights k,
      d.flights x,
      was_pending,
      count-append k s.running (x ∷ []),
    );
  }

  launch-cons : (l : List String) → launch (x ∷ l) s ≡ launch l (launched x s)
  unfolding launch
  launch-cons l = ap (launch l) (ground (arith, d.flights x, was_pending))

there :
    (x : String) (s : LoopState)
    → may_run s.workflow.steps x ≡ true
    → (st : Step) × (s.workflow.steps.get x ≡ some st)
there x s m = elim (Option-cases (s.workflow.steps.get x)) [
  | inl e ↦ absurd (ground arith)
  | inr r ↦ r
]

-- What each launch of a step that may run keeps, launching all of a list keeps; nothing is launched
-- twice.
module _ (P : LoopState → Type 0)
    (keep : (x : String) (s : LoopState)
      → IsDriven s
      → may_run s.workflow.steps x ≡ true
      → P s
      → P (launched x s)) where
  launch_induction :
      (l : List String) (s : LoopState)
      → IsDriven s
      → ((k : String) → count k l ≤ 1)
      → ((k : String) → 0 < count k l → may_run s.workflow.steps k ≡ true)
      → P s
      → IsDriven (launch l s) × P (launch l s)
  launch_induction [] s d u m p = unfold launch in (d, p)
  launch_induction (x ∷ l) s d u m p =
      let m_x = m x (omega (arith, count_self x l)) in
      let (st, e) = there x s m_x in
      rw (launch-cons x s d st e m_x l) (
        launch_induction l (launched x s) (launched-IsDriven x s d st e m_x)
          (λ k. omega (arith, u k))
          (λ k q.
            mark_running-may_run s.workflow x k st e (ground (arith, was_pending x s d st e m_x))
              (λ r.
                subst (λ y. count y (x ∷ l) ≤ 1 → 0 < count y l → ⊥) r
                  (λ a b. omega (arith, count_self x l)) (u k) q)
            ∙ m k (omega arith))
          (keep x s d m_x p))

launch_keeps :
    (l : List String) (s : LoopState) (k : String)
    → 0 < count k s.running
    → 0 < count k (launch l s).running
unfolding launch
launch_keeps [] s k p = p
launch_keeps (x ∷ l) s k p =
    launch_keeps l (if ltb 0 (count x s.running) then s else launched x s) k
      (ground (arith, count-append k s.running (x ∷ [])))

launch_all :
    (l : List String) (s : LoopState) (k : String)
    → 0 < count k l
    → 0 < count k (launch l s).running
unfolding launch
launch_all [] s k p = absurd (omega arith)
launch_all (x ∷ l) s k p = elim (String-discrete x k) [
  | yes q ↦
      launch_keeps l (if ltb 0 (count x s.running) then s else launched x s) k
        (ground (arith, count-append k s.running (x ∷ []), count_self x []))
  | no q ↦ launch_all l (if ltb 0 (count x s.running) then s else launched x s) k (ground arith)
]

flying :
    (range : MapRange) (s : LoopState)
    → IsDriven s
    → (l : List String) → ((k : String) → count k l ≡ (if may_run s.workflow.steps k then 1 else 0))
    → (r : List String) → s.running ≡ r
    → is_done range s.workflow ≡ false
    → (k : String) × (0 < count k (launch l s).running)
flying range s d l c [] e h =
    let (k, m) =
      ready_progress range s.workflow d.consistent
        (λ j. ground (arith, d.flights j, ap (count j) e)) h in
    (k, launch_all l s k (ground (arith, c k)))
flying range s d l c (x ∷ r) e h =
    (x, launch_keeps l s x (omega (arith, ap (count x) e, count_self x r)))

-- An iteration launches what Ready lists without a panic, keeps what each launch keeps, and then
-- some step is running unless the workflow is done.
pub launch_ready-IsDriven :
    (range : MapRange) (P : LoopState → Type 0)
    → ((x : String) (s : LoopState)
        → IsDriven s
        → may_run s.workflow.steps x ≡ true
        → P s
        → P (launched x s))
    → (s : LoopState) → IsDriven s
    → P s
    → (t : LoopState) × (launch_ready s ≡ some t)
      × IsDriven t
      × P t
      × (is_done range s.workflow ≡ false → (k : String) × (0 < count k t.running))
unfolding launch_ready
launch_ready-IsDriven range P keep s d p =
    let (l, e, c) = ready_exact s.workflow d.consistent.ordered in
    let (d', p') =
      launch_induction P keep l s d (λ k. ground (arith, c k)) (λ k q. ground (arith, c k)) p in
    (
      launch l s,
      ap (λ (o : Option (List String)). o >>= λ l. some (launch l s)) e,
      d',
      p',
      flying range s d l c s.running refl,
    )
