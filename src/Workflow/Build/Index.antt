-- ===== src/Workflow/Build/Index.antt =====
-- The two validating loops of NewWorkflow (workflow.go): when they succeed, and with what.
use dvf.Prelude.{
  ℕ, ◌+◌, ◌≤◌, ◌<◌, ◌≡◌, refl, ◌⊎◌, inl, inr, String-discrete, String, List, [], ◌∷◌, Option, none,
  some, true, false, ◌==◌, if◌then◌else◌, count, count_self, arith,
}
use dvf.Prelude.Int.{pos}
use dvf.Prelude.Dict.{Dict, IsMap, insert, insert-IsMap, is_some}
use dvf.Types.{WorkflowStep}
use dvf.Workflow.{
  Step, WorkflowError, pending, Result, ok, err, index_steps, check_deps, check_steps, deps,
}

abbrev pub names : List WorkflowStep → List String
names [] = []
names (d ∷ ds) = d.id ∷ names ds

-- A step as it stands in a new workflow.
abbrev pub fresh : WorkflowStep → Step
fresh d = record { def = d; status = pending; attempts = pos 0 }

-- The definition of a name, the first of the list.
abbrev pub find_def : String → List WorkflowStep → Option WorkflowStep
find_def k [] = none
find_def k (d ∷ ds) = if d.id == k then some d else find_def k ds

abbrev pub as_step : Option WorkflowStep → Option Step
as_step none = none
as_step (some d) = some (fresh d)

-- No name is empty, and none stands twice, in the list or in the map.
pub record IsNamed (steps : Dict Step) (ds : List WorkflowStep) : Type 0 where
  pub distinct : (k : String) → (if is_some (steps.get k) then 1 else 0) + count k (names ds) ≤ 1
  pub named : count "" (names ds) ≡ 0

abbrev pub indexed : List WorkflowStep → Dict Step → Dict Step
indexed [] steps = steps
indexed (d ∷ ds) steps = indexed ds (insert d.id (fresh d) steps)

index_steps-cons :
    (i : ℕ) (d : WorkflowStep) (ds : List WorkflowStep) (steps m : Dict Step)
    → index_steps i (d ∷ ds) steps ≡ ok m
    → ((d.id == "") ≡ false)
      × (is_some (steps.get d.id) ≡ false)
      × (index_steps (i + 1) ds (insert d.id (fresh d) steps) ≡ ok m)
unfolding index_steps
index_steps-cons i d ds steps m e = ground arith

IsNamed-cons :
    (d : WorkflowStep) (ds : List WorkflowStep) (steps : Dict Step)
    → ((d.id == "") ≡ false)
    → (is_some (steps.get d.id) ≡ false)
    → IsNamed (insert d.id (fresh d) steps) ds
    → IsNamed steps (d ∷ ds)
IsNamed-cons d ds steps e f n = record {
  distinct = λ k. ground (arith, n.distinct k);
  named = ground (arith, n.named);
}

IsNamed-tail :
    (d : WorkflowStep) (ds : List WorkflowStep) (steps : Dict Step)
    → IsNamed steps (d ∷ ds)
    → IsNamed (insert d.id (fresh d) steps) ds
IsNamed-tail d ds steps n = record {
  distinct = λ k. ground (arith, n.distinct k);
  named = ground (arith, n.named);
}

pub index_steps-IsNamed :
    (i : ℕ) (ds : List WorkflowStep) (steps m : Dict Step)
    → index_steps i ds steps ≡ ok m
    → IsNamed steps ds × (m ≡ indexed ds steps)
unfolding index_steps
index_steps-IsNamed i [] steps m e =
    (record { distinct = λ k. ground arith; named = refl }, ground arith)
index_steps-IsNamed i (d ∷ ds) steps m e =
    let (f, g, h) = index_steps-cons i d ds steps m e in
    let (n, p) = index_steps-IsNamed (i + 1) ds (insert d.id (fresh d) steps) m h in
    (IsNamed-cons d ds steps f g n, p)

pub index_steps_ok :
    (i : ℕ) (ds : List WorkflowStep) (steps : Dict Step)
    → IsNamed steps ds
    → index_steps i ds steps ≡ ok (indexed ds steps)
unfolding index_steps
index_steps_ok i [] steps n = refl
index_steps_ok i (d ∷ ds) steps n = ground (
  arith,
  n.named,
  n.distinct d.id,
  count_self d.id (names ds),
  index_steps_ok (i + 1) ds (insert d.id (fresh d) steps) (IsNamed-tail d ds steps n),
)

-- The map holds the definitions, under their names, and each name once.
pub get-indexed :
    (ds : List WorkflowStep) (steps : Dict Step) (k : String)
    → IsNamed steps ds
    → (indexed ds steps).get k
      ≡ (if is_some (steps.get k) then steps.get k else as_step (find_def k ds))
get-indexed [] steps k n = ground arith
get-indexed (d ∷ ds) steps k n = ground (
  arith,
  n.distinct d.id,
  count_self d.id (names ds),
  get-indexed ds (insert d.id (fresh d) steps) k (IsNamed-tail d ds steps n),
)

pub indexed-IsMap :
    (ds : List WorkflowStep) (steps : Dict Step) → IsMap steps → IsMap (indexed ds steps)
indexed-IsMap [] steps h = h
indexed-IsMap (d ∷ ds) steps h =
    indexed-IsMap ds (insert d.id (fresh d) steps) (insert-IsMap d.id (fresh d) steps h)

check_deps_known :
    (steps : Dict Step) (sid : String) (ds : List String) (u : Unit {0}) (d : String)
    → check_deps steps sid ds ≡ ok u
    → 0 < count d ds
    → is_some (steps.get d) ≡ true
unfolding check_deps
check_deps_known steps sid [] u d e p = absurd (omega arith)
check_deps_known steps sid (x ∷ ds) u d e p = ground (arith, check_deps_known steps sid ds u d)

check_deps_ok :
    (steps : Dict Step) (sid : String) (ds : List String)
    → ((d : String) → 0 < count d ds → is_some (steps.get d) ≡ true)
    → check_deps steps sid ds ≡ ok tt
unfolding check_deps
check_deps_ok steps sid [] h = refl
check_deps_ok steps sid (x ∷ ds) h =
    ground (arith, h x, count_self x ds, check_deps_ok steps sid ds (λ d p. h d (omega arith)))

pub Result-cases {ℓ} :
    {A : Type ℓ} (r : Result A) → ((a : A) × (r ≡ ok a)) ⊎ ((e : WorkflowError) × (r ≡ err e))
Result-cases (ok a) = inl (a, refl)
Result-cases (err e) = inr (e, refl)

pub check_steps_known :
    (steps : Dict Step) (ids : List String) (u : Unit {0}) (s d : String)
    → check_steps steps ids ≡ ok u
    → 0 < count s ids
    → 0 < count d (deps steps s)
    → is_some (steps.get d) ≡ true
unfolding check_steps
check_steps_known steps [] u s d e p q = absurd (omega arith)
check_steps_known steps (x ∷ ids) u s d e p q = elim (String-discrete x s) [
  | yes same ↦ elim (Result-cases (check_deps steps x (deps steps x))) [
    | inl (v, f) ↦ check_deps_known steps x (deps steps x) v d f (rw same q)
    | inr (er, f) ↦ ground arith
  ]
  | no other ↦ ground (arith, check_steps_known steps ids u s d)
]

pub check_steps_ok :
    (steps : Dict Step) (ids : List String)
    → ((s d : String) → 0 < count s ids → 0 < count d (deps steps s) → is_some (steps.get d) ≡ true)
    → check_steps steps ids ≡ ok tt
unfolding check_steps
check_steps_ok steps [] h = refl
check_steps_ok steps (x ∷ ids) h = ground (
  arith,
  check_deps_ok steps x (deps steps x) (λ d p. h x d (ground (arith, count_self x ids)) p),
  check_steps_ok steps ids (λ s d p. h s d (omega arith)),
)
