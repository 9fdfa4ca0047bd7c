-- ===== src/Workflow/Build/Order.antt =====
-- The order that NewWorkflow (workflow.go) computes for a map of steps.
use dvf.Prelude.{
  ℕ, zero, suc, ◌≤◌, ◌<◌, ◌≡◌, refl, String, List, [], ◌∷◌, eqb, if◌then◌else◌, length, count,
  count-eq_of_length, length-le_of_count, count_self, arith,
}
use dvf.Prelude.Dict.{Dict, IsMap, MapRange}
use dvf.Workflow.{Step, Degrees, deps, build_graph, roots, topological}
use dvf.Workflow.Build.Loops.{unmet, unmet-nil, build_graph-degree, build_graph-edge, count-roots}
use dvf.Workflow.Build.Invariant.{Kahn, IsTopological, Kahn-le, kahn-Kahn}

-- All dependencies of all steps are steps.
abbrev pub IsClosed : Dict Step → Type 0
IsClosed steps =
    (s d : String) → count s steps.keys ≡ 1 → 0 < count d (deps steps s) → count d steps.keys ≡ 1

unmet_zero :
    (order ds : List String)
    → ((d : String) → 0 < count d ds → 0 < count d order)
    → unmet order ds ≡ 0
unmet_zero order [] h = refl
unmet_zero order (d ∷ ds) h =
    ground (arith, h d, count_self d ds, unmet_zero order ds (λ e p. h e (ground arith)))

pub zero_unmet :
    (order ds : List String) (d : String) → unmet order ds ≡ 0 → 0 < count d ds → 0 < count d order
zero_unmet order [] d h p = absurd (omega arith)
zero_unmet order (e ∷ ds) d h p = ground (arith, zero_unmet order ds d)

module _ (range : MapRange) (steps : Dict Step) (m : IsMap steps) where
  unique : (s : String) → count s steps.keys ≤ 1
  unique s = ground (arith, m s)

  edges :
      (s d : String)
      → count s ((build_graph steps (range.visit 1 steps.keys) (λ _. 0) (λ _. [])).1 d)
        ≡ (if eqb (count s steps.keys) 0 then 0 else count d (deps steps s))
  edges s d = ground (
    arith,
    build_graph-edge steps (range.visit 1 steps.keys) (λ _. 0) (λ _. []) s d
        (omega (arith, range.visits 1 steps.keys s, unique s)),
    range.visits 1 steps.keys s,
  )

  degree :
      (s : String)
      → (build_graph steps (range.visit 1 steps.keys) (λ _. 0) (λ _. [])).0 s
        ≡ (if eqb (count s steps.keys) 0 then 0 else length (deps steps s))
  degree s = ground (
    arith,
    build_graph-degree steps (range.visit 1 steps.keys) (λ _. 0) (λ _. []) s
        (omega (arith, range.visits 1 steps.keys s, unique s)),
    range.visits 1 steps.keys s,
  )

  start :
      let g = build_graph steps (range.visit 1 steps.keys) (λ _. 0) (λ _. []) in
      Kahn steps.keys (deps steps) g.0 (roots g.0 (range.visit 2 steps.keys)) []
  start =
      let g = build_graph steps (range.visit 1 steps.keys) (λ _. 0) (λ _. []) in
      record {
        degree = λ s h. ground (arith, degree s, unmet-nil (deps steps s));
        enqueued = λ s h. ground (
          arith,
          degree s,
          count-roots g.0 (range.visit 2 steps.keys) s,
          range.visits 2 steps.keys s,
        );
        known = λ s h. ground (
          arith,
          degree s,
          count-roots g.0 (range.visit 2 steps.keys) s,
          range.visits 2 steps.keys s,
        );
        sorted = tt;
      }

  done :
      ((topological range steps).1 ≡ [])
      × ((final : Degrees) × Kahn steps.keys (deps steps) final [] (topological range steps).0)
  unfolding topological
  done =
      let g = build_graph steps (range.visit 1 steps.keys) (λ _. 0) (λ _. []) in
      kahn-Kahn steps.keys (deps steps) g.1 unique edges (suc (length steps.keys)) g.0
        (roots g.0 (range.visit 2 steps.keys)) [] (omega arith) start

  -- The loop ends by its own test: the queue is empty.
  pub topological_ends : (topological range steps).1 ≡ []
  topological_ends = done.0

  pub topological-le : (s : String) → count s (topological range steps).0 ≤ count s steps.keys
  topological-le s =
      let g = build_graph steps (range.visit 1 steps.keys) (λ _. 0) (λ _. []) in
      omega (arith, Kahn-le steps.keys (deps steps) g.1 unique edges done.1.1 s)

  pub topological-IsTopological : IsTopological (deps steps) [] (topological range steps).0
  topological-IsTopological = done.1.1.sorted

  -- An order as long as the map holds every step once.
  pub topological-count :
      length (topological range steps).0 ≡ length steps.keys
      → (s : String) → count s (topological range steps).0 ≡ count s steps.keys
  topological-count h = count-eq_of_length _ _ topological-le h

  module _ (closed : IsClosed steps) (rank : String → ℕ)
      (falls : (s d : String)
        → count s steps.keys ≡ 1
        → 0 < count d (deps steps s)
        → rank d < rank s) where
    ordered :
        (n : ℕ) (s : String)
        → rank s < n
        → count s steps.keys ≡ 1
        → 0 < count s (topological range steps).0
    ordered zero s r h = absurd (omega arith)
    ordered (suc n) s r h = ground (
      arith,
      done.1.1.enqueued s h,
      done.1.1.degree s h,
      unmet_zero (topological range steps).0 (deps steps s)
          (λ d p. ordered n d (omega (arith, falls s d h p)) (closed s d h p)),
    )

    -- Where some rank falls along every dependency, no step is left out.
    pub length-topological : length (topological range steps).0 ≡ length steps.keys
    length-topological = omega (
      arith,
      length-le_of_count (topological range steps).0 steps.keys topological-le,
      length-le_of_count steps.keys (topological range steps).0
          (λ s. ground (arith, unique s, ordered (suc (rank s)) s (omega arith))),
    )
