-- ===== src/Workflow/Build/Loops.antt =====
-- The inner loops of NewWorkflow (workflow.go), seen through counts.
use dvf.Prelude.{
  ℕ, ◌+◌, ◌-◌, ◌≤◌, ◌≡◌, refl, String, List, [], ◌∷◌, ◌++◌, ◌==◌, eqb, if◌then◌else◌, length, count,
  count-append, arith,
}
use dvf.Prelude.Dict.{Dict, update}
use dvf.Workflow.{Step, Degrees, Adjacency, deps, add_edges, build_graph, roots, relax}

-- How many entries of a dependency list are not in the order yet.
abbrev pub unmet : List String → List String → ℕ
unmet order [] = 0
unmet order (d ∷ ds) = (if eqb (count d order) 0 then 1 else 0) + unmet order ds

pub unmet-nil : (ds : List String) → unmet [] ds ≡ length ds
unmet-nil [] = refl
unmet-nil (d ∷ ds) = omega (arith, unmet-nil ds)

pub unmet-snoc :
    (c : String) (order ds : List String)
    → count c order ≡ 0
    → unmet (order ++ c ∷ []) ds + count c ds ≡ unmet order ds
unmet-snoc c order [] h = omega arith
unmet-snoc c order (d ∷ ds) h =
    ground (arith, unmet-snoc c order ds h, count-append d order (c ∷ []))

add_edges-degree :
    (sid : String) (ds : List String) (deg : Degrees) (adj : Adjacency) (s : String)
    → (add_edges sid ds deg adj).0 s ≡ deg s + (if sid == s then length ds else 0)
unfolding add_edges
add_edges-degree sid [] deg adj s = ground arith
add_edges-degree sid (d ∷ ds) deg adj s = ground (
  arith,
  add_edges-degree sid ds (update deg sid (deg sid + 1)) (update adj d (adj d ++ sid ∷ [])) s,
)

add_edges-edge :
    (sid : String) (ds : List String) (deg : Degrees) (adj : Adjacency) (s d : String)
    → count s ((add_edges sid ds deg adj).1 d)
      ≡ count s (adj d) + (if sid == s then count d ds else 0)
unfolding add_edges
add_edges-edge sid [] deg adj s d = ground arith
add_edges-edge sid (e ∷ ds) deg adj s d = ground (
  arith,
  add_edges-edge sid ds (update deg sid (deg sid + 1)) (update adj e (adj e ++ sid ∷ [])) s d,
  count-append s (adj e) (sid ∷ []),
)

pub build_graph-degree :
    (steps : Dict Step) (ids : List String) (deg : Degrees) (adj : Adjacency) (s : String)
    → count s ids ≤ 1
    → (build_graph steps ids deg adj).0 s
      ≡ deg s + (if eqb (count s ids) 0 then 0 else length (deps steps s))
unfolding build_graph
build_graph-degree steps [] deg adj s h = omega arith
build_graph-degree steps (x ∷ ids) deg adj s h =
    let g = add_edges x (deps steps x) deg adj in
    ground (
      arith,
      build_graph-degree steps ids g.0 g.1 s (omega arith),
      add_edges-degree x (deps steps x) deg adj s,
    )

pub build_graph-edge :
    (steps : Dict Step) (ids : List String) (deg : Degrees) (adj : Adjacency) (s d : String)
    → count s ids ≤ 1
    → count s ((build_graph steps ids deg adj).1 d)
      ≡ count s (adj d) + (if eqb (count s ids) 0 then 0 else count d (deps steps s))
unfolding build_graph
build_graph-edge steps [] deg adj s d h = omega arith
build_graph-edge steps (x ∷ ids) deg adj s d h =
    let g = add_edges x (deps steps x) deg adj in
    ground (
      arith,
      build_graph-edge steps ids g.0 g.1 s d (omega arith),
      add_edges-edge x (deps steps x) deg adj s d,
    )

pub count-roots :
    (deg : Degrees) (ids : List String) (s : String)
    → count s (roots deg ids) ≡ (if eqb (deg s) 0 then count s ids else 0)
unfolding roots
count-roots deg [] s = ground arith
count-roots deg (x ∷ ids) s = ground (arith, count-roots deg ids s)

pub relax-degree :
    (ns : List String) (deg : Degrees) (queue : List String) (s : String)
    → (relax ns deg queue).0 s ≡ deg s - count s ns
unfolding relax
relax-degree [] deg queue s = omega arith
relax-degree (n ∷ ns) deg queue s = ground (
  arith,
  relax-degree ns (update deg n (deg n - 1)) (if eqb (deg n - 1) 0 then queue ++ n ∷ [] else queue)
      s,
)

-- A step joins the queue once, when its last open dependency is met.
pub relax-queue :
    (ns : List String) (deg : Degrees) (queue : List String) (s : String)
    → count s ns ≤ deg s
    → count s (relax ns deg queue).1
      ≡ count s queue
        + (if eqb (count s ns) 0 then 0 else if eqb (deg s) (count s ns) then 1 else 0)
unfolding relax
relax-queue [] deg queue s h = omega arith
relax-queue (n ∷ ns) deg queue s h = ground (
  arith,
  relax-queue ns (update deg n (deg n - 1)) (if eqb (deg n - 1) 0 then queue ++ n ∷ [] else queue)
      s,
  count-append s queue (n ∷ []),
)
