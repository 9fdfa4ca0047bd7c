-- ===== src/Workflow/Build/Invariant.antt =====
-- The invariant of Kahn's loop in NewWorkflow (workflow.go), and that its fuel is enough.
use dvf.Prelude.{
  ℕ, zero, suc, ◌+◌, ◌≤◌, ◌<◌, ◌≡◌, refl, String, List, [], ◌∷◌, ◌++◌, eqb, if◌then◌else◌, length,
  length-append, count, count-append, count_self, length-le_of_count, arith,
}
use mathlib.Core.List.{append-nil, append_assoc}
use dvf.Workflow.{Degrees, Adjacency, relax, kahn}
use dvf.Workflow.Build.Loops.{unmet, unmet-snoc, relax-degree, relax-queue}

-- Every name in the list comes after its dependencies; `seen` stands before the list.
abbrev pub IsTopological : (String → List String) → List String → List String → Type 0
IsTopological dep seen [] = Unit {0}
IsTopological dep seen (x ∷ xs) = (unmet seen (dep x) ≡ 0) × IsTopological dep (seen ++ x ∷ []) xs

IsTopological-snoc :
    (dep : String → List String) (seen xs : List String) (c : String)
    → IsTopological dep seen xs
    → unmet (seen ++ xs) (dep c) ≡ 0
    → IsTopological dep seen (xs ++ c ∷ [])
IsTopological-snoc dep seen [] c t h = (rw append-nil at h, tt)
IsTopological-snoc dep seen (x ∷ xs) c t h =
    (t.0, IsTopological-snoc dep (seen ++ x ∷ []) xs c t.1 (rw append_assoc h))

pub record Kahn (ids : List String) (dep : String → List String) (deg : Degrees)
    (queue order : List String) : Type 0 where
  pub degree : (s : String) → count s ids ≡ 1 → deg s ≡ unmet order (dep s)
  pub enqueued :
      (s : String)
      → count s ids ≡ 1
      → count s order + count s queue ≡ (if eqb (deg s) 0 then 1 else 0)
  pub known : (s : String) → count s ids ≡ 0 → count s order + count s queue ≡ 0
  pub sorted : IsTopological dep [] order

module _ (ids : List String) (dep : String → List String) (adj : Adjacency)
    (unique : (s : String) → count s ids ≤ 1)
    (edges : (s d : String)
      → count s (adj d) ≡ (if eqb (count s ids) 0 then 0 else count d (dep s))) where
  member :
      {deg : Degrees} {queue order : List String} (c : String)
      → Kahn ids dep deg (c ∷ queue) order
      → count c ids ≡ 1
  member {queue = queue} c k = ground (arith, unique c, k.known c, count_self c queue)

  Kahn-pop :
      (deg : Degrees) (queue order : List String) (c : String)
      → Kahn ids dep deg (c ∷ queue) order
      → Kahn ids dep (relax (adj c) deg queue).0 (relax (adj c) deg queue).1 (order ++ c ∷ [])
  Kahn-pop deg queue order c k = record {
    degree = λ s h. ground (
      arith,
      relax-degree (adj c) deg queue s,
      edges s c,
      k.degree s h,
      unmet-snoc c order (dep s) fresh,
    );
    enqueued = λ s h. ground (
      arith,
      relax-degree (adj c) deg queue s,
      relax-queue (adj c) deg queue s,
      edges s c,
      k.degree s h,
      k.enqueued s h,
      unmet-snoc c order (dep s) fresh,
      count-append s order (c ∷ []),
    );
    known = λ s h. ground (
      arith,
      relax-queue (adj c) deg queue s,
      edges s c,
      k.known s h,
      count-append s order (c ∷ []),
    );
    sorted = IsTopological-snoc dep [] order c k.sorted ready;
  }
    where
      zero_degree : deg c ≡ 0
      zero_degree = ground (arith, k.enqueued c (member c k), count_self c queue)

      fresh : count c order ≡ 0
      fresh = ground (arith, k.enqueued c (member c k), count_self c queue)

      ready : unmet order (dep c) ≡ 0
      ready = omega (arith, k.degree c (member c k), zero_degree)

  pub Kahn-le :
      {deg : Degrees} {queue order : List String}
      → Kahn ids dep deg queue order
      → (s : String) → count s order + count s queue ≤ count s ids
  Kahn-le {deg} k s = ground (arith, unique s, k.known s, k.enqueued s)

  -- With fuel for the names that are not in the order yet, the loop ends with an empty queue.
  pub kahn-Kahn :
      (fuel : ℕ) (deg : Degrees) (queue order : List String)
      → length ids < fuel + length order
      → Kahn ids dep deg queue order
      → ((kahn fuel adj deg queue order).1 ≡ [])
        × ((final : Degrees) × Kahn ids dep final [] (kahn fuel adj deg queue order).0)
  unfolding kahn
  kahn-Kahn zero deg queue order h k =
      absurd (omega (arith, length-le_of_count order ids (λ s. omega (arith, Kahn-le k s))))
  kahn-Kahn (suc fuel) deg [] order h k = (refl, (deg, k))
  kahn-Kahn (suc fuel) deg (c ∷ queue) order h k =
      let r = relax (adj c) deg queue in
      kahn-Kahn fuel r.0 r.1 (order ++ c ∷ []) (omega (arith, length-append order (c ∷ [])))
        (Kahn-pop deg queue order c k)
