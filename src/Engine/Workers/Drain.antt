-- ===== src/Engine/Workers/Drain.antt =====
-- The engine's workers (core/execution_engine.go) get every queued run through.
use dvf.Prelude.{
  ℕ, zero, suc, ◌+◌, ◌*◌, ◌≤◌, ◌<◌, ◌≡◌, ◌⊎◌, inl, inr, refl, ap, List, [], ◌∷◌, arith, length,
  Bool-cases, true, false, Bool, ◌&&◌, if◌then◌else◌,
}
use dvf.Types.{TestRun}
use dvf.Scheduler.{Scheduler, release}
use dvf.Scheduler.Fifo.{next-got, next_ready}
use dvf.Allocator.{Allocation, try_acquire}
use dvf.Allocator.Ledger.{Hold, request}
use dvf.Engine.Workers.{Orchestrator, Move, dispatch, wakes, reserve, defer, abandon, finish, free}
use dvf.Engine.Workers.Sound.{IsSound, Move-IsSound, length-insert}

-- The outstanding work: each run takes at most four moves.
abbrev pub work : Orchestrator → ℕ
work s = 4 * length s.scheduler.queue + 3 * length s.starting + 2 * length s.holding + s.ending

-- And a signal that waits for a parked worker is one more move.
abbrev pub size : Orchestrator → ℕ
size s = 2 * work s + (if s.parked && s.scheduler.signalled then 1 else 0)

pub data Moves (need : Allocation) : Orchestrator → Orchestrator → Type 0 where
  still : {s : Orchestrator} → Moves need s s
  first : {s t u : Orchestrator} → Move need s t → Moves need t u → Moves need s u

pub release-queue : (s : Scheduler) → (release s).queue ≡ s.queue
unfolding release
release-queue s = ground arith

-- Every move takes off some work, or it is the worker that takes a signal.
pub Move-work :
    {need : Allocation} {s t : Orchestrator}
    → Move need s t
    → (work t < work s)
      ⊎ ((work t ≡ work s)
          × (s.parked ≡ true)
          × (s.scheduler.signalled ≡ true)
          × (t.parked ≡ false))
Move-work {s} (dispatch run t p e) =
    let (q, _, _, _, _) = next-got s.scheduler t run e in inl (omega (arith, ap length q))
Move-work (wakes p q) = inr (omega arith, p, q, refl)
Move-work (reserve before after run b e f) =
    inl (omega (arith, ap length e, length-insert before after run))
Move-work (defer before after run b e f) =
    inl (omega (arith, ap length e, length-insert before after run))
Move-work (abandon before after run e) =
    inl (omega (arith, ap length e, length-insert before after run))
Move-work (finish before after run e) =
    inl (omega (arith, ap length e, length-insert before after run))
Move-work {s} (free n e) = inl (omega (arith, ap length (release-queue s.scheduler)))

signal_le : (b : Bool) → (if b then 1 else 0) ≤ 1
signal_le true = omega arith
signal_le false = omega arith

pub Move-size : {need : Allocation} {s t : Orchestrator} → Move need s t → size t < size s
Move-size {s = s} {t = t} m = elim (Move-work m) [
  | inl l ↦ omega (arith, signal_le (t.parked && t.scheduler.signalled))
  | inr (e, p, q, r) ↦ ground (arith, e, p, q, r)
]

module _ (h : Hold) where
  abbrev pub CanMove : Orchestrator → Type 0
  CanMove s = (t : Orchestrator) × Move (request h) s t

  pub starts :
      (s : Orchestrator) (run : TestRun) (rest : List TestRun) → s.starting ≡ run ∷ rest → CanMove s
  starts s run rest e = elim (Bool-cases (try_acquire (request h) s.budget).1) [
    | inl f ↦ (
      _,
      reserve [] rest run ((try_acquire (request h) s.budget).0) e
          (ap (λ ok. ((try_acquire (request h) s.budget).0, ok)) f),
    )
    | inr f ↦ (
      _,
      defer [] rest run ((try_acquire (request h) s.budget).0) e
          (ap (λ ok. ((try_acquire (request h) s.budget).0, ok)) f),
    )
  ]

  pub List-cases :
      (l : List TestRun) → (l ≡ []) ⊎ ((x : TestRun) × (rest : List TestRun) × (l ≡ x ∷ rest))
  List-cases [] = inl refl
  List-cases (x ∷ xs) = inr (x, xs, refl)

  pub ℕ-cases : (n : ℕ) → (n ≡ 0) ⊎ ((m : ℕ) × (n ≡ suc m))
  ℕ-cases zero = inl refl
  ℕ-cases (suc n) = inr (n, refl)

  -- Where a run is queued and a slot is free, the worker takes the run, or a signal that waits for it.
  looks :
      (s : Orchestrator)
      → IsSound h s
      → (x : TestRun) (rest : List TestRun) → s.scheduler.queue ≡ x ∷ rest
      → s.scheduler.active_count < s.scheduler.max_concurrent
      → CanMove s
  looks s v x rest e slot = elim (Bool-cases s.parked) [
    | inr p ↦ let (t, f) = next_ready s.scheduler x rest e slot in (_, dispatch x t p f)
    | inl p ↦ elim (Bool-cases s.scheduler.signalled) [
      | inl q ↦ (_, wakes p q)
      | inr q ↦ elim (v.heard p q) [
        | inl none_queued ↦ absurd (omega (arith, ap length none_queued, ap length e))
        | inr full ↦ absurd (omega (arith, full))
      ]
    ]
  ]

  -- Where work is outstanding, the worker or a run can move.
  progress : (s : Orchestrator) → IsSound h s → 0 < work s → CanMove s
  progress s v l = elim (ℕ-cases s.ending) [
    | inr (n, e) ↦ (_, free n e)
    | inl none_ending ↦ elim (List-cases s.holding) [
      | inr (x, rest, e) ↦ (_, finish [] rest x e)
      | inl none_holding ↦ elim (List-cases s.starting) [
        | inr (x, rest, e) ↦ starts s x rest e
        | inl none_starting ↦ elim (List-cases s.scheduler.queue) [
          | inr (x, rest, e) ↦
              let slot : s.scheduler.active_count < s.scheduler.max_concurrent =
                omega (arith, v.slots, v.room, ap length none_holding, ap length none_starting) in
              looks s v x rest e slot
          | inl none_queued ↦ absurd (
              omega (arith, ap length none_holding, ap length none_starting, ap length none_queued))
        ]
      ]
    ]
  ]

  drains_within :
      (n : ℕ) (s : Orchestrator)
      → IsSound h s
      → size s ≤ n
      → (t : Orchestrator) × Moves (request h) s t × (work t ≡ 0)
  drains_within zero s v l = (s, still, omega arith)
  drains_within (suc n) s v l = elim (ℕ-cases (work s)) [
    | inl e ↦ (s, still, e)
    | inr (m, e) ↦
        let (t, f) = progress s v (omega arith) in
        let (u, g, z) = drains_within n t (Move-IsSound h f v) (omega (arith, Move-size f)) in
        (u, first f g, z)
  ]

  -- From a sound state the worker, which waits for a signal where it is parked, and the runs have moves
  -- that bring the outstanding work to nothing: no run is queued, none is in a goroutine and no slot is
  -- taken.
  pub drains :
      (s : Orchestrator) → IsSound h s → (t : Orchestrator) × Moves (request h) s t × (work t ≡ 0)
  drains s v = drains_within (size s) s v (omega arith)

abbrev pub move_count : {need : Allocation} {s t : Orchestrator} → Moves need s t → ℕ
move_count still = 0
move_count (first m ms) = suc (move_count ms)

-- Moves of the worker and the runs alone cannot go on for ever: there are no more of them than the
-- outstanding work, twice, and a signal allow.
pub move_count-le :
    (need : Allocation) (s t : Orchestrator) (ms : Moves need s t) → move_count ms + size t ≤ size s
move_count-le need s t still = omega arith
move_count-le need s t (first m ms) = omega (arith, Move-size m, move_count-le need _ t ms)
