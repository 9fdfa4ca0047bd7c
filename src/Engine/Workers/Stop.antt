-- ===== src/Engine/Workers/Stop.antt =====
-- Stop of go-orchestrator/internal/core/execution_engine.go behind its Close: the worker, until Next
-- returns nil, and the goroutines of runs, which Stop waits for.
use dvf.Prelude.{
  ℕ, zero, suc, ◌+◌, ◌≤◌, ◌<◌, ◌^◌, ◌≡◌, ◌⊎◌, inl, inr, refl, ◌∙◌, ap, String, List, some, [], ◌∷◌,
  Bool, true, false, if◌then◌else◌, ◌&&◌, arith, length, Bool-cases,
}
use dvf.Prelude.Int.{ℤ, pos_part}
use dvf.Types.{TestRun}
use dvf.Scheduler.{Scheduler, got, shut_down, next, close, release}
use dvf.Scheduler.Fifo.{next-got, next-shut_down, next_shut}
use dvf.Allocator.{Allocation, ResourceBudget, try_acquire}
use dvf.Allocator.Ledger.{Hold, request, Accounts}
use dvf.Engine.Workers.{
  Orchestrator, Move, dispatch, wakes, reserve, defer, abandon, finish, free, new_orchestrator,
  Reach,
}
use dvf.Engine.Workers.Sound.{count_runs, count_runs-insert, length-insert, Reach-IsSound}
use dvf.Engine.Workers.Drain.{work, release-queue, List-cases, ℕ-cases}

-- The engine behind the Close of Stop, and whether the worker still runs.
pub record Stopping : Type 0 where
  pub engine : Orchestrator
  pub working : Bool

abbrev pub stopping : Orchestrator → Stopping
stopping s = record {
  engine = record s { scheduler = record s.scheduler { closed = true } };
  working = true;
}

-- Whether a move is the worker's.
abbrev pub is_workers : {need : Allocation} {s t : Orchestrator} → Move need s t → Bool
is_workers (dispatch run t p e) = true
is_workers (wakes p q) = true
is_workers _ = false

-- One step: a run goes on, the worker takes a signal or starts a run, or it gets nil and returns. A worker
-- that waits without a signal gets nil from the closed channel at once.
pub data End (need : Allocation) (s : Stopping) : Stopping → Type 0 where
  goes_on :
      (t : Orchestrator) (m : Move need s.engine t)
      → is_workers m ≡ false
      → End need s (record s { engine = t })
  dispatches :
      (run : TestRun) (c : Scheduler)
      → s.working ≡ true
      → s.engine.parked ≡ false
      → next s.engine.scheduler ≡ (c, got run)
      → End need s (record s {
        engine = record s.engine { scheduler = c; starting = run ∷ s.engine.starting };
      })
  returns :
      (c : Scheduler)
      → s.working ≡ true
      → s.engine.parked ≡ false
      → next s.engine.scheduler ≡ (c, shut_down)
      → End need s (record { engine = record s.engine { scheduler = c }; working = false })
  takes_signal :
      s.working ≡ true
      → s.engine.parked ≡ true
      → s.engine.scheduler.signalled ≡ true
      → End need s (record s {
        engine = record s.engine {
          scheduler = record s.engine.scheduler { signalled = false };
          parked = false;
        };
      })
  gets_nil :
      s.working ≡ true
      → s.engine.parked ≡ true
      → s.engine.scheduler.signalled ≡ false
      → s.engine.scheduler.closed ≡ true
      → End need s (record { engine = record s.engine { parked = false }; working = false })

pub data Ends (need : Allocation) : Stopping → Stopping → Type 0 where
  done : {s : Stopping} → Ends need s s
  first : {s t u : Stopping} → End need s t → Ends need t u → Ends need s u

abbrev pub end_count : {need : Allocation} {s t : Stopping} → Ends need s t → ℕ
end_count done = 0
end_count (first e es) = suc (end_count es)

-- Nothing is left that Stop waits for.
pub record IsOver (s : Stopping) : Type 0 where
  pub worker : s.working ≡ false
  pub starting : s.engine.starting ≡ []
  pub holding : s.engine.holding ≡ []
  pub ending : s.engine.ending ≡ 0

abbrev size : Stopping → ℕ
size s =
    work s.engine
    + (if s.working then (if s.engine.parked && s.engine.scheduler.signalled then 2 else 1) else 0)

-- How often a name stands in all the places of runs.
abbrev placed : String → Orchestrator → ℕ
placed k s =
    count_runs k s.scheduler.queue
    + count_runs k s.starting
    + count_runs k s.holding
    + count_runs k s.deferred
    + count_runs k s.ended

record Keeps (s t : Orchestrator) : Type 0 where
  pub closed : t.scheduler.closed ≡ s.scheduler.closed
  pub places : (k : String) → placed k t ≡ placed k s

Move-Keeps : {need : Allocation} {s t : Orchestrator} → Move need s t → Keeps s t
Move-Keeps (wakes p q) = record { closed = refl; places = λ k. refl }
Move-Keeps {s} (dispatch run t p e) =
    let (q, _, _, _, c) = next-got s.scheduler t run e in
    record { closed = c; places = λ k. omega (arith, ap (count_runs k) q) }
Move-Keeps (reserve before after run b e f) = record {
  closed = refl;
  places = λ k. omega (arith, ap (count_runs k) e, count_runs-insert k before after run);
}
Move-Keeps (defer before after run b e f) = record {
  closed = refl;
  places = λ k. omega (arith, ap (count_runs k) e, count_runs-insert k before after run);
}
Move-Keeps (abandon before after run e) = record {
  closed = refl;
  places = λ k. omega (arith, ap (count_runs k) e, count_runs-insert k before after run);
}
Move-Keeps (finish before after run e) = record {
  closed = refl;
  places = λ k. omega (arith, ap (count_runs k) e, count_runs-insert k before after run);
}
Move-Keeps {s} (free n e) = record {
  closed = unfold release in ground arith;
  places = λ k. omega (arith, ap (count_runs k) (release-queue s.scheduler));
}

End-Keeps : {need : Allocation} {s t : Stopping} → End need s t → Keeps s.engine t.engine
End-Keeps (goes_on t m d) = Move-Keeps m
End-Keeps {need} {s} (dispatches run c w p e) =
    let m : Move need s.engine _ = dispatch run c p e in
    let k = Move-Keeps m in record { closed = k.closed; places = k.places }
End-Keeps {need} {s} (returns c w p e) =
    let (q, l) = next-shut_down s.engine.scheduler c e in
    record { closed = l; places = λ k. omega (arith, ap (count_runs k) q) }
End-Keeps (takes_signal w p q) = record { closed = refl; places = λ k. refl }
End-Keeps (gets_nil w p q c) = record { closed = refl; places = λ k. refl }

-- On a closed scheduler a run's move leaves the worker's signal alone.
Move-quiet :
    {need : Allocation} {s t : Orchestrator} (m : Move need s t)
    → is_workers m ≡ false
    → s.scheduler.closed ≡ true
    → (t.parked ≡ s.parked) × (t.scheduler.signalled ≡ s.scheduler.signalled) × (work t < work s)
Move-quiet (dispatch run t p e) i c = absurd (ground (arith, i))
Move-quiet (wakes p q) i c = absurd (ground (arith, i))
Move-quiet (reserve before after run b e f) i c =
    (refl, refl, omega (arith, ap length e, length-insert before after run))
Move-quiet (defer before after run b e f) i c =
    (refl, refl, omega (arith, ap length e, length-insert before after run))
Move-quiet (abandon before after run e) i c =
    (refl, refl, omega (arith, ap length e, length-insert before after run))
Move-quiet (finish before after run e) i c =
    (refl, refl, omega (arith, ap length e, length-insert before after run))
Move-quiet {s = s} (free n e) i c = (
  refl,
  unfold release in ground (arith, c),
  omega (arith, ap length (release-queue s.scheduler)),
)

End-size :
    {need : Allocation} {s t : Stopping}
    → End need s t
    → s.engine.scheduler.closed ≡ true
    → size t < size s
End-size {s = s} (goes_on t m d) c =
    let (p, q, l) = Move-quiet m d c in rw (p, q) (omega (arith, l))
End-size {need} {s} (dispatches run c w p e) o =
    let (q, _, _, _, _) = next-got s.engine.scheduler c run e in
    rw (w, p) (omega (arith, ap length q))
End-size {s = s} (returns c w p e) o =
    let (q, _) = next-shut_down s.engine.scheduler c e in rw (w, p) (omega (arith, ap length q))
End-size (takes_signal w p q) o = rw (w, p, q) (omega arith)
End-size (gets_nil w p q c) o = rw (w, p, q) (omega arith)

first_size : (b : Bool) → (if b then 2 else 1) ≤ 2
first_size true = omega arith
first_size false = omega arith

module _ (h : Hold) where
  abbrev CanEnd : Stopping → Type 0
  CanEnd s = (t : Stopping) × End (request h) s t

  -- A run that starts gets its reservation or is deferred.
  reserves :
      (s : Stopping) (run : TestRun) (rest : List TestRun)
      → s.engine.starting ≡ run ∷ rest
      → CanEnd s
  reserves s run rest e =
      let r = try_acquire (request h) s.engine.budget in
      elim (Bool-cases r.1) [
        | inl f ↦ (_, goes_on _ (reserve [] rest run (r.0) e (ap (λ ok. (r.0, ok)) f)) refl)
        | inr f ↦ (_, goes_on _ (defer [] rest run (r.0) e (ap (λ ok. (r.0, ok)) f)) refl)
      ]

  -- On a closed scheduler, where Stop still waits, something can go on.
  goes : (s : Stopping) → s.engine.scheduler.closed ≡ true → IsOver s ⊎ CanEnd s
  goes s c = elim (Bool-cases s.working) [
    | inl w ↦ elim (Bool-cases s.engine.parked) [
      | inl p ↦ elim (Bool-cases s.engine.scheduler.signalled) [
        | inl q ↦ inr (_, takes_signal w p q)
        | inr q ↦ inr (_, gets_nil w p q c)
      ]
      | inr p ↦
          let (t, o) = next_shut s.engine.scheduler c in
          elim o [
            | inl e ↦ inr (_, returns t w p e)
            | inr (run, e) ↦ inr (_, dispatches run t w p e)
          ]
    ]
    | inr w ↦ elim (ℕ-cases h s.engine.ending) [
      | inr (n, e) ↦ inr (_, goes_on _ (free n e) refl)
      | inl none_ending ↦ elim (List-cases h s.engine.holding) [
        | inr (x, rest, e) ↦ inr (_, goes_on _ (finish [] rest x e) refl)
        | inl none_holding ↦ elim (List-cases h s.engine.starting) [
          | inr (x, rest, e) ↦ inr (reserves s x rest e)
          | inl none_starting ↦ inl (record {
            worker = w;
            starting = none_starting;
            holding = none_holding;
            ending = none_ending;
          })
        ]
      ]
    ]
  ]

  finishes :
      (n : ℕ) (s : Stopping)
      → s.engine.scheduler.closed ≡ true
      → size s ≤ n
      → (t : Stopping) × Ends (request h) s t
        × IsOver t
        × ((k : String) → placed k t.engine ≡ placed k s.engine)
  finishes zero s c l = elim (goes s c) [
    | inl o ↦ (s, done, o, λ k. refl)
    | inr (t, e) ↦ absurd (omega (arith, End-size e c))
  ]
  finishes (suc n) s c l = elim (goes s c) [
    | inl o ↦ (s, done, o, λ k. refl)
    | inr (t, e) ↦
        let kept = End-Keeps e in
        let (u, es, o, p) = finishes n t (kept.closed ∙ c) (omega (arith, End-size e c)) in
        (u, first e es, o, λ k. p k ∙ kept.places k)
  ]

  ends_kept :
      {s t : Stopping} (es : Ends (request h) s t)
      → s.engine.scheduler.closed ≡ true
      → (end_count es + size t ≤ size s)
        × (t.engine.scheduler.closed ≡ s.engine.scheduler.closed)
        × ((k : String) → placed k t.engine ≡ placed k s.engine)
  ends_kept done o = (omega arith, refl, λ k. refl)
  ends_kept (first e es) o =
      let kept = End-Keeps e in
      let (n, c, p) = ends_kept es (kept.closed ∙ o) in
      (omega (arith, n, End-size e o), c ∙ kept.closed, λ k. p k ∙ kept.places k)

-- Stop does not panic in a state that the engine reaches, and it ends: whatever the worker and the runs
-- have done since its Close, they took no more steps than the outstanding work and two, and can go on to
-- a state in which the worker and every goroutine of a run have returned. Each run that was given is then
-- ended, still queued, or asleep before it is submitted again, as often as it was given.
pub stop_ends :
    (h : Hold) (max : ℤ) (b : ResourceBudget) (s : Orchestrator) (u : Stopping)
    (es : Ends (request h) (stopping s) u)
    → Accounts [] b
    → (pos_part b.total_cpus + h.cpus < 2 ^ 63) × (pos_part b.total_mem_mb + h.mem_mb < 2 ^ 63)
    → Reach (request h) (new_orchestrator max b) s
    → (close s.scheduler ≡ some (stopping s).engine.scheduler)
      × (end_count es ≤ work s + 2)
      × ((t : Stopping) × Ends (request h) u t
          × IsOver t
          × ((k : String)
              → count_runs k s.given
                ≡ count_runs k t.engine.ended
                  + count_runs k t.engine.scheduler.queue
                  + count_runs k t.engine.deferred))
unfolding close
stop_ends h max b s u es a f r =
    let v = Reach-IsSound h max b s a f r in
    let (n, c, p) = ends_kept h es refl in
    let (t, more, o, q) = finishes h (size u) u c (omega arith) in
    (
      rw (v.open_still) refl,
      omega (arith, n, first_size (s.parked && s.scheduler.signalled)),
      (
        t,
        more,
        o,
        λ k.
            omega (
              arith,
              v.whole k,
              p k,
              q k,
              ap (count_runs k) o.starting,
              ap (count_runs k) o.holding,
            ),
      ),
    )
