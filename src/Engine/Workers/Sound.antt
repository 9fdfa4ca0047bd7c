-- ===== src/Engine/Workers/Sound.antt =====
-- What holds in every state of the engine's workers (core/execution_engine.go).
use dvf.Prelude.{
  ℕ, suc, ◌+◌, ◌^◌, ◌≤◌, ◌<◌, ◌≡◌, ◌⊎◌, inl, inr, refl, sym, ◌∙◌, ap, subst, String, List, [], ◌∷◌,
  ◌++◌, some, Bool, true, false, ◌==◌, if◌then◌else◌, arith, length,
}
use dvf.Prelude.Int.{ℤ, pos_part}
use dvf.Types.{TestRun}
use dvf.Scheduler.{Scheduler, new_scheduler, enqueue, release}
use dvf.Scheduler.Fifo.{IsIdle, next-got, next-blocks}
use dvf.Allocator.{Allocation, ResourceBudget, try_acquire}
use dvf.Allocator.{release as give_back}
use dvf.Allocator.Ledger.{
  Hold, request, Accounts, NoOverflow, try_acquire-Accounts, release-Accounts,
}
use dvf.Engine.Workers.{
  Orchestrator, Move, dispatch, wakes, reserve, defer, abandon, finish, free, Step, moves, submit,
  resubmit, wait, new_orchestrator, Reach, here, later,
}

-- How often a run with a name stands in a list.
abbrev pub count_runs : String → List TestRun → ℕ
count_runs k [] = 0
count_runs k (r ∷ rs) = (if r.id == k then 1 else 0) + count_runs k rs

pub count_runs-insert :
    (k : String) (before after : List TestRun) (run : TestRun)
    → count_runs k (before ++ run ∷ after)
      ≡ (if run.id == k then 1 else 0) + count_runs k (before ++ after)
count_runs-insert k [] after run = refl
count_runs-insert k (b ∷ before) after run = omega (arith, count_runs-insert k before after run)

pub length-insert :
    (before after : List TestRun) (run : TestRun)
    → length (before ++ run ∷ after) ≡ suc (length (before ++ after))
length-insert [] after run = refl
length-insert (b ∷ before) after run = ap suc (length-insert before after run)

-- One reservation for each run that has one.
abbrev pub holds : Hold → List TestRun → List Hold
holds h [] = []
holds h (r ∷ rs) = h ∷ holds h rs

holds-append : (h : Hold) (xs ys : List TestRun) → holds h (xs ++ ys) ≡ holds h xs ++ holds h ys
holds-append h [] ys = refl
holds-append h (x ∷ xs) ys = ap (λ l. h ∷ l) (holds-append h xs ys)

-- A worker that waits without a signal could start no run. Each active slot belongs to one goroutine,
-- and no more are active than the limit allows. The reservations that are out are those of the runs that
-- hold one. Each run that was given is at one place: queued, in a goroutine, asleep before it is submitted
-- again, or ended.
pub record IsSound (h : Hold) (s : Orchestrator) : Type 0 where
  pub slots : s.scheduler.active_count ≡ length s.starting + length s.holding + s.ending
  pub capped : s.scheduler.active_count ≤ s.scheduler.max_concurrent
  pub room : 1 ≤ s.scheduler.max_concurrent
  pub open_still : s.scheduler.closed ≡ false
  pub heard : s.parked ≡ true → s.scheduler.signalled ≡ false → IsIdle s.scheduler
  pub books : Accounts (holds h s.holding) s.budget
  pub small :
      (pos_part s.budget.total_cpus + h.cpus < 2 ^ 63)
      × (pos_part s.budget.total_mem_mb + h.mem_mb < 2 ^ 63)
  pub whole :
      (k : String)
      → count_runs k s.given
        ≡ count_runs k s.scheduler.queue
          + count_runs k s.starting
          + count_runs k s.holding
          + count_runs k s.deferred
          + count_runs k s.ended

count_runs-append :
    (k : String) (xs ys : List TestRun)
    → count_runs k (xs ++ ys) ≡ count_runs k xs + count_runs k ys
count_runs-append k [] ys = omega arith
count_runs-append k (x ∷ xs) ys = omega (arith, count_runs-append k xs ys)

ruleset places = (arith, count_runs-insert, length-insert, count_runs-append)

totals_kept :
    (a : Allocation) (b : ResourceBudget)
    → ((try_acquire a b).0.total_cpus ≡ b.total_cpus)
      × ((try_acquire a b).0.total_mem_mb ≡ b.total_mem_mb)
unfolding try_acquire
totals_kept a b = ground arith

-- What TryAcquire and Release do, by the sums that fit.
acquired :
    (h : Hold) (out : List Hold) (b c : ResourceBudget) (ok : Bool)
    → Accounts out b
    → NoOverflow h out
    → try_acquire (request h) b ≡ (c, ok)
    → ((ok ≡ true) × Accounts (h ∷ out) c) ⊎ ((ok ≡ false) × (c ≡ b))
acquired h out b c ok a n e = elim (try_acquire-Accounts h out b a n) [
  | inl (t, k) ↦ inl (ap (λ p. p.1) (sym e) ∙ t, subst (λ p. Accounts (h ∷ out) (p.0)) e k)
  | inr (f, _) ↦ inr (ap (λ p. p.1) (sym e ∙ f), ap (λ p. p.0) (sym e ∙ f))
]

module _ (h : Hold) where
  small_still :
      (b c : ResourceBudget) (ok : Bool)
      → try_acquire (request h) b ≡ (c, ok)
      → (pos_part b.total_cpus + h.cpus < 2 ^ 63) × (pos_part b.total_mem_mb + h.mem_mb < 2 ^ 63)
      → (pos_part c.total_cpus + h.cpus < 2 ^ 63) × (pos_part c.total_mem_mb + h.mem_mb < 2 ^ 63)
  small_still b c ok e s =
      let p : c.total_cpus ≡ b.total_cpus =
        ap (λ r. r.0.total_cpus) (sym e) ∙ (totals_kept (request h) b).0 in
      let q : c.total_mem_mb ≡ b.total_mem_mb =
        ap (λ r. r.0.total_mem_mb) (sym e) ∙ (totals_kept (request h) b).1 in
      rw (p, q) s

  no_overflow : {s : Orchestrator} → IsSound h s → NoOverflow h (holds h s.holding)
  no_overflow v = omega (arith, v.small, v.books.cpus_fit, v.books.mem_mb_fit)

  pub Move-IsSound : {s t : Orchestrator} → Move (request h) s t → IsSound h s → IsSound h t
  Move-IsSound {s} (dispatch run t p e) v =
      let (q, l, a, m, c) = next-got s.scheduler t run e in
      record {
        slots = omega (arith, v.slots);
        capped = omega arith;
        room = omega (arith, v.room);
        open_still = c ∙ v.open_still;
        heard = λ q l. absurd (ground (arith, p, q));
        books = v.books;
        small = v.small;
        whole = λ k. omega (arith, v.whole k, ap (count_runs k) q);
      }
  Move-IsSound {s} (wakes p q) v = record {
    slots = v.slots;
    capped = v.capped;
    room = v.room;
    open_still = v.open_still;
    heard = λ q l. absurd (ground (arith, q));
    books = v.books;
    small = v.small;
    whole = v.whole;
  }
  Move-IsSound {s} (reserve before after run b e f) v = record {
    slots = omega (arith, v.slots, ap length e, length-insert before after run);
    capped = v.capped;
    room = v.room;
    open_still = v.open_still;
    heard = v.heard;
    books = elim (acquired h (holds h s.holding) s.budget b true v.books (no_overflow v) f) [
      | inl (_, a) ↦ a
      | inr (x, _) ↦ absurd (ground arith)
    ];
    small = small_still s.budget b true f v.small;
    whole =
        λ k. omega (arith, v.whole k, ap (count_runs k) e, count_runs-insert k before after run);
  }
  Move-IsSound {s} (defer before after run b e f) v = record {
    slots = omega (arith, v.slots, ap length e, length-insert before after run);
    capped = v.capped;
    room = v.room;
    open_still = v.open_still;
    heard = v.heard;
    books = elim (acquired h (holds h s.holding) s.budget b false v.books (no_overflow v) f) [
      | inl (x, _) ↦ absurd (ground arith)
      | inr (_, same) ↦ subst (Accounts (holds h s.holding)) (sym same) v.books
    ];
    small = small_still s.budget b false f v.small;
    whole =
        λ k. omega (arith, v.whole k, ap (count_runs k) e, count_runs-insert k before after run);
  }
  Move-IsSound {s} (abandon before after run e) v = record {
    slots = omega (arith, v.slots, ap length e, length-insert before after run);
    capped = v.capped;
    room = v.room;
    open_still = v.open_still;
    heard = v.heard;
    books = v.books;
    small = v.small;
    whole =
        λ k. omega (arith, v.whole k, ap (count_runs k) e, count_runs-insert k before after run);
  }
  Move-IsSound {s} (finish before after run e) v = record {
    slots = omega (arith, v.slots, ap length e, length-insert before after run);
    capped = v.capped;
    room = v.room;
    open_still = v.open_still;
    heard = v.heard;
    books =
        subst (λ l. Accounts l (give_back (request h) s.budget)) (sym (holds-append h before after))
          (release-Accounts h (holds h before) (holds h after) s.budget (
            subst (λ l. Accounts l s.budget) (ap (holds h) e ∙ holds-append h before (run ∷ after))
              v.books));
    small = unfold give_back in v.small;
    whole =
        λ k. omega (arith, v.whole k, ap (count_runs k) e, count_runs-insert k before after run);
  }
  Move-IsSound {s} (free n e) v = record {
    slots = unfold release in ground (arith, v.slots, v.open_still);
    capped = unfold release in ground (arith, v.capped, v.open_still);
    room = unfold release in ground (arith, v.room);
    open_still = unfold release in ground (arith, v.open_still);
    heard = λ p q. absurd (unfold release in ground (arith, v.open_still, q));
    books = v.books;
    small = v.small;
    whole = λ k. unfold release in ground (arith, v.whole k);
  }

  enqueued :
      (s t : Scheduler) (run : TestRun)
      → enqueue run s ≡ some t
      → (t.queue ≡ s.queue ++ run ∷ [])
        × (t.active_count ≡ s.active_count)
        × (t.max_concurrent ≡ s.max_concurrent)
        × (t.closed ≡ false)
        × (t.signalled ≡ true)
  unfolding enqueue
  enqueued s t run e = ground arith

  Step-IsSound : {s t : Orchestrator} → Step (request h) s t → IsSound h s → IsSound h t
  Step-IsSound (moves m) v = Move-IsSound m v
  Step-IsSound {s} (submit run t e) v =
      let (q, a, m, c, g) = enqueued s.scheduler t run e in
      record {
        slots = a ∙ v.slots;
        capped = omega (arith, v.capped);
        room = omega (arith, v.room);
        open_still = c;
        heard = λ p l. absurd (ground (arith, g, l));
        books = v.books;
        small = v.small;
        whole = λ k. omega (
          arith,
          v.whole k,
          ap (count_runs k) q,
          count_runs-append k s.scheduler.queue (run ∷ []),
        );
      }
  Step-IsSound {s} (resubmit before after run t p e) v =
      let (q, a, m, c, g) = enqueued s.scheduler t run e in
      record {
        slots = a ∙ v.slots;
        capped = omega (arith, v.capped);
        room = omega (arith, v.room);
        open_still = c;
        heard = λ p l. absurd (ground (arith, g, l));
        books = v.books;
        small = v.small;
        whole = λ k. omega (
          arith,
          v.whole k,
          ap (count_runs k) q,
          count_runs-append k s.scheduler.queue (run ∷ []),
          ap (count_runs k) p,
          count_runs-insert k before after run,
        );
      }
  Step-IsSound {s} (wait t p e) v =
      let (idle, same, c) = next-blocks s.scheduler (ap (λ r. r.1) e) in
      let kept : t ≡ record (s.scheduler) { signalled = false } = ap (λ r. r.0) (sym e) ∙ same in
      rw kept (record {
        slots = v.slots;
        capped = v.capped;
        room = v.room;
        open_still = v.open_still;
        heard = λ p l. idle;
        books = v.books;
        small = v.small;
        whole = v.whole;
      })

  new-IsSound :
      (max : ℤ) (b : ResourceBudget)
      → Accounts [] b
      → (pos_part b.total_cpus + h.cpus < 2 ^ 63) × (pos_part b.total_mem_mb + h.mem_mb < 2 ^ 63)
      → IsSound h (new_orchestrator max b)
  unfolding new_scheduler
  new-IsSound max b a f = record {
    slots = refl;
    capped = omega arith;
    room = ground arith;
    open_still = refl;
    heard = λ p l. absurd (ground (arith, p));
    books = a;
    small = f;
    whole = λ k. refl;
  }

  -- From a new scheduler and an unused allocator whose totals leave room for one more reservation in 64
  -- bits, every sequence of steps of the worker, the runs, the submissions and the timers leads to a
  -- sound state: a worker that waits without a signal could start no run, each active slot belongs to one
  -- goroutine and no more are active than the limit, the reservations that are out are those of the runs
  -- that hold one, and each submitted run is at one place, neither lost nor run twice.
  pub Reach-IsSound :
      (max : ℤ) (b : ResourceBudget) (s : Orchestrator)
      → Accounts [] b
      → (pos_part b.total_cpus + h.cpus < 2 ^ 63) × (pos_part b.total_mem_mb + h.mem_mb < 2 ^ 63)
      → Reach (request h) (new_orchestrator max b) s
      → IsSound h s
  Reach-IsSound max b s a f here = new-IsSound max b a f
  Reach-IsSound max b s a f (later r st) = Step-IsSound st (Reach-IsSound max b _ a f r)
