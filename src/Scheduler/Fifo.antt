-- ===== src/Scheduler/Fifo.antt =====
-- The scheduler (core/scheduler.go) against a queue and a count of slots.
use mathlib.Core.List.{append_assoc}
use dvf.Prelude.{
  ◌+◌, ◌≤◌, ◌<◌, ◌≡◌, ◌⊎◌, inl, inr, refl, sym, ◌∙◌, ap, List, [], ◌∷◌, ◌++◌, Option, none, some,
  Bool, true, false, if◌then◌else◌, ltb, arith, Bool-cases,
}
use dvf.Prelude.Int.{ℤ}
use dvf.Prelude.Panic.{◌>>=◌}
use dvf.Types.{TestRun}
use dvf.Scheduler.{
  Scheduler, NextResult, got, shut_down, blocks, out_of_fuel, new_scheduler, enqueue, next,
  next_loop, release, close, take, serve,
}

-- The calls of the other components, in the order in which they take the mutex.
pub data Call : Type 0 where
  enqueues : TestRun → Call
  asks releases closes : Call

-- A scheduler with the runs that it was given and that it has handed out so far, oldest first.
pub record History : Type 0 where
  pub scheduler : Scheduler
  pub given : List TestRun
  pub handed : List TestRun

after_next : History → Scheduler × NextResult → Option History
after_next h (s, got run) = some (record h { scheduler = s; handed = h.handed ++ run ∷ [] })
after_next h (s, shut_down) = some (record h { scheduler = s })
after_next h (s, blocks) = some (record h { scheduler = s })
after_next h (s, out_of_fuel) = none

after_enqueue : TestRun → History → Option Scheduler → Option History
after_enqueue run h none = none
after_enqueue run h (some s) = some (record h { scheduler = s; given = h.given ++ run ∷ [] })

after_close : History → Option Scheduler → Option History
after_close h none = none
after_close h (some s) = some (record h { scheduler = s })

-- One call; `none` is a panic.
unfoldable pub call : Call → History → Option History
unfolding after_next after_enqueue after_close
call (enqueues run) h = after_enqueue run h (enqueue run h.scheduler)
call asks h = after_next h (next h.scheduler)
call releases h = some (record h { scheduler = release h.scheduler })
call closes h = after_close h (close h.scheduler)

-- The runs are handed out in the order in which they were given, none is lost or made up, and no
-- more are active than the limit allows.
pub record IsFifo (h : History) : Type 0 where
  pub order : h.handed ++ h.scheduler.queue ≡ h.given
  pub capped : h.scheduler.active_count ≤ h.scheduler.max_concurrent

-- No run can start.
abbrev pub IsIdle : Scheduler → Type 0
IsIdle s = (s.queue ≡ []) ⊎ (s.max_concurrent ≤ s.active_count)

take_cases :
    (q : List TestRun) (s : Scheduler)
    → ((q ≡ []) ⊎ (s.max_concurrent ≤ s.active_count))
      ⊎ ((run : TestRun) × (rest : List TestRun) × (q ≡ run ∷ rest)
          × (s.active_count < s.max_concurrent)
          × (take q s ≡ (record s { queue = rest; active_count = s.active_count + 1 }, some run)))
unfolding take
take_cases [] s = inl (inl refl)
take_cases (run ∷ rest) s = elim (Bool-cases (ltb s.active_count s.max_concurrent)) [
  | inl e ↦ inr (run, rest, refl, ground arith, rw e)
  | inr e ↦ inl (inr (ground arith))
]

take_idle :
    (q : List TestRun) (s : Scheduler)
    → (q ≡ []) ⊎ (s.max_concurrent ≤ s.active_count)
    → take q s ≡ (s, none)
unfolding take
take_idle [] s i = refl
take_idle (run ∷ rest) s i = ground arith

-- The end of a call that starts nothing.
abbrev waits : Scheduler → NextResult
waits s = if s.closed then shut_down else blocks

module _ (s : Scheduler) where
  next_idle : IsIdle s → next s ≡ (record s { signalled = false }, waits s)
  unfolding next
  next_idle i =
      ap (serve (next_loop 1 (record s { signalled = false })) s) (take_idle s.queue s i)
      ∙ again s.signalled refl
    where
      idle_again :
          next_loop 1 (record s { signalled = false }) ≡ (record s { signalled = false }, waits s)
      idle_again =
          ap (serve (next_loop 0 (record s { signalled = false })) (record s { signalled = false }))
            (take_idle s.queue (record s { signalled = false }) i)

      again :
          (b : Bool)
          → s.signalled ≡ b
          → (if s.signalled then next_loop 1 (record s { signalled = false }) else (s, waits s))
            ≡ (record s { signalled = false }, waits s)
      again true e = rw e idle_again
      again false e = ground arith

  next_got :
      (run : TestRun) (t : Scheduler) → take s.queue s ≡ (t, some run) → next s ≡ (t, got run)
  unfolding next
  next_got run t e = ap (serve (next_loop 1 (record s { signalled = false })) s) e

-- Next waits only where no run could start, after it has consumed the signal, with the channel open.
pub next-blocks :
    (s : Scheduler)
    → (next s).1 ≡ blocks
    → IsIdle s × ((next s).0 ≡ record s { signalled = false }) × (s.closed ≡ false)
next-blocks s e = elim (take_cases s.queue s) [
  | inl i ↦
      (i, ap (λ (r : Scheduler × NextResult). r.0) (next_idle s i), ground (arith, next_idle s i))
  | inr (run, rest, p, q, f) ↦ absurd (ground (arith, next_got s run _ f))
]

after_end :
    (h : History) (s : Scheduler) (b : Bool)
    → after_next h (s, if b then shut_down else blocks) ≡ some (record h { scheduler = s })
unfolding after_next
after_end h s true = refl
after_end h s false = refl

next-IsFifo : (h : History) → IsFifo h → (t : History) × (call asks h ≡ some t) × IsFifo t
unfolding call
next-IsFifo h f = elim (take_cases h.scheduler.queue h.scheduler) [
  | inl i ↦
      let s = record (h.scheduler) { signalled = false } in
      (
        record h { scheduler = s },
        ap (after_next h) (next_idle h.scheduler i) ∙ after_end h s h.scheduler.closed,
        record { order = f.order; capped = f.capped },
      )
  | inr (run, rest, p, q, e) ↦ (
    record h {
      scheduler = record (h.scheduler) {
        queue = rest;
        active_count = h.scheduler.active_count + 1;
      };
      handed = h.handed ++ run ∷ [];
    },
    ap (after_next h) (next_got h.scheduler run _ e),
    record {
      order = append_assoc h.handed (run ∷ []) rest ∙ ap (λ q. h.handed ++ q) (sym p) ∙ f.order;
      capped = omega arith;
    },
  )
]

enqueue-IsFifo :
    (run : TestRun) (h : History)
    → h.scheduler.closed ≡ false
    → IsFifo h
    → (t : History) × (call (enqueues run) h ≡ some t) × (t.scheduler.closed ≡ false) × IsFifo t
unfolding call enqueue
enqueue-IsFifo run h o f = (
  record h {
    scheduler = record (h.scheduler) { queue = h.scheduler.queue ++ run ∷ []; signalled = true };
    given = h.given ++ run ∷ [];
  },
  ground arith,
  o,
  record {
    order =
        sym (append_assoc h.handed h.scheduler.queue (run ∷ [])) ∙ ap (λ q. q ++ run ∷ []) f.order;
    capped = f.capped;
  },
)

release-IsFifo : (h : History) → IsFifo h → IsFifo (record h { scheduler = release h.scheduler })
unfolding release
release-IsFifo h f = ground arith

pub next_closed : (s : Scheduler) → (next s).0.closed ≡ s.closed
next_closed s = elim (take_cases s.queue s) [
  | inl i ↦ ap (λ (r : Scheduler × NextResult). r.0.closed) (next_idle s i)
  | inr (run, rest, p, q, e) ↦ ap (λ (r : Scheduler × NextResult). r.0.closed) (next_got s run _ e)
]

closed_after :
    (h t : History) (r : Scheduler × NextResult)
    → after_next h r ≡ some t
    → t.scheduler.closed ≡ r.0.closed
unfolding after_next
closed_after h t (s, got run) e = ground arith
closed_after h t (s, shut_down) e = ground arith
closed_after h t (s, blocks) e = ground arith
closed_after h t (s, out_of_fuel) e = ground arith

-- A sequence of calls.
pub run : List Call → History → Option History
run [] h = some h
run (c ∷ cs) h = call c h >>= run cs

-- No call is a Close.
abbrev pub NoClose : List Call → Type 0
NoClose [] = Unit {0}
NoClose (closes ∷ cs) = ⊥
NoClose (_ ∷ cs) = NoClose cs

pub run-IsFifo :
    (cs : List Call) (h : History)
    → NoClose cs
    → h.scheduler.closed ≡ false
    → IsFifo h
    → (t : History) × (run cs h ≡ some t) × IsFifo t
unfolding run call
run-IsFifo [] h n o f = (h, refl, f)
run-IsFifo (enqueues x ∷ cs) h n o f =
    let (t, e, o', f') = enqueue-IsFifo x h o f in
    let (u, e', g) = run-IsFifo cs t n o' f' in
    (u, ap (λ (m : Option History). m >>= run cs) e ∙ e', g)
run-IsFifo (asks ∷ cs) h n o f =
    let (t, e, f') = next-IsFifo h f in
    let o' : t.scheduler.closed ≡ false =
      closed_after h t (next h.scheduler) (unfold call in e) ∙ next_closed h.scheduler ∙ o in
    let (u, e', g) = run-IsFifo cs t n o' f' in
    (u, ap (λ (m : Option History). m >>= run cs) e ∙ e', g)
run-IsFifo (releases ∷ cs) h n o f =
    run-IsFifo cs (record h { scheduler = release h.scheduler }) n (unfold release in ground arith)
      (release-IsFifo h f)
run-IsFifo (closes ∷ cs) h n o f = absurd n

abbrev pub start : ℤ → History
start max = record { scheduler = new_scheduler max; given = []; handed = [] }

-- After a Close an Enqueue panics.
pub enqueue_closed : (s t : Scheduler) (x : TestRun) → close s ≡ some t → enqueue x t ≡ none
unfolding close enqueue
enqueue_closed s t x e = ground arith

-- What a run handed out by Next leaves of the scheduler.
pub next-got :
    (s t : Scheduler) (run : TestRun)
    → next s ≡ (t, got run)
    → (s.queue ≡ run ∷ t.queue)
      × (s.active_count < s.max_concurrent)
      × (t.active_count ≡ s.active_count + 1)
      × (t.max_concurrent ≡ s.max_concurrent)
      × (t.closed ≡ s.closed)
next-got s t run e = elim (take_cases s.queue s) [
  | inl i ↦ absurd (ground (arith, next_idle s i, e))
  | inr (other, rest, p, q, f) ↦ ground (arith, next_got s other _ f, e, p, q)
]

-- Next hands out a run where one is queued and a slot is free.
pub next_ready :
    (s : Scheduler) (run : TestRun) (rest : List TestRun)
    → s.queue ≡ run ∷ rest
    → s.active_count < s.max_concurrent
    → (t : Scheduler) × (next s ≡ (t, got run))
next_ready s run rest p l = elim (take_cases s.queue s) [
  | inl (inl e) ↦ absurd (ground (arith, e, p))
  | inl (inr e) ↦ absurd (omega arith)
  | inr (other, others, q, _, f) ↦ (
    _,
    next_got s other _ f
        ∙ ap (λ r. (record s { queue = others; active_count = s.active_count + 1 }, got r))
            (ground (arith, p, q)),
  )
]

-- On a closed scheduler Next gives a run or nil; it does not wait.
pub next_shut :
    (s : Scheduler)
    → s.closed ≡ true
    → (t : Scheduler) × ((next s ≡ (t, shut_down)) ⊎ ((run : TestRun) × (next s ≡ (t, got run))))
next_shut s c = elim (take_cases s.queue s) [
  | inl i ↦ (
    _,
    inl (
        next_idle s i
        ∙ ap (λ b. (record s { signalled = false }, if b then shut_down else blocks)) c),
  )
  | inr (run, rest, p, q, e) ↦ (_, inr (run, next_got s run _ e))
]

pub next-shut_down :
    (s t : Scheduler) → next s ≡ (t, shut_down) → (t.queue ≡ s.queue) × (t.closed ≡ s.closed)
next-shut_down s t e = elim (take_cases s.queue s) [
  | inl i ↦
      let same = ap (λ (r : Scheduler × NextResult). r.0) (sym e ∙ next_idle s i) in
      (ap (λ (r : Scheduler). r.queue) same, ap (λ (r : Scheduler). r.closed) same)
  | inr (run, rest, p, q, f) ↦ absurd (ground (arith, next_got s run _ f, e))
]
