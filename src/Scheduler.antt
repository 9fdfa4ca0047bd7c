-- ===== src/Scheduler.antt =====
-- The FIFO scheduler with a concurrency limit of go-orchestrator/internal/core/scheduler.go. Each
-- method is atomic under its mutex; `notify` is a channel with room for one signal. The counts stay
-- between 0 and `max_concurrent`, so they do not wrap. `none` is a panic.
pub mod Fifo
mod Tests
use dvf.Prelude.{
  ℕ, zero, suc, ◌+◌, ◌-◌, List, [], ◌∷◌, ◌++◌, Option, none, some, Bool, true, false, if◌then◌else◌,
  ltb, length,
}
use dvf.Prelude.Int.{ℤ, pos, negsuc}
use dvf.Types.{TestRun}

pub record Scheduler : Type 0 where
  pub max_concurrent : ℕ
  pub active_count : ℕ
  pub queue : List TestRun
  pub signalled : Bool
  pub closed : Bool

-- NewScheduler
abbrev limit_of : ℤ → ℕ
limit_of (pos zero) = 1
limit_of (pos (suc n)) = suc n
limit_of (negsuc n) = 1

unfoldable pub new_scheduler : ℤ → Scheduler
new_scheduler max = record {
  max_concurrent = limit_of max;
  active_count = 0;
  queue = [];
  signalled = false;
  closed = false;
}

-- A send on `notify` that drops the signal where one waits already. It panics on a closed channel.
unfoldable pub signal : Scheduler → Option Scheduler
signal s = if s.closed then none else some (record s { signalled = true })

-- Enqueue
unfoldable pub enqueue : TestRun → Scheduler → Option Scheduler
unfolding signal
enqueue run s = signal (record s { queue = s.queue ++ run ∷ [] })

take : List TestRun → Scheduler → Scheduler × Option TestRun
take [] s = (s, none)
take (run ∷ rest) s =
    if ltb s.active_count s.max_concurrent
    then (record s { queue = rest; active_count = s.active_count + 1 }, some run)
    else (s, none)

-- TryNext, and the guarded part of Next.
unfoldable pub try_next : Scheduler → Scheduler × Option TestRun
unfolding take
try_next s = take s.queue s

pub data NextResult : Type 0 where
  got : TestRun → NextResult
  shut_down : NextResult
  blocks : NextResult
  out_of_fuel : NextResult

serve : Scheduler × NextResult → Scheduler → Scheduler × Option TestRun → Scheduler × NextResult
serve again s (t, some run) = (t, got run)
serve again s (t, none) = if s.signalled then again else (s, if s.closed then shut_down else blocks)

-- The loop of Next, up to where it would wait for another goroutine. A signal that is there is
-- consumed and sends the loop round again.
unfoldable pub next_loop : ℕ → Scheduler → Scheduler × NextResult
unfolding serve try_next
next_loop zero s = (s, out_of_fuel)
next_loop (suc fuel) s = serve (next_loop fuel (record s { signalled = false })) s (try_next s)

-- Next. There is at most one signal, so two rounds are enough.
unfoldable pub next : Scheduler → Scheduler × NextResult
unfolding next_loop
next s = next_loop 2 s

-- Release. Its `recover` swallows the panic of a send on a closed channel.
unfoldable pub release : Scheduler → Scheduler
release s =
    let t = record s {
      active_count = if ltb 0 s.active_count then s.active_count - 1 else s.active_count;
    } in
    if s.closed then t else record t { signalled = true }

-- QueueLen and ActiveCount
unfoldable pub queue_len : Scheduler → ℕ
queue_len s = length s.queue

unfoldable pub active : Scheduler → ℕ
active s = s.active_count

-- Close. Closing twice panics.
unfoldable pub close : Scheduler → Option Scheduler
close s = if s.closed then none else some (record s { closed = true })
