-- ===== src/Agents.antt =====
-- AgentCoordinator of go-orchestrator/internal/core/agent_state.go: for each machine a queue of commands
-- to its agent, and for each command that waits a channel for its result. Agent states and result
-- channels are shared objects, so they have addresses: a caller that has looked one up keeps it, also
-- where the map no longer has it. Each function is what runs under a lock, or one channel operation.
pub mod System
pub mod Routes
pub mod Routing
pub mod Exchange
pub mod Guests
mod Tests
use dvf.Prelude.{
  ℕ, zero, suc, ◌+◌, String, List, [], ◌∷◌, ◌++◌, Option, none, some, Bool, true, false,
  if◌then◌else◌, length, ltb, eqb,
}
use dvf.Prelude.Dict.{Dict, insert, erase, empty}
use dvf.Engine.Host.{AgentCommand, AgentResult}

pub record AgentState : Type 0 where
  pub vm_id : String
  pub agent_id : String
  pub is_ready : Bool  -- the channel `ready` is closed
  pub commands : List AgentCommand
  pub closed : Bool  -- the channel `commands` is closed
  pub result_waiters : Dict ℕ

-- The channels for results have room for one.
pub record Coordinator : Type 0 where
  pub agents : Dict ℕ
  pub states : ℕ → AgentState
  pub channels : ℕ → Option AgentResult
  pub unused : ℕ

abbrev pub put {ℓ} : {A : Type ℓ} → (ℕ → A) → ℕ → A → ℕ → A
put f i a j = if eqb i j then a else f j

abbrev pub blank : AgentState
blank = record {
  vm_id = "";
  agent_id = "";
  is_ready = false;
  commands = [];
  closed = true;
  result_waiters = empty;
}

-- NewAgentCoordinator
abbrev pub new_coordinator : Coordinator
new_coordinator = record { agents = empty; states = λ _. blank; channels = λ _. none; unused = 0 }

abbrev pub set_state : ℕ → AgentState → Coordinator → Coordinator
set_state a s c = record c { states = put c.states a s }

-- RegisterVM
unfoldable pub register_vm : String → Coordinator → Coordinator
register_vm vm c = record c {
  agents = insert vm c.unused c.agents;
  states = put c.states c.unused (record blank { vm_id = vm; closed = false });
  unused = suc c.unused;
}

-- Closing a closed channel panics.
close_commands : String → ℕ → Coordinator → Option Coordinator
close_commands vm a c =
    if (c.states a).closed
    then none
    else some (record c {
      states = put c.states a (record (c.states a) { closed = true });
      agents = erase vm c.agents;
    })

unregister_at : String → Coordinator → Option ℕ → Option Coordinator
unfolding close_commands
unregister_at vm c none = some c
unregister_at vm c (some a) = close_commands vm a c

-- UnregisterVM
unfoldable pub unregister_vm : String → Coordinator → Option Coordinator
unfolding unregister_at
unregister_vm vm c = unregister_at vm c (c.agents.get vm)

notify_at : String → Coordinator → Option ℕ → Option Coordinator
notify_at agent c none = none
notify_at agent c (some a) =
    some (set_state a (record (c.states a) { agent_id = agent; is_ready = true }) c)

-- NotifyAgentReady; `none` is its error.
unfoldable pub notify_agent_ready : String → String → Coordinator → Option Coordinator
unfolding notify_at
notify_agent_ready vm agent c = notify_at agent c (c.agents.get vm)

-- WaitForAgent, at one moment: an error, done, or still waiting.
pub data Wait : Type 0 where
  no_agent is_here not_yet : Wait

wait_at : Coordinator → Option ℕ → Wait
wait_at c none = no_agent
wait_at c (some a) = if (c.states a).is_ready then is_here else not_yet

unfoldable pub wait_for_agent : String → Coordinator → Wait
unfolding wait_at
wait_for_agent vm c = wait_at c (c.agents.get vm)

-- A call of SendCommand that has its waiter: the agent state, the channel and the command.
pub record Sender : Type 0 where
  pub agent : ℕ
  pub channel : ℕ
  pub command : AgentCommand

open_at : AgentCommand → Coordinator → Option ℕ → Option (Sender × Coordinator)
open_at cmd c none = none
open_at cmd c (some a) =
    let s = c.states a in
    some (
      record { agent = a; channel = c.unused; command = cmd },
      record c {
        states =
            put c.states a (record s { result_waiters = insert cmd.id c.unused s.result_waiters });
        channels = put c.channels c.unused none;
        unused = suc c.unused;
      },
    )

-- SendCommand up to its waiter; `none` is the error of an unknown machine.
unfoldable pub open_waiter : String → AgentCommand → Coordinator → Option (Sender × Coordinator)
unfolding open_at
open_waiter vm cmd c = open_at cmd c (c.agents.get vm)

pub data Push : Type 0 where
  pushed : Coordinator → Push
  is_full panics : Push

-- The send on the channel of commands, which has room for 16.
unfoldable pub push : Sender → Coordinator → Push
push s c =
    let state = c.states s.agent in
    if state.closed
    then panics
    else if ltb (length state.commands) 16
    then pushed (set_state s.agent (record state { commands = state.commands ++ s.command ∷ [] }) c)
    else is_full

-- The deferred deletion of the waiter.
unfoldable pub close_waiter : Sender → Coordinator → Coordinator
close_waiter s c =
    let state = c.states s.agent in
    set_state s.agent (record state { result_waiters = erase s.command.id state.result_waiters }) c

collect_at : Sender → Coordinator → Option AgentResult → Option (AgentResult × Coordinator)
unfolding close_waiter
collect_at s c none = none
collect_at s c (some r) =
    some (r, close_waiter s (record c { channels = put c.channels s.channel none }))

-- The end of SendCommand with a result; `none` is that there is none yet.
unfoldable pub collect : Sender → Coordinator → Option (AgentResult × Coordinator)
unfolding collect_at
collect s c = collect_at s c (c.channels s.channel)

pub data Polled : Type 0 where
  unknown_vm is_closed is_empty : Polled
  polled : AgentCommand → Coordinator → Polled

poll_from : ℕ → AgentState → Coordinator → List AgentCommand → Polled
poll_from a s c [] = if s.closed then is_closed else is_empty
poll_from a s c (cmd ∷ rest) = polled cmd (set_state a (record s { commands = rest }) c)

-- The receive of GetNextCommand by a caller that has the agent state.
unfoldable pub poll_at : ℕ → Coordinator → Polled
unfolding poll_from
poll_at a c = poll_from a (c.states a) c (c.states a).commands

poll_of : Coordinator → Option ℕ → Polled
unfolding poll_at
poll_of c none = unknown_vm
poll_of c (some a) = poll_at a c

-- GetNextCommand
unfoldable pub get_next_command : String → Coordinator → Polled
unfolding poll_of
get_next_command vm c = poll_of c (c.agents.get vm)

waiter_of : AgentResult → Coordinator → Option ℕ → Option ℕ
waiter_of r c none = none
waiter_of r c (some a) = (c.states a).result_waiters.get r.command_id

-- DeliverResult up to the channel of the waiter; `none` is one of its two errors.
unfoldable pub find_waiter : String → AgentResult → Coordinator → Option ℕ
unfolding waiter_of
find_waiter vm r c = waiter_of r c (c.agents.get vm)

offer_to : ℕ → AgentResult → Coordinator → Option AgentResult → Option Coordinator
offer_to ch r c none = some (record c { channels = put c.channels ch (some r) })
offer_to ch r c (some _) = none

-- The send to the waiter; `none` is that the channel is full, which times out after five seconds.
unfoldable pub offer : ℕ → AgentResult → Coordinator → Option Coordinator
unfolding offer_to
offer ch r c = offer_to ch r c (c.channels ch)
