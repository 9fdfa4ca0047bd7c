-- ===== src/Agents/Guests/Pump.antt =====
-- commandPump of go-orchestrator/internal/vm/virtio_serial.go, between the calls of the coordinator that
-- run at the same time: the goroutine that takes the commands for one machine and writes them on the
-- line of its agent. Whether a write succeeds is the line's choice.
pub mod Queue
pub mod Order
mod Tests
use dvf.Prelude.{
  ℕ, String, List, [], ◌∷◌, ◌++◌, Option, none, some, Bool, true, false, ◌==◌, eqb, if◌then◌else◌,
  ◌≡◌,
}
use dvf.Engine.Host.{AgentCommand}
use dvf.Agents.{Coordinator, Sender, Polled, unknown_vm, is_closed, is_empty, polled, poll_at}
use dvf.Agents.System as System
use dvf.Agents.System.{Callers, pushes, polls, registers}

-- The message that carries a command; its "msg" is "command".
pub record CommandMessage : Type 0 where
  pub command_id : String
  pub cmd : String
  pub params : List (String × String)

unfoldable pub command_message : AgentCommand → CommandMessage
command_message c = record { command_id = c.id; cmd = c.kind; params = c.parameters }

-- A pump is about to call GetNextCommand, waits in it for a command of the agent state that it has looked
-- up, has a command to write, has returned, or has returned on an error of the write.
pub data Pump : Type 0 where
  waits returned : Pump
  asks : ℕ → Pump
  has failed : AgentCommand → Pump

-- The lookup of GetNextCommand.
unfoldable pub looked_up : Option ℕ → Pump
looked_up none = returned
looked_up (some a) = asks a

-- What its receive gives to the loop; `none` is that it waits.
unfoldable pub received : Coordinator → Polled → Option (Pump × Coordinator)
received c unknown_vm = some (returned, c)
received c is_closed = some (returned, c)
received c is_empty = none
received c (polled cmd d) = some (has cmd, d)

-- The write of a command, and the messages that the line has carried.
unfoldable pub encode : Bool → AgentCommand → List CommandMessage → Pump × List CommandMessage
unfolding command_message
encode true cmd written = (waits, written ++ command_message cmd ∷ [])
encode false cmd written = (failed cmd, written)

-- The callers of the coordinator with one pump, and the commands that calls of SendCommand have put in
-- the queue of its machine.
pub record Session : Type 0 where
  pub callers : Callers
  pub accepted : List AgentCommand
  pub pump : Pump
  pub written : List CommandMessage

-- The command that the pump has taken and not written.
abbrev pub in_hand : Pump → List AgentCommand
in_hand waits = []
in_hand returned = []
in_hand (asks b) = []
in_hand (has cmd) = cmd ∷ []
in_hand (failed cmd) = cmd ∷ []

abbrev pub queue_of : ℕ → Session → List AgentCommand
queue_of a s = (s.callers.coordinator.states a).commands

-- A pump that starts.
abbrev pub begins : ℕ → Callers → Session
begins a s = record {
  callers = s;
  accepted = (s.coordinator.states a).commands;
  pump = waits;
  written = [];
}

-- What a step of another caller puts in the queue at an address.
abbrev pub accepted_by : ℕ → {s t : Callers} → System.Step s t → List AgentCommand
accepted_by a (pushes before after call c e f) = if eqb call.agent a then call.command ∷ [] else []
accepted_by a _ = []

-- Whether a step of another caller takes a command from the queue at an address, or makes a new queue
-- for a machine.
abbrev pub takes_from : ℕ → {s t : Callers} → System.Step s t → Bool
takes_from a (polls b cmd c e) = eqb b a
takes_from a _ = false

abbrev pub renews : String → {s t : Callers} → System.Step s t → Bool
renews vm (registers w) = w == vm
renews vm _ = false

-- One step of another caller or of the pump, whose GetNextCommand looks the agent state up and then waits
-- on its queue. No other caller takes commands from the queue at the address, and none registers the
-- machine again.
pub data Step (vm : String) (a : ℕ) (s : Session) : Session → Type 0 where
  calls :
      (t : Callers) (st : System.Step s.callers t)
      → takes_from a st ≡ false
      → renews vm st ≡ false
      → Step vm a s (record s { callers = t; accepted = s.accepted ++ accepted_by a st })
  looks_up :
      s.pump ≡ waits
      → Step vm a s (record s { pump = looked_up (s.callers.coordinator.agents.get vm) })
  takes :
      (b : ℕ) (p : Pump) (c : Coordinator)
      → s.pump ≡ asks b
      → received s.callers.coordinator (poll_at b s.callers.coordinator) ≡ some (p, c)
      → Step vm a s (record s { callers = record s.callers { coordinator = c }; pump = p })
  is_cancelled : (b : ℕ) → s.pump ≡ asks b → Step vm a s (record s { pump = returned })
  writes :
      (ok : Bool) (cmd : AgentCommand)
      → s.pump ≡ has cmd
      → Step vm a s
          (record s { pump = (encode ok cmd s.written).0; written = (encode ok cmd s.written).1 })

pub data Reach (vm : String) (a : ℕ) (s : Session) : Session → Type 0 where
  here : Reach vm a s s
  later : {t u : Session} → Reach vm a s t → Step vm a t u → Reach vm a s u
