-- ===== src/Agents/Guests.antt =====
-- The two ways in which a guest agent reaches the coordinator: AgentServer of
-- go-orchestrator/internal/api/agent_server.go, which agents call, and VirtioSerialHub of
-- vm/virtio_serial.go, which reads their messages from a socket. A decoded message is a map of JSON
-- values. Logging is left out.
pub mod Delivery
pub mod Pump
mod Tests
use Prim.Native.String.{len, slice}
use dvf.Prelude.{
  ℕ, suc, ◌+◌, String, List, [], ◌∷◌, Option, none, some, Bool, true, false, ◌&&◌, ◌||◌, ◌==◌, ltb,
  if◌then◌else◌,
}
use dvf.Prelude.Int.{ℤ, pos}
use dvf.Prelude.Dict.{Dict, insert, erase, empty, is_some}
use dvf.Types.{VmStatus, ready}
use dvf.Engine.Host.{Answer, gives, refuses, AgentResult}
use dvf.Engine.Execute.{text}
use dvf.Agents.{Coordinator, notify_agent_ready, find_waiter, offer, Polled, get_next_command}

-- DeliverResult at one moment; `none` is an error, or a channel that is still full.
abbrev deliver_to : AgentResult → Coordinator → Option ℕ → Option Coordinator
deliver_to r c none = none
deliver_to r c (some channel) = offer channel r c

unfoldable pub deliver_result : String → AgentResult → Coordinator → Option Coordinator
deliver_result vm r c = deliver_to r c (find_waiter vm r c)

abbrev pub or_unchanged : Coordinator → Option Coordinator → Coordinator
or_unchanged c none = c
or_unchanged c (some d) = d

unfoldable pub agent_id_of : String → String
agent_id_of vm = text "agent-" vm

-- The machine of an agent's id.
unfoldable pub vm_of : String → String
vm_of agent =
    if ltb 6 (len agent) && slice agent 0 6 == "agent-" then slice agent 6 (len agent) else agent

pub record RegisterAgentResponse : Type 0 where
  pub agent_id : String
  pub heartbeat_interval_seconds : ℤ
  pub status : String

pub record ReportResultRequest : Type 0 where
  pub agent_id : String
  pub command_id : String
  pub status : String
  pub output : String
  pub logs : String
  pub duration_ms : ℤ

pub record ReportResultResponse : Type 0 where
  pub acknowledged : Bool
  pub next_action : String

abbrev pub result_of : ReportResultRequest → AgentResult
result_of req = record {
  command_id = req.command_id;
  status = req.status;
  output = req.output;
  logs = req.logs;
  duration_ms = req.duration_ms;
}

-- The store's UpdateVMStatus, whose error is ignored, is an argument.
module _ {S : Type 0} (update : String → VmStatus → S → S) where
  abbrev registered_with :
      String
      → String
      → Coordinator × S
      → Option Coordinator
      → (Coordinator × S) × Answer RegisterAgentResponse
  registered_with vm agent s none = (s, refuses "VM not registered")
  registered_with vm agent (c, s) (some d) = (
    (d, update vm ready s),
    gives (record { agent_id = agent; heartbeat_interval_seconds = pos 5; status = "ok" }),
  )

  -- RegisterAgent
  unfoldable pub register_agent :
      String → Coordinator × S → (Coordinator × S) × Answer RegisterAgentResponse
  register_agent vm s =
      if vm == ""
      then (s, refuses "vm_id is required")
      else registered_with vm (agent_id_of vm) s (notify_agent_ready vm (agent_id_of vm) s.0)

-- GetCommand up to the wait; `none` is the error of a missing id.
unfoldable pub get_command : String → Coordinator → Option Polled
get_command vm c = if vm == "" then none else some (get_next_command vm c)

-- ReportResult; an error of DeliverResult is ignored.
unfoldable pub report_result :
    ReportResultRequest → Coordinator → Coordinator × Answer ReportResultResponse
report_result req c =
    if req.agent_id == "" || req.command_id == ""
    then (c, refuses "agent_id and command_id are required")
    else (
      or_unchanged c (deliver_result (vm_of req.agent_id) (result_of req) c),
      gives (record { acknowledged = true; next_action = "continue" }),
    )

-- A JSON value of a message: a text, a number as Go's int64 of it, or anything else.
pub data Json : Type 0 where
  text_value : String → Json
  number_value : ℤ → Json
  other_value : Json

abbrev text_of : Option Json → String
text_of (some (text_value s)) = s
text_of _ = ""

abbrev number_of : Option Json → ℤ
number_of (some (number_value n)) = n
number_of _ = pos 0

abbrev pub str_val : Dict Json → String → String
str_val m key = text_of (m.get key)

abbrev pub int64_val : Dict Json → String → ℤ
int64_val m key = number_of (m.get key)

abbrev pub serial_result : Dict Json → AgentResult
serial_result m = record {
  command_id = str_val m "command_id";
  status = str_val m "status";
  output = str_val m "output";
  logs = str_val m "logs";
  duration_ms = int64_val m "duration_ms";
}

-- What one connection of the hub does to the coordinator, the acknowledgements that it sent and the
-- number of command pumps that it started.
pub record Line : Type 0 where
  pub coordinator : Coordinator
  pub acks : List String
  pub pumps : ℕ

-- One message in the loop of serveVM. A message "log", "heartbeat" or any other changes nothing.
unfoldable pub serve_message : String → Dict Json → Line → Line
serve_message vm m l =
    if str_val m "msg" == "register"
    then record {
      coordinator =
          or_unchanged l.coordinator (notify_agent_ready vm (agent_id_of vm) l.coordinator);
      acks = agent_id_of vm ∷ l.acks;
      pumps = suc l.pumps;
    }
    else if str_val m "msg" == "result"
    then record l {
      coordinator = or_unchanged l.coordinator (deliver_result vm (serial_result m) l.coordinator);
    }
    else l

-- A line that the loop scans: whether the context is done by then, and the message, if it decodes.
pub record Scanned : Type 0 where
  pub is_done : Bool
  pub message : Option (Dict Json)

abbrev pub serve_decoded : String → Option (Dict Json) → Line → Line
serve_decoded vm none l = l
serve_decoded vm (some m) l = serve_message vm m l

-- The loop of serveVM over the lines of the connection, until its end or the end of the context.
unfoldable pub serve_vm : String → List Scanned → Line → Line
serve_vm vm [] l = l
serve_vm vm (x ∷ xs) l =
    let rest = serve_vm vm xs (serve_decoded vm x.message l) in if x.is_done then l else rest

-- Heartbeat, as its status.
unfoldable pub heartbeat : String → Answer String
heartbeat agent = if agent == "" then refuses "agent_id is required" else gives "ok"

-- The hub's table of contexts by machine, and the contexts that have been cancelled.
pub record VirtioSerialHub : Type 0 where
  pub cancels : Dict ℕ
  pub contexts : ℕ  -- how many contexts were made
  pub cancelled : List ℕ

abbrev pub new_virtio_serial_hub : VirtioSerialHub
new_virtio_serial_hub = record { cancels = empty; contexts = 0; cancelled = [] }

-- ConnectVM and DisconnectVM
abbrev pub connect_vm : String → VirtioSerialHub → VirtioSerialHub
connect_vm vm h = record h { cancels = insert vm h.contexts h.cancels; contexts = suc h.contexts }

abbrev pub cancel : VirtioSerialHub → Option ℕ → VirtioSerialHub
cancel h none = h
cancel h (some ctx) = record h { cancelled = ctx ∷ h.cancelled }

unfoldable pub disconnect_vm : String → VirtioSerialHub → VirtioSerialHub
disconnect_vm vm h = cancel (record h { cancels = erase vm h.cancels }) (h.cancels.get vm)
