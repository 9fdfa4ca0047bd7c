-- ===== src/Agents/Guests/Tests.antt =====
-- One machine whose agent registers and reports (api/agent_server.go, vm/virtio_serial.go).
use dvf.Prelude.{ℕ, ◌≡◌, refl, String, String-discrete, List, [], ◌∷◌, none, some, true, false}
use dvf.Prelude.Int.{pos}
use dvf.Prelude.Dict.{Dict, insert, empty}
use dvf.Types.{VmStatus}
use dvf.Engine.Host.{gives}
use dvf.Agents.{AgentState, blank, Coordinator, new_coordinator, put, wait_for_agent, is_here}
use dvf.Agents.Guests.{
  agent_id_of, ReportResultRequest, result_of, register_agent, report_result, Line, Json,
  text_value, Scanned, serve_vm,
}
use dvf.Agents.Guests.Delivery.{register_agent-report_result, serve_vm-called, called_all}

abbrev waiting_state : AgentState
waiting_state = record blank {
  vm_id = "vm-1";
  closed = false;
  result_waiters = insert "cmd-1" 1 empty;
}

abbrev waiting : Coordinator
waiting = record new_coordinator {
  agents = insert "vm-1" 0 empty;
  states = put (λ _. blank) 0 waiting_state;
  unused = 2;
}

abbrev report : ReportResultRequest
report = record {
  agent_id = "agent-vm-1";
  command_id = "cmd-1";
  status = "passed";
  output = "";
  logs = "";
  duration_ms = pos 3;
}

abbrev keep : String → VmStatus → ℕ → ℕ
keep vm status s = s

register_agent-report_result_example :
    let t = register_agent keep "vm-1" (waiting, 0) in
    (t.1
      ≡ gives
          (record { agent_id = "agent-vm-1"; heartbeat_interval_seconds = pos 5; status = "ok" }))
    × (t.0.1 ≡ 0)
    × (wait_for_agent "vm-1" t.0.0 ≡ is_here)
    × ((report_result report t.0.0).0.channels 1 ≡ some (result_of report))
unfolding String-discrete agent_id_of
register_agent-report_result_example =
    register_agent-report_result keep "vm-1" waiting 0 0 1 report refl refl refl refl refl refl

abbrev message : Dict Json
message = insert "msg" (text_value "result") (insert "command_id" (text_value "cmd-1") empty)

abbrev line : Line
line = record { coordinator = waiting; acks = []; pumps = 1 }

-- A line that does not decode, the result, and a line behind the end of the context.
abbrev scanned : List Scanned
scanned =
    record { is_done = false; message = none }
    ∷ record { is_done = false; message = some message }
    ∷ record { is_done = true; message = some message }
    ∷ []

serve_vm-called_example :
    (serve_vm "vm-1" scanned line).coordinator ≡ called_all "vm-1" (message ∷ []) waiting
unfolding String-discrete
serve_vm-called_example = serve_vm-called "vm-1" scanned line refl (refl, tt)
