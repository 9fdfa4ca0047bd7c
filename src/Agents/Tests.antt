-- ===== src/Agents/Tests.antt =====
-- One machine with one command (core/agent_state.go).
use dvf.Prelude.{All, ◌≡◌, refl, String-discrete, [], ◌∷◌, none, some, false}
use dvf.Prelude.Int.{pos}
use dvf.Prelude.Dict.{insert, empty}
use dvf.Engine.Host.{AgentCommand, AgentResult}
use dvf.Agents.{
  AgentState, blank, Coordinator, new_coordinator, put, set_state, register_vm, unregister_vm,
  Sender, open_waiter, panics, push, close_waiter, collect, find_waiter, offer,
}
use dvf.Agents.System.{
  Callers, no_callers, registers, opens, pushes, collects, finds, offers, Reach, here, later,
}
use dvf.Agents.Routes.{IsAnswer}
use dvf.Agents.Routing.{answers_match}
use dvf.Agents.Exchange.{unregister_vm-strands}

abbrev command : AgentCommand
command = record { id = "cmd-1"; kind = "start_test"; parameters = [] }

abbrev reply : AgentResult
reply = record {
  command_id = "cmd-1";
  status = "passed";
  output = "";
  logs = "";
  duration_ms = pos 3;
}

abbrev registered : Coordinator
registered = register_vm "vm-1" new_coordinator

-- A call that has its waiter, then its send, then the result, then its end.
abbrev call : Sender
call = record { agent = 0; channel = 1; command = command }

abbrev waiting_state : AgentState
waiting_state = record blank {
  vm_id = "vm-1";
  closed = false;
  result_waiters = insert "cmd-1" 1 empty;
}

abbrev opened : Coordinator
opened = record registered {
  states = put registered.states 0 waiting_state;
  channels = put registered.channels 1 none;
  unused = 2;
}

abbrev sent : Coordinator
sent = set_state 0 (record waiting_state { commands = command ∷ [] }) opened

abbrev filled : Coordinator
filled = record sent { channels = put sent.channels 1 (some reply) }

abbrev emptied : Coordinator
emptied = record filled { channels = put filled.channels 1 none }

abbrev answered : Callers
answered = record no_callers {
  coordinator = close_waiter call emptied;
  answered = (command, reply) ∷ [];
}

answered-Reach : Reach no_callers answered
unfolding register_vm open_waiter push find_waiter offer collect String-discrete
answered-Reach =
    later
      (later
        (later
          (later (later (later here (registers "vm-1")) (opens "vm-1" command call opened refl))
            (pushes [] [] call sent refl refl))
          (finds "vm-1" reply 1 refl))
        (offers [] [] 1 reply filled refl refl))
      (collects [] [] call reply _ refl refl)

answers_match_example : All IsAnswer answered.answered
answers_match_example = answers_match answered answered-Reach

registered-Reach : Reach no_callers (record no_callers { coordinator = registered })
registered-Reach = later here (registers "vm-1")

unregister_vm-strands_example :
    (t : Coordinator) × (unregister_vm "vm-1" registered ≡ some t)
    × (t.agents.get "vm-1" ≡ none)
    × (push (record { agent = 0; channel = 1; command = command }) t ≡ panics)
unfolding String-discrete register_vm
unregister_vm-strands_example =
    unregister_vm-strands (record no_callers { coordinator = registered }) "vm-1"
      (record { agent = 0; channel = 1; command = command }) registered-Reach refl
