-- ===== src/Agents/Guests/Pump/Tests.antt =====
-- A command through the pump of one machine (vm/virtio_serial.go), and one whose write fails.
use dvf.Prelude.{◌≡◌, refl, String-discrete, [], ◌∷◌, ◌++◌, map, none, false}
use dvf.Prelude.Dict.{insert, empty}
use dvf.Engine.Host.{AgentCommand}
use dvf.Agents.{
  AgentState, blank, Coordinator, new_coordinator, put, set_state, register_vm, Sender, open_waiter,
  push, poll_at,
}
use dvf.Agents.System as System
use dvf.Agents.System.{Callers, no_callers, registers, opens, pushes}
use dvf.Agents.Guests.Pump.{
  command_message, has, received, encode, Session, begins, in_hand, queue_of, calls, looks_up,
  looked_up, takes, writes, Reach, here, later,
}
use dvf.Agents.Guests.Pump.Order.{writes_in_order, writes_all}

abbrev load : AgentCommand
load = record { id = "cmd-1"; kind = "load_driver"; parameters = ("ko_path", "/x.ko") ∷ [] }

abbrev idle : Callers
idle = record no_callers { coordinator = register_vm "vm-1" new_coordinator }

idle-Reach : System.Reach no_callers idle
idle-Reach = System.later System.here (registers "vm-1")

abbrev waiting_state : AgentState
waiting_state = record blank {
  vm_id = "vm-1";
  closed = false;
  result_waiters = insert "cmd-1" 1 empty;
}

abbrev call : Sender
call = record { agent = 0; channel = 1; command = load }

abbrev opened : Coordinator
unfolding register_vm
opened = record idle.coordinator {
  states = put idle.coordinator.states 0 waiting_state;
  channels = put idle.coordinator.channels 1 none;
  unused = 2;
}

abbrev sent : Coordinator
unfolding register_vm
sent = set_state 0 (record waiting_state { commands = load ∷ [] }) opened

-- A call of SendCommand has put its command in the queue.
abbrev queued : Session
unfolding register_vm
queued = record (begins 0 idle) {
  callers = record idle { coordinator = sent; waiting = call ∷ [] };
  accepted = load ∷ [];
}

queued-Reach : Reach "vm-1" 0 (begins 0 idle) queued
unfolding register_vm open_waiter push String-discrete
queued-Reach =
    later (later here (calls _ (opens "vm-1" load call opened refl) refl refl))
      (calls _ (pushes [] [] call sent refl refl) refl refl)

-- The pump has taken it.
abbrev taken : Session
unfolding register_vm
taken = record queued {
  callers = record queued.callers {
    coordinator = set_state 0 (record waiting_state { commands = [] }) sent;
  };
  pump = has load;
}

taken-Reach : Reach "vm-1" 0 (begins 0 idle) taken
unfolding register_vm received looked_up poll_at String-discrete
taken-Reach = later (later queued-Reach (looks_up refl)) (takes 0 (has load) _ refl refl)

abbrev failing : Session
failing = record taken {
  pump = (encode false load taken.written).0;
  written = (encode false load taken.written).1;
}

writes_in_order_example :
    map command_message failing.accepted
    ≡ failing.written ++ map command_message (in_hand failing.pump ++ queue_of 0 failing)
unfolding register_vm String-discrete
writes_in_order_example =
    writes_in_order "vm-1" 0 idle failing idle-Reach refl
      (later taken-Reach (writes false load refl))

writes_all_example :
    (u : Session) × Reach "vm-1" 0 queued u × (u.written ≡ map command_message queued.accepted)
unfolding register_vm String-discrete
writes_all_example = writes_all "vm-1" 0 idle queued idle-Reach refl queued-Reach refl refl
