-- ===== src/Agents/System.antt =====
-- The callers of AgentCoordinator (core/agent_state.go): calls of SendCommand and DeliverResult that
-- run at the same time as each other and as all the other calls, in any order.
use dvf.Prelude.{ℕ, String, List, [], ◌∷◌, ◌++◌, some, ◌≡◌}
use dvf.Engine.Host.{AgentCommand, AgentResult}
use dvf.Agents.{
  Coordinator, new_coordinator, register_vm, unregister_vm, notify_agent_ready, Sender, open_waiter,
  pushed, push, close_waiter, collect, polled, poll_at, find_waiter, offer,
}

pub record Callers : Type 0 where
  pub coordinator : Coordinator
  pub sending : List Sender  -- SendCommand before its send
  pub waiting : List Sender  -- and behind it
  pub delivering : List (ℕ × AgentResult)
  pub answered : List (AgentCommand × AgentResult)  -- what each finished SendCommand returned

abbrev pub no_callers : Callers
no_callers = record {
  coordinator = new_coordinator;
  sending = [];
  waiting = [];
  delivering = [];
  answered = [];
}

-- One step of one caller. A call of GetNextCommand may receive from any agent state, also from one
-- that it looked up before an UnregisterVM.
pub data Step (s : Callers) : Callers → Type 0 where
  registers : (vm : String) → Step s (record s { coordinator = register_vm vm s.coordinator })
  unregisters :
      (vm : String) (c : Coordinator)
      → unregister_vm vm s.coordinator ≡ some c
      → Step s (record s { coordinator = c })
  notifies :
      (vm agent : String) (c : Coordinator)
      → notify_agent_ready vm agent s.coordinator ≡ some c
      → Step s (record s { coordinator = c })
  opens :
      (vm : String) (cmd : AgentCommand) (call : Sender) (c : Coordinator)
      → open_waiter vm cmd s.coordinator ≡ some (call, c)
      → Step s (record s { coordinator = c; sending = call ∷ s.sending })
  pushes :
      (before after : List Sender) (call : Sender) (c : Coordinator)
      → s.sending ≡ before ++ call ∷ after
      → push call s.coordinator ≡ pushed c
      → Step s (record s { coordinator = c; sending = before ++ after; waiting = call ∷ s.waiting })
  collects :
      (before after : List Sender) (call : Sender) (r : AgentResult) (c : Coordinator)
      → s.waiting ≡ before ++ call ∷ after
      → collect call s.coordinator ≡ some (r, c)
      → Step s (record s {
        coordinator = c;
        waiting = before ++ after;
        answered = (call.command, r) ∷ s.answered;
      })
  stops_sending :
      (before after : List Sender) (call : Sender)
      → s.sending ≡ before ++ call ∷ after
      → Step s
          (record s { coordinator = close_waiter call s.coordinator; sending = before ++ after })
  stops_waiting :
      (before after : List Sender) (call : Sender)
      → s.waiting ≡ before ++ call ∷ after
      → Step s
          (record s { coordinator = close_waiter call s.coordinator; waiting = before ++ after })
  polls :
      (a : ℕ) (cmd : AgentCommand) (c : Coordinator)
      → poll_at a s.coordinator ≡ polled cmd c
      → Step s (record s { coordinator = c })
  finds :
      (vm : String) (r : AgentResult) (ch : ℕ)
      → find_waiter vm r s.coordinator ≡ some ch
      → Step s (record s { delivering = (ch, r) ∷ s.delivering })
  offers :
      (before after : List (ℕ × AgentResult)) (ch : ℕ) (r : AgentResult) (c : Coordinator)
      → s.delivering ≡ before ++ (ch, r) ∷ after
      → offer ch r s.coordinator ≡ some c
      → Step s (record s { coordinator = c; delivering = before ++ after })
  times_out :
      (before after : List (ℕ × AgentResult)) (ch : ℕ) (r : AgentResult)
      → s.delivering ≡ before ++ (ch, r) ∷ after
      → Step s (record s { delivering = before ++ after })

pub data Reach (s : Callers) : Callers → Type 0 where
  here : Reach s s
  later : {t u : Callers} → Reach s t → Step t u → Reach s u
