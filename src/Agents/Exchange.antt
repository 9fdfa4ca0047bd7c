-- ===== src/Agents/Exchange.antt =====
-- One command and its result through AgentCoordinator (core/agent_state.go), and the end of a machine.
use dvf.Prelude.{
  ℕ, suc, ◌<◌, ◌≡◌, refl, ◌∙◌, ap, String, List, [], ◌∷◌, ◌++◌, Option, none, some, true, false,
  ◌==◌, if◌then◌else◌, arith, length, ltb,
}
use dvf.Prelude.Dict.{insert, erase}
use dvf.Engine.Host.{AgentCommand, AgentResult}
use dvf.Agents.{
  AgentState, Coordinator, put, set_state, unregister_vm, unregister_at, close_commands, Sender,
  open_waiter, open_at, pushed, panics, push, close_waiter, collect, collect_at, polled,
  get_next_command, poll_of, poll_at, poll_from, find_waiter, waiter_of, offer, offer_to,
}
use dvf.Agents.System.{Callers, no_callers, Reach}
use dvf.Agents.Routing.{Reach-IsRouted}

-- The course of one SendCommand with the agent's calls of GetNextCommand and DeliverResult.
pub record Exchanged (vm : String) (cmd : AgentCommand) (r : AgentResult) (c : Coordinator)
    : Type 0 where
  pub call : Sender
  pub opened : Coordinator
  pub sent : Coordinator
  pub taken : Coordinator
  pub filled : Coordinator
  pub ended : Coordinator
  pub opens : open_waiter vm cmd c ≡ some (call, opened)
  pub pushes : push call opened ≡ pushed sent
  pub polls : get_next_command vm sent ≡ polled cmd taken
  pub finds : find_waiter vm r taken ≡ some call.channel
  pub offers : offer call.channel r taken ≡ some filled
  pub collects : collect call filled ≡ some (r, ended)
  pub forgets : find_waiter vm r ended ≡ none

pub put_same {ℓ} : {A : Type ℓ} (f : ℕ → A) (i : ℕ) (a : A) → put f i a i ≡ a
put_same f i a = ground arith

push_sends :
    (call : Sender) (c : Coordinator) (s : AgentState)
    → c.states call.agent ≡ s
    → s.closed ≡ false
    → length s.commands < 16
    → push call c
      ≡ pushed (set_state call.agent (record s { commands = s.commands ++ call.command ∷ [] }) c)
unfolding push
push_sends call c s e o l =
    let room : ltb (length s.commands) 16 ≡ true = ground arith in rw (e, o, room) refl

pub poll_takes :
    (vm : String) (c : Coordinator) (a : ℕ) (s : AgentState) (cmd : AgentCommand)
    (rest : List AgentCommand)
    → c.agents.get vm ≡ some a
    → c.states a ≡ s
    → s.commands ≡ cmd ∷ rest
    → get_next_command vm c ≡ polled cmd (set_state a (record s { commands = rest }) c)
unfolding get_next_command poll_at
poll_takes vm c a s cmd rest e f q =
    ap (poll_of c) e ∙ ap (λ x. poll_from a x c x.commands) f ∙ ap (poll_from a s c) q

find_finds :
    (vm : String) (r : AgentResult) (c : Coordinator) (a : ℕ) (s : AgentState)
    → c.agents.get vm ≡ some a
    → c.states a ≡ s
    → find_waiter vm r c ≡ s.result_waiters.get r.command_id
unfolding find_waiter
find_finds vm r c a s e f = ap (waiter_of r c) e ∙ ap (λ x. x.result_waiters.get r.command_id) f

-- On a registered machine whose agent has no other command, SendCommand gives its command to
-- GetNextCommand and returns the result that DeliverResult brings for it; its waiter is gone after.
pub exchange :
    (vm : String) (cmd : AgentCommand) (r : AgentResult) (c : Coordinator) (a : ℕ)
    → c.agents.get vm ≡ some a
    → (c.states a).closed ≡ false
    → (c.states a).commands ≡ []
    → r.command_id ≡ cmd.id
    → Exchanged vm cmd r c
unfolding open_waiter offer collect close_waiter
exchange vm cmd r c a e o q m =
    let n = c.unused in
    let s1 = record (c.states a) { result_waiters = insert cmd.id n (c.states a).result_waiters } in
    let c1 = record c {
      states = put c.states a s1;
      channels = put c.channels n none;
      unused = suc n;
    } in
    let call : Sender = record { agent = a; channel = n; command = cmd } in
    let s2 = record s1 { commands = s1.commands ++ cmd ∷ [] } in
    let c2 = set_state a s2 c1 in
    let s3 = record s2 { commands = [] } in
    let c3 = set_state a s3 c2 in
    let c4 = record c3 { channels = put c3.channels n (some r) } in
    let c5 = record c4 { channels = put c4.channels n none } in
    record {
      call = call;
      opened = c1;
      sent = c2;
      taken = c3;
      filled = c4;
      ended = close_waiter call c5;
      opens = ap (open_at cmd c) e;
      pushes = push_sends call c1 s1 (put_same c.states a s1) o (omega (arith, ap length q));
      polls = poll_takes vm c2 a s2 cmd [] e (put_same c1.states a s2) (ap (λ l. l ++ cmd ∷ []) q);
      finds =
          find_finds vm r c3 a s3 e (put_same c2.states a s3)
          ∙ found (c.states a).result_waiters.get;
      offers = ap (offer_to n r c3) (put_same c.channels n none);
      collects = ap (collect_at call c4) (put_same c3.channels n (some r));
      forgets =
          find_finds vm r (close_waiter call c5) a _ e (put_same c5.states a _)
          ∙ gone (c5.states a).result_waiters.get;
    }
  where
    found :
        (f : String → Option ℕ)
        → (if cmd.id == r.command_id then some c.unused else f r.command_id) ≡ some c.unused
    found f = ground (arith, m)

    gone :
        (f : String → Option ℕ) → (if cmd.id == r.command_id then none else f r.command_id) ≡ none
    gone f = ground (arith, m)

-- UnregisterVM of a machine that is there does not panic and forgets the machine; a SendCommand that
-- had looked up its agent before and sends its command after panics.
pub unregister_vm-strands :
    (s : Callers) (vm : String) (call : Sender)
    → Reach no_callers s
    → s.coordinator.agents.get vm ≡ some call.agent
    → (t : Coordinator) × (unregister_vm vm s.coordinator ≡ some t)
      × (t.agents.get vm ≡ none)
      × (push call t ≡ panics)
unfolding unregister_vm push close_commands
unregister_vm-strands s vm call r e =
    let (o, _, _) = (Reach-IsRouted r).routes.live vm call.agent e in
    let c = s.coordinator in
    (
      record c {
        states = put c.states call.agent (record (c.states call.agent) { closed = true });
        agents = erase vm c.agents;
      },
      ap (unregister_at vm c) e ∙ rw o refl,
      ground arith,
      ground arith,
    )
