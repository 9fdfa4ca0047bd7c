-- ===== src/Agents/Routing.antt =====
-- Results of agents (core/agent_state.go) reach the calls that wait for them, and no others.
use dvf.Prelude.{ℕ, ◌≤◌, ◌<◌, ◌≡◌, ◌∙◌, subst, String, List, ◌∷◌, ◌++◌, arith, All}
use dvf.Agents.{Coordinator, put, register_vm, Sender, close_waiter}
use dvf.Agents.System.{
  Callers, no_callers, Step, registers, unregisters, notifies, opens, pushes, collects,
  stops_sending, stops_waiting, polls, finds, offers, times_out, Reach, here, later,
}
use dvf.Agents.Routes.{
  All-map, All-insert, Routes, IsCall, IsDelivery, IsAnswer, register_vm-Routes, push-Routes,
  close_waiter-Routes, poll_at-Routes, offer-Routes, notify_agent_ready-Routes,
  unregister_vm-Routes, find_waiter-Routes, open_waiter-Routes, collect-Routes,
}

-- The calls in flight carry channels of their own commands, and every answer is to its command.
pub record IsRouted (s : Callers) : Type 0 where
  pub owner : ℕ → String
  pub routes : Routes owner s.coordinator
  pub calls : All (IsCall owner s.coordinator.unused) s.sending
  pub waits : All (IsCall owner s.coordinator.unused) s.waiting
  pub deliveries : All (IsDelivery owner s.coordinator.unused) s.delivering
  pub answers : All IsAnswer s.answered

-- A step of the coordinator that opens no waiter.
stays :
    (s : Callers) (v : IsRouted s) (c : Coordinator)
    → Routes v.owner c
    → s.coordinator.unused ≤ c.unused
    → IsRouted (record s { coordinator = c })
stays s v c r l = record {
  owner = v.owner;
  routes = r;
  calls = All-map _ _ s.sending (λ call p. (p.0, omega (arith, p.1))) v.calls;
  waits = All-map _ _ s.waiting (λ call p. (p.0, omega (arith, p.1))) v.waits;
  deliveries = All-map _ _ s.delivering (λ d p. (p.0, omega (arith, p.1))) v.deliveries;
  answers = v.answers;
}

equal_le : {m n : ℕ} → n ≡ m → m ≤ n
equal_le e = omega (arith, e)

fresh_owner : (owner : ℕ → String) (n ch : ℕ) (k : String) → ch < n → put owner n k ch ≡ owner ch
fresh_owner owner n ch k l = ground arith

split_calls :
    (s : Callers) (owner : ℕ → String) (before after : List Sender) (call : Sender)
    (calls : List Sender)
    → calls ≡ before ++ call ∷ after
    → All (IsCall owner s.coordinator.unused) calls
    → IsCall owner s.coordinator.unused call
      × All (IsCall owner s.coordinator.unused) (before ++ after)
split_calls s owner before after call calls e a =
    All-insert (IsCall owner s.coordinator.unused) before after call
      (subst (All (IsCall owner s.coordinator.unused)) e a)

Step-IsRouted : {s t : Callers} → Step s t → IsRouted s → IsRouted t
Step-IsRouted {s} (registers vm) v =
    stays s v (register_vm vm s.coordinator) (register_vm-Routes v.owner s.coordinator v.routes vm)
      (unfold register_vm in omega arith)
Step-IsRouted {s} (unregisters vm c e) v =
    let (r, u) = unregister_vm-Routes v.owner s.coordinator v.routes vm c e in
    stays s v c r (equal_le u)
Step-IsRouted {s} (notifies vm agent c e) v =
    let (r, u) = notify_agent_ready-Routes v.owner s.coordinator v.routes vm agent c e in
    stays s v c r (equal_le u)
Step-IsRouted {s} (opens vm cmd call c e) v =
    let (r, u, p, q) = open_waiter-Routes v.owner s.coordinator v.routes vm cmd call c e in
    let n = s.coordinator.unused in
    record {
      owner = put v.owner n cmd.id;
      routes = r;
      calls = (
        (rw (p, q) (ground arith), omega (arith, p, u)),
        All-map _ _ s.sending
            (λ x a. (fresh_owner v.owner n x.channel cmd.id (a.1) ∙ a.0, omega (arith, a.1, u)))
            v.calls,
      );
      waits =
          All-map _ _ s.waiting
            (λ x a. (fresh_owner v.owner n x.channel cmd.id (a.1) ∙ a.0, omega (arith, a.1, u)))
            v.waits;
      deliveries =
          All-map _ _ s.delivering
            (λ d a. (fresh_owner v.owner n (d.0) cmd.id (a.1) ∙ a.0, omega (arith, a.1, u)))
            v.deliveries;
      answers = v.answers;
    }
Step-IsRouted {s} (pushes before after call c e f) v =
    let (p, rest) = split_calls s v.owner before after call s.sending e v.calls in
    let (r, u) = push-Routes v.owner s.coordinator v.routes call c f in
    let w = record s { sending = before ++ after; waiting = call ∷ s.waiting } in
    stays w
      (record {
        owner = v.owner;
        routes = v.routes;
        calls = rest;
        waits = (p, v.waits);
        deliveries = v.deliveries;
        answers = v.answers;
      })
      c r (equal_le u)
Step-IsRouted {s} (collects before after call x c e f) v =
    let (p, rest) = split_calls s v.owner before after call s.waiting e v.waits in
    let (r, u, a) = collect-Routes v.owner s.coordinator v.routes call x c (p.0) f in
    let w = record s { waiting = before ++ after; answered = (call.command, x) ∷ s.answered } in
    stays w
      (record {
        owner = v.owner;
        routes = v.routes;
        calls = v.calls;
        waits = rest;
        deliveries = v.deliveries;
        answers = (a, v.answers);
      })
      c r (equal_le u)
Step-IsRouted {s} (stops_sending before after call e) v =
    let (p, rest) = split_calls s v.owner before after call s.sending e v.calls in
    let w = record s { sending = before ++ after } in
    stays w
      (record {
        owner = v.owner;
        routes = v.routes;
        calls = rest;
        waits = v.waits;
        deliveries = v.deliveries;
        answers = v.answers;
      })
      (close_waiter call s.coordinator) (close_waiter-Routes v.owner s.coordinator v.routes call)
      (unfold close_waiter in omega arith)
Step-IsRouted {s} (stops_waiting before after call e) v =
    let (p, rest) = split_calls s v.owner before after call s.waiting e v.waits in
    let w = record s { waiting = before ++ after } in
    stays w
      (record {
        owner = v.owner;
        routes = v.routes;
        calls = v.calls;
        waits = rest;
        deliveries = v.deliveries;
        answers = v.answers;
      })
      (close_waiter call s.coordinator) (close_waiter-Routes v.owner s.coordinator v.routes call)
      (unfold close_waiter in omega arith)
Step-IsRouted {s} (polls a cmd c e) v =
    let (r, u) = poll_at-Routes v.owner s.coordinator v.routes a cmd c e in
    stays s v c r (equal_le u)
Step-IsRouted {s} (finds vm r ch e) v = record {
  owner = v.owner;
  routes = v.routes;
  calls = v.calls;
  waits = v.waits;
  deliveries = (find_waiter-Routes v.owner s.coordinator v.routes vm r ch e, v.deliveries);
  answers = v.answers;
}
Step-IsRouted {s} (offers before after ch x c e f) v =
    let (p, rest) =
      All-insert (IsDelivery v.owner s.coordinator.unused) before after (ch, x)
        (subst (All (IsDelivery v.owner s.coordinator.unused)) e v.deliveries) in
    let (r, u) = offer-Routes v.owner s.coordinator v.routes ch x c (p.0) f in
    let w = record s { delivering = before ++ after } in
    stays w
      (record {
        owner = v.owner;
        routes = v.routes;
        calls = v.calls;
        waits = v.waits;
        deliveries = rest;
        answers = v.answers;
      })
      c r (equal_le u)
Step-IsRouted {s} (times_out before after ch x e) v = record {
  owner = v.owner;
  routes = v.routes;
  calls = v.calls;
  waits = v.waits;
  deliveries =
      (All-insert (IsDelivery v.owner s.coordinator.unused) before after (ch, x)
        (subst (All (IsDelivery v.owner s.coordinator.unused)) e v.deliveries)).1;
  answers = v.answers;
}

no_callers-IsRouted : IsRouted no_callers
no_callers-IsRouted = record {
  owner = λ _. "";
  routes = record { waiters = λ a k ch e. cc; filled = λ ch r e. cc; live = λ vm a e. cc };
  calls = tt;
  waits = tt;
  deliveries = tt;
  answers = tt;
}

pub Reach-IsRouted : {s : Callers} → Reach no_callers s → IsRouted s
Reach-IsRouted here = no_callers-IsRouted
Reach-IsRouted (later r st) = Step-IsRouted st (Reach-IsRouted r)

-- Whatever calls run at the same time, SendCommand returns a result only of its own command.
pub answers_match : (s : Callers) → Reach no_callers s → All IsAnswer s.answered
answers_match s r = (Reach-IsRouted r).answers
