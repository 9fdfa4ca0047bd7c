-- ===== src/Agents/Guests/Pump/Queue.antt =====
-- What the callers of the coordinator (core/agent_state.go) do to the queue of one machine.
use dvf.Prelude.{
  ℕ, ◌≤◌, ◌<◌, ◌≡◌, inl, inr, refl, sym, ◌∙◌, ap, String, List, [], ◌∷◌, ◌++◌, none, some, true,
  false, ◌==◌, eqb, if◌then◌else◌, arith, Option-cases, Bool-cases, length, ltb,
}
use dvf.Prelude.Dict.{erase}
use dvf.Engine.Host.{AgentCommand, AgentResult}
use dvf.Agents.{
  AgentState, Coordinator, put, set_state, register_vm, unregister_vm, unregister_at,
  close_commands, notify_agent_ready, notify_at, Sender, open_waiter, open_at, pushed, push,
  close_waiter, collect, collect_at, polled, poll_at, poll_from, offer, offer_to,
}
use dvf.Agents.System as System
use dvf.Agents.System.{
  Callers, registers, unregisters, notifies, opens, pushes, collects, stops_sending, stops_waiting,
  polls, finds, offers, times_out,
}
use dvf.Agents.Guests.Pump.{accepted_by, takes_from, renews}

pub some-inj {ℓ} : {A : Type ℓ} {x y : A} → some x ≡ some y → x ≡ y
some-inj e = cc

pub nil_right {ℓ} : {A : Type ℓ} (xs : List A) → xs ≡ xs ++ []
nil_right [] = refl
nil_right (x ∷ xs) = ap (λ l. x ∷ l) (nil_right xs)

module _ (vm : String) (a : ℕ) where
  -- What a step of another caller leaves of the machine and its queue.
  pub record Grows (c d : Coordinator) (more : List AgentCommand) : Type 0 where
    pub queue : (d.states a).commands ≡ (c.states a).commands ++ more
    pub owns : (b : ℕ) → d.agents.get vm ≡ some b → c.agents.get vm ≡ some b
    pub below : c.unused ≤ d.unused

  -- A change that keeps the commands of the queue.
  kept-Grows :
      (c d : Coordinator)
      → (d.states a).commands ≡ (c.states a).commands
      → ((b : ℕ) → d.agents.get vm ≡ some b → c.agents.get vm ≡ some b)
      → c.unused ≤ d.unused
      → Grows c d []
  kept-Grows c d q o u = record { queue = q ∙ nil_right (c.states a).commands; owns = o; below = u }

  set_state-Grows :
      (b : ℕ) (s : AgentState) (c : Coordinator)
      → s.commands ≡ (c.states b).commands
      → Grows c (set_state b s c) []
  set_state-Grows b s c e =
      kept-Grows c (set_state b s c) (ground (arith, e)) (λ i p. p) (omega arith)

  queue-put :
      (b : ℕ) (cmd : AgentCommand) (f : ℕ → AgentState)
      → (put f b (record (f b) { commands = (f b).commands ++ cmd ∷ [] }) a).commands
        ≡ (f a).commands ++ (if eqb b a then cmd ∷ [] else [])
  queue-put b cmd f = ground (arith, nil_right (f a).commands)

  push-Grows :
      (call : Sender) (c d : Coordinator)
      → push call c ≡ pushed d
      → Grows c d (if eqb call.agent a then call.command ∷ [] else [])
  unfolding push
  push-Grows call c d e = elim (Bool-cases (c.states call.agent).closed) [
    | inl f ↦ absurd (ground (arith, e, f))
    | inr f ↦ elim (Bool-cases (ltb (length (c.states call.agent).commands) 16)) [
      | inr g ↦ absurd (ground (arith, e, f, g))
      | inl g ↦
          let more = record (c.states call.agent) {
            commands = (c.states call.agent).commands ++ call.command ∷ [];
          } in
          let same : d ≡ set_state call.agent more c = ground (arith, e, f, g) in
          rw same (record {
            queue = queue-put call.agent call.command c.states;
            owns = λ i p. p;
            below = omega arith;
          })
    ]
  ]

  notify-Grows :
      (w agent : String) (c d : Coordinator) → notify_agent_ready w agent c ≡ some d → Grows c d []
  unfolding notify_agent_ready
  notify-Grows w agent c d e = elim (Option-cases (c.agents.get w)) [
    | inl f ↦ absurd (ground (arith, e, ap (notify_at agent c) f))
    | inr (b, f) ↦
        let s = record (c.states b) { agent_id = agent; is_ready = true } in
        let same : d ≡ set_state b s c = some-inj (sym e ∙ ap (notify_at agent c) f) in
        rw same (set_state-Grows b s c refl)
  ]

  register-Grows :
      (w : String) (c : Coordinator)
      → (w == vm) ≡ false
      → a < c.unused
      → Grows c (register_vm w c) []
  unfolding register_vm
  register-Grows w c n l =
      kept-Grows c _ (ground (arith, l)) (λ b p. ground (arith, n, p)) (omega arith)

  close-Grows :
      (w : String) (b : ℕ) (c d : Coordinator) → close_commands w b c ≡ some d → Grows c d []
  unfolding close_commands
  close-Grows w b c d e = elim (Bool-cases (c.states b).closed) [
    | inl f ↦ absurd (ground (arith, e, f))
    | inr f ↦
        let same : d ≡ record c {
          states = put c.states b (record (c.states b) { closed = true });
          agents = erase w c.agents;
        } =
          ground (arith, e, f) in
        rw same (kept-Grows c _ (ground arith) (λ i p. ground (arith, p)) (omega arith))
  ]

  unregister-Grows : (w : String) (c d : Coordinator) → unregister_vm w c ≡ some d → Grows c d []
  unfolding unregister_vm
  unregister-Grows w c d e = elim (Option-cases (c.agents.get w)) [
    | inl f ↦
        let same : d ≡ c = some-inj (sym e ∙ ap (unregister_at w c) f) in
        rw same (kept-Grows c c refl (λ i p. p) (omega arith))
    | inr (b, f) ↦ close-Grows w b c d (ap (unregister_at w c) (sym f) ∙ e)
  ]

  open-Grows :
      (w : String) (cmd : AgentCommand) (call : Sender) (c d : Coordinator)
      → open_waiter w cmd c ≡ some (call, d)
      → Grows c d []
  unfolding open_waiter
  open-Grows w cmd call c d e = elim (Option-cases (c.agents.get w)) [
    | inl f ↦ absurd (ground (arith, e, ap (open_at cmd c) f))
    | inr (b, f) ↦
        let same = ap (λ p. p.1) (some-inj (sym e ∙ ap (open_at cmd c) f)) in
        rw same (kept-Grows c _ (ground arith) (λ i p. p) (omega arith))
  ]

  close_waiter-Grows : (call : Sender) (c : Coordinator) → Grows c (close_waiter call c) []
  unfolding close_waiter
  close_waiter-Grows call c = set_state-Grows call.agent _ c refl

  collect-Grows :
      (call : Sender) (r : AgentResult) (c d : Coordinator)
      → collect call c ≡ some (r, d)
      → Grows c d []
  unfolding collect
  collect-Grows call r c d e = elim (Option-cases (c.channels call.channel)) [
    | inl f ↦ absurd (ground (arith, e, ap (collect_at call c) f))
    | inr (x, f) ↦
        let emptied = record c { channels = put c.channels call.channel none } in
        let same : d ≡ close_waiter call emptied =
          ap (λ p. p.1) (some-inj (sym e ∙ ap (collect_at call c) f)) in
        let g = close_waiter-Grows call emptied in
        rw same (record { queue = g.queue; owns = g.owns; below = g.below })
  ]

  offer-Grows :
      (ch : ℕ) (r : AgentResult) (c d : Coordinator) → offer ch r c ≡ some d → Grows c d []
  unfolding offer
  offer-Grows ch r c d e = elim (Option-cases (c.channels ch)) [
    | inr (x, f) ↦ absurd (ground (arith, e, ap (offer_to ch r c) f))
    | inl f ↦
        let same = some-inj (sym e ∙ ap (offer_to ch r c) f) in
        rw same (kept-Grows c _ refl (λ i p. p) (omega arith))
  ]

  -- A receive, from this queue or from another.
  poll_at-exact :
      (b : ℕ) (cmd : AgentCommand) (c d : Coordinator)
      → poll_at b c ≡ polled cmd d
      → (rest : List AgentCommand) × ((c.states b).commands ≡ cmd ∷ rest)
        × (d ≡ set_state b (record (c.states b) { commands = rest }) c)
  unfolding poll_at
  poll_at-exact b cmd c d e = from (c.states b).commands e refl
    where
      from :
          (l : List AgentCommand)
          → poll_from b (c.states b) c l ≡ polled cmd d
          → (c.states b).commands ≡ l
          → (rest : List AgentCommand) × ((c.states b).commands ≡ cmd ∷ rest)
            × (d ≡ set_state b (record (c.states b) { commands = rest }) c)
      from [] p q = absurd (ground (arith, p))
      from (x ∷ rest) p q = (rest, ground (arith, p, q), ground (arith, p))

  poll-Grows :
      (b : ℕ) (cmd : AgentCommand) (c d : Coordinator)
      → eqb b a ≡ false
      → poll_at b c ≡ polled cmd d
      → Grows c d []
  poll-Grows b cmd c d n e =
      let (rest, _, same) = poll_at-exact b cmd c d e in
      rw same (kept-Grows c _ (ground (arith, n)) (λ i p. p) (omega arith))

  pub step-Grows :
      {s t : Callers} (st : System.Step s t)
      → takes_from a st ≡ false
      → renews vm st ≡ false
      → a < s.coordinator.unused
      → Grows s.coordinator t.coordinator (accepted_by a st)
  step-Grows {s} (registers w) p q l = register-Grows w s.coordinator q l
  step-Grows {s} (unregisters w c e) p q l = unregister-Grows w s.coordinator c e
  step-Grows {s} (notifies w agent c e) p q l = notify-Grows w agent s.coordinator c e
  step-Grows {s} (opens w cmd call c e) p q l = open-Grows w cmd call s.coordinator c e
  step-Grows {s} (pushes before after call c e f) p q l = push-Grows call s.coordinator c f
  step-Grows {s} (collects before after call r c e f) p q l = collect-Grows call r s.coordinator c f
  step-Grows {s} (stops_sending before after call e) p q l = close_waiter-Grows call s.coordinator
  step-Grows {s} (stops_waiting before after call e) p q l = close_waiter-Grows call s.coordinator
  step-Grows {s} (polls b cmd c e) p q l = poll-Grows b cmd s.coordinator c p e
  step-Grows {s} (finds w r ch e) p q l =
      kept-Grows s.coordinator s.coordinator refl (λ i o. o) (omega arith)
  step-Grows {s} (offers before after ch r c e f) p q l = offer-Grows ch r s.coordinator c f
  step-Grows {s} (times_out before after ch r e) p q l =
      kept-Grows s.coordinator s.coordinator refl (λ i o. o) (omega arith)
