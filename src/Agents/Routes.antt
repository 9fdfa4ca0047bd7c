-- ===== src/Agents/Routes.antt =====
-- Which channel of AgentCoordinator (core/agent_state.go) stands under which command.
use dvf.Prelude.{
  ℕ, suc, ◌<◌, ◌≡◌, inl, inr, refl, sym, ◌∙◌, ap, String, String-discrete, List, [], ◌∷◌, ◌++◌,
  none, some, true, false, arith, Option-cases, Bool-cases, length, ltb, All,
}
use dvf.Prelude.Dict.{insert, erase}
use dvf.Engine.Host.{AgentCommand, AgentResult}
use dvf.Agents.{
  AgentState, Coordinator, put, set_state, register_vm, unregister_vm, notify_agent_ready, Sender,
  open_waiter, open_at, notify_at, unregister_at, close_commands, pushed, push, close_waiter,
  collect, collect_at, polled, poll_at, poll_from, find_waiter, waiter_of, offer, offer_to,
}

pub All-map {ℓ} :
    {A : Type ℓ} (P Q : A → Type 0) (xs : List A) → ((x : A) → P x → Q x) → All P xs → All Q xs
All-map P Q [] f a = tt
All-map P Q (x ∷ xs) f a = (f x (a.0), All-map P Q xs f (a.1))

pub All-insert {ℓ} :
    {A : Type ℓ} (P : A → Type 0) (xs ys : List A) (x : A)
    → All P (xs ++ x ∷ ys)
    → P x × All P (xs ++ ys)
All-insert P [] ys x a = a
All-insert P (y ∷ xs) ys x a = let (p, rest) = All-insert P xs ys x (a.1) in (p, (a.0, rest))

-- The command that each channel was made for, as a history variable. Waiters stand under the command
-- of their channel, and a channel holds results of its command alone. A machine in the map has an open
-- state of its own.
pub record Routes (owner : ℕ → String) (c : Coordinator) : Type 0 where
  pub waiters :
      (a : ℕ) (k : String) (ch : ℕ)
      → (c.states a).result_waiters.get k ≡ some ch
      → (owner ch ≡ k) × (ch < c.unused)
  pub filled : (ch : ℕ) (r : AgentResult) → c.channels ch ≡ some r → r.command_id ≡ owner ch
  pub live :
      (vm : String) (a : ℕ)
      → c.agents.get vm ≡ some a
      → ((c.states a).closed ≡ false) × ((c.states a).vm_id ≡ vm) × (a < c.unused)

abbrev pub IsCall : (ℕ → String) → ℕ → Sender → Type 0
IsCall owner unused call = (owner call.channel ≡ call.command.id) × (call.channel < unused)

abbrev pub IsDelivery : (ℕ → String) → ℕ → ℕ × AgentResult → Type 0
IsDelivery owner unused d = (owner (d.0) ≡ d.1.command_id) × (d.0 < unused)

abbrev pub IsAnswer : AgentCommand × AgentResult → Type 0
IsAnswer p = p.1.command_id ≡ p.0.id

some-inj {ℓ} : {A : Type ℓ} {x y : A} → some x ≡ some y → x ≡ y
some-inj e = cc

module _ (owner : ℕ → String) (c : Coordinator) (v : Routes owner c) where
  pub register_vm-Routes : (vm : String) → Routes owner (register_vm vm c)
  unfolding register_vm
  register_vm-Routes vm = record {
    waiters = λ a k ch e. ground (arith, v.waiters a k ch);
    filled = v.filled;
    live = λ w a e. ground (arith, v.live w a, String-discrete vm w);
  }

  -- A change of one state that keeps its machine and that adds no waiter.
  set_state-Routes :
      (a : ℕ) (s : AgentState)
      → s.closed ≡ (c.states a).closed
      → s.vm_id ≡ (c.states a).vm_id
      → ((k : String) (ch : ℕ)
          → s.result_waiters.get k ≡ some ch
          → (c.states a).result_waiters.get k ≡ some ch)
      → Routes owner (set_state a s c)
  set_state-Routes a s e f g = record {
    waiters = λ b k ch p. ground (arith, v.waiters b k ch, g k ch);
    filled = v.filled;
    live = λ w b p. ground (arith, v.live w b);
  }

  abbrev closed_at : String → ℕ → Coordinator
  closed_at vm a = record c {
    states = put c.states a (record (c.states a) { closed = true });
    agents = erase vm c.agents;
  }

  closed_at-Routes : (vm : String) (a : ℕ) → (c.states a).vm_id ≡ vm → Routes owner (closed_at vm a)
  closed_at-Routes vm a m = record {
    waiters = λ b k ch p. ground (arith, v.waiters b k ch);
    filled = v.filled;
    live = λ w b p. ground (arith, v.live w b, String-discrete vm w, m);
  }

  pub push-Routes :
      (call : Sender) (t : Coordinator)
      → push call c ≡ pushed t
      → Routes owner t × (t.unused ≡ c.unused)
  unfolding push
  push-Routes call t e = elim (Bool-cases (c.states call.agent).closed) [
    | inl f ↦ absurd (ground (arith, e, f))
    | inr f ↦ elim (Bool-cases (ltb (length (c.states call.agent).commands) 16)) [
      | inr g ↦ absurd (ground (arith, e, f, g))
      | inl g ↦
          let more = record (c.states call.agent) {
            commands = (c.states call.agent).commands ++ call.command ∷ [];
          } in
          let same : t ≡ set_state call.agent more c = ground (arith, e, f, g) in
          rw same (set_state-Routes call.agent more refl refl (λ k ch p. p), refl)
    ]
  ]

  pub close_waiter-Routes : (call : Sender) → Routes owner (close_waiter call c)
  unfolding close_waiter
  close_waiter-Routes call =
      set_state-Routes call.agent _ refl refl
        (λ k ch p. ground (arith, String-discrete call.command.id k))

  pub poll_at-Routes :
      (a : ℕ) (cmd : AgentCommand) (t : Coordinator)
      → poll_at a c ≡ polled cmd t
      → Routes owner t × (t.unused ≡ c.unused)
  unfolding poll_at
  poll_at-Routes a cmd t e = from (c.states a).commands e
    where
      from :
          (l : List AgentCommand)
          → poll_from a (c.states a) c l ≡ polled cmd t
          → Routes owner t × (t.unused ≡ c.unused)
      from [] p = absurd (ground (arith, p))
      from (x ∷ rest) p =
          let same : t ≡ set_state a (record (c.states a) { commands = rest }) c =
            ground (arith, p) in
          rw same (
            set_state-Routes a (record (c.states a) { commands = rest }) refl refl (λ k ch q. q),
            refl,
          )

  pub offer-Routes :
      (ch : ℕ) (r : AgentResult) (t : Coordinator)
      → owner ch ≡ r.command_id
      → offer ch r c ≡ some t
      → Routes owner t × (t.unused ≡ c.unused)
  unfolding offer
  offer-Routes ch r t o e = elim (Option-cases (c.channels ch)) [
    | inr (x, f) ↦ absurd (ground (arith, e, ap (offer_to ch r c) f))
    | inl f ↦
        let same : t ≡ record c { channels = put c.channels ch (some r) } =
          some-inj (sym e ∙ ap (offer_to ch r c) f) in
        rw same (
          record {
            waiters = v.waiters;
            filled = λ i x p. ground (arith, v.filled i x, o);
            live = v.live;
          },
          refl,
        )
  ]

  pub notify_agent_ready-Routes :
      (vm agent : String) (t : Coordinator)
      → notify_agent_ready vm agent c ≡ some t
      → Routes owner t × (t.unused ≡ c.unused)
  unfolding notify_agent_ready
  notify_agent_ready-Routes vm agent t e = elim (Option-cases (c.agents.get vm)) [
    | inl f ↦ absurd (ground (arith, e, ap (notify_at agent c) f))
    | inr (a, f) ↦
        let same : t ≡ set_state a (record (c.states a) { agent_id = agent; is_ready = true }) c =
          some-inj (sym e ∙ ap (notify_at agent c) f) in
        rw same (
          set_state-Routes a (record (c.states a) { agent_id = agent; is_ready = true }) refl refl
              (λ k ch p. p),
          refl,
        )
  ]

  pub unregister_vm-Routes :
      (vm : String) (t : Coordinator)
      → unregister_vm vm c ≡ some t
      → Routes owner t × (t.unused ≡ c.unused)
  unfolding unregister_vm
  unregister_vm-Routes vm t e = elim (Option-cases (c.agents.get vm)) [
    | inl f ↦ let same : t ≡ c = some-inj (sym e ∙ ap (unregister_at vm c) f) in rw same (v, refl)
    | inr (a, f) ↦
        let (o, m, _) = v.live vm a f in
        let closes : close_commands vm a c ≡ some (closed_at vm a) =
          unfold close_commands in rw o refl in
        let same : t ≡ closed_at vm a = some-inj (sym e ∙ ap (unregister_at vm c) f ∙ closes) in
        rw same (closed_at-Routes vm a m, refl)
  ]

  emptied-Routes : (ch : ℕ) → Routes owner (record c { channels = put c.channels ch none })
  emptied-Routes ch = record {
    waiters = v.waiters;
    filled = λ i r p. ground (arith, v.filled i r);
    live = v.live;
  }

  pub find_waiter-Routes :
      (vm : String) (r : AgentResult) (ch : ℕ)
      → find_waiter vm r c ≡ some ch
      → (owner ch ≡ r.command_id) × (ch < c.unused)
  unfolding find_waiter
  find_waiter-Routes vm r ch e = elim (Option-cases (c.agents.get vm)) [
    | inl f ↦ absurd (ground (arith, e, ap (waiter_of r c) f))
    | inr (a, f) ↦ v.waiters a r.command_id ch (ap (waiter_of r c) (sym f) ∙ e)
  ]

  abbrev opened : ℕ → AgentCommand → Coordinator
  opened a cmd = record c {
    states = put c.states a (record (c.states a) {
      result_waiters = insert cmd.id c.unused (c.states a).result_waiters;
    });
    channels = put c.channels c.unused none;
    unused = suc c.unused;
  }

  opened-Routes : (a : ℕ) (cmd : AgentCommand) → Routes (put owner c.unused cmd.id) (opened a cmd)
  opened-Routes a cmd = record {
    waiters = λ b k ch p. ground (arith, v.waiters b k ch, String-discrete cmd.id k);
    filled = λ ch r p. ground (arith, v.filled ch r);
    live = λ w b p. ground (arith, v.live w b);
  }

  -- A new waiter, whose channel is owned by its command.
  pub open_waiter-Routes :
      (vm : String) (cmd : AgentCommand) (call : Sender) (t : Coordinator)
      → open_waiter vm cmd c ≡ some (call, t)
      → Routes (put owner c.unused cmd.id) t
        × (t.unused ≡ suc c.unused)
        × (call.channel ≡ c.unused)
        × (call.command ≡ cmd)
  unfolding open_waiter
  open_waiter-Routes vm cmd call t e = elim (Option-cases (c.agents.get vm)) [
    | inl f ↦ absurd (ground (arith, e, ap (open_at cmd c) f))
    | inr (a, f) ↦
        let both = some-inj (sym e ∙ ap (open_at cmd c) f) in
        let same : t ≡ opened a cmd = ap (λ p. p.1) both in
        (
          rw same (opened-Routes a cmd),
          ap (λ p. p.1.unused) both,
          ap (λ p. p.0.channel) both,
          ap (λ p. p.0.command) both,
        )
  ]

-- A result that is collected is the answer to its command.
pub collect-Routes :
    (owner : ℕ → String) (c : Coordinator) (v : Routes owner c) (call : Sender) (r : AgentResult)
    (t : Coordinator)
    → owner call.channel ≡ call.command.id
    → collect call c ≡ some (r, t)
    → Routes owner t × (t.unused ≡ c.unused) × (r.command_id ≡ call.command.id)
unfolding collect close_waiter
collect-Routes owner c v call r t o e = elim (Option-cases (c.channels call.channel)) [
  | inl f ↦ absurd (ground (arith, e, ap (collect_at call c) f))
  | inr (x, f) ↦
      let both = some-inj (sym e ∙ ap (collect_at call c) f) in
      let taken = record c { channels = put c.channels call.channel none } in
      let same : t ≡ close_waiter call taken = ap (λ p. p.1) both in
      (
        rw same (close_waiter-Routes owner taken (emptied-Routes owner c v call.channel) call),
        ap (λ p. p.1.unused) both,
        ap (λ p. p.0.command_id) both ∙ v.filled call.channel x f ∙ o,
      )
]
