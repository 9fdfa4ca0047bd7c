-- ===== src/Agents/Guests/Pump/Order.antt =====
-- The order in which a pump (vm/virtio_serial.go, commandPump) writes commands.
use dvf.Prelude.{
  Option, none, ℕ, ◌<◌, ◌≡◌, refl, subst, sym, ◌∙◌, ap, String, List, [], ◌∷◌, ◌++◌, map, some,
  Bool, true, false, if◌then◌else◌, arith,
}
use dvf.Engine.Host.{AgentCommand}
use dvf.Agents.{Coordinator, put, set_state, is_closed, is_empty, poll_at, poll_from}
use dvf.Agents.Routing.{Reach-IsRouted}
use dvf.Agents.System as System
use dvf.Agents.System.{
  Callers, no_callers, registers, unregisters, notifies, opens, pushes, collects, stops_sending,
  stops_waiting, polls, finds, offers, times_out,
}
use dvf.Agents.Guests.Pump.{
  CommandMessage, command_message, Pump, waits, asks, looked_up, looks_up, returned, has, received,
  encode, Session, begins, in_hand, queue_of, accepted_by, Step, calls, takes, is_cancelled, writes,
  Reach, here, later,
}
use dvf.Agents.Guests.Pump.Queue.{nil_right, some-inj, Grows, step-Grows}

module _ (vm : String) (a : ℕ) where
  -- What was accepted is what was written, what the pump has, and what is in the queue, in this order.
  record IsInOrder (s : Session) : Type 0 where
    pub owns : (b : ℕ) → s.callers.coordinator.agents.get vm ≡ some b → b ≡ a
    pub below : a < s.callers.coordinator.unused
    pub asked : (b : ℕ) → s.pump ≡ asks b → b ≡ a
    pub order :
        map command_message s.accepted
        ≡ s.written ++ map command_message (in_hand s.pump ++ queue_of a s)

  map-append :
      (xs ys : List AgentCommand)
      → map command_message (xs ++ ys) ≡ map command_message xs ++ map command_message ys
  map-append [] ys = refl
  map-append (x ∷ xs) ys = ap (λ l. command_message x ∷ l) (map-append xs ys)

  assoc {ℓ} : {A : Type ℓ} (xs ys zs : List A) → (xs ++ ys) ++ zs ≡ xs ++ (ys ++ zs)
  assoc [] ys zs = refl
  assoc (x ∷ xs) ys zs = ap (λ l. x ∷ l) (assoc xs ys zs)

  grown :
      (accepted hand queue more : List AgentCommand) (written : List CommandMessage)
      → map command_message accepted ≡ written ++ map command_message (hand ++ queue)
      → map command_message (accepted ++ more)
        ≡ written ++ map command_message (hand ++ (queue ++ more))
  grown accepted hand queue more written e =
      map-append accepted more
      ∙ ap (λ l. l ++ map command_message more) e
      ∙ assoc written (map command_message (hand ++ queue)) (map command_message more)
      ∙ ap (λ l. written ++ l)
          (sym (map-append (hand ++ queue) more) ∙ ap (map command_message) (assoc hand queue more))

  calls-IsInOrder :
      (s : Session) (t : Callers) (more : List AgentCommand)
      → Grows vm a s.callers.coordinator t.coordinator more
      → IsInOrder s
      → IsInOrder (record s { callers = t; accepted = s.accepted ++ more })
  calls-IsInOrder s t more g v = record {
    owns = λ b e. v.owns b (g.owns b e);
    below = omega (arith, v.below, g.below);
    asked = v.asked;
    order =
        grown s.accepted (in_hand s.pump) (queue_of a s) more s.written v.order
        ∙ ap (λ l. s.written ++ map command_message (in_hand s.pump ++ l)) (sym g.queue);
  }

  -- GetNextCommand takes the first command of the queue, or ends the pump.
  data Received (c : Coordinator) (p : Pump) (d : Coordinator) : Type 0 where
    ends : p ≡ returned → d ≡ c → Received c p d
    gets :
        (cmd : AgentCommand) (rest : List AgentCommand)
        → p ≡ has cmd
        → (c.states a).commands ≡ cmd ∷ rest
        → d ≡ set_state a (record (c.states a) { commands = rest }) c
        → Received c p d

  received-exact :
      (c d : Coordinator) (p : Pump) → received c (poll_at a c) ≡ some (p, d) → Received c p d
  unfolding received poll_at
  received-exact c d p e = from (c.states a).commands refl e
    where
      empty :
          (closed : Bool)
          → received c (if closed then is_closed else is_empty) ≡ some (p, d)
          → Received c p d
      empty true q = let same = some-inj (sym q) in ends (ap (λ x. x.0) same) (ap (λ x. x.1) same)
      empty false q = absurd cc

      from :
          (l : List AgentCommand)
          → (c.states a).commands ≡ l
          → received c (poll_from a (c.states a) c l) ≡ some (p, d)
          → Received c p d
      from [] m q = empty (c.states a).closed q
      from (cmd ∷ rest) m q =
          let same = some-inj (sym q) in gets cmd rest (ap (λ x. x.0) same) m (ap (λ x. x.1) same)

  pump_order :
      (s : Session)
      → IsInOrder s
      → {p : Pump} → s.pump ≡ p
      → map command_message s.accepted
        ≡ s.written ++ map command_message (in_hand p ++ queue_of a s)
  pump_order s v e =
      v.order ∙ ap (λ x. s.written ++ map command_message (in_hand x ++ queue_of a s)) e

  taken :
      (s : Session) (rest : List AgentCommand)
      → let c = s.callers.coordinator in
        (put c.states a (record (c.states a) { commands = rest }) a).commands ≡ rest
  taken s rest = ground arith

  takes-IsInOrder :
      (s : Session) (p : Pump) (c : Coordinator)
      → s.pump ≡ asks a
      → received s.callers.coordinator (poll_at a s.callers.coordinator) ≡ some (p, c)
      → IsInOrder s
      → IsInOrder (record s { callers = record s.callers { coordinator = c }; pump = p })
  takes-IsInOrder s p c w e v = elim (received-exact s.callers.coordinator c p e) [
    | ends f same ↦
        rw (f, same)
          (record {
            owns = v.owns;
            below = v.below;
            asked = λ b z. absurd cc;
            order = pump_order s v w;
          })
    | gets cmd rest f q same ↦
        rw (f, same)
          (record {
            owns = v.owns;
            below = v.below;
            asked = λ b z. absurd cc;
            order =
                pump_order s v w
                ∙ ap (λ x. s.written ++ map command_message x)
                    (q ∙ ap (λ l. cmd ∷ l) (sym (taken s rest)));
          })
  ]

  looks_up-IsInOrder :
      (s : Session)
      → s.pump ≡ waits
      → IsInOrder s
      → IsInOrder (record s { pump = looked_up (s.callers.coordinator.agents.get vm) })
  unfolding looked_up
  looks_up-IsInOrder s w v = from (s.callers.coordinator.agents.get vm) refl
    where
      from :
          (o : Option ℕ)
          → s.callers.coordinator.agents.get vm ≡ o
          → IsInOrder (record s { pump = looked_up o })
      from none e = record {
        owns = v.owns;
        below = v.below;
        asked = λ b z. absurd cc;
        order = pump_order s v w;
      }
      from (some b) e = record {
        owns = v.owns;
        below = v.below;
        asked = λ i z. cc (z, v.owns b e);
        order = pump_order s v w;
      }

  writes-IsInOrder :
      (s : Session) (ok : Bool) (cmd : AgentCommand)
      → s.pump ≡ has cmd
      → IsInOrder s
      → IsInOrder
          (record s { pump = (encode ok cmd s.written).0; written = (encode ok cmd s.written).1 })
  unfolding encode
  writes-IsInOrder s true cmd e v = record {
    owns = v.owns;
    below = v.below;
    asked = λ b z. absurd cc;
    order =
        pump_order s v e
        ∙ sym (assoc s.written (command_message cmd ∷ []) (map command_message (queue_of a s)));
  }
  writes-IsInOrder s false cmd e v = record {
    owns = v.owns;
    below = v.below;
    asked = λ b z. absurd cc;
    order = pump_order s v e;
  }

  Step-IsInOrder : {s t : Session} → Step vm a s t → IsInOrder s → IsInOrder t
  Step-IsInOrder {s} (calls t st p q) v =
      calls-IsInOrder s t (accepted_by a st) (step-Grows vm a st p q v.below) v
  Step-IsInOrder {s} (looks_up w) v = looks_up-IsInOrder s w v
  Step-IsInOrder {s} (takes b p c w e) v =
      let same = v.asked b w in
      takes-IsInOrder s p c (w ∙ ap asks same)
        (subst (λ i. received s.callers.coordinator (poll_at i s.callers.coordinator) ≡ some (p, c))
          same e)
        v
  Step-IsInOrder {s} (is_cancelled b w) v = record {
    owns = v.owns;
    below = v.below;
    asked = λ i z. absurd cc;
    order = pump_order s v w;
  }
  Step-IsInOrder {s} (writes ok cmd e) v = writes-IsInOrder s ok cmd e v

  Reach-IsInOrder : {s t : Session} → Reach vm a s t → IsInOrder s → IsInOrder t
  Reach-IsInOrder here v = v
  Reach-IsInOrder (later r st) v = Step-IsInOrder st (Reach-IsInOrder r v)

  Reach-trans : {s t u : Session} → Reach vm a s t → Reach vm a t u → Reach vm a s u
  Reach-trans r here = r
  Reach-trans r (later q st) = later (Reach-trans r q) st

  -- The course of a pump whose writes succeed.
  empties :
      (l : List AgentCommand) (s : Session)
      → s.callers.coordinator.agents.get vm ≡ some a
      → s.pump ≡ waits
      → queue_of a s ≡ l
      → (t : Session) × Reach vm a s t
        × (t.pump ≡ waits)
        × (queue_of a t ≡ [])
        × (t.accepted ≡ s.accepted)
  unfolding received encode looked_up poll_at
  empties [] s e w q = (s, here, w, q, refl)
  empties (cmd ∷ rest) s e w q =
      let c = s.callers.coordinator in
      let d = set_state a (record (c.states a) { commands = rest }) c in
      let s1 = record s { callers = record s.callers { coordinator = d }; pump = has cmd } in
      let s2 = record s1 { pump = waits; written = s.written ++ command_message cmd ∷ [] } in
      let got = ap (λ l. received c (poll_from a (c.states a) c l)) q in
      let s0 = record s { pump = asks a } in
      let asked : Reach vm a s s0 =
        subst (λ p. Reach vm a s (record s { pump = p })) (ap looked_up e)
          (later here (looks_up w)) in
      let first : Reach vm a s s1 = later asked (takes a (has cmd) d refl got) in
      let both : Reach vm a s s2 = later first (writes true cmd refl) in
      let (t, r, x, y, z) = empties rest s2 e refl (taken s rest) in
      (t, Reach-trans both r, x, y, z)

-- While no other caller takes commands from the machine's queue or registers the machine again, and
-- whatever writes fail, the commands that a pump has written, the one that it has, and those in the queue
-- are the commands that SendCommand put there since before the pump began, each once and in their order.
pub writes_in_order :
    (vm : String) (a : ℕ) (s : Callers) (t : Session)
    → System.Reach no_callers s
    → s.coordinator.agents.get vm ≡ some a
    → Reach vm a (begins a s) t
    → map command_message t.accepted
      ≡ t.written ++ map command_message (in_hand t.pump ++ queue_of a t)
writes_in_order vm a s t h e r =
    let (_, _, l) = (Reach-IsRouted h).routes.live vm a e in
    (Reach-IsInOrder vm a r (record {
      owns = λ b f. some-inj (sym f ∙ e);
      below = l;
      asked = λ b z. absurd cc;
      order = refl;
    })).order

-- From each state that a pump and the other callers come to while none of these takes commands from the
-- machine's queue or registers the machine again, in which the pump is about to ask and the machine is
-- registered, successful writes bring the pump to a state in which it has written every command that
-- SendCommand has put in the queue since before the pump began.
pub writes_all :
    (vm : String) (a : ℕ) (s : Callers) (t : Session)
    → System.Reach no_callers s
    → s.coordinator.agents.get vm ≡ some a
    → Reach vm a (begins a s) t
    → t.pump ≡ waits
    → t.callers.coordinator.agents.get vm ≡ some a
    → (u : Session) × Reach vm a t u × (u.written ≡ map command_message t.accepted)
writes_all vm a s t h e r w f =
    let (u, q, x, y, z) = empties vm a (queue_of a t) t f w refl in
    (
      u,
      q,
      sym (
          ap (map command_message) (sym z)
          ∙ writes_in_order vm a s u h e (Reach-trans vm a r q)
          ∙ ap (λ p. u.written ++ map command_message (in_hand p ++ queue_of a u)) x
          ∙ ap (λ l. u.written ++ map command_message l) y
          ∙ sym (nil_right u.written)),
    )
