-- ===== src/Agents/Guests/Delivery.antt =====
-- Where the reports of an agent go, over AgentServer (api/agent_server.go) and over VirtioSerialHub
-- (vm/virtio_serial.go).
use Prim.Native.String.{len}
use dvf.Prelude.{
  ℕ, ◌≡◌, refl, sym, ◌∙◌, ap, String, String-discrete, List, [], ◌∷◌, All, subst, Option, none,
  some, true, false, ◌&&◌, ◌==◌, ltb, if◌then◌else◌, arith, Bool-cases, inl, inr,
}
use dvf.Prelude.Int.{pos}
use dvf.Prelude.Dict.{Dict}
use dvf.Prelude.Texts.{len_positive, len_text, slice_first, slice_rest}
use dvf.Types.{VmStatus, ready}
use dvf.Engine.Host.{gives, AgentResult}
use dvf.Engine.Execute.{text}
use dvf.Agents.{
  AgentState, not_yet, Coordinator, put, set_state, notify_agent_ready, wait_for_agent, wait_at,
  is_here, find_waiter, waiter_of, offer, offer_to,
}
use dvf.Agents.Exchange.{put_same}
use dvf.Agents.Guests.{
  agent_id_of, vm_of, ReportResultRequest, result_of, register_agent, report_result, deliver_result,
  deliver_to, or_unchanged, Line, Json, serve_message, Scanned, serve_decoded, serve_vm, int64_val,
  registered_with, str_val,
}

-- The machine of the id that an agent gets is its own.
vm_of-agent_id_of : (vm : String) → (vm == "") ≡ false → vm_of (agent_id_of vm) ≡ vm
unfolding vm_of agent_id_of
vm_of-agent_id_of vm e =
    rw (longer, slice_first "agent-" vm 6 refl, is_prefix) (slice_rest "agent-" vm 6 refl)
  where
    longer : ltb 6 (len (text "agent-" vm)) ≡ true
    longer = ground (arith, len_text "agent-" vm, len_positive vm (λ q. ground (arith, e, q)))

    is_prefix : ("agent-" == "agent-") ≡ true
    is_prefix = ground arith

agent_id_of-some : (vm : String) → (agent_id_of vm == "") ≡ false
unfolding agent_id_of
agent_id_of-some vm = ground (
  arith,
  len_text "agent-" vm,
  String-discrete (text "agent-" vm) "",
  λ (q : text "agent-" vm ≡ ""). ap len q,
)

-- A result for a command that waits on a registered machine goes into the waiter's channel.
deliver_result-fills :
    (vm : String) (r : AgentResult) (c : Coordinator) (a channel : ℕ)
    → c.agents.get vm ≡ some a
    → (c.states a).result_waiters.get r.command_id ≡ some channel
    → c.channels channel ≡ none
    → deliver_result vm r c ≡ some (record c { channels = put c.channels channel (some r) })
unfolding deliver_result find_waiter offer
deliver_result-fills vm r c a channel e w f =
    ap (λ o. deliver_to r c (waiter_of r c o)) e
    ∙ ap (deliver_to r c) w
    ∙ ap (offer_to channel r c) f

-- ReportResult under the id of a machine's agent is DeliverResult for the machine.
report_result-deliver :
    (vm : String) (req : ReportResultRequest) (c : Coordinator)
    → (vm == "") ≡ false
    → (req.command_id == "") ≡ false
    → req.agent_id ≡ agent_id_of vm
    → (report_result req c).0 ≡ or_unchanged c (deliver_result vm (result_of req) c)
unfolding report_result
report_result-deliver vm req c v k i = rw (i, agent_id_of-some vm, k, vm_of-agent_id_of vm v) refl

-- RegisterAgent of a registered machine signals that its agent is there, marks the machine as READY and
-- gives an agent id under which a report of a result, for a command whose waiter has an empty channel,
-- reaches the call that waits for it on the machine.
pub register_agent-report_result :
    {S : Type 0} (update : String → VmStatus → S → S) (vm : String) (c : Coordinator) (s : S)
    (a channel : ℕ) (req : ReportResultRequest)
    → (vm == "") ≡ false
    → (req.command_id == "") ≡ false
    → c.agents.get vm ≡ some a
    → (c.states a).result_waiters.get req.command_id ≡ some channel
    → c.channels channel ≡ none
    → req.agent_id ≡ agent_id_of vm
    → let t = register_agent update vm (c, s) in
      (t.1
        ≡ gives
            (record { agent_id = req.agent_id; heartbeat_interval_seconds = pos 5; status = "ok" }))
      × (t.0.1 ≡ update vm ready s)
      × (wait_for_agent vm t.0.0 ≡ is_here)
      × ((report_result req t.0.0).0.channels channel ≡ some (result_of req))
unfolding register_agent notify_agent_ready wait_for_agent
register_agent-report_result update vm c s a channel req v k e w f i =
    let x = record (c.states a) { agent_id = agent_id_of vm; is_ready = true } in
    let d = set_state a x c in
    let same = put_same c.states a x in
    let filled =
      deliver_result-fills vm (result_of req) d a channel e
        (ap (λ (y : AgentState). y.result_waiters.get req.command_id) same ∙ w) f in
    rw (v, e)
      (
        ap (λ z. gives (record { agent_id = z; heartbeat_interval_seconds = pos 5; status = "ok" }))
            (sym i),
        refl,
        ap (wait_at d) e ∙ ap (λ (y : AgentState). if y.is_ready then is_here else not_yet) same,
        ap (λ (y : Coordinator). y.channels channel)
              (report_result-deliver vm req d v k i ∙ ap (or_unchanged d) filled)
            ∙ put_same c.channels channel (some (result_of req)),
      )

-- What AgentServer does to the coordinator for an agent that calls it instead of sending the message.
abbrev pub report_of : String → Dict Json → ReportResultRequest
report_of vm m = record {
  agent_id = agent_id_of vm;
  command_id = str_val m "command_id";
  status = str_val m "status";
  output = str_val m "output";
  logs = str_val m "logs";
  duration_ms = int64_val m "duration_ms";
}

abbrev pub called : String → Dict Json → Coordinator → Coordinator
called vm m c =
    if str_val m "msg" == "register"
    then (register_agent (λ _ _ (s : ℕ). s) vm (c, 0)).0.0
    else if str_val m "msg" == "result"
    then (report_result (report_of vm m) c).0
    else c

-- The two ways agree on one message: on the coordinator, a message that the hub reads from a machine's line does what
-- AgentServer does for the same call of the machine's agent, where the machine's name is not empty and a
-- result names its command.
pub serve_message-called :
    (vm : String) (m : Dict Json) (l : Line)
    → (vm == "") ≡ false
    → (str_val m "msg" == "result" && str_val m "command_id" == "") ≡ false
    → (serve_message vm m l).coordinator ≡ called vm m l.coordinator
unfolding serve_message register_agent
serve_message-called vm m l v k = elim (Bool-cases (str_val m "msg" == "register")) [
  | inl e ↦ rw (e, v) (registers (notify_agent_ready vm (agent_id_of vm) l.coordinator))
  | inr e ↦ elim (Bool-cases (str_val m "msg" == "result")) [
    | inl f ↦
        rw (e, f)
          (sym
            (report_result-deliver vm (report_of vm m) l.coordinator v (ground (arith, f, k)) refl))
    | inr f ↦ rw (e, f) refl
  ]
]
  where
    registers :
        (o : Option Coordinator)
        → or_unchanged l.coordinator o
          ≡ (registered_with (λ _ _ (s : ℕ). s) vm (agent_id_of vm) (l.coordinator, 0) o).0.0
    registers none = refl
    registers (some d) = refl

-- The messages of a connection that are served: those that decode, before the context is done.
abbrev decoded : Option (Dict Json) → List (Dict Json) → List (Dict Json)
decoded none ms = ms
decoded (some m) ms = m ∷ ms

abbrev pub served : List Scanned → List (Dict Json)
served [] = []
served (x ∷ xs) = let rest = served xs in if x.is_done then [] else decoded x.message rest

-- The calls of an agent, one after the other.
abbrev pub called_all : String → List (Dict Json) → Coordinator → Coordinator
called_all vm [] c = c
called_all vm (m ∷ ms) c = called_all vm ms (called vm m c)

-- A message that is no result without a command.
abbrev pub NamesCommand : Dict Json → Type 0
NamesCommand m = (str_val m "msg" == "result" && str_val m "command_id" == "") ≡ false

-- The two ways agree on a whole connection: what its lines do to the coordinator is what the same calls
-- of AgentServer by the machine's agent do, one after the other, for the messages that decode before the
-- context is done, where the machine's name is not empty and each result among them names its command.
pub serve_vm-called :
    (vm : String) (xs : List Scanned) (l : Line)
    → (vm == "") ≡ false
    → All NamesCommand (served xs)
    → (serve_vm vm xs l).coordinator ≡ called_all vm (served xs) l.coordinator
unfolding serve_vm
serve_vm-called vm [] l v a = refl
serve_vm-called vm (x ∷ xs) l v a = elim (Bool-cases x.is_done) [
  | inl e ↦ rw e refl
  | inr e ↦
      let a' : All NamesCommand (decoded x.message (served xs)) =
        subst (All NamesCommand) (rw e refl) a in
      rw e (
        serve_vm-called vm xs (serve_decoded vm x.message l) v (rest x.message (served xs) a')
        ∙ first x.message (served xs) a')
]
  where
    rest :
        (o : Option (Dict Json)) (ms : List (Dict Json))
        → All NamesCommand (decoded o ms)
        → All NamesCommand ms
    rest none ms a = a
    rest (some m) ms a = a.1

    first :
        (o : Option (Dict Json)) (ms : List (Dict Json))
        → All NamesCommand (decoded o ms)
        → called_all vm ms (serve_decoded vm o l).coordinator
          ≡ called_all vm (decoded o ms) l.coordinator
    first none ms a = refl
    first (some m) ms a = ap (called_all vm ms) (serve_message-called vm m l v (a.0))
