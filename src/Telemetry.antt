-- ===== src/Telemetry.antt =====
-- TelemetryServer of go-orchestrator/internal/api/telemetry_server.go: the three streams of a guest agent.
-- Of the messages, the fields that are logged.
-- What the logger gets is the list of its lines, and what Recv gives one after the other is an argument.
use dvf.Prelude.{
  ℕ, suc, ◌+◌, ◌^◌, ◌<◌, ◌≡◌, refl, ◌∙◌, ap, String, List, [], ◌∷◌, map, length, arith,
}
use dvf.Prelude.Int.{ℤ, pos, add64, add64_pos}
use dvf.Types.{Float64}
use dvf.Engine.Host.{Answer, gives, refuses}

pub record LogEntry : Type 0 where
  pub vm_id : String
  pub severity : String
  pub source : String
  pub message : String

pub record MetricEntry : Type 0 where
  pub vm_id : String
  pub name : String
  pub value : Float64

pub record EventEntry : Type 0 where
  pub vm_id : String
  pub event_type : String
  pub payload : String

pub record StreamAck : Type 0 where
  pub received_count : ℤ
  pub status : String

-- A line of the logger.
pub data LogLine : Type 0 where
  agent_log : String → String → String → String → LogLine
  agent_metric : String → String → Float64 → LogLine
  agent_event : String → String → String → LogLine

-- What a stream brings: its end, an error, or an entry and the rest.
pub data Stream {ℓ} (A : Type ℓ) : Type ℓ where
  eof : Stream A
  fails : String → Stream A
  entry : A → Stream A → Stream A

-- The loop that the three handlers share, with the count so far: the lines logged, and the end.
abbrev pub receive_all {ℓ} :
    {A : Type ℓ} → (A → LogLine) → ℤ → Stream A → List LogLine × Answer StreamAck
receive_all line n eof = ([], gives (record { received_count = n; status = "ok" }))
receive_all line n (fails e) = ([], refuses e)
receive_all line n (entry a rest) =
    let (lines, end) = receive_all line (add64 n (pos 1)) rest in (line a ∷ lines, end)

abbrev log_line : LogEntry → LogLine
log_line e = agent_log e.vm_id e.severity e.source e.message

abbrev metric_line : MetricEntry → LogLine
metric_line e = agent_metric e.vm_id e.name e.value

abbrev event_line : EventEntry → LogLine
event_line e = agent_event e.vm_id e.event_type e.payload

-- StreamLogs, StreamMetrics and StreamEvents
abbrev pub stream_logs : Stream LogEntry → List LogLine × Answer StreamAck
stream_logs s = receive_all log_line (pos 0) s

abbrev pub stream_metrics : Stream MetricEntry → List LogLine × Answer StreamAck
stream_metrics s = receive_all metric_line (pos 0) s

abbrev pub stream_events : Stream EventEntry → List LogLine × Answer StreamAck
stream_events s = receive_all event_line (pos 0) s

-- A stream of the given entries with the given end.
abbrev pub stream_of {ℓ} : {A : Type ℓ} → List A → Stream A → Stream A
stream_of [] end = end
stream_of (a ∷ rest) end = entry a (stream_of rest end)

-- A stream that is not so long that its count passes 64 bits is acknowledged with the number of its
-- entries, which are all logged in order.
pub receive_all-exact {ℓ} :
    {A : Type ℓ} (line : A → LogLine) (n : ℕ) (entries : List A)
    → n + length entries < 2 ^ 63
    → receive_all line (pos n) (stream_of entries eof) ≡ (
      map line entries,
      gives (record { received_count = pos (n + length entries); status = "ok" }),
    )
receive_all-exact line n [] l =
    ap (λ m. ([], gives (record { received_count = pos m; status = "ok" }))) (omega arith)
receive_all-exact line n (a ∷ rest) l =
    let one : add64 (pos n) (pos 1) ≡ pos (n + 1) = add64_pos n 1 (omega arith) in
    let sum : n + 1 + length rest ≡ n + suc (length rest) = omega arith in
    ap (λ r. (line a ∷ r.0, r.1))
      (ap (λ m. receive_all line m (stream_of rest eof)) one
        ∙ receive_all-exact line (n + 1) rest (omega arith)
        ∙ ap (λ m. (map line rest, gives (record { received_count = pos m; status = "ok" }))) sum)

-- A stream that breaks is answered with its error, after the entries before it were logged.
pub receive_all-fails {ℓ} :
    {A : Type ℓ} (line : A → LogLine) (n : ℤ) (entries : List A) (e : String)
    → receive_all line n (stream_of entries (fails e)) ≡ (map line entries, refuses e)
receive_all-fails line n [] e = refl
receive_all-fails line n (a ∷ rest) e =
    ap (λ r. (line a ∷ r.0, r.1)) (receive_all-fails line (add64 n (pos 1)) rest e)
