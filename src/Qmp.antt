-- ===== src/Qmp.antt =====
-- QMPClient of go-orchestrator/internal/vm/qmp_client.go: the handshake, what the reader goroutine does
-- with a message, and Close, with the messages of vm/qmp_types.go. A json.RawMessage is a text, or none
-- where the key is missing. The channels are the values that wait in them.
pub mod Calls
mod Reader
pub mod Phase
pub mod Answers
mod Tests
use dvf.Prelude.{
  ℕ, String, List, [], ◌∷◌, ◌++◌, Option, none, some, Bool, true, false, ◌||◌, not, ◌==◌, ltb,
  length, if◌then◌else◌,
}
use dvf.Prelude.Int.{ℤ, pos}
use dvf.Prelude.Dict.{is_some}
use dvf.Machines.Args.{texts}
use dvf.Engine.Host.{Answer, gives, refuses}

pub record QmpVersion : Type 0 where
  pub major : ℤ
  pub minor : ℤ
  pub micro : ℤ
  pub package_name : String

pub record QmpCommand : Type 0 where
  pub execute : String
  pub arguments : Option String

pub record QmpError : Type 0 where
  pub class : String
  pub desc : String

pub record QmpResponse : Type 0 where
  pub result : Option String
  pub error : Option QmpError

pub record QmpTimestamp : Type 0 where
  pub seconds : ℤ
  pub microseconds : ℤ

pub record QmpEvent : Type 0 where
  pub event : String
  pub payload : Option String
  pub timestamp : QmpTimestamp

pub record QmpMessage : Type 0 where
  pub qmp : Option String
  pub result : Option String
  pub error : Option QmpError
  pub event : String
  pub payload : Option String
  pub timestamp : Option QmpTimestamp

pub record QmpClient : Type 0 where
  pub socket_path : String
  pub version : Option QmpVersion
  pub response_ch : Option QmpResponse  -- room for one
  pub events_ch : List QmpEvent  -- room for 64
  pub done : Bool  -- the reader goroutine has ended
  pub closed : Bool

abbrev pub new_qmp_client : String → QmpClient
new_qmp_client path = record {
  socket_path = path;
  version = none;
  response_ch = none;
  events_ch = [];
  done = false;
  closed = false;
}

abbrev pub is_response : QmpMessage → Bool
is_response msg = is_some msg.result || is_some msg.error

abbrev pub is_event : QmpMessage → Bool
is_event msg = not (msg.event == "")

abbrev pub response_of : QmpMessage → QmpResponse
response_of msg = record { result = msg.result; error = msg.error }

abbrev timestamp_of : Option QmpTimestamp → QmpTimestamp
timestamp_of none = record { seconds = pos 0; microseconds = pos 0 }
timestamp_of (some t) = t

abbrev pub event_of : QmpMessage → QmpEvent
event_of msg = record {
  event = msg.event;
  payload = msg.payload;
  timestamp = timestamp_of msg.timestamp;
}

-- A send on the channel of responses, and on that of events; a full channel drops the value.
abbrev pub send_response : QmpResponse → QmpClient → QmpClient
send_response r c = if is_some c.response_ch then c else record c { response_ch = some r }

abbrev pub send_event : QmpEvent → QmpClient → QmpClient
send_event e c =
    if ltb (length c.events_ch) 64 then record c { events_ch = c.events_ch ++ e ∷ [] } else c

-- What the reader does with one message.
unfoldable pub route : QmpMessage → QmpClient → QmpClient
route msg c =
    if is_response msg
    then send_response (response_of msg) c
    else if is_event msg
    then send_event (event_of msg) c
    else c

-- What the socket brings to one Connect; a greeting or a reply that cannot be read is none.
pub record Handshake : Type 0 where
  pub dialed : Bool
  pub greeting : Option QmpVersion
  pub capabilities_sent : Bool
  pub reply : Option QmpResponse

abbrev reply_error : Option QmpResponse → Option String
reply_error none = some "reading capabilities response"
reply_error (some r) = if is_some r.error then some "qmp_capabilities rejected" else none

abbrev greeted : Handshake → Option QmpVersion → QmpClient → QmpClient × Option String
greeted h none c = (c, some "reading QMP greeting")
greeted h (some v) c = (
  record c { version = some v },
  if h.capabilities_sent then reply_error h.reply else some "sending qmp_capabilities",
)

-- Connect, with its error. The reader starts where there is none.
unfoldable pub connect : Handshake → QmpClient → QmpClient × Option String
connect h c = if h.dialed then greeted h h.greeting c else (c, some "dialing QMP socket")

unfoldable pub error_text : QmpError → String
error_text e = texts ("QMP error [" ∷ e.class ∷ "]: " ∷ e.desc ∷ [])

-- What Execute returns for a response.
unfoldable pub executed : QmpResponse → Answer (Option String)
unfolding error_text
executed r = answer r.error
  where
    answer : Option QmpError → Answer (Option String)
    answer none = gives r.result
    answer (some e) = refuses (error_text e)

abbrev pub close : QmpClient → QmpClient
close c = if c.closed then c else record c { closed = true }

pub record QueryStatusResult : Type 0 where
  pub running : Bool
  pub status : String

-- QueryStatus on what Execute returned; the JSON library is an argument.
unfoldable pub query_status :
    (Option String → Option QueryStatusResult) → Answer (Option String) → Answer QueryStatusResult
query_status parse (refuses e) = refuses e
query_status parse (gives raw) = parsed (parse raw)
  where
    parsed : Option QueryStatusResult → Answer QueryStatusResult
    parsed none = refuses "parsing query-status response"
    parsed (some result) = gives result
