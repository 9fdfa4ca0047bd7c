-- ===== src/Gateway.antt =====
-- The HTTP handlers of RESTGateway in go-orchestrator/internal/api/rest_gateway.go, with EventBus of
-- telemetry/event_bus.go, whose Ping the readiness check uses. A handler gets the headers that are set so
-- far. The gRPC gateway behind the routes, the decoding of a body, the clock and the answers of the
-- servers are arguments. http.ServeMux picks the route of an exact path, and "/" for any other.
pub mod Routes
mod Tests
use dvf.Prelude.{
  ℕ, String, List, [], ◌∷◌, Option, none, some, Bool, true, false, not, ◌&&◌, ◌==◌, if◌then◌else◌,
  length,
}
use dvf.Prelude.Dict.{Dict, insert, is_some, MapRange, empty}
use dvf.Types.{Time}
use dvf.Cluster.{Node, HeartbeatRequest, NodeRegistry, register, list}
use dvf.Engine.Host.{Answer, gives, refuses}
use dvf.Engine.Execute.{text}

-- EventBus; what Redis holds of the stream is the list of published events.
pub record Event : Type 0 where
  pub kind : String
  pub entity_id : String
  pub device_id : String
  pub status : String
  pub payload : String

pub record EventBus : Type 0 where
  pub enabled : Bool

-- NewEventBus, by the answer to its probe.
abbrev pub new_event_bus : Bool → EventBus
new_event_bus reachable = record { enabled = reachable }

-- The event that Publish adds to the stream; none where the bus is disabled or Redis refuses. It reports
-- no error.
unfoldable pub publish : Bool → Event → EventBus → List Event → List Event
publish accepted event bus stream = if bus.enabled && accepted then event ∷ stream else stream

-- Ping, with its error.
unfoldable pub ping : Option String → EventBus → Option String
ping answer bus = if bus.enabled then answer else some "event bus disabled"

pub record Request : Type 0 where
  pub method : String
  pub path : String
  pub body : String

pub record Check : Type 0 where
  pub name : String
  pub ok : Bool
  pub err : String

pub data Body : Type 0 where
  nothing : Body
  message : String → Body
  health : String → List Check → Body
  nodes : List Node → ℕ → Body

pub record Response : Type 0 where
  pub code : ℕ
  pub headers : Dict String
  pub body : Body

abbrev pub Handler : Type 0
Handler = Request → Dict String → NodeRegistry → Response × NodeRegistry

abbrev pub cors : Dict String → Dict String
cors h =
    insert "Access-Control-Allow-Headers" "Content-Type, Authorization, X-Request-ID, traceparent" (
      insert "Access-Control-Allow-Methods" "GET, POST, PUT, DELETE, OPTIONS"
        (insert "Access-Control-Allow-Origin" "*" h))

-- withCORS
unfoldable pub with_cors : Handler → Handler
with_cors handler req h r =
    if req.method == "OPTIONS"
    then (record { code = 204; headers = cors h; body = nothing }, r)
    else handler req (cors h) r

abbrev json : Dict String → Dict String
json h = insert "Content-Type" "application/json" h

-- http.Error
abbrev fails : ℕ → String → Dict String → Response
fails code msg h = record {
  code = code;
  headers =
      insert "X-Content-Type-Options" "nosniff"
        (insert "Content-Type" "text/plain; charset=utf-8" h);
  body = message msg;
}

abbrev err_text : Option String → String
err_text none = ""
err_text (some e) = e

abbrev check_of : String → Option String → Check
check_of name err = record { name = name; ok = not (is_some err); err = err_text err }

abbrev pub checks_of : List (Option String) → List Check
checks_of [] = []
checks_of (e ∷ es) = check_of "extra" e ∷ checks_of es

abbrev pub all_ok : List Check → Bool
all_ok [] = true
all_ok (c ∷ cs) = c.ok && all_ok cs

abbrev answered : List Check → Dict String → Response
answered checks h = record {
  code = if all_ok checks then 200 else 503;
  headers = json h;
  body = health (if all_ok checks then "ok" else "degraded") checks;
}

-- The handlers that RegisterHealthChecks mounts, by what the store and the extra servers answer to Ping.
unfoldable pub with_health : Option String → List (Option String) → Handler → Handler
with_health store extras next req h r =
    if req.path == "/healthz"
    then (record { code = 200; headers = json h; body = health "ok" [] }, r)
    else if req.path == "/readyz"
    then (answered (check_of "store" store ∷ checks_of extras) h, r)
    else next req h r

abbrev accepted :
    Time → Answer HeartbeatRequest → Dict String → NodeRegistry → Response × NodeRegistry
accepted now (refuses e) h r = (fails 400 (text "invalid JSON: " e) h, r)
accepted now (gives req) h r =
    if req.node_id == ""
    then (fails 400 "node_id is required" h, r)
    else (record { code = 200; headers = json h; body = health "ok" [] }, register now req r)

-- The handlers that RegisterClusterRoutes mounts.
unfoldable pub with_cluster :
    (String → Answer HeartbeatRequest) → MapRange → Time → Handler → Handler
with_cluster decode range now next req h r =
    if req.path == "/cluster/heartbeat"
    then if req.method == "POST"
      then accepted now (decode req.body) h r
      else (fails 405 "method not allowed" h, r)
    else if req.path == "/cluster/nodes"
    then if req.method == "GET"
      then (
        record {
          code = 200;
          headers = json h;
          body = nodes (list range r) (length (list range r));
        },
        r,
      )
      else (fails 405 "method not allowed" h, r)
    else next req h r

-- The handler after NewRESTGateway, RegisterHealthChecks and RegisterClusterRoutes.
unfoldable pub gateway :
    (Request → Dict String → Response)
    → Option String
    → List (Option String)
    → (String → Answer HeartbeatRequest)
    → MapRange
    → Time
    → Handler
unfolding with_cors with_health with_cluster
gateway proxied store extras decode range now = with_cors (
    with_cluster decode range now
      (with_cors (with_health store extras (with_cors (λ req h r. (proxied req h, r))))))
