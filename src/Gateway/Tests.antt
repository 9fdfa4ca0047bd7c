-- ===== src/Gateway/Tests.antt =====
-- A heartbeat and a readiness check (api/rest_gateway.go).
use dvf.Prelude.{
  ◌≡◌, ◌⊎◌, ◌↔◌, refl, String, String-discrete, List, [], ◌∷◌, Option, none, some, false, count,
  map, length, All,
}
use dvf.Prelude.Dict.{Dict, empty}
use dvf.Prelude.Int.{ℤ, pos}
use dvf.Types.{Time}
use dvf.Engine.Host.{Answer, gives}
use dvf.Workflow.Tests.{plain_range}
use dvf.Cluster.{Node, HeartbeatRequest, NodeRegistry, new_node_registry, list, healthy}
use dvf.Cluster.Sound.{new-IsSound}
use dvf.Gateway.{Request, Response, nodes, nothing, gateway, ping, new_event_bus}
use dvf.Gateway.Routes.{IsNone, readyz_iff, heartbeat-nodes, readyz_disabled}

abbrev since : Time → Time → ℤ
since a b = pos 0

abbrev worker : HeartbeatRequest
worker = record {
  node_id = "worker-1";
  hostname = "host-1";
  grpc_addr = "host-1:50051";
  role = "worker";
  total_cpus = pos 16;
  total_mem_mb = pos 65536;
  used_cpus = pos 4;
  used_mem_mb = pos 8192;
  version = "1.0";
}

abbrev proxied : Request → Dict String → Response
proxied q h = record { code = 404; headers = h; body = nothing }

abbrev decode : String → Answer HeartbeatRequest
decode s = gives worker

abbrev servers : List (Option String)
servers = none ∷ []

abbrev get_ready : Request
get_ready = record { method = "GET"; path = "/readyz"; body = "" }

abbrev beat : Request
beat = record { method = "POST"; path = "/cluster/heartbeat"; body = "{}" }

abbrev query : Request
query = record { method = "GET"; path = "/cluster/nodes"; body = "" }

abbrev nobody : NodeRegistry
nobody = new_node_registry (pos 10)

readyz_iff_example :
    let code = (gateway proxied none servers decode plain_range 5 get_ready empty nobody).0.code in
    ((code ≡ 200) ↔ ((◌≡◌ {A = Option String} none none) × All IsNone servers))
    × ((code ≡ 200) ⊎ (code ≡ 503))
readyz_iff_example =
    readyz_iff proxied none servers decode plain_range 5 get_ready empty nobody refl refl

heartbeat-nodes_example :
    let t = (gateway proxied none [] decode plain_range 5 beat empty nobody).1 in
    ((gateway proxied none [] decode plain_range 5 query empty t).0.body
      ≡ nodes (list plain_range t) (length (list plain_range t)))
    × (count "worker-1" (map (λ (n : Node). n.id) (list plain_range t)) ≡ 1)
    × ((n : Node) × (t.nodes.get "worker-1" ≡ some n)
        × (n.status ≡ healthy)
        × (n.last_seen ≡ 5)
        × (n.used_cpus ≡ pos 4))
heartbeat-nodes_example =
    heartbeat-nodes proxied none [] decode plain_range 5 beat query empty empty nobody worker
      (new-IsSound since (pos 10)) refl refl refl (unfold String-discrete in refl) refl refl

readyz_disabled_example :
    (gateway proxied none
      (ping none (new_event_bus false) ∷ [])
      decode
      plain_range
      5
      get_ready
      empty
      nobody).0.code
    ≡ 503
readyz_disabled_example =
    readyz_disabled proxied none none decode plain_range 5 get_ready empty nobody refl refl
