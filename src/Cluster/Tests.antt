-- ===== src/Cluster/Tests.antt =====
-- A registry (cluster/registry.go) with one node that stops sending heartbeats.
use dvf.Prelude.{◌+◌, ◌≡◌, String, List, [], ◌∷◌, ◌-◌}
use dvf.Prelude.Int.{ℤ, pos}
use dvf.Types.{Time}
use dvf.Workflow.Tests.{plain_range}
use dvf.Cluster.{HeartbeatRequest, NodeRegistry, new_node_registry, evict, count_nodes, get_node}
use dvf.Cluster.Sound.{Call, registers, beats, evicts, run_calls}
use dvf.Cluster.Health.{aged_node, evict-exact}

abbrev since : Time → Time → ℤ
since a b = pos (b - a)

abbrev worker : HeartbeatRequest
worker = record {
  node_id = "worker-1";
  hostname = "host-1";
  grpc_addr = "host-1:50051";
  role = "worker";
  total_cpus = pos 16;
  total_mem_mb = pos 65536;
  used_cpus = pos 4;
  used_mem_mb = pos 8192;
  version = "1.0";
}

abbrev calls : List (Call since)
calls = registers 5 worker ∷ evicts plain_range 20 ∷ beats 25 "worker-1" ∷ []

abbrev registry : NodeRegistry
registry = run_calls since calls (new_node_registry (pos 10))

evict-exact_example :
    let (t, n) = evict since 40 plain_range registry in
    let b = count_nodes plain_range registry in
    let a = count_nodes plain_range t in
    ((id : String)
      → get_node id t ≡ aged_node since 40 registry.heartbeat_ttl (get_node id registry))
    × (a.offline_nodes ≡ b.offline_nodes + n)
    × (a.healthy_nodes + a.degraded_nodes + n ≡ b.healthy_nodes + b.degraded_nodes)
evict-exact_example = evict-exact since (pos 10) calls 40 plain_range plain_range plain_range
