-- ===== src/Cluster.antt =====
-- NodeRegistry of go-orchestrator/internal/cluster/registry.go, and the types of cluster/node.go. A
-- node is changed only under the registry's lock, and what leaves the registry is a copy. The clock is
-- an argument, with the duration between two times; counts of nodes are natural numbers.
mod Visits
pub mod Sound
pub mod Health
mod Tests
use dvf.Prelude.{
  ℕ, suc, ◌+◌, String, List, [], ◌∷◌, Option, none, some, Bool, true, false, ◌&&◌, not, ◌==◌,
  if◌then◌else◌,
}
use dvf.Prelude.Int.{ℤ, pos, ltb_ℤ, leb_ℤ}
use dvf.Prelude.Dict.{Dict, MapRange, insert, empty, is_some}
use dvf.Types.{Time}
use dvf.Store.{select}

pub data NodeStatus : Type 0 where
  healthy degraded offline : NodeStatus

-- A role comes from a request unchecked.
pub record Node : Type 0 where
  pub id : String
  pub hostname : String
  pub grpc_addr : String
  pub role : String
  pub total_cpus : ℤ
  pub total_mem_mb : ℤ
  pub used_cpus : ℤ
  pub used_mem_mb : ℤ
  pub last_seen : Time
  pub status : NodeStatus
  pub version : String

pub record HeartbeatRequest : Type 0 where
  pub node_id : String
  pub hostname : String
  pub grpc_addr : String
  pub role : String
  pub total_cpus : ℤ
  pub total_mem_mb : ℤ
  pub used_cpus : ℤ
  pub used_mem_mb : ℤ
  pub version : String

pub record NodeRegistry : Type 0 where
  pub nodes : Dict Node
  pub heartbeat_ttl : ℤ

-- NewNodeRegistry; a duration counts nanoseconds.
abbrev pub new_node_registry : ℤ → NodeRegistry
new_node_registry ttl = record {
  nodes = empty;
  heartbeat_ttl = if leb_ℤ ttl (pos 0) then pos 30000000000 else ttl;
}

abbrev pub is_offline : Node → Bool
is_offline n = offline_status n.status
  where
    offline_status : NodeStatus → Bool
    offline_status offline = true
    offline_status _ = false

abbrev node_of : Time → HeartbeatRequest → Node
node_of now req = record {
  id = req.node_id;
  hostname = req.hostname;
  grpc_addr = req.grpc_addr;
  role = req.role;
  total_cpus = req.total_cpus;
  total_mem_mb = req.total_mem_mb;
  used_cpus = req.used_cpus;
  used_mem_mb = req.used_mem_mb;
  last_seen = now;
  status = healthy;
  version = req.version;
}

-- Register. Every field of the node is set, also of one that is there; a node's own id is its key.
abbrev pub registered : Time → HeartbeatRequest → Option Node → Node
registered now req none = node_of now req
registered now req (some n) = record (node_of now req) { id = n.id }

abbrev pub register : Time → HeartbeatRequest → NodeRegistry → NodeRegistry
register now req r = record r {
  nodes = insert req.node_id (registered now req (r.nodes.get req.node_id)) r.nodes;
}

abbrev beat_at : Time → String → NodeRegistry → Option Node → NodeRegistry × Bool
beat_at now id r none = (r, false)
beat_at now id r (some n) =
    (record r { nodes = insert id (record n { last_seen = now; status = healthy }) r.nodes }, true)

-- Heartbeat
unfoldable pub heartbeat : Time → String → NodeRegistry → NodeRegistry × Bool
heartbeat now id r = beat_at now id r (r.nodes.get id)

-- List and ListHealthy
unfoldable pub list : MapRange → NodeRegistry → List Node
unfolding select
list range r = select (λ n. true) r.nodes (range.visit 0 r.nodes.keys)

unfoldable pub list_healthy : MapRange → NodeRegistry → List Node
unfolding select
list_healthy range r = select (λ n. not (is_offline n)) r.nodes (range.visit 0 r.nodes.keys)

-- Get
abbrev pub get_node : String → NodeRegistry → Option Node
get_node id r = r.nodes.get id

module _ (since : Time → Time → ℤ) (now : Time) where
  -- Whether Evict marks a node.
  abbrev pub is_stale : ℤ → Node → Bool
  is_stale ttl n = not (is_offline n) && ltb_ℤ ttl (since n.last_seen now)

  abbrev pub evict_node : ℤ → String → Option Node → Dict Node × ℕ → Dict Node × ℕ
  evict_node ttl k none t = t
  evict_node ttl k (some n) (d, c) =
      if is_stale ttl n then (insert k (record n { status = offline }) d, suc c) else (d, c)

  unfoldable pub evict_loop : ℤ → List String → Dict Node × ℕ → Dict Node × ℕ
  evict_loop ttl [] t = t
  evict_loop ttl (k ∷ ks) t = evict_loop ttl ks (evict_node ttl k (t.0.get k) t)

  -- Evict, with the number of nodes that it marked.
  unfoldable pub evict : MapRange → NodeRegistry → NodeRegistry × ℕ
  unfolding evict_loop
  evict range r =
      let (d, c) = evict_loop r.heartbeat_ttl (range.visit 0 r.nodes.keys) (r.nodes, 0) in
      (record r { nodes = d }, c)

pub record Counts : Type 0 where
  pub healthy_nodes : ℕ
  pub degraded_nodes : ℕ
  pub offline_nodes : ℕ

abbrev pub count_node : NodeStatus → Counts → Counts
count_node healthy c = record c { healthy_nodes = suc c.healthy_nodes }
count_node degraded c = record c { degraded_nodes = suc c.degraded_nodes }
count_node offline c = record c { offline_nodes = suc c.offline_nodes }

abbrev pub counted : Option Node → Counts → Counts
counted none c = c
counted (some n) c = count_node n.status c

unfoldable pub count_loop : Dict Node → List String → Counts → Counts
count_loop d [] c = c
count_loop d (k ∷ ks) c = count_loop d ks (counted (d.get k) c)

-- Count
unfoldable pub count_nodes : MapRange → NodeRegistry → Counts
unfolding count_loop
count_nodes range r =
    count_loop r.nodes (range.visit 0 r.nodes.keys)
      (record { healthy_nodes = 0; degraded_nodes = 0; offline_nodes = 0 })
