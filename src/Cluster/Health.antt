-- ===== src/Cluster/Health.antt =====
-- What Evict, Count and ListHealthy (cluster/registry.go) say of a registry that calls have built.
use dvf.Prelude.{
  ℕ, ◌+◌, ◌≡◌, refl, ◌∙◌, ap, String, List, Option, none, some, ◌&&◌, not, if◌then◌else◌, arith,
  count, total, total-same, total-ext, map,
}
use dvf.Prelude.Int.{ℤ, ltb_ℤ}
use dvf.Prelude.Dict.{MapRange, is_some}
use dvf.Types.{Time}
use dvf.Store.Listing.{passes, select-names}
use dvf.Cluster.{
  Node, NodeStatus, healthy, degraded, offline, NodeRegistry, new_node_registry, evict, is_offline,
  count_nodes, list_healthy, get_node,
}
use dvf.Cluster.Visits.{marked, count_loop-Adds, weigh, marked-total}
use dvf.Cluster.Sound.{Call, run_calls, evict-get, evict-IsSound, run_calls-IsSound, new-IsSound}

module _ (since : Time → Time → ℤ) where
  -- What Count finds, and what each node adds to it.
  count_nodes-total :
      (range : MapRange) (r : NodeRegistry)
      → let c = count_nodes range r in
        (c.healthy_nodes ≡ total (λ k. weigh healthy (r.nodes.get k)) r.nodes.keys)
        × (c.degraded_nodes ≡ total (λ k. weigh degraded (r.nodes.get k)) r.nodes.keys)
        × (c.offline_nodes ≡ total (λ k. weigh offline (r.nodes.get k)) r.nodes.keys)
  unfolding count_nodes
  count_nodes-total range r =
      let ks = range.visit 0 r.nodes.keys in
      let (x, y, z) =
        count_loop-Adds r.nodes ks
          (record { healthy_nodes = 0; degraded_nodes = 0; offline_nodes = 0 }) in
      (
        omega (arith, x, ordered healthy),
        omega (arith, y, ordered degraded),
        omega (arith, z, ordered offline),
      )
    where
      ordered :
          (s : NodeStatus)
          → total (λ k. weigh s (r.nodes.get k)) (range.visit 0 r.nodes.keys)
            ≡ total (λ k. weigh s (r.nodes.get k)) r.nodes.keys
      ordered s = total-same (λ k. weigh s (r.nodes.get k)) _ _ (λ k. range.visits 0 r.nodes.keys k)

  -- A node after Evict, by its status, its age and the limit.
  abbrev pub aged : NodeStatus → ℤ → ℤ → Node → Node
  aged offline age limit n = n
  aged healthy age limit n = if ltb_ℤ limit age then record n { status = offline } else n
  aged degraded age limit n = if ltb_ℤ limit age then record n { status = offline } else n

  abbrev pub aged_node : Time → ℤ → Option Node → Option Node
  aged_node now limit none = none
  aged_node now limit (some n) = some (aged n.status (since n.last_seen now) limit n)

  marked-aged :
      (now : Time) (limit : ℤ) (o : Option Node) → marked since now limit o ≡ aged_node now limit o
  marked-aged now limit none = refl
  marked-aged now limit (some n) = by_status n.status refl
    where
      by_status :
          (s : NodeStatus)
          → n.status ≡ s
          → marked since now limit (some n) ≡ some (aged n.status (since n.last_seen now) limit n)
      by_status offline e = ground (arith, e)
      by_status healthy e = ground (arith, e)
      by_status degraded e = ground (arith, e)

  -- Evict marks as offline exactly the nodes that were not and whose last heartbeat is older than the
  -- limit, and changes nothing else. By Count, those that are offline become more by the number that it
  -- returns and the others fewer, whatever the orders of the ranges.
  pub evict-exact :
      (ttl : ℤ) (cs : List (Call since)) (now : Time) (range before after : MapRange)
      → let r = run_calls since cs (new_node_registry ttl) in
        let (t, n) = evict since now range r in
        let b = count_nodes before r in
        let a = count_nodes after t in
        ((id : String) → get_node id t ≡ aged_node now r.heartbeat_ttl (get_node id r))
        × (a.offline_nodes ≡ b.offline_nodes + n)
        × (a.healthy_nodes + a.degraded_nodes + n ≡ b.healthy_nodes + b.degraded_nodes)
  evict-exact ttl cs now range before after =
      let r = run_calls since cs (new_node_registry ttl) in
      let (t, n) = evict since now range r in
      let (g, ks, e) =
        evict-get since now range r
          (run_calls-IsSound since cs (new_node_registry ttl) (new-IsSound since ttl)) in
      let (bh, bd, bo) = count_nodes-total before r in
      let (ah, ad, ao) = count_nodes-total after t in
      let (o, hd) = marked-total since now r.heartbeat_ttl r.nodes.get r.nodes.keys in
      let seen = λ (s : NodeStatus).
        ap (total (λ k. weigh s (t.nodes.get k))) ks
        ∙ total-ext (λ k. weigh s (t.nodes.get k))
            (λ k. weigh s (marked since now r.heartbeat_ttl (r.nodes.get k))) r.nodes.keys
            (λ k h. ap (weigh s) (g k)) in
      (
        λ id. g id ∙ marked-aged now r.heartbeat_ttl (get_node id r),
        omega (arith, ao, bo, e, o, seen offline),
        omega (arith, ah, ad, bh, bd, e, hd, seen healthy, seen degraded),
      )

  -- After Evict, ListHealthy lists, once each, exactly the nodes that were not offline and whose last
  -- heartbeat is no older than the limit, whatever the orders of the ranges.
  pub list_healthy-evict :
      (ttl : ℤ) (cs : List (Call since)) (now : Time) (range : MapRange) (id : String)
      → let r = run_calls since cs (new_node_registry ttl) in
        count id (map (λ (n : Node). n.id) (list_healthy range (evict since now range r).0)) ≡ (
          if passes
            (λ n. not (is_offline n) && not (ltb_ℤ r.heartbeat_ttl (since n.last_seen now)))
            (get_node id r)
          then 1
          else 0)
  unfolding list_healthy
  list_healthy-evict ttl cs now range id =
      let r = run_calls since cs (new_node_registry ttl) in
      let v = run_calls-IsSound since cs (new_node_registry ttl) (new-IsSound since ttl) in
      let t = (evict since now range r).0 in
      let w = evict-IsSound since now range r v in
      let g = (evict-get since now range r v).0 id in
      select-names (λ (n : Node). n.id) (λ n. not (is_offline n)) t.nodes
        (range.visit 0 t.nodes.keys) id w.keyed
      ∙ ap (λ (c : ℕ). if passes (λ n. not (is_offline n)) (t.nodes.get id) then c else 0)
          (range.visits 0 t.nodes.keys id ∙ w.is_map id)
      ∙ ap (λ o. if passes (λ n. not (is_offline n)) o then (if is_some o then 1 else 0) else 0) g
      ∙ live r.heartbeat_ttl (get_node id r)
    where
      live :
          (limit : ℤ) (o : Option Node)
          → ◌≡◌ {A = ℕ}
              (if passes (λ n. not (is_offline n)) (marked since now limit o)
                then (if is_some (marked since now limit o) then 1 else 0)
                else 0)
              (if passes (λ n. not (is_offline n) && not (ltb_ℤ limit (since n.last_seen now))) o
                then 1
                else 0)
      live limit none = refl
      live limit (some n) = ground arith
