-- ===== src/Cluster/Visits.antt =====
-- What a range over the nodes (cluster/registry.go) adds up, whatever its order.
use dvf.Prelude.{
  ℕ, ◌+◌, ◌≤◌, ◌<◌, ◌≡◌, refl, ◌∙◌, ap, String, String-discrete, List, [], ◌∷◌, Option, none, some,
  Bool, true, false, ◌==◌, ltb, if◌then◌else◌, arith, count, total, total-ext,
}
use dvf.Prelude.Int.{ℤ}
use dvf.Prelude.Dict.{Dict}
use dvf.Types.{Time}
use dvf.Cluster.{
  NodeStatus, healthy, degraded, offline, Node, Counts, is_stale, evict_node, evict_loop,
  count_loop, count_node, counted,
}

abbrev pub same_status : NodeStatus → NodeStatus → Bool
same_status healthy healthy = true
same_status degraded degraded = true
same_status offline offline = true
same_status _ _ = false

-- One for a node with the status.
abbrev pub weigh : NodeStatus → Option Node → ℕ
weigh s none = 0
weigh s (some n) = if same_status s n.status then 1 else 0

-- The second counts are the first and those of the nodes at the keys.
abbrev pub Adds : Dict Node → List String → Counts → Counts → Type 0
Adds d ks c t =
    (t.healthy_nodes ≡ c.healthy_nodes + total (λ k. weigh healthy (d.get k)) ks)
    × (t.degraded_nodes ≡ c.degraded_nodes + total (λ k. weigh degraded (d.get k)) ks)
    × (t.offline_nodes ≡ c.offline_nodes + total (λ k. weigh offline (d.get k)) ks)

counted-weigh :
    (o : Option Node) (c : Counts)
    → ((counted o c).healthy_nodes ≡ c.healthy_nodes + weigh healthy o)
      × ((counted o c).degraded_nodes ≡ c.degraded_nodes + weigh degraded o)
      × ((counted o c).offline_nodes ≡ c.offline_nodes + weigh offline o)
counted-weigh none c = (omega arith, omega arith, omega arith)
counted-weigh (some n) c = of_status n.status
  where
    of_status :
        (s : NodeStatus)
        → ((count_node s c).healthy_nodes
            ≡ c.healthy_nodes + (if same_status healthy s then 1 else 0))
          × ((count_node s c).degraded_nodes
              ≡ c.degraded_nodes + (if same_status degraded s then 1 else 0))
          × ((count_node s c).offline_nodes
              ≡ c.offline_nodes + (if same_status offline s then 1 else 0))
    of_status healthy = (omega arith, omega arith, omega arith)
    of_status degraded = (omega arith, omega arith, omega arith)
    of_status offline = (omega arith, omega arith, omega arith)

pub count_loop-Adds :
    (d : Dict Node) (ks : List String) (c : Counts) → Adds d ks c (count_loop d ks c)
unfolding count_loop
count_loop-Adds d [] c = (omega arith, omega arith, omega arith)
count_loop-Adds d (k ∷ ks) c =
    let (x, y, z) = counted-weigh (d.get k) c in
    let (u, v, w) = count_loop-Adds d ks (counted (d.get k) c) in
    (omega (arith, x, u), omega (arith, y, v), omega (arith, z, w))

module _ (since : Time → Time → ℤ) (now : Time) (ttl : ℤ) where
  -- What Evict does to one entry, and whether it counts it.
  abbrev pub marked : Option Node → Option Node
  marked none = none
  marked (some n) =
      if is_stale since now ttl n then some (record n { status = offline }) else some n

  abbrev pub stale : Option Node → ℕ
  stale none = 0
  stale (some n) = if is_stale since now ttl n then 1 else 0

  -- A stale node is marked once.
  marked_twice : (o : Option Node) → (marked (marked o) ≡ marked o) × (stale (marked o) ≡ 0)
  marked_twice none = (refl, refl)
  marked_twice (some n) = (ground arith, ground arith)

  marked-weigh :
      (o : Option Node)
      → (weigh offline (marked o) ≡ weigh offline o + stale o)
        × (weigh healthy (marked o) + weigh degraded (marked o) + stale o
            ≡ weigh healthy o + weigh degraded o)
  marked-weigh none = (refl, refl)
  marked-weigh (some n) = (ground arith, ground arith)

  pub marked-total :
      (get : String → Option Node) (ks : List String)
      → (total (λ k. weigh offline (marked (get k))) ks
          ≡ total (λ k. weigh offline (get k)) ks + total (λ k. stale (get k)) ks)
        × (total (λ k. weigh healthy (marked (get k))) ks
              + total (λ k. weigh degraded (marked (get k))) ks
              + total (λ k. stale (get k)) ks
            ≡ total (λ k. weigh healthy (get k)) ks + total (λ k. weigh degraded (get k)) ks)
  marked-total get [] = (refl, refl)
  marked-total get (k ∷ ks) =
      let (a, b) = marked-weigh (get k) in
      let (c, d) = marked-total get ks in (omega (arith, a, c), omega (arith, b, d))

  evict_node-get :
      (k : String) (d : Dict Node) (c : ℕ) (o : Option Node)
      → d.get k ≡ o
      → let t = evict_node since now ttl k o (d, c) in
        ((j : String) → t.0.get j ≡ (if k == j then marked (d.get j) else d.get j))
        × (t.0.keys ≡ d.keys)
        × (t.1 ≡ c + stale o)
  evict_node-get k d c none e = (
    λ j. elim (String-discrete k j) [ yes q ↦ ground (arith, ap d.get q) | no q ↦ ground arith ],
    refl,
    omega arith,
  )
  evict_node-get k d c (some n) e = (
    λ j. elim (String-discrete k j) [ yes q ↦ ground (arith, ap d.get q) | no q ↦ ground arith ],
    ground arith,
    ground arith,
  )

  -- After a range that visits each key at most once, each entry that it visits is marked, and the number
  -- is that of the stale ones among them.
  pub evict_loop-get :
      (ks : List String) (t : Dict Node × ℕ)
      → ((k : String) → count k ks ≤ 1)
      → let u = evict_loop since now ttl ks t in
        ((j : String) → u.0.get j ≡ (if ltb 0 (count j ks) then marked (t.0.get j) else t.0.get j))
        × (u.0.keys ≡ t.0.keys)
        × (u.1 ≡ t.1 + total (λ k. stale (t.0.get k)) ks)
  unfolding evict_loop
  evict_loop-get [] t h = (λ j. refl, refl, omega arith)
  evict_loop-get (k ∷ ks) t h =
      let one = evict_node-get k t.0 t.1 (t.0.get k) refl in
      let more =
        evict_loop-get ks (evict_node since now ttl k (t.0.get k) t) (λ j. omega (arith, h j)) in
      (
        λ j. ground (arith, one.0 j, more.0 j, marked_twice (t.0.get j)),
        more.1 ∙ one.1,
        omega (
          arith,
          one.2,
          more.2,
          total-ext (λ j. stale ((evict_node since now ttl k (t.0.get k) t).0.get j))
              (λ j. stale (t.0.get j)) ks (λ j p. ap stale (one.0 j ∙ unseen j p)),
        ),
      )
    where
      unseen :
          (j : String)
          → 0 < count j ks
          → (if k == j then marked (t.0.get j) else t.0.get j) ≡ t.0.get j
      unseen j p = elim (String-discrete k j) [
        | yes q ↦ absurd (ground (arith, h j, p))
        | no q ↦ ground arith
      ]
