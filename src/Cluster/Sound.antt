-- ===== src/Cluster/Sound.antt =====
-- The calls that change a NodeRegistry (cluster/registry.go), and what they keep.
use dvf.Prelude.{
  ℕ, ◌≤◌, ◌≡◌, ◌⊎◌, refl, sym, ◌∙◌, ap, String, String-discrete, List, [], ◌∷◌, Option, none, some,
  true, false, if◌then◌else◌, arith, count, total, total-same, ltb, Bool-cases, inl, inr,
}
use dvf.Prelude.Int.{ℤ}
use dvf.Prelude.Dict.{Dict, MapRange, IsMap, insert, insert-IsMap, is_some}
use dvf.Types.{Time}
use dvf.Store.Listing.{IsKeyed}
use dvf.Cluster.{
  Node, offline, HeartbeatRequest, NodeRegistry, new_node_registry, register, registered, heartbeat,
  beat_at, evict, is_stale,
}
use dvf.Cluster.Visits.{marked, stale, evict_loop-get}

module _ (since : Time → Time → ℤ) where
  -- The calls that change a registry.
  pub data Call : Type 0 where
    registers : Time → HeartbeatRequest → Call
    beats : Time → String → Call
    evicts : MapRange → Time → Call

  abbrev pub call : Call → NodeRegistry → NodeRegistry
  call (registers now req) r = register now req r
  call (beats now id) r = (heartbeat now id r).0
  call (evicts range now) r = (evict since now range r).0

  abbrev pub run_calls : List Call → NodeRegistry → NodeRegistry
  run_calls [] r = r
  run_calls (c ∷ cs) r = run_calls cs (call c r)

-- The nodes are a Go map, and each is under its own id.
pub record IsSound (r : NodeRegistry) : Type 0 where
  pub is_map : IsMap r.nodes
  pub keyed : IsKeyed (λ (n : Node). n.id) r.nodes

insert-IsKeyed :
    (k : String) (n : Node) (d : Dict Node)
    → n.id ≡ k
    → IsKeyed (λ (m : Node). m.id) d
    → IsKeyed (λ (m : Node). m.id) (insert k n d)
insert-IsKeyed k n d e h j m p = elim (String-discrete k j) [
  | yes q ↦ let same : n ≡ m = ground (arith, p) in ap (λ (x : Node). x.id) (sym same) ∙ e ∙ q
  | no q ↦ h j m (ground (arith, p))
]

pub put-IsSound :
    (k : String) (n : Node) (r : NodeRegistry)
    → n.id ≡ k
    → IsSound r
    → IsSound (record r { nodes = insert k n r.nodes })
put-IsSound k n r e v = record {
  is_map = insert-IsMap k n r.nodes v.is_map;
  keyed = insert-IsKeyed k n r.nodes e v.keyed;
}

pub registered-id :
    (now : Time) (req : HeartbeatRequest) (r : NodeRegistry) (o : Option Node)
    → r.nodes.get req.node_id ≡ o
    → IsSound r
    → (registered now req o).id ≡ req.node_id
registered-id now req r none e v = refl
registered-id now req r (some n) e v = v.keyed req.node_id n e

beat_at-IsSound :
    (now : Time) (id : String) (r : NodeRegistry) (o : Option Node)
    → r.nodes.get id ≡ o
    → IsSound r
    → IsSound (beat_at now id r o).0
beat_at-IsSound now id r none e v = v
beat_at-IsSound now id r (some n) e v = put-IsSound id _ r (v.keyed id n e) v

visited_once :
    (range : MapRange) (d : Dict Node) (n : ℕ) (k : String)
    → IsMap d
    → count k (range.visit n d.keys) ≤ 1
visited_once range d n k m = ground (arith, range.visits n d.keys k, m k)

module _ (since : Time → Time → ℤ) (now : Time) (range : MapRange) where
  pub evict-get :
      (r : NodeRegistry)
      → IsSound r
      → let (t, n) = evict since now range r in
        ((k : String) → t.nodes.get k ≡ marked since now r.heartbeat_ttl (r.nodes.get k))
        × (t.nodes.keys ≡ r.nodes.keys)
        × (n ≡ total (λ k. stale since now r.heartbeat_ttl (r.nodes.get k)) r.nodes.keys)
  unfolding evict
  evict-get r v =
      let ks = range.visit 0 r.nodes.keys in
      let (a, b, c) =
        evict_loop-get since now r.heartbeat_ttl ks (r.nodes, 0)
          (λ k. visited_once range r.nodes 0 k v.is_map) in
      (
        λ k. a k ∙ there k (r.nodes.get k) refl,
        b,
        omega (
          arith,
          c,
          total-same (λ k. stale since now r.heartbeat_ttl (r.nodes.get k)) ks r.nodes.keys
              (λ k. range.visits 0 r.nodes.keys k),
        ),
      )
    where
      there :
          (k : String) (o : Option Node)
          → r.nodes.get k ≡ o
          → (if ltb 0 (count k (range.visit 0 r.nodes.keys))
              then marked since now r.heartbeat_ttl o
              else o)
            ≡ marked since now r.heartbeat_ttl o
      there k none e = ground arith
      there k (some n) e = rw (range.visits 0 r.nodes.keys k, v.is_map k, e) refl

  pub evict-IsSound : (r : NodeRegistry) → IsSound r → IsSound (evict since now range r).0
  evict-IsSound r v =
      let (a, b, c) = evict-get r v in
      record {
        is_map = λ k. rw b (v.is_map k ∙ ap (λ z. if z then 1 else 0) (there k));
        keyed = λ k n p. keyed_at k n (r.nodes.get k) refl (sym (a k) ∙ p);
      }
    where
      there :
          (k : String) → is_some (r.nodes.get k) ≡ is_some ((evict since now range r).0.nodes.get k)
      there k = rw ((evict-get r v).0 k) (kept (r.nodes.get k))
        where
          kept : (o : Option Node) → is_some o ≡ is_some (marked since now r.heartbeat_ttl o)
          kept none = refl
          kept (some n) = ground arith

      keyed_at :
          (k : String) (n : Node) (o : Option Node)
          → r.nodes.get k ≡ o
          → marked since now r.heartbeat_ttl o ≡ some n
          → n.id ≡ k
      keyed_at k n none e p = absurd (ground (arith, p))
      keyed_at k n (some m) e p =
          id_of (Bool-cases (is_stale since now r.heartbeat_ttl m)) p ∙ v.keyed k m e
        where
          id_of :
              (is_stale since now r.heartbeat_ttl m ≡ true)
                ⊎ (is_stale since now r.heartbeat_ttl m ≡ false)
              → marked since now r.heartbeat_ttl (some m) ≡ some n
              → n.id ≡ m.id
          id_of (inl f) q =
              let same : record m { status = offline } ≡ n = ground (arith, f, q) in
              ap (λ (x : Node). x.id) (sym same)
          id_of (inr f) q =
              let same : m ≡ n = ground (arith, f, q) in ap (λ (x : Node). x.id) (sym same)

module _ (since : Time → Time → ℤ) where
  pub call-IsSound : (c : Call since) (r : NodeRegistry) → IsSound r → IsSound (call since c r)
  unfolding heartbeat
  call-IsSound (registers now req) r v =
      put-IsSound req.node_id (registered now req (r.nodes.get req.node_id)) r
        (registered-id now req r (r.nodes.get req.node_id) refl v) v
  call-IsSound (beats now id) r v = beat_at-IsSound now id r (r.nodes.get id) refl v
  call-IsSound (evicts range now) r v = evict-IsSound since now range r v

  pub run_calls-IsSound :
      (cs : List (Call since)) (r : NodeRegistry) → IsSound r → IsSound (run_calls since cs r)
  run_calls-IsSound [] r v = v
  run_calls-IsSound (c ∷ cs) r v = run_calls-IsSound cs (call since c r) (call-IsSound c r v)

  pub new-IsSound : (ttl : ℤ) → IsSound (new_node_registry ttl)
  new-IsSound ttl = record { is_map = λ k. refl; keyed = λ k n p. absurd (ground (arith, p)) }
