-- ===== src/Gateway/Routes.antt =====
-- What the routes of RESTGateway (api/rest_gateway.go) answer and change.
use dvf.Prelude.{
  ℕ, ◌≡◌, ◌⊎◌, ◌↔◌, inl, inr, refl, sym, ◌∙◌, ap, String, String-discrete, List, [], ◌∷◌, Option,
  none, some, true, false, not, ◌&&◌, ◌==◌, if◌then◌else◌, arith, Bool-cases, length, count, map,
  All,
}
use dvf.Prelude.Dict.{Dict, MapRange, is_some}
use dvf.Prelude.Int.{pos}
use dvf.Types.{Time}
use dvf.Store.Listing.{select-names}
use dvf.Engine.Host.{Answer, gives}
use dvf.Cluster.{registered, healthy, Node, HeartbeatRequest, NodeRegistry, register, list}
use dvf.Cluster.Sound.{IsSound, call-IsSound, registers}
use dvf.Gateway.{
  Request, Response, Handler, cors, nodes, new_event_bus, ping, all_ok, checks_of, with_cors,
  with_health, with_cluster, gateway,
}

abbrev pub IsNone {ℓ} : {A : Type ℓ} → Option A → Type ℓ
IsNone o = o ≡ none

all_ok-checks_of : (es : List (Option String)) → (all_ok (checks_of es) ≡ true) ↔ All IsNone es
all_ok-checks_of [] = (λ e. tt, λ a. refl)
all_ok-checks_of (none ∷ es) =
    (λ e. (refl, (all_ok-checks_of es).0 e), λ a. (all_ok-checks_of es).1 (a.1))
all_ok-checks_of (some e ∷ es) =
    (λ q. absurd (ground (arith, q)), λ a. absurd (ground (arith, a.0)))

module _ (q : Request) (h : Dict String) (r : NodeRegistry) where
  with_cors-passes :
      (k : Handler) → (q.method == "OPTIONS") ≡ false → with_cors k q h r ≡ k q (cors h) r
  unfolding with_cors
  with_cors-passes k m = rw m refl

  with_cluster-passes :
      (decode : String → Answer HeartbeatRequest) (range : MapRange) (now : Time) (k : Handler)
      → (q.path == "/cluster/heartbeat") ≡ false
      → (q.path == "/cluster/nodes") ≡ false
      → with_cluster decode range now k q h r ≡ k q h r
  unfolding with_cluster
  with_cluster-passes decode range now k a b = rw (a, b) refl

  with_cluster-heartbeat :
      (decode : String → Answer HeartbeatRequest) (range : MapRange) (now : Time) (k : Handler)
      (req : HeartbeatRequest)
      → q.path ≡ "/cluster/heartbeat"
      → q.method ≡ "POST"
      → decode q.body ≡ gives req
      → (req.node_id == "") ≡ false
      → (with_cluster decode range now k q h r).1 ≡ register now req r
  unfolding with_cluster String-discrete
  with_cluster-heartbeat decode range now k req a b d e = rw (a, b, d, e) refl

  with_cluster-nodes :
      (decode : String → Answer HeartbeatRequest) (range : MapRange) (now : Time) (k : Handler)
      → q.path ≡ "/cluster/nodes"
      → q.method ≡ "GET"
      → (with_cluster decode range now k q h r).0.body
        ≡ nodes (list range r) (length (list range r))
  unfolding with_cluster String-discrete
  with_cluster-nodes decode range now k a b = rw (a, b) refl

  with_health-readyz :
      (store : Option String) (extras : List (Option String)) (k : Handler)
      → q.path ≡ "/readyz"
      → (with_health store extras k q h r).0.code
        ≡ (if not (is_some store) && all_ok (checks_of extras) then 200 else 503)
  unfolding with_health String-discrete
  with_health-readyz store extras k a = rw a refl

module _ (proxied : Request → Dict String → Response) (store : Option String)
    (extras : List (Option String)) (decode : String → Answer HeartbeatRequest) (range : MapRange)
    (now : Time) where
  abbrev reply : Request → Dict String → NodeRegistry → Response × NodeRegistry
  reply = gateway proxied store extras decode range now

  abbrev health_part : Handler
  health_part = with_health store extras (with_cors (λ req h r. (proxied req h, r)))

  -- A request that is no preflight and for no cluster route reaches the health routes.
  reply-health_part :
      (q : Request) (h : Dict String) (r : NodeRegistry)
      → (q.method == "OPTIONS") ≡ false
      → (q.path == "/cluster/heartbeat") ≡ false
      → (q.path == "/cluster/nodes") ≡ false
      → reply q h r ≡ health_part q (cors (cors h)) r
  unfolding gateway
  reply-health_part q h r m a b =
      with_cors-passes q h r (with_cluster decode range now (with_cors health_part)) m
      ∙ with_cluster-passes q (cors h) r decode range now (with_cors health_part) a b
      ∙ with_cors-passes q (cors h) r health_part m

  -- GET /readyz answers 200 exactly where the store and every further server answer their Ping, and 503
  -- otherwise.
  pub readyz_iff :
      (q : Request) (h : Dict String) (r : NodeRegistry)
      → q.path ≡ "/readyz"
      → q.method ≡ "GET"
      → (((reply q h r).0.code ≡ 200) ↔ ((store ≡ none) × All IsNone extras))
        × (((reply q h r).0.code ≡ 200) ⊎ ((reply q h r).0.code ≡ 503))
  readyz_iff q h r p m = (
    (
      λ e. at_ok store (Bool-cases (all_ok (checks_of extras))) (sym code ∙ e),
      λ a. code ∙ ground (arith, a.0, (all_ok-checks_of extras).1 (a.1)),
    ),
    ground (arith, code),
  )
    where
      code :
          (reply q h r).0.code
          ≡ (if not (is_some store) && all_ok (checks_of extras) then 200 else 503)
      code =
          ap (λ (x : Response × NodeRegistry). x.0.code)
            (reply-health_part q h r (ap (λ s. s == "OPTIONS") m ∙ (unfold String-discrete in refl))
              (ap (λ s. s == "/cluster/heartbeat") p ∙ (unfold String-discrete in refl))
              (ap (λ s. s == "/cluster/nodes") p ∙ (unfold String-discrete in refl)))
          ∙ with_health-readyz q (cors (cors h)) r store extras
              (with_cors (λ req h r. (proxied req h, r))) p

      at_ok :
          (o : Option String)
          → (all_ok (checks_of extras) ≡ true) ⊎ (all_ok (checks_of extras) ≡ false)
          → ◌≡◌ {A = ℕ} (if not (is_some o) && all_ok (checks_of extras) then 200 else 503) 200
          → (o ≡ none) × All IsNone extras
      at_ok none (inl f) e = (refl, (all_ok-checks_of extras).0 f)
      at_ok none (inr f) e = absurd (ground (arith, e, f))
      at_ok (some x) f e = absurd (ground (arith, e))

  -- After a POST of a named node to /cluster/heartbeat, on a registry in which each node is under its own
  -- id, GET /cluster/nodes answers with the list of a registry that has the node, healthy and seen now, and
  -- the list holds it once.
  pub heartbeat-nodes :
      (beat query : Request) (g h : Dict String) (r : NodeRegistry) (req : HeartbeatRequest)
      → IsSound r
      → beat.path ≡ "/cluster/heartbeat"
      → beat.method ≡ "POST"
      → decode beat.body ≡ gives req
      → (req.node_id == "") ≡ false
      → query.path ≡ "/cluster/nodes"
      → query.method ≡ "GET"
      → let t = (reply beat g r).1 in
        ((reply query h t).0.body ≡ nodes (list range t) (length (list range t)))
        × (count req.node_id (map (λ (n : Node). n.id) (list range t)) ≡ 1)
        × ((n : Node) × (t.nodes.get req.node_id ≡ some n)
            × (n.status ≡ healthy)
            × (n.last_seen ≡ now)
            × (n.used_cpus ≡ req.used_cpus))
  unfolding gateway list
  heartbeat-nodes beat query g h r req v p m d e p2 m2 =
      let t = (reply beat g r).1 in
      (
        ap (λ (x : Response × NodeRegistry). x.0.body)
              (with_cors-passes query h t (with_cluster decode range now (with_cors health_part))
                (ap (λ s. s == "OPTIONS") m2 ∙ (unfold String-discrete in refl)))
            ∙ with_cluster-nodes query (cors h) t decode range now (with_cors health_part) p2 m2,
        ap (λ (x : NodeRegistry). count req.node_id (map (λ (n : Node). n.id) (list range x))) after
            ∙ listed_once,
        (
          registered now req (r.nodes.get req.node_id),
          ap (λ (x : NodeRegistry). x.nodes.get req.node_id) after ∙ (ground arith),
          (as_sent (r.nodes.get req.node_id)).0,
          (as_sent (r.nodes.get req.node_id)).1,
          (as_sent (r.nodes.get req.node_id)).2,
        ),
      )
    where
      after : (reply beat g r).1 ≡ register now req r
      after =
          ap (λ (x : Response × NodeRegistry). x.1)
            (with_cors-passes beat g r (with_cluster decode range now (with_cors health_part))
              (ap (λ s. s == "OPTIONS") m ∙ (unfold String-discrete in refl)))
          ∙ with_cluster-heartbeat beat (cors g) r decode range now (with_cors health_part) req p m
              d e

      sound : IsSound (register now req r)
      sound = call-IsSound (λ _ _. pos 0) (registers now req) r v

      listed_once :
          count req.node_id (map (λ (n : Node). n.id) (list range (register now req r))) ≡ 1
      listed_once =
          let d = (register now req r).nodes in
          let there : d.get req.node_id ≡ some (registered now req (r.nodes.get req.node_id)) =
            ground arith in
          ground (
            arith,
            select-names (λ (n : Node). n.id) (λ n. true) d (range.visit 0 d.keys) req.node_id
                sound.keyed,
            range.visits 0 d.keys req.node_id,
            sound.is_map req.node_id,
            there,
          )

      as_sent :
          (o : Option Node)
          → ((registered now req o).status ≡ healthy)
            × ((registered now req o).last_seen ≡ now)
            × ((registered now req o).used_cpus ≡ req.used_cpus)
      as_sent none = (refl, refl, refl)
      as_sent (some n) = (refl, refl, refl)

-- Where Redis does not answer when EventBus is made, GET /readyz answers 503 from then on, whatever the
-- store and Redis answer.
pub readyz_disabled :
    (proxied : Request → Dict String → Response) (store redis : Option String)
    (decode : String → Answer HeartbeatRequest) (range : MapRange) (now : Time) (q : Request)
    (h : Dict String) (r : NodeRegistry)
    → q.path ≡ "/readyz"
    → q.method ≡ "GET"
    → (gateway proxied store (ping redis (new_event_bus false) ∷ []) decode range now q h r).0.code
      ≡ 503
unfolding ping
readyz_disabled proxied store redis decode range now q h r p m =
    let (a, b) =
      readyz_iff proxied store (ping redis (new_event_bus false) ∷ []) decode range now q h r p m in
    elim b [ inl e ↦ absurd (ground (arith, (a.0 e).1.0)) | inr e ↦ e ]
