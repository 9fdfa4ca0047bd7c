-- ===== src/Postgres/Listing.antt =====
-- What the listings of PostgresStore (storage/postgres.go) return, against those of MemoryStore
-- (storage/memory.go), up to order.
use dvf.Prelude.{
  ℕ, ◌+◌, ◌≡◌, refl, sym, ◌∙◌, ap, String, List, [], ◌∷◌, Option, none, some, Bool, ◌&&◌,
  if◌then◌else◌, arith, Option-cases, inl, inr, count, total, total-same, total-ext,
}
use dvf.Prelude.Bags.{tally, bag_of, bag_of-same}
use dvf.Prelude.Dict.{Dict, MapRange, is_some}
use dvf.Types.{ListVmsRequest}
use dvf.Store.{MemoryStore, select, in_flight, is_orphan, has_vm_status, has_device}
use dvf.Store
use dvf.Store.Listing.{passes}
use dvf.Postgres.{
  Database, run_of, vm_of, read_at, read_table, insert_by, order_by, oldest_run, oldest_vm,
  newest_vm, list_running_test_runs, list_orphaned_vms, list_vms,
}
use dvf.Postgres.Agreement.{Mirrors, Represents}

tally-insert_by {ℓ} :
    {V : Type ℓ} (before : V → V → Bool) (p : V → Bool) (v : V) (vs : List V)
    → tally p (insert_by before v vs) ≡ (if p v then 1 else 0) + tally p vs
tally-insert_by before p v [] = refl
tally-insert_by before p v (w ∷ ws) = ground (arith, tally-insert_by before p v ws)

tally-order_by {ℓ} :
    {V : Type ℓ} (before : V → V → Bool) (p : V → Bool) (vs : List V)
    → tally p (order_by before vs) ≡ tally p vs
unfolding order_by
tally-order_by before p [] = refl
tally-order_by before p (v ∷ vs) =
    tally-insert_by before p v (order_by before vs) ∙ omega (arith, tally-order_by before p vs)

-- What a range over a map counts, as a sum over the keys.
abbrev weigh {ℓ} : {V : Type ℓ} → (V → Bool) → Option V → ℕ
weigh p o = if passes p o then 1 else 0

tally-select {ℓ} :
    {V : Type ℓ} (p q : V → Bool) (d : Dict V) (ks : List String)
    → tally q (select p d ks) ≡ total (λ k. weigh (λ v. p v && q v) (d.get k)) ks
unfolding select
tally-select p q d [] = refl
tally-select p q d (k ∷ ks) = elim (Option-cases (d.get k)) [
  | inl e ↦ ground (arith, tally-select p q d ks)
  | inr (v, e) ↦ ground (arith, tally-select p q d ks)
]

-- A selection from a table, ordered, and the same selection from the map that mirrors it.
selections :
    {R V : Type 0} (f : String → R → V) (m : Dict V) (d : Dict R) (before : V → V → Bool)
    (p : V → Bool) (scan range : MapRange)
    → Mirrors f m d
    → bag_of (order_by before (select p (read_table f d) (scan.visit 0 d.keys)))
      ≡ bag_of (select p m (range.visit 0 m.keys))
unfolding read_table
selections {R} f m d before p scan range h = bag_of-same _ _ (λ q.
    tally-order_by before q (select p (read_table f d) (scan.visit 0 d.keys))
    ∙ tally-select p q (read_table f d) (scan.visit 0 d.keys)
    ∙ total-ext (λ k. weigh (λ v. p v && q v) (read_at f k (d.get k)))
        (λ k. weigh (λ v. p v && q v) (m.get k)) (scan.visit 0 d.keys)
        (λ k there. ap (weigh (λ v. p v && q v)) (sym (h.same k)))
    ∙ total-same (λ k. weigh (λ v. p v && q v) (m.get k)) (scan.visit 0 d.keys)
        (range.visit 0 m.keys) (λ k. same_keys k (d.get k) refl)
    ∙ sym (tally-select p q m (range.visit 0 m.keys)))
  where
    same_keys :
        (k : String) (o : Option R)
        → d.get k ≡ o
        → count k (scan.visit 0 d.keys) ≡ count k (range.visit 0 m.keys)
    same_keys k o e = ground (
      arith,
      scan.visits 0 d.keys k,
      range.visits 0 m.keys k,
      h.is_table k,
      h.is_map k,
      h.same k,
      e,
      read o k,
    )
      where
        read : (o : Option R) (k : String) → is_some (read_at f k o) ≡ is_some o
        read none k = refl
        read (some r) k = refl

-- Where the database holds what the in-memory store does, ListRunningTestRuns, ListOrphanedVMs and ListVMs
-- return the same records from both, each as often, whatever the orders in which the rows and the maps
-- are visited.
pub listings-Represents :
    (scan range : MapRange) (req : ListVmsRequest) (d : Database) (m : MemoryStore)
    → Represents d m
    → (bag_of (list_running_test_runs scan d) ≡ bag_of (dvf.Store.list_running_test_runs range m))
      × (bag_of (list_orphaned_vms scan d) ≡ bag_of (dvf.Store.list_orphaned_vms range m))
      × (bag_of (list_vms scan req d) ≡ bag_of (dvf.Store.list_vms range req m))
unfolding list_running_test_runs list_orphaned_vms list_vms dvf.Store.list_running_test_runs
    dvf.Store.list_orphaned_vms dvf.Store.list_vms
listings-Represents scan range req d m v = (
  selections run_of m.test_runs d.test_runs oldest_run (λ r. in_flight r.status) scan range v.runs,
  selections vm_of m.vms d.vms oldest_vm (λ x. is_orphan x.status) scan range v.machines,
  selections vm_of m.vms d.vms newest_vm
      (λ x. has_vm_status req.status x.status && has_device req.device_id x.device_id) scan range
      v.machines,
)
