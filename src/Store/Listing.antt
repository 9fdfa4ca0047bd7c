-- ===== src/Store/Listing.antt =====
-- What the store's listings (storage/memory.go) return, whatever the order of the ranges.
use dvf.Prelude.{
  ℕ, zero, suc, ◌≤◌, ◌≡◌, String, List, [], ◌∷◌, Option, none, some, Bool, false, if◌then◌else◌,
  arith, Option-cases, inl, inr, count, map, length,
}
use dvf.Prelude.Int.{pos, ltb_ℤ}
use dvf.Prelude.Dict.{Dict, MapRange, IsMap}
use dvf.Types.{TestRun, VmInstance, ListTestRunsRequest}
use dvf.Store.{
  MemoryStore, select, in_flight, is_orphan, list_running_test_runs, list_orphaned_vms, page_limit,
  page_offset, list_test_runs, take,
}

-- A test of the record at a key; false where there is none.
abbrev pub passes {ℓ} : {V : Type ℓ} → (V → Bool) → Option V → Bool
passes p none = false
passes p (some v) = p v

-- Each record carries the key that it is stored under.
abbrev pub IsKeyed {ℓ} : {V : Type ℓ} → (V → String) → Dict V → Type ℓ
IsKeyed {V} id m = (k : String) (v : V) → m.get k ≡ some v → id v ≡ k

pub select-names {ℓ} :
    {V : Type ℓ} (id : V → String) (p : V → Bool) (m : Dict V) (keys : List String) (k : String)
    → IsKeyed id m
    → count k (map id (select p m keys)) ≡ (if passes p (m.get k) then count k keys else 0)
unfolding select
select-names id p m [] k h = ground arith
select-names id p m (x ∷ keys) k h = elim (Option-cases (m.get x)) [
  | inl e ↦ ground (arith, select-names id p m keys k h)
  | inr (v, e) ↦ ground (arith, h x v e, select-names id p m keys k h)
]

-- ListRunningTestRuns lists, once each, exactly the runs that are running, queued or pending.
pub list_running_test_runs-exact :
    (range : MapRange) (m : MemoryStore) (k : String)
    → IsMap m.test_runs
    → IsKeyed (λ r. r.id) m.test_runs
    → count k (map (λ (r : TestRun). r.id) (list_running_test_runs range m))
      ≡ (if passes (λ r. in_flight r.status) (m.test_runs.get k) then 1 else 0)
unfolding list_running_test_runs
list_running_test_runs-exact range m k i h = ground (
  arith,
  select-names (λ (r : TestRun). r.id) (λ r. in_flight r.status) m.test_runs
      (range.visit 0 m.test_runs.keys) k h,
  range.visits 0 m.test_runs.keys k,
  i k,
)

-- ListOrphanedVMs lists, once each, exactly the machines that are creating, booting or running a test.
pub list_orphaned_vms-exact :
    (range : MapRange) (m : MemoryStore) (k : String)
    → IsMap m.vms
    → IsKeyed (λ v. v.id) m.vms
    → count k (map (λ (v : VmInstance). v.id) (list_orphaned_vms range m))
      ≡ (if passes (λ v. is_orphan v.status) (m.vms.get k) then 1 else 0)
unfolding list_orphaned_vms
list_orphaned_vms-exact range m k i h = ground (
  arith,
  select-names (λ (v : VmInstance). v.id) (λ v. is_orphan v.status) m.vms (range.visit 0 m.vms.keys)
      k h,
  range.visits 0 m.vms.keys k,
  i k,
)

length-take-le {ℓ} : {V : Type ℓ} (n : ℕ) (vs : List V) → length (take n vs) ≤ n
length-take-le zero vs = omega arith
length-take-le (suc n) [] = omega arith
length-take-le (suc n) (v ∷ vs) = omega (arith, length-take-le n vs)

-- ListTestRuns never returns more runs than a positive limit.
pub length-list_test_runs :
    (range : MapRange) (req : ListTestRunsRequest) (m : MemoryStore) (n : ℕ)
    → req.limit ≡ pos (suc n)
    → length (list_test_runs range req m) ≤ suc n
unfolding list_test_runs
length-list_test_runs range req m n e = rw (e, page_limit) (within _)
  where
    within :
        (vs : List TestRun)
        → length (if ltb_ℤ (pos (suc n)) (pos (length vs)) then take (suc n) vs else vs) ≤ suc n
    within vs = ground (arith, length-take-le (suc n) vs)

-- An offset past the end of the list is ignored: the whole list comes back.
pub page_offset_past {ℓ} :
    {V : Type ℓ} (n : ℕ) (vs : List V) → length vs ≤ n → page_offset (pos n) vs ≡ vs
unfolding page_offset
page_offset_past n vs h = ground arith
