-- ===== src/Engine/Execute/Verdict.antt =====
-- How executeTestRun (core/execution_engine.go) ends: the status that it stores for the run.
use dvf.Prelude.{
  ℕ, suc, ◌≡◌, ◌⊎◌, inl, inr, refl, ◌≢◌, ◌++◌, All, String, List, [], ◌∷◌, Option, some, Bool,
  false, if◌then◌else◌, Bool-cases,
}
use dvf.Types.{TestResult, TestRunStatus, pending, passed, failed, errored, cancelled}
use dvf.Config.{DeviceEntry}
use dvf.Engine.Host.{
  gives, Engine, World, RunEnd, not_updated, skipped, deferred, failed_with, completed,
}
use dvf.Engine.Execute.{is_bad, final_status}

-- How many of the results are failed or errored.
abbrev pub count_bad : List TestResult → ℕ
count_bad [] = 0
count_bad (r ∷ rs) = if is_bad r.status then suc (count_bad rs) else count_bad rs

-- The final status is FAILED where at least one stored result is failed or errored, and PASSED
-- otherwise.
pub final_status_exact :
    (rs : List TestResult)
    → ((count_bad rs ≡ 0) × (final_status rs ≡ passed))
      ⊎ ((n : ℕ) × (count_bad rs ≡ suc n) × (final_status rs ≡ failed))
unfolding final_status
final_status_exact [] = inl (refl, refl)
final_status_exact (r ∷ rs) = elim (Bool-cases (is_bad r.status)) [
  | inl e ↦ inr (count_bad rs, rw e refl, rw e refl)
  | inr e ↦ rw e (final_status_exact rs)
]

-- A result that counts against its run.
abbrev pub IsFailing : TestResult → Type 0
IsFailing r = (r.status ≡ failed) ⊎ (r.status ≡ errored)

-- The final status of a run with the given results: PASSED where none is failed or errored, and FAILED
-- where one is.
abbrev pub IsVerdict : List TestResult → TestRunStatus → Type 0
IsVerdict rs st =
    ((st ≡ passed) × All (λ (r : TestResult). IsFailing r → ⊥) rs)
    ⊎ ((st ≡ failed)
        × ((before : List TestResult) × (after : List TestResult) × (r : TestResult) × (rs
              ≡ before ++ r ∷ after)
            × IsFailing r))

-- A device with modes, none of which is QEMU's.
abbrev pub IsPhysical : List String → Type 0
IsPhysical modes = (modes ≢ []) × All (λ m. m ≢ "qemu") modes

module _ {S : Type 0} (io : Engine S) where
  -- What an update that goes through does to the status that a read of the run returns.
  abbrev pub Sets : (S → Option TestRunStatus) → String → Type 0
  Sets status_of id =
      (st : TestRunStatus) (msg : String) (s : S)
      → status_of (io.update_status id st msg s).0 ≡ some st

  -- What the store holds of a run of a device behind each end of executeTestRun.
  abbrev pub Settles : (S → Option TestRunStatus) → String → String → Bool → S → RunEnd → Type 0
  Settles status_of id device_id first s not_updated = first ≡ false
  Settles status_of id device_id first s skipped =
      (status_of s ≡ some cancelled)
      × ((d : DeviceEntry) × (io.find_device device_id ≡ gives d) × IsPhysical d.target_modes)
  Settles status_of id device_id first s deferred = status_of s ≡ some pending
  Settles status_of id device_id first s (failed_with e) = status_of s ≡ some errored
  Settles status_of id device_id first s (completed st) =
      (status_of s ≡ some st)
      × ((old : S) × (s ≡ (io.update_status id st "" old).0) × IsVerdict (io.get_results id old) st)

  module _ (status_of : S → Option TestRunStatus) (id device_id : String) (first : Bool)
      (sets : Sets status_of id) where
    IsSettled : World S × RunEnd → Type 0
    IsSettled (w, end) = Settles status_of id device_id first w.store end
