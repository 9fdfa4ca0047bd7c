-- ===== src/Api/Statuses/Types.antt =====
-- The statuses and the codes of the messages that stand for them (api/grpc_server.go), as types.
use std.Equiv.{Iso, iso_to_equiv}
use std.HLevel.{Σ_prop_path}
use std.Path.{transport, transport⁻¹}
use std.Univalence.{iso_to_path, ua-β, ua-β⁻¹}
use dvf.Prelude.{◌≡◌, refl, sym, ◌∙◌, ap, Option, none, some, Bool, true, false}
use dvf.Types.{TestRunStatus, VmStatus}
use dvf.Api.{
  RunStatusCode, VmStatusCode, test_run_status_unspecified, test_run_status_pending,
  test_run_status_queued, test_run_status_running, test_run_status_passed, test_run_status_failed,
  test_run_status_errored, test_run_status_cancelled, test_run_status_timeout,
  test_run_status_other, vm_status_unspecified, vm_status_creating, vm_status_booting,
  vm_status_ready, vm_status_running_test, vm_status_stopping, vm_status_stopped, vm_status_error,
  vm_status_destroyed, vm_status_other, test_run_status_to_proto, proto_to_test_run_status,
  vm_status_to_proto, proto_to_vm_status,
}
use dvf.Api.Statuses.{statuses_roundtrip}

-- The codes that are named by a test.
abbrev pub Named {ℓ} : {C : Type ℓ} → (C → Bool) → Type ℓ
Named {C = C} named = (c : C) × (named c ≡ true)

-- Two conversions identify a type with the named codes: along the path of types the one is the transport,
-- and the other its inverse.
pub record Identified {A C : Type 0} (named : C → Bool) (to : A → C) (from : C → Option A)
    : Type 1 where
  pub path : A ≡ Named named
  pub forward : (a : A) → (transport path a).0 ≡ to a
  pub backward : (c : Named named) → some (transport⁻¹ path c) ≡ from c.0

module _ {A C : Type 0} (named : C → Bool) (to : A → C) (from : C → Option A)
    (named_to : (a : A) → named (to a) ≡ true) (from_to : (a : A) → from (to a) ≡ some a)
    (back : (c : C) → named c ≡ true → (a : A) × (from c ≡ some a) × (to a ≡ c)) where
  some-inj : {x y : A} → some x ≡ some y → x ≡ y
  some-inj e = cc

  codes : Iso A (Named named)
  codes = record {
    fun = λ a. (to a, named_to a);
    inv = λ c. (back c.0 c.1).0;
    rinv = λ c. Σ_prop_path (λ d. hlevel) (back c.0 c.1).2;
    linv = λ a. some-inj (sym (back (to a) (named_to a)).1 ∙ from_to a);
  }

  identified : Identified named to from
  unfolding codes
  identified = record {
    path = iso_to_path codes;
    forward = λ a. ap (λ (c : Named named). c.0) (ua-β (iso_to_equiv codes) a);
    backward = λ c. ap some (ua-β⁻¹ (iso_to_equiv codes) c) ∙ sym (back c.0 c.1).1;
  }

-- The codes of runs that have a name, and those of machines that have one and are not unspecified.
abbrev pub is_run_code : RunStatusCode → Bool
is_run_code (test_run_status_other n) = false
is_run_code _ = true

abbrev pub is_vm_code : VmStatusCode → Bool
is_vm_code (vm_status_other n) = false
is_vm_code vm_status_unspecified = false
is_vm_code _ = true

run_code_back :
    (c : RunStatusCode)
    → is_run_code c ≡ true
    → (s : Option TestRunStatus) × (some (proto_to_test_run_status c) ≡ some s)
      × (test_run_status_to_proto s ≡ c)
unfolding proto_to_test_run_status test_run_status_to_proto
run_code_back test_run_status_unspecified h = (none, refl, refl)
run_code_back test_run_status_pending h = (some TestRunStatus.pending, refl, refl)
run_code_back test_run_status_queued h = (some TestRunStatus.queued, refl, refl)
run_code_back test_run_status_running h = (some TestRunStatus.running, refl, refl)
run_code_back test_run_status_passed h = (some TestRunStatus.passed, refl, refl)
run_code_back test_run_status_failed h = (some TestRunStatus.failed, refl, refl)
run_code_back test_run_status_errored h = (some TestRunStatus.errored, refl, refl)
run_code_back test_run_status_cancelled h = (some TestRunStatus.cancelled, refl, refl)
run_code_back test_run_status_timeout h = (some TestRunStatus.timeout, refl, refl)
run_code_back (test_run_status_other n) h = absurd cc

vm_code_back :
    (c : VmStatusCode)
    → is_vm_code c ≡ true
    → (s : VmStatus) × (proto_to_vm_status c ≡ some s) × (vm_status_to_proto s ≡ c)
unfolding proto_to_vm_status vm_status_to_proto
vm_code_back vm_status_unspecified h = absurd cc
vm_code_back vm_status_creating h = (VmStatus.creating, refl, refl)
vm_code_back vm_status_booting h = (VmStatus.booting, refl, refl)
vm_code_back vm_status_ready h = (VmStatus.ready, refl, refl)
vm_code_back vm_status_running_test h = (VmStatus.running_test, refl, refl)
vm_code_back vm_status_stopping h = (VmStatus.stopping, refl, refl)
vm_code_back vm_status_stopped h = (VmStatus.stopped, refl, refl)
vm_code_back vm_status_error h = (VmStatus.error, refl, refl)
vm_code_back vm_status_destroyed h = (VmStatus.destroyed, refl, refl)
vm_code_back (vm_status_other n) h = absurd cc

is_run_code-to_proto : (s : Option TestRunStatus) → is_run_code (test_run_status_to_proto s) ≡ true
unfolding test_run_status_to_proto
is_run_code-to_proto none = refl
is_run_code-to_proto (some TestRunStatus.pending) = refl
is_run_code-to_proto (some TestRunStatus.queued) = refl
is_run_code-to_proto (some TestRunStatus.running) = refl
is_run_code-to_proto (some TestRunStatus.passed) = refl
is_run_code-to_proto (some TestRunStatus.failed) = refl
is_run_code-to_proto (some TestRunStatus.errored) = refl
is_run_code-to_proto (some TestRunStatus.cancelled) = refl
is_run_code-to_proto (some TestRunStatus.timeout) = refl

is_vm_code-to_proto : (s : VmStatus) → is_vm_code (vm_status_to_proto s) ≡ true
unfolding vm_status_to_proto
is_vm_code-to_proto VmStatus.creating = refl
is_vm_code-to_proto VmStatus.booting = refl
is_vm_code-to_proto VmStatus.ready = refl
is_vm_code-to_proto VmStatus.running_test = refl
is_vm_code-to_proto VmStatus.stopping = refl
is_vm_code-to_proto VmStatus.stopped = refl
is_vm_code-to_proto VmStatus.error = refl
is_vm_code-to_proto VmStatus.destroyed = refl

-- The conversions identify the statuses of runs, with the missing one, with the codes of runs that have
-- a name, and the statuses of machines with the codes of machines that have one and are specified: in
-- each case the one conversion is the transport along a path of types and the other its inverse.
pub statuses-codes :
    Identified is_run_code test_run_status_to_proto (λ c. some (proto_to_test_run_status c))
    × Identified is_vm_code vm_status_to_proto proto_to_vm_status
statuses-codes = (
  identified is_run_code test_run_status_to_proto (λ c. some (proto_to_test_run_status c))
      is_run_code-to_proto (λ s. ap some (statuses_roundtrip.0 s)) run_code_back,
  identified is_vm_code vm_status_to_proto proto_to_vm_status is_vm_code-to_proto
      statuses_roundtrip.1 vm_code_back,
)
