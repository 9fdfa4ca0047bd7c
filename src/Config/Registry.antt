-- ===== src/Config/Registry.antt =====
-- What DeviceRegistry.validate (config/loader.go) makes sure of, and what FindDevice then finds.
use dvf.Prelude.{
  ℕ, suc, ◌+◌, ◌≡◌, ◌≢◌, ◌⊎◌, inl, refl, String, List, [], ◌∷◌, ◌++◌, none, some, true, false, ◌==◌,
  if◌then◌else◌, arith, count,
}
use dvf.Config.{DeviceEntry, member, check_devices, validate_registry, find_device}

abbrev pub IsComplete : List DeviceEntry → Type 0
IsComplete [] = Unit {0}
IsComplete (d ∷ ds) =
    (d.id ≢ "") × (d.qemu_device_name ≢ "") × (d.driver_module ≢ "") × IsComplete ds

abbrev pub ids : List DeviceEntry → List String
ids [] = []
ids (d ∷ ds) = d.id ∷ ids ds

check_devices_ok :
    (i : ℕ) (seen : List String) (ds : List DeviceEntry)
    → check_devices i seen ds ≡ none
    → IsComplete ds
      × ((k : String)
          → (member k seen ≡ true → count k (ids ds) ≡ 0)
            × ((count k (ids ds) ≡ 0) ⊎ (count k (ids ds) ≡ 1)))
unfolding check_devices
check_devices_ok i seen [] e = (tt, λ k. (λ _. refl, inl refl))
check_devices_ok i seen (d ∷ ds) e =
    let checks : (d.id ≢ "")
        × (member d.id seen ≡ false)
        × (d.qemu_device_name ≢ "")
        × (d.driver_module ≢ "")
        × (check_devices (suc i) (d.id ∷ seen) ds ≡ none) =
      ground (arith, e) in
    let (named, unseen, qemu, driver, rest) = checks in
    let (complete, once) = check_devices_ok (suc i) (d.id ∷ seen) ds rest in
    ((named, qemu, driver, complete), λ k. (ground (arith, once k, unseen), ground (arith, once k)))

checked : (ds : List DeviceEntry) → validate_registry ds ≡ none → check_devices 0 [] ds ≡ none
unfolding validate_registry
checked [] e = absurd (ground (arith, e))
checked (d ∷ ds) e = e

count-ids_insert :
    (k : String) (before after : List DeviceEntry) (d : DeviceEntry)
    → count k (ids (before ++ d ∷ after))
      ≡ (if d.id == k then 1 else 0) + count k (ids (before ++ after))
count-ids_insert k [] after d = refl
count-ids_insert k (b ∷ before) after d = omega (arith, count-ids_insert k before after d)

find_device_once :
    (before after : List DeviceEntry) (d : DeviceEntry)
    → (count d.id (ids (before ++ d ∷ after)) ≡ 0) ⊎ (count d.id (ids (before ++ d ∷ after)) ≡ 1)
    → find_device d.id (before ++ d ∷ after) ≡ some d
unfolding find_device
find_device_once [] after d e = ground arith
find_device_once (b ∷ before) after d e =
    let more = count-ids_insert d.id before after d in
    let other : (b.id == d.id) ≡ false = ground (arith, more) in
    rw other (find_device_once before after d (ground (arith, other)))

-- In a registry that passes validate every device has an id, a QEMU name and a driver module, and each
-- device is the one that FindDevice finds under its id.
pub validate_registry-find :
    (before after : List DeviceEntry) (d : DeviceEntry)
    → validate_registry (before ++ d ∷ after) ≡ none
    → IsComplete (before ++ d ∷ after) × (find_device d.id (before ++ d ∷ after) ≡ some d)
validate_registry-find before after d e =
    let (complete, once) =
      check_devices_ok 0 [] (before ++ d ∷ after) (checked (before ++ d ∷ after) e) in
    (complete, find_device_once before after d (once d.id).1)
