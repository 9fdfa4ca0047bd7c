-- ===== src/Api/Devices.antt =====
-- The endpoints of devices in go-orchestrator/internal/api/grpc_server.go, over the registry that
-- config/loader.go checks.
use dvf.Prelude.{
  ◌≡◌, ◌≢◌, refl, sym, ◌∙◌, ap, String, List, [], ◌∷◌, ◌++◌, map, Option, none, some, false, All,
  ◌==◌, if◌then◌else◌, arith,
}
use dvf.Config.{DeviceEntry, find_device, validate_registry}
use dvf.Config.Registry.{IsComplete, validate_registry-find}
use dvf.Api.Handlers.{Reply, replies, fails, invalid_argument, not_found}

pub record DeviceMessage : Type 0 where
  pub id : String
  pub name : String
  pub vendor_id : String
  pub device_id : String
  pub pci_class : String
  pub qemu_device_name : String
  pub driver_module : String
  pub driver_path : String
  pub description : String
  pub capabilities : List String
  pub test_suites : List String

-- deviceToProto
unfoldable pub device_to_proto : DeviceEntry → DeviceMessage
device_to_proto d = record {
  id = d.id;
  name = d.name;
  vendor_id = d.vendor_id;
  device_id = d.device_id;
  pci_class = d.pci_class;
  qemu_device_name = d.qemu_device_name;
  driver_module = d.driver_module;
  driver_path = d.driver_path;
  description = d.description;
  capabilities = d.capabilities;
  test_suites = d.test_suites;
}

-- ListDevices
unfoldable pub list_devices : List DeviceEntry → List DeviceMessage
unfolding device_to_proto
list_devices ds = map device_to_proto ds

abbrev device_reply : Option DeviceEntry → Reply DeviceMessage
device_reply none = fails not_found
device_reply (some d) = replies (device_to_proto d)

-- GetDevice
unfoldable pub get_device : String → List DeviceEntry → Reply DeviceMessage
unfolding device_to_proto
get_device id ds = if id == "" then fails invalid_argument else device_reply (find_device id ds)

-- A property of each element with what stands before and after it.
All_split :
    (P : DeviceEntry → Type 0) (before ds : List DeviceEntry)
    → ((xs ys : List DeviceEntry) (d : DeviceEntry) → before ++ ds ≡ xs ++ d ∷ ys → P d)
    → All P ds
All_split P before [] f = tt
All_split P before (d ∷ ds) f = (
  f before ds d refl,
  All_split P (before ++ d ∷ []) ds (λ xs ys e q. f xs ys e (shift before ds d ∙ q)),
)
  where
    shift : (bs es : List DeviceEntry) (x : DeviceEntry) → bs ++ x ∷ es ≡ (bs ++ x ∷ []) ++ es
    shift [] es x = refl
    shift (b ∷ bs) es x = ap (λ l. b ∷ l) (shift bs es x)

complete_named :
    (xs ys : List DeviceEntry) (d : DeviceEntry) → IsComplete (xs ++ d ∷ ys) → d.id ≢ ""
complete_named [] ys d c = c.0
complete_named (x ∷ xs) ys d c = complete_named xs ys d (c.3)

All-map_proto :
    (P : DeviceMessage → Type 0) (ds : List DeviceEntry)
    → All (λ d. P (device_to_proto d)) ds
    → All P (map device_to_proto ds)
All-map_proto P [] a = tt
All-map_proto P (d ∷ ds) a = (a.0, All-map_proto P ds (a.1))

-- In a registry that passes validate, GetDevice of the id of each device that ListDevices lists replies
-- with just what the list has.
pub list_devices-get_device :
    (ds : List DeviceEntry)
    → validate_registry ds ≡ none
    → All (λ (m : DeviceMessage). get_device m.id ds ≡ replies m) (list_devices ds)
unfolding list_devices get_device device_to_proto
list_devices-get_device ds e =
    All-map_proto (λ m. get_device m.id ds ≡ replies m) ds
      (All_split _ [] ds (λ xs ys d q. found xs ys d q))
  where
    found :
        (xs ys : List DeviceEntry) (d : DeviceEntry)
        → ds ≡ xs ++ d ∷ ys
        → get_device d.id ds ≡ replies (device_to_proto d)
    found xs ys d q =
        let (complete, finds) = validate_registry-find xs ys d (ap validate_registry (sym q) ∙ e) in
        let named : (d.id == "") ≡ false = ground (arith, complete_named xs ys d complete) in
        rw named (ap device_reply (ap (find_device d.id) q ∙ finds))
