-- ===== src/Config/Load.antt =====
-- Load, LoadDeviceRegistry and loadJSON of go-orchestrator/internal/config/loader.go, and DSN of types.go.
-- The file system, os.ExpandEnv, the JSON library and fmt are arguments.
use dvf.Prelude.{
  subst, refl, Bool-cases, ◌≡◌, ◌≢◌, ◌⊎◌, inl, inr, String, List, Option, none, some, false, ◌==◌,
  arith,
}
use dvf.Config.{
  GlobalConfig, DeviceEntry, GlobalError, RegistryError, Checked, valid, refused, validate_global,
  validate_registry, with_default_vms, is_zero, VmDefaultsConfig,
}

pub data FileError : Type 0 where
  unreadable unparsable : FileError

-- What a load needs of the system.
pub record Files : Type 0 where
  pub read_file : String → Option String
  pub expand_env : String → String
  pub join : String → String → String

module _ (files : Files) where
  parsed {ℓ} : {A : Type ℓ} → Option A → Checked FileError A
  parsed none = refused unparsable
  parsed (some a) = valid a

  decoded {ℓ} : {A : Type ℓ} → (String → Option A) → Option String → Checked FileError A
  unfolding parsed
  decoded unmarshal none = refused unreadable
  decoded unmarshal (some data_read) = parsed (unmarshal (files.expand_env data_read))

  -- loadJSON
  unfoldable pub load_json {ℓ} : {A : Type ℓ} → (String → Option A) → String → Checked FileError A
  unfolding decoded
  load_json unmarshal path = decoded unmarshal (files.read_file path)

  validated : Checked GlobalError GlobalConfig → Checked (FileError ⊎ GlobalError) GlobalConfig
  validated (refused e) = refused (inr e)
  validated (valid c) = valid c

  checked_config : Checked FileError GlobalConfig → Checked (FileError ⊎ GlobalError) GlobalConfig
  unfolding validated
  checked_config (refused e) = refused (inl e)
  checked_config (valid c) = validated (validate_global c)

  -- Load
  unfoldable pub load :
      (String → Option GlobalConfig) → String → Checked (FileError ⊎ GlobalError) GlobalConfig
  unfolding checked_config
  load unmarshal dir = checked_config (load_json unmarshal (files.join dir "global_config.json"))

  with_verdict :
      List DeviceEntry
      → Option RegistryError
      → Checked (FileError ⊎ RegistryError) (List DeviceEntry)
  with_verdict ds none = valid ds
  with_verdict ds (some e) = refused (inr e)

  checked_registry :
      Checked FileError (List DeviceEntry) → Checked (FileError ⊎ RegistryError) (List DeviceEntry)
  unfolding with_verdict
  checked_registry (refused e) = refused (inl e)
  checked_registry (valid ds) = with_verdict ds (validate_registry ds)

  -- LoadDeviceRegistry
  unfoldable pub load_device_registry :
      (String → Option (List DeviceEntry))
      → String
      → Checked (FileError ⊎ RegistryError) (List DeviceEntry)
  unfolding checked_registry
  load_device_registry unmarshal dir =
      checked_registry (load_json unmarshal (files.join dir "device_registry.json"))

  -- A registry that LoadDeviceRegistry gives passes validate.
  pub load_device_registry-valid :
      (unmarshal : String → Option (List DeviceEntry)) (dir : String) (ds : List DeviceEntry)
      → load_device_registry unmarshal dir ≡ valid ds
      → validate_registry ds ≡ none
  unfolding load_device_registry
  load_device_registry-valid unmarshal dir ds e =
      from (load_json unmarshal (files.join dir "device_registry.json")) e
    where
      verdict :
          (es : List DeviceEntry) (o : Option RegistryError)
          → with_verdict es o ≡ valid ds
          → (o ≡ none) × (es ≡ ds)
      verdict es none p = (refl, cc)
      verdict es (some x) p = absurd cc

      from :
          (c : Checked FileError (List DeviceEntry))
          → checked_registry c ≡ valid ds
          → validate_registry ds ≡ none
      from (refused x) p = absurd cc
      from (valid es) p =
          let (q, same) = verdict es (validate_registry es) p in
          subst (λ x. validate_registry x ≡ none) same q

defaulted : (v : VmDefaultsConfig) → is_zero (with_default_vms v).max_concurrent_vms ≡ false
defaulted v = elim (Bool-cases (is_zero v.max_concurrent_vms)) [
  | inl e ↦ rw e refl
  | inr e ↦ rw e e
]

validate_global-valid :
    (d c : GlobalConfig)
    → validate_global d ≡ valid c
    → (is_zero c.server.grpc_port ≡ false)
      × (is_zero c.server.rest_port ≡ false)
      × (c.qemu.binary_path ≢ "")
      × (is_zero c.vm_defaults.max_concurrent_vms ≡ false)
unfolding validate_global
validate_global-valid d c e = elim (Bool-cases (is_zero d.server.grpc_port)) [
  | inl f ↦ absurd (ground (arith, e, f))
  | inr f ↦ elim (Bool-cases (is_zero d.server.rest_port)) [
    | inl g ↦ absurd (ground (arith, e, f, g))
    | inr g ↦ elim (Bool-cases (d.qemu.binary_path == "")) [
      | inl k ↦ absurd (ground (arith, e, f, g, k))
      | inr k ↦
          let same : c ≡ record d { vm_defaults = with_default_vms d.vm_defaults } =
            ground (arith, e, f, g, k) in
          rw same (f, g, λ q. ground (arith, k, q), defaulted d.vm_defaults)
    ]
  ]
]

-- A configuration that Load gives is what its validation leaves: it has its ports and the path of QEMU,
-- and a limit of machines that is not zero.
pub load-valid :
    (files : Files) (unmarshal : String → Option GlobalConfig) (dir : String) (c : GlobalConfig)
    → load files unmarshal dir ≡ valid c
    → (is_zero c.server.grpc_port ≡ false)
      × (is_zero c.server.rest_port ≡ false)
      × (c.qemu.binary_path ≢ "")
      × (is_zero c.vm_defaults.max_concurrent_vms ≡ false)
unfolding load
load-valid files unmarshal dir c e =
    from (load_json files unmarshal (files.join dir "global_config.json")) e
  where
    exact : (x : Checked GlobalError GlobalConfig) → validated files x ≡ valid c → x ≡ valid c
    exact (refused x) p = absurd cc
    exact (valid d) p = cc

    from :
        (d : Checked FileError GlobalConfig)
        → checked_config files d ≡ valid c
        → (is_zero c.server.grpc_port ≡ false)
          × (is_zero c.server.rest_port ≡ false)
          × (c.qemu.binary_path ≢ "")
          × (is_zero c.vm_defaults.max_concurrent_vms ≡ false)
    from (refused x) p = absurd cc
    from (valid d) p = validate_global-valid d c (exact (validate_global d) p)
