-- ===== src/Machines/Adapter/Wired.antt =====
-- The connections of VirtioSerialHub (vm/virtio_serial.go) and the live machines of VMManager
-- (vm/manager.go), as vmManagerAdapter (cmd/orchestrator/main.go) keeps them together.
use dvf.Prelude.{
  ℕ, ◌<◌, ◌≡◌, ◌⊎◌, inl, inr, refl, sym, ◌∙◌, ap, String, String-discrete, List, [], ◌∷◌, Option,
  none, some, Bool, true, false, ◌||◌, arith, Bool-cases, eqb,
}
use dvf.Prelude.Int.{ℤ, pos, add64}
use dvf.Prelude.Dict.{Dict, insert, erase, is_some}
use dvf.Types.{Time, VmInstance}
use dvf.Config.{QemuConfig, DeviceEntry}
use dvf.Agents.Guests.{new_virtio_serial_hub, disconnect_vm, cancel}
use dvf.Machines.{
  VmStore, Manager, LiveVm, Boot, create_vm, saved_vm, new_instance, start_vm, stop_vm, stop_at,
  destroy_vm,
}
use dvf.Machines.Held.{new_manager}
use dvf.Machines.Adapter.{
  Adapter, device_config, adapter_create, adapter_start, adapter_stop, adapter_destroy, wired,
  Started, start_vm-Started,
}

abbrev pub was_cancelled : ℕ → List ℕ → Bool
was_cancelled c [] = false
was_cancelled c (d ∷ ds) = eqb c d || was_cancelled c ds

-- Exactly the live machines are connected, and every context that the hub has made is cancelled or is
-- that of a connection.
pub record IsWired {S : Type 0} (a : Adapter S) : Type 0 where
  pub live : (id : String) → is_some (a.manager.live_vms.get id) ≡ is_some (a.hub.cancels.get id)
  pub kept :
      (c : ℕ)
      → c < a.hub.contexts
      → (was_cancelled c a.hub.cancelled ≡ true) ⊎ ((id : String) × (a.hub.cancels.get id ≡ some c))

module _ {S : Type 0} (io : VmStore S) where
  -- The calls of the engine: it starts machines that are not live, and destroys none that is.
  pub data Step (a : Adapter S) : Adapter S → Type 0 where
    creates :
        (join : String → String → String) (name : Time → ℤ → String) (q : QemuConfig) (now : Time)
        (device : DeviceEntry)
        → Step a (adapter_create io join name q now device a).0
    starts :
        (id : String) (b : Boot)
        → a.manager.live_vms.get id ≡ none
        → Step a (adapter_start io id b a).0
    stops : (id : String) → Step a (adapter_stop io id a).0
    destroys : (id : String) → a.manager.live_vms.get id ≡ none → Step a (adapter_destroy io id a)

  pub data Reach (a : Adapter S) : Adapter S → Type 0 where
    here : Reach a a
    later : {b c : Adapter S} → Reach a b → Step b c → Reach a c

  same_live :
      (a : Adapter S) (m : Manager S)
      → m.live_vms ≡ a.manager.live_vms
      → IsWired a
      → IsWired (record a { manager = m })
  same_live a m e v = record {
    live = λ id. ap (λ (d : Dict LiveVm). is_some (d.get id)) e ∙ v.live id;
    kept = v.kept;
  }

  saved_vm-live :
      (vm : VmInstance) (m : Manager S) (o : Option S)
      → (saved_vm io vm m o).0.live_vms ≡ m.live_vms
  unfolding saved_vm
  saved_vm-live vm m none = refl
  saved_vm-live vm m (some s) = refl

  wired-IsWired :
      (id : String) (a : Adapter S) (m : Manager S) (o : Option String)
      → a.manager.live_vms.get id ≡ none
      → Started io id a.manager (m, o)
      → IsWired a
      → IsWired (wired io id a.hub (m, o)).0
  wired-IsWired id a m none n (inl (e, p, l)) v = absurd (ground (arith, p))
  wired-IsWired id a m (some x) n (inl (e, p, l)) v = same_live a m l v
  wired-IsWired id a m (some x) n (inr (l, p, e)) v = absurd (ground (arith, p))
  wired-IsWired id a m none n (inr (l, p, e)) v = record {
    live = λ j. ap (λ (d : Dict LiveVm). is_some (d.get j)) e ∙ ground (arith, v.live j);
    kept = λ c h. elim (Bool-cases (eqb c a.hub.contexts)) [
      | inl q ↦ inr (id, ground (arith, q))
      | inr q ↦ elim (v.kept c (ground (arith, q, h))) [
        | inl x ↦ inl x
        | inr (j, x) ↦ inr (j, other j c x)
      ]
    ];
  }
    where
      other :
          (j : String) (c : ℕ)
          → a.hub.cancels.get j ≡ some c
          → (insert id a.hub.contexts a.hub.cancels).get j ≡ some c
      other j c x = elim (String-discrete id j) [
        | yes q ↦ absurd (ground (arith, v.live id, n, x, ap a.hub.cancels.get q))
        | no q ↦ ground (arith, x)
      ]

  stop-IsWired :
      (id : String) (a : Adapter S) (o : Option LiveVm) (p : Option ℕ)
      → a.manager.live_vms.get id ≡ o
      → a.hub.cancels.get id ≡ p
      → IsWired a
      → IsWired (record {
        manager = (stop_at io id a.manager o).0;
        hub = cancel (record a.hub { cancels = erase id a.hub.cancels }) p;
      })
  unfolding stop_at
  stop-IsWired id a none (some c) e f v = absurd (ground (arith, v.live id, e, f))
  stop-IsWired id a (some l) none e f v = absurd (ground (arith, v.live id, e, f))
  stop-IsWired id a none none e f v = record {
    live = λ j. elim (String-discrete id j) [
      | yes q ↦ ground (arith, v.live j, ap a.manager.live_vms.get q, e)
      | no q ↦ ground (arith, v.live j)
    ];
    kept = λ c h. elim (v.kept c h) [
      | inl x ↦ inl x
      | inr (j, x) ↦ elim (String-discrete id j) [
        | yes q ↦ absurd (ground (arith, x, f, ap a.hub.cancels.get q))
        | no q ↦ inr (j, ground (arith, x))
      ]
    ];
  }
  stop-IsWired id a (some l) (some ctx) e f v = record {
    live =
        λ j. elim (String-discrete id j) [ yes q ↦ ground arith | no q ↦ ground (arith, v.live j) ];
    kept = λ c h. elim (v.kept c h) [
      | inl x ↦ inl (ground (arith, x))
      | inr (j, x) ↦ elim (String-discrete id j) [
        | yes q ↦
            let same_ctx : some c ≡ some ctx = sym x ∙ sym (ap a.hub.cancels.get q) ∙ f in
            inl (ground (arith, same_ctx))
        | no q ↦ inr (j, ground (arith, x))
      ]
    ];
  }

  -- Destroying a machine that is not live keeps the live machines.
  destroy-live :
      (id : String) (m : Manager S)
      → m.live_vms.get id ≡ none
      → (destroy_vm io id m).live_vms ≡ m.live_vms
  unfolding destroy_vm stop_vm stop_at
  destroy-live id m n = rw n refl

  Step-IsWired : {a b : Adapter S} → Step a b → IsWired a → IsWired b
  unfolding adapter_create adapter_start adapter_stop adapter_destroy disconnect_vm stop_vm
      create_vm
  Step-IsWired {a} (creates join name q now device) v =
      let n = add64 a.manager.counter (pos 1) in
      let vm = new_instance join q now (name now n) (device_config device) in
      same_live a _
        (saved_vm-live vm (record a.manager { counter = n }) (io.save vm a.manager.store)) v
  Step-IsWired {a} (starts id b n) v =
      let t = start_vm io id b a.manager in
      wired-IsWired id a (t.0) (t.1) n (start_vm-Started io id b a.manager) v
  Step-IsWired {a} (stops id) v =
      stop-IsWired id a (a.manager.live_vms.get id) (a.hub.cancels.get id) refl refl v
  Step-IsWired {a} (destroys id n) v = same_live a _ (destroy-live id a.manager n) v

  abbrev pub new_adapter : S → Adapter S
  new_adapter s = record { manager = new_manager io s; hub = new_virtio_serial_hub }

  -- Whatever calls of the adapter come, where it starts no live machine and destroys none, exactly the live
  -- machines are connected in the hub, and every context that the hub has made is cancelled or is that of
  -- a connection.
  pub Reach-IsWired : (s : S) (a : Adapter S) → Reach (new_adapter s) a → IsWired a
  Reach-IsWired s a here = record { live = λ id. refl; kept = λ c h. absurd (omega (arith, h)) }
  Reach-IsWired s a (later r st) = Step-IsWired st (Reach-IsWired s _ r)
