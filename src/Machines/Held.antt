-- ===== src/Machines/Held.antt =====
-- Which QEMU processes VMManager (vm/manager.go) holds, over every sequence of its calls.
use dvf.Prelude.{
  ℕ, suc, eqb, ◌<◌, ◌≡◌, ◌≢◌, inl, inr, refl, sym, ◌∙◌, ap, subst, String, String-discrete, List,
  [], ◌∷◌, Option, none, some, Bool, true, false, if◌then◌else◌, arith, Bool-cases,
}
use dvf.Prelude.Int.{ℤ, add64, pos}
use dvf.Prelude.Dict.{Dict, insert, empty}
use dvf.Types.{booting, Time, VmInstance}
use dvf.Config.{QemuConfig}
use dvf.Machines.{
  VmStore, VmConfig, Manager, LiveVm, Boot, create_vm, saved_vm, new_instance, start_vm, start_at,
  launch, connect, running_status, process_ends, stop_vm, stop_at, destroy_vm, without,
}

-- Whether a process is in a list.
abbrev pub has_process : ℕ → List ℕ → Bool
has_process p [] = false
has_process p (q ∷ qs) = if eqb p q then true else has_process p qs

has-without :
    (p q : ℕ) (ps : List ℕ) → p ≢ q → has_process p ps ≡ true → has_process p (without q ps) ≡ true
has-without p q [] n h = h
has-without p q (x ∷ ps) n h = ground (arith, has-without p q ps n)

has-without_back :
    (p q : ℕ) (ps : List ℕ) → has_process p (without q ps) ≡ true → has_process p ps ≡ true
has-without_back p q [] h = h
has-without_back p q (x ∷ ps) h = ground (arith, h, has-without_back p q ps)

has_cons : (p q : ℕ) (ps : List ℕ) → has_process p ps ≡ true → has_process p (q ∷ ps) ≡ true
has_cons p q ps h = ground arith

has_self : (p : ℕ) (ps : List ℕ) → has_process p (p ∷ ps) ≡ true
has_self p ps = ground arith

-- A live machine has a process that the manager has started and StopVM has not stopped, and no other live
-- machine has the same one.
pub record IsHeld {S : Type 0} (m : Manager S) : Type 0 where
  pub held :
      (id : String) (l : LiveVm)
      → m.live_vms.get id ≡ some l
      → has_process l.process m.processes ≡ true
  pub apart :
      (i j : String) (k l : LiveVm)
      → m.live_vms.get i ≡ some k
      → m.live_vms.get j ≡ some l
      → k.process ≡ l.process
      → i ≡ j
  pub numbered : (p : ℕ) → has_process p m.processes ≡ true → p < m.started

module _ {S : Type 0} (io : VmStore S) where
  -- The calls of one manager, and the ends of its processes.
  pub data Step (m : Manager S) : Manager S → Type 0 where
    creates :
        (join : String → String → String) (name : Time → ℤ → String) (q : QemuConfig) (now : Time)
        (c : VmConfig)
        → Step m (create_vm io join name q now c m).0
    starts : (id : String) (b : Boot) → Step m (start_vm io id b m).0
    stops : (id : String) → Step m (stop_vm io id m).0
    destroys : (id : String) → Step m (destroy_vm io id m)
    ends : (p : ℕ) → has_process p m.processes ≡ true → Step m (process_ends io p m)

  pub data Reach (m : Manager S) : Manager S → Type 0 where
    here : Reach m m
    later : {t u : Manager S} → Reach m t → Step t u → Reach m u

  -- A change that leaves the live machines and the processes alone.
  same :
      (m t : Manager S)
      → t.live_vms ≡ m.live_vms
      → t.processes ≡ m.processes
      → t.started ≡ m.started
      → IsHeld m
      → IsHeld t
  same m t e f g v = record {
    numbered = λ p h. rw g (v.numbered p (ap (has_process p) (sym f) ∙ h));
    held = λ id l p. rw f (v.held id l (ap (λ (d : Dict LiveVm). d.get id) (sym e) ∙ p));
    apart = λ i j k l p q.
        v.apart i j k l (ap (λ (d : Dict LiveVm). d.get i) (sym e) ∙ p)
          (ap (λ (d : Dict LiveVm). d.get j) (sym e) ∙ q);
  }

  stop_at-IsHeld :
      (id : String) (m : Manager S) (o : Option LiveVm)
      → m.live_vms.get id ≡ o
      → IsHeld m
      → IsHeld (stop_at io id m o).0
  unfolding stop_at
  stop_at-IsHeld id m none e v = v
  stop_at-IsHeld id m (some k) e v = record {
    numbered = λ p h. v.numbered p (has-without_back p k.process m.processes h);
    held = λ j l p.
        let both : (id ≢ j) × (m.live_vms.get j ≡ some l) =
          ground (arith, p, String-discrete id j) in
        has-without l.process k.process m.processes
          (λ q. both.0 (v.apart id j k l e both.1 (sym q))) (v.held j l both.1);
    apart = λ i j a b p q.
        v.apart i j a b (ground (arith, p, String-discrete id i))
          (ground (arith, q, String-discrete id j));
  }

  running_status-same :
      (id : String) (o : Option Bool) (m : Manager S)
      → ((running_status io id o m).live_vms ≡ m.live_vms)
        × ((running_status io id o m).processes ≡ m.processes)
        × ((running_status io id o m).started ≡ m.started)
  unfolding running_status
  running_status-same id none m = (refl, refl, refl)
  running_status-same id (some true) m = (refl, refl, refl)
  running_status-same id (some false) m = (refl, refl, refl)

  grown :
      (p q : ℕ) (m : Manager S)
      → q ≡ m.started
      → (has_process p m.processes ≡ true → p < m.started)
      → has_process p (q ∷ m.processes) ≡ true
      → p < suc m.started
  grown p q m e f h = ground (arith, e, f, h)

  -- A new live machine with a new process.
  added :
      (id : String) (new : LiveVm) (m : Manager S) (s : S)
      → new.process ≡ m.started
      → IsHeld m
      → IsHeld (record m {
        store = s;
        started = suc m.started;
        live_vms = insert id new m.live_vms;
        processes = new.process ∷ m.processes;
      })
  added id new m s f v = record {
    numbered = λ p h. grown p new.process m f (v.numbered p) h;
    held = λ j l p. elim (String-discrete id j) [
      | yes q ↦
          let same_vm : new ≡ l = ground (arith, p) in
          subst (λ (x : LiveVm). has_process x.process (new.process ∷ m.processes) ≡ true) same_vm
            (has_self new.process m.processes)
      | no q ↦ has_cons l.process new.process m.processes (v.held j l (ground arith))
    ];
    apart = λ i j k l p q e. elim (String-discrete id i) [
      | yes x ↦ elim (String-discrete id j) [
        | yes y ↦ sym x ∙ y
        | no y ↦
            let mine : new ≡ k = ground (arith, p) in
            let other = v.held j l (ground arith) in
            absurd (clash l.process (sym e ∙ ap (λ x. x.process) (sym mine)) other)
      ]
      | no x ↦ elim (String-discrete id j) [
        | yes y ↦
            let mine : new ≡ l = ground (arith, q) in
            let other = v.held i k (ground arith) in
            absurd (clash k.process (e ∙ ap (λ x. x.process) (sym mine)) other)
        | no y ↦ v.apart i j k l (ground arith) (ground arith) e
      ]
    ];
  }
    where
      clash : (p : ℕ) → p ≡ new.process → has_process p m.processes ≡ true → ⊥
      clash p e h = omega (arith, v.numbered p h, e, f)

  launch-IsHeld :
      (id : String) (vm : VmInstance) (b : Boot) (o : Option ℤ) (m : Manager S)
      → IsHeld m
      → IsHeld (launch io id vm b o m).0
  unfolding launch connect
  launch-IsHeld id vm b none m v = same m _ refl refl refl v
  launch-IsHeld id vm b (some pid) m v = elim (Bool-cases b.qmp_connected) [
    | inl c ↦
        let t = record m {
          store = io.update id booting m.store;
          live_vms =
              insert id (record { process = m.started; instance = record vm { pid = pid } })
                m.live_vms;
          started = suc m.started;
          processes = m.started ∷ m.processes;
        } in
        let (a, d, g) = running_status-same id b.reports_running t in
        rw c (
          same t (running_status io id b.reports_running t) a d g (
            added id (record { process = m.started; instance = record vm { pid = pid } }) m
              (io.update id booting m.store) refl v))
    | inr c ↦ rw c (record {
      held = λ j l p. has_cons l.process m.started m.processes (v.held j l p);
      apart = v.apart;
      numbered = λ p h. grown p m.started m refl (v.numbered p) h;
    })
  ]

  start_at-IsHeld :
      (id : String) (b : Boot) (m : Manager S) (o : Option VmInstance)
      → IsHeld m
      → IsHeld (start_at io id b m o).0
  unfolding start_at
  start_at-IsHeld id b m none v = v
  start_at-IsHeld id b m (some vm) v = elim (Bool-cases b.dirs_made) [
    | inr c ↦ rw c v
    | inl c ↦ elim (Bool-cases b.overlay_made) [
      | inr d ↦ rw (c, d) v
      | inl d ↦
          let t = record m { overlays = insert id 0 m.overlays } in
          rw (c, d) (launch-IsHeld id vm b b.process_started t (same m t refl refl refl v))
    ]
  ]

  saved_vm-IsHeld :
      (vm : VmInstance) (m : Manager S) (o : Option S) → IsHeld m → IsHeld (saved_vm io vm m o).0
  unfolding saved_vm
  saved_vm-IsHeld vm m none v = v
  saved_vm-IsHeld vm m (some s) v = same m (record m { store = s }) refl refl refl v

  Step-IsHeld : {m t : Manager S} → Step m t → IsHeld m → IsHeld t
  Step-IsHeld {m} (creates join name q now c) v =
      unfold create_vm in
      (let n = add64 m.counter (pos 1) in
        let vm = new_instance join q now (name now n) c in
        let t = record m { counter = n } in
        saved_vm-IsHeld vm t (io.save vm m.store) (same m t refl refl refl v))
  Step-IsHeld {m} (starts id b) v = unfold start_vm in start_at-IsHeld id b m (io.get id m.store) v
  Step-IsHeld {m} (stops id) v = unfold stop_vm in stop_at-IsHeld id m (m.live_vms.get id) refl v
  Step-IsHeld {m} (destroys id) v =
      unfold destroy_vm stop_vm in
      same ((stop_at io id m (m.live_vms.get id)).0) _ refl refl refl
        (stop_at-IsHeld id m (m.live_vms.get id) refl v)
  Step-IsHeld {m} (ends p h) v = same m _ refl refl refl v

  abbrev pub new_manager : S → Manager S
  new_manager s = record {
    store = s;
    live_vms = empty;
    counter = pos 0;
    started = 0;
    processes = [];
    ended = [];
    overlays = empty;
  }

  -- Whatever calls of CreateVM, StartVM, StopVM and DestroyVM a new manager gets, whatever the host answers
  -- and whenever processes end by themselves or with the context of their StartVM, each live machine has a
  -- QEMU process of its own that the manager has started and StopVM has not stopped; it may have ended.
  pub Reach-IsHeld : (s : S) (m : Manager S) → Reach (new_manager s) m → IsHeld m
  Reach-IsHeld s m here = record {
    numbered = λ p h. absurd (ground (arith, h));
    held = λ id l p. cc;
    apart = λ i j k l p q e. cc;
  }
  Reach-IsHeld s m (later r st) = Step-IsHeld st (Reach-IsHeld s _ r)
