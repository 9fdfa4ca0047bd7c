-- ===== src/Engine/Execute/Budget.antt =====
-- What executeTestRun (core/execution_engine.go) reserves of the host and gives back.
use dvf.Prelude.{
  ◌≡◌, inl, inr, refl, sym, subst, ap, String, List, [], ◌∷◌, Option, none, some, Bool, true, false,
  if◌then◌else◌, arith,
}
use dvf.Types.{TestRun, TestRunStatus, TestSuite}
use dvf.Allocator.{ResourceBudget, try_acquire, release}
use dvf.Allocator.Ledger.{
  Hold, request, Accounts, NoOverflow, try_acquire-Accounts, release-Accounts,
}
use dvf.Config.{DeviceEntry}
use dvf.Engine.Host.{Answer, gives, refuses, Engine, World, RunEnd}
use dvf.Engine.Execute.{
  needed, give_back, with_room, reserve, with_suite, with_device, begin, execute_test_run,
  device_supports_qemu,
}
use dvf.Engine.Execute.Stages.{with_vm-Cleans}

module _ {S : Type 0} (io : Engine S) where
  -- The reservations that are out after a stage.
  record Books (out : List Hold) (r : World S × RunEnd) : Type 0 where
    budget : ResourceBudget
    held : r.0.budget ≡ some budget
    accounts : Accounts out budget

  -- An answer of TryAcquire, by what is out.
  IsAnswer : Hold → List Hold → ResourceBudget × Bool → Type 0
  IsAnswer h out (b, true) = Accounts (h ∷ out) b
  IsAnswer h out (b, false) = Accounts out b

  with_room-Books :
      (run : TestRun) (device : DeviceEntry) (suite : TestSuite) (p : ResourceBudget × Bool)
      (w : World S) (h : Hold) (out : List Hold)
      → needed io ≡ request h
      → IsAnswer h out p
      → Books out (with_room io run device suite p w)
  unfolding with_room give_back IsAnswer
  with_room-Books run device suite (b, true) w h out e a =
      let c =
        with_vm-Cleans io run device suite (io.create_vm device) (record w { budget = some b }) in
      record {
        budget = release (needed io) b;
        held =
            ap
              (λ (m : Option ResourceBudget). elim m as (λ _. Option ResourceBudget) [
                | none ↦ none
                | some b ↦ some (release (needed io) b)
              ])
              c.budget;
        accounts = rw e (release-Accounts h [] out b a);
      }
  with_room-Books run device suite (b, false) w h out e a = record {
    budget = b;
    held = refl;
    accounts = a;
  }

  IsAnswer-try_acquire :
      (h : Hold) (out : List Hold) (b : ResourceBudget)
      → Accounts out b
      → NoOverflow h out
      → IsAnswer h out (try_acquire (request h) b)
  unfolding IsAnswer
  IsAnswer-try_acquire h out b a n = elim (try_acquire-Accounts h out b a n) [
    | inl (e, c) ↦ granted (try_acquire (request h) b) e c
    | inr (e, _) ↦ rw e a
  ]
    where
      granted : (p : ResourceBudget × Bool) → p.1 ≡ true → Accounts (h ∷ out) p.0 → IsAnswer h out p
      granted (c, true) e k = k
      granted (c, false) e k = absurd (ground arith)

  reserve-Books :
      (run : TestRun) (device : DeviceEntry) (suite : TestSuite) (o : Option ResourceBudget)
      (w : World S) (b : ResourceBudget) (h : Hold) (out : List Hold)
      → o ≡ some b
      → needed io ≡ request h
      → Accounts out b
      → NoOverflow h out
      → Books out (reserve io run device suite o w)
  unfolding reserve
  reserve-Books run device suite o w b h out e f a n = rw e (
      with_room-Books run device suite (try_acquire (needed io) b) w h out f
        (subst (λ r. IsAnswer h out (try_acquire r b)) (sym f) (IsAnswer-try_acquire h out b a n)))

  with_suite-Books :
      (run : TestRun) (device : DeviceEntry) (a : Answer TestSuite) (w : World S)
      (b : ResourceBudget) (h : Hold) (out : List Hold)
      → w.budget ≡ some b
      → needed io ≡ request h
      → Accounts out b
      → NoOverflow h out
      → Books out (with_suite io run device a w)
  unfolding with_suite
  with_suite-Books run device (refuses x) w b h out e f a n = record {
    budget = b;
    held = e;
    accounts = a;
  }
  with_suite-Books run device (gives suite) w b h out e f a n =
      reserve-Books run device suite w.budget w b h out e f a n

  if-Books :
      (c : Bool) (out : List Hold) (r t : World S × RunEnd)
      → Books out r
      → Books out t
      → Books out (if c then r else t)
  if-Books true out r t k l = k
  if-Books false out r t k l = l

  with_device-Books :
      (why : DeviceEntry → String) (run : TestRun) (x : Answer DeviceEntry) (w : World S)
      (b : ResourceBudget) (h : Hold) (out : List Hold)
      → w.budget ≡ some b
      → needed io ≡ request h
      → Accounts out b
      → NoOverflow h out
      → Books out (with_device io why run x w)
  unfolding with_device
  with_device-Books why run (refuses x) w b h out e f a n = record {
    budget = b;
    held = e;
    accounts = a;
  }
  with_device-Books why run (gives device) w b h out e f a n =
      if-Books (device_supports_qemu device.target_modes) out _ _
        (with_suite-Books run device (io.load_suite run.test_suite_id device) w b h out e f a n)
        (record { budget = b; held = e; accounts = a })

  begin-Books :
      (why : DeviceEntry → String) (run : TestRun) (u : S × Bool) (w : World S) (b : ResourceBudget)
      (h : Hold) (out : List Hold)
      → w.budget ≡ some b
      → needed io ≡ request h
      → Accounts out b
      → NoOverflow h out
      → Books out (begin io why run w u)
  unfolding begin
  begin-Books why run (s, false) w b h out e f a n = record { budget = b; held = e; accounts = a }
  begin-Books why run (s, true) w b h out e f a n =
      with_device-Books why run (io.find_device run.device_id) (record w { store = s }) b h out e f
        a n

  -- On every way out of executeTestRun, whatever the collaborators answer, where no sum passes 64 bits
  -- the reservations that are out are those from before: what the run took is given back exactly once.
  pub execute_test_run-Accounts :
      (why : DeviceEntry → String) (run : TestRun) (w : World S) (b : ResourceBudget) (h : Hold)
      (out : List Hold)
      → w.budget ≡ some b
      → needed io ≡ request h
      → Accounts out b
      → NoOverflow h out
      → (t : ResourceBudget) × ((execute_test_run io why run w).0.budget ≡ some t) × Accounts out t
  unfolding execute_test_run
  execute_test_run-Accounts why run w b h out e f a n =
      let k =
        begin-Books why run (io.update_status run.id TestRunStatus.running "" w.store) w b h out e f
          a n in
      (k.budget, k.held, k.accounts)
