-- ===== src/Engine/Execute/Balance.antt =====
-- What executeTestRun (core/execution_engine.go) leaves of machines and agent state.
use mathlib.Core.List.{append-nil}
use dvf.Prelude.{
  ◌≡◌, refl, sym, ◌∙◌, ap, String, List, [], ◌++◌, Option, none, some, Bool, true, false,
  if◌then◌else◌,
}
use dvf.Types.{TestRun, TestRunStatus, TestSuite}
use dvf.Allocator.{ResourceBudget, try_acquire}
use dvf.Config.{DeviceEntry}
use dvf.Engine.Host.{Answer, gives, refuses, HostCall, Engine, World, RunEnd}
use dvf.Engine.Execute.{
  needed, give_back, with_room, reserve, with_suite, with_device, begin, execute_test_run,
  device_supports_qemu,
}
use dvf.Engine.Execute.Stages.{
  vm_after, agent_after, after_calls, after_calls-append, IsClean, Cleans, with_vm-Cleans,
}

module _ {S : Type 0} (io : Engine S) where
  -- The calls of a stage that are made.
  record Tidy (w : World S) (r : World S × RunEnd) : Type 0 where
    made : List HostCall
    calls : r.0.calls ≡ w.calls ++ made
    clean : IsClean made

  tidy : (w t : World S) (r : World S × RunEnd) → t.calls ≡ w.calls → Cleans io t r → Tidy w r
  tidy w t r e c = record {
    made = c.made;
    calls = c.calls ∙ ap (λ cs. cs ++ c.made) e;
    clean = c.clean;
  }

  untouched : (w : World S) (r : World S × RunEnd) → r.0.calls ≡ w.calls → Tidy w r
  untouched w r e = record {
    made = [];
    calls = e ∙ sym (append-nil w.calls);
    clean = record { vms = λ id b e. e; agents = λ id b e. e };
  }

  with_room-Tidy :
      (run : TestRun) (device : DeviceEntry) (suite : TestSuite) (p : ResourceBudget × Bool)
      (w : World S)
      → Tidy w (with_room io run device suite p w)
  unfolding with_room give_back
  with_room-Tidy run device suite (b, true) w =
      let c =
        with_vm-Cleans io run device suite (io.create_vm device) (record w { budget = some b }) in
      record { made = c.made; calls = c.calls; clean = c.clean }
  with_room-Tidy run device suite (b, false) w = untouched w _ refl

  reserve-Tidy :
      (run : TestRun) (device : DeviceEntry) (suite : TestSuite) (b : Option ResourceBudget)
      (w : World S)
      → Tidy w (reserve io run device suite b w)
  unfolding reserve
  reserve-Tidy run device suite none w = tidy w w _ refl (with_vm-Cleans io run device suite _ w)
  reserve-Tidy run device suite (some b) w =
      with_room-Tidy run device suite (try_acquire (needed io) b) w

  with_suite-Tidy :
      (run : TestRun) (device : DeviceEntry) (a : Answer TestSuite) (w : World S)
      → Tidy w (with_suite io run device a w)
  unfolding with_suite
  with_suite-Tidy run device (refuses e) w = untouched w _ refl
  with_suite-Tidy run device (gives suite) w = reserve-Tidy run device suite w.budget w

  if-Tidy :
      (b : Bool) (w : World S) (r t : World S × RunEnd)
      → Tidy w r
      → Tidy w t
      → Tidy w (if b then r else t)
  if-Tidy true w r t k l = k
  if-Tidy false w r t k l = l

  with_device-Tidy :
      (why : DeviceEntry → String) (run : TestRun) (a : Answer DeviceEntry) (w : World S)
      → Tidy w (with_device io why run a w)
  unfolding with_device
  with_device-Tidy why run (refuses e) w = untouched w _ refl
  with_device-Tidy why run (gives device) w =
      if-Tidy (device_supports_qemu device.target_modes) w _ _
        (with_suite-Tidy run device (io.load_suite run.test_suite_id device) w) (untouched w _ refl)

  begin-Tidy :
      (why : DeviceEntry → String) (run : TestRun) (w : World S) (u : S × Bool)
      → Tidy w (begin io why run w u)
  unfolding begin
  begin-Tidy why run w (s, false) = untouched w _ refl
  begin-Tidy why run w (s, true) =
      let t = with_device-Tidy why run (io.find_device run.device_id) (record w { store = s }) in
      record { made = t.made; calls = t.calls; clean = t.clean }

  -- On every way out of executeTestRun, whatever the collaborators answer, no machine is there and no
  -- agent state is kept that was not before.
  pub execute_test_run-cleans :
      (why : DeviceEntry → String) (run : TestRun) (w : World S) (id : String)
      → let (t, end) = execute_test_run io why run w in
        (after_calls (vm_after id) false t.calls ≡ true
          → after_calls (vm_after id) false w.calls ≡ true)
        × (after_calls (agent_after id) false t.calls ≡ true
            → after_calls (agent_after id) false w.calls ≡ true)
  unfolding execute_test_run
  execute_test_run-cleans why run w id =
      let t = begin-Tidy why run w (io.update_status run.id TestRunStatus.running "" w.store) in
      (
        λ e. t.clean.vms id _ (
            sym (after_calls-append (vm_after id) false w.calls t.made)
            ∙ ap (after_calls (vm_after id) false) (sym t.calls)
            ∙ e),
        λ e. t.clean.agents id _ (
            sym (after_calls-append (agent_after id) false w.calls t.made)
            ∙ ap (after_calls (agent_after id) false) (sym t.calls)
            ∙ e),
      )
