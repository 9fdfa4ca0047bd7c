-- ===== src/Engine/Execute/Stages.antt =====
-- The stages of executeTestRun (core/execution_engine.go) around one machine: what they call and what
-- they leave alone.
use mathlib.Core.List.{append_assoc, append-nil}
use dvf.Prelude.{
  ◌≡◌, inl, inr, refl, sym, ◌∙◌, ap, String, List, [], ◌∷◌, ◌++◌, Option, none, some, Bool, true,
  false, ◌==◌, if◌then◌else◌, arith, Bool-cases,
}
use dvf.Types.{TestRun, TestSuite, VmInstance}
use dvf.Engine.Loop.{
  WorkflowEnd, all_passed_end, workflow_failed, context_ended, invalid, crashed, no_fuel,
  run_workflow,
}
use dvf.Config.{DeviceEntry}
use dvf.Engine.Host.{
  Answer, gives, refuses, HostCall, created, started, stopped, destroyed, registered, unregistered,
  Engine, World, RunEnd,
}
use dvf.Engine.Execute.{
  complete, after_workflow, run_steps, with_verified, with_driver, with_agent, test_on, boot,
  with_vm, if_agents, note,
}

-- Whether a machine is there after a call, by whether it was before.
abbrev pub vm_after : String → HostCall → Bool → Bool
vm_after id (created j) b = if j == id then true else b
vm_after id (destroyed j) b = if j == id then false else b
vm_after id _ b = b

-- Whether the coordinator keeps agent state for a machine after a call.
abbrev pub agent_after : String → HostCall → Bool → Bool
agent_after id (registered j) b = if j == id then true else b
agent_after id (unregistered j) b = if j == id then false else b
agent_after id _ b = b

abbrev pub after_calls : (HostCall → Bool → Bool) → Bool → List HostCall → Bool
after_calls f b [] = b
after_calls f b (c ∷ cs) = after_calls f (f c b) cs

pub after_calls-append :
    (f : HostCall → Bool → Bool) (b : Bool) (cs ds : List HostCall)
    → after_calls f b (cs ++ ds) ≡ after_calls f (after_calls f b cs) ds
after_calls-append f b [] ds = refl
after_calls-append f b (c ∷ cs) ds = after_calls-append f (f c b) cs ds

-- Calls that leave nothing behind.
pub record IsClean (cs : List HostCall) : Type 0 where
  pub vms : (id : String) (b : Bool) → after_calls (vm_after id) b cs ≡ true → b ≡ true
  pub agents : (id : String) (b : Bool) → after_calls (agent_after id) b cs ≡ true → b ≡ true

module _ {S : Type 0} (io : Engine S) where
  -- A stage that touches neither the reservation nor the machines.
  pub record Keeps (w : World S) (r : World S × RunEnd) : Type 0 where
    pub budget : r.0.budget ≡ w.budget
    pub calls : r.0.calls ≡ w.calls

  complete-Keeps : (run : TestRun) (w : World S) → Keeps w (complete io run w)
  unfolding complete
  complete-Keeps run w = record { budget = refl; calls = refl }

  after_workflow-Keeps :
      (run : TestRun) (end : WorkflowEnd) (w : World S) → Keeps w (after_workflow io run end w)
  unfolding after_workflow
  after_workflow-Keeps run all_passed_end w = complete-Keeps run w
  after_workflow-Keeps run (workflow_failed f k) w = complete-Keeps run w
  after_workflow-Keeps run context_ended w = record { budget = refl; calls = refl }
  after_workflow-Keeps run (invalid e) w = record { budget = refl; calls = refl }
  after_workflow-Keeps run crashed w = record { budget = refl; calls = refl }
  after_workflow-Keeps run no_fuel w = record { budget = refl; calls = refl }

  run_steps-Keeps :
      (run : TestRun) (suite : TestSuite) (w : World S) → Keeps w (run_steps io run suite w)
  unfolding run_steps
  run_steps-Keeps run suite w =
      let k =
        after_workflow-Keeps run (run_workflow io.range io.step_events run.id suite)
          (record w { store = io.step_results run suite w.store }) in
      record { budget = k.budget; calls = k.calls }

  with_verified-Keeps :
      (run : TestRun) (suite : TestSuite) (e : Option String) (w : World S)
      → Keeps w (with_verified io run suite e w)
  unfolding with_verified
  with_verified-Keeps run suite none w = run_steps-Keeps run suite w
  with_verified-Keeps run suite (some e) w = record { budget = refl; calls = refl }

  if-Keeps :
      (b : Bool) (w : World S) (r t : World S × RunEnd)
      → Keeps w r
      → Keeps w t
      → Keeps w (if b then r else t)
  if-Keeps true w r t k l = k
  if-Keeps false w r t k l = l

  with_driver-Keeps :
      (run : TestRun) (device : DeviceEntry) (suite : TestSuite) (vm : VmInstance)
      (e : Option String) (w : World S)
      → Keeps w (with_driver io run device suite vm e w)
  unfolding with_driver
  with_driver-Keeps run device suite vm none w =
      if-Keeps _ w _ _ (with_verified-Keeps run suite _ w) (run_steps-Keeps run suite w)
  with_driver-Keeps run device suite vm (some e) w = record { budget = refl; calls = refl }

  with_agent-Keeps :
      (run : TestRun) (device : DeviceEntry) (suite : TestSuite) (vm : VmInstance)
      (e : Option String) (w : World S)
      → Keeps w (with_agent io run device suite vm e w)
  unfolding with_agent
  with_agent-Keeps run device suite vm none w = with_driver-Keeps run device suite vm _ w
  with_agent-Keeps run device suite vm (some e) w = record { budget = refl; calls = refl }

  test_on-Keeps :
      (run : TestRun) (device : DeviceEntry) (suite : TestSuite) (vm : VmInstance) (w : World S)
      → Keeps w (test_on io run device suite vm w)
  unfolding test_on
  test_on-Keeps run device suite vm w =
      if-Keeps _ w _ _ (with_agent-Keeps run device suite vm _ w) (complete-Keeps run w)

  -- A stage after which the reservation is the same and only clean calls were made.
  pub record Cleans (w : World S) (r : World S × RunEnd) : Type 0 where
    pub budget : r.0.budget ≡ w.budget
    pub made : List HostCall
    pub calls : r.0.calls ≡ w.calls ++ made
    pub clean : IsClean made

  nothing :
      (w : World S) (r : World S × RunEnd)
      → r.0.budget ≡ w.budget
      → r.0.calls ≡ w.calls
      → Cleans w r
  nothing w r b c = record {
    budget = b;
    made = [];
    calls = c ∙ sym (append-nil w.calls);
    clean = record { vms = λ id b e. e; agents = λ id b e. e };
  }

  abbrev torn_down : String → List HostCall
  torn_down id = if_agents io (unregistered id) ++ stopped id ∷ destroyed id ∷ []

  abbrev booted : String → List HostCall
  booted id = created id ∷ if_agents io (registered id)

  ran-IsClean : (id : String) → IsClean (booted id ++ started id ∷ torn_down id)
  ran-IsClean id = elim (Bool-cases io.has_agents) [
    | inl e ↦
        rw e (record { vms = λ j b p. ground (arith, p); agents = λ j b p. ground (arith, p) })
    | inr e ↦
        rw e (record { vms = λ j b p. ground (arith, p); agents = λ j b p. ground (arith, p) })
  ]

  unstarted-IsClean :
      (id : String) → IsClean (booted id ++ (if_agents io (unregistered id) ++ destroyed id ∷ []))
  unstarted-IsClean id = elim (Bool-cases io.has_agents) [
    | inl e ↦
        rw e (record { vms = λ j b p. ground (arith, p); agents = λ j b p. ground (arith, p) })
    | inr e ↦
        rw e (record { vms = λ j b p. ground (arith, p); agents = λ j b p. ground (arith, p) })
  ]

  boot-Cleans :
      (run : TestRun) (device : DeviceEntry) (suite : TestSuite) (vm : VmInstance)
      (e : Option String) (w : World S)
      → Cleans w (boot io run device suite vm e (note io (booted vm.id) w))
  unfolding boot
  boot-Cleans run device suite vm none w =
      let k =
        test_on-Keeps run device suite vm
          (note io (started vm.id ∷ []) (note io (booted vm.id) w)) in
      record {
        budget = k.budget;
        made = booted vm.id ++ started vm.id ∷ torn_down vm.id;
        calls =
            ap (λ cs. cs ++ torn_down vm.id) k.calls
            ∙ append_assoc (w.calls ++ booted vm.id) (started vm.id ∷ []) (torn_down vm.id)
            ∙ append_assoc w.calls (booted vm.id) (started vm.id ∷ torn_down vm.id);
        clean = ran-IsClean vm.id;
      }
  boot-Cleans run device suite vm (some e) w = record {
    budget = refl;
    made = booted vm.id ++ (if_agents io (unregistered vm.id) ++ destroyed vm.id ∷ []);
    calls =
        append_assoc w.calls (booted vm.id)
          (if_agents io (unregistered vm.id) ++ destroyed vm.id ∷ []);
    clean = unstarted-IsClean vm.id;
  }

  pub with_vm-Cleans :
      (run : TestRun) (device : DeviceEntry) (suite : TestSuite) (a : Answer VmInstance)
      (w : World S)
      → Cleans w (with_vm io run device suite a w)
  unfolding with_vm
  with_vm-Cleans run device suite (refuses e) w = nothing w _ refl refl
  with_vm-Cleans run device suite (gives vm) w =
      boot-Cleans (record run { vm_id = vm.id }) device suite vm (io.start_vm vm.id) w
