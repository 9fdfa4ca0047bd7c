-- ===== src/Engine/Suites/Commands.antt =====
-- vishwaCommandSequence of go-orchestrator/internal/core/execution_engine.go, beside the suite that
-- loadTestSuite makes for the same run. A panic is none.
use Prim.Native.String.{len}
use dvf.Prelude.{
  ◌≡◌, refl, ap, ◌∙◌, String, String-discrete, List, [], ◌∷◌, Option, none, some, true, false, ◌==◌,
  ltb, if◌then◌else◌, arith,
}
use dvf.Prelude.Texts.{text_assoc}
use dvf.Types.{WorkflowStep}
use dvf.Config.{DeviceEntry}
use dvf.Engine.Host.{Answer, gives}
use dvf.Engine.Execute.{text, is_vishwa_suite}
use dvf.Engine.Suites.{
  SuiteJson, split_path, last, load_test_suite, vishwa_path, vishwa_dir, made_suite,
}

-- A value of a command's parameters.
pub data Parameter : Type 0 where
  text_value : String → Parameter
  env_value : List (String × String) → Parameter

pub record SuiteCommand : Type 0 where
  pub id : String
  pub kind : String
  pub parameters : List (String × Parameter)

abbrev pub path_or : String → String → String
path_or value fallback = if value == "" then fallback else value

-- The commands, with the last part of the path of the suite.
abbrev pub commands_for : String → String → DeviceEntry → String → List SuiteCommand
commands_for run_id suite_id d binary_name =
    let dir = text (vishwa_dir d) (text "/" (vishwa_path suite_id)) in
    record {
      id = text "cmd-load-" run_id;
      kind = "load_driver";
      parameters =
          ("ko_path", text_value d.driver_path) ∷ ("module_name", text_value d.driver_module) ∷ [];
    }
    ∷ record {
      id = text "cmd-verify-" run_id;
      kind = "verify_device";
      parameters = ("device_node", text_value d.device_node) ∷ [];
    }
    ∷ record {
      id = text "cmd-test-" run_id;
      kind = "start_test";
      parameters =
          ("binary", text_value (text dir (text "/" binary_name)))
          ∷ ("binary_dir", text_value dir)
          ∷ (
            "loader",
            text_value (path_or d.vishwa_loader "/mnt/share/vishwa_tests/lib/ld-linux-x86-64.so.2"),
          )
          ∷ ("lib_dir", text_value (path_or d.vishwa_lib_dir "/mnt/share/vishwa_tests/lib"))
          ∷ ("timeout", text_value "60")
          ∷ ("env", env_value d.vishwa_env)
          ∷ ("suite_name", text_value suite_id)
          ∷ ("binary_name", text_value binary_name)
          ∷ [];
    }
    ∷ []

abbrev pub sequence : String → String → DeviceEntry → Option String → Option (List SuiteCommand)
sequence run_id suite_id d none = none
sequence run_id suite_id d (some binary_name) = some (commands_for run_id suite_id d binary_name)

-- vishwaCommandSequence; `none` is the slice or the index out of range.
unfoldable pub vishwa_command_sequence : String → String → DeviceEntry → Option (List SuiteCommand)
vishwa_command_sequence run_id suite_id d =
    if ltb (len suite_id) 7
    then none
    else sequence run_id suite_id d (last (split_path (vishwa_path suite_id)))

-- The binaries that the commands and the steps of a suite run.
abbrev pub binary_of : List (String × Parameter) → List String
binary_of [] = []
binary_of ((key, env_value e) ∷ ps) = binary_of ps
binary_of ((key, text_value v) ∷ ps) = if key == "binary" then v ∷ [] else binary_of ps

abbrev pub binaries : List SuiteCommand → List String
binaries [] = []
binaries (c ∷ cs) = if c.kind == "start_test" then binary_of c.parameters else binaries cs

abbrev pub test_binaries : List WorkflowStep → List String
test_binaries [] = []
test_binaries (s ∷ ss) = s.test_binary ∷ test_binaries ss

-- For a Vishwa suite whose path has a part, neither the sequence nor loadTestSuite panics, and the one
-- command of the sequence that runs a test runs the binary of the one step of the suite.
pub vishwa_command_sequence-load_test_suite :
    (read : String → Answer SuiteJson) (run_id id part : String) (d : DeviceEntry)
    → is_vishwa_suite id ≡ true
    → last (split_path (vishwa_path id)) ≡ some part
    → (cmds : List SuiteCommand) × (vishwa_command_sequence run_id id d ≡ some cmds)
      × (load_test_suite read id d ≡ some (gives (made_suite id d part)))
      × (binaries cmds ≡ test_binaries (made_suite id d part).steps)
unfolding vishwa_command_sequence load_test_suite is_vishwa_suite String-discrete
vishwa_command_sequence-load_test_suite read run_id id part d v e =
    let long : ltb (len id) 7 ≡ false = ground (arith, v) in
    (
      commands_for run_id id d part,
      rw (long, e) refl,
      rw (v, e) refl,
      ap (λ b. b ∷ [])
          (text_assoc (vishwa_dir d) (text "/" (vishwa_path id)) (text "/" part)
            ∙ ap (text (vishwa_dir d)) (text_assoc "/" (vishwa_path id) (text "/" part))),
    )
