-- ===== src/Engine/Suites.antt =====
-- loadTestSuite of go-orchestrator/internal/core/execution_engine.go with splitPath. Finding, reading and
-- decoding the file of a suite is an argument; a panic is none.
pub mod Parts
pub mod Vishwa
pub mod Commands
mod Tests
use Prim.Native.String.{len, slice}
use dvf.Prelude.{
  ℕ, zero, suc, ◌+◌, String, List, [], ◌∷◌, Option, none, some, Bool, true, false, ◌&&◌, ◌||◌, ◌==◌,
  ltb, eqb, if◌then◌else◌, map,
}
use dvf.Prelude.Int.{ℤ, pos}
use dvf.Types.{WorkflowStep, TestSuite}
use dvf.Config.{DeviceEntry}
use dvf.Engine.Host.{Answer, gives, refuses}
use dvf.Engine.Execute.{text, is_vishwa_suite}

pub record TestJson : Type 0 where
  pub binary : String
  pub description : String
  pub timeout_seconds : ℤ
  pub depends_on : List String

pub record SuiteJson : Type 0 where
  pub id : String
  pub name : String
  pub description : String
  pub timeout_seconds : ℤ
  pub tests : List TestJson
  pub steps : List WorkflowStep

-- Whether a part of the path ends at a position.
abbrev pub ends_at : String → ℕ → Bool
ends_at p i = eqb i (len p) || slice p i (suc i) == "/"

-- The loop of splitPath, for the positions from `i`; the number counts those that are to come.
unfoldable pub split_loop : ℕ → String → ℕ → ℕ → List String
split_loop zero p i start = []
split_loop (suc n) p i start =
    let rest = split_loop n p (suc i) (if ends_at p i then suc i else start) in
    if ends_at p i && ltb start i then slice p start i ∷ rest else rest

unfoldable pub split_path : String → List String
unfolding split_loop
split_path p = split_loop (suc (len p)) p 0 0

abbrev pub last : List String → Option String
last [] = none
last (s ∷ []) = some s
last (s ∷ t ∷ ss) = last (t ∷ ss)

abbrev suite_of : String → String → String → List WorkflowStep → ℤ → TestSuite
suite_of id name description steps timeout = record {
  id = id;
  name = name;
  device_id = "";
  category = none;
  description = description;
  binary_path = "";
  steps = steps;
  timeout = timeout;
  tags = [];
}

abbrev pub vishwa_step : String → String → WorkflowStep
vishwa_step id binary = record {
  id = id;
  test_binary = binary;
  args = [];
  depends_on = [];
  retry_max = pos 1;
  timeout_sec = pos 180;
}

abbrev pub vishwa_path : String → String
vishwa_path id = slice id 7 (len id)

abbrev pub vishwa_dir : DeviceEntry → String
vishwa_dir d = if d.vishwa_test_dir == "" then "/mnt/share/vishwa_tests" else d.vishwa_test_dir

-- The suite made for a path and its last part.
abbrev pub made_suite : String → DeviceEntry → String → TestSuite
made_suite id d binary =
    suite_of id "Vishwa Dynamic Suite" "Dynamically generated suite for Vishwa runtime environment"
      (vishwa_step id (text (vishwa_dir d) (text "/" (text (vishwa_path id) (text "/" binary))))
        ∷ [])
      (pos 0)

-- `none` is the index out of range where the path has no parts.
abbrev vishwa_suite : String → DeviceEntry → Option String → Option (Answer TestSuite)
vishwa_suite id d none = none
vishwa_suite id d (some binary) = some (gives (made_suite id d binary))

abbrev absolute : String → String
absolute binary = if slice binary 0 1 == "/" then binary else text "/mnt/share/dvf_tests/" binary

-- A test of a suite's file as a step.
abbrev step_of : TestJson → WorkflowStep
step_of t = record {
  id = t.binary;
  test_binary = absolute t.binary;
  args = [];
  depends_on = t.depends_on;
  retry_max = pos 1;
  timeout_sec = t.timeout_seconds;
}

abbrev steps_of : List TestJson → List WorkflowStep → List WorkflowStep
steps_of tests [] = map step_of tests
steps_of tests (s ∷ ss) = s ∷ ss

abbrev from_json : Answer SuiteJson → Answer TestSuite
from_json (refuses e) = refuses e
from_json (gives sj) =
    gives (suite_of sj.id sj.name sj.description (steps_of sj.tests sj.steps) sj.timeout_seconds)

-- loadTestSuite
unfoldable pub load_test_suite :
    (String → Answer SuiteJson) → String → DeviceEntry → Option (Answer TestSuite)
load_test_suite read id d =
    if is_vishwa_suite id
    then vishwa_suite id d (last (split_path (vishwa_path id)))
    else some (from_json (read id))
