-- ===== src/Engine/Suites/Tests.antt =====
-- A Vishwa suite with a path of two parts, and one with slashes alone (core/execution_engine.go).
use Prim.Native.String.{len, slice}
use dvf.Prelude.{
  arith, ap, ◌≡◌, refl, String, String-discrete, [], ◌∷◌, none, some, inl, inr, suc, ◌≢◌, ◌∙◌, ltb,
  Bool-cases,
}
use dvf.Prelude.Int.{pos}
use dvf.Types.{TestSuite}
use dvf.Workflow.{Workflow, new_workflow, ok}
use dvf.Workflow.Tests.{plain_range}
use dvf.Engine.Host.{Answer, gives, refuses}
use dvf.Engine.Execute.{text}
use dvf.Engine.Execute.Tests.{device}
use dvf.Engine.Suites.{SuiteJson, split_path, load_test_suite}
use dvf.Engine.Suites.Parts.{HasNoSlash}
use dvf.Engine.Suites.Vishwa.{load_test_suite-new_workflow, load_test_suite_panics, slashes}

abbrev no_files : String → Answer SuiteJson
no_files id = refuses "no such file"

split_path_test : split_path "/opencl//relu" ≡ "opencl" ∷ "relu" ∷ []
unfolding split_path String-discrete
split_path_test = refl

m_apart : ◌≢◌ {A = String} "m" "/"
m_apart e = absurd cc

no_slash : HasNoSlash "cl/mm" 3
no_slash i l h e = elim (Bool-cases (ltb i 4)) [
  | inl z ↦
      let q : 3 ≡ i = ground (arith, z, l) in m_apart (ap (λ k. slice "cl/mm" k (suc k)) q ∙ e)
  | inr z ↦
      let q : 4 ≡ i = ground (arith, z, h) in m_apart (ap (λ k. slice "cl/mm" k (suc k)) q ∙ e)
]

load_test_suite-new_workflow_example :
    (suite : TestSuite) × (w : Workflow) × (load_test_suite no_files "vishwa/cl/mm" device
      ≡ some (gives suite))
    × (suite.id ≡ "vishwa/cl/mm")
    × (suite.steps
        ≡ record {
          id = "vishwa/cl/mm";
          test_binary = "/mnt/share/vishwa_tests/cl/mm/mm";
          args = [];
          depends_on = [];
          retry_max = pos 1;
          timeout_sec = pos 180;
        }
          ∷ [])
    × (new_workflow plain_range suite.id "tr-1" suite.steps ≡ ok w)
load_test_suite-new_workflow_example =
    load_test_suite-new_workflow no_files plain_range "cl/" "mm" "tr-1" "/mnt/share/vishwa_tests"
      device (λ e. absurd (omega (arith, ap len e))) (inr ("cl", refl)) no_slash (inl (refl, refl))

load_test_suite_panics_example : load_test_suite no_files (text "vishwa/" (slashes 2)) device ≡ none
load_test_suite_panics_example = load_test_suite_panics no_files device 1
