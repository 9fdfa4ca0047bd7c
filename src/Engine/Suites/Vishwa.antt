-- ===== src/Engine/Suites/Vishwa.antt =====
-- The suites that loadTestSuite (core/execution_engine.go) makes from a path.
use Prim.Native.String.{len, slice}
use dvf.Prelude.{
  ℕ, zero, suc, ◌+◌, ◌≡◌, ◌≢◌, ◌⊎◌, inl, inr, ◌∷◌, refl, sym, ◌∙◌, ap, String, String-discrete, [],
  none, some, true, false, ◌==◌, ltb, arith,
}
use dvf.Prelude.Dict.{MapRange}
use dvf.Prelude.Texts.{
  len_positive, len_text, text_assoc, text_nil, slice_middle, slice_first, slice_rest,
}
use dvf.Types.{TestSuite}
use dvf.Prelude.Int.{pos}
use dvf.Config.{DeviceEntry}
use dvf.Workflow.{Workflow, new_workflow, ok}
use dvf.Workflow.Build.Construct.{new_workflow_ok}
use dvf.Engine.Host.{Answer, gives}
use dvf.Engine.Execute.{text, is_vishwa_suite}
use dvf.Engine.Suites.Parts.{IsFolder, HasNoSlash, last-split_path}
use dvf.Engine.Suites.{
  SuiteJson, ends_at, split_loop, split_path, last, load_test_suite, vishwa_step, vishwa_path,
  vishwa_dir, made_suite,
}

vishwa_named : (id : String) → is_vishwa_suite id ≡ true → (id == "") ≡ false
unfolding is_vishwa_suite
vishwa_named id v = elim (String-discrete id "") [
  | yes q ↦ absurd (ground (arith, v, ap len q))
  | no n ↦ ground arith
]

-- The directory of the tests of a device: its own, or the default where it has none.
abbrev pub HasTestDir : DeviceEntry → String → Type 0
HasTestDir d dir =
    ((d.vishwa_test_dir ≡ "") × (dir ≡ "/mnt/share/vishwa_tests"))
    ⊎ ((d.vishwa_test_dir ≢ "") × (dir ≡ d.vishwa_test_dir))

HasTestDir-vishwa_dir : (d : DeviceEntry) (dir : String) → HasTestDir d dir → vishwa_dir d ≡ dir
HasTestDir-vishwa_dir d dir (inl (e, f)) = ground (arith, e, f)
HasTestDir-vishwa_dir d dir (inr (e, f)) = ground (arith, e, f)

is_vishwa_text : (path : String) → path ≢ "" → is_vishwa_suite (text "vishwa/" path) ≡ true
unfolding is_vishwa_suite
is_vishwa_text path named =
    let long : ltb 7 (len (text "vishwa/" path)) ≡ true =
      ground (arith, len_text "vishwa/" path, len_positive path named) in
    let same : ("vishwa/" == "vishwa/") ≡ true = ground arith in
    rw (long, slice_first "vishwa/" path 7 refl, same) refl

-- For a suite "vishwa/" with a path that ends in a part, which is not empty and has no slash, alone or behind
-- a slash, loadTestSuite makes a suite of that name with one step, which has the suite's name, depends on
-- no step, may be tried twice, and runs the binary <directory of the device's tests>/<path>/<part>;
-- NewWorkflow makes a workflow of its steps.
pub load_test_suite-new_workflow :
    (read : String → Answer SuiteJson) (range : MapRange) (prefix part run_id dir : String)
    (d : DeviceEntry)
    → part ≢ ""
    → IsFolder prefix
    → HasNoSlash (text prefix part) (len prefix)
    → HasTestDir d dir
    → let path = text prefix part in
      (suite : TestSuite) × (w : Workflow) × (load_test_suite read (text "vishwa/" path) d
        ≡ some (gives suite))
      × (suite.id ≡ text "vishwa/" path)
      × (suite.steps
          ≡ record {
            id = text "vishwa/" path;
            test_binary = text dir (text "/" (text path (text "/" part)));
            args = [];
            depends_on = [];
            retry_max = pos 1;
            timeout_sec = pos 180;
          }
            ∷ [])
      × (new_workflow range suite.id run_id suite.steps ≡ ok w)
unfolding load_test_suite is_vishwa_suite
load_test_suite-new_workflow read range prefix part run_id dir d part_named folder no_slash has =
    let path = text prefix part in
    let e = last-split_path prefix part part_named folder no_slash in
    let named : path ≢ "" =
      λ q. omega (arith, ap len q, len_text prefix part, len_positive part part_named) in
    let id = text "vishwa/" path in
    let rest : vishwa_path id ≡ path = slice_rest "vishwa/" path 7 refl in
    let is_vishwa : is_vishwa_suite id ≡ true = is_vishwa_text path named in
    let made =
      new_workflow_ok range id run_id
        (vishwa_step id (text (vishwa_dir d) (text "/" (text (vishwa_path id) (text "/" part))))) []
        (λ s. 0)
        (record { distinct = λ k. ground arith; named = rw (vishwa_named id is_vishwa) refl })
        (λ s x p q. absurd (ground (arith, q))) (λ s x p q. absurd (ground (arith, q))) in
    (
      made_suite id d part,
      made.0,
      rw (is_vishwa, ap (λ p. last (split_path p)) rest ∙ e) refl,
      refl,
      ap (λ (s : String). vishwa_step id s ∷ [])
          (ap (λ r. text r (text "/" (text (vishwa_path id) (text "/" part))))
              (HasTestDir-vishwa_dir d dir has)
            ∙ ap (λ p. text dir (text "/" (text p (text "/" part)))) rest),
      made.1,
    )

-- A text of slashes.
abbrev pub slashes : ℕ → String
slashes zero = ""
slashes (suc n) = text "/" (slashes n)

len-slashes : (n : ℕ) → len (slashes n) ≡ n
len-slashes zero = refl
len-slashes (suc n) = len_text "/" (slashes n) ∙ omega (arith, len-slashes n)

slashes-add : (a b : ℕ) → slashes (a + suc b) ≡ text (slashes a) (text "/" (slashes b))
slashes-add zero b =
    let e : zero + suc b ≡ suc b = omega arith in
    ap slashes e ∙ sym (text_nil (text "/" (slashes b)))
slashes-add (suc a) b =
    let e : suc a + suc b ≡ suc (a + suc b) = omega arith in
    ap slashes e
    ∙ ap (text "/") (slashes-add a b)
    ∙ sym (text_assoc "/" (slashes a) (text "/" (slashes b)))

-- Every position of the text ends a part.
slashes-ends_at : (a b n : ℕ) → a + b ≡ n → ends_at (slashes n) a ≡ true
slashes-ends_at a zero n e = ground (arith, len-slashes n)
slashes-ends_at a (suc b) n e =
    let here : slice (slashes n) a (suc a) ≡ "/" =
      ap (λ s. slice s a (suc a)) (ap slashes (sym e) ∙ slashes-add a b)
      ∙ slice_middle (slashes a) "/" (slashes b) a (suc a) (len-slashes a)
          (omega (arith, len-slashes a)) in
    ground (arith, here)

-- So no part of it has a character.
slashes-split_loop : (left a n : ℕ) → a + left ≡ suc n → split_loop left (slashes n) a a ≡ []
unfolding split_loop
slashes-split_loop zero a n e = refl
slashes-split_loop (suc left) a n e =
    rw (slashes-ends_at a left n (omega (arith, e)), not_before)
      (slashes-split_loop left (suc a) n (omega (arith, e)))
  where
    not_before : ltb a a ≡ false
    not_before = ground arith

-- A Vishwa suite whose path is slashes alone makes loadTestSuite panic, whatever the device.
pub load_test_suite_panics :
    (read : String → Answer SuiteJson) (d : DeviceEntry) (n : ℕ)
    → load_test_suite read (text "vishwa/" (slashes (suc n))) d ≡ none
unfolding load_test_suite is_vishwa_suite split_path
load_test_suite_panics read d n =
    let id = text "vishwa/" (slashes (suc n)) in
    let path : vishwa_path id ≡ slashes (suc n) = slice_rest "vishwa/" (slashes (suc n)) 7 refl in
    let no_parts : split_path (slashes (suc n)) ≡ [] =
      ap (λ k. split_loop (suc k) (slashes (suc n)) 0 0) (len-slashes (suc n))
      ∙ slashes-split_loop (suc (suc n)) 0 (suc n) (omega arith) in
    rw (is_vishwa, path, no_parts) refl
  where
    is_vishwa : is_vishwa_suite (text "vishwa/" (slashes (suc n))) ≡ true
    is_vishwa =
        let long : ltb 7 (len (text "vishwa/" (slashes (suc n)))) ≡ true =
          ground (arith, len_text "vishwa/" (slashes (suc n)), len-slashes (suc n)) in
        let same : ("vishwa/" == "vishwa/") ≡ true = ground arith in
        rw (long, slice_first "vishwa/" (slashes (suc n)) 7 refl, same) refl
