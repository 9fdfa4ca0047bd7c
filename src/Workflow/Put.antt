-- ===== src/Workflow/Put.antt =====
-- A write to one step of a workflow (workflow.go) that keeps the step's definition.
use dvf.Prelude.{◌≡◌, refl, String, List, [], ◌∷◌, some, Bool, true, arith}
use dvf.Prelude.Dict.{Dict, insert, is_some}
use dvf.Workflow.{StepStatus, Step, deps}
use dvf.Workflow.Steps.{is_passed, is_lost}
use dvf.Workflow.Skip.{holds, all_passed, any_lost}

module _ (k : String) (steps : Dict Step) (s t : Step) (at : steps.get k ≡ some s) where
  pub put_keys : (insert k t steps).keys ≡ steps.keys
  put_keys = ground arith

  pub put_is_some : (j : String) → is_some ((insert k t steps).get j) ≡ is_some (steps.get j)
  put_is_some j = ground arith

  pub put_deps : (j : String) → t.def ≡ s.def → deps (insert k t steps) j ≡ deps steps j
  put_deps j e = ground arith

  pub put_holds :
      (p : StepStatus → Bool) (j : String)
      → p t.status ≡ p s.status
      → holds p (insert k t steps) j ≡ holds p steps j
  put_holds p j e = ground arith

  pub put_all_passed :
      (ds : List String)
      → is_passed t.status ≡ is_passed s.status
      → all_passed (insert k t steps) ds ≡ all_passed steps ds
  unfolding all_passed
  put_all_passed [] e = refl
  put_all_passed (d ∷ ds) e = ground (arith, put_holds is_passed d e, put_all_passed ds e)

  pub put_any_lost :
      (ds : List String)
      → is_lost t.status ≡ is_lost s.status
      → any_lost (insert k t steps) ds ≡ any_lost steps ds
  unfolding any_lost
  put_any_lost [] e = refl
  put_any_lost (d ∷ ds) e = ground (arith, put_holds is_lost d e, put_any_lost ds e)

  -- A step that passes keeps every test for passed dependencies that held.
  pub put_all_passed_mono :
      (ds : List String)
      → is_passed t.status ≡ true
      → all_passed steps ds ≡ true
      → all_passed (insert k t steps) ds ≡ true
  unfolding all_passed
  put_all_passed_mono [] e h = refl
  put_all_passed_mono (d ∷ ds) e h = ground (arith, put_all_passed_mono ds e)

  pub put_any_lost_mono :
      (ds : List String)
      → is_lost t.status ≡ true
      → any_lost steps ds ≡ true
      → any_lost (insert k t steps) ds ≡ true
  unfolding any_lost
  put_any_lost_mono [] e h = h
  put_any_lost_mono (d ∷ ds) e h = ground (arith, put_any_lost_mono ds e)
