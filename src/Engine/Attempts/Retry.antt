-- ===== src/Engine/Attempts/Retry.antt =====
-- When a step passes, and what its attempts leave in the store (core/execution_engine.go).
use dvf.Prelude.{
  ℕ, zero, suc, ◌+◌, ◌≤◌, ◌<◌, ◌≡◌, ◌⊎◌, inl, inr, refl, ◌∙◌, ap, String, List, [], ◌∷◌, ◌++◌, Bool,
  true, false, arith, Bool-cases, ltb,
}
use dvf.Prelude.Int.{pos}
use dvf.Types.{Time, TestRun, TestResult, TestRunStatus}
use dvf.Workflow.{StepStatus}
use dvf.Engine.Host.{Answer, gives, refuses, AgentResult}
use dvf.Engine.Execute.{final_status}
use dvf.Engine.Execute.Verdict.{count_bad, final_status_exact}
use dvf.Engine.Attempts.{Parser, is_pass, saved, attempts_from, run_step}

count_bad-append : (xs ys : List TestResult) → count_bad (xs ++ ys) ≡ count_bad xs + count_bad ys
count_bad-append [] ys = omega arith
count_bad-append (x ∷ xs) ys = ground (arith, count_bad-append xs ys)

module _ (parser : Parser) (now : Time) (run : TestRun) (step_id : String)
    (send : ℕ → Answer AgentResult) where
  abbrev passes : ℕ → Bool
  passes k = is_pass parser now run step_id (send k)

  from_next :
      (k i : ℕ) → k ≤ i → passes k ≡ false → (k + 1 ≤ i → passes i ≡ false) → passes i ≡ false
  from_next k i p e h = elim (Bool-cases (ltb k i)) [
    | inl l ↦ h (ground arith)
    | inr l ↦ let same : i ≡ k = ground arith in ap passes same ∙ e
  ]

  attempts_from_cases :
      (more k : ℕ)
      → (((attempts_from parser now run step_id send k more).0 ≡ StepStatus.passed)
          × (j : ℕ) × (k ≤ j)
          × (j ≤ k + more)
          × (passes j ≡ true)
          × ((i : ℕ) → k ≤ i → i < j → passes i ≡ false))
        ⊎ (((attempts_from parser now run step_id send k more).0 ≡ StepStatus.failed)
            × ((i : ℕ) → k ≤ i → i ≤ k + more → passes i ≡ false))
  unfolding attempts_from
  attempts_from_cases zero k = elim (Bool-cases (passes k)) [
    | inl e ↦ inl (rw e refl, k, omega arith, omega arith, e, λ i p q. absurd (omega arith))
    | inr e ↦ inr (rw e refl, λ i p q. ap passes (omega arith) ∙ e)
  ]
  attempts_from_cases (suc more) k = elim (Bool-cases (passes k)) [
    | inl e ↦ inl (rw e refl, k, omega arith, omega arith, e, λ i p q. absurd (omega arith))
    | inr e ↦ elim (attempts_from_cases more (k + 1)) [
      | inl (f, j, lo, hi, g, before) ↦ inl (
        rw e f,
        j,
        omega arith,
        omega arith,
        g,
        λ i p q. from_next k i p e (λ l. before i l (omega arith)),
      )
      | inr (f, none_passes) ↦
          inr (rw e f, λ i p q. from_next k i p e (λ l. none_passes i l (omega arith)))
    ]
  ]

  run_step_cases :
      (n : ℕ)
      → (((run_step parser now run step_id send (pos n)).0 ≡ StepStatus.passed)
          × (j : ℕ) × (j ≤ n)
          × (passes j ≡ true)
          × ((i : ℕ) → i < j → passes i ≡ false))
        ⊎ (((run_step parser now run step_id send (pos n)).0 ≡ StepStatus.failed)
            × ((i : ℕ) → i ≤ n → passes i ≡ false))
  unfolding run_step
  run_step_cases n = elim (attempts_from_cases n 0) [
    | inl (f, j, lo, hi, g, before) ↦ inl (f, j, omega arith, g, λ i q. before i (omega arith) q)
    | inr (f, h) ↦ inr (f, λ i q. h i (omega arith) (omega arith))
  ]

  -- An attempt that is answered with the status "passed".
  abbrev pub Answered : ℕ → Type 0
  Answered k = (a : AgentResult) × (send k ≡ gives a) × (a.status ≡ "passed")

  passes-Answered : (k : ℕ) → passes k ≡ true → Answered k
  passes-Answered k e = from (send k) refl e
    where
      from :
          (r : Answer AgentResult)
          → send k ≡ r
          → is_pass parser now run step_id r ≡ true
          → Answered k
      from (refuses x) q p = absurd (ground (arith, p))
      from (gives a) q p = (a, q, ground (arith, p))

  not_passes : (k : ℕ) → passes k ≡ false → Answered k → ⊥
  not_passes k e (a, q, p) = ground (arith, e, ap (is_pass parser now run step_id) q, p)

  -- A step passes exactly where an attempt within its retries is answered with a result whose status is
  -- "passed", and the attempts before that one are not; otherwise it fails after every attempt was
  -- answered with another status or with an error.
  pub run_step_exact :
      (n : ℕ)
      → (((run_step parser now run step_id send (pos n)).0 ≡ StepStatus.passed)
          × (j : ℕ) × (j ≤ n)
          × Answered j
          × ((i : ℕ) → i < j → Answered i → ⊥))
        ⊎ (((run_step parser now run step_id send (pos n)).0 ≡ StepStatus.failed)
            × ((i : ℕ) → i ≤ n → Answered i → ⊥))
  run_step_exact n = elim (run_step_cases n) [
    | inl (f, j, l, p, before) ↦
        inl (f, j, l, passes-Answered j p, λ i q. not_passes i (before i q))
    | inr (f, h) ↦ inr (f, λ i q. not_passes i (h i q))
  ]

  -- A step whose first attempt fails and saves a failed or errored result leaves the run FAILED,
  -- although its second attempt lets the step pass.
  pub run_step_retried :
      (n m : ℕ)
      → passes 0 ≡ false
      → count_bad (saved parser now run step_id (send 0)) ≡ suc m
      → passes 1 ≡ true
      → ((run_step parser now run step_id send (pos (suc n))).0 ≡ StepStatus.passed)
        × (final_status (run_step parser now run step_id send (pos (suc n))).1
            ≡ TestRunStatus.failed)
  unfolding run_step attempts_from
  run_step_retried n m e c p =
      let rest = attempts_from parser now run step_id send 1 n in
      let bad : count_bad (saved parser now run step_id (send 0) ++ rest.1)
          ≡ suc (m + count_bad rest.1) =
        count_bad-append (saved parser now run step_id (send 0)) rest.1 ∙ ground (arith, c) in
      rw e (
        passes_now n,
        ended _ (final_status_exact (saved parser now run step_id (send 0) ++ rest.1)) bad,
      )
    where
      passes_now : (n : ℕ) → (attempts_from parser now run step_id send 1 n).0 ≡ StepStatus.passed
      passes_now zero = rw p refl
      passes_now (suc n) = rw p refl

      ended :
          {k : ℕ} (rs : List TestResult)
          → ((count_bad rs ≡ 0) × (final_status rs ≡ TestRunStatus.passed))
            ⊎ ((n : ℕ) × (count_bad rs ≡ suc n) × (final_status rs ≡ TestRunStatus.failed))
          → count_bad rs ≡ suc k
          → final_status rs ≡ TestRunStatus.failed
      ended rs (inl (z, f)) b = absurd (omega (arith, z, b))
      ended rs (inr (n, b', f)) b = f
