-- ===== src/Postgres/Differences.antt =====
-- Where PostgresStore (storage/postgres.go) and MemoryStore (storage/memory.go) differ.
use dvf.Prelude.{◌≡◌, ◌∙◌, ap, String, some, ◌==◌, if◌then◌else◌, arith, Bool-cases, inl, inr}
use dvf.Prelude.Int.{ℤ}
use dvf.Prelude.Dict.{insert}
use dvf.Types.{Time, TestRun, TestRunStatus}
use dvf.Store.{MemoryStore, is_running, is_terminal, updated, stamp}
use dvf.Store
use dvf.Postgres.{
  Database, RunRow, run_of, read_at, nullable_str, coalesce, updated_row, update_test_run_status,
  update_at, get_test_run,
}
use dvf.Postgres.Agreement.{Represents, coalesce-nullable_str}

module _ (kept : Time → Time) (rounded elapsed : Time → Time → ℤ) (now : Time)
    (status : TestRunStatus) where
  cleared :
      (id : String) (r : RunRow)
      → (run_of id (updated_row kept rounded now status "" r)).error_message ≡ ""
  unfolding updated_row
  cleared id r = elim (Bool-cases (is_running status)) [
    | inl e ↦ rw e empty
    | inr e ↦ elim (Bool-cases (is_terminal status)) [
      | inl f ↦ rw (e, f) empty
      | inr f ↦ rw (e, f) empty
    ]
  ]
    where
      empty : coalesce (nullable_str "") ≡ ""
      empty = coalesce-nullable_str ""

  kept_message :
      (run : TestRun) → (updated elapsed now status "" run).error_message ≡ run.error_message
  unfolding updated stamp
  kept_message run = elim (Bool-cases (is_running status)) [
    | inl e ↦ rw e empty
    | inr e ↦ elim (Bool-cases (is_terminal status)) [
      | inl f ↦ rw (e, f) empty
      | inr f ↦ rw (e, f) empty
    ]
  ]
    where
      empty : (if "" == "" then run.error_message else "") ≡ run.error_message
      empty = ground arith

  -- UpdateTestRunStatus without a message, of a run that both stores hold: the run has no message in the
  -- database after it, and the message that it had in the in-memory store.
  pub update_test_run_status-clears :
      (id : String) (r : RunRow) (d : Database) (m : MemoryStore)
      → Represents d m
      → d.test_runs.get id ≡ some r
      → (t : Database) × (u : MemoryStore) × (a : TestRun) × (b : TestRun) × (update_test_run_status
            kept rounded now id status "" d
          ≡ some t)
        × (dvf.Store.update_test_run_status elapsed now id status "" m ≡ some u)
        × (get_test_run id t ≡ some a)
        × (dvf.Store.get_test_run id u ≡ some b)
        × (a.error_message ≡ "")
        × (b.error_message ≡ coalesce r.error_message)
  unfolding get_test_run dvf.Store.get_test_run update_test_run_status
      dvf.Store.update_test_run_status dvf.Store.update_run_at update_at
  update_test_run_status-clears id r d m v e =
      let row = updated_row kept rounded now status "" r in
      let run = updated elapsed now status "" (run_of id r) in
      let here : m.test_runs.get id ≡ some (run_of id r) =
        v.runs.same id ∙ ap (read_at run_of id) e in
      let got : (insert id row d.test_runs).get id ≡ some row = ground arith in
      let same : (insert id run m.test_runs).get id ≡ some run = ground arith in
      (
        record d { test_runs = insert id row d.test_runs },
        record m { test_runs = insert id run m.test_runs },
        run_of id row,
        run,
        ap (update_at (updated_row kept rounded now status "") id d) e,
        ap (dvf.Store.update_run_at (updated elapsed now status "") id m) here,
        ap (read_at run_of id) got,
        same,
        cleared id r,
        kept_message (run_of id r),
      )
