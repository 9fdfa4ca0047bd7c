-- ===== src/Store/Fresh.antt =====
-- The names that the store (storage/memory.go) gives to test runs.
use dvf.Prelude.{
  ℕ, ◌+◌, ◌^◌, ◌≤◌, ◌<◌, ◌≡◌, refl, sym, ◌∙◌, ap, String, Option, none, some, true, ◌==◌,
  if◌then◌else◌, arith, String-discrete,
}
use dvf.Prelude.Int.{pos, add64, add64_pos}
use dvf.Prelude.Dict.{is_some}
use dvf.Types.{Time, TestRun}
use dvf.Store.{MemoryStore, Format, create_test_run, get_test_run, or_pending}

-- Every stored run has a name made from a number up to the counter.
pub record IsNumbered (format : Format) (n : ℕ) (m : MemoryStore) : Type 0 where
  pub counted : m.counter ≡ pos n
  pub numbered :
      (k : String)
      → is_some (m.test_runs.get k) ≡ true
      → (i : ℕ) × (i ≤ n) × (k ≡ format "tr" (pos i))

-- Where the texts of distinct numbers are distinct, the counter stays in 64 bits and stored runs carry
-- earlier numbers, CreateTestRun gives a name that no stored run has, stores the run under it, pending
-- if it had no status, and keeps all other runs.
pub create_test_run-fresh :
    (format : Format) (now : Time) (run : TestRun) (n : ℕ) (m : MemoryStore)
    → ((i j : ℕ) → format "tr" (pos i) ≡ format "tr" (pos j) → i ≡ j)
    → n + 1 < 2 ^ 63
    → IsNumbered format n m
    → let (stored, t) = create_test_run format now run m in
      (get_test_run stored.id m ≡ none)
      × (stored.status ≡ or_pending run.status)
      × ((j : String)
          → get_test_run j t ≡ (if stored.id == j then some stored else get_test_run j m))
      × IsNumbered format (n + 1) t
unfolding create_test_run get_test_run
create_test_run-fresh format now run n m inj h v = (fresh, refl, λ j. refl, numbered_on)
  where
    number : add64 m.counter (pos 1) ≡ pos (n + 1)
    number = ap (λ c. add64 c (pos 1)) v.counted ∙ add64_pos n 1 h

    name : format "tr" (add64 m.counter (pos 1)) ≡ format "tr" (pos (n + 1))
    name = ap (format "tr") number

    absent :
        (o : Option TestRun)
        → m.test_runs.get (format "tr" (add64 m.counter (pos 1))) ≡ o
        → o ≡ none
    absent none e = refl
    absent (some r) e =
        let (i, le, same) = v.numbered (format "tr" (add64 m.counter (pos 1))) (ap is_some e) in
        absurd (omega (arith, inj (n + 1) i (sym name ∙ same)))

    fresh : m.test_runs.get (format "tr" (add64 m.counter (pos 1))) ≡ none
    fresh = absent _ refl

    numbered_on : IsNumbered format (n + 1) (create_test_run format now run m).1
    numbered_on = record {
      counted = number;
      numbered = λ k p. elim (String-discrete (format "tr" (add64 m.counter (pos 1))) k) [
        | yes q ↦ (n + 1, omega arith, sym q ∙ name)
        | no q ↦ let (i, le, same) = v.numbered k (ground arith) in (i, omega arith, same)
      ];
    }
