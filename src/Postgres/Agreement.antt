-- ===== src/Postgres/Agreement.antt =====
-- PostgresStore (storage/postgres.go) and MemoryStore (storage/memory.go) under the same calls.
use dvf.Prelude.{
  ◌≡◌, inl, inr, refl, sym, ◌∙◌, ap, subst, String, String-discrete, Option, none, some, false, not,
  ◌==◌, ◌&&◌, if◌then◌else◌, arith, Option-cases, Bool-cases,
}
use dvf.Prelude.Int.{ℤ}
use dvf.Prelude.Dict.{Dict, insert, erase, empty, is_some, IsMap, insert-IsMap, erase-IsMap}
use dvf.Types.{Time, TestRun, TestRunStatus, VmStatus}
use dvf.Store.{
  MemoryStore, Format, new_memory_store, or_pending, is_running, is_terminal, updated, stamp,
}
use dvf.Store
use dvf.Postgres.{
  Database, new_database, RunRow, VmRow, run_of, vm_of, read_at, nullable_str, coalesce,
  updated_row, update_vm_row, update_at, update_test_run_status, update_vm_status,
}

-- A Go map holds the records of a table's rows, under their primary keys.
pub record Mirrors {R V : Type 0} (f : String → R → V) (m : Dict V) (d : Dict R) : Type 0 where
  pub is_map : IsMap m
  pub is_table : IsMap d
  pub same : (id : String) → m.get id ≡ read_at f id (d.get id)

module _ {R V : Type 0} (f : String → R → V) (m : Dict V) (d : Dict R) (h : Mirrors f m d) where
  pub Mirrors-insert :
      (id : String) (r : R) (v : V) → v ≡ f id r → Mirrors f (insert id v m) (insert id r d)
  Mirrors-insert id r v e = record {
    is_map = insert-IsMap id v m h.is_map;
    is_table = insert-IsMap id r d h.is_table;
    same = λ j. elim (String-discrete id j) [
      | yes q ↦
          let there : some v ≡ some (f j r) = ap some (e ∙ ap (λ k. f k r) q) in
          ground (arith, there)
      | no n ↦ ground (arith, h.same j)
    ];
  }

  pub Mirrors-erase :
      (id : String) (r : R) → d.get id ≡ some r → Mirrors f (erase id m) (erase id d)
  Mirrors-erase id r e = record {
    is_map = erase-IsMap id m (ap is_some (h.same id ∙ ap (read_at f id) e)) h.is_map;
    is_table = erase-IsMap id d (ap is_some e) h.is_table;
    same =
        λ j. elim (String-discrete id j) [ yes q ↦ ground arith | no n ↦ ground (arith, h.same j) ];
  }

-- The database holds the runs and the machines of the in-memory store.
pub record Represents (d : Database) (m : MemoryStore) : Type 0 where
  pub runs : Mirrors run_of m.test_runs d.test_runs
  pub machines : Mirrors vm_of m.vms d.vms

-- Two results of one call: both are errors, or the database still holds what the other store does.
abbrev pub Agree : Option Database → Option MemoryStore → Type 0
Agree none none = Unit {0}
Agree (some d) (some m) = Represents d m
Agree _ _ = ⊥

pub new-Represents : Represents new_database new_memory_store
new-Represents = record { runs = new; machines = new }
  where
    new : {R V : Type 0} {f : String → R → V} → Mirrors f empty empty
    new = record { is_map = λ k. refl; is_table = λ k. refl; same = λ id. refl }

pub update_vm_status-Agree :
    (id : String) (status : VmStatus) (d : Database) (m : MemoryStore)
    → Represents d m
    → Agree (update_vm_status id status d) (dvf.Store.update_vm_status id status m)
unfolding update_vm_status dvf.Store.update_vm_status dvf.Store.update_vm_at update_vm_row
update_vm_status-Agree id status d m v =
    subst
      (λ o. Agree (update_vm_row status id d (d.vms.get id)) (dvf.Store.update_vm_at status id m o))
      (sym (v.machines.same id)) (at (d.vms.get id))
  where
    at :
        (o : Option VmRow)
        → Agree
            (update_vm_row status id d o)
            (dvf.Store.update_vm_at status id m (read_at vm_of id o))
    at none = tt
    at (some r) = record {
      runs = v.runs;
      machines =
          Mirrors-insert vm_of m.vms d.vms v.machines id (record r { status = status }) _ refl;
    }

pub coalesce-nullable_str : (s : String) → coalesce (nullable_str s) ≡ s
coalesce-nullable_str s = elim (String-discrete s "") [
  | yes e ↦ ground (arith, e)
  | no n ↦ ground arith
]

module _ (kept : Time → Time) (rounded elapsed : Time → Time → ℤ) where
  -- Where an update of a run does the same in both stores: no message is lost, a run that ends has
  -- started, the time is one that a column keeps, and the duration, which the database rounds to
  -- milliseconds and the other store cuts off, is the same.
  pub record IsCommonUpdate (now : Time) (status : TestRunStatus) (msg : String) (r : RunRow)
      : Type 0 where
    pub time : kept now ≡ now
    pub message : (msg == "" && not (coalesce r.error_message == "")) ≡ false
    pub started : (is_terminal status && not (is_some r.started_at)) ≡ false
    pub lasted : (t : Time) → r.started_at ≡ some t → rounded t now ≡ elapsed t now

  updated-run_of :
      (now : Time) (status : TestRunStatus) (msg id : String) (r : RunRow)
      → IsCommonUpdate now status msg r
      → updated elapsed now status msg (run_of id r)
        ≡ run_of id (updated_row kept rounded now status msg r)
  unfolding updated stamp updated_row
  updated-run_of now status msg id r c = elim (Bool-cases (is_running status)) [
    | inl e ↦ rw (e, c.time, same_message) refl
    | inr e ↦ elim (Bool-cases (is_terminal status)) [
      | inr f ↦ rw (e, f, same_message) refl
      | inl f ↦ elim (Option-cases r.started_at) [
        | inl g ↦ absurd (ground (arith, c.started, f, g))
        | inr (t, g) ↦ rw (e, f, g, c.time, c.lasted t g, same_message) refl
      ]
    ]
  ]
    where
      same_message :
          (if msg == "" then coalesce r.error_message else msg) ≡ coalesce (nullable_str msg)
      same_message = elim (String-discrete msg "") [
        | yes q ↦ elim (String-discrete (coalesce r.error_message) "") [
          | yes w ↦ ground (arith, q, w)
          | no w ↦ absurd (ground (arith, c.message, q, w))
        ]
        | no n ↦ ground arith
      ]

  pub update_test_run_status-Agree :
      (now : Time) (id : String) (status : TestRunStatus) (msg : String) (d : Database)
      (m : MemoryStore)
      → ((r : RunRow) → d.test_runs.get id ≡ some r → IsCommonUpdate now status msg r)
      → Represents d m
      → Agree
          (update_test_run_status kept rounded now id status msg d)
          (dvf.Store.update_test_run_status elapsed now id status msg m)
  unfolding update_test_run_status dvf.Store.update_test_run_status dvf.Store.update_run_at
      update_at
  update_test_run_status-Agree now id status msg d m c v =
      subst (λ o. Agree (update_at f id d (d.test_runs.get id)) (dvf.Store.update_run_at g id m o))
        (sym (v.runs.same id)) (at (d.test_runs.get id) refl)
    where
      f : RunRow → RunRow
      f = updated_row kept rounded now status msg

      g : TestRun → TestRun
      g = updated elapsed now status msg

      at :
          (o : Option RunRow)
          → d.test_runs.get id ≡ o
          → Agree (update_at f id d o) (dvf.Store.update_run_at g id m (read_at run_of id o))
      at none e = tt
      at (some r) e = record {
        runs =
            Mirrors-insert run_of m.test_runs d.test_runs v.runs id (f r) (g (run_of id r))
              (updated-run_of now status msg id r (c r e));
        machines = v.machines;
      }
