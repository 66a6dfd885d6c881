-- ===== src/Db/Open.antt =====
-- dload_sqlite, db_err and db_exec_impl of native/src/core/db.cpp: when the database is opened.
use kitsune_ufork.Common.{
  ◌≡◌, refl, ap, sym, subst, Bool, true, false, ◌||◌, Option, none, some, List, [], ◌∷◌, ◌++◌, Text,
  arith, if◌then◌else◌, Bool-cases, Option-cases, inl, inr, ◌⊎◌,
}
use mathlib.Core.List.{append_assoc}
use kitsune_ufork.Db.{Sql, reset_denylist, Sqlite, ver_le, open_and_init_db}
use kitsune_ufork.Db.Upgrade.{run_all, plan, outcome, init_schema-plan}

-- dl_init: 0, 1 and -1.
pub data DlInit : Type 0 where
  untried loaded failed : DlInit

-- dload_sqlite, where `resolves` is what its calls of dlopen and dlsym come to.
unfoldable pub dload_sqlite : Bool → DlInit → DlInit × Bool
dload_sqlite resolves loaded = (loaded, true)
dload_sqlite resolves failed = (failed, false)
dload_sqlite resolves untried = if resolves then (loaded, true) else (failed, false)

-- The statics of db.cpp: dl_init, whether mDB is set, and the scripts that ran on the file.
pub record Db : Type 0 where
  pub dl_init : DlInit
  pub mdb : Bool
  pub file : List Sql

-- How db_exec_impl ends: the statement ran with this message, the second attempt's message, or a
-- call of the null pointer sqlite3_free in db_err.
pub data Exec : Type 0 where
  ran : Option Text → Exec
  not_open : Text → Exec
  crash : Exec

-- One call of open_and_init_db on the statics. sqlite3_open_v2 sets its handle also when it fails.
unfoldable pub open_db : Sqlite → Db → Db × Option Text
open_db s d =
    let (dl, ok) = dload_sqlite s.loads d.dl_init in
    let (scripts, err) = outcome (open_and_init_db (record s { loads = ok })) in
    (record { dl_init = dl; mdb = d.mdb || ok; file = d.file ++ scripts }, err)

-- `unlink(MAGISKDB)` and the second attempt, on SQLite's answers `second`; `answer` is the message
-- of the statement itself.
unfoldable pub retry : Sqlite → Option Text → Db → Db × Exec
retry second answer d =
    let (d2, err) = open_db second (record d { file = [] }) in
    (d2, elim err [ none ↦ ran answer | some e ↦ not_open e ])

-- sqlite3_free is set once dload_sqlite has succeeded.
abbrev pub can_free : DlInit → Bool
can_free loaded = true
can_free failed = false
can_free untried = false

-- db_exec_impl, both of it: they differ in the callback.
unfoldable pub db_exec : Sqlite → Sqlite → Option Text → Db → Db × Exec
db_exec first second answer d =
    let (d1, err) = open_db first d in
    if d.mdb then (d, ran answer) else elim err [
      | none ↦ (d1, ran answer)
      | some e ↦ if can_free d1.dl_init then retry second answer d1 else (d1, crash)
    ]

-- The database has a version of 12 at most, and all scripts that this version needs have run on the
-- file, behind those that ran on it before.
abbrev pub IsReady : Sqlite → List Sql → List Sql → Type 0
IsReady s before file =
    (ver_le s.user_version 12 ≡ true)
    × (file ≡ before ++ (plan s.user_version ++ (reset_denylist ∷ [])))

run_all-whole :
    (fails : Sql → Option Text) (before scripts : List Sql)
    → (run_all fails before scripts).1 ≡ none
    → (run_all fails before scripts).0 ≡ before ++ (scripts ++ (reset_denylist ∷ []))
run_all-whole fails before [] h = refl
run_all-whole fails before (s ∷ scripts) h = ground (
  arith,
  run_all-whole fails (before ++ (s ∷ [])) scripts,
  append_assoc before (s ∷ []) (scripts ++ (reset_denylist ∷ [])),
)

open_and_init_db-Ready :
    (s : Sqlite)
    → (outcome (open_and_init_db s)).1 ≡ none
    → IsReady s [] (outcome (open_and_init_db s)).0
unfolding open_and_init_db
open_and_init_db-Ready s h = elim (Bool-cases (ver_le s.user_version 12)) [
  | inl low ↦ (
    low,
    ground (
      arith,
      low,
      init_schema-plan s.fails s.user_version low,
      run_all-whole s.fails [] (plan s.user_version),
    ),
  )
  | inr high ↦ absurd (ground (arith, high))
]

open_db-Ready :
    (s : Sqlite) (d : Db) → (open_db s d).1 ≡ none → IsReady s d.file (open_db s d).0.file
unfolding open_db
open_db-Ready s d h =
    let (low, e) =
      open_and_init_db-Ready (record s { loads = (dload_sqlite s.loads d.dl_init).1 }) h in
    (low, ap (λ (l : List Sql). d.file ++ l) e)

-- What a call of db_exec_impl on the file `before` leaves, when mDB was not set: the statement ran on
-- the file that the first attempt made ready, or on a new one that the second did.
abbrev pub Opens : Sqlite → Sqlite → List Sql → Db × Exec → Type 0
Opens first second before (d, ran answer) = IsReady first before d.file ⊎ IsReady second [] d.file
Opens first second before (d, not_open e) = (d.mdb ≡ true)
Opens first second before (d, crash) = (d.dl_init ≡ failed)

retry-Opens :
    (first second : Sqlite) (answer : Option Text) (before : List Sql) (d : Db)
    → can_free d.dl_init ≡ true
    → Opens first second before (retry second answer d)
unfolding retry open_db dload_sqlite
retry-Opens first second answer before d h =
    elim (Option-cases (open_db second (record d { file = [] })).1) [
      | inl e ↦ rw e (inr (open_db-Ready second (record d { file = [] }) e))
      | inr (m, e) ↦ ground (arith, e)
    ]

db_exec_first :
    (first second : Sqlite) (answer : Option Text) (d : Db)
    → d.mdb ≡ false
    → (open_db first d).1 ≡ none
    → db_exec first second answer d ≡ ((open_db first d).0, ran answer)
unfolding db_exec
db_exec_first first second answer d h e = ground (arith, h, e)

-- With mDB not set, db_exec_impl runs its statement only on a database of version 12 at most on which
-- all scripts that its version needs have run: the file that was there, at the first attempt, or a
-- new one, at the second. When it returns the error of the second attempt, mDB is set; when it
-- calls sqlite3_free before that is loaded, the library has failed to load.
pub db_exec-Opens :
    (first second : Sqlite) (answer : Option Text) (d : Db)
    → d.mdb ≡ false
    → Opens first second d.file (db_exec first second answer d)
unfolding db_exec open_db dload_sqlite
db_exec-Opens first second answer d h = elim (Option-cases (open_db first d).1) [
  | inl e ↦
      subst (λ (r : Db × Exec). Opens first second d.file r)
        (sym (db_exec_first first second answer d h e)) (inl (open_db-Ready first d e))
  | inr (m, e) ↦ elim (Bool-cases (can_free (open_db first d).0.dl_init)) [
    | inl k ↦ ground (arith, h, e, k, retry-Opens first second answer d.file (open_db first d).0 k)
    | inr k ↦ ground (arith, h, e, k)
  ]
]

-- Once a call has returned the error of its second attempt, the next call runs its statement
-- as it is and does not set up the schema.
pub db_exec_unready :
    (first second first' second' : Sqlite) (answer answer' : Option Text) (d : Db) (m : Text)
    → (db_exec first second answer d).1 ≡ not_open m
    → let d' = (db_exec first second answer d).0 in
      db_exec first' second' answer' d' ≡ (d', ran answer')
unfolding db_exec
db_exec_unready first second first' second' answer answer' d m h = elim (Bool-cases d.mdb) [
  | inl set ↦ absurd (ground (arith, set, h))
  | inr unset ↦ ground (arith, unset, h, db_exec-Opens first second answer d unset)
]
