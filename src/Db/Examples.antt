-- ===== src/Db/Examples.antt =====
-- The theorems on native/src/core/db.cpp at concrete inputs.
use kitsune_ufork.Common.{◌≡◌, refl, Option, true, false, none, some, pos, [], Text, codes}
use kitsune_ufork.Db.{Sql, rebuild_policies, Sqlite, ver_le, init_schema}
use kitsune_ufork.Db.Upgrade.{plan, run_all, outcome, init_schema-plan}
use kitsune_ufork.Db.Open.{Db, untried, db_exec, Opens, db_exec-Opens}

abbrev no_policies : Sql → Option Text
no_policies rebuild_policies = some (codes "no such table")
no_policies sql = none

init_schema-plan_example :
    outcome (init_schema no_policies (pos 9)) ≡ run_all no_policies [] (plan (pos 9))
unfolding ver_le
init_schema-plan_example = init_schema-plan no_policies (pos 9) refl

abbrev old_db : Sqlite
old_db = record {
  loads = true;
  open_error = none;
  query_error = none;
  user_version = pos 9;
  fails = no_policies;
}

abbrev closed_db : Sqlite
closed_db = record old_db { open_error = some (codes "unable to open database file") }

abbrev at_start : Db
at_start = record { dl_init = untried; mdb = false; file = [] }

db_exec-Opens_example :
    Opens old_db closed_db at_start.file (db_exec old_db closed_db none at_start)
db_exec-Opens_example = db_exec-Opens old_db closed_db none at_start refl
