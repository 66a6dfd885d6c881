-- ===== src/Db.antt =====
-- The database layer: native/src/core/db.cpp and native/src/core/include/db.hpp. SQLite is not
-- part of the repository: what its calls answer is an argument.
pub mod Settings
pub mod Upgrade
pub mod Open
mod Examples
use kitsune_ufork.Common.{
  ℕ, ℤ, pos, negsuc, Bool, true, false, not, Option, none, some, List, [], ◌∷◌, ◌++◌, Text, codes,
  leb, ◌==◌, if◌then◌else◌,
}

-- The scripts that open_and_init_db runs.
pub data Sql : Type 0 where
  create_policy create_settings create_strings create_denylist : Sql
  rebuild_hidelist drop_logs rebuild_policies : Sql
  set_user_version : ℤ → Sql
  reset_denylist : Sql

-- What libsqlite and the database file answer during one call of open_and_init_db: whether
-- dlopen and every dlsym succeed, what sqlite3_open_v2 and the version query report, the version
-- that ver_cb stores, and each script's message.
pub record Sqlite : Type 0 where
  pub loads : Bool
  pub open_error : Option Text
  pub query_error : Option Text
  pub user_version : ℤ
  pub fails : Sql → Option Text

-- The locals of open_and_init_db, and the scripts run so far.
pub record Run : Type 0 where
  pub ver : ℤ
  pub upgrade : Bool
  pub ran : List Sql

pub data Init : Type 0 where
  done : Run → Init
  error : Text → Run → Init

infixl 10 ◌then◌
unfoldable pub ◌then◌ : Init → (Run → Init) → Init
done r then next = next r
error e r then next = error e r

-- sqlite3_exec and err_ret.
unfoldable pub exec : (Sql → Option Text) → Sql → Run → Init
exec fails sql r = elim (fails sql) [
  | none ↦ done (record r { ran = r.ran ++ (sql ∷ []) })
  | some e ↦ error e (record r { ran = r.ran ++ (sql ∷ []) })
]

-- `ver <= n` and `ver == n`
unfoldable pub ver_le : ℤ → ℕ → Bool
ver_le (pos v) n = leb v n
ver_le (negsuc v) n = true

unfoldable pub ver_eq : ℤ → ℕ → Bool
ver_eq (pos v) n = v == n
ver_eq (negsuc v) n = false

abbrev db_version : ℕ
db_version = 12

abbrev reach : ℕ → Run → Init
reach v r = done (record r { ver = pos v; upgrade = true })

module _ (fails : Sql → Option Text) where
  -- `if (ver <= 6)` and the blocks after it
  unfoldable pub create_all : Run → Init
  create_all r =
      if ver_le r.ver 6
      then exec fails create_policy r
      then exec fails create_settings
      then exec fails create_strings
      then exec fails create_denylist
      then reach db_version
      else done r

  unfoldable pub from_7_8 : Run → Init
  from_7_8 r =
      if ver_eq r.ver 7
      then exec fails rebuild_hidelist r
      then reach 9
      else if ver_eq r.ver 8
      then exec fails rebuild_hidelist r
      then reach 9
      else done r

  unfoldable pub from_9 : Run → Init
  from_9 r = if ver_eq r.ver 9 then exec fails drop_logs r then reach 10 else done r

  unfoldable pub from_10 : Run → Init
  from_10 r = if ver_eq r.ver 10 then exec fails create_denylist r then reach 11 else done r

  unfoldable pub from_11 : Run → Init
  from_11 r = if ver_eq r.ver 11 then exec fails rebuild_policies r then reach 12 else done r

  unfoldable pub store_version : Run → Init
  store_version r = if r.upgrade then exec fails (set_user_version r.ver) r else done r

  -- The last script's message is not looked at.
  unfoldable pub finish : Run → Init
  finish r = done (record r { ran = r.ran ++ (reset_denylist ∷ []) })

  unfoldable pub init_schema : ℤ → Init
  init_schema version =
      create_all (record { ver = version; upgrade = false; ran = [] })
      then from_7_8
      then from_9
      then from_10
      then from_11
      then store_version
      then finish

-- open_and_init_db from the version query on; `none` for an error before any script.
unfoldable pub open_and_init_db : Sqlite → Init
open_and_init_db s =
    let nothing : Run = record { ver = pos 0; upgrade = false; ran = [] } in
    if not s.loads then error (codes "Cannot load libsqlite.so") nothing else elim s.open_error [
      | some e ↦ error e nothing
      | none ↦ elim s.query_error [
        | some e ↦ error e nothing
        | none ↦
            if ver_le s.user_version db_version
            then init_schema s.fails s.user_version
            else error (codes "Downgrading database is not supported") nothing
      ]
    ]
