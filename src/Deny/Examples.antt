-- ===== src/Deny/Examples.antt =====
-- The theorems on native/src/core/deny at concrete inputs.
use kitsune_ufork.Common.{◌&&◌, leb, ◌==◌}
use kitsune_ufork.Common.{◌+◌, length}
use kitsune_ufork.Common.{
  ℕ, ◌≡◌, ◌≢◌, refl, true, false, ◌&&◌, none, some, [], ◌∷◌, List, Text, codes, str_eql,
  str_eql_iff, arith, if◌then◌else◌,
}
use kitsune_ufork.OrderedMap.{text_key, int_key, find, put, member}
use kitsune_ufork.Deny.State.{World, Deny, pkgs_of, to_app_id}
use kitsune_ufork.Deny.Validate.{validate}
use kitsune_ufork.Deny.Table.{
  add_hide_set, ensure_data, installed_app_id, first_app_id, load_data, rescan_apps, scan_users,
  scan_entries, add_rows,
}
use kitsune_ufork.Deny.Edit.{exec_sql, persist_add, add_named, add_list, rm_list, insert_sql}
use kitsune_ufork.Deny.Query.{is_deny_target, is_uid_on_list, query, any_pkg}
use kitsune_ufork.Deny.Cli.{denylist_handler, status, disable_sulist}
use kitsune_ufork.Deny.Invariant.{IsConsistent}
use kitsune_ufork.Deny.Removal.Stale.{rm_list_stale}
use kitsune_ufork.Deny.Adding.{is_listed, add_reply, add_list_lem}
use kitsune_ufork.Deny.Editing.{covers, rm_reply, rm_list_lem, rm_list-add_list}
use kitsune_ufork.Deny.Lookup.{is_deny_target-defined}
use kitsune_ufork.Deny.Requests.History.{
  boot, look, ask, Fits, Call, request, AllCalm, start, step, run, run-IsConsistent,
}
use kitsune_ufork.Deny.Mode.Switches.{sulist_stays}
use kitsune_ufork.Deny.Sql.{quotes, insert_sql-quotes}

abbrev app : Text
app = codes "com.a"

abbrev main_proc : Text
main_proc = codes "com.a:p"

-- A device with one user, one app, and a database that takes every statement.
abbrev device : World
device = record {
  users = some (codes "0" ∷ []);
  packages = λ user. some (app ∷ []);
  stat = λ user pkg. if str_eql pkg app then some 10123 else none;
  procs = [];
  rows = λ table. [];
  rows_ok = λ table. true;
  exec_ok = λ sql. true;
  manager_pkg = codes "io.m";
  manager_app_id = none;
  has_mnt_ns = true;
  has_procfs = true;
  thread_starts = true;
  sdk_int = 33;
}

abbrev broken : World
broken = record device { exec_ok = λ sql. false }

abbrev loaded : Deny
loaded = record start { loaded = true }

abbrev listed : Deny
listed = record loaded {
  pkg_to_procs = (app, (app, tt) ∷ []) ∷ [];
  app_id_to_pkgs = (10123, (app, tt) ∷ []) ∷ [];
}

add_list_lem_example :
    let r = add_list device app main_proc loaded in
    (r.1 ≡ add_reply device app main_proc loaded)
    × (r.0.loaded ≡ true)
    × ((q s : Text)
        → is_listed q s r.0 ≡ (
            if validate app main_proc && (str_eql app q && str_eql main_proc s)
            then true
            else is_listed q s loaded))
add_list_lem_example = add_list_lem device app main_proc loaded refl

rm_list_lem_example :
    let r = rm_list device app [] listed in
    (r.1 ≡ rm_reply device app [] listed)
    × (r.0.loaded ≡ true)
    × ((q s : Text)
        → is_listed q s r.0
          ≡ (if str_eql app q && covers [] s then false else is_listed q s listed))
rm_list_lem_example = rm_list_lem device app [] listed refl

rm_list-add_list_example :
    is_listed app app (rm_list device app main_proc (add_list device app main_proc listed).0).0
    ≡ is_listed app app listed
unfolding add_list add_named persist_add exec_sql validate ensure_data add_hide_set find
rm_list-add_list_example = rm_list-add_list device device app main_proc app app listed refl refl

listed-IsConsistent : IsConsistent listed
unfolding find
listed-IsConsistent = record {
  listed = λ i q h. ground (arith, h);
  inhabited = λ q h. ground (arith, h);
}

abbrev removed : Deny
removed = (rm_list (record device { stat = λ user pkg. none }) app [] listed).0

rm_list_stale_example :
    (find app removed.pkg_to_procs ≡ none)
    × (member app (pkgs_of 10123 removed) ≡ true)
    × (¬ IsConsistent removed)
unfolding first_app_id find str_eql
rm_list_stale_example =
    rm_list_stale (record device { stat = λ user pkg. none }) app 10123 listed listed-IsConsistent
      refl refl refl refl

is_deny_target-defined_example :
    (IsConsistent (is_deny_target device 10123 app 95 listed).0)
    × ((is_deny_target device 10123 app 95 listed).1 ≢ none)
is_deny_target-defined_example =
    is_deny_target-defined device 10123 app 95 listed listed-IsConsistent

abbrev stored : World
stored = record device { rows = λ table. (app, app) ∷ [] }

-- A question about a process, which loads the list, one about its user, a request, and the start of
-- SuList.
abbrev history : List (World × Call)
history =
    (stored, ask 10123 app 95)
    ∷ (stored, look 10123)
    ∷ (stored, request (some status) [] [])
    ∷ (stored, boot true true)
    ∷ []

stored-current :
    (app_id : ℕ) (pkg : Text)
    → member pkg (pkgs_of app_id listed) ≡ true
    → installed_app_id stored pkg ≡ some app_id
unfolding find first_app_id
stored-current app_id pkg h = ground (arith, h, str_eql_iff app pkg, str_eql_iff pkg app)

history-AllCalm : AllCalm history start
unfolding ensure_data load_data rescan_apps scan_users scan_entries str_eql find add_rows
    add_hide_set put to_app_id first_app_id step denylist_handler is_deny_target is_uid_on_list
    query any_pkg
history-AllCalm = (
  record { current = stored-current; apart = refl },
  tt,
  (
    record { current = stored-current; apart = refl },
    refl,
    (
      record { current = stored-current; apart = refl },
      tt,
      (record { current = stored-current; apart = refl }, tt, tt),
    ),
  ),
)

run-IsConsistent_example : Fits (run history start)
run-IsConsistent_example = run-IsConsistent history history-AllCalm

abbrev on : Deny
on = record listed { enforced = true; sulist = true }

sulist_stays_example :
    ((denylist_handler device (some disable_sulist) [] [] on).0.enforced ≡ true)
    × ((denylist_handler device (some disable_sulist) [] [] on).0.sulist ≡ true)
sulist_stays_example = sulist_stays device (some disable_sulist) [] [] on refl refl

insert_sql-quotes_example :
    (if leb (length (codes "hidelist")) 8 && leb (length app + length main_proc) 4000
      then quotes (insert_sql (codes "hidelist") app main_proc) == 4
      else leb (quotes (insert_sql (codes "hidelist") app main_proc)) 4)
    ≡ true
unfolding str_eql validate
insert_sql-quotes_example = insert_sql-quotes (codes "hidelist") app main_proc refl refl refl
