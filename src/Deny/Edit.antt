-- ===== src/Deny/Edit.antt =====
-- `add_list` and `rm_list` of native/src/core/deny/utils.cpp.
use kitsune_ufork.Common.{
  ℕ, Bool, true, false, Option, none, some, [], ◌∷◌, ◌++◌, Text, codes, c_str, take, if◌then◌else◌,
}
use kitsune_ufork.OrderedMap.{text_key, Set, find, put, erase, member}
use kitsune_ufork.Deny.Validate.{validate}
use kitsune_ufork.Deny.State.{World, sql, Deny, emit}
use kitsune_ufork.Deny.Table.{add_hide_set, update_pkg_uid, ensure_data}

-- DenyResponse
pub data Response : Type 0 where
  ok enforced not_enforced item_exist item_not_exist : Response
  invalid_pkg no_ns error sulist_enforced sulist_not_enforced sulist_no_disable : Response

-- ssprintf into `char sql[4096]`, which cuts what does not fit.
abbrev pub sql_buffer : ℕ
sql_buffer = 4095

abbrev pub insert_text : Text → Text → Text → Text
insert_text table pkg proc =
    codes "INSERT INTO "
    ++ (table
        ++ (codes " (package_name, process) VALUES('"
            ++ (pkg ++ (codes "', '" ++ (proc ++ codes "')")))))

abbrev pub insert_sql : Text → Text → Text → Text
insert_sql table pkg proc = take sql_buffer (insert_text table pkg proc)

abbrev pub delete_pkg_sql : Text → Text → Text
delete_pkg_sql table pkg =
    codes "DELETE FROM " ++ (table ++ (codes " WHERE package_name='" ++ (pkg ++ codes "'")))

abbrev pub delete_proc_sql : Text → Text → Text → Text
delete_proc_sql table pkg proc =
    codes "DELETE FROM "
    ++ (table
        ++ (codes " WHERE package_name='"
            ++ (pkg ++ (codes "' AND process='" ++ (proc ++ codes "'")))))

-- db_exec_impl, and db_err_cmd around it: an error turns into `error`.
unfoldable pub exec_sql : World → Text → Deny → Deny × Response
exec_sql w text d = (emit (sql text) d, if w.exec_ok text then ok else error)

-- The end of `add_list`, after the entry is in memory.
unfoldable pub persist_add : World → Text → Text → Deny → Deny × Response
unfolding exec_sql
persist_add w pkg proc d =
    let d' = update_pkg_uid w pkg false d in exec_sql w (insert_sql d'.table pkg proc) d'

abbrev pub add_loaded : World → Text → Text → Deny → Deny × Response
add_loaded w pkg proc d =
    let (d', added) = add_hide_set w pkg proc d in
    if added then persist_add w pkg proc d' else (d', item_exist)

abbrev pub add_valid : World → Text → Text → Deny × Bool → Deny × Response
add_valid w pkg proc (d, true) = add_loaded w pkg proc d
add_valid w pkg proc (d, false) = (d, error)

-- An empty process stands for the package's main process.
abbrev pub proc_or_pkg : Text → Text → Text
proc_or_pkg pkg [] = pkg
proc_or_pkg pkg (c ∷ proc) = c ∷ proc

unfoldable pub add_named : World → Text → Text → Deny → Deny × Response
add_named w pkg proc d =
    if validate pkg proc then add_valid w pkg proc (ensure_data w d) else (d, invalid_pkg)

unfoldable pub add_list : World → Text → Text → Deny → Deny × Response
unfolding add_named
add_list w pkg proc d = add_named w pkg (proc_or_pkg pkg proc) d

-- The whole package goes.
unfoldable pub erase_pkg : World → Text → Deny → Deny
erase_pkg w pkg d =
    let d' = update_pkg_uid w pkg true d in record d' { pkg_to_procs = erase pkg d'.pkg_to_procs }

-- What is left of the package's set, which goes when it is empty.
abbrev pub keep_procs : World → Text → Set Text → Deny → Deny
keep_procs w pkg [] d = erase_pkg w pkg d
keep_procs w pkg (p ∷ ps) d = record d { pkg_to_procs = put pkg (p ∷ ps) d.pkg_to_procs }

abbrev pub erase_from : World → Text → Text → Set Text → Deny → Deny × Bool
erase_from w pkg [] procs d = (erase_pkg w pkg d, true)
erase_from w pkg (c ∷ proc) procs d =
    if member (c ∷ proc) procs
    then (keep_procs w pkg (erase (c ∷ proc) procs) d, true)
    else (d, false)

abbrev pub erase_found : World → Text → Text → Option (Set Text) → Deny → Deny × Bool
erase_found w pkg proc none d = (d, false)
erase_found w pkg proc (some procs) d = erase_from w pkg proc procs d

-- The locked part of `rm_list`.
unfoldable pub remove_entry : World → Text → Text → Deny → Deny × Bool
remove_entry w pkg proc d = erase_found w pkg proc (find pkg d.pkg_to_procs) d

abbrev pub rm_sql : Text → Text → Text → Text
rm_sql table pkg [] = delete_pkg_sql table pkg
rm_sql table pkg (c ∷ proc) = delete_proc_sql table pkg (c ∷ proc)

abbrev pub persist_rm : World → Text → Text → Deny × Bool → Deny × Response
persist_rm w pkg proc (d, false) = (d, item_not_exist)
persist_rm w pkg proc (d, true) = exec_sql w (take sql_buffer (rm_sql d.table pkg proc)) d

abbrev pub rm_loaded : World → Text → Text → Deny × Bool → Deny × Response
rm_loaded w pkg proc (d, false) = (d, error)
rm_loaded w pkg proc (d, true) = persist_rm w pkg proc (remove_entry w pkg proc d)

unfoldable pub rm_list : World → Text → Text → Deny → Deny × Response
unfolding remove_entry exec_sql
rm_list w pkg proc d = rm_loaded w pkg proc (ensure_data w d)

-- The two that read the names from the client.
abbrev pub add_list_client : World → Text → Text → Deny → Deny × Response
add_list_client w pkg proc d = add_list w (c_str pkg) (c_str proc) d

abbrev pub rm_list_client : World → Text → Text → Deny → Deny × Response
rm_list_client w pkg proc d = rm_list w (c_str pkg) (c_str proc) d
