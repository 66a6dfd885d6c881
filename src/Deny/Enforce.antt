-- ===== src/Deny/Enforce.antt =====
-- Switching the list on and off: `update_deny_config`, `update_sulist_config`, `enable_deny`,
-- `disable_deny` and `initialize_denylist` of native/src/core/deny/utils.cpp.
use kitsune_ufork.Common.{
  ◌++◌, Bool, true, false, not, ◌&&◌, ◌||◌, Text, codes, str_eql, leb, if◌then◌else◌,
}
use kitsune_ufork.Deny.State.{World, Deny, sql, stop_monitor, emit}
use kitsune_ufork.Deny.Procs.{kill_process, proc_name_match, proc_context_match}
use kitsune_ufork.Deny.Table.{add_hide_set, ensure_data}
use kitsune_ufork.Deny.Edit.{Response, ok, error, no_ns, sulist_no_disable}

abbrev pub digit : Bool → Text
digit true = codes "1"
digit false = codes "0"

-- The statement that sprintf puts into `char sql[64]`.
unfoldable pub config_sql : Text → Bool → Text
config_sql key on =
    codes "REPLACE INTO settings (key,value) VALUES('"
    ++ (key ++ (codes "'," ++ (digit on ++ codes ")")))

-- DB_SETTING_KEYS[DENYLIST_CONFIG] and DB_SETTING_KEYS[SULIST_CONFIG]
abbrev pub denylist_key : Text
denylist_key = codes "magiskhide"

abbrev pub sulist_key : Text
sulist_key = codes "sulist"

abbrev pub update_deny_config : Deny → Deny
update_deny_config d = emit (sql (config_sql denylist_key d.enforced)) d

abbrev pub update_sulist_config : Bool → Deny → Deny
update_sulist_config enable d = emit (sql (config_sql sulist_key enable)) d

abbrev pub java_package_name : Text
java_package_name = codes "io.github.huskydg.magisk"

abbrev pub add_self : World → Text → Deny → Deny
add_self w pkg d = (add_hide_set w pkg pkg d).0

-- SystemUI, Settings and the app go on the SuList.
unfoldable pub add_defaults : World → Deny → Deny
add_defaults w d =
    if d.sulist
    then add_self w java_package_name
        (add_self w (codes "com.android.settings") (add_self w (codes "com.android.systemui") d))
    else d

-- From Android Q on the pools that fork apps are killed too.
unfoldable pub kill_pools : World → Deny → Deny
kill_pools w d =
    if leb 29 w.sdk_int
    then kill_process w proc_context_match (codes "u:r:app_zygote:s0") true (
        kill_process w (proc_name_match str_eql) (codes "usap64") true
          (kill_process w (proc_name_match str_eql) (codes "usap32") true d))
    else d

-- The rest of `enable_deny`, once the maps are there.
abbrev pub start_monitor : World → Deny × Bool → Deny × Response
start_monitor w (d, false) = (d, error)
start_monitor w (d, true) =
    if w.thread_starts
    then (update_deny_config (kill_pools w (add_defaults w (record d { enforced = true }))), ok)
    else (record d { enforced = false }, error)

abbrev pub without_ns : Deny → Deny
without_ns d = update_sulist_config false (record d { sulist = false; table = codes "hidelist" })

unfoldable pub enable_deny : World → Deny → Deny × Response
enable_deny w d =
    if d.enforced
    then (d, ok)
    else if not w.has_mnt_ns
    then (without_ns d, no_ns)
    else if d.procfs_open || w.has_procfs
    then start_monitor w (ensure_data w (record d { procfs_open = true }))
    else (d, error)

abbrev pub stop_enforcing : Deny → Deny
stop_enforcing d = if d.enforced then emit stop_monitor (record d { enforced = false }) else d

unfoldable pub disable_deny : Deny → Deny × Response
disable_deny d =
    if d.sulist then (d, sulist_no_disable) else (update_deny_config (stop_enforcing d), ok)

-- The two settings, as they were read from the database at boot.
unfoldable pub initialize_denylist : World → Bool → Bool → Deny → Deny
initialize_denylist w denylist_config sulist_config d =
    if not d.enforced && denylist_config
    then (enable_deny w
        (if sulist_config then record d { sulist = true; table = codes "sulist" } else d)).0
    else d
