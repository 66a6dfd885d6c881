-- ===== src/Deny/Requests.antt =====
-- A history of requests to native/src/core/deny, from a daemon that has just started.
pub mod History
use kitsune_ufork.Common.{
  ℕ, Bool, true, false, Option, none, some, List, [], ◌∷◌, ◌≡◌, refl, arith, Text, str_eql_iff,
  codes, c_str,
}
use kitsune_ufork.OrderedMap.{Set, text_key, int_key, find, erase}
use kitsune_ufork.OrderedMap.Laws.{find-put, find-erase}
use kitsune_ufork.Deny.State.{World, Deny, procs_of}
use kitsune_ufork.Deny.Validate.{isolated_magic}
use kitsune_ufork.Deny.Table.{ensure_data, installed_app_id}
use kitsune_ufork.Deny.Listing.{
  erase_if_found, rm_pkgs, put_or_erase, rm_isolated, rm_isolated_found, prune, list_loaded,
  ls_list, pkgs_to_rm, isolated_procs_to_rm,
}
use kitsune_ufork.Deny.Enforce.{
  update_deny_config, add_self, add_defaults, kill_pools, start_monitor, enable_deny, disable_deny,
  java_package_name,
}
use kitsune_ufork.Deny.Cli.{Request, enforce, add, remove, list, denylist_handler}
use kitsune_ufork.Deny.Invariant.{
  IsConsistent, IsConsistent-effects, rescan_apps-IsConsistent, add_hide_set-IsConsistent,
  ensure_data-IsConsistent,
}
use kitsune_ufork.Deny.Query.{is_deny_target, scan_deny_apps}
use kitsune_ufork.Deny.Lookup.{is_deny_target-defined}
use kitsune_ufork.Deny.Mode.Switches.{kill_pools-SameButEffects}
use kitsune_ufork.Deny.Adding.{add_list-IsConsistent}
use kitsune_ufork.Deny.Removal.{
  IsCurrent, rm_list-IsConsistent, erase_pkg-IsConsistent, erase_pkg-IsCurrent,
}

erase_if_found-keeps :
    (w : World) (pkg : Text) (o : Option (Set Text)) (d : Deny)
    → IsCurrent w d
    → IsConsistent d
    → IsCurrent w (erase_if_found w pkg o d) × IsConsistent (erase_if_found w pkg o d)
erase_if_found-keeps w pkg none d cur c = (cur, c)
erase_if_found-keeps w pkg (some s) d cur c =
    (erase_pkg-IsCurrent w pkg d cur, erase_pkg-IsConsistent w pkg d cur c)

rm_pkgs-keeps :
    (w : World) (pkgs : List Text) (d : Deny)
    → IsCurrent w d
    → IsConsistent d
    → IsCurrent w (rm_pkgs w pkgs d) × IsConsistent (rm_pkgs w pkgs d)
unfolding rm_pkgs
rm_pkgs-keeps w [] d cur c = (cur, c)
rm_pkgs-keeps w (pkg ∷ pkgs) d cur c =
    let (cur', c') = erase_if_found-keeps w pkg (find pkg d.pkg_to_procs) d cur c in
    rm_pkgs-keeps w pkgs _ cur' (record { listed = c'.listed; inhabited = c'.inhabited })

put_or_erase-IsConsistent :
    (w : World) (set : Set Text) (d : Deny)
    → installed_app_id w isolated_magic ≡ none
    → IsCurrent w d
    → IsConsistent d
    → IsConsistent (put_or_erase isolated_magic set d)
put_or_erase-IsConsistent w [] d apart cur c = record {
  listed = λ i q h. ground (
    arith,
    find-erase isolated_magic q d.pkg_to_procs,
    c.listed i q,
    cur i q,
    str_eql_iff isolated_magic q,
  );
  inhabited = λ q. ground (arith, find-erase isolated_magic q d.pkg_to_procs, c.inhabited q);
}
put_or_erase-IsConsistent w (p ∷ ps) d apart cur c = record {
  listed = λ i q h. ground (arith, find-put isolated_magic q (p ∷ ps) d.pkg_to_procs, c.listed i q);
  inhabited = λ q. ground (arith, find-put isolated_magic q (p ∷ ps) d.pkg_to_procs, c.inhabited q);
}

apps-put_or_erase :
    (pkg : Text) (set : Set Text) (d : Deny)
    → (put_or_erase pkg set d).app_id_to_pkgs ≡ d.app_id_to_pkgs
apps-put_or_erase pkg [] d = refl
apps-put_or_erase pkg (p ∷ ps) d = refl

rm_isolated-IsConsistent :
    (w : World) (procs : List Text) (d : Deny)
    → installed_app_id w isolated_magic ≡ none
    → IsCurrent w d
    → IsConsistent d
    → IsConsistent (rm_isolated procs d)
unfolding rm_isolated
rm_isolated-IsConsistent w [] d apart cur c = c
rm_isolated-IsConsistent w (proc ∷ procs) d apart cur c =
    let set = erase proc (procs_of isolated_magic d) in
    let c' = put_or_erase-IsConsistent w set d apart cur c in
    rm_isolated-IsConsistent w procs _ apart
      (λ i q. rw (apps-put_or_erase isolated_magic set d) (cur i q))
      (record { listed = c'.listed; inhabited = c'.inhabited })

rm_isolated_found-IsConsistent :
    (w : World) (o : Option (Set Text)) (procs : List Text) (d : Deny)
    → installed_app_id w isolated_magic ≡ none
    → IsCurrent w d
    → IsConsistent d
    → IsConsistent (rm_isolated_found o procs d)
rm_isolated_found-IsConsistent w none procs d apart cur c = c
rm_isolated_found-IsConsistent w (some s) procs d apart cur c =
    rm_isolated-IsConsistent w procs d apart cur c

-- At this request the maps that the daemon works on agree with the file system, and no app's
-- directory is called like the isolated services.
pub record IsCalm (w : World) (d : Deny) : Type 0 where
  pub current : IsCurrent w (ensure_data w d).0
  pub apart : installed_app_id w isolated_magic ≡ none

list_loaded-IsConsistent :
    (w : World) (r : Deny × Bool)
    → installed_app_id w isolated_magic ≡ none
    → IsCurrent w r.0
    → IsConsistent r.0
    → IsConsistent (list_loaded w r).0
unfolding prune
list_loaded-IsConsistent w (d, false) apart cur c = c
list_loaded-IsConsistent w (d, true) apart cur c =
    let (cur', c') = rm_pkgs-keeps w (pkgs_to_rm w d.pkg_to_procs) d cur c in
    rm_isolated_found-IsConsistent w _ (isolated_procs_to_rm d) _ apart cur' c'

-- `ls_list`, which prunes the list first, leaves maps that fit.
ls_list-IsConsistent :
    (w : World) (d : Deny) → IsCalm w d → IsConsistent d → IsConsistent (ls_list w d).0
unfolding ls_list
ls_list-IsConsistent w d calm c =
    list_loaded-IsConsistent w (ensure_data w d) calm.apart calm.current
      (ensure_data-IsConsistent w d c)

add_defaults-IsConsistent :
    (w : World) (d : Deny) → IsConsistent d → IsConsistent (add_defaults w d)
unfolding add_defaults
add_defaults-IsConsistent w d c =
    let a = codes "com.android.systemui" in
    let b = codes "com.android.settings" in
    let p = add_hide_set-IsConsistent w a a d c in
    let q = add_hide_set-IsConsistent w b b (add_self w a d) p in
    let r =
      add_hide_set-IsConsistent w java_package_name java_package_name
        (add_self w b (add_self w a d)) q in
    ground (arith, c, r)

start_monitor-IsConsistent :
    (w : World) (r : Deny × Bool) → IsConsistent r.0 → IsConsistent (start_monitor w r).0
start_monitor-IsConsistent w (d, false) c = c
start_monitor-IsConsistent w (d, true) c =
    let on = add_defaults w (record d { enforced = true }) in
    let c' = IsConsistent-effects on (kill_pools w on) (kill_pools-SameButEffects w on) (
      add_defaults-IsConsistent w (record d { enforced = true })
        (record { listed = c.listed; inhabited = c.inhabited })) in
    let ran : IsConsistent (update_deny_config (kill_pools w on)) = record {
      listed = c'.listed;
      inhabited = c'.inhabited;
    } in
    let failed : IsConsistent (record d { enforced = false }) = record {
      listed = c.listed;
      inhabited = c.inhabited;
    } in
    ground (arith, ran, failed)

pub enable_deny-IsConsistent :
    (w : World) (d : Deny) → IsConsistent d → IsConsistent (enable_deny w d).0
unfolding enable_deny
enable_deny-IsConsistent w d c =
    let opened = record d { procfs_open = true } in
    let loaded =
      ensure_data-IsConsistent w opened (record { listed = c.listed; inhabited = c.inhabited }) in
    ground (arith, c, start_monitor-IsConsistent w (ensure_data w opened) loaded)

-- Every request leaves maps that fit, if the file system has not moved under them.
pub denylist_handler-IsConsistent :
    (w : World) (q : Option Request) (pkg proc : Text) (d : Deny)
    → IsCalm w d
    → IsConsistent d
    → IsConsistent (denylist_handler w q pkg proc d).0
unfolding denylist_handler disable_deny
denylist_handler-IsConsistent w (some enforce) pkg proc d calm c = enable_deny-IsConsistent w d c
denylist_handler-IsConsistent w (some add) pkg proc d calm c =
    add_list-IsConsistent w (c_str pkg) (c_str proc) d c
denylist_handler-IsConsistent w (some remove) pkg proc d calm c =
    rm_list-IsConsistent w (c_str pkg) (c_str proc) d calm.current c
denylist_handler-IsConsistent w (some list) pkg proc d calm c = ls_list-IsConsistent w d calm c
denylist_handler-IsConsistent w q pkg proc d calm c = ground (arith, c)
