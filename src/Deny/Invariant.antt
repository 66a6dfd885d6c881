-- ===== src/Deny/Invariant.antt =====
-- What the maps of native/src/core/deny/utils.cpp satisfy between calls.
use kitsune_ufork.Common.{
  ℕ, Bool, true, false, Option, none, some, List, [], ◌∷◌, ◌≡◌, ◌≢◌, refl, arith, Text,
  if◌then◌else◌, str_eql, str_starts, str_eql_iff,
}
use kitsune_ufork.OrderedMap.{Map, Set, text_key, int_key, find, put, member, insert, is_some}
use kitsune_ufork.OrderedMap.Laws.{find-put}
use kitsune_ufork.Deny.State.{World, Process, Deny, set_or_empty, pkgs_of, procs_of, to_app_id}
use kitsune_ufork.Deny.Procs.{proc_name_match, hide_all, kill_process, crawl_procfs}
use kitsune_ufork.Deny.Table.{
  scan_entry, scan_user, scan_data_dir, put_proc, kill_matching, add_hide_set, put_pkg,
  scan_entries, scan_users, rescan_apps, add_rows, load_data, ensure_data,
}

-- Every package of an app ID is a key of the other map.
abbrev pub IsListed : Map Text (Set Text) → Map ℕ (Set Text) → Type 0
IsListed m apps =
    (app_id : ℕ) (pkg : Text)
    → member pkg (set_or_empty (find app_id apps)) ≡ true
    → is_some (find pkg m) ≡ true

-- The two maps fit together, and no key of the first is left with an empty set.
pub record IsConsistent (d : Deny) : Type 0 where
  pub listed : IsListed d.pkg_to_procs d.app_id_to_pkgs
  pub inhabited : (pkg : Text) → find pkg d.pkg_to_procs ≢ some []

-- `d'` is `d` with other effects.
abbrev pub SameButEffects : Deny → Deny → Type 0
SameButEffects d d' = d' ≡ record d { effects = d'.effects }

crawl-SameButEffects :
    (ps : List Process) (fn : Process → Deny → Deny × Bool) (d : Deny)
    → ((p : Process) (e : Deny) → SameButEffects e (fn p e).0)
    → SameButEffects d (crawl_procfs ps fn d)
unfolding crawl_procfs
crawl-SameButEffects [] fn d h = refl
crawl-SameButEffects (p ∷ ps) fn d h =
    ground (arith, crawl-SameButEffects ps fn d h, crawl-SameButEffects ps fn (fn p d).0 h, h p d)

pub kill_process-SameButEffects :
    (w : World) (m : Process → Text → Bool) (name : Text) (multi : Bool) (d : Deny)
    → SameButEffects d (kill_process w m name multi d)
unfolding kill_process
kill_process-SameButEffects w m name multi d = crawl-SameButEffects w.procs _ d λ p e. ground arith

pub hide_all-SameButEffects : (w : World) (d : Deny) → SameButEffects d (hide_all w d)
unfolding hide_all
hide_all-SameButEffects w d = crawl-SameButEffects w.procs _ d λ p e. ground arith

pub kill_matching-SameButEffects :
    (w : World) (pkg proc : Text) (d : Deny) → SameButEffects d (kill_matching w pkg proc d)
unfolding kill_matching
kill_matching-SameButEffects w pkg proc d = ground (
  arith,
  hide_all-SameButEffects w d,
  kill_process-SameButEffects w (proc_name_match str_starts) proc true (hide_all w d),
  kill_process-SameButEffects w (proc_name_match str_eql) proc false (hide_all w d),
)

pub IsConsistent-effects : (d d' : Deny) → SameButEffects d d' → IsConsistent d → IsConsistent d'
IsConsistent-effects d d' e c = record {
  listed = λ i p. rw e (c.listed i p);
  inhabited = λ p. rw e (c.inhabited p);
}

put-ne-nil : {V : Type 0} (a : Text) (v : V) (m : Map Text V) → put a v m ≢ []
unfolding put
put-ne-nil a v [] e = cc
put-ne-nil a v ((j, w) ∷ m) e = ground arith

pub put_proc-IsConsistent :
    (pkg proc : Text) (d : Deny) → IsConsistent d → IsConsistent (put_proc pkg proc d)
put_proc-IsConsistent pkg proc d c = record {
  listed = λ i p h.
      ground (arith, find-put pkg p (insert proc (procs_of pkg d)) d.pkg_to_procs, c.listed i p h);
  inhabited = λ p h. ground (
    arith,
    find-put pkg p (insert proc (procs_of pkg d)) d.pkg_to_procs,
    c.inhabited p,
    put-ne-nil proc tt (procs_of pkg d),
  );
}

pub add_hide_set-IsConsistent :
    (w : World) (pkg proc : Text) (d : Deny)
    → IsConsistent d
    → IsConsistent (add_hide_set w pkg proc d).0
unfolding add_hide_set
add_hide_set-IsConsistent w pkg proc d c =
    let put_c = put_proc-IsConsistent pkg proc d c in
    ground (
      arith,
      put_c,
      IsConsistent-effects (put_proc pkg proc d) (kill_matching w pkg proc (put_proc pkg proc d))
          (kill_matching-SameButEffects w pkg proc (put_proc pkg proc d)) put_c,
    )

pub put_pkg-IsConsistent :
    (app_id : ℕ) (pkg : Text) (d : Deny)
    → is_some (find pkg d.pkg_to_procs) ≡ true
    → IsConsistent d
    → IsConsistent (put_pkg app_id pkg d)
put_pkg-IsConsistent app_id pkg d found c = record {
  listed = λ i p h. ground (
    arith,
    find-put app_id i (insert pkg (pkgs_of app_id d)) d.app_id_to_pkgs,
    find-put pkg p tt (pkgs_of app_id d),
    c.listed i p,
    str_eql_iff pkg p,
  );
  inhabited = c.inhabited;
}

scan_entries-IsConsistent :
    (w : World) (user : Text) (entries : List Text) (d : Deny)
    → IsConsistent d
    → IsConsistent (scan_entries w user entries d)
unfolding scan_entries
scan_entries-IsConsistent w user [] d c = c
scan_entries-IsConsistent w user (e ∷ es) d c =
    scan_entries-IsConsistent w user es _ (one (w.stat user e))
  where
    one : (o : Option ℕ) → IsConsistent (scan_entry o e d)
    one none = c
    one (some uid) = ground (arith, put_pkg-IsConsistent (to_app_id uid) e d)

scan_users-IsConsistent :
    (w : World) (users : List Text) (d : Deny)
    → IsConsistent d
    → IsConsistent (scan_users w users d)
unfolding scan_users
scan_users-IsConsistent w [] d c = c
scan_users-IsConsistent w (u ∷ us) d c = scan_users-IsConsistent w us _ (one (w.packages u))
  where
    one : (o : Option (List Text)) → IsConsistent (scan_user w u o d)
    one none = c
    one (some es) = scan_entries-IsConsistent w u es d c

cleared :
    (d : Deny)
    → ((pkg : Text) → find pkg d.pkg_to_procs ≢ some [])
    → IsConsistent (record d { app_id_to_pkgs = [] })
unfolding find
cleared d h = record { listed = λ i p e. cc; inhabited = h }

-- A rescan makes the maps fit, whatever the second one held before.
pub rescan_apps-IsConsistent :
    (w : World) (d : Deny) → IsConsistent d → IsConsistent (rescan_apps w d)
unfolding rescan_apps
rescan_apps-IsConsistent w d c = scan w.users
  where
    base : Deny
    base = if d.sulist then (add_hide_set w w.manager_pkg w.manager_pkg d).0 else d

    base_c : IsConsistent base
    base_c = ground (arith, c, add_hide_set-IsConsistent w w.manager_pkg w.manager_pkg d c)

    scan :
        (o : Option (List Text))
        → IsConsistent (scan_data_dir w o (record base { app_id_to_pkgs = [] }))
    scan none = cleared base base_c.inhabited
    scan (some us) = scan_users-IsConsistent w us _ (cleared base base_c.inhabited)

add_rows-IsConsistent :
    (w : World) (rows : List (Text × Text)) (d : Deny)
    → IsConsistent d
    → IsConsistent (add_rows w rows d)
unfolding add_rows
add_rows-IsConsistent w [] d c = c
add_rows-IsConsistent w ((pkg, proc) ∷ rows) d c =
    add_rows-IsConsistent w rows _ (add_hide_set-IsConsistent w pkg proc d c)

empty-IsConsistent : (d : Deny) → IsConsistent (record d { pkg_to_procs = []; app_id_to_pkgs = [] })
unfolding find
empty-IsConsistent d = record { listed = λ i p e. cc; inhabited = λ p e. cc }

pub ensure_data-IsConsistent :
    (w : World) (d : Deny) → IsConsistent d → IsConsistent (ensure_data w d).0
unfolding ensure_data load_data
ensure_data-IsConsistent w d c = ground (
  arith,
  c,
  rescan_apps-IsConsistent w filled filled_c,
  empty-IsConsistent (record filled { loaded = false }),
)
  where
    fresh : Deny
    fresh = record d { loaded = true; pkg_to_procs = []; app_id_to_pkgs = [] }

    filled : Deny
    filled = add_rows w (w.rows d.table) fresh

    filled_c : IsConsistent filled
    filled_c =
        add_rows-IsConsistent w (w.rows d.table) fresh
          (empty-IsConsistent (record d { loaded = true }))
