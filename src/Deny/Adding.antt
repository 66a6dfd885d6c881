-- ===== src/Deny/Adding.antt =====
-- Putting names on the list, in native/src/core/deny/utils.cpp.
use kitsune_ufork.Common.{
  ◌&&◌, not, ℕ, Bool, true, false, Option, none, some, ◌≡◌, refl, arith, Text, str_eql, str_eql_iff,
  str_eql_refl, if◌then◌else◌,
}
use kitsune_ufork.OrderedMap.{text_key, int_key, find, member, insert, is_some}
use kitsune_ufork.OrderedMap.Laws.{find-put}
use kitsune_ufork.Deny.Validate.{validate}
use kitsune_ufork.Deny.State.{World, Deny, procs_of}
use kitsune_ufork.Deny.Table.{
  put_proc, add_hide_set, update_pkg_uid, set_pkg_uid, installed_app_id, ensure_data,
}
use kitsune_ufork.Deny.Edit.{
  insert_sql, Response, ok, error, item_exist, invalid_pkg, exec_sql, persist_add, add_loaded,
  add_valid, add_list, proc_or_pkg,
}
use kitsune_ufork.Deny.Removal.{ensure_data-loaded}
use kitsune_ufork.Deny.Invariant.{
  IsConsistent, kill_matching-SameButEffects, add_hide_set-IsConsistent, put_pkg-IsConsistent,
  ensure_data-IsConsistent,
}

abbrev pub is_listed : Text → Text → Deny → Bool
is_listed pkg proc d = member proc (procs_of pkg d)

-- Only the first map and the effects change, and the first map only at one entry.
pub is_listed-add_hide_set :
    (w : World) (pkg proc q r : Text) (d : Deny)
    → is_listed q r (add_hide_set w pkg proc d).0
      ≡ (if str_eql pkg q && str_eql proc r then true else is_listed q r d)
unfolding add_hide_set
is_listed-add_hide_set w pkg proc q r d = ground (
  arith,
  kill_matching-SameButEffects w pkg proc (put_proc pkg proc d),
  find-put pkg q (insert proc (procs_of pkg d)) d.pkg_to_procs,
  find-put proc r tt (procs_of pkg d),
  str_eql_iff pkg q,
  str_eql_iff proc r,
)

add_hide_set-found :
    (w : World) (pkg proc : Text) (d : Deny)
    → (add_hide_set w pkg proc d).1 ≡ true
    → is_some (find pkg (add_hide_set w pkg proc d).0.pkg_to_procs) ≡ true
unfolding add_hide_set
add_hide_set-found w pkg proc d h = ground (
  arith,
  kill_matching-SameButEffects w pkg proc (put_proc pkg proc d),
  find-put pkg pkg (insert proc (procs_of pkg d)) d.pkg_to_procs,
  str_eql_refl pkg,
)

set_pkg_uid-IsConsistent :
    (pkg : Text) (o : Option ℕ) (d : Deny)
    → is_some (find pkg d.pkg_to_procs) ≡ true
    → IsConsistent d
    → IsConsistent (set_pkg_uid pkg false o d)
set_pkg_uid-IsConsistent pkg none d f c = c
set_pkg_uid-IsConsistent pkg (some i) d f c = put_pkg-IsConsistent i pkg d f c

persist_add-IsConsistent :
    (w : World) (pkg proc : Text) (d : Deny)
    → is_some (find pkg d.pkg_to_procs) ≡ true
    → IsConsistent d
    → IsConsistent (persist_add w pkg proc d).0
unfolding persist_add update_pkg_uid
persist_add-IsConsistent w pkg proc d f c =
    let c' = set_pkg_uid-IsConsistent pkg (installed_app_id w pkg) d f c in
    record { listed = c'.listed; inhabited = c'.inhabited }

add_loaded-IsConsistent :
    (w : World) (pkg proc : Text) (d : Deny)
    → IsConsistent d
    → IsConsistent (add_loaded w pkg proc d).0
add_loaded-IsConsistent w pkg proc d c =
    let d' = (add_hide_set w pkg proc d).0 in
    let c' = add_hide_set-IsConsistent w pkg proc d c in
    ground (
      arith,
      c',
      add_hide_set-found w pkg proc d,
      λ (f : is_some (find pkg d'.pkg_to_procs) ≡ true).
          persist_add-IsConsistent w pkg proc d' f c',
    )

add_valid-IsConsistent :
    (w : World) (pkg proc : Text) (r : Deny × Bool)
    → IsConsistent r.0
    → IsConsistent (add_valid w pkg proc r).0
add_valid-IsConsistent w pkg proc (d, false) c = c
add_valid-IsConsistent w pkg proc (d, true) c = add_loaded-IsConsistent w pkg proc d c

-- `add_list` leaves maps that fit, on every branch and whatever the file system says.
pub add_list-IsConsistent :
    (w : World) (pkg proc : Text) (d : Deny)
    → IsConsistent d
    → IsConsistent (add_list w pkg proc d).0
unfolding add_list
add_list-IsConsistent w pkg proc d c = ground (
  arith,
  c,
  add_valid-IsConsistent w pkg (proc_or_pkg pkg proc) (ensure_data w d)
      (ensure_data-IsConsistent w d c),
)

set_pkg_uid-keeps :
    (pkg : Text) (o : Option ℕ) (d : Deny)
    → let d' = set_pkg_uid pkg false o d in
      (d'.pkg_to_procs ≡ d.pkg_to_procs) × (d'.table ≡ d.table) × (d'.loaded ≡ d.loaded)
set_pkg_uid-keeps pkg none d = (refl, refl, refl)
set_pkg_uid-keeps pkg (some i) d = (refl, refl, refl)

update_pkg_uid-keeps :
    (w : World) (pkg : Text) (d : Deny)
    → let d' = update_pkg_uid w pkg false d in
      (d'.pkg_to_procs ≡ d.pkg_to_procs) × (d'.table ≡ d.table) × (d'.loaded ≡ d.loaded)
unfolding update_pkg_uid
update_pkg_uid-keeps w pkg d = set_pkg_uid-keeps pkg (installed_app_id w pkg) d

add_hide_set-keeps :
    (w : World) (pkg proc : Text) (d : Deny)
    → let d' = (add_hide_set w pkg proc d).0 in (d'.table ≡ d.table) × (d'.loaded ≡ d.loaded)
unfolding add_hide_set
add_hide_set-keeps w pkg proc d =
    ground (arith, kill_matching-SameButEffects w pkg proc (put_proc pkg proc d))

add_hide_set_new :
    (w : World) (pkg proc : Text) (d : Deny)
    → (add_hide_set w pkg proc d).1 ≡ not (is_listed pkg proc d)
unfolding add_hide_set
add_hide_set_new w pkg proc d = ground arith

-- The reply of `add_list`, on every branch.
unfoldable pub add_reply : World → Text → Text → Deny → Response
add_reply w pkg proc d =
    if validate pkg proc
    then if is_listed pkg proc d
      then item_exist
      else if w.exec_ok (insert_sql d.table pkg proc)
      then ok
      else error
    else invalid_pkg

-- On maps that are there `add_list` refuses a name that does not validate and one that is listed,
-- and changes no entry then; any other it lists, and then reports whether the database took it.
pub add_list_lem :
    (w : World) (pkg proc : Text) (d : Deny)
    → d.loaded ≡ true
    → let p = proc_or_pkg pkg proc in
      let r = add_list w pkg proc d in
      (r.1 ≡ add_reply w pkg p d)
      × (r.0.loaded ≡ true)
      × ((q s : Text)
          → is_listed q s r.0
            ≡ (if validate pkg p && (str_eql pkg q && str_eql p s) then true else is_listed q s d))
unfolding add_list add_reply persist_add exec_sql
add_list_lem w pkg proc d up =
    let p = proc_or_pkg pkg proc in
    let d' = (add_hide_set w pkg p d).0 in
    let put = update_pkg_uid-keeps w pkg d' in
    let same = add_hide_set-keeps w pkg p d in
    let fresh = add_hide_set_new w pkg p d in
    let run : add_list w pkg proc d
        ≡ (if validate pkg p then add_loaded w pkg p d else (d, invalid_pkg)) =
      rw (ensure_data-loaded w d up) in
    (
      ground (arith, run, put, same, fresh),
      ground (arith, run, put, same, fresh, up),
      λ q s. ground (
        arith,
        run,
        put,
        same,
        fresh,
        is_listed-add_hide_set w pkg p q s d,
        str_eql_iff pkg q,
        str_eql_iff p s,
      ),
    )
