-- ===== src/Deny/Listing.antt =====
-- `get_users` and `ls_list` of native/src/core/deny/utils.cpp.
use kitsune_ufork.Common.{
  ℕ, ◌+◌, Bool, true, false, not, ◌&&◌, Option, none, some, List, [], ◌∷◌, ◌++◌, Text, codes,
  str_eql, str_starts, take, length, any,
}
use kitsune_ufork.OrderedMap.{text_key, Set, Map, find, put, erase, insert, is_some}
use kitsune_ufork.Deny.Validate.{isolated_magic}
use kitsune_ufork.Deny.State.{World, Deny, procs_of, sql, emit}
use kitsune_ufork.Deny.Table.{ensure_data}
use kitsune_ufork.Deny.Edit.{
  Response, ok, error, erase_pkg, delete_pkg_sql, delete_proc_sql, sql_buffer,
}

-- What goes over the socket: an int, or raw bytes.
pub data Wire : Type 0 where
  number : ℕ → Wire
  code : Response → Wire
  bytes : Text → Wire

abbrev pub insert_users : List Text → Set Text → Set Text
insert_users [] s = s
insert_users (u ∷ us) s = insert_users us (insert u s)

unfoldable pub get_users : World → Set Text
get_users w = elim w.users [
  | none ↦ insert (codes "0") []
  | some users ↦ insert_users users (insert (codes "0") [])
]

-- access(APP_DATA_DIR/user/pkg) for some user
unfoldable pub is_installed : World → Text → Bool
unfolding get_users
is_installed w pkg = any (λ e. is_some (w.stat e.0 pkg)) (get_users w)

abbrev pub keep_if : {A : Type 0} → Bool → A → List A → List A
keep_if true a rest = a ∷ rest
keep_if false a rest = rest

unfoldable pub pkgs_to_rm : World → Map Text (Set Text) → List Text
unfolding is_installed
pkgs_to_rm w [] = []
pkgs_to_rm w ((pkg, procs) ∷ m) =
    keep_if (not (str_eql pkg isolated_magic) && not (is_installed w pkg)) pkg (pkgs_to_rm w m)

-- Does the name of some listed package start this process?
unfoldable pub has_app : Map ℕ (Set Text) → Text → Bool
has_app apps proc = any (λ app. any (λ pkg. str_starts proc pkg.0) app.1) apps

unfoldable pub orphan_procs : Map ℕ (Set Text) → Set Text → List Text
unfolding has_app
orphan_procs apps [] = []
orphan_procs apps ((proc, u) ∷ procs) =
    keep_if (not (has_app apps proc)) proc (orphan_procs apps procs)

abbrev pub isolated_procs_to_rm : Deny → List Text
isolated_procs_to_rm d = orphan_procs d.app_id_to_pkgs (procs_of isolated_magic d)

abbrev pub erase_if_found : World → Text → Option (Set Text) → Deny → Deny
erase_if_found w pkg none d = d
erase_if_found w pkg (some procs) d = erase_pkg w pkg d

unfoldable pub rm_pkgs : World → List Text → Deny → Deny
rm_pkgs w [] d = d
rm_pkgs w (pkg ∷ pkgs) d =
    let d' = erase_if_found w pkg (find pkg d.pkg_to_procs) d in
    rm_pkgs w pkgs (emit (sql (take sql_buffer (delete_pkg_sql d'.table pkg))) d')

-- `it->second.erase(proc)`, after which an empty set goes.
abbrev pub put_or_erase : Text → Set Text → Deny → Deny
put_or_erase pkg [] d = record d { pkg_to_procs = erase pkg d.pkg_to_procs }
put_or_erase pkg (p ∷ ps) d = record d { pkg_to_procs = put pkg (p ∷ ps) d.pkg_to_procs }

unfoldable pub rm_isolated : List Text → Deny → Deny
rm_isolated [] d = d
rm_isolated (proc ∷ procs) d =
    let d' = put_or_erase isolated_magic (erase proc (procs_of isolated_magic d)) d in
    rm_isolated procs
      (emit (sql (take sql_buffer (delete_proc_sql d'.table isolated_magic proc))) d')

abbrev pub rm_isolated_found : Option (Set Text) → List Text → Deny → Deny
rm_isolated_found none procs d = d
rm_isolated_found (some set) procs d = rm_isolated procs d

-- Packages that are not installed and isolated processes of no listed package leave the list.
unfoldable pub prune : World → Deny → Deny
unfolding pkgs_to_rm orphan_procs rm_pkgs rm_isolated
prune w d =
    let orphans = isolated_procs_to_rm d in
    let d' = rm_pkgs w (pkgs_to_rm w d.pkg_to_procs) d in
    rm_isolated_found (find isolated_magic d'.pkg_to_procs) orphans d'

-- One line for each process, `pkg|proc`, behind its length.
unfoldable pub print_procs : Text → Set Text → List Wire
print_procs pkg [] = []
print_procs pkg ((proc, u) ∷ procs) =
    number (length pkg + length proc + 1)
    ∷ bytes pkg
    ∷ bytes (codes "|")
    ∷ bytes proc
    ∷ print_procs pkg procs

unfoldable pub print_list : Map Text (Set Text) → List Wire
unfolding print_procs
print_list [] = []
print_list ((pkg, procs) ∷ m) = print_procs pkg procs ++ print_list m

abbrev pub list_loaded : World → Deny × Bool → Deny × List Wire
list_loaded w (d, false) = (d, code error ∷ [])
list_loaded w (d, true) =
    let d' = prune w d in (d', code ok ∷ (print_list d'.pkg_to_procs ++ number 0 ∷ []))

unfoldable pub ls_list : World → Deny → Deny × List Wire
ls_list w d = list_loaded w (ensure_data w d)
