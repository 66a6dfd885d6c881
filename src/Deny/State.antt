-- ===== src/Deny/State.antt =====
-- What native/src/core/deny/utils.cpp keeps between calls, what it asks of the system, and what it
-- does to it.
use kitsune_ufork.Common.{ℕ, ◌%◌, Bool, Option, none, some, List, [], ◌∷◌, ◌++◌, Text}
use kitsune_ufork.OrderedMap.{Map, Set, text_key, int_key, find}

-- A running process: its number, the owner that stat(/proc/PID) reports, and what the buffer holds
-- after its cmdline and its SELinux context were read (none: the file cannot be opened).
pub record Process : Type 0 where
  pub pid : ℕ
  pub uid : Option ℕ
  pub cmdline : Option Text
  pub context : Option Text

-- What the system answers during one request: the entries of APP_DATA_DIR (none: it cannot be
-- opened), those of one user's directory, the owner of a package's directory, the rows that a
-- SELECT of a table delivers before it ends, whether it ends well, whether a statement succeeds,
-- and the manager app, as get_manager() finds it (none: -1).
pub record World : Type 0 where
  pub users : Option (List Text)
  pub packages : Text → Option (List Text)
  pub stat : Text → Text → Option ℕ
  pub procs : List Process
  pub rows : Text → List (Text × Text)
  pub rows_ok : Text → Bool
  pub exec_ok : Text → Bool
  pub manager_pkg : Text
  pub manager_app_id : Option ℕ
  pub has_mnt_ns : Bool
  pub has_procfs : Bool
  pub thread_starts : Bool
  pub sdk_int : ℕ

-- What a request does outside the daemon's memory.
pub data Effect : Type 0 where
  hide_environment : ℕ → Effect
  hide_modules : ℕ → ℕ → Effect
  kill : ℕ → Effect
  sql : Text → Effect
  stop_monitor : Effect

-- The globals. `loaded` is pkg_to_procs_ != nullptr; while it is false both maps are empty.
pub record Deny : Type 0 where
  pub loaded : Bool
  pub pkg_to_procs : Map Text (Set Text)
  pub app_id_to_pkgs : Map ℕ (Set Text)
  pub enforced : Bool
  pub sulist : Bool
  pub table : Text
  pub skip_rescan : Bool
  pub procfs_open : Bool
  pub effects : List Effect

abbrev pub emit : Effect → Deny → Deny
emit e d = record d { effects = d.effects ++ e ∷ [] }

-- to_app_id
unfoldable pub to_app_id : ℕ → ℕ
to_app_id uid = uid % 100000

-- The set under a key, and the empty set where `operator[]` makes a new one.
abbrev pub set_or_empty : {K : Type 0} → Option (Set K) → Set K
set_or_empty none = []
set_or_empty (some s) = s

abbrev pub procs_of : Text → Deny → Set Text
procs_of pkg d = set_or_empty (find pkg d.pkg_to_procs)

abbrev pub pkgs_of : ℕ → Deny → Set Text
pkgs_of app_id d = set_or_empty (find app_id d.app_id_to_pkgs)
