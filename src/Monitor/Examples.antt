-- ===== src/Monitor/Examples.antt =====
-- The theorems on native/src/core/deny/ptrace.cpp at concrete inputs.
use kitsune_ufork.Common.{all}
use kitsune_ufork.Common.{
  ℕ, ◌≡◌, refl, ◌++◌, Bool, true, false, Option, none, some, List, [], ◌∷◌, Text, codes, arith,
  if◌then◌else◌, ◌==◌, str_eql,
}
use kitsune_ufork.OrderedMap.{text_key, int_key, find}
use kitsune_ufork.Deny.State.{World, Deny}
use kitsune_ufork.Deny.Invariant.{IsConsistent}
use kitsune_ufork.Monitor.{
  Ns, Info, Env, Monitor, Act, detach, stop, revert, attach, wait, set_options, cont, timer_off,
}
use kitsune_ufork.Monitor.Zygote.{check_zygote, zygote_options}
use kitsune_ufork.Monitor.Check.{check_pid}
use kitsune_ufork.Monitor.Events.{
  ended, stopped, sigtrap, syscall_trap, other, fresh_monitor, start_monitor,
}
use kitsune_ufork.Monitor.Treat.{Treated, check_pid-Treated}
use kitsune_ufork.Monitor.Sound.{Keeps}
use kitsune_ufork.Monitor.History.{
  Event, waited, alarm, noticed, run_events, and_next, start_monitor-run_events, Within,
  in_range_event,
}
use kitsune_ufork.Monitor.Exit.{Missed, run_events-Missed}

abbrev app : Text
app = codes "com.a"

abbrev device : World
device = record {
  users = some (codes "0" ∷ []);
  packages = λ user. some (app ∷ []);
  stat = λ user pkg. if str_eql pkg app then some 10123 else none;
  procs = [];
  rows = λ table. [];
  rows_ok = λ table. true;
  exec_ok = λ sql. true;
  manager_pkg = codes "io.m";
  manager_app_id = none;
  has_mnt_ns = true;
  has_procfs = true;
  thread_starts = true;
  sdk_int = 33;
}

-- The app is on the list.
abbrev listed : Deny
listed = record {
  loaded = true;
  pkg_to_procs = (app, (app, tt) ∷ []) ∷ [];
  app_id_to_pkgs = (10123, (app, tt) ∷ []) ∷ [];
  enforced = true;
  sulist = false;
  table = codes "hidelist";
  skip_rescan = true;
  procfs_open = true;
  effects = [];
}

listed-IsConsistent : IsConsistent listed
unfolding find
listed-IsConsistent = record {
  listed = λ i q h. ground (arith, h);
  inhabited = λ q h. ground (arith, h);
}

abbrev ns_of : ℕ → Ns
ns_of pid = record { dev = 4; ino = pid }

-- Process 500 is zygote, with init as its parent, 600 the system server, 700 the app.
abbrev names : ℕ → Text
names pid =
    if pid == 500
    then codes "zygote64"
    else if pid == 600
    then codes "system_server"
    else if pid == 700
    then app
    else codes "init"

abbrev infos : ℕ → Info
infos pid = record {
  uid = some (if pid == 600 then 1000 else if pid == 700 then 10123 else 0);
  dir = ns_of pid;
  ns = some (ns_of pid);
  ppid = some (if pid == 500 then 1 else 500);
  cmdline = some (names pid);
  context = some (codes "u:r:zygote:s0");
  is_leader = true;
}

abbrev env : Env
env = record {
  info = infos;
  pids = 1 ∷ 500 ∷ 600 ∷ 700 ∷ [];
  attaches_to = λ pid. true;
  junk = ns_of 0;
  selinux_enabled = true;
  su_bin_open = true;
  have_32 = false;
  is_lp64 = true;
  world = device;
}

check_pid-Treated_example :
    Treated env 700 (fresh_monitor listed) (check_pid env 700 (fresh_monitor listed))
check_pid-Treated_example = check_pid-Treated env 700 (fresh_monitor listed) listed-IsConsistent

abbrev a_day : List Event
a_day =
    noticed env other
    ∷ waited env 500 (stopped sigtrap 1 700)
    ∷ waited env 700 (stopped syscall_trap 0 0)
    ∷ alarm env
    ∷ waited env 700 ended
    ∷ []

start_monitor-run_events_example :
    Keeps (and_next (start_monitor env listed) (run_events a_day))
    × Within (all in_range_event a_day) (and_next (start_monitor env listed) (run_events a_day))
start_monitor-run_events_example =
    start_monitor-run_events env a_day listed listed-IsConsistent refl

-- The app is stopped and reverted; zygote is attached to and told to go on.
abbrev acts_of : Option (Monitor × Bool) → List Act
acts_of none = []
acts_of (some (m, done)) = m.acts

treats_app :
    acts_of (check_pid env 700 (fresh_monitor listed))
    ≡ detach 700 0 ∷ stop 700 ∷ revert 700 ∷ detach 700 0 ∷ []
unfolding check_pid str_eql kitsune_ufork.Deny.Table.ensure_data kitsune_ufork.Deny.Query.query find
    kitsune_ufork.Deny.Query.any_pkg
treats_app = refl

finds_zygote :
    (check_zygote env (fresh_monitor listed)).acts
    ≡ attach 500 ∷ wait 500 ∷ set_options 500 zygote_options ∷ cont 500 0 ∷ timer_off ∷ []
unfolding check_zygote str_eql kitsune_ufork.Base.Strings.str_contains
    kitsune_ufork.Common.str_starts find kitsune_ufork.OrderedMap.put
finds_zygote = refl

-- Zygote is traced.
abbrev traced : Monitor
traced = record (fresh_monitor listed) { zygote_map = (500, ns_of 500) ∷ [] }

run_events-Missed_example :
    Missed 500 traced
      (run_events (waited env 500 (stopped sigtrap 6 0) ∷ waited env 500 ended ∷ []) traced)
unfolding find
run_events-Missed_example = run_events-Missed env env 500 0 traced refl
