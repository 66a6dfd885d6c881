-- ===== src/Monitor/Events.antt =====
-- The events of native/src/core/deny/ptrace.cpp: the loop of `proc_monitor` on what waitpid
-- reports, and the handlers of signals. `none` is undefined behaviour.
use kitsune_ufork.Common.{
  ℕ, ◌%◌, Bool, true, false, not, ◌&&◌, ◌||◌, Option, none, some, [], ◌∷◌, codes, leb, ◌==◌,
  if◌then◌else◌, str_eql,
}
use kitsune_ufork.OrderedMap.{int_key, find, erase, is_some}
use kitsune_ufork.Base.Strings.{str_contains}
use kitsune_ufork.Deny.State.{Deny}
use kitsune_ufork.Deny.Query.{is_uid_on_list, scan_deny_apps}
use kitsune_ufork.Monitor.{
  Info, Env, set_options, cont, syscall, exit_thread, Monitor, act, touch, set_bit, no_bits,
  detach_pid, is_process,
}
use kitsune_ufork.Monitor.Zygote.{check_zygote}
use kitsune_ufork.Monitor.Check.{check_pid}

-- What waitpid reports: an end, or a stop with its signal, its event and the event's message.
pub data Status : Type 0 where
  ended : Status
  stopped : ℕ → ℕ → ℕ → Status

-- SIGTRAP, SIGTRAP | 0x80 and SIGSTOP
abbrev pub sigtrap : ℕ
sigtrap = 5

abbrev pub syscall_trap : ℕ
syscall_trap = 133

abbrev pub sigstop : ℕ
sigstop = 19

-- zygote_map.count(pid)
abbrev pub is_traced_zygote : ℕ → Monitor → Bool
is_traced_zygote pid m = is_some (find pid m.zygote_map)

-- `zygote_map.count(pid) & event` is not 0: the count is 0 or 1, so that the event's lowest bit
-- decides.
abbrev pub count_and_event : ℕ → ℕ → Monitor → Bool
count_and_event pid event m = is_traced_zygote pid m && event % 2 == 1

-- PTRACE_EVENT_FORK and PTRACE_EVENT_VFORK; every other event that gets here ends the tracing.
unfoldable pub zygote_event : ℕ → ℕ → ℕ → Monitor → Monitor
unfolding detach_pid
zygote_event pid event msg m =
    let child = touch msg m in
    if event == 1 || event == 2
    then act (cont pid 0) (record child { attaches = set_bit msg true m.attaches })
    else detach_pid pid 0 (record m { zygote_map = erase pid m.zygote_map })

-- get_content and its test, for a process that may be let through.
unfoldable pub may_be_allowed : Info → Bool
may_be_allowed p =
    elim p.context [ none ↦ false | some c ↦ str_contains c (codes "u:r:app_zygote:s0") ]
    || elim p.cmdline [ none ↦ false | some c ↦ str_eql c (codes "<pre-initialized>") ]

abbrev pub go_on : ℕ → Monitor → Monitor
go_on pid m = act (syscall pid 0) m

abbrev pub after_check : ℕ → Option (Monitor × Bool) → Option Monitor
after_check pid none = none
after_check pid (some (m, done)) = some (if done then m else go_on pid m)

-- CHECK_PROC
unfoldable pub check_proc : Env → ℕ → Monitor → Option Monitor
unfolding check_pid may_be_allowed
check_proc e pid m =
    let marked = record m { checked = set_bit pid true m.checked } in
    let now = m.allowed pid || may_be_allowed (e.info pid) in
    let through = record marked { allowed = set_bit pid true m.allowed } in
    if now then after_check pid (check_pid e pid through) else some (go_on pid marked)

-- An unknown process gets the owner 0, for which `st` is cleared.
abbrev pub owner : Option ℕ → ℕ
owner none = 0
owner (some uid) = uid

abbrev pub on_list : Env → ℕ → Monitor → Option Bool → Option Monitor
on_list e pid m none = none
on_list e pid m (some listed) = elim listed [
  | true ↦ check_proc e pid m
  | false ↦ some (detach_pid pid 0 m)
]

unfoldable pub syscall_stop : Env → ℕ → Monitor → Option Monitor
unfolding check_proc detach_pid is_uid_on_list
syscall_stop e pid m =
    let m = touch pid m in
    let uid = owner (e.info pid).uid in
    if m.checked pid
    then check_proc e pid m
    else if uid == 0
    then some (go_on pid m)
    else if leb 90000 (uid % 100000)
    then if m.deny.sulist then some (detach_pid pid 0 m) else check_proc e pid m
    else on_list e pid m (is_uid_on_list uid m.deny)

-- The first stop of a new child: a thread is let go. The option is PTRACE_O_TRACESYSGOOD.
unfoldable pub stop_signal : Env → ℕ → Monitor → Monitor
unfolding detach_pid is_process
stop_signal e pid m =
    let m = touch pid m in
    let is_child = m.attaches pid || is_process (e.info pid) 0 in
    let m = record m { attaches = set_bit pid is_child m.attaches } in
    if is_child then act (syscall pid 0) (act (set_options pid (0 ∷ [])) m) else detach_pid pid 0 m

-- Any other signal is passed on.
unfoldable pub resend : ℕ → ℕ → Monitor → Monitor
resend pid signal m =
    let m = touch pid m in
    if not (is_traced_zygote pid m) && m.attaches pid
    then act (syscall pid signal) m
    else act (cont pid signal) m

-- One round of the loop of proc_monitor.
unfoldable pub wait_round : Env → ℕ → Status → Monitor → Option Monitor
unfolding detach_pid zygote_event syscall_stop stop_signal resend
wait_round e pid ended m = some (detach_pid pid 0 m)
wait_round e pid (stopped signal event msg) m =
    if signal == sigtrap && count_and_event pid event m
    then some (zygote_event pid event msg m)
    else if signal == syscall_trap
    then syscall_stop e pid m
    else some (if signal == sigstop then stop_signal e pid m else resend pid signal m)

-- What the inotify descriptor reports: nothing, a new user, a change of packages.xml or of
-- attributes, or another event.
pub data Notice : Type 0 where
  nothing user_created list_changed other : Notice

abbrev pub checked_zygote : Env → Option Deny → Monitor → Option Monitor
checked_zygote e none m = none
checked_zygote e (some d) m = some (check_zygote e (record m { deny = d }))

unfoldable pub inotify_event : Env → Notice → Monitor → Option Monitor
unfolding check_zygote scan_deny_apps
inotify_event e nothing m = some m
inotify_event e user_created m = some m
inotify_event e list_changed m = checked_zygote e (scan_deny_apps e.world m.deny) m
inotify_event e other m = some (check_zygote e m)

-- The end of the thread.
unfoldable pub term_thread : Monitor → Monitor
term_thread m =
    act exit_thread
      (record m { zygote_map = []; attaches = no_bits; checked = no_bits; allowed = no_bits })

abbrev pub fresh_monitor : Deny → Monitor
fresh_monitor d = record {
  zygote_map = [];
  attaches = no_bits;
  allowed = no_bits;
  checked = no_bits;
  overrun = false;
  deny = d;
  acts = [];
}

abbrev pub rescanned : Monitor → Option Deny → Option Monitor
rescanned m none = none
rescanned m (some d) = some (record m { deny = d })

-- `proc_monitor` up to its loop.
unfoldable pub start_monitor : Env → Deny → Option Monitor
unfolding check_zygote scan_deny_apps
start_monitor e d =
    let m = check_zygote e (fresh_monitor d) in rescanned m (scan_deny_apps e.world m.deny)
