-- ===== src/Monitor/Zygote.antt =====
-- `is_zygote_done`, `check_zygote`, `umount_all_zygote` and `new_zygote` of
-- native/src/core/deny/ptrace.cpp.
use kitsune_ufork.Common.{
  ℕ, Bool, true, false, not, ◌&&◌, Option, none, some, List, [], ◌∷◌, length, leb, ◌==◌,
  if◌then◌else◌,
}
use kitsune_ufork.OrderedMap.{int_key, find, put}
use kitsune_ufork.Monitor.{
  Ns, Env, attach, set_options, cont, wait, revert_zygote, timer_off, Monitor, act, is_process,
  is_zygote, same_ns,
}

unfoldable pub is_zygote_done : Env → Monitor → Bool
is_zygote_done e m =
    if e.is_lp64
    then leb (if e.have_32 then 2 else 1) (length m.zygote_map)
    else leb 1 (length m.zygote_map)

-- PTRACE_O_TRACEFORK, PTRACE_O_TRACEVFORK and PTRACE_O_TRACEEXIT, by their events.
abbrev pub zygote_options : List ℕ
zygote_options = 1 ∷ 2 ∷ 6 ∷ []

-- From the attachment on.
abbrev attach_zygote : Env → ℕ → Ns → Monitor → Monitor
attach_zygote e pid st m =
    let tried = act (attach pid) m in
    let kept = record tried { zygote_map = put pid st m.zygote_map } in
    let cleaned = if m.deny.sulist then act (revert_zygote pid) kept else kept in
    if e.attaches_to pid
    then act (cont pid 0) (act (set_options pid zygote_options) (act (wait pid) cleaned))
    else tried

-- Both namespaces are read.
abbrev with_ns : Env → ℕ → Ns → Ns → Monitor → Monitor
with_ns e pid st init_st m = if same_ns init_st st then m else elim (find pid m.zygote_map) [
  | none ↦ attach_zygote e pid st m
  | some old ↦ record m { zygote_map = put pid st m.zygote_map }
]

unfoldable pub new_zygote : Env → ℕ → Monitor → Monitor
new_zygote e pid m = elim (e.info pid).ns [
  | none ↦ m
  | some st ↦ elim (e.info 1).ns [ none ↦ m | some init_st ↦ with_ns e pid st init_st m ]
]

abbrev parent_is : Option ℕ → ℕ → Bool
parent_is none n = false
parent_is (some p) n = p == n

-- A zygote is a process of root whose parent is init.
abbrev pub is_root_zygote : Env → ℕ → Bool
is_root_zygote e pid =
    is_process (e.info pid) 0
    && (is_zygote e.selinux_enabled (e.info pid) && parent_is (e.info pid).ppid 1)

abbrev parent_zygote : Env → Option ℕ → Bool
parent_zygote e none = false
parent_zygote e (some p) = is_zygote e.selinux_enabled (e.info p)

-- crawl_procfs passes over what is not positive.
unfoldable pub zygote_list : Env → List ℕ → List ℕ
unfolding is_process is_zygote
zygote_list e [] = []
zygote_list e (pid ∷ pids) =
    let rest = zygote_list e pids in if leb 1 pid && is_root_zygote e pid then pid ∷ rest else rest

-- A process of the system's user that a zygote forked, and that is none itself.
unfoldable pub system_server_started : Env → List ℕ → Bool
unfolding is_process is_zygote
system_server_started e [] = false
system_server_started e (pid ∷ pids) =
    let rest = system_server_started e pids in
    if leb 1 pid
      && (not (is_root_zygote e pid)
          && (is_process (e.info pid) 1000 && parent_zygote e (e.info pid).ppid))
    then true
    else rest

unfoldable pub new_zygotes : Env → List ℕ → Monitor → Monitor
unfolding new_zygote
new_zygotes e [] m = m
new_zygotes e (pid ∷ pids) m = new_zygotes e pids (new_zygote e pid m)

unfoldable pub check_zygote : Env → Monitor → Monitor
unfolding zygote_list system_server_started new_zygotes is_zygote_done
check_zygote e m =
    let traced = new_zygotes e (zygote_list e e.pids) m in
    let m' = if system_server_started e e.pids then traced else m in
    if not e.su_bin_open then m else if is_zygote_done e m' then act timer_off m' else m'

-- Every zygote is cleaned in its own namespace.
unfoldable pub umount_all_zygote : Env → List ℕ → Monitor → Monitor
unfolding is_process is_zygote
umount_all_zygote e [] m = m
umount_all_zygote e (pid ∷ pids) m =
    let m' = if leb 1 pid && is_root_zygote e pid then act (revert_zygote pid) m else m in
    umount_all_zygote e pids m'
