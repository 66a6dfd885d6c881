-- ===== src/Monitor/Check.antt =====
-- `check_pid` of native/src/core/deny/ptrace.cpp.
use kitsune_ufork.Common.{
  ℕ, Bool, true, false, Option, none, some, List, [], ◌∷◌, Text, codes, ◌==◌, if◌then◌else◌,
  str_eql, any,
}
use kitsune_ufork.Deny.Query.{is_deny_target}
use kitsune_ufork.Monitor.{Ns, Env, stop, mount, revert, Monitor, act, detach_pid, same_ns, or_held}

-- The names of a process that zygote has not specialised yet.
abbrev early_names : List Text
early_names =
    codes "zygote"
    ∷ codes "zygote32"
    ∷ codes "zygote64"
    ∷ codes "usap32"
    ∷ codes "usap64"
    ∷ codes "<pre-initialized>"
    ∷ []

unfoldable pub still_zygote : Text → Bool
still_zygote cmdline = any (str_eql cmdline) early_names

-- The namespace is the parent's. The struct that read_ns fills held the directory's numbers before,
-- the other one nothing.
abbrev parent_ns : Env → Option ℕ → Option Ns
parent_ns e none = none
parent_ns e (some p) = (e.info p).ns

unfoldable pub shares_ns : Env → ℕ → Bool
shares_ns e pid =
    let p = e.info pid in same_ns (or_held p.ns p.dir) (or_held (parent_ns e p.ppid) e.junk)

-- Stopped, and then mounted to or reverted by a child process, which lets it go on.
unfoldable pub treat : ℕ → Monitor → Monitor
unfolding detach_pid
treat pid m =
    let m = act (stop pid) (detach_pid pid 0 m) in
    act (if m.deny.sulist then mount pid else revert pid) m

abbrev pub not_target : ℕ → Monitor → Option (Monitor × Bool)
not_target pid m = some (detach_pid pid 0 m, true)

-- After is_deny_target; `none` is its undefined behaviour.
abbrev pub on_answer : Env → ℕ → Monitor → Option Bool → Option (Monitor × Bool)
on_answer e pid m none = none
on_answer e pid m (some hit) =
    if hit
    then if shares_ns e pid then not_target pid m else not_target pid (treat pid m)
    else not_target pid m

abbrev pub ask : Env → ℕ → ℕ → Monitor → Text → Option (Monitor × Bool)
ask e pid uid m cmdline =
    let (d, answer) = is_deny_target e.world uid cmdline 95 m.deny in
    if still_zygote cmdline then some (m, false) else on_answer e pid (record m { deny = d }) answer

-- The monitor afterwards, and whether the process is done with.
unfoldable pub check_pid : Env → ℕ → Monitor → Option (Monitor × Bool)
unfolding detach_pid still_zygote shares_ns treat is_deny_target
check_pid e pid m = elim (e.info pid).uid [
  | none ↦ not_target pid m
  | some uid ↦ if uid == 0 then some (m, false) else elim (e.info pid).cmdline [
    | none ↦ not_target pid m
    | some cmdline ↦ ask e pid uid m cmdline
  ]
]
