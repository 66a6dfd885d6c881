-- ===== src/Monitor.antt =====
-- The process monitor: native/src/core/deny/ptrace.cpp. State and helpers; the handlers are in the
-- children.
pub mod Zygote
pub mod Check
pub mod Events
pub mod Treat
pub mod Sound
pub mod History
pub mod Exit
mod Examples
use kitsune_ufork.Common.{
  ℕ, ◌+◌, ◌%◌, Bool, true, false, not, ◌&&◌, ◌||◌, Option, none, some, List, [], ◌∷◌, ◌++◌, Text,
  codes, leb, ltb, ◌==◌, if◌then◌else◌, str_eql,
}
use kitsune_ufork.OrderedMap.{Map, int_key, find, is_some}
use kitsune_ufork.Base.Strings.{str_contains}
use kitsune_ufork.Deny.State.{World, Deny}

-- What a `struct stat` of a namespace tells.
pub record Ns : Type 0 where
  pub dev : ℕ
  pub ino : ℕ

-- A process in /proc, when an event is handled: the owner of its directory (none: it is gone), the
-- directory's own numbers, its namespace, its parent as parse_ppid finds it (none: -1), its command
-- line and its SELinux context as strings (none: the file cannot be read), and whether the Tgid of
-- its status is its own number.
pub record Info : Type 0 where
  pub uid : Option ℕ
  pub dir : Ns
  pub ns : Option Ns
  pub ppid : Option ℕ
  pub cmdline : Option Text
  pub context : Option Text
  pub is_leader : Bool

-- What the system answers during one event: /proc, with the numbers in its order, ptrace(ATTACH),
-- what an uninitialised `struct stat` holds, and the answers to the list of hidden apps.
pub record Env : Type 0 where
  pub info : ℕ → Info
  pub pids : List ℕ
  pub attaches_to : ℕ → Bool
  pub junk : Ns
  pub selinux_enabled : Bool
  pub su_bin_open : Bool
  pub have_32 : Bool
  pub is_lp64 : Bool
  pub world : World

-- The calls with an effect, in order. A signal of 0 is none; `revert` has its client.
pub data Act : Type 0 where
  attach : ℕ → Act
  set_options : ℕ → List ℕ → Act
  detach cont syscall : ℕ → ℕ → Act
  wait stop : ℕ → Act
  mount revert revert_zygote : ℕ → Act
  timer_off : Act
  exit_thread : Act

-- The globals. A set is the function of its bits; `overrun` records an access outside of a bitset.
pub record Monitor : Type 0 where
  pub zygote_map : Map ℕ Ns
  pub attaches : ℕ → Bool
  pub allowed : ℕ → Bool
  pub checked : ℕ → Bool
  pub overrun : Bool
  pub deny : Deny
  pub acts : List Act

abbrev pub act : Act → Monitor → Monitor
act a m = record m { acts = m.acts ++ a ∷ [] }

-- PID_MAX: the bit of a process is pos - 1.
abbrev pub in_range : ℕ → Bool
in_range pid = leb 1 pid && leb pid 32768

abbrev pub touch : ℕ → Monitor → Monitor
touch pid m = record m { overrun = m.overrun || not (in_range pid) }

abbrev pub set_bit : ℕ → Bool → (ℕ → Bool) → ℕ → Bool
set_bit pid b s q = if q == pid then b else s q

abbrev pub no_bits : ℕ → Bool
no_bits q = false

unfoldable pub detach_pid : ℕ → ℕ → Monitor → Monitor
detach_pid pid signal m =
    let m = touch pid m in
    act (detach pid signal) (record m {
      attaches = set_bit pid false m.attaches;
      allowed = set_bit pid false m.allowed;
      checked = set_bit pid false m.checked;
    })

-- Whether the number is a process, not a thread, of the user.
unfoldable pub is_process : Info → ℕ → Bool
is_process p uid = elim p.uid [ none ↦ false | some u ↦ u == uid && p.is_leader ]

-- strcmp of the command line, and str_contains of the context; `exe` is always null.
unfoldable pub check_process : Info → Text → Option Text → Bool
check_process p process context = elim p.cmdline [
  | none ↦ false
  | some cmdline ↦ str_eql cmdline process && elim context [
    | none ↦ true
    | some c ↦ elim p.context [ none ↦ false | some buf ↦ str_contains buf c ]
  ]
]

abbrev pub zygote_context : Text
zygote_context = codes "u:r:zygote:s0"

unfoldable pub is_zygote : Bool → Info → Bool
unfolding check_process
is_zygote selinux_enabled p =
    let context = if selinux_enabled then some zygote_context else none in
    check_process p (codes "zygote") context
    || (check_process p (codes "zygote64") context || check_process p (codes "zygote32") context)

abbrev pub same_ns : Ns → Ns → Bool
same_ns a b = a.dev == b.dev && a.ino == b.ino

-- ino_equal of two stats that may have failed: what the structs held before.
abbrev pub or_held : Option Ns → Ns → Ns
or_held none held = held
or_held (some n) held = n
