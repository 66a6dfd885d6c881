-- ===== src/Su/Shell.antt =====
-- `exec_root_shell` and `set_identity` of native/src/core/su/su.cpp, with the streams that
-- `su_client_main` sends.
use kitsune_ufork.Common.{
  ℕ, zero, suc, ℤ, pos, negsuc, Bool, true, false, not, ◌&&◌, ◌||◌, Option, none, some, List, [],
  ◌∷◌, Text, codes, c_str, length, ◌==◌, if◌then◌else◌,
}
use kitsune_ufork.Su.{Request}

-- The ids of a process, and whether each call that changes them succeeds.
pub record Identity : Type 0 where
  pub uid : ℕ
  pub gid : ℕ
  pub groups : List ℕ

pub record Calls : Type 0 where
  pub seteuid_ok : Bool
  pub setgroups_ok : Bool
  pub setresgid_ok : Bool
  pub setresuid_ok : Bool

-- The system calls leave an id as it is when they are given -1.
unfoldable pub set_id : ℤ → ℕ → ℕ
set_id (pos n) old = n
set_id (negsuc n) old = old

-- `gids[0]`, or else the uid.
unfoldable pub primary : ℤ → List ℕ → ℤ
primary uid [] = uid
primary uid (g ∷ gids) = pos g

abbrev has_groups : List ℕ → Bool
has_groups [] = false
has_groups (g ∷ gids) = true

-- set_identity. A failed call is logged by PLOGE, which ends the child process here: `none`.
unfoldable pub set_identity : Calls → ℤ → List ℕ → Identity → Option Identity
set_identity calls uid gids id =
    if not calls.seteuid_ok
      || (has_groups gids && not calls.setgroups_ok
          || (not calls.setresgid_ok || not calls.setresuid_ok))
    then none
    else some (record {
      uid = set_id uid id.uid;
      gid = set_id (primary uid gids) id.gid;
      groups = if has_groups gids then gids else id.groups;
    })

-- One stream as the client sends it; `none` is -1, for a stream that is a terminal.
unfoldable pub send_stream : Bool → Bool → ℕ → Option ℕ
send_stream isatty interactive fd = if isatty && interactive then none else some fd

abbrev no_command : Text → Bool
no_command [] = true
no_command (c ∷ command) = false

-- The daemon's side: with a pty, each stream that is -1 is the pty.
unfoldable pub fill_stream : Option ℕ → Option ℕ → Option ℕ
fill_stream (some pts) none = some pts
fill_stream (some pts) (some fd) = some fd
fill_stream none fd = fd

-- The three streams of the shell, from what the client's are: `interactive` is the option -i, and
-- `pts` the terminal that exec_root_shell opens when it is asked for one.
unfoldable pub shell_streams : Request → Bool → Bool → Bool → Bool → ℕ → List (Option ℕ)
shell_streams r i in_tty out_tty err_tty pts =
    let interactive = i || no_command r.command in
    let atty = in_tty && interactive || (out_tty && interactive || err_tty && interactive) in
    let pty = if atty then some pts else none in
    fill_stream pty (send_stream in_tty interactive 0)
    ∷ fill_stream pty (send_stream out_tty interactive 1)
    ∷ fill_stream pty (send_stream err_tty interactive 2)
    ∷ []

-- MntNsMode
pub data MntNs : Type 0 where
  global requester isolate : MntNs

-- The mount namespace the shell runs in.
pub data Namespace : Type 0 where
  of_daemon : Namespace
  of_process : ℤ → Namespace
  private_copy : ℤ → Namespace

unfoldable pub enter : MntNs → ℤ → Namespace
enter global pid = of_daemon
enter requester pid = of_process pid
enter isolate pid = private_copy pid

unfoldable pub namespace : ℤ → ℕ → MntNs → Namespace
namespace (negsuc zero) pid mode = enter mode (pos pid)
namespace (pos zero) pid mode = enter global (pos zero)
namespace (pos (suc n)) pid global = enter requester (pos (suc n))
namespace (pos (suc n)) pid requester = enter requester (pos (suc n))
namespace (pos (suc n)) pid isolate = enter isolate (pos (suc n))
namespace (negsuc (suc n)) pid global = enter requester (negsuc (suc n))
namespace (negsuc (suc n)) pid requester = enter requester (negsuc (suc n))
namespace (negsuc (suc n)) pid isolate = enter isolate (negsuc (suc n))

-- `env.find_first_of('\0', pos)` and the step behind it; `none` is npos.
unfoldable pub after_zero : Text → Option Text
after_zero [] = none
after_zero (c ∷ s) = if c == 0 then some s else after_zero s

-- The loop over /proc/PID/environ: what putenv is given. Each round takes a byte at least.
unfoldable pub env_loop : ℕ → Text → List Text
env_loop zero env = []
env_loop (suc fuel) [] = []
env_loop (suc fuel) (c ∷ env) =
    c_str (c ∷ env) ∷ elim (after_zero (c ∷ env)) [ none ↦ [] | some env' ↦ env_loop fuel env' ]

unfoldable pub env_vars : Text → List Text
env_vars env = env_loop (suc (length env)) env

-- argv of the shell.
unfoldable pub shell_argv : Request → List Text
shell_argv r =
    (if r.login then codes "-" else r.shell)
    ∷ (if no_command r.command then [] else codes "-c" ∷ r.command ∷ [])
