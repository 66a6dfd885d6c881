-- ===== src/Su/Environment.antt =====
-- The environment and the streams that the shell of native/src/core/su/su.cpp starts with.
use kitsune_ufork.Common.{
  ℕ, zero, suc, ◌<◌, ◌≡◌, refl, Bool, true, not, some, List, [], ◌∷◌, ◌++◌, Text, arith, all,
  length, length-append, c_str, ◌==◌,
}
use kitsune_ufork.OrderedMap.{is_some}
use kitsune_ufork.Su.{Request}
use kitsune_ufork.Su.Shell.{send_stream, fill_stream, shell_streams, after_zero, env_loop, env_vars}

-- /proc/PID/environ: each string with its zero byte.
abbrev pub environ : List Text → Text
environ [] = []
environ (v ∷ vars) = v ++ (0 ∷ environ vars)

abbrev pub no_zero : Text → Bool
no_zero s = all (λ (c : ℕ). not (c == 0)) s

c_str-environ : (v env : Text) → no_zero v ≡ true → c_str (v ++ (0 ∷ env)) ≡ v
unfolding c_str
c_str-environ [] env h = refl
c_str-environ (c ∷ v) env h = ground (arith, h, c_str-environ v env)

after_zero-environ : (v env : Text) → no_zero v ≡ true → after_zero (v ++ (0 ∷ env)) ≡ some env
unfolding after_zero
after_zero-environ [] env h = refl
after_zero-environ (c ∷ v) env h = ground (arith, h, after_zero-environ v env)

env_loop-environ :
    (fuel : ℕ) (vars : List Text)
    → length (environ vars) < fuel
    → all no_zero vars ≡ true
    → env_loop fuel (environ vars) ≡ vars
unfolding env_loop
env_loop-environ zero vars l h = absurd (omega arith)
env_loop-environ (suc fuel) [] l h = refl
env_loop-environ (suc fuel) ([] ∷ vars) l h = ground (
  arith,
  h,
  l,
  c_str-environ [] (environ vars),
  after_zero-environ [] (environ vars),
  env_loop-environ fuel vars,
)
env_loop-environ (suc fuel) ((c ∷ v) ∷ vars) l h = ground (
  arith,
  h,
  l,
  c_str-environ (c ∷ v) (environ vars),
  after_zero-environ (c ∷ v) (environ vars),
  length-append v (0 ∷ environ vars),
  env_loop-environ fuel vars,
)

-- The variables that the shell is given are those of the caller's environ file, in order, empty
-- ones included, when no variable holds a zero byte.
pub env_vars-environ : (vars : List Text) → all no_zero vars ≡ true → env_vars (environ vars) ≡ vars
unfolding env_vars
env_vars-environ vars h = env_loop-environ (suc (length (environ vars))) vars (omega arith) h

-- Whichever of the client's streams are terminals, each stream of the shell is open: the pty is
-- asked for exactly when one of them is left to it.
pub shell_streams_open :
    (r : Request) (i in_tty out_tty err_tty : Bool) (pts : ℕ)
    → all is_some (shell_streams r i in_tty out_tty err_tty pts) ≡ true
unfolding shell_streams send_stream fill_stream
shell_streams_open r i in_tty out_tty err_tty pts = ground arith
