-- ===== src/Deny/Procs.antt =====
-- Walks over /proc: `crawl_procfs`, `kill_process` and its matchers of
-- native/src/core/deny/utils.cpp.
use kitsune_ufork.Common.{
  ℕ, Bool, true, false, Option, none, some, List, [], ◌∷◌, Text, str_starts, ltb, if◌then◌else◌,
}
use kitsune_ufork.Deny.State.{Process, World, hide_environment, hide_modules, kill, Deny, emit}

-- A matcher opens a file of the process and compares what it read.
abbrev pub Matcher : Type 0
Matcher = Process → Text → Bool

abbrev read_matches : (Text → Text → Bool) → Option Text → Text → Bool
read_matches op none name = false
read_matches op (some buf) name = op buf name

unfoldable pub proc_name_match : (Text → Text → Bool) → Matcher
proc_name_match op p name = read_matches op p.cmdline name

unfoldable pub proc_context_match : Matcher
proc_context_match p context = read_matches str_starts p.context context

-- The callback returns false to end the walk; a number that is not positive is skipped.
unfoldable pub crawl_procfs : List Process → (Process → Deny → Deny × Bool) → Deny → Deny
crawl_procfs [] fn d = d
crawl_procfs (p ∷ ps) fn d =
    let (d', more) = fn p d in
    let next = crawl_procfs ps fn d' in
    let skip = crawl_procfs ps fn d in if ltb 0 p.pid then if more then next else d' else skip

unfoldable pub kill_process : World → Matcher → Text → Bool → Deny → Deny
unfolding crawl_procfs
kill_process w matcher name multi =
    crawl_procfs w.procs λ p d. if matcher p name then (emit (kill p.pid) d, multi) else (d, true)

abbrev hide_one : Option ℕ → ℕ → Deny → Deny
hide_one none pid d = d
hide_one (some uid) pid d = emit (hide_modules pid uid) (emit (hide_environment pid) d)

-- The walk of `add_hide_set` over every process.
unfoldable pub hide_all : World → Deny → Deny
unfolding crawl_procfs
hide_all w = crawl_procfs w.procs λ p d. (hide_one p.uid p.pid d, true)
