-- ===== src/Su.antt =====
-- The client of su, `su_client_main` of native/src/core/su/su.cpp: the command line becomes a
-- request. getopt_long and getpwnam are the C library's: what they give is an argument.
pub mod Shell
pub mod Users
pub mod Environment
mod Examples
use kitsune_ufork.Common.{
  ℕ, zero, suc, ℤ, pos, negsuc, Bool, true, false, not, ◌&&◌, ◌||◌, Option, none, some, List, [],
  ◌∷◌, ◌++◌, Text, codes, str_eql, length, ◌==◌, if◌then◌else◌,
}
use kitsune_ufork.Base.Number.{Outcome, value, overflow, parse_int}

-- SuRequest
pub record Request : Type 0 where
  pub target_uid : ℤ
  pub target_pid : ℤ
  pub login : Bool
  pub keep_env : Bool
  pub shell : Text
  pub command : Text
  pub context : Text
  pub gids : List ℕ

-- SuRequest::New
abbrev pub new_request : Request
new_request = record {
  target_uid = pos 0;
  target_pid = negsuc 0;
  login = false;
  keep_env = false;
  shell = codes "/system/bin/sh";
  command = [];
  context = [];
  gids = [];
}

-- The loop over argv before getopt_long.
unfoldable pub old_spelling : Text → Text
old_spelling arg =
    if str_eql arg (codes "-cn") || str_eql arg (codes "-z")
    then codes "-Z"
    else if str_eql arg (codes "-mm")
    then codes "-M"
    else arg

-- One result of getopt_long; `command` comes with argv from optind - 1 on.
pub data Opt : Type 0 where
  command_opt : List Text → Opt
  help interactive_opt login_opt preserve : Opt
  shell_opt : Text → Opt
  version_code version : Opt
  context_opt : Text → Opt
  mount_master : Opt
  target group supp_group : Text → Opt
  bad : Opt

-- The request so far with `interactive`, an exit of the client, or an int that overflows.
pub data Parsed : Type 0 where
  parsed : Request → Bool → Parsed
  exits : ℕ → Parsed
  undefined : Parsed

-- The words of the command, a space between them.
unfoldable pub join : Text → List Text → Text
join command [] = command
join [] (w ∷ words) = join w words
join (c ∷ command) (w ∷ words) = join ((c ∷ command) ++ (b' ' ∷ w)) words

abbrev is_unset : ℤ → Bool
is_unset (pos n) = false
is_unset (negsuc zero) = true
is_unset (negsuc (suc n)) = false

abbrev starts_minus : Text → Bool
starts_minus [] = false
starts_minus (c ∷ s) = c == b'-'

-- The case of -M and -t; `none` is a null optarg.
unfoldable pub set_target : Option Text → Request → Bool → Parsed
set_target arg r i = if not (is_unset r.target_pid) then exits 1 else elim arg [
  | none ↦ parsed (record r { target_pid = pos 0 }) i
  | some s ↦ elim (parse_int s) [
    | value v ↦
        if starts_minus s || is_unset v then exits 1 else parsed (record r { target_pid = v }) i
    | overflow ↦ undefined
  ]
]

-- The case of -g and -G. The vector that they insert into is new and empty, so that the position
-- which differs between the two is the same.
unfoldable pub add_group : Text → Request → Bool → Parsed
add_group arg r i = elim (parse_int arg) [
  | value (pos gid) ↦ parsed (record r { gids = r.gids ++ (gid ∷ []) }) i
  | value (negsuc n) ↦ exits 1
  | overflow ↦ undefined
]

unfoldable pub take_opt : Opt → Request → Bool → Parsed
take_opt (command_opt words) r i = parsed (record r { command = join [] words }) i
take_opt help r i = exits 0
take_opt interactive_opt r i = parsed r true
take_opt login_opt r i = parsed (record r { login = true }) i
take_opt preserve r i = parsed (record r { keep_env = true }) i
take_opt (shell_opt arg) r i = parsed (record r { shell = arg }) i
take_opt version_code r i = exits 0
take_opt version r i = exits 0
take_opt (context_opt arg) r i = parsed (record r { context = arg }) i
take_opt mount_master r i = set_target none r i
take_opt (target arg) r i = set_target (some arg) r i
take_opt (group arg) r i = add_group arg r i
take_opt (supp_group arg) r i = add_group arg r i
take_opt bad r i = exits 2

abbrev pub is_command : Opt → Bool
is_command (command_opt words) = true
is_command o = false

-- The loop over the options. -c takes all of argv that is left: `optind = argc` ends the loop.
unfoldable pub take_opts : List Opt → Request → Bool → Parsed
take_opts [] r i = parsed r i
take_opts (o ∷ opts) r i = elim (take_opt o r i) [
  | parsed r' i' ↦ let more = take_opts opts r' i' in if is_command o then parsed r' i' else more
  | exits n ↦ exits n
  | undefined ↦ undefined
]

-- The user's name or uid; `getpwnam` is the C library's.
unfoldable pub take_user : (Text → Option ℕ) → List Text → Request → Bool → Parsed
take_user getpwnam [] r i = parsed r i
take_user getpwnam (name ∷ args) r i = elim (getpwnam name) [
  | some uid ↦ parsed (record r { target_uid = pos uid }) i
  | none ↦ elim (parse_int name) [
    | value v ↦ parsed (record r { target_uid = v }) i
    | overflow ↦ undefined
  ]
]

-- What follows the options: "-" first, then the user.
unfoldable pub take_rest : (Text → Option ℕ) → List Text → Request → Bool → Parsed
take_rest getpwnam [] r i = parsed r i
take_rest getpwnam (arg ∷ args) r i =
    if str_eql arg (codes "-")
    then take_user getpwnam args (record r { login = true }) i
    else take_user getpwnam (arg ∷ args) r i

-- argv from optind on after the loop, where `args` is what follows options without -c.
unfoldable pub args_left : List Opt → List Text → List Text
args_left [] args = args
args_left (o ∷ opts) args = let more = args_left opts args in if is_command o then [] else more

unfoldable pub su_request : (Text → Option ℕ) → List Opt → List Text → Parsed
su_request getpwnam opts args = elim (take_opts opts new_request false) [
  | parsed r i ↦ take_rest getpwnam (args_left opts args) r i
  | exits n ↦ exits n
  | undefined ↦ undefined
]
