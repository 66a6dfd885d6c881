-- ===== src/Deny/Cli.antt =====
-- native/src/core/deny/cli.cpp: the daemon's side, `denylist_handler`, and the command line,
-- `denylist_cli`.
pub mod Codes
use kitsune_ufork.Common.{
  ℕ, ℤ, pos, negsuc, Bool, true, false, Option, none, some, List, [], ◌∷◌, Text, codes, str_eql,
  if◌then◌else◌,
}
use kitsune_ufork.Deny.State.{World, Deny}
use kitsune_ufork.Deny.Edit.{
  Response, ok, enforced, not_enforced, item_exist, item_not_exist, invalid_pkg, no_ns, error,
  sulist_enforced, sulist_not_enforced, sulist_no_disable, add_list_client, rm_list_client,
}
use kitsune_ufork.Deny.Listing.{Wire, code, ls_list}
use kitsune_ufork.Deny.Enforce.{enable_deny, disable_deny, update_sulist_config}

-- DenyRequest
pub data Request : Type 0 where
  enforce disable add remove list status sulist_status enforce_sulist disable_sulist : Request

-- The enum of DenyResponse as ints, and back; END and all else is ERROR.
unfoldable pub response_code : Response → ℕ
response_code ok = 0
response_code enforced = 1
response_code not_enforced = 2
response_code item_exist = 3
response_code item_not_exist = 4
response_code invalid_pkg = 5
response_code no_ns = 6
response_code error = 7
response_code sulist_enforced = 8
response_code sulist_not_enforced = 9
response_code sulist_no_disable = 10

abbrev nth_response : List Response → ℕ → Response
nth_response [] n = error
nth_response (r ∷ rs) n = elim n [ ℕ.zero ↦ r | ℕ.suc m ↦ nth_response rs m ]

unfoldable pub read_response : ℤ → Response
read_response (negsuc n) = error
read_response (pos n) =
    nth_response
      (ok ∷ enforced ∷ not_enforced ∷ item_exist ∷ item_not_exist ∷ invalid_pkg ∷ no_ns ∷ error
        ∷ sulist_enforced ∷ sulist_not_enforced ∷ sulist_no_disable ∷ [])
      n

-- A request as it was read: `none` is an int that names no request.
abbrev reply : Deny × Response → Deny × List Wire
reply (d, r) = (d, code r ∷ [])

unfoldable pub denylist_handler : World → Option Request → Text → Text → Deny → Deny × List Wire
denylist_handler w none pkg proc d = reply (d, error)
denylist_handler w (some enforce) pkg proc d = reply (enable_deny w d)
denylist_handler w (some disable) pkg proc d = reply (disable_deny d)
denylist_handler w (some add) pkg proc d = reply (add_list_client w pkg proc d)
denylist_handler w (some remove) pkg proc d = reply (rm_list_client w pkg proc d)
denylist_handler w (some list) pkg proc d = ls_list w d
denylist_handler w (some enforce_sulist) pkg proc d = reply (update_sulist_config true d, ok)
denylist_handler w (some disable_sulist) pkg proc d = reply (update_sulist_config false d, ok)
denylist_handler w (some status) pkg proc d =
    reply (d, if d.enforced then enforced else not_enforced)
denylist_handler w (some sulist_status) pkg proc d =
    reply (d, if d.sulist then sulist_enforced else sulist_not_enforced)

-- What the command line asks for. `send none` sends -1.
pub data Command : Type 0 where
  usage : Command
  run_isolated : Text → List Text → Command
  send : Option Request → Command

abbrev sulist_command : List Text → Command
sulist_command [] = send (some sulist_status)
sulist_command (arg ∷ rest) =
    if str_eql arg (codes "enable")
    then send (some enforce_sulist)
    else if str_eql arg (codes "disable")
    then send (some disable_sulist)
    else send none

abbrev exec_command : List Text → Command
exec_command [] = usage
exec_command (file ∷ args) = run_isolated file args

-- The arguments behind the program's name.
unfoldable pub parse_args : List Text → Command
parse_args [] = usage
parse_args (verb ∷ rest) =
    if str_eql verb (codes "enable")
    then send (some enforce)
    else if str_eql verb (codes "disable")
    then send (some disable)
    else if str_eql verb (codes "add")
    then send (some add)
    else if str_eql verb (codes "rm")
    then send (some remove)
    else if str_eql verb (codes "ls")
    then send (some list)
    else if str_eql verb (codes "status")
    then send (some status)
    else if str_eql verb (codes "sulist")
    then sulist_command rest
    else if str_eql verb (codes "exec")
    then exec_command rest
    else usage

abbrev flag : Bool → ℤ
flag true = pos 1
flag false = pos 0

-- The label return_code.
abbrev return_code : Option Request → Response → ℤ
return_code (some status) enforced = pos 0
return_code (some status) r = pos 1
return_code q ok = pos 0
return_code q r = pos 1

-- The exit code, from the int that the daemon answered.
abbrev exit_code_of : Option Request → Response → ℤ
exit_code_of q sulist_not_enforced = pos 1
exit_code_of q sulist_enforced = pos 0
exit_code_of q error = negsuc 0
exit_code_of q sulist_no_disable = negsuc 0
exit_code_of q r = return_code q r

unfoldable pub exit_code : Option Request → ℤ → ℤ
unfolding read_response
exit_code q res = exit_code_of q (read_response res)
