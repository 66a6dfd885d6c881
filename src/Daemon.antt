-- ===== src/Daemon.antt =====
-- The daemon's socket: native/src/core/daemon.cpp, with the numbers of
-- native/src/core/include/core.hpp and native/src/core/lib.rs.
pub mod Access
pub mod Bridge
pub mod Poll
mod Examples
use kitsune_ufork.Common.{
  ℕ, zero, suc, ℤ, pos, negsuc, Bool, true, false, not, ◌&&◌, ◌||◌, Option, none, some, List, [],
  ◌∷◌, ◌++◌, Text, codes, str_eql, length, drop, leb, ltb, ◌==◌, if◌then◌else◌,
}

-- RequestCode: _SYNC_BARRIER_ is 4, _STAGE_BARRIER_ is 11 and END is 15.
abbrev pub sync_barrier : ℕ
sync_barrier = 4

abbrev pub stage_barrier : ℕ
stage_barrier = 11

abbrev pub end_code : ℕ
end_code = 15

-- RespondCode
pub data Respond : Type 0 where
  respond_ok root_required access_denied : Respond

abbrev pub respond_code : Respond → ℤ
respond_code respond_ok = pos 0
respond_code root_required = pos 1
respond_code access_denied = pos 2

-- What handling a request does, in order.
pub data Effect : Type 0 where
  write : ℤ → Effect
  write_version setup_logfile deny_request deny_shutdown terminate : Effect
  set_bridge : Text → Effect
  su_request prune_su_access scan_deny_apps zygisk_reset close_client : Effect
  db_request remove_modules reboot zygisk_request : Effect
  boot_stage : ℕ → Effect
  unreachable : Effect

abbrev pub zygiskldr : Text
zygiskldr = codes "libzygisk.so"

-- STOP_DAEMON's part on the native bridge property `nb`.
unfoldable pub restore_bridge : Text → List Effect
restore_bridge nb =
    if str_eql nb zygiskldr
    then set_bridge (codes "0") ∷ []
    else if ltb (length zygiskldr) (length nb)
    then set_bridge (drop (length zygiskldr) nb) ∷ []
    else []

-- What load_modules of native/src/core/module.cpp sets the property to, and what
-- restore_zygisk_prop of native/src/core/zygisk/entry.cpp sets it back to.
unfoldable pub zygisk_bridge : Text → Text
zygisk_bridge [] = zygiskldr
zygisk_bridge (c ∷ orig) =
    if not (str_eql (c ∷ orig) (codes "0")) then zygiskldr ++ (c ∷ orig) else zygiskldr

unfoldable pub restore_zygisk_prop : Text → Text
restore_zygisk_prop native_bridge =
    if ltb (length zygiskldr) (length native_bridge)
    then drop (length zygiskldr) native_bridge
    else codes "0"

-- `write_version` stands for writing the version's string or code.
unfoldable pub handle_request_sync : Text → ℕ → List Effect
handle_request_sync nb code =
    if code == 1
    then write_version ∷ []
    else if code == 2
    then write_version ∷ []
    else if code == 0
    then setup_logfile ∷ []
    else if code == 3
    then (deny_shutdown ∷ restore_bridge nb) ++ (write (pos 0) ∷ terminate ∷ [])
    else unreachable ∷ []

-- `do_reboot` is the int that REMOVE_MODULES reads from the client.
unfoldable pub handle_request_async : ℤ → ℕ → List Effect
handle_request_async do_reboot code =
    if code == 7
    then deny_request ∷ []
    else if code == 5
    then su_request ∷ []
    else if code == 6
    then prune_su_access ∷ scan_deny_apps ∷ zygisk_reset ∷ close_client ∷ []
    else if code == 8
    then db_request ∷ []
    else if code == 9
    then (remove_modules ∷ write (pos 0) ∷ close_client ∷ []) ++ rebooted do_reboot
    else if code == 10
    then zygisk_request ∷ []
    else unreachable ∷ []
  where
    rebooted : ℤ → List Effect
    rebooted (pos zero) = []
    rebooted (pos (suc n)) = reboot ∷ []
    rebooted (negsuc n) = reboot ∷ []

-- A client: what SO_PEERCRED and SO_PEERSEC say, whether its executable is the daemon's, and the
-- ints that it sends.
pub record Client : Type 0 where
  pub has_cred : Bool
  pub uid : ℕ
  pub context : Text
  pub same_exe : Bool
  pub sent_code : ℤ
  pub do_reboot : ℤ

abbrev pub is_root : Client → Bool
is_root c = c.uid == 0

abbrev pub is_zygote : Client → Bool
is_zygote c = str_eql c.context (codes "u:r:zygote:s0")

-- The permission switch: the refusal, or `none`.
unfoldable pub refused : Client → ℕ → Option Respond
refused c code =
    if leb 12 code && leb code 14 || (code == 6 || (code == 8 || (code == 7 || code == 3)))
    then if is_root c then none else some root_required
    else if code == 9
    then if not (is_root c) && not (c.uid == 2000) then some access_denied else none
    else if code == 10
    then if is_zygote c then none else some access_denied
    else none

unfoldable pub dispatch : Text → ℤ → ℕ → List Effect
dispatch nb do_reboot code =
    if ltb code sync_barrier
    then handle_request_sync nb code
    else if ltb code stage_barrier
    then handle_request_async do_reboot code
    else boot_stage code ∷ []

-- handle_request, with the native bridge property `nb`. The tasks that exec_task is given are
-- run in place.
unfoldable pub handle_request : Text → Client → List Effect
handle_request nb c =
    if not c.has_cred
    then []
    else if not (is_root c) && (not (is_zygote c) && not c.same_exe)
    then write (respond_code access_denied) ∷ []
    else elim c.sent_code [
      | negsuc n ↦ []
      | pos code ↦
          if leb end_code code || (code == sync_barrier || code == stage_barrier)
          then []
          else elim (refused c code) [
            | some r ↦ write (respond_code r) ∷ []
            | none ↦ write (respond_code respond_ok) ∷ dispatch nb c.do_reboot code
          ]
    ]

-- read_int in connect_daemon: the first int the daemon wrote, or -1 when it wrote none.
unfoldable pub first_int : List Effect → ℤ
first_int [] = negsuc 0
first_int (write n ∷ es) = n
first_int (e ∷ es) = first_int es

-- The end of connect_daemon: whether it returns the socket.
unfoldable pub connected : ℤ → Bool
connected (pos zero) = true
connected (pos (suc n)) = false
connected (negsuc n) = false
