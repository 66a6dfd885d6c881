-- ===== src/Daemon/Examples.antt =====
-- The theorems on native/src/core/daemon.cpp at concrete inputs.
use kitsune_ufork.Common.{◌≡◌, refl, ◌⊎◌, true, pos, some, List, [], ◌∷◌, all, codes, str_eql}
use kitsune_ufork.OrderedMap.{int_key, find, put, erase}
use kitsune_ufork.Daemon.{
  Client, Respond, write, respond_code, handle_request, refused, first_int, connected,
}
use kitsune_ufork.Daemon.Access.{permitted, handle_request-permitted, handle_request_refused}
use kitsune_ufork.Daemon.Poll.{
  Table, Control, poll_ctrl_new, poll_ctrl_rm, register_poll, unregister_poll, try_emplace,
  poll_ctrl_handler, handle_all, IsTable, handle_all-IsTable,
}

abbrev app : Client
app = record {
  has_cred = true;
  uid = 10123;
  context = codes "u:r:untrusted_app:s0";
  same_exe = true;
  sent_code = pos 8;
  do_reboot = pos 0;
}

handle_request-permitted_example : all (permitted app) (handle_request (codes "0") app) ≡ true
handle_request-permitted_example = handle_request-permitted (codes "0") app

handle_request_refused_example :
    (handle_request (codes "0") app ≡ [])
    ⊎ ((r : Respond) × (handle_request (codes "0") app ≡ write (respond_code r) ∷ []))
unfolding handle_request refused first_int connected str_eql
handle_request_refused_example = handle_request_refused (codes "0") app refl

abbrev no_fds : Table
no_fds = record { poll_map = []; poll_fds = []; closed = [] }

abbrev messages : List Control
messages = poll_ctrl_new 5 1 ∷ poll_ctrl_rm (some 5) true ∷ poll_ctrl_new 5 2 ∷ []

handle_all-IsTable_example : IsTable (handle_all messages no_fds)
unfolding register_poll unregister_poll try_emplace poll_ctrl_handler find put erase
handle_all-IsTable_example = handle_all-IsTable messages no_fds (refl, (refl, tt)) (λ fd. refl)
