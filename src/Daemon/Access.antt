-- ===== src/Daemon/Access.antt =====
-- Who may have which request of native/src/core/daemon.cpp served, and what the client learns.
use kitsune_ufork.Common.{
  ℕ, ℤ, pos, negsuc, ◌≡◌, refl, ◌⊎◌, inl, inr, Bool, true, false, not, ◌&&◌, ◌||◌, none, [], ◌∷◌,
  Text, arith, all, all-append, leb, ltb, ◌==◌, Bool-cases, Option-cases,
}
use kitsune_ufork.Daemon.{
  Effect, write, write_version, setup_logfile, deny_request, deny_shutdown, terminate, set_bridge,
  su_request, prune_su_access, scan_deny_apps, zygisk_reset, close_client, db_request,
  remove_modules, reboot, zygisk_request, boot_stage, unreachable, Client, is_root, is_zygote,
  restore_bridge, refused, dispatch, handle_request, handle_request_sync, handle_request_async,
  first_int, connected, respond_code, Respond, access_denied,
}

-- What an effect asks of the client that causes it.
abbrev pub permitted : Client → Effect → Bool
permitted c (write n) = true
permitted c write_version = true
permitted c setup_logfile = true
permitted c deny_request = is_root c
permitted c deny_shutdown = is_root c
permitted c terminate = is_root c
permitted c (set_bridge nb) = is_root c
permitted c su_request = true
permitted c prune_su_access = is_root c
permitted c scan_deny_apps = is_root c
permitted c zygisk_reset = is_root c
permitted c close_client = (is_root c || (c.uid == 2000))
permitted c db_request = is_root c
permitted c remove_modules = (is_root c || (c.uid == 2000))
permitted c reboot = (is_root c || (c.uid == 2000))
permitted c zygisk_request = is_zygote c
permitted c (boot_stage code) = is_root c
permitted c unreachable = false

bridge_permitted :
    (nb : Text) (c : Client) → is_root c ≡ true → all (permitted c) (restore_bridge nb) ≡ true
unfolding restore_bridge
bridge_permitted nb c h = ground (arith, h)

sync_permitted :
    (nb : Text) (c : Client) (code : ℕ)
    → ltb code 4 ≡ true
    → refused c code ≡ none
    → all (permitted c) (handle_request_sync nb code) ≡ true
unfolding handle_request_sync refused
sync_permitted nb c code h r = ground (
  arith,
  h,
  r,
  bridge_permitted nb c,
  all-append (permitted c) (deny_shutdown ∷ restore_bridge nb) (write (pos 0) ∷ terminate ∷ []),
)

async_permitted :
    (c : Client) (code : ℕ)
    → ltb 4 code ≡ true
    → ltb code 11 ≡ true
    → refused c code ≡ none
    → all (permitted c) (handle_request_async c.do_reboot code) ≡ true
unfolding handle_request_async refused
async_permitted c code h k r = ground (arith, h, k, r)

stage_permitted :
    (c : Client) (code : ℕ)
    → ltb 11 code ≡ true
    → ltb code 15 ≡ true
    → refused c code ≡ none
    → all (permitted c) (boot_stage code ∷ []) ≡ true
unfolding refused
stage_permitted c code h k r = ground (arith, h, k, r)

-- Whatever a client sends, and whatever the native bridge property is, each effect of its request is one its credentials permit: the boot
-- stages, the database, the denylist and stopping the daemon need root; modules are removed and
-- the device is rebooted for root or the shell; only zygote reaches the zygisk handler; and no
-- request reaches a `__builtin_unreachable()`.
pub handle_request-permitted :
    (nb : Text) (c : Client) → all (permitted c) (handle_request nb c) ≡ true
unfolding handle_request dispatch
handle_request-permitted nb c = by_code c.sent_code refl
  where
    by_code : (code : ℤ) → c.sent_code ≡ code → all (permitted c) (handle_request nb c) ≡ true
    by_code (negsuc n) e = ground (arith, e)
    by_code (pos n) e =
        ground (arith, e, sync_permitted nb c n, async_permitted c n, stage_permitted c n)

-- A client for which connect_daemon does not return a socket has caused nothing: the daemon has
-- at most written the refusal.
pub handle_request_refused :
    (nb : Text) (c : Client)
    → connected (first_int (handle_request nb c)) ≡ false
    → (handle_request nb c ≡ [])
      ⊎ ((r : Respond) × (handle_request nb c ≡ write (respond_code r) ∷ []))
unfolding handle_request first_int connected
handle_request_refused nb c h = by_code c.sent_code refl
  where
    by_code :
        (code : ℤ)
        → c.sent_code ≡ code
        → (handle_request nb c ≡ [])
          ⊎ ((r : Respond) × (handle_request nb c ≡ write (respond_code r) ∷ []))
    by_code (negsuc n) e = elim (Bool-cases c.has_cred) [
      | inl a ↦ elim (Bool-cases (not (is_root c) && (not (is_zygote c) && not c.same_exe))) [
        | inl b ↦ inr (access_denied, ground (arith, a, b))
        | inr b ↦ inl (ground (arith, a, b, e))
      ]
      | inr a ↦ inl (ground (arith, a))
    ]
    by_code (pos n) e = elim (Bool-cases c.has_cred) [
      | inl a ↦ elim (Bool-cases (not (is_root c) && (not (is_zygote c) && not c.same_exe))) [
        | inl b ↦ inr (access_denied, ground (arith, a, b))
        | inr b ↦ elim (Bool-cases (leb 15 n || (n == 4 || n == 11))) [
          | inl d ↦ inl (ground (arith, a, b, e, d))
          | inr d ↦ elim (Option-cases (refused c n)) [
            | inl r ↦ absurd (ground (arith, h, a, b, e, d, r))
            | inr (r, o) ↦ inr (r, ground (arith, a, b, e, d, o))
          ]
        ]
      ]
      | inr a ↦ inl (ground (arith, a))
    ]
