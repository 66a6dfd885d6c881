-- ===== src/Deny/Cli/Codes.antt =====
-- From the reply of the daemon to the exit code of native/src/core/deny/cli.cpp.
use kitsune_ufork.Common.{
  ℤ, pos, negsuc, Bool, true, false, some, List, [], ◌∷◌, ◌≡◌, ◌↔◌, ◌⊎◌, refl, arith, Text,
  if◌then◌else◌,
}
use kitsune_ufork.Deny.State.{World, Deny}
use kitsune_ufork.Deny.Edit.{Response, ok, sulist_enforced}
use kitsune_ufork.Deny.Listing.{Wire, code, number, bytes}
use kitsune_ufork.Deny.Cli.{
  Request, list, status, sulist_status, response_code, read_response, exit_code, denylist_handler,
}

-- Every reply survives its encoding as an int.
pub read_response-response_code : (r : Response) → read_response (pos (response_code r)) ≡ r
unfolding read_response response_code
read_response-response_code ok = refl
read_response-response_code r = refl

-- What the client reads first.
abbrev pub first_int : List Wire → ℤ
first_int [] = negsuc 0
first_int (code r ∷ ws) = pos (response_code r)
first_int (number n ∷ ws) = pos n
first_int (bytes b ∷ ws) = negsuc 0

-- The exit code of a request.
abbrev pub run_cli : World → Request → Text → Text → Deny → ℤ
run_cli w q pkg proc d = exit_code (some q) (first_int (denylist_handler w (some q) pkg proc d).1)

-- `magiskhide status` exits with 0 exactly when the list is enforced, `magiskhide sulist` exactly
-- when the SuList is on, and with 1 otherwise.
pub run_cli-status :
    (w : World) (pkg proc : Text) (d : Deny)
    → (run_cli w status pkg proc d ≡ (if d.enforced then pos 0 else pos 1))
      × (run_cli w sulist_status pkg proc d ≡ (if d.sulist then pos 0 else pos 1))
unfolding denylist_handler exit_code response_code
run_cli-status w pkg proc d = (ground arith, ground arith)

abbrev pub is_edit : Request → Bool
is_edit status = false
is_edit sulist_status = false
is_edit list = false
is_edit q = true

-- Of a request that changes something the command exits with 0 exactly when the daemon answered OK
-- (or SULIST_ENFORCED, which only `sulist` is answered).
pub exit_code-edit :
    (q : Request) (r : Response)
    → is_edit q ≡ true
    → (exit_code (some q) (pos (response_code r)) ≡ pos 0) ↔ ((r ≡ ok) ⊎ (r ≡ sulist_enforced))
unfolding exit_code response_code
exit_code-edit q r e = (λ h. ground (arith, h), λ h. ground (arith, h))
