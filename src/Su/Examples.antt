-- ===== src/Su/Examples.antt =====
-- The theorems on native/src/core/su/su.cpp at concrete inputs.
use kitsune_ufork.Common.{
  ℕ, negsuc, ◌≡◌, refl, Option, true, false, none, [], ◌∷◌, Text, codes, str_eql,
}
use kitsune_ufork.Base.Number.{parse_int, parse_loop, digit_value}
use kitsune_ufork.Su.{new_request, parsed, su_request}
use kitsune_ufork.Su.Shell.{Identity, Calls, set_id, primary, set_identity}
use kitsune_ufork.Su.Users.{unknown_user_kept}

abbrev nobody : Text → Option ℕ
nobody name = none

abbrev works : Calls
works = record { seteuid_ok = true; setgroups_ok = true; setresgid_ok = true; setresuid_ok = true }

abbrev root : Identity
root = record { uid = 0; gid = 0; groups = [] }

unknown_user_kept_example :
    (su_request nobody [] (codes "nobody" ∷ [])
      ≡ parsed (record new_request { target_uid = negsuc 0 }) false)
    × (root.uid ≡ root.uid)
    × (root.gid ≡ root.gid)
unfolding set_identity set_id primary str_eql parse_int parse_loop digit_value
unknown_user_kept_example =
    unknown_user_kept nobody (codes "nobody") works root root refl refl refl refl
