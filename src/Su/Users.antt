-- ===== src/Su/Users.antt =====
-- Whom the shell of native/src/core/su/su.cpp runs as, and in whose namespace.
use kitsune_ufork.Common.{
  ℕ, zero, suc, ◌+◌, ◌≤◌, ℤ, pos, negsuc, ◌≡◌, refl, Bool, true, false, Option, none, some, List,
  [], ◌∷◌, Text, codes, arith, str_eql, if◌then◌else◌, Bool-cases, inl, inr,
}
use kitsune_ufork.Base.Number.{value, parse_int}
use kitsune_ufork.Su.{
  Request, new_request, Opt, command_opt, help, interactive_opt, login_opt, preserve, shell_opt,
  version_code, version, context_opt, mount_master, target, group, supp_group, bad, Parsed, parsed,
  exits, undefined, set_target, add_group, take_opt, take_opts, take_user, take_rest, su_request,
  args_left, is_command,
}
use kitsune_ufork.Su.Shell.{Identity, Calls, set_id, primary, set_identity}

-- A shell that starts has the uid asked for, and for its gid the first group of the request, or
-- that uid; when a call fails none starts.
pub set_identity_lem :
    (calls : Calls) (uid : ℕ) (gids : List ℕ) (id id' : Identity)
    → set_identity calls (pos uid) gids id ≡ some id'
    → (id'.uid ≡ uid) × (pos id'.gid ≡ primary (pos uid) gids)
unfolding set_identity set_id primary
set_identity_lem calls uid [] id id' h = ground (arith, h)
set_identity_lem calls uid (g ∷ gids) id id' h = ground (arith, h)

-- A user that is neither known, nor a number, nor "-" is taken for uid -1, with which a shell that
-- starts, and is given no groups, keeps the daemon's uid and gid.
pub unknown_user_kept :
    (getpwnam : Text → Option ℕ) (name : Text) (calls : Calls) (id id' : Identity)
    → str_eql name (codes "-") ≡ false
    → getpwnam name ≡ none
    → parse_int name ≡ value (negsuc 0)
    → set_identity calls (negsuc 0) [] id ≡ some id'
    → (su_request getpwnam [] (name ∷ [])
        ≡ parsed (record new_request { target_uid = negsuc 0 }) false)
      × (id'.uid ≡ id.uid)
      × (id'.gid ≡ id.gid)
unfolding su_request take_opts args_left take_rest take_user set_identity set_id primary
unknown_user_kept getpwnam name calls id id' a b c h =
    (ground (arith, a, b, c), ground (arith, h), ground (arith, h))

-- A group given with -g after one given with -G is not the primary group.
pub group_second :
    (getpwnam : Text → Option ℕ) (a b : Text) (g h : ℕ)
    → parse_int a ≡ value (pos g)
    → parse_int b ≡ value (pos h)
    → (su_request getpwnam (supp_group a ∷ group b ∷ []) []
        ≡ parsed (record new_request { gids = g ∷ h ∷ [] }) false)
      × (primary (pos 0) (g ∷ h ∷ []) ≡ pos g)
unfolding su_request take_opts take_opt args_left add_group take_rest primary
group_second getpwnam a b g h p q = (ground (arith, p, q), refl)

-- The options that choose a namespace, up to the first -c.
abbrev pub targets : List Opt → ℕ
targets [] = 0
targets (command_opt words ∷ opts) = 0
targets (mount_master ∷ opts) = suc (targets opts)
targets (target arg ∷ opts) = suc (targets opts)
targets (o ∷ opts) = targets opts

abbrev unset : ℤ → Bool
unset (negsuc zero) = true
unset (negsuc (suc n)) = false
unset (pos n) = false

abbrev spare : Request → ℕ
spare r = if unset r.target_pid then 1 else 0

-- Each such option uses up the one place there is.
take_opt-spare :
    (o : Opt) (r r' : Request) (i i' : Bool)
    → take_opt o r i ≡ parsed r' i'
    → targets (o ∷ []) + spare r' ≤ spare r
unfolding take_opt set_target add_group
take_opt-spare (command_opt words) r r' i i' h = ground (arith, h)
take_opt-spare help r r' i i' h = ground (arith, h)
take_opt-spare interactive_opt r r' i i' h = ground (arith, h)
take_opt-spare login_opt r r' i i' h = ground (arith, h)
take_opt-spare preserve r r' i i' h = ground (arith, h)
take_opt-spare (shell_opt arg) r r' i i' h = ground (arith, h)
take_opt-spare version_code r r' i i' h = ground (arith, h)
take_opt-spare version r r' i i' h = ground (arith, h)
take_opt-spare (context_opt arg) r r' i i' h = ground (arith, h)
take_opt-spare mount_master r r' i i' h = ground (arith, h)
take_opt-spare (target arg) r r' i i' h = ground (arith, h)
take_opt-spare (group arg) r r' i i' h = ground (arith, h)
take_opt-spare (supp_group arg) r r' i i' h = ground (arith, h)
take_opt-spare bad r r' i i' h = ground (arith, h)

targets-cons : (o : Opt) (opts : List Opt) → targets (o ∷ opts) ≤ targets (o ∷ []) + targets opts
targets-cons (command_opt words) opts = omega arith
targets-cons help opts = omega arith
targets-cons interactive_opt opts = omega arith
targets-cons login_opt opts = omega arith
targets-cons preserve opts = omega arith
targets-cons (shell_opt arg) opts = omega arith
targets-cons version_code opts = omega arith
targets-cons version opts = omega arith
targets-cons (context_opt arg) opts = omega arith
targets-cons mount_master opts = omega arith
targets-cons (target arg) opts = omega arith
targets-cons (group arg) opts = omega arith
targets-cons (supp_group arg) opts = omega arith
targets-cons bad opts = omega arith

targets-command : (o : Opt) (opts : List Opt) → is_command o ≡ true → targets (o ∷ opts) ≡ 0
targets-command (command_opt words) opts h = ground (arith, h)
targets-command help opts h = ground (arith, h)
targets-command interactive_opt opts h = ground (arith, h)
targets-command login_opt opts h = ground (arith, h)
targets-command preserve opts h = ground (arith, h)
targets-command (shell_opt arg) opts h = ground (arith, h)
targets-command version_code opts h = ground (arith, h)
targets-command version opts h = ground (arith, h)
targets-command (context_opt arg) opts h = ground (arith, h)
targets-command mount_master opts h = ground (arith, h)
targets-command (target arg) opts h = ground (arith, h)
targets-command (group arg) opts h = ground (arith, h)
targets-command (supp_group arg) opts h = ground (arith, h)
targets-command bad opts h = ground (arith, h)

take_opts-spare :
    (opts : List Opt) (r r' : Request) (i i' : Bool)
    → take_opts opts r i ≡ parsed r' i'
    → targets opts + spare r' ≤ spare r
unfolding take_opts
take_opts-spare [] r r' i i' h = ground (arith, h)
take_opts-spare (o ∷ opts) r r' i i' h =
    by_step (λ r1 i1. take_opts-spare opts r1 r' i1 i') (take_opt o r i) refl
  where
    by_step :
        ((r1 : Request) (i1 : Bool)
          → take_opts opts r1 i1 ≡ parsed r' i'
          → targets opts + spare r' ≤ spare r1)
        → (p : Parsed) → take_opt o r i ≡ p
        → targets (o ∷ opts) + spare r' ≤ spare r
    by_step later (parsed r1 i1) e = elim (Bool-cases (is_command o)) [
      | inl last ↦
          let same : r1 ≡ r' = ground (arith, h, e, last) in
          omega (arith, targets-command o opts last, take_opt-spare o r r' i i1 (rw⁻¹ same e))
      | inr more ↦
          let l = later r1 i1 (ground (arith, h, e, more)) in
          omega (arith, targets-cons o opts, take_opt-spare o r r1 i i1 e, l)
    ]
    by_step later (exits n) e = absurd (ground (arith, h, e))
    by_step later undefined e = absurd (ground (arith, h, e))

-- A command line that becomes a request has one at most of the options -M, -mm and -t; with two
-- the client exits.
pub su_request-targets :
    (getpwnam : Text → Option ℕ) (opts : List Opt) (args : List Text) (r : Request) (i : Bool)
    → su_request getpwnam opts args ≡ parsed r i
    → targets opts ≤ 1
unfolding su_request
su_request-targets getpwnam opts args r i h = by_opts (take_opts opts new_request false) refl
  where
    by_opts : (p : Parsed) → take_opts opts new_request false ≡ p → targets opts ≤ 1
    by_opts (parsed r1 i1) e = omega (arith, take_opts-spare opts new_request r1 false i1 e)
    by_opts (exits n) e = absurd (ground (arith, h, e))
    by_opts undefined e = absurd (ground (arith, h, e))
