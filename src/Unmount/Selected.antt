-- ===== src/Unmount/Selected.antt =====
-- What `revert_unmount` of native/src/core/deny/revert.cpp unmounts.
use kitsune_ufork.Common.{
  ℕ, Bool, true, not, ◌&&◌, ◌||◌, ◌≡◌, refl, List, [], ◌∷◌, Text, codes, arith, any, all, str_eql,
  leb,
}
use kitsune_ufork.OrderedMap.{text_key, Set, find, member, insert}
use kitsune_ufork.OrderedMap.Laws.{find-put}
use kitsune_ufork.Unmount.{
  Mount, Namespace, Umount, lazy_unmount, select, unmount_all, unmount_pass, unmount_each,
  from_source, from_modules, early_mount, mount_points, unmount_paths, revert_passes,
  revert_unmount,
}

-- A mount that passes the test is at the target.
abbrev pub at_target : (Mount → Bool) → Text → Mount → Bool
at_target p t m = p m && str_eql m.target t

select_lem :
    (p : Mount → Bool) (t : Text) (ms : List Mount) (targets : Set Text)
    → member t (select p ms targets) ≡ (any (at_target p t) ms || member t targets)
unfolding select
select_lem p t [] targets = refl
select_lem p t (m ∷ ms) targets = ground (
  arith,
  select_lem p t ms targets,
  select_lem p t ms (insert m.target targets),
  find-put m.target t tt targets,
)

-- umount2 was called with the target.
abbrev pub called : Text → Namespace → Bool
called t n = any (λ s. str_eql s t) n.unmounted

-- umount2 adds no mount.
abbrev pub Removes : Umount → Type 0
Removes umount =
    (q : Mount → Bool) (t : Text) (ms : List Mount) → any q (umount t ms) ≡ true → any q ms ≡ true

unmount_all_lem :
    (umount : Umount) (t : Text) (targets : Set Text) (n : Namespace)
    → called t (unmount_all umount targets n) ≡ (member t targets || called t n)
unfolding unmount_all find
unmount_all_lem umount t [] n = refl
unmount_all_lem umount t ((s, u) ∷ ts) n = ground (arith, unmount_all_lem umount t ts n)

unmount_all-any :
    (umount : Umount) (q : Mount → Bool) (targets : Set Text) (n : Namespace)
    → Removes umount
    → any q (unmount_all umount targets n).mounts ≡ true
    → any q n.mounts ≡ true
unfolding unmount_all
unmount_all-any umount q [] n r a = a
unmount_all-any umount q ((s, u) ∷ ts) n r a =
    unmount_all-any umount q ts n r (r q s (unmount_all umount ts n).mounts a)

unmount_pass_lem :
    (umount : Umount) (p : Mount → Bool) (t : Text) (n : Namespace)
    → called t (unmount_pass umount p n) ≡ (any (at_target p t) n.mounts || called t n)
unfolding unmount_pass find
unmount_pass_lem umount p t n =
    ground (arith, unmount_all_lem umount t (select p n.mounts []) n, select_lem p t n.mounts [])

unmount_each_lem :
    (umount : Umount) (p : Mount → Bool) (t : Text) (ms : List Mount) (n : Namespace)
    → called t (unmount_each umount p ms n) ≡ (any (at_target p t) ms || called t n)
unfolding unmount_each
unmount_each_lem umount p t [] n = refl
unmount_each_lem umount p t (m ∷ ms) n = ground (
  arith,
  unmount_each_lem umount p t ms n,
  unmount_each_lem umount p t ms (lazy_unmount umount m.target n),
)

-- The mount is Magisk's own: its tmpfs, a worker, a module's file, or an early mount.
abbrev pub is_magisk : Mount → Bool
is_magisk m =
    from_source (codes "magisk") m
    || (from_source (codes "worker") m || (from_modules m || from_source early_mount m))

any-weaker :
    (p q : Mount → Bool) (ms : List Mount)
    → ((m : Mount) → p m ≡ true → q m ≡ true)
    → any p ms ≡ true
    → any q ms ≡ true
any-weaker p q [] w a = a
any-weaker p q (m ∷ ms) w a = ground (arith, a, w m, any-weaker p q ms w)

unmount_pass-any :
    (umount : Umount) (p q : Mount → Bool) (n : Namespace)
    → Removes umount
    → any q (unmount_pass umount p n).mounts ≡ true
    → any q n.mounts ≡ true
unfolding unmount_pass
unmount_pass-any umount p q n r a = unmount_all-any umount q (select p n.mounts []) n r a

any-is_magisk :
    (p : Mount → Bool) (t : Text) (ms : List Mount)
    → ((m : Mount) → p m ≡ true → is_magisk m ≡ true)
    → any (at_target p t) ms ≡ true
    → any (at_target is_magisk t) ms ≡ true
any-is_magisk p t ms w a =
    any-weaker (at_target p t) (at_target is_magisk t) ms (λ m e. ground (arith, e, w m)) a

-- Given that umount2 adds no mount: revert_unmount's passes call it only for targets that a mount of
-- Magisk's has, and for every target of a mount whose source is "magisk".
revert_passes-called :
    (umount : Umount) (t : Text) (n : Namespace)
    → Removes umount
    → (called t (revert_passes umount n) ≡ true
        → (any (at_target is_magisk t) n.mounts || called t n) ≡ true)
      × (any (at_target (from_source (codes "magisk")) t) n.mounts ≡ true
          → called t (revert_passes umount n) ≡ true)
unfolding revert_passes
revert_passes-called umount t n r =
    let magisk = from_source (codes "magisk") in
    let worker = from_source (codes "worker") in
    let early = from_source early_mount in
    let n1 = unmount_pass umount magisk n in
    let n2 = unmount_pass umount worker n1 in
    let n3 = unmount_pass umount from_modules n2 in
    let l1 = unmount_pass_lem umount magisk t n in
    let l2 = unmount_pass_lem umount worker t n1 in
    let l3 = unmount_pass_lem umount from_modules t n2 in
    let l4 = unmount_each_lem umount early t n3.mounts n3 in
    let s1 = unmount_pass-any umount magisk (at_target worker t) n r in
    let s2 = unmount_pass-any umount worker (at_target from_modules t) n1 r in
    let s3 = unmount_pass-any umount magisk (at_target from_modules t) n r in
    let s4 = unmount_pass-any umount from_modules (at_target early t) n2 r in
    let s5 = unmount_pass-any umount worker (at_target early t) n1 r in
    let s6 = unmount_pass-any umount magisk (at_target early t) n r in
    let w1 = any-is_magisk magisk t n.mounts (λ m e. ground (arith, e)) in
    let w2 = any-is_magisk worker t n.mounts (λ m e. ground (arith, e)) in
    let w3 = any-is_magisk from_modules t n.mounts (λ m e. ground (arith, e)) in
    let w4 = any-is_magisk early t n.mounts (λ m e. ground (arith, e)) in
    (
      λ c. ground (arith, c, l1, l2, l3, l4, s1, s2, s3, s4, s5, s6, w1, w2, w3, w4),
      λ a. ground (arith, a, l1, l2, l3, l4),
    )

unmount_paths_lem :
    (umount : Umount) (access : Text → List Mount → Bool) (t : Text) (ps : List Text)
    (n : Namespace)
    → (called t (unmount_paths umount access ps n) ≡ true
        → (any (λ p. str_eql p t) ps || called t n) ≡ true)
      × (called t n ≡ true → called t (unmount_paths umount access ps n) ≡ true)
unfolding unmount_paths
unmount_paths_lem umount access t [] n = (λ c. c, λ c. c)
unmount_paths_lem umount access t (p ∷ ps) n =
    let (a, b) = unmount_paths_lem umount access t ps n in
    let (a', b') = unmount_paths_lem umount access t ps (lazy_unmount umount p n) in
    (λ c. ground (arith, c, a, a'), λ c. ground (arith, c, b, b'))

-- Given that umount2 adds no mount, revert_unmount calls it only for targets that one of Magisk's
-- mounts has and, for a process, for the fixed paths of mount_clean.cpp; and when the namespace can
-- be entered, or is its own, it calls it for the target of every mount whose source is "magisk".
pub revert_unmount-called :
    (umount : Umount) (access : Text → List Mount → Bool) (switches : Bool) (pid : ℕ) (t : Text)
    (n : Namespace)
    → Removes umount
    → (called t (revert_unmount umount access switches pid n) ≡ true
        → (any (at_target is_magisk t) n.mounts
            || (leb 1 pid && any (λ p. str_eql p t) mount_points || called t n))
          ≡ true)
      × ((not (leb 1 pid) || switches) ≡ true
          → any (at_target (from_source (codes "magisk")) t) n.mounts ≡ true
          → called t (revert_unmount umount access switches pid n) ≡ true)
unfolding revert_unmount
revert_unmount-called umount access switches pid t n r =
    let (only, all) = revert_passes-called umount t n r in
    let (a, b) = unmount_paths_lem umount access t mount_points (revert_passes umount n) in
    (λ c. ground (arith, c, only, a), λ i c. ground (arith, i, c, all, b))
