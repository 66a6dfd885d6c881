-- ===== src/Unmount/Examples.antt =====
-- The theorems on native/src/core/deny/revert.cpp at concrete inputs.
use kitsune_ufork.Common.{
  ℕ, Bool, true, false, not, ◌&&◌, ◌||◌, ◌≡◌, refl, List, [], ◌∷◌, Text, codes, arith, any, str_eql,
  if◌then◌else◌, leb,
}
use kitsune_ufork.Unmount.{Mount, Namespace, Umount, from_source, mount_points, revert_unmount}
use kitsune_ufork.Unmount.Selected.{at_target, called, Removes, is_magisk, revert_unmount-called}

-- The first mount at the target goes.
unfoldable take_off : Umount
take_off t [] = []
take_off t (m ∷ ms) = let rest = take_off t ms in if str_eql m.target t then ms else m ∷ rest

take_off-Removes : Removes take_off
unfolding take_off
take_off-Removes q t [] a = a
take_off-Removes q t (m ∷ ms) a = ground (arith, a, take_off-Removes q t ms)

abbrev of : Text → Text → Mount
of target source = record { root = codes "/"; target = target; source = source }

abbrev here : Namespace
here = record {
  mounts =
      of (codes "/sbin") (codes "magisk")
      ∷ of (codes "/system/bin") (codes "worker")
      ∷ of (codes "/data") (codes "/dev/block/dm-1")
      ∷ [];
  unmounted = [];
}

revert_unmount-called_example :
    (called (codes "/sbin") (revert_unmount take_off (λ p ms. false) true 700 here) ≡ true
      → (any (at_target is_magisk (codes "/sbin")) here.mounts
          || (leb 1 700 && any (λ p. str_eql p (codes "/sbin")) mount_points
              || called (codes "/sbin") here))
        ≡ true)
    × ((not (leb 1 700) || true) ≡ true
        → any (at_target (from_source (codes "magisk")) (codes "/sbin")) here.mounts ≡ true
        → called (codes "/sbin") (revert_unmount take_off (λ p ms. false) true 700 here) ≡ true)
revert_unmount-called_example =
    revert_unmount-called take_off (λ p ms. false) true 700 (codes "/sbin") here take_off-Removes

-- The order in which umount2 is called, the latest first.
unmounts :
    (revert_unmount take_off (λ p ms. false) true 700 here).unmounted
    ≡ codes "/system/bin" ∷ codes "/sbin" ∷ []
unfolding revert_unmount str_eql kitsune_ufork.OrderedMap.put take_off
    kitsune_ufork.Common.str_starts
unmounts = refl

-- Of two mounts at the same place only one is unmounted.
abbrev twice : Namespace
twice = record {
  mounts = of (codes "/sbin") (codes "magisk") ∷ of (codes "/sbin") (codes "magisk") ∷ [];
  unmounted = [];
}

one_stays :
    (revert_unmount take_off (λ p ms. false) true 0 twice).mounts
    ≡ of (codes "/sbin") (codes "magisk") ∷ []
unfolding revert_unmount str_eql kitsune_ufork.OrderedMap.put take_off
    kitsune_ufork.Common.str_starts
one_stays = refl
