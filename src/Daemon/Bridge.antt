-- ===== src/Daemon/Bridge.antt =====
-- The native bridge property: set for zygisk by load_modules of native/src/core/module.cpp, and
-- set back by STOP_DAEMON of native/src/core/daemon.cpp and by restore_zygisk_prop of
-- native/src/core/zygisk/entry.cpp.
use kitsune_ufork.Common.{
  ◌≡◌, refl, ◌<◌, [], ◌∷◌, Text, codes, str_eql, str_eql_iff, arith, length, drop, Bool-cases, inl,
  inr,
}
use kitsune_ufork.Daemon.{set_bridge, zygiskldr, restore_bridge, zygisk_bridge, restore_zygisk_prop}

-- The bridge a device has: an unset property is "0".
abbrev pub device_bridge : Text → Text
device_bridge [] = codes "0"
device_bridge (c ∷ orig) = c ∷ orig

-- From what load_modules set the property to, both ways back give the device's own bridge; where
-- it was unset, they give "0".
pub restore_bridge-zygisk_bridge :
    (orig : Text)
    → (restore_bridge (zygisk_bridge orig) ≡ set_bridge (device_bridge orig) ∷ [])
      × (restore_zygisk_prop (zygisk_bridge orig) ≡ device_bridge orig)
unfolding restore_bridge zygisk_bridge restore_zygisk_prop str_eql
restore_bridge-zygisk_bridge [] = (refl, refl)
restore_bridge-zygisk_bridge (c ∷ orig) = (
  ground (arith, str_eql_iff (c ∷ orig) (codes "0")),
  ground (arith, str_eql_iff (c ∷ orig) (codes "0")),
)

-- STOP_DAEMON does not look whether the property begins with the loader's name: any longer value
-- loses its first twelve bytes.
pub restore_bridge_cuts :
    (nb : Text) → length zygiskldr < length nb → restore_bridge nb ≡ set_bridge (drop 12 nb) ∷ []
unfolding restore_bridge
restore_bridge_cuts nb h = elim (Bool-cases (str_eql nb zygiskldr)) [
  | inl e ↦ absurd (ground (arith, (str_eql_iff nb zygiskldr).0 e, h))
  | inr e ↦ ground (arith, e, h)
]
