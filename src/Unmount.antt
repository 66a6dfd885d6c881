-- ===== src/Unmount.antt =====
-- `revert_unmount` and `revert_daemon` of native/src/core/deny/revert.cpp, and the paths that
-- native/src/core/deny/mount_clean.cpp unmounts after it.
pub mod Selected
mod Examples
use kitsune_ufork.Common.{
  ℕ, Bool, true, false, not, ◌&&◌, ◌||◌, Option, none, some, List, [], ◌∷◌, ◌++◌, Text, codes,
  str_eql, str_starts, if◌then◌else◌, leb,
}
use kitsune_ufork.OrderedMap.{text_key, Set, insert}

-- A line of /proc/self/mountinfo, as far as it is read.
pub record Mount : Type 0 where
  pub root : Text
  pub target : Text
  pub source : Text

-- The namespace: its mounts in the order of mountinfo, and the targets that umount2 was called with,
-- the latest first.
pub record Namespace : Type 0 where
  pub mounts : List Mount
  pub unmounted : List Text

-- umount2 with MNT_DETACH: what is left of the mounts.
abbrev pub Umount : Type 0
Umount = Text → List Mount → List Mount

unfoldable pub lazy_unmount : Umount → Text → Namespace → Namespace
lazy_unmount umount target n = record {
  mounts = umount target n.mounts;
  unmounted = target ∷ n.unmounted;
}

-- targets.insert(info.target) for the mounts that are selected.
unfoldable pub select : (Mount → Bool) → List Mount → Set Text → Set Text
select p [] targets = targets
select p (m ∷ ms) targets = select p ms (if p m then insert m.target targets else targets)

-- The loop over reversed(targets): the last one first.
unfoldable pub unmount_all : Umount → Set Text → Namespace → Namespace
unfolding lazy_unmount
unmount_all umount [] n = n
unmount_all umount ((t, u) ∷ ts) n = lazy_unmount umount t (unmount_all umount ts n)

unfoldable pub unmount_pass : Umount → (Mount → Bool) → Namespace → Namespace
unfolding select unmount_all
unmount_pass umount p n = unmount_all umount (select p n.mounts []) n

-- The loop over one reading of mountinfo, in its order.
unfoldable pub unmount_each : Umount → (Mount → Bool) → List Mount → Namespace → Namespace
unfolding lazy_unmount
unmount_each umount p [] n = n
unmount_each umount p (m ∷ ms) n =
    let after = lazy_unmount umount m.target n in
    unmount_each umount p ms (if p m then after else n)

abbrev pub from_source : Text → Mount → Bool
from_source source m = str_eql m.source source

abbrev pub from_modules : Mount → Bool
from_modules m =
    str_starts m.root (codes "/adb/modules") || str_starts m.target (codes "/data/adb/modules")

abbrev pub early_mount : Text
early_mount = codes "early-mount.d/v2"

-- MAGISK_MOUNT_POINTS; the first four are relative to the working directory.
abbrev pub mount_points : List Text
mount_points =
    codes ".magisk/modules"
    ∷ codes ".magisk"
    ∷ codes ".magisk/device"
    ∷ codes ".magisk/worker"
    ∷ codes "/sbin"
    ∷ codes "/debug_ramdisk"
    ∷ []

-- unmount_magisk_paths: the paths that access() finds in the namespace as it is.
unfoldable pub unmount_paths :
    Umount → (Text → List Mount → Bool) → List Text → Namespace → Namespace
unfolding lazy_unmount
unmount_paths umount access [] n = n
unmount_paths umount access (p ∷ ps) n =
    let after = lazy_unmount umount p n in
    unmount_paths umount access ps (if access p n.mounts then after else n)

-- The four passes over mountinfo.
unfoldable pub revert_passes : Umount → Namespace → Namespace
unfolding unmount_pass unmount_each
revert_passes umount n =
    let n = unmount_pass umount (from_source (codes "magisk")) n in
    let n = unmount_pass umount (from_source (codes "worker")) n in
    let n = unmount_pass umount from_modules n in
    unmount_each umount (from_source early_mount) n.mounts n

-- revert_unmount for a process, or, with pid 0, in the own namespace; `switches` tells whether
-- the namespace of the process can be entered.
unfoldable pub revert_unmount :
    Umount → (Text → List Mount → Bool) → Bool → ℕ → Namespace → Namespace
unfolding revert_passes unmount_paths
revert_unmount umount access switches pid n =
    let reverted = revert_passes umount n in
    let cleaned = unmount_paths umount access mount_points reverted in
    if leb 1 pid then (if switches then cleaned else n) else reverted
