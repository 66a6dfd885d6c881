-- ===== src/Init/Config.antt =====
-- `BootConfig` of native/src/init/getinfo.cpp.
pub mod Fits
use kitsune_ufork.Common.{
  ℕ, zero, suc, ◌+◌, ◌-◌, Bool, true, false, not, ◌&&◌, ◌||◌, Option, none, some, List, [], ◌∷◌,
  ◌++◌, Text, codes, take, leb, any, ◌==◌, str_eql, c_str, if◌then◌else◌,
}
use kitsune_ufork.Boot.Fields.{parse_prop_file}
use kitsune_ufork.Init.{Pairs, parse_cmdline, parse_bootconfig, parse_partition_map, parse_impl}

-- The arrays, each as the C string in it.
pub record BootConfig : Type 0 where
  pub skip_initramfs : Bool
  pub force_normal_boot : Bool
  pub rootwait : Bool
  pub emulator : Bool
  pub slot : Text
  pub dt_dir : Text
  pub fstab_suffix : Text
  pub hardware : Text
  pub hardware_plat : Text
  pub partition_map : Pairs

-- strscpy: a text that does not fit is cut.
unfoldable pub strscpy : ℕ → Text → Text
strscpy size s = take (size - 1) (c_str s)

unfoldable pub starts_one : Text → Bool
starts_one [] = false
starts_one (c ∷ s) = c == b'1'

abbrev pub or_no_pairs : Option Pairs → Pairs
or_no_pairs none = []
or_no_pairs (some kv) = kv

-- One round of the loop of BootConfig::set.
unfoldable pub set_pair : Text → Text → BootConfig → BootConfig
unfolding str_eql strscpy starts_one parse_impl
set_pair key value c =
    if str_eql key (codes "androidboot.slot_suffix")
    then if str_eql value (codes "normal") then c else record c { slot = strscpy 3 value }
    else if str_eql key (codes "androidboot.slot")
    then record c { slot = b'_' ∷ strscpy 2 value }
    else if str_eql key (codes "skip_initramfs")
    then record c { skip_initramfs = true }
    else if str_eql key (codes "androidboot.force_normal_boot")
    then record c { force_normal_boot = starts_one value }
    else if str_eql key (codes "rootwait")
    then record c { rootwait = true }
    else if str_eql key (codes "androidboot.android_dt_dir")
    then record c { dt_dir = strscpy 64 value }
    else if str_eql key (codes "androidboot.hardware")
    then record c { hardware = strscpy 32 value }
    else if str_eql key (codes "androidboot.hardware.platform")
    then record c { hardware_plat = strscpy 32 value }
    else if str_eql key (codes "androidboot.fstab_suffix")
    then record c { fstab_suffix = strscpy 32 value }
    else if str_eql key (codes "qemu")
    then record c { emulator = true }
    else if str_eql key (codes "androidboot.partition_map")
    then record c { partition_map = c.partition_map ++ or_no_pairs (parse_partition_map value) }
    else c

unfoldable pub set_pairs : Pairs → BootConfig → BootConfig
unfolding set_pair
set_pairs [] c = c
set_pairs ((key, value) ∷ kv) c = set_pairs kv (set_pair key value c)

-- The counting loop of check_key_combo: whether the key is down at each poll.
unfoldable pub key_loop : ℕ → List Bool → Bool
key_loop count [] = false
key_loop count (down ∷ polls) =
    let count' = if down then suc count else count in
    let rest = key_loop count' polls in if leb 300 count' then true else rest

-- What the system answers: the files, whether an input device has the key, and its state at the
-- polls.
pub record Device : Type 0 where
  pub read_file : Text → Option Text
  pub has_key : Bool
  pub polls : List Bool

abbrev pub or_blank : Option Text → Text
or_blank none = []
or_blank (some s) = s

unfoldable pub check_key_combo : Device → Bool
unfolding key_loop
check_key_combo w = w.has_key && key_loop 0 (take 500 w.polls)

abbrev is_recovery : Text × Text → Bool
is_recovery (key, value) = str_eql key (codes "RECOVERYMODE") && str_eql value (codes "true")

-- The property file of the ramdisk; without it there is no line.
unfoldable pub read_backup : Device → BootConfig → BootConfig
unfolding check_key_combo parse_prop_file str_eql
read_backup w c =
    if any is_recovery (parse_prop_file (or_blank (w.read_file (codes "/.backup/.magisk"))))
    then record c { skip_initramfs = c.emulator || not (check_key_combo w) }
    else c

unfoldable pub but_last : Text → Text
but_last [] = []
but_last (c ∷ []) = []
but_last (c ∷ d ∷ s) = c ∷ but_last (d ∷ s)

-- read_dt: the value that a field keeps or gets from a file.
unfoldable pub dt_value : ℕ → Text → Option Text → Text
unfolding but_last strscpy
dt_value size old none = old
dt_value size old (some []) = old
dt_value size old (some (c ∷ s)) = strscpy size (but_last (c ∷ s))

abbrev pub read_dt : Device → Text → ℕ → Text → Text → Text
read_dt w dir size name old = dt_value size old (w.read_file (dir ++ (b'/' ∷ name)))

abbrev pub default_dt_dir : Text
default_dt_dir = codes "/proc/device-tree/firmware/android"

abbrev pub is_empty : Text → Bool
is_empty [] = true
is_empty (c ∷ s) = false

unfoldable pub dir_of : Text → Text
unfolding strscpy
dir_of dt_dir = if is_empty dt_dir then strscpy 64 default_dt_dir else dt_dir

unfoldable pub read_dts : Device → BootConfig → BootConfig
unfolding dt_value dir_of
read_dts w c =
    let dir = dir_of c.dt_dir in
    record c {
      dt_dir = dir;
      fstab_suffix = read_dt w dir 32 (codes "fstab_suffix") c.fstab_suffix;
      hardware = read_dt w dir 32 (codes "hardware") c.hardware;
      hardware_plat = read_dt w dir 32 (codes "hardware.platform") c.hardware_plat;
    }

-- BootConfig::init
unfoldable pub init : Device → BootConfig → BootConfig
unfolding set_pairs read_backup read_dts parse_impl
init w c =
    let cmdline = or_no_pairs (parse_cmdline (or_blank (w.read_file (codes "/proc/cmdline")))) in
    let bootconfig =
      or_no_pairs (parse_bootconfig (or_blank (w.read_file (codes "/proc/bootconfig")))) in
    read_dts w (read_backup w (set_pairs bootconfig (set_pairs cmdline c)))
