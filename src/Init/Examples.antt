-- ===== src/Init/Examples.antt =====
-- The theorems on native/src/init/getinfo.cpp at concrete inputs.
use kitsune_ufork.Common.{
  true, false, ◌≡◌, refl, Option, none, some, [], ◌∷◌, Text, codes, if◌then◌else◌, str_eql, leb,
}
use kitsune_ufork.OrderedMap.{is_some}
use kitsune_ufork.Base.Strings.{is_delim}
use kitsune_ufork.Init.{Pairs, parse_impl, parse_cmdline, parse_bootconfig}
use kitsune_ufork.Init.Progress.{parse_impl-ends}
use kitsune_ufork.Init.RoundTrip.{parse_impl-print_pairs}
use kitsune_ufork.Init.Config.{BootConfig, Device, init, check_key_combo}
use kitsune_ufork.Init.Config.Fits.{fits, init-fits, check_key_combo_lem, count}

parse_impl-ends_example : is_some (parse_cmdline (codes "a=1 b \"c d\"=2")) ≡ true
parse_impl-ends_example = parse_impl-ends b' ' b'=' [] (codes "a=1 b \"c d\"=2")

abbrev config : Pairs
config = (codes "androidboot.slot", codes "a b=c") ∷ (codes "androidboot.hardware", codes "") ∷ []

-- As /proc/bootconfig shows it: a space around the sign, quotes around the value.
parse_impl-print_pairs_example :
    parse_bootconfig (codes "androidboot.slot = \"a b=c\"\nandroidboot.hardware = \"\"\n")
    ≡ some config
unfolding is_delim
parse_impl-print_pairs_example =
    parse_impl-print_pairs b'\n' b'=' (b' ' ∷ []) (codes " ") (codes " ") config refl refl refl refl

abbrev blank : BootConfig
blank = record {
  skip_initramfs = false;
  force_normal_boot = false;
  rootwait = false;
  emulator = false;
  slot = [];
  dt_dir = [];
  fstab_suffix = [];
  hardware = [];
  hardware_plat = [];
  partition_map = [];
}

-- The kernel's command line ends with a newline.
abbrev files : Text → Option Text
files path =
    if str_eql path (codes "/proc/cmdline")
    then some (codes "androidboot.slot_suffix=_b qemu=1 skip_initramfs\n")
    else none

abbrev device : Device
device = record { read_file = files; has_key = false; polls = [] }

init-fits_example : fits (init device blank) ≡ true
init-fits_example = init-fits device blank refl

check_key_combo_lem_example :
    check_key_combo (record device { has_key = true; polls = true ∷ [] })
    ≡ leb 300 (count (true ∷ []))
check_key_combo_lem_example =
    check_key_combo_lem (record device { has_key = true; polls = true ∷ [] })

-- The last parameter keeps the newline, and is not found.
last_parameter :
    parse_cmdline (codes "qemu=1 skip_initramfs\n")
      ≡ some ((codes "qemu", codes "1") ∷ (codes "skip_initramfs\n", []) ∷ [])
    × (init device blank).skip_initramfs ≡ false
    × (init device blank).emulator ≡ true
    × (init device blank).slot ≡ codes "_b"
unfolding parse_impl init
last_parameter = (refl, refl, refl, refl)
