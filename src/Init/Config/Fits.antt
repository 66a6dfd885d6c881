-- ===== src/Init/Config/Fits.antt =====
-- The texts of `BootConfig` stay in their arrays.
use kitsune_ufork.Common.{
  ℕ, zero, suc, ◌+◌, ◌-◌, ◌<◌, ◌≡◌, refl, ap, ◌∙◌, Bool, true, ◌&&◌, Option, none, some, List, [],
  ◌∷◌, ◌++◌, Text, codes, length, take, leb, c_str, arith, if◌then◌else◌,
}
use kitsune_ufork.Init.{Pairs, parse_cmdline, parse_bootconfig}
use kitsune_ufork.Init.Config.{
  BootConfig, strscpy, set_pair, set_pairs, key_loop, Device, check_key_combo, read_backup,
  dt_value, dir_of, read_dts, init, but_last, or_blank, or_no_pairs, default_dt_dir,
}

-- Each array holds its text with the zero byte behind it: char[3], [64], and three of [32].
abbrev pub fits : BootConfig → Bool
fits c =
    leb (length c.slot) 2
    && (leb (length c.dt_dir) 63
        && (leb (length c.fstab_suffix) 31
            && (leb (length c.hardware) 31 && leb (length c.hardware_plat) 31)))

length-take : (n : ℕ) (s : Text) → leb (length (take n s)) n ≡ true
length-take zero s = refl
length-take (suc n) [] = ground arith
length-take (suc n) (c ∷ s) = ground (arith, length-take n s)

strscpy_fits : (size : ℕ) (s : Text) → leb (length (strscpy size s)) (size - 1) ≡ true
unfolding strscpy
strscpy_fits size s = length-take (size - 1) (c_str s)

set_pair-fits :
    (key value : Text) (c : BootConfig) → fits c ≡ true → fits (set_pair key value c) ≡ true
unfolding set_pair
set_pair-fits key value c f = ground (
  arith,
  f,
  strscpy_fits 3 value,
  strscpy_fits 2 value,
  strscpy_fits 64 value,
  strscpy_fits 32 value,
)

set_pairs-fits : (kv : Pairs) (c : BootConfig) → fits c ≡ true → fits (set_pairs kv c) ≡ true
unfolding set_pairs
set_pairs-fits [] c f = f
set_pairs-fits ((key, value) ∷ kv) c f =
    set_pairs-fits kv (set_pair key value c) (set_pair-fits key value c f)

dt_value_fits :
    (size : ℕ) (old : Text) (file : Option Text)
    → leb (length old) (size - 1) ≡ true
    → leb (length (dt_value size old file)) (size - 1) ≡ true
unfolding dt_value
dt_value_fits size old none f = f
dt_value_fits size old (some []) f = f
dt_value_fits size old (some (c ∷ s)) f = strscpy_fits size (but_last (c ∷ s))

dir_of_fits : (dir : Text) → leb (length dir) 63 ≡ true → leb (length (dir_of dir)) 63 ≡ true
unfolding dir_of
dir_of_fits [] f = strscpy_fits 64 default_dt_dir
dir_of_fits (c ∷ s) f = f

read_backup-fits : (w : Device) (c : BootConfig) → fits c ≡ true → fits (read_backup w c) ≡ true
unfolding read_backup
read_backup-fits w c f = ground (arith, f)

read_dts-fits : (w : Device) (c : BootConfig) → fits c ≡ true → fits (read_dts w c) ≡ true
unfolding read_dts
read_dts-fits w c f =
    let dir = dir_of c.dt_dir in
    let file : Text → Option Text = λ name. w.read_file (dir ++ (b'/' ∷ name)) in
    ground (
      arith,
      f,
      dir_of_fits c.dt_dir,
      dt_value_fits 32 c.fstab_suffix (file (codes "fstab_suffix")),
      dt_value_fits 32 c.hardware (file (codes "hardware")),
      dt_value_fits 32 c.hardware_plat (file (codes "hardware.platform")),
    )

-- Whatever the kernel, the device tree and the ramdisk hold, after `init` each text of the
-- configuration fits its array, if it did before.
pub init-fits : (w : Device) (c : BootConfig) → fits c ≡ true → fits (init w c) ≡ true
unfolding init
init-fits w c f =
    let cmdline = or_no_pairs (parse_cmdline (or_blank (w.read_file (codes "/proc/cmdline")))) in
    let bootconfig =
      or_no_pairs (parse_bootconfig (or_blank (w.read_file (codes "/proc/bootconfig")))) in
    let c1 = set_pairs cmdline c in
    let c2 = set_pairs bootconfig c1 in
    read_dts-fits w (read_backup w c2)
      (read_backup-fits w c2 (set_pairs-fits bootconfig c1 (set_pairs-fits cmdline c f)))

-- How many of the polls have the key down.
abbrev pub count : List Bool → ℕ
count [] = 0
count (down ∷ polls) = if down then suc (count polls) else count polls

key_loop_lem : (n : ℕ) (polls : List Bool) → n < 300 → key_loop n polls ≡ leb 300 (n + count polls)
unfolding key_loop
key_loop_lem n [] k = ground (arith, k)
key_loop_lem n (down ∷ polls) k =
    ground (arith, k, key_loop_lem n polls, key_loop_lem (suc n) polls)

-- The combination counts exactly if a device has the key and it is down at 300 polls of the first
-- 500.
pub check_key_combo_lem :
    (w : Device) → check_key_combo w ≡ (w.has_key && leb 300 (count (take 500 w.polls)))
unfolding check_key_combo
check_key_combo_lem w =
    ap (λ (x : Bool). w.has_key && x)
      (key_loop_lem 0 (take 500 w.polls) (omega arith) ∙ ap (leb 300) (omega arith))
