-- ===== src/Boot/Examples.antt =====
-- The theorems on native/src/boot/bootimg.cpp at concrete inputs.
use kitsune_ufork.Common.{
  ℕ, ◌≡◌, refl, true, false, Option, none, some, List, [], ◌∷◌, ◌++◌, Text, codes, arith, str_eql,
  str_starts, if◌then◌else◌, ◌^◌, ◌<◌, ◌≤◌,
}
use kitsune_ufork.Base.Patch.{zeros}
use kitsune_ufork.Base.Strings.{find_str}
use kitsune_ufork.Format.{unknown, lz4_leg_magic, dtb_magic}
use kitsune_ufork.Boot.Memory.{to_le, store_at, le_bytes, align_to, as_int, align_padding}
use kitsune_ufork.Boot.Header.{
  pxa, page_size, v2, Hdr, get, set, os_version, kernel_size, ramdisk_size, hdr_space, hdr_size,
  width, offset, is_vendor,
}
use kitsune_ufork.Boot.Header.Numbers.{same_field}
use kitsune_ufork.Boot.Header.Laws.{IsHdr, get-set}
use kitsune_ufork.Boot.Fields.{load_props, print_version, print_level}
use kitsune_ufork.Boot.Fields.Version.{load_props-print_version}
use kitsune_ufork.Boot.Layout.{
  found, Block, kernel, ramdisk, get_blocks, size_field, file_align, second, extra, recovery_dtbo,
  dtb, signature, vendor_ramdisk_table, bootconfig,
}
use kitsune_ufork.Boot.Layout.Inside.{InOrder, get_blocks-InOrder}
use kitsune_ufork.Boot.Search.{check_fmt_lg, find_dtb_offset, dtb_loop, fdt32}
use kitsune_ufork.Boot.Search.Hang.{check_fmt_lg_hangs}
use kitsune_ufork.Boot.Search.Device.{IsFdt, find_dtb_offset-IsFdt}
use kitsune_ufork.Boot.Image.{Image, Source, ok, memory, has, place}
use kitsune_ufork.Boot.Repack.{
  Files, write_image, kernel_part, write_rest, write_kernel, start_image, put_block, copy_block,
  fresh_hdr, prologue, pack_file,
}
use kitsune_ufork.Boot.Repack.Plain.{IsPlain, new_blocks}
use kitsune_ufork.Boot.Repack.RoundTrip.{plain_out, Finds, write_image-get_blocks}

-- A header of version 2 with a page of 64 bytes, and sizes of 70 and 5.
abbrev raw_v2 : Text
raw_v2 =
    zeros 8
    ++ (to_le 4 70
        ++ (zeros 4 ++ (to_le 4 5 ++ (zeros 16 ++ (to_le 4 64 ++ (to_le 4 2 ++ zeros 1616))))))

abbrev hdr_v2 : Hdr
hdr_v2 = record { kind = v2; raw = raw_v2 }

hdr_v2-IsHdr : IsHdr hdr_v2
unfolding hdr_size to_le
hdr_v2-IsHdr = refl

get-set_example :
    get ramdisk_size (set kernel_size 9 hdr_v2)
    ≡ (if same_field kernel_size ramdisk_size then 9 else get ramdisk_size hdr_v2)
unfolding width same_field
get-set_example = get-set kernel_size ramdisk_size 9 hdr_v2 hdr_v2-IsHdr (omega arith) refl

load_props-print_version_example :
    get os_version (
      load_props
        (7, 7, 7)
        ((codes "os_version", print_version 0x1a0001a5)
          ∷ (codes "os_patch_level", print_level 0x1a0001a5)
          ∷ [])
        hdr_v2)
    ≡ 0x1a0001a5
unfolding offset
load_props-print_version_example =
    load_props-print_version 0x1a0001a5 (7, 7, 7) hdr_v2 hdr_v2-IsHdr (omega arith) refl

-- The kernel at 64 and the ramdisk at 192, behind two pages of kernel; the end is at 256.
abbrev two_blocks : List (Block × ℕ)
two_blocks = (kernel, 64) ∷ (ramdisk, 192) ∷ []

get_blocks-InOrder_example : (InOrder hdr_v2 64 256 two_blocks) × (256 ≤ 4096)
unfolding get_blocks get offset width le_bytes to_le align_to as_int size_field
get_blocks-InOrder_example =
    get_blocks-InOrder hdr_v2 0 4096 64 256 (kernel ∷ ramdisk ∷ []) two_blocks small (omega arith)
      (omega arith) (omega arith) refl
  where
    small : (b : Block) → get (size_field b) hdr_v2 < 2 ^ 32
    small kernel = omega arith
    small ramdisk = omega arith
    small second = omega arith
    small extra = omega arith
    small recovery_dtbo = omega arith
    small dtb = omega arith
    small signature = omega arith
    small vendor_ramdisk_table = omega arith
    small bootconfig = omega arith

check_fmt_lg_hangs_example :
    check_fmt_lg 1000 (lz4_leg_magic ++ 0xfc ∷ 0xff ∷ 0xff ∷ 0xff ∷ []) 8 ≡ none
check_fmt_lg_hangs_example = check_fmt_lg_hangs 1000 8 [] (omega arith) (omega arith)

-- A device tree with a structure at 40, behind two other bytes.
abbrev tree : Text
tree =
    9
    ∷ 9
    ∷ (dtb_magic ++ (0 ∷ 0 ∷ 0 ∷ 44 ∷ 0 ∷ 0 ∷ 0 ∷ 40 ∷ [] ++ (zeros 28 ++ 0 ∷ 0 ∷ 0 ∷ 1 ∷ [])))

find_dtb_offset-IsFdt_example : IsFdt tree 46 2
unfolding find_dtb_offset dtb_loop fdt32 le_bytes find_str str_starts
find_dtb_offset-IsFdt_example = find_dtb_offset-IsFdt tree 46 2 refl

-- The page size 2^32 - 1 is the int -1, and as a size_t 2^64 - 1: the next block is at 0 again, and the
-- kernel far behind the end of a map of 4,096 bytes.
abbrev hdr_pxa : Hdr
hdr_pxa = record { kind = pxa; raw = zeros 44 ++ (255 ∷ 255 ∷ 255 ∷ 255 ∷ zeros 1592) }

outside_the_map :
    get page_size hdr_pxa ≡ 4294967295
    × get_blocks hdr_pxa 0 4096 4294967295 (kernel ∷ []) ≡ found ((kernel, 4294967295) ∷ []) 0
unfolding get_blocks get offset width le_bytes to_le align_to as_int size_field
outside_the_map = (refl, refl)

-- An image of that header with no blocks, and the files of a new kernel and ramdisk.
abbrev old_image : Image
old_image = record {
  hdr = hdr_v2;
  base = 0;
  flags = [];
  places = [];
  payload_sz = 64;
  k_fmt = unknown;
  r_fmt = unknown;
  e_fmt = unknown;
  k_hdr = 0;
  r_hdr = 0;
  z_hdr = 0;
  z_info = record { hdr_sz = 0; tail_at = 0; tail_sz = 0 };
  kernel_dtb = (0, 0);
  avb_footer = 0;
  vbmeta = 0;
}

abbrev source : Source
source = record { bytes = raw_v2; sys_page = 4096; heap = [] }

abbrev two_files : Text → Option Text
two_files name =
    if str_eql name (codes "kernel")
    then some (codes "vmlinux")
    else if str_eql name (codes "kernel_dtb")
    then some (codes "tree")
    else if str_eql name (codes "ramdisk.cpio")
    then some (codes "cpio")
    else none

abbrev files : Files
files = record {
  file = two_files;
  mapped_dir = [];
  encode = λ fmt s. s;
  digest = λ sha1 s. zeros 20;
  sha256 = λ s. zeros 32;
  sign = λ s. s;
  patch_vbmeta_flag = false;
  junk = (0, 0, 0);
}

plain : IsPlain files true source old_image
unfolding hdr_size get offset le_bytes width to_le memory str_eql has is_vendor size_field
    kernel_part
plain = record {
  is_hdr = hdr_v2-IsHdr;
  has_page = omega arith;
  page_fits = omega arith;
  in_map = omega arith;
  no_header = refl;
  no_mtk = refl;
  no_mtk_ramdisk = refl;
  no_table = refl;
  is_boot = refl;
  kernel_shown = refl;
  kernel_fits = omega arith;
  old_kernel_is = refl;
  zimage_header_is = refl;
  piggy_fits = refl;
  ramdisk_fits = (omega arith, refl);
  second_fits = tt;
  extra_fits = refl;
  dtbo_fits = refl;
  dtb_fits = tt;
  signature_is = refl;
  bootconfig_fits = tt;
}

write_image-get_blocks_example :
    (write_image files true source old_image ≡ ok (plain_out files true source old_image))
    × Finds
        (plain_out files true source old_image).hdr
        0
        4096
        (new_blocks files true source old_image)
        (hdr_space (plain_out files true source old_image).hdr)
        (plain_out files true source old_image).fd
unfolding write_rest write_kernel start_image put_block copy_block fresh_hdr prologue hdr_space
    memory kernel_part pack_file file_align align_padding as_int get set offset width le_bytes to_le
    store_at str_eql has is_vendor hdr_size size_field place
write_image-get_blocks_example =
    write_image-get_blocks files true source old_image 4096 plain (omega arith) (omega arith)
