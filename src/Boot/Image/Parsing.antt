-- ===== src/Boot/Image/Parsing.antt =====
-- `boot_img::parse_image` of native/src/boot/bootimg.cpp: the checksum's kind, the blocks, the
-- ramdisk, the extra blob and what follows the payload.
use kitsune_ufork.Common.{
  ℕ, suc, ◌+◌, ◌-◌, ◌*◌, ◌%◌, ◌^◌, Bool, ◌&&◌, List, [], ◌∷◌, Text, codes, take, drop, any, not,
  leb, ltb, ◌==◌, if◌then◌else◌, str_starts,
}
use kitsune_ufork.Format.{mtk, unknown}
use kitsune_ufork.Boot.Memory.{load_le}
use kitsune_ufork.Boot.Header.{
  Hdr, get, set, get_str, id, hdr_space, ramdisk_size, extra_size, vendor_ramdisk_table_size,
  vendor_ramdisk_table_entry_num, vendor_ramdisk_table_entry_size,
}
use kitsune_ufork.Boot.Layout.{
  Block, ramdisk, extra, vendor_ramdisk_table, Blocks, crash, corrupted, found, get_blocks,
  all_blocks,
}
use kitsune_ufork.Boot.Search.{word, same_fmt, fdt32}
use kitsune_ufork.Boot.Image.{
  Image, Flag, Parse, ok, refused, exits, crashes, and_then, place, Source, map_end, memory,
  mtk_ramdisk, seandroid_flag, lg_bump_flag, sha256_flag, avb1_signed_flag, avb_flag,
}
use kitsune_ufork.Boot.Image.Kernel.{fmt_lg, mtk_sz, parse_kernel}

-- Bytes of the id behind the length of SHA1 and of the size that follows: it is SHA256.
unfoldable pub sha256_id : Hdr → Bool
sha256_id h = any (λ c. not (c == 0)) (drop 24 (get_str id h))

abbrev sha_flags : Hdr → List Flag → List Flag
sha_flags h fs = if sha256_id h then sha256_flag ∷ fs else fs

abbrev new_image : Hdr → ℕ → List Flag → List (Block × ℕ) → ℕ → Image
new_image h base fs places payload_sz = record {
  hdr = h;
  base = base;
  flags = fs;
  places = places;
  payload_sz = payload_sz;
  k_fmt = unknown;
  r_fmt = unknown;
  e_fmt = unknown;
  k_hdr = 0;
  r_hdr = 0;
  z_hdr = 0;
  z_info = record { hdr_sz = 0; tail_at = 0; tail_sz = 0 };
  kernel_dtb = (0, 0);
  avb_footer = 0;
  vbmeta = 0;
}

abbrev place_blocks : Hdr → ℕ → List Flag → Blocks → Parse Image
place_blocks h base fs crash = crashes
place_blocks h base fs corrupted = refused
place_blocks h base fs (found l end) = ok (new_image h base fs l end)

-- The pointers to the blocks, and the payload.
unfoldable pub parse_blocks : Source → Hdr → ℕ → List Flag → Parse Image
unfolding get_blocks hdr_space
parse_blocks s h base fs =
    place_blocks h base fs (get_blocks h base (map_end s) (hdr_space h) all_blocks)

-- vendor_ramdisk_table_entry_v4: the size, the offset, the type and the name are at 0, 4, 8 and 12.
abbrev pub entry_sz : ℕ
entry_sz = 108

-- The formats of the vendor ramdisks are only printed.
unfoldable pub check_entries : Text → ℕ → ℕ → ℕ → Parse (Unit {0})
unfolding and_then
check_entries mem base at ℕ.zero = ok tt
check_entries mem base at (suc n) =
    let rest = check_entries mem base (at + entry_sz) n in
    and_then (fmt_lg mem (base + load_le 4 (at + 4) mem) (load_le 4 at mem)) λ f. rest

abbrev read_r_fmt : Text → ℕ → Image → Parse Image
read_r_fmt mem size m =
    let at = place ramdisk m.places in
    let next = record m {
      flags = mtk_ramdisk ∷ m.flags;
      r_hdr = at;
      places = (ramdisk, at + mtk_sz) ∷ m.places;
      hdr = set ramdisk_size ((get ramdisk_size m.hdr + word - mtk_sz) % word) m.hdr;
    } in
    and_then (fmt_lg mem at size) λ f.
      if same_fmt f mtk
      then and_then (fmt_lg mem (at + mtk_sz) (get ramdisk_size next.hdr))
          (λ g. ok (record next { r_fmt = g }))
      else ok (record m { r_fmt = f })

unfoldable pub parse_ramdisk : Text → Image → Parse Image
unfolding and_then
parse_ramdisk mem m =
    let size = get ramdisk_size m.hdr in
    let entries =
      check_entries mem (place ramdisk m.places) (place vendor_ramdisk_table m.places)
        (get vendor_ramdisk_table_entry_num m.hdr) in
    if size == 0
    then ok m
    else if get vendor_ramdisk_table_size m.hdr == 0
    then read_r_fmt mem size m
    else if get vendor_ramdisk_table_entry_size m.hdr == entry_sz
    then and_then entries (λ u. ok m)
    else exits

unfoldable pub parse_extra : Text → Image → Parse Image
unfolding and_then
parse_extra mem m =
    let size = get extra_size m.hdr in
    if size == 0
    then ok m
    else and_then (fmt_lg mem (place extra m.places) size) (λ f. ok (record m { e_fmt = f }))

abbrev pub seandroid_magic : Text
seandroid_magic = codes "SEANDROIDENFORCE"

abbrev pub lg_bump_magic : Text
lg_bump_magic =
    0x41 ∷ 0xa9 ∷ 0xe4 ∷ 0x67 ∷ 0x74 ∷ 0x4d ∷ 0x1d ∷ 0x1b ∷ 0xa4 ∷ 0x29 ∷ 0xf2 ∷ 0xec ∷ 0xea ∷ 0x65
    ∷ 0x52 ∷ 0x79 ∷ []

abbrev tail_flags : Text → ℕ → List Flag → List Flag
tail_flags tail sz fs =
    if leb 16 sz && str_starts tail seandroid_magic
    then seandroid_flag ∷ fs
    else if leb 16 sz && str_starts tail lg_bump_magic
    then lg_bump_flag ∷ fs
    else fs

-- AvbFooter is 64 bytes long, with big-endian numbers: vbmeta_offset at 20, vbmeta_size at 28.
abbrev pub footer_sz : ℕ
footer_sz = 64

unfoldable pub be64 : ℕ → Text → ℕ
unfolding fdt32
be64 off s = fdt32 off s * 2 ^ 32 + fdt32 (off + 4) s

-- The offset in the footer is not checked.
unfoldable pub find_vbmeta : Text → ℕ → Image → Parse Image
unfolding be64
find_vbmeta mem end m =
    let at = end - footer_sz in
    let meta = m.base + be64 (at + 20) mem in
    if str_starts (drop at mem) (codes "AVBf")
    then if ltb end (meta + 4)
      then crashes
      else if str_starts (drop meta mem) (codes "AVB0")
      then ok (record m { avb_footer = at; vbmeta = meta; flags = avb_flag ∷ m.flags })
      else ok (record m { avb_footer = at })
    else ok m

-- `verify` is rust::verify_boot_image with no certificate, on the payload and the tail.
unfoldable pub parse_tail : (Text → Text → Bool) → Source → Image → Parse Image
unfolding memory find_vbmeta
parse_tail verify s m =
    let mem = memory s in
    let at = m.base + m.payload_sz in
    let sz = map_end s - at in
    let tail = take sz (drop at mem) in
    let fs = tail_flags tail sz m.flags in
    let signed = verify (take m.payload_sz (drop m.base mem)) tail in
    if sz == 0
    then ok m
    else find_vbmeta mem (map_end s)
        (record m { flags = if signed then avb1_signed_flag ∷ fs else fs })

-- From the header on.
unfoldable pub parse_image : (Text → Text → Bool) → Source → Hdr → ℕ → List Flag → Parse Image
unfolding and_then memory parse_blocks
parse_image verify s h base fs = and_then (parse_blocks s h base (sha_flags h fs)) λ m.
    and_then (parse_kernel (memory s) m) λ m.
      and_then (parse_ramdisk (memory s) m)
        λ m. and_then (parse_extra (memory s) m) λ m. parse_tail verify s m
