-- ===== src/Boot/Image/Kernel.antt =====
-- `boot_img::parse_image` of native/src/boot/bootimg.cpp, on the kernel.
use kitsune_ufork.Common.{
  ℕ, suc, ◌+◌, ◌-◌, ◌%◌, ◌^◌, true, false, ◌&&◌, none, some, ◌∷◌, Text, drop, ltb, ◌==◌,
  if◌then◌else◌,
}
use kitsune_ufork.Format.{Format, mtk, zimage}
use kitsune_ufork.Boot.Memory.{load_le}
use kitsune_ufork.Boot.Header.{kernel_size, get, set}
use kitsune_ufork.Boot.Layout.{kernel}
use kitsune_ufork.Boot.Search.{
  word, same_fmt, check_fmt_lg, find_dtb_offset, find_piggy, find_piggy_end,
}
use kitsune_ufork.Boot.Image.{Image, Parse, ok, hangs, and_then, place, mtk_kernel, zimage_kernel}

abbrev pub fmt_lg : Text → ℕ → ℕ → Parse Format
fmt_lg mem at sz = elim (check_fmt_lg (suc sz) (drop at mem) sz) [ none ↦ hangs | some f ↦ ok f ]

-- `hdr->kernel_size() -= n`
abbrev less : ℕ → ℕ → ℕ
less a n = (a + word - n) % word

abbrev pub mtk_sz : ℕ
mtk_sz = 512

-- A device tree behind the kernel is taken off it. The offset is an int: it is used if positive.
unfoldable pub split_dtb : Text → Image → Image
split_dtb mem m =
    let size = get kernel_size m.hdr in
    let at = place kernel m.places in
    elim (find_dtb_offset (drop at mem) size) [
      | none ↦ m
      | some off ↦
          if ltb 0 off && ltb off (2 ^ 31)
          then record m { kernel_dtb = (at + off, size - off); hdr = set kernel_size off m.hdr }
          else m
    ]

-- `k_fmt = check_fmt_lg(kernel, hdr->kernel_size())`
abbrev read_k_fmt : Text → Image → Parse Image
read_k_fmt mem m =
    and_then (fmt_lg mem (place kernel m.places) (get kernel_size m.hdr))
      λ f. ok (record m { k_fmt = f })

-- The header of MediaTek is skipped.
unfoldable pub skip_mtk : Text → Image → Parse Image
unfolding and_then
skip_mtk mem m =
    let at = place kernel m.places in
    elim (same_fmt m.k_fmt mtk) [
      | true ↦ read_k_fmt mem (record m {
        flags = mtk_kernel ∷ m.flags;
        k_hdr = at;
        places = (kernel, at + mtk_sz) ∷ m.places;
        hdr = set kernel_size (less (get kernel_size m.hdr) mtk_sz) m.hdr;
      })
      | false ↦ ok m
    ]

-- The kernel becomes the piggy, if its end is found.
unfoldable pub take_piggy : Text → ℕ → Image → Parse Image
unfolding and_then
take_piggy mem found_pos m =
    let at = place kernel m.places in
    let size = get kernel_size m.hdr in
    let zimage_size = less (load_le 4 (at + 44) mem) (load_le 4 (at + 40) mem) in
    let piggy_end = find_piggy_end (drop (at + zimage_size - 64) mem) zimage_size in
    if piggy_end == zimage_size
    then ok (record m { z_hdr = at; z_info = record m.z_info { hdr_sz = found_pos } })
    else read_k_fmt mem (record m {
      flags = zimage_kernel ∷ m.flags;
      z_hdr = at;
      z_info = record {
        hdr_sz = found_pos;
        tail_at = at + piggy_end;
        tail_sz = less size piggy_end;
      };
      places = (kernel, at + found_pos) ∷ m.places;
      hdr = set kernel_size (less piggy_end found_pos) m.hdr;
    })

unfoldable pub open_zimage : Text → Image → Parse Image
open_zimage mem m =
    let at = place kernel m.places in
    let size = get kernel_size m.hdr in
    elim (same_fmt m.k_fmt zimage) [
      | true ↦ elim (find_piggy (suc size) (drop at mem) size) [
        | none ↦ hangs
        | some none ↦ ok (record m { z_hdr = at })
        | some (some pos) ↦ take_piggy mem pos m
      ]
      | false ↦ ok m
    ]

unfoldable pub parse_kernel : Text → Image → Parse Image
unfolding and_then
parse_kernel mem m =
    if get kernel_size m.hdr == 0
    then ok m
    else and_then (read_k_fmt mem (split_dtb mem m))
        λ m. and_then (skip_mtk mem m) (open_zimage mem)
