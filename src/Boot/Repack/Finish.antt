-- ===== src/Boot/Repack/Finish.antt =====
-- `repack` of native/src/boot/bootimg.cpp, behind the last block: the marks, the meta data of AVB,
-- the padding, and the patches of the written file.
use kitsune_ufork.Common.{
  ℕ, ◌+◌, ◌-◌, ◌/◌, ◌%◌, ◌^◌, Bool, not, ◌||◌, List, [], ◌∷◌, ◌++◌, Text, codes, length, take, drop,
  ltb, ◌==◌, if◌then◌else◌,
}
use kitsune_ufork.Base.Patch.{zeros}
use kitsune_ufork.Boot.Memory.{to_le, store_at, size_mod}
use kitsune_ufork.Boot.Header.{
  Hdr, hdr_size, get, set, hdr_space, has_str, put_str, id, kernel_size, ramdisk_size, second_size,
  extra_size, dtb_size, recovery_dtbo_size, recovery_dtbo_offset, header_size, header_version,
}
use kitsune_ufork.Boot.Layout.{file_align}
use kitsune_ufork.Boot.Search.{word}
use kitsune_ufork.Boot.Image.{
  Flag, has, Image, Parse, ok, and_then, Source, memory, chromeos_flag, mtk_kernel, mtk_ramdisk,
  dhtb_flag, seandroid_flag, lg_bump_flag, sha256_flag, blob_flag, amonet_flag, avb1_signed_flag,
  avb_flag,
}
use kitsune_ufork.Boot.Image.Kernel.{mtk_sz}
use kitsune_ufork.Boot.Image.Parsing.{seandroid_magic, lg_bump_magic, footer_sz, be64}
use kitsune_ufork.Boot.Repack.{Files, Out, align_out, write_image}

abbrev mark_bytes : List Flag → Text
mark_bytes fs =
    if has seandroid_flag fs
    then if has dhtb_flag fs
      then seandroid_magic ++ 0xff ∷ 0xff ∷ 0xff ∷ 0xff ∷ []
      else seandroid_magic
    else if has lg_bump_flag fs
    then lg_bump_magic
    else []

-- The file is as long as the old one at least, but for ChromeOS.
unfoldable pub pad_image : Source → List Flag → Text → Text
unfolding has
pad_image s fs fd = if has chromeos_flag fs then fd else fd ++ zeros (length s.bytes - length fd)

-- The file when it is mapped, with off.total and off.vbmeta.
pub record Written : Type 0 where
  pub out : Text
  pub total : ℕ
  pub vbmeta_off : ℕ

unfoldable pub finish_image : Source → Image → Out → Written
unfolding pad_image file_align has be64 memory
finish_image s m o =
    let marked = o.fd ++ mark_bytes m.flags in
    let aligned = (align_out m (record o { fd = marked })).fd in
    let at = file_align o.header 4096 aligned in
    let size = be64 (m.avb_footer + 28) (memory s) in
    let meta = take size (drop m.vbmeta (memory s)) in
    record {
      out = pad_image s m.flags (if has avb_flag m.flags then at ++ meta else aligned);
      total = length marked % word;
      vbmeta_off = if has avb_flag m.flags then length at % word else 0;
    }

-- MediaTek's header holds the size at 4, and is counted from now on.
unfoldable pub patch_mtk : List Flag → Out → Text → Text × Hdr
unfolding has store_at to_le get set
patch_mtk fs o out =
    let k = get kernel_size o.hdr in
    let r = get ramdisk_size o.hdr in
    let out_k = if has mtk_kernel fs then store_at (o.kernel_off + 4) (to_le 4 k) out else out in
    let hdr_k = if has mtk_kernel fs then set kernel_size (k + mtk_sz) o.hdr else o.hdr in
    if has mtk_ramdisk fs
    then (store_at (o.ramdisk_off + 4) (to_le 4 r) out_k, set ramdisk_size (r + mtk_sz) hdr_k)
    else (out_k, hdr_k)

abbrev piece : ℕ → ℕ → Text → Text
piece at size out = take size (drop at out) ++ to_le 4 size

-- What the checksum is over.
unfoldable pub digest_input : Out → Hdr → Text → Text
unfolding get to_le
digest_input o h out =
    let ver = get header_version h in
    let extra = get extra_size h in
    piece o.kernel_off (get kernel_size h) out
    ++ (piece o.ramdisk_off (get ramdisk_size h) out
        ++ (piece o.second_off (get second_size h) out
            ++ ((if extra == 0 then [] else piece o.extra_off extra out)
                ++ ((if ver == 1 || ver == 2
                      then piece (get recovery_dtbo_offset h) (get recovery_dtbo_size h) out
                      else [])
                    ++ (if ver == 2 then piece o.dtb_off (get dtb_size h) out else [])))))

unfoldable pub put_checksum : Files → List Flag → Out → Hdr → Text → Hdr
unfolding digest_input has put_str
put_checksum f fs o h out =
    if has_str h.kind id
    then put_str id (f.digest (not (has sha256_flag fs)) (digest_input o h out))
        (put_str id (zeros 32) h)
    else h

abbrev smaller : ℕ → ℕ → ℕ
smaller a b = if ltb a b then a else b

-- The header goes where it was; for AMONET behind the loader.
unfoldable pub copy_header : List Flag → ℕ → Hdr → Text → Text
unfolding has store_at hdr_space hdr_size
copy_header fs header h out =
    let room = (hdr_space h + size_mod - 1024) % size_mod in
    if has amonet_flag fs
    then store_at (header + 1024) (take (smaller room (hdr_size h.kind)) h.raw) out
    else store_at header h.raw out

-- Numbers with the high byte first.
unfoldable pub to_be : ℕ → Text
to_be v = v / 2 ^ 24 % 256 ∷ v / 2 ^ 16 % 256 ∷ v / 2 ^ 8 % 256 ∷ v % 256 ∷ []

unfoldable pub to_be64 : ℕ → Text
unfolding to_be
to_be64 v = to_be (v / 2 ^ 32) ++ to_be v

-- The footer is the old one, with two numbers of the new image; `flags` of AvbVBMetaImageHeader is
-- at 120.
unfoldable pub patch_avb : Files → Source → Image → Written → Text → Text
unfolding has store_at to_be to_be64 memory
patch_avb f s m w out =
    let at = length out - footer_sz in
    let footer = take footer_sz (drop m.avb_footer (memory s)) in
    let out_f =
      store_at (at + 20) (to_be64 w.vbmeta_off)
        (store_at (at + 12) (to_be64 w.total) (store_at at footer out)) in
    if has avb_flag m.flags
    then if f.patch_vbmeta_flag then store_at (w.vbmeta_off + 120) (to_be 3) out_f else out_f
    else out

-- dhtb_hdr has the checksum at 8 and the size at 48, blob_hdr the size at 96.
unfoldable pub patch_vendor : Files → List Flag → ℕ → Text → Text
unfolding has store_at to_le
patch_vendor f fs total out =
    let size = (total + word - 512) % word in
    let named = store_at 48 (to_le 4 size) (store_at 0 (codes "DHTB" ++ 1 ∷ 0 ∷ 0 ∷ 0 ∷ []) out) in
    if has dhtb_flag fs
    then store_at 8 (take 32 (f.sha256 (take size (drop 512 named)))) named
    else if has blob_flag fs
    then store_at 96 (to_le 4 ((total + word - 104) % word)) out
    else out

-- The new signature goes behind the image; it may lengthen the file.
unfoldable pub sign_image : Files → List Flag → ℕ → ℕ → Text → Text
unfolding has store_at
sign_image f fs header total out =
    if has avb1_signed_flag fs
    then store_at total (f.sign (take (total - header) (drop header out))) out
    else out

unfoldable pub patch_image : Files → Source → Image → Out → Written → Text
unfolding patch_mtk put_checksum copy_header patch_avb patch_vendor sign_image set hdr_size
patch_image f s m o w =
    let (out, h) = patch_mtk m.flags o w.out in
    let h = set header_size (hdr_size h.kind) h in
    let h = put_checksum f m.flags o h out in
    let out = patch_avb f s m w (copy_header m.flags o.header h out) in
    sign_image f m.flags o.header w.total (patch_vendor f m.flags w.total out)

unfoldable pub repack : Files → Bool → Source → Image → Parse Text
unfolding write_image finish_image patch_image and_then
repack f skip_comp s m =
    and_then (write_image f skip_comp s m) λ o. ok (patch_image f s m o (finish_image s m o))
