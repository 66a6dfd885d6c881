-- ===== src/Boot/Unpack.antt =====
-- `unpack`, `split_image_dtb`, `sign` and `verify` of native/src/boot/bootimg.cpp.
use kitsune_ufork.Common.{
  ℕ, suc, ◌+◌, ◌-◌, ◌^◌, Bool, not, ◌&&◌, Option, none, some, List, [], ◌∷◌, ◌++◌, Text, codes,
  length, take, drop, ltb, ◌==◌, if◌then◌else◌, c_str,
}
use kitsune_ufork.Base.Patch.{zeros}
use kitsune_ufork.Format.{Format, compressed}
use kitsune_ufork.Boot.Memory.{load_le, store_at}
use kitsune_ufork.Boot.Header.{
  get, kernel_size, ramdisk_size, second_size, extra_size, recovery_dtbo_size, dtb_size,
  bootconfig_size, vendor_ramdisk_table_size, vendor_ramdisk_table_entry_num,
}
use kitsune_ufork.Boot.Fields.{dump_hdr_file}
use kitsune_ufork.Boot.Layout.{
  Block, kernel, ramdisk, second, extra, recovery_dtbo, dtb, vendor_ramdisk_table, bootconfig,
}
use kitsune_ufork.Boot.Search.{find_dtb_offset}
use kitsune_ufork.Boot.Image.{
  Image, Parse, ok, and_then, place, has, Source, memory, chromeos_flag, avb1_signed_flag,
}
use kitsune_ufork.Boot.Image.Kernel.{fmt_lg}
use kitsune_ufork.Boot.Image.Parsing.{entry_sz}

-- A file that is made: its name, and its bytes.
abbrev pub Made : Type 0
Made = List (Text × Text)

-- dump: nothing is made of nothing.
unfoldable pub dump : Text → Text → Made
dump name [] = []
dump name (c ∷ s) = (name, c ∷ s) ∷ []

-- A block that may be decompressed, where `decode` is what the decoder writes.
unfoldable pub dump_block : (Format → Text → Text) → Bool → Format → Text → Text → Made
unfolding dump
dump_block decode skip_decomp fmt name [] = []
dump_block decode skip_decomp fmt name (c ∷ s) =
    if not skip_decomp && compressed fmt then (name, decode fmt (c ∷ s)) ∷ [] else dump name (c ∷ s)

abbrev pub block_bytes : Source → Image → Block → ℕ → Text
block_bytes s m b n = take n (drop (place b m.places) (memory s))

-- The name in an entry, of 32 bytes at 12; `file_name` holds 39 of them and the ending.
abbrev entry_file : Text → Text
entry_file name = elim name [
  | [] ↦ codes "vendor_ramdisk/ramdisk.cpio"
  | c ∷ cs ↦ codes "vendor_ramdisk/" ++ take 39 ((c ∷ cs) ++ codes ".cpio")
]

-- The vendor ramdisks; unlike a block, an empty one makes a file.
unfoldable pub unpack_entries : (Format → Text → Text) → Bool → Text → ℕ → ℕ → ℕ → Parse Made
unfolding and_then
unpack_entries decode skip_decomp mem base at ℕ.zero = ok []
unpack_entries decode skip_decomp mem base at (suc n) =
    let entry = take entry_sz (drop at mem) in
    let sz = load_le 4 0 entry in
    let off = base + load_le 4 4 entry in
    let bytes = take sz (drop off mem) in
    let name = entry_file (c_str (take 32 (drop 12 entry))) in
    and_then (fmt_lg mem off sz) λ fmt.
      and_then (unpack_entries decode skip_decomp mem base (at + entry_sz) n) λ made.
        ok ((name, (if not skip_decomp && compressed fmt then decode fmt bytes else bytes)) ∷ made)

unfoldable pub unpack_ramdisk : (Format → Text → Text) → Bool → Source → Image → Parse Made
unfolding unpack_entries dump_block get place memory
unpack_ramdisk decode skip_decomp s m =
    if get vendor_ramdisk_table_size m.hdr == 0
    then ok (
        dump_block decode skip_decomp m.r_fmt (codes "ramdisk.cpio")
          (block_bytes s m ramdisk (get ramdisk_size m.hdr)))
    else unpack_entries decode skip_decomp (memory s) (place ramdisk m.places)
        (place vendor_ramdisk_table m.places) (get vendor_ramdisk_table_entry_num m.hdr)

-- The files, and the exit code.
unfoldable pub unpack : (Format → Text → Text) → Bool → Bool → Source → Image → Parse (Made × ℕ)
unfolding unpack_ramdisk dump_block dump and_then get place memory has dump_hdr_file
unpack decode skip_decomp hdr s m =
    let head = if hdr then (codes "header", dump_hdr_file m.hdr) ∷ [] else [] in
    let kernel_made =
      dump_block decode skip_decomp m.k_fmt (codes "kernel")
        (block_bytes s m kernel (get kernel_size m.hdr)) in
    let dtb_made =
      dump (codes "kernel_dtb") (take m.kernel_dtb.1 (drop m.kernel_dtb.0 (memory s))) in
    let rest =
      dump (codes "second") (block_bytes s m second (get second_size m.hdr))
      ++ (dump_block decode skip_decomp m.e_fmt (codes "extra")
            (block_bytes s m extra (get extra_size m.hdr))
          ++ (dump (codes "recovery_dtbo")
                (block_bytes s m recovery_dtbo (get recovery_dtbo_size m.hdr))
              ++ (dump (codes "dtb") (block_bytes s m dtb (get dtb_size m.hdr))
                  ++ dump (codes "bootconfig")
                      (block_bytes s m bootconfig (get bootconfig_size m.hdr))))) in
    and_then (unpack_ramdisk decode skip_decomp s m) λ made. ok (
      head ++ (kernel_made ++ (dtb_made ++ (made ++ rest))),
      if has chromeos_flag m.flags then 2 else 0,
    )

-- `split_image_dtb` of a file: the kernel and the device tree, and the exit code. An offset is an
-- int.
unfoldable pub split_image_dtb : (Format → Text → Text) → Bool → Text → Parse (Made × ℕ)
unfolding dump and_then
split_image_dtb decode skip_decomp img = elim (find_dtb_offset img (length img)) [
  | none ↦ ok ([], 1)
  | some off ↦
      if ltb 0 off && ltb off (2 ^ 31)
      then and_then (fmt_lg img 0 (length img)) (λ fmt. ok (
        (if not skip_decomp && compressed fmt
              then (codes "kernel", decode fmt (take off img)) ∷ []
              else dump (codes "kernel") (take off img))
            ++ dump (codes "kernel_dtb") (drop off img),
        0,
      ))
      else ok ([], 1)
]

-- `verify` without a certificate asks what the parsing found out; the exit code.
unfoldable pub verify : (Text → Text → Text → Bool) → Option Text → Source → Image → ℕ
unfolding has memory
verify with_cert none s m = if has avb1_signed_flag m.flags then 0 else 1
verify with_cert (some cert) s m =
    let payload = take m.payload_sz (drop m.base (memory s)) in
    let tail = drop (m.base + m.payload_sz) (memory s) in
    if with_cert cert payload tail then 0 else 1

-- `sign`: the file and the exit code, where `sig` is rust::sign_boot_image of the payload. The rest
-- of the tail is wiped.
unfoldable pub sign : Text → Source → Image → Text × ℕ
unfolding store_at
sign [] s m = (s.bytes, 1)
sign (c ∷ sig) s m =
    let eof = m.base + m.payload_sz in
    let signed = store_at eof (c ∷ sig) (s.bytes ++ zeros (eof - length s.bytes)) in
    let off = eof + length (c ∷ sig) in (store_at off (zeros (length s.bytes - off)) signed, 0)
