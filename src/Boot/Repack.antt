-- ===== src/Boot/Repack.antt =====
-- `repack` of native/src/boot/bootimg.cpp, up to the last block.
pub mod Finish
pub mod Sizes
pub mod Between
pub mod Regular
pub mod Reset
pub mod Counted
pub mod Plain
pub mod RoundTrip
use kitsune_ufork.Common.{
  ℕ, zero, suc, ◌+◌, ◌-◌, ◌*◌, ◌%◌, ◌^◌, Bool, true, false, not, ◌&&◌, ◌||◌, Option, none, some,
  List, [], ◌∷◌, ◌++◌, Text, codes, length, take, drop, leb, ltb, ◌==◌, if◌then◌else◌,
}
use kitsune_ufork.Base.Patch.{zeros}
use kitsune_ufork.Format.{Format, gzip, zopfli, lz4_legacy, compressed, compressed_any, check_fmt}
use kitsune_ufork.Boot.Memory.{load_le, to_le, store_at, size_mod, as_int}
use kitsune_ufork.Boot.Header.{
  Hdr, is_vendor, get, set, hdr_space, kernel_size, ramdisk_size, second_size, dtb_size,
  bootconfig_size, header_version, page_size, signature_size, recovery_dtbo_offset,
  vendor_ramdisk_table_size, vendor_ramdisk_table_entry_num,
}
use kitsune_ufork.Boot.Fields.{Junk, load_hdr_file}
use kitsune_ufork.Boot.Layout.{
  Block, kernel, ramdisk, second, extra, recovery_dtbo, dtb, signature, vendor_ramdisk_table,
  bootconfig, size_field, file_align,
}
use kitsune_ufork.Boot.Search.{word, same_fmt}
use kitsune_ufork.Boot.Image.{
  Flag, has, Image, Parse, ok, and_then, place, Source, memory, mtk_kernel, mtk_ramdisk, dhtb_flag,
  blob_flag, nookhd_flag, acclaim_flag, zimage_kernel,
}
use kitsune_ufork.Boot.Image.Kernel.{fmt_lg, mtk_sz}
use kitsune_ufork.Boot.Image.Parsing.{entry_sz}

-- The working directory and the code outside of the repository: the files that access() finds
-- readable, what mapping the directory of the vendor ramdisks as a file gives, what an encoder
-- makes of its input, the digests, the signature, the environment, and uninitialised variables.
pub record Files : Type 0 where
  pub file : Text → Option Text
  pub mapped_dir : Text
  pub encode : Format → Text → Text
  pub digest : Bool → Text → Text
  pub sha256 : Text → Text
  pub sign : Text → Text
  pub patch_vbmeta_flag : Bool
  pub junk : Junk

-- The new file, which is only written at its end so far, its header, and the members of `off`.
pub record Out : Type 0 where
  pub fd : Text
  pub hdr : Hdr
  pub header : ℕ
  pub kernel_off : ℕ
  pub ramdisk_off : ℕ
  pub second_off : ℕ
  pub extra_off : ℕ
  pub dtb_off : ℕ

-- lseek(fd, 0, SEEK_CUR), as a uint32_t.
abbrev pub here : Out → ℕ
here o = length o.fd % word

-- What stands before the header.
unfoldable pub prologue : Source → List Flag → Text
unfolding has
prologue s fs =
    if has dhtb_flag fs
    then zeros 512
    else if has blob_flag fs
    then take 104 s.bytes
    else if has nookhd_flag fs
    then take 1048576 s.bytes
    else if has acclaim_flag fs
    then take 262144 s.bytes
    else []

abbrev pub load_header : Option Text → Junk → Hdr → Hdr
load_header none junk h = h
load_header (some file) junk h = load_hdr_file junk file h

-- The sizes that are reset, and the header file.
unfoldable pub fresh_hdr : Files → Hdr → Hdr
unfolding set load_hdr_file
fresh_hdr f h = load_header (f.file (codes "header")) f.junk (
    set bootconfig_size 0
      (set dtb_size 0 (set second_size 0 (set ramdisk_size 0 (set kernel_size 0 h)))))

-- The raw header is copied from the old image.
unfoldable pub start_image : Files → Source → Image → Out
unfolding fresh_hdr prologue hdr_space memory
start_image f s m =
    let h = fresh_hdr f m.hdr in
    let head = prologue s m.flags in
    let fd = head ++ take (hdr_space h) (drop m.base (memory s)) in
    record {
      fd = fd;
      hdr = h;
      header = length head;
      kernel_off = length fd % word;
      ramdisk_off = 0;
      second_off = 0;
      extra_off = 0;
      dtb_off = 0;
    }

-- A file that is not compressed yet is, if the block was.
unfoldable pub pack_file : Files → Bool → Format → Text → Text
pack_file f skip_comp fmt m =
    if not skip_comp && (not (compressed_any (check_fmt m)) && compressed fmt)
    then f.encode fmt m
    else m

-- Bytes for a block, and the size that its header gets for them.
pub record Part : Type 0 where
  pub bytes : Text
  pub size : ℕ

abbrev pub old_kernel : Source → Image → Part
old_kernel s m =
    let n = get kernel_size m.hdr in
    record { bytes = take n (drop (place kernel m.places) (memory s)); size = n }

-- The piggy of a zImage keeps its size: a larger one is dropped for the old one, a smaller one is
-- padded, and its last four bytes are the size of the kernel. The difference is a size_t.
unfoldable pub fit_piggy : Bool → Part → Text → Text → Part
unfolding to_le
fit_piggy skip_comp old m w =
    let n = length w % word in
    let pad = (old.size - n + size_mod - 4) % size_mod in
    if ltb old.size n then old else record {
      bytes = if skip_comp then w else w ++ (zeros pad ++ to_le 4 (length m));
      size = old.size;
    }

abbrev pub kernel_file : Files → Bool → Image → Part → Option Text → Part
kernel_file f skip_comp m old none = old
kernel_file f skip_comp m old (some k) =
    let zimage = has zimage_kernel m.flags in
    let fmt = if zimage && same_fmt m.k_fmt gzip then zopfli else m.k_fmt in
    let w = pack_file f skip_comp fmt k in
    if zimage then fit_piggy skip_comp old k w else record { bytes = w; size = length w % word }

abbrev pub or_empty : Option Text → Text
or_empty none = []
or_empty (some t) = t

-- The whole kernel block but for MediaTek's header, which its size does not count yet.
unfoldable pub kernel_part : Files → Bool → Source → Image → Part
unfolding pack_file fit_piggy memory has place get
kernel_part f skip_comp s m =
    let mem = memory s in
    let p = kernel_file f skip_comp m (old_kernel s m) (f.file (codes "kernel")) in
    let z = m.z_info in
    let tail = take z.tail_sz (drop z.tail_at mem) in
    let dtb = or_empty (f.file (codes "kernel_dtb")) in
    if has zimage_kernel m.flags
    then record {
      bytes = take z.hdr_sz (drop m.z_hdr mem) ++ (p.bytes ++ (tail ++ dtb));
      size = p.size + z.hdr_sz + length tail + length dtb;
    }
    else record { bytes = p.bytes ++ dtb; size = p.size + length dtb }

abbrev pub mtk_header : Source → Bool → ℕ → Text
mtk_header s flag at = if flag then take mtk_sz (drop at (memory s)) else []

-- file_align(): `page_size` is the old image's.
abbrev pub align_out : Image → Out → Out
align_out m o = record o { fd = file_align o.header (as_int (get page_size m.hdr)) o.fd }

unfoldable pub write_kernel : Files → Bool → Source → Image → Out → Out
unfolding kernel_part memory file_align as_int get set has
write_kernel f skip_comp s m o =
    let p = kernel_part f skip_comp s m in
    align_out m (record o {
      fd = o.fd ++ (mtk_header s (has mtk_kernel m.flags) m.k_hdr ++ p.bytes);
      hdr = set kernel_size p.size o.hdr;
    })

-- A block that the file may have: its bytes, its size, and the padding.
unfoldable pub put_block : Image → Block → Option Text → Out → Out
unfolding file_align as_int get set size_field
put_block m b none o = o
put_block m b (some c) o =
    align_out m (record o { fd = o.fd ++ c; hdr = set (size_field b) (length c) o.hdr })

-- A block that is copied, with the size that the header has.
unfoldable pub copy_block : Image → Text → Out → Out
unfolding file_align as_int get
copy_block m [] o = o
copy_block m (c ∷ cs) o = align_out m (record o { fd = o.fd ++ c ∷ cs })

-- A v4 boot image has its ramdisk in lz4_legacy.
unfoldable pub ramdisk_fmt : Bool → Hdr → Format → Format
unfolding get
ramdisk_fmt skip_comp h fmt =
    if not skip_comp && (not (is_vendor h.kind) && get header_version h == 4)
    then lz4_legacy
    else fmt

-- The vendor ramdisks: for each entry the bytes that its file gives, and the entry with the new
-- offset and size.
unfoldable pub pack_entries : Files → Bool → Text → ℕ → ℕ → ℕ → ℕ → Parse (Text × Text)
unfolding and_then pack_file store_at to_le
pack_entries f skip_comp mem old_ramdisk at offset zero = ok ([], [])
pack_entries f skip_comp mem old_ramdisk at offset (suc n) =
    let entry = take entry_sz (drop at mem) in
    and_then (fmt_lg mem (old_ramdisk + load_le 4 4 entry) (load_le 4 0 entry)) λ fmt.
      let w = pack_file f skip_comp fmt f.mapped_dir in
      let entry' = store_at 0 (to_le 4 (length w)) (store_at 4 (to_le 4 offset) entry) in
      and_then
        (pack_entries f skip_comp mem old_ramdisk (at + entry_sz) ((offset + length w) % word) n)
        λ (bytes, table). ok (w ++ bytes, entry' ++ table)

abbrev pub pack_some : Files → Bool → Format → Option Text → Option Text
pack_some f skip_comp fmt none = none
pack_some f skip_comp fmt (some c) = some (pack_file f skip_comp fmt c)

-- The ramdisk block, and the table that goes with it.
unfoldable pub write_ramdisk : Files → Bool → Source → Image → Out → Parse (Out × Text)
unfolding memory has pack_file ramdisk_fmt put_block pack_entries and_then place get
write_ramdisk f skip_comp s m o =
    let mem = memory s in
    let o = record o { ramdisk_off = here o } in
    let head = mtk_header s (has mtk_ramdisk m.flags) m.r_hdr in
    let o = record o { fd = o.fd ++ head } in
    let n = get vendor_ramdisk_table_entry_num m.hdr in
    let entries =
      pack_entries f skip_comp mem (place ramdisk m.places) (place vendor_ramdisk_table m.places) 0
        n in
    let fmt = ramdisk_fmt skip_comp o.hdr m.r_fmt in
    let packed = pack_some f skip_comp fmt (f.file (codes "ramdisk.cpio")) in
    if get vendor_ramdisk_table_size m.hdr == 0
    then ok (put_block m ramdisk packed o, [])
    else and_then entries (λ (bytes, table). ok (put_block m ramdisk (some bytes) o, table))

-- recovery_dtbo_offset is written only when the file is there.
abbrev pub mark_dtbo : Option Text → Out → Out
mark_dtbo none o = o
mark_dtbo (some c) o = record o { hdr = set recovery_dtbo_offset (length o.fd) o.hdr }

-- The blocks behind the ramdisk, in their order.
unfoldable pub write_rest : Files → Bool → Source → Image → Text → Out → Out
unfolding memory put_block copy_block pack_file place get set
write_rest f skip_comp s m table o =
    let o = put_block m second (f.file (codes "second")) (record o { second_off = here o }) in
    let o =
      put_block m extra (pack_some f skip_comp m.e_fmt (f.file (codes "extra")))
        (record o { extra_off = here o }) in
    let o =
      put_block m recovery_dtbo (f.file (codes "recovery_dtbo"))
        (mark_dtbo (f.file (codes "recovery_dtbo")) o) in
    let o = put_block m dtb (f.file (codes "dtb")) (record o { dtb_off = here o }) in
    let sig = take (get signature_size m.hdr) (drop (place signature m.places) (memory s)) in
    let o = copy_block m sig o in
    let o = copy_block m table o in put_block m bootconfig (f.file (codes "bootconfig")) o

-- Everything up to the bootconfig.
unfoldable pub write_image : Files → Bool → Source → Image → Parse Out
unfolding start_image write_kernel write_ramdisk write_rest and_then
write_image f skip_comp s m =
    and_then (write_ramdisk f skip_comp s m (write_kernel f skip_comp s m (start_image f s m)))
      λ (o, table). ok (write_rest f skip_comp s m table o)
