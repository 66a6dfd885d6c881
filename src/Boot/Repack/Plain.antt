-- ===== src/Boot/Repack/Plain.antt =====
-- A plain image, and `repack` of native/src/boot/bootimg.cpp on it up to the kernel.
use kitsune_ufork.Common.{
  ℕ, ◌+◌, ◌-◌, ◌%◌, ◌^◌, ◌≤◌, ◌<◌, ◌≡◌, refl, ap, ◌∙◌, Bool, true, false, not, ◌||◌, leb, Option,
  none, some, List, [], ◌∷◌, ◌++◌, Text, codes, length, take, drop, arith, length-append,
  length-take,
}
use kitsune_ufork.Boot.Memory.{as_int}
use kitsune_ufork.Boot.Memory.Laws.{round_up_self}
use kitsune_ufork.Boot.Header.{
  Hdr, get, set, page_size, shown, hdr_space, is_vendor, signature_size, vendor_ramdisk_table_size,
}
use kitsune_ufork.Boot.Header.Laws.{IsHdr}
use kitsune_ufork.Boot.Layout.{
  Block, kernel, ramdisk, second, extra, recovery_dtbo, dtb, signature, vendor_ramdisk_table,
  bootconfig, size_field, file_align, write_blocks,
}
use kitsune_ufork.Boot.Layout.Inside.{as_int_lem}
use kitsune_ufork.Boot.Image.{
  Image, Source, memory, has, mtk_kernel, zimage_kernel, mtk_ramdisk, place,
}
use kitsune_ufork.Boot.Repack.{
  Files, Out, old_kernel, kernel_part, pack_some, fresh_hdr, prologue, start_image, write_kernel,
  ramdisk_fmt,
}
use kitsune_ufork.Boot.Repack.Counted.{kernel_fits_piggy, kernel_part-IsWhole, kernel_block}
use kitsune_ufork.Boot.Repack.Between.{Writing, Fits, or_nothing, file_align_aligned, written}
use kitsune_ufork.Boot.Repack.Reset.{reset_hdr, reset_hdr-IsHdr, reset_hdr-page}

-- What is written for the ramdisk, the extra blob and the signature.
abbrev pub ramdisk_file : Files → Bool → Image → Option Text
ramdisk_file f skip_comp m =
    pack_some f skip_comp (ramdisk_fmt skip_comp (reset_hdr m.hdr) m.r_fmt)
      (f.file (codes "ramdisk.cpio"))

abbrev pub extra_file : Files → Bool → Image → Option Text
extra_file f skip_comp m = pack_some f skip_comp m.e_fmt (f.file (codes "extra"))

abbrev pub old_signature : Source → Image → Text
old_signature s m = take (get signature_size m.hdr) (drop (place signature m.places) (memory s))

-- A block's new bytes fit the field that the header class has for their length.
abbrev pub FitsIfThere : Hdr → Block → Option Text → Type 0
FitsIfThere h b none = Unit
FitsIfThere h b (some c) = (length c < 2 ^ 32) × (shown h.kind (size_field b) ≡ true)

-- An image without MediaTek's headers and without a table of vendor ramdisks, whose header is kept,
-- with files that its fields can measure. `extra` and `recovery_dtbo`, whose sizes are not reset,
-- are only missing where the old image had none. Its kernel, a zImage's header and the signature are
-- in the map, and a new kernel of a zImage fits the place of the old one.
pub record IsPlain (f : Files) (skip_comp : Bool) (s : Source) (m : Image) : Type 0 where
  pub is_hdr : IsHdr m.hdr
  pub has_page : 0 < get page_size m.hdr
  pub page_fits : get page_size m.hdr < 2 ^ 31
  pub in_map : get page_size m.hdr ≤ length (drop m.base (memory s))
  pub no_header : f.file (codes "header") ≡ none
  pub no_mtk : has mtk_kernel m.flags ≡ false
  pub no_mtk_ramdisk : has mtk_ramdisk m.flags ≡ false
  pub no_table : get vendor_ramdisk_table_size m.hdr ≡ 0
  pub is_boot : is_vendor m.hdr.kind ≡ false
  pub kernel_shown : shown m.hdr.kind (size_field kernel) ≡ true
  pub kernel_fits : length (kernel_part f skip_comp s m).bytes < 2 ^ 32
  pub old_kernel_is : (old_kernel s m).size ≡ length (old_kernel s m).bytes
  pub zimage_header_is :
      (not (has zimage_kernel m.flags) || leb m.z_info.hdr_sz (length (drop m.z_hdr (memory s))))
      ≡ true
  pub piggy_fits : kernel_fits_piggy f skip_comp m (old_kernel s m) (f.file (codes "kernel")) ≡ true
  pub ramdisk_fits : FitsIfThere m.hdr ramdisk (ramdisk_file f skip_comp m)
  pub second_fits : FitsIfThere m.hdr second (f.file (codes "second"))
  pub extra_fits : Fits m.hdr extra (extra_file f skip_comp m)
  pub dtbo_fits : Fits m.hdr recovery_dtbo (f.file (codes "recovery_dtbo"))
  pub dtb_fits : FitsIfThere m.hdr dtb (f.file (codes "dtb"))
  pub signature_is : get signature_size m.hdr ≡ length (old_signature s m)
  pub bootconfig_fits : FitsIfThere m.hdr bootconfig (f.file (codes "bootconfig"))

-- The new blocks.
abbrev pub blocks_behind : Files → Bool → Source → Image → List (Block × Text)
blocks_behind f skip_comp s m =
    (ramdisk, or_nothing (ramdisk_file f skip_comp m))
    ∷ (second, or_nothing (f.file (codes "second")))
    ∷ (extra, or_nothing (extra_file f skip_comp m))
    ∷ (recovery_dtbo, or_nothing (f.file (codes "recovery_dtbo")))
    ∷ (dtb, or_nothing (f.file (codes "dtb")))
    ∷ (signature, old_signature s m)
    ∷ (vendor_ramdisk_table, [])
    ∷ (bootconfig, or_nothing (f.file (codes "bootconfig")))
    ∷ []

abbrev pub written_blocks : Files → Bool → Source → Image → List (Block × Text)
written_blocks f skip_comp s m =
    (kernel, (kernel_part f skip_comp s m).bytes) ∷ blocks_behind f skip_comp s m

abbrev pub new_blocks : Files → Bool → Source → Image → List (Block × Text)
new_blocks f skip_comp s m = (kernel, kernel_block f skip_comp s m) ∷ blocks_behind f skip_comp s m

pub Fits-reset :
    (b : Block) (c : Option Text) (h : Hdr)
    → get (size_field b) (reset_hdr h) ≡ 0
    → FitsIfThere h b c
    → Fits (reset_hdr h) b c
unfolding set
Fits-reset b none h z x = z
Fits-reset b (some c) h z x = x

pub Fits-kept :
    (b : Block) (c : Option Text) (h : Hdr)
    → get (size_field b) (reset_hdr h) ≡ get (size_field b) h
    → Fits h b c
    → Fits (reset_hdr h) b c
unfolding set
Fits-kept b none h z x = z ∙ x
Fits-kept b (some c) h z x = x

-- The header is copied; nothing is before the blocks but what stands before it.
abbrev pub start_of : Source → Image → ℕ
start_of s m = length (prologue s m.flags)

fresh_is : (f : Files) (h : Hdr) → f.file (codes "header") ≡ none → fresh_hdr f h ≡ reset_hdr h
unfolding fresh_hdr size_field
fresh_is f h e = rw e refl

pub space_is : (h : Hdr) → is_vendor h.kind ≡ false → hdr_space h ≡ get page_size h
unfolding hdr_space
space_is h b = rw b refl

reset_space :
    (h : Hdr) → IsHdr h → is_vendor h.kind ≡ false → hdr_space (reset_hdr h) ≡ get page_size h
unfolding set
reset_space h i b = space_is (reset_hdr h) b ∙ reset_hdr-page h i

pub started :
    (f : Files) (s : Source) (m : Image)
    → f.file (codes "header") ≡ none
    → start_image f s m ≡ record {
      fd = prologue s m.flags ++ take (hdr_space (reset_hdr m.hdr)) (drop m.base (memory s));
      hdr = reset_hdr m.hdr;
      header = length (prologue s m.flags);
      kernel_off =
          length (prologue s m.flags ++ take (hdr_space (reset_hdr m.hdr)) (drop m.base (memory s)))
          % 2 ^ 32;
      ramdisk_off = 0;
      second_off = 0;
      extra_off = 0;
      dtb_off = 0;
    }
unfolding start_image
started f s m e = rw (fresh_is f m.hdr e) refl

-- Where the header is copied to, and how much.
pub start_length :
    (s : Source) (m : Image)
    → IsHdr m.hdr
    → is_vendor m.hdr.kind ≡ false
    → get page_size m.hdr ≤ length (drop m.base (memory s))
    → length (prologue s m.flags ++ take (hdr_space (reset_hdr m.hdr)) (drop m.base (memory s)))
      ≡ start_of s m + get page_size m.hdr
start_length s m i b k = rw (reset_space m.hdr i b) (
    omega (
      arith,
      length-append (prologue s m.flags) (take (get page_size m.hdr) (drop m.base (memory s))),
      length-take (get page_size m.hdr) (drop m.base (memory s)) k,
    ))

starts_Writing :
    (f : Files) (skip_comp : Bool) (s : Source) (m : Image)
    → IsPlain f skip_comp s m
    → Writing
        (get page_size m.hdr)
        (start_of s m)
        0
        (reset_hdr m.hdr)
        (start_image f s m).fd
        []
        (start_image f s m)
unfolding write_blocks
starts_Writing f skip_comp s m p =
    let n = start_length s m p.is_hdr p.is_boot p.in_map in
    let page = get page_size m.hdr in
    let far : length
            (prologue s m.flags ++ take (hdr_space (reset_hdr m.hdr)) (drop m.base (memory s)))
          - start_of s m
        ≡ page =
      omega (arith, n) in
    rw (started f s m p.no_header) (record {
      file = refl;
      aligned = file_align_aligned (start_of s m) page _ (rw far (round_up_self page p.has_page));
      at_header = refl;
      starts = omega (arith, n);
      is_hdr = reset_hdr-IsHdr m.hdr p.is_hdr;
      kind = refl;
      paged = reset_hdr-page m.hdr p.is_hdr;
      below = tt;
      claims = tt;
      rest = λ b k. refl;
    })

kernel_file_is :
    (f : Files) (skip_comp : Bool) (s : Source) (m : Image) (o : Out)
    → has mtk_kernel m.flags ≡ false
    → (write_kernel f skip_comp s m o).fd
      ≡ file_align o.header
          (as_int (get page_size m.hdr))
          (o.fd ++ (kernel_part f skip_comp s m).bytes)
unfolding write_kernel
kernel_file_is f skip_comp s m o e = rw e refl

pub kernel_Writing :
    (f : Files) (skip_comp : Bool) (s : Source) (m : Image)
    → IsPlain f skip_comp s m
    → Writing
        (get page_size m.hdr)
        (start_of s m)
        1
        (reset_hdr m.hdr)
        (start_image f s m).fd
        ((kernel, (kernel_part f skip_comp s m).bytes) ∷ [])
        (write_kernel f skip_comp s m (start_image f s m))
unfolding write_kernel size_field
kernel_Writing f skip_comp s m p =
    let w = starts_Writing f skip_comp s m p in
    let c = (kernel_part f skip_comp s m).bytes in
    let o = start_image f s m in
    let page = get page_size m.hdr in
    written page (start_of s m) 0 (reset_hdr m.hdr) o.fd c [] kernel o
      (write_kernel f skip_comp s m o) p.has_page w refl p.kernel_fits p.kernel_shown
      (kernel_file_is f skip_comp s m o p.no_mtk
        ∙ ap (λ (x : ℕ). file_align x (as_int page) (o.fd ++ c)) w.at_header
        ∙ ap (λ (x : ℕ). file_align (start_of s m) x (o.fd ++ c)) (as_int_lem page p.page_fits))
      (ap (λ (n : ℕ). set (size_field kernel) n o.hdr)
        (kernel_part-IsWhole f skip_comp s m p.old_kernel_is p.zimage_header_is p.piggy_fits
          p.kernel_fits))
      refl
