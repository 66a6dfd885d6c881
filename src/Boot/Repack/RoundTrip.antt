-- ===== src/Boot/Repack/RoundTrip.antt =====
-- What `repack` of native/src/boot/bootimg.cpp writes is what `boot_img::parse_image` finds.
use kitsune_ufork.Common.{
  ℕ, ◌+◌, ◌-◌, ◌%◌, ◌^◌, ◌≤◌, ◌<◌, ◌≡◌, refl, sym, ap, ◌∙◌, Bool, false, List, [], ◌∷◌, Text, codes,
  length, arith, subst,
}
use mathlib.Core.List.{append-nil}
use kitsune_ufork.Format.{Format}
use kitsune_ufork.Boot.Header.{
  Hdr, get, set, page_size, hdr_space, header_version, vendor_ramdisk_table_size,
}
use kitsune_ufork.Boot.Header.Numbers.{same_field, number_of}
use kitsune_ufork.Boot.Header.Laws.{IsHdr, get-set_other}
use kitsune_ufork.Boot.Layout.{
  Block, kernel, ramdisk, second, extra, recovery_dtbo, dtb, signature, vendor_ramdisk_table,
  bootconfig, size_field, found, get_blocks, write_blocks,
}
use kitsune_ufork.Boot.Layout.Inside.{as_int_lem}
use kitsune_ufork.Boot.Layout.Written.{Holds, blocks_of, get_blocks-write_blocks}
use kitsune_ufork.Boot.Image.{Image, Source, has, mtk_ramdisk, ok, and_then}
use kitsune_ufork.Boot.Repack.{
  Files, Out, kernel_part, start_image, write_kernel, write_ramdisk, write_rest, write_image,
  ramdisk_fmt, put_block,
}
use kitsune_ufork.Boot.Repack.Counted.{kernel_part-kernel_block}
use kitsune_ufork.Boot.Repack.Between.{Writing, or_nothing}
use kitsune_ufork.Boot.Repack.Regular.{
  put_block-Writing, copy_block-Writing, mark_dtbo-Writing, Writing-same,
}
use kitsune_ufork.Boot.Repack.Reset.{reset_hdr, reset_hdr-IsHdr, reset_hdr_sizes}
use kitsune_ufork.Boot.Repack.Plain.{
  ramdisk_file, extra_file, old_signature, IsPlain, new_blocks, written_blocks, blocks_behind,
  Fits-reset, Fits-kept, start_of, space_is, started, start_length, kernel_Writing,
}

-- The ramdisk: there is no table, so that its file is all.
ramdisk_is :
    (f : Files) (skip_comp : Bool) (s : Source) (m : Image) (o : Out)
    → has mtk_ramdisk m.flags ≡ false
    → get vendor_ramdisk_table_size m.hdr ≡ 0
    → ramdisk_fmt skip_comp o.hdr m.r_fmt ≡ ramdisk_fmt skip_comp (reset_hdr m.hdr) m.r_fmt
    → write_ramdisk f skip_comp s m o
      ≡ ok (
        put_block m ramdisk
            (ramdisk_file f skip_comp m)
            (record o { ramdisk_off = length o.fd % 2 ^ 32 }),
        [],
      )
unfolding write_ramdisk
ramdisk_is f skip_comp s m o k t e = rw (k, t, append-nil o.fd, e) refl

kept_version :
    (v : ℕ) (h : Hdr)
    → IsHdr h
    → get header_version (set (size_field kernel) v h) ≡ get header_version h
unfolding size_field same_field number_of
kept_version v h i = get-set_other (size_field kernel) header_version v h i refl

kept_fmt :
    (skip_comp : Bool) (v : ℕ) (h : Hdr) (fmt : Format)
    → IsHdr h
    → ramdisk_fmt skip_comp (set (size_field kernel) v h) fmt ≡ ramdisk_fmt skip_comp h fmt
unfolding ramdisk_fmt set
kept_fmt skip_comp v h fmt i = rw (kept_version v h i) refl

-- Offsets that are noted.
noted :
    (page start k : ℕ) (h0 : Hdr) (fd0 : Text) (cs : List (Block × Text)) (o o' : Out)
    → Writing page start k h0 fd0 cs o
    → o'.fd ≡ o.fd
    → o'.hdr ≡ o.hdr
    → o'.header ≡ o.header
    → Writing page start k h0 fd0 cs o'
noted page start k h0 fd0 cs o o' w f h e =
    Writing-same page start k h0 fd0 cs o o' w f e (rw h w.is_hdr) (ap (λ (x : Hdr). x.kind) h)
      (ap (get page_size) h) (λ b. ap (get (size_field b)) h)

rest_Writing :
    (f : Files) (skip_comp : Bool) (s : Source) (m : Image) (o : Out) (start : ℕ) (fd0 k r : Text)
    → IsPlain f skip_comp s m
    → Writing
        (get page_size m.hdr)
        start
        2
        (reset_hdr m.hdr)
        fd0
        ((kernel, k) ∷ (ramdisk, r) ∷ [])
        o
    → Writing
        (get page_size m.hdr)
        start
        9
        (reset_hdr m.hdr)
        fd0
        ((kernel, k)
          ∷ (ramdisk, r)
          ∷ (second, or_nothing (f.file (codes "second")))
          ∷ (extra, or_nothing (extra_file f skip_comp m))
          ∷ (recovery_dtbo, or_nothing (f.file (codes "recovery_dtbo")))
          ∷ (dtb, or_nothing (f.file (codes "dtb")))
          ∷ (signature, old_signature s m)
          ∷ (vendor_ramdisk_table, [])
          ∷ (bootconfig, or_nothing (f.file (codes "bootconfig")))
          ∷ [])
        (write_rest f skip_comp s m [] o)
unfolding write_rest size_field
rest_Writing f skip_comp s m o start fd0 k r p w =
    let page = get page_size m.hdr in
    let h0 = reset_hdr m.hdr in
    let a = as_int_lem page p.page_fits in
    let z = λ (b : Block). reset_hdr_sizes b m.hdr p.is_hdr in
    let w2 =
      put_block-Writing page start 2 h0 fd0 _ m second (f.file (codes "second")) _ p.has_page a
        (noted page start 2 h0 fd0 _ o _ w refl refl refl) refl
        (Fits-reset second _ m.hdr (z second) p.second_fits) in
    let w3 =
      put_block-Writing page start 3 h0 fd0 _ m extra (extra_file f skip_comp m) _ p.has_page a
        (noted page start 3 h0 fd0 _ _ _ w2 refl refl refl) refl
        (Fits-kept extra _ m.hdr (z extra) p.extra_fits) in
    let w4 =
      put_block-Writing page start 4 h0 fd0 _ m recovery_dtbo (f.file (codes "recovery_dtbo")) _
        p.has_page a (mark_dtbo-Writing page start 4 h0 fd0 _ (f.file (codes "recovery_dtbo")) _ w3)
        refl (Fits-kept recovery_dtbo _ m.hdr (z recovery_dtbo) p.dtbo_fits) in
    let w5 =
      put_block-Writing page start 5 h0 fd0 _ m dtb (f.file (codes "dtb")) _ p.has_page a
        (noted page start 5 h0 fd0 _ _ _ w4 refl refl refl) refl
        (Fits-reset dtb _ m.hdr (z dtb) p.dtb_fits) in
    let w6 =
      copy_block-Writing page start 6 h0 fd0 _ m signature (old_signature s m) _ p.has_page a w5
        refl (z signature ∙ p.signature_is) in
    let w7 =
      copy_block-Writing page start 7 h0 fd0 _ m vendor_ramdisk_table [] _ p.has_page a w6 refl
        (z vendor_ramdisk_table ∙ p.no_table) in
    put_block-Writing page start 8 h0 fd0 _ m bootconfig (f.file (codes "bootconfig")) _ p.has_page
      a w7 refl (Fits-reset bootconfig _ m.hdr (z bootconfig) p.bootconfig_fits)

-- The writer's state behind the last block of a plain image.
abbrev pub plain_out : Files → Bool → Source → Image → Out
plain_out f skip_comp s m =
    let o = write_kernel f skip_comp s m (start_image f s m) in
    write_rest f skip_comp s m [] (
      put_block m ramdisk (ramdisk_file f skip_comp m)
        (record o { ramdisk_off = length o.fd % 2 ^ 32 }))

kernel_fmt :
    (f : Files) (skip_comp : Bool) (s : Source) (m : Image)
    → IsPlain f skip_comp s m
    → ramdisk_fmt skip_comp (write_kernel f skip_comp s m (start_image f s m)).hdr m.r_fmt
      ≡ ramdisk_fmt skip_comp (reset_hdr m.hdr) m.r_fmt
unfolding write_kernel size_field
kernel_fmt f skip_comp s m p = rw (started f s m p.no_header) (
    kept_fmt skip_comp (kernel_part f skip_comp s m).size (reset_hdr m.hdr) m.r_fmt
      (reset_hdr-IsHdr m.hdr p.is_hdr))

write_image-plain_out :
    (f : Files) (skip_comp : Bool) (s : Source) (m : Image)
    → IsPlain f skip_comp s m
    → write_image f skip_comp s m ≡ ok (plain_out f skip_comp s m)
unfolding write_image and_then
write_image-plain_out f skip_comp s m p =
    rw
      (ramdisk_is f skip_comp s m (write_kernel f skip_comp s m (start_image f s m))
        p.no_mtk_ramdisk p.no_table (kernel_fmt f skip_comp s m p))
      refl

plain_Writing :
    (f : Files) (skip_comp : Bool) (s : Source) (m : Image)
    → IsPlain f skip_comp s m
    → Writing
        (get page_size m.hdr)
        (start_of s m)
        9
        (reset_hdr m.hdr)
        (start_image f s m).fd
        (written_blocks f skip_comp s m)
        (plain_out f skip_comp s m)
unfolding size_field
plain_Writing f skip_comp s m p =
    let page = get page_size m.hdr in
    let o = write_kernel f skip_comp s m (start_image f s m) in
    let w1 = kernel_Writing f skip_comp s m p in
    let w2 =
      put_block-Writing page (start_of s m) 1 (reset_hdr m.hdr) (start_image f s m).fd _ m ramdisk
        (ramdisk_file f skip_comp m) _ p.has_page (as_int_lem page p.page_fits)
        (noted page (start_of s m) 1 (reset_hdr m.hdr) (start_image f s m).fd _ o
          (record o { ramdisk_off = length o.fd % 2 ^ 32 }) w1 refl refl refl)
        refl (Fits-reset ramdisk _ m.hdr (reset_hdr_sizes ramdisk m.hdr p.is_hdr) p.ramdisk_fits) in
    rest_Writing f skip_comp s m _ (start_of s m) (start_image f s m).fd
      (kernel_part f skip_comp s m).bytes (or_nothing (ramdisk_file f skip_comp m)) p w2

-- parse_image finds the blocks behind a header of a length, in a file.
abbrev pub Finds : Hdr → ℕ → ℕ → List (Block × Text) → ℕ → Text → Type 0
Finds h start limit cs off out =
    (l : List (Block × ℕ)) × ((get_blocks h start limit off (blocks_of cs)
        ≡ found l (length out - start))
      × Holds out cs l)

finds :
    (page start : ℕ) (h0 : Hdr) (fd0 : Text) (cs : List (Block × Text)) (o : Out) (limit : ℕ)
    → Writing page start 9 h0 fd0 cs o
    → 0 < page
    → page < 2 ^ 31
    → length fd0 ≡ start + page
    → hdr_space o.hdr ≡ page
    → length o.fd ≤ limit
    → limit < 2 ^ 62
    → Finds o.hdr start limit cs (hdr_space o.hdr) o.fd
finds page start h0 fd0 cs o limit w p q n e k u =
    let fits : length (write_blocks start (get page_size o.hdr) cs fd0) ≤ limit =
      rw (w.paged, sym w.file) k in
    let r =
      get_blocks-write_blocks o.hdr start limit cs fd0 (rw w.paged p) (rw w.paged q)
        (omega (arith, n)) fits u w.claims in
    let far : length fd0 - start ≡ hdr_space o.hdr = omega (arith, n, e) in
    let same : write_blocks start (get page_size o.hdr) cs fd0 ≡ o.fd =
      ap (λ (x : ℕ). write_blocks start x cs fd0) w.paged ∙ sym w.file in
    subst (λ x. Finds o.hdr start limit cs x o.fd) far
      (subst (λ y. Finds o.hdr start limit cs (length fd0 - start) y) same r)

-- On a plain image write_image, the part of repack that writes the blocks, gets through, and then the
-- search of parse_image, on the new header, finds nine blocks in the file, each with exactly its
-- bytes: the kernel with the header and the tail of a zImage and its device tree, the ramdisk,
-- second, extra, recovery_dtbo, dtb and bootconfig that the files give, the old signature, and no
-- table of vendor ramdisks.
pub write_image-get_blocks :
    (f : Files) (skip_comp : Bool) (s : Source) (m : Image) (limit : ℕ)
    → IsPlain f skip_comp s m
    → length (plain_out f skip_comp s m).fd ≤ limit
    → limit < 2 ^ 62
    → (write_image f skip_comp s m ≡ ok (plain_out f skip_comp s m))
      × Finds
          (plain_out f skip_comp s m).hdr
          (start_of s m)
          limit
          (new_blocks f skip_comp s m)
          (hdr_space (plain_out f skip_comp s m).hdr)
          (plain_out f skip_comp s m).fd
unfolding set
write_image-get_blocks f skip_comp s m limit p k n =
    let o = plain_out f skip_comp s m in
    let w = plain_Writing f skip_comp s m p in
    let page = get page_size m.hdr in
    let fd0 = (start_image f s m).fd in
    let space : hdr_space o.hdr ≡ page = space_is o.hdr (rw w.kind p.is_boot) ∙ w.paged in
    let n0 : length fd0 ≡ start_of s m + page =
      ap (λ (x : Out). length x.fd) (started f s m p.no_header)
      ∙ start_length s m p.is_hdr p.is_boot p.in_map in
    (
      write_image-plain_out f skip_comp s m p,
      subst
          (λ (c : Text).
            Finds o.hdr (start_of s m) limit ((kernel, c) ∷ blocks_behind f skip_comp s m)
              (hdr_space o.hdr) o.fd)
          (kernel_part-kernel_block f skip_comp s m)
          (finds page (start_of s m) (reset_hdr m.hdr) fd0 (written_blocks f skip_comp s m) o limit
            w p.has_page p.page_fits n0 space k n),
    )
