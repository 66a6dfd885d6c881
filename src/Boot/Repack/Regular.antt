-- ===== src/Boot/Repack/Regular.antt =====
-- The steps of `repack` of native/src/boot/bootimg.cpp that write a block keep what holds between them.
use kitsune_ufork.Common.{
  ℕ, suc, ◌<◌, ◌≡◌, refl, sym, ap, ◌∙◌, false, Option, none, some, List, [], ◌∷◌, ◌++◌, Text,
  length, arith, length-append,
}
use kitsune_ufork.Boot.Memory.{as_int}
use kitsune_ufork.Boot.Header.{Hdr, get, set, page_size, recovery_dtbo_offset}
use kitsune_ufork.Boot.Header.Numbers.{same_field, number_of}
use kitsune_ufork.Boot.Header.Laws.{IsHdr, set-IsHdr, get-set_other}
use kitsune_ufork.Boot.Layout.{
  Block, kernel, ramdisk, second, extra, recovery_dtbo, dtb, signature, vendor_ramdisk_table,
  bootconfig, size_field, file_align,
}
use kitsune_ufork.Boot.Layout.Written.{Claims, file_align-length}
use kitsune_ufork.Boot.Image.{Image, block_number}
use kitsune_ufork.Boot.Repack.{Out, put_block, copy_block, mark_dtbo}
use kitsune_ufork.Boot.Repack.Between.{
  Writing, file_align_twice, write_blocks-snoc, below-snoc, Claims-snoc, or_nothing, Fits, written,
  skipped,
}

-- One block, if its file is there.
pub put_block-Writing :
    (page start k : ℕ) (h0 : Hdr) (fd0 : Text) (cs : List (Block × Text)) (m : Image) (b : Block)
    (c : Option Text) (o : Out)
    → 0 < page
    → as_int (get page_size m.hdr) ≡ page
    → Writing page start k h0 fd0 cs o
    → block_number b ≡ k
    → Fits h0 b c
    → Writing page start (suc k) h0 fd0 (cs ++ (b, or_nothing c) ∷ []) (put_block m b c o)
unfolding put_block
put_block-Writing page start k h0 fd0 cs m b none o p q w n z =
    skipped page start k h0 fd0 cs b o w n z
put_block-Writing page start k h0 fd0 cs m b (some c) o p q w n (l, s) =
    written page start k h0 fd0 c cs b o (put_block m b (some c) o) p w n l s
      (ap (λ (x : ℕ). file_align x (as_int (get page_size m.hdr)) (o.fd ++ c)) w.at_header
        ∙ ap (λ (x : ℕ). file_align start x (o.fd ++ c)) q)
      refl refl

-- One block that is copied: its size is in the header already.
pub copy_block-Writing :
    (page start k : ℕ) (h0 : Hdr) (fd0 : Text) (cs : List (Block × Text)) (m : Image) (b : Block)
    (c : Text) (o : Out)
    → 0 < page
    → as_int (get page_size m.hdr) ≡ page
    → Writing page start k h0 fd0 cs o
    → block_number b ≡ k
    → get (size_field b) h0 ≡ length c
    → Writing page start (suc k) h0 fd0 (cs ++ (b, c) ∷ []) (copy_block m c o)
unfolding copy_block
copy_block-Writing page start k h0 fd0 cs m b [] o p q w n z =
    skipped page start k h0 fd0 cs b o w n z
copy_block-Writing page start k h0 fd0 cs m b (d ∷ ds) o p q w n z =
    let c = d ∷ ds in
    let f : file_align o.header (as_int (get page_size m.hdr)) (o.fd ++ c)
        ≡ file_align start page (o.fd ++ c) =
      ap (λ (x : ℕ). file_align x (as_int (get page_size m.hdr)) (o.fd ++ c)) w.at_header
      ∙ ap (λ (x : ℕ). file_align start x (o.fd ++ c)) q in
    record {
      file =
          f
          ∙ ap (λ (x : Text). file_align start page (x ++ c)) w.file
          ∙ sym (write_blocks-snoc start page cs b c fd0);
      aligned = rw f (
          file_align_twice start page (o.fd ++ c) p
            (omega (arith, w.starts, length-append o.fd c)));
      at_header = w.at_header;
      starts =
          rw f (
            omega
              (arith, w.starts, length-append o.fd c, file_align-length start page (o.fd ++ c)));
      is_hdr = w.is_hdr;
      kind = w.kind;
      paged = w.paged;
      below = below-snoc k cs b c w.below n;
      claims = Claims-snoc o.hdr cs b c w.claims (w.rest b (omega arith) ∙ z);
      rest = λ d m. w.rest d (omega arith);
    }

Claims-same :
    (h h' : Hdr) (cs : List (Block × Text))
    → ((b : Block) → get (size_field b) h' ≡ get (size_field b) h)
    → Claims h cs
    → Claims h' cs
Claims-same h h' [] e c = tt
Claims-same h h' ((b, t) ∷ cs) e (c, cs') = (e b ∙ c, Claims-same h h' cs e cs')

-- Offsets that are noted in between, and a field that is no block's size, change nothing.
pub Writing-same :
    (page start k : ℕ) (h0 : Hdr) (fd0 : Text) (cs : List (Block × Text)) (o o' : Out)
    → Writing page start k h0 fd0 cs o
    → o'.fd ≡ o.fd
    → o'.header ≡ o.header
    → IsHdr o'.hdr
    → o'.hdr.kind ≡ o.hdr.kind
    → get page_size o'.hdr ≡ get page_size o.hdr
    → ((b : Block) → get (size_field b) o'.hdr ≡ get (size_field b) o.hdr)
    → Writing page start k h0 fd0 cs o'
Writing-same page start k h0 fd0 cs o o' w f e i t p g = record {
  file = f ∙ w.file;
  aligned = rw f w.aligned;
  at_header = e ∙ w.at_header;
  starts = rw f w.starts;
  is_hdr = i;
  kind = t ∙ w.kind;
  paged = p ∙ w.paged;
  below = w.below;
  claims = Claims-same o.hdr o'.hdr cs g w.claims;
  rest = λ b m. g b ∙ w.rest b m;
}

not_an_offset : (b : Block) → same_field recovery_dtbo_offset (size_field b) ≡ false
unfolding same_field size_field number_of
not_an_offset kernel = refl
not_an_offset ramdisk = refl
not_an_offset second = refl
not_an_offset extra = refl
not_an_offset recovery_dtbo = refl
not_an_offset dtb = refl
not_an_offset signature = refl
not_an_offset vendor_ramdisk_table = refl
not_an_offset bootconfig = refl

pub mark_dtbo-Writing :
    (page start k : ℕ) (h0 : Hdr) (fd0 : Text) (cs : List (Block × Text)) (c : Option Text)
    (o : Out)
    → Writing page start k h0 fd0 cs o
    → Writing page start k h0 fd0 cs (mark_dtbo c o)
unfolding set same_field
mark_dtbo-Writing page start k h0 fd0 cs none o w = w
mark_dtbo-Writing page start k h0 fd0 cs (some c) o w =
    Writing-same page start k h0 fd0 cs o (mark_dtbo (some c) o) w refl refl
      (set-IsHdr recovery_dtbo_offset (length o.fd) o.hdr w.is_hdr) refl
      (get-set_other recovery_dtbo_offset page_size (length o.fd) o.hdr w.is_hdr refl)
      (λ b.
        get-set_other recovery_dtbo_offset (size_field b) (length o.fd) o.hdr w.is_hdr
          (not_an_offset b))
