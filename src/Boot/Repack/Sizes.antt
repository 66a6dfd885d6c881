-- ===== src/Boot/Repack/Sizes.antt =====
-- The size fields that `repack` of native/src/boot/bootimg.cpp sets, one for each block.
use kitsune_ufork.Common.{ℕ, ◌^◌, ◌<◌, ◌≡◌, refl, Bool, true, false, not, ◌&&◌, ◌||◌, ◌==◌, arith}
use kitsune_ufork.Boot.Header.{Hdr, get, set, page_size, width, shown}
use kitsune_ufork.Boot.Header.Numbers.{same_field, number_of}
use kitsune_ufork.Boot.Header.Laws.{IsHdr, get-set}
use kitsune_ufork.Boot.Layout.{
  Block, kernel, ramdisk, second, extra, recovery_dtbo, dtb, signature, vendor_ramdisk_table,
  bootconfig, size_field,
}
use kitsune_ufork.Boot.Image.{block_number}

unfoldable every_block : (Block → Bool) → Bool
every_block p =
    (p kernel && (p ramdisk && p second))
    && ((p extra && (p recovery_dtbo && p dtb))
        && (p signature && (p vendor_ramdisk_table && p bootconfig)))

every_block-at : (p : Block → Bool) (b : Block) → every_block p ≡ true → p b ≡ true
unfolding every_block
every_block-at p kernel h = ground (arith, h)
every_block-at p ramdisk h = ground (arith, h)
every_block-at p second h = ground (arith, h)
every_block-at p extra h = ground (arith, h)
every_block-at p recovery_dtbo h = ground (arith, h)
every_block-at p dtb h = ground (arith, h)
every_block-at p signature h = ground (arith, h)
every_block-at p vendor_ramdisk_table h = ground (arith, h)
every_block-at p bootconfig h = ground (arith, h)

-- Two blocks have their sizes in two fields, none of them the page's.
unfoldable own_field : Block → Block → Bool
unfolding same_field size_field
own_field b c =
    not (same_field (size_field b) page_size)
    && (block_number c == block_number b || not (same_field (size_field b) (size_field c)))

own_field_lem : (b c : Block) → own_field b c ≡ true
unfolding own_field every_block same_field size_field number_of
own_field_lem b c =
    every_block-at (own_field b) c (every_block-at (λ b. every_block (own_field b)) b refl)

field_width : (b : Block) → width (size_field b) ≡ 4
unfolding width size_field
field_width kernel = refl
field_width ramdisk = refl
field_width second = refl
field_width extra = refl
field_width recovery_dtbo = refl
field_width dtb = refl
field_width signature = refl
field_width vendor_ramdisk_table = refl
field_width bootconfig = refl

-- Setting the size of a block leaves the sizes of the others, and the page.
pub set_other :
    (b c : Block) (v : ℕ) (h : Hdr)
    → IsHdr h
    → v < 2 ^ 32
    → (block_number c == block_number b) ≡ false
    → get (size_field c) (set (size_field b) v h) ≡ get (size_field c) h
unfolding own_field
set_other b c v h i k n =
    ground (arith, get-set (size_field b) (size_field c) v h i k (field_width b), own_field_lem b c)

pub set_page :
    (b : Block) (v : ℕ) (h : Hdr)
    → IsHdr h
    → v < 2 ^ 32
    → get page_size (set (size_field b) v h) ≡ get page_size h
unfolding own_field
set_page b v h i k =
    ground (arith, get-set (size_field b) page_size v h i k (field_width b), own_field_lem b b)

pub set_own :
    (b : Block) (v : ℕ) (h : Hdr)
    → IsHdr h
    → v < 2 ^ 32
    → shown h.kind (size_field b) ≡ true
    → get (size_field b) (set (size_field b) v h) ≡ v
unfolding same_field
set_own b v h i k s =
    ground (arith, get-set (size_field b) (size_field b) v h i k (field_width b), s)
