-- ===== src/Boot/Layout.antt =====
-- The blocks behind the header: where `boot_img::parse_image` finds them (the macro get_block), and
-- how `repack` writes them (file_align), in native/src/boot/bootimg.cpp.
pub mod Inside
pub mod Written
use kitsune_ufork.Common.{
  ℕ, ◌+◌, ◌-◌, ◌%◌, Bool, List, [], ◌∷◌, ◌++◌, Text, length, ltb, ◌==◌, if◌then◌else◌,
}
use kitsune_ufork.Base.Patch.{zeros}
use kitsune_ufork.Boot.Memory.{as_int, align_to, align_padding}
use kitsune_ufork.Boot.Header.{
  Field, kernel_size, ramdisk_size, second_size, page_size, extra_size, recovery_dtbo_size,
  dtb_size, signature_size, vendor_ramdisk_table_size, bootconfig_size, Hdr, get,
}

-- The blocks, by the pointers that parse_image sets.
pub data Block : Type 0 where
  kernel ramdisk second extra recovery_dtbo dtb signature : Block
  vendor_ramdisk_table bootconfig : Block

-- `hdr->name##_size()`
unfoldable pub size_field : Block → Field
size_field kernel = kernel_size
size_field ramdisk = ramdisk_size
size_field second = second_size
size_field extra = extra_size
size_field recovery_dtbo = recovery_dtbo_size
size_field dtb = dtb_size
size_field signature = signature_size
size_field vendor_ramdisk_table = vendor_ramdisk_table_size
size_field bootconfig = bootconfig_size

abbrev pub all_blocks : List Block
all_blocks =
    kernel ∷ ramdisk ∷ second ∷ extra ∷ recovery_dtbo ∷ dtb ∷ signature ∷ vendor_ramdisk_table
    ∷ bootconfig ∷ []

-- `crash` is a division by zero in align_to, `corrupted` the failed test of assert_off; else the
-- places of the blocks in the map, and the offset behind the last one.
pub data Blocks : Type 0 where
  crash corrupted : Blocks
  found : List (Block × ℕ) → ℕ → Blocks

abbrev pub with_block : Block → ℕ → Blocks → Blocks
with_block b at crash = crash
with_block b at corrupted = corrupted
with_block b at (found l end) = found ((b, at) ∷ l) end

-- get_block for one block after the other: `base` is base_addr - map.buf(), `limit` is map_end.
unfoldable pub get_blocks : Hdr → ℕ → ℕ → ℕ → List Block → Blocks
get_blocks h base limit off [] = found [] off
get_blocks h base limit off (b ∷ bs) =
    let page = get page_size h in
    let next = align_to (off + get (size_field b) h) (as_int page) in
    let rest = get_blocks h base limit next bs in
    if page == 0
    then crash
    else if ltb limit (base + next)
    then corrupted
    else with_block b (base + off) rest

-- write_zero(fd, align_padding(lseek(fd, 0, SEEK_CUR) - off.header, page_size))
unfoldable pub file_align : ℕ → ℕ → Text → Text
file_align header page fd = fd ++ zeros (align_padding (length fd - header) page)

-- The blocks that a file gets one after the other, each with its padding.
unfoldable pub write_blocks : ℕ → ℕ → List (Block × Text) → Text → Text
write_blocks header page [] fd = fd
write_blocks header page ((b, c) ∷ cs) fd =
    write_blocks header page cs (file_align header page (fd ++ c))
