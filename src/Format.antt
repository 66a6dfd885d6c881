-- ===== src/Format.antt =====
-- File formats, their magic numbers, names and file endings: native/src/boot/format.cpp and
-- native/src/boot/format.hpp.
pub mod Magic
pub mod Names
mod Examples
use kitsune_ufork.Common.{
  ℕ, zero, suc, Bool, true, false, ◌&&◌, ◌||◌, Option, none, some, List, [], ◌∷◌, ◌++◌, Text, codes,
  leb, ltb, ◌==◌, length, drop, str_eql, str_starts, if◌then◌else◌,
}

-- format_t
pub data Format : Type 0 where
  unknown chromeos aosp aosp_vendor dhtb blob : Format
  gzip zopfli xz lzma bzip2 lz4 lz4_legacy lz4_lg : Format
  lzop : Format
  mtk dtb zimage : Format

-- The value of the enumerator.
abbrev pub ordinal : Format → ℕ
ordinal unknown = 0
ordinal chromeos = 1
ordinal aosp = 2
ordinal aosp_vendor = 3
ordinal dhtb = 4
ordinal blob = 5
ordinal gzip = 6
ordinal zopfli = 7
ordinal xz = 8
ordinal lzma = 9
ordinal bzip2 = 10
ordinal lz4 = 11
ordinal lz4_legacy = 12
ordinal lz4_lg = 13
ordinal lzop = 14
ordinal mtk = 15
ordinal dtb = 16
ordinal zimage = 17

-- COMPRESSED and COMPRESSED_ANY
abbrev pub compressed : Format → Bool
compressed f = leb 6 (ordinal f) && ltb (ordinal f) 14

abbrev pub compressed_any : Format → Bool
compressed_any f = leb 6 (ordinal f) && leb (ordinal f) 14

abbrev pub boot_magic : Text
boot_magic = codes "ANDROID!"

abbrev pub vendor_boot_magic : Text
vendor_boot_magic = codes "VNDRBOOT"

abbrev pub chromeos_magic : Text
chromeos_magic = codes "CHROMEOS"

abbrev pub gzip1_magic : Text
gzip1_magic = 0x1f ∷ 0x8b ∷ []

abbrev pub gzip2_magic : Text
gzip2_magic = 0x1f ∷ 0x9e ∷ []

abbrev pub lzop_magic : Text
lzop_magic = 0x89 ∷ codes "LZO"

abbrev pub xz_magic : Text
xz_magic = 0xfd ∷ codes "7zXZ"

abbrev pub bzip_magic : Text
bzip_magic = codes "BZh"

abbrev pub lz4_leg_magic : Text
lz4_leg_magic = 0x02 ∷ 0x21 ∷ 0x4c ∷ 0x18 ∷ []

abbrev pub lz41_magic : Text
lz41_magic = 0x03 ∷ 0x21 ∷ 0x4c ∷ 0x18 ∷ []

abbrev pub lz42_magic : Text
lz42_magic = 0x04 ∷ 0x22 ∷ 0x4d ∷ 0x18 ∷ []

abbrev pub mtk_magic : Text
mtk_magic = 0x88 ∷ 0x16 ∷ 0x88 ∷ 0x58 ∷ []

abbrev pub dtb_magic : Text
dtb_magic = 0xd0 ∷ 0x0d ∷ 0xfe ∷ 0xed ∷ []

abbrev pub dhtb_magic : Text
dhtb_magic = 0x44 ∷ 0x48 ∷ 0x54 ∷ 0x42 ∷ 0x01 ∷ 0x00 ∷ 0x00 ∷ 0x00 ∷ []

abbrev pub tegrablob_magic : Text
tegrablob_magic = codes "-SIGNED-BY-SIGNBLOB-"

abbrev pub zimage_magic : Text
zimage_magic = 0x18 ∷ 0x28 ∷ 0x6f ∷ 0x01 ∷ []

-- CHECKED_MATCH: `len` is the length of `buf`, and `memcmp` compares the magic's bytes.
unfoldable pub checked_match : Text → Text → Bool
checked_match buf s = leb (length s) (length buf) && str_starts buf s

-- `((char *) buf)[i] == c`, where the index is inside.
unfoldable pub byte_is : ℕ → ℕ → Text → Bool
byte_is i c [] = false
byte_is zero c (b ∷ buf) = b == c
byte_is (suc i) c (b ∷ buf) = byte_is i c buf

unfoldable pub lzma_match : Text → Bool
lzma_match buf =
    leb 13 (length buf)
    && (str_starts buf (0x5d ∷ 0x00 ∷ 0x00 ∷ []) && (byte_is 12 0xff buf || byte_is 12 0x00 buf))

unfoldable pub zimage_match : Text → Bool
zimage_match buf = leb 0x28 (length buf) && str_starts (drop 0x24 buf) zimage_magic

unfoldable pub check_fmt : Text → Format
check_fmt buf =
    if checked_match buf chromeos_magic
    then chromeos
    else if checked_match buf boot_magic
    then aosp
    else if checked_match buf vendor_boot_magic
    then aosp_vendor
    else if checked_match buf gzip1_magic || checked_match buf gzip2_magic
    then gzip
    else if checked_match buf lzop_magic
    then lzop
    else if checked_match buf xz_magic
    then xz
    else if lzma_match buf
    then lzma
    else if checked_match buf bzip_magic
    then bzip2
    else if checked_match buf lz41_magic || checked_match buf lz42_magic
    then lz4
    else if checked_match buf lz4_leg_magic
    then lz4_legacy
    else if checked_match buf mtk_magic
    then mtk
    else if checked_match buf dtb_magic
    then dtb
    else if checked_match buf dhtb_magic
    then dhtb
    else if checked_match buf tegrablob_magic
    then blob
    else if zimage_match buf
    then zimage
    else unknown

-- Fmt2Name
unfoldable pub fmt2name : Format → Text
fmt2name gzip = codes "gzip"
fmt2name zopfli = codes "zopfli"
fmt2name lzop = codes "lzop"
fmt2name xz = codes "xz"
fmt2name lzma = codes "lzma"
fmt2name bzip2 = codes "bzip2"
fmt2name lz4 = codes "lz4"
fmt2name lz4_legacy = codes "lz4_legacy"
fmt2name lz4_lg = codes "lz4_lg"
fmt2name dtb = codes "dtb"
fmt2name zimage = codes "zimage"
fmt2name unknown = codes "raw"
fmt2name chromeos = codes "raw"
fmt2name aosp = codes "raw"
fmt2name aosp_vendor = codes "raw"
fmt2name dhtb = codes "raw"
fmt2name blob = codes "raw"
fmt2name mtk = codes "raw"

-- Fmt2Ext
unfoldable pub fmt2ext : Format → Text
fmt2ext gzip = codes ".gz"
fmt2ext zopfli = codes ".gz"
fmt2ext lzop = codes ".lzo"
fmt2ext xz = codes ".xz"
fmt2ext lzma = codes ".lzma"
fmt2ext bzip2 = codes ".bz2"
fmt2ext lz4 = codes ".lz4"
fmt2ext lz4_legacy = codes ".lz4"
fmt2ext lz4_lg = codes ".lz4"
fmt2ext unknown = []
fmt2ext chromeos = []
fmt2ext aosp = []
fmt2ext aosp_vendor = []
fmt2ext dhtb = []
fmt2ext blob = []
fmt2ext mtk = []
fmt2ext dtb = []
fmt2ext zimage = []

-- Name2Fmt
unfoldable pub name2fmt : Text → Format
name2fmt name =
    if str_eql name (codes "gzip")
    then gzip
    else if str_eql name (codes "zopfli")
    then zopfli
    else if str_eql name (codes "xz")
    then xz
    else if str_eql name (codes "lzma")
    then lzma
    else if str_eql name (codes "bzip2")
    then bzip2
    else if str_eql name (codes "lz4")
    then lz4
    else if str_eql name (codes "lz4_legacy")
    then lz4_legacy
    else if str_eql name (codes "lz4_lg")
    then lz4_lg
    else unknown
