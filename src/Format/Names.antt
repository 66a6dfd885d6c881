-- ===== src/Format/Names.antt =====
-- Names of formats, of native/src/boot/format.cpp, read back.
use kitsune_ufork.Common.{◌≡◌, refl, ◌⊎◌, Text, arith, codes, str_eql, str_eql_iff, if◌then◌else◌}
use kitsune_ufork.Format.{
  Format, unknown, chromeos, aosp, aosp_vendor, dhtb, blob, gzip, zopfli, xz, lzma, bzip2, lz4,
  lz4_legacy, lz4_lg, lzop, mtk, dtb, zimage, compressed, fmt2name, name2fmt,
}

-- The name of a format that COMPRESSED accepts is read back as this format; any other format's
-- name, lzop's and the default's included, is read back as unknown.
pub name2fmt-fmt2name : (f : Format) → name2fmt (fmt2name f) ≡ (if compressed f then f else unknown)
unfolding name2fmt fmt2name str_eql
name2fmt-fmt2name unknown = refl
name2fmt-fmt2name chromeos = refl
name2fmt-fmt2name aosp = refl
name2fmt-fmt2name aosp_vendor = refl
name2fmt-fmt2name dhtb = refl
name2fmt-fmt2name blob = refl
name2fmt-fmt2name gzip = refl
name2fmt-fmt2name zopfli = refl
name2fmt-fmt2name xz = refl
name2fmt-fmt2name lzma = refl
name2fmt-fmt2name bzip2 = refl
name2fmt-fmt2name lz4 = refl
name2fmt-fmt2name lz4_legacy = refl
name2fmt-fmt2name lz4_lg = refl
name2fmt-fmt2name lzop = refl
name2fmt-fmt2name mtk = refl
name2fmt-fmt2name dtb = refl
name2fmt-fmt2name zimage = refl

-- A name that is read as a format is the one this format prints.
fmt2name-name2fmt : (name : Text) → (name2fmt name ≡ unknown) ⊎ (fmt2name (name2fmt name) ≡ name)
unfolding name2fmt fmt2name
fmt2name-name2fmt name = ground (
  arith,
  str_eql_iff name (codes "gzip"),
  str_eql_iff name (codes "zopfli"),
  str_eql_iff name (codes "xz"),
  str_eql_iff name (codes "lzma"),
  str_eql_iff name (codes "bzip2"),
  str_eql_iff name (codes "lz4"),
  str_eql_iff name (codes "lz4_legacy"),
  str_eql_iff name (codes "lz4_lg"),
)
