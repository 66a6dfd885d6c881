-- ===== src/Format/Magic.antt =====
-- What `check_fmt` of native/src/boot/format.cpp finds.
use kitsune_ufork.Common.{
  ◌≤◌, ◌≡◌, refl, ap, ◌∙◌, true, false, List, [], ◌∷◌, Text, ◌++◌, arith, length, All, drop, ==_iff,
  str_starts, if◌then◌else◌,
}
use kitsune_ufork.Format.{
  Format, unknown, chromeos, aosp, aosp_vendor, dhtb, blob, gzip, xz, lzma, bzip2, lz4, lz4_legacy,
  lzop, mtk, dtb, zimage, boot_magic, vendor_boot_magic, chromeos_magic, gzip1_magic, gzip2_magic,
  lzop_magic, xz_magic, bzip_magic, lz4_leg_magic, lz41_magic, lz42_magic, mtk_magic, dtb_magic,
  dhtb_magic, tegrablob_magic, checked_match, lzma_match, zimage_match, check_fmt,
}

-- The formats that a fixed beginning tells, with their beginnings.
abbrev pub magics : List (Text × Format)
magics =
    (chromeos_magic, chromeos)
    ∷ (boot_magic, aosp)
    ∷ (vendor_boot_magic, aosp_vendor)
    ∷ (gzip1_magic, gzip)
    ∷ (gzip2_magic, gzip)
    ∷ (lzop_magic, lzop)
    ∷ (xz_magic, xz)
    ∷ (bzip_magic, bzip2)
    ∷ (lz41_magic, lz4)
    ∷ (lz42_magic, lz4)
    ∷ (lz4_leg_magic, lz4_legacy)
    ∷ (mtk_magic, mtk)
    ∷ (dtb_magic, dtb)
    ∷ (dhtb_magic, dhtb)
    ∷ (tegrablob_magic, blob)
    ∷ []

starts-append : (m rest' : Text) → str_starts (m ++ rest') m ≡ true
unfolding str_starts
starts-append [] rest' = refl
starts-append (c ∷ m) rest' = ground (arith, starts-append m rest')

starts-split : (buf m : Text) → str_starts buf m ≡ true → buf ≡ m ++ drop (length m) buf
unfolding str_starts
starts-split buf [] h = refl
starts-split [] (c ∷ m) h = absurd (ground (arith, h))
starts-split (b ∷ buf) (c ∷ m) h = ground (arith, h, starts-split buf m, ==_iff b c)

starts-long : (buf m : Text) → str_starts buf m ≡ true → length m ≤ length buf
unfolding str_starts
starts-long buf [] h = omega arith
starts-long [] (c ∷ m) h = absurd (ground (arith, h))
starts-long (b ∷ buf) (c ∷ m) h = ground (arith, h, starts-long buf m)

-- The guard on the length only keeps `memcmp` inside the buffer.
checked_match_lem : (buf m : Text) → checked_match buf m ≡ str_starts buf m
unfolding checked_match
checked_match_lem buf m = ground (arith, starts-long buf m)

-- No two beginnings of different formats agree, whatever the order of the tests.
check_fmt-magics : (buf : Text) → All (λ (e : Text × Format). check_fmt (e.0 ++ buf) ≡ e.1) magics
unfolding check_fmt str_starts checked_match lzma_match zimage_match
check_fmt-magics buf = (
  ground arith,
  (
    ground arith,
    (
      ground arith,
      (
        ground arith,
        (
          ground arith,
          (
            ground arith,
            (
              ground arith,
              (
                ground arith,
                (
                  ground arith,
                  (
                    ground arith,
                    (
                      ground arith,
                      (ground arith, (ground arith, (ground arith, (ground arith, tt)))),
                    ),
                  ),
                ),
              ),
            ),
          ),
        ),
      ),
    ),
  ),
)

-- A buffer that begins with the magic of a format is taken for this format, whatever follows.
pub check_fmt_starts :
    (buf : Text)
    → All (λ (e : Text × Format). str_starts buf e.0 ≡ true → check_fmt buf ≡ e.1) magics
check_fmt_starts buf = by_start magics check_fmt-magics
  where
    by_start :
        (l : List (Text × Format))
        → ((rest' : Text) → All (λ (e : Text × Format). check_fmt (e.0 ++ rest') ≡ e.1) l)
        → All (λ (e : Text × Format). str_starts buf e.0 ≡ true → check_fmt buf ≡ e.1) l
    by_start [] k = tt
    by_start ((m, f) ∷ l) k = (
      λ h. ap check_fmt (starts-split buf m h) ∙ (k (drop (length m) buf)).0,
      by_start l (λ rest'. (k rest').1),
    )

abbrev pub other : Text → Format
other buf = if lzma_match buf then lzma else if zimage_match buf then zimage else unknown

-- A buffer that begins with no magic is lzma or zimage by the tests inside the buffer, lzma
-- first, or else unknown.
pub check_fmt-other :
    (buf : Text)
    → All (λ (e : Text × Format). str_starts buf e.0 ≡ false) magics
    → check_fmt buf ≡ other buf
unfolding check_fmt
check_fmt-other buf h =
    let (
      h1,
      (h2, (h3, (h4, (h5, (h6, (h7, (h8, (h9, (h10, (h11, (h12, (h13, (h14, (h15, u)))))))))))))),
    ) =
      h in
    rw
      (
        checked_match_lem buf chromeos_magic,
        h1,
        checked_match_lem buf boot_magic,
        h2,
        checked_match_lem buf vendor_boot_magic,
        h3,
        checked_match_lem buf gzip1_magic,
        h4,
        checked_match_lem buf gzip2_magic,
        h5,
        checked_match_lem buf lzop_magic,
        h6,
        checked_match_lem buf xz_magic,
        h7,
        checked_match_lem buf bzip_magic,
        h8,
        checked_match_lem buf lz41_magic,
        h9,
        checked_match_lem buf lz42_magic,
        h10,
        checked_match_lem buf lz4_leg_magic,
        h11,
        checked_match_lem buf mtk_magic,
        h12,
        checked_match_lem buf dtb_magic,
        h13,
        checked_match_lem buf dhtb_magic,
        h14,
        checked_match_lem buf tegrablob_magic,
        h15,
      )
      refl
