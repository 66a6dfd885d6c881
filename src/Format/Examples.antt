-- ===== src/Format/Examples.antt =====
-- Buffers that native/src/boot/format.cpp tells apart.
use kitsune_ufork.Common.{◌≡◌, refl, [], ◌∷◌, Text, codes, str_starts}
use kitsune_ufork.Format.{check_fmt, gzip, bzip2, unknown, checked_match, lzma_match, zimage_match}

abbrev zipped : Text
zipped = 0x1f ∷ 0x8b ∷ 8 ∷ 0 ∷ []

told_apart :
    check_fmt zipped ≡ gzip × check_fmt (codes "BZh9") ≡ bzip2 × check_fmt (codes "BZ") ≡ unknown
unfolding check_fmt checked_match str_starts lzma_match zimage_match
told_apart = (refl, refl, refl)
