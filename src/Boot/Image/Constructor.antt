-- ===== src/Boot/Image/Constructor.antt =====
-- The constructor `boot_img::boot_img` of native/src/boot/bootimg.cpp: where the image begins.
use kitsune_ufork.Common.{
  ℕ, zero, suc, ◌+◌, Bool, List, [], ◌∷◌, Text, length, take, drop, ltb, if◌then◌else◌,
}
use kitsune_ufork.Format.{Format, chromeos, dhtb, blob, aosp, aosp_vendor, check_fmt}
use kitsune_ufork.Boot.Image.{
  Image, Flag, Parse, ok, refused, exits, crashes, hangs, Source, memory, Created, create_hdr,
  chromeos_flag, dhtb_flag, seandroid_flag, blob_flag, sha256_flag,
}
use kitsune_ufork.Boot.Image.Parsing.{parse_image, sha256_id}

-- `return false` goes on with the search, with the flags set so far.
abbrev or_search : Parse Image → Parse Image → Parse Image
or_search refused next = next
or_search (ok m) next = ok m
or_search exits next = exits
or_search crashes next = crashes
or_search hangs next = hangs

abbrev try_image : (Text → Text → Bool) → Source → Created → (List Flag → Parse Image) → Parse Image
try_image verify s (base, ok h, fs) next =
    let kept = if sha256_id h then sha256_flag ∷ fs else fs in
    or_search (parse_image verify s h base fs) (next kept)
try_image verify s (base, refused, fs) next = next fs
try_image verify s (base, exits, fs) next = exits
try_image verify s (base, crashes, fs) next = crashes
try_image verify s (base, hangs, fs) next = hangs

abbrev dhtb_sz : ℕ
dhtb_sz = 512

abbrev blob_sz : ℕ
blob_sz = 104

-- What the switch does at a format: skip a header of some length, try an image, or pass on.
pub data Found : Type 0 where
  skip : ℕ → List Flag → Found
  image : Found
  pass : Found

unfoldable pub at_format : Format → Found
at_format chromeos = skip 65536 (chromeos_flag ∷ [])
at_format dhtb = skip dhtb_sz (seandroid_flag ∷ dhtb_flag ∷ [])
at_format blob = skip blob_sz (blob_flag ∷ [])
at_format aosp = image
at_format aosp_vendor = image
at_format f = pass

abbrev set_all : List Flag → List Flag → List Flag
set_all [] fs = fs
set_all (f ∷ new) fs = f ∷ set_all new fs

-- The loop; one round moves on by one byte at least.
unfoldable pub find_image : (Text → Text → Bool) → Source → ℕ → ℕ → List Flag → Parse Image
unfolding memory
find_image verify s zero addr fs = exits
find_image verify s (suc fuel) addr fs =
    let fmt = check_fmt (take (length s.bytes) (drop addr (memory s))) in
    if ltb addr (length s.bytes)
    then elim (at_format fmt) [
      | skip n new ↦ find_image verify s fuel (addr + n) (set_all new fs)
      | image ↦ try_image verify s (create_hdr s addr fmt fs) (find_image verify s fuel (suc addr))
      | pass ↦ find_image verify s fuel (suc addr) fs
    ]
    else exits

unfoldable pub boot_img : (Text → Text → Bool) → Source → Parse Image
boot_img verify s = find_image verify s (suc (length s.bytes)) 0 []
