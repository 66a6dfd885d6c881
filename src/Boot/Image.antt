-- ===== src/Boot/Image.antt =====
-- What `boot_img` of native/src/boot/bootimg.hpp holds once it is built, and `create_hdr` of
-- native/src/boot/bootimg.cpp. Pointers into the map are offsets from its start; the last page of
-- the map is filled up with zeros, and so is what is read behind it, but for copies and for the
-- meta data of AVB, where such a read is a crash.
pub mod Kernel
pub mod Parsing
pub mod Constructor
use kitsune_ufork.Common.{
  ℕ, ◌+◌, ◌-◌, ◌*◌, ◌%◌, ◌^◌, Bool, true, false, ◌&&◌, ◌||◌, Option, none, some, List, [], ◌∷◌,
  ◌++◌, Text, codes, length, take, drop, any, leb, ltb, ◌==◌, if◌then◌else◌, str_starts,
}
use kitsune_ufork.Base.Strings.{str_contains}
use kitsune_ufork.Base.Patch.{zeros}
use kitsune_ufork.Format.{Format, aosp_vendor, unknown, boot_magic}
use kitsune_ufork.Boot.Memory.{load_le, align_to}
use kitsune_ufork.Boot.Header.{Kind, v0, v1, v2, v3, v4, pxa, vnd_v3, vnd_v4, Hdr, hdr_size}
use kitsune_ufork.Boot.Layout.{
  Block, kernel, ramdisk, second, extra, recovery_dtbo, dtb, signature, vendor_ramdisk_table,
  bootconfig,
}
use kitsune_ufork.Boot.Search.{word, same_fmt}

-- The bits of `flags`.
pub data Flag : Type 0 where
  mtk_kernel mtk_ramdisk chromeos_flag dhtb_flag seandroid_flag lg_bump_flag : Flag
  sha256_flag blob_flag nookhd_flag acclaim_flag amonet_flag : Flag
  avb1_signed_flag avb_flag zimage_kernel : Flag

-- The number of the bit.
abbrev pub bit_of : Flag → ℕ
bit_of mtk_kernel = 0
bit_of mtk_ramdisk = 1
bit_of chromeos_flag = 2
bit_of dhtb_flag = 3
bit_of seandroid_flag = 4
bit_of lg_bump_flag = 5
bit_of sha256_flag = 6
bit_of blob_flag = 7
bit_of nookhd_flag = 8
bit_of acclaim_flag = 9
bit_of amonet_flag = 10
bit_of avb1_signed_flag = 11
bit_of avb_flag = 12
bit_of zimage_kernel = 13

-- The flags that are set.
unfoldable pub has : Flag → List Flag → Bool
has f fs = any (λ g. bit_of g == bit_of f) fs

-- `z_info`: the length of what stands before the piggy, and what follows it.
pub record ZInfo : Type 0 where
  pub hdr_sz : ℕ
  pub tail_at : ℕ
  pub tail_sz : ℕ

-- The members. `places` are the pointers to the blocks, the last change first.
pub record Image : Type 0 where
  pub hdr : Hdr
  pub base : ℕ
  pub flags : List Flag
  pub places : List (Block × ℕ)
  pub payload_sz : ℕ
  pub k_fmt : Format
  pub r_fmt : Format
  pub e_fmt : Format
  pub k_hdr : ℕ
  pub r_hdr : ℕ
  pub z_hdr : ℕ
  pub z_info : ZInfo
  pub kernel_dtb : ℕ × ℕ
  pub avb_footer : ℕ
  pub vbmeta : ℕ

abbrev pub block_number : Block → ℕ
block_number kernel = 0
block_number ramdisk = 1
block_number second = 2
block_number extra = 3
block_number recovery_dtbo = 4
block_number dtb = 5
block_number signature = 6
block_number vendor_ramdisk_table = 7
block_number bootconfig = 8

-- A pointer, null while it is not set.
unfoldable pub place : Block → List (Block × ℕ) → ℕ
place b [] = 0
place b ((c, at) ∷ l) =
    let rest = place b l in if block_number c == block_number b then at else rest

-- What a step of building an image comes to: a value, `return false`, exit(1), a fault, or a loop
-- that has not ended within its fuel.
pub data Parse {ℓ} (A : Type ℓ) : Type ℓ where
  ok : A → Parse A
  refused exits crashes hangs : Parse A

unfoldable pub and_then {ℓ} : {A B : Type ℓ} → Parse A → (A → Parse B) → Parse B
and_then (ok a) f = f a
and_then refused f = refused
and_then exits f = exits
and_then crashes f = crashes
and_then hangs f = hangs

-- The file and the system's page size; `map_end`, and the memory up to there.
pub record Source : Type 0 where
  pub bytes : Text
  pub sys_page : ℕ
  pub heap : Text

abbrev pub map_end : Source → ℕ
map_end s = align_to (length s.bytes) s.sys_page

unfoldable pub memory : Source → Text
memory s = s.bytes ++ zeros (map_end s - length s.bytes)

-- The constructor of a header copies the struct.
unfoldable pub new_hdr : Kind → Text → Parse Hdr
unfolding hdr_size
new_hdr k p =
    if leb (hdr_size k) (length p)
    then ok (record { kind = k; raw = take (hdr_size k) p })
    else crashes

-- make_hdr: `header_version` of boot_img_hdr_v0 is at 40.
unfoldable pub make_hdr : Text → Parse Hdr
make_hdr p =
    let version = load_le 4 40 p in
    if str_starts p boot_magic
    then if version == 1
      then new_hdr v1 p
      else if version == 2
      then new_hdr v2 p
      else if version == 3
      then new_hdr v3 p
      else if version == 4
      then new_hdr v4 p
      else new_hdr v0 p
    else refused

abbrev amonet_sz : ℕ
amonet_sz = 1024

-- AMONET: the header is copied to the heap from behind the loader, one page less the loader.
unfoldable pub amonet_hdr : Source → Text → Parse Hdr
amonet_hdr s p =
    let h = drop amonet_sz p in
    let page_size = load_le 4 36 h in
    if leb amonet_sz page_size then make_hdr (take (page_size - amonet_sz) h ++ s.heap) else crashes

abbrev nookhd_magics : List Text
nookhd_magics =
    codes "Red Loader"
    ∷ codes "Green Loader"
    ∷ codes "Green Recovery"
    ∷ codes "eMMC boot.img+secondloader"
    ∷ codes "eMMC recovery.img+secondloader"
    ∷ []

-- The header, the address it is taken from, and the flags.
abbrev pub Created : Type 0
Created = ℕ × Parse Hdr × List Flag

-- boot_img::create_hdr: `page_size` of boot_img_hdr_v0 is at 36, `name` at 48, `cmdline` at 64.
unfoldable pub create_hdr : Source → ℕ → Format → List Flag → Created
unfolding make_hdr memory
create_hdr s addr type fs =
    let p = drop addr (memory s) in
    if same_fmt type aosp_vendor
    then (addr, (if load_le 4 8 p == 4 then new_hdr vnd_v4 p else new_hdr vnd_v3 p), fs)
    else if leb 0x02000000 (load_le 4 36 p)
    then (addr, new_hdr pxa p, fs)
    else if str_contains (take amonet_sz p) (codes "microloader")
        && str_starts (drop amonet_sz p) boot_magic
    then (addr, amonet_hdr s p, amonet_flag ∷ fs)
    else if any (λ m. str_starts (drop 64 p) m) nookhd_magics
    then (addr + 1048576, make_hdr (drop (addr + 1048576) (memory s)), nookhd_flag ∷ fs)
    else if str_starts (drop 48 p) (codes "BauwksBoot")
    then (addr + 262144, make_hdr (drop (addr + 262144) (memory s)), acclaim_flag ∷ fs)
    else (addr, make_hdr p, fs)
