-- ===== src/Boot/Header.antt =====
-- The headers of native/src/boot/bootimg.hpp: `dyn_img_hdr` and its classes, as a table of the
-- places of the fields in the raw header.
pub mod Numbers
pub mod Laws
use kitsune_ufork.Common.{
  ℕ, ◌+◌, ◌≡◌, Bool, true, false, ◌&&◌, Option, none, some, List, [], ◌∷◌, ◌++◌, Text, take, drop,
  if◌then◌else◌, ◌==◌,
}
use kitsune_ufork.Boot.Memory.{load_le, to_le, store_at, as_int, align_to}

-- dyn_img_v0, .., dyn_img_pxa, dyn_img_vnd_v3 and dyn_img_vnd_v4
pub data Kind : Type 0 where
  v0 v1 v2 v3 v4 pxa vnd_v3 vnd_v4 : Kind

-- The numbers that dyn_img_hdr declares.
pub data Field : Type 0 where
  kernel_size ramdisk_size second_size page_size header_version extra_size os_version : Field
  recovery_dtbo_size recovery_dtbo_offset header_size dtb_size signature_size : Field
  vendor_ramdisk_table_size vendor_ramdisk_table_entry_num : Field
  vendor_ramdisk_table_entry_size bootconfig_size : Field

-- A header: its class and the bytes of `raw`.
pub record Hdr : Type 0 where
  pub kind : Kind
  pub raw : Text

unfoldable pub is_vendor : Kind → Bool
is_vendor vnd_v3 = true
is_vendor vnd_v4 = true
is_vendor k = false

-- sizeof the struct.
unfoldable pub hdr_size : Kind → ℕ
hdr_size v0 = 1632
hdr_size v1 = 1648
hdr_size v2 = 1660
hdr_size v3 = 1580
hdr_size v4 = 1584
hdr_size pxa = 1640
hdr_size vnd_v3 = 2112
hdr_size vnd_v4 = 2128

-- The fields of boot_img_hdr_v0_common and boot_img_hdr_v0, as dyn_img_v0 shows them.
abbrev v0_offset : Field → Option ℕ
v0_offset kernel_size = some 8
v0_offset ramdisk_size = some 16
v0_offset second_size = some 24
v0_offset page_size = some 36
v0_offset extra_size = some 40
v0_offset os_version = some 44
v0_offset f = none

-- dyn_img_v1 shows the number that dyn_img_v0 takes for extra_size as the version.
abbrev v1_offset : Field → Option ℕ
v1_offset extra_size = none
v1_offset header_version = some 40
v1_offset recovery_dtbo_size = some 1632
v1_offset recovery_dtbo_offset = some 1636
v1_offset header_size = some 1644
v1_offset f = v0_offset f

abbrev v2_offset : Field → Option ℕ
v2_offset dtb_size = some 1648
v2_offset f = v1_offset f

abbrev pxa_offset : Field → Option ℕ
pxa_offset kernel_size = some 8
pxa_offset ramdisk_size = some 16
pxa_offset second_size = some 24
pxa_offset extra_size = some 32
pxa_offset page_size = some 44
pxa_offset f = none

abbrev v3_offset : Field → Option ℕ
v3_offset kernel_size = some 8
v3_offset ramdisk_size = some 12
v3_offset os_version = some 16
v3_offset header_size = some 20
v3_offset header_version = some 40
v3_offset f = none

abbrev v4_offset : Field → Option ℕ
v4_offset signature_size = some 1580
v4_offset f = v3_offset f

abbrev vnd_v3_offset : Field → Option ℕ
vnd_v3_offset header_version = some 8
vnd_v3_offset page_size = some 12
vnd_v3_offset ramdisk_size = some 24
vnd_v3_offset header_size = some 2096
vnd_v3_offset dtb_size = some 2100
vnd_v3_offset f = none

abbrev vnd_v4_offset : Field → Option ℕ
vnd_v4_offset vendor_ramdisk_table_size = some 2112
vnd_v4_offset vendor_ramdisk_table_entry_num = some 2116
vnd_v4_offset vendor_ramdisk_table_entry_size = some 2120
vnd_v4_offset bootconfig_size = some 2124
vnd_v4_offset f = vnd_v3_offset f

-- Where the struct of a class has a field; `none` where the class does not show it.
unfoldable pub offset : Kind → Field → Option ℕ
offset v0 f = v0_offset f
offset v1 f = v1_offset f
offset v2 f = v2_offset f
offset v3 f = v3_offset f
offset v4 f = v4_offset f
offset pxa f = pxa_offset f
offset vnd_v3 f = vnd_v3_offset f
offset vnd_v4 f = vnd_v4_offset f

-- decl_var(recovery_dtbo_offset, 64); the others are 32 bits wide.
unfoldable pub width : Field → ℕ
width recovery_dtbo_offset = 8
width f = 4

-- decl_val: a number that the class does not show is 0.
abbrev load_some : Option ℕ → ℕ → Text → ℕ
load_some none n raw = 0
load_some (some off) n raw = load_le n off raw

abbrev pub fixed_page : Kind → Bool
fixed_page v3 = true
fixed_page v4 = true
fixed_page k = false

abbrev pub is_page_size : Field → Bool
is_page_size page_size = true
is_page_size f = false

-- `hdr->f()`; the page of the versions 3 and 4 is fixed.
unfoldable pub get : Field → Hdr → ℕ
get f h =
    if fixed_page h.kind && is_page_size f
    then 4096
    else load_some (offset h.kind f) (width f) h.raw

-- decl_var: a number that the class does not show is written to a scratch variable.
abbrev store_some : Option ℕ → ℕ → ℕ → Text → Text
store_some none n v raw = raw
store_some (some off) n v raw = store_at off (to_le n v) raw

-- `hdr->f() = v`
unfoldable pub set : Field → ℕ → Hdr → Hdr
set f v h = record h { raw = store_some (offset h.kind f) (width f) v h.raw }

-- The texts: name, cmdline, id and extra_cmdline, by their place and length.
pub data Str : Type 0 where
  name cmdline id extra_cmdline : Str

unfoldable pub str_place : Kind → Str → Option (ℕ × ℕ)
str_place pxa name = some (48, 24)
str_place pxa cmdline = some (72, 512)
str_place pxa id = some (584, 32)
str_place pxa extra_cmdline = some (616, 1024)
str_place v3 cmdline = some (44, 512)
str_place v3 extra_cmdline = some (556, 1024)
str_place v3 s = none
str_place v4 cmdline = some (44, 512)
str_place v4 extra_cmdline = some (556, 1024)
str_place v4 s = none
str_place vnd_v3 name = some (2080, 16)
str_place vnd_v3 cmdline = some (28, 512)
str_place vnd_v3 extra_cmdline = some (540, 1024)
str_place vnd_v3 id = none
str_place vnd_v4 name = some (2080, 16)
str_place vnd_v4 cmdline = some (28, 512)
str_place vnd_v4 extra_cmdline = some (540, 1024)
str_place vnd_v4 id = none
str_place k name = some (48, 16)
str_place k cmdline = some (64, 512)
str_place k id = some (576, 32)
str_place k extra_cmdline = some (608, 1024)

abbrev pub has_str : Kind → Str → Bool
has_str k s = elim (str_place k s) [ none ↦ false | some p ↦ true ]

abbrev get_some : Option (ℕ × ℕ) → Text → Text
get_some none raw = []
get_some (some (off, n)) raw = take n (drop off raw)

-- The whole array of a text.
unfoldable pub get_str : Str → Hdr → Text
get_str s h = get_some (str_place h.kind s) h.raw

abbrev put_some : Option (ℕ × ℕ) → Text → Text → Text
put_some none t raw = raw
put_some (some (off, n)) t raw = store_at off t raw

-- Bytes to the front of an array.
unfoldable pub put_str : Str → Text → Hdr → Hdr
put_str s t h = record h { raw = put_some (str_place h.kind s) t h.raw }

-- One page, and for a vendor image as many as the header needs.
unfoldable pub hdr_space : Hdr → ℕ
unfolding align_to get as_int
hdr_space h =
    if is_vendor h.kind
    then align_to (hdr_size h.kind) (as_int (get page_size h))
    else get page_size h

-- Whether the class has the field at a place of its own.
abbrev pub shown : Kind → Field → Bool
shown k f = elim (offset k f) [ none ↦ false | some a ↦ true ]
