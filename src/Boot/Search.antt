-- ===== src/Boot/Search.antt =====
-- Searches in a block of native/src/boot/bootimg.cpp: `check_fmt_lg`, `find_dtb_offset` and, from
-- `boot_img::parse_image`, the compressed kernel (the piggy) of a zImage. `buf` is the memory from
-- the pointer on, `sz` the length that the caller gives.
pub mod Hang
pub mod Device
use kitsune_ufork.Common.{
  ℕ, zero, suc, ◌+◌, ◌-◌, ◌*◌, ◌%◌, ◌^◌, Bool, true, false, ◌&&◌, ◌||◌, Option, none, some, List,
  [], ◌∷◌, Text, length, take, drop, leb, ltb, ◌==◌, if◌then◌else◌,
}
use kitsune_ufork.Base.Strings.{find_str}
use kitsune_ufork.Format.{Format, unknown, lz4_legacy, lz4_lg, check_fmt, dtb_magic, ordinal}
use kitsune_ufork.Boot.Memory.{load_le, le_bytes}

-- uint32_t wraps.
abbrev pub word : ℕ
word = 2 ^ 32

abbrev pub same_fmt : Format → Format → Bool
same_fmt f g = ordinal f == ordinal g

-- The loop over the blocks of an lz4_legacy file, where `off` and the sums with it are 32 bits wide
-- but for the test of the loop; `none`: it has not ended after so many rounds.
unfoldable pub lg_loop : ℕ → Text → ℕ → ℕ → Option Format
lg_loop zero buf sz off = none
lg_loop (suc fuel) buf sz off =
    let block_sz = load_le 4 off buf in
    let next = (off + 4) % word in
    let last = (next + block_sz) % word in
    if leb (off + 4) sz
    then elim (ltb sz last) [ true ↦ some lz4_lg | false ↦ lg_loop fuel buf sz last ]
    else some lz4_legacy

unfoldable pub check_fmt_lg : ℕ → Text → ℕ → Option Format
check_fmt_lg fuel buf sz =
    let fmt = check_fmt (take sz buf) in
    elim (same_fmt fmt lz4_legacy) [ true ↦ lg_loop fuel buf sz 4 | false ↦ some fmt ]

-- fdt32_t: big-endian.
unfoldable pub fdt32 : ℕ → Text → ℕ
unfolding le_bytes
fdt32 off s =
    load_le 1 off s * 2 ^ 24
    + load_le 1 (off + 1) s * 2 ^ 16
    + load_le 1 (off + 2) s * 2 ^ 8
    + load_le 1 (off + 3) s

-- The three tests on a header at `at`.
abbrev pub is_fdt : Text → ℕ → ℕ → Bool
is_fdt buf sz at =
    let hdr = drop at buf in
    let off_dt_struct = fdt32 8 hdr in
    leb (fdt32 4 hdr) (sz - at) && (leb off_dt_struct (sz - at) && fdt32 off_dt_struct hdr == 1)

-- The loop, from `curr` on; a header that fails a test is skipped with its 40 bytes. `none` is -1;
-- each round takes 40 bytes at least, so that as many rounds as there are bytes are enough.
unfoldable pub dtb_loop : ℕ → Text → ℕ → ℕ → Option ℕ
unfolding find_str
dtb_loop zero buf sz curr = none
dtb_loop (suc fuel) buf sz curr =
    if ltb curr sz
    then elim (find_str dtb_magic (take (sz - curr) (drop curr buf))) [
      | none ↦ none
      | some (head, tail) ↦
          let at = curr + length head in
          elim (is_fdt buf sz at) [ true ↦ some at | false ↦ dtb_loop fuel buf sz (at + 40) ]
    ]
    else none

unfoldable pub find_dtb_offset : Text → ℕ → Option ℕ
find_dtb_offset buf sz = dtb_loop (suc sz) buf sz 0

-- The first place, with `n` left, where something known begins; the outer `none`: some check does
-- not end.
unfoldable pub piggy_loop : ℕ → ℕ → Text → ℕ → Option (Option ℕ)
piggy_loop fuel zero buf pos = some none
piggy_loop fuel (suc n) buf pos = elim (check_fmt_lg fuel (drop pos buf) (suc n)) [
  | none ↦ none
  | some fmt ↦ elim (same_fmt fmt unknown) [
    | true ↦ piggy_loop fuel n buf (suc pos)
    | false ↦ some (some pos)
  ]
]

-- From the end of the header on, 0x28 bytes into the kernel.
unfoldable pub find_piggy : ℕ → Text → ℕ → Option (Option ℕ)
find_piggy fuel buf kernel_size = piggy_loop fuel (kernel_size - 0x28) buf 0x28

-- The last of the sixteen words before the end of the zImage that points into its last 255 bytes.
unfoldable pub last_offset : ℕ → ℕ → List ℕ → ℕ → ℕ
last_offset size low [] found = found
last_offset size low (w ∷ ws) found =
    last_offset size low ws (if ltb low w && ltb w size then w else found)

abbrev words : ℕ → Text → List ℕ
words zero s = []
words (suc n) s = le_bytes 4 s ∷ words n (drop 4 s)

-- `at` is the start of the sixteen words.
unfoldable pub find_piggy_end : Text → ℕ → ℕ
unfolding le_bytes
find_piggy_end at size = last_offset size ((size + word - 0xff) % word) (words 16 at) size
