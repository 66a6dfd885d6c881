-- ===== src/Boot/Memory.antt =====
-- Bytes at an offset: what native/src/boot/bootimg.cpp reads and writes through packed structs, on
-- a little-endian machine, and `align_to` and `align_padding` of native/src/base/files.hpp.
pub mod Laws
use kitsune_ufork.Common.{
  ℕ, zero, suc, ◌+◌, ◌-◌, ◌*◌, ◌/◌, ◌%◌, ◌^◌, ◌≤◌, ◌<◌, ◌≡◌, refl, ap, List, [], ◌∷◌, ◌++◌, Text,
  length, take, drop, ltb, if◌then◌else◌, length-append, length-take, length-drop, arith,
}

-- The first `n` bytes as a number; past the end of a file its last page reads as zero.
unfoldable pub le_bytes : ℕ → Text → ℕ
le_bytes zero s = 0
le_bytes (suc n) [] = 0
le_bytes (suc n) (c ∷ s) = c + 256 * le_bytes n s

-- A number in `n` bytes, cut to them.
unfoldable pub to_le : ℕ → ℕ → Text
to_le zero v = []
to_le (suc n) v = v % 256 ∷ to_le n (v / 256)

-- A write at an offset.
unfoldable pub store_at : ℕ → Text → Text → Text
store_at off w s = take off s ++ (w ++ drop (length w) (drop off s))

-- A number in a struct at an offset.
abbrev pub load_le : ℕ → ℕ → Text → ℕ
load_le n off s = le_bytes n (drop off s)

-- A size_t wraps.
abbrev pub size_mod : ℕ
size_mod = 2 ^ 64

-- A uint32_t given as an int and used as a size_t: negative from 2^31 on.
unfoldable pub as_int : ℕ → ℕ
as_int a = if ltb a (2 ^ 31) then a else a + (size_mod - 2 ^ 32)

-- (v + a - 1) / a * a; the callers keep `a` from being zero.
unfoldable pub align_to : ℕ → ℕ → ℕ
align_to v a = (v + a + size_mod - 1) % size_mod / a * a

-- The same of an off_t, which no file's length makes overflow.
abbrev pub round_up : ℕ → ℕ → ℕ
round_up v a = (v + a - 1) / a * a

unfoldable pub align_padding : ℕ → ℕ → ℕ
align_padding v a = round_up v a - v
