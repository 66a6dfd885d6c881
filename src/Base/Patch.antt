-- ===== src/Base/Patch.antt =====
-- `byte_data::patch` of native/src/base/misc.cpp.
pub mod Whole
use kitsune_ufork.Common.{
  ℕ, zero, suc, ◌+◌, Option, none, some, List, [], ◌∷◌, ◌++◌, Text, length, take, drop, leb,
  if◌then◌else◌,
}
use kitsune_ufork.Base.Strings.{find_str}

abbrev pub zeros : ℕ → Text
zeros zero = []
zeros (suc n) = 0 ∷ zeros n

-- memset and memcpy at the front of a text.
abbrev pub overlay : Text → Text → Text
overlay w s = w ++ drop (length w) s

-- The loop with `p` at offset `off` and `s` the bytes from there on: the bytes after it, and the
-- offsets it pushes. `none` is a write behind the end, or that the fuel ran out.
unfoldable pub patch_loop : ℕ → Text → Text → ℕ → Text → Option (Text × List ℕ)
patch_loop zero from to off s = none
patch_loop (suc fuel) from to off [] = some ([], [])
patch_loop (suc fuel) from to off (c ∷ s) = elim (find_str from (c ∷ s)) [
  | none ↦ some (c ∷ s, [])
  | some (head, tail) ↦
      let at = overlay to (overlay (zeros (length from)) (from ++ tail)) in
      let p = off + length head in
      elim (patch_loop fuel from to (p + length from) (drop (length from) at)) [
        | none ↦ none
        | some (t, v) ↦
            if leb (length to) (length (from ++ tail))
            then some (head ++ (take (length from) at ++ t), p ∷ v)
            else none
      ]
]

unfoldable pub patch : Text → Text → Text → Option (Text × List ℕ)
patch from to s = patch_loop (suc (length s)) from to 0 s
