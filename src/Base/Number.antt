-- ===== src/Base/Number.antt =====
-- `parse_num` and `parse_int` of native/src/base/misc.cpp, at the type int.
pub mod Printing
use kitsune_ufork.Common.{
  ℕ, zero, suc, ◌+◌, ◌-◌, ◌*◌, ◌<◌, ◌^◌, ℤ, pos, negsuc, Bool, true, false, ◌&&◌, ◌||◌, Option,
  none, some, List, [], ◌∷◌, Text, leb, ltb, if◌then◌else◌,
}

-- What an int computation gives: a value, or undefined behaviour, when it does not fit.
pub data Outcome : Type 0 where
  value : ℤ → Outcome
  overflow : Outcome

abbrev pub int_limit : ℕ
int_limit = 2 ^ 31

abbrev is_digit : ℕ → Bool
is_digit c = leb b'0' c && leb c b'9'

abbrev is_upper : ℕ → Bool
is_upper c = leb b'A' c && leb c b'Z'

abbrev is_lower : ℕ → Bool
is_lower c = leb b'a' c && leb c b'z'

-- The value of a character in a base; `none` where the loop returns -1.
unfoldable pub digit_value : ℕ → ℕ → Option ℕ
digit_value base c =
    let in_base = λ (v : ℕ). if leb base v then none else some v in
    if is_digit c
    then in_base (c - b'0')
    else if ltb 10 base && is_upper c
    then in_base (c - b'A' + 10)
    else if ltb 10 base && is_lower c
    then in_base (c - b'a' + 10)
    else none

-- The loop, with `val` so far.
unfoldable pub parse_loop : ℕ → ℕ → Text → Outcome
parse_loop base val [] = value (pos val)
parse_loop base val (c ∷ s) = elim (digit_value base c) [
  | none ↦ value (negsuc 0)
  | some v ↦ elim (ltb (val * base + v) int_limit) [
    | true ↦ parse_loop base (val * base + v) s
    | false ↦ overflow
  ]
]

unfoldable pub parse_int : Text → Outcome
parse_int s = parse_loop 10 0 s
