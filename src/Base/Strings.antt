-- ===== src/Base/Strings.antt =====
-- The string functions of native/src/base/misc.hpp and misc.cpp.
pub mod Splitting
pub mod Replacing
use kitsune_ufork.Common.{
  ℕ, zero, suc, ◌+◌, ◌-◌, Bool, true, false, not, ◌&&◌, ◌||◌, Option, none, some, List, [], ◌∷◌,
  ◌++◌, Text, length, take, drop, leb, ◌==◌, if◌then◌else◌, str_starts, str_eql, any,
}

-- find_first_of(delims, base), as the piece before the delimiter and what stands behind it, if
-- there is one.
unfoldable pub is_delim : Text → ℕ → Bool
is_delim delims c = any (λ d. d == c) delims

unfoldable pub cut : Text → Text → Text × Option Text
unfolding is_delim
cut delims [] = ([], none)
cut delims (c ∷ s) =
    let (piece, rest) = cut delims s in
    if is_delim delims c then ([], some s) else (c ∷ piece, rest)

-- The loop of split_impl; `none` means that the fuel ran out.
unfoldable pub split_loop : ℕ → Text → Text → Option (List Text)
unfolding cut
split_loop zero delims s = none
split_loop (suc fuel) delims s = elim (cut delims s).1 [
  | none ↦ some ((cut delims s).0 ∷ [])
  | some rest ↦ elim (split_loop fuel delims rest) [
    | none ↦ none
    | some pieces ↦ some ((cut delims s).0 ∷ pieces)
  ]
]

-- Each round but the last passes a delimiter.
unfoldable pub split : Text → Text → Option (List Text)
split delims s = split_loop (suc (length s)) delims s

-- str.find(from) at the current position: what stands before the match, and behind it.
unfoldable pub find_str : Text → Text → Option (Text × Text)
find_str from [] = if str_starts [] from then some ([], []) else none
find_str from (c ∷ s) =
    let later = find_str from s in
    if str_starts (c ∷ s) from
    then some ([], drop (length from) (c ∷ s))
    else elim later [ none ↦ none | some (head, tail) ↦ some (c ∷ head, tail) ]

-- replace_all goes on behind what it has put in; `none` means that the fuel ran out.
unfoldable pub replace_loop : ℕ → Text → Text → Text → Option Text
unfolding find_str
replace_loop zero from to s = none
replace_loop (suc fuel) from to s = elim (find_str from s) [
  | none ↦ some s
  | some (head, tail) ↦ elim (replace_loop fuel from to tail) [
    | none ↦ none
    | some rest ↦ some (head ++ (to ++ rest))
  ]
]

unfoldable pub replace_all : Text → Text → Text → Option Text
replace_all from to s = replace_loop (suc (length s)) from to s

-- isspace in the C locale
unfoldable pub isspace : ℕ → Bool
isspace c = c == 32 || (leb 9 c && leb c 13)

unfoldable pub ltrim : Text → Text
unfolding isspace
ltrim [] = []
ltrim (c ∷ s) = let rest = ltrim s in if isspace c then rest else c ∷ s

-- rtrim drops zero bytes at the end too.
unfoldable pub rtrim : Text → Text
unfolding isspace
rtrim [] = []
rtrim (c ∷ s) = elim (rtrim s) [
  | [] ↦ if isspace c || c == 0 then [] else c ∷ []
  | d ∷ t ↦ c ∷ d ∷ t
]

-- s.compare(s.size() - ss.size(), npos, ss) == 0
unfoldable pub str_ends : Text → Text → Bool
str_ends s ss = leb (length ss) (length s) && str_eql (drop (length s - length ss) s) ss

-- s.find(ss) != npos
unfoldable pub str_contains : Text → Text → Bool
unfolding find_str
str_contains s ss = elim (find_str ss s) [ none ↦ false | some r ↦ true ]
