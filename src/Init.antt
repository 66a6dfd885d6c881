-- ===== src/Init.antt =====
-- The parser of native/src/init/getinfo.cpp: the kernel's command line, /proc/bootconfig and the map
-- of partitions as pairs of a key and a value.
pub mod Progress
pub mod RoundTrip
pub mod Config
mod Examples
use kitsune_ufork.Common.{
  ℕ, zero, suc, Bool, true, false, not, ◌&&◌, ◌||◌, Option, none, some, List, [], ◌∷◌, ◌++◌, Text,
  length, ◌==◌, if◌then◌else◌,
}
use kitsune_ufork.Base.Strings.{is_delim}

abbrev pub quote : ℕ
quote = b'"'

-- extract_quoted_str_until on what stands behind `pos`: the result, what stands behind the new
-- `pos`, and `quoted`. It ends at one of `breaks`, or, unless quoted, at one of `escapes`.
unfoldable pub extract : Text → Text → Text → Bool → Text × Text × Bool
unfolding is_delim
extract escapes breaks [] quoted = ([], [], quoted)
extract escapes breaks (c ∷ s) quoted =
    let is_quote = c == quote in
    let (result, rest, quoted') =
      extract escapes breaks s (if is_quote then not quoted else quoted) in
    if is_delim breaks c || (not quoted && is_delim escapes c)
    then ([], c ∷ s, quoted)
    else (if is_quote then result else c ∷ result, rest, quoted')

-- find_first_not_of(set, pos)
unfoldable pub skip_any : Text → Text → Text
unfolding is_delim
skip_any set [] = []
skip_any set (c ∷ s) = let rest = skip_any set s in if is_delim set c then rest else c ∷ s

abbrev pub Pairs : Type 0
Pairs = List (Text × Text)

abbrev pub and_pair : Text → Text → Option Pairs → Option Pairs
and_pair key value none = none
and_pair key value (some kv) = some ((key, value) ∷ kv)

-- parse_impl<delim, eq>(chars<padding...>)
module _ (delim eq : ℕ) (padding : Text) where
  -- The value of a key: none at the end of the text or in front of the delimiter.
  unfoldable pub value_of : Text → Bool → Text × Text × Bool
  unfolding extract
  value_of [] quoted = ([], [], quoted)
  value_of (c ∷ s) quoted =
      let taken = extract (delim ∷ []) [] (c ∷ s) quoted in
      if c == delim then ([], c ∷ s, quoted) else taken

  -- One round of the loop: the pair, and what stands behind it.
  unfoldable pub round : Text → Bool → (Text × Text) × Text × Bool
  unfolding extract skip_any value_of
  round s quoted =
      let (key, behind, quoted) = extract (padding ++ delim ∷ []) (eq ∷ []) s quoted in
      let (value, rest, quoted) = value_of (skip_any (eq ∷ padding) behind) quoted in
      ((key, value), skip_any (delim ∷ []) rest, quoted)

  -- `none` means that the fuel ran out.
  unfoldable pub pairs_loop : ℕ → Text → Bool → Option Pairs
  unfolding round
  pairs_loop zero s quoted = none
  pairs_loop (suc fuel) [] quoted = some []
  pairs_loop (suc fuel) (c ∷ s) quoted =
      let ((key, value), rest, quoted) = round (c ∷ s) quoted in
      and_pair key value (pairs_loop fuel rest quoted)

  unfoldable pub parse_impl : Text → Option Pairs
  unfolding pairs_loop
  parse_impl s = pairs_loop (suc (length s)) s false

abbrev pub parse_cmdline : Text → Option Pairs
parse_cmdline = parse_impl b' ' b'=' []

abbrev pub parse_bootconfig : Text → Option Pairs
parse_bootconfig = parse_impl b'\n' b'=' (b' ' ∷ [])

abbrev pub parse_partition_map : Text → Option Pairs
parse_partition_map = parse_impl b';' b',' []
