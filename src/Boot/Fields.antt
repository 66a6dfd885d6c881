-- ===== src/Boot/Fields.antt =====
-- The header as a text file: `dyn_img_hdr::dump_hdr_file` and `dyn_img_hdr::load_hdr_file` of
-- native/src/boot/bootimg.cpp, and `parse_prop_file` of native/src/base/files.cpp.
pub mod Or
pub mod Version
use Prim.Native.Nat.{bit_or}
use kitsune_ufork.Common.{
  ℕ, zero, suc, ◌+◌, ◌-◌, ◌*◌, ◌/◌, ◌%◌, ◌^◌, Bool, true, false, ◌&&◌, ◌||◌, Option, none, some,
  List, [], ◌∷◌, ◌++◌, Text, codes, length, take, drop, leb, ltb, ◌==◌, if◌then◌else◌, str_eql,
  c_str,
}
use kitsune_ufork.Base.Patch.{zeros}
use kitsune_ufork.Base.Strings.{isspace}
use kitsune_ufork.Base.Number.Printing.{to_string}
use kitsune_ufork.Boot.Header.{
  Hdr, get, set, os_version, name, cmdline, extra_cmdline, has_str, get_str, put_str,
}
use kitsune_ufork.Boot.Search.{word}

-- getline: the lines, without their ends.
unfoldable pub lines : Text → List Text
lines [] = []
lines (c ∷ s) =
    if c == 10 then [] ∷ lines s else elim (lines s) [ [] ↦ (c ∷ []) ∷ [] | l ∷ ls ↦ (c ∷ l) ∷ ls ]

-- file_readline with trim: blanks and carriage returns at the end, blanks at the start.
abbrev blank : ℕ → Bool
blank c = c == 10 || (c == 13 || c == 32)

unfoldable pub trim_end : Text → Text
trim_end [] = []
trim_end (c ∷ s) = elim (trim_end s) [ [] ↦ if blank c then [] else c ∷ [] | d ∷ t ↦ c ∷ (d ∷ t) ]

unfoldable pub trim_start : Text → Text
trim_start [] = []
trim_start (c ∷ s) = let rest = trim_start s in if c == 32 then rest else c ∷ s

-- strchr(line, '='): what stands before it and behind it.
unfoldable pub cut_eql : Text → Option (Text × Text)
cut_eql [] = none
cut_eql (c ∷ s) =
    let rest = cut_eql s in
    if c == b'='
    then some ([], s)
    else elim rest [ none ↦ none | some (key, value) ↦ some (c ∷ key, value) ]

-- A comment, a line without `=` and one that begins with it are passed over.
abbrev prop_of : Text → Option (Text × Text)
prop_of [] = none
prop_of (c ∷ s) = if c == b'#' then none else if c == b'=' then none else cut_eql (c ∷ s)

abbrev add_prop : Option (Text × Text) → List (Text × Text) → List (Text × Text)
add_prop none ps = ps
add_prop (some p) ps = p ∷ ps

abbrev props_of : List Text → List (Text × Text)
props_of [] = []
props_of (l ∷ ls) = add_prop (prop_of (c_str (trim_start (trim_end l)))) (props_of ls)

-- The calls that parse_prop_file makes.
unfoldable pub parse_prop_file : Text → List (Text × Text)
unfolding c_str trim_start trim_end cut_eql lines
parse_prop_file s = props_of (lines s)

-- %d of sscanf, in digits with an optional sign; an int is its 32 bits. `none`: no match.
unfoldable pub scan_digits : ℕ → Text → ℕ × Text
scan_digits val [] = (val, [])
scan_digits val (c ∷ s) =
    let more = scan_digits (val * 10 + (c - b'0')) s in
    if leb b'0' c && leb c b'9' then more else (val, c ∷ s)

abbrev pub starts_digit : Text → Bool
starts_digit [] = false
starts_digit (c ∷ s) = leb b'0' c && leb c b'9'

abbrev pub skip_space : Text → Text
skip_space [] = []
skip_space (c ∷ s) = let rest = skip_space s in if isspace c then rest else c ∷ s

abbrev pub scan_plus : Text → Option (ℕ × Text)
scan_plus s =
    let (n, rest) = scan_digits 0 s in if starts_digit s then some (n % word, rest) else none

abbrev pub negated : Option (ℕ × Text) → Option (ℕ × Text)
negated none = none
negated (some (n, rest)) = some ((word - n) % word, rest)

abbrev pub scan_signed : Text → Option (ℕ × Text)
scan_signed [] = none
scan_signed (c ∷ s) =
    if c == b'-'
    then negated (scan_plus s)
    else if c == b'+'
    then scan_plus s
    else scan_plus (c ∷ s)

unfoldable pub scan_int : Text → Option (ℕ × Text)
unfolding scan_digits isspace
scan_int s = scan_signed (skip_space s)

-- A character of the format that stands for itself.
abbrev pub scan_char : ℕ → Text → Option Text
scan_char d [] = none
scan_char d (c ∷ s) = if c == d then some s else none

-- "%d.%d.%d" and "%d-%d" fill the variables that they get to, and leave the rest as it was.
unfoldable pub scan_dash : Text → ℕ × ℕ → ℕ × ℕ
unfolding scan_int
scan_dash s (y, m) = elim (scan_int s) [
  | none ↦ (y, m)
  | some (y', s) ↦ elim (scan_char b'-' s) [
    | none ↦ (y', m)
    | some s ↦ elim (scan_int s) [ none ↦ (y', m) | some (m', s) ↦ (y', m') ]
  ]
]

abbrev pub scan_dot : Text → ℕ → ℕ × Text
scan_dot s old = elim (scan_char b'.' s) [
  | none ↦ (old, [])
  | some s ↦ elim (scan_int s) [ none ↦ (old, []) | some (n, s) ↦ (n, s) ]
]

unfoldable pub scan_dots : Text → ℕ × ℕ × ℕ → ℕ × ℕ × ℕ
unfolding scan_int
scan_dots s (a, b, c) = elim (scan_int s) [
  | none ↦ (a, b, c)
  | some (a', s) ↦ let (b', s) = scan_dot s b in let (c', s) = scan_dot s c in (a', b', c')
]

-- a << n on 32 bits.
abbrev pub shl : ℕ → ℕ → ℕ
shl a n = a * 2 ^ n % word

-- os_version() = (((a << 14) | (b << 7) | c) << 11) | patch_level
unfoldable pub pack_version : ℕ → ℕ → ℕ → ℕ → ℕ
pack_version a b c old = bit_or (shl (bit_or (bit_or (shl a 14) (shl b 7)) c) 11) (old % 2048)

-- os_version() = (os_ver << 11) | ((y - 2000) << 4) | m
unfoldable pub pack_level : ℕ → ℕ → ℕ → ℕ
pack_level y m old = bit_or (bit_or (shl (old / 2048) 11) (shl ((y + word - 2000) % word) 4)) m

-- A text is cut to 15 bytes, in an array of 16 bytes at least.
abbrev put_name : Text → Hdr → Hdr
put_name value h = put_str name (take 15 value) (put_str name (zeros 16) h)

-- BOOT_ARGS_SIZE and BOOT_EXTRA_ARGS_SIZE
abbrev pub args_sz : ℕ
args_sz = 512

abbrev pub extra_args_sz : ℕ
extra_args_sz = 1024

unfoldable pub put_cmdline : Text → Hdr → Hdr
put_cmdline value h =
    let clean = put_str extra_cmdline (zeros extra_args_sz) (put_str cmdline (zeros args_sz) h) in
    if ltb args_sz (length value)
    then put_str extra_cmdline (take extra_args_sz (drop args_sz value))
        (put_str cmdline (take args_sz value) clean)
    else put_str cmdline value clean

-- What the uninitialised locals of one call hold.
abbrev pub Junk : Type 0
Junk = ℕ × ℕ × ℕ

-- The callback of load_hdr_file, on one property.
unfoldable pub load_prop : Junk → Text → Text → Hdr → Hdr
unfolding put_cmdline pack_version pack_level scan_dots scan_dash
load_prop junk key value h =
    let old = get os_version h in
    let (a, b, c) = scan_dots value junk in
    let (y, m) = scan_dash value (junk.0, junk.1) in
    if str_eql key (codes "name") && has_str h.kind name
    then put_name value h
    else if str_eql key (codes "cmdline")
    then put_cmdline value h
    else if str_eql key (codes "os_version")
    then set os_version (pack_version a b c old) h
    else if str_eql key (codes "os_patch_level")
    then set os_version (pack_level y m old) h
    else h

unfoldable pub load_props : Junk → List (Text × Text) → Hdr → Hdr
load_props junk [] h = h
load_props junk ((key, value) ∷ ps) h = load_props junk ps (load_prop junk key value h)

unfoldable pub load_hdr_file : Junk → Text → Hdr → Hdr
unfolding load_props parse_prop_file
load_hdr_file junk file h = load_props junk (parse_prop_file file) h

-- "%d.%d.%d" and "%d-%02d" of a version that is not zero.
unfoldable pub print_version : ℕ → Text
unfolding to_string
print_version ver =
    let version = ver / 2048 in
    to_string (version / 2 ^ 14 % 128)
    ++ (b'.' ∷ (to_string (version / 2 ^ 7 % 128) ++ (b'.' ∷ to_string (version % 128))))

abbrev pub two_digits : ℕ → Text
two_digits m = if ltb m 10 then b'0' ∷ to_string m else to_string m

unfoldable pub print_level : ℕ → Text
unfolding to_string
print_level ver = to_string (ver % 2048 / 16 + 2000) ++ (b'-' ∷ two_digits (ver % 2048 % 16))

-- A line of the file.
abbrev line : Text → Text → Text
line key value = key ++ (b'=' ∷ (value ++ 10 ∷ []))

-- `%s` reads up to a zero byte, `%.*s` so many bytes at most.
unfoldable pub dump_hdr_file : Hdr → Text
unfolding print_version print_level c_str
dump_hdr_file h =
    let ver = get os_version h in
    let args = c_str (get_str cmdline h) ++ c_str (get_str extra_cmdline h) in
    let head = if has_str h.kind name then line (codes "name") (c_str (get_str name h)) else [] in
    let version =
      if ver == 0
      then []
      else line (codes "os_version") (print_version ver)
        ++ line (codes "os_patch_level") (print_level ver) in
    head ++ (line (codes "cmdline") args ++ version)
