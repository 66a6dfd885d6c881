-- ===== src/Deny/Validate.antt =====
-- `validate` of native/src/core/deny/utils.cpp: which names may enter the list.
use kitsune_ufork.Common.{
  ℕ, ◌≡◌, refl, Bool, true, false, [], ◌∷◌, ◌++◌, ◌&&◌, ◌||◌, arith, Text, codes, str_eql, leb,
  ◌==◌, if◌then◌else◌, all, any,
}

-- isalnum in the C locale
unfoldable pub isalnum : ℕ → Bool
isalnum c = (leb b'0' c && leb c b'9') || (leb b'A' c && leb c b'Z') || (leb b'a' c && leb c b'z')

-- ISOLATED_MAGIC
abbrev pub isolated_magic : Text
isolated_magic = codes "isolated"

-- The loop over `proc` of an isolated service: a colon ends it.
unfoldable pub isolated_proc_loop : Text → Bool
unfolding isalnum
isolated_proc_loop [] = true
isolated_proc_loop (c ∷ proc) =
    let rest = isolated_proc_loop proc in
    if isalnum c || c == b'_' || c == b'.' then rest else if c == b':' then true else false

-- The loop over `pkg`, with `pkg_valid` so far.
unfoldable pub pkg_loop : Bool → Text → Bool
unfolding isalnum
pkg_loop valid [] = valid
pkg_loop valid (c ∷ pkg) =
    let same = pkg_loop valid pkg in
    let dotted = pkg_loop true pkg in
    if isalnum c || c == b'_' then same else if c == b'.' then dotted else false

unfoldable pub proc_loop : Text → Bool
unfolding isalnum
proc_loop [] = true
proc_loop (c ∷ proc) =
    let rest = proc_loop proc in
    if isalnum c || c == b'_' || c == b':' || c == b'.' then rest else false

unfoldable pub validate : Text → Text → Bool
unfolding isolated_proc_loop pkg_loop proc_loop str_eql
validate pkg proc =
    if str_eql pkg isolated_magic
    then isolated_proc_loop proc
    else pkg_loop false pkg && proc_loop proc

-- An independent description: every character is allowed, and the package has a dot.
abbrev pub is_pkg_char : ℕ → Bool
is_pkg_char c = isalnum c || c == b'_' || c == b'.'

abbrev pub is_proc_char : ℕ → Bool
is_proc_char c = isalnum c || c == b'_' || c == b':' || c == b'.'

abbrev pub is_dot : ℕ → Bool
is_dot c = c == b'.'

pkg_loop_lem :
    (valid : Bool) (pkg : Text)
    → pkg_loop valid pkg ≡ (all is_pkg_char pkg && (valid || any is_dot pkg))
unfolding pkg_loop
pkg_loop_lem valid [] = ground arith
pkg_loop_lem valid (c ∷ pkg) = ground (arith, pkg_loop_lem valid pkg, pkg_loop_lem true pkg)

proc_loop_lem : (proc : Text) → proc_loop proc ≡ all is_proc_char proc
unfolding proc_loop
proc_loop_lem [] = refl
proc_loop_lem (c ∷ proc) = ground (arith, proc_loop_lem proc)

-- Of an app's process, `validate` accepts exactly a package of letters, digits, `_` and `.` with a
-- dot, beside a process of these and `:`.
pub validate-app :
    (pkg proc : Text)
    → str_eql pkg isolated_magic ≡ false
    → validate pkg proc ≡ ((all is_pkg_char pkg && any is_dot pkg) && all is_proc_char proc)
unfolding validate
validate-app pkg proc h = ground (arith, pkg_loop_lem false pkg, proc_loop_lem proc)

abbrev pub quote : ℕ
quote = 39

abbrev pub no_quote : Text → Bool
no_quote = all (λ c. if c == quote then false else true)

all-no_quote-pkg : (s : Text) → all is_pkg_char s ≡ true → no_quote s ≡ true
unfolding isalnum
all-no_quote-pkg [] h = refl
all-no_quote-pkg (c ∷ s) h = ground (arith, all-no_quote-pkg s)

all-no_quote-proc : (s : Text) → all is_proc_char s ≡ true → no_quote s ≡ true
unfolding isalnum
all-no_quote-proc [] h = refl
all-no_quote-proc (c ∷ s) h = ground (arith, all-no_quote-proc s)

-- A name that is accepted for an app cannot end a quoted SQL literal.
pub validate-no_quote :
    (pkg proc : Text)
    → str_eql pkg isolated_magic ≡ false
    → validate pkg proc ≡ true
    → (no_quote pkg ≡ true) × (no_quote proc ≡ true)
validate-no_quote pkg proc h v = (
  ground (arith, validate-app pkg proc h, all-no_quote-pkg pkg),
  ground (arith, validate-app pkg proc h, all-no_quote-proc proc),
)

-- For an isolated service, behind letters, digits, `_` and `.` and a colon any text is accepted,
-- quotes included.
pub validate-isolated_colon :
    (head rest : Text)
    → all is_pkg_char head ≡ true
    → validate isolated_magic (head ++ b':' ∷ rest) ≡ true
unfolding validate
validate-isolated_colon head rest h = loop head h
  where
    loop : (s : Text) → all is_pkg_char s ≡ true → isolated_proc_loop (s ++ b':' ∷ rest) ≡ true
    loop [] e = refl
    loop (c ∷ s) e = ground (arith, loop s)
