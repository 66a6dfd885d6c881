-- ===== src/Props/Args/Switches.antt =====
-- The switches of resetprop_main in native/src/core/resetprop/resetprop.cpp: read back as they are
-- written, and together in one argument as one by one.
use kitsune_ufork.Common.{
  ℕ, Bool, true, false, not, ◌&&◌, ◌||◌, ◌≡◌, refl, sym, ◌∙◌, Option, none, some, List, [], ◌∷◌,
  ◌++◌, map, all, Text, ◌==◌, if◌then◌else◌, arith, Option-cases, inl, inr,
}
use kitsune_ufork.Props.Args.{Options, no_options, letter, letters, parse_flags}

-- Not read as a switch.
abbrev pub is_plain : Text → Bool
is_plain [] = true
is_plain (c ∷ s) = not (c == b'-')

unfoldable pub plain_args : List Text → Bool
plain_args [] = true
plain_args (arg ∷ args) = is_plain arg

pub parse_flags_plain :
    (args : List Text) (o : Options) → plain_args args ≡ true → parse_flags args o ≡ some (o, args)
unfolding plain_args parse_flags
parse_flags_plain [] o h = refl
parse_flags_plain ([] ∷ args) o h = refl
parse_flags_plain ((c ∷ s) ∷ args) o h = ground (arith, h)

abbrev pub on : Bool → ℕ → Text → Text
on wanted c s = if wanted then c ∷ s else s

abbrev pub switched : Bool → Bool → Bool → Bool → Bool → Bool → Options
switched n p only v z w = record {
  flags = record { skip_svc = n; persist = p; context = z; persist_only = only; wait = w };
  verbose = v;
  prop_file = none;
  prop_to_rm = none;
}

-- The argument with the switches that are wanted: -n, -p, -P, -v, -Z and -w.
unfoldable pub switches : Bool → Bool → Bool → Bool → Bool → Bool → Text
switches n p only v z w =
    b'-' ∷ on n b'n' (on p b'p' (on only b'P' (on v b'v' (on z b'Z' (on w b'w' [])))))

module _ (arg : Text) (behind : List Text) where
  letters_n :
      (n : Bool) (s : Text)
      → letters arg behind (on n b'n' s) no_options false
        ≡ letters arg behind s (switched n false false false false false) false
  unfolding letters
  letters_n true s = refl
  letters_n false s = refl

  letters_p :
      (n p : Bool) (s : Text)
      → letters arg behind (on p b'p' s) (switched n false false false false false) false
        ≡ letters arg behind s (switched n p false false false false) false
  unfolding letters
  letters_p n true s = refl
  letters_p n false s = refl

  letters_only :
      (n p only : Bool) (s : Text)
      → letters arg behind (on only b'P' s) (switched n p false false false false) false
        ≡ letters arg behind s (switched n (only || p) only false false false) false
  unfolding letters
  letters_only n p true s = refl
  letters_only n p false s = refl

  letters_v :
      (n p only v : Bool) (s : Text)
      → letters arg behind (on v b'v' s) (switched n p only false false false) false
        ≡ letters arg behind s (switched n p only v false false) false
  unfolding letters
  letters_v n p only true s = refl
  letters_v n p only false s = refl

  letters_zw :
      (n p only v z w : Bool)
      → letters arg behind (on z b'Z' (on w b'w' [])) (switched n p only v false false) false
        ≡ some (switched n p only v z w, false)
  unfolding letters
  letters_zw n p only v true true = refl
  letters_zw n p only v true false = refl
  letters_zw n p only v false true = refl
  letters_zw n p only v false false = refl

  letters_switches :
      (n p only v z w : Bool)
      → letters arg behind
          (on n b'n' (on p b'p' (on only b'P' (on v b'v' (on z b'Z' (on w b'w' []))))))
          no_options
          false
        ≡ some (switched n (only || p) only v z w, false)
  letters_switches n p only v z w =
      letters_n n _
      ∙ letters_p n p _
      ∙ letters_only n p only _
      ∙ letters_v n (only || p) only v _
      ∙ letters_zw n (only || p) only v z w

-- Every choice of the switches is read back from the argument that has them, -P as -P and -p, and the
-- arguments behind it are left when the first of them begins with no dash.
pub parse_flags-switches :
    (n p only v z w : Bool) (args : List Text)
    → plain_args args ≡ true
    → parse_flags (switches n p only v z w ∷ args) no_options
      ≡ some (switched n (only || p) only v z w, args)
unfolding parse_flags switches
parse_flags-switches n p only v z w args h =
    let e = letters_switches (switches n p only v z w) args n p only v z w in
    rw (e, parse_flags) (parse_flags_plain args (switched n (only || p) only v z w) h)

abbrev pub is_switch : ℕ → Bool
is_switch c = not (c == b'-') && (not (c == b'd') && not (c == b'f'))

abbrev pub single : ℕ → Text
single c = b'-' ∷ c ∷ []

-- One switch: nothing is consumed.
switch : ℕ → Options → Option Options
switch c o = elim (letter [] c o false) [ none ↦ none | some (o', stop) ↦ some o' ]

-- The same, and all the switches of an argument, with what the loops do next.
mark : Option Options → Option (Options × Bool)
mark none = none
mark (some o) = some (o, false)

scan : Text → Options → Option Options
scan [] o = some o
scan (c ∷ s) o = elim (switch c o) [ none ↦ none | some o' ↦ scan s o' ]

resume : List Text → Option Options → Option (Options × List Text)
resume args none = none
resume args (some o) = parse_flags args o

letter-switch :
    (behind : List Text) (c : ℕ) (o : Options)
    → is_switch c ≡ true
    → letter behind c o false ≡ mark (switch c o)
unfolding letter switch mark
letter-switch behind c o h = ground (arith, h)

letters-scan :
    (arg : Text) (behind : List Text) (s : Text) (o : Options)
    → all is_switch s ≡ true
    → letters arg behind s o false ≡ mark (scan s o)
unfolding letters scan mark
letters-scan arg behind [] o h = refl
letters-scan arg behind (c ∷ s) o h = elim (Option-cases (switch c o)) [
  | inl e ↦ ground (arith, h, e, letter-switch behind c o)
  | inr (o', e) ↦ ground (arith, h, e, letter-switch behind c o, letters-scan arg behind s o')
]

parse_flags-scan :
    (s : Text) (args : List Text) (o : Options)
    → all is_switch s ≡ true
    → parse_flags ((b'-' ∷ s) ∷ args) o ≡ resume args (scan s o)
unfolding parse_flags resume mark
parse_flags-scan s args o h =
    let e = letters-scan (b'-' ∷ s) args s o h in
    elim (Option-cases (scan s o)) [
      | inl f ↦ ground (arith, e, f)
      | inr (o', f) ↦ ground (arith, e, f)
    ]

parse_flags-singles :
    (s : Text) (args : List Text) (o : Options)
    → all is_switch s ≡ true
    → parse_flags (map single s ++ args) o ≡ resume args (scan s o)
unfolding resume scan
parse_flags-singles [] args o h = refl
parse_flags-singles (c ∷ s) args o h = elim (Option-cases (switch c o)) [
  | inl e ↦ ground (arith, h, e, parse_flags-scan (c ∷ []) (map single s ++ args) o)
  | inr (o', e) ↦ ground (
    arith,
    h,
    e,
    parse_flags-scan (c ∷ []) (map single s ++ args) o,
    parse_flags-singles s args o',
  )
]

-- An argument of several letters leads to what one argument for each of them leads to, whatever stands
-- behind; also when a letter is unknown, and the usage is shown. The letters -d and -f, which take
-- the argument behind them, are left out.
pub parse_flags-single :
    (s : Text) (args : List Text) (o : Options)
    → all is_switch s ≡ true
    → parse_flags ((b'-' ∷ s) ∷ args) o ≡ parse_flags (map single s ++ args) o
parse_flags-single s args o h = parse_flags-scan s args o h ∙ sym (parse_flags-singles s args o h)
