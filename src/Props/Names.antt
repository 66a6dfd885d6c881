-- ===== src/Props/Names.antt =====
-- check_legal_property_name of native/src/core/resetprop/resetprop.cpp against the rule that its
-- comments give: parts that are not empty, of the allowed characters, with a dot between each two.
use kitsune_ufork.Common.{
  ℕ, Bool, true, false, not, ◌&&◌, ◌≡◌, refl, List, [], ◌∷◌, Text, all, ◌==◌, if◌then◌else◌, arith,
}
use kitsune_ufork.Props.{name_char, legal_loop, ends_dot, check_legal_property_name, is_blank}

abbrev pub part : Text → Bool
part p = not (is_blank p) && all name_char p

abbrev add_head : ℕ → List Text → List Text
add_head c [] = (c ∷ []) ∷ []
add_head c (p ∷ parts) = (c ∷ p) ∷ parts

-- The parts of a name.
unfoldable pub parts_of : Text → List Text
parts_of [] = [] ∷ []
parts_of (c ∷ s) = let parts = parts_of s in if c == b'.' then [] ∷ parts else add_head c parts

-- The first part may be empty when something stands before it.
unfoldable open_parts : List Text → Bool
open_parts [] = true
open_parts (p ∷ parts) = all name_char p && all part parts

open_parts-add_head :
    (c : ℕ) (parts : List Text) → open_parts (add_head c parts) ≡ (name_char c && open_parts parts)
unfolding open_parts
open_parts-add_head c [] = ground arith
open_parts-add_head c (p ∷ parts) = ground arith

all-add_head :
    (c : ℕ) (parts : List Text) → all part (add_head c parts) ≡ (name_char c && open_parts parts)
unfolding open_parts
all-add_head c [] = ground arith
all-add_head c (p ∷ parts) = ground arith

-- What is left of the tests behind some character.
unfoldable rest_legal : Bool → Text → Bool
rest_legal after_dot [] = not after_dot
rest_legal after_dot (c ∷ s) = not (ends_dot (c ∷ s)) && legal_loop after_dot (c ∷ s)

rest_legal_step :
    (after_dot : Bool) (c : ℕ) (s : Text)
    → rest_legal after_dot (c ∷ s) ≡ (
        if c == b'.' then not after_dot && rest_legal true s else name_char c && rest_legal false s)
unfolding rest_legal legal_loop ends_dot
rest_legal_step after_dot c [] = ground arith
rest_legal_step after_dot c (d ∷ s) = ground arith

mutual
  unfolding parts_of rest_legal open_parts

  rest_legal_inside : (s : Text) → rest_legal false s ≡ open_parts (parts_of s)
  rest_legal_inside [] = refl
  rest_legal_inside (c ∷ s) = ground (
    arith,
    rest_legal_step false c s,
    rest_legal_inside s,
    rest_legal_dot s,
    open_parts-add_head c (parts_of s),
  )

  rest_legal_dot : (s : Text) → rest_legal true s ≡ all part (parts_of s)
  rest_legal_dot [] = refl
  rest_legal_dot (c ∷ s) =
      ground (arith, rest_legal_step true c s, rest_legal_inside s, all-add_head c (parts_of s))

check_legal_property_name_head :
    (c : ℕ) (s : Text)
    → check_legal_property_name (c ∷ s) ≡ (not (c == b'.') && rest_legal false (c ∷ s))
unfolding check_legal_property_name rest_legal
check_legal_property_name_head c s = ground arith

parts_of_head :
    (c : ℕ) (s : Text)
    → all part (parts_of (c ∷ s)) ≡ (not (c == b'.') && (name_char c && open_parts (parts_of s)))
unfolding parts_of
parts_of_head c s = ground (arith, all-add_head c (parts_of s))

-- A name is legal exactly when each of its parts, cut at the dots, is not empty and has the allowed
-- characters only.
pub check_legal_property_name-part :
    (name : Text) → check_legal_property_name name ≡ all part (parts_of name)
unfolding check_legal_property_name parts_of
check_legal_property_name-part [] = refl
check_legal_property_name-part (c ∷ s) = ground (
  arith,
  check_legal_property_name_head c s,
  rest_legal_step false c s,
  rest_legal_inside s,
  parts_of_head c s,
)
