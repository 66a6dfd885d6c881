-- ===== src/Base/Strings/Replacing.antt =====
-- `replace_all` of native/src/base/misc.cpp replaces every occurrence, from the left.
use kitsune_ufork.Common.{
  ℕ, zero, suc, ◌<◌, ◌≡◌, refl, ap, true, false, Option, none, some, [], ◌∷◌, ◌++◌, Text, length,
  length-append, drop, arith, Bool-cases, inl, inr, str_starts,
}
use kitsune_ufork.Base.Strings.{find_str, replace_loop, replace_all}

-- The text as the search takes it apart: no occurrence is left in the last part, and none starts in
-- a part before the one that is found.
pub data Replaces (from to : Text) : Text → Text → Type 0 where
  rest : (s : Text) → find_str from s ≡ none → Replaces from to s s
  hit :
      (head : Text) {tail s t u : Text}
      → find_str from s ≡ some (head, tail)
      → s ≡ head ++ (from ++ tail)
      → Replaces from to tail t
      → u ≡ head ++ (to ++ t)
      → Replaces from to s u

starts-split : (s from : Text) → str_starts s from ≡ true → s ≡ from ++ drop (length from) s
unfolding str_starts
starts-split s [] h = refl
starts-split [] (b ∷ from) h = cc
starts-split (a ∷ s) (b ∷ from) h = ground (arith, starts-split s from)

find_str-empty : (s : Text) → find_str [] s ≡ some ([], s)
unfolding find_str str_starts
find_str-empty [] = refl
find_str-empty (c ∷ s) = refl

abbrev pub Found : Text → Text → Option (Text × Text) → Type 0
Found from s none = Unit
Found from s (some (head, tail)) = s ≡ head ++ (from ++ tail)

cons-Found :
    (from s : Text) (c : ℕ) (r : Option (Text × Text))
    → Found from s r
    → Found from (c ∷ s) (elim r [ none ↦ none | some (head, tail) ↦ some (c ∷ head, tail) ])
cons-Found from s c none f = tt
cons-Found from s c (some (head, tail)) f = ap (λ (l : Text). c ∷ l) f

starts-nil : (s : Text) → str_starts s [] ≡ true
unfolding str_starts
starts-nil s = refl

nil-starts : (b : ℕ) (from : Text) → str_starts [] (b ∷ from) ≡ false
unfolding str_starts
nil-starts b from = refl

pub find_str-Found : (from s : Text) → Found from s (find_str from s)
unfolding find_str
find_str-Found [] [] = rw (starts-nil []) refl
find_str-Found (b ∷ from) [] = rw (nil-starts b from) tt
find_str-Found from (c ∷ s) = elim (Bool-cases (str_starts (c ∷ s) from)) [
  | inl yes_ ↦ rw yes_ (starts-split (c ∷ s) from yes_)
  | inr miss ↦ rw miss (cons-Found from s c (find_str from s) (find_str-Found from s))
]

-- What the loop gives on enough fuel.
abbrev Result : Text → Text → Text → Option Text → Type 0
Result from to s r = (t : Text) × (r ≡ some t) × Replaces from to s t

round-Result :
    (fuel : ℕ) (from to s : Text) (r : Option (Text × Text))
    → 0 < length from
    → ((tail : Text)
        → length tail < length s
        → Result from to tail (replace_loop fuel from to tail))
    → find_str from s ≡ r
    → Found from s r
    → Result from to s (replace_loop (suc fuel) from to s)
unfolding replace_loop
round-Result fuel from to s none h next e f = (s, rw (e, replace_loop), Replaces.rest s e)
round-Result fuel from to s (some (head, tail)) h next e f =
    let shorter : length tail < length s =
      omega (arith, ap length f, length-append head (from ++ tail), length-append from tail) in
    let (t, ran, later) = next tail shorter in
    (head ++ (to ++ t), rw (e, ran, replace_loop), Replaces.hit head e f later refl)

replace_loop-Result :
    (fuel : ℕ) (from to s : Text)
    → 0 < length from
    → length s < fuel
    → Result from to s (replace_loop fuel from to s)
replace_loop-Result zero from to s h k = absurd (omega arith)
replace_loop-Result (suc fuel) from to s h k =
    round-Result fuel from to s (find_str from s) h
      (λ tail l. replace_loop-Result fuel from to tail h (omega arith)) refl (find_str-Found from s)

-- With a pattern that is not empty `replace_all` ends, and puts `to` for each occurrence in turn.
pub replace_all-Replaces :
    (from to s : Text)
    → 0 < length from
    → (t : Text) × (replace_all from to s ≡ some t) × Replaces from to s t
unfolding replace_all
replace_all-Replaces from to s h = replace_loop-Result (suc (length s)) from to s h (omega arith)

-- With an empty pattern no fuel is enough: the loop finds it again at every position.
pub replace_loop-empty : (fuel : ℕ) (to s : Text) → replace_loop fuel [] to s ≡ none
unfolding replace_loop
replace_loop-empty zero to s = refl
replace_loop-empty (suc fuel) to s =
    rw (find_str-empty s, replace_loop-empty fuel to s, replace_loop)
