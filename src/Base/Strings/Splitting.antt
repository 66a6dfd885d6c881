-- ===== src/Base/Strings/Splitting.antt =====
-- `split` of native/src/base/misc.cpp takes a text apart at its delimiters, and loses nothing else.
use kitsune_ufork.Common.{
  ℕ, zero, suc, ◌<◌, ◌≡◌, refl, ap, Bool, true, false, not, Option, none, some, List, [], ◌∷◌, ◌++◌,
  Text, length, all, arith, Bool-cases, inl, inr, All,
}
use kitsune_ufork.Base.Strings.{is_delim, cut, split_loop, split}

abbrev pub free_of : Text → Text → Bool
free_of delims = all (λ c. not (is_delim delims c))

-- One delimiter between each two pieces.
pub data Joins (delims : Text) : List Text → Text → Type 0 where
  last : (piece : Text) → Joins delims (piece ∷ []) piece
  more :
      (piece : Text) (d : ℕ) {pieces : List Text} {s t : Text}
      → is_delim delims d ≡ true
      → Joins delims pieces s
      → t ≡ piece ++ d ∷ s
      → Joins delims (piece ∷ pieces) t

abbrev Cuts : Text → Text → Text × Option Text → Type 0
Cuts delims s (piece, none) = (s ≡ piece) × (free_of delims piece ≡ true)
Cuts delims s (piece, some rest) =
    (d : ℕ) × (is_delim delims d ≡ true)
    × (s ≡ piece ++ d ∷ rest)
    × (free_of delims piece ≡ true)
    × (length rest < length s)

free_of-cons :
    (delims : Text) (c : ℕ) (piece : Text)
    → is_delim delims c ≡ false
    → free_of delims piece ≡ true
    → free_of delims (c ∷ piece) ≡ true
free_of-cons delims c piece h f = ground arith

cons-Cuts :
    (delims s : Text) (c : ℕ) (r : Text × Option Text)
    → is_delim delims c ≡ false
    → Cuts delims s r
    → Cuts delims (c ∷ s) (c ∷ r.0, r.1)
cons-Cuts delims s c (piece, none) m (e, f) =
    (ap (λ (l : Text). c ∷ l) e, free_of-cons delims c piece m f)
cons-Cuts delims s c (piece, some rest) m (d, h, e, f, l) =
    (d, h, ap (λ (l : Text). c ∷ l) e, free_of-cons delims c piece m f, omega arith)

cut-Cuts : (delims s : Text) → Cuts delims s (cut delims s)
unfolding cut
cut-Cuts delims [] = (refl, refl)
cut-Cuts delims (c ∷ s) = elim (Bool-cases (is_delim delims c)) [
  | inl hit ↦ rw hit (c, hit, refl, refl, omega arith)
  | inr miss ↦ rw miss (cons-Cuts delims s c (cut delims s) miss (cut-Cuts delims s))
]

-- What a run of the loop with enough fuel gives.
abbrev Splits : Text → Text → Option (List Text) → Type 0
Splits delims s r =
    (pieces : List Text) × (r ≡ some pieces)
    × Joins delims pieces s
    × All (λ p. free_of delims p ≡ true) pieces

-- One round, from what the next round gives for a shorter text.
round-Splits :
    (fuel : ℕ) (delims s : Text) (r : Text × Option Text)
    → ((rest : Text) → length rest < length s → Splits delims rest (split_loop fuel delims rest))
    → cut delims s ≡ r
    → Cuts delims s r
    → Splits delims s (split_loop (suc fuel) delims s)
unfolding split_loop
round-Splits fuel delims s (piece, none) next e (eq, f) = (
  piece ∷ [],
  rw (e, split_loop) (ap (λ (r : Text × Option Text). some (r.0 ∷ [])) e),
  rw eq (Joins.last piece),
  (f, tt),
)
round-Splits fuel delims s (piece, some rest) next e (d, hit, eq, f, l) =
    let (pieces, ran, joins, free) = next rest l in
    (
      piece ∷ pieces,
      rw (e, ran, split_loop) (ap (λ (r : Text × Option Text). some (r.0 ∷ pieces)) e),
      Joins.more piece d hit joins eq,
      (f, free),
    )

split_loop-Splits :
    (fuel : ℕ) (delims s : Text) → length s < fuel → Splits delims s (split_loop fuel delims s)
split_loop-Splits zero delims s h = absurd (omega arith)
split_loop-Splits (suc fuel) delims s h =
    round-Splits fuel delims s (cut delims s)
      (λ rest l. split_loop-Splits fuel delims rest (omega arith)) refl (cut-Cuts delims s)

-- `split` ends for every text and gives pieces without delimiters, between which one delimiter each
-- stood in the text.
pub split-Splits :
    (delims s : Text)
    → (pieces : List Text) × (split delims s ≡ some pieces)
      × Joins delims pieces s
      × All (λ p. free_of delims p ≡ true) pieces
unfolding split
split-Splits delims s = split_loop-Splits (suc (length s)) delims s (omega arith)
