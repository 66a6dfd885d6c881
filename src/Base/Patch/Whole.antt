-- ===== src/Base/Patch/Whole.antt =====
-- `byte_data::patch` of native/src/base/misc.cpp keeps the size and ends.
use kitsune_ufork.Common.{
  str_starts, true, ℕ, zero, suc, ◌+◌, ◌≤◌, ◌<◌, ◌≡◌, refl, sym, ap, ◌∙◌, Option, none, some, List,
  [], ◌∷◌, ◌++◌, Text, length, length-append, length-drop, take, drop, take-append, drop-append,
  arith, leb,
}
use mathlib.Core.List.{append_assoc}
use kitsune_ufork.Base.Strings.{find_str, replace_loop, replace_all}
use kitsune_ufork.Base.Strings.Replacing.{Found, find_str-Found}
use kitsune_ufork.Base.Patch.{zeros, overlay, patch_loop, patch}

-- `to` and zeros up to the length of `from`.
abbrev pub pad : Text → Text → Text
pad from to = to ++ drop (length to) (zeros (length from))

pub length-zeros : (n : ℕ) → length (zeros n) ≡ n
length-zeros zero = refl
length-zeros (suc n) = ap suc (length-zeros n)

length-pad : (from to : Text) → length to ≤ length from → length (pad from to) ≡ length from
length-pad from to h = omega (
  arith,
  length-append to (drop (length to) (zeros (length from))),
  length-drop (length to) (zeros (length from)),
  length-zeros (length from),
)

drop-append-le : (n : ℕ) (xs ys : Text) → n ≤ length xs → drop n (xs ++ ys) ≡ drop n xs ++ ys
drop-append-le zero xs ys h = refl
drop-append-le (suc n) [] ys h = absurd (omega arith)
drop-append-le (suc n) (x ∷ xs) ys h = drop-append-le n xs ys (omega arith)

-- What the two writes leave at a match.
written :
    (from to tail : Text)
    → length to ≤ length from
    → overlay to (overlay (zeros (length from)) (from ++ tail)) ≡ pad from to ++ tail
written from to tail h =
    let zeroed : overlay (zeros (length from)) (from ++ tail) ≡ zeros (length from) ++ tail =
      rw (length-zeros (length from), drop-append from tail) refl in
    rw
      (
        zeroed,
        drop-append-le (length to) (zeros (length from)) tail
            (omega (arith, length-zeros (length from))),
      )
      (sym (append_assoc to (drop (length to) (zeros (length from))) tail))

take-pad :
    (from to tail : Text)
    → length to ≤ length from
    → take (length from) (pad from to ++ tail) ≡ pad from to
take-pad from to tail h =
    ap (λ (n : ℕ). take n (pad from to ++ tail)) (sym (length-pad from to h))
    ∙ take-append (pad from to) tail

drop-pad :
    (from to tail : Text)
    → length to ≤ length from
    → drop (length from) (pad from to ++ tail) ≡ tail
drop-pad from to tail h =
    ap (λ (n : ℕ). drop n (pad from to ++ tail)) (sym (length-pad from to h))
    ∙ drop-append (pad from to) tail

abbrev Same : ℕ → Text → Text → ℕ → Text → Type 0
Same fuel from to off s =
    (t : Text) × ((v : List ℕ) × (patch_loop fuel from to off s ≡ some (t, v))
      × (replace_loop fuel from (pad from to) s ≡ some t)
      × (length t ≡ length s))

find_str-nil : (from : Text) → 0 < length from → find_str from [] ≡ none
unfolding find_str str_starts
find_str-nil [] h = absurd (omega arith)
find_str-nil (b ∷ from) h = refl

round-Same :
    (fuel : ℕ) (from to : Text) (off c : ℕ) (s : Text) (r : Option (Text × Text))
    → 0 < length from
    → length to ≤ length from
    → ((off' : ℕ) (tail : Text) → length tail < suc (length s) → Same fuel from to off' tail)
    → find_str from (c ∷ s) ≡ r
    → Found from (c ∷ s) r
    → Same (suc fuel) from to off (c ∷ s)
unfolding patch_loop replace_loop
round-Same fuel from to off c s none p h next e f =
    (c ∷ s, ([], rw (e, patch_loop) refl, rw (e, replace_loop) refl, refl))
round-Same fuel from to off c s (some (head, tail)) p h next e f =
    let shorter : length tail < suc (length s) =
      omega (arith, ap length f, length-append head (from ++ tail), length-append from tail) in
    let (t, (v, ran, same, size)) = next (off + length head + length from) tail shorter in
    let fits : leb (length to) (length (from ++ tail)) ≡ true =
      ground (arith, h, length-append from tail) in
    let left : drop (length from) (overlay to (overlay (zeros (length from)) (from ++ tail)))
        ≡ tail =
      rw (written from to tail h) (drop-pad from to tail h) in
    let put : take (length from) (overlay to (overlay (zeros (length from)) (from ++ tail)))
        ≡ pad from to =
      rw (written from to tail h) (take-pad from to tail h) in
    (
      head ++ (pad from to ++ t),
      (
        (off + length head) ∷ v,
        rw (e, patch_loop, left, ran, fits, put) refl,
        rw (e, replace_loop, same) refl,
        omega (
          arith,
          ap length f,
          size,
          length-pad from to h,
          length-append head (from ++ tail),
          length-append from tail,
          length-append head (pad from to ++ t),
          length-append (pad from to) t,
        ),
      ),
    )

patch_loop-Same :
    (fuel : ℕ) (from to : Text) (off : ℕ) (s : Text)
    → 0 < length from
    → length to ≤ length from
    → length s < fuel
    → Same fuel from to off s
unfolding patch_loop replace_loop
patch_loop-Same zero from to off s p h l = absurd (omega arith)
patch_loop-Same (suc fuel) from to off [] p h l =
    ([], ([], refl, rw (find_str-nil from p, replace_loop) refl, refl))
patch_loop-Same (suc fuel) from to off (c ∷ s) p h l =
    round-Same fuel from to off c s (find_str from (c ∷ s)) p h
      (λ off' tail k. patch_loop-Same fuel from to off' tail p h (omega arith)) refl
      (find_str-Found from (c ∷ s))

-- With a pattern that is not empty and a replacement that is no longer, `patch` ends, writes
-- nowhere behind the buffer and leaves its size; the bytes are those of `replace_all` with the
-- replacement filled up with zeros.
pub patch-replace_all :
    (from to s : Text)
    → 0 < length from
    → length to ≤ length from
    → (t : Text) × ((v : List ℕ) × (patch from to s ≡ some (t, v))
        × (replace_all from (pad from to) s ≡ some t)
        × (length t ≡ length s))
unfolding patch replace_all
patch-replace_all from to s p h = patch_loop-Same (suc (length s)) from to 0 s p h (omega arith)
