-- ===== src/Base/Number/Printing.antt =====
-- `parse_int` of native/src/base/misc.cpp reads back what std::to_string prints.
use kitsune_ufork.Common.{
  ℕ, zero, suc, ◌+◌, ◌*◌, ◌/◌, ◌%◌, ◌<◌, ◌≡◌, refl, ap, ◌∙◌, pos, Option, none, some, [], ◌∷◌, ◌++◌,
  Text, ltb, if◌then◌else◌, arith, Bool-cases, inl, inr,
}
use kitsune_ufork.Base.Number.{value, digit_value, parse_loop, parse_int, int_limit}

-- Decimal digits, the last one from the remainder.
unfoldable pub print : ℕ → ℕ → Text
print zero n = []
print (suc fuel) n =
    let front = print fuel (n / 10) in
    if ltb n 10 then (n + b'0') ∷ [] else front ++ (n % 10 + b'0') ∷ []

unfoldable pub to_string : ℕ → Text
to_string n = print (suc n) n

digit_value-print : (d : ℕ) → d < 10 → digit_value 10 (d + b'0') ≡ some d
unfolding digit_value
digit_value-print d h = ground arith

one_digit :
    (val d : ℕ)
    → d < 10
    → val * 10 + d < int_limit
    → parse_loop 10 val ((d + b'0') ∷ []) ≡ value (pos (val * 10 + d))
unfolding parse_loop
one_digit val d h k = ground (arith, digit_value-print d h)

parse_loop-append :
    (val v : ℕ) (s t : Text)
    → parse_loop 10 val s ≡ value (pos v)
    → parse_loop 10 val (s ++ t) ≡ parse_loop 10 v t
unfolding parse_loop
parse_loop-append val v [] t h = let e : val ≡ v = ground arith in rw e
parse_loop-append val v (c ∷ s) t h =
    go (digit_value 10 c) refl (λ w. parse_loop-append (val * 10 + w) v s t)
  where
    go :
        (o : Option ℕ)
        → digit_value 10 c ≡ o
        → ((w : ℕ)
            → parse_loop 10 (val * 10 + w) s ≡ value (pos v)
            → parse_loop 10 (val * 10 + w) (s ++ t) ≡ parse_loop 10 v t)
        → parse_loop 10 val ((c ∷ s) ++ t) ≡ parse_loop 10 v t
    go none e next = ground (arith, h)
    go (some w) e next = ground (arith, h, next w)

parse-print :
    (fuel n : ℕ) → n < fuel → n < int_limit → parse_loop 10 0 (print fuel n) ≡ value (pos n)
unfolding print
parse-print zero n h k = absurd (omega arith)
parse-print (suc fuel) n h k = elim (Bool-cases (ltb n 10)) [
  | inl small ↦
      rw small
        (one_digit 0 n (ground arith) (ground arith) ∙ ap (λ (k : ℕ). value (pos k)) (omega arith))
  | inr big ↦ rw big (
      parse_loop-append 0 (n / 10) (print fuel (n / 10)) ((n % 10 + b'0') ∷ [])
        (parse-print fuel (n / 10) (ground arith) (omega arith))
      ∙ one_digit (n / 10) (n % 10) (omega arith) (omega arith)
      ∙ ap (λ (k : ℕ). value (pos k)) (omega arith))
]

-- Of every int that is not negative `parse_int` reads what `to_string` prints.
pub parse_int-to_string : (n : ℕ) → n < int_limit → parse_int (to_string n) ≡ value (pos n)
unfolding parse_int to_string
parse_int-to_string n h = parse-print (suc n) n (omega arith) h
