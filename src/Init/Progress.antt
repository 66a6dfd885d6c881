-- ===== src/Init/Progress.antt =====
-- The loop of `parse_impl` in native/src/init/getinfo.cpp ends.
use kitsune_ufork.Common.{
  ℕ, zero, suc, ◌-◌, ◌≤◌, ◌<◌, ◌≡◌, refl, Bool, true, false, not, ◌++◌, Option, none, some, [], ◌∷◌,
  Text, length, ◌==◌, arith, if◌then◌else◌,
}
use kitsune_ufork.OrderedMap.{is_some}
use kitsune_ufork.Base.Strings.{is_delim}
use kitsune_ufork.Init.{
  extract, skip_any, Pairs, and_pair, value_of, round, pairs_loop, parse_impl, quote,
}

extract-length :
    (escapes breaks s : Text) (quoted : Bool)
    → length (extract escapes breaks s quoted).1 ≤ length s
unfolding extract
extract-length escapes breaks [] quoted = omega arith
extract-length escapes breaks (c ∷ s) quoted =
    ground (arith, extract-length escapes breaks s (if c == quote then not quoted else quoted))

skip_any-length : (set s : Text) → length (skip_any set s) ≤ length s
unfolding skip_any
skip_any-length set [] = omega arith
skip_any-length set (c ∷ s) = ground (arith, skip_any-length set s)

and_pair-is_some :
    (key value : Text) (kv : Option Pairs)
    → is_some kv ≡ true
    → is_some (and_pair key value kv) ≡ true
and_pair-is_some key value none h = h
and_pair-is_some key value (some kv) h = refl

module _ (delim eq : ℕ) (padding : Text) where
  value_of-length :
      (s : Text) (quoted : Bool)
      → length (skip_any (delim ∷ []) (value_of delim eq padding s quoted).1) ≤ length s - 1
  unfolding value_of extract skip_any is_delim
  value_of-length [] quoted = omega arith
  value_of-length (c ∷ s) quoted =
      let set = delim ∷ [] in
      let quoted' = if c == quote then not quoted else quoted in
      let rest = (extract set [] s quoted').1 in
      let a = extract-length set [] s quoted' in
      let b = skip_any-length set s in let d = skip_any-length set rest in ground (arith, a, b, d)

  -- Each round passes one byte at least.
  pub round-length :
      (s : Text) (quoted : Bool) → length (round delim eq padding s quoted).1 ≤ length s - 1
  unfolding round
  round-length s quoted =
      let (key, behind, quoted') = extract (padding ++ delim ∷ []) (eq ∷ []) s quoted in
      let a = extract-length (padding ++ delim ∷ []) (eq ∷ []) s quoted in
      let b = skip_any-length (eq ∷ padding) behind in
      let v = value_of-length (skip_any (eq ∷ padding) behind) quoted' in omega (arith, a, b, v)

  pairs_loop_ends :
      (fuel : ℕ) (s : Text) (quoted : Bool)
      → length s < fuel
      → is_some (pairs_loop delim eq padding fuel s quoted) ≡ true
  unfolding pairs_loop
  pairs_loop_ends zero s quoted k = absurd (ground (arith, k))
  pairs_loop_ends (suc fuel) [] quoted k = refl
  pairs_loop_ends (suc fuel) (c ∷ s) quoted k =
      let ((key, value), rest, quoted') = round delim eq padding (c ∷ s) quoted in
      let r = round-length (c ∷ s) quoted in
      and_pair-is_some key value (pairs_loop delim eq padding fuel rest quoted')
        (pairs_loop_ends fuel rest quoted' (omega (arith, k, r)))

  -- Whatever the text, and whatever the characters: the loop ends, and gives pairs.
  pub parse_impl-ends : (s : Text) → is_some (parse_impl delim eq padding s) ≡ true
  unfolding parse_impl
  parse_impl-ends s = pairs_loop_ends (suc (length s)) s false (omega arith)
