-- ===== src/Init/RoundTrip.antt =====
-- Pairs written out as the kernel shows its boot configuration are read back by `parse_impl` of
-- native/src/init/getinfo.cpp.
use kitsune_ufork.Common.{
  ℕ, zero, suc, ◌≤◌, ◌<◌, ◌≡◌, refl, ap, ◌∙◌, Bool, true, false, not, ◌&&◌, ◌||◌, some, [], ◌∷◌,
  ◌++◌, Text, length, length-append, all, ◌==◌, ==_iff, arith,
}
use kitsune_ufork.Base.Strings.{is_delim}
use kitsune_ufork.Init.{
  extract, skip_any, Pairs, and_pair, value_of, round, pairs_loop, parse_impl, quote,
}
use kitsune_ufork.Init.Progress.{round-length}

abbrev pub no_quote : ℕ → Bool
no_quote c = not (c == quote)

-- Neither a quote nor a character at which a key ends.
abbrev pub in_key : Text → Text → ℕ → Bool
in_key escapes breaks c = no_quote c && not (is_delim breaks c || is_delim escapes c)

is_delim_head : (c : ℕ) (cs : Text) → is_delim (c ∷ cs) c ≡ true
unfolding is_delim
is_delim_head c cs = ground arith

is_delim-append : (xs ys : Text) (c : ℕ) → is_delim (xs ++ ys) c ≡ (is_delim xs c || is_delim ys c)
unfolding is_delim
is_delim-append [] ys c = refl
is_delim-append (x ∷ xs) ys c = ground (arith, is_delim-append xs ys c)

extract_stop :
    (escapes breaks rest : Text) (c : ℕ) (quoted : Bool)
    → (is_delim breaks c || not quoted && is_delim escapes c) ≡ true
    → extract escapes breaks (c ∷ rest) quoted ≡ ([], c ∷ rest, quoted)
unfolding extract
extract_stop escapes breaks rest c quoted h = rw h refl

extract_key :
    (escapes breaks key rest : Text) (stop : ℕ)
    → all (in_key escapes breaks) key ≡ true
    → (is_delim breaks stop || is_delim escapes stop) ≡ true
    → extract escapes breaks (key ++ stop ∷ rest) false ≡ (key, stop ∷ rest, false)
unfolding extract
extract_key escapes breaks [] rest stop k h = rw h refl
extract_key escapes breaks (c ∷ key) rest stop k h =
    ground (arith, k, h, extract_key escapes breaks key rest stop)

module _ (delim eq : ℕ) (padding : Text) where
  -- The characters that the parser is given can be told apart.
  abbrev pub distinct : Bool
  distinct =
      no_quote delim
      && (no_quote eq
          && (not (delim == eq) && (not (is_delim padding quote) && not (is_delim padding delim))))

  value_end :
      (rest : Text)
      → distinct ≡ true
      → extract (delim ∷ []) [] (quote ∷ delim ∷ rest) true ≡ ([], delim ∷ rest, false)
  unfolding extract is_delim
  value_end rest d =
      rw
        (ap (λ (t : Text × Text × Bool). t)
          (extract_stop (delim ∷ []) [] rest delim false (is_delim_head delim [])))
        refl

  quoted_value :
      (value rest : Text)
      → distinct ≡ true
      → all no_quote value ≡ true
      → extract (delim ∷ []) [] (value ++ (quote ∷ delim ∷ rest)) true
        ≡ (value, delim ∷ rest, false)
  unfolding extract is_delim
  quoted_value [] rest d v = value_end rest d
  quoted_value (c ∷ value) rest d v = ground (arith, v, quoted_value value rest d)

  value_of_quoted :
      (value rest : Text)
      → distinct ≡ true
      → all no_quote value ≡ true
      → value_of delim eq padding (quote ∷ (value ++ (quote ∷ delim ∷ rest))) false
        ≡ (value, delim ∷ rest, false)
  unfolding value_of extract is_delim
  value_of_quoted value rest d v = ground (arith, d, quoted_value value rest d v)

  skip_padding :
      (pad rest : Text)
      → all (is_delim padding) pad ≡ true
      → skip_any (eq ∷ padding) (pad ++ rest) ≡ skip_any (eq ∷ padding) rest
  unfolding skip_any is_delim
  skip_padding [] rest p = refl
  skip_padding (c ∷ pad) rest p = ground (arith, p, skip_padding pad rest)

  skip_to_value :
      (before after rest : Text)
      → distinct ≡ true
      → all (is_delim padding) before ≡ true
      → all (is_delim padding) after ≡ true
      → skip_any (eq ∷ padding) (before ++ (eq ∷ (after ++ (quote ∷ rest)))) ≡ quote ∷ rest
  unfolding skip_any is_delim
  skip_to_value before after rest d b a =
      let first = skip_padding before (eq ∷ (after ++ (quote ∷ rest))) b in
      let second = skip_padding after (quote ∷ rest) a in first ∙ ground (arith, second, d)

  key_end :
      (key before rest : Text)
      → all (in_key (padding ++ delim ∷ []) (eq ∷ [])) key ≡ true
      → all (is_delim padding) before ≡ true
      → extract (padding ++ delim ∷ []) (eq ∷ []) (key ++ (before ++ (eq ∷ rest))) false
        ≡ (key, before ++ (eq ∷ rest), false)
  key_end key [] rest k b =
      extract_key (padding ++ delim ∷ []) (eq ∷ []) key rest eq k
        (ground (arith, is_delim_head eq []))
  key_end key (c ∷ before) rest k b =
      extract_key (padding ++ delim ∷ []) (eq ∷ []) key (before ++ (eq ∷ rest)) c k
        (ground (arith, b, is_delim-append padding (delim ∷ []) c))

  -- A pair as `key = "value"`, with what stands before and after the sign, and the delimiter.
  abbrev pub print_pair : Text → Text → Text × Text → Text → Text
  print_pair before after (key, value) rest =
      key ++ (before ++ (eq ∷ (after ++ (quote ∷ (value ++ (quote ∷ delim ∷ rest))))))

  abbrev pub print_pairs : Text → Text → Pairs → Text
  print_pairs before after [] = []
  print_pairs before after (p ∷ ps) = print_pair before after p (print_pairs before after ps)

  -- A key has neither quotes nor a character at which it would end; a value has no quotes.
  abbrev pub printable : Text × Text → Bool
  printable (key, value) = all (in_key (padding ++ delim ∷ []) (eq ∷ [])) key && all no_quote value

  starts_key :
      (key before rest : Text)
      → distinct ≡ true
      → all (in_key (padding ++ delim ∷ []) (eq ∷ [])) key ≡ true
      → all (is_delim padding) before ≡ true
      → skip_any (delim ∷ []) (key ++ (before ++ (eq ∷ rest))) ≡ key ++ (before ++ (eq ∷ rest))
  unfolding skip_any is_delim
  starts_key (c ∷ key) before rest d k b = ground (arith, k, is_delim-append padding (delim ∷ []) c)
  starts_key [] (c ∷ before) rest d k b =
      ground (arith, b, d, ap (is_delim padding), ==_iff delim c)
  starts_key [] [] rest d k b = ground (arith, d)

  starts_pairs :
      (before after : Text) (ps : Pairs)
      → distinct ≡ true
      → all (is_delim padding) before ≡ true
      → all printable ps ≡ true
      → skip_any (delim ∷ []) (delim ∷ print_pairs before after ps) ≡ print_pairs before after ps
  unfolding skip_any is_delim
  starts_pairs before after [] d b k = ground arith
  starts_pairs before after ((key, value) ∷ ps) d b k =
      let rest = after ++ (quote ∷ (value ++ (quote ∷ delim ∷ print_pairs before after ps))) in
      ground (arith, starts_key key before rest d (ground (arith, k)) b)

  round-print_pair :
      (before after key value rest : Text)
      → distinct ≡ true
      → all (is_delim padding) before ≡ true
      → all (is_delim padding) after ≡ true
      → printable (key, value) ≡ true
      → round delim eq padding (print_pair before after (key, value) rest) false
        ≡ ((key, value), skip_any (delim ∷ []) (delim ∷ rest), false)
  unfolding round
  round-print_pair before after key value rest d b a k =
      let behind = after ++ (quote ∷ (value ++ (quote ∷ delim ∷ rest))) in
      rw
        (
          key_end key before behind (ground (arith, k)) b,
          skip_to_value before after (value ++ (quote ∷ delim ∷ rest)) d b a,
          value_of_quoted value rest d (ground (arith, k)),
        )
        refl

  pairs_loop_more :
      (fuel : ℕ) (s : Text) (key value rest : Text)
      → 1 ≤ length s
      → round delim eq padding s false ≡ ((key, value), rest, false)
      → pairs_loop delim eq padding (suc fuel) s false
        ≡ and_pair key value (pairs_loop delim eq padding fuel rest false)
  unfolding pairs_loop
  pairs_loop_more fuel [] key value rest l r = absurd (ground (arith, l))
  pairs_loop_more fuel (c ∷ s) key value rest l r =
      ap
        (λ (t : (Text × Text) × Text × Bool).
          and_pair t.0.0 t.0.1 (pairs_loop delim eq padding fuel t.1 t.2))
        r

  pairs_loop-print_pairs :
      (fuel : ℕ) (before after : Text) (ps : Pairs)
      → distinct ≡ true
      → all (is_delim padding) before ≡ true
      → all (is_delim padding) after ≡ true
      → all printable ps ≡ true
      → length (print_pairs before after ps) < fuel
      → pairs_loop delim eq padding fuel (print_pairs before after ps) false ≡ some ps
  unfolding pairs_loop
  pairs_loop-print_pairs zero before after ps d b a k l = absurd (ground (arith, l))
  pairs_loop-print_pairs (suc fuel) before after [] d b a k l = refl
  pairs_loop-print_pairs (suc fuel) before after ((key, value) ∷ ps) d b a k l =
      let rest = print_pairs before after ps in
      let whole = print_pair before after (key, value) rest in
      let one = round-print_pair before after key value rest d b a (ground (arith, k)) in
      let next = starts_pairs before after ps d b (ground (arith, k)) in
      let runs : round delim eq padding whole false ≡ ((key, value), rest, false) =
        one ∙ ap (λ (t : Text). ((key, value), t, false)) next in
      let shorter = round-length delim eq padding whole false in
      let same = ap (λ (t : (Text × Text) × Text × Bool). length t.1) runs in
      let far =
        length-append key
          (before ++ (eq ∷ (after ++ (quote ∷ (value ++ (quote ∷ delim ∷ rest)))))) in
      let mid =
        length-append before (eq ∷ (after ++ (quote ∷ (value ++ (quote ∷ delim ∷ rest))))) in
      let more =
        pairs_loop-print_pairs fuel before after ps d b a (ground (arith, k))
          (omega (arith, l, shorter, same, far, mid)) in
      pairs_loop_more fuel whole key value rest (omega (arith, far, mid)) runs
      ∙ ap (and_pair key value) more

  -- Pairs that are written as `key = "value"`, with any padding around the sign, are read back as
  -- they are: the values may hold delimiters, signs and padding, but no quote, and the keys hold
  -- none of the four. The delimiter, the sign, the padding and the quote are told apart.
  pub parse_impl-print_pairs :
      (before after : Text) (ps : Pairs)
      → distinct ≡ true
      → all (is_delim padding) before ≡ true
      → all (is_delim padding) after ≡ true
      → all printable ps ≡ true
      → parse_impl delim eq padding (print_pairs before after ps) ≡ some ps
  unfolding parse_impl
  parse_impl-print_pairs before after ps d b a k =
      pairs_loop-print_pairs (suc (length (print_pairs before after ps))) before after ps d b a k
        (omega arith)
