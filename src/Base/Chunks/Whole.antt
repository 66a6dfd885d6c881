-- ===== src/Base/Chunks/Whole.antt =====
-- A stream in chunks loses nothing and adds nothing.
use kitsune_ufork.Common.{
  ℕ, zero, suc, ◌+◌, ◌-◌, ◌≤◌, ◌<◌, ◌≡◌, refl, sym, ap, ◌∙◌, Bool, true, false, Option, some, List,
  [], ◌∷◌, ◌++◌, Text, length, length-append, take, drop, take-append-drop, length-take,
  length-drop, leb, leb→le, All, arith, Bool-cases, inl, inr,
}
use mathlib.Core.List.{append-nil, append_assoc}
use kitsune_ufork.Base.Chunks.{
  Chunker, write_chunk, fill, write_loop, write, flush, finalize, write_all,
}

abbrev pub joined : List Text → Text
joined [] = []
joined (x ∷ xs) = x ++ joined xs

joined-append : (xs ys : List Text) → joined (xs ++ ys) ≡ joined xs ++ joined ys
joined-append [] ys = refl
joined-append (x ∷ xs) ys = rw (joined-append xs ys) (sym (append_assoc x (joined xs) (joined ys)))

-- All that has come in.
abbrev pub contents : Chunker → Text
contents c = joined c.written ++ c.buffered

-- The buffer holds less than a chunk, and whole chunks were written.
pub record IsChunked (chunk_sz : ℕ) (c : Chunker) : Type 0 where
  pub partial : length c.buffered < chunk_sz
  pub whole : All (λ x. length x ≡ chunk_sz) c.written

module _ (chunk_sz : ℕ) where
  All-snoc :
      (xs : List Text) (x : Text)
      → All (λ x. length x ≡ chunk_sz) xs
      → length x ≡ chunk_sz
      → All (λ x. length x ≡ chunk_sz) (xs ++ x ∷ [])
  All-snoc [] x a h = (h, tt)
  All-snoc (y ∷ ys) x a h = (a.0, All-snoc ys x a.1 h)

  fill_lem :
      (buffered input : Text)
      → length buffered < chunk_sz
      → chunk_sz ≤ length buffered + length input
      → let r = fill chunk_sz buffered input in
        (r.0 ++ r.1 ≡ buffered ++ input) × (length r.0 ≡ chunk_sz) × (length r.1 < length input)
  unfolding fill
  fill_lem [] input h k = (
    take-append-drop chunk_sz input,
    length-take chunk_sz input (omega arith),
    omega (arith, length-drop chunk_sz input),
  )
  fill_lem (b ∷ bs) input h k =
      let copy = chunk_sz - length (b ∷ bs) in
      (
        append_assoc (b ∷ bs) (take copy input) (drop copy input)
            ∙ ap (λ (l : Text). (b ∷ bs) ++ l) (take-append-drop copy input),
        omega (arith, length-append (b ∷ bs) (take copy input), length-take copy input),
        omega (arith, length-drop copy input),
      )

  module _ (accepts : List Text → Text → Bool)
      (takes_all : (w : List Text) (x : Text) → accepts w x ≡ true) where
    -- What a call that succeeds leaves.
    abbrev pub Done : Text → Chunker → Option (Chunker × Bool) → Type 0
    Done input c r =
        (c' : Chunker) × (r ≡ some (c', true))
        × IsChunked chunk_sz c'
        × (contents c' ≡ contents c ++ input)

    one_chunk :
        (src : Text) (c : Chunker)
        → write_chunk accepts chunk_sz src c ≡ (record c { written = c.written ++ src ∷ [] }, true)
    unfolding write_chunk
    one_chunk src c = rw (takes_all c.written src)

    abbrev src : Text → Chunker → Text
    src input c = (fill chunk_sz c.buffered input).0

    abbrev rest : Text → Chunker → Text
    rest input c = (fill chunk_sz c.buffered input).1

    abbrev sent : Text → Chunker → Chunker
    sent input c = record { buffered = []; written = c.written ++ src input c ∷ [] }

    round_full :
        (fuel b : ℕ) (input : Text) (c : Chunker)
        → leb chunk_sz (length c.buffered + length (b ∷ input)) ≡ true
        → write_loop accepts chunk_sz (suc fuel) (b ∷ input) c
          ≡ write_loop accepts chunk_sz fuel (rest (b ∷ input) c) (sent (b ∷ input) c)
    unfolding write_loop
    round_full fuel b input c h = rw (h, one_chunk (src (b ∷ input) c) (record c { buffered = [] }))

    round_part :
        (fuel b : ℕ) (input : Text) (c : Chunker)
        → leb chunk_sz (length c.buffered + length (b ∷ input)) ≡ false
        → write_loop accepts chunk_sz (suc fuel) (b ∷ input) c
          ≡ some (record c { buffered = c.buffered ++ b ∷ input }, true)
    unfolding write_loop
    round_part fuel b input c h = rw h

    sent-contents :
        (input : Text) (c : Chunker)
        → src input c ++ rest input c ≡ c.buffered ++ input
        → contents (sent input c) ++ rest input c ≡ contents c ++ input
    sent-contents input c e =
        rw
          (
            append-nil (joined (c.written ++ src input c ∷ [])),
            joined-append c.written (src input c ∷ []),
            append-nil (src input c),
            append_assoc (joined c.written) (src input c) (rest input c),
            e,
          )
          (sym (append_assoc (joined c.written) c.buffered input))

    write_loop-Done :
        (fuel : ℕ) (input : Text) (c : Chunker)
        → length input < fuel
        → IsChunked chunk_sz c
        → Done input c (write_loop accepts chunk_sz fuel input c)
    write_loop-Done zero input c h v = absurd (omega arith)
    write_loop-Done (suc fuel) [] c h v =
        (c, unfold write_loop in refl, v, sym (append-nil (contents c)))
    write_loop-Done (suc fuel) (b ∷ input) c h v =
        elim (Bool-cases (leb chunk_sz (length c.buffered + length (b ∷ input)))) [
          | inl full ↦
              let (e, l, k) = fill_lem c.buffered (b ∷ input) v.partial (leb→le _ _ full) in
              let (c', ran, v', all) =
                write_loop-Done fuel (rest (b ∷ input) c) (sent (b ∷ input) c) (omega arith)
                  (record {
                    partial = omega (arith, v.partial);
                    whole = All-snoc c.written (src (b ∷ input) c) v.whole l;
                  }) in
              (c', round_full fuel b input c full ∙ ran, v', all ∙ sent-contents (b ∷ input) c e)
          | inr part ↦ (
            record c { buffered = c.buffered ++ b ∷ input },
            round_part fuel b input c part,
            record {
              partial = ground (arith, length-append c.buffered (b ∷ input));
              whole = v.whole;
            },
            sym (append_assoc (joined c.written) c.buffered (b ∷ input)),
          )
        ]

    -- Where the stream below takes every chunk and less than a chunk is buffered, with whole chunks
    -- before it, a write of any size ends, succeeds, adds its bytes behind those before, passes on whole chunks
    -- only, and keeps less than a chunk back.
    pub write-Done :
        (input : Text) (c : Chunker)
        → IsChunked chunk_sz c
        → Done input c (write accepts chunk_sz input c)
    unfolding write
    write-Done input c v = write_loop-Done (suc (length input)) input c (omega arith) v

    write_all-Done :
        (xs : List Text) (c : Chunker)
        → IsChunked chunk_sz c
        → Done (joined xs) c (write_all accepts chunk_sz xs c)
    unfolding write_all
    write_all-Done [] c v = (c, refl, v, sym (append-nil (contents c)))
    write_all-Done (x ∷ xs) c v =
        let (c₁, ran, v₁, got) = write-Done x c v in
        let (c₂, ran', v₂, got') = write_all-Done xs c₁ v₁ in
        (
          c₂,
          rw (ran, write_all) ran',
          v₂,
          got' ∙ ap (λ (l : Text). l ++ joined xs) got ∙ append_assoc (contents c) x (joined xs),
        )

    finalize-joined : (c : Chunker) → joined (finalize accepts chunk_sz c).written ≡ contents c
    unfolding finalize
    finalize-joined c = go c.buffered
      where
        go : (b : Text) → joined (flush accepts chunk_sz b c).written ≡ joined c.written ++ b
        go [] = sym (append-nil (joined c.written))
        go (b ∷ bs) =
            ap (λ (r : Chunker × Bool). joined r.0.written) (one_chunk (b ∷ bs) c)
            ∙ joined-append c.written ((b ∷ bs) ∷ [])
            ∙ ap (λ (l : Text). joined c.written ++ l) (append-nil (b ∷ bs))

    abbrev pub empty : Chunker
    empty = record { buffered = []; written = [] }

    -- Where the stream below takes every chunk and the chunk size is not 0, whatever writes a program
    -- makes, they all succeed, and after `finalize` the stream below has
    -- exactly their bytes; before it, it has whole chunks only.
    pub finalize-write_all :
        (xs : List Text)
        → 0 < chunk_sz
        → (c : Chunker) × (write_all accepts chunk_sz xs empty ≡ some (c, true))
          × (joined (finalize accepts chunk_sz c).written ≡ joined xs)
          × All (λ x. length x ≡ chunk_sz) c.written
    finalize-write_all xs h =
        let (c, ran, v, got) = write_all-Done xs empty (record { partial = h; whole = tt }) in
        (c, ran, finalize-joined c ∙ got, v.whole)
