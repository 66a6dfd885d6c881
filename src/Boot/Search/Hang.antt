-- ===== src/Boot/Search/Hang.antt =====
-- Whether `check_fmt_lg` of native/src/boot/bootimg.cpp ends.
use kitsune_ufork.Common.{
  ℕ, false, ap, ◌∙◌, zero, suc, ◌+◌, ◌-◌, ◌%◌, ◌^◌, ◌≤◌, ◌<◌, ◌≡◌, ◌≢◌, refl, none, Text, ◌∷◌, ◌++◌,
  arith, take, str_starts, Bool-cases, inl, inr, ltb, leb,
}
use kitsune_ufork.Format.{check_fmt, checked_match, lzma_match, lz4_legacy, lz4_leg_magic}
use kitsune_ufork.Boot.Memory.{load_le, le_bytes}
use kitsune_ufork.Boot.Search.{lg_loop, check_fmt_lg, same_fmt, word}

-- A block size that leads back to the block makes the loop go round for ever.
lg_loop_hangs :
    (fuel : ℕ) (buf : Text) (sz off : ℕ)
    → off + 4 ≤ sz
    → sz < word
    → 0 < off
    → load_le 4 off buf ≡ word - 4
    → lg_loop fuel buf sz off ≡ none
unfolding lg_loop
lg_loop_hangs zero buf sz off h k p e = refl
lg_loop_hangs (suc fuel) buf sz off h k p e =
    let back : ((off + 4) % word + load_le 4 off buf) % word ≡ off = rw e (omega arith) in
    ground (arith, back, lg_loop_hangs fuel buf sz off)

-- While the sizes of the blocks and their sums fit 32 bits, every round moves on by four bytes.
lg_loop-ends :
    (fuel : ℕ) (buf : Text) (sz off : ℕ)
    → sz < 2 ^ 31
    → off ≤ sz
    → sz < fuel + off
    → ((o : ℕ) → load_le 4 o buf < 2 ^ 31)
    → lg_loop fuel buf sz off ≢ none
unfolding lg_loop
lg_loop-ends zero buf sz off s h f small = absurd (omega arith)
lg_loop-ends (suc fuel) buf sz off s h f small = elim (Bool-cases (leb (off + 4) sz)) [
  | inr end ↦ rw end (λ e. cc)
  | inl more ↦ elim (Bool-cases (ltb sz (((off + 4) % word + load_le 4 off buf) % word))) [
    | inl big ↦ rw (more, big) (λ e. cc)
    | inr fits ↦
        let next = ((off + 4) % word + load_le 4 off buf) % word in
        let on : next ≡ off + 4 + load_le 4 off buf = ground (arith, small off) in
        rw (more, fits)
          (lg_loop-ends fuel buf sz next s (ground (arith, fits)) (ground (arith, on)) small)
  ]
]

lg_loop_short : (sz : ℕ) (buf : Text) → sz < 4 → lg_loop (suc sz) buf sz 4 ≢ none
unfolding lg_loop
lg_loop_short sz buf h = let no : leb 8 sz ≡ false = ground arith in rw no (λ e. cc)

take_four :
    (n : ℕ) (t : Text) → 4 ≤ n → (u : Text) × (take n (lz4_leg_magic ++ t) ≡ lz4_leg_magic ++ u)
take_four zero t h = absurd (omega arith)
take_four (suc zero) t h = absurd (omega arith)
take_four (suc (suc zero)) t h = absurd (omega arith)
take_four (suc (suc (suc zero))) t h = absurd (omega arith)
take_four (suc (suc (suc (suc n)))) t h = (take n t, refl)

legacy_goes :
    (fuel : ℕ) (buf : Text) (sz : ℕ)
    → check_fmt (take sz buf) ≡ lz4_legacy
    → check_fmt_lg fuel buf sz ≡ lg_loop fuel buf sz 4
unfolding check_fmt_lg
legacy_goes fuel buf sz e = ground (arith, e)

is_legacy : (t : Text) → check_fmt (lz4_leg_magic ++ t) ≡ lz4_legacy
unfolding check_fmt str_starts checked_match lzma_match
is_legacy t = ground arith

size_at : (rest : Text) → load_le 4 4 (lz4_leg_magic ++ 0xfc ∷ 0xff ∷ 0xff ∷ 0xff ∷ rest) ≡ word - 4
unfolding le_bytes
size_at rest = refl

-- The test for LZ4_LG never ends on a file with the magic of lz4_legacy whose first block size is
-- 2^32 - 4, given at least eight bytes of it: no number of rounds is enough.
pub check_fmt_lg_hangs :
    (fuel sz : ℕ) (rest : Text)
    → 8 ≤ sz
    → sz < word
    → check_fmt_lg fuel (lz4_leg_magic ++ 0xfc ∷ 0xff ∷ 0xff ∷ 0xff ∷ rest) sz ≡ none
check_fmt_lg_hangs fuel sz rest h k =
    let (t, cut) = take_four sz (0xfc ∷ 0xff ∷ 0xff ∷ 0xff ∷ rest) (omega arith) in
    legacy_goes fuel (lz4_leg_magic ++ 0xfc ∷ 0xff ∷ 0xff ∷ 0xff ∷ rest) sz
      (ap check_fmt cut ∙ is_legacy t)
    ∙ (lg_loop_hangs fuel (lz4_leg_magic ++ 0xfc ∷ 0xff ∷ 0xff ∷ 0xff ∷ rest) sz 4 (omega arith) k
        (omega arith) (size_at rest))

-- It ends, within one round per byte, when no block size reaches 2^31 and the file is shorter
-- than that.
pub check_fmt_lg-ends :
    (buf : Text) (sz : ℕ)
    → sz < 2 ^ 31
    → ((o : ℕ) → load_le 4 o buf < 2 ^ 31)
    → check_fmt_lg (suc sz) buf sz ≢ none
unfolding check_fmt_lg
check_fmt_lg-ends buf sz s small =
    elim (Bool-cases (same_fmt (check_fmt (take sz buf)) lz4_legacy)) [
      | inr other ↦ rw (check_fmt_lg, other) (λ e. cc)
      | inl legacy ↦ elim (Bool-cases (leb 4 sz)) [
        | inl long ↦
            rw (check_fmt_lg, legacy)
              (lg_loop-ends (suc sz) buf sz 4 s (ground (arith, long)) (omega arith) small)
        | inr short ↦ rw (check_fmt_lg, legacy) (lg_loop_short sz buf (ground (arith, short)))
      ]
    ]
