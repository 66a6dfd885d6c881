-- ===== src/Boot/Search/Device.antt =====
-- What `find_dtb_offset` of native/src/boot/bootimg.cpp finds.
use kitsune_ufork.Common.{
  ℕ, zero, suc, ◌+◌, ◌-◌, ◌≤◌, ◌<◌, ◌≡◌, refl, sym, true, some, Text, [], ◌∷◌, ◌++◌, ◌∙◌, subst,
  drop_all, Option-cases, ltb→lt, arith, length, take, drop, Bool-cases, inl, inr, ltb, str_starts,
  ap,
}
use kitsune_ufork.Base.Strings.{find_str}
use kitsune_ufork.Base.Strings.Replacing.{find_str-Found}
use kitsune_ufork.Format.{dtb_magic}
use kitsune_ufork.Boot.Search.{fdt32, is_fdt, dtb_loop, find_dtb_offset}

-- The header at `p`: it begins inside the block with the magic, its size (at 4) and the offset of
-- its structure (at 8) do not pass the block's end, and at this offset is the tag of a first node.
abbrev pub IsFdt : Text → ℕ → ℕ → Type 0
IsFdt buf sz p =
    let hdr = drop p buf in
    (p < sz)
    × (str_starts hdr dtb_magic ≡ true)
    × (fdt32 4 hdr ≤ sz - p)
    × (fdt32 8 hdr ≤ sz - p)
    × (fdt32 (fdt32 8 hdr) hdr ≡ 1)

is_fdt-tests :
    (buf : Text) (sz p : ℕ)
    → is_fdt buf sz p ≡ true
    → (fdt32 4 (drop p buf) ≤ sz - p)
      × (fdt32 8 (drop p buf) ≤ sz - p)
      × (fdt32 (fdt32 8 (drop p buf)) (drop p buf) ≡ 1)
is_fdt-tests buf sz p t = (ground (arith, t), ground (arith, t), ground (arith, t))

prefix : (n : ℕ) (s m tail : Text) → take n s ≡ m ++ tail → (length m ≤ n) × (str_starts s m ≡ true)
unfolding str_starts
prefix n s [] tail e = (omega arith, refl)
prefix zero s (c ∷ m) tail e = absurd (ground (arith, e))
prefix (suc n) [] (c ∷ m) tail e = absurd (ground (arith, e))
prefix (suc n) (b ∷ s) (c ∷ m) tail e = ground (arith, e, prefix n s m tail)

cuts :
    (n : ℕ) (s head tail m : Text)
    → take n s ≡ head ++ (m ++ tail)
    → (length head + length m ≤ n) × (str_starts (drop (length head) s) m ≡ true)
cuts n s [] tail m e = let p = prefix n s m tail e in (omega (arith, p.0), p.1)
cuts zero s (c ∷ head) tail m e = absurd (ground (arith, e))
cuts (suc n) [] (c ∷ head) tail m e = absurd (ground (arith, e))
cuts (suc n) (b ∷ s) (c ∷ head) tail m e =
    let r = cuts n s head tail m (ground (arith, e)) in (omega (arith, r.0), r.1)

pub drop-drop : (a b : ℕ) (s : Text) → drop b (drop a s) ≡ drop (a + b) s
drop-drop zero b s = ap (λ n. drop n s) (omega arith)
drop-drop (suc a) b [] = drop_all b [] (omega arith) ∙ sym (drop_all (suc a + b) [] (omega arith))
drop-drop (suc a) b (c ∷ s) =
    let e : suc (a + b) ≡ suc a + b = omega arith in
    drop-drop a b s ∙ ap (λ (n : ℕ). drop n (c ∷ s)) e

at_magic :
    (buf head tail : Text) (sz curr : ℕ)
    → curr < sz
    → take (sz - curr) (drop curr buf) ≡ head ++ (dtb_magic ++ tail)
    → is_fdt buf sz (curr + length head) ≡ true
    → IsFdt buf sz (curr + length head)
at_magic buf head tail sz curr h e t =
    let c = cuts (sz - curr) (drop curr buf) head tail dtb_magic e in
    let (size, offset, tag) = is_fdt-tests buf sz (curr + length head) t in
    (omega (arith, c.0), rw (drop-drop curr (length head) buf) at c.1, size, offset, tag)

dtb_loop-IsFdt :
    (fuel : ℕ) (buf : Text) (sz curr p : ℕ) → dtb_loop fuel buf sz curr ≡ some p → IsFdt buf sz p
unfolding dtb_loop
dtb_loop-IsFdt zero buf sz curr p e = absurd (ground (arith, e))
dtb_loop-IsFdt (suc fuel) buf sz curr p e = elim (Bool-cases (ltb curr sz)) [
  | inr end ↦ absurd (ground (arith, e, end))
  | inl more ↦ elim (Option-cases (find_str dtb_magic (take (sz - curr) (drop curr buf)))) [
    | inl n ↦ absurd (ground (arith, e, more, n))
    | inr ((head, tail), f) ↦
        let cut : take (sz - curr) (drop curr buf) ≡ head ++ (dtb_magic ++ tail) =
          rw f at (find_str-Found dtb_magic (take (sz - curr) (drop curr buf))) in
        elim (Bool-cases (is_fdt buf sz (curr + length head))) [
          | inl t ↦
              let same : curr + length head ≡ p = ground (arith, e, more, f, t) in
              subst (IsFdt buf sz) same (at_magic buf head tail sz curr (ltb→lt curr sz more) cut t)
          | inr n ↦
              dtb_loop-IsFdt fuel buf sz (curr + length head + 40) p (ground (arith, e, more, f, n))
        ]
  ]
]

-- An offset that find_dtb_offset returns is inside of the block and has the magic of a device tree,
-- a size and an offset of its structure that do not pass the block's end, and the tag of a first
-- node.
pub find_dtb_offset-IsFdt :
    (buf : Text) (sz p : ℕ) → find_dtb_offset buf sz ≡ some p → IsFdt buf sz p
unfolding find_dtb_offset
find_dtb_offset-IsFdt buf sz p e = dtb_loop-IsFdt (suc sz) buf sz 0 p e
