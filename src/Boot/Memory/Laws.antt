-- ===== src/Boot/Memory/Laws.antt =====
-- Reading back what was written at an offset, and the bounds of `align_to`.
use kitsune_ufork.Common.{
  ℕ, zero, suc, ◌+◌, ◌-◌, ◌*◌, ◌/◌, ◌%◌, ◌^◌, ◌≤◌, ◌<◌, ◌≡◌, refl, ap, ◌∙◌, [], ◌∷◌, ◌++◌, Text,
  length, take, drop, length-append, length-take, length-drop, drop-append, drop_all, arith, ◌⊎◌,
  inl, inr,
}
use native.Mathlib.Nat.{div-add-mod, mod-lt, mul-mod_left, add-mul-div_right, div-eq_of_lt}
use kitsune_ufork.Boot.Memory.{le_bytes, to_le, store_at, load_le, align_to, round_up, size_mod}

pub length-to_le : (n v : ℕ) → length (to_le n v) ≡ n
unfolding to_le
length-to_le zero v = refl
length-to_le (suc n) v = omega (arith, length-to_le n (v / 256))

pub length-store_at :
    (off : ℕ) (w s : Text) → off + length w ≤ length s → length (store_at off w s) ≡ length s
unfolding store_at
length-store_at off w s h = omega (
  arith,
  length-append (take off s) (w ++ drop (length w) (drop off s)),
  length-append w (drop (length w) (drop off s)),
  length-take off s (omega arith),
  length-drop (length w) (drop off s),
  length-drop off s,
)

drop-store_at :
    (off : ℕ) (w s : Text)
    → off ≤ length s
    → drop off (store_at off w s) ≡ w ++ drop (length w) (drop off s)
unfolding store_at
drop-store_at off w s h =
    rw (length-take off s h) at (drop-append (take off s) (w ++ drop (length w) (drop off s)))

le_bytes-to_le : (v : ℕ) (t : Text) → v < 2 ^ 32 → le_bytes 4 (to_le 4 v ++ t) ≡ v
unfolding le_bytes to_le
le_bytes-to_le v t h = omega arith

-- A 32-bit number that was stored is read back.
pub load-store :
    (off v : ℕ) (s : Text)
    → v < 2 ^ 32
    → off + 4 ≤ length s
    → load_le 4 off (store_at off (to_le 4 v) s) ≡ v
load-store off v s h k =
    rw (drop-store_at off (to_le 4 v) s (omega arith))
      (le_bytes-to_le v (drop (length (to_le 4 v)) (drop off s)) h)

le_bytes-take :
    (n m : ℕ) (s r : Text) → n ≤ m → m ≤ length s → le_bytes n (take m s ++ r) ≡ le_bytes n s
unfolding le_bytes
le_bytes-take zero m s r h k = refl
le_bytes-take (suc n) zero s r h k = absurd (omega arith)
le_bytes-take (suc n) (suc m) [] r h k = absurd (omega arith)
le_bytes-take (suc n) (suc m) (c ∷ s) r h k =
    ap (λ (x : ℕ). c + 256 * x) (le_bytes-take n m s r (omega arith) (omega arith))

load_before :
    (n off off' : ℕ) (w s : Text)
    → off + n ≤ off'
    → off' ≤ length s
    → load_le n off (store_at off' w s) ≡ load_le n off s
unfolding store_at
load_before n zero off' w s h k = le_bytes-take n off' s _ (omega arith) k
load_before n (suc off) zero w s h k = absurd (omega arith)
load_before n (suc off) (suc off') w [] h k = absurd (omega arith)
load_before n (suc off) (suc off') w (c ∷ s) h k =
    load_before n off off' w s (omega arith) (omega arith)

drop_after :
    (off off' : ℕ) (w s : Text)
    → off' + length w ≤ off
    → off' ≤ length s
    → drop off (store_at off' w s) ≡ drop off s
unfolding store_at
drop_after off zero [] s h k = refl
drop_after zero zero (b ∷ w) s h k = absurd (omega arith)
drop_after (suc off) zero (b ∷ w) [] h k =
    drop_all off (w ++ []) (omega (arith, length-append w []))
drop_after (suc off) zero (b ∷ w) (c ∷ s) h k = drop_after off zero w s (omega arith) (omega arith)
drop_after zero (suc off') w s h k = absurd (omega arith)
drop_after (suc off) (suc off') w [] h k = absurd (omega arith)
drop_after (suc off) (suc off') w (c ∷ s) h k = drop_after off off' w s (omega arith) (omega arith)

-- A write elsewhere is not seen.
pub load-store_apart :
    (n off off' : ℕ) (w s : Text)
    → (off + n ≤ off') ⊎ (off' + length w ≤ off)
    → off' ≤ length s
    → load_le n off (store_at off' w s) ≡ load_le n off s
load-store_apart n off off' w s (inl b) k = load_before n off off' w s b k
load-store_apart n off off' w s (inr a) k = ap (le_bytes n) (drop_after off off' w s a k)

pub round_up_lem :
    (v a : ℕ) → 0 < a → (v ≤ round_up v a) × (round_up v a < v + a) × (round_up v a % a ≡ 0)
round_up_lem v a h =
    let n = v + a - 1 in
    (
      omega (arith, div-add-mod n a, mod-lt n h),
      omega (arith, div-add-mod n a, mod-lt n h),
      mul-mod_left (n / a) a,
    )

pub align_to-round_up : (v a : ℕ) → 0 < a → v + a < size_mod → align_to v a ≡ round_up v a
unfolding align_to
align_to-round_up v a h k =
    let e : (v + a + size_mod - 1) % size_mod ≡ v + a - 1 = omega arith in rw e refl

-- A multiple is rounded to itself.
pub round_up_twice : (v a : ℕ) → 0 < a → round_up (round_up v a) a ≡ round_up v a
round_up_twice v a h =
    let q = (v + a - 1) / a in
    let e : q * a + a - 1 ≡ a - 1 + q * a = omega arith in
    let z : (a - 1) / a ≡ 0 = div-eq_of_lt (omega arith) in
    ap (λ (x : ℕ). x * a)
      (ap (λ (x : ℕ). x / a) e ∙ add-mul-div_right (a - 1) q h ∙ omega (arith, z))

pub round_up_self : (a : ℕ) → 0 < a → round_up a a ≡ a
round_up_self a h =
    let e : a + a - 1 ≡ a - 1 + 1 * a = omega arith in
    let z : (a - 1) / a ≡ 0 = div-eq_of_lt (omega arith) in
    let q : (a + a - 1) / a ≡ 1 =
      ap (λ (x : ℕ). x / a) e ∙ add-mul-div_right (a - 1) 1 h ∙ omega (arith, z) in
    rw q (omega arith)

-- The next multiple, less than one unit away, when no sum wraps.
pub align_to_lem :
    (v a : ℕ)
    → 0 < a
    → v + a < size_mod
    → (v ≤ align_to v a) × (align_to v a < v + a) × (align_to v a % a ≡ 0)
align_to_lem v a h k = rw (align_to-round_up v a h k) (round_up_lem v a h)
