-- ===== src/Boot/Fields/Or.antt =====
-- `|` of numbers whose binary digits do not meet is their sum.
use Prim.Native.Nat.{max, digits, bit_or, bit_or-bitwise}
use native.Mathlib.Nat.{pow-suc}
use kitsune_ufork.Common.{ℕ, zero, suc, ◌+◌, ◌*◌, ◌/◌, ◌%◌, ◌^◌, ◌≤◌, ◌<◌, ◌≡◌, refl, ap, arith}

abbrev or_digits : ℕ → ℕ → ℕ → ℕ
or_digits n a b = digits (λ b. b) max n a b

-- Fuel beyond the first number changes nothing.
more_fuel : (n m a b : ℕ) → a ≤ n → a ≤ m → or_digits n a b ≡ or_digits m a b
more_fuel n m zero b p q = both n m
  where
    both : (n m : ℕ) → or_digits n 0 b ≡ or_digits m 0 b
    both zero zero = refl
    both zero (suc m) = refl
    both (suc n) zero = refl
    both (suc n) (suc m) = refl
more_fuel zero m (suc a) b p q = absurd (omega arith)
more_fuel (suc n) zero (suc a) b p q = absurd (omega arith)
more_fuel (suc n) (suc m) (suc a) b p q =
    let h = more_fuel n m (suc a / 2) (b / 2) (omega arith) (omega arith) in
    ap (λ (x : ℕ). x * 2 + max (suc a % 2) (b % 2)) h

lowest_digit : (a b : ℕ) → bit_or a b ≡ bit_or (a / 2) (b / 2) * 2 + max (a % 2) (b % 2)
lowest_digit zero b = omega (arith, bit_or-bitwise 0 b, bit_or-bitwise 0 (b / 2))
lowest_digit (suc a) b = omega (
  arith,
  bit_or-bitwise (suc a) b,
  bit_or-bitwise (suc a / 2) (b / 2),
  more_fuel a (suc a / 2) (suc a / 2) (b / 2) (omega arith) (omega arith),
)

or_nothing : (n a : ℕ) → a ≤ n → bit_or a 0 ≡ a
or_nothing n zero h = refl
or_nothing zero (suc a) h = absurd (omega arith)
or_nothing (suc n) (suc a) h =
    omega (arith, lowest_digit (suc a) 0, or_nothing n (suc a / 2) (omega arith))

pub bit_or-disjoint : (k x y : ℕ) → y < 2 ^ k → bit_or (x * 2 ^ k) y ≡ x * 2 ^ k + y
bit_or-disjoint zero x y h = ground (arith, or_nothing x x)
bit_or-disjoint (suc k) x y h =
    let twice : x * 2 ^ suc k ≡ 2 * (x * 2 ^ k) =
      omega (arith, ap (λ (t : ℕ). x * t) (pow-suc 2 k)) in
    let half = bit_or-disjoint k x (y / 2) (omega (arith, pow-suc 2 k)) in
    rw twice (ground (arith, lowest_digit (2 * (x * 2 ^ k)) y, half))
