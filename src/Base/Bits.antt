-- ===== src/Base/Bits.antt =====
-- `(x << k) | y` on numbers without a width: a sum, where `y` has at most `k` bits.
use Prim.Native.Nat.{
  ℕ, zero, suc, ◌+◌, ◌*◌, ◌/◌, ◌%◌, ◌^◌, ◌≤◌, ◌<◌, max, bit_or, digits, bit_or-bitwise,
}
use mathlib.Core.Path.{◌≡◌, refl, ap}
use native.Mathlib.Nat.{pow-suc}
use native.Mathlib.Omega.{arith}

-- The definition that the native operation stands for, on fuel of its own.
abbrev or_digits : ℕ → ℕ → ℕ → ℕ
or_digits n a b = digits (λ y. y) max n a b

more_fuel : (n m a b : ℕ) → a ≤ n → a ≤ m → or_digits n a b ≡ or_digits m a b
more_fuel zero zero a b p q = refl
more_fuel zero (suc m) zero b p q = refl
more_fuel zero (suc m) (suc a) b p q = absurd (omega arith)
more_fuel (suc n) zero zero b p q = refl
more_fuel (suc n) zero (suc a) b p q = absurd (omega arith)
more_fuel (suc n) (suc m) zero b p q = refl
more_fuel (suc n) (suc m) (suc a) b p q =
    omega (arith, more_fuel n m (suc a / 2) (b / 2) (omega arith) (omega arith))

zero-bit_or : (b : ℕ) → bit_or 0 b ≡ b
zero-bit_or b = bit_or-bitwise 0 b

lowest_bit : (a b : ℕ) → bit_or a b ≡ bit_or (a / 2) (b / 2) * 2 + max (a % 2) (b % 2)
lowest_bit zero b = omega (arith, zero-bit_or b, zero-bit_or (b / 2))
lowest_bit (suc a) b = omega (
  arith,
  bit_or-bitwise (suc a) b,
  bit_or-bitwise (suc a / 2) (b / 2),
  more_fuel a (suc a / 2) (suc a / 2) (b / 2) (omega arith) (omega arith),
)

bit_or-zero_fuel : (n a : ℕ) → a ≤ n → bit_or a 0 ≡ a
bit_or-zero_fuel n zero h = refl
bit_or-zero_fuel zero (suc a) h = absurd (omega arith)
bit_or-zero_fuel (suc n) (suc a) h =
    omega (arith, lowest_bit (suc a) 0, bit_or-zero_fuel n (suc a / 2) (omega arith))

pub bit_or_shifted : (k x y : ℕ) → y < 2 ^ k → bit_or (x * 2 ^ k) y ≡ x * 2 ^ k + y
bit_or_shifted zero x y h = ground (arith, bit_or-zero_fuel x x)
bit_or_shifted (suc k) x y h = ground (
  arith,
  pow-suc 2 k,
  ap (λ (t : ℕ). x * t) (pow-suc 2 k),
  lowest_bit (x * 2 ^ suc k) y,
  bit_or_shifted k x (y / 2),
)
