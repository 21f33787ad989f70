-- ===== src/Prelude/Bits.antt =====
-- `|=` of a byte that lies above all bits of the other operand is addition.
use Prim.Native.Nat.{ℕ, zero, suc, ◌+◌, ◌*◌, ◌/◌, ◌%◌, ◌^◌, ◌≤◌, ◌<◌, max, bit_or}
use Prim.Native.Nat.{digits, bit_or-bitwise}
use mathlib.Core.Path.{◌≡◌, refl}
use native.Mathlib.Omega.{arith}
use native.Mathlib.Nat.{pow-suc}

abbrev or_digits : ℕ → ℕ → ℕ → ℕ
or_digits n a b = digits (λ c. c) max n a b

-- More fuel than digits makes no difference.
or_digits_enough : (n k a b : ℕ) → a ≤ n → a ≤ k → or_digits n a b ≡ or_digits k a b
or_digits_enough zero zero a b p q = refl
or_digits_enough zero (suc k) zero b p q = refl
or_digits_enough zero (suc k) (suc a) b p q = absurd (omega arith)
or_digits_enough (suc n) zero zero b p q = refl
or_digits_enough (suc n) zero (suc a) b p q = absurd (omega arith)
or_digits_enough (suc n) (suc k) zero b p q = refl
or_digits_enough (suc n) (suc k) (suc a) b p q =
    omega (arith, or_digits_enough n k (suc a / 2) (b / 2) (omega arith) (omega arith))

zero-bit_or : (b : ℕ) → bit_or 0 b ≡ b
zero-bit_or b = bit_or-bitwise 0 b

lowest_digit : (a b : ℕ) → bit_or a b ≡ bit_or (a / 2) (b / 2) * 2 + max (a % 2) (b % 2)
lowest_digit zero b = omega (arith, zero-bit_or b, zero-bit_or (b / 2))
lowest_digit (suc a) b = omega (
  arith,
  bit_or-bitwise (suc a) b,
  bit_or-bitwise (suc a / 2) (b / 2),
  or_digits_enough a (suc a / 2) (suc a / 2) (b / 2) (omega arith) (omega arith),
)

pub bit_or-high : (k r q : ℕ) → r < 2 ^ k → bit_or r (q * 2 ^ k) ≡ r + q * 2 ^ k
bit_or-high zero zero q h = omega (arith, zero-bit_or (q * 2 ^ 0))
bit_or-high zero (suc r) q h = absurd (omega arith)
bit_or-high (suc k) r q h =
    rw lowest_digit
      (rw (halves, bit_or-high k (r / 2) q (omega (arith, pow-suc 2 k))) (omega (arith, doubled)))
  where
    doubled : q * 2 ^ suc k ≡ q * 2 ^ k * 2
    doubled = rw pow-suc (omega arith)

    halves : q * 2 ^ suc k / 2 ≡ q * 2 ^ k
    halves = omega (arith, doubled)
