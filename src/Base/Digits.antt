-- ===== src/Base/Digits.antt =====
-- The native `bit_and` and `bit_or` mean `bitwise`, a recursion on binary digits with fuel.
-- One equation for the lowest digit of each, without the fuel.
use Prim.Native.Nat.{
  ℕ, zero, suc, ◌+◌, ◌*◌, ◌/◌, ◌%◌, ◌≤◌, min, max, differ, digits, bit_and, bit_or, bit_xor,
  bit_and-bitwise, bit_or-bitwise, bit_xor-bitwise,
}
use mathlib.Core.Path.{◌≡◌, refl}
use native.Mathlib.Omega.{arith}

-- Any fuel from the first argument on gives the digits.
module _ (low : ℕ → ℕ) (digit : ℕ → ℕ → ℕ) where
  enough :
      (a b fuel more : ℕ)
      → a ≤ fuel
      → a ≤ more
      → digits low digit fuel a b ≡ digits low digit more a b
  enough a b zero zero h k = refl
  enough zero b zero (suc more) h k = refl
  enough (suc a) b zero more h k = absurd (omega arith)
  enough zero b (suc fuel) zero h k = refl
  enough (suc a) b (suc fuel) zero h k = absurd (omega arith)
  enough zero b (suc fuel) (suc more) h k = refl
  enough (suc a) b (suc fuel) (suc more) h k =
      omega (arith, enough (suc a / 2) (b / 2) fuel more (omega arith) (omega arith))

  half :
      (a b : ℕ)
      → digits low digit a (suc a / 2) (b / 2) ≡ digits low digit (suc a / 2) (suc a / 2) (b / 2)
  half a b = enough (suc a / 2) (b / 2) a (suc a / 2) (omega arith) (omega arith)

pub bit_and_digit : (a b : ℕ) → bit_and a b ≡ 2 * bit_and (a / 2) (b / 2) + min (a % 2) (b % 2)
bit_and_digit zero b = omega (arith, bit_and-bitwise 0 b, bit_and-bitwise 0 (b / 2))
bit_and_digit (suc a) b =
    omega
      (arith, bit_and-bitwise (suc a) b, bit_and-bitwise (suc a / 2) (b / 2), half (λ _. 0) min a b)

pub bit_or_digit : (a b : ℕ) → bit_or a b ≡ 2 * bit_or (a / 2) (b / 2) + max (a % 2) (b % 2)
bit_or_digit zero b = omega (arith, bit_or-bitwise 0 b, bit_or-bitwise 0 (b / 2))
bit_or_digit (suc a) b =
    omega
      (arith, bit_or-bitwise (suc a) b, bit_or-bitwise (suc a / 2) (b / 2), half (λ d. d) max a b)

-- The exclusive or of two binary digits is a binary digit.
pub differ-le : (x y : ℕ) → x ≤ 1 → y ≤ 1 → differ x y ≤ 1
differ-le zero y h k = k
differ-le (suc x) zero h k = h
differ-le (suc zero) (suc zero) h k = omega arith
differ-le (suc zero) (suc (suc y)) h k = absurd (omega arith)
differ-le (suc (suc x)) (suc y) h k = absurd (omega arith)

pub bit_xor_digit : (a b : ℕ) → bit_xor a b ≡ 2 * bit_xor (a / 2) (b / 2) + differ (a % 2) (b % 2)
bit_xor_digit zero b = omega (arith, bit_xor-bitwise 0 b, bit_xor-bitwise 0 (b / 2))
bit_xor_digit (suc a) b = omega (
  arith,
  bit_xor-bitwise (suc a) b,
  bit_xor-bitwise (suc a / 2) (b / 2),
  half (λ d. d) differ a b,
)
