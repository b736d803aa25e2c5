-- ===== src/Base/Bits.antt =====
-- `bit_xor` with one bit, at variables: the buddy of a block. The digit recursion that the native
-- operation stands for gives one step, and induction on the bit's position the rest.
use Prim.Native.Nat.{
  ℕ, zero, suc, ◌+◌, ◌*◌, ◌/◌, ◌%◌, ◌^◌, ◌≤◌, ◌<◌, bit_xor, digits, differ, bit_xor-bitwise,
}
use mathlib.Core.Path.{◌≡◌, refl}
use native.Mathlib.Omega.{arith}
use native.Mathlib.Nat.{pow-suc}

abbrev xor_digits : ℕ → ℕ → ℕ → ℕ
xor_digits n a b = digits (λ b. b) differ n a b

xor_digits_fuel : (n m a b : ℕ) → a ≤ n → a ≤ m → xor_digits n a b ≡ xor_digits m a b
xor_digits_fuel zero zero a b p q = refl
xor_digits_fuel zero (suc m) zero b p q = refl
xor_digits_fuel zero (suc m) (suc a) b p q = absurd (omega arith)
xor_digits_fuel (suc n) zero zero b p q = refl
xor_digits_fuel (suc n) zero (suc a) b p q = absurd (omega arith)
xor_digits_fuel (suc n) (suc m) zero b p q = refl
xor_digits_fuel (suc n) (suc m) (suc a) b p q =
    omega (arith, xor_digits_fuel n m (suc a / 2) (b / 2) (omega arith) (omega arith))

zero-bit_xor : (b : ℕ) → bit_xor 0 b ≡ b
zero-bit_xor b = bit_xor-bitwise 0 b

bit_xor_step : (a b : ℕ) → bit_xor a b ≡ bit_xor (a / 2) (b / 2) * 2 + differ (a % 2) (b % 2)
bit_xor_step zero b = omega (arith, zero-bit_xor b, zero-bit_xor (b / 2))
bit_xor_step (suc a) b = omega (
  arith,
  bit_xor-bitwise (suc a) b,
  bit_xor-bitwise (suc a / 2) (b / 2),
  xor_digits_fuel a (suc a / 2) (suc a / 2) (b / 2) (omega arith) (omega arith),
)

differ-bits : (x y : ℕ) → x < 2 → y < 2 → differ x y ≡ (x + y) % 2
differ-bits zero y h k = omega arith
differ-bits (suc zero) zero h k = refl
differ-bits (suc zero) (suc zero) h k = refl
differ-bits (suc zero) (suc (suc y)) h k = absurd (omega arith)
differ-bits (suc (suc x)) y h k = absurd (omega arith)

bit_xor_halves : (a b : ℕ) → bit_xor a b ≡ bit_xor (a / 2) (b / 2) * 2 + (a % 2 + b % 2) % 2
bit_xor_halves a b =
    omega (arith, bit_xor_step a b, differ-bits (a % 2) (b % 2) (omega arith) (omega arith))

bit_xor-zero_fuel : (n a : ℕ) → a ≤ n → bit_xor a 0 ≡ a
bit_xor-zero_fuel n zero h = refl
bit_xor-zero_fuel zero (suc a) h = absurd (omega arith)
bit_xor-zero_fuel (suc n) (suc a) h =
    omega (arith, bit_xor_halves (suc a) 0, bit_xor-zero_fuel n (suc a / 2) (omega arith))

bit_xor-zero : (a : ℕ) → bit_xor a 0 ≡ a
bit_xor-zero a = bit_xor-zero_fuel a a (omega arith)

bit_xor-double : (a b : ℕ) → bit_xor (a * 2) (b * 2) ≡ bit_xor a b * 2
bit_xor-double a b =
    let ea : a * 2 / 2 ≡ a = omega arith in
    let eb : b * 2 / 2 ≡ b = omega arith in
    rw (bit_xor_halves (a * 2) (b * 2), ea, eb) (omega arith)

bit_xor-one : (a : ℕ) → bit_xor a 1 ≡ a / 2 * 2 + (a % 2 + 1) % 2
bit_xor-one a = omega (arith, bit_xor_halves a 1, bit_xor-zero (a / 2))

-- Where bit k is clear, `xor` sets it; where it is set, it clears it.
pub bit_xor-clear : (k m : ℕ) → bit_xor (2 * m * 2 ^ k) (2 ^ k) ≡ (2 * m + 1) * 2 ^ k
bit_xor-clear zero m = omega (arith, bit_xor-one (2 * m * 1))
bit_xor-clear (suc k) m =
    let e : 2 * m * (2 ^ k * 2) ≡ 2 * m * 2 ^ k * 2 = omega arith in
    rw (pow-suc 2 k, e, bit_xor-double (2 * m * 2 ^ k) (2 ^ k), bit_xor-clear k m) (omega arith)

pub bit_xor-set : (k m : ℕ) → bit_xor ((2 * m + 1) * 2 ^ k) (2 ^ k) ≡ 2 * m * 2 ^ k
bit_xor-set zero m = omega (arith, bit_xor-one ((2 * m + 1) * 1))
bit_xor-set (suc k) m =
    let e : (2 * m + 1) * (2 ^ k * 2) ≡ (2 * m + 1) * 2 ^ k * 2 = omega arith in
    rw (pow-suc 2 k, e, bit_xor-double ((2 * m + 1) * 2 ^ k) (2 ^ k), bit_xor-set k m) (omega arith)
