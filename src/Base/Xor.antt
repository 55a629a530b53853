-- ===== src/Base/Xor.antt =====
-- `^` on unsigned integers: the digit recursion, the bound by a power of two, and cancellation.
use Prim.Native.Nat.{
  ℕ, zero, suc, ◌+◌, ◌*◌, ◌/◌, ◌%◌, ◌^◌, ◌≤◌, ◌<◌, digits, differ, bit_xor, bit_xor-bitwise,
}
use mathlib.Core.Path.{◌≡◌, refl, ◌∙◌}
use native.Mathlib.Nat.{pow-suc}
use native.Mathlib.Omega.{arith}

abbrev xor_digits : ℕ → ℕ → ℕ → ℕ
xor_digits n a b = digits (λ b. b) differ n a b

xor_digits_fuel : (n m a b : ℕ) → a ≤ n → a ≤ m → xor_digits n a b ≡ xor_digits m a b
xor_digits_fuel zero zero a b p q = refl
xor_digits_fuel zero (suc m) zero b p q = refl
xor_digits_fuel zero (suc m) (suc a) b p q = absurd (omega arith)
xor_digits_fuel (suc n) zero zero b p q = refl
xor_digits_fuel (suc n) zero (suc a) b p q = absurd (omega arith)
xor_digits_fuel (suc n) (suc m) zero b p q = refl
xor_digits_fuel (suc n) (suc m) (suc a) b p q =
    omega (arith, xor_digits_fuel n m (suc a / 2) (b / 2) (omega arith) (omega arith))

zero-differ : (b : ℕ) → differ 0 b ≡ b
zero-differ b = refl

zero-bit_xor : (b : ℕ) → bit_xor 0 b ≡ b
zero-bit_xor b = bit_xor-bitwise 0 b

bit_xor_step : (a b : ℕ) → bit_xor a b ≡ bit_xor (a / 2) (b / 2) * 2 + differ (a % 2) (b % 2)
bit_xor_step zero b = omega (arith, zero-bit_xor b, zero-bit_xor (b / 2), zero-differ (b % 2))
bit_xor_step (suc a) b = omega (
  arith,
  bit_xor-bitwise (suc a) b,
  bit_xor-bitwise (suc a / 2) (b / 2),
  xor_digits_fuel a (suc a / 2) (suc a / 2) (b / 2) (omega arith) (omega arith),
)

differ-le : (x y : ℕ) → x < 2 → y < 2 → differ x y < 2
differ-le zero y p q = q
differ-le (suc zero) zero p q = p
differ-le (suc zero) (suc y) p q = omega arith
differ-le (suc (suc x)) y p q = absurd (omega arith)

differ_cancel : (x y b : ℕ) → x < 2 → y < 2 → b < 2 → differ x b ≡ differ y b → x ≡ y
differ_cancel zero zero b p q r e = refl
differ_cancel zero (suc zero) zero p q r e = e
differ_cancel zero (suc zero) (suc b) p q r e = omega arith
differ_cancel (suc zero) zero zero p q r e = e
differ_cancel (suc zero) zero (suc b) p q r e = omega arith
differ_cancel (suc zero) (suc zero) b p q r e = refl
differ_cancel zero (suc (suc y)) b p q r e = absurd (omega arith)
differ_cancel (suc zero) (suc (suc y)) b p q r e = absurd (omega arith)
differ_cancel (suc (suc x)) y b p q r e = absurd (omega arith)

-- No digit appears above those of the operands.
pub bit_xor-lt : (k a b : ℕ) → a < 2 ^ k → b < 2 ^ k → bit_xor a b < 2 ^ k
bit_xor-lt zero zero b p q = omega (arith, zero-bit_xor b)
bit_xor-lt zero (suc a) b p q = absurd (omega arith)
bit_xor-lt (suc k) a b p q = omega (
  arith,
  pow-suc 2 k,
  bit_xor_step a b,
  differ-le (a % 2) (b % 2) (omega arith) (omega arith),
  bit_xor-lt k (a / 2) (b / 2) (omega (arith, pow-suc 2 k)) (omega (arith, pow-suc 2 k)),
)

-- The right operand cancels.
bit_xor_cancel_fuel : (n x y b : ℕ) → x ≤ n → y ≤ n → b ≤ n → bit_xor x b ≡ bit_xor y b → x ≡ y
bit_xor_cancel_fuel zero x y b p q r e = omega arith
bit_xor_cancel_fuel (suc n) x y b p q r e = omega (
  arith,
  bit_xor_step x b,
  bit_xor_step y b,
  differ-le (x % 2) (b % 2) (omega arith) (omega arith),
  differ-le (y % 2) (b % 2) (omega arith) (omega arith),
  differ_cancel (x % 2) (y % 2) (b % 2) (omega arith) (omega arith) (omega arith) (low e),
  bit_xor_cancel_fuel n (x / 2) (y / 2) (b / 2) (omega arith) (omega arith) (omega arith) (high e),
)
  where
    low : bit_xor x b ≡ bit_xor y b → differ (x % 2) (b % 2) ≡ differ (y % 2) (b % 2)
    low h = omega (
      arith,
      bit_xor_step x b,
      bit_xor_step y b,
      differ-le (x % 2) (b % 2) (omega arith) (omega arith),
      differ-le (y % 2) (b % 2) (omega arith) (omega arith),
    )

    high : bit_xor x b ≡ bit_xor y b → bit_xor (x / 2) (b / 2) ≡ bit_xor (y / 2) (b / 2)
    high h = omega (
      arith,
      bit_xor_step x b,
      bit_xor_step y b,
      differ-le (x % 2) (b % 2) (omega arith) (omega arith),
      differ-le (y % 2) (b % 2) (omega arith) (omega arith),
    )

pub bit_xor_cancel : (x y b : ℕ) → bit_xor x b ≡ bit_xor y b → x ≡ y
bit_xor_cancel x y b e =
    bit_xor_cancel_fuel (x + y + b) x y b (omega arith) (omega arith) (omega arith) e

differ_comm : (x y : ℕ) → x < 2 → y < 2 → differ x y ≡ differ y x
differ_comm zero zero p q = refl
differ_comm zero (suc y) p q = refl
differ_comm (suc x) zero p q = refl
differ_comm (suc zero) (suc zero) p q = refl
differ_comm (suc zero) (suc (suc y)) p q = absurd (omega arith)
differ_comm (suc (suc x)) (suc y) p q = absurd (omega arith)

bit_xor_comm_fuel : (n a b : ℕ) → a ≤ n → b ≤ n → bit_xor a b ≡ bit_xor b a
bit_xor_comm_fuel zero zero zero p q = refl
bit_xor_comm_fuel zero zero (suc b) p q = absurd (omega arith)
bit_xor_comm_fuel zero (suc a) b p q = absurd (omega arith)
bit_xor_comm_fuel (suc n) a b p q = omega (
  arith,
  bit_xor_step a b,
  bit_xor_step b a,
  differ_comm (a % 2) (b % 2) (omega arith) (omega arith),
  bit_xor_comm_fuel n (a / 2) (b / 2) (omega arith) (omega arith),
)

pub bit_xor_comm : (a b : ℕ) → bit_xor a b ≡ bit_xor b a
bit_xor_comm a b = bit_xor_comm_fuel (a + b) a b (omega arith) (omega arith)

-- The left operand cancels.
pub bit_xor_cancel_left : (a x y : ℕ) → bit_xor a x ≡ bit_xor a y → x ≡ y
bit_xor_cancel_left a x y e = bit_xor_cancel x y a (bit_xor_comm x a ∙ e ∙ bit_xor_comm a y)
