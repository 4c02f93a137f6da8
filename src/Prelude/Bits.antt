-- ===== src/Prelude/Bits.antt =====
-- When `|` and `^` of numbers are zero, at every width.
use Prim.Native.Nat.{
  ℕ, zero, suc, ◌+◌, ◌*◌, ◌/◌, ◌%◌, ◌≤◌, ◌<◌, ◌^◌, max, differ, bit_or, bit_xor, digits,
  bit_or-bitwise, bit_xor-bitwise,
}
use mathlib.Core.Path.{◌≡◌, refl, ap}
use native.Mathlib.Nat.{pow-suc}
use native.Mathlib.Omega.{arith}

-- The fuel of the digit recursion does not matter once it covers the first argument.
module _ (z : ℕ → ℕ) (f : ℕ → ℕ → ℕ) where
  digits_enough : (a b k l : ℕ) → a ≤ k → a ≤ l → digits z f k a b ≡ digits z f l a b
  digits_enough zero b zero zero u v = refl
  digits_enough zero b zero (suc l) u v = refl
  digits_enough zero b (suc k) zero u v = refl
  digits_enough zero b (suc k) (suc l) u v = refl
  digits_enough (suc a) b zero l u v = absurd (omega arith)
  digits_enough (suc a) b (suc k) zero u v = absurd (omega arith)
  digits_enough (suc a) b (suc k) (suc l) u v =
      ap (λ (t : ℕ). t * 2 + f (suc a % 2) (b % 2))
        (digits_enough (suc a / 2) (b / 2) k l (omega arith) (omega arith))

or_digit : (a b : ℕ) → bit_or (suc a) b ≡ bit_or (suc a / 2) (b / 2) * 2 + max (suc a % 2) (b % 2)
or_digit a b = omega (
  arith,
  bit_or-bitwise (suc a) b,
  bit_or-bitwise (suc a / 2) (b / 2),
  digits_enough (λ y. y) max (suc a / 2) (b / 2) (suc a / 2) a (omega arith) (omega arith),
)

xor_digit :
    (a b : ℕ) → bit_xor (suc a) b ≡ bit_xor (suc a / 2) (b / 2) * 2 + differ (suc a % 2) (b % 2)
xor_digit a b = omega (
  arith,
  bit_xor-bitwise (suc a) b,
  bit_xor-bitwise (suc a / 2) (b / 2),
  digits_enough (λ y. y) differ (suc a / 2) (b / 2) (suc a / 2) a (omega arith) (omega arith),
)

differ-zero : (a b : ℕ) → differ a b ≡ 0 → a ≡ b
differ-zero zero b e = omega (arith, e)
differ-zero (suc a) zero e = absurd (omega (arith, e))
differ-zero (suc a) (suc b) e = ap suc (differ-zero a b e)

differ_self : (a : ℕ) → differ a a ≡ 0
differ_self zero = refl
differ_self (suc a) = differ_self a

or_zero_fuel : (n a b : ℕ) → a ≤ n → bit_or a b ≡ 0 → (a ≡ 0) × (b ≡ 0)
or_zero_fuel n zero b h e = (refl, omega (arith, bit_or-bitwise 0 b, e))
or_zero_fuel zero (suc a) b h e = absurd (omega arith)
or_zero_fuel (suc n) (suc a) b h e =
    let ih = or_zero_fuel n (suc a / 2) (b / 2) (omega arith) (omega (arith, or_digit a b)) in
    (omega (arith, or_digit a b, ih), omega (arith, or_digit a b, ih))

pub bit_or-zero : (a b : ℕ) → bit_or a b ≡ 0 → (a ≡ 0) × (b ≡ 0)
bit_or-zero a b = or_zero_fuel a a b (omega arith)

xor_zero_fuel : (n a b : ℕ) → a ≤ n → bit_xor a b ≡ 0 → a ≡ b
xor_zero_fuel n zero b h e = omega (arith, bit_xor-bitwise 0 b, e)
xor_zero_fuel zero (suc a) b h e = absurd (omega arith)
xor_zero_fuel (suc n) (suc a) b h e =
    let ih = xor_zero_fuel n (suc a / 2) (b / 2) (omega arith) (omega (arith, xor_digit a b)) in
    omega (arith, ih, differ-zero (suc a % 2) (b % 2) (omega (arith, xor_digit a b, e)))

pub bit_xor-zero : (a b : ℕ) → bit_xor a b ≡ 0 → a ≡ b
bit_xor-zero a b = xor_zero_fuel a a b (omega arith)

xor_self_fuel : (n a : ℕ) → a ≤ n → bit_xor a a ≡ 0
xor_self_fuel n zero h = refl
xor_self_fuel zero (suc a) h = absurd (omega arith)
xor_self_fuel (suc n) (suc a) h =
    omega (
      arith,
      xor_digit a (suc a),
      xor_self_fuel n (suc a / 2) (omega arith),
      differ_self (suc a % 2),
    )

pub bit_xor_self : (a : ℕ) → bit_xor a a ≡ 0
bit_xor_self a = xor_self_fuel a a (omega arith)

differ-le-one : (a b : ℕ) → a ≤ 1 → b ≤ 1 → differ a b ≤ 1
differ-le-one zero b p q = q
differ-le-one (suc a) zero p q = p
differ-le-one (suc zero) (suc zero) p q = omega arith
differ-le-one (suc zero) (suc (suc b)) p q = absurd (omega arith)
differ-le-one (suc (suc a)) (suc b) p q = absurd (omega arith)

-- `^` of two numbers of `k` bits has `k` bits.
pub bit_xor-lt : (k a b : ℕ) → a < 2 ^ k → b < 2 ^ k → bit_xor a b < 2 ^ k
bit_xor-lt k zero b p q = omega (arith, bit_xor-bitwise 0 b)
bit_xor-lt zero (suc a) b p q = absurd (omega arith)
bit_xor-lt (suc k) (suc a) b p q = omega (
  arith,
  xor_digit a b,
  pow-suc 2 k,
  bit_xor-lt k (suc a / 2) (b / 2) (omega (arith, pow-suc 2 k)) (omega (arith, pow-suc 2 k)),
  differ-le-one (suc a % 2) (b % 2) (omega arith) (omega arith),
)
