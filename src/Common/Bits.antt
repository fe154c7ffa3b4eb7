-- ===== src/Common/Bits.antt =====
-- C's `|` of a number with some low digits clear and a number of those digits.
use Prim.Native.Nat.{
  ℕ, zero, suc, ◌+◌, ◌*◌, ◌/◌, ◌%◌, ◌≤◌, ◌<◌, max, digits, bit_or, bit_or-bitwise,
}
use mathlib.Core.Path.{◌≡◌, refl, ap, ◌∙◌}
use native.Mathlib.Omega.{arith}

abbrev or_digits : ℕ → ℕ → ℕ → ℕ
or_digits n a b = digits (λ b. b) max n a b

or_digits_fuel : (n m a b : ℕ) → a ≤ n → a ≤ m → or_digits n a b ≡ or_digits m a b
or_digits_fuel zero zero a b p q = refl
or_digits_fuel zero (suc m) zero b p q = refl
or_digits_fuel zero (suc m) (suc a) b p q = absurd (omega arith)
or_digits_fuel (suc n) zero zero b p q = refl
or_digits_fuel (suc n) zero (suc a) b p q = absurd (omega arith)
or_digits_fuel (suc n) (suc m) zero b p q = refl
or_digits_fuel (suc n) (suc m) (suc a) b p q =
    omega (arith, or_digits_fuel n m (suc a / 2) (b / 2) (omega arith) (omega arith))

zero-bit_or : (b : ℕ) → bit_or 0 b ≡ b
zero-bit_or b = bit_or-bitwise 0 b

pub bit_or_step : (a b : ℕ) → bit_or a b ≡ bit_or (a / 2) (b / 2) * 2 + max (a % 2) (b % 2)
bit_or_step zero b = omega (arith, zero-bit_or b, zero-bit_or (b / 2))
bit_or_step (suc a) b = omega (
  arith,
  bit_or-bitwise (suc a) b,
  bit_or-bitwise (suc a / 2) (b / 2),
  or_digits_fuel a (suc a / 2) (suc a / 2) (b / 2) (omega arith) (omega arith),
)

bit_or-zero_fuel : (n a : ℕ) → a ≤ n → bit_or a 0 ≡ a
bit_or-zero_fuel n zero h = refl
bit_or-zero_fuel zero (suc a) h = absurd (omega arith)
bit_or-zero_fuel (suc n) (suc a) h =
    omega (arith, bit_or_step (suc a) 0, bit_or-zero_fuel n (suc a / 2) (omega arith))

pub bit_or-zero : (a : ℕ) → bit_or a 0 ≡ a
bit_or-zero a = bit_or-zero_fuel a a (omega arith)

-- `a` with `k` clear digits behind it.
abbrev pub shifted : ℕ → ℕ → ℕ
shifted zero a = a
shifted (suc k) a = 2 * shifted k a

abbrev pub power : ℕ → ℕ
power zero = 1
power (suc k) = 2 * power k

pub bit_or-shifted : (k a b : ℕ) → b < power k → bit_or (shifted k a) b ≡ shifted k a + b
bit_or-shifted zero a zero h = omega (arith, bit_or-zero a)
bit_or-shifted zero a (suc b) h = absurd (omega arith)
bit_or-shifted (suc k) a b h =
    let half : 2 * shifted k a / 2 ≡ shifted k a = omega arith in
    omega (
      arith,
      bit_or_step (2 * shifted k a) b,
      ap (λ x. bit_or x (b / 2)) half,
      bit_or-shifted k a (b / 2) (omega arith),
    )

-- A page's address and twelve digits of flags.
pub bit_or-page : (a b : ℕ) → b < 4096 → bit_or (a * 4096) b ≡ a * 4096 + b
bit_or-page a b h =
    let e : a * 4096 ≡ shifted 12 a = omega arith in
    ap (λ x. bit_or x b) e ∙ bit_or-shifted 12 a b (omega arith) ∙ omega arith

pub bit_or-one : (x : ℕ) → bit_or x 1 ≡ x / 2 * 2 + 1
bit_or-one x = omega (arith, bit_or_step x 1, bit_or-zero (x / 2))

-- A page's address with the digits 0 and 1 set.
pub bit_or-page_link : (a : ℕ) → bit_or (bit_or (a * 4096) 1) 2 ≡ a * 4096 + 3
bit_or-page_link a =
    let half : (a * 4096 + 1) / 2 ≡ a * 2048 = omega arith in
    ap (λ x. bit_or x 2) (bit_or-page a 1 (omega arith))
    ∙ omega (arith, bit_or_step (a * 4096 + 1) 2, ap (λ x. bit_or x 1) half, bit_or-one (a * 2048))

-- The same with the low digits on the left.
pub bit_or_low-shifted : (k a b : ℕ) → b < power k → bit_or b (shifted k a) ≡ b + shifted k a
bit_or_low-shifted zero a zero h = omega (arith, zero-bit_or a)
bit_or_low-shifted zero a (suc b) h = absurd (omega arith)
bit_or_low-shifted (suc k) a b h =
    let half : 2 * shifted k a / 2 ≡ shifted k a = omega arith in
    omega (
      arith,
      bit_or_step b (2 * shifted k a),
      ap (λ x. bit_or (b / 2) x) half,
      bit_or_low-shifted k a (b / 2) (omega arith),
    )

-- A low byte and a high byte.
pub bit_or-bytes : (a b : ℕ) → b < 256 → bit_or b (a * 256) ≡ b + a * 256
bit_or-bytes a b h =
    let e : a * 256 ≡ shifted 8 a = omega arith in
    ap (λ x. bit_or b x) e ∙ bit_or_low-shifted 8 a b (omega arith) ∙ omega arith
