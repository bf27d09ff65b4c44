-- ===== src/Base/Bits.antt =====
-- `&`, `|`, `^` and the shifts of Python, as arithmetic at every width.
mod Digit
pub mod Xor
use Prim.Native.Nat.{
  ℕ, zero, suc, ◌+◌, ◌-◌, ◌*◌, ◌/◌, ◌%◌, ◌^◌, ◌≤◌, ◌<◌, min, max, bit_and, bit_or, bit_or-bitwise,
}
use mathlib.Core.Path.{◌≡◌, refl, ap, sym, ◌∙◌}
use native.Mathlib.Omega.{arith}
use native.Mathlib.Nat.{
  pow-suc, one-le-pow, div-div-eq-div-mul, mod-eq-sub-div-mul, div-mul-le_self,
}
use Digit.{and_digit, or_digit, same_digits}

infixl 60 ◌<<◌ ◌>>◌
abbrev pub ◌<<◌ : ℕ → ℕ → ℕ
x << k = x * 2 ^ k

abbrev pub ◌>>◌ : ℕ → ℕ → ℕ
x >> k = x / 2 ^ k

and-zero_upto : (n a : ℕ) → a ≤ n → bit_and a 0 ≡ 0
and-zero_upto n a le =
    same_digits (λ x. bit_and x 0) (λ x. 0) (λ x. 0) (λ x. omega (arith, and_digit x 0))
      (λ x. omega arith) refl n a le

pub and-zero : (a : ℕ) → bit_and a 0 ≡ 0
and-zero a = and-zero_upto a a (omega arith)

pub or-zero : (a : ℕ) → bit_or a 0 ≡ a
or-zero a =
    same_digits (λ x. bit_or x 0) (λ x. x) (λ x. x % 2) (λ x. omega (arith, or_digit x 0))
      (λ x. omega arith) refl a a (omega arith)

pub zero-or : (a : ℕ) → bit_or 0 a ≡ a
zero-or a = simp bit_or-bitwise

double_pow : (q k : ℕ) → q * 2 ^ suc k ≡ 2 * (q * 2 ^ k)
double_pow q k = omega (arith, ap (λ (t : ℕ). q * t) (pow-suc 2 k))

half_double : (m k : ℕ) → m * 2 ^ suc k / 2 ≡ m * 2 ^ k
half_double m k = omega (arith, double_pow m k)

half_div : (a k : ℕ) → a / 2 / 2 ^ k ≡ a / 2 ^ suc k
half_div a k = div-div-eq-div-mul a 2 (2 ^ k) ∙ ap (λ (t : ℕ). a / t) (omega (arith, pow-suc 2 k))

-- A mask that is shifted by k ignores the k low bits.
pub and_shifted_mask : (k a m : ℕ) → bit_and a (m * 2 ^ k) ≡ bit_and (a / 2 ^ k) m * 2 ^ k
and_shifted_mask zero a m = ground arith
and_shifted_mask (suc k) a m = omega (
  arith,
  and_digit a (m * 2 ^ suc k),
  double_pow m k,
  double_pow (bit_and (a / 2 ^ suc k) m) k,
  ap (λ (t : ℕ). bit_and (a / 2) t) (half_double m k),
  ap (λ (t : ℕ). bit_and t m * 2 ^ k) (half_div a k),
  and_shifted_mask k (a / 2) m,
)

half_mask : (k : ℕ) → (2 ^ suc k - 1) / 2 ≡ 2 ^ k - 1
half_mask k = omega (arith, pow-suc 2 k, one-le-pow k 2)

half_mod : (a k : ℕ) → a % 2 ^ suc k ≡ 2 * (a / 2 % 2 ^ k) + a % 2
half_mod a k = omega (
  arith,
  mod-eq-sub-div-mul a (2 ^ suc k),
  mod-eq-sub-div-mul (a / 2) (2 ^ k),
  div-mul-le_self (a / 2) (2 ^ k),
  half_div a k,
  double_pow (a / 2 ^ suc k) k,
  ap (λ (t : ℕ). t * 2 ^ k) (half_div a k),
)

-- The mask of the k low bits is the remainder by 2 ^ k.
pub and_low_mask : (k a : ℕ) → bit_and a (2 ^ k - 1) ≡ a % 2 ^ k
and_low_mask zero a = omega (arith, and-zero a)
and_low_mask (suc k) a = omega (
  arith,
  and_digit a (2 ^ suc k - 1),
  pow-suc 2 k,
  one-le-pow k 2,
  ap (λ (t : ℕ). bit_and (a / 2) t) (half_mask k),
  and_low_mask k (a / 2),
  half_mod a k,
)

-- Fields that do not overlap are put together by a sum.
pub or_fields : (k q r : ℕ) → r < 2 ^ k → bit_or (q * 2 ^ k) r ≡ q * 2 ^ k + r
or_fields zero q r fits = ground (arith, or-zero q)
or_fields (suc k) q r fits = ground (
  arith,
  or_digit (q * 2 ^ suc k) r,
  double_pow q k,
  or_fields k q (r / 2) (omega (arith, pow-suc 2 k)),
)

or_comm_upto : (n a b : ℕ) → a ≤ n → b ≤ n → bit_or a b ≡ bit_or b a
or_comm_upto n zero b la lb = zero-or b ∙ sym (or-zero b)
or_comm_upto n (suc a) zero la lb = or-zero (suc a) ∙ sym (zero-or (suc a))
or_comm_upto zero (suc a) (suc b) la lb = absurd (omega arith)
or_comm_upto (suc n) (suc a) (suc b) la lb = omega (
  arith,
  or_digit (suc a) (suc b),
  or_digit (suc b) (suc a),
  or_comm_upto n (suc a / 2) (suc b / 2) (omega arith) (omega arith),
)

pub or_comm : (a b : ℕ) → bit_or a b ≡ bit_or b a
or_comm a b = or_comm_upto (a + b) a b (omega arith) (omega arith)

-- The low field first.
pub or_fields_low : (k q r : ℕ) → r < 2 ^ k → bit_or r (q * 2 ^ k) ≡ q * 2 ^ k + r
or_fields_low k q r fits = or_comm r (q * 2 ^ k) ∙ or_fields k q r fits

-- The mask of m bits above k low ones.
pub and_high_mask : (k m a : ℕ) → bit_and a ((2 ^ m - 1) * 2 ^ k) ≡ a / 2 ^ k % 2 ^ m * 2 ^ k
and_high_mask k m a =
    and_shifted_mask k a (2 ^ m - 1) ∙ ap (λ (t : ℕ). t * 2 ^ k) (and_low_mask m (a / 2 ^ k))
