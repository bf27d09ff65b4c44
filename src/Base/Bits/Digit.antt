-- ===== src/Base/Bits/Digit.antt =====
-- The native bit operations one binary digit at a time.
use Prim.Native.Nat.{
  ℕ, zero, suc, ◌+◌, ◌*◌, ◌/◌, ◌%◌, ◌≤◌, ◌<◌, min, max, digits, bitwise, differ, bit_and, bit_or,
  bit_xor, bit_and-bitwise, bit_or-bitwise, bit_xor-bitwise,
}
use mathlib.Core.Path.{◌≡◌, refl}
use native.Mathlib.Omega.{arith}

module _ (z : ℕ → ℕ) (f : ℕ → ℕ → ℕ) where
  -- The count of digits to go does not matter once it is large enough.
  enough_digits : (x j k y : ℕ) → x ≤ j → x ≤ k → digits z f j x y ≡ digits z f k x y
  enough_digits zero zero zero y _ _ = refl
  enough_digits zero zero (suc k) y _ _ = refl
  enough_digits zero (suc j) zero y _ _ = refl
  enough_digits zero (suc j) (suc k) y _ _ = refl
  enough_digits (suc x) zero k y low _ = absurd (omega arith)
  enough_digits (suc x) (suc j) zero y _ low = absurd (omega arith)
  enough_digits (suc x) (suc j) (suc k) y lj lk =
      omega (arith, enough_digits (suc x / 2) j k (y / 2) (omega arith) (omega arith))

  bitwise_digit :
      (x y : ℕ)
      → bitwise z f (suc x) y ≡ 2 * bitwise z f (suc x / 2) (y / 2) + f (suc x % 2) (y % 2)
  bitwise_digit x y =
      omega (arith, enough_digits (suc x / 2) x (suc x / 2) (y / 2) (omega arith) (omega arith))

pub and_digit : (x y : ℕ) → bit_and x y ≡ 2 * bit_and (x / 2) (y / 2) + min (x % 2) (y % 2)
and_digit zero y = simp bit_and-bitwise (omega arith)
and_digit (suc x) y = simp bit_and-bitwise (bitwise_digit (λ _. 0) min x y)

pub or_digit : (x y : ℕ) → bit_or x y ≡ 2 * bit_or (x / 2) (y / 2) + max (x % 2) (y % 2)
or_digit zero y = simp bit_or-bitwise (omega arith)
or_digit (suc x) y = simp bit_or-bitwise (bitwise_digit (λ d. d) max x y)

differ-bits : (p q : ℕ) → p < 2 → q < 2 → differ p q ≡ (p + q) % 2
differ-bits zero q lp lq = omega arith
differ-bits (suc zero) zero lp lq = refl
differ-bits (suc zero) (suc zero) lp lq = refl
differ-bits (suc zero) (suc (suc q)) lp lq = absurd (omega arith)
differ-bits (suc (suc p)) q lp lq = absurd (omega arith)

pub xor_digit : (x y : ℕ) → bit_xor x y ≡ 2 * bit_xor (x / 2) (y / 2) + (x + y) % 2
xor_digit zero y = simp bit_xor-bitwise (omega arith)
xor_digit (suc x) y = simp bit_xor-bitwise (
    omega (
      arith,
      bitwise_digit (λ d. d) differ x y,
      differ-bits (suc x % 2) (y % 2) (omega arith) (omega arith),
    ))

-- Two functions with the same digits and the same value at 0 agree.
pub same_digits :
    (g h d : ℕ → ℕ)
    → ((x : ℕ) → g x ≡ 2 * g (x / 2) + d x)
    → ((x : ℕ) → h x ≡ 2 * h (x / 2) + d x)
    → g 0 ≡ h 0
    → (bound x : ℕ) → x ≤ bound
    → g x ≡ h x
same_digits g h d sg sh base bound zero le = base
same_digits g h d sg sh base zero (suc x) le = absurd (omega arith)
same_digits g h d sg sh base (suc bound) (suc x) le =
    omega
      (arith, sg (suc x), sh (suc x), same_digits g h d sg sh base bound (suc x / 2) (omega arith))
