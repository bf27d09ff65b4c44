-- ===== src/Base/Bits/Xor.antt =====
-- The laws of `^`, by strong induction on the digits.
use Prim.Native.Nat.{ℕ, zero, suc, ◌+◌, ◌/◌, ◌^◌, ◌≤◌, ◌<◌, bit_xor, bit_xor-bitwise}
use mathlib.Core.Path.{◌≡◌, refl, ap, sym, ◌∙◌}
use native.Mathlib.Omega.{arith}
use native.Mathlib.Nat.{pow-suc}
use navigation_server.Base.Bits.Digit.{xor_digit}

xor-zero_upto : (n a : ℕ) → a ≤ n → bit_xor a 0 ≡ a
xor-zero_upto n zero le = refl
xor-zero_upto zero (suc a) le = absurd (omega arith)
xor-zero_upto (suc n) (suc a) le =
    omega (arith, xor_digit (suc a) 0, xor-zero_upto n (suc a / 2) (omega arith))

pub xor-zero : (a : ℕ) → bit_xor a 0 ≡ a
xor-zero a = xor-zero_upto a a (omega arith)

pub zero-xor : (a : ℕ) → bit_xor 0 a ≡ a
zero-xor a = simp bit_xor-bitwise

xor_comm_upto : (n a b : ℕ) → a ≤ n → b ≤ n → bit_xor a b ≡ bit_xor b a
xor_comm_upto n zero b la lb = zero-xor b ∙ sym (xor-zero b)
xor_comm_upto n (suc a) zero la lb = xor-zero (suc a) ∙ sym (zero-xor (suc a))
xor_comm_upto zero (suc a) (suc b) la lb = absurd (omega arith)
xor_comm_upto (suc n) (suc a) (suc b) la lb = omega (
  arith,
  xor_digit (suc a) (suc b),
  xor_digit (suc b) (suc a),
  xor_comm_upto n (suc a / 2) (suc b / 2) (omega arith) (omega arith),
)

pub xor_comm : (a b : ℕ) → bit_xor a b ≡ bit_xor b a
xor_comm a b = xor_comm_upto (a + b) a b (omega arith) (omega arith)

-- The halves of a combination are the combinations of the halves.
half-xor : (a b : ℕ) → bit_xor a b / 2 ≡ bit_xor (a / 2) (b / 2)
half-xor a b = omega (arith, xor_digit a b)

xor_assoc_upto :
    (n a b c : ℕ) → a ≤ n → b ≤ n → c ≤ n → bit_xor (bit_xor a b) c ≡ bit_xor a (bit_xor b c)
xor_assoc_upto zero zero zero zero la lb lc = refl
xor_assoc_upto zero (suc a) b c la lb lc = absurd (omega arith)
xor_assoc_upto zero zero (suc b) c la lb lc = absurd (omega arith)
xor_assoc_upto zero zero zero (suc c) la lb lc = absurd (omega arith)
xor_assoc_upto (suc n) a b c la lb lc =
    let left : bit_xor (bit_xor a b / 2) (c / 2) ≡ bit_xor (bit_xor (a / 2) (b / 2)) (c / 2) =
      ap (λ (t : ℕ). bit_xor t (c / 2)) (half-xor a b) in
    let right : bit_xor (a / 2) (bit_xor b c / 2) ≡ bit_xor (a / 2) (bit_xor (b / 2) (c / 2)) =
      ap (λ (t : ℕ). bit_xor (a / 2) t) (half-xor b c) in
    omega (
      arith,
      xor_digit (bit_xor a b) c,
      xor_digit a (bit_xor b c),
      xor_digit a b,
      xor_digit b c,
      left,
      right,
      xor_assoc_upto n (a / 2) (b / 2) (c / 2) (omega arith) (omega arith) (omega arith),
    )

pub xor_assoc : (a b c : ℕ) → bit_xor (bit_xor a b) c ≡ bit_xor a (bit_xor b c)
xor_assoc a b c = xor_assoc_upto (a + b + c) a b c (omega arith) (omega arith) (omega arith)

xor_self_upto : (n a : ℕ) → a ≤ n → bit_xor a a ≡ 0
xor_self_upto n zero le = refl
xor_self_upto zero (suc a) le = absurd (omega arith)
xor_self_upto (suc n) (suc a) le =
    omega (arith, xor_digit (suc a) (suc a), xor_self_upto n (suc a / 2) (omega arith))

pub xor_self : (a : ℕ) → bit_xor a a ≡ 0
xor_self a = xor_self_upto a a (omega arith)

-- The same number combined twice cancels.
pub xor_cancel : (a b : ℕ) → bit_xor a (bit_xor a b) ≡ b
xor_cancel a b = sym (xor_assoc a a b) ∙ ap (λ (t : ℕ). bit_xor t b) (xor_self a) ∙ zero-xor b

-- Numbers of k bits combine to a number of k bits.
pub xor-lt : (k a b : ℕ) → a < 2 ^ k → b < 2 ^ k → bit_xor a b < 2 ^ k
xor-lt zero zero zero la lb = omega arith
xor-lt zero (suc a) b la lb = absurd (omega arith)
xor-lt zero zero (suc b) la lb = absurd (omega arith)
xor-lt (suc k) a b la lb = omega (
  arith,
  pow-suc 2 k,
  xor_digit a b,
  xor-lt k (a / 2) (b / 2) (omega (arith, pow-suc 2 k)) (omega (arith, pow-suc 2 k)),
)
