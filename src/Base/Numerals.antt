-- ===== src/Base/Numerals.antt =====
-- Numbers that are written in hexadecimal digits and read again.
use Prim.Native.Nat.{ℕ, zero, suc, ◌+◌, ◌-◌, ◌*◌, ◌/◌, ◌%◌, ◌^◌, ◌≤◌, ◌<◌}
use mathlib.Core.Path.{◌≡◌, refl, ◌∙◌, ap}
use mathlib.Core.Logic.{inl, inr}
use mathlib.Core.Bool.{Bool, true, false, ◌&&◌}
use mathlib.Core.List.{List, [], ◌∷◌, ◌++◌, append_assoc}
use mathlib.Core.Option.{some}
use native.Mathlib.Omega.{arith}
use native.Mathlib.Nat.{pow-suc}
use navigation_server.Base.Tests.{◌==◌, ltb, Bool-cases, ltb→lt, lt→ltb}
use navigation_server.Base.Lists.{length, replicate, length-append}
use navigation_server.Base.Texts.{
  digit_value, read_digits, read_signed, int_of, lstrip, rstrip, nonneg, upper_digit, lower_digit,
  digits_within, upper_hex, pad, is_space,
}

-- A character that stands for a digit.
abbrev pub IsDigit : ℕ → ℕ → Type 0
IsDigit c d =
    (is_space c ≡ false)
    × ((c == 45) ≡ false)
    × ((c == 43) ≡ false)
    × ((c == 120) ≡ false)
    × ((c == 88) ≡ false)
    × (digit_value c ≡ some d)
    × (ltb d 16 ≡ true)

pub upper_digit-IsDigit : (d : ℕ) → d < 16 → IsDigit (upper_digit d) d
unfolding digit_value
upper_digit-IsDigit d h = (
  ground arith,
  ground arith,
  ground arith,
  ground arith,
  ground arith,
  ground arith,
  ground arith,
)

pub lower_digit-IsDigit : (d : ℕ) → d < 16 → IsDigit (lower_digit d) d
unfolding digit_value
lower_digit-IsDigit d h = (
  ground arith,
  ground arith,
  ground arith,
  ground arith,
  ground arith,
  ground arith,
  ground arith,
)

abbrev pub AllDigits : List ℕ → List ℕ → Type 0
AllDigits [] [] = Unit
AllDigits [] (d ∷ ds) = ⊥
AllDigits (c ∷ cs) [] = ⊥
AllDigits (c ∷ cs) (d ∷ ds) = IsDigit c d × AllDigits cs ds

abbrev pub value : ℕ → List ℕ → ℕ
value acc [] = acc
value acc (d ∷ ds) = value (acc * 16 + d) ds

read_digits-all :
    (acc : ℕ) (cs ds : List ℕ) → AllDigits cs ds → read_digits 16 true acc cs ≡ some (value acc ds)
unfolding read_digits
read_digits-all acc [] [] h = refl
read_digits-all acc [] (d ∷ ds) h = absurd h
read_digits-all acc (c ∷ cs) [] h = absurd h
read_digits-all acc (c ∷ cs) (d ∷ ds) (first, rest) =
    rw (first.5, read_digits) (rw first.6 (read_digits-all (acc * 16 + d) cs ds rest))

rstrip-all : (cs ds : List ℕ) → AllDigits cs ds → rstrip cs ≡ cs
unfolding rstrip
rstrip-all [] [] h = refl
rstrip-all [] (d ∷ ds) h = absurd h
rstrip-all (c ∷ cs) [] h = absurd h
rstrip-all (c ∷ []) (d ∷ []) (first, rest) = rw first.0 refl
rstrip-all (c ∷ []) (d ∷ e ∷ ds) (first, rest) = absurd rest
rstrip-all (c ∷ b ∷ cs) (d ∷ []) (first, rest) = absurd rest
rstrip-all (c ∷ b ∷ cs) (d ∷ e ∷ ds) (first, rest) = rw (rstrip-all (b ∷ cs) (e ∷ ds) rest) refl

and_false : (b : Bool) → (b && false) ≡ false
and_false true = refl
and_false false = refl

-- A text of digits alone is read as the number that they are.
pub int_of-digits :
    (a b : ℕ) (cs : List ℕ) (x y : ℕ) (ds : List ℕ)
    → AllDigits (a ∷ b ∷ cs) (x ∷ y ∷ ds)
    → int_of 16 (a ∷ b ∷ cs) ≡ some (nonneg (value 0 (x ∷ y ∷ ds)))
unfolding int_of lstrip read_signed read_digits
int_of-digits a b cs x y ds (first, (second, rest)) =
    let whole = rstrip-all (a ∷ b ∷ cs) (x ∷ y ∷ ds) (first, (second, rest)) in
    let more = read_digits-all (0 * 16 + x) (b ∷ cs) (y ∷ ds) (second, rest) in
    let no_prefix = and_false (a == 48) in
    rw first.0 (
      rw whole (
        rw (first.1, first.2, second.3, second.4)
          (rw no_prefix (rw (first.5, read_digits) (rw first.6 (rw more refl))))))

-- The last `k` digits of a number.
abbrev pub fixed : ℕ → ℕ → List ℕ
fixed zero n = []
fixed (suc k) n = fixed k (n / 16) ++ upper_digit (n % 16) ∷ []

replicate-last : (k c : ℕ) → replicate k c ++ c ∷ [] ≡ c ∷ replicate k c
replicate-last zero c = refl
replicate-last (suc k) c = ap (λ (l : List ℕ). c ∷ l) (replicate-last k c)

fixed-zero : (k : ℕ) → fixed k 0 ≡ replicate k 48
fixed-zero zero = refl
fixed-zero (suc k) = rw (fixed-zero k) (replicate-last k 48)

padded_one : (k n : ℕ) → n < 16 → pad 48 (suc k) (upper_digit n ∷ []) ≡ fixed (suc k) n
padded_one k n h =
    let count : suc k - 1 ≡ k = omega arith in
    let high : n / 16 ≡ 0 = omega arith in
    let low : n % 16 ≡ n = omega arith in
    rw (high, low, fixed-zero k) (ap (λ (j : ℕ). replicate j 48 ++ upper_digit n ∷ []) count)

pad-last : (k c x : ℕ) (text : List ℕ) → pad c (suc k) (text ++ x ∷ []) ≡ pad c k text ++ x ∷ []
pad-last k c x text =
    let size = length-append text (x ∷ []) in
    let count : suc k - length (text ++ x ∷ []) ≡ k - length text = omega (arith, size) in
    ap (λ (j : ℕ). replicate j c ++ (text ++ x ∷ [])) count ∙ rw append_assoc refl

padded :
    (k fuel n : ℕ)
    → n ≤ fuel
    → n < 16 ^ suc k
    → pad 48 (suc k) (digits_within fuel 16 upper_digit n) ≡ fixed (suc k) n
unfolding digits_within
padded k zero n le small = padded_one k n (omega arith)
padded zero (suc fuel) n le small =
    let one : n < 16 = omega (arith, small, pow-suc 16 0) in
    rw (lt→ltb n 16 one) (padded_one 0 n one)
padded (suc k) (suc fuel) n le small = elim (Bool-cases (ltb n 16)) [
  | inl one ↦ rw one (padded_one (suc k) n (ltb→lt n 16 one))
  | inr more ↦
      let less : n / 16 < 16 ^ suc k = omega (arith, small, pow-suc 16 (suc k)) in
      let fewer : n / 16 ≤ fuel = omega arith in
      rw more (
        pad-last (suc k) 48 (upper_digit (n % 16)) (digits_within fuel 16 upper_digit (n / 16))
        ∙ ap (λ (l : List ℕ). l ++ upper_digit (n % 16) ∷ []) (padded k fuel (n / 16) fewer less))
]

-- `%0kX` of a number that fits
pub upper_hex-fixed : (k n : ℕ) → n < 16 ^ suc k → pad 48 (suc k) (upper_hex n) ≡ fixed (suc k) n
upper_hex-fixed k n small = padded k n n (omega arith) small
