-- ===== src/Base/Decimals.antt =====
-- Decimal numbers between separators, as `%d`, `split` and `int` treat them.
use Prim.Native.Nat.{ℕ, zero, suc, ◌+◌, ◌*◌, ◌/◌, ◌%◌, ◌≤◌, ◌<◌}
use mathlib.Core.Path.{◌≡◌, refl, ap, sym, ◌∙◌}
use mathlib.Core.Logic.{inl, inr}
use mathlib.Core.Bool.{Bool, true, false}
use mathlib.Core.List.{List, [], ◌∷◌, ◌++◌, append_assoc, append-nil}
use mathlib.Core.Option.{Option, none, some}
use native.Mathlib.Omega.{arith}
use navigation_server.Base.Tests.{◌==◌, ltb, ==_refl, Bool-cases, ltb→lt, lt→ltb, if◌then◌else◌}
use navigation_server.Base.Texts.{
  split, is_space, lstrip, rstrip, read_digits, PyInt, nonneg, read_signed, int_of, upper_digit,
  digits_within, decimal,
}
use navigation_server.Base.Numerals.{upper_digit-IsDigit}

-- A text without a separator.
abbrev pub Lacks : ℕ → List ℕ → Type 0
Lacks c [] = Unit
Lacks c (x ∷ xs) = ((x == c) ≡ false) × Lacks c xs

pub split-field : (c : ℕ) (xs ys : List ℕ) → Lacks c xs → split c (xs ++ c ∷ ys) ≡ xs ∷ split c ys
unfolding split
split-field c [] ys h = rw (==_refl c) refl
split-field c (x ∷ xs) ys (first, rest) = rw (first, split-field c xs ys rest) refl

pub split_last : (c : ℕ) (xs : List ℕ) → Lacks c xs → split c xs ≡ xs ∷ []
unfolding split
split_last c [] h = refl
split_last c (x ∷ xs) (first, rest) = rw (first, split_last c xs rest) refl

-- Decimal digits only, and at least one.
abbrev pub AllDecimal : List ℕ → Type 0
AllDecimal [] = Unit
AllDecimal (x ∷ xs) = (48 ≤ x) × (x ≤ 57) × AllDecimal xs

AllDecimal-append : (xs ys : List ℕ) → AllDecimal xs → AllDecimal ys → AllDecimal (xs ++ ys)
AllDecimal-append [] ys h k = k
AllDecimal-append (x ∷ xs) ys (low, high, h) k = (low, high, AllDecimal-append xs ys h k)

lowest : (d : ℕ) → d < 10 → AllDecimal (upper_digit d ∷ [])
lowest d h = (ground arith, ground arith, tt)

digits-AllDecimal : (fuel n : ℕ) → n ≤ fuel → AllDecimal (digits_within fuel 10 upper_digit n)
unfolding digits_within
digits-AllDecimal zero n h = lowest n (omega (arith, h))
digits-AllDecimal (suc fuel) n h = elim (Bool-cases (ltb n 10)) [
  | inl small ↦ rw small (omega arith, omega (arith, ltb→lt n 10 small), tt)
  | inr big ↦ rw big (
      AllDecimal-append (digits_within fuel 10 upper_digit (n / 10)) (upper_digit (n % 10) ∷ [])
        (digits-AllDecimal fuel (n / 10) (ground arith)) (lowest (n % 10) (omega arith)))
]

read-digit :
    (acc d : ℕ) (after : Bool) (rest : List ℕ)
    → d < 10
    → read_digits 10 after acc (upper_digit d ∷ rest) ≡ read_digits 10 true (acc * 10 + d) rest
unfolding read_digits
read-digit acc d after rest h =
    rw ((upper_digit-IsDigit d (omega (arith, h))).5, read_digits) (rw (lt→ltb d 10 h) refl)

read-digits :
    (fuel n : ℕ) (after : Bool) (rest : List ℕ)
    → n ≤ fuel
    → read_digits 10 after 0 (digits_within fuel 10 upper_digit n ++ rest)
      ≡ read_digits 10 true n rest
unfolding digits_within
read-digits zero n after rest h =
    read-digit 0 n after rest (omega (arith, h))
    ∙ ap (λ (k : ℕ). read_digits 10 true k rest) (omega arith)
read-digits (suc fuel) n after rest h = elim (Bool-cases (ltb n 10)) [
  | inl small ↦
      ap
        (λ b. read_digits 10 after 0 (
          (if b
            then upper_digit n ∷ []
            else digits_within fuel 10 upper_digit (n / 10) ++ upper_digit (n % 10) ∷ [])
          ++ rest))
        small
      ∙ read-digit 0 n after rest (ltb→lt n 10 small)
      ∙ ap (λ (k : ℕ). read_digits 10 true k rest) (omega arith)
  | inr big ↦
      let whole : n / 10 * 10 + n % 10 ≡ n = omega arith in
      let some_left : n / 10 ≤ fuel = ground arith in
      rw big (
        ap (read_digits 10 after 0) (
          append_assoc (digits_within fuel 10 upper_digit (n / 10)) (upper_digit (n % 10) ∷ [])
            rest)
        ∙ read-digits fuel (n / 10) after (upper_digit (n % 10) ∷ rest) some_left
        ∙ read-digit (n / 10) (n % 10) true rest (omega arith)
        ∙ ap (λ (k : ℕ). read_digits 10 true k rest) whole)
]

-- Decimal digits are no spaces, signs or separators.
rstrip-decimal : (xs : List ℕ) → AllDecimal xs → rstrip xs ≡ xs
unfolding rstrip
rstrip-decimal [] h = refl
rstrip-decimal (x ∷ []) (low, high, h) = ground arith
rstrip-decimal (x ∷ y ∷ xs) (low, high, h) = rw (rstrip-decimal (y ∷ xs) h) refl

abbrev signed : Option ℕ → Option PyInt
signed none = none
signed (some n) = some (nonneg n)

decimal-text :
    (x : ℕ) (xs : List ℕ)
    → AllDecimal (x ∷ xs)
    → int_of 10 (x ∷ xs) ≡ signed (read_digits 10 false 0 (x ∷ xs))
unfolding int_of lstrip read_signed
decimal-text x [] (low, high, h) =
    let space : is_space x ≡ false = ground arith in
    let minus : (x == 45) ≡ false = ground arith in
    let plus : (x == 43) ≡ false = ground arith in
    rw space (rw (rstrip-decimal (x ∷ []) (low, high, h)) (rw (minus, plus) refl))
decimal-text x (y ∷ xs) (low, high, h) =
    let space : is_space x ≡ false = ground arith in
    let minus : (x == 45) ≡ false = ground arith in
    let plus : (x == 43) ≡ false = ground arith in
    rw space (rw (rstrip-decimal (x ∷ y ∷ xs) (low, high, h)) (rw (minus, plus) refl))

pub Lacks-decimal : (xs : List ℕ) → AllDecimal xs → Lacks 44 xs
Lacks-decimal [] h = tt
Lacks-decimal (x ∷ xs) (low, high, h) = (ground arith, Lacks-decimal xs h)

pub decimal-Lacks : (n : ℕ) → Lacks 44 (decimal n)
decimal-Lacks n = Lacks-decimal (decimal n) (digits-AllDecimal n n (omega arith))

int_of_text :
    (xs : List ℕ) (n : ℕ)
    → AllDecimal xs
    → read_digits 10 false 0 xs ≡ some n
    → int_of 10 xs ≡ some (nonneg n)
unfolding read_digits
int_of_text [] n h e = cc
int_of_text (x ∷ xs) n h e = decimal-text x xs h ∙ ap signed e

pub int_of-decimal : (n : ℕ) → int_of 10 (decimal n) ≡ some (nonneg n)
unfolding read_digits
int_of-decimal n = int_of_text (decimal n) n (digits-AllDecimal n n (omega arith)) (
    ap (read_digits 10 false 0) (sym (append-nil (decimal n)))
    ∙ read-digits n n false [] (omega arith))

pub next_field :
    (n : ℕ) (rest : List ℕ) (fields : List (List ℕ))
    → split 44 rest ≡ fields
    → split 44 (decimal n ++ 44 ∷ rest) ≡ decimal n ∷ fields
next_field n rest fields e =
    split-field 44 (decimal n) rest (decimal-Lacks n)
    ∙ ap (λ (fs : List (List ℕ)). decimal n ∷ fs) e

pub Lacks-append : (c : ℕ) (xs ys : List ℕ) → Lacks c xs → Lacks c ys → Lacks c (xs ++ ys)
Lacks-append c [] ys h k = k
Lacks-append c (x ∷ xs) ys (first, rest) k = (first, Lacks-append c xs ys rest k)
