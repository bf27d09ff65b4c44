-- ===== src/Base/Texts.antt =====
-- Texts as lists of codes: Python's `split`, `index`, `int(text, base)`, and the printing of numbers
-- by `%d`, `%X` and `hex`.
use Prim.Native.Nat.{ℕ, zero, suc, ◌+◌, ◌-◌, ◌*◌, ◌/◌, ◌%◌}
use mathlib.Core.Bool.{Bool, true, false, ◌&&◌, ◌||◌}
use mathlib.Core.List.{List, [], ◌∷◌, ◌++◌}
use mathlib.Core.Option.{Option, none, some}
use navigation_server.Base.Tests.{◌==◌, ltb, leb, if◌then◌else◌}
use navigation_server.Base.Lists.{length, replicate}

-- text.split(separator), for a separator of one byte: never empty.
abbrev pub cons_first : ℕ → List (List ℕ) → List (List ℕ)
cons_first c [] = (c ∷ []) ∷ []
cons_first c (field ∷ fields) = (c ∷ field) ∷ fields

unfoldable pub split : ℕ → List ℕ → List (List ℕ)
split separator [] = [] ∷ []
split separator (c ∷ cs) =
    let rest = split separator cs in if c == separator then [] ∷ rest else cons_first c rest

-- text.index(c), or none where that raises
unfoldable pub index : ℕ → List ℕ → Option ℕ
index c [] = none
index c (x ∷ xs) =
    let rest = index c xs in
    if x == c then some 0 else elim rest [ none ↦ none | some i ↦ some (i + 1) ]

-- Whether two texts are the same.
abbrev pub text_eq : List ℕ → List ℕ → Bool
text_eq [] [] = true
text_eq [] (d ∷ ds) = false
text_eq (c ∷ cs) [] = false
text_eq (c ∷ cs) (d ∷ ds) = (c == d) && text_eq cs ds

abbrev pub is_space : ℕ → Bool
is_space c = (c == 32) || (leb 9 c && leb c 13)

unfoldable pub lstrip : List ℕ → List ℕ
lstrip [] = []
lstrip (c ∷ cs) = let rest = lstrip cs in if is_space c then rest else c ∷ cs

unfoldable pub rstrip : List ℕ → List ℕ
rstrip [] = []
rstrip (c ∷ cs) = elim (rstrip cs) [ [] ↦ if is_space c then [] else c ∷ [] | d ∷ ds ↦ c ∷ d ∷ ds ]

-- The value of a digit, at most 15.
unfoldable pub digit_value : ℕ → Option ℕ
digit_value c =
    if leb 48 c && leb c 57
    then some (c - 48)
    else if leb 65 c && leb c 70
    then some (c - 55)
    else if leb 97 c && leb c 102
    then some (c - 87)
    else none

-- The digits, with single underscores between them; the flag says that a digit stands before.
unfoldable pub read_digits : ℕ → Bool → ℕ → List ℕ → Option ℕ
unfolding digit_value
read_digits base after acc [] = if after then some acc else none
read_digits base after acc (c ∷ cs) =
    let skipped = read_digits base false acc cs in
    elim (digit_value c) [
      | none ↦ if (c == 95) && after then skipped else none
      | some d ↦
          let rest = read_digits base true (acc * base + d) cs in if ltb d base then rest else none
    ]

abbrev drop_underscore : List ℕ → List ℕ
drop_underscore [] = []
drop_underscore (c ∷ cs) = if c == 95 then cs else c ∷ cs

-- `0x` before the digits of base 16
abbrev drop_prefix : ℕ → List ℕ → List ℕ
drop_prefix base [] = []
drop_prefix base (a ∷ []) = a ∷ []
drop_prefix base (a ∷ b ∷ cs) =
    if (base == 16) && ((a == 48) && ((b == 120) || (b == 88)))
    then drop_underscore cs
    else a ∷ b ∷ cs

-- int(text, base), a sign and a magnitude
pub data PyInt : Type 0 where
  nonneg neg : ℕ → PyInt

abbrev signed_with : (ℕ → PyInt) → Option ℕ → Option PyInt
signed_with f none = none
signed_with f (some n) = some (f n)

unfoldable pub read_signed : ℕ → List ℕ → Option PyInt
unfolding read_digits
read_signed base [] = none
read_signed base (c ∷ cs) =
    if c == 45
    then signed_with neg (read_digits base false 0 (drop_prefix base cs))
    else if c == 43
    then signed_with nonneg (read_digits base false 0 (drop_prefix base cs))
    else signed_with nonneg (read_digits base false 0 (drop_prefix base (c ∷ cs)))

unfoldable pub int_of : ℕ → List ℕ → Option PyInt
unfolding read_signed lstrip rstrip
int_of base text = read_signed base (rstrip (lstrip text))

-- Printing
abbrev pub upper_digit : ℕ → ℕ
upper_digit d = if ltb d 10 then 48 + d else 55 + d

abbrev pub lower_digit : ℕ → ℕ
lower_digit d = if ltb d 10 then 48 + d else 87 + d

-- The digits of a number, the most significant first; `n` rounds are enough for `n`.
unfoldable pub digits_within : ℕ → ℕ → (ℕ → ℕ) → ℕ → List ℕ
digits_within zero base print n = print n ∷ []
digits_within (suc fuel) base print n =
    let high = digits_within fuel base print (n / base) in
    if ltb n base then print n ∷ [] else high ++ print (n % base) ∷ []

abbrev pub decimal : ℕ → List ℕ
decimal n = digits_within n 10 upper_digit n

abbrev pub upper_hex : ℕ → List ℕ
upper_hex n = digits_within n 16 upper_digit n

abbrev pub pad : ℕ → ℕ → List ℕ → List ℕ
pad filler width text = replicate (width - length text) filler ++ text

-- bytes.hex()
unfoldable pub hex : List ℕ → List ℕ
hex [] = []
hex (b ∷ bs) = lower_digit (b / 16) ∷ lower_digit (b % 16) ∷ hex bs

-- bytes.hex(b' ')
unfoldable pub hex_spaced : List ℕ → List ℕ
hex_spaced [] = []
hex_spaced (b ∷ []) = lower_digit (b / 16) ∷ lower_digit (b % 16) ∷ []
hex_spaced (b ∷ c ∷ bs) = lower_digit (b / 16) ∷ lower_digit (b % 16) ∷ 32 ∷ hex_spaced (c ∷ bs)

-- bytearray.fromhex: white space may stand between the pairs of digits.
unfoldable pub from_hex : List ℕ → Option (List ℕ)
unfolding digit_value
from_hex [] = some []
from_hex (a ∷ []) = if is_space a then some [] else none
from_hex (a ∷ b ∷ cs) =
    let after_space = from_hex (b ∷ cs) in
    let after_pair = from_hex cs in
    if is_space a then after_space else elim (digit_value a) [
      | none ↦ none
      | some x ↦ elim (digit_value b) [
        | none ↦ none
        | some y ↦ elim after_pair [ none ↦ none | some rest ↦ some ((x * 16 + y) ∷ rest) ]
      ]
    ]
