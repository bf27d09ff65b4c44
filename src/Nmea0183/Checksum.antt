-- ===== src/Nmea0183/Checksum.antt =====
-- The checksum of a sentence: how it is written and read, and what it detects.
use navigation_server.Base.{
  leb, false, ok, ℕ, zero, suc, ◌+◌, ◌*◌, ◌/◌, ◌%◌, ◌≤◌, ◌<◌, ◌≡◌, ◌≢◌, refl, sym, ap, ◌∙◌, bit_xor,
  some, List, [], ◌∷◌, ◌++◌, ltb, length, arith, Bool-cases, inl, inr, ltb→lt, lt→ltb, ltb-false,
}
use navigation_server.Base.Bits.Xor.{xor-zero, zero-xor, xor_assoc, xor_comm, xor_cancel, xor-lt}
use navigation_server.Base.Texts.{
  read_digits, read_signed, int_of, lstrip, rstrip, nonneg, upper_digit, digits_within, upper_hex,
  pad,
}
use navigation_server.Base.Numerals.{IsDigit, upper_digit-IsDigit}
use navigation_server.Nmea0183.{xor_from, b_checksum, utf8, encode_text}

abbrev pub AllBytes : List ℕ → Type 0
AllBytes [] = Unit
AllBytes (b ∷ bs) = (b < 256) × AllBytes bs

-- A text in ASCII, which is its own encoding.
abbrev pub AllAscii : List ℕ → Type 0
AllAscii [] = Unit
AllAscii (b ∷ bs) = (b < 128) × AllAscii bs

pub AllBytes-AllAscii : (bs : List ℕ) → AllAscii bs → AllBytes bs
AllBytes-AllAscii [] h = tt
AllBytes-AllAscii (b ∷ bs) (small, rest) = (omega (arith, small), AllBytes-AllAscii bs rest)

pub AllAscii-append : (xs ys : List ℕ) → AllAscii xs → AllAscii ys → AllAscii (xs ++ ys)
AllAscii-append [] ys h k = k
AllAscii-append (x ∷ xs) ys (small, h) k = (small, AllAscii-append xs ys h k)

pub encode_ascii : (bs : List ℕ) → AllAscii bs → encode_text bs ≡ ok bs
unfolding encode_text utf8
encode_ascii [] h = refl
encode_ascii (b ∷ bs) (small, rest) =
    let high : leb 0xD800 b ≡ false = ground arith in
    rw (high, lt→ltb b 128 small, encode_ascii bs rest) refl

xor_from-start : (start : ℕ) (bs : List ℕ) → xor_from start bs ≡ bit_xor start (xor_from 0 bs)
unfolding xor_from
xor_from-start start [] = sym (xor-zero start)
xor_from-start start (b ∷ bs) =
    rw
      (
        xor_from-start (bit_xor start b) bs,
        zero-xor b,
        xor_from-start b bs,
        xor_assoc start b (xor_from 0 bs),
      )
      refl

pub b_checksum-cons : (b : ℕ) (bs : List ℕ) → b_checksum (b ∷ bs) ≡ bit_xor b (b_checksum bs)
unfolding b_checksum xor_from
b_checksum-cons b bs = rw (zero-xor b) (xor_from-start b bs)

pub b_checksum-append :
    (xs ys : List ℕ) → b_checksum (xs ++ ys) ≡ bit_xor (b_checksum xs) (b_checksum ys)
unfolding b_checksum
b_checksum-append [] ys = sym (zero-xor (b_checksum ys))
b_checksum-append (x ∷ xs) ys =
    rw
      (
        b_checksum-cons x (xs ++ ys),
        b_checksum-append xs ys,
        b_checksum-cons x xs,
        xor_assoc x (b_checksum xs) (b_checksum ys),
      )
      refl

pub b_checksum-byte : (bs : List ℕ) → AllBytes bs → b_checksum bs < 256
unfolding b_checksum xor_from
b_checksum-byte [] h = omega arith
b_checksum-byte (b ∷ bs) (small, rest) =
    rw (b_checksum-cons b bs) (xor-lt 8 b (b_checksum bs) small (b_checksum-byte bs rest))

pub xor_injective : (a b c : ℕ) → bit_xor a b ≡ bit_xor a c → b ≡ c
xor_injective a b c e = sym (xor_cancel a b) ∙ ap (bit_xor a) e ∙ xor_cancel a c

-- One byte that is changed changes the checksum.
pub b_checksum_change :
    (before after : List ℕ) (x y : ℕ)
    → x ≢ y
    → b_checksum (before ++ x ∷ after) ≢ b_checksum (before ++ y ∷ after)
b_checksum_change before after x y ne e =
    let tails : b_checksum (x ∷ after) ≡ b_checksum (y ∷ after) =
      xor_injective (b_checksum before) (b_checksum (x ∷ after)) (b_checksum (y ∷ after))
        (sym (b_checksum-append before (x ∷ after)) ∙ e ∙ b_checksum-append before (y ∷ after)) in
    ne (
      xor_injective (b_checksum after) x y (
        xor_comm (b_checksum after) x
        ∙ sym (b_checksum-cons x after)
        ∙ tails
        ∙ b_checksum-cons y after
        ∙ xor_comm y (b_checksum after)))

-- Numbers of one and of two hexadecimal digits.
digits_one : (fuel n : ℕ) → n < 16 → digits_within fuel 16 upper_digit n ≡ upper_digit n ∷ []
unfolding digits_within
digits_one zero n h = refl
digits_one (suc fuel) n h = rw (lt→ltb n 16 h) refl

upper_hex_two :
    (n : ℕ) → 16 ≤ n → n < 256 → upper_hex n ≡ upper_digit (n / 16) ∷ upper_digit (n % 16) ∷ []
unfolding digits_within
upper_hex_two zero low high = absurd (omega arith)
upper_hex_two (suc k) low high =
    rw (ltb-false (suc k) 16 low, digits_one k (suc k / 16) (omega arith)) refl

int_of_one : (c d : ℕ) → IsDigit c d → int_of 16 (32 ∷ c ∷ []) ≡ some (nonneg d)
unfolding int_of lstrip rstrip read_signed read_digits
int_of_one c d (space, minus, plus, small_x, capital, value, small) = ground arith

pub int_of_pair :
    (a b x y : ℕ) → IsDigit a x → IsDigit b y → int_of 16 (a ∷ b ∷ []) ≡ some (nonneg (x * 16 + y))
unfolding int_of lstrip rstrip read_signed read_digits
int_of_pair a b x y (space, minus, plus, small_x, capital, value, small)
      (space', minus', plus', small_x', capital', value', small') =
    ground arith

digit_ascii : (d : ℕ) → d < 16 → upper_digit d < 128
digit_ascii d h = ground arith

-- What `%2X` writes for a byte is ASCII.
pub AllAscii-written : (v : ℕ) → v < 256 → AllAscii (pad 32 2 (upper_hex v))
AllAscii-written v h = elim (Bool-cases (ltb v 16)) [
  | inl one ↦
      rw (digits_one v v (ltb→lt v 16 one)) (omega arith, (digit_ascii v (ltb→lt v 16 one), tt))
  | inr two ↦
      rw (upper_hex_two v (ground arith) h)
        (digit_ascii (v / 16) (omega arith), (digit_ascii (v % 16) (omega arith), tt))
]

-- What `%2X` writes for a byte is two characters, which `int(..., 16)` reads.
pub int_of-written :
    (v : ℕ)
    → v < 256
    → (length (pad 32 2 (upper_hex v)) ≡ 2) × (int_of 16 (pad 32 2 (upper_hex v)) ≡ some (nonneg v))
int_of-written v h = elim (Bool-cases (ltb v 16)) [
  | inl one ↦
      rw (digits_one v v (ltb→lt v 16 one))
        (refl, int_of_one (upper_digit v) v (upper_digit-IsDigit v (ltb→lt v 16 one)))
  | inr two ↦
      let value : v / 16 * 16 + v % 16 ≡ v = omega arith in
      rw (upper_hex_two v (ground arith) h) (
        refl,
        int_of_pair (upper_digit (v / 16)) (upper_digit (v % 16)) (v / 16) (v % 16)
              (upper_digit-IsDigit (v / 16) (omega arith))
              (upper_digit-IsDigit (v % 16) (omega arith))
            ∙ ap (λ (n : ℕ). some (nonneg n)) value,
      )
]
