-- ===== src/Couplers/YdFrames.antt =====
-- The lines that carry one frame, taken apart again.
use navigation_server.Base.{
  ℕ, zero, suc, ◌+◌, ◌*◌, ◌/◌, ◌%◌, ◌^◌, ◌<◌, ◌≡◌, refl, ap, ◌∙◌, false, some, List, [], ◌∷◌, ◌++◌,
  ◌==◌, ok, arith, lt→ltb,
}
use navigation_server.Base.Texts.{
  split, int_of, nonneg, hex_spaced, lower_digit, upper_digit, rstrip, lstrip, read_signed,
  read_digits,
}
use navigation_server.Base.Numerals.{IsDigit, lower_digit-IsDigit, fixed, upper_hex-fixed}
use navigation_server.Message.{N2kMsg}
use navigation_server.Nmea0183.{crlf}
use navigation_server.Nmea0183.Checksum.{AllBytes, int_of_pair}
use navigation_server.Couplers.{byte}
use navigation_server.Couplers.Yd.{data_bytes, canid, yd_line}
use navigation_server.Couplers.YdRoundTrip.{canid-number}

-- A text without a space.
abbrev pub AllPlain : List ℕ → Type 0
AllPlain [] = Unit
AllPlain (c ∷ cs) = ((c == 32) ≡ false) × AllPlain cs

AllPlain-append : (xs ys : List ℕ) → AllPlain xs → AllPlain ys → AllPlain (xs ++ ys)
AllPlain-append [] ys hx hy = hy
AllPlain-append (x ∷ xs) ys hx hy = (hx.0, AllPlain-append xs ys hx.1 hy)

upper_digit-plain : (d : ℕ) → d < 16 → (upper_digit d == 32) ≡ false
upper_digit-plain d h = ground arith

lower_digit-plain : (d : ℕ) → d < 16 → (lower_digit d == 32) ≡ false
lower_digit-plain d h = ground arith

fixed-AllPlain : (k n : ℕ) → AllPlain (fixed k n)
fixed-AllPlain zero n = tt
fixed-AllPlain (suc k) n =
    AllPlain-append (fixed k (n / 16)) (upper_digit (n % 16) ∷ []) (fixed-AllPlain k (n / 16))
      (upper_digit-plain (n % 16) (omega arith), tt)

split-plain : (xs ys : List ℕ) → AllPlain xs → split 32 (xs ++ 32 ∷ ys) ≡ xs ∷ split 32 ys
unfolding split
split-plain [] ys h = refl
split-plain (x ∷ xs) ys (first, rest) = rw (first, split-plain xs ys rest) refl

-- The fields that a payload becomes; the last one still has the end of line.
abbrev pub pieces : ℕ → List ℕ → List (List ℕ)
pieces b [] = (lower_digit (b / 16) ∷ lower_digit (b % 16) ∷ crlf) ∷ []
pieces b (c ∷ bs) = (lower_digit (b / 16) ∷ lower_digit (b % 16) ∷ []) ∷ pieces c bs

split-pieces :
    (b : ℕ) (bs : List ℕ) → AllBytes (b ∷ bs) → split 32 (hex_spaced (b ∷ bs) ++ crlf) ≡ pieces b bs
unfolding hex_spaced split
split-pieces b [] (small, rest) =
    rw (lower_digit-plain (b / 16) (omega (arith, small)), lower_digit-plain (b % 16) (omega arith))
      refl
split-pieces b (c ∷ bs) (small, rest) =
    rw
      (
        lower_digit-plain (b / 16) (omega (arith, small)),
        lower_digit-plain (b % 16) (omega arith),
        split-pieces c bs rest,
      )
      refl

int_of_last :
    (a b x y : ℕ)
    → IsDigit a x
    → IsDigit b y
    → int_of 16 (a ∷ b ∷ crlf) ≡ some (nonneg (x * 16 + y))
unfolding int_of lstrip rstrip read_signed read_digits
int_of_last a b x y (space, minus, plus, small_x, capital, value, small)
      (space', minus', plus', small_x', capital', value', small') =
    ground arith

byte_value : (b : ℕ) → b < 256 → byte (some (nonneg (b / 16 * 16 + b % 16))) ≡ ok b
byte_value b small =
    let whole : b / 16 * 16 + b % 16 ≡ b = omega arith in rw whole (rw (lt→ltb b 256 small) refl)

pub data_bytes-pieces :
    (b : ℕ) (bs : List ℕ) → AllBytes (b ∷ bs) → data_bytes (pieces b bs) ≡ ok (b ∷ bs)
unfolding data_bytes
data_bytes-pieces b [] (small, rest) =
    let high : b / 16 < 16 = omega (arith, small) in
    let read =
      int_of_last (lower_digit (b / 16)) (lower_digit (b % 16)) (b / 16) (b % 16)
        (lower_digit-IsDigit (b / 16) high) (lower_digit-IsDigit (b % 16) (omega arith)) in
    rw read (rw (byte_value b small) refl)
data_bytes-pieces b (c ∷ bs) (small, rest) =
    let high : b / 16 < 16 = omega (arith, small) in
    let read =
      int_of_pair (lower_digit (b / 16)) (lower_digit (b % 16)) (b / 16) (b % 16)
        (lower_digit-IsDigit (b / 16) high) (lower_digit-IsDigit (b % 16) (omega arith)) in
    rw read (rw (byte_value b small) (rw (data_bytes-pieces c bs rest) refl))

canid-AllPlain : (m : N2kMsg) → m.pgn < 2 ^ 18 → m.prio < 8 → m.da < 256 → AllPlain (canid m)
unfolding canid
canid-AllPlain m hp hq hd =
    let n = m.prio * 2 ^ 26 + m.pgn * 2 ^ 8 + m.da in
    let small : n < 16 ^ 8 = omega (arith, hp, hq, hd) in
    rw (canid-number m.pgn m.prio m.da hp hq hd)
      (rw (upper_hex-fixed 7 n small) (fixed-AllPlain 8 n))

-- A line as the gateway writes it: a time, `R`, and the text of the frame.
abbrev pub received : List ℕ → List ℕ → List ℕ
received time text = time ++ 32 ∷ 82 ∷ 32 ∷ text

pub received-fields :
    (time : List ℕ) (m : N2kMsg) (b : ℕ) (bs : List ℕ)
    → AllPlain time
    → m.pgn < 2 ^ 18
    → m.prio < 8
    → m.da < 256
    → AllBytes (b ∷ bs)
    → split 32 (received time (yd_line (canid m) (b ∷ bs)))
      ≡ time ∷ (82 ∷ []) ∷ canid m ∷ pieces b bs
received-fields time m b bs plain hp hq hd small =
    split-plain time (82 ∷ 32 ∷ yd_line (canid m) (b ∷ bs)) plain
    ∙ ap (λ l. time ∷ l)
        (split-plain (82 ∷ []) (yd_line (canid m) (b ∷ bs)) (refl, tt)
          ∙ ap (λ l. (82 ∷ []) ∷ l)
              (split-plain (canid m) (hex_spaced (b ∷ bs) ++ crlf) (canid-AllPlain m hp hq hd)
                ∙ ap (λ l. canid m ∷ l) (split-pieces b bs small)))
