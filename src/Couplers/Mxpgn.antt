-- ===== src/Couplers/Mxpgn.antt =====
-- The payload of an `$MXPGN` sentence, and what is lost of short fast packet messages.
use navigation_server.Base.{
  ℕ, bit_and, suc, ◌+◌, ◌*◌, ◌/◌, ◌%◌, ◌≤◌, ◌<◌, ◌≡◌, refl, sym, ap, ◌∙◌, Bool, true, false, Option,
  none, some, List, [], ◌∷◌, ◌++◌, ◌==◌, length, replicate, ok, err, Result, incomplete_message,
  arith, ltb, leb, append_assoc, append-nil,
}
use navigation_server.Base.Texts.{hex, from_hex, lower_digit, digit_value, is_space}
use navigation_server.Pgn.{pgn_pdu1_adjust, fast_packet_check}
use navigation_server.FastPacket.{process_frame, is_pgn_active}
use navigation_server.Nmea0183.Checksum.{AllBytes}
use navigation_server.Couplers.{assemble}
use navigation_server.Couplers.Shipmodul.{
  Shipmodul, fill_backwards, written_part, reversed, mxpgn_data, mxpgn_assembled,
}

digit_value-lower : (d : ℕ) → d < 16 → digit_value (lower_digit d) ≡ some d
unfolding digit_value
digit_value-lower d h = ground arith

lower-no_space : (d : ℕ) → d < 16 → is_space (lower_digit d) ≡ false
lower-no_space d h = ground arith

abbrev IsHexDigit : ℕ → ℕ → Type 0
IsHexDigit c d = (is_space c ≡ false) × (digit_value c ≡ some d)

from_hex-pair :
    (a b x y : ℕ) (cs rest : List ℕ)
    → IsHexDigit a x
    → IsHexDigit b y
    → from_hex cs ≡ some rest
    → from_hex (a ∷ b ∷ cs) ≡ some ((x * 16 + y) ∷ rest)
unfolding from_hex
from_hex-pair a b x y cs rest (plain, value) (plain', value') more =
    rw (plain, value) (rw value' (rw more refl))

from_hex-hex : (bytes : List ℕ) → AllBytes bytes → from_hex (hex bytes) ≡ some bytes
unfolding hex from_hex
from_hex-hex [] h = refl
from_hex-hex (b ∷ bs) (small, rest) =
    let value : b / 16 * 16 + b % 16 ≡ b = omega arith in
    let high : b / 16 < 16 = omega (arith, small) in
    let low : b % 16 < 16 = omega arith in
    from_hex-pair (lower_digit (b / 16)) (lower_digit (b % 16)) (b / 16) (b % 16) (hex bs) bs
      (lower-no_space (b / 16) high, digit_value-lower (b / 16) high)
      (lower-no_space (b % 16) low, digit_value-lower (b % 16) low) (from_hex-hex bs rest)
    ∙ ap (λ (n : ℕ). some (n ∷ bs)) value

reversed-append : (xs : List ℕ) (y : ℕ) → reversed (xs ++ y ∷ []) ≡ y ∷ reversed xs
unfolding reversed
reversed-append [] y = refl
reversed-append (x ∷ xs) y = rw (reversed-append xs y) refl

reversed-reversed : (xs : List ℕ) → reversed (reversed xs) ≡ xs
unfolding reversed
reversed-reversed [] = refl
reversed-reversed (x ∷ xs) =
    reversed-append (reversed xs) x ∙ ap (λ l. x ∷ l) (reversed-reversed xs)

AllBytes-reversed : (xs : List ℕ) → AllBytes xs → AllBytes (reversed xs)
unfolding reversed
AllBytes-reversed [] h = tt
AllBytes-reversed (x ∷ xs) (small, rest) = add (reversed xs) (AllBytes-reversed xs rest)
  where
    add : (l : List ℕ) → AllBytes l → AllBytes (l ++ x ∷ [])
    add [] h = (small, tt)
    add (y ∷ l) (first, others) = (first, add l others)

-- Up to eight bytes are written from the end of the array on.
filled :
    (bytes : List ℕ)
    → length bytes ≤ 8
    → (array : List ℕ) × (fill_backwards (replicate 8 0) 0 bytes ≡ ok array)
      × (written_part (length bytes) array ≡ reversed bytes)
unfolding fill_backwards reversed navigation_server.Base.set
filled [] h = (replicate 8 0, refl, refl)
filled (a ∷ []) h = (0 ∷ 0 ∷ 0 ∷ 0 ∷ 0 ∷ 0 ∷ 0 ∷ a ∷ [], refl, refl)
filled (a ∷ b ∷ []) h = (0 ∷ 0 ∷ 0 ∷ 0 ∷ 0 ∷ 0 ∷ b ∷ a ∷ [], refl, refl)
filled (a ∷ b ∷ c ∷ []) h = (0 ∷ 0 ∷ 0 ∷ 0 ∷ 0 ∷ c ∷ b ∷ a ∷ [], refl, refl)
filled (a ∷ b ∷ c ∷ d ∷ []) h = (0 ∷ 0 ∷ 0 ∷ 0 ∷ d ∷ c ∷ b ∷ a ∷ [], refl, refl)
filled (a ∷ b ∷ c ∷ d ∷ e ∷ []) h = (0 ∷ 0 ∷ 0 ∷ e ∷ d ∷ c ∷ b ∷ a ∷ [], refl, refl)
filled (a ∷ b ∷ c ∷ d ∷ e ∷ f ∷ []) h = (0 ∷ 0 ∷ f ∷ e ∷ d ∷ c ∷ b ∷ a ∷ [], refl, refl)
filled (a ∷ b ∷ c ∷ d ∷ e ∷ f ∷ g ∷ []) h = (0 ∷ g ∷ f ∷ e ∷ d ∷ c ∷ b ∷ a ∷ [], refl, refl)
filled (a ∷ b ∷ c ∷ d ∷ e ∷ f ∷ g ∷ i ∷ []) h = (i ∷ g ∷ f ∷ e ∷ d ∷ c ∷ b ∷ a ∷ [], refl, refl)
filled (a ∷ b ∷ c ∷ d ∷ e ∷ f ∷ g ∷ i ∷ j ∷ rest) h = absurd (omega (arith, h))

-- A frame of at most eight bytes that is written into the data field of a sentence, last byte first, is
-- read back from that field.
pub mxpgn_data-written :
    (bytes number attribute : List ℕ)
    → length bytes ≤ 8
    → AllBytes bytes
    → (array : List ℕ) × (fill_backwards (replicate 8 0) 0 bytes ≡ ok array)
      × (mxpgn_data (number ∷ attribute ∷ hex (written_part (length bytes) array) ∷ []) ≡ ok bytes)
unfolding mxpgn_data
mxpgn_data-written bytes number attribute short small =
    let (array, done, part) = filled bytes short in
    (
      array,
      done,
      rw part (
          rw (from_hex-hex (reversed bytes) (AllBytes-reversed bytes small))
            (ap (λ (l : List ℕ). ok l) (reversed-reversed bytes))),
    )

-- A fast packet message that is complete with its first frame is read, and then dropped as incomplete.
pub first_frame_lost :
    (is_fast : ℕ → Result Bool) (now : ℕ) (s : Shipmodul) (number attribute sa : ℕ)
    (bytes payload : List ℕ)
    → sa ≡ bit_and attribute 0xFF
    → fast_packet_check is_fast (pgn_pdu1_adjust number).0 ≡ ok true
    → is_pgn_active s.fast_packet_handler (pgn_pdu1_adjust number).0 sa bytes ≡ ok false
    → (process_frame s.fast_packet_handler now (pgn_pdu1_adjust number).0 sa bytes).0
      ≡ ok (some payload)
    → (mxpgn_assembled is_fast now s number attribute bytes).0 ≡ err incomplete_message
unfolding mxpgn_assembled assemble
first_frame_lost is_fast now s number attribute sa bytes payload source fast fresh complete =
    rw (sym source) (rw (fresh, assemble) (rw (fast, assemble) (rw complete refl)))
