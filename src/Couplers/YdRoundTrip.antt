-- ===== src/Couplers/YdRoundTrip.antt =====
-- Frames that go out and come back through a Yacht Devices gateway.
use navigation_server.Base.{
  ℕ, ◌+◌, ◌*◌, ◌/◌, ◌%◌, ◌^◌, ◌<◌, ◌≡◌, refl, ◌∙◌, bit_or, [], ◌∷◌, ok, arith,
}
use navigation_server.Base.Bits.{or_fields, or_fields_low, ◌<<◌}
use navigation_server.Base.Texts.{upper_digit}
use navigation_server.Base.Numerals.{
  IsDigit, upper_digit-IsDigit, value, int_of-digits, fixed, upper_hex-fixed,
}
use navigation_server.Message.{N2kMsg}
use navigation_server.Nmea0183.Checksum.{int_of_pair}
use navigation_server.Couplers.Yd.{decode_msgid, canid}

-- The identifier as a number.
pub canid-number :
    (pgn prio da : ℕ)
    → pgn < 2 ^ 18
    → prio < 8
    → da < 256
    → bit_or (bit_or (pgn << 8) (prio << 26)) da ≡ prio * 2 ^ 26 + pgn * 2 ^ 8 + da
canid-number pgn prio da hp hq hd =
    let shifted : pgn * 2 ^ 8 < 2 ^ 26 = omega (arith, hp) in
    let high : prio * 2 ^ 26 + pgn * 2 ^ 8 ≡ (prio * 2 ^ 18 + pgn) * 2 ^ 8 = omega arith in
    rw (or_fields_low 26 prio (pgn * 2 ^ 8) shifted, high) (or_fields 8 (prio * 2 ^ 18 + pgn) da hd)

-- The three numbers in eight digits.
msgid-fixed :
    (n : ℕ)
    → n < 16 ^ 8
    → decode_msgid (fixed 8 n)
      ≡ ok (record { pgn = n / 256 % 2 ^ 18; prio = n / 2 ^ 26 % 8; sa = n % 256 })
unfolding decode_msgid
msgid-fixed n small =
    let digit : (q : ℕ) → IsDigit (upper_digit (q % 16)) (q % 16) =
      λ q. upper_digit-IsDigit (q % 16) (omega arith) in
    let n1 = n / 16 in
    let n2 = n1 / 16 in
    let n3 = n2 / 16 in
    let n4 = n3 / 16 in
    let n5 = n4 / 16 in
    let n6 = n5 / 16 in
    let n7 = n6 / 16 in
    let u : ℕ → ℕ = λ q. upper_digit (q % 16) in
    let middle =
      int_of-digits (u n6) (u n5) (u n4 ∷ u n3 ∷ u n2 ∷ []) (n6 % 16) (n5 % 16)
        (n4 % 16 ∷ n3 % 16 ∷ n2 % 16 ∷ [])
        (digit n6, (digit n5, (digit n4, (digit n3, (digit n2, tt))))) in
    let front = int_of_pair (u n7) (u n6) (n7 % 16) (n6 % 16) (digit n7) (digit n6) in
    let back = int_of_pair (u n1) (u n) (n1 % 16) (n % 16) (digit n1) (digit n) in
    let pgn : value 0 (n6 % 16 ∷ n5 % 16 ∷ n4 % 16 ∷ n3 % 16 ∷ n2 % 16 ∷ []) % 2 ^ 18
        ≡ n / 256 % 2 ^ 18 =
      omega arith in
    let prio : (n7 % 16 * 16 + n6 % 16) / 4 % 2 ^ 3 ≡ n / 2 ^ 26 % 8 = omega (arith, small) in
    let sa : n1 % 16 * 16 + n % 16 ≡ n % 256 = omega arith in
    rw (middle, front, back) (rw (pgn, prio, sa) refl)

-- What the gateway reads of an identifier that was written: the destination as the source.
pub decode_msgid-canid :
    (m : N2kMsg)
    → m.pgn < 2 ^ 18
    → m.prio < 8
    → m.da < 256
    → decode_msgid (canid m) ≡ ok (record { pgn = m.pgn; prio = m.prio; sa = m.da })
unfolding canid
decode_msgid-canid m hp hq hd =
    let n = m.prio * 2 ^ 26 + m.pgn * 2 ^ 8 + m.da in
    let small : n < 16 ^ 8 = omega (arith, hp, hq, hd) in
    let pgn : n / 256 % 2 ^ 18 ≡ m.pgn = omega (arith, hp, hq, hd) in
    let prio : n / 2 ^ 26 % 8 ≡ m.prio = omega (arith, hp, hq, hd) in
    let da : n % 256 ≡ m.da = omega (arith, hp, hq, hd) in
    rw (canid-number m.pgn m.prio m.da hp hq hd)
      (rw (upper_hex-fixed 7 n small) (msgid-fixed n small ∙ rw (pgn, prio, da) refl))
