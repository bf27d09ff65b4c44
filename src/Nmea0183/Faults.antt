-- ===== src/Nmea0183/Faults.antt =====
-- Sentences whose checksum does not fit: bytes that are changed on the way, and the talker that the
-- program itself replaces.
use navigation_server.Base.{
  ℕ, ◌+◌, ◌≡◌, ◌≢◌, refl, sym, ap, ◌∙◌, bit_xor, true, some, List, [], ◌∷◌, ◌++◌, ◌⊎◌, err,
  invalid_frame, ==_ne,
}
use navigation_server.Base.Bits.Xor.{xor_assoc, xor_comm}
use navigation_server.Base.Texts.{index, upper_hex, pad}
use navigation_server.Nmea0183.{
  Nmea0183Msg, crlf, b_checksum, process_nmea0183_frame, checked, replace_talker,
}
use navigation_server.Nmea0183.Checksum.{
  AllBytes, b_checksum-byte, b_checksum-cons, b_checksum_change, xor_injective,
}
use navigation_server.Nmea0183.Sentence.{process-line, written, checked-line}

-- A sentence with the checksum of another one.
pub process_wrong :
    (d : ℕ) (body other : List ℕ) (i : ℕ)
    → (d ≡ 36) ⊎ (d ≡ 33)
    → AllBytes other
    → index 44 body ≡ some (i + 1)
    → b_checksum other ≢ b_checksum body
    → process_nmea0183_frame
        (d ∷ (body ++ 42 ∷ (pad 32 2 (upper_hex (b_checksum other)) ++ crlf)))
        true
      ≡ err invalid_frame
process_wrong d body other i begins bytes comma differ =
    let (p, q, shape, value) = written (b_checksum other) (b_checksum-byte other bytes) in
    ap (λ (t : List ℕ). process_nmea0183_frame (d ∷ (body ++ 42 ∷ (t ++ crlf))) true) shape
    ∙ process-line d body p q (b_checksum other) i begins value comma
    ∙ rw (==_ne (b_checksum other) (b_checksum body) differ) refl

-- A written sentence of bytes with one of its bytes changed, between the first and the checksum, is
-- refused, if its first comma still does not stand right behind the first byte.
pub process_corrupted :
    (d : ℕ) (before after : List ℕ) (x y i : ℕ)
    → (d ≡ 36) ⊎ (d ≡ 33)
    → AllBytes (before ++ x ∷ after)
    → x ≢ y
    → index 44 (before ++ y ∷ after) ≡ some (i + 1)
    → process_nmea0183_frame
        (d
          ∷ ((before ++ y ∷ after)
              ++ 42 ∷ (pad 32 2 (upper_hex (b_checksum (before ++ x ∷ after))) ++ crlf)))
        true
      ≡ err invalid_frame
process_corrupted d before after x y i begins bytes ne comma =
    process_wrong d (before ++ y ∷ after) (before ++ x ∷ after) i begins bytes comma
      (b_checksum_change before after x y ne)

two_bytes :
    (a b c e : ℕ) (rest : List ℕ)
    → bit_xor a b ≢ bit_xor c e
    → b_checksum (a ∷ b ∷ rest) ≢ b_checksum (c ∷ e ∷ rest)
two_bytes a b c e rest ne same = ne (
    xor_injective (b_checksum rest) (bit_xor a b) (bit_xor c e) (
      xor_comm (b_checksum rest) (bit_xor a b)
      ∙ sym (pair a b)
      ∙ same
      ∙ pair c e
      ∙ xor_comm (bit_xor c e) (b_checksum rest)))
  where
    pair : (u v : ℕ) → b_checksum (u ∷ v ∷ rest) ≡ bit_xor (bit_xor u v) (b_checksum rest)
    pair u v =
        b_checksum-cons u (v ∷ rest)
        ∙ ap (bit_xor u) (b_checksum-cons v rest)
        ∙ sym (xor_assoc u v (b_checksum rest))

-- `replace_talker` leaves the checksum as it was: when the two letters of the new talker have another
-- exclusive or than the old ones, the raw text of an accepted sentence is refused by whoever reads
-- it next.
pub replace_talker_refused :
    (d : ℕ) (u w a b : ℕ) (rest : List ℕ) (i : ℕ) (m : Nmea0183Msg)
    → (d ≡ 36) ⊎ (d ≡ 33)
    → AllBytes (u ∷ w ∷ rest)
    → index 44 (a ∷ b ∷ rest) ≡ some (i + 1)
    → m.raw ≡ checked (d ∷ u ∷ w ∷ rest)
    → bit_xor u w ≢ bit_xor a b
    → process_nmea0183_frame (replace_talker m (a ∷ b ∷ [])).raw true ≡ err invalid_frame
unfolding replace_talker
replace_talker_refused d u w a b rest i m begins bytes comma raw ne =
    let (p, q, shape, value) =
      written (b_checksum (u ∷ w ∷ rest)) (b_checksum-byte (u ∷ w ∷ rest) bytes) in
    let whole = raw ∙ checked-line d (u ∷ w ∷ rest) p q shape in
    rw whole (
      process-line d (a ∷ b ∷ rest) p q (b_checksum (u ∷ w ∷ rest)) i begins value comma
      ∙ rw
          (==_ne (b_checksum (u ∷ w ∷ rest)) (b_checksum (a ∷ b ∷ rest))
            (two_bytes u w a b rest ne))
          refl)
