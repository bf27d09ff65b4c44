-- ===== src/Nmea0183/Tests.antt =====
-- A sentence, and the theorems at concrete inputs.
use navigation_server.Base.{
  ℕ, ◌≡◌, refl, true, List, [], ◌∷◌, ◌++◌, take, drop, arith, ok, err, invalid_frame, inl,
}
use navigation_server.Base.Texts.{split, index, upper_hex, pad}
use navigation_server.Nmea0183.{
  Nmea0183Msg, n0183_msg, crlf, b_checksum, process_nmea0183_frame, message, fields,
}
use navigation_server.Nmea0183.Sentence.{process-message}
use navigation_server.Nmea0183.Faults.{process_corrupted}

-- GPX,1
abbrev position : List ℕ
position = 71 ∷ 80 ∷ 88 ∷ 44 ∷ 49 ∷ []

process-message_example :
    (text : List ℕ) × (m : Nmea0183Msg) × (message (36 ∷ position) ≡ ok text)
    × (process_nmea0183_frame text true ≡ ok (n0183_msg m))
    × (m.raw ≡ text)
    × (m.checksum ≡ b_checksum position)
    × (m.address ≡ take 3 position)
    × (fields m ≡ split 44 (drop 4 position))
unfolding index
process-message_example =
    process-message 36 position 2 (inl refl)
      (omega arith, (omega arith, (omega arith, (omega arith, (omega arith, tt))))) refl

process_corrupted_example :
    process_nmea0183_frame
      (36
        ∷ ((71 ∷ 80 ∷ 88 ∷ 44 ∷ 50 ∷ [])
            ++ 42 ∷ (pad 32 2 (upper_hex (b_checksum position)) ++ crlf)))
      true
    ≡ err invalid_frame
unfolding index
process_corrupted_example =
    process_corrupted 36 (71 ∷ 80 ∷ 88 ∷ 44 ∷ []) [] 49 50 2 (inl refl)
      (omega arith, (omega arith, (omega arith, (omega arith, (omega arith, tt))))) (omega arith)
      refl
