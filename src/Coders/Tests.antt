-- ===== src/Coders/Tests.antt =====
-- The theorem on unsigned values at a concrete payload.
use navigation_server.Base.{
  ℕ, ◌%◌, ◌^◌, ◌≡◌, refl, List, [], ◌∷◌, arith, take, drop, ◌==◌, if◌then◌else◌, ok, err,
  value_error,
}
use navigation_server.Coders.{w3, invalid_value, encode, decode}
use navigation_server.Coders.Unsigned.{decode-encode}

-- Three bytes in the middle of a payload.
three : encode w3 0x123456 (9 ∷ 0 ∷ 0 ∷ 0 ∷ 8 ∷ []) 1 ≡ ok (3, 9 ∷ 0x56 ∷ 0x34 ∷ 0x12 ∷ 8 ∷ [])
unfolding encode
three = refl

decode-encode_example :
    (buffer : List ℕ) × (encode w3 0x123456 (9 ∷ 0 ∷ 0 ∷ 0 ∷ 8 ∷ []) 1 ≡ ok (3, buffer))
    × (take 1 buffer ≡ 9 ∷ [])
    × (drop 4 buffer ≡ 8 ∷ [])
    × (decode w3 (take 3 (drop 1 buffer)) ≡ (
        if 0x123456 % 2 ^ 24 == invalid_value w3 then err value_error else ok (0x123456 % 2 ^ 24)))
decode-encode_example = decode-encode w3 0x123456 1 (9 ∷ 0 ∷ 0 ∷ 0 ∷ 8 ∷ []) (omega arith)
