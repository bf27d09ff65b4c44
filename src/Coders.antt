-- ===== src/Coders.antt =====
-- navigation_server/nmea2000_datamodel/nmea2k_encode_decode.py: `ValueCoderUnsigned`, the coder of
-- unsigned integers of 1, 2, 3, 4 and 8 bytes in a payload, and `BitFieldDef.get_value` on plain fields. The `struct` module
-- is the standard library's: a format of n bytes without sign packs little endian.
pub mod Unsigned
mod Tests
use navigation_server.Base.{
  ℕ, zero, suc, ◌+◌, ◌-◌, ◌*◌, ◌/◌, ◌%◌, ◌^◌, bit_and, Bool, true, false, List, [], ◌∷◌, ◌++◌,
  length, take, drop, ltb, ◌==◌, if◌then◌else◌, Result, ok, err, value_error, struct_error, ◌>>=◌,
}
use navigation_server.Base.Bits.{◌<<◌, ◌>>◌}

-- The keys of `uint_table`.
pub data Width : Type 0 where
  w1 w2 w3 w4 w8 : Width

abbrev pub bytes_of : Width → ℕ
bytes_of w1 = 1
bytes_of w2 = 2
bytes_of w3 = 3
bytes_of w4 = 4
bytes_of w8 = 8

abbrev pub invalid_value : Width → ℕ
invalid_value w = 2 ^ (bytes_of w * 8) - 1

-- `n` bytes of a number, and the number of some bytes, the low byte first.
unfoldable pub pack : ℕ → ℕ → List ℕ
pack zero v = []
pack (suc n) v = v % 256 ∷ pack n (v / 256)

unfoldable pub unpack : List ℕ → ℕ
unpack [] = 0
unpack (b ∷ bs) = b + 256 * unpack bs

-- `pack_into`: it does not write beyond the buffer.
unfoldable pub pack_into : List ℕ → ℕ → List ℕ → Result (List ℕ)
pack_into buffer index bytes =
    if ltb (length buffer) (index + length bytes)
    then err struct_error
    else ok (take index buffer ++ (bytes ++ drop (index + length bytes) buffer))

-- A format code without sign takes no number beyond its bytes.
unfoldable pub pack_uint : ℕ → ℕ → Result (List ℕ)
unfolding pack
pack_uint n v = if ltb v (256 ^ n) then ok (pack n v) else err struct_error

-- The bytes that `encode` packs: "<HB" for three bytes.
unfoldable pub encoded : Width → ℕ → Result (List ℕ)
unfolding pack_uint
encoded w3 value = do
  low ← pack_uint 2 (bit_and value 0xFFFF)
  high ← pack_uint 1 (bit_and (value >> 16) 0xFF)
  ok (low ++ high)
encoded w value = pack_uint (bytes_of w) value

unfoldable pub encode : Width → ℕ → List ℕ → ℕ → Result (ℕ × List ℕ)
unfolding encoded pack_into
encode w value target_buffer index = do
  bytes ← encoded w (bit_and value (invalid_value w))
  buffer ← pack_into target_buffer index bytes
  ok (bytes_of w, buffer)

-- The number of the unpacked fields: for three bytes, `v[0] + (v[1] << 16)`.
unfoldable pub decoded : Width → List ℕ → ℕ
unfolding unpack
decoded w3 bytes = unpack (take 2 bytes) + (unpack (drop 2 bytes) << 16)
decoded w bytes = unpack bytes

unfoldable pub decode : Width → List ℕ → Result ℕ
unfolding decoded
decode w bytes =
    if length bytes == bytes_of w
    then (let val = decoded w bytes in if val == invalid_value w then err value_error else ok val)
    else err struct_error

-- `BitFieldDef.get_value` for a field that is no enumeration.
unfoldable pub get_value : ℕ → ℕ → ℕ → ℕ
get_value bit_length rel_offset input_word = bit_and (input_word >> rel_offset) (2 ^ bit_length - 1)
