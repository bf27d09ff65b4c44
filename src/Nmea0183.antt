-- ===== src/Nmea0183.antt =====
-- navigation_server/router_core/nmea0183_msg.py and the class `NavGenericMsg` of
-- navigation_server/router_common/generic_msg.py: an NMEA 0183 sentence with its fields not decoded.
-- Bytes are numbers. `NULL_MSG` messages hold nothing, transparent ones their text.
pub mod Checksum
pub mod Sentence
pub mod Faults
mod Tests
use navigation_server.Base.{
  ◌/◌, ◌%◌, ◌&&◌, ℕ, ◌+◌, ◌-◌, ◌*◌, bit_xor, Bool, true, false, not, Option, none, some, List, [],
  ◌∷◌, ◌++◌, ltb, leb, ◌==◌, if◌then◌else◌, length, get_elem?, take, drop, replicate, contains,
  Result, ok, err, ◌>>=◌, index_error, value_error, invalid_frame, attribute_error, Exception,
}
use navigation_server.Base.Texts.{split, index, PyInt, nonneg, neg, int_of, upper_hex, pad}
use navigation_server.Message.{N2kMsg}

pub record Nmea0183Msg : Type 0 where
  pub raw : List ℕ
  pub datalen : ℕ
  pub checksum : ℕ
  pub datalen_s : ℕ
  pub delimiter : ℕ
  pub datafields_s : ℕ
  pub address : List ℕ
  pub proprietary : Bool

pub data NavMsg : Type 0 where
  null_msg : NavMsg
  n0183_msg : Nmea0183Msg → NavMsg
  n2k_msg : Option (List ℕ) → N2kMsg → NavMsg
  transparent_msg : List ℕ → NavMsg

-- `reduce(operator.xor, ..., start)`
unfoldable pub xor_from : ℕ → List ℕ → ℕ
xor_from start [] = start
xor_from start (b ∷ bs) = xor_from (bit_xor start b) bs

unfoldable pub b_checksum : List ℕ → ℕ
unfolding xor_from
b_checksum bytes = xor_from 0 bytes

abbrev pub crlf : List ℕ
crlf = 13 ∷ 10 ∷ []

abbrev pub is_crlf : List ℕ → Bool
is_crlf (a ∷ b ∷ []) = if a == 13 then b == 10 else false
is_crlf [] = false
is_crlf (a ∷ []) = false
is_crlf (a ∷ b ∷ c ∷ rest) = false

-- The raw text with its end of line, and the length without it.
unfoldable pub framed : List ℕ → List ℕ × ℕ
framed bytes =
    if is_crlf (drop (length bytes - 2) bytes)
    then (bytes, length bytes - 2)
    else (bytes ++ crlf, length bytes)

-- `raw[datalen - 3]`: below 0 it counts from the end of `raw`, which has `datalen + 2` bytes.
unfoldable pub star_byte : List ℕ → ℕ → Option ℕ
star_byte raw datalen =
    if leb 3 datalen
    then get_elem? raw (datalen - 3)
    else if datalen == 0
    then none
    else get_elem? raw (2 * datalen - 1)

abbrev pub is_value : PyInt → ℕ → Bool
is_value (nonneg v) sum = v == sum
is_value (neg v) sum = if v == 0 then sum == 0 else false

abbrev pub magnitude : PyInt → ℕ
magnitude (nonneg v) = v
magnitude (neg v) = v

-- The checksum that is read and found right.
unfoldable pub verify_checksum : List ℕ → ℕ → Result ℕ
unfolding star_byte b_checksum
verify_checksum raw datalen = elim (star_byte raw datalen) [
  | none ↦ err index_error
  | some c ↦
      if c == 42
      then elim (int_of 16 (drop (datalen - 2) (take datalen raw))) [
        | none ↦ err value_error
        | some v ↦
            if is_value v (b_checksum (drop 1 (take (datalen - 3) raw)))
            then ok (magnitude v)
            else err invalid_frame
      ]
      else err invalid_frame
]

-- The rest of the constructor. A byte is never equal to the bytes object `b'P'`, so `_proprietary` is
-- False.
unfoldable pub with_fields : List ℕ → ℕ → ℕ → ℕ → Result Nmea0183Msg
with_fields raw datalen checksum datalen_s = elim (get_elem? raw 0) [
  | none ↦ err index_error
  | some delimiter ↦ elim (index 44 raw) [
    | none ↦ err value_error
    | some comma ↦
        let address = drop 1 (take comma raw) in
        if length address == 0
        then err index_error
        else ok (record {
          raw = raw;
          datalen = datalen;
          checksum = checksum;
          datalen_s = datalen_s;
          delimiter = delimiter;
          datafields_s = comma + 1;
          address = address;
          proprietary = false;
        })
  ]
]

-- The constructor. Empty data leave the object without its raw text.
unfoldable pub nmea0183_msg : List ℕ → Bool → Result Nmea0183Msg
unfolding framed verify_checksum with_fields
nmea0183_msg [] checksum = err attribute_error
nmea0183_msg (b ∷ bs) true =
    let (raw, datalen) = framed (b ∷ bs) in
    verify_checksum raw datalen >>= λ sum. with_fields raw datalen sum (datalen - 3)
nmea0183_msg (b ∷ bs) false =
    let (raw, datalen) = framed (b ∷ bs) in with_fields raw datalen 0 datalen

unfoldable pub process_nmea0183_frame : List ℕ → Bool → Result NavMsg
unfolding nmea0183_msg
process_nmea0183_frame [] checksum = err index_error
process_nmea0183_frame (b ∷ bs) checksum =
    if b == 4
    then ok null_msg
    else if contains (36 ∷ 33 ∷ []) b
    then (nmea0183_msg (b ∷ bs) checksum >>= λ m. ok (n0183_msg m))
    else err invalid_frame

unfoldable pub talker : Nmea0183Msg → Result (List ℕ)
talker m = if not m.proprietary then ok (take 2 m.address) else err value_error

unfoldable pub formatter : Nmea0183Msg → Result (List ℕ)
formatter m = if not m.proprietary then ok (drop 2 m.address) else err value_error

unfoldable pub fields : Nmea0183Msg → List (List ℕ)
fields m = split 44 (drop m.datafields_s (take m.datalen_s m.raw))

unfoldable pub replace_talker : Nmea0183Msg → List ℕ → Nmea0183Msg
replace_talker m t = record m {
  raw = take 1 m.raw ++ take 2 t ++ drop 3 m.raw;
  address = take 2 t ++ drop 2 m.address;
}

-- The bytes of a character that is no surrogate, in UTF-8.
unfoldable pub utf8 : ℕ → List ℕ
utf8 c =
    if ltb c 0x80
    then c ∷ []
    else if ltb c 0x800
    then (0xC0 + c / 64) ∷ (0x80 + c % 64) ∷ []
    else if ltb c 0x10000
    then (0xE0 + c / 4096) ∷ (0x80 + c / 64 % 64) ∷ (0x80 + c % 64) ∷ []
    else (0xF0 + c / 262144) ∷ (0x80 + c / 4096 % 64) ∷ (0x80 + c / 64 % 64) ∷ (0x80 + c % 64) ∷ []

-- `text.encode()`, which raises a ValueError at a surrogate.
unfoldable pub encode_text : List ℕ → Result (List ℕ)
unfolding utf8
encode_text [] = ok []
encode_text (c ∷ cs) =
    let rest = encode_text cs in
    if leb 0xD800 c && leb c 0xDFFF
    then err value_error
    else (rest >>= λ bytes. ok (utf8 c ++ bytes))

-- `"%s*%2X\r\n"`, where the checksum leaves the first character out
abbrev pub checked : List ℕ → List ℕ
checked sentence = sentence ++ 42 ∷ pad 32 2 (upper_hex (b_checksum (drop 1 sentence))) ++ crlf

-- `NMEA0183Sentences.message`, of a text
unfoldable pub message : List ℕ → Result (List ℕ)
unfolding encode_text
message sentence = encode_text (checked sentence)
