-- ===== src/Coders/Unsigned.antt =====
-- An unsigned value that is encoded in a payload is read back from it.
use native.Mathlib.Nat.{pow-suc}
use navigation_server.Base.{
  ℕ, zero, suc, ◌+◌, ◌*◌, ◌/◌, ◌%◌, ◌^◌, ◌≤◌, ◌<◌, ◌≡◌, refl, ap, ◌∙◌, List, ◌++◌, arith, length,
  length-take, take, drop, ltb-false, lt→ltb, ◌==◌, ==_refl, if◌then◌else◌, ok, err, value_error,
  take_front, drop_front, bit_and,
}
use navigation_server.Base.Bits.{and_low_mask}
use navigation_server.Coders.{
  Width, w1, w2, w3, w4, w8, bytes_of, invalid_value, pack, unpack, pack_into, encoded, encode,
  decoded, decode, pack_uint,
}

length-pack : (n v : ℕ) → length (pack n v) ≡ n
unfolding pack
length-pack zero v = refl
length-pack (suc n) v = ap (λ (k : ℕ). suc k) (length-pack n (v / 256))

unpack-pack : (n v : ℕ) → v < 256 ^ n → unpack (pack n v) ≡ v
unfolding pack unpack
unpack-pack zero v fits = omega arith
unpack-pack (suc n) v fits = omega (arith, unpack-pack n (v / 256) (omega (arith, pow-suc 256 n)))

-- The bytes of a number that is not too large.
raw_bytes : Width → ℕ → List ℕ
unfolding pack
raw_bytes w3 v = pack 2 (bit_and v 0xFFFF) ++ pack 1 (bit_and (v / 65536) 0xFF)
raw_bytes w v = pack (bytes_of w) v

pack_uint-ok : (n v : ℕ) → v < 256 ^ n → pack_uint n v ≡ ok (pack n v)
unfolding pack_uint
pack_uint-ok n v fits = rw (lt→ltb v (256 ^ n) fits) refl

encoded-ok : (w : Width) (v : ℕ) → v < 2 ^ (bytes_of w * 8) → encoded w v ≡ ok (raw_bytes w v)
unfolding encoded raw_bytes
encoded-ok w1 v fits = pack_uint-ok 1 v fits
encoded-ok w2 v fits = pack_uint-ok 2 v fits
encoded-ok w3 v fits =
    let low : bit_and v 0xFFFF < 256 ^ 2 = rw (and_low_mask 16 v) (omega arith) in
    let high : bit_and (v / 65536) 0xFF < 256 ^ 1 = rw (and_low_mask 8 (v / 65536)) (omega arith) in
    rw (pack_uint-ok 2 (bit_and v 0xFFFF) low, pack_uint-ok 1 (bit_and (v / 65536) 0xFF) high) refl
encoded-ok w4 v fits = pack_uint-ok 4 v fits
encoded-ok w8 v fits = pack_uint-ok 8 v fits

length-raw_bytes : (w : Width) (v : ℕ) → length (raw_bytes w v) ≡ bytes_of w
unfolding raw_bytes
length-raw_bytes w1 v = length-pack 1 v
length-raw_bytes w2 v = length-pack 2 v
length-raw_bytes w3 v = refl
length-raw_bytes w4 v = length-pack 4 v
length-raw_bytes w8 v = length-pack 8 v

decoded-raw_bytes : (w : Width) (v : ℕ) → v < 2 ^ (bytes_of w * 8) → decoded w (raw_bytes w v) ≡ v
unfolding decoded raw_bytes pack unpack
decoded-raw_bytes w1 v fits = unpack-pack 1 v fits
decoded-raw_bytes w2 v fits = unpack-pack 2 v fits
decoded-raw_bytes w3 v fits = rw (and_low_mask 16 v, and_low_mask 8 (v / 65536)) (omega arith)
decoded-raw_bytes w4 v fits = unpack-pack 4 v fits
decoded-raw_bytes w8 v fits = unpack-pack 8 v fits

masked : (w : Width) (value : ℕ) → bit_and value (invalid_value w) ≡ value % 2 ^ (bytes_of w * 8)
masked w value = and_low_mask (bytes_of w * 8) value

masked_bound : (w : Width) (value : ℕ) → value % 2 ^ (bytes_of w * 8) < 2 ^ (bytes_of w * 8)
masked_bound w1 value = omega arith
masked_bound w2 value = omega arith
masked_bound w3 value = omega arith
masked_bound w4 value = omega arith
masked_bound w8 value = omega arith

drop_exact : (n : ℕ) (xs ys : List ℕ) → length xs ≡ n → drop n (xs ++ ys) ≡ ys
drop_exact n xs ys h = ap (λ (k : ℕ). drop k (xs ++ ys)) (plus_zero n) ∙ drop_front n 0 xs ys h
  where
    plus_zero : (k : ℕ) → k ≡ k + 0
    plus_zero k = omega arith

-- A value that is encoded at an index where it fits in the payload is decoded from there, cut to
-- its width, but for the value with all bits set, which stands for an invalid one; the bytes before and
-- behind are as before, and the size is that of the width.
pub decode-encode :
    (w : Width) (value index : ℕ) (payload : List ℕ)
    → index + bytes_of w ≤ length payload
    → (buffer : List ℕ) × (encode w value payload index ≡ ok (bytes_of w, buffer))
      × (take index buffer ≡ take index payload)
      × (drop (index + bytes_of w) buffer ≡ drop (index + bytes_of w) payload)
      × (decode w (take (bytes_of w) (drop index buffer)) ≡ (
          if value % 2 ^ (bytes_of w * 8) == invalid_value w
          then err value_error
          else ok (value % 2 ^ (bytes_of w * 8))))
unfolding encode decode pack_into
decode-encode w value index payload fits =
    let v = value % 2 ^ (bytes_of w * 8) in
    let bytes = raw_bytes w v in
    let size : length bytes ≡ bytes_of w = length-raw_bytes w v in
    let front : length (take index payload) ≡ index = omega (arith, length-take index payload) in
    let tail = drop (index + bytes_of w) payload in
    (
      take index payload ++ (bytes ++ tail),
      rw (
        masked w value,
        encoded-ok w v (masked_bound w value),
        size,
        ltb-false (length payload) (index + bytes_of w) fits,
      ),
      take_front index (take index payload) (bytes ++ tail) front,
      drop_front index (bytes_of w) (take index payload) (bytes ++ tail) front
          ∙ drop_exact (bytes_of w) bytes tail size,
      rw (
        drop_exact index (take index payload) (bytes ++ tail) front,
        take_front (bytes_of w) bytes tail size,
        size,
        ==_refl (bytes_of w),
        decoded-raw_bytes w v (masked_bound w value),
      ),
    )
