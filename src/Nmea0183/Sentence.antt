-- ===== src/Nmea0183/Sentence.antt =====
-- Sentences with a checksum, as they are written and read.
use navigation_server.Base.{
  ℕ, suc, ◌+◌, ◌-◌, ◌<◌, ◌≡◌, ◌≢◌, refl, ap, ◌∙◌, true, false, some, List, [], ◌∷◌, ◌++◌, ◌==◌,
  if◌then◌else◌, length, length-append, get_elem?, take, drop, arith, Bool-cases, Option-cases, inl,
  inr, ok, err, invalid_frame, ==_refl, ==_ne, le→leb, append_assoc, take-append_left, take_front,
  drop_front, ◌⊎◌, contains, length-take,
}
use navigation_server.Base.Texts.{split, index, int_of, nonneg, upper_hex, pad}
use navigation_server.Nmea0183.{
  Nmea0183Msg, n0183_msg, crlf, framed, star_byte, b_checksum, verify_checksum, with_fields,
  nmea0183_msg, process_nmea0183_frame, fields, message, checked,
}
use navigation_server.Nmea0183.Checksum.{
  AllAscii, AllBytes-AllAscii, AllAscii-append, AllAscii-written, encode_ascii, b_checksum-byte,
  int_of-written,
}

-- A sentence with the two characters of its checksum and its end of line.
abbrev pub line : ℕ → List ℕ → ℕ → ℕ → List ℕ
line d body p q = d ∷ (body ++ 42 ∷ p ∷ q ∷ crlf)

at_end : (xs ys : List ℕ) (y : ℕ) → get_elem? (xs ++ y ∷ ys) (length xs) ≡ some y
at_end [] ys y = refl
at_end (x ∷ xs) ys y = at_end xs ys y

length-line : (d : ℕ) (body : List ℕ) (p q : ℕ) → length (line d body p q) ≡ length body + 6
length-line d body p q = let all = length-append body (42 ∷ p ∷ q ∷ crlf) in omega (arith, all)

framed-line :
    (d : ℕ) (body : List ℕ) (p q : ℕ)
    → framed (line d body p q) ≡ (line d body p q, length body + 4)
unfolding framed
framed-line d body p q =
    let count : length (line d body p q) - 2 ≡ suc (length body + 3) =
      omega (arith, length-line d body p q) in
    let plain : suc (length body + 3) ≡ length body + 4 = omega arith in
    rw (count, drop_front (length body) 3 body (42 ∷ p ∷ q ∷ crlf) refl)
      (ap (λ (n : ℕ). (line d body p q, n)) plain)

star-line :
    (d : ℕ) (body : List ℕ) (p q : ℕ) → star_byte (line d body p q) (length body + 4) ≡ some 42
unfolding star_byte
star-line d body p q =
    let place : length body + 4 - 3 ≡ suc (length body) = omega arith in
    rw (le→leb 3 (length body + 4) (omega arith), place) (at_end body (p ∷ q ∷ crlf) 42)

digits-line :
    (d : ℕ) (body : List ℕ) (p q : ℕ)
    → drop (length body + 4 - 2) (take (length body + 4) (line d body p q)) ≡ p ∷ q ∷ []
digits-line d body p q =
    let front : length body + 4 ≡ suc (length body + 3) = omega arith in
    let place : length body + 4 - 2 ≡ suc (length body + 1) = omega arith in
    let shape : body ++ 42 ∷ p ∷ q ∷ crlf ≡ (body ++ 42 ∷ p ∷ q ∷ []) ++ crlf =
      rw append_assoc refl in
    let size : length (body ++ 42 ∷ p ∷ q ∷ []) ≡ length body + 3 =
      length-append body (42 ∷ p ∷ q ∷ []) in
    rw
      (
        place,
        front,
        shape,
        take_front (length body + 3) (body ++ 42 ∷ p ∷ q ∷ []) crlf size,
        drop_front (length body) 1 body (42 ∷ p ∷ q ∷ []) refl,
      )
      refl

body-line :
    (d : ℕ) (body : List ℕ) (p q : ℕ) → drop 1 (take (length body + 4 - 3) (line d body p q)) ≡ body
body-line d body p q =
    let place : length body + 4 - 3 ≡ suc (length body) = omega arith in
    rw (place, take_front (length body) body (42 ∷ p ∷ q ∷ crlf) refl) refl

pub verify-line :
    (d : ℕ) (body : List ℕ) (p q v : ℕ)
    → int_of 16 (p ∷ q ∷ []) ≡ some (nonneg v)
    → verify_checksum (line d body p q) (length body + 4)
      ≡ (if v == b_checksum body then ok v else err invalid_frame)
unfolding verify_checksum
verify-line d body p q v value =
    rw (star-line d body p q, verify_checksum)
      (rw (digits-line d body p q, value, verify_checksum) (rw (body-line d body p q) refl))

index-append : (c i : ℕ) (xs ys : List ℕ) → index c xs ≡ some i → index c (xs ++ ys) ≡ some i
unfolding index
index-append c i [] ys h = cc
index-append c i (x ∷ xs) ys h = elim (Option-cases (index c xs)) [
  | inl e ↦ ground (arith, e)
  | inr (j, e) ↦ let more = index-append c j xs ys e in ground (arith, e, more)
]

index-bound : (c i : ℕ) (xs : List ℕ) → index c xs ≡ some i → i < length xs
unfolding index
index-bound c i [] h = cc
index-bound c i (x ∷ xs) h = elim (Option-cases (index c xs)) [
  | inl e ↦ ground (arith, e)
  | inr (j, e) ↦ let more = index-bound c j xs e in ground (arith, e, more)
]

-- What is read from a sentence whose first comma is byte `i + 2`.
abbrev pub sentence_msg : ℕ → List ℕ → ℕ → ℕ → ℕ → ℕ → Nmea0183Msg
sentence_msg d body p q v i = record {
  raw = line d body p q;
  datalen = length body + 4;
  checksum = v;
  datalen_s = length body + 4 - 3;
  delimiter = d;
  datafields_s = i + 2 + 1;
  address = take (i + 1) body;
  proprietary = false;
}

fields-line :
    (d : ℕ) (body : List ℕ) (p q v i : ℕ)
    → (d == 44) ≡ false
    → index 44 body ≡ some (i + 1)
    → with_fields (line d body p q) (length body + 4) v (length body + 4 - 3)
      ≡ ok (sentence_msg d body p q v i)
unfolding with_fields index
fields-line d body p q v i other comma =
    let inside = index-bound 44 (i + 1) body comma in
    let place : i + 1 + 1 ≡ suc (i + 1) = omega arith in
    let last : i + 1 + 1 + 1 ≡ i + 2 + 1 = omega arith in
    let size : length (take (i + 1) body) ≡ i + 1 =
      omega (arith, length-take (i + 1) body, inside) in
    let whole : drop 1 (take (i + 1 + 1) (line d body p q)) ≡ take (i + 1) body =
      ap (λ (k : ℕ). drop 1 (take k (line d body p q))) place
      ∙ take-append_left (i + 1) body (42 ∷ p ∷ q ∷ crlf) (omega (arith, inside)) in
    rw (other, index-append 44 (i + 1) body (42 ∷ p ∷ q ∷ crlf) comma, with_fields)
      (rw (whole, last) (rw (size, ==_ne (i + 1) 0 (omega arith)) refl))

-- A sentence that begins as one is read as its checksum says.
pub process-line :
    (d : ℕ) (body : List ℕ) (p q v i : ℕ)
    → (d ≡ 36) ⊎ (d ≡ 33)
    → int_of 16 (p ∷ q ∷ []) ≡ some (nonneg v)
    → index 44 body ≡ some (i + 1)
    → process_nmea0183_frame (line d body p q) true ≡ (
        if v == b_checksum body
        then ok (n0183_msg (sentence_msg d body p q v i))
        else err invalid_frame)
unfolding process_nmea0183_frame nmea0183_msg
process-line d body p q v i begins value comma =
    let is_eot : (d == 4) ≡ false = ground arith in
    let starts : contains (36 ∷ 33 ∷ []) d ≡ true = ground arith in
    let other : (d == 44) ≡ false = ground arith in
    rw (is_eot, starts, framed-line d body p q, verify-line d body p q v value)
      (elim (Bool-cases (v == b_checksum body)) [
        | inl right ↦ rw (right, fields-line d body p q v i other comma) refl
        | inr wrong ↦ rw wrong refl
      ])

-- The two characters of a checksum.
pub written :
    (v : ℕ)
    → v < 256
    → (p : ℕ) × (q : ℕ) × (pad 32 2 (upper_hex v) ≡ p ∷ q ∷ [])
      × (int_of 16 (p ∷ q ∷ []) ≡ some (nonneg v))
written v h = pair (pad 32 2 (upper_hex v)) (int_of-written v h)
  where
    pair :
        (t : List ℕ)
        → (length t ≡ 2) × (int_of 16 t ≡ some (nonneg v))
        → (p : ℕ) × (q : ℕ) × (t ≡ p ∷ q ∷ []) × (int_of 16 (p ∷ q ∷ []) ≡ some (nonneg v))
    pair [] (size, value) = absurd (omega (arith, size))
    pair (a ∷ []) (size, value) = absurd (omega (arith, size))
    pair (a ∷ b ∷ []) (size, value) = (a, b, refl, value)
    pair (a ∷ b ∷ c ∷ t) (size, value) = absurd (omega (arith, size))

pub checked-line :
    (d : ℕ) (body : List ℕ) (p q : ℕ)
    → pad 32 2 (upper_hex (b_checksum body)) ≡ p ∷ q ∷ []
    → checked (d ∷ body) ≡ line d body p q
checked-line d body p q e = rw e (rw append_assoc refl)

checked-AllAscii : (d : ℕ) (body : List ℕ) → d < 128 → AllAscii body → AllAscii (checked (d ∷ body))
checked-AllAscii d body small ascii =
    let v = b_checksum body in
    let bound = b_checksum-byte body (AllBytes-AllAscii body ascii) in
    (
      small,
      AllAscii-append (body ++ 42 ∷ pad 32 2 (upper_hex v)) crlf
          (AllAscii-append body (42 ∷ pad 32 2 (upper_hex v)) ascii
            (omega arith, AllAscii-written v bound))
          (omega arith, (omega arith, tt)),
    )

-- A sentence in ASCII that is written, with `$` or `!` in front and its first comma not at once behind that,
-- is accepted by the reader, which finds its address, its fields and its checksum.
pub process-message :
    (d : ℕ) (body : List ℕ) (i : ℕ)
    → (d ≡ 36) ⊎ (d ≡ 33)
    → AllAscii body
    → index 44 body ≡ some (i + 1)
    → (text : List ℕ) × (m : Nmea0183Msg) × (message (d ∷ body) ≡ ok text)
      × (process_nmea0183_frame text true ≡ ok (n0183_msg m))
      × (m.raw ≡ text)
      × (m.checksum ≡ b_checksum body)
      × (m.address ≡ take (i + 1) body)
      × (fields m ≡ split 44 (drop (i + 2) body))
unfolding fields message
process-message d body i begins ascii comma =
    let bytes = AllBytes-AllAscii body ascii in
    let (p, q, shape, value) = written (b_checksum body) (b_checksum-byte body bytes) in
    let small : d < 128 = elim begins [ inl e ↦ omega (arith, e) | inr e ↦ omega (arith, e) ] in
    let place : length body + 4 - 3 ≡ suc (length body) = omega arith in
    let from : i + 2 + 1 ≡ suc (i + 2) = omega arith in
    (
      line d body p q,
      sentence_msg d body p q (b_checksum body) i,
      encode_ascii (checked (d ∷ body)) (checked-AllAscii d body small ascii)
          ∙ ap ok (checked-line d body p q shape),
      process-line d body p q (b_checksum body) i begins value comma
          ∙ rw (==_refl (b_checksum body)) refl,
      refl,
      refl,
      refl,
      rw (place, from, take_front (length body) body (42 ∷ p ∷ q ∷ crlf) refl) refl,
    )

-- The constructor alone refuses a line with a wrong checksum, whatever its first byte is.
pub nmea0183-wrong :
    (d : ℕ) (body : List ℕ) (p q v : ℕ)
    → int_of 16 (p ∷ q ∷ []) ≡ some (nonneg v)
    → v ≢ b_checksum body
    → nmea0183_msg (line d body p q) true ≡ err invalid_frame
unfolding nmea0183_msg
nmea0183-wrong d body p q v value wrong =
    rw (framed-line d body p q, verify-line d body p q v value, ==_ne v (b_checksum body) wrong)
      refl
