-- ===== src/Ikonvert/RoundTrip.antt =====
-- Lines `!PDGY` under `iKonvertMsg.decode` in navigation_server/couplers/ikonvert.py.
use navigation_server.Base.{
  ℕ, ◌≤◌, Bool, ◌≡◌, ◌≢◌, refl, ap, ◌∙◌, ◌/◌, false, ltb, Option, some, List, [], ◌∷◌, ◌++◌, length,
  length-append, if◌then◌else◌, arith, err, value_error,
}
use navigation_server.Base.Texts.{split, decimal}
use navigation_server.Base.Decimals.{
  Lacks, Lacks-append, split-field, split_last, next_field, int_of-decimal,
}
use navigation_server.Message.{N2kMsg, new_msg}
use navigation_server.Nmea0183.{crlf}
use navigation_server.Pdgy.{read_numbers, pdgy, as_pdgy}
use navigation_server.Ikonvert.{
  n2k_msg, rstrip_crlf, n2k_of, with_data, decode_n2k, decode_fields_of, decode_line,
}

rstrip-crlf : (xs : List ℕ) → Lacks 13 xs → Lacks 10 xs → rstrip_crlf (xs ++ crlf) ≡ xs
unfolding rstrip_crlf
rstrip-crlf [] h k = refl
rstrip-crlf (x ∷ []) (a, h) (b, k) = rw (a, b) refl
rstrip-crlf (x ∷ y ∷ xs) (a, h) (b, k) = rw (rstrip-crlf (y ∷ xs) h k) refl

-- The second field and the ones after it of a line `!PDGY`.
line_fields :
    (decode : List ℕ → Option (List ℕ)) (now : ℕ) (rest field : List ℕ) (fields : List (List ℕ))
    → 2 ≤ length rest
    → split 44 rest ≡ field ∷ fields
    → decode_line decode now (33 ∷ (pdgy ++ 44 ∷ rest))
      ≡ decode_n2k decode now (33 ∷ (pdgy ++ 44 ∷ rest)) (field ∷ fields)
unfolding decode_line
line_fields decode now rest field fields long parts =
    let line = 33 ∷ (pdgy ++ 44 ∷ rest) in
    let short : ltb (length line) 8 ≡ false = ground arith in
    let first = split-field 44 (33 ∷ pdgy) rest (refl, (refl, (refl, (refl, (refl, tt))))) in
    ap
      (λ (b : Bool).
        if b then err value_error else decode_fields_of decode now line (split 44 line))
      short
    ∙ ap (decode_fields_of decode now line)
        (first ∙ ap (λ (fs : List (List ℕ)). (33 ∷ pdgy) ∷ fs) parts)

two_more : (xs ys zs : List ℕ) → 2 ≤ length (xs ++ 44 ∷ (ys ++ 44 ∷ zs))
two_more xs ys zs =
    let outer = length-append xs (44 ∷ (ys ++ 44 ∷ zs)) in
    let inner = length-append ys (44 ∷ zs) in omega (arith, outer, inner)

-- base64 as it is documented: what is encoded is decoded again, is written without commas and without ends of lines, and
-- is empty for an empty payload only.
module _ (encode : List ℕ → List ℕ) (decode : List ℕ → Option (List ℕ))
    (decode-encode : (bytes : List ℕ) → decode (encode bytes) ≡ some bytes)
    (no_comma : (bytes : List ℕ) → Lacks 44 (encode bytes))
    (no_cr : (bytes : List ℕ) → Lacks 13 (encode bytes))
    (no_lf : (bytes : List ℕ) → Lacks 10 (encode bytes)) where
  with_data_filled :
      (now : ℕ) (line : List ℕ) (texts : List (List ℕ)) (payload : List ℕ)
      → payload ≢ []
      → with_data decode now line texts payload
        ≡ n2k_msg now line (read_numbers texts) (decode payload)
  with_data_filled now line texts [] filled = absurd (filled refl)
  with_data_filled now line texts (c ∷ cs) filled = refl

  n2k_fields :
      (now : ℕ) (line ts : List ℕ) (m : N2kMsg)
      → encode m.payload ≢ []
      → decode_n2k decode now line (
          decimal m.pgn
          ∷ decimal m.prio
          ∷ decimal m.sa
          ∷ decimal m.da
          ∷ ts
          ∷ (encode m.payload ++ crlf)
          ∷ [])
        ≡ n2k_of line (new_msg now m.pgn m.prio m.sa m.da (some m.payload) 0)
  unfolding decode_n2k
  n2k_fields now line ts m filled =
      let texts = decimal m.pgn ∷ decimal m.prio ∷ decimal m.sa ∷ decimal m.da ∷ [] in
      ap (with_data decode now line texts)
        (rstrip-crlf (encode m.payload) (no_cr m.payload) (no_lf m.payload))
      ∙ with_data_filled now line texts (encode m.payload) filled
      ∙ rw (int_of-decimal m.pgn, int_of-decimal m.prio, int_of-decimal m.sa, int_of-decimal m.da)
          (rw (decode-encode m.payload) refl)

  pub decode_line-as_pdgy :
      (now : ℕ) (m : N2kMsg)
      → encode m.payload ≢ []
      → decode_line decode now (as_pdgy encode m)
        ≡ n2k_of (as_pdgy encode m) (new_msg now m.pgn m.prio m.sa m.da (some m.payload) 0)
  unfolding decode_line as_pdgy
  decode_line-as_pdgy now m filled =
      let seconds = decimal (m.ts / 1000) in
      let b0 = encode m.payload ++ crlf in
      let b1 = seconds ++ 44 ∷ b0 in
      let b2 = decimal m.da ++ 44 ∷ b1 in
      let b3 = decimal m.sa ++ 44 ∷ b2 in
      let b4 = decimal m.prio ++ 44 ∷ b3 in
      let rest = decimal m.pgn ++ 44 ∷ b4 in
      let parts = next_field m.pgn b4 _ (
        next_field m.prio b3 _ (
          next_field m.sa b2 _ (
            next_field m.da b1 _ (
              next_field (m.ts / 1000) b0 _ (
                split_last 44 b0 (
                  Lacks-append 44 (encode m.payload) crlf (no_comma m.payload)
                    (refl, (refl, tt)))))))) in
      line_fields decode now rest (decimal m.pgn) _ (two_more (decimal m.pgn) (decimal m.prio) b3)
        parts
      ∙ n2k_fields now (as_pdgy encode m) seconds m filled
