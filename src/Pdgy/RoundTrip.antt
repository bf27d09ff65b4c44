-- ===== src/Pdgy/RoundTrip.antt =====
-- `asPDGY` and `fromPGDY` in navigation_server/router_core/nmea2000_msg.py, one after the other.
use navigation_server.Base.{
  ◌==◌, if◌then◌else◌, ℕ, suc, ◌+◌, ◌-◌, ◌/◌, ◌≡◌, refl, sym, ap, ◌∙◌, false, Option, some, List,
  [], ◌∷◌, ◌++◌, length, length-append, take_front, drop_front, arith, append_assoc, ok,
}
use navigation_server.Base.Texts.{split, index, decimal}
use navigation_server.Base.Decimals.{next_field, Lacks, split_last, int_of-decimal}
use navigation_server.Message.{N2kMsg, new_msg}
use navigation_server.Nmea0183.{
  Nmea0183Msg, n0183_msg, crlf, framed, with_fields, nmea0183_msg, process_nmea0183_frame, fields,
}
use navigation_server.Pdgy.{
  pdgy, as_pdgy, send_n2k_msg, made, bus_address, decode_pgdy, from_frame, from_pgdy,
}

abbrev pub pdgy_line : List ℕ → List ℕ
pdgy_line body = 33 ∷ (pdgy ++ 44 ∷ (body ++ crlf))

abbrev pub pdgy_msg : List ℕ → Nmea0183Msg
pdgy_msg body = record {
  raw = pdgy_line body;
  datalen = length body + 6;
  checksum = 0;
  datalen_s = length body + 6;
  delimiter = 33;
  datafields_s = 6;
  address = pdgy;
  proprietary = false;
}

framed-pdgy_line : (body : List ℕ) → framed (pdgy_line body) ≡ (pdgy_line body, length body + 6)
unfolding framed
framed-pdgy_line body =
    let all = length-append body crlf in
    let count : length (pdgy_line body) - 2 ≡ suc (suc (suc (suc (suc (suc (length body + 0)))))) =
      omega (arith, all) in
    let plain : suc (suc (suc (suc (suc (suc (length body + 0)))))) ≡ length body + 6 =
      omega arith in
    rw (count, drop_front (length body) 0 body crlf refl)
      (ap (λ (n : ℕ). (pdgy_line body, n)) plain)

process-pdgy_line :
    (body : List ℕ) → process_nmea0183_frame (pdgy_line body) false ≡ ok (n0183_msg (pdgy_msg body))
unfolding process_nmea0183_frame nmea0183_msg with_fields index
process-pdgy_line body = rw (framed-pdgy_line body) refl

fields-pdgy_line : (body : List ℕ) → fields (pdgy_msg body) ≡ split 44 body
unfolding fields
fields-pdgy_line body =
    let front : length body + 6 ≡ suc (suc (suc (suc (suc (suc (length body)))))) = omega arith in
    rw front (ap (split 44) (take_front (length body) body crlf refl))

from_pgdy_line :
    (decode : List ℕ → Option (List ℕ)) (now : ℕ) (body : List ℕ)
    → from_pgdy decode now (pdgy_line body) ≡ decode_pgdy decode now (split 44 body)
unfolding from_pgdy
from_pgdy_line decode now body =
    ap (from_frame decode now) (process-pdgy_line body)
    ∙ ap (decode_pgdy decode now) (fields-pdgy_line body)

-- Fields with a comma between each two, and what ends the line.
joined_line :
    (field rest after line : List ℕ)
    → line ≡ rest ++ after
    → field ++ 44 ∷ line ≡ (field ++ 44 ∷ rest) ++ after
joined_line field rest after line e =
    ap (λ (l : List ℕ). field ++ 44 ∷ l) e ∙ sym (append_assoc field (44 ∷ rest) after)

-- base64 as it is documented: what is encoded is decoded again, and is written without commas.
module _ (encode : List ℕ → List ℕ) (decode : List ℕ → Option (List ℕ))
    (decode-encode : (bytes : List ℕ) → decode (encode bytes) ≡ some bytes)
    (encode-Lacks : (bytes : List ℕ) → Lacks 44 (encode bytes)) where
  receive_fields :
      (now : ℕ) (m : N2kMsg)
      → decode_pgdy decode now (
          decimal m.pgn
          ∷ decimal m.prio
          ∷ decimal m.sa
          ∷ decimal m.da
          ∷ decimal (m.ts / 1000)
          ∷ encode m.payload
          ∷ [])
        ≡ made (new_msg now m.pgn m.prio m.sa (if m.da == 0 then 255 else m.da) (some m.payload) 0)
  unfolding decode_pgdy
  receive_fields now m =
      rw (int_of-decimal m.pgn, int_of-decimal m.prio, int_of-decimal m.sa, int_of-decimal m.da)
        (rw (decode-encode m.payload) refl)

  -- A message that is written by `asPDGY` is read back by `fromPGDY` with its PGN, priority, source and payload;
  -- the destination 0 becomes 255, and the time is the one of the reading.
  pub from_pgdy-as_pdgy :
      (now : ℕ) (m : N2kMsg)
      → from_pgdy decode now (as_pdgy encode m)
        ≡ made (new_msg now m.pgn m.prio m.sa (if m.da == 0 then 255 else m.da) (some m.payload) 0)
  unfolding as_pdgy
  from_pgdy-as_pdgy now m =
      let seconds = m.ts / 1000 in
      let b1 = decimal seconds ++ 44 ∷ encode m.payload in
      let b2 = decimal m.da ++ 44 ∷ b1 in
      let b3 = decimal m.sa ++ 44 ∷ b2 in
      let b4 = decimal m.prio ++ 44 ∷ b3 in
      let body = decimal m.pgn ++ 44 ∷ b4 in
      let line : as_pdgy encode m ≡ pdgy_line body =
        ap (λ (l : List ℕ). 33 ∷ (pdgy ++ 44 ∷ l))
          (joined_line (decimal m.pgn) b4 crlf _ (
            joined_line (decimal m.prio) b3 crlf _ (
              joined_line (decimal m.sa) b2 crlf _ (
                joined_line (decimal m.da) b1 crlf _
                  (joined_line (decimal seconds) (encode m.payload) crlf _ refl))))) in
      let parts = next_field m.pgn b4 _ (
        next_field m.prio b3 _ (
          next_field m.sa b2 _ (
            next_field m.da b1 _ (
              next_field seconds (encode m.payload) _
                (split_last 44 (encode m.payload) (encode-Lacks m.payload)))))) in
      ap (from_pgdy decode now) line
      ∙ from_pgdy_line decode now body
      ∙ ap (decode_pgdy decode now) parts
      ∙ receive_fields now m

  transmit_fields :
      (now : ℕ) (m : N2kMsg)
      → decode_pgdy decode now (decimal m.pgn ∷ decimal m.da ∷ encode m.payload ∷ [])
        ≡ made (new_msg now m.pgn 0 0 (bus_address m.da) (some m.payload) 0)
  unfolding decode_pgdy
  transmit_fields now m =
      rw (int_of-decimal m.da, decode-encode m.payload)
        (rw (int_of-decimal m.pgn, int_of-decimal m.da) refl)

  -- What `iKonvert.send_n2k_msg` writes of a message is read by `fromPGDY` with its PGN and payload, the priority 0 and
  -- the source 0; the destination 0 becomes 255, and the time is the one of the reading.
  pub from_pgdy-send_n2k_msg :
      (now : ℕ) (m : N2kMsg)
      → from_pgdy decode now (send_n2k_msg encode m)
        ≡ made (new_msg now m.pgn 0 0 (if m.da == 0 then 255 else m.da) (some m.payload) 0)
  unfolding send_n2k_msg
  from_pgdy-send_n2k_msg now m =
      let rest = decimal m.da ++ 44 ∷ encode m.payload in
      let body = decimal m.pgn ++ 44 ∷ rest in
      let line : send_n2k_msg encode m ≡ pdgy_line body =
        ap (λ (l : List ℕ). 33 ∷ (pdgy ++ 44 ∷ l))
          (joined_line (decimal m.pgn) rest crlf _
            (joined_line (decimal m.da) (encode m.payload) crlf _ refl)) in
      let parts = next_field m.pgn rest _ (
        next_field m.da (encode m.payload) _
          (split_last 44 (encode m.payload) (encode-Lacks m.payload))) in
      ap (from_pgdy decode now) line
      ∙ from_pgdy_line decode now body
      ∙ ap (decode_pgdy decode now) parts
      ∙ transmit_fields now m
