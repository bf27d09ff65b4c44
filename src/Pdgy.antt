-- ===== src/Pdgy.antt =====
-- The text form `!PDGY` of NMEA 2000 messages: `asPDGY`, `fromPGDY` and `decodePGDY` in
-- navigation_server/router_core/nmea2000_msg.py, and `iKonvertMsg` with `send_n2k_msg` in
-- navigation_server/couplers/ikonvert.py. The functions of the module base64 are a parameter: `encode`
-- is `b64encode`, `decode` is `b64decode`, none where that raises. Times are in milliseconds.
pub mod RoundTrip
pub mod Tests
use navigation_server.Base.{
  ℕ, zero, suc, ◌/◌, Bool, true, false, ◌&&◌, Option, none, some, List, [], ◌∷◌, ◌++◌, ◌==◌,
  if◌then◌else◌, Exception, Result, ok, err, value_error, raw_decode, invalid_frame,
}
use navigation_server.Base.Texts.{PyInt, nonneg, neg, int_of, decimal, text_eq}
use navigation_server.Message.{N2kMsg, new_msg}
use navigation_server.Nmea0183.{
  Nmea0183Msg, NavMsg, null_msg, n0183_msg, n2k_msg, transparent_msg, crlf, process_nmea0183_frame,
  fields,
}

-- PDGY
abbrev pub pdgy : List ℕ
pdgy = 80 ∷ 68 ∷ 71 ∷ 89 ∷ []

-- `b'!PDGY,%d,%1d,%d,%d,%d,%s\r\n'`
unfoldable pub as_pdgy : (List ℕ → List ℕ) → N2kMsg → List ℕ
as_pdgy encode m =
    33
    ∷ (pdgy
        ++ 44
          ∷ (decimal m.pgn
              ++ 44
                ∷ (decimal m.prio
                    ++ 44
                      ∷ (decimal m.sa
                          ++ 44
                            ∷ (decimal m.da
                                ++ 44
                                  ∷ (decimal (m.ts / 1000) ++ 44 ∷ (encode m.payload ++ crlf)))))))

-- `b'!PDGY,%d,%d,%s\r\n'`, the frame that `iKonvert.send_n2k_msg` writes
unfoldable pub send_n2k_msg : (List ℕ → List ℕ) → N2kMsg → List ℕ
send_n2k_msg encode m =
    33 ∷ (pdgy ++ 44 ∷ (decimal m.pgn ++ 44 ∷ (decimal m.da ++ 44 ∷ (encode m.payload ++ crlf))))

-- The values of `int` on some texts. A message has no negative numbers here.
pub data Numbers : Type 0 where
  unreadable negative : Numbers
  numbers : List ℕ → Numbers

abbrev pub add_nonneg : ℕ → Numbers → Numbers
add_nonneg n (numbers ns) = numbers (n ∷ ns)
add_nonneg n unreadable = unreadable
add_nonneg n negative = negative

abbrev pub add_negative : Numbers → Numbers
add_negative unreadable = unreadable
add_negative negative = negative
add_negative (numbers ns) = negative

abbrev pub add_number : Option PyInt → Numbers → Numbers
add_number none ns = unreadable
add_number (some (nonneg n)) ns = add_nonneg n ns
add_number (some (neg zero)) ns = add_nonneg 0 ns
add_number (some (neg (suc n))) ns = add_negative ns

unfoldable pub read_numbers : List (List ℕ) → Numbers
read_numbers [] = numbers []
read_numbers (t ∷ ts) = add_number (int_of 10 t) (read_numbers ts)

-- What comes of a frame: NULL_MSG, a message, a message with a negative number, or an exception.
pub data Decoded : Type 0 where
  no_message negative_message : Decoded
  decoded_msg : N2kMsg → Decoded
  raises : Exception → Decoded

abbrev pub made : Result N2kMsg → Decoded
made (ok m) = decoded_msg m
made (err e) = raises e

-- The address 0 stands for all.
abbrev pub bus_address : ℕ → ℕ
bus_address da = if da == 0 then 255 else da

-- The message of a frame that was received, from its destination, PGN, priority and source.
abbrev pub received_msg : ℕ → Numbers → Option (List ℕ) → Decoded
received_msg now unreadable payload = raises value_error
received_msg now negative none = raises value_error
received_msg now negative (some payload) = negative_message
received_msg now (numbers ns) none = raises value_error
received_msg now (numbers (da ∷ pgn ∷ prio ∷ sa ∷ [])) (some payload) =
    made (new_msg now pgn prio sa (bus_address da) (some payload) 0)
received_msg now (numbers ns) (some payload) = raises value_error

-- The message of a frame to be sent, from its destination and PGN.
abbrev pub transmit_msg : ℕ → Numbers → List ℕ → Decoded
transmit_msg now unreadable payload = raises value_error
transmit_msg now negative payload = negative_message
transmit_msg now (numbers (da ∷ pgn ∷ [])) payload =
    made (new_msg now pgn 0 0 (bus_address da) (some payload) 0)
transmit_msg now (numbers ns) payload = raises value_error

abbrev pub transmit_data : ℕ → List ℕ → List ℕ → Option (List ℕ) → Decoded
transmit_data now pgn da none = raises raw_decode
transmit_data now pgn da (some payload) = transmit_msg now (read_numbers (da ∷ pgn ∷ [])) payload

abbrev pub transmit : ℕ → List ℕ → List ℕ → Option PyInt → Option (List ℕ) → Decoded
transmit now pgn da none payload = raises value_error
transmit now pgn da (some n) payload = transmit_data now pgn da payload

unfoldable pub decode_pgdy : (List ℕ → Option (List ℕ)) → ℕ → List (List ℕ) → Decoded
unfolding read_numbers
decode_pgdy decode now (pgn ∷ prio ∷ sa ∷ da ∷ ts ∷ payload ∷ []) =
    received_msg now (read_numbers (da ∷ pgn ∷ prio ∷ sa ∷ [])) (decode payload)
decode_pgdy decode now (pgn ∷ da ∷ payload ∷ []) =
    transmit now pgn da (int_of 10 da) (decode payload)
decode_pgdy decode now other = raises raw_decode

-- A sentence, if it is one of these.
abbrev pub from_sentence : (List ℕ → Option (List ℕ)) → ℕ → Nmea0183Msg → Decoded
from_sentence decode now m =
    if text_eq m.address pdgy && (m.delimiter == 33)
    then decode_pgdy decode now (fields m)
    else raises invalid_frame

abbrev pub from_frame : (List ℕ → Option (List ℕ)) → ℕ → Result NavMsg → Decoded
from_frame decode now (err e) = raises e
from_frame decode now (ok null_msg) = no_message
from_frame decode now (ok (n0183_msg m)) = from_sentence decode now m
from_frame decode now (ok (n2k_msg raw m)) = decoded_msg m
from_frame decode now (ok (transparent_msg raw)) = no_message

-- `fromPGDY`. The last two cases of `from_frame` do not occur here.
unfoldable pub from_pgdy : (List ℕ → Option (List ℕ)) → ℕ → List ℕ → Decoded
unfolding decode_pgdy
from_pgdy decode now frame = from_frame decode now (process_nmea0183_frame frame false)
