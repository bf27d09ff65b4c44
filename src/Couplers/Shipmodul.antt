-- ===== src/Couplers/Shipmodul.antt =====
-- navigation_server/couplers/shipmodul_if.py: the coupler for a Miniplex multiplexer, which wraps
-- NMEA 2000 frames into `$MXPGN` sentences. The configuration session and the sockets are not modelled.
use navigation_server.Base.{
  ℕ, ◌+◌, ◌-◌, ◌%◌, bit_and, bit_or, Bool, true, false, not, ◌&&◌, ◌||◌, Option, none, some, List,
  [], ◌∷◌, ◌++◌, ltb, leb, ◌==◌, if◌then◌else◌, length, take, drop, replicate, Result, ok, err,
  ◌>>=◌, index_error, value_error, coupler_read, attribute_error, set,
}
use navigation_server.Base.Bits.{◌<<◌, ◌>>◌}
use navigation_server.Base.Texts.{index, int_of, upper_hex, pad, hex, from_hex}
use navigation_server.Message.{N2kMsg, new_msg}
use navigation_server.Pgn.{pgn_pdu1_adjust, fast_packet_check, pgn_for_controller}
use navigation_server.FastPacket.{FastPacketHandler, split_message}
use navigation_server.Nmea0183.{
  Nmea0183Msg, NavMsg, null_msg, n0183_msg, n2k_msg, transparent_msg, nmea0183_msg, fields,
  formatter, b_checksum, crlf,
}
use navigation_server.Couplers.{natural, nth, assemble, dropped}

pub record Shipmodul : Type 0 where
  pub check_in_progress : Bool
  pub check_ok : Bool
  pub configmode : Bool
  pub total_msg_raw : ℕ
  pub mix_mode : Bool
  pub has_controller : Bool
  pub fast_packet_handler : FastPacketHandler

-- b'$PSMDVER'
abbrev pub version_fmt : List ℕ
version_fmt = 36 ∷ 80 ∷ 83 ∷ 77 ∷ 68 ∷ 86 ∷ 69 ∷ 82 ∷ []

abbrev pub same : List ℕ → List ℕ → Bool
same [] [] = true
same [] (b ∷ bs) = false
same (a ∷ rest) [] = false
same (a ∷ rest) (b ∷ bs) = (a == b) && same rest bs

-- A tag stands between `\s` and the next backslash.
unfoldable pub without_tag : List ℕ → Result (List ℕ)
without_tag frame =
    if same (take 2 frame) (92 ∷ 115 ∷ [])
    then elim (index 92 (drop 2 frame)) [
      | none ↦ err value_error
      | some end_of_tag ↦ ok (drop (end_of_tag + 1) frame)
    ]
    else ok frame

abbrev pub as_nav : Result Nmea0183Msg → Result NavMsg
as_nav (ok m) = ok (n0183_msg m)
as_nav (err e) = err e

unfoldable pub shipmodul_process_frame : Shipmodul → List ℕ → Result NavMsg × Shipmodul
unfolding without_tag
shipmodul_process_frame s [] = (err index_error, s)
shipmodul_process_frame s (b ∷ bs) =
    let frame = b ∷ bs in
    let counted = record s { total_msg_raw = s.total_msg_raw + 1 } in
    if b == 4
    then (ok null_msg, s)
    else if s.check_in_progress && same (take 8 frame) version_fmt
    then (as_nav (nmea0183_msg frame true), record counted { check_ok = true })
    else (as_nav (without_tag frame >>= λ text. nmea0183_msg text true), counted)

-- A version message is sent when nothing is going on; without an answer the coupler is closed. The
-- flags say whether it closes and whether it sends.
unfoldable pub check_connection : Shipmodul → (Bool × Bool) × Shipmodul
check_connection s =
    if s.check_in_progress
    then ((not s.check_ok, false), record s { check_in_progress = false })
    else if not s.configmode
    then ((false, true), record s { check_in_progress = true; check_ok = false })
    else ((false, false), s)

-- `rdata[id] = b` from 7 downwards; below 0 the index counts from the end of the eight bytes.
unfoldable pub fill_backwards : List ℕ → ℕ → List ℕ → Result (List ℕ)
fill_backwards rdata count [] = ok rdata
fill_backwards rdata count (b ∷ bs) =
    let rest = fill_backwards (set rdata ((15 - count) % 8) b) (count + 1) bs in
    if ltb count 16 then rest else err index_error

-- `rdata[id+1:]` after `count` bytes
abbrev pub written_part : ℕ → List ℕ → List ℕ
written_part count rdata = if leb count 8 then drop (8 - count) rdata else drop (16 - count) rdata

-- b'$MXPGN,'
abbrev pub mxpgn_head : List ℕ
mxpgn_head = 36 ∷ 77 ∷ 88 ∷ 80 ∷ 71 ∷ 78 ∷ 44 ∷ []

-- The sentence for one frame; the array keeps what the frame before it left.
unfoldable pub encode_frame : N2kMsg → List ℕ → List ℕ → Result (List ℕ) × List ℕ
unfolding fill_backwards
encode_frame m rdata bytes = elim (fill_backwards rdata 0 bytes) [
  | err e ↦ (err e, rdata)
  | ok filled ↦
      let attr = bit_or (bit_or (bit_or 0x8000 (m.prio << 12)) (length bytes << 8)) m.da in
      let sd =
        mxpgn_head
        ++ pad 48 6 (upper_hex m.pgn)
        ++ 44 ∷ pad 32 4 (upper_hex attr)
        ++ 44 ∷ hex (written_part (length bytes) filled) in
      (ok (sd ++ 42 ∷ pad 48 2 (upper_hex (b_checksum (drop 1 sd))) ++ crlf), filled)
]

-- The frames of a message in order, until one raises.
unfoldable pub encode_frames : N2kMsg → List ℕ → List (List ℕ) → List (List ℕ) × Result (Unit {0})
unfolding encode_frame
encode_frames m rdata [] = ([], ok tt)
encode_frames m rdata (f ∷ fs) =
    let one = encode_frame m rdata f in
    let rest = encode_frames m one.1 fs in
    elim one.0 [ err e ↦ ([], err e) | ok sentence ↦ (sentence ∷ rest.0, rest.1) ]

abbrev both : Result (Unit {0}) → Result (Unit {0}) → Result (Unit {0})
both (err e) last = err e
both (ok _) last = last

unfoldable pub encode_nmea2000 :
    Shipmodul → N2kMsg → (List (List ℕ) × Result (Unit {0})) × Shipmodul
unfolding encode_frames
encode_nmea2000 s m =
    let zeros = replicate 8 0 in
    let (cut, after) = split_message s.fast_packet_handler m.pgn m.payload in
    let sentences = encode_frames m zeros cut.0 in
    if m.fast_packet
    then ((sentences.0, both sentences.1 cut.1), record s { fast_packet_handler = after })
    else (encode_frames m zeros (m.payload ∷ []), s)

unfoldable pub reversed : List ℕ → List ℕ
reversed [] = []
reversed (b ∷ bs) = reversed bs ++ b ∷ []

-- The three fields, as they are read before anything else is decided.
unfoldable pub mxpgn_numbers : List (List ℕ) → Result (ℕ × ℕ)
mxpgn_numbers parts = nth parts 0 >>= λ p. natural (int_of 16 p) >>= λ pgn.
    nth parts 1 >>= λ a. natural (int_of 16 a) >>= λ attribute. ok (pgn, attribute)

abbrev pub data_of : Option (List ℕ) → Result (List ℕ)
data_of none = err value_error
data_of (some bytes) = ok (reversed bytes)

unfoldable pub mxpgn_data : List (List ℕ) → Result (List ℕ)
unfolding reversed
mxpgn_data parts = nth parts 2 >>= λ text. data_of (from_hex text)

abbrev pub finish : (now pgn prio sa da : ℕ) → Result (List ℕ) → Result NavMsg
finish now pgn prio sa da (err e) = err e
finish now pgn prio sa da (ok bytes) =
    new_msg now pgn prio sa da (some bytes) 0 >>= λ m. ok (n2k_msg none m)

-- `is_fast` is what the definition of a PGN says.
unfoldable pub mxpgn_assembled :
    (ℕ → Result Bool) → ℕ → Shipmodul → ℕ → ℕ → List ℕ → Result NavMsg × Shipmodul
mxpgn_assembled is_fast now s number attribute bytes =
    let (pgn, da) = pgn_pdu1_adjust number in
    let prio = bit_and (attribute >> 12) 7 in
    let sa = bit_and attribute 0xFF in
    let (payload, after) =
      assemble dropped (fast_packet_check is_fast pgn) s.fast_packet_handler now pgn sa bytes in
    (finish now pgn prio sa da payload, record s { fast_packet_handler = after })

unfoldable pub mxpgn_decode :
    (ℕ → Result Bool) → ℕ → Shipmodul → Nmea0183Msg → Result NavMsg × Shipmodul
unfolding mxpgn_numbers mxpgn_data mxpgn_assembled
mxpgn_decode is_fast now s m = elim (mxpgn_numbers (fields m)) [
  | err e ↦ (err e, s)
  | ok (number, attribute) ↦
      if s.mix_mode && (not s.has_controller || not (pgn_for_controller (pgn_pdu1_adjust number).0))
      then (err coupler_read, s)
      else elim (mxpgn_data (fields m)) [
        | err e ↦ (err e, s)
        | ok bytes ↦ mxpgn_assembled is_fast now s number attribute bytes
      ]
]

abbrev pub is_mxpgn : Result (List ℕ) → Bool
is_mxpgn (ok f) = same f (80 ∷ 71 ∷ 78 ∷ [])
is_mxpgn (err e) = false

-- The frame is counted here and again by `shipmodul_process_frame`. What that returns for an answer to
-- the version request is a sentence too.
unfoldable pub shipmodul_extract_nmea2000 :
    (ℕ → Result Bool) → ℕ → Shipmodul → List ℕ → Result NavMsg × Shipmodul
unfolding shipmodul_process_frame mxpgn_decode
shipmodul_extract_nmea2000 is_fast now s [] = (err index_error, s)
shipmodul_extract_nmea2000 is_fast now s (b ∷ bs) =
    let (text, after) =
      shipmodul_process_frame (record s { total_msg_raw = s.total_msg_raw + 1 }) (b ∷ bs) in
    if b == 4 then (ok null_msg, s) else elim text [
      | err e ↦ (err e, after)
      | ok (n0183_msg m) ↦
          if is_mxpgn (formatter m)
          then mxpgn_decode is_fast now after m
          else (ok (n0183_msg m), after)
      | ok null_msg ↦ (err attribute_error, after)
      | ok (n2k_msg raw m) ↦ (err attribute_error, after)
      | ok (transparent_msg raw) ↦ (err attribute_error, after)
    ]
