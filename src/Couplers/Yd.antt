-- ===== src/Couplers/Yd.antt =====
-- navigation_server/couplers/ydn2k_coupler.py: the coupler for Yacht Devices gateways, one line of text
-- for each frame. `white_list` are the PGNs that are taken, `is_fast` what the definition of a PGN says.
use navigation_server.Base.{
  ℕ, ◌+◌, bit_or, Bool, true, false, not, Option, none, some, List, [], ◌∷◌, ◌++◌, leb, ◌==◌,
  if◌then◌else◌, length, take, drop, map, contains, Result, ok, err, ◌>>=◌, index_error,
  incomplete_message,
}
use navigation_server.Base.Bits.{◌<<◌}
use navigation_server.Base.Texts.{split, int_of, upper_hex, pad, hex_spaced}
use navigation_server.Message.{N2kMsg, new_msg}
use navigation_server.FastPacket.{FastPacketHandler, split_message}
use navigation_server.Nmea0183.{NavMsg, null_msg, n2k_msg, crlf}
use navigation_server.Couplers.{natural, value_of, low_bits, shift_two, byte, assemble, complete}

pub record YdCoupler : Type 0 where
  pub msg_raw : ℕ
  pub has_writer : Bool
  pub reply_queue : List (List ℕ)
  pub fast_packet_handler : FastPacketHandler

pub record MsgId : Type 0 where
  pub pgn : ℕ
  pub prio : ℕ
  pub sa : ℕ

unfoldable pub decode_msgid : List ℕ → Result MsgId
decode_msgid msgid = value_of (int_of 16 (drop 1 (take 6 msgid))) >>= λ number.
    value_of (int_of 16 (take 2 msgid)) >>= λ first.
    natural (int_of 16 (drop 6 (take 8 msgid))) >>= λ sa.
    ok (record { pgn = low_bits 18 number; prio = low_bits 3 (shift_two first); sa = sa })

unfoldable pub data_bytes : List (List ℕ) → Result (List ℕ)
data_bytes [] = ok []
data_bytes (db ∷ dbs) =
    let rest = data_bytes dbs in byte (int_of 16 db) >>= λ b. rest >>= λ bs. ok (b ∷ bs)

abbrev unexpected_pgns : List ℕ
unexpected_pgns = 60159 ∷ 61183 ∷ 61236 ∷ 126996 ∷ []

abbrev is_letter : ℕ → List ℕ → Bool
is_letter c [] = false
is_letter c (a ∷ []) = a == c
is_letter c (a ∷ b ∷ rest) = false

-- A reply to a line that was sent, `T`, and a line received, `R`.
unfoldable pub direction : YdCoupler → List ℕ → List ℕ → ℕ → Result (Unit {0}) × YdCoupler
direction c frame letter pgn =
    if is_letter 84 letter
    then (if not c.has_writer
        then (if contains unexpected_pgns pgn then (ok tt, c) else (err incomplete_message, c))
        else if leb 30 (length c.reply_queue)
        then (err incomplete_message, c)
        else (ok tt, record c { reply_queue = c.reply_queue ++ frame ∷ [] }))
    else if is_letter 82 letter
    then (ok tt, c)
    else (err incomplete_message, c)

abbrev is_listed : Option (List ℕ) → ℕ → Bool
is_listed none pgn = true
is_listed (some pgns) pgn = contains pgns pgn

abbrev pub yd_message : ℕ → List ℕ → MsgId → Result (List ℕ) → Result NavMsg
yd_message now frame id (err e) = err e
yd_message now frame id (ok payload) =
    new_msg now id.pgn id.prio id.sa 0 (some payload) 0 >>= λ m. ok (n2k_msg (some frame) m)

-- The part behind the direction.
unfoldable pub decode_data :
    (ℕ → Result Bool) → ℕ → YdCoupler → List ℕ → List (List ℕ) → MsgId → Result NavMsg × YdCoupler
unfolding data_bytes
decode_data is_fast now c frame dbs id = elim (data_bytes dbs) [
  | err e ↦ (err e, c)
  | ok bytes ↦
      let (payload, after) =
        assemble complete (is_fast id.pgn) c.fast_packet_handler now id.pgn id.sa bytes in
      (yd_message now frame id payload, record c { fast_packet_handler = after })
]

abbrev pub directed :
    (ℕ → Result Bool)
    → ℕ
    → List ℕ
    → List (List ℕ)
    → MsgId
    → Result (Unit {0}) × YdCoupler
    → Result NavMsg × YdCoupler
directed is_fast now frame dbs id (err e, c) = (err e, c)
directed is_fast now frame dbs id (ok _, c) = decode_data is_fast now c frame dbs id

unfoldable pub decode_fields :
    (ℕ → Result Bool)
    → Option (List ℕ)
    → ℕ
    → YdCoupler
    → List ℕ
    → List (List ℕ)
    → Result NavMsg × YdCoupler
unfolding decode_msgid direction decode_data
decode_fields is_fast white_list now c frame (time ∷ letter ∷ msgid ∷ db ∷ dbs) =
    elim (decode_msgid msgid) [
      | err e ↦ (err e, c)
      | ok id ↦
          if is_listed white_list id.pgn
          then directed is_fast now frame (db ∷ dbs) id (direction c frame letter id.pgn)
          else (err incomplete_message, c)
    ]
decode_fields is_fast white_list now c frame [] = (err incomplete_message, c)
decode_fields is_fast white_list now c frame (a ∷ []) = (err incomplete_message, c)
decode_fields is_fast white_list now c frame (a ∷ b ∷ []) = (err incomplete_message, c)
decode_fields is_fast white_list now c frame (a ∷ b ∷ d ∷ []) = (err incomplete_message, c)

unfoldable pub decode_frame :
    (ℕ → Result Bool) → Option (List ℕ) → ℕ → YdCoupler → List ℕ → Result NavMsg × YdCoupler
unfolding decode_fields
decode_frame is_fast white_list now c [] = (err index_error, c)
decode_frame is_fast white_list now c (b ∷ bs) =
    if b == 4
    then (ok null_msg, c)
    else decode_fields is_fast white_list now (record c { msg_raw = c.msg_raw + 1 }) (b ∷ bs)
        (split 32 (b ∷ bs))

-- The identifier has the destination where the source stands.
unfoldable pub canid : N2kMsg → List ℕ
canid m = pad 48 8 (upper_hex (bit_or (bit_or (m.pgn << 8) (m.prio << 26)) m.da))

abbrev pub yd_line : List ℕ → List ℕ → List ℕ
yd_line id bytes = id ++ 32 ∷ (hex_spaced bytes ++ crlf)

unfoldable pub encode_nmea2000 :
    YdCoupler → N2kMsg → (List (List ℕ) × Result (Unit {0})) × YdCoupler
unfolding canid
encode_nmea2000 c m =
    let (cut, after) = split_message c.fast_packet_handler m.pgn m.payload in
    if m.fast_packet
    then ((map (yd_line (canid m)) cut.0, cut.1), record c { fast_packet_handler = after })
    else ((yd_line (canid m) m.payload ∷ [], ok tt), c)

-- `validate_n2k_frame`: a reply is waited for; without one only an error is logged.
unfoldable pub validate_n2k_frame : YdCoupler → YdCoupler
validate_n2k_frame c = record c { reply_queue = drop 1 c.reply_queue }
