-- ===== src/Pgn.antt =====
-- navigation_server/nmea2000_datamodel/nmea2k_pgn_definition.py, the class methods of `PGNDef`:
-- the ranges of PGN numbers and what follows from them. The definitions themselves come from an
-- XML file: `pgn_fast_packet` stands for `pgn_definitions.pgn_definition(pgn).fast_packet()`.
pub mod Ranges
use navigation_server.Base.{
  ℕ, ◌+◌, ◌*◌, ◌/◌, ◌%◌, bit_and, Bool, true, false, ◌||◌, List, [], ◌∷◌, leb, ltb, ◌==◌,
  if◌then◌else◌, contains, Result, ok, err, definition_error, ◌>>=◌,
}
use navigation_server.Base.Bits.{◌>>◌}

pub data Pdu : Type 0 where
  pdu1 pdu2 : Pdu

pub data RangeValue : Type 0 where
  can_j1939 std_single_frame_addressed prop_single_frame_addressed : RangeValue
  std_single_frame prop_single_frame std_fast_packet_addressed : RangeValue
  prop_fast_packet_addressed std_mixed prop_fast_packet : RangeValue

pub record PgnRange : Type 0 where
  pub start : ℕ
  pub to : ℕ
  pub pdu : Pdu
  pub value : RangeValue

abbrev range_of : ℕ → ℕ → Pdu → RangeValue → PgnRange
range_of start to pdu value = record { start = start; to = to; pdu = pdu; value = value }

-- `pgn_range[:5]` and `pgn_range[5:]`
abbrev pub low_ranges : List PgnRange
low_ranges =
    range_of 0 0xE7FF pdu1 can_j1939
    ∷ range_of 0xE800 0xEEFF pdu1 std_single_frame_addressed
    ∷ range_of 0xEF00 0xEFFF pdu1 prop_single_frame_addressed
    ∷ range_of 0xF000 0xFEFF pdu2 std_single_frame
    ∷ range_of 0xFF00 0xFFFF pdu2 prop_single_frame
    ∷ []

abbrev pub high_ranges : List PgnRange
high_ranges =
    range_of 0x10000 0x1EE00 pdu1 std_fast_packet_addressed
    ∷ range_of 0x1EF00 0x1EFFF pdu1 prop_fast_packet_addressed
    ∷ range_of 0x1F000 0x1FEFF pdu2 std_mixed
    ∷ range_of 0x1FF00 0x1FFFF pdu2 prop_fast_packet
    ∷ []

abbrev pub pgn_service : List ℕ
pgn_service = 59392 ∷ 59904 ∷ 60928 ∷ 65240 ∷ 126208 ∷ 126464 ∷ 126993 ∷ 126996 ∷ 126998 ∷ []

-- The loop over a part of the table: the first range that ends at or after the PGN.
unfoldable pub first_to : ℕ → List PgnRange → Result PgnRange
first_to pgn [] = err definition_error
first_to pgn (r ∷ rs) = let rest = first_to pgn rs in if leb pgn r.to then ok r else rest

unfoldable pub find_range : ℕ → Result PgnRange
unfolding first_to
find_range pgn = if leb pgn 0xFFFF then first_to pgn low_ranges else first_to pgn high_ranges

abbrev pub is_proprietary_value : RangeValue → Bool
is_proprietary_value prop_single_frame_addressed = true
is_proprietary_value prop_single_frame = true
is_proprietary_value prop_fast_packet_addressed = true
is_proprietary_value prop_fast_packet = true
is_proprietary_value _ = false

unfoldable pub is_pgn_proprietary : ℕ → Result Bool
unfolding find_range
is_pgn_proprietary pgn = do r ← find_range pgn; ok (is_proprietary_value r.value)

-- The PGN without its destination, and the destination: 0xFF for a PDU2.
unfoldable pub pgn_pdu1_adjust : ℕ → ℕ × ℕ
pgn_pdu1_adjust pgn =
    let pdu_format = bit_and (pgn >> 8) 0xFF in
    if ltb pdu_format 240 then (bit_and pgn 0x1FF00, bit_and pgn 0xFF) else (pgn, 0xFF)

abbrev pub is_mixed : RangeValue → Bool
is_mixed std_mixed = true
is_mixed _ = false

unfoldable pub fast_packet_check : (ℕ → Result Bool) → ℕ → Result Bool
unfolding find_range
fast_packet_check pgn_fast_packet pgn =
    if leb pgn 0xFFFF
    then ok false
    else do r ← find_range pgn; if is_mixed r.value then pgn_fast_packet pgn else ok true

unfoldable pub pgn_for_controller : ℕ → Bool
pgn_for_controller pgn =
    if leb pgn 0xE7FF then true else if contains pgn_service pgn then true else false
