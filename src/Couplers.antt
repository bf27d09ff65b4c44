-- ===== src/Couplers.antt =====
-- The couplers that carry NMEA 2000 messages as text. One module each for
-- navigation_server/couplers/shipmodul_if.py, navigation_server/couplers/ydn2k_coupler.py and the PDGY
-- sentences of navigation_server/router_core/nmea2000_msg.py. Here is what they share: the numbers in a
-- text, and the reassembly of fast packets. A negative number, which Python would go on with, is an
-- error here where it is not masked.
pub mod Shipmodul
pub mod Yd
pub mod Tagged
pub mod Mxpgn
pub mod YdRoundTrip
pub mod YdFrames
pub mod YdReply
mod Tests
use navigation_server.Base.{
  ℕ, ◌+◌, ◌-◌, ◌/◌, ◌%◌, ◌^◌, Bool, true, false, Option, none, some, List, [], ◌∷◌, ltb, ◌==◌,
  if◌then◌else◌, Result, ok, err, Exception, value_error, index_error, incomplete_message,
  unknown_pgn, fast_packet_first, fast_packet_duplicate, fast_packet_missing, get_elem?,
}
use navigation_server.Base.Texts.{PyInt, nonneg, neg, int_of}
use navigation_server.FastPacket.{FastPacketHandler, process_frame, is_pgn_active}

abbrev pub natural : Option PyInt → Result ℕ
natural none = err value_error
natural (some (nonneg n)) = ok n
natural (some (neg n)) = if n == 0 then ok 0 else err value_error

-- The low bits of a number in two's complement: `& (2 ** k - 1)`.
abbrev pub low_bits : ℕ → PyInt → ℕ
low_bits k (nonneg n) = n % 2 ^ k
low_bits k (neg n) = (2 ^ k - n % 2 ^ k) % 2 ^ k

-- The shift to the right by two, which rounds down.
abbrev pub shift_two : PyInt → PyInt
shift_two (nonneg n) = nonneg (n / 4)
shift_two (neg n) = neg ((n + 3) / 4)

abbrev pub value_of : Option PyInt → Result PyInt
value_of none = err value_error
value_of (some n) = ok n

abbrev pub byte : Option PyInt → Result ℕ
byte none = err value_error
byte (some (nonneg n)) = if ltb n 256 then ok n else err value_error
byte (some (neg n)) = if n == 0 then ok 0 else err value_error

abbrev pub nth : List (List ℕ) → ℕ → Result (List ℕ)
nth fields i = elim (get_elem? fields i) [ none ↦ err index_error | some f ↦ ok f ]

abbrev pub is_fast_packet_exception : Exception → Bool
is_fast_packet_exception e = elim e [
  | fast_packet_first k ↦ true
  | fast_packet_duplicate k ↦ true
  | fast_packet_missing k ↦ true
  | _ ↦ false
]

-- `except FastPacketException`: the message is incomplete. So is one without a payload yet.
abbrev pub caught : Result (Option (List ℕ)) → Result (List ℕ)
caught (ok (some payload)) = ok payload
caught (ok none) = err incomplete_message
caught (err e) = if is_fast_packet_exception e then err incomplete_message else err e

-- The same without the handler.
abbrev pub complete : Result (Option (List ℕ)) → Result (List ℕ)
complete (ok (some payload)) = ok payload
complete (ok none) = err incomplete_message
complete (err e) = err e

-- The handler, and then nothing but `raise IncompleteMessage`.
abbrev pub dropped : Result (Option (List ℕ)) → Result (List ℕ)
dropped (ok payload) = err incomplete_message
dropped (err e) = if is_fast_packet_exception e then err incomplete_message else err e

-- Whether a PGN is sent in fast packets; an unknown one cannot be read.
abbrev pub check_pgn : Result Bool → Result Bool
check_pgn (ok b) = ok b
check_pgn (err e) = elim e as (λ x. Result Bool) [
  | unknown_pgn ↦ err incomplete_message
  | _ ↦ err e
]

-- The payload of a frame: the frame itself, or what the fast packet handler makes of it. `first` is
-- what a coupler does with the outcome of a frame that opens a sequence.
unfoldable pub assemble :
    (Result (Option (List ℕ)) → Result (List ℕ))
    → Result Bool
    → FastPacketHandler
    → (now pgn sa : ℕ) → List ℕ
    → Result (List ℕ) × FastPacketHandler
assemble first is_fast h now pgn sa frame = elim (is_pgn_active h pgn sa frame) [
  | err e ↦ (err e, h)
  | ok true ↦ let (outcome, after) = process_frame h now pgn sa frame in (caught outcome, after)
  | ok false ↦ elim (check_pgn is_fast) [
    | err e ↦ (err e, h)
    | ok false ↦ (ok frame, h)
    | ok true ↦ let (outcome, after) = process_frame h now pgn sa frame in (first outcome, after)
  ]
]
