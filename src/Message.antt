-- ===== src/Message.antt =====
-- navigation_server/router_core/nmea2000_msg.py, the class `NMEA2000Msg`: an NMEA 2000 message with
-- its payload not decoded. Times are in milliseconds since the epoch, 0 for none.
pub mod FastFlag
use navigation_server.Base.{
  ℕ, ◌+◌, ◌*◌, ◌-◌, ◌^◌, bit_and, Bool, true, false, Option, none, some, List, [], ◌∷◌, leb, ltb,
  ◌==◌, ◌&&◌, if◌then◌else◌, contains, length, get_elem?, Result, ok, err, value_error,
  struct_error, ◌>>=◌,
}
use navigation_server.Pgn.{pgn_service}

pub record N2kMsg : Type 0 where
  pub pgn : ℕ
  pub prio : ℕ
  pub sa : ℕ
  pub da : ℕ
  pub ts : ℕ
  pub fast_packet : Bool
  pub payload : List ℕ
  pub is_iso : Bool

-- `0x10000 >= self._pgn < 0x1F000` is a chained comparison, `0x10000 >= pgn and pgn < 0x1F000`.
unfoldable pub check_fast_packet : ℕ → List ℕ → Bool
check_fast_packet pgn payload =
    if ltb pgn 0x10000
    then false
    else if leb pgn 0x10000 && ltb pgn 0x1F000
    then true
    else if leb 0x1FF00 pgn
    then true
    else if ltb 8 (length payload)
    then true
    else false

unfoldable pub check_protocol : ℕ → Bool
check_protocol pgn = if contains pgn_service pgn then true else false

-- The constructor, without a protobuf object; `now` is `time.time()`.
unfoldable pub new_msg : ℕ → ℕ → ℕ → ℕ → ℕ → Option (List ℕ) → ℕ → Result N2kMsg
unfolding check_fast_packet check_protocol
new_msg now pgn prio sa da none timestamp = err value_error
new_msg now pgn prio sa da (some payload) timestamp = ok (record {
  pgn = pgn;
  prio = prio;
  sa = sa;
  da = da;
  ts = if timestamp == 0 then now else timestamp;
  fast_packet = check_fast_packet pgn payload;
  payload = payload;
  is_iso = check_protocol pgn;
})

-- The fields of an `nmea2000pb` object, as `as_protobuf` fills and `from_protobuf` reads them.
pub record Nmea2000Pb : Type 0 where
  pub pgn : ℕ
  pub priority : ℕ
  pub sa : ℕ
  pub da : ℕ
  pub timestamp : ℕ
  pub payload : List ℕ

unfoldable pub as_protobuf : N2kMsg → Nmea2000Pb
as_protobuf m = record {
  pgn = m.pgn;
  priority = m.prio;
  sa = m.sa;
  da = m.da;
  timestamp = m.ts;
  payload = m.payload;
}

-- The constructor with a protobuf object: the PGN is the argument, the rest comes from the object.
unfoldable pub new_msg_protobuf : ℕ → Nmea2000Pb → N2kMsg
unfolding check_fast_packet check_protocol
new_msg_protobuf pgn pb = record {
  pgn = pgn;
  prio = pb.priority;
  sa = pb.sa;
  da = pb.da;
  ts = pb.timestamp;
  fast_packet = check_fast_packet pgn pb.payload;
  payload = pb.payload;
  is_iso = check_protocol pgn;
}

-- The 11 low bits of the first two bytes, little endian.
unfoldable pub get_manufacturer : N2kMsg → Result ℕ
get_manufacturer m = elim m.payload [
  | [] ↦ err struct_error
  | b0 ∷ rest ↦ elim rest [
    | [] ↦ err struct_error
    | b1 ∷ _ ↦ ok (bit_and (b0 + 256 * b1) (2 ^ 11 - 1))
  ]
]
