-- ===== src/VeDirect.antt =====
-- navigation_server/couplers/vedirect_coupler.py: the class `Vedirect`, which reads the text blocks
-- of a VE.Direct device byte by byte and writes commands to it. The serial port is a list of
-- bytes, the trace file is left out. A Python `str` is the list of its characters' codes.
pub mod Text
pub mod Blocks
pub mod Packets
pub mod Commands
mod Tests
use navigation_server.Base.{
  ℕ, zero, suc, ◌+◌, ◌%◌, Bool, true, false, not, ◌&&◌, Option, none, some, List, [], ◌∷◌, ◌++◌,
  ltb, leb, ◌==◌, if◌then◌else◌, length,
}
use navigation_server.Base.Texts.{text_eq}

-- What the dictionary of a packet holds: the texts of the fields, and the time of its arrival.
pub data Value : Type 0 where
  text : List ℕ → Value
  time : ℕ → Value

abbrev pub Fields : Type 0
Fields = List (List ℕ × Value)

-- dict[key] = value
abbrev pub set_value : Fields → List ℕ → Value → Fields
set_value [] key value = (key, value) ∷ []
set_value ((k, v) ∷ fields) key value =
    if text_eq k key then (k, value) ∷ fields else (k, v) ∷ set_value fields key value

pub data State : Type 0 where
  hex wait_header in_key in_value in_checksum : State

-- `buffer` is the part of `_buffer` below `_buflen`.
pub record Vedirect : Type 0 where
  pub key : List ℕ
  pub value : List ℕ
  pub bytes_sum : ℕ
  pub state : State
  pub dict : Fields
  pub buffer : List ℕ

abbrev pub checksum_key : List ℕ
checksum_key = 67 ∷ 104 ∷ 101 ∷ 99 ∷ 107 ∷ 115 ∷ 117 ∷ 109 ∷ []

abbrev pub timestamp_key : List ℕ
timestamp_key = 116 ∷ 105 ∷ 109 ∷ 101 ∷ 115 ∷ 116 ∷ 97 ∷ 109 ∷ 112 ∷ []

abbrev pub wait_header_byte : Vedirect → ℕ → Vedirect
wait_header_byte v byte = record v {
  bytes_sum = v.bytes_sum + byte;
  state = if byte == 13 then wait_header else if byte == 10 then in_key else wait_header;
}

abbrev pub key_byte : Vedirect → ℕ → Vedirect
key_byte v byte =
    if byte == 9
    then record v {
      bytes_sum = v.bytes_sum + byte;
      state = if text_eq v.key checksum_key then in_checksum else in_value;
    }
    else record v { bytes_sum = v.bytes_sum + byte; key = v.key ++ byte ∷ [] }

abbrev pub value_byte : Vedirect → ℕ → Vedirect
value_byte v byte =
    if byte == 13
    then record v {
      bytes_sum = v.bytes_sum + byte;
      state = wait_header;
      dict = set_value v.dict v.key (text v.value);
      key = [];
      value = [];
    }
    else record v { bytes_sum = v.bytes_sum + byte; value = v.value ++ byte ∷ [] }

abbrev pub checksum_byte : Vedirect → ℕ → Option Fields × Vedirect
checksum_byte v byte = (
  if (v.bytes_sum + byte) % 256 == 0 then some v.dict else none,
  record v { bytes_sum = 0; key = []; value = []; state = wait_header },
)

-- A line in HEX is given to `receive_hex_resp`, which only logs it.
abbrev pub hex_byte : Vedirect → ℕ → Vedirect
hex_byte v byte =
    if byte == 10
    then record v { bytes_sum = 0; state = wait_header; buffer = [] }
    else record v { bytes_sum = 0 }

abbrev pub in_state : State → Vedirect → ℕ → Option Fields × Vedirect
in_state hex v byte = (none, hex_byte v byte)
in_state wait_header v byte = (none, wait_header_byte v byte)
in_state in_key v byte = (none, key_byte v byte)
in_state in_value v byte = (none, value_byte v byte)
in_state in_checksum v byte = checksum_byte v byte

abbrev pub is_in_checksum : State → Bool
is_in_checksum in_checksum = true
is_in_checksum hex = false
is_in_checksum wait_header = false
is_in_checksum in_key = false
is_in_checksum in_value = false

-- A colon starts a line in HEX, but for the byte of the checksum.
abbrev pub with_marker : State → ℕ → State
with_marker state byte = if (byte == 58) && not (is_in_checksum state) then hex else state

-- A byte that finds the buffer full empties it and is lost.
unfoldable pub input : Vedirect → ℕ → Option Fields × Vedirect
input v byte =
    let state = with_marker v.state byte in
    if leb 512 (length v.buffer)
    then (none, record v { buffer = [] })
    else in_state state (record v { buffer = v.buffer ++ byte ∷ []; state = state }) byte

-- How the put of a packet goes: its time, and whether the queue stays full.
pub record Put : Type 0 where
  pub now : ℕ
  pub full : Bool

abbrev pub stamped : Put → Fields → Fields
stamped p packet = set_value packet timestamp_key (time p.now)

-- The dictionary and the buffer are new only after a put.
abbrev pub after_put : Put → Vedirect → Fields → Vedirect
after_put p v packet =
    if p.full then record v { dict = stamped p packet } else record v { dict = []; buffer = [] }

abbrev pub delivered : Put → Fields → List Fields × Vedirect → List Fields × Vedirect
delivered p packet rest = if p.full then rest else (stamped p packet ∷ rest.0, rest.1)

-- The loop of `run`: the packets that come into the queue. `puts` gives how the put of each packet
-- goes, and `n` counts the packets so far.
unfoldable pub run : (ℕ → Put) → ℕ → Vedirect → List ℕ → List Fields × Vedirect
unfolding input
run puts n v [] = ([], v)
run puts n v (byte ∷ bytes) =
    let one = input v byte in
    elim one.0 [
      | none ↦ run puts n one.1 bytes
      | some packet ↦
          delivered (puts n) packet (run puts (suc n) (after_put (puts n) one.1 packet) bytes)
    ]
