-- ===== src/Ikonvert.antt =====
-- The iKonvert gateway on a serial line: the class `iKonvertMsg` in
-- navigation_server/couplers/ikonvert.py, which reads the lines of the gateway; Ikonvert/Connection.antt
-- is the class `iKonvert`. `b64decode` is a parameter, none where that raises, as in Pdgy.antt.
pub mod Connection
pub mod Semaphore
pub mod Opening
pub mod Replies
pub mod Delivery
pub mod RoundTrip
mod Tests
use navigation_server.Base.{
  ℕ, Option, none, some, List, [], ◌∷◌, ◌==◌, ltb, take, length, if◌then◌else◌, ◌||◌, Result, ok,
  err, ◌>>=◌, value_error, index_error,
}
use navigation_server.Base.Texts.{PyInt, split, int_of, text_eq}
use navigation_server.Message.{N2kMsg, new_msg}
use navigation_server.Pdgy.{pdgy, Numbers, unreadable, negative, numbers, read_numbers}

-- The values of a STATUS line.
pub record Status : Type 0 where
  pub bus_load : List ℕ
  pub frame_errors : PyInt
  pub nb_devices : List ℕ
  pub uptime : List ℕ
  pub can_address : List ℕ
  pub nb_rejected_pgn : PyInt

-- A line that was read; `type`, `msg` and `param` are the constructor and its arguments. The message
-- of `n2k` is none where it has a negative number.
pub data IkonvertMsg : Type 0 where
  status : Status → IkonvertMsg
  not_conn : Option (List ℕ) → IkonvertMsg
  ack nak n183 : List ℕ → IkonvertMsg
  n2k : List ℕ → Option N2kMsg → IkonvertMsg

-- `rstrip(b'\r\n')`
abbrev drop_end : ℕ → List ℕ → List ℕ
drop_end c [] = if (c == 13) || (c == 10) then [] else c ∷ []
drop_end c (d ∷ ds) = c ∷ d ∷ ds

unfoldable pub rstrip_crlf : List ℕ → List ℕ
rstrip_crlf [] = []
rstrip_crlf (c ∷ cs) = drop_end c (rstrip_crlf cs)

abbrev pub n2k_of : List ℕ → Result N2kMsg → Result IkonvertMsg
n2k_of raw (ok m) = ok (n2k raw (some m))
n2k_of raw (err e) = err e

abbrev pub n2k_msg : ℕ → List ℕ → Numbers → Option (List ℕ) → Result IkonvertMsg
n2k_msg now raw unreadable payload = err value_error
n2k_msg now raw negative none = err value_error
n2k_msg now raw negative (some payload) = ok (n2k raw none)
n2k_msg now raw (numbers ns) none = err value_error
n2k_msg now raw (numbers (pgn ∷ prio ∷ sa ∷ da ∷ [])) (some payload) =
    n2k_of raw (new_msg now pgn prio sa da (some payload) 0)
n2k_msg now raw (numbers ns) (some payload) = err value_error

abbrev pub with_data :
    (List ℕ → Option (List ℕ)) → ℕ → List ℕ → List (List ℕ) → List ℕ → Result IkonvertMsg
with_data decode now raw texts [] = err value_error
with_data decode now raw texts (c ∷ cs) = n2k_msg now raw (read_numbers texts) (decode (c ∷ cs))

-- A line `!PDGY`, from the fields after the first.
unfoldable pub decode_n2k :
    (List ℕ → Option (List ℕ)) → ℕ → List ℕ → List (List ℕ) → Result IkonvertMsg
unfolding read_numbers rstrip_crlf
decode_n2k decode now raw (pgn ∷ prio ∷ sa ∷ da ∷ ts ∷ payload ∷ rest) =
    with_data decode now raw (pgn ∷ prio ∷ sa ∷ da ∷ []) (rstrip_crlf payload)
decode_n2k decode now raw others = err index_error

abbrev pub number : List ℕ → Result PyInt
number text = elim (int_of 10 text) [ none ↦ err value_error | some n ↦ ok n ]

abbrev pub status_values : List ℕ → PyInt → List (List ℕ) → Result IkonvertMsg
status_values load errors (devices ∷ uptime ∷ address ∷ rejected ∷ rest) =
    number rejected >>= (λ (n : PyInt). ok (
      status (record {
        bus_load = load;
        frame_errors = errors;
        nb_devices = devices;
        uptime = uptime;
        can_address = address;
        nb_rejected_pgn = n;
      })))
status_values load errors others = err index_error

-- A line `$PDGY,0`, from the fields after that: without the number of errors, the gateway is not connected.
unfoldable pub decode_status : List (List ℕ) → Result IkonvertMsg
decode_status (load ∷ [] ∷ rest) = ok (not_conn none)
decode_status (load ∷ (c ∷ cs) ∷ rest) =
    number (c ∷ cs) >>= (λ (n : PyInt). status_values load n rest)
decode_status others = err index_error

abbrev first_of : List (List ℕ) → Result (List ℕ)
first_of [] = err index_error
first_of (field ∷ rest) = ok field

-- A line `$PDGY`, from its second field and the ones after it: TEXT, ACK and NAK.
unfoldable pub decode_local : List ℕ → List (List ℕ) → Result IkonvertMsg
unfolding decode_status
decode_local [] rest = err index_error
decode_local (c ∷ cs) rest =
    if c == 48
    then decode_status rest
    else if text_eq (c ∷ cs) (84 ∷ 69 ∷ 88 ∷ 84 ∷ [])
    then first_of rest >>= (λ (boot : List ℕ). ok (not_conn (some boot)))
    else if text_eq (c ∷ cs) (65 ∷ 67 ∷ 75 ∷ [])
    then first_of rest >>= (λ (message : List ℕ). ok (ack message))
    else if text_eq (c ∷ cs) (78 ∷ 65 ∷ 75 ∷ [])
    then first_of rest >>= (λ (error : List ℕ). ok (nak error))
    else err value_error

abbrev pub n183_sentence : List ℕ → List ℕ → Result IkonvertMsg
n183_sentence raw [] = err index_error
n183_sentence raw (c ∷ cs) = if c == 36 then ok (n183 raw) else err value_error

-- The cases of `decode`, from the fields of the line.
abbrev pub decode_fields_of :
    (List ℕ → Option (List ℕ)) → ℕ → List ℕ → List (List ℕ) → Result IkonvertMsg
decode_fields_of decode now raw [] = err value_error
decode_fields_of decode now raw (head ∷ []) = err value_error
decode_fields_of decode now raw (head ∷ second ∷ rest) =
    if text_eq (take 6 head) (33 ∷ pdgy)
    then decode_n2k decode now raw (second ∷ rest)
    else if text_eq (take 6 head) (36 ∷ pdgy)
    then decode_local second rest
    else n183_sentence raw head

-- `iKonvertMsg.decode`
unfoldable pub decode_line : (List ℕ → Option (List ℕ)) → ℕ → List ℕ → Result IkonvertMsg
unfolding decode_n2k decode_local
decode_line decode now raw =
    if ltb (length raw) 8 then err value_error else decode_fields_of decode now raw (split 44 raw)
