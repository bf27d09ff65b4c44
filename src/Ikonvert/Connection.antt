-- ===== src/Ikonvert/Connection.antt =====
-- The class `iKonvert` in navigation_server/couplers/ikonvert.py: the handlers that the thread of
-- `iKonvertRead` calls, and `open` with `wait_status` and `send_loc_cmd`, in the steps between which
-- the reading thread can run. The serial line is open, its reader is started, and the mode is "ALL".
use navigation_server.Base.{
  ℕ, suc, zero, ◌+◌, Bool, true, false, Option, none, some, List, [], ◌∷◌, ◌++◌, ltb, length,
  if◌then◌else◌, Result, ok, err, ◌≡◌,
}
use navigation_server.Message.{N2kMsg}
use navigation_server.Ikonvert.{IkonvertMsg, status, not_conn, ack, nak, n183, n2k, decode_line}

pub data IkState : Type 0 where
  idle ready connected : IkState

-- `_wait_event`
pub data WaitEvent : Type 0 where
  wait_none wait_msg wait_conn wait_acknak : WaitEvent

-- `_cmd_result`
pub data CmdResult : Type 0 where
  acked naked : List ℕ → CmdResult

-- A `NavGenericMsg` of the queue
pub data Queued : Type 0 where
  n0183_data : List ℕ → Queued
  n2k_data : List ℕ → Option N2kMsg → Queued

-- `wait_sem` is the count of the semaphore.
pub record Ikonvert : Type 0 where
  pub ikstate : IkState
  pub wait_event : WaitEvent
  pub wait_sem : ℕ
  pub queue : List Queued
  pub queue_size : ℕ
  pub cmd_result : Option CmdResult
  pub status_count : ℕ
  pub total_msg_raw : ℕ

abbrev pub in_ready : IkState → Bool
in_ready idle = false
in_ready ready = true
in_ready connected = false

abbrev pub in_connected : IkState → Bool
in_connected idle = false
in_connected ready = false
in_connected connected = true

-- `_wait_event = 0` and `_wait_sem.release()`
abbrev pub release : Ikonvert → Ikonvert
release k = record k { wait_event = wait_none; wait_sem = suc k.wait_sem }

abbrev pub release_msg : WaitEvent → Ikonvert → Ikonvert
release_msg wait_msg k = release k
release_msg wait_none k = k
release_msg wait_conn k = k
release_msg wait_acknak k = k

abbrev pub release_conn : WaitEvent → Ikonvert → Ikonvert
release_conn wait_msg k = release k
release_conn wait_conn k = release k
release_conn wait_none k = k
release_conn wait_acknak k = k

abbrev pub on_connected : Ikonvert → Ikonvert
on_connected k = release_conn k.wait_event (record k { ikstate = connected })

abbrev pub count_status : Ikonvert → Ikonvert
count_status k = record k { status_count = k.status_count + 1 }

unfoldable pub process_status : IkonvertMsg → Ikonvert → Ikonvert
process_status (not_conn boot) k = release_msg k.wait_event (record k { ikstate = ready })
process_status (status values) k = count_status (on_connected k)
process_status (ack text) k = on_connected k
process_status (nak text) k = on_connected k
process_status (n183 raw) k = on_connected k
process_status (n2k raw m) k = on_connected k

-- Whether a `queue.Queue` of this maximum size, 0 for none, takes one more.
abbrev pub has_room : ℕ → ℕ → Bool
has_room zero n = true
has_room (suc size) n = ltb n (suc size)

-- `put` without blocking, and a message that finds the queue full is dropped.
abbrev pub put_nowait : Queued → Ikonvert → Ikonvert
put_nowait q k =
    if has_room k.queue_size (length k.queue) then record k { queue = k.queue ++ q ∷ [] } else k

abbrev pub put_connected : IkState → Queued → Ikonvert → Ikonvert
put_connected connected q k = put_nowait q k
put_connected ready q k = k
put_connected idle q k = k

abbrev pub when_connected : IkState → IkonvertMsg → Ikonvert → Ikonvert
when_connected connected m k = k
when_connected ready m k = process_status m k
when_connected idle m k = process_status m k

abbrev pub queued : IkonvertMsg → Queued
queued (n183 raw) = n0183_data raw
queued (n2k raw m) = n2k_data raw m
queued (status values) = n2k_data [] none
queued (not_conn boot) = n2k_data [] none
queued (ack text) = n2k_data [] none
queued (nak text) = n2k_data [] none

-- It is called for `n183` and `n2k` only.
unfoldable pub process_nmea : IkonvertMsg → Ikonvert → Ikonvert
unfolding process_status
process_nmea m k = let k' = when_connected k.ikstate m k in put_connected k'.ikstate (queued m) k'

abbrev pub reply_at : WaitEvent → CmdResult → Ikonvert → Ikonvert
reply_at wait_acknak r k = release (record k { cmd_result = some r })
reply_at wait_none r k = k
reply_at wait_msg r k = k
reply_at wait_conn r k = k

unfoldable pub process_acknak : CmdResult → Ikonvert → Ikonvert
process_acknak r k = reply_at k.wait_event r k

-- The table of the handlers
unfoldable pub handle : IkonvertMsg → Ikonvert → Ikonvert
unfolding process_status process_nmea process_acknak
handle (status values) k = process_status (status values) k
handle (not_conn boot) k = process_status (not_conn boot) k
handle (ack text) k = process_acknak (acked text) k
handle (nak text) k = process_acknak (naked text) k
handle (n183 raw) k = process_nmea (n183 raw) k
handle (n2k raw m) k = process_nmea (n2k raw m) k

-- What `readline` gives: a line, nothing after the timeout, or a SerialException.
pub data LineRead : Type 0 where
  line : List ℕ → LineRead
  read_error : LineRead

abbrev pub handle_decoded : Result IkonvertMsg → Ikonvert → Ikonvert
handle_decoded (ok m) k = handle m k
handle_decoded (err e) k = k

-- A round of `iKonvertRead.nrun`; `IndexError`, `ValueError` and `KeyError` are all that `decode_line` raises.
unfoldable pub read_round : (List ℕ → Option (List ℕ)) → ℕ → LineRead → Ikonvert → Ikonvert
unfolding handle decode_line
read_round decode now read_error k = k
read_round decode now (line []) k = k
read_round decode now (line (c ∷ cs)) k =
    handle_decoded (decode_line decode now (c ∷ cs))
      (record k { total_msg_raw = k.total_msg_raw + 1 })

-- `iKonvertRead.nrun`, with the time of every read
unfoldable pub read_lines : (List ℕ → Option (List ℕ)) → List (ℕ × LineRead) → Ikonvert → Ikonvert
unfolding read_round
read_lines decode [] k = k
read_lines decode ((now, read) ∷ reads) k = read_lines decode reads (read_round decode now read k)

-- Where the thread that runs `open` is: before its first test, before the first `wait_status`, waiting for a
-- status, before the test of `IKREADY`, between `flush` and the write of `_wait_event`, waiting for the reply, before
-- the test of the reply, waiting for the last status, before the last test, or returned. `failed` is the TypeError of
-- `_cmd_result[0]` where that is None.
pub data Caller : Type 0 where
  starts opening waits_status looks written waits_reply answered waits_connected ends failed :
      Caller
  returns : Bool → Caller

pub record World : Type 0 where
  pub caller : Caller
  pub gateway : Ikonvert

-- `acquire`, and where it goes on: none while it blocks
abbrev pub acquire : ℕ → Caller → Ikonvert → Option World
acquire zero after k = none
acquire (suc n) after k = some (record { caller = after; gateway = record k { wait_sem = n } })

abbrev pub wait_for : WaitEvent → Caller → Ikonvert → World
wait_for e at k = record { caller = at; gateway = record k { wait_event = e } }

abbrev pub after_reply : Option CmdResult → Ikonvert → World
after_reply none k = record { caller = failed; gateway = k }
after_reply (some r) k = wait_for wait_msg waits_connected k

abbrev pub look : Bool → Ikonvert → World
look true k = record { caller = written; gateway = record k { cmd_result = none } }
look false k = record { caller = ends; gateway = k }

-- The next step of the thread that runs `open`, none where it blocks or is over.
abbrev pub open_at : Caller → Ikonvert → Option World
open_at starts k = some (
    if in_connected k.ikstate
    then record { caller = returns true; gateway = k }
    else record { caller = opening; gateway = k })
open_at opening k = some (wait_for wait_msg waits_status k)
open_at waits_status k = acquire k.wait_sem looks k
open_at looks k = some (look (in_ready k.ikstate) k)
open_at written k = some (wait_for wait_acknak waits_reply k)
open_at waits_reply k = acquire k.wait_sem answered k
open_at answered k = some (after_reply k.cmd_result k)
open_at waits_connected k = acquire k.wait_sem ends k
open_at ends k = some (record { caller = returns (in_connected k.ikstate); gateway = k })
open_at failed k = none
open_at (returns b) k = none

unfoldable pub open_step : World → Option World
open_step w = open_at w.caller w.gateway

unfoldable pub receive_line : IkonvertMsg → World → World
unfolding handle
receive_line m w = record w { gateway = handle m w.gateway }

-- Both threads, in any order.
pub data Step (w : World) : World → Type 0 where
  reads : (m : IkonvertMsg) → Step w (receive_line m w)
  opens : (w' : World) → open_step w ≡ some w' → Step w w'

pub data Reach (w : World) : World → Type 0 where
  here : Reach w w
  next : {v : World} → {u : World} → Reach w v → Step v u → Reach w u
