-- ===== src/CanInterface/Receive.antt =====
-- `process_receive_msg`: a frame of the bus becomes a message of the application, at once or with
-- others.
use navigation_server.Base.{
  ℕ, ◌+◌, bit_and, Bool, true, false, none, some, List, if◌then◌else◌, ◌==◌, contains, Result, ok,
  err, Exception, fast_packet_first, fast_packet_duplicate, fast_packet_missing, iso_transport,
}
use navigation_server.Base.Bits.{◌>>◌}
use navigation_server.Pgn.{pgn_pdu1_adjust, fast_packet_check}
use navigation_server.Message.{new_msg}
use navigation_server.FastPacket.{process_frame, is_pgn_active}
use navigation_server.IsoTransport.{new_transaction, handler_incoming_packet}
use navigation_server.CanInterface.Interface.{CanFrame, CanInterface, offer}

-- `except FastPacketException`: logged, and the frame is done with; any other exception goes on.
abbrev pub except_fast_packet : Exception → Result (Unit {0})
except_fast_packet (fast_packet_first n) = ok tt
except_fast_packet (fast_packet_duplicate n) = ok tt
except_fast_packet (fast_packet_missing n) = ok tt
except_fast_packet e = err e

-- `except IsoTransportException`
abbrev pub except_iso_transport : Exception → Result (Unit {0})
except_iso_transport iso_transport = ok tt
except_iso_transport e = err e

unfoldable pub deliver :
    CanInterface → ℕ → ℕ → ℕ → ℕ → ℕ → List ℕ → Result (Unit {0}) × CanInterface
deliver s wall pgn prio sa da bytes = elim (new_msg wall pgn prio sa da (some bytes) 0) [
  | err e ↦ (err e, s)
  | ok m ↦ (ok tt, offer s m)
]

unfoldable pub receive_packet : CanInterface → ℕ → ℕ → List ℕ → Result (Unit {0}) × CanInterface
receive_packet s wall sa bytes =
    let (result, h) = handler_incoming_packet s.iso_tp_handler wall sa bytes in
    let s' = record s { iso_tp_handler = h } in
    elim result [
      | err e ↦ (except_iso_transport e, s')
      | ok none ↦ (ok tt, s')
      | ok (some m) ↦ (ok tt, offer s' m)
    ]

unfoldable pub receive_announcement :
    CanInterface → ℕ → ℕ → ℕ → List ℕ → Result (Unit {0}) × CanInterface
receive_announcement s mono sa prio bytes =
    let (result, h) = new_transaction s.iso_tp_handler mono sa prio bytes in
    (result, record s { iso_tp_handler = h })

unfoldable pub assemble :
    CanInterface → ℕ → ℕ → ℕ → ℕ → ℕ → List ℕ → Result (Unit {0}) × CanInterface
unfolding deliver
assemble s wall pgn prio sa da bytes =
    let (result, h) = process_frame s.fp_handler wall pgn sa bytes in
    let s' = record s { fp_handler = h } in
    elim result [
      | err e ↦ (except_fast_packet e, s')
      | ok none ↦ (ok tt, s')
      | ok (some payload) ↦ deliver s' wall pgn prio sa da payload
    ]

-- A frame that is not of the ISO transport: whether it belongs to a fast packet.
unfoldable pub receive_data :
    (ℕ → Result Bool) → CanInterface → ℕ → ℕ → ℕ → ℕ → ℕ → List ℕ → Result (Unit {0}) × CanInterface
unfolding assemble deliver
receive_data pgn_fast_packet s wall pgn prio sa da bytes =
    elim (is_pgn_active s.fp_handler pgn sa bytes) [
      | err e ↦ (except_fast_packet e, s)
      | ok true ↦ assemble s wall pgn prio sa da bytes
      | ok false ↦ elim (fast_packet_check pgn_fast_packet pgn) [
        | err e ↦ (err e, s)
        | ok true ↦ assemble s wall pgn prio sa da bytes
        | ok false ↦ deliver s wall pgn prio sa da bytes
      ]
    ]

abbrev pub id_pgn : ℕ → ℕ × ℕ
id_pgn can_id = pgn_pdu1_adjust (bit_and (can_id >> 8) 0x1FFFF)

abbrev pub id_sa : ℕ → ℕ
id_sa can_id = bit_and can_id 0xFF

abbrev pub id_prio : ℕ → ℕ
id_prio can_id = bit_and (can_id >> 26) 7

-- The trace is not modelled.
unfoldable pub process_receive_msg :
    (ℕ → Result Bool) → CanInterface → ℕ → ℕ → CanFrame → Result (Unit {0}) × CanInterface
unfolding receive_data receive_packet receive_announcement
process_receive_msg pgn_fast_packet s wall mono msg_recv =
    let can_id = msg_recv.arbitration_id in
    let (pgn, da) = id_pgn can_id in
    let sa = id_sa can_id in
    let prio = id_prio can_id in
    let bytes = msg_recv.bytes in
    let s' = record s { total_msg_in = s.total_msg_in + 1 } in
    if contains s.addresses da
    then if pgn == 60416
      then receive_announcement s' mono sa prio bytes
      else if pgn == 60160
      then receive_packet s' wall sa bytes
      else receive_data pgn_fast_packet s' wall pgn prio sa da bytes
    else (ok tt, s)
