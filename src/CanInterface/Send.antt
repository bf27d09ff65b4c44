-- ===== src/CanInterface/Send.antt =====
-- The sending side: `build_arbitration_id`, `send` and `send_broadcast_with_iso_tp`.
use navigation_server.Base.{
  ℕ, ◌+◌, bit_and, bit_or, Bool, true, false, ◌&&◌, not, Option, none, some, List, [], ◌∷◌,
  if◌then◌else◌, ltb, Result, ok, err, ◌>>=◌,
}
use navigation_server.Base.Bits.{◌<<◌, ◌>>◌}
use navigation_server.Message.{N2kMsg, new_msg}
use navigation_server.FastPacket.{FastPacketHandler}
use navigation_server.FastPacket.{allocate_seq, free_seq, split_frames}
use navigation_server.IsoTransport.{new_output_transaction}
use navigation_server.IsoTransport.{split_message}
use navigation_server.CanInterface.Interface.{CanInterface, put_can_msg}

unfoldable pub build_arbitration_id : N2kMsg → ℕ
build_arbitration_id m =
    let pf = bit_and (m.pgn >> 8) 0xFF in
    let with_pgn = bit_or m.sa (if ltb pf 240 then (m.pgn + m.da) << 8 else m.pgn << 8) in
    bit_or with_pgn (bit_and m.prio 7 << 26)

-- A loop over frames: `ok true` if all of them are put, and no further one after a failure.
unfoldable pub put_frames : CanInterface → ℕ → List (List ℕ) → Result Bool × CanInterface
put_frames s can_id [] = (ok true, s)
put_frames s can_id (f ∷ fs) =
    let (result, s') = put_can_msg s can_id f in
    let rest = put_frames s' can_id fs in
    elim result [ ok true ↦ rest | ok false ↦ (ok false, s') | err e ↦ (err e, s') ]

-- After the loop over the generator's frames, which is resumed after the last frame only if all were
-- put: only then is it seen how it ends, and is the sequence freed. Python returns None at the end,
-- not True.
abbrev pub finish_split :
    ℕ → ℕ → Result (Unit {0}) → Result Bool × CanInterface → Result (Option Bool) × CanInterface
finish_split pgn seq outcome (err e, s) = (err e, s)
finish_split pgn seq outcome (ok false, s) = (ok (some false), s)
finish_split pgn seq (err e) (ok true, s) = (err e, s)
finish_split pgn seq (ok _) (ok true, s) =
    (ok none, record s { fp_handler = free_seq s.fp_handler pgn seq })

unfoldable pub split_and_put :
    CanInterface → N2kMsg → Result ℕ × FastPacketHandler → Result (Option Bool) × CanInterface
unfolding put_frames build_arbitration_id
split_and_put s m (err e, h) = (err e, record s { fp_handler = h })
split_and_put s m (ok seq, h) =
    let (frames, outcome) = split_frames seq m.payload in
    finish_split m.pgn seq outcome
      (put_frames (record s { fp_handler = h }) (build_arbitration_id m) frames)

unfoldable pub send_fast_packet : CanInterface → N2kMsg → Result (Option Bool) × CanInterface
unfolding split_and_put
send_fast_packet s m = split_and_put s m (allocate_seq s.fp_handler m.pgn)

unfoldable pub send : CanInterface → N2kMsg → Bool → Result (Option Bool) × CanInterface
unfolding send_fast_packet build_arbitration_id
send s m force_send =
    if not s.allowed_send && not force_send
    then (ok (some false), s)
    else if m.fast_packet
    then send_fast_packet s m
    else let (result, s') = put_can_msg s (build_arbitration_id m) m.payload in
      (do r ← result; ok (some r), s')

-- The announcement is put before the constructor of the message for the packets' identifier is
-- called, without a payload.
unfoldable pub send_broadcast_with_iso_tp : CanInterface → ℕ → N2kMsg → Result Bool × CanInterface
unfolding put_frames build_arbitration_id
send_broadcast_with_iso_tp s now m = elim (new_output_transaction now m) [
  | err e ↦ (err e, s)
  | ok (tpcm_msg, transact) ↦
      let (result, s') = put_can_msg s (build_arbitration_id tpcm_msg) tpcm_msg.payload in
      elim result [
        | err e ↦ (err e, s')
        | ok false ↦ (ok false, s')
        | ok true ↦ elim (new_msg now 60160 7 m.sa 255 none 0) [
          | err e ↦ (err e, s')
          | ok tpdt ↦ put_frames s' (build_arbitration_id tpdt) (split_message transact)
        ]
      ]
]
