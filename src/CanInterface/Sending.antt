-- ===== src/CanInterface/Sending.antt =====
-- What `send` and `send_broadcast_with_iso_tp` put in the write queue, and when they do not.
use navigation_server.Base.{
  ℕ, ◌+◌, ◌/◌, ◌≤◌, ◌<◌, ◌≡◌, ◌≢◌, refl, ap, sym, subst, Bool, true, false, ◌&&◌, not, Option, none,
  some, ◌++◌, arith, length, map, Result, ok, err, get, put, put-put, get-put_self, value_error,
}
use navigation_server.Message.{N2kMsg, new_msg}
use navigation_server.FastPacket.{
  FastPacketHandler, split_frames, allocate_seq, free_seq, split_message,
}
use navigation_server.FastPacket.Sending.{IsFree, split_message-eq}
use navigation_server.FastPacket.Frames.{split_frames-AllEight}
use navigation_server.CanInterface.Interface.{CanInterface}
use navigation_server.CanInterface.Send.{
  send, send_fast_packet, split_and_put, finish_split, put_frames, build_arbitration_id,
  send_broadcast_with_iso_tp,
}
use navigation_server.CanInterface.Delivery.{frame_of}
use navigation_server.CanInterface.Queue.{put_frames_all, put_frames_full}

allocate_free :
    (h : FastPacketHandler) (pgn : ℕ)
    → IsFree h pgn
    → allocate_seq h pgn ≡ (ok 1, record h { write_sequences = put h.write_sequences pgn 1 })
unfolding allocate_seq
allocate_free h pgn free = ground arith

allocate_busy :
    (h : FastPacketHandler) (pgn : ℕ)
    → get h.write_sequences pgn ≡ some 1
    → allocate_seq h pgn ≡ (err value_error, h)
unfolding allocate_seq
allocate_busy h pgn busy = ground arith

-- A message marked for fast packets, with at most 223 bytes, whose PGN is not being split: if sending
-- is allowed or forced, and the write queue has room for all its frames, they are put there in order, and the sender's handler is
-- as `split_message` leaves it. The result is Python's None.
pub send_fast :
    (s : CanInterface) (m : N2kMsg) (force_send : Bool)
    → m.fast_packet ≡ true
    → (not s.allowed_send && not force_send) ≡ false
    → IsFree s.fp_handler m.pgn
    → length m.payload ≤ 223
    → length s.in_queue + (length m.payload / 7 + 1) ≤ s.write_buffer_size
    → send s m force_send ≡ (
      ok none,
      record s {
        in_queue = s.in_queue ++ map (frame_of m) (split_message s.fp_handler m.pgn m.payload).0.0;
        write_errors = 0;
        fp_handler = (split_message s.fp_handler m.pgn m.payload).1;
      },
    )
unfolding send free_seq
send_fast s m force_send fast allowed free high room =
    let frames = split_frames-AllEight m.payload high in
    let h = record s.fp_handler { write_sequences = put s.fp_handler.write_sequences m.pgn 1 } in
    let all =
      put_frames_all (record s { fp_handler = h }) (build_arbitration_id m)
        (split_frames 1 m.payload).0 (omega (arith, frames.1)) (omega (arith, frames.1)) in
    rw (
      allowed,
      fast,
      send_fast_packet,
      allocate_free s.fp_handler m.pgn free,
      split_and_put,
      all,
      frames.2,
      split_message-eq s.fp_handler m.pgn m.payload free frames.2,
      put-put s.fp_handler.write_sequences m.pgn 1 0,
    )

and-false : (b : Bool) → (b && false) ≡ false
and-false true = refl
and-false false = refl

send_busy :
    (s : CanInterface) (m : N2kMsg)
    → m.fast_packet ≡ true
    → get s.fp_handler.write_sequences m.pgn ≡ some 1
    → (send s m true).0 ≡ err value_error
unfolding send
send_busy s m fast busy =
    rw (
      and-false (not s.allowed_send),
      fast,
      send_fast_packet,
      allocate_busy s.fp_handler m.pgn busy,
    )

-- The interface while the PGN of a message is in use.
abbrev in_use : CanInterface → N2kMsg → CanInterface
in_use s m = record s {
  fp_handler = record s.fp_handler { write_sequences = put s.fp_handler.write_sequences m.pgn 1 };
}

finish_split_stopped :
    (pgn seq : ℕ) (outcome : Result (Unit {0})) (p : Result Bool × CanInterface)
    → p.0 ≡ ok false
    → finish_split pgn seq outcome p ≡ (ok (some false), p.1)
finish_split_stopped pgn seq outcome p e =
    ap (λ (r : Result Bool). finish_split pgn seq outcome (r, p.1)) e

send_stopped :
    (s : CanInterface) (m : N2kMsg)
    → m.fast_packet ≡ true
    → IsFree s.fp_handler m.pgn
    → (put_frames (in_use s m) (build_arbitration_id m) (split_frames 1 m.payload).0).0 ≡ ok false
    → send s m true ≡ (
      ok (some false),
      (put_frames (in_use s m) (build_arbitration_id m) (split_frames 1 m.payload).0).1,
    )
unfolding send
send_stopped s m fast free stopped =
    rw
      (
        and-false (not s.allowed_send),
        fast,
        send_fast_packet,
        allocate_free s.fp_handler m.pgn free,
        split_and_put,
      )
      (finish_split_stopped m.pgn 1 (split_frames 1 m.payload).1
        (put_frames (in_use s m) (build_arbitration_id m) (split_frames 1 m.payload).0) stopped)

-- If the queue has not the room for all frames of a message of at most 223 bytes marked for fast
-- packets, whose PGN is not being split, and fewer than ten errors are counted, a forced `send`
-- returns False before the generator is at its end, and the PGN stays in use: a forced `send` of a
-- later fast packet message of this PGN raises.
pub send_interrupted :
    (s : CanInterface) (m later : N2kMsg)
    → m.fast_packet ≡ true
    → later.fast_packet ≡ true
    → later.pgn ≡ m.pgn
    → IsFree s.fp_handler m.pgn
    → length m.payload ≤ 223
    → 0 < s.write_buffer_size
    → s.write_errors < 10
    → length s.in_queue ≤ s.write_buffer_size
    → s.write_buffer_size < length s.in_queue + (length m.payload / 7 + 1)
    → ((send s m true).0 ≡ ok (some false))
      × ((send (send s m true).1 later true).0 ≡ err value_error)
unfolding send
send_interrupted s m later fast later_fast same free high some_size few fits full =
    let frames = split_frames-AllEight m.payload high in
    let stopped =
      put_frames_full (in_use s m) (build_arbitration_id m) (split_frames 1 m.payload).0 some_size
        few fits (omega (arith, frames.1)) in
    let first = send_stopped s m fast free stopped.0 in
    let after = (put_frames (in_use s m) (build_arbitration_id m) (split_frames 1 m.payload).0).1 in
    let busy : get after.fp_handler.write_sequences later.pgn ≡ some 1 =
      rw (stopped.1, same) (get-put_self s.fp_handler.write_sequences m.pgn 1) in
    (
      ap (λ p. p.0) first,
      subst (λ (p : Result (Option Bool) × CanInterface). (send p.1 later true).0 ≡ err value_error)
          (sym first) (send_busy after later later_fast busy),
    )

-- A broadcast over the ISO transport never succeeds: after its announcement, the constructor of
-- the message for the packets' identifier raises, since it gets no payload.
pub send_broadcast_with_iso_tp_fails :
    (s : CanInterface) (now : ℕ) (m : N2kMsg) → (send_broadcast_with_iso_tp s now m).0 ≢ ok true
unfolding send_broadcast_with_iso_tp new_msg
send_broadcast_with_iso_tp_fails s now m e = ground arith
