-- ===== src/CanInterface/Delivery.antt =====
-- A message in one frame, from the sender to the receiver.
use navigation_server.Base.{
  ℕ, ◌+◌, ◌≤◌, refl, ◌∙◌, ◌≡◌, ◌≢◌, Bool, true, false, ◌&&◌, not, some, List, [], ◌∷◌, ◌++◌, length,
  if◌then◌else◌, ◌==◌, ==_ne, contains, Result, ok,
}
use navigation_server.Pgn.{fast_packet_check}
use navigation_server.Message.{N2kMsg, new_msg, check_fast_packet, check_protocol}
use navigation_server.FastPacket.{is_pgn_active}
use navigation_server.CanInterface.Interface.{CanFrame, CanInterface, offer, put_can_msg, is_full}
use navigation_server.CanInterface.Receive.{process_receive_msg, receive_data}
use navigation_server.CanInterface.Send.{send, build_arbitration_id}
use navigation_server.CanInterface.Ids.{Fits, seen_da, build_arbitration_id_read}

-- A frame with the identifier of a message.
abbrev pub frame_of : N2kMsg → List ℕ → CanFrame
frame_of m bytes = record { arbitration_id = build_arbitration_id m; bytes = bytes }

-- The receiver after it counted a frame.
abbrev pub counted : CanInterface → CanInterface
counted r = record r { total_msg_in = r.total_msg_in + 1 }

-- What a receiver gets from a message's payload: the mark and the protocol are made anew, the time
-- is that of the reception.
abbrev pub arrived : N2kMsg → ℕ → List ℕ → N2kMsg
arrived m wall payload = record m {
  da = seen_da m;
  ts = if 0 == 0 then wall else 0;
  fast_packet = check_fast_packet m.pgn payload;
  payload = payload;
  is_iso = check_protocol m.pgn;
}

module _ (defined : ℕ → Result Bool) (r : CanInterface) (wall mono : ℕ) (m : N2kMsg) (fits : Fits m)
    (bytes : List ℕ) (accepted : contains r.addresses (seen_da m) ≡ true)
    (no_announcement : m.pgn ≢ 60416) (no_packet : m.pgn ≢ 60160) where
  pub process_receive_msg-data :
      process_receive_msg defined r wall mono (frame_of m bytes)
      ≡ receive_data defined (counted r) wall m.pgn m.prio m.sa (seen_da m) bytes
  unfolding process_receive_msg
  process_receive_msg-data =
      let (pgn, sa, prio) = build_arbitration_id_read m fits in
      rw (pgn, sa, prio, accepted, ==_ne m.pgn 60416 no_announcement, ==_ne m.pgn 60160 no_packet)

pub offer_room :
    (r : CanInterface) (m : N2kMsg)
    → is_full r.queue_size (length r.queue) ≡ false
    → offer r m ≡ record r { queue = r.queue ++ m ∷ [] }
unfolding offer
offer_room r m room = rw room refl

-- A message of at most 8 bytes that is not marked for fast packets, and whose fields fit in an
-- identifier, is put in one frame with its payload, when sending is allowed or forced and the write
-- queue has room. A receiver that accepts the destination it sees, has room in the queue of the
-- application, and for which the PGN is neither of the ISO transport nor a fast packet, starting or
-- open, puts the message with that destination and its own time at the end of that queue.
pub send_single :
    (defined : ℕ → Result Bool) (s r : CanInterface) (wall mono : ℕ) (m : N2kMsg)
    (force_send : Bool)
    → Fits m
    → m.fast_packet ≡ false
    → (not s.allowed_send && not force_send) ≡ false
    → is_full s.write_buffer_size (length s.in_queue) ≡ false
    → contains r.addresses (seen_da m) ≡ true
    → m.pgn ≢ 60416
    → m.pgn ≢ 60160
    → is_pgn_active r.fp_handler m.pgn m.sa m.payload ≡ ok false
    → fast_packet_check defined m.pgn ≡ ok false
    → length m.payload ≤ 8
    → is_full r.queue_size (length r.queue) ≡ false
    → (send s m force_send ≡ (
      ok (some true),
      record s { in_queue = s.in_queue ++ frame_of m m.payload ∷ []; write_errors = 0 },
    ))
      × (process_receive_msg defined r wall mono (frame_of m m.payload) ≡ (
        ok tt,
        record r {
          total_msg_in = r.total_msg_in + 1;
          queue = r.queue ++ arrived m wall m.payload ∷ [];
        },
      ))
unfolding send put_can_msg receive_data new_msg
send_single defined s r wall mono m force_send fits plain allowed room accepted no_announcement
      no_packet inactive single short queue_room =
    (
      rw (allowed, plain, room),
      process_receive_msg-data defined r wall mono m fits m.payload accepted no_announcement
            no_packet
          ∙ rw (inactive, single, receive_data)
              (rw (offer_room (counted r) (arrived m wall m.payload) queue_room) refl),
    )
