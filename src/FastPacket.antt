-- ===== src/FastPacket.antt =====
-- navigation_server/nmea2000/nmea2k_fast_packet.py: the fast packet transport, which carries a
-- payload of more than 8 bytes in numbered CAN frames. `FastPacket` collects the frames of one
-- sequence, `FastPacketHandler` routes frames to sequences and splits outgoing payloads.
-- Times are in milliseconds. The `_instrument` of the handler is never read and has no field.
mod Packet
mod Handler
mod Split
pub mod Stream
pub mod Reception
pub mod Frames
pub mod Sending
pub mod Sequences
pub mod Garbage
mod Tests
unfoldable pub use Packet.{
  compute_key, new_packet, first_packet, add_packet, check_complete, total_loop, total_frame,
  check_validity, count_frames, slice_to,
}
pub use Packet.{FastPacket}
unfoldable pub use Handler.{
  process_frame, dispatch, receive, settle, is_pgn_active, collect_garbage, seq_of, counter_of,
}
pub use Handler.{FastPacketHandler, new_handler}
unfoldable pub use Split.{
  allocate_seq, free_seq, split_frame, split_loop, split_frames, split_message,
}
