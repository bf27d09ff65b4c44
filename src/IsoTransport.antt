-- ===== src/IsoTransport.antt =====
-- navigation_server/nmea2000/nmea2k_iso_transport.py: the broadcast mode of the ISO 11783 / J1939-21
-- transport protocol, which carries up to 1785 bytes in packets of seven. Times are in
-- milliseconds.
mod Transfer
mod Handler
pub mod Packets
pub mod Feeding
pub mod Broadcast
mod Tests
unfoldable pub use Transfer.{
  new_transaction_object, incoming_bam_transaction, incoming_packet, timer_lapse,
  outgoing_bam_transaction, split_loop, split_message,
}
pub use Transfer.{TpState, created, in_transmission, ended, Transaction}
unfoldable pub use Handler.{new_transaction, handler_incoming_packet, new_output_transaction}
pub use Handler.{IsoTransportHandler}
