-- ===== src/CanInterface.antt =====
-- navigation_server/can_interface/nmea2k_can_interface.py: the class `SocketCANInterface`, between
-- the CAN bus and the messages of the application. The library python-can (`ThreadSafeBus`,
-- `Message`) is not modelled, nor the thread that reads the bus: a frame that the bus gave is an
-- argument. A frame for the bus is in the queue that the writer thread reads, which is Writer.
-- Times are in milliseconds, `wall` for `time.time()` and `mono` for `time.monotonic()`.
mod Interface
mod Receive
mod Send
pub mod Writer
pub mod WriteOrder
pub mod Ids
pub mod Delivery
pub mod Assembly
pub mod Queue
pub mod Sending
mod Tests
unfoldable pub use Interface.{remove_first, add_address, remove_address, offer, put_can_msg}
pub use Interface.{CanFrame, CanInterface}
unfoldable pub use Receive.{process_receive_msg}
unfoldable pub use Send.{build_arbitration_id, send}
