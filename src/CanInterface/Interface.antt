-- ===== src/CanInterface/Interface.antt =====
-- The state of `SocketCANInterface` and its queues. A put waits for room for a time: the state here
-- is the one that it sees at the end.
use navigation_server.Base.{
  ℕ, ◌+◌, bit_and, Bool, true, false, List, [], ◌∷◌, ◌++◌, ltb, leb, if◌then◌else◌, ◌==◌, length,
  Result, ok, err, socket_can,
}
use navigation_server.Message.{N2kMsg}
use navigation_server.FastPacket.{FastPacketHandler}
use navigation_server.IsoTransport.{IsoTransportHandler}

-- The parts of a python-can `Message` that the interface sets and reads.
pub record CanFrame : Type 0 where
  pub arbitration_id : ℕ
  pub bytes : List ℕ

pub record CanInterface : Type 0 where
  pub queue_size : ℕ
  pub queue : List N2kMsg
  pub allowed_send : Bool
  pub write_buffer_size : ℕ
  pub in_queue : List CanFrame
  pub fp_handler : FastPacketHandler
  pub iso_tp_handler : IsoTransportHandler
  pub total_msg_in : ℕ
  pub addresses : List ℕ
  pub write_errors : ℕ

-- Whether a `queue.Queue` of this maximum size, 0 for none, is full.
abbrev pub is_full : ℕ → ℕ → Bool
is_full maxsize n = if maxsize == 0 then false else leb maxsize n

-- The put of a received message: if the queue is full, it is dropped with a warning.
unfoldable pub offer : CanInterface → N2kMsg → CanInterface
offer s m =
    if is_full s.queue_size (length s.queue) then s else record s { queue = s.queue ++ m ∷ [] }

unfoldable pub add_address : CanInterface → ℕ → CanInterface
add_address s address = record s { addresses = s.addresses ++ bit_and address 0xFF ∷ [] }

-- Python's `list.remove`, the first occurrence; without one the list stays.
unfoldable pub remove_first : List ℕ → ℕ → List ℕ
remove_first [] a = []
remove_first (x ∷ xs) a = let rest = remove_first xs a in if x == a then xs else x ∷ rest

unfoldable pub remove_address : CanInterface → ℕ → CanInterface
unfolding remove_first
remove_address s address = record s { addresses = remove_first s.addresses address }

unfoldable pub put_can_msg : CanInterface → ℕ → List ℕ → Result Bool × CanInterface
put_can_msg s can_id bytes =
    let errors = s.write_errors + 1 in
    if is_full s.write_buffer_size (length s.in_queue)
    then (if ltb 10 errors then err socket_can else ok false, record s { write_errors = errors })
    else (
      ok true,
      record s {
        in_queue = s.in_queue ++ record { arbitration_id = can_id; bytes = bytes } ∷ [];
        write_errors = 0;
      },
    )
