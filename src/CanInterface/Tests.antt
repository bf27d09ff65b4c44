-- ===== src/CanInterface/Tests.antt =====
-- The theorems on the CAN interface at concrete inputs.
use navigation_server.Base.{
  ℕ, ◌≡◌, refl, Bool, true, false, none, some, List, [], ◌∷◌, ◌++◌, arith, map, inl, replicate, get,
  Result, ok, err, key_error, value_error,
}
use navigation_server.Pgn.{fast_packet_check}
use navigation_server.Message.{N2kMsg}
use navigation_server.FastPacket.{new_handler, split_message, is_pgn_active}
use navigation_server.FastPacket.Reception.{trailing}
use navigation_server.CanInterface.Interface.{CanInterface}
use navigation_server.CanInterface.Receive.{process_receive_msg, id_pgn, id_sa, id_prio}
use navigation_server.CanInterface.Send.{send, build_arbitration_id}
use navigation_server.CanInterface.Ids.{Fits, build_arbitration_id_read}
use navigation_server.CanInterface.Delivery.{frame_of, arrived, send_single}
use navigation_server.CanInterface.Assembly.{receive_all, receive_all-split_message}
use navigation_server.CanInterface.Sending.{send_fast, send_interrupted}
use navigation_server.CanInterface.Writer.{
  Writer, ready, accepted, can_error, Event, put_frame, work, run,
}
use navigation_server.CanInterface.WriteOrder.{run-all_frames, all_frames}

abbrev none_defined : ℕ → Result Bool
none_defined pgn = err key_error

-- An interface whose write queue holds 2 frames, or none.
abbrev interface_of : ℕ → CanInterface
interface_of size = record {
  queue_size = 20;
  queue = [];
  allowed_send = true;
  write_buffer_size = size;
  in_queue = [];
  fp_handler = new_handler;
  iso_tp_handler = record { transactions = [] };
  total_msg_in = 0;
  addresses = 255 ∷ 9 ∷ [];
  write_errors = 0;
}

-- A request, to the address 9.
abbrev request : N2kMsg
request = record {
  pgn = 59904;
  prio = 6;
  sa = 7;
  da = 9;
  ts = 100;
  fast_packet = false;
  payload = 1 ∷ 2 ∷ 3 ∷ [];
  is_iso = true;
}

-- A message in two frames.
abbrev product : N2kMsg
product = record {
  pgn = 130816;
  prio = 6;
  sa = 7;
  da = 255;
  ts = 100;
  fast_packet = true;
  payload = 1 ∷ 2 ∷ 3 ∷ 4 ∷ 5 ∷ 6 ∷ 7 ∷ 8 ∷ 9 ∷ [];
  is_iso = true;
}

request-Fits : Fits request
request-Fits = record {
  sa_fits = omega arith;
  prio_fits = omega arith;
  da_fits = omega arith;
  pgn_fits = omega arith;
  pgn_plain = λ lt. refl;
}

product-Fits : Fits product
product-Fits = record {
  sa_fits = omega arith;
  prio_fits = omega arith;
  da_fits = omega arith;
  pgn_fits = omega arith;
  pgn_plain = λ lt. refl;
}

build_arbitration_id_read_example :
    (id_pgn (build_arbitration_id request) ≡ (59904, 9))
    × (id_sa (build_arbitration_id request) ≡ 7)
    × (id_prio (build_arbitration_id request) ≡ 6)
build_arbitration_id_read_example = build_arbitration_id_read request request-Fits

send_single_example :
    (send (interface_of 40) request false ≡ (
      ok (some true),
      record (interface_of 40) { in_queue = frame_of request request.payload ∷ [] },
    ))
    × (process_receive_msg none_defined (interface_of 40) 500 600 (frame_of request request.payload)
        ≡ (
          ok tt,
          record (interface_of 40) {
            total_msg_in = 1;
            queue = arrived request 500 request.payload ∷ [];
          },
        ))
unfolding is_pgn_active get fast_packet_check
send_single_example =
    send_single none_defined (interface_of 40) (interface_of 40) 500 600 request false request-Fits
      refl refl refl refl (λ e. omega (arith, e)) (λ e. omega (arith, e)) refl refl (omega arith)
      refl

receive_all-split_message_example :
    receive_all none_defined
      (interface_of 40)
      500
      600
      (map (frame_of product) (split_message new_handler 130816 product.payload).0.0)
    ≡ (
      replicate 2 (ok tt),
      record (interface_of 40) {
        total_msg_in = 2;
        queue = arrived product 500 (product.payload ++ trailing product.payload) ∷ [];
      },
    )
unfolding get fast_packet_check
receive_all-split_message_example =
    receive_all-split_message none_defined new_handler (interface_of 40) 500 600 product
      product-Fits (λ e. omega (arith, e)) (λ e. omega (arith, e)) refl (inl refl) refl refl
      (omega arith) (omega arith) refl

send_fast_example : send (interface_of 40) product false ≡ (
  ok none,
  record (interface_of 40) {
    in_queue = map (frame_of product) (split_message new_handler 130816 product.payload).0.0;
    fp_handler = (split_message new_handler 130816 product.payload).1;
  },
)
unfolding get
send_fast_example =
    send_fast (interface_of 40) product false refl refl (inl refl) (omega arith) (omega arith)

send_interrupted_example :
    ((send (interface_of 1) product true).0 ≡ ok (some false))
    × ((send (send (interface_of 1) product true).1 product true).0 ≡ err value_error)
unfolding get
send_interrupted_example =
    send_interrupted (interface_of 1) product product refl refl refl (inl refl) (omega arith)
      (omega arith) (omega arith) (omega arith) (omega arith)

-- A writer with one frame in its queue, for two frames more, and a write that fails at first.
abbrev starting : Writer
starting = record {
  in_queue = frame_of request [] ∷ [];
  in_queue_size = 20;
  stop_flag = false;
  total_msg = 0;
  nberr = 0;
  retry = none;
  phase = ready;
  sent = [];
}

abbrev events : List Event
events =
    work accepted
    ∷ work can_error
    ∷ put_frame (frame_of request (1 ∷ []))
    ∷ work accepted
    ∷ work accepted
    ∷ work accepted
    ∷ []

run-all_frames_example :
    all_frames (run starting events) ≡ frame_of request [] ∷ frame_of request (1 ∷ []) ∷ []
run-all_frames_example = run-all_frames starting events
