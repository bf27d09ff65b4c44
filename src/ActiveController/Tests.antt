-- ===== src/ActiveController/Tests.antt =====
-- Subscribers of an active controller, and the theorems at concrete inputs.
use navigation_server.Base.{
  contains, arith, ◌≡◌, refl, true, false, none, some, List, [], ◌∷◌, ok, get, replicate,
}
use navigation_server.Message.{N2kMsg}
use navigation_server.CanInterface.{remove_first}
use navigation_server.FastPacket.{new_handler}
use navigation_server.ActiveController.{
  ActiveController, ReadSubscriber, Handlers, process_msg, apply_change, change_application_address,
  set_pgn_number, accepts,
}
use navigation_server.ActiveController.Reading.{process_msg-served}
use navigation_server.ActiveController.Addressing.{apply_change-redirects}

abbrev wind : N2kMsg
wind = record {
  pgn = 130306;
  prio = 2;
  sa = 35;
  da = 255;
  ts = 0;
  fast_packet = false;
  payload = 1 ∷ [];
  is_iso = false;
}

abbrev reader : List N2kMsg → ReadSubscriber
reader queue = record {
  queue = queue;
  select_source = none;
  reject_source = some (7 ∷ []);
  select_pgn = some (130306 ∷ []);
  reject_pgn = none;
}

abbrev ecu : ActiveController
ecu = record {
  devices = (112, 0) ∷ (35, 9) ∷ [];
  app_index = (112, 0) ∷ [];
  can = record {
    queue_size = 20;
    queue = [];
    allowed_send = true;
    write_buffer_size = 50;
    in_queue = [];
    fp_handler = new_handler;
    iso_tp_handler = record { transactions = [] };
    total_msg_in = 0;
    addresses = 255 ∷ 112 ∷ [];
    write_errors = 0;
  };
  applications = 0 ∷ [];
  address_change_request = some (0, 112);
  pgn_vector = [];
  catch_all = 0 ∷ [];
  read_subscribers = (1, reader []) ∷ (2, reader (replicate 20 wind)) ∷ [];
}

abbrev handlers : Handlers
handlers = record {
  super_process_msg = λ m c. (ok tt, c);
  receive_msg = λ a m c. (ok tt, c);
  receive_data_msg = λ a m c. (ok tt, c);
  receive_iso_msg = λ a m c. (ok tt, c);
  address_of = λ c a. 113;
}

-- One PGN that is given as a number is not entered.
number_not_entered : (set_pgn_number ecu 0 130306).pgn_vector ≡ []
unfolding set_pgn_number
number_not_entered = refl

process_msg-served_example : get (process_msg handlers wind ecu).1.read_subscribers 2 ≡ none
unfolding get accepts
process_msg-served_example =
    process_msg-served handlers (λ a m c. refl) wind ecu 2 refl refl (refl, (refl, tt))

apply_change-redirects_example :
    let after = (apply_change ecu 0 112 113).1 in
    ((apply_change ecu 0 112 113).0 ≡ ok tt)
    × (get after.devices 113 ≡ some 0)
    × (get after.app_index 113 ≡ some 0)
    × (contains after.can.addresses 113 ≡ true)
    × ((change_application_address after 0 113).0 ≡ ok tt)
unfolding get remove_first
apply_change-redirects_example =
    apply_change-redirects ecu 0 112 113 0 0 113 refl refl (omega arith) refl
