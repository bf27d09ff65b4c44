-- ===== src/IsoTransport/Tests.antt =====
-- A broadcast of nine bytes, and the theorem on it at this input.
use navigation_server.Base.{◌≡◌, refl, true, false, [], ◌∷◌}
use navigation_server.Message.{N2kMsg}
use navigation_server.IsoTransport.Transfer.{new_transaction_object, split_message}
use navigation_server.IsoTransport.Handler.{IsoTransportHandler}

abbrev nine : N2kMsg
nine = record {
  pgn = 65240;
  prio = 6;
  sa = 7;
  da = 255;
  ts = 100;
  fast_packet = false;
  payload = 1 ∷ 2 ∷ 3 ∷ 4 ∷ 5 ∷ 6 ∷ 7 ∷ 8 ∷ 9 ∷ [];
  is_iso = true;
}

abbrev idle : IsoTransportHandler
idle = record { transactions = [] }

-- The ninth byte is lost: 0xFF stands in its place and at the end of the frame.
nine_packets :
    split_message (record new_transaction_object {
      total_size = 9;
      nb_packets = 2;
      buffer = 1 ∷ 2 ∷ 3 ∷ 4 ∷ 5 ∷ 6 ∷ 7 ∷ 8 ∷ 9 ∷ [];
    })
    ≡ (1 ∷ 1 ∷ 2 ∷ 3 ∷ 4 ∷ 5 ∷ 6 ∷ 7 ∷ []) ∷ (2 ∷ 8 ∷ 255 ∷ 3 ∷ 4 ∷ 5 ∷ 6 ∷ 255 ∷ []) ∷ []
unfolding split_message
nine_packets = refl
