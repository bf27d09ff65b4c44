-- ===== src/Couplers/Tests.antt =====
-- Frames of both gateways, and the theorems at concrete inputs.
use navigation_server.Base.{
  ℕ, ◌≡◌, refl, true, false, none, some, List, [], ◌∷◌, arith, ok, err, invalid_frame, inl, get,
}
use navigation_server.Base.Texts.{index}
use navigation_server.Message.{N2kMsg, new_msg}
use navigation_server.FastPacket.{new_handler, is_pgn_active}
use navigation_server.Nmea0183.{n2k_msg, checked}
use navigation_server.Couplers.Shipmodul.{Shipmodul, shipmodul_process_frame}
use navigation_server.Couplers.Yd.{YdCoupler, encode_nmea2000, decode_frame}
use navigation_server.Couplers.Tagged.{tagged_refused}
use navigation_server.Couplers.YdFrames.{received}
use navigation_server.Couplers.YdReply.{decode_frame-encode}

abbrev miniplex : Shipmodul
miniplex = record {
  check_in_progress = false;
  check_ok = false;
  configmode = false;
  total_msg_raw = 0;
  mix_mode = false;
  has_controller = false;
  fast_packet_handler = new_handler;
}

tagged_refused_example :
    (shipmodul_process_frame miniplex
      (92 ∷ 115 ∷ 58 ∷ 49 ∷ 92 ∷ checked (36 ∷ 71 ∷ 80 ∷ 88 ∷ 44 ∷ 49 ∷ []))).0
    ≡ err invalid_frame
unfolding index
tagged_refused_example =
    tagged_refused miniplex (58 ∷ 49 ∷ []) (71 ∷ 80 ∷ 88 ∷ 44 ∷ 49 ∷ []) 36 refl refl
      (omega arith, (omega arith, (omega arith, (omega arith, (omega arith, tt))))) (inl refl)

abbrev gateway : YdCoupler
gateway = record {
  msg_raw = 0;
  has_writer = true;
  reply_queue = [];
  fast_packet_handler = new_handler;
}

abbrev heading : N2kMsg
heading = record {
  pgn = 127250;
  prio = 2;
  sa = 12;
  da = 255;
  ts = 0;
  fast_packet = false;
  payload = 1 ∷ 2 ∷ [];
  is_iso = false;
}

decode_frame-encode_example :
    (text : List ℕ) × ((encode_nmea2000 gateway heading).0 ≡ (text ∷ [], ok tt))
    × (decode_frame (λ pgn. ok false) none 5 gateway (received (49 ∷ []) text) ≡ (
      ok (n2k_msg (some (received (49 ∷ []) text)) (record heading { sa = 255; da = 0; ts = 5 })),
      record gateway { msg_raw = 1 },
    ))
unfolding is_pgn_active get new_msg
decode_frame-encode_example =
    decode_frame-encode (λ pgn. ok false) 5 gateway gateway heading
      (record heading { sa = 255; da = 0; ts = 5 }) 49 [] 1 (2 ∷ []) refl refl (omega arith)
      (omega arith) (omega arith) (omega arith, (omega arith, tt)) (omega arith) (refl, tt) refl
      refl refl
