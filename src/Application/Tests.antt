-- ===== src/Application/Tests.antt =====
-- An application that goes through a claim, and the theorems at concrete inputs.
use navigation_server.Base.{◌≡◌, ◌≢◌, refl, true, false, none, some, [], ◌∷◌, arith, get, remove}
use navigation_server.AddressPool.{ApplicationPool, new_pool, get_new_address}
use navigation_server.Application.{
  wait_for_bus, address_claim, active, claim_object, heartbeat_object, request_object, Application,
  on_claim_delay, on_heartbeat, stop_request, send_address_claim, address_claim_receipt,
}
use navigation_server.Application.Steps.{
  IsSound, Reach, here, next, bus_ready, stopped, Reach-IsSound,
}
use navigation_server.Application.Receipt.{arbitration}
use navigation_server.Application.Claiming.{claimed, becomes_active, rests, kept_stuck}
use navigation_server.Application.Heartbeats.{beat_times, heartbeats}

abbrev waiting : Application
waiting = record {
  address = 112;
  iso_name = 5000;
  app_state = wait_for_bus;
  claim_timer = none;
  heartbeat_timer = none;
  heartbeat_interval = 60;
  sequence = 0;
  app_pool = record {
    mfg_code = 999;
    unique_id_root = 0;
    max_application = 2;
    address_pool = 112 ∷ 113 ∷ 114 ∷ 115 ∷ 116 ∷ [];
    ap_index = 1;
    application_count = 1;
  };
  change_request = none;
  allowed_send = false;
  start_locked = true;
  stopped = false;
  sent = [];
  timers = [];
  next_timer = 0;
}

abbrev claiming : Application
claiming = record waiting {
  app_state = address_claim;
  claim_timer = some 0;
  timers = (0, on_claim_delay) ∷ [];
  next_timer = 1;
}

abbrev beating : Application
beating = record waiting {
  app_state = active;
  heartbeat_timer = some 1;
  sequence = 253;
  timers = (1, on_heartbeat) ∷ [];
  next_timer = 2;
}

becomes_active_example :
    Reach waiting (claimed waiting)
    × ((claimed waiting).app_state ≡ active)
    × ((claimed waiting).allowed_send ≡ true)
    × ((claimed waiting).sent
        ≡ claim_object 112 5000 255 ∷ request_object 112 255 60928 ∷ heartbeat_object 60 0 112 ∷ [])
    × (get (claimed waiting).timers 1 ≡ some on_heartbeat)
becomes_active_example = becomes_active waiting refl

Reach-IsSound_example : IsSound (stop_request (send_address_claim waiting))
Reach-IsSound_example =
    Reach-IsSound {a = waiting} (omega arith, tt, tt) (next (next here bus_ready) stopped)

arbitration_example :
    let keeper = (address_claim_receipt waiting [] 112 7000).1 in
    let mover =
      (address_claim_receipt (record claiming { iso_name = 7000 }) (112 ∷ []) 112 5000).1 in
    (keeper.address ≡ 112)
    × (keeper.sent ≡ claim_object 112 5000 255 ∷ [])
    × (mover.address ≢ keeper.address)
    × (mover.app_state ≡ address_claim)
    × (mover.sent ≡ claim_object mover.address 7000 255 ∷ [])
unfolding get_new_address navigation_server.AddressPool.first_free
arbitration_example =
    arbitration waiting (record claiming { iso_name = 7000 }) [] (112 ∷ []) 112 5 refl (omega arith)
      refl refl refl refl (omega arith) (omega arith)

kept_stuck_example : (address_claim_receipt claiming [] 112 7000).1.app_state ≡ address_claim
unfolding remove get
kept_stuck_example =
    kept_stuck claiming [] 7000 0 refl refl (λ k. ground arith) (omega arith)
      (address_claim_receipt claiming [] 112 7000).1 rests

heartbeats_example :
    ((beat_times 2 beating).sent ≡ heartbeat_object 60 253 112 ∷ heartbeat_object 60 0 112 ∷ [])
    × ((beat_times 2 beating).sequence ≡ 1)
heartbeats_example = heartbeats 2 beating 1 refl refl (omega arith)
