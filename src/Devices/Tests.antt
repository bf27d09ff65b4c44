-- ===== src/Devices/Tests.antt =====
-- A controller with one device and one application, and the theorems at concrete inputs.
use navigation_server.Base.{
  ℕ, ◌≡◌, refl, true, false, [], ◌∷◌, get, put, arith, ok, err, value_error, runtime_error, ◌==◌,
  if◌then◌else◌,
}
use navigation_server.Message.{N2kMsg}
use navigation_server.Devices.{
  Environment, Device, Controller, proxy, local, process_msg, raises, blocks, returns, check_device,
  new_device, receive_entry, call_subscribers, receive_msg,
}
use navigation_server.Devices.Access.{
  device_gc, nrun, get_device_by_address, get_device_with_property_value,
}
use navigation_server.Devices.Lock.{raise_blocks}
use navigation_server.Devices.Thread.{process_all, nrun_goes_on}
use navigation_server.Devices.View.{absent, presence, message, collection, run}
use navigation_server.Devices.Refinement.{run-refines}

-- Every PGN has a definition, every claim holds the name 7, and subscriber 1 raises.
abbrev env : Environment ℕ
env = record {
  decoder = record { has_definition = λ pgn. true; claim_name = λ m. ok 7; decode_ok = λ m. ok tt };
  receive_app = λ a m. (ok tt, a);
  call = λ f m. if f == 1 then err value_error else ok tt;
}

abbrev calm : Environment ℕ
calm = record env { call = λ f m. ok tt }

abbrev idle : Controller ℕ
idle = record {
  devices = (112, local 0) ∷ [];
  apps = (0, 5) ∷ [];
  input_queue = [];
  queue_size = 20;
  alive = true;
  stop_flag = false;
  subscriber = (60928, 1) ∷ [];
  max_silent = 60;
  gc_lock = false;
  gc_timer = true;
}

abbrev claim_from : ℕ → N2kMsg
claim_from sa = record {
  pgn = 60928;
  prio = 6;
  sa = sa;
  da = 255;
  ts = 0;
  fast_packet = false;
  payload = [];
  is_iso = true;
}

-- A lookup of an absent device raises what Python raises for a `raise` without an exception.
lookup_absent : (get_device_by_address idle 9).0 ≡ raises runtime_error
unfolding get_device_by_address get
lookup_absent = refl

lookup_by_property_holds_lock : (get_device_with_property_value idle).1.gc_lock ≡ true
unfolding get_device_with_property_value
lookup_by_property_holds_lock = refl

raise_blocks_example :
    let after = (process_msg env 5 idle (claim_from 9)).1 in
    ((process_msg env 5 idle (claim_from 9)).0 ≡ raises value_error)
    × (process_msg env 6 after (claim_from 10) ≡ (blocks, after))
    × ((nrun env 6 after (claim_from 10 ∷ [])).0 ≡ false)
    × ((get_device_by_address after 9).0 ≡ blocks)
    × ((device_gc 6 after).0 ≡ blocks)
unfolding check_device receive_entry call_subscribers receive_msg get put
    navigation_server.Devices.add_pgn_count navigation_server.Devices.process_vector
    navigation_server.Devices.p60928 new_device
raise_blocks_example =
    raise_blocks env 5 6 idle (claim_from 9) (claim_from 10) value_error 9 (omega arith)
      (omega arith) refl refl

nrun_goes_on_example :
    (nrun calm 5 idle (claim_from 9 ∷ claim_from 112 ∷ [])
      ≡ (true, process_all calm 5 idle (claim_from 9 ∷ claim_from 112 ∷ [])))
    × ((process_all calm 5 idle (claim_from 9 ∷ claim_from 112 ∷ [])).gc_lock ≡ false)
nrun_goes_on_example =
    nrun_goes_on calm ((λ m. (7, refl)), (λ m. refl), (λ a m. refl), (λ f m. refl)) 5 idle
      (claim_from 9 ∷ claim_from 112 ∷ []) refl refl

run-refines_example :
    presence (
      get
        (run calm
          (message 5 (claim_from 9) ∷ message 50 (claim_from 8) ∷ collection 70 ∷ [])
          idle).devices
        9)
    ≡ absent
unfolding get
run-refines_example =
    run-refines calm (message 5 (claim_from 9) ∷ message 50 (claim_from 8) ∷ collection 70 ∷ [])
      idle ((λ m. (7, refl)), (λ m. refl), (λ a m. refl), (λ f m. refl)) (refl, refl, (refl, tt)) 9
