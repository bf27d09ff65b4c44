-- ===== src/CouplerThread/Tests.antt =====
-- A coupler with two publishers, and the theorems at concrete inputs.
use navigation_server.Base.{ℕ, ◌≡◌, refl, true, false, none, List, [], ◌∷◌, arith, replicate}
use navigation_server.Publisher.{new_publisher}
use navigation_server.CouplerThread.{
  Msg, null, n0183, n2k, Coupler, Class, other, Transport, tcp, bidirectional, nmea2000, Subscriber,
  DeviceState, not_ready, active, is_open, not_open, Mode,
}
use navigation_server.CouplerThread.Reading.{Inbound, message, Converter}
use navigation_server.CouplerThread.Loop.{Session, go_on, leave, waits, work, nrun, handle_all}
use navigation_server.CouplerThread.Attempts.{nrun_gives_up}
use navigation_server.CouplerThread.Routing.{nrun-routes}

abbrev position : Msg
position = record { type = n2k; is_iso = false; content = 129025 }

abbrev claim : Msg
claim = record { type = n2k; is_iso = true; content = 60928 }

abbrev sentence : Msg
sentence = record { type = n0183; is_iso = false; content = 183 }

abbrev ending : Msg
ending = record { type = null; is_iso = false; content = 0 }

-- A publisher with room for one message, which gives up at the first one that is lost.
abbrev client : ℕ → Subscriber
client i = record { ident = i; filters = none; publisher = new_publisher 1 1 }

-- A client with no room left.
abbrev slow_client : ℕ → Subscriber
slow_client i = record {
  ident = i;
  filters = none;
  publisher = record (new_publisher 1 1) { queue = position ∷ [] };
}

abbrev coupler_of : Class → Transport → Mode → DeviceState → Coupler
coupler_of class_of transport mode state = record {
  class_of = class_of;
  transport = transport;
  direction = bidirectional;
  mode = mode;
  max_attempt = 3;
  nmea183_convert = false;
  n2k_writer = false;
  has_controller = true;
  configmode = false;
  publishers = client 1 ∷ slow_client 2 ∷ client 3 ∷ [];
  state = state;
  stopflag = false;
  suspend_flag = false;
  reader_started = false;
  total_msg = 0;
  total_msg_s = 0;
}

abbrev session_of : Coupler → List Inbound → Session
session_of c ins = record { coupler = c; nb_attempts = 0; inbound = ins; controlled = [] }

abbrev plain : Converter
plain m = ([], false)

nrun_gives_up_example :
    (nrun plain
        (replicate 2 (work not_open))
        (session_of (coupler_of other tcp nmea2000 not_ready) [])
      ≡ (
        go_on,
        record (session_of (coupler_of other tcp nmea2000 not_ready) []) { nb_attempts = 2 },
      ))
    × (nrun plain
          (work not_open ∷ work not_open ∷ work not_open ∷ work is_open ∷ [])
          (session_of (coupler_of other tcp nmea2000 not_ready) [])
        ≡ (
          leave,
          record (session_of
              (record (coupler_of other tcp nmea2000 not_ready) { stopflag = true })
              []) { nb_attempts = 3 },
        ))
nrun_gives_up_example =
    nrun_gives_up plain (session_of (coupler_of other tcp nmea2000 not_ready) []) 2 3 is_open []
      refl refl (omega arith) refl

nrun-routes_example :
    nrun plain (work is_open ∷ work is_open ∷ work is_open ∷ work is_open ∷ []) (
      session_of
        (coupler_of other tcp nmea2000 active)
        (message claim ∷ message position ∷ message claim ∷ []))
    ≡ (
      waits,
      record (session_of (handle_all (coupler_of other tcp nmea2000 active) (position ∷ [])) []) {
        controlled = claim ∷ claim ∷ [];
      },
    )
nrun-routes_example =
    nrun-routes plain
      (session_of (coupler_of other tcp nmea2000 active)
        (message claim ∷ message position ∷ message claim ∷ []))
      (claim ∷ position ∷ claim ∷ []) (is_open ∷ is_open ∷ is_open ∷ is_open ∷ [])
      (record { running = refl; ready = refl; reads = refl; fed = refl }) refl
      (refl, (refl, (refl, tt))) refl (omega arith)
