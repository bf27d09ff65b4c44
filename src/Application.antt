-- ===== src/Application.antt =====
-- navigation_server/can_interface/nmea2k_application.py, the class `NMEA2000Application`: the
-- address claim, the heartbeat and the requests of one controller application, and what its handlers
-- do to the controller. A timer is a number: `timers` holds those that are armed, with what
-- they call. The controller and the CAN interface are seen by what is called: the messages
-- that are sent, the change of address that is asked for, and the stop. The fields of a message that is
-- received are arguments: its decoding by the PGN definitions is not part of this file.
pub mod Steps
pub mod Receipt
pub mod Claiming
pub mod Heartbeats
mod Tests
use navigation_server.Base.{
  ℕ, ◌+◌, Bool, true, false, ◌||◌, Option, none, some, List, [], ◌∷◌, ◌++◌, ltb, ◌==◌,
  if◌then◌else◌, Dict, put, remove, Result, ok, err, assertion_error, runtime_error,
}
use navigation_server.AddressPool.{ApplicationPool, get_new_address}

pub data AppState : Type 0 where
  wait_for_bus address_claim active stop_in_progress : AppState

-- The messages that an application sends, by the objects that are made for them.
pub data IsoObject : Type 0 where
  claim_object : (sa name da : ℕ) → IsoObject
  request_object : (sa da request_pgn : ℕ) → IsoObject
  heartbeat_object : (interval sequence sa : ℕ) → IsoObject
  product_object configuration_object : (sa : ℕ) → IsoObject

pub data Callback : Type 0 where
  on_claim_delay on_heartbeat : Callback

pub record Application : Type 0 where
  pub address : ℕ
  pub iso_name : ℕ
  pub app_state : AppState
  pub claim_timer : Option ℕ
  pub heartbeat_timer : Option ℕ
  pub heartbeat_interval : ℕ
  pub sequence : ℕ
  -- the controller
  pub app_pool : ApplicationPool
  pub change_request : Option ℕ
  pub allowed_send : Bool
  pub start_locked : Bool
  pub stopped : Bool
  pub sent : List IsoObject
  -- the armed timers
  pub timers : Dict Callback
  pub next_timer : ℕ

abbrev pub send : Application → IsoObject → Application
send a m = record a { sent = a.sent ++ m ∷ [] }

-- `cancel` of the timer that is held, if one is
abbrev pub disarm : Dict Callback → Option ℕ → Dict Callback
disarm timers none = timers
disarm timers (some t) = remove timers t

abbrev pub cancel : Application → Option ℕ → Application
cancel a t = record a { timers = disarm a.timers t }

-- `threading.Timer(...)` and its `start`
abbrev pub start_timer : Application → Callback → Application
start_timer a callback = record a {
  timers = put a.timers a.next_timer callback;
  next_timer = a.next_timer + 1;
}

abbrev pub is_stopping : AppState → Bool
is_stopping stop_in_progress = true
is_stopping wait_for_bus = false
is_stopping address_claim = false
is_stopping active = false

unfoldable pub stop_request : Application → Application
stop_request a = cancel (record a { app_state = stop_in_progress }) a.heartbeat_timer

-- `controller.stop()` calls `stop_request` of every application: here of this one.
unfoldable pub controller_stop : Application → Application
unfolding stop_request
controller_stop a = record (stop_request a) { stopped = true }

unfoldable pub respond_address_claim : Application → Application
respond_address_claim a = send a (claim_object a.address a.iso_name 255)

unfoldable pub send_address_claim : Application → Application
unfolding respond_address_claim
send_address_claim a =
    if is_stopping a.app_state
    then a
    else start_timer
        (record (respond_address_claim a) {
          app_state = address_claim;
          claim_timer = some a.next_timer;
        })
        on_claim_delay

unfoldable pub send_iso_request : Application → ℕ → ℕ → Application
send_iso_request a da pgn = send a (request_object a.address da pgn)

unfoldable pub next_sequence : ℕ → ℕ
next_sequence n = if ltb 253 (n + 1) then 0 else n + 1

unfoldable pub send_heartbeat : Application → Application
unfolding next_sequence
send_heartbeat a =
    if is_stopping a.app_state
    then a
    else start_timer
        (record (send a (heartbeat_object a.heartbeat_interval a.sequence a.address)) {
          sequence = next_sequence a.sequence;
          heartbeat_timer = some a.next_timer;
        })
        on_heartbeat

-- The timer object has run out when this is called.
unfoldable pub address_claim_delay : Application → Application
unfolding send_iso_request send_heartbeat
address_claim_delay a =
    record (send_heartbeat
      (send_iso_request (record a { app_state = active; allowed_send = true }) 255 60928)) {
        start_locked = false;
        claim_timer = none;
      }

-- `change_application_address` asserts that no change waits; the address is written before.
unfoldable pub change_address : Application → ℕ → Result (Unit {0}) × Application
unfolding send_address_claim
change_address a address = elim a.change_request [
  | none ↦
      (ok tt, send_address_claim (record a { address = address; change_request = some a.address }))
  | some _ ↦ (err assertion_error, record a { address = address })
]

-- A claim with a lower name takes the address away.
unfoldable pub give_way : Application → List ℕ → ℕ → Result (Unit {0}) × Application
unfolding change_address controller_stop
give_way a network sa =
    let got = get_new_address network a.app_pool in
    let moved = record a { app_pool = got.1 } in
    if got.0 == 254
    then (ok tt, controller_stop (send moved (claim_object 254 a.iso_name sa)))
    else change_address moved got.0

-- The claim of another device on this address, with the name that it holds.
unfoldable pub conflict : Application → List ℕ → ℕ → ℕ → Result (Unit {0}) × Application
unfolding give_way controller_stop respond_address_claim
conflict a network sa name =
    if ltb name a.iso_name
    then give_way a network sa
    else if name == a.iso_name
    then (ok tt, controller_stop a)
    else (ok tt, respond_address_claim a)

-- `network` are the addresses of the devices that the controller knows.
unfoldable pub address_claim_receipt :
    Application → List ℕ → ℕ → ℕ → Result (Unit {0}) × Application
unfolding conflict
address_claim_receipt a network sa name =
    let b = cancel a a.claim_timer in
    if b.address == sa then conflict b network sa name else (ok tt, b)

unfoldable pub iso_request : Application → ℕ → ℕ → Application
unfolding respond_address_claim
iso_request a da request_pgn =
    if (da == a.address) || (da == 255)
    then if request_pgn == 60928
      then respond_address_claim a
      else if request_pgn == 126996
      then send a (product_object a.address)
      else if request_pgn == 126998
      then send a (configuration_object a.address)
      else a
    else a

unfoldable pub commanded_address_request : Application → ℕ → ℕ → Result (Unit {0}) × Application
unfolding change_address
commanded_address_request a name new_address =
    if name == a.iso_name then change_address a new_address else (ok tt, a)

-- `known` is what the controller holds for the source: whether its product information is
-- there, or no device.
unfoldable pub remote_address_claim :
    Application → Option Bool → ℕ → Result (Unit {0}) × Application
unfolding send_iso_request
remote_address_claim a none sa = (err runtime_error, a)
remote_address_claim a (some true) sa = (ok tt, a)
remote_address_claim a (some false) sa =
    (ok tt, send_iso_request (send_iso_request a sa 126996) sa 126998)
