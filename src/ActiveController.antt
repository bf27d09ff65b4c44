-- ===== src/ActiveController.antt =====
-- navigation_server/can_interface/nmea2k_active_controller.py: the subscribers that read the bus
-- (`N2KReadSubscriber`), the index of the applications by their address, and the dispatch of data
-- messages by `NMEA2KActiveController.process_msg`. The applications are numbers, and so are the
-- clients of the subscribers; what the handlers of the applications do to the controller is a parameter.
pub mod Reading
pub mod Addressing
mod Tests
use navigation_server.Base.{
  ℕ, ◌+◌, Bool, true, false, not, ◌&&◌, Option, none, some, List, [], ◌∷◌, ◌++◌, leb, ltb, ◌==◌,
  if◌then◌else◌, length, contains, Dict, get, put, remove, Result, ok, err, Exception, queue_full,
  key_error, assertion_error,
}
use navigation_server.Message.{N2kMsg}
use navigation_server.CanInterface.{CanInterface, add_address, remove_address}

pub record ReadSubscriber : Type 0 where
  pub queue : List N2kMsg
  pub select_source : Option (List ℕ)
  pub reject_source : Option (List ℕ)
  pub select_pgn : Option (List ℕ)
  pub reject_pgn : Option (List ℕ)

-- A list that is not empty, as a set.
abbrev as_set : List ℕ → Option (List ℕ)
as_set [] = none
as_set (x ∷ xs) = some (x ∷ xs)

abbrev is_set : Option (List ℕ) → Bool
is_set none = false
is_set (some xs) = true

-- A list of rejected values counts only without selected ones.
unfoldable pub new_subscriber : (sources no_sources pgns no_pgns : List ℕ) → ReadSubscriber
new_subscriber sources no_sources pgns no_pgns = record {
  queue = [];
  select_source = as_set sources;
  reject_source = if is_set (as_set sources) then none else as_set no_sources;
  select_pgn = as_set pgns;
  reject_pgn = if is_set (as_set pgns) then none else as_set no_pgns;
}

abbrev passes : Option (List ℕ) → Option (List ℕ) → ℕ → Bool
passes (some selected) rejected x = contains selected x
passes none (some rejected) x = not (contains rejected x)
passes none none x = true

unfoldable pub accepts : ReadSubscriber → N2kMsg → Bool
accepts s m = passes s.select_source s.reject_source m.sa && passes s.select_pgn s.reject_pgn m.pgn

-- The queue takes 20 messages; a put into the full one raises.
unfoldable pub push_message : ReadSubscriber → N2kMsg → Result (Unit {0}) × ReadSubscriber
unfolding accepts
push_message s m =
    if accepts s m
    then (if leb 20 (length s.queue)
        then (err queue_full, s)
        else (ok tt, record s { queue = s.queue ++ m ∷ [] }))
    else (ok tt, s)

-- `None` is what the wait ends with when its time is over.
unfoldable pub get_message : ReadSubscriber → Option N2kMsg × ReadSubscriber
get_message s = elim s.queue [ [] ↦ (none, s) | m ∷ rest ↦ (some m, record s { queue = rest }) ]

pub record ActiveController : Type 0 where
  pub devices : Dict ℕ
  pub app_index : Dict ℕ
  pub can : CanInterface
  pub applications : List ℕ
  pub address_change_request : Option (ℕ × ℕ)
  pub pgn_vector : Dict ℕ
  pub catch_all : List ℕ
  pub read_subscribers : Dict ReadSubscriber

unfoldable pub add_read_subscriber : ActiveController → ℕ → ReadSubscriber → ActiveController
add_read_subscriber c client s = record c { read_subscribers = put c.read_subscribers client s }

-- An unknown client is only logged.
unfoldable pub remove_read_subscriber : ActiveController → ℕ → ActiveController
remove_read_subscriber c client = record c { read_subscribers = remove c.read_subscribers client }

-- `set_pgn_vector` with a list: the PGNs that have an application already are left.
unfoldable pub set_pgn_list : ActiveController → ℕ → List ℕ → ActiveController
set_pgn_list c application [] = c
set_pgn_list c application (pgn ∷ pgns) =
    set_pgn_list
      (elim (get c.pgn_vector pgn) [
        | some _ ↦ c
        | none ↦ record c { pgn_vector = put c.pgn_vector pgn application }
      ])
      application pgns

-- With a number: only those below 254 are entered. `set_pgn_all` is the number -1.
unfoldable pub set_pgn_number : ActiveController → ℕ → ℕ → ActiveController
set_pgn_number c application pgn =
    if ltb pgn 254 then record c { pgn_vector = put c.pgn_vector pgn application } else c

unfoldable pub set_pgn_all : ActiveController → ℕ → ActiveController
set_pgn_all c application = record c { catch_all = c.catch_all ++ application ∷ [] }

unfoldable pub add_application_index : ActiveController → ℕ → ℕ → ActiveController
add_application_index c application address = record c {
  devices = put c.devices address application;
  app_index = put c.app_index address application;
  can = add_address c.can address;
}

-- `del` raises for an address that the table or the index does not have.
unfoldable pub remove_application_index :
    ActiveController → ℕ → Result (Unit {0}) × ActiveController
remove_application_index c old = elim (get c.devices old) [
  | none ↦ (err key_error, c)
  | some _ ↦
      let cleared = record c { devices = remove c.devices old; can = remove_address c.can old } in
      elim (get c.app_index old) [
        | none ↦ (err key_error, cleared)
        | some _ ↦ (ok tt, record cleared { app_index = remove c.app_index old })
      ]
]

unfoldable pub change_application_address :
    ActiveController → ℕ → ℕ → Result (Unit {0}) × ActiveController
change_application_address c application old = elim c.address_change_request [
  | some _ ↦ (err assertion_error, c)
  | none ↦ (ok tt, record c { address_change_request = some (application, old) })
]

unfoldable pub enter :
    ℕ → ℕ → Result (Unit {0}) × ActiveController → Result (Unit {0}) × ActiveController
unfolding add_application_index
enter application address (err e, c) = (err e, c)
enter application address (ok _, c) =
    (ok tt, record (add_application_index c application address) { address_change_request = none })

-- `address` is the new address, which the application has already.
unfoldable pub apply_change : ActiveController → ℕ → ℕ → ℕ → Result (Unit {0}) × ActiveController
unfolding remove_application_index enter
apply_change c application old address = enter application address (remove_application_index c old)

-- The message for every subscriber; one with a full queue is removed.
unfoldable pub push_all : Dict ReadSubscriber → N2kMsg → Dict ReadSubscriber
unfolding push_message
push_all [] m = []
push_all ((client, s) ∷ rest) m =
    let others = push_all rest m in
    elim (push_message s m).0 [ ok _ ↦ (client, (push_message s m).1) ∷ others | err e ↦ others ]

abbrev is_key_error : Exception → Bool
is_key_error e = elim e [ key_error ↦ true | _ ↦ false ]

-- `except KeyError` around a call
abbrev pub swallow : Result (Unit {0}) × ActiveController → Result (Unit {0}) × ActiveController
swallow (ok _, c) = (ok tt, c)
swallow (err e, c) = (if is_key_error e then ok tt else err e, c)

-- What is called for a message: the treatment by the superclass, the handlers of an application, and
-- the address that an application has.
pub record Handlers : Type 0 where
  pub super_process_msg : N2kMsg → ActiveController → Result (Unit {0}) × ActiveController
  pub receive_msg : ℕ → N2kMsg → ActiveController → Result (Unit {0}) × ActiveController
  pub receive_data_msg : ℕ → N2kMsg → ActiveController → Result (Unit {0}) × ActiveController
  pub receive_iso_msg : ℕ → N2kMsg → ActiveController → Result (Unit {0}) × ActiveController
  pub address_of : ActiveController → ℕ → ℕ

-- One statement after another, until one raises.
infixl 5 ◌then◌
abbrev pub ◌then◌ :
    Result (Unit {0}) × ActiveController
    → (ActiveController → Result (Unit {0}) × ActiveController)
    → Result (Unit {0}) × ActiveController
(ok _, c) then next = next c
(err e, c) then next = (err e, c)

unfoldable pub each :
    (ℕ → N2kMsg → ActiveController → Result (Unit {0}) × ActiveController)
    → List ℕ
    → N2kMsg
    → ActiveController
    → Result (Unit {0}) × ActiveController
each receive [] m c = (ok tt, c)
each receive (a ∷ rest) m c = receive a m c then each receive rest m

unfoldable pub apply_pending : Handlers → ActiveController → Result (Unit {0}) × ActiveController
unfolding apply_change
apply_pending h c = elim c.address_change_request [
  | none ↦ (ok tt, c)
  | some (application, old) ↦ apply_change c application old (h.address_of c application)
]

unfoldable pub dispatch_addressed :
    Handlers → N2kMsg → ActiveController → Result (Unit {0}) × ActiveController
dispatch_addressed h m c = elim (get c.app_index m.da) [
  | none ↦ (ok tt, c)
  | some a ↦ swallow (if m.is_iso then h.receive_msg a m c else h.receive_data_msg a m c)
]

unfoldable pub dispatch_vector :
    Handlers → N2kMsg → ActiveController → Result (Unit {0}) × ActiveController
dispatch_vector h m c = elim (get c.pgn_vector m.pgn) [
  | none ↦ (ok tt, c)
  | some a ↦ swallow (h.receive_data_msg a m c)
]

unfoldable pub process_msg :
    Handlers → N2kMsg → ActiveController → Result (Unit {0}) × ActiveController
unfolding dispatch_addressed dispatch_vector push_all each apply_pending
process_msg h m c =
    let pushed = record c { read_subscribers = push_all c.read_subscribers m } in
    if not (m.da == 255)
    then dispatch_addressed h m c
    else if m.is_iso
    then (h.super_process_msg m c
        then (λ d. each h.receive_iso_msg d.applications m d)
        then apply_pending h)
    else (dispatch_vector h m pushed then (λ d. each h.receive_data_msg d.catch_all m d))
