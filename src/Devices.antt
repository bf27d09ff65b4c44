-- ===== src/Devices.antt =====
-- navigation_server/nmea2000/nmea2k_controller.py, the class `NMEA2KController`, and
-- navigation_server/nmea2000/nmea2k_device.py: the table of the devices on the bus, which messages fill
-- and the garbage collection empties under one lock. Times are numbers of the same clock. What the
-- definitions of the PGNs and the decoding give is a parameter: whether a PGN has a definition, the
-- name in a claim, and whether the decoding of a message raises.
pub mod Access
pub mod Lock
pub mod Thread
pub mod View
pub mod Refinement
mod Tests
use navigation_server.Base.{
  ℕ, ◌+◌, ◌-◌, Bool, true, false, not, ◌||◌, Option, none, some, List, [], ◌∷◌, ◌++◌, ltb, leb,
  ◌==◌, if◌then◌else◌, length, Dict, get, put, remove, Result, ok, err, Exception, unknown_pgn,
  key_error, runtime_error, attribute_error, map,
}
use navigation_server.Message.{N2kMsg}

-- What the modules of the data model give for a message.
pub record Decoder : Type 0 where
  pub has_definition : ℕ → Bool
  pub claim_name : N2kMsg → Result ℕ
  pub decode_ok : N2kMsg → Result (Unit {0})

-- The informations are held as the messages that they are made of.
pub record Device : Type 0 where
  pub address : ℕ
  pub lastmsg_ts : ℕ
  pub pgn_received : Dict ℕ
  pub product_information : Option N2kMsg
  pub configuration_info : Option N2kMsg
  pub heartbeat : Option N2kMsg
  pub iso_name : Option ℕ
  pub changed : Bool

unfoldable pub new_device : ℕ → Device
new_device address = record {
  address = address;
  lastmsg_ts = 0;
  pgn_received = [];
  product_information = none;
  configuration_info = none;
  heartbeat = none;
  iso_name = none;
  changed = true;
}

-- `PgnRecord` looks the definition up when it is made, and that raises for an unknown PGN.
unfoldable pub add_pgn_count : Decoder → Device → ℕ → Result (Unit {0}) × Device
add_pgn_count decoder d pgn = elim (get d.pgn_received pgn) [
  | some count ↦ (ok tt, record d { pgn_received = put d.pgn_received pgn (count + 1) })
  | none ↦
      if decoder.has_definition pgn
      then (ok tt, record d { pgn_received = put d.pgn_received pgn 1 })
      else (err unknown_pgn, d)
]

abbrev same_name : Option ℕ → ℕ → Bool
same_name none name = false
same_name (some held) name = held == name

unfoldable pub p60928 : Decoder → Device → N2kMsg → Result (Unit {0}) × Device
p60928 decoder d m = elim (decoder.claim_name m) [
  | err e ↦ (err e, d)
  | ok name ↦
      if same_name d.iso_name name
      then (ok tt, d)
      else (ok tt, record d { changed = true; iso_name = some name })
]

unfoldable pub p126993 : Decoder → Device → N2kMsg → Result (Unit {0}) × Device
p126993 decoder d m = elim (decoder.decode_ok m) [
  | err e ↦ (err e, d)
  | ok _ ↦ (ok tt, record d { heartbeat = some m })
]

-- `_changed` is written before the decoding.
unfoldable pub p126996 : Decoder → Device → N2kMsg → Result (Unit {0}) × Device
p126996 decoder d m = elim d.product_information [
  | some _ ↦ (ok tt, d)
  | none ↦ elim (decoder.decode_ok m) [
    | err e ↦ (err e, record d { changed = true })
    | ok _ ↦ (ok tt, record d { changed = true; product_information = some m })
  ]
]

unfoldable pub p126998 : Decoder → Device → N2kMsg → Result (Unit {0}) × Device
p126998 decoder d m = elim (decoder.decode_ok m) [
  | err e ↦ (err e, d)
  | ok _ ↦ (ok tt, record d { configuration_info = some m })
]

-- `_process_vector`: a PGN without an entry is left.
unfoldable pub process_vector : Decoder → Device → N2kMsg → Result (Unit {0}) × Device
unfolding p60928 p126993 p126996 p126998
process_vector decoder d m =
    if m.pgn == 60928
    then p60928 decoder d m
    else if m.pgn == 126993
    then p126993 decoder d m
    else if m.pgn == 126996
    then p126996 decoder d m
    else if m.pgn == 126998
    then p126998 decoder d m
    else (ok tt, d)

abbrev is_key_error : Exception → Bool
is_key_error e = elim e [ key_error ↦ true | _ ↦ false ]

-- `except KeyError`, which stands around the whole call
abbrev pub swallow : Result (Unit {0}) × Device → Result (Unit {0}) × Device
swallow (ok _, d) = (ok tt, d)
swallow (err e, d) = (if is_key_error e then ok tt else err e, d)

abbrev pub after_count : Decoder → N2kMsg → Result (Unit {0}) × Device → Result (Unit {0}) × Device
after_count decoder m (err e, d) = (ok tt, d)
after_count decoder m (ok _, d) = swallow (process_vector decoder d m)

-- A PGN without a definition ends the reception without an error.
unfoldable pub receive_msg : Decoder → ℕ → Device → N2kMsg → Result (Unit {0}) × Device
unfolding add_pgn_count process_vector
receive_msg decoder now d m =
    after_count decoder m (add_pgn_count decoder (record d { lastmsg_ts = now }) m.pgn)

-- An entry of the table: a proxy of a device on the bus, or an application of this controller, by
-- its number.
pub data Entry : Type 0 where
  proxy : Device → Entry
  local : ℕ → Entry

-- `App` are the applications, which an active controller has.
pub record Controller (App : Type 0) : Type 0 where
  pub devices : Dict Entry
  pub apps : Dict App
  pub input_queue : List N2kMsg
  pub queue_size : ℕ
  pub alive : Bool
  pub stop_flag : Bool
  pub subscriber : Dict ℕ
  pub max_silent : ℕ
  pub gc_lock : Bool
  pub gc_timer : Bool

-- How a call that takes the lock ends: it returns or raises, or it waits for a lock that its own
-- thread or another one holds.
pub data Outcome (A : Type 0) : Type 0 where
  returns : A → Outcome A
  raises : Exception → Outcome A
  blocks : Outcome A

-- What the controller calls: the data model, the handler of an application, and the functions of its
-- subscribers by their number.
pub record Environment (App : Type 0) : Type 0 where
  pub decoder : Decoder
  pub receive_app : App → N2kMsg → Result (Unit {0}) × App
  pub call : ℕ → N2kMsg → Result (Unit {0})

module _ {App : Type 0} where
  unfoldable pub check_device : Controller App → ℕ → Entry × Controller App
  unfolding new_device
  check_device c address = elim (get c.devices address) [
    | some entry ↦ (entry, c)
    | none ↦
        let entry = proxy (new_device address) in
        (entry, record c { devices = put c.devices address entry })
  ]

  -- The entry is the object in the table, so what it writes is seen there.
  abbrev pub stored :
      ℕ → Controller App → Result (Unit {0}) × Device → Result (Unit {0}) × Controller App
  stored address c (r, d) = (r, record c { devices = put c.devices address (proxy d) })

  abbrev pub stored_app :
      ℕ → Controller App → Result (Unit {0}) × App → Result (Unit {0}) × Controller App
  stored_app app c (r, a) = (r, record c { apps = put c.apps app a })

  unfoldable pub receive_entry :
      Environment App → ℕ → Controller App → Entry → N2kMsg → Result (Unit {0}) × Controller App
  unfolding receive_msg
  receive_entry env now c (proxy d) m = stored m.sa c (receive_msg env.decoder now d m)
  receive_entry env now c (local app) m = elim (get c.apps app) [
    | none ↦ (ok tt, c)
    | some a ↦ stored_app app c (env.receive_app a m)
  ]

  unfoldable pub call_subscribers :
      Environment App → Controller App → ℕ → N2kMsg → Result (Unit {0})
  call_subscribers env c pgn m = elim (get c.subscriber pgn) [
    | none ↦ ok tt
    | some f ↦ env.call f m
  ]

  -- The release is the last statement: an exception passes it by.
  abbrev pub released : Result (Unit {0}) × Controller App → Outcome (Unit {0}) × Controller App
  released (ok _, c) = (returns tt, record c { gc_lock = false })
  released (err e, c) = (raises e, c)

  abbrev pub notified :
      Environment App
      → N2kMsg
      → Result (Unit {0}) × Controller App
      → Result (Unit {0}) × Controller App
  notified env m (ok _, c) = (call_subscribers env c m.pgn m, c)
  notified env m (err e, c) = (err e, c)

  unfoldable pub process_msg :
      Environment App → ℕ → Controller App → N2kMsg → Outcome (Unit {0}) × Controller App
  unfolding check_device receive_entry call_subscribers
  process_msg env now c m =
      let found = check_device (record c { gc_lock = true }) m.sa in
      if leb 254 m.sa
      then (returns tt, c)
      else if c.gc_lock
      then (blocks, c)
      else released (notified env m (receive_entry env now found.1 found.0 m))
