-- ===== src/Devices/Access.antt =====
-- The rest of `NMEA2KController`: the input queue and the loop of its thread, the table as its clients
-- read it, and the garbage collection.
use navigation_server.Base.{
  not, ◌&&◌, ◌==◌, ℕ, ◌-◌, Bool, true, false, none, some, List, [], ◌∷◌, ◌++◌, ltb, leb,
  if◌then◌else◌, length, get, put, remove, Result, ok, err, key_error, runtime_error,
  attribute_error,
}
use navigation_server.Base.Purge.{keys_where, remove_keys}
use navigation_server.Message.{N2kMsg}
use navigation_server.Devices.{
  Environment, Entry, proxy, local, Controller, Outcome, returns, raises, blocks, process_msg,
}

-- `put` without waiting: a message that the full queue, or no thread, cannot take is dropped.
unfoldable pub send_message : {App : Type 0} → Controller App → N2kMsg → Controller App
send_message c m =
    if c.alive
    then (if not (c.queue_size == 0) && leb c.queue_size (length c.input_queue)
        then c
        else record c { input_queue = c.input_queue ++ m ∷ [] })
    else c

unfoldable pub stop : {App : Type 0} → Controller App → Controller App
stop c = record c { stop_flag = true; gc_timer = false }

unfoldable pub add_subscriber : {App : Type 0} → Controller App → ℕ → ℕ → Controller App
add_subscriber c pgn function = record c { subscriber = put c.subscriber pgn function }

unfoldable pub delete_device :
    {App : Type 0} → Controller App → ℕ → Result (Unit {0}) × Controller App
delete_device c address = elim (get c.devices address) [
  | none ↦ (err key_error, c)
  | some _ ↦ (ok tt, record c { devices = remove c.devices address })
]

-- The last statement is a `raise` outside of the handler, where no exception is active.
unfoldable pub get_device_by_address :
    {App : Type 0} → Controller App → ℕ → Outcome Entry × Controller App
get_device_by_address c address = if c.gc_lock then (blocks, c) else elim (get c.devices address) [
  | some entry ↦ (returns entry, record c { gc_lock = false })
  | none ↦ (raises runtime_error, record c { gc_lock = false })
]

-- The loop goes over the keys, which are numbers and have no `property`.
unfoldable pub get_device_with_property_value :
    {App : Type 0} → Controller App → Outcome Entry × Controller App
get_device_with_property_value c = if c.gc_lock then (blocks, c) else elim c.devices [
  | [] ↦ (raises key_error, record c { gc_lock = false })
  | _ ∷ _ ↦ (raises attribute_error, record c { gc_lock = true })
]

unfoldable pub is_silent : ℕ → ℕ → Entry → Bool
is_silent now max_silent (proxy d) = ltb max_silent (now - d.lastmsg_ts)
is_silent now max_silent (local app) = false

-- The call by the timer, which it sets up again.
unfoldable pub device_gc : {App : Type 0} → ℕ → Controller App → Outcome (Unit {0}) × Controller App
unfolding is_silent
device_gc now c =
    if c.stop_flag
    then (returns tt, record c { gc_timer = false })
    else if c.gc_lock
    then (blocks, record c { gc_timer = false })
    else (
      returns tt,
      record c {
        devices = remove_keys c.devices (keys_where (is_silent now c.max_silent) c.devices);
        gc_lock = false;
        gc_timer = true;
      },
    )

module _ {App : Type 0} where
  -- One round of the thread with a message: whether the thread goes on, and what it leaves. An
  -- exception is only logged.
  abbrev pub goes_on : Outcome (Unit {0}) × Controller App → Bool × Controller App
  goes_on (returns _, c) = (true, c)
  goes_on (raises e, c) = (true, c)
  goes_on (blocks, c) = (false, c)

  -- `nrun` until it is stopped or the messages are used up: whether the thread goes on, or ends, or hangs.
  unfoldable pub nrun : Environment App → ℕ → Controller App → List N2kMsg → Bool × Controller App
  nrun env now c [] = (true, c)
  nrun env now c (m ∷ rest) =
      let one = goes_on (process_msg env now c m) in
      let others = nrun env now one.1 rest in
      if c.stop_flag then (true, c) else if one.0 then others else (false, one.1)
