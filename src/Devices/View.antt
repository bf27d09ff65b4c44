-- ===== src/Devices/View.antt =====
-- What the table of the devices promises, and that it keeps the promise: for each address the
-- time at which its device was heard last, until it is silent for too long.
use navigation_server.Base.{
  ℕ, ◌-◌, ◌≡◌, refl, ◌∙◌, true, Option, none, some, List, [], ◌∷◌, ◌==◌, get, put, arith,
  Option-cases, inl, inr, Result, ok, err, ltb, if◌then◌else◌, Dict, get-put,
}
use navigation_server.Message.{N2kMsg}
use navigation_server.Devices.{
  Decoder, Environment, Device, new_device, Entry, proxy, local, Controller, check_device,
  receive_entry, receive_msg, notified, process_msg, stored, stored_app, add_pgn_count, after_count,
  swallow, process_vector, p60928, p126993, p126996, p126998,
}
use navigation_server.Devices.Access.{device_gc}
use navigation_server.Devices.Lock.{handled}

-- What is known of an address: nothing, a device that was heard at a time, or an own application.
pub data Presence : Type 0 where
  absent own : Presence
  heard : ℕ → Presence

abbrev pub presence : Option Entry → Presence
presence none = absent
presence (some (proxy d)) = heard d.lastmsg_ts
presence (some (local app)) = own

-- The abstract operations: a message is heard, and the silent are forgotten.
abbrev pub hear : ℕ → Presence → Presence
hear now absent = heard now
hear now own = own
hear now (heard t) = heard now

abbrev pub forget : ℕ → ℕ → Presence → Presence
forget now limit absent = absent
forget now limit own = own
forget now limit (heard t) = if ltb limit (now - t) then absent else heard t

pub data Event : Type 0 where
  message : ℕ → N2kMsg → Event
  collection : ℕ → Event

abbrev pub spec_event : ℕ → Event → (ℕ → Presence) → ℕ → Presence
spec_event limit (message now m) seen k =
    if ltb m.sa 254 then (if m.sa == k then hear now (seen k) else seen k) else seen k
spec_event limit (collection now) seen k = forget now limit (seen k)

abbrev pub spec : ℕ → List Event → (ℕ → Presence) → ℕ → Presence
spec limit [] seen = seen
spec limit (e ∷ es) seen = spec limit es (spec_event limit e seen)

-- The same events on the controller.
abbrev pub event : {App : Type 0} → Environment App → Event → Controller App → Controller App
event env (message now m) c = (process_msg env now c m).1
event env (collection now) c = (device_gc now c).1

abbrev pub run : {App : Type 0} → Environment App → List Event → Controller App → Controller App
run env [] c = c
run env (e ∷ es) c = run env es (event env e c)

module _ (decoder : Decoder) where
  p60928-ts : (d : Device) (m : N2kMsg) → (p60928 decoder d m).1.lastmsg_ts ≡ d.lastmsg_ts
  unfolding p60928
  p60928-ts d m = ground arith

  p126996-ts : (d : Device) (m : N2kMsg) → (p126996 decoder d m).1.lastmsg_ts ≡ d.lastmsg_ts
  unfolding p126996
  p126996-ts d m = ground arith

  process_vector-ts :
      (d : Device) (m : N2kMsg) → (process_vector decoder d m).1.lastmsg_ts ≡ d.lastmsg_ts
  unfolding process_vector p126993 p126998
  process_vector-ts d m = ground (arith, p60928-ts d m, p126996-ts d m)

  add_pgn_count-ts :
      (d : Device) (pgn : ℕ) → (add_pgn_count decoder d pgn).1.lastmsg_ts ≡ d.lastmsg_ts
  unfolding add_pgn_count
  add_pgn_count-ts d pgn = ground arith

  swallow-ts : (p : Result (Unit {0}) × Device) → (swallow p).1.lastmsg_ts ≡ p.1.lastmsg_ts
  swallow-ts (ok _, d) = refl
  swallow-ts (err e, d) = refl

  after_count-ts :
      (m : N2kMsg) (p : Result (Unit {0}) × Device)
      → (after_count decoder m p).1.lastmsg_ts ≡ p.1.lastmsg_ts
  after_count-ts m (err e, d) = refl
  after_count-ts m (ok _, d) = swallow-ts (process_vector decoder d m) ∙ process_vector-ts d m

  receive_msg-ts :
      (now : ℕ) (d : Device) (m : N2kMsg) → (receive_msg decoder now d m).1.lastmsg_ts ≡ now
  unfolding receive_msg
  receive_msg-ts now d m =
      after_count-ts m (add_pgn_count decoder (record d { lastmsg_ts = now }) m.pgn)
      ∙ add_pgn_count-ts (record d { lastmsg_ts = now }) m.pgn

module _ {App : Type 0} (env : Environment App) where
  notified-devices :
      (m : N2kMsg) (p : Result (Unit {0}) × Controller App)
      → (notified env m p).1.devices ≡ p.1.devices
  notified-devices m (ok _, c) = refl
  notified-devices m (err e, c) = refl

  stored-devices :
      (address : ℕ) (c : Controller App) (p : Result (Unit {0}) × Device)
      → (stored address c p).1.devices ≡ put c.devices address (proxy p.1)
  stored-devices address c (r, d) = refl

  stored_app-devices :
      (app : ℕ) (c : Controller App) (p : Result (Unit {0}) × App)
      → (stored_app app c p).1.devices ≡ c.devices
  stored_app-devices app c (r, a) = refl

  local-devices :
      (now : ℕ) (c : Controller App) (app : ℕ) (m : N2kMsg)
      → (receive_entry env now c (local app) m).1.devices ≡ c.devices
  unfolding receive_entry
  local-devices now c app m = elim (Option-cases (get c.apps app)) [
    | inl e ↦ rw (e, receive_entry) refl
    | inr (a, e) ↦ rw (e, receive_entry) (stored_app-devices app c (env.receive_app a m))
  ]

  proxy-devices :
      (now : ℕ) (c : Controller App) (d : Device) (m : N2kMsg)
      → (receive_entry env now c (proxy d) m).1.devices
        ≡ put c.devices m.sa (proxy (receive_msg env.decoder now d m).1)
  unfolding receive_entry
  proxy-devices now c d m = stored-devices m.sa c (receive_msg env.decoder now d m)

  -- The table after a message, by what it held for the source.
  abbrev pub after_message : ℕ → Controller App → N2kMsg → Option Entry → Dict Entry
  after_message now c m none =
      put (put c.devices m.sa (proxy (new_device m.sa))) m.sa
        (proxy (receive_msg env.decoder now (new_device m.sa) m).1)
  after_message now c m (some (proxy d)) =
      put c.devices m.sa (proxy (receive_msg env.decoder now d m).1)
  after_message now c m (some (local app)) = c.devices

  pub handled-devices :
      (now : ℕ) (c : Controller App) (m : N2kMsg)
      → (handled env now c m).1.devices ≡ after_message now c m (get c.devices m.sa)
  unfolding check_device
  handled-devices now c m =
      let found = check_device (record c { gc_lock = true }) m.sa in
      notified-devices m (receive_entry env now found.1 found.0 m)
      ∙ (elim (Option-cases (get c.devices m.sa)) [
        | inl e ↦
            rw (e, check_device)
              (proxy-devices now
                (record c {
                  gc_lock = true;
                  devices = put c.devices m.sa (proxy (new_device m.sa));
                })
                (new_device m.sa) m)
        | inr (proxy d, e) ↦
            rw (e, check_device) (proxy-devices now (record c { gc_lock = true }) d m)
        | inr (local app, e) ↦
            rw (e, check_device) (local-devices now (record c { gc_lock = true }) app m)
      ])

  seen-put :
      (d : Dict Entry) (a k : ℕ) (entry : Entry)
      → presence (get (put d a entry) k)
        ≡ (if a == k then presence (some entry) else presence (get d k))
  seen-put d a k entry = rw (get-put d a k entry) (ground arith)

  at_source : (d : Dict Entry) (a k : ℕ) → (a == k) ≡ true → get d k ≡ get d a
  at_source d a k same = let e : k ≡ a = ground arith in rw e refl

  -- After a message its source was heard now, unless it is an own application; nothing else changed.
  pub seen-handled :
      (now : ℕ) (c : Controller App) (m : N2kMsg) (k : ℕ)
      → presence (get (handled env now c m).1.devices k)
        ≡ (if m.sa == k then hear now (presence (get c.devices k)) else presence (get c.devices k))
  seen-handled now c m k = rw (handled-devices now c m) (elim (Option-cases (get c.devices m.sa)) [
    | inl e ↦ rw e (
        let fresh = proxy (new_device m.sa) in
        let result = (receive_msg env.decoder now (new_device m.sa) m).1 in
        ground (
          arith,
          seen-put (put c.devices m.sa fresh) m.sa k (proxy result),
          seen-put c.devices m.sa k fresh,
          receive_msg-ts env.decoder now (new_device m.sa) m,
          at_source c.devices m.sa k,
          e,
        ))
    | inr (proxy d, e) ↦ rw e (
        let result = (receive_msg env.decoder now d m).1 in
        ground (
          arith,
          seen-put c.devices m.sa k (proxy result),
          receive_msg-ts env.decoder now d m,
          at_source c.devices m.sa k,
          e,
        ))
    | inr (local app, e) ↦ rw e (ground (arith, at_source c.devices m.sa k, e))
  ])
