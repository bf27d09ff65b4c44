-- ===== src/Devices/Refinement.antt =====
-- The controller refines the abstract table, over every sequence of messages and collections.
use navigation_server.Base.{
  ℕ, ◌≡◌, refl, ◌∙◌, Bool, true, false, Option, none, some, List, [], ◌∷◌, get, put, arith,
  Bool-cases, Option-cases, inl, inr, Result, ok, err, ltb, ltb→lt, ap, sym, subst,
}
use navigation_server.Base.Purge.{
  IsDistinct, IsDistinct-put, IsDistinct-remove_keys, keys_where, unless, get-remove_where,
}
use navigation_server.Message.{N2kMsg}
use navigation_server.Devices.{
  Environment, Device, new_device, Entry, proxy, local, Controller, Outcome, check_device,
  receive_entry, receive_msg, notified, stored, stored_app,
}
use navigation_server.Devices.Access.{device_gc, is_silent}
use navigation_server.Devices.Lock.{handled, process_msg-beyond}
use navigation_server.Devices.Thread.{IsQuiet, process_msg-returns}
use navigation_server.Devices.View.{
  Presence, presence, forget, Event, message, collection, spec_event, spec, event, run,
  seen-handled, after_message, handled-devices,
}

abbrev pub Settings : Type 0
Settings = Bool × ℕ

abbrev settings : {App : Type 0} → Controller App → Settings
settings c = (c.stop_flag, c.max_silent)

module _ {App : Type 0} (env : Environment App) where
  settings-notified :
      (m : N2kMsg) (p : Result (Unit {0}) × Controller App)
      → settings (notified env m p).1 ≡ settings p.1
  settings-notified m (ok _, c) = refl
  settings-notified m (err e, c) = refl

  settings-stored :
      (a : ℕ) (c : Controller App) (p : Result (Unit {0}) × Device)
      → settings (stored a c p).1 ≡ settings c
  settings-stored a c (r, d) = refl

  settings-stored_app :
      (a : ℕ) (c : Controller App) (p : Result (Unit {0}) × App)
      → settings (stored_app a c p).1 ≡ settings c
  settings-stored_app a c (r, d) = refl

  settings-receive_entry :
      (now : ℕ) (c : Controller App) (entry : Entry) (m : N2kMsg)
      → settings (receive_entry env now c entry m).1 ≡ settings c
  unfolding receive_entry
  settings-receive_entry now c (proxy d) m =
      settings-stored m.sa c (receive_msg env.decoder now d m)
  settings-receive_entry now c (local app) m = elim (Option-cases (get c.apps app)) [
    | inl e ↦ rw (e, receive_entry) refl
    | inr (a, e) ↦ rw (e, receive_entry) (settings-stored_app app c (env.receive_app a m))
  ]

  settings-check_device : (c : Controller App) (a : ℕ) → settings (check_device c a).1 ≡ settings c
  unfolding check_device
  settings-check_device c a = elim (Option-cases (get c.devices a)) [
    | inl e ↦ rw (e, check_device) refl
    | inr (entry, e) ↦ rw (e, check_device) refl
  ]

  settings-handled :
      (now : ℕ) (c : Controller App) (m : N2kMsg) → settings (handled env now c m).1 ≡ settings c
  settings-handled now c m =
      let found = check_device (record c { gc_lock = true }) m.sa in
      settings-notified m (receive_entry env now found.1 found.0 m)
      ∙ settings-receive_entry now found.1 found.0 m
      ∙ settings-check_device (record c { gc_lock = true }) m.sa

  after_message-IsDistinct :
      (now : ℕ) (c : Controller App) (m : N2kMsg) (held : Option Entry)
      → IsDistinct c.devices
      → IsDistinct (after_message env now c m held)
  after_message-IsDistinct now c m none t =
      IsDistinct-put (put c.devices m.sa (proxy (new_device m.sa))) m.sa
        (proxy (receive_msg env.decoder now (new_device m.sa) m).1)
        (IsDistinct-put c.devices m.sa (proxy (new_device m.sa)) t)
  after_message-IsDistinct now c m (some (proxy d)) t =
      IsDistinct-put c.devices m.sa (proxy (receive_msg env.decoder now d m).1) t
  after_message-IsDistinct now c m (some (local app)) t = t

  -- The thread and its timer go on, and no address is twice in the table.
  abbrev pub IsRunning : Controller App → Type 0
  IsRunning c = (c.gc_lock ≡ false) × (c.stop_flag ≡ false) × IsDistinct c.devices

  -- One event: the controller goes on with the same limit, and its table follows.
  abbrev FollowsTo : Event → Controller App → Controller App → Type 0
  FollowsTo e c after =
      IsRunning after
      × (after.max_silent ≡ c.max_silent)
      × ((k : ℕ)
          → presence (get after.devices k)
            ≡ spec_event c.max_silent e (λ j. presence (get c.devices j)) k)

  abbrev Follows : Event → Controller App → Type 0
  Follows e c = FollowsTo e c (event env e c)

  forgotten :
      (now limit : ℕ) (o : Option Entry)
      → presence (unless (is_silent now limit) o) ≡ forget now limit (presence o)
  unfolding is_silent
  forgotten now limit none = refl
  forgotten now limit (some (local app)) = refl
  forgotten now limit (some (proxy d)) = ground arith

  collection-Follows : (now : ℕ) (c : Controller App) → IsRunning c → Follows (collection now) c
  unfolding device_gc
  collection-Follows now c (free, going, distinct) =
      rw (free, going, device_gc)
        (
          (
            refl,
            refl,
            IsDistinct-remove_keys c.devices (keys_where (is_silent now c.max_silent) c.devices)
                distinct,
          ),
          refl,
          λ k.
              rw (get-remove_where (is_silent now c.max_silent) c.devices k distinct)
                (forgotten now c.max_silent (get c.devices k)),
        )

  message-Follows :
      (now : ℕ) (m : N2kMsg) (c : Controller App)
      → IsQuiet env
      → IsRunning c
      → Follows (message now m) c
  message-Follows now m c quiet (free, going, distinct) = elim (Bool-cases (ltb m.sa 254)) [
    | inl small ↦
        let kept = settings-handled now c m in
        subst (λ (p : Outcome (Unit {0}) × Controller App). FollowsTo (message now m) c p.1)
          (sym (process_msg-returns env quiet now c m (ltb→lt m.sa 254 small) free))
          (rw small (
            (
              refl,
              ap (λ (s : Settings). s.0) kept ∙ going,
              rw (handled-devices env now c m)
                  (after_message-IsDistinct now c m (get c.devices m.sa) distinct),
            ),
            ap (λ (s : Settings). s.1) kept,
            λ k. seen-handled env now c m k,
          ))
    | inr beyond ↦
        subst (λ (p : Outcome (Unit {0}) × Controller App). FollowsTo (message now m) c p.1)
          (sym (process_msg-beyond env now c m (ground arith)))
          (rw beyond ((free, going, distinct), refl, λ k. refl))
  ]

  event-Follows : (e : Event) (c : Controller App) → IsQuiet env → IsRunning c → Follows e c
  event-Follows (message now m) c quiet h = message-Follows now m c quiet h
  event-Follows (collection now) c quiet h = collection-Follows now c h

  spec-same :
      (limit : ℕ) (es : List Event) (seen seen' : ℕ → Presence)
      → ((k : ℕ) → seen k ≡ seen' k)
      → (k : ℕ) → spec limit es seen k ≡ spec limit es seen' k
  spec-same limit [] seen seen' e k = e k
  spec-same limit (message now m ∷ es) seen seen' e k =
      spec-same limit es (spec_event limit (message now m) seen)
        (spec_event limit (message now m) seen') (λ j. rw (e j) refl) k
  spec-same limit (collection now ∷ es) seen seen' e k =
      spec-same limit es (spec_event limit (collection now) seen)
        (spec_event limit (collection now) seen') (λ j. rw (e j) refl) k

  -- If every message can be decoded and no application and no subscriber raises, the table of a
  -- controller that runs, with its lock free and no address twice, does after every sequence of messages
  -- and collections what the abstract table does: an address of a device is known with the time of
  -- its last message until a collection finds that time more than `max_silent` ago, an own application
  -- stays, and messages from 254 and 255 leave no trace.
  pub run-refines :
      (events : List Event) (c : Controller App)
      → IsQuiet env
      → IsRunning c
      → (k : ℕ)
      → presence (get (run env events c).devices k)
        ≡ spec c.max_silent events (λ j. presence (get c.devices j)) k
  run-refines [] c quiet h k = refl
  run-refines (e ∷ es) c quiet h k =
      let (next, limit, seen) = event-Follows e c quiet h in
      run-refines es (event env e c) quiet next k
      ∙ rw limit (
          spec-same c.max_silent es (λ j. presence (get (event env e c).devices j))
            (spec_event c.max_silent e (λ j. presence (get c.devices j))) seen k)
