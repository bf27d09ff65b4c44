-- ===== src/Devices/Lock.antt =====
-- The lock of the table: who leaves it free, and who does not.
use navigation_server.Base.{
  Bool, ap, Bool-cases, if◌then◌else◌, ℕ, ◌≤◌, ◌<◌, ◌≡◌, refl, true, false, [], ◌∷◌, get, arith,
  Option-cases, inl, inr, Result, ok, err, Exception, leb-false, le→leb, ◌∙◌,
}
use navigation_server.Message.{N2kMsg}
use navigation_server.Devices.{
  Environment, Device, Entry, proxy, local, Controller, returns, raises, blocks, check_device,
  receive_entry, receive_msg, notified, released, process_msg, stored, stored_app,
}
use navigation_server.Devices.Access.{nrun, device_gc, get_device_by_address}

module _ {App : Type 0} (env : Environment App) where
  -- What the processing of a message under the lock gives, before the release.
  abbrev pub handled : ℕ → Controller App → N2kMsg → Result (Unit {0}) × Controller App
  handled now c m =
      let found = check_device (record c { gc_lock = true }) m.sa in
      notified env m (receive_entry env now found.1 found.0 m)

  pub process_msg-eq :
      (now : ℕ) (c : Controller App) (m : N2kMsg)
      → m.sa < 254
      → c.gc_lock ≡ false
      → process_msg env now c m ≡ released (handled now c m)
  unfolding process_msg
  process_msg-eq now c m small free = rw (leb-false 254 m.sa small, free) refl

  pub process_msg-beyond :
      (now : ℕ) (c : Controller App) (m : N2kMsg)
      → 254 ≤ m.sa
      → process_msg env now c m ≡ (returns tt, c)
  unfolding process_msg
  process_msg-beyond now c m large = rw (le→leb 254 m.sa large) refl

  -- The lock and the flag of `stop`, which the handling of a message leaves alone.
  abbrev pub flags : Controller App → Bool × Bool
  flags c = (c.gc_lock, c.stop_flag)

  stored-held :
      (address : ℕ) (c : Controller App) (p : Result (Unit {0}) × Device)
      → flags (stored address c p).1 ≡ flags c
  stored-held address c (r, d) = refl

  stored_app-held :
      (app : ℕ) (c : Controller App) (p : Result (Unit {0}) × App)
      → flags (stored_app app c p).1 ≡ flags c
  stored_app-held app c (r, a) = refl

  receive_entry-held :
      (now : ℕ) (c : Controller App) (entry : Entry) (m : N2kMsg)
      → flags (receive_entry env now c entry m).1 ≡ flags c
  unfolding receive_entry
  receive_entry-held now c (proxy d) m = stored-held m.sa c (receive_msg env.decoder now d m)
  receive_entry-held now c (local app) m = elim (Option-cases (get c.apps app)) [
    | inl e ↦ rw (e, receive_entry) refl
    | inr (a, e) ↦ rw (e, receive_entry) (stored_app-held app c (env.receive_app a m))
  ]

  notified-held :
      (m : N2kMsg) (p : Result (Unit {0}) × Controller App) → flags (notified env m p).1 ≡ flags p.1
  notified-held m (ok _, c) = refl
  notified-held m (err e, c) = refl

  check_device-held :
      (c : Controller App) (address : ℕ) → flags (check_device c address).1 ≡ flags c
  unfolding check_device
  check_device-held c address = elim (Option-cases (get c.devices address)) [
    | inl e ↦ rw (e, check_device) refl
    | inr (entry, e) ↦ rw (e, check_device) refl
  ]

  pub handled-held :
      (now : ℕ) (c : Controller App) (m : N2kMsg) → flags (handled now c m).1 ≡ (true, c.stop_flag)
  handled-held now c m =
      let found = check_device (record c { gc_lock = true }) m.sa in
      notified-held m (receive_entry env now found.1 found.0 m)
      ∙ receive_entry-held now found.1 found.0 m
      ∙ check_device-held (record c { gc_lock = true }) m.sa

  pub released-err :
      (p : Result (Unit {0}) × Controller App) (e : Exception)
      → p.0 ≡ err e
      → released p ≡ (raises e, p.1)
  released-err (ok _, c) e h = ground arith
  released-err (err x, c) e h = ground arith

  pub released-ok :
      (p : Result (Unit {0}) × Controller App)
      → p.0 ≡ ok tt
      → released p ≡ (returns tt, record p.1 { gc_lock = false })
  released-ok (ok _, c) h = refl
  released-ok (err x, c) h = ground arith

  locked_blocks :
      (now : ℕ) (c : Controller App) (m : N2kMsg)
      → m.sa < 254
      → c.gc_lock ≡ true
      → process_msg env now c m ≡ (blocks, c)
  unfolding process_msg
  locked_blocks now c m small held = rw (leb-false 254 m.sa small, held) refl

  -- If the handling of one message from a device raises, the lock is never released: the next message of
  -- a device hangs the thread, unless the controller is stopped, and so do the garbage collection, unless
  -- it is stopped, and every lookup by address.
  pub raise_blocks :
      (now later : ℕ) (c : Controller App) (m other : N2kMsg) (e : Exception) (address : ℕ)
      → m.sa < 254
      → other.sa < 254
      → c.gc_lock ≡ false
      → (handled now c m).0 ≡ err e
      → let after = (process_msg env now c m).1 in
        ((process_msg env now c m).0 ≡ raises e)
        × (process_msg env later after other ≡ (blocks, after))
        × ((nrun env later after (other ∷ [])).0 ≡ c.stop_flag)
        × ((get_device_by_address after address).0 ≡ blocks)
        × ((device_gc later after).0 ≡ (if c.stop_flag then returns tt else blocks))
  unfolding get_device_by_address device_gc nrun
  raise_blocks now later c m other e address small other_small free failed =
      let eq = process_msg-eq now c m small free ∙ released-err (handled now c m) e failed in
      let flagged = handled-held now c m in
      let held : (handled now c m).1.gc_lock ≡ true = ap (λ p. p.0) flagged in
      let stopped : (handled now c m).1.stop_flag ≡ c.stop_flag = ap (λ p. p.1) flagged in
      let hangs = locked_blocks later (handled now c m).1 other other_small held in
      rw eq (
        refl,
        hangs,
        rw (hangs, stopped)
            (elim (Bool-cases c.stop_flag) [ inl on ↦ rw on refl | inr off ↦ rw off refl ]),
        rw held refl,
        rw (stopped, held)
            (elim (Bool-cases c.stop_flag) [ inl on ↦ rw on refl | inr off ↦ rw off refl ]),
      )
