-- ===== src/Devices/Thread.antt =====
-- The thread of the controller, when nothing that it calls raises.
use navigation_server.Base.{
  Bool, ap, ap₂, if◌then◌else◌, ℕ, ◌<◌, ◌≡◌, refl, ◌∙◌, true, false, List, [], ◌∷◌, get, arith,
  Bool-cases, Option-cases, inl, inr, Result, ok, err, leb,
}
use navigation_server.Message.{N2kMsg}
use navigation_server.Devices.{
  Environment, Device, Entry, proxy, local, Controller, Outcome, returns, raises, blocks,
  check_device, receive_entry, receive_msg, notified, process_msg, stored, stored_app,
  add_pgn_count, after_count, swallow, process_vector, p60928, p126993, p126996, p126998,
  call_subscribers,
}
use navigation_server.Devices.Access.{goes_on, nrun}
use navigation_server.Devices.Lock.{flags, handled-held, handled, process_msg-eq, released-ok}

-- Every message can be decoded, and no application and no subscriber raises.
abbrev pub IsQuiet : {App : Type 0} → Environment App → Type 0
IsQuiet {App} env =
    ((m : N2kMsg) → (name : ℕ) × (env.decoder.claim_name m ≡ ok name))
    × ((m : N2kMsg) → env.decoder.decode_ok m ≡ ok tt)
    × ((a : App) (m : N2kMsg) → (env.receive_app a m).0 ≡ ok tt)
    × ((f : ℕ) (m : N2kMsg) → env.call f m ≡ ok tt)

-- The controller after some messages that are processed one after the other.
abbrev pub process_all :
    {App : Type 0} → Environment App → ℕ → Controller App → List N2kMsg → Controller App
process_all env now c [] = c
process_all env now c (m ∷ rest) = process_all env now (process_msg env now c m).1 rest

module _ {App : Type 0} (env : Environment App) (quiet : IsQuiet env) where
  p60928-ok : (d : Device) (m : N2kMsg) → (p60928 env.decoder d m).0 ≡ ok tt
  unfolding p60928
  p60928-ok d m = let decoded = (quiet.0 m).1 in ground (arith, decoded)

  p126996-ok : (d : Device) (m : N2kMsg) → (p126996 env.decoder d m).0 ≡ ok tt
  unfolding p126996
  p126996-ok d m = elim (Option-cases d.product_information) [
    | inl e ↦ rw (e, p126996) (rw (quiet.1 m) refl)
    | inr (held, e) ↦ rw (e, p126996) refl
  ]

  process_vector-ok : (d : Device) (m : N2kMsg) → (process_vector env.decoder d m).0 ≡ ok tt
  unfolding process_vector p126993 p126998
  process_vector-ok d m = ground (arith, p60928-ok d m, p126996-ok d m, quiet.1 m)

  swallow-ok : (p : Result (Unit {0}) × Device) → p.0 ≡ ok tt → (swallow p).0 ≡ ok tt
  swallow-ok (ok _, d) h = refl
  swallow-ok (err e, d) h = ground arith

  after_count-ok :
      (m : N2kMsg) (p : Result (Unit {0}) × Device) → (after_count env.decoder m p).0 ≡ ok tt
  after_count-ok m (err e, d) = refl
  after_count-ok m (ok _, d) = swallow-ok (process_vector env.decoder d m) (process_vector-ok d m)

  receive_msg-ok : (now : ℕ) (d : Device) (m : N2kMsg) → (receive_msg env.decoder now d m).0 ≡ ok tt
  unfolding receive_msg
  receive_msg-ok now d m =
      after_count-ok m (add_pgn_count env.decoder (record d { lastmsg_ts = now }) m.pgn)

  stored-ok :
      (address : ℕ) (c : Controller App) (p : Result (Unit {0}) × Device)
      → p.0 ≡ ok tt
      → (stored address c p).0 ≡ ok tt
  stored-ok address c (r, d) h = h

  stored_app-ok :
      (app : ℕ) (c : Controller App) (p : Result (Unit {0}) × App)
      → p.0 ≡ ok tt
      → (stored_app app c p).0 ≡ ok tt
  stored_app-ok app c (r, a) h = h

  receive_entry-ok :
      (now : ℕ) (c : Controller App) (entry : Entry) (m : N2kMsg)
      → (receive_entry env now c entry m).0 ≡ ok tt
  unfolding receive_entry
  receive_entry-ok now c (proxy d) m =
      stored-ok m.sa c (receive_msg env.decoder now d m) (receive_msg-ok now d m)
  receive_entry-ok now c (local app) m = elim (Option-cases (get c.apps app)) [
    | inl e ↦ rw (e, receive_entry) refl
    | inr (a, e) ↦ rw (e, receive_entry) (stored_app-ok app c (env.receive_app a m) (quiet.2 a m))
  ]

  notified-ok :
      (m : N2kMsg) (p : Result (Unit {0}) × Controller App)
      → p.0 ≡ ok tt
      → (notified env m p).0 ≡ ok tt
  unfolding call_subscribers
  notified-ok m (err e, c) h = h
  notified-ok m (ok _, c) h = elim (Option-cases (get c.subscriber m.pgn)) [
    | inl e ↦ rw (e, call_subscribers) refl
    | inr (f, e) ↦ rw (e, call_subscribers) (quiet.3 f m)
  ]

  pub handled-ok : (now : ℕ) (c : Controller App) (m : N2kMsg) → (handled env now c m).0 ≡ ok tt
  handled-ok now c m =
      let found = check_device (record c { gc_lock = true }) m.sa in
      notified-ok m (receive_entry env now found.1 found.0 m)
        (receive_entry-ok now found.1 found.0 m)

  pub process_msg-returns :
      (now : ℕ) (c : Controller App) (m : N2kMsg)
      → m.sa < 254
      → c.gc_lock ≡ false
      → process_msg env now c m ≡ (returns tt, record (handled env now c m).1 { gc_lock = false })
  process_msg-returns now c m small free =
      process_msg-eq env now c m small free
      ∙ released-ok env (handled env now c m) (handled-ok now c m)

  process_msg-free :
      (now : ℕ) (c : Controller App) (m : N2kMsg)
      → c.gc_lock ≡ false
      → ((process_msg env now c m).0 ≡ returns tt)
        × (flags env (process_msg env now c m).1 ≡ (false, c.stop_flag))
  unfolding process_msg
  process_msg-free now c m free = elim (Bool-cases (leb 254 m.sa)) [
    | inl beyond ↦ rw beyond (refl, ap (λ (b : Bool). (b, c.stop_flag)) free)
    | inr below ↦
        let small : m.sa < 254 = ground arith in
        rw (process_msg-returns now c m small free)
          (refl, ap (λ (p : Bool × Bool). (false, p.1)) (handled-held env now c m))
  ]

  goes_on-returns :
      (p : Outcome (Unit {0}) × Controller App) → p.0 ≡ returns tt → goes_on p ≡ (true, p.1)
  goes_on-returns (returns _, c) h = refl
  goes_on-returns (raises e, c) h = ground arith
  goes_on-returns (blocks, c) h = ground arith

  -- If every message can be decoded and no application and no subscriber raises, the thread of a controller
  -- that is not stopped processes all messages of a queue, one after the other, and at the end the lock
  -- of the table is free.
  pub nrun_goes_on :
      (now : ℕ) (c : Controller App) (messages : List N2kMsg)
      → c.gc_lock ≡ false
      → c.stop_flag ≡ false
      → (nrun env now c messages ≡ (true, process_all env now c messages))
        × ((process_all env now c messages).gc_lock ≡ false)
  unfolding nrun
  nrun_goes_on now c [] free going = (refl, free)
  nrun_goes_on now c (m ∷ rest) free going =
      let one = process_msg-free now c m free in
      let later =
        nrun_goes_on now (process_msg env now c m).1 rest (ap (λ p. p.0) one.1)
          (ap (λ p. p.1) one.1 ∙ going) in
      (
        ap₂
              (λ (stopped : Bool) (p : Bool × Controller App).
                if stopped then (true, c) else if p.0 then nrun env now p.1 rest else (false, p.1))
              going (goes_on-returns (process_msg env now c m) one.0)
            ∙ later.0,
        later.1,
      )
