-- ===== src/CouplerThread/Sending.antt =====
-- `Coupler.send_msg_gen`: a message for the device of a coupler.
use navigation_server.Base.{
  ◌+◌, ◌≡◌, ap, ap₂, ◌∙◌, Bool, true, false, not, ◌||◌, if◌then◌else◌, Result, ok, err,
  coupler_write, Bool-cases, inl, inr,
}
use navigation_server.CouplerThread.{
  MsgType, null, transparent, n0183, n2k, n0183d, Msg, Coupler, Mode, nmea0183, nmea2000, nmea_mix,
  non_nmea, is_ready, is_read_only, writer_made,
}

-- Where the message goes: nowhere, to the NMEA 2000 writer, or to the device.
pub data Sent : Type 0 where
  nowhere : Sent
  to_writer : Msg → Sent
  to_device : Msg → Sent

abbrev pub carries_n2k : Mode → Bool
carries_n2k nmea2000 = true
carries_n2k nmea_mix = true
carries_n2k nmea0183 = false
carries_n2k non_nmea = false

abbrev pub carries_n0183 : Mode → Bool
carries_n0183 nmea0183 = true
carries_n0183 nmea_mix = true
carries_n0183 nmea2000 = false
carries_n0183 non_nmea = false

-- The type and the mode fit: `device` is what `self.send` returns.
abbrev pub send_typed : MsgType → (Msg → Bool) → Coupler → Msg → Result Bool × Sent
send_typed n2k device c m =
    if carries_n2k c.mode
    then (if c.n2k_writer then (ok true, to_writer m) else (ok false, nowhere))
    else (ok true, nowhere)
send_typed n0183 device c m =
    if carries_n0183 c.mode then (ok (device m), to_device m) else (ok true, nowhere)
send_typed null device c m = (ok true, nowhere)
send_typed transparent device c m = (ok true, nowhere)
send_typed n0183d device c m = (ok true, nowhere)

abbrev pub send_counted : (Msg → Bool) → Coupler → Msg → (Result Bool × Sent) × Coupler
send_counted device c m =
    (send_typed m.type device c m, record c { total_msg_s = c.total_msg_s + 1 })

-- `alive` says whether the thread of the coupler runs.
unfoldable pub send_msg_gen : Bool → (Msg → Bool) → Coupler → Msg → (Result Bool × Sent) × Coupler
send_msg_gen alive device c m =
    if not (is_ready c.state)
    then (if not alive || c.stopflag
        then ((err coupler_write, nowhere), c)
        else ((ok false, nowhere), c))
    else if c.configmode
    then ((ok true, nowhere), c)
    else if is_read_only c.direction
    then ((ok false, nowhere), c)
    else send_counted device c m

typed_mix :
    (device : Msg → Bool) (c : Coupler) (m : Msg)
    → c.mode ≡ nmea_mix
    → c.n2k_writer ≡ writer_made c.mode c.direction
    → m.type ≡ n2k
    → (send_typed m.type device c m).1 ≡ nowhere
typed_mix device c m mode writer type =
    ap (λ t. (send_typed t device c m).1) type
    ∙ ap₂ (λ k (b : Bool). (send_typed n2k device (record c { mode = k; n2k_writer = b }) m).1) mode
        (writer ∙ ap (λ k. writer_made k c.direction) mode)

-- A coupler in the mode of both protocols, with the writer that its constructor makes, sends no NMEA 2000
-- message, in whatever state it is.
pub send_msg_gen_mix :
    (alive : Bool) (device : Msg → Bool) (c : Coupler) (m : Msg)
    → c.mode ≡ nmea_mix
    → c.n2k_writer ≡ writer_made c.mode c.direction
    → m.type ≡ n2k
    → (send_msg_gen alive device c m).0.1 ≡ nowhere
unfolding send_msg_gen
send_msg_gen_mix alive device c m mode writer type =
    let typed = typed_mix device c m mode writer type in
    elim (Bool-cases (is_ready c.state)) [
      | inr closed ↦ elim (Bool-cases (not alive || c.stopflag)) [
        | inl down ↦ simp (closed, down)
        | inr up ↦ simp (closed, up)
      ]
      | inl ready ↦ elim (Bool-cases c.configmode) [
        | inl config ↦ simp (ready, config)
        | inr normal ↦ elim (Bool-cases (is_read_only c.direction)) [
          | inl only ↦ simp (ready, normal, only)
          | inr writes ↦ simp (ready, normal, writes) typed
        ]
      ]
    ]
