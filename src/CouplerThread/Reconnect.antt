-- ===== src/CouplerThread/Reconnect.antt =====
-- What becomes of a `BufferedIPCoupler` whose connection ends, and of one over UDP.
use navigation_server.Base.{
  ◌+◌, ◌<◌, ◌≡◌, ap, ap₂, ◌∙◌, true, false, ◌||◌, List, [], ◌∷◌, leb-false, if◌then◌else◌, arith,
}
use navigation_server.CouplerThread.{
  n0183, Msg, Coupler, buffered_ip, udp, not_ready, opened, OpenResult, is_open, is_write_only,
  open_device,
}
use navigation_server.CouplerThread.Reading.{
  Inbound, message, Converter, read, read_from, is_fed, stopped_by, waiting,
}
use navigation_server.CouplerThread.Loop.{
  Session, RoundEnd, go_on, leave, waits, dies, round, round_at, Tick, work, nrun, read_unless,
  read_section, handle_read, continue_with, after_open, with_coupler,
}
use navigation_server.CouplerThread.Connection.{open_udp}
use navigation_server.CouplerThread.Attempts.{nrun_step, round_closed}

abbrev pub AllRaw : List Msg → Type 0
AllRaw [] = Unit
AllRaw (m ∷ ms) = (m.type ≡ n0183) × AllRaw ms

-- The messages of a connection, up to the one that says that it has ended.
abbrev pub connection : List Msg → Msg → List Inbound
connection [] end_msg = message end_msg ∷ []
connection (m ∷ ms) end_msg = message m ∷ connection ms end_msg

waits_at :
    (next : Session → RoundEnd × Session) (o : RoundEnd × Session)
    → o.0 ≡ waits
    → (continue_with next o).0 ≡ waits
waits_at next (go_on, s) h = absurd (ground arith)
waits_at next (leave, s) h = h
waits_at next (waits, s) h = h
waits_at next (dies e, s) h = h

-- Over UDP the thread of its reader is never started: after an open that succeeds, the thread of the
-- coupler waits for ever, whatever would come.
pub nrun_udp_waits :
    (convert : Converter) (s : Session) (answer : OpenResult) (ts : List Tick)
    → s.coupler.stopflag ≡ false
    → s.coupler.state ≡ not_ready
    → s.coupler.class_of ≡ buffered_ip
    → s.coupler.transport ≡ udp
    → s.coupler.reader_started ≡ false
    → (is_write_only s.coupler.direction || s.coupler.suspend_flag) ≡ false
    → s.nb_attempts < s.coupler.max_attempt
    → (nrun convert (work is_open ∷ work answer ∷ ts) s).0 ≡ waits
unfolding nrun round read_section read
nrun_udp_waits convert s answer ts running closed buffered over_udp new reads more =
    let c = record s.coupler { state = opened } in
    let s' = record s { coupler = c; nb_attempts = s.nb_attempts + 1 } in
    ap (λ (o : RoundEnd × Session). o.0)
      (nrun_step convert (work is_open) (work answer ∷ ts) s s' (
        round_closed convert is_open s false running closed
          (leb-false s.coupler.max_attempt s.nb_attempts more)
        ∙ ap
            (λ k.
              after_open convert (open_device k s.coupler is_open).0
                (with_coupler s (open_device k s.coupler is_open).1))
            buffered
        ∙ ap (λ (o : OpenResult × Coupler). after_open convert o.0 (with_coupler s o.1))
            (open_udp s.coupler over_udp)))
    ∙ waits_at (nrun convert ts) (round convert answer s') (
        ap (λ a. (round_at a true convert answer s').0) running
        ∙ ap (λ a. (read_unless a convert s').0) reads
        ∙ ap₂
            (λ k b.
              (handle_read
                (if is_fed k b then read_from convert c s.inbound else stopped_by waiting s.inbound)
                s').0)
            buffered new)
