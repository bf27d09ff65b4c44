-- ===== src/CouplerThread/Connection.antt =====
-- The rounds of a `BufferedIPCoupler`.
use navigation_server.Base.{
  ℕ, ◌+◌, ◌<◌, ◌≡◌, refl, ap, ap₂, ◌∙◌, Bool, true, false, List, [], ◌∷◌, ◌++◌, append-nil,
  leb-false, runtime_error,
}
use navigation_server.CouplerThread.{
  null, n0183, Msg, Coupler, buffered_ip, tcp, udp, not_ready, opened, connected, active,
  OpenResult, is_open, not_open, raised, open_device, close, is_connected, open_state, start_at,
  start_reader,
}
use navigation_server.CouplerThread.Reading.{Inbound, message, Converter, read_from, read_msg}
use navigation_server.CouplerThread.Publishing.{publish_on}
use navigation_server.CouplerThread.Loop.{
  Session, RoundEnd, go_on, dies, round, handle_read, handle_all, handle_type, after_open,
  with_coupler,
}
use navigation_server.CouplerThread.Attempts.{round_closed}
use navigation_server.CouplerThread.Routing.{IsReading, round_reading, published-IsReading}

-- A TCP connection that is read.
pub record IsUp (c : Coupler) : Type 0 where
  pub reading : IsReading c
  pub buffered : c.class_of ≡ buffered_ip
  pub over_tcp : c.transport ≡ tcp
  pub started : c.reader_started ≡ true
  pub raw : c.nmea183_convert ≡ false

pub published-IsUp :
    (c : Coupler) (m : Msg) (n : ℕ)
    → IsUp c
    → IsUp (publish_on (record c { total_msg = n; state = active }) m)
unfolding publish_on
published-IsUp c m n h = record {
  reading = published-IsReading c m n h.reading;
  buffered = h.buffered;
  over_tcp = h.over_tcp;
  started = h.started;
  raw = h.raw;
}

pub published-max_attempt :
    (c : Coupler) (m : Msg) (n : ℕ)
    → (publish_on (record c { total_msg = n; state = active }) m).max_attempt ≡ c.max_attempt
unfolding publish_on
published-max_attempt c m n = refl

open_first :
    (c : Coupler)
    → c.transport ≡ tcp
    → c.reader_started ≡ false
    → open_device buffered_ip c is_open
      ≡ (not_open, record c { state = connected; reader_started = true })
unfolding open_device start_reader
open_first c over_tcp new =
    ap₂
      (λ t (b : Bool). start_at (is_connected (open_state t)) b (record c { state = open_state t }))
      over_tcp new

open_again :
    (c : Coupler)
    → c.transport ≡ tcp
    → c.reader_started ≡ true
    → (open_device buffered_ip c is_open).0 ≡ raised runtime_error
unfolding open_device start_reader
open_again c over_tcp started =
    ap₂
      (λ t (b : Bool).
        (start_at (is_connected (open_state t)) b (record c { state = open_state t })).0)
      over_tcp started

pub open_udp :
    (c : Coupler)
    → c.transport ≡ udp
    → open_device buffered_ip c is_open ≡ (not_open, record c { state = opened })
unfolding open_device start_reader
open_udp c over_udp =
    ap
      (λ t.
        start_at (is_connected (open_state t)) c.reader_started (record c { state = open_state t }))
      over_udp

module _ (convert : Converter) where
  -- One round with a message that is read as it is.
  pub round_raw :
      (answer : OpenResult) (s : Session) (m : Msg) (ins : List Inbound)
      → IsUp s.coupler
      → m.type ≡ n0183
      → s.inbound ≡ message m ∷ ins
      → round convert answer s
        ≡ (go_on, record s { coupler = handle_type n0183 s.coupler m; inbound = ins })
  unfolding handle_all read_from
  round_raw answer s m ins up type comes =
      round_reading convert answer s up.reading
      ∙ ap (λ (l : List Inbound). handle_read (read_from convert s.coupler l) s) comes
      ∙ ap₂
          (λ t (b : Bool).
            handle_read
              (read_msg convert (record s.coupler { nmea183_convert = b }) t m ins
                (read_from convert s.coupler ins))
              s)
          type up.raw
      ∙ ap₂
          (λ t (l : List Msg). (
            go_on,
            record s { coupler = handle_type t s.coupler m; inbound = ins; controlled = l },
          ))
          type (append-nil s.controlled)

  pub round_end :
      (answer : OpenResult) (s : Session) (m : Msg) (ins : List Inbound)
      → IsUp s.coupler
      → m.type ≡ null
      → s.inbound ≡ message m ∷ ins
      → round convert answer s
        ≡ (go_on, record s { coupler = record s.coupler { state = not_ready }; inbound = ins })
  unfolding handle_all read_from close
  round_end answer s m ins up type comes =
      round_reading convert answer s up.reading
      ∙ ap (λ (l : List Inbound). handle_read (read_from convert s.coupler l) s) comes
      ∙ ap
          (λ t.
            handle_read (read_msg convert s.coupler t m ins (read_from convert s.coupler ins)) s)
          type
      ∙ ap
          (λ t. (
            go_on,
            record s {
              coupler = handle_type t s.coupler m;
              inbound = ins;
              controlled = s.controlled ++ [];
            },
          ))
          type
      ∙ ap₂
          (λ k (l : List Msg).
            (go_on, record s { coupler = close k s.coupler; inbound = ins; controlled = l }))
          up.buffered (append-nil s.controlled)

  pub round_dies :
      (s : Session)
      → s.coupler.stopflag ≡ false
      → s.coupler.state ≡ not_ready
      → s.nb_attempts < s.coupler.max_attempt
      → s.coupler.class_of ≡ buffered_ip
      → s.coupler.transport ≡ tcp
      → s.coupler.reader_started ≡ true
      → (round convert is_open s).0 ≡ dies runtime_error
  round_dies s running closed more buffered over_tcp started =
      ap (λ (o : RoundEnd × Session). o.0)
        (round_closed convert is_open s false running closed
          (leb-false s.coupler.max_attempt s.nb_attempts more))
      ∙ ap
          (λ k.
            (after_open convert (open_device k s.coupler is_open).0
              (with_coupler s (open_device k s.coupler is_open).1)).0)
          buffered
      ∙ ap
          (λ r.
            (after_open convert r (with_coupler s (open_device buffered_ip s.coupler is_open).1)).0)
          (open_again s.coupler over_tcp started)

  pub round_first :
      (s : Session)
      → s.coupler.stopflag ≡ false
      → s.coupler.state ≡ not_ready
      → s.nb_attempts < s.coupler.max_attempt
      → s.coupler.class_of ≡ buffered_ip
      → s.coupler.transport ≡ tcp
      → s.coupler.reader_started ≡ false
      → round convert is_open s ≡ (
        go_on,
        record s {
          coupler = record s.coupler { state = connected; reader_started = true };
          nb_attempts = s.nb_attempts + 1;
        },
      )
  round_first s running closed more buffered over_tcp new =
      round_closed convert is_open s false running closed
        (leb-false s.coupler.max_attempt s.nb_attempts more)
      ∙ ap
          (λ k.
            after_open convert (open_device k s.coupler is_open).0
              (with_coupler s (open_device k s.coupler is_open).1))
          buffered
      ∙ ap (λ (o : OpenResult × Coupler). after_open convert o.0 (with_coupler s o.1))
          (open_first s.coupler over_tcp new)
