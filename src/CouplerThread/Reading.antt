-- ===== src/CouplerThread/Reading.antt =====
-- `Coupler.read`: what the thread gets from `_read`, and what goes to the NMEA 2000 controller.
use navigation_server.Base.{Bool, true, ◌&&◌, List, [], ◌∷◌, ◌++◌, if◌then◌else◌, Exception}
use navigation_server.CouplerThread.{
  MsgType, null, transparent, n0183, n2k, n0183d, Msg, Coupler, Class, ip, buffered_ip, other,
  is_nmea2000,
}

-- What a call of `_read` gives: a message, or the raise of CouplerTimeOut, of another error that a
-- read may have, or of anything else.
pub data Inbound : Type 0 where
  message : Msg → Inbound
  time_out read_error : Inbound
  uncaught : Exception → Inbound

-- How the generator ends. It waits when `_read` has nothing to give.
pub data ReadEnd : Type 0 where
  exhausted waiting : ReadEnd
  failed : Inbound → ReadEnd

-- What a run of the generator did: the messages that it yielded and the ones for the controller, its
-- end, and what `_read` will give later.
pub record Read : Type 0 where
  pub yielded : List Msg
  pub to_controller : List Msg
  pub end_of_read : ReadEnd
  pub later : List Inbound

abbrev pub yield_first : List Msg → Read → Read
yield_first ms r = record r { yielded = ms ++ r.yielded }

abbrev pub last_one : List Msg → List Inbound → Read
last_one ms later = record {
  yielded = ms;
  to_controller = [];
  end_of_read = exhausted;
  later = later;
}

-- The messages that `convert_to_n2kmsg` yields, and whether it raises NMEAInvalidFrame in the end.
abbrev pub Converter : Type 0
Converter = Msg → List Msg × Bool

-- One message. `next` is what the loop does if it fetches another one.
abbrev pub read_msg : Converter → Coupler → MsgType → Msg → List Inbound → Read → Read
read_msg convert c n2k m ins next =
    if c.has_controller && m.is_iso
    then record next { to_controller = m ∷ next.to_controller }
    else last_one (m ∷ []) ins
read_msg convert c n0183 m ins next =
    if c.nmea183_convert
    then (if (convert m).1 && is_nmea2000 c.mode
        then yield_first (convert m).0 next
        else last_one ((convert m).0 ++ m ∷ []) ins)
    else last_one (m ∷ []) ins
read_msg convert c null m ins next = last_one (m ∷ []) ins
read_msg convert c transparent m ins next = last_one (m ∷ []) ins
read_msg convert c n0183d m ins next = last_one (m ∷ []) ins

abbrev pub stopped_by : ReadEnd → List Inbound → Read
stopped_by end later = record { yielded = []; to_controller = []; end_of_read = end; later = later }

unfoldable pub read_from : Converter → Coupler → List Inbound → Read
read_from convert c [] = stopped_by waiting []
read_from convert c (message m ∷ ins) =
    let next = read_from convert c ins in read_msg convert c m.type m ins next
read_from convert c (time_out ∷ ins) = stopped_by (failed time_out) ins
read_from convert c (read_error ∷ ins) = stopped_by (failed read_error) ins
read_from convert c (uncaught e ∷ ins) = stopped_by (failed (uncaught e)) ins

-- A `BufferedIPCoupler` reads from the queue that its asynchronous reader fills.
abbrev pub is_fed : Class → Bool → Bool
is_fed buffered_ip started = started
is_fed ip started = true
is_fed other started = true

unfoldable pub read : Converter → Coupler → List Inbound → Read
unfolding read_from
read convert c ins =
    if is_fed c.class_of c.reader_started then read_from convert c ins else stopped_by waiting ins
