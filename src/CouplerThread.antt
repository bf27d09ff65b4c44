-- ===== src/CouplerThread.antt =====
-- navigation_server/router_core/coupler.py, the class `Coupler`: the state of a coupler, its thread and
-- what it sends, with `open` and `close` of `IPCoupler` and `BufferedIPCoupler` in
-- navigation_server/router_core/IPCoupler.py. The sockets and the other devices are a parameter:
-- what their `open` answers, and what `_read` gives. Timers, traces and the log are left out.
pub mod Reading
pub mod Publishing
pub mod Loop
pub mod Attempts
pub mod Routing
pub mod Connection
pub mod Reconnect
pub mod Sending
mod Tests
use navigation_server.Base.{
  ℕ, ◌+◌, Bool, true, false, not, ◌&&◌, Option, none, some, List, [], ◌∷◌, if◌then◌else◌, Exception,
  runtime_error, Result, ok, err,
}
use navigation_server.Publisher.{Publisher}

pub data MsgType : Type 0 where
  null transparent n0183 n2k n0183d : MsgType

-- A `NavGenericMsg`: its type, whether it is of the ISO protocol, and a number for all the rest.
pub record Msg : Type 0 where
  pub type : MsgType
  pub is_iso : Bool
  pub content : ℕ

pub data Direction : Type 0 where
  bidirectional read_only write_only : Direction

pub data Mode : Type 0 where
  nmea0183 nmea2000 nmea_mix non_nmea : Mode

pub data DeviceState : Type 0 where
  not_ready opened connected active : DeviceState

pub data Transport : Type 0 where
  tcp udp : Transport

-- The class of the coupler: an `IPCoupler`, a `BufferedIPCoupler`, or a class of which `open` and
-- `close` leave the state alone.
pub data Class : Type 0 where
  ip buffered_ip other : Class

-- A publisher that is registered. The number stands for the identity of the object.
pub record Subscriber : Type 0 where
  pub ident : ℕ
  pub filters : Option (Msg → Bool)
  pub publisher : Publisher Msg

-- `n2k_writer` says whether there is a writer, `has_controller` whether there is an NMEA 2000 controller,
-- `reader_started` whether the thread of the asynchronous reader was started.
pub record Coupler : Type 0 where
  pub class_of : Class
  pub transport : Transport
  pub direction : Direction
  pub mode : Mode
  pub max_attempt : ℕ
  pub nmea183_convert : Bool
  pub n2k_writer : Bool
  pub has_controller : Bool
  pub configmode : Bool
  pub publishers : List Subscriber
  pub state : DeviceState
  pub stopflag : Bool
  pub suspend_flag : Bool
  pub reader_started : Bool
  pub total_msg : ℕ
  pub total_msg_s : ℕ

abbrev pub is_ready : DeviceState → Bool
is_ready not_ready = false
is_ready opened = true
is_ready connected = true
is_ready active = true

abbrev pub is_write_only : Direction → Bool
is_write_only write_only = true
is_write_only bidirectional = false
is_write_only read_only = false

abbrev pub is_read_only : Direction → Bool
is_read_only read_only = true
is_read_only bidirectional = false
is_read_only write_only = false

abbrev pub is_nmea2000 : Mode → Bool
is_nmea2000 nmea2000 = true
is_nmea2000 nmea0183 = false
is_nmea2000 nmea_mix = false
is_nmea2000 non_nmea = false

-- Whether the constructor makes a writer.
abbrev pub writer_made : Mode → Direction → Bool
writer_made mode direction = is_nmea2000 mode && not (is_read_only direction)

-- What an `open` does: it returns true or false, or raises CouplerOpenRefused or something else. A
-- return without a value is false for the caller.
pub data OpenResult : Type 0 where
  is_open not_open refused : OpenResult
  raised : Exception → OpenResult

abbrev pub open_state : Transport → DeviceState
open_state tcp = connected
open_state udp = opened

-- `IPCoupler.open`, where the transport says whether it is open.
unfoldable pub ip_open : Coupler → Bool → Bool × Coupler
ip_open c true = (true, record c { state = open_state c.transport })
ip_open c false = (false, record c { state = not_ready })

abbrev pub is_connected : DeviceState → Bool
is_connected connected = true
is_connected not_ready = false
is_connected opened = false
is_connected active = false

-- `BufferedIPCoupler.open`: a thread can be started once only, and nothing is returned in the end.
abbrev pub start_at : Bool → Bool → Coupler → OpenResult × Coupler
start_at true true c = (raised runtime_error, c)
start_at true false c = (not_open, record c { reader_started = true })
start_at false started c = (not_open, c)

unfoldable pub start_reader : Coupler → OpenResult × Coupler
start_reader c = start_at (is_connected c.state) c.reader_started c

abbrev pub says_open : OpenResult → Bool
says_open is_open = true
says_open not_open = false
says_open refused = false
says_open (raised e) = false

-- `self.open()` of each class, from what the device answers; a transport only says yes or no.
unfoldable pub open_device : Class → Coupler → OpenResult → OpenResult × Coupler
unfolding ip_open start_reader
open_device ip c answer =
    let (done, c') = ip_open c (says_open answer) in ((if done then is_open else not_open), c')
open_device buffered_ip c answer =
    let (done, c') = ip_open c (says_open answer) in
    if done then start_reader c' else (not_open, c')
open_device other c answer = (answer, c)

-- `self.close()`
unfoldable pub close : Class → Coupler → Coupler
close ip c = record c { state = not_ready }
close buffered_ip c = record c { state = not_ready }
close other c = c

unfoldable pub stop : Coupler → Coupler
stop c = if c.stopflag then c else record c { stopflag = true; state = not_ready }
