-- ===== src/CouplerThread/Loop.antt =====
-- `Coupler.nrun`: the rounds of the thread.
use navigation_server.Base.{
  ℕ, ◌+◌, Bool, true, false, ◌||◌, List, [], ◌∷◌, ◌++◌, leb, if◌then◌else◌, Exception,
}
use navigation_server.CouplerThread.{
  MsgType, null, transparent, n0183, n2k, n0183d, Msg, Coupler, opened, active, OpenResult, is_open,
  not_open, refused, raised, is_ready, is_write_only, open_device, close, stop,
}
use navigation_server.CouplerThread.Reading.{
  Inbound, message, time_out, read_error, uncaught, ReadEnd, exhausted, waiting, failed, Read,
  Converter, read,
}
use navigation_server.CouplerThread.Publishing.{publish_on}

-- The coupler with the local variable of the thread, what `_read` will give, and what the controller was
-- given.
pub record Session : Type 0 where
  pub coupler : Coupler
  pub nb_attempts : ℕ
  pub inbound : List Inbound
  pub controlled : List Msg

-- After a round: the next one comes, the loop is left, the thread ends by an exception, or it waits in
-- `_read`.
pub data RoundEnd : Type 0 where
  go_on leave waits : RoundEnd
  dies : Exception → RoundEnd

-- The body of `for msg in self.read()`.
abbrev pub handle_type : MsgType → Coupler → Msg → Coupler
handle_type null c m = close c.class_of c
handle_type n0183 c m = publish_on (record c { total_msg = c.total_msg + 1; state = active }) m
handle_type n2k c m = publish_on (record c { total_msg = c.total_msg + 1; state = active }) m
handle_type n0183d c m = publish_on (record c { total_msg = c.total_msg + 1; state = active }) m
handle_type transparent c m =
    publish_on (record c { total_msg = c.total_msg + 1; state = active }) m

unfoldable pub handle_all : Coupler → List Msg → Coupler
handle_all c [] = c
handle_all c (m ∷ ms) = handle_all (handle_type m.type c m) ms

abbrev pub after_read : ReadEnd → Session → RoundEnd × Session
after_read exhausted s = (go_on, s)
after_read waiting s = (waits, s)
after_read (failed (message m)) s = (go_on, s)
after_read (failed time_out) s = (go_on, s)
after_read (failed read_error) s = ((if s.coupler.stopflag then leave else go_on), s)
after_read (failed (uncaught e)) s =
    (go_on, record s { coupler = close s.coupler.class_of s.coupler })

abbrev pub handle_read : Read → Session → RoundEnd × Session
handle_read r s = after_read r.end_of_read (record s {
  coupler = handle_all s.coupler r.yielded;
  inbound = r.later;
  controlled = s.controlled ++ r.to_controller;
})

-- Nothing is read for a coupler that only writes, or is suspended.
abbrev pub read_unless : Bool → Converter → Session → RoundEnd × Session
read_unless true convert s = (go_on, s)
read_unless false convert s = handle_read (read convert s.coupler s.inbound) s

unfoldable pub read_section : Converter → Session → RoundEnd × Session
unfolding handle_all
read_section convert s =
    read_unless (is_write_only s.coupler.direction || s.coupler.suspend_flag) convert s

abbrev pub after_open : Converter → OpenResult → Session → RoundEnd × Session
after_open convert not_open s = (go_on, record s { nb_attempts = s.nb_attempts + 1 })
after_open convert is_open s =
    read_section convert
      (record s { coupler = record s.coupler { state = opened }; nb_attempts = 0 })
after_open convert refused s = (leave, s)
after_open convert (raised e) s = (dies e, s)

abbrev pub with_coupler : Session → Coupler → Session
with_coupler s c = record s { coupler = c }

abbrev pub open_unless : Bool → Converter → OpenResult → Session → RoundEnd × Session
open_unless true convert answer s = (leave, s)
open_unless false convert answer s =
    let one = open_device s.coupler.class_of s.coupler answer in
    after_open convert one.0 (with_coupler s one.1)

unfoldable pub open_section : Converter → OpenResult → Session → RoundEnd × Session
unfolding read_section
open_section convert answer s =
    open_unless (leb s.coupler.max_attempt s.nb_attempts) convert answer s

-- The stop flag, and whether the device is open.
abbrev pub round_at : Bool → Bool → Converter → OpenResult → Session → RoundEnd × Session
round_at true ready convert answer s = (leave, s)
round_at false true convert answer s = read_section convert s
round_at false false convert answer s = open_section convert answer s

-- One round of the loop. `answer` is what the device answers if it is opened.
unfoldable pub round : Converter → OpenResult → Session → RoundEnd × Session
round convert answer s = round_at s.coupler.stopflag (is_ready s.coupler.state) convert answer s

-- The end of the thread after the loop.
unfoldable pub end_loop : Session → Session
end_loop s = let c = stop s.coupler in record s { coupler = close c.class_of c }

-- What happens: a round, and between two rounds what other threads ask for.
pub data Tick : Type 0 where
  work : OpenResult → Tick
  ask_stop suspend resume : Tick

abbrev pub tick : Converter → Tick → Session → RoundEnd × Session
tick convert (work answer) s = round convert answer s
tick convert ask_stop s = (go_on, record s { coupler = stop s.coupler })
tick convert suspend s = (go_on, record s { coupler = record s.coupler { suspend_flag = true } })
tick convert resume s = (go_on, record s { coupler = record s.coupler { suspend_flag = false } })

abbrev pub continue_with : (Session → RoundEnd × Session) → RoundEnd × Session → RoundEnd × Session
continue_with next (go_on, s) = next s
continue_with next (leave, s) = (leave, end_loop s)
continue_with next (waits, s) = (waits, s)
continue_with next (dies e, s) = (dies e, s)

unfoldable pub nrun : Converter → List Tick → Session → RoundEnd × Session
unfolding round end_loop
nrun convert [] s = (go_on, s)
nrun convert (t ∷ ts) s = continue_with (nrun convert ts) (tick convert t s)
