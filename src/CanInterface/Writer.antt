-- ===== src/CanInterface/Writer.antt =====
-- navigation_server/can_interface/nmea2k_can_interface.py, `SocketCANWriter.nrun`: the thread that
-- writes the queue of frames to the bus. It is a machine of steps, as other threads put frames
-- at any time: the begin of a round, and one call of `self._bus.send`, whose result is an
-- argument. The pauses between the frames and the trace are left out.
use navigation_server.Base.{
  ℕ, zero, suc, ◌+◌, Bool, true, Option, none, some, List, [], ◌∷◌, ◌++◌, ltb, if◌then◌else◌,
  length,
}
use navigation_server.CanInterface.Interface.{CanFrame}

-- Where the thread is: at the head of its loop, before a write with so much of the burst left, or
-- ended by `SocketCanError` with the frame that was not written.
pub data Phase : Type 0 where
  ready : Phase
  writing : CanFrame → ℕ → Phase
  failed : CanFrame → Phase

-- `retry` has the frame that is to be written again. `sent` is what the bus took.
pub record Writer : Type 0 where
  pub in_queue : List CanFrame
  pub in_queue_size : ℕ
  pub stop_flag : Bool
  pub total_msg : ℕ
  pub nberr : ℕ
  pub retry : Option CanFrame
  pub phase : Phase
  pub sent : List CanFrame

-- What `self._bus.send` does: it returns, or raises ValueError or CanError.
pub data SendResult : Type 0 where
  accepted : SendResult
  value_error : SendResult
  can_error : SendResult

abbrev pub burst_of : ℕ → List CanFrame → ℕ
burst_of size queue = if ltb size (length queue + 2) then 5 else 1

abbrev pub next_msg : Writer → List CanFrame → Writer
next_msg w [] = w
next_msg w (m ∷ q) = record w { in_queue = q; phase = writing m (burst_of w.in_queue_size q) }

abbrev pub choose_msg : Writer → Option CanFrame → Writer
choose_msg w (some m) = record w { phase = writing m (burst_of w.in_queue_size w.in_queue) }
choose_msg w none = next_msg w w.in_queue

-- The begin of a round. With an empty queue the get times out and the loop goes on.
abbrev pub begin_round : Writer → Writer
begin_round w = if w.stop_flag then w else choose_msg w w.retry

-- One more frame of the burst, if there is one.
abbrev pub more : Writer → ℕ → List CanFrame → Writer
more w zero q = record w { phase = ready }
more w (suc burst) [] = record w { phase = ready }
more w (suc burst) (m ∷ q) = record w { in_queue = q; phase = writing m (suc burst) }

abbrev pub burst_left : ℕ → ℕ
burst_left zero = zero
burst_left (suc burst) = burst

abbrev pub write : Writer → CanFrame → ℕ → SendResult → Writer
write w m burst accepted =
    more
      (record w { total_msg = w.total_msg + 1; nberr = 0; retry = none; sent = w.sent ++ m ∷ [] })
      (burst_left burst) w.in_queue
write w m burst value_error = record w { total_msg = w.total_msg + 1; phase = failed m }
write w m burst can_error = record w {
  total_msg = w.total_msg + 1;
  nberr = w.nberr + 1;
  retry = some m;
  phase = if ltb 20 (w.nberr + 1) then failed m else ready;
}

abbrev pub turn : Writer → SendResult → Phase → Writer
turn w r ready = begin_round w
turn w r (writing m burst) = write w m burst r
turn w r (failed m) = w

-- What happens: a frame is put, the thread does its next piece of work, or it is stopped.
pub data Event : Type 0 where
  put_frame : CanFrame → Event
  work : SendResult → Event
  stop : Event

abbrev pub step : Writer → Event → Writer
step w (put_frame m) = record w { in_queue = w.in_queue ++ m ∷ [] }
step w (work r) = turn w r w.phase
step w stop = record w { stop_flag = true }

abbrev pub run : Writer → List Event → Writer
run w [] = w
run w (e ∷ es) = run (step w e) es
