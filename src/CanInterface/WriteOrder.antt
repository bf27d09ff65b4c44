-- ===== src/CanInterface/WriteOrder.antt =====
-- The order in which the writer thread gives the frames to the bus.
use navigation_server.Base.{
  ℕ, zero, suc, ◌+◌, ◌≡◌, refl, Bool, true, false, Option, none, some, List, [], ◌∷◌, ◌++◌, ltb,
  if◌then◌else◌, append_assoc, append-nil, sym, ◌∙◌,
}
use navigation_server.CanInterface.Interface.{CanFrame}
use navigation_server.CanInterface.Writer.{
  Phase, ready, writing, failed, Writer, SendResult, accepted, value_error, can_error, next_msg,
  choose_msg, more, burst_left, write, turn, Event, put_frame, work, stop, step, run,
}

abbrev pub to_retry : Option CanFrame → List CanFrame
to_retry none = []
to_retry (some m) = m ∷ []

-- The frame that was taken from the queue and is not written.
abbrev pub in_hand : Phase → Option CanFrame → List CanFrame
in_hand ready r = to_retry r
in_hand (writing m burst) r = m ∷ []
in_hand (failed m) r = m ∷ []

-- The frames that were written, the one in hand and the ones that wait.
abbrev pub all_frames : Writer → List CanFrame
all_frames w = w.sent ++ (in_hand w.phase w.retry ++ w.in_queue)

abbrev pub put_by : Event → List CanFrame
put_by (put_frame m) = m ∷ []
put_by (work r) = []
put_by stop = []

abbrev pub all_put : List Event → List CanFrame
all_put [] = []
all_put (e ∷ es) = put_by e ++ all_put es

next_frames :
    (w : Writer) (q : List CanFrame)
    → w.phase ≡ ready
    → w.retry ≡ none
    → w.in_queue ≡ q
    → all_frames (next_msg w q) ≡ w.sent ++ q
next_frames w [] at kept waiting = rw (at, kept, waiting) refl
next_frames w (m ∷ q) at kept waiting = refl

choose_frames :
    (w : Writer) (r : Option CanFrame)
    → w.phase ≡ ready
    → w.retry ≡ r
    → all_frames (choose_msg w r) ≡ w.sent ++ (to_retry r ++ w.in_queue)
choose_frames w (some m) at kept = refl
choose_frames w none at kept = next_frames w w.in_queue at kept refl

more_frames :
    (w : Writer) (burst : ℕ) (q : List CanFrame)
    → w.retry ≡ none
    → w.in_queue ≡ q
    → all_frames (more w burst q) ≡ w.sent ++ q
more_frames w zero q kept waiting = rw (kept, waiting) refl
more_frames w (suc burst) [] kept waiting = rw (kept, waiting) refl
more_frames w (suc burst) (m ∷ q) kept waiting = refl

error_frames :
    (m : CanFrame) (too_many : Bool)
    → in_hand (if too_many then failed m else ready) (some m) ≡ m ∷ []
error_frames m true = refl
error_frames m false = refl

write_frames :
    (w : Writer) (m : CanFrame) (burst : ℕ) (r : SendResult)
    → all_frames (write w m burst r) ≡ w.sent ++ (m ∷ w.in_queue)
write_frames w m burst accepted =
    more_frames
      (record w { total_msg = w.total_msg + 1; nberr = 0; retry = none; sent = w.sent ++ m ∷ [] })
      (burst_left burst) w.in_queue refl refl
    ∙ append_assoc w.sent (m ∷ []) w.in_queue
write_frames w m burst value_error = refl
write_frames w m burst can_error = rw (error_frames m (ltb 20 (w.nberr + 1))) refl

begin_frames :
    (w : Writer) (stopped : Bool)
    → w.phase ≡ ready
    → all_frames (if stopped then w else choose_msg w w.retry)
      ≡ w.sent ++ (to_retry w.retry ++ w.in_queue)
begin_frames w true at = rw at refl
begin_frames w false at = choose_frames w w.retry at refl

turn_frames :
    (w : Writer) (r : SendResult) (p : Phase)
    → w.phase ≡ p
    → all_frames (turn w r p) ≡ w.sent ++ (in_hand p w.retry ++ w.in_queue)
turn_frames w r ready at = begin_frames w w.stop_flag at
turn_frames w r (writing m burst) at = write_frames w m burst r
turn_frames w r (failed m) at = rw at refl

step_frames : (w : Writer) (e : Event) → all_frames (step w e) ≡ all_frames w ++ put_by e
step_frames w (put_frame m) =
    rw
      (
        append_assoc w.sent (in_hand w.phase w.retry ++ w.in_queue) (m ∷ []),
        append_assoc (in_hand w.phase w.retry) w.in_queue (m ∷ []),
      )
      refl
step_frames w (work r) = turn_frames w r w.phase refl ∙ sym (append-nil (all_frames w))
step_frames w stop = sym (append-nil (all_frames w))

-- Whatever happens, what the bus took, the frame in hand and those that wait are together, in this
-- order, what they were at first, followed by what was put since: the bus takes the frames in
-- the order in which they were put, and none is lost or written twice, also after errors and
-- when the thread fails.
pub run-all_frames :
    (w : Writer) (es : List Event) → all_frames (run w es) ≡ all_frames w ++ all_put es
run-all_frames w [] = sym (append-nil (all_frames w))
run-all_frames w (e ∷ es) =
    run-all_frames (step w e) es
    ∙ rw (step_frames w e) (append_assoc (all_frames w) (put_by e) (all_put es))
