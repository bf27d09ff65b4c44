-- ===== src/CanInterface/Queue.antt =====
-- The write queue: what is put in it, and what happens when it is full.
use navigation_server.Base.{
  ℕ, zero, suc, ◌+◌, ◌≤◌, ◌<◌, ◌≡◌, refl, ap, sym, subst, Bool, true, false, List, [], ◌∷◌, ◌++◌,
  arith, length, length-append, replicate, map, append_assoc, ltb, ltb-false, ltb→lt, Bool-cases,
  inl, inr, lt→ltb, leb-false, le→leb, Result, ok, err, socket_can, ==_ne,
}
use navigation_server.CanInterface.Interface.{CanInterface, put_can_msg, is_full}
use navigation_server.CanInterface.Send.{put_frames}

-- Puts one after the other while nothing leaves the queue.
abbrev pub put_times : ℕ → CanInterface → ℕ → List ℕ → List (Result Bool) × CanInterface
put_times zero s can_id bytes = ([], s)
put_times (suc n) s can_id bytes =
    let one = put_can_msg s can_id bytes in
    let rest = put_times n one.1 can_id bytes in (one.0 ∷ rest.0, rest.1)

refused :
    (n : ℕ) (s : CanInterface) (can_id : ℕ) (bytes : List ℕ)
    → is_full s.write_buffer_size (length s.in_queue) ≡ true
    → s.write_errors + n ≤ 10
    → put_times n s can_id bytes
      ≡ (replicate n (ok false), record s { write_errors = s.write_errors + n })
unfolding put_can_msg
refused zero s can_id bytes full few =
    let same : s.write_errors + 0 ≡ s.write_errors = omega arith in rw same
refused (suc n) s can_id bytes full few =
    let count : s.write_errors + 1 + n ≡ s.write_errors + suc n = omega arith in
    rw (
      full,
      ltb-false 10 (s.write_errors + 1) (omega arith),
      refused n (record s { write_errors = s.write_errors + 1 }) can_id bytes full (omega arith),
      count,
    )

-- With the queue full and no error counted, ten puts are refused and change nothing but the count,
-- and the next one raises.
pub put_times_full :
    (n : ℕ) (s : CanInterface) (can_id : ℕ) (bytes : List ℕ)
    → is_full s.write_buffer_size (length s.in_queue) ≡ true
    → s.write_errors ≡ 0
    → n ≤ 10
    → (put_times n s can_id bytes ≡ (replicate n (ok false), record s { write_errors = n }))
      × ((put_can_msg (put_times 10 s can_id bytes).1 can_id bytes).0 ≡ err socket_can)
unfolding put_can_msg
put_times_full n s can_id bytes full fresh few =
    let count : s.write_errors + n ≡ n = omega arith in
    (
      rw (refused n s can_id bytes full (omega arith), count),
      subst
          (λ (p : List (Result Bool) × CanInterface).
            (put_can_msg p.1 can_id bytes).0 ≡ err socket_can)
          (sym (refused 10 s can_id bytes full (omega arith)))
          (rw (full, lt→ltb 10 (s.write_errors + 10 + 1) (omega arith))),
    )

-- The interface with one more frame in the write queue, and with more of them.
abbrev pub one_put : CanInterface → ℕ → List ℕ → CanInterface
one_put s can_id f = record s {
  in_queue = s.in_queue ++ record { arbitration_id = can_id; bytes = f } ∷ [];
  write_errors = 0;
}

abbrev pub all_put : CanInterface → ℕ → List (List ℕ) → CanInterface
all_put s can_id fs = record s {
  in_queue = s.in_queue ++ map (λ f. record { arbitration_id = can_id; bytes = f }) fs;
  write_errors = 0;
}

pub put_can_msg_room :
    (s : CanInterface) (can_id : ℕ) (f : List ℕ)
    → length s.in_queue < s.write_buffer_size
    → put_can_msg s can_id f ≡ (ok true, one_put s can_id f)
unfolding put_can_msg
put_can_msg_room s can_id f room = rw (
  ==_ne s.write_buffer_size 0 (omega arith),
  leb-false s.write_buffer_size (length s.in_queue) (omega arith),
)

pub put_can_msg_full :
    (s : CanInterface) (can_id : ℕ) (f : List ℕ)
    → 0 < s.write_buffer_size
    → s.write_buffer_size ≤ length s.in_queue
    → s.write_errors < 10
    → put_can_msg s can_id f ≡ (ok false, record s { write_errors = s.write_errors + 1 })
unfolding put_can_msg
put_can_msg_full s can_id f some_size full few = rw (
  ==_ne s.write_buffer_size 0 (omega arith),
  le→leb s.write_buffer_size (length s.in_queue) full,
  ltb-false 10 (s.write_errors + 1) (omega arith),
)

length-one_put :
    (s : CanInterface) (can_id : ℕ) (f : List ℕ)
    → length (one_put s can_id f).in_queue ≡ length s.in_queue + 1
length-one_put s can_id f =
    length-append s.in_queue (record { arbitration_id = can_id; bytes = f } ∷ [])

-- The loop by the result of the first put.
put_frames-cons :
    (s : CanInterface) (can_id : ℕ) (f : List ℕ) (fs : List (List ℕ))
    (p : Result Bool × CanInterface)
    → put_can_msg s can_id f ≡ p
    → put_frames s can_id (f ∷ fs) ≡ elim p.0 as (λ r. Result Bool × CanInterface) [
      | ok true ↦ put_frames p.1 can_id fs
      | ok false ↦ (ok false, p.1)
      | err e ↦ (err e, p.1)
    ]
unfolding put_frames
put_frames-cons s can_id f fs p e =
    ap
      (λ (q : Result Bool × CanInterface). elim q.0 as (λ r. Result Bool × CanInterface) [
        | ok true ↦ put_frames q.1 can_id fs
        | ok false ↦ (ok false, q.1)
        | err e ↦ (err e, q.1)
      ])
      e

-- Room for all frames: each is at the end of the queue, in order.
put_frames_room :
    (s : CanInterface) (can_id : ℕ) (f : List ℕ) (fs : List (List ℕ))
    → length s.in_queue + suc (length fs) ≤ s.write_buffer_size
    → put_frames s can_id (f ∷ fs) ≡ (ok true, all_put s can_id (f ∷ fs))
unfolding put_frames
put_frames_room s can_id f [] room =
    put_frames-cons s can_id f [] _ (put_can_msg_room s can_id f (omega arith))
put_frames_room s can_id f (g ∷ gs) room = rw (
  put_frames-cons s can_id f (g ∷ gs) _ (put_can_msg_room s can_id f (omega arith)),
  put_frames_room (one_put s can_id f) can_id g gs (omega (arith, length-one_put s can_id f)),
  append_assoc s.in_queue (record { arbitration_id = can_id; bytes = f } ∷ [])
      (map (λ b. record { arbitration_id = can_id; bytes = b }) (g ∷ gs)),
)

-- No room for all of them: `put_frames` stops at the first that finds the queue full.
pub put_frames_full :
    (s : CanInterface) (can_id : ℕ) (fs : List (List ℕ))
    → 0 < s.write_buffer_size
    → s.write_errors < 10
    → length s.in_queue ≤ s.write_buffer_size
    → s.write_buffer_size < length s.in_queue + length fs
    → ((put_frames s can_id fs).0 ≡ ok false)
      × ((put_frames s can_id fs).1.fp_handler ≡ s.fp_handler)
unfolding put_frames
put_frames_full s can_id [] some_size few fits much = absurd (omega arith)
put_frames_full s can_id (f ∷ fs) some_size few fits much =
    elim (Bool-cases (ltb (length s.in_queue) s.write_buffer_size)) [
      | inl room ↦
          let more = ltb→lt (length s.in_queue) s.write_buffer_size room in
          rw (put_frames-cons s can_id f fs _ (put_can_msg_room s can_id f more)) (
            put_frames_full (one_put s can_id f) can_id fs some_size (omega arith)
              (omega (arith, length-one_put s can_id f)) (omega (arith, length-one_put s can_id f)))
      | inr full ↦
          rw
            (put_frames-cons s can_id f fs _
              (put_can_msg_full s can_id f some_size (ground arith) few))
            (refl, refl)
    ]

pub put_frames_all :
    (s : CanInterface) (can_id : ℕ) (fs : List (List ℕ))
    → 0 < length fs
    → length s.in_queue + length fs ≤ s.write_buffer_size
    → put_frames s can_id fs ≡ (ok true, all_put s can_id fs)
put_frames_all s can_id [] some_frame room = absurd (omega arith)
put_frames_all s can_id (f ∷ fs) some_frame room = put_frames_room s can_id f fs room
