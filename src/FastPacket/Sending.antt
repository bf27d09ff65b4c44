-- ===== src/FastPacket/Sending.antt =====
-- Round trip of nmea2k_fast_packet.py: `process_frame` fed with the frames of one message, and what comes of it.
use navigation_server.Base.{
  get-put, refl, ◌==◌, if◌then◌else◌, ℕ, zero, suc, ◌+◌, ◌-◌, ◌*◌, ◌/◌, ◌≤◌, ◌<◌, ◌≡◌, ap, sym,
  subst, ◌∙◌, ◌⊎◌, inl, inr, Bool-cases, leb, leb→le, true, false, Option, none, some, List, [],
  ◌∷◌, ◌++◌, arith, length, replicate, take, get, put, put-put, remove-put, get-put_self, Result,
  ok,
}
use navigation_server.FastPacket.Packet.{
  FastPacket, compute_key, new_packet, first_packet, add_packet, check_complete, total_frame,
}
use navigation_server.FastPacket.Handler.{FastPacketHandler, process_frame, settle}
use navigation_server.FastPacket.Split.{
  split_loop, split_frames, split_message, allocate_seq, free_seq,
}
use navigation_server.FastPacket.Stream.{
  body, seq_of-head, counter_of-head, split_loop_more, split_loop_last, split_loop_first,
}
use navigation_server.FastPacket.Frames.{split_frames-AllEight}
use navigation_server.FastPacket.Reception.{
  Holds, trailing, first_packet-Holds, add_packet-Holds, incomplete, complete, total_frame-Holds,
}

-- The frames of a coupler in turn, with the result of each.
unfoldable pub feed :
    FastPacketHandler
    → ℕ
    → ℕ
    → ℕ
    → List (List ℕ)
    → List (Result (Option (List ℕ))) × FastPacketHandler
feed h now pgn addr [] = ([], h)
feed h now pgn addr (frame ∷ frames) =
    let (r, h') = process_frame h now pgn addr frame in
    let (rs, h'') = feed h' now pgn addr frames in (r ∷ rs, h'')

-- What the frames of a payload give: nothing, until the last gives the payload.
abbrev pub outcomes : ℕ → List ℕ → List (Result (Option (List ℕ)))
outcomes before payload =
    replicate before (ok none) ++ (ok (some (payload ++ trailing payload)) ∷ [])

module _ (h : FastPacketHandler) (now pgn addr : ℕ) where
  abbrev key : ℕ
  key = compute_key pgn addr 1

  -- The handler while the packet `p` is under reassembly.
  abbrev during : FastPacket → FastPacketHandler
  during p = record h { sequences = put h.sequences key p }

  process_frame-suc :
      (k : ℕ) (content : List ℕ) (p q : FastPacket)
      → 0 < k
      → k < 32
      → add_packet p ((32 + k) ∷ content) ≡ ok q
      → process_frame (during p) now pgn addr ((32 + k) ∷ content) ≡ settle (during p) key q
  unfolding process_frame
  process_frame-suc k content p q pos low added =
      ground (arith, seq_of-head k, counter_of-head k, get-put_self h.sequences key p, added)

  process_frame-zero :
      (frame : List ℕ) (q : FastPacket)
      → get h.sequences key ≡ none
      → first_packet (new_packet now pgn addr 1) (32 ∷ frame) ≡ ok q
      → process_frame h now pgn addr (32 ∷ frame)
        ≡ settle (during (new_packet now pgn addr 1)) key q
  unfolding process_frame
  process_frame-zero frame q absent started =
      ground (arith, seq_of-head 0, counter_of-head 0, started)

  settle_more :
      (p q : FastPacket) → check_complete q ≡ false → settle (during p) key q ≡ (ok none, during q)
  unfolding settle
  settle_more p q e = ground (arith, put-put h.sequences key p q)

  settle_done :
      (p q : FastPacket) (result : List ℕ)
      → get h.sequences key ≡ none
      → check_complete q ≡ true
      → total_frame q ≡ ok result
      → settle (during p) key q ≡ (ok (some result), h)
  unfolding settle
  settle_done p q result absent e total =
      ground (arith, put-put h.sequences key p q, remove-put h.sequences key q)

module _ (h : FastPacketHandler) (now pgn addr : ℕ) (payload : List ℕ)
    (absent : get h.sequences (compute_key pgn addr 1) ≡ none) (high : length payload ≤ 223) where
  abbrev started : FastPacket → FastPacketHandler
  started p = during h now pgn addr p

  receive_more :
      (k : ℕ) (p : FastPacket)
      → 0 < k
      → 7 * (k + 1) ≤ length payload
      → Holds payload k p
      → (q : FastPacket) × (process_frame (started p) now pgn addr ((32 + k) ∷ body payload k)
          ≡ (ok none, started q))
        × Holds payload (k + 1) q
  receive_more k p pos le held =
      let (q, added, held') = add_packet-Holds payload k p pos (omega arith) held in
      (
        q,
        process_frame-suc h now pgn addr k (body payload k) p q pos (omega arith) added
            ∙ settle_more h now pgn addr p q (incomplete payload (k + 1) q held' (omega arith) le),
        held',
      )

  receive_last :
      (k : ℕ) (p : FastPacket)
      → 0 < k
      → k ≡ length payload / 7
      → Holds payload k p
      → process_frame (started p) now pgn addr ((32 + k) ∷ body payload k)
        ≡ (ok (some (payload ++ trailing payload)), h)
  receive_last k p pos last held =
      let (q, added, held') = add_packet-Holds payload k p pos (omega arith) held in
      let all : Holds payload (length payload / 7 + 1) q =
        subst (λ (m : ℕ). Holds payload (m + 1) q) last held' in
      process_frame-suc h now pgn addr k (body payload k) p q pos (omega arith) added
      ∙ settle_done h now pgn addr p q (payload ++ trailing payload) absent
          (complete payload (k + 1) q held' (omega arith) (omega arith))
          (total_frame-Holds payload q (omega arith) all)

  -- The frames from number `k` on, for a packet that has taken those before.
  feed_later :
      (fuel k : ℕ) (p : FastPacket)
      → 0 < k
      → 7 * k ≤ length payload
      → length payload / 7 < k + fuel
      → Holds payload k p
      → feed (during h now pgn addr p) now pgn addr (split_loop fuel 32 payload k (7 * k - 1)).0
        ≡ (outcomes (length payload / 7 - k) payload, h)
  unfolding feed
  feed_later zero k p pos le enough held = absurd (omega arith)
  feed_later (suc fuel) k p pos le enough held =
      elim (Bool-cases (leb (7 * (k + 1)) (length payload))) [
        | inl more ↦
            let (q, step, held') = receive_more k p pos (leb→le _ _ more) held in
            let one : length payload / 7 - k ≡ suc (length payload / 7 - (k + 1)) =
              omega (arith, leb→le (7 * (k + 1)) (length payload) more) in
            rw (
              split_loop_more fuel k payload pos (omega arith) (leb→le _ _ more),
              step,
              feed_later fuel (k + 1) q (omega arith) (leb→le _ _ more) (omega arith) held',
              one,
            )
        | inr over ↦
            let bound : length payload < 7 * (k + 1) = ground arith in
            let last : k ≡ length payload / 7 = omega arith in
            let none_left : length payload / 7 - k ≡ 0 = omega arith in
            rw (
              split_loop_last fuel k payload pos (omega arith) le bound,
              receive_last k p pos last held,
              none_left,
            )
      ]

-- No split of this PGN is under way: `allocate_seq` finds the sequence unused.
abbrev pub IsFree : FastPacketHandler → ℕ → Type 0
IsFree h pgn = (get h.write_sequences pgn ≡ none) ⊎ (get h.write_sequences pgn ≡ some 0)

pub split_message-eq :
    (h : FastPacketHandler) (pgn : ℕ) (payload : List ℕ)
    → IsFree h pgn
    → (split_frames 1 payload).1 ≡ ok tt
    → split_message h pgn payload
      ≡ (split_frames 1 payload, record h { write_sequences = put h.write_sequences pgn 0 })
unfolding split_message allocate_seq free_seq
split_message-eq h pgn payload free done = ground (arith, put-put h.write_sequences pgn 1 0)

pub feed_all :
    (h : FastPacketHandler) (now pgn addr : ℕ) (payload : List ℕ)
    → get h.sequences (compute_key pgn addr 1) ≡ none
    → 7 ≤ length payload
    → length payload ≤ 223
    → feed h now pgn addr (split_frames 1 payload).0 ≡ (outcomes (length payload / 7) payload, h)
unfolding split_frames feed
feed_all h now pgn addr payload absent low high =
    let (p, begun, held) = first_packet-Holds now pgn addr 1 payload low in
    let one : length payload / 7 ≡ suc (length payload / 7 - 1) = omega arith in
    let enter : length payload + 1 ≡ suc (length payload) = omega arith in
    rw
      (
        enter,
        split_loop_first (length payload) payload low (omega arith),
        process_frame-zero h now pgn addr (length payload ∷ take 6 payload) p absent begun,
        settle_more h now pgn addr (new_packet now pgn addr 1) p
            (incomplete payload 1 p held (omega arith) low),
        feed_later h now pgn addr payload absent high (length payload) 1 p (omega arith) low
            (omega arith) held,
      )
      (ap (λ (m : ℕ). (outcomes m payload, h)) (sym one))

-- A payload of 7 to 223 bytes that a handler with no split of this PGN under way splits without
-- error, and that another handler with no such sequence open receives frame by frame, comes back:
-- each frame but the last gives nothing, the last gives the payload with the trailing byte, the
-- receiver is as before, and the sender has freed the PGN and is otherwise as before.
pub feed-split_message :
    (sender receiver : FastPacketHandler) (now pgn addr other : ℕ) (payload : List ℕ)
    → IsFree sender pgn
    → get receiver.sequences (compute_key pgn addr 1) ≡ none
    → 7 ≤ length payload
    → length payload ≤ 223
    → (feed receiver now pgn addr (split_message sender pgn payload).0.0
        ≡ (outcomes (length payload / 7) payload, receiver))
      × ((split_message sender pgn payload).0.1 ≡ ok tt)
      × (get (split_message sender pgn payload).1.write_sequences other
          ≡ (if pgn == other then some 0 else get sender.write_sequences other))
      × ((split_message sender pgn payload).1.sequences ≡ sender.sequences)
feed-split_message sender receiver now pgn addr other payload free absent low high =
    rw (split_message-eq sender pgn payload free ((split_frames-AllEight payload high).2)) (
      feed_all receiver now pgn addr payload absent low high,
      (split_frames-AllEight payload high).2,
      get-put sender.write_sequences pgn other 0,
      refl,
    )
