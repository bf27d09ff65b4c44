-- ===== src/FastPacket/Frames.antt =====
-- What `split_message` yields for every payload, the short and the oversized ones included.
use navigation_server.Base.{
  ℕ, zero, suc, ◌+◌, ◌-◌, ◌*◌, ◌/◌, ◌≤◌, ◌<◌, min, max, ◌≡◌, refl, List, [], ◌∷◌, ◌++◌, arith,
  length, take, replicate, length-append, length-take, length-replicate, ltb, ok, err, value_error,
  get, get-put_self, lt→ltb, ltb-false, Bool-cases, inl, inr, ltb→lt, false, none,
}
use navigation_server.FastPacket.Handler.{FastPacketHandler}
use navigation_server.FastPacket.Split.{
  split_frame, split_loop, split_frames, split_message, allocate_seq,
}
use navigation_server.FastPacket.Stream.{length-body, split_frame-suc, split_loop_end}

-- All frames are CAN frames of eight bytes.
abbrev pub AllEight : List (List ℕ) → Type 0
AllEight [] = Unit
AllEight (frame ∷ frames) = (length frame ≡ 8) × AllEight frames

-- The first frame, at any length that fits its byte.
first_frame : List ℕ → List ℕ
first_frame payload =
    let n = length payload in
    32 ∷ n ∷ (take (min 8 (n + 1) - 2) payload ++ replicate (8 - max 2 (min 8 (n + 1))) 0xFF)

split_frame_first :
    (payload : List ℕ)
    → length payload ≤ 255
    → split_frame 32 payload 0 0 ≡ ok (first_frame payload, min 8 (length payload + 1) - 2)
unfolding split_frame first_frame
split_frame_first payload high =
    let whole : length payload - 0 ≡ length payload = omega arith in
    let start : 0 + (min 8 (length payload + 1) - 2) ≡ min 8 (length payload + 1) - 2 =
      omega arith in
    rw (ltb-false 255 (length payload) high, whole, start)

length-first_frame : (payload : List ℕ) → length (first_frame payload) ≡ 8
unfolding first_frame
length-first_frame payload =
    let n = length payload in
    let kept = min 8 (n + 1) - 2 in
    let fill = 8 - max 2 (min 8 (n + 1)) in
    omega (
      arith,
      length-append (take kept payload) (replicate fill 0xFF),
      length-take kept payload,
      length-replicate {A = ℕ} fill 0xFF,
    )

split_loop_zero :
    (fuel : ℕ) (payload : List ℕ)
    → length payload ≤ 255
    → let rest = split_loop fuel 32 payload 1 (min 8 (length payload + 1) - 2) in
      split_loop (suc fuel) 32 payload 0 0 ≡ (first_frame payload ∷ rest.0, rest.1)
unfolding split_loop
split_loop_zero fuel payload high =
    rw (lt→ltb 0 (length payload + 1) (omega arith), split_frame_first payload high)

-- The loop from frame `k` on: eight bytes each, `n / 7 + 1` frames in all, no error.
frames_from :
    (fuel k ptr : ℕ) (payload : List ℕ)
    → 0 < k
    → length payload ≤ 223
    → length payload / 7 < k + fuel
    → (7 * k ≤ length payload → ptr ≡ 7 * k - 1)
    → let run = split_loop fuel 32 payload k ptr in
      AllEight run.0 × (length run.0 ≡ length payload / 7 + 1 - k) × (run.1 ≡ ok tt)
unfolding split_loop
frames_from zero k ptr payload pos high enough at = (tt, omega arith, refl)
frames_from (suc fuel) k ptr payload pos high enough at =
    elim (Bool-cases (ltb (k * 7) (length payload + 1))) [
      | inr over ↦ rw over (tt, omega (arith, ltb-true k over), refl)
      | inl more ↦
          let le : 7 * k ≤ length payload = omega (arith, ltb→lt _ _ more) in
          let next = 7 * k - 1 + min 7 (length payload - (7 * k - 1)) in
          let rest =
            frames_from fuel (k + 1) next payload (omega arith) high (omega arith)
              (λ le'. omega arith) in
          rw (more, at le, split_frame-suc payload k pos (omega arith))
            ((omega (arith, length-body payload k), rest.0), omega (arith, rest.1), rest.2)
    ]
  where
    ltb-true : (j : ℕ) → ltb (j * 7) (length payload + 1) ≡ false → length payload < 7 * j
    ltb-true j e = ground arith

-- A payload of at most 223 bytes is split without error into `n / 7 + 1` frames of eight bytes.
pub split_frames-AllEight :
    (payload : List ℕ)
    → length payload ≤ 223
    → AllEight (split_frames 1 payload).0
      × (length (split_frames 1 payload).0 ≡ length payload / 7 + 1)
      × ((split_frames 1 payload).1 ≡ ok tt)
unfolding split_frames
split_frames-AllEight payload high =
    let enter : length payload + 1 ≡ suc (length payload) = omega arith in
    let rest =
      frames_from (length payload) 1 (min 8 (length payload + 1) - 2) payload (omega arith) high
        (omega arith) (λ le. omega arith) in
    rw (enter, split_loop_zero (length payload) payload (omega arith))
      ((length-first_frame payload, rest.0), omega (arith, rest.1), rest.2)

-- The last byte of a payload of 1 to 6 bytes is not sent: its single frame announces all the
-- bytes, carries all but the last, and is filled with 0xFF.
pub split_frames_short :
    (payload : List ℕ)
    → 0 < length payload
    → length payload ≤ 6
    → split_frames 1 payload ≡ (
      (32
            ∷ length payload
            ∷ (take (length payload - 1) payload ++ replicate (7 - length payload) 0xFF))
          ∷ [],
      ok tt,
    )
unfolding split_frames first_frame
split_frames_short payload pos low =
    let enter : length payload + 1 ≡ suc (length payload) = omega arith in
    let kept : min 8 (length payload + 1) - 2 ≡ length payload - 1 = omega arith in
    let fill : 8 - max 2 (min 8 (length payload + 1)) ≡ 7 - length payload = omega arith in
    rw (
      enter,
      split_loop_zero (length payload) payload (omega arith),
      split_loop_end (length payload) 1 (min 8 (length payload + 1) - 2) payload (omega arith),
      kept,
      fill,
    )

oversize_frames :
    (payload : List ℕ) → 255 < length payload → split_frames 1 payload ≡ ([], err value_error)
unfolding split_frames split_loop split_frame
oversize_frames payload over =
    let enter : length payload + 1 ≡ suc (length payload) = omega arith in
    rw (enter, lt→ltb 255 (length payload) over, lt→ltb 0 (length payload + 1) (omega arith))

-- A payload of more than 255 bytes is refused before any frame, and the PGN stays in use: every
-- later split of it, of whatever payload, is refused too.
pub split_message_oversize :
    (h : FastPacketHandler) (pgn : ℕ) (payload later : List ℕ)
    → get h.write_sequences pgn ≡ none
    → 255 < length payload
    → ((split_message h pgn payload).0 ≡ ([], err value_error))
      × ((split_message (split_message h pgn payload).1 pgn later).0 ≡ ([], err value_error))
unfolding split_message allocate_seq
split_message_oversize h pgn payload later free over =
    ground (arith, oversize_frames payload, get-put_self h.write_sequences pgn 1)
