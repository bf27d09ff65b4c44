-- ===== src/FastPacket/Split.antt =====
-- The class `FastPacketHandler`, its sending side. `split_message` is a generator: here it is the
-- list of the frames that it yields, with how it ended.
use navigation_server.Base.{
  ℕ, zero, suc, ◌+◌, ◌-◌, ◌*◌, min, max, bit_or, Option, none, some, List, [], ◌∷◌, ◌++◌,
  if◌then◌else◌, ltb, ◌||◌, ◌&&◌, ◌==◌, length, take, drop, replicate, get, put, Result, ok, err,
  value_error,
}
use navigation_server.Base.Bits.{◌<<◌}
use navigation_server.FastPacket.Handler.{FastPacketHandler}

in_use : Option ℕ → ℕ
in_use none = 0
in_use (some seq) = seq

unfoldable pub allocate_seq : FastPacketHandler → ℕ → Result ℕ × FastPacketHandler
unfolding in_use
allocate_seq h pgn =
    if in_use (get h.write_sequences pgn) == 0
    then (ok 1, record h { write_sequences = put h.write_sequences pgn 1 })
    else (err value_error, h)

unfoldable pub free_seq : FastPacketHandler → ℕ → ℕ → FastPacketHandler
free_seq h pgn seq = record h { write_sequences = put h.write_sequences pgn 0 }

-- One round of the loop: the frame, and the data pointer after it. The inner loops write the bytes
-- from `ptr` up to `frame_len`, then 0xFF up to the eighth. A value above 255 is refused by
-- the `bytearray`.
unfoldable pub split_frame : ℕ → List ℕ → ℕ → ℕ → Result (List ℕ × ℕ)
split_frame seq_en payload counter data_ptr =
    let total_len = length payload in
    let frame_len = min 8 (total_len - data_ptr + 1) in
    let head = bit_or seq_en counter in
    let start = if counter == 0 then head ∷ total_len ∷ [] else head ∷ [] in
    let ptr = length start in
    if ltb 255 head || (counter == 0 && ltb 255 total_len)
    then err value_error
    else ok (
      start
          ++ (take (frame_len - ptr) (drop data_ptr payload)
              ++ replicate (8 - max ptr frame_len) 0xFF),
      data_ptr + (frame_len - ptr),
    )

-- `counter < (len(data) - 6) / 7 + 1`, multiplied by 7
unfoldable pub split_loop : ℕ → ℕ → List ℕ → ℕ → ℕ → List (List ℕ) × Result (Unit {0})
unfolding split_frame
split_loop zero seq_en payload counter data_ptr = ([], ok tt)
split_loop (suc fuel) seq_en payload counter data_ptr =
    if ltb (counter * 7) (length payload + 1)
    then elim (split_frame seq_en payload counter data_ptr) [
      | err e ↦ ([], err e)
      | ok (frame, data_ptr') ↦
          let (frames, outcome) = split_loop fuel seq_en payload (counter + 1) data_ptr' in
          (frame ∷ frames, outcome)
    ]
    else ([], ok tt)

unfoldable pub split_frames : ℕ → List ℕ → List (List ℕ) × Result (Unit {0})
unfolding split_loop
split_frames seq payload = split_loop (length payload + 1) (seq << 5) payload 0 0

-- The generator run to its end: the sequence is freed after the last frame, and stays in use if
-- the loop raises.
unfoldable pub split_message :
    FastPacketHandler → ℕ → List ℕ → (List (List ℕ) × Result (Unit {0})) × FastPacketHandler
split_message h pgn payload =
    let (allocated, h') = allocate_seq h pgn in
    elim allocated [
      | err e ↦ (([], err e), h')
      | ok seq ↦
          let (frames, outcome) = split_frames seq payload in
          ((frames, outcome), elim outcome [ ok _ ↦ free_seq h' pgn seq | err _ ↦ h' ])
    ]
