-- ===== src/FastPacket/Packet.antt =====
-- The class `FastPacket`: one sequence under reassembly.
use navigation_server.Base.{
  ℕ, zero, suc, ◌+◌, ◌-◌, ◌*◌, ◌/◌, ◌%◌, bit_and, Bool, false, ◌||◌, ◌&&◌, none, some, List, [],
  ◌++◌, if◌then◌else◌, ltb, leb, ◌==◌, length, get_elem?, take, drop, replicate, Dict, get, put,
  Result, ok, err, index_error, fast_packet_duplicate, fast_packet_missing,
}
use navigation_server.Base.Bits.{◌<<◌}

pub record FastPacket : Type 0 where
  pub key : ℕ
  pub source : ℕ
  pub seq : ℕ
  pub byte_length : ℕ
  pub rx_length : ℕ
  pub pgn : ℕ
  pub frames : Dict (List ℕ)
  pub count : ℕ
  pub nbframes : ℕ
  pub timestamp : ℕ

unfoldable pub compute_key : ℕ → ℕ → ℕ → ℕ
compute_key pgn addr seq = pgn + (addr << 20) + (seq << 28)

-- `FastPacket(pgn, addr, seq)` at the time `now`
unfoldable pub new_packet : ℕ → ℕ → ℕ → ℕ → FastPacket
new_packet now pgn addr seq = record {
  key = compute_key pgn addr seq;
  source = addr;
  seq = seq;
  byte_length = 0;
  rx_length = 0;
  pgn = pgn;
  frames = [];
  count = 0;
  nbframes = 0;
  timestamp = now;
}

-- The value of `nb7 + 1` for a byte length. `l7` is negative below 6: there `int(l7 / 7)` is 0 and
-- `l7 % 7` is not 0.
unfoldable pub count_frames : ℕ → ℕ
count_frames byte_length =
    let l7 = byte_length - 6 in
    let nb7 = if ltb byte_length 6 then 1 else if l7 % 7 == 0 then l7 / 7 else l7 / 7 + 1 in nb7 + 1

-- Raises before its first write, so no state comes back with the error. So does `add_packet`.
unfoldable pub first_packet : FastPacket → List ℕ → Result FastPacket
unfolding count_frames
first_packet p frame = elim (get_elem? frame 1) [
  | none ↦ err index_error
  | some total ↦ ok (record p {
    byte_length = total;
    nbframes = count_frames total;
    rx_length = p.rx_length + 6;
    frames = put p.frames 0 (drop 2 frame);
    count = p.count + 1;
  })
]

add_at : FastPacket → ℕ → List ℕ → Result FastPacket
add_at p counter frame = elim (get p.frames counter) [
  | some _ ↦ err (fast_packet_duplicate counter)
  | none ↦ ok (record p {
    frames = put p.frames counter (drop 1 frame);
    count = p.count + 1;
    rx_length = p.rx_length + (length frame - 1);
  })
]

unfoldable pub add_packet : FastPacket → List ℕ → Result FastPacket
unfolding add_at
add_packet p frame = elim (get_elem? frame 0) [
  | none ↦ err index_error
  | some b ↦ add_at p (bit_and b 0x1f) frame
]

unfoldable pub check_complete : FastPacket → Bool
check_complete p =
    if p.nbframes == 0 then false else leb p.byte_length p.rx_length || leb p.nbframes p.count

-- Python's `f[:a - b]`: a negative bound counts from the end.
unfoldable pub slice_to : ℕ → ℕ → List ℕ → List ℕ
slice_to a b f = if leb b a then take (a - b) f else take (length f - (b - a)) f

-- The loop of `total_frame`, with `left` rounds to go. `result[i:] = f` replaces the whole tail.
unfoldable pub total_loop : FastPacket → ℕ → ℕ → ℕ → List ℕ → Result (List ℕ)
unfolding slice_to
total_loop p zero i start_idx result = ok result
total_loop p (suc left) i start_idx result = elim (get p.frames i) [
  | none ↦ err (fast_packet_missing i)
  | some f ↦ total_loop p left (i + 1) (start_idx + length f) (
      take start_idx result
      ++ (if leb p.byte_length (start_idx + length f)
          then slice_to (p.byte_length + 1) start_idx f
          else f))
]

unfoldable pub total_frame : FastPacket → Result (List ℕ)
unfolding total_loop
total_frame p = total_loop p p.nbframes 0 0 (replicate p.byte_length 0)

-- `time.time() - self._timestamp < 0.01 * self._nbframes`, in milliseconds
unfoldable pub check_validity : FastPacket → ℕ → Bool
check_validity p now = ltb 0 p.nbframes && ltb (now - p.timestamp) (10 * p.nbframes)
