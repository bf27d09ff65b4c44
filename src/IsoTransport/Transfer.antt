-- ===== src/IsoTransport/Transfer.antt =====
-- The class `IsoTransportTransaction`.
use navigation_server.Base.{
  ℕ, zero, suc, ◌+◌, ◌-◌, ◌*◌, ◌/◌, ◌%◌, max, bit_and, bit_or, Bool, true, false, ◌||◌, Option,
  none, some, List, [], ◌∷◌, ◌++◌, if◌then◌else◌, ltb, leb, ◌==◌, length, get_elem?, take, drop,
  replicate, set, Result, ok, err, ◌>>=◌, index_error, struct_error, iso_transport,
}
use navigation_server.Base.Bits.{◌<<◌, ◌>>◌}
use navigation_server.Pgn.{pgn_pdu1_adjust}
use navigation_server.Message.{N2kMsg, new_msg}

pub data TpState : Type 0 where
  created announced in_transmission ended : TpState

pub record Transaction : Type 0 where
  pub pgn : ℕ
  pub total_size : ℕ
  pub nb_packets : ℕ
  pub state : TpState
  pub transmitted_packets : ℕ
  pub buffer : List ℕ
  pub start_time : ℕ
  pub sa : ℕ
  pub prio : ℕ

-- `IsoTransportTransaction()`; the slots that it leaves unset are written before they are read.
abbrev pub new_transaction_object : Transaction
new_transaction_object = record {
  pgn = 0;
  total_size = 0;
  nb_packets = 0;
  state = created;
  transmitted_packets = 0;
  buffer = [];
  start_time = 0;
  sa = 0;
  prio = 0;
}

-- The receiving side of `_bam_struct`, "<BHBBHB": eight bytes, little endian.
abbrev pub bam_fields : ℕ → ℕ → ℕ → List ℕ → Transaction → Result Transaction
bam_fields now sa prio (control ∷ s0 ∷ s1 ∷ nb ∷ ff ∷ p0 ∷ p1 ∷ p2 ∷ []) t = ok (record t {
  sa = sa;
  prio = prio;
  total_size = s0 + 256 * s1;
  nb_packets = nb;
  pgn = (pgn_pdu1_adjust (bit_or (p0 + 256 * p1) (p2 << 16))).0;
  state = in_transmission;
  buffer = replicate (s0 + 256 * s1) 0;
  start_time = now;
})
bam_fields now sa prio _ t = err struct_error

-- The timer that the method creates is never started.
unfoldable pub incoming_bam_transaction : ℕ → ℕ → ℕ → List ℕ → Transaction → Result Transaction
incoming_bam_transaction now sa prio frame t = elim (get_elem? frame 0) [
  | none ↦ err index_error
  | some b ↦ if b == 32 then bam_fields now sa prio frame t else err iso_transport
]

-- Python's `buffer[start:stop] = new`, with bounds from the left: a stop before the start counts
-- as the start.
unfoldable pub set_slice : ℕ → ℕ → List ℕ → List ℕ → List ℕ
set_slice start stop new buffer = take start buffer ++ (new ++ drop (max start stop) buffer)

-- Python's `frame[1:a - b]`: a negative bound counts from the end.
unfoldable pub slice_from_one : ℕ → ℕ → List ℕ → List ℕ
slice_from_one a b frame =
    drop 1 (if leb b a then take (a - b) frame else take (length frame - (b - a)) frame)

-- `buffer[ptr:ptr + length] = frame[1:length + 1]` for `ptr = (seq_num - 1) * 7`; the length is
-- `total_size - ptr`, negative behind the end, where the buffer would go beyond its size. For the
-- number 0 `ptr` is -7, and the seven bytes are put in seven bytes before the end.
unfoldable pub store_packet : ℕ → ℕ → List ℕ → List ℕ → List ℕ
unfolding set_slice slice_from_one
store_packet total_size zero frame buffer =
    set_slice (length buffer - 7) 0 (slice_from_one 8 0 frame) buffer
store_packet total_size (suc n) frame buffer =
    let ptr = n * 7 in
    if ltb total_size (ptr + 7)
    then set_slice ptr total_size (slice_from_one (total_size + 1) ptr frame) buffer
    else set_slice ptr (ptr + 7) (slice_from_one 8 0 frame) buffer

abbrev pub in_transmission? : TpState → Bool
in_transmission? in_transmission = true
in_transmission? _ = false

-- `now` is read by the constructor of the message when the start time is 0. A raise comes before
-- the first write.
unfoldable pub incoming_packet : ℕ → List ℕ → Transaction → Result (Option N2kMsg × Transaction)
unfolding store_packet
incoming_packet now frame t =
    if in_transmission? t.state
    then elim (get_elem? frame 0) [
      | none ↦ err index_error
      | some seq_num ↦
          let t' = record t {
            buffer = store_packet t.total_size seq_num frame t.buffer;
            transmitted_packets = t.transmitted_packets + 1;
          } in
          if t'.transmitted_packets == t'.nb_packets
          then (do
            msg ← new_msg now t'.pgn t'.prio t'.sa 255 (some t'.buffer) t'.start_time
            ok (some msg, record t' { state = ended }))
          else ok (none, t')
    ]
    else err iso_transport

-- The callback of the timer.
unfoldable pub timer_lapse : Transaction → Transaction
timer_lapse t = record t { state = ended }

-- `pack_into` with "<BHBBHB" refuses a size above 65535 and a count above 255.
unfoldable pub outgoing_bam_transaction : ℕ → N2kMsg → Transaction → Result (N2kMsg × Transaction)
outgoing_bam_transaction now msg t =
    let total = length msg.payload in
    let nb = if total % 7 == 0 then total / 7 else total / 7 + 1 in
    let pgn_low = bit_and msg.pgn 0xFFFF in
    let pgn_up = bit_and (msg.pgn >> 16) 0xFF in
    if ltb 65535 total || ltb 255 nb then err struct_error else do
      let payload =
          32
          ∷ (total % 256)
          ∷ (total / 256)
          ∷ nb
          ∷ 0xFF
          ∷ (pgn_low % 256)
          ∷ (pgn_low / 256)
          ∷ pgn_up
          ∷ []
      bam ← new_msg now 60416 7 msg.sa 255 (some payload) 0
      ok (bam, record t { total_size = total; buffer = msg.payload; nb_packets = nb })

-- The generator `split_message`: the value of the one buffer at each yield, with `left` packets to go. The last
-- packet writes 0xFF at the two indices `l` and 7, and leaves what is between them.
unfoldable pub last_packet : Transaction → ℕ → List ℕ → List ℕ
unfolding set_slice set
last_packet t ptr frame =
    let l = t.total_size - ptr in
    let filled = set_slice 1 (l + 1) (drop ptr t.buffer) frame in
    if l == 7 then filled else set (set filled l 0xFF) 7 0xFF

unfoldable pub split_loop : Transaction → ℕ → ℕ → ℕ → List ℕ → List (List ℕ)
unfolding last_packet
split_loop t zero seq_num ptr frame = []
split_loop t (suc zero) seq_num ptr frame = last_packet t ptr (set frame 0 seq_num) ∷ []
split_loop t (suc (suc left)) seq_num ptr frame =
    let frame' = take 1 (set frame 0 seq_num) ++ take 7 (drop ptr t.buffer) in
    frame' ∷ split_loop t (suc left) (seq_num + 1) (ptr + 7) frame'

unfoldable pub split_message : Transaction → List (List ℕ)
unfolding split_loop
split_message t = split_loop t t.nb_packets 1 0 (replicate 8 0)
