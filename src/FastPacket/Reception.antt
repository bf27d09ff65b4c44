-- ===== src/FastPacket/Reception.antt =====
-- Reassembly of a payload of 7 to 223 bytes from the frames that `split_message` yields, in order.
use navigation_server.Base.{
  ℕ, zero, suc, ◌+◌, ◌-◌, ◌*◌, ◌/◌, ◌%◌, ◌≤◌, ◌<◌, min, ◌≡◌, ◌≢◌, ==_iff, ==_ne, refl, ap, ◌∙◌,
  true, false, none, some, List, [], ◌∷◌, ◌++◌, arith, length, take, drop, replicate, length-take,
  length-drop, ◌==◌, if◌then◌else◌, get, put, get-put, append-nil, take-drop, take_all,
  take-append-drop, append_assoc, take-append_right, ok,
}
use navigation_server.FastPacket.Packet.{
  FastPacket, new_packet, first_packet, add_packet, check_complete, total_loop, total_frame,
}
use navigation_server.FastPacket.Stream.{body, length-body}
use navigation_server.Base.Bits.{and_low_mask}

-- What a reassembled payload has behind its bytes: `total_frame` takes one byte too many of the
-- last frame, the first filling byte, unless the payload fills that frame.
abbrev pub trailing : List ℕ → List ℕ
trailing payload = if length payload % 7 == 6 then [] else 0xFF ∷ []

-- The packet `p` has taken the first `k` frames of `payload`.
pub record Holds (payload : List ℕ) (k : ℕ) (p : FastPacket) : Type 0 where
  pub announced : p.byte_length ≡ length payload
  pub expected : p.nbframes ≡ length payload / 7 + 1
  pub counted : p.count ≡ k
  pub received : p.rx_length ≡ 7 * k - 1
  pub first : get p.frames 0 ≡ some (take 6 payload)
  pub later : (i : ℕ) → 0 < i → i < k → get p.frames i ≡ some (body payload i)
  pub fresh : (i : ℕ) → k ≤ i → get p.frames i ≡ none

pub first_packet-Holds :
    (now pgn addr seq : ℕ) (payload : List ℕ)
    → 7 ≤ length payload
    → (p : FastPacket) × (first_packet
          (new_packet now pgn addr seq)
          (32 ∷ length payload ∷ take 6 payload)
        ≡ ok p)
      × Holds payload 1 p
unfolding first_packet new_packet get put
first_packet-Holds now pgn addr seq payload low = (
  record (new_packet now pgn addr seq) {
    byte_length = length payload;
    nbframes = length payload / 7 + 1;
    rx_length = 6;
    frames = (0, take 6 payload) ∷ [];
    count = 1;
  },
  ground arith,
  record {
    announced = refl;
    expected = refl;
    counted = refl;
    received = omega arith;
    first = refl;
    later = λ i lo hi. absurd (omega arith);
    fresh = λ i le. ground arith;
  },
)

module _ (payload : List ℕ) (k : ℕ) (p : FastPacket) (pos : 0 < k) (low : k < 32)
    (h : Holds payload k p) where
  abbrev grown : FastPacket
  grown = record p {
    frames = put p.frames k (body payload k);
    count = p.count + 1;
    rx_length = p.rx_length + 7;
  }

  add_packet-eq : add_packet p ((32 + k) ∷ body payload k) ≡ ok grown
  unfolding add_packet
  add_packet-eq = ground (arith, and_low_mask 5 (32 + k), h.fresh k, length-body payload k)

  grown-Holds : Holds payload (k + 1) grown
  grown-Holds = record {
    announced = h.announced;
    expected = h.expected;
    counted = omega (arith, h.counted);
    received = omega (arith, h.received);
    first = ground (arith, get-put p.frames k 0 (body payload k), h.first);
    later = λ i lo hi. ground (arith, get-put p.frames k i (body payload k), h.later i);
    fresh = λ i le. ground (arith, get-put p.frames k i (body payload k), h.fresh i);
  }

-- One more frame in order is taken.
pub add_packet-Holds :
    (payload : List ℕ) (k : ℕ) (p : FastPacket)
    → 0 < k
    → k < 32
    → Holds payload k p
    → (q : FastPacket) × (add_packet p ((32 + k) ∷ body payload k) ≡ ok q) × Holds payload (k + 1) q
add_packet-Holds payload k p pos low h = (
  grown payload k p pos low h,
  add_packet-eq payload k p pos low h,
  grown-Holds payload k p pos low h,
)

module _ (payload : List ℕ) (k : ℕ) (p : FastPacket) (h : Holds payload k p) (pos : 0 < k) where
  pub incomplete : 7 * k ≤ length payload → check_complete p ≡ false
  unfolding check_complete
  incomplete le = ground (arith, h.announced, h.expected, h.counted, h.received)

  pub complete : length payload < 7 * k → check_complete p ≡ true
  unfolding check_complete
  complete lt = ground (arith, h.announced, h.expected, h.counted, h.received)

-- A frame that more frames follow carries seven bytes of the payload.
body_full :
    (payload : List ℕ) (i : ℕ)
    → 7 * (i + 1) ≤ length payload
    → body payload i ≡ take 7 (drop (7 * i - 1) payload)
body_full payload i le =
    let seven : min 7 (length payload - (7 * i - 1)) ≡ 7 = omega arith in
    let nothing : 7 - (length payload - (7 * i - 1)) ≡ 0 = omega arith in
    rw (seven, nothing, append-nil)

one_filling :
    (r n : ℕ)
    → (r ≡ 0 → n % 7 ≡ 6)
    → (0 < r → n % 7 ≢ 6)
    → take {A = ℕ} 1 (replicate r 0xFF) ≡ (if n % 7 == 6 then [] else 0xFF ∷ [])
one_filling zero n full more = rw ((==_iff (n % 7) 6).1 (full refl))
one_filling (suc r) n full more = rw (==_ne (n % 7) 6 (more (omega arith)))

-- What `total_frame` takes of the last frame.
body_last :
    (payload : List ℕ) (i : ℕ)
    → 0 < i
    → i ≡ length payload / 7
    → take (length payload + 1 - (7 * i - 1)) (body payload i)
      ≡ drop (7 * i - 1) payload ++ trailing payload
body_last payload i pos e =
    let s = 7 * i - 1 in
    let rest = length payload - s in
    let tail = drop s payload in
    let size : length tail ≡ rest = length-drop s payload in
    let whole : take (min 7 rest) tail ≡ tail = take_all (min 7 rest) tail (omega arith) in
    let bound : length payload + 1 - s ≡ length tail + 1 = omega arith in
    rw (whole, bound, take-append_right)
      (ap (λ l. tail ++ l) (one_filling (7 - rest) (length payload) (omega arith) (omega arith)))

total_run :
    (payload : List ℕ) (p : FastPacket) (left i : ℕ)
    → Holds payload (length payload / 7 + 1) p
    → 0 < i
    → i + left ≡ length payload / 7 + 1
    → 0 < left
    → total_loop p left i (7 * i - 1) (take (7 * i - 1) payload) ≡ ok (payload ++ trailing payload)
unfolding total_loop
total_run payload p zero i h pos e more = absurd (omega arith)
total_run payload p (suc zero) i h pos e more = ground (
  arith,
  h.later i,
  h.announced,
  length-body payload i,
  body_last payload i pos,
  take_all (7 * i - 1) (take (7 * i - 1) payload),
  length-take (7 * i - 1) payload,
  take-append-drop (7 * i - 1) payload,
  append_assoc (take (7 * i - 1) payload) (drop (7 * i - 1) payload) (trailing payload),
)
total_run payload p (suc (suc left)) i h pos e more = ground (
  arith,
  h.later i,
  h.announced,
  length-body payload i,
  body_full payload i,
  take_all (7 * i - 1) (take (7 * i - 1) payload),
  length-take (7 * i - 1) payload,
  take-drop (7 * i - 1) 7 payload,
  total_run payload p (suc left) (i + 1) h,
)

total_start :
    (payload : List ℕ) (p : FastPacket) (m : ℕ) (zeros : List ℕ)
    → 7 ≤ length payload
    → Holds payload (length payload / 7 + 1) p
    → m ≡ length payload / 7
    → total_loop p (suc m) 0 0 zeros ≡ ok (payload ++ trailing payload)
unfolding total_loop
total_start payload p m zeros low h e =
    ground (arith, h.first, h.announced, length-take 6 payload, total_run payload p m 1 h)

-- All frames taken, the packet gives the payload back, with the trailing byte.
pub total_frame-Holds :
    (payload : List ℕ) (p : FastPacket)
    → 7 ≤ length payload
    → Holds payload (length payload / 7 + 1) p
    → total_frame p ≡ ok (payload ++ trailing payload)
unfolding total_frame
total_frame-Holds payload p low h =
    ap (λ (n : ℕ). total_loop p n 0 0 (replicate p.byte_length 0)) counted_up
    ∙ total_start payload p (length payload / 7) (replicate p.byte_length 0) low h refl
  where
    counted_up : p.nbframes ≡ suc (length payload / 7)
    counted_up = omega (arith, h.expected)
