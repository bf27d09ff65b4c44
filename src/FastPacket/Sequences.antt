-- ===== src/FastPacket/Sequences.antt =====
-- The table of open sequences: who writes where, when a sequence ends, and garbage collection.
use navigation_server.Base.{
  ℕ, ◌<◌, ◌≡◌, ◌≢◌, ◌∙◌, none, some, List, [], ◌∷◌, arith, fast_packet_first, get-put_ne, ==_iff,
  get, put, remove, put-put, remove-put, ◌^◌, get-put, get-remove, ok, err, fast_packet_missing,
  fast_packet_duplicate, ◌==◌, inl, inr, Bool-cases, Option-cases,
}
use navigation_server.FastPacket.Packet.{
  FastPacket, compute_key, new_packet, first_packet, add_packet, check_complete, total_frame,
}
use navigation_server.FastPacket.Handler.{
  FastPacketHandler, process_frame, dispatch, receive, settle, seq_of, counter_of,
}

-- Two sequences have the same key only if they have the same PGN, source address and number.
pub compute_key_injective :
    (pgn addr seq pgn' addr' seq' : ℕ)
    → pgn < 2 ^ 20
    → pgn' < 2 ^ 20
    → addr < 256
    → addr' < 256
    → compute_key pgn addr seq ≡ compute_key pgn' addr' seq'
    → (pgn ≡ pgn') × (addr ≡ addr') × (seq ≡ seq')
unfolding compute_key
compute_key_injective pgn addr seq pgn' addr' seq' lp lp' la la' e = omega arith

settle_others :
    (h : FastPacketHandler) (k j : ℕ) (p : FastPacket)
    → k ≢ j
    → get (settle h k p).1.sequences j ≡ get h.sequences j
unfolding settle
settle_others h k j p ne =
    ground (arith, get-put h.sequences k j p, get-remove (put h.sequences k p) k j)

receive_others :
    (h : FastPacketHandler) (k j : ℕ) (p : FastPacket) (counter : ℕ) (frame : List ℕ)
    → k ≢ j
    → get (receive h k p counter frame).1.sequences j ≡ get h.sequences j
unfolding receive
receive_others h k j p counter frame ne = grind (arith, settle_others, get-remove h.sequences k j)

module _ (h : FastPacketHandler) (now pgn addr seq counter : ℕ) (frame : List ℕ) where
  abbrev pub key : ℕ
  key = compute_key pgn addr seq

  -- The handler after `allocate_handle`.
  abbrev pub allocated : FastPacketHandler
  allocated = record h { sequences = put h.sequences key (new_packet now pgn addr seq) }

  pub dispatch_known :
      (handle : FastPacket)
      → get h.sequences key ≡ some handle
      → dispatch h now pgn addr seq counter frame ≡ receive h key handle counter frame
  unfolding dispatch
  dispatch_known handle found = ground arith

  pub dispatch_first :
      get h.sequences key ≡ none
      → counter ≡ 0
      → dispatch h now pgn addr seq counter frame
        ≡ receive allocated key (new_packet now pgn addr seq) counter frame
  unfolding dispatch
  dispatch_first absent first = ground arith

  pub dispatch_wrong_first :
      get h.sequences key ≡ none
      → counter ≢ 0
      → dispatch h now pgn addr seq counter frame ≡ (err (fast_packet_first counter), h)
  unfolding dispatch
  dispatch_wrong_first absent late = ground arith

  dispatch_others :
      (j : ℕ)
      → key ≢ j
      → get (dispatch h now pgn addr seq counter frame).1.sequences j ≡ get h.sequences j
  dispatch_others j ne = elim (Option-cases (get h.sequences key)) [
    | inr (handle, found) ↦
        rw (dispatch_known handle found) (receive_others h key j handle counter frame ne)
    | inl absent ↦ elim (Bool-cases (counter == 0)) [
      | inl first ↦
          let fresh = new_packet now pgn addr seq in
          rw (dispatch_first absent ((==_iff counter 0).0 first)) (
            receive_others allocated key j fresh counter frame ne
            ∙ get-put_ne h.sequences key j fresh ne)
      | inr late ↦ rw (dispatch_wrong_first absent (ground arith))
    ]
  ]

-- A frame writes to the sequence of its own key and to no other.
pub process_frame_others :
    (h : FastPacketHandler) (now pgn addr b : ℕ) (rest : List ℕ) (j : ℕ)
    → compute_key pgn addr (seq_of b) ≢ j
    → get (process_frame h now pgn addr (b ∷ rest)).1.sequences j ≡ get h.sequences j
unfolding process_frame
process_frame_others h now pgn addr b rest j ne =
    dispatch_others h now pgn addr (seq_of b) (counter_of b) (b ∷ rest) j ne

-- The packet after a first frame that announces `total` bytes, fewer than six.
abbrev short_packet : ℕ → ℕ → ℕ → ℕ → ℕ → List ℕ → FastPacket
short_packet now pgn addr seq total rest = record (new_packet now pgn addr seq) {
  byte_length = total;
  nbframes = 2;
  rx_length = 6;
  frames = (0, rest) ∷ [];
  count = 1;
}

settle_short :
    (h : FastPacketHandler) (key now pgn addr seq total : ℕ) (rest : List ℕ)
    → get h.sequences key ≡ none
    → total < 6
    → settle
        (record h { sequences = put h.sequences key (new_packet now pgn addr seq) })
        key
        (short_packet now pgn addr seq total rest)
      ≡ (err (fast_packet_missing 1), h)
unfolding settle check_complete total_frame new_packet get
settle_short h key now pgn addr seq total rest absent low =
    rw
      (
        put-put h.sequences key (new_packet now pgn addr seq)
            (short_packet now pgn addr seq total rest),
        remove-put h.sequences key (short_packet now pgn addr seq total rest) absent,
      )
      (ground arith)

-- A first frame that announces fewer than six bytes ends its sequence by the missing frame 1, for
-- two frames are expected and one is enough for the length. The table is as before.
pub process_frame_short :
    (h : FastPacketHandler) (now pgn addr b total : ℕ) (rest : List ℕ)
    → counter_of b ≡ 0
    → get h.sequences (compute_key pgn addr (seq_of b)) ≡ none
    → total < 6
    → process_frame h now pgn addr (b ∷ total ∷ rest) ≡ (err (fast_packet_missing 1), h)
unfolding process_frame
process_frame_short h now pgn addr b total rest first absent low =
    dispatch_first h now pgn addr (seq_of b) (counter_of b) (b ∷ total ∷ rest) absent first
    ∙ started (counter_of b) first
    ∙ settle_short h (compute_key pgn addr (seq_of b)) now pgn addr (seq_of b) total rest absent low
  where
    begun :
        first_packet (new_packet now pgn addr (seq_of b)) (b ∷ total ∷ rest)
        ≡ ok (short_packet now pgn addr (seq_of b) total rest)
    begun = unfold first_packet new_packet put in ground arith

    started :
        (counter : ℕ)
        → counter ≡ 0
        → receive
            (allocated h now pgn addr (seq_of b) (counter_of b) (b ∷ total ∷ rest))
            (compute_key pgn addr (seq_of b))
            (new_packet now pgn addr (seq_of b))
            counter
            (b ∷ total ∷ rest)
          ≡ settle
              (allocated h now pgn addr (seq_of b) (counter_of b) (b ∷ total ∷ rest))
              (compute_key pgn addr (seq_of b))
              (short_packet now pgn addr (seq_of b) total rest)
    started counter zero_counter = unfold receive in ground (arith, begun)

-- A frame whose number is already there drops the whole sequence, and raises.
pub process_frame_duplicate :
    (h : FastPacketHandler) (now pgn addr b : ℕ) (rest old : List ℕ) (p : FastPacket)
    → counter_of b ≢ 0
    → get h.sequences (compute_key pgn addr (seq_of b)) ≡ some p
    → get p.frames (counter_of b) ≡ some old
    → process_frame h now pgn addr (b ∷ rest) ≡ (
      err (fast_packet_duplicate (counter_of b)),
      record h { sequences = remove h.sequences (compute_key pgn addr (seq_of b)) },
    )
unfolding process_frame counter_of
process_frame_duplicate h now pgn addr b rest old p later found there =
    dispatch_known h now pgn addr (seq_of b) (counter_of b) (b ∷ rest) p found
    ∙ unfold receive add_packet in ground arith
