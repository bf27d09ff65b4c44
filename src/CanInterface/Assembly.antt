-- ===== src/CanInterface/Assembly.antt =====
-- A message in several frames, from the sender to the receiver.
use navigation_server.Base.{
  ℕ, zero, suc, ◌+◌, ◌/◌, ◌≤◌, ◌≡◌, ◌≢◌, refl, ap, sym, ◌∙◌, Bool, true, false, none, some, List,
  [], ◌∷◌, ◌++◌, arith, length, replicate, map, contains, Result, ok, get,
}
use navigation_server.Pgn.{fast_packet_check}
use navigation_server.Message.{N2kMsg, new_msg}
use navigation_server.FastPacket.{
  FastPacketHandler, process_frame, is_pgn_active, compute_key, split_message, split_frames,
}
use navigation_server.FastPacket.Sending.{feed, feed_all, IsFree, split_message-eq}
use navigation_server.FastPacket.Reception.{trailing}
use navigation_server.FastPacket.Frames.{AllEight, split_frames-AllEight}
use navigation_server.CanInterface.Interface.{CanFrame, CanInterface, offer, is_full}
use navigation_server.CanInterface.Receive.{process_receive_msg, receive_data, assemble}
use navigation_server.CanInterface.Ids.{Fits, seen_da}
use navigation_server.CanInterface.Delivery.{
  frame_of, counted, arrived, offer_room, process_receive_msg-data,
}

-- A receiver's results for frames in turn, all at one time.
abbrev pub receive_all :
    (ℕ → Result Bool)
    → CanInterface
    → ℕ
    → ℕ
    → List CanFrame
    → List (Result (Unit {0})) × CanInterface
receive_all defined r wall mono [] = ([], r)
receive_all defined r wall mono (f ∷ fs) =
    let one = process_receive_msg defined r wall mono f in
    let rest = receive_all defined one.1 wall mono fs in (one.0 ∷ rest.0, rest.1)

-- A receiver after `n` frames of a fast packet.
abbrev pub assembling : CanInterface → ℕ → FastPacketHandler → CanInterface
assembling r n h = record r { total_msg_in = r.total_msg_in + n; fp_handler = h }

is_pgn_active_total :
    (h : FastPacketHandler) (pgn sa : ℕ) (frame : List ℕ)
    → length frame ≡ 8
    → (active : Bool) × (is_pgn_active h pgn sa frame ≡ ok active)
unfolding is_pgn_active
is_pgn_active_total h pgn sa [] size = absurd (omega arith)
is_pgn_active_total h pgn sa (b ∷ frame) size = (_, refl)

-- The parts of a list of results.
abbrev first_or {ℓ} : {A : Type ℓ} → A → List A → A
first_or a [] = a
first_or a (x ∷ xs) = x

abbrev others {ℓ} : {A : Type ℓ} → List A → List A
others [] = []
others (x ∷ xs) = xs

no_result {ℓ} : {A : Type ℓ} {x : A} {xs : List A} → ([] ≡ x ∷ xs) → ⊥
no_result e = cc

module _ (defined : ℕ → Result Bool) (wall mono : ℕ) (m : N2kMsg) (fits : Fits m)
    (no_announcement : m.pgn ≢ 60416) (no_packet : m.pgn ≢ 60160)
    (fast : fast_packet_check defined m.pgn ≡ ok true) where
  -- Whether the sequence is open or not, the frame goes to the fast packet handler.
  process_receive_msg-assemble :
      (r : CanInterface) (frame : List ℕ)
      → contains r.addresses (seen_da m) ≡ true
      → length frame ≡ 8
      → process_receive_msg defined r wall mono (frame_of m frame)
        ≡ assemble (counted r) wall m.pgn m.prio m.sa (seen_da m) frame
  unfolding receive_data
  process_receive_msg-assemble r frame accepted size =
      let (active, is_active) = is_pgn_active_total r.fp_handler m.pgn m.sa frame size in
      process_receive_msg-data defined r wall mono m fits frame accepted no_announcement no_packet
      ∙ go active is_active
    where
      go :
          (active : Bool)
          → is_pgn_active r.fp_handler m.pgn m.sa frame ≡ ok active
          → receive_data defined (counted r) wall m.pgn m.prio m.sa (seen_da m) frame
            ≡ assemble (counted r) wall m.pgn m.prio m.sa (seen_da m) frame
      go true e = rw (e, receive_data)
      go false e = rw (e, fast, receive_data)

  assemble-none :
      (r : CanInterface) (frame : List ℕ) (h : FastPacketHandler)
      → contains r.addresses (seen_da m) ≡ true
      → length frame ≡ 8
      → process_frame r.fp_handler wall m.pgn m.sa frame ≡ (ok none, h)
      → process_receive_msg defined r wall mono (frame_of m frame) ≡ (ok tt, assembling r 1 h)
  unfolding assemble
  assemble-none r frame h accepted size nothing =
      let after : (process_frame r.fp_handler wall m.pgn m.sa frame).1 ≡ h =
        ap (λ p. p.1) nothing in
      rw (process_receive_msg-assemble r frame accepted size, nothing, assemble, after)

  assemble-some :
      (r : CanInterface) (frame payload : List ℕ) (h : FastPacketHandler)
      → contains r.addresses (seen_da m) ≡ true
      → length frame ≡ 8
      → process_frame r.fp_handler wall m.pgn m.sa frame ≡ (ok (some payload), h)
      → process_receive_msg defined r wall mono (frame_of m frame)
        ≡ (ok tt, offer (assembling r 1 h) (arrived m wall payload))
  unfolding assemble new_msg
  assemble-some r frame payload h accepted size all =
      let after : (process_frame r.fp_handler wall m.pgn m.sa frame).1 ≡ h = ap (λ p. p.1) all in
      rw (process_receive_msg-assemble r frame accepted size, all, assemble, after)

  receive_all-feed :
      (n : ℕ) (r : CanInterface) (frames : List (List ℕ)) (payload : List ℕ) (h : FastPacketHandler)
      → contains r.addresses (seen_da m) ≡ true
      → AllEight frames
      → feed r.fp_handler wall m.pgn m.sa frames
        ≡ (replicate n (ok none) ++ ok (some payload) ∷ [], h)
      → receive_all defined r wall mono (map (frame_of m) frames)
        ≡ (replicate (suc n) (ok tt), offer (assembling r (suc n) h) (arrived m wall payload))
  unfolding feed
  receive_all-feed zero r [] payload h accepted eight e = absurd (no_result (ap (λ p. p.0) e))
  receive_all-feed (suc n) r [] payload h accepted eight e = absurd (no_result (ap (λ p. p.0) e))
  receive_all-feed zero r (f ∷ g ∷ fs) payload h accepted eight e =
      absurd (no_result (sym (ap (λ p. others p.0) e)))
  receive_all-feed zero r (f ∷ []) payload h accepted (size, eight) e =
      rw (assemble-some r f payload h accepted size (ap (λ p. (first_or (ok none) p.0, p.1)) e))
  receive_all-feed (suc n) r (f ∷ fs) payload h accepted (size, eight) e =
      let one = process_frame r.fp_handler wall m.pgn m.sa f in
      let result : one ≡ (ok none, one.1) = ap (λ p. (first_or (ok none) p.0, one.1)) e in
      let rest : feed one.1 wall m.pgn m.sa fs
          ≡ (replicate n (ok none) ++ ok (some payload) ∷ [], h) =
        ap (λ p. (others p.0, p.1)) e in
      let count : r.total_msg_in + 1 + suc n ≡ r.total_msg_in + suc (suc n) = omega arith in
      rw (
        assemble-none r f one.1 accepted size result,
        receive_all-feed n (assembling r 1 one.1) fs payload h accepted eight rest,
        count,
      )

-- A message of 7 to 223 bytes with a fast packet PGN, whose fields fit in an identifier, split by a
-- sender that is not splitting this PGN. A receiver that accepts the destination, has no open sequence 1 of
-- this PGN and source, and has room in the queue of the application takes all its frames without
-- error, puts one message at the end of that queue, with the payload and the trailing byte, and is
-- otherwise as before but for its count of frames.
pub receive_all-split_message :
    (defined : ℕ → Result Bool) (sender : FastPacketHandler) (r : CanInterface) (wall mono : ℕ)
    (m : N2kMsg)
    → Fits m
    → m.pgn ≢ 60416
    → m.pgn ≢ 60160
    → fast_packet_check defined m.pgn ≡ ok true
    → IsFree sender m.pgn
    → contains r.addresses (seen_da m) ≡ true
    → get r.fp_handler.sequences (compute_key m.pgn m.sa 1) ≡ none
    → 7 ≤ length m.payload
    → length m.payload ≤ 223
    → is_full r.queue_size (length r.queue) ≡ false
    → receive_all defined r wall mono (map (frame_of m) (split_message sender m.pgn m.payload).0.0)
      ≡ (
        replicate (suc (length m.payload / 7)) (ok tt),
        record r {
          total_msg_in = r.total_msg_in + suc (length m.payload / 7);
          queue = r.queue ++ arrived m wall (m.payload ++ trailing m.payload) ∷ [];
        },
      )
receive_all-split_message defined sender r wall mono m fits no_announcement no_packet fast free
      accepted absent low high room =
    rw (split_message-eq sender m.pgn m.payload free ((split_frames-AllEight m.payload high).2)) (
      receive_all-feed defined wall mono m fits no_announcement no_packet fast
        (length m.payload / 7) r (split_frames 1 m.payload).0 (m.payload ++ trailing m.payload)
        r.fp_handler accepted (split_frames-AllEight m.payload high).0
        (feed_all r.fp_handler wall m.pgn m.sa m.payload absent low high)
      ∙ rw
          (offer_room (record r { total_msg_in = r.total_msg_in + suc (length m.payload / 7) })
            (arrived m wall (m.payload ++ trailing m.payload)) room)
          refl)
