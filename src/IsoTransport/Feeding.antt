-- ===== src/IsoTransport/Feeding.antt =====
-- The packets of one sender, received in order.
use navigation_server.Base.{
  ℕ, zero, suc, ◌+◌, ◌-◌, ◌*◌, ◌≤◌, ◌<◌, min, max, ◌≡◌, ap, sym, ◌∙◌, Option, none, some, List, [],
  ◌∷◌, ◌++◌, arith, length, take, drop, replicate, length-take, drop-replicate, take-drop,
  take_front, drop_front, append_assoc, append-nil, ltb, inl, inr, Bool-cases, le→leb, Dict, get,
  put, put-put, remove-put, get-put_self, Result, ok, ◌>>=◌, take_all, ==_ne, ==_refl,
}
use navigation_server.Message.{N2kMsg, new_msg}
use navigation_server.IsoTransport.Transfer.{
  in_transmission, ended, Transaction, incoming_packet, store_packet,
}
use navigation_server.IsoTransport.Handler.{
  IsoTransportHandler, handler_incoming_packet, settle_packet,
}
use navigation_server.IsoTransport.Packets.{sent, length-sent, packets, Carries}

-- The buffer once `k` packets are in.
abbrev pub partly : List ℕ → ℕ → List ℕ
partly payload k = take (7 * k) (sent payload) ++ replicate (length payload - 7 * k) 0

store_packet-partly :
    (payload : List ℕ) (k : ℕ) (content : List ℕ)
    → 7 * k < length payload
    → length content ≡ 7
    → take (min 7 (length payload - 7 * k)) content ≡ take 7 (drop (7 * k) (sent payload))
    → store_packet (length payload) (suc k) ((k + 1) ∷ content) (partly payload k)
      ≡ partly payload (k + 1)
unfolding store_packet
store_packet-partly payload k content lt size bytes =
    let n = length payload in
    let front = take (7 * k) (sent payload) in
    let ptr : k * 7 ≡ 7 * k = omega arith in
    let length_front : length front ≡ 7 * k =
      omega (arith, length-take (7 * k) (sent payload), length-sent payload) in
    let joined : front ++ take 7 (drop (7 * k) (sent payload)) ≡ take (7 * (k + 1)) (sent payload) =
      take-drop (7 * k) 7 (sent payload) ∙ ap (λ (j : ℕ). take j (sent payload)) (omega arith) in
    elim (Bool-cases (ltb n (k * 7 + 7))) [
      | inl over ↦
          let stop : max (7 * k) n ≡ 7 * k + (n - 7 * k) = omega arith in
          let within : n + 1 - 7 * k ≡ suc (n - 7 * k) = omega arith in
          let width : min 7 (n - 7 * k) ≡ n - 7 * k = ground arith in
          let none_left : n - 7 * (k + 1) ≡ 0 = ground arith in
          let written : take (n - 7 * k) content ≡ take 7 (drop (7 * k) (sent payload)) =
            ap (λ (j : ℕ). take j content) (sym width) ∙ bytes in
          let gap : n - 7 * k - (n - 7 * k) ≡ 0 = omega arith in
          rw
            (
              over,
              ptr,
              le→leb (7 * k) (n + 1) (omega arith),
              within,
              written,
              stop,
              take_front (7 * k) front (replicate (n - 7 * k) 0) length_front,
              drop_front (7 * k) (n - 7 * k) front (replicate (n - 7 * k) 0) length_front,
              drop-replicate {A = ℕ} (n - 7 * k) (n - 7 * k) 0,
              gap,
              none_left,
              append-nil,
              append-nil,
            )
            joined
      | inr under ↦
          let stop : max (7 * k) (7 * k + 7) ≡ 7 * k + 7 = omega arith in
          let width : min 7 (n - 7 * k) ≡ 7 = ground arith in
          let left : n - 7 * k - 7 ≡ n - 7 * (k + 1) = omega arith in
          let written : take 7 content ≡ take 7 (drop (7 * k) (sent payload)) =
            ap (λ (j : ℕ). take j content) (sym width) ∙ bytes in
          rw
            (
              under,
              ptr,
              written,
              stop,
              take_front (7 * k) front (replicate (n - 7 * k) 0) length_front,
              drop_front (7 * k) 7 front (replicate (n - 7 * k) 0) length_front,
              drop-replicate {A = ℕ} 7 (n - 7 * k) 0,
              left,
            )
            (sym (
                append_assoc front (take 7 (drop (7 * k) (sent payload)))
                  (replicate (n - 7 * (k + 1)) 0))
              ∙ ap (λ (l : List ℕ). l ++ replicate (n - 7 * (k + 1)) 0) joined)
    ]

module _ (now start sa prio pgn : ℕ) (payload : List ℕ) where
  -- The transaction of the receiver when `k` packets of `payload` are in.
  abbrev pub in_progress : ℕ → Transaction
  in_progress k = record {
    pgn = pgn;
    total_size = length payload;
    nb_packets = packets (length payload);
    state = in_transmission;
    transmitted_packets = k;
    buffer = partly payload k;
    start_time = start;
    sa = sa;
    prio = prio;
  }

  -- The message that the receiver builds at the last packet.
  abbrev pub received : Result (Option N2kMsg)
  received = do m ← new_msg now pgn prio sa 255 (some (sent payload)) start; ok (some m)

  packet-next :
      (k : ℕ) (content : List ℕ)
      → k + 1 < packets (length payload)
      → length content ≡ 7
      → take (min 7 (length payload - 7 * k)) content ≡ take 7 (drop (7 * k) (sent payload))
      → incoming_packet now ((k + 1) ∷ content) (in_progress k) ≡ ok (none, in_progress (k + 1))
  unfolding incoming_packet
  packet-next k content lt size bytes =
      let next : k + 1 ≡ suc k = omega arith in
      let step : store_packet (length payload) (k + 1) ((k + 1) ∷ content) (partly payload k)
          ≡ partly payload (k + 1) =
        ap (λ (j : ℕ). store_packet (length payload) j ((k + 1) ∷ content) (partly payload k)) next
        ∙ store_packet-partly payload k content (ground arith) size bytes in
      rw (step, ==_ne (k + 1) (packets (length payload)) (omega arith))

  packet-last :
      (k : ℕ) (content : List ℕ)
      → k + 1 ≡ packets (length payload)
      → 0 < length payload
      → length content ≡ 7
      → take (min 7 (length payload - 7 * k)) content ≡ take 7 (drop (7 * k) (sent payload))
      → incoming_packet now ((k + 1) ∷ content) (in_progress k) ≡ (do
        m ← new_msg now pgn prio sa 255 (some (sent payload)) start
        ok (some m, record (in_progress (k + 1)) { state = ended; buffer = sent payload }))
  unfolding incoming_packet
  packet-last k content e some_byte size bytes =
      let next : k + 1 ≡ suc k = omega arith in
      let step : store_packet (length payload) (k + 1) ((k + 1) ∷ content) (partly payload k)
          ≡ partly payload (k + 1) =
        ap (λ (j : ℕ). store_packet (length payload) j ((k + 1) ∷ content) (partly payload k)) next
        ∙ store_packet-partly payload k content (ground arith) size bytes in
      let all : length payload ≤ 7 * (k + 1) = ground arith in
      let done : partly payload (k + 1) ≡ sent payload =
        let gap : length payload - 7 * (k + 1) ≡ 0 = omega arith in
        rw (
          take_all (7 * (k + 1)) (sent payload) (omega (arith, length-sent payload)),
          gap,
          append-nil,
        ) in
      rw (step, done, e, ==_refl (packets (length payload)))

-- What a handler makes of the packets of one sender, in order.
abbrev pub feed :
    IsoTransportHandler
    → ℕ
    → ℕ
    → List (List ℕ)
    → List (Result (Option N2kMsg)) × IsoTransportHandler
feed h now sa [] = ([], h)
feed h now sa (f ∷ fs) =
    let r = handler_incoming_packet h now sa f in
    let rest = feed r.1 now sa fs in (r.0 ∷ rest.0, rest.1)

handler_incoming_packet-get :
    (h : IsoTransportHandler) (now sa : ℕ) (frame : List ℕ) (t : Transaction)
    → get h.transactions sa ≡ some t
    → handler_incoming_packet h now sa frame ≡ settle_packet h sa (incoming_packet now frame t)
unfolding handler_incoming_packet
handler_incoming_packet-get h now sa frame t e = ground arith

module _ (now start sa prio pgn : ℕ) (payload : List ℕ) (some_byte : 0 < length payload)
    (d : Dict Transaction) (idle : get d sa ≡ none) where
  -- The handler while the transaction is open.
  abbrev pub open_handler : ℕ → IsoTransportHandler
  open_handler k = record { transactions = put d sa (in_progress now start sa prio pgn payload k) }

  handler-next :
      (k : ℕ) (content : List ℕ)
      → k + 1 < packets (length payload)
      → length content ≡ 7
      → take (min 7 (length payload - 7 * k)) content ≡ take 7 (drop (7 * k) (sent payload))
      → handler_incoming_packet (open_handler k) now sa ((k + 1) ∷ content)
        ≡ (ok none, open_handler (k + 1))
  handler-next k content lt size bytes =
      let t = in_progress now start sa prio pgn payload k in
      rw (
        handler_incoming_packet-get (open_handler k) now sa ((k + 1) ∷ content) t
            (get-put_self d sa t),
        packet-next now start sa prio pgn payload k content lt size bytes,
        put-put d sa t (in_progress now start sa prio pgn payload (k + 1)),
      )

  handler-last :
      (k : ℕ) (content : List ℕ)
      → k + 1 ≡ packets (length payload)
      → length content ≡ 7
      → take (min 7 (length payload - 7 * k)) content ≡ take 7 (drop (7 * k) (sent payload))
      → handler_incoming_packet (open_handler k) now sa ((k + 1) ∷ content)
        ≡ (received now start sa prio pgn payload, record { transactions = d })
  unfolding new_msg
  handler-last k content e size bytes =
      let t = in_progress now start sa prio pgn payload k in
      let t' = record (in_progress now start sa prio pgn payload (k + 1)) {
        state = ended;
        buffer = sent payload;
      } in
      rw (
        handler_incoming_packet-get (open_handler k) now sa ((k + 1) ∷ content) t
            (get-put_self d sa t),
        packet-last now start sa prio pgn payload k content e some_byte size bytes,
        put-put d sa t t',
        remove-put d sa t' idle,
      )

  pub feed-Carries :
      (left k : ℕ) (frames : List (List ℕ))
      → k + suc left ≡ packets (length payload)
      → Carries payload (suc left) k frames
      → feed (open_handler k) now sa frames ≡ (
        replicate left (ok none) ++ received now start sa prio pgn payload ∷ [],
        record { transactions = d },
      )
  feed-Carries zero k frames e (content, rest, shape, size, bytes, no_more) =
      rw (shape, no_more, handler-last k content (omega (arith, e)) size bytes)
  feed-Carries (suc left) k frames e (content, rest, shape, size, bytes, more) = rw (
    shape,
    handler-next k content (omega (arith, e)) size bytes,
    feed-Carries left (k + 1) rest (omega (arith, e)) more,
  )
