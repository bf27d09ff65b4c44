-- ===== src/Ikonvert/Delivery.antt =====
-- What the reading thread of navigation_server/couplers/ikonvert.py does to the queue.
use navigation_server.Base.{
  inl, inr, ltb, Bool-cases, subst, ℕ, zero, suc, ◌+◌, ◌≤◌, ◌≡◌, refl, sym, ap, ap₂, ◌∙◌, Bool,
  true, false, Option, List, [], ◌∷◌, ◌++◌, ltb, length, length-take, take, take_all, take_front,
  length-append, append_assoc, append-nil, if◌then◌else◌, arith, Result, ok, err,
}
use navigation_server.Ikonvert.{IkonvertMsg, status, not_conn, ack, nak, n183, n2k, decode_line}
use navigation_server.Ikonvert.Connection.{
  has_room, Ikonvert, IkState, idle, ready, connected, WaitEvent, wait_none, wait_msg, wait_conn,
  wait_acknak, CmdResult, acked, naked, Queued, n0183_data, n2k_data, release_msg, release_conn,
  on_connected, put_nowait, put_connected, reply_at, process_nmea, handle, when_connected, queued,
  process_status, LineRead, line, read_error, handle_decoded, read_lines,
}

-- The messages for the queue, in a line and in many.
abbrev pub nmea_of : IkonvertMsg → List Queued
nmea_of (status values) = []
nmea_of (not_conn boot) = []
nmea_of (ack text) = []
nmea_of (nak text) = []
nmea_of (n183 raw) = n0183_data raw ∷ []
nmea_of (n2k raw m) = n2k_data raw m ∷ []

abbrev pub nmea_decoded : Result IkonvertMsg → List Queued
nmea_decoded (ok m) = nmea_of m
nmea_decoded (err e) = []

abbrev pub nmea_read : (List ℕ → Option (List ℕ)) → List (ℕ × LineRead) → List Queued
nmea_read decode [] = []
nmea_read decode ((now, read_error) ∷ reads) = nmea_read decode reads
nmea_read decode ((now, line []) ∷ reads) = nmea_read decode reads
nmea_read decode ((now, line (c ∷ cs)) ∷ reads) =
    nmea_decoded (decode_line decode now (c ∷ cs)) ++ nmea_read decode reads

take-take {ℓ} : {A : Type ℓ} (n : ℕ) (xs ys : List A) → take n (take n xs ++ ys) ≡ take n (xs ++ ys)
take-take zero xs ys = refl
take-take (suc n) [] ys = refl
take-take (suc n) (x ∷ xs) ys = ap (λ l. x ∷ l) (take-take n xs ys)

-- What fits in a queue of a maximum size, 0 for none, and whether a length does.
abbrev pub fitting : ℕ → List Queued → List Queued
fitting zero qs = qs
fitting (suc size) qs = take (suc size) qs

abbrev pub Within : ℕ → ℕ → Type 0
Within zero n = Unit
Within (suc size) n = n ≤ suc size

fitting_all : (size : ℕ) (qs : List Queued) → Within size (length qs) → fitting size qs ≡ qs
fitting_all zero qs h = refl
fitting_all (suc size) qs h = take_all (suc size) qs h

fitting_twice :
    (size : ℕ) (ps qs : List Queued)
    → fitting size (fitting size ps ++ qs) ≡ fitting size (ps ++ qs)
fitting_twice zero ps qs = refl
fitting_twice (suc size) ps qs = take-take (suc size) ps qs

length-fitting : (size : ℕ) (qs : List Queued) → Within size (length (fitting size qs))
length-fitting zero qs = tt
length-fitting (suc size) qs = let count = length-take (suc size) qs in omega (arith, count)

fitting_one_more :
    (size : ℕ) (qs : List Queued) (q : Queued)
    → Within size (length qs)
    → (if has_room size (length qs) then qs ++ q ∷ [] else qs) ≡ fitting size (qs ++ q ∷ [])
fitting_one_more zero qs q h = refl
fitting_one_more (suc size) qs q h =
    let grown = length-append qs (q ∷ []) in
    elim (Bool-cases (ltb (length qs) (suc size))) [
      | inl room ↦ rw room (sym (take_all (suc size) (qs ++ q ∷ []) (ground arith)))
      | inr full ↦ rw full (sym (take_front (suc size) qs (q ∷ []) (ground arith)))
    ]

-- The queue of a gateway, as it takes more messages.
abbrev Takes : Ikonvert → List Queued → Ikonvert → Type 0
Takes k qs k' = (k'.queue ≡ fitting k.queue_size (k.queue ++ qs)) × (k'.queue_size ≡ k.queue_size)

none_offered : (k : Ikonvert) → Within k.queue_size (length k.queue) → Takes k [] k
none_offered k h = (
  sym (ap (fitting k.queue_size) (append-nil k.queue) ∙ fitting_all k.queue_size k.queue h),
  refl,
)

release_conn-queue :
    (e : WaitEvent) (k : Ikonvert)
    → ((release_conn e k).queue ≡ k.queue)
      × ((release_conn e k).queue_size ≡ k.queue_size)
      × ((release_conn e k).ikstate ≡ k.ikstate)
release_conn-queue wait_msg k = (refl, refl, refl)
release_conn-queue wait_conn k = (refl, refl, refl)
release_conn-queue wait_none k = (refl, refl, refl)
release_conn-queue wait_acknak k = (refl, refl, refl)

release_msg-queue :
    (e : WaitEvent) (k : Ikonvert)
    → ((release_msg e k).queue ≡ k.queue) × ((release_msg e k).queue_size ≡ k.queue_size)
release_msg-queue wait_msg k = (refl, refl)
release_msg-queue wait_conn k = (refl, refl)
release_msg-queue wait_none k = (refl, refl)
release_msg-queue wait_acknak k = (refl, refl)

reply_at-queue :
    (e : WaitEvent) (r : CmdResult) (k : Ikonvert)
    → ((reply_at e r k).queue ≡ k.queue) × ((reply_at e r k).queue_size ≡ k.queue_size)
reply_at-queue wait_msg r k = (refl, refl)
reply_at-queue wait_conn r k = (refl, refl)
reply_at-queue wait_none r k = (refl, refl)
reply_at-queue wait_acknak r k = (refl, refl)

-- A handler that leaves the queue alone.
left_alone :
    (k k' : Ikonvert)
    → Within k.queue_size (length k.queue)
    → (k'.queue ≡ k.queue) × (k'.queue_size ≡ k.queue_size)
    → Takes k [] k'
left_alone k k' h (same, size) = (same ∙ (none_offered k h).0, size)

put_at :
    (room : Bool) (q : Queued) (k : Ikonvert)
    → ((if room then record k { queue = k.queue ++ q ∷ [] } else k).queue
        ≡ (if room then k.queue ++ q ∷ [] else k.queue))
      × ((if room then record k { queue = k.queue ++ q ∷ [] } else k).queue_size ≡ k.queue_size)
put_at true q k = (refl, refl)
put_at false q k = (refl, refl)

put_nowait-queue :
    (q : Queued) (k : Ikonvert)
    → Within k.queue_size (length k.queue)
    → Takes k (q ∷ []) (put_nowait q k)
put_nowait-queue q k h =
    let (put, size) = put_at (has_room k.queue_size (length k.queue)) q k in
    (put ∙ fitting_one_more k.queue_size k.queue q h, size)

-- A message that connects the gateway is queued, connected or not.
module _ (m : IkonvertMsg) (connects : (k : Ikonvert) → process_status m k ≡ on_connected k) where
  on_connected-when :
      (i : IkState) (k : Ikonvert)
      → k.ikstate ≡ i
      → ((when_connected i m k).queue ≡ k.queue)
        × ((when_connected i m k).queue_size ≡ k.queue_size)
        × ((when_connected i m k).ikstate ≡ connected)
  on_connected-when connected k e = (refl, refl, e)
  on_connected-when ready k e =
      rw (connects k) (release_conn-queue k.wait_event (record k { ikstate = connected }))
  on_connected-when idle k e =
      rw (connects k) (release_conn-queue k.wait_event (record k { ikstate = connected }))

  process_nmea-queue :
      (k : Ikonvert)
      → Within k.queue_size (length k.queue)
      → Takes k (queued m ∷ []) (process_nmea m k)
  unfolding process_nmea
  process_nmea-queue k h =
      let (same, size, is_on) = on_connected-when k.ikstate k refl in
      let k' = when_connected k.ikstate m k in
      let room : Within k'.queue_size (length k'.queue) =
        subst (λ n. Within n (length k'.queue)) (sym size)
          (subst (λ l. Within k.queue_size (length l)) (sym same) h) in
      let (put, kept) = put_nowait-queue (queued m) k' room in
      let on = ap (λ i. put_connected i (queued m) k') is_on in
      (
        ap (λ x. x.queue) on ∙ put ∙ ap₂ (λ n qs. fitting n (qs ++ queued m ∷ [])) size same,
        ap (λ x. x.queue_size) on ∙ kept ∙ size,
      )

handle-queue :
    (m : IkonvertMsg) (k : Ikonvert)
    → Within k.queue_size (length k.queue)
    → Takes k (nmea_of m) (handle m k)
unfolding handle
handle-queue (status values) k h =
    let (same, size, _) = release_conn-queue k.wait_event (record k { ikstate = connected }) in
    left_alone k (handle (status values) k) h (same, size)
handle-queue (not_conn boot) k h =
    left_alone k (handle (not_conn boot) k) h
      (release_msg-queue k.wait_event (record k { ikstate = ready }))
handle-queue (ack text) k h =
    left_alone k (handle (ack text) k) h (reply_at-queue k.wait_event (acked text) k)
handle-queue (nak text) k h =
    left_alone k (handle (nak text) k) h (reply_at-queue k.wait_event (naked text) k)
handle-queue (n183 raw) k h = process_nmea-queue (n183 raw) (λ k'. refl) k h
handle-queue (n2k raw m) k h = process_nmea-queue (n2k raw m) (λ k'. refl) k h

handle_decoded-queue :
    (r : Result IkonvertMsg) (k : Ikonvert)
    → Within k.queue_size (length k.queue)
    → Takes k (nmea_decoded r) (handle_decoded r k)
handle_decoded-queue (ok m) k h = handle-queue m k h
handle_decoded-queue (err e) k h = none_offered k h

-- Two steps of the queue are one.
two_steps :
    (k k' k'' : Ikonvert) (ps qs : List Queued)
    → Takes k ps k'
    → Takes k' qs k''
    → Takes k (ps ++ qs) k''
two_steps k k' k'' ps qs (first, size) (second, size') = (
  second
      ∙ ap₂ (λ n l. fitting n (l ++ qs)) size first
      ∙ fitting_twice k.queue_size (k.queue ++ ps) qs
      ∙ ap (fitting k.queue_size) (append_assoc k.queue ps qs),
  size' ∙ size,
)

still_fits :
    (k k' : Ikonvert) (qs : List Queued) → Takes k qs k' → Within k'.queue_size (length k'.queue)
still_fits k k' qs (taken, size) =
    let fits = length-fitting k.queue_size (k.queue ++ qs) in
    subst (λ (n : ℕ). Within n (length k'.queue)) (sym size)
      (subst (λ (l : List Queued). Within k.queue_size (length l)) (sym taken) fits)

-- Whatever the gateway sends, and whatever state it is in, if its queue holds no more than its size, 0 for none: of the
-- messages in the lines that can be decoded, the reading
-- thread puts in the queue, in order, as many as fit behind those that are there, and the rest is dropped.
pub read_lines-queue :
    (decode : List ℕ → Option (List ℕ)) (reads : List (ℕ × LineRead)) (k : Ikonvert)
    → Within k.queue_size (length k.queue)
    → ((read_lines decode reads k).queue ≡ fitting k.queue_size (k.queue ++ nmea_read decode reads))
      × ((read_lines decode reads k).queue_size ≡ k.queue_size)
unfolding read_lines
read_lines-queue decode [] k h = none_offered k h
read_lines-queue decode ((now, read_error) ∷ reads) k h = read_lines-queue decode reads k h
read_lines-queue decode ((now, line []) ∷ reads) k h = read_lines-queue decode reads k h
read_lines-queue decode ((now, line (c ∷ cs)) ∷ reads) k h =
    let r = decode_line decode now (c ∷ cs) in
    let counted = record k { total_msg_raw = k.total_msg_raw + 1 } in
    let k' = handle_decoded r counted in
    let first = handle_decoded-queue r counted h in
    two_steps counted k' (read_lines decode reads k') (nmea_decoded r) (nmea_read decode reads)
      first (read_lines-queue decode reads k' (still_fits counted k' (nmea_decoded r) first))
