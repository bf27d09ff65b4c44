-- ===== src/Publisher/Overflow.antt =====
-- What a publisher keeps of the messages that it is given, and when it gives up.
use navigation_server.Base.{
  suc, ◌+◌, ◌≤◌, ◌<◌, ◌≡◌, refl, ap, sym, ◌∙◌, Bool, true, Option, none, some, List, [], ◌∷◌, ◌++◌,
  arith, length, length-append, replicate, append_assoc, append-nil, leb-false, le→leb, ==_ne,
  if◌then◌else◌, Result, ok, err, publisher_overflow, inl, inr, Bool-cases,
}
use navigation_server.Publisher.{Publisher, check_level, is_full, put_msg, publish}

-- Messages in turn, with nobody reading the queue.
abbrev pub publish_all {ℓ} :
    {A : Type ℓ} → Option (A → Bool) → Publisher A → List A → List (Result (Unit {0})) × Publisher A
publish_all filters p [] = ([], p)
publish_all filters p (msg ∷ msgs) =
    let one = publish filters p msg in
    let rest = publish_all filters one.1 msgs in (one.0 ∷ rest.0, rest.1)

-- The messages that the filters let pass.
abbrev pub passed {ℓ} : {A : Type ℓ} → (A → Bool) → List A → List A
passed filters [] = []
passed filters (msg ∷ msgs) =
    let rest = passed filters msgs in if filters msg then rest else msg ∷ rest

module _ {ℓ} {A : Type ℓ} where
  put_msg_room :
      (p : Publisher A) (msg : A)
      → length p.queue < p.queue_size
      → put_msg p msg
        ≡ (ok tt, check_level (record p { queue = p.queue ++ msg ∷ []; nb_msg_lost = 0 }))
  unfolding put_msg
  put_msg_room p msg room =
      rw (==_ne p.queue_size 0 (omega arith), leb-false p.queue_size (length p.queue) (omega arith))

  -- While the queue has room for all messages that pass the filters, no call raises, and these
  -- messages are on the queue in their order.
  pub publish_all-passed :
      (filters : A → Bool) (p : Publisher A) (msgs : List A)
      → length p.queue + length (passed filters msgs) ≤ p.queue_size
      → ((publish_all (some filters) p msgs).0 ≡ replicate (length msgs) (ok tt))
        × ((publish_all (some filters) p msgs).1.queue ≡ p.queue ++ passed filters msgs)
  unfolding publish check_level
  publish_all-passed filters p [] room = (refl, sym (append-nil p.queue))
  publish_all-passed filters p (msg ∷ msgs) room = elim (Bool-cases (filters msg)) [
    | inl discard ↦
        let later = publish_all-passed filters p msgs (rw discard at room) in
        rw discard (ap (λ l. ok tt ∷ l) later.0, later.1)
    | inr pass ↦
        let fits : length p.queue + suc (length (passed filters msgs)) ≤ p.queue_size =
          rw pass at room in
        let next = check_level (record p { queue = p.queue ++ msg ∷ []; nb_msg_lost = 0 }) in
        let later =
          publish_all-passed filters next msgs
            (omega (arith, fits, length-append p.queue (msg ∷ []))) in
        rw (pass, put_msg_room p msg (omega (arith, fits)))
          (
            ap (λ l. ok tt ∷ l) later.0,
            later.1 ∙ append_assoc p.queue (msg ∷ []) (passed filters msgs),
          )
  ]

  put_msg_lost :
      (p : Publisher A) (msg : A)
      → is_full p ≡ true
      → p.nb_msg_lost + 1 < p.max_lost
      → put_msg p msg ≡ (ok tt, check_level (record p { nb_msg_lost = p.nb_msg_lost + 1 }))
  unfolding put_msg
  put_msg_lost p msg full few = rw (full, leb-false p.max_lost (p.nb_msg_lost + 1) few)

  raises :
      (p : Publisher A) (msg : A)
      → is_full p ≡ true
      → p.nb_msg_lost + 1 ≡ p.max_lost
      → (put_msg p msg).0 ≡ err publisher_overflow
  unfolding put_msg
  raises p msg full reached = rw (full, le→leb p.max_lost (p.nb_msg_lost + 1) (omega arith))

  -- A full queue: below the maximum every message is lost and counted, and the queue stays.
  refused :
      (p : Publisher A) (msgs : List A)
      → is_full p ≡ true
      → p.nb_msg_lost + length msgs < p.max_lost
      → ((publish_all none p msgs).0 ≡ replicate (length msgs) (ok tt))
        × ((publish_all none p msgs).1.queue ≡ p.queue)
        × ((publish_all none p msgs).1.nb_msg_lost ≡ p.nb_msg_lost + length msgs)
        × ((publish_all none p msgs).1.max_lost ≡ p.max_lost)
        × (is_full (publish_all none p msgs).1 ≡ is_full p)
  unfolding publish put_msg check_level
  refused p [] full few = (refl, refl, omega arith, refl, refl)
  refused p (msg ∷ msgs) full few =
      let next = check_level (record p { nb_msg_lost = p.nb_msg_lost + 1 }) in
      let later = refused next msgs full (omega arith) in
      rw (put_msg_lost p msg full (omega arith))
        (ap (λ l. ok tt ∷ l) later.0, later.1, later.2 ∙ omega arith, later.3, later.4)

  -- With the queue full, the messages before the maximum of lost ones are lost without an error, the
  -- queue stays, and the message that reaches the maximum raises.
  pub publish_all_full :
      (p : Publisher A) (msgs : List A) (last : A)
      → is_full p ≡ true
      → p.nb_msg_lost + length msgs + 1 ≡ p.max_lost
      → ((publish_all none p msgs).0 ≡ replicate (length msgs) (ok tt))
        × ((publish_all none p msgs).1.queue ≡ p.queue)
        × ((publish none (publish_all none p msgs).1 last).0 ≡ err publisher_overflow)
  unfolding publish
  publish_all_full p msgs last full reached =
      let lost = refused p msgs full (omega arith) in
      (
        lost.0,
        lost.1,
        raises (publish_all none p msgs).1 last (lost.4 ∙ full) (omega (arith, lost.2, lost.3)),
      )
