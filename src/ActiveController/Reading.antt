-- ===== src/ActiveController/Reading.antt =====
-- What the subscribers read.
use navigation_server.Base.{
  ℕ, ◌≡◌, refl, ◌∙◌, Bool, true, false, Option, none, some, List, [], ◌∷◌, ◌++◌, ◌==◌,
  if◌then◌else◌, length, Dict, get, arith, inl, inr, ok, err, leb, not, Result, Option-cases, ap,
}
use navigation_server.Base.Purge.{IsDistinct}
use navigation_server.Message.{N2kMsg}
use navigation_server.ActiveController.{
  ReadSubscriber, accepts, push_message, push_all, swallow, ActiveController, Handlers, ◌then◌,
  process_msg, each, dispatch_vector, dispatch_addressed, apply_pending,
}

-- What one subscriber is after a message: gone, if the message is for it and its queue is full.
abbrev pub served : N2kMsg → Option ReadSubscriber → Option ReadSubscriber
served m none = none
served m (some s) =
    if accepts s m
    then (if leb 20 (length s.queue) then none else some (record s { queue = s.queue ++ m ∷ [] }))
    else some s

served-push_message :
    (m : N2kMsg) (s : ReadSubscriber)
    → served m (some s)
      ≡ elim (push_message s m).0 [ ok _ ↦ some (push_message s m).1 | err e ↦ none ]
unfolding push_message
served-push_message m s = ground arith

pub get-push_all :
    (d : Dict ReadSubscriber) (m : N2kMsg) (k : ℕ)
    → IsDistinct d
    → get (push_all d m) k ≡ served m (get d k)
unfolding push_all push_message get
get-push_all [] m k t = refl
get-push_all ((j, s) ∷ d) m k (absent, t) = let rest = get-push_all d m k t in ground (arith, rest)

otherwise : {A : Type 0} (b : Bool) (x y : A) → b ≡ false → (if b then x else y) ≡ y
otherwise true x y e = ground arith
otherwise false x y e = refl

module _ (h : Handlers)
    (keeps : (a : ℕ) (m : N2kMsg) (c : ActiveController)
      → (h.receive_data_msg a m c).1.read_subscribers ≡ c.read_subscribers) where
  kept_swallow :
      (p : Result (Unit {0}) × ActiveController)
      → (swallow p).1.read_subscribers ≡ p.1.read_subscribers
  kept_swallow (ok _, c) = refl
  kept_swallow (err e, c) = refl

  kept_vector :
      (m : N2kMsg) (c : ActiveController)
      → (dispatch_vector h m c).1.read_subscribers ≡ c.read_subscribers
  unfolding dispatch_vector
  kept_vector m c = elim (Option-cases (get c.pgn_vector m.pgn)) [
    | inl e ↦ rw (e, dispatch_vector) refl
    | inr (a, e) ↦ rw (e, dispatch_vector) (kept_swallow (h.receive_data_msg a m c) ∙ keeps a m c)
  ]

  kept_then :
      (p : Result (Unit {0}) × ActiveController)
      (next : ActiveController → Result (Unit {0}) × ActiveController)
      → ((c : ActiveController) → (next c).1.read_subscribers ≡ c.read_subscribers)
      → (p then next).1.read_subscribers ≡ p.1.read_subscribers
  kept_then (ok _, c) next same = same c
  kept_then (err e, c) next same = refl

  kept_each :
      (apps : List ℕ) (m : N2kMsg) (c : ActiveController)
      → (each h.receive_data_msg apps m c).1.read_subscribers ≡ c.read_subscribers
  unfolding each
  kept_each [] m c = refl
  kept_each (a ∷ rest) m c =
      kept_then (h.receive_data_msg a m c) (each h.receive_data_msg rest m) (kept_each rest m)
      ∙ keeps a m c

  -- If the applications leave the subscribers alone, a message to all that is not of the ISO protocol
  -- reaches, whatever the applications do with it, exactly the subscribers whose filters it
  -- passes: it is the last one in their queues, and those that had 20 messages already are removed.
  pub process_msg-served :
      (m : N2kMsg) (c : ActiveController) (client : ℕ)
      → m.da ≡ 255
      → m.is_iso ≡ false
      → IsDistinct c.read_subscribers
      → get (process_msg h m c).1.read_subscribers client ≡ served m (get c.read_subscribers client)
  unfolding process_msg
  process_msg-served m c client all plain distinct =
      let pushed_c = record c { read_subscribers = push_all c.read_subscribers m } in
      let kept =
        kept_then (dispatch_vector h m pushed_c) (λ d. each h.receive_data_msg d.catch_all m d)
          (λ d. kept_each d.catch_all m d)
        ∙ kept_vector m pushed_c in
      let broadcast : not (m.da == 255) ≡ false = ground arith in
      let branch =
        otherwise (not (m.da == 255)) (dispatch_addressed h m c)
          (if m.is_iso
            then (h.super_process_msg m c
                then (λ d. each h.receive_iso_msg d.applications m d)
                then apply_pending h)
            else (dispatch_vector h m pushed_c then (λ d. each h.receive_data_msg d.catch_all m d)))
          broadcast
        ∙ otherwise m.is_iso
            (h.super_process_msg m c
              then (λ d. each h.receive_iso_msg d.applications m d)
              then apply_pending h)
            (dispatch_vector h m pushed_c then (λ d. each h.receive_data_msg d.catch_all m d))
            plain in
      ap (λ (p : Result (Unit {0}) × ActiveController). get p.1.read_subscribers client) branch
      ∙ ap (λ (d : List (ℕ × ReadSubscriber)). get d client) kept
      ∙ get-push_all c.read_subscribers m client distinct
