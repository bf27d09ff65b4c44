-- ===== src/Application/Heartbeats.antt =====
-- The numbers of the heartbeats.
use navigation_server.Base.{
  ℕ, zero, suc, ◌+◌, ◌%◌, ◌≤◌, ◌≡◌, refl, false, none, some, List, [], ◌∷◌, ◌++◌, remove, put,
  arith, append_assoc, append-nil, sym, subst,
}
use navigation_server.Application.{
  heartbeat_object, IsoObject, on_heartbeat, Application, is_stopping, next_sequence,
  send_heartbeat,
}
use navigation_server.Application.Steps.{expire, next_sequence-byte}

-- The heartbeat timer runs out.
abbrev pub beat : Application → Application
beat a = elim a.heartbeat_timer [ none ↦ a | some t ↦ send_heartbeat (expire a t) ]

abbrev pub beat_times : ℕ → Application → Application
beat_times zero a = a
beat_times (suc n) a = beat_times n (beat a)

-- The heartbeats that are numbered from `s` on, modulo 254.
abbrev pub numbered : ℕ → ℕ → ℕ → ℕ → List IsoObject
numbered zero s interval address = []
numbered (suc n) s interval address =
    heartbeat_object interval (s % 254) address ∷ numbered n (s + 1) interval address

abbrev beaten : Application → ℕ → Application
beaten a t = record a {
  sent = a.sent ++ heartbeat_object a.heartbeat_interval a.sequence a.address ∷ [];
  sequence = next_sequence a.sequence;
  heartbeat_timer = some a.next_timer;
  timers = put (remove a.timers t) a.next_timer on_heartbeat;
  next_timer = a.next_timer + 1;
}

beat-eq :
    (a : Application) (t : ℕ)
    → a.heartbeat_timer ≡ some t
    → is_stopping a.app_state ≡ false
    → beat a ≡ beaten a t
unfolding send_heartbeat
beat-eq a t held going = rw held (rw going refl)

wrap : (s : ℕ) → s ≤ 253 → next_sequence s ≡ (s + 1) % 254
unfolding next_sequence
wrap s h = ground arith

numbered-wrap :
    (n s r interval address : ℕ)
    → s % 254 ≡ r % 254
    → numbered n s interval address ≡ numbered n r interval address
numbered-wrap zero s r interval address e = refl
numbered-wrap (suc n) s r interval address e =
    rw (e, numbered-wrap n (s + 1) (r + 1) interval address (omega (arith, e))) refl

-- While an application does not stop, each expiry of its heartbeat timer sends one heartbeat and sets
-- up the next: `n` of them are sent in a row, numbered without a gap modulo 254 from the sequence
-- number on, which is where the next one goes on.
pub heartbeats :
    (n : ℕ) (a : Application) (t : ℕ)
    → a.heartbeat_timer ≡ some t
    → is_stopping a.app_state ≡ false
    → a.sequence ≤ 253
    → ((beat_times n a).sent ≡ a.sent ++ numbered n a.sequence a.heartbeat_interval a.address)
      × ((beat_times n a).sequence ≡ (a.sequence + n) % 254)
heartbeats zero a t held going small = (sym (append-nil a.sent), omega arith)
heartbeats (suc n) a t held going small =
    let rest =
      heartbeats n (beaten a t) a.next_timer refl going (next_sequence-byte a.sequence small) in
    let here : a.sequence % 254 ≡ a.sequence = omega arith in
    let wrapped = wrap a.sequence small in
    subst
      (λ (b : Application).
        ((beat_times n b).sent
          ≡ a.sent ++ numbered (suc n) a.sequence a.heartbeat_interval a.address)
        × ((beat_times n b).sequence ≡ (a.sequence + suc n) % 254))
      (sym (beat-eq a t held going))
      (
        rw
            (
              rest.0,
              append_assoc,
              numbered-wrap n (next_sequence a.sequence) (a.sequence + 1) a.heartbeat_interval
                  a.address (omega (arith, wrapped)),
              here,
            )
            refl,
        omega (arith, rest.1, wrapped),
      )
