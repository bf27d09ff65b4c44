-- ===== src/Application/Claiming.antt =====
-- From the bus being ready to the first heartbeat, and what can go wrong on the way.
use navigation_server.Base.{
  ℕ, ◌+◌, ◌<◌, ◌≡◌, ◌≢◌, refl, Bool, true, false, Option, none, some, List, [], ◌∷◌, ◌++◌, Dict,
  get, put, remove, arith, get-put_self, get-put, get-remove, append_assoc,
}
use navigation_server.Application.{
  wait_for_bus, address_claim, active, stop_in_progress, claim_object, request_object,
  heartbeat_object, Callback, on_claim_delay, on_heartbeat, Application, disarm, stop_request,
  respond_address_claim, send_address_claim, send_iso_request, send_heartbeat, address_claim_delay,
  iso_request, remote_address_claim, address_claim_receipt,
}
use navigation_server.Application.Steps.{
  expire, bus_ready, claim_elapsed, stopped, Reach, here, next,
}
use navigation_server.Application.Receipt.{kept, receipt_kept}

abbrev pub claimed : Application → Application
claimed a = address_claim_delay (expire (send_address_claim a) a.next_timer)

-- An application that waits for the bus becomes active, by the two steps that the bus and then its
-- timer make: its claim, its request for the claims of the others and its first heartbeat are sent in
-- this order, the bus is open for sending, and the timer of the next heartbeat is armed.
pub becomes_active :
    (a : Application)
    → a.app_state ≡ wait_for_bus
    → Reach a (claimed a)
      × ((claimed a).app_state ≡ active)
      × ((claimed a).allowed_send ≡ true)
      × ((claimed a).sent
          ≡ a.sent
            ++ claim_object a.address a.iso_name 255
              ∷ request_object a.address 255 60928
              ∷ heartbeat_object a.heartbeat_interval a.sequence a.address
              ∷ [])
      × (get (claimed a).timers (a.next_timer + 1) ≡ some on_heartbeat)
unfolding send_address_claim respond_address_claim address_claim_delay send_iso_request
    send_heartbeat
becomes_active a waiting = rw waiting (
  next (next here bus_ready)
      (claim_elapsed a.next_timer (get-put_self a.timers a.next_timer on_claim_delay)),
  refl,
  refl,
  rw (append_assoc, append_assoc) refl,
  get-put_self (remove (put a.timers a.next_timer on_claim_delay) a.next_timer) (a.next_timer + 1)
      on_heartbeat,
)

-- No timer of a claim is armed.
abbrev pub HasNoClaim : Application → Type 0
HasNoClaim a = (t : ℕ) → get a.timers t ≢ some on_claim_delay

-- The steps of an application that neither starts a claim nor gives its address up.
pub data Idle (a : Application) : Application → Type 0 where
  waits_claim :
      (t : ℕ) → get a.timers t ≡ some on_claim_delay → Idle a (address_claim_delay (expire a t))
  beats : (t : ℕ) → get a.timers t ≡ some on_heartbeat → Idle a (send_heartbeat (expire a t))
  requests : (da request_pgn : ℕ) → Idle a (iso_request a da request_pgn)
  remotes : (known : Option Bool) (sa : ℕ) → Idle a (remote_address_claim a known sa).1
  keeps :
      (network : List ℕ) (name : ℕ)
      → a.iso_name < name
      → Idle a (address_claim_receipt a network a.address name).1

pub data Idling (a : Application) : Application → Type 0 where
  rests : Idling a a
  idles : {b c : Application} → Idling a b → Idle b c → Idling a c

abbrev IsStuck : Application → Type 0
IsStuck a = (a.app_state ≡ address_claim) × HasNoClaim a

remote_same :
    (a : Application) (known : Option Bool) (sa : ℕ)
    → IsStuck a
    → IsStuck (remote_address_claim a known sa).1
unfolding remote_address_claim send_iso_request
remote_same a none sa h = h
remote_same a (some true) sa h = h
remote_same a (some false) sa h = h

disarm_none :
    (d : Dict Callback) (t : Option ℕ) (k : ℕ)
    → get d k ≢ some on_claim_delay
    → get (disarm d t) k ≢ some on_claim_delay
disarm_none d none k h = h
disarm_none d (some t) k h = ground (arith, get-remove d t k)

beat_none :
    (d : Dict Callback) (t n k : ℕ)
    → get d k ≢ some on_claim_delay
    → get (put (remove d t) n on_heartbeat) k ≢ some on_claim_delay
beat_none d t n k h = ground (arith, get-put (remove d t) n k on_heartbeat, get-remove d t k)

request_same :
    (a : Application) (da pgn : ℕ)
    → ((iso_request a da pgn).app_state ≡ a.app_state) × ((iso_request a da pgn).timers ≡ a.timers)
unfolding iso_request respond_address_claim
request_same a da pgn = ground arith

beat_same : (a : Application) (t : ℕ) → IsStuck a → IsStuck (send_heartbeat (expire a t))
unfolding send_heartbeat
beat_same a t h = rw h.0 (refl, λ k. beat_none a.timers t a.next_timer k (h.1 k))

Idle-IsStuck : {a b : Application} → Idle a b → IsStuck a → IsStuck b
Idle-IsStuck {a} (waits_claim t armed) h = absurd (h.1 t armed)
Idle-IsStuck {a} (beats t armed) h = beat_same a t h
Idle-IsStuck {a} (requests da pgn) h = rw (request_same a da pgn).0 (rw (request_same a da pgn).1 h)
Idle-IsStuck {a} (remotes known sa) h = remote_same a known sa h
Idle-IsStuck {a} (keeps network name lower) h =
    rw (receipt_kept a network name lower) (h.0, λ t. disarm_none a.timers a.claim_timer t (h.1 t))

Idling-IsStuck : {a b : Application} → IsStuck a → Idling a b → IsStuck b
Idling-IsStuck h rests = h
Idling-IsStuck h (idles r s) = Idle-IsStuck s (Idling-IsStuck h r)

-- An application that claims an address, with one timer of a claim, and keeps it against a higher
-- name stays in the state of the claim: its timer is cancelled and none is set up in its place, so
-- by timers, requests, claims of other devices and further claims that it wins it never becomes active.
pub kept_stuck :
    (a : Application) (network : List ℕ) (name t : ℕ)
    → a.app_state ≡ address_claim
    → a.claim_timer ≡ some t
    → ((k : ℕ) → get (remove a.timers t) k ≢ some on_claim_delay)
    → a.iso_name < name
    → (b : Application) → Idling (address_claim_receipt a network a.address name).1 b
    → b.app_state ≡ address_claim
kept_stuck a network name t claiming held only lower b idling =
    let stuck : IsStuck (kept a) = (claiming, λ k. rw held (only k)) in
    (Idling-IsStuck (rw (receipt_kept a network name lower) stuck) idling).0

-- A stop while the address is claimed, before the first heartbeat, does not last: the timer of the claim is not cancelled, and
-- when it runs out the application is active again, sends a heartbeat and sets up the next one.
pub stop_undone :
    (a : Application) (t : ℕ)
    → a.heartbeat_timer ≡ none
    → get a.timers t ≡ some on_claim_delay
    → let b = address_claim_delay (expire (stop_request a) t) in
      ((stop_request a).app_state ≡ stop_in_progress)
      × Reach a b
      × (b.app_state ≡ active)
      × (b.sent
          ≡ a.sent
            ++ request_object a.address 255 60928
              ∷ heartbeat_object a.heartbeat_interval a.sequence a.address
              ∷ [])
      × (get b.timers a.next_timer ≡ some on_heartbeat)
unfolding stop_request address_claim_delay send_iso_request send_heartbeat
stop_undone a t none_yet armed = rw none_yet (
  refl,
  next (next here stopped) (claim_elapsed t armed),
  refl,
  rw append_assoc refl,
  get-put_self (remove a.timers t) a.next_timer on_heartbeat,
)
