-- ===== src/Application/Steps.antt =====
-- What can happen to an application, as a relation on its states, and what stays true: the number
-- of its heartbeat stays in a byte, the timers are those that were made, and an application
-- that claims holds the timer of its claim.
use navigation_server.Base.{
  ℕ, ◌+◌, ◌≤◌, ◌<◌, ◌≡◌, Bool, true, false, Option, none, some, List, [], ◌∷◌, ◌++◌, Dict, get, put,
  remove, arith, Bool-cases, Option-cases, inl, inr, ltb, ◌==◌,
}
use navigation_server.AddressPool.{get_new_address}
use navigation_server.Application.{
  AppState, wait_for_bus, address_claim, active, stop_in_progress, Callback, on_claim_delay,
  on_heartbeat, claim_object, Application, is_stopping, disarm, cancel, stop_request,
  controller_stop, respond_address_claim, send_address_claim, send_iso_request, next_sequence,
  send_heartbeat, address_claim_delay, change_address, give_way, conflict, address_claim_receipt,
  iso_request, commanded_address_request, remote_address_claim,
}

-- A timer runs out: it is armed no longer, and its callback is called.
abbrev pub expire : Application → ℕ → Application
expire a t = record a { timers = remove a.timers t }

pub data Step (a : Application) : Application → Type 0 where
  bus_ready : Step a (send_address_claim a)
  claim_elapsed :
      (t : ℕ) → get a.timers t ≡ some on_claim_delay → Step a (address_claim_delay (expire a t))
  heartbeat_elapsed :
      (t : ℕ) → get a.timers t ≡ some on_heartbeat → Step a (send_heartbeat (expire a t))
  claim_received :
      (network : List ℕ) (sa name : ℕ) → Step a (address_claim_receipt a network sa name).1
  request_received : (da request_pgn : ℕ) → Step a (iso_request a da request_pgn)
  commanded : (name new_address : ℕ) → Step a (commanded_address_request a name new_address).1
  remote_claim : (known : Option Bool) (sa : ℕ) → Step a (remote_address_claim a known sa).1
  stopped : Step a (stop_request a)
  change_applied : Step a (record a { change_request = none })

pub data Reach (a : Application) : Application → Type 0 where
  here : Reach a a
  next : {b c : Application} → Reach a b → Step b c → Reach a c

abbrev pub AllBelow : ℕ → Dict Callback → Type 0
AllBelow n [] = Unit
AllBelow n ((t, callback) ∷ rest) = (t < n) × AllBelow n rest

abbrev pub HoldsTimer : AppState → Option ℕ → Type 0
HoldsTimer address_claim none = ⊥
HoldsTimer address_claim (some t) = Unit
HoldsTimer wait_for_bus timer = Unit
HoldsTimer active timer = Unit
HoldsTimer stop_in_progress timer = Unit

abbrev pub IsSound : Application → Type 0
IsSound a =
    (a.sequence ≤ 253) × AllBelow a.next_timer a.timers × HoldsTimer a.app_state a.claim_timer

AllBelow-suc : (n : ℕ) (d : Dict Callback) → AllBelow n d → AllBelow (n + 1) d
AllBelow-suc n [] h = tt
AllBelow-suc n ((t, callback) ∷ d) (below, rest) = (omega (arith, below), AllBelow-suc n d rest)

AllBelow-put :
    (n : ℕ) (d : Dict Callback) (callback : Callback)
    → AllBelow n d
    → AllBelow (n + 1) (put d n callback)
unfolding put
AllBelow-put n [] callback h = (omega arith, tt)
AllBelow-put n ((t, v) ∷ d) callback (below, rest) = elim (Bool-cases (t == n)) [
  | inl e ↦ rw e (omega (arith, below), AllBelow-suc n d rest)
  | inr e ↦ rw e (omega (arith, below), AllBelow-put n d callback rest)
]

pub AllBelow-remove : (n : ℕ) (d : Dict Callback) (t : ℕ) → AllBelow n d → AllBelow n (remove d t)
unfolding remove
AllBelow-remove n [] t h = tt
AllBelow-remove n ((k, v) ∷ d) t (below, rest) = elim (Bool-cases (k == t)) [
  | inl e ↦ rw e (AllBelow-remove n d t rest)
  | inr e ↦ rw e (below, AllBelow-remove n d t rest)
]

AllBelow-disarm :
    (n : ℕ) (d : Dict Callback) (t : Option ℕ) → AllBelow n d → AllBelow n (disarm d t)
AllBelow-disarm n d none h = h
AllBelow-disarm n d (some t) h = AllBelow-remove n d t h

cancel-IsSound : (a : Application) (t : Option ℕ) → IsSound a → IsSound (cancel a t)
cancel-IsSound a t (small, below, holds) =
    (small, AllBelow-disarm a.next_timer a.timers t below, holds)

stop_request-IsSound : (a : Application) → IsSound a → IsSound (stop_request a)
unfolding stop_request
stop_request-IsSound a h =
    cancel-IsSound (record a { app_state = stop_in_progress }) a.heartbeat_timer (h.0, h.1, tt)

HoldsTimer-stopping :
    (state : AppState) (t : Option ℕ) → is_stopping state ≡ true → HoldsTimer state t
HoldsTimer-stopping stop_in_progress t h = tt
HoldsTimer-stopping wait_for_bus t h = tt
HoldsTimer-stopping active t h = tt
HoldsTimer-stopping address_claim t h = ground arith

-- A claim sets up its own timer, whatever was held before.
abbrev IsTimely : Application → Type 0
IsTimely a = (a.sequence ≤ 253) × AllBelow a.next_timer a.timers

send_address_claim-IsSound : (a : Application) → IsTimely a → IsSound (send_address_claim a)
unfolding send_address_claim respond_address_claim
send_address_claim-IsSound a h = elim (Bool-cases (is_stopping a.app_state)) [
  | inl e ↦ rw e (h.0, h.1, HoldsTimer-stopping a.app_state a.claim_timer e)
  | inr e ↦ rw e (h.0, AllBelow-put a.next_timer a.timers on_claim_delay h.1, tt)
]

pub next_sequence-byte : (n : ℕ) → n ≤ 253 → next_sequence n ≤ 253
unfolding next_sequence
next_sequence-byte n h = ground arith

send_heartbeat-IsSound : (a : Application) → IsSound a → IsSound (send_heartbeat a)
unfolding send_heartbeat
send_heartbeat-IsSound a h = elim (Bool-cases (is_stopping a.app_state)) [
  | inl e ↦ rw e h
  | inr e ↦
      rw e (
        next_sequence-byte a.sequence h.0,
        AllBelow-put a.next_timer a.timers on_heartbeat h.1,
        h.2,
      )
]

-- The state is active when the held timer is given up.
address_claim_delay-IsSound : (a : Application) → IsSound a → IsSound (address_claim_delay a)
unfolding address_claim_delay send_iso_request send_heartbeat
address_claim_delay-IsSound a h =
    (next_sequence-byte a.sequence h.0, AllBelow-put a.next_timer a.timers on_heartbeat h.1, tt)

-- An address that is written where a change waits leaves everything else.
change_address-IsSound :
    (a : Application) (address : ℕ) → IsSound a → IsSound (change_address a address).1
unfolding change_address
change_address-IsSound a address h = elim (Option-cases a.change_request) [
  | inl e ↦ rw e (
      send_address_claim-IsSound (record a { address = address; change_request = some a.address })
        (h.0, h.1))
  | inr (old, e) ↦ rw e h
]

controller_stop-IsSound : (a : Application) → IsSound a → IsSound (controller_stop a)
unfolding controller_stop
controller_stop-IsSound a h = stop_request-IsSound a h

give_way-IsSound :
    (a : Application) (network : List ℕ) (sa : ℕ) → IsSound a → IsSound (give_way a network sa).1
unfolding give_way
give_way-IsSound a network sa h =
    let got = get_new_address network a.app_pool in
    let moved = record a { app_pool = got.1 } in
    elim (Bool-cases (got.0 == 254)) [
      | inl e ↦ rw e (
          controller_stop-IsSound
            (record moved { sent = a.sent ++ claim_object 254 a.iso_name sa ∷ [] }) h)
      | inr e ↦ rw e (change_address-IsSound moved got.0 h)
    ]

conflict-IsSound :
    (a : Application) (network : List ℕ) (sa name : ℕ)
    → IsSound a
    → IsSound (conflict a network sa name).1
unfolding conflict respond_address_claim
conflict-IsSound a network sa name h = elim (Bool-cases (ltb name a.iso_name)) [
  | inl lower ↦ rw lower (give_way-IsSound a network sa h)
  | inr not_lower ↦ elim (Bool-cases (name == a.iso_name)) [
    | inl e ↦ rw (not_lower, e) (controller_stop-IsSound a h)
    | inr e ↦ rw (not_lower, e) h
  ]
]

receipt-IsSound :
    (a : Application) (network : List ℕ) (sa name : ℕ)
    → IsSound a
    → IsSound (address_claim_receipt a network sa name).1
unfolding address_claim_receipt
receipt-IsSound a network sa name h =
    let b = cancel a a.claim_timer in
    let sound : IsSound b = cancel-IsSound a a.claim_timer h in
    elim (Bool-cases (b.address == sa)) [
      | inl e ↦ rw e (conflict-IsSound b network sa name sound)
      | inr e ↦ rw e sound
    ]

iso_request-IsSound : (a : Application) (da pgn : ℕ) → IsSound a → IsSound (iso_request a da pgn)
unfolding iso_request respond_address_claim
iso_request-IsSound a da pgn h = ground arith

commanded-IsSound :
    (a : Application) (name new_address : ℕ)
    → IsSound a
    → IsSound (commanded_address_request a name new_address).1
unfolding commanded_address_request
commanded-IsSound a name new_address h = elim (Bool-cases (name == a.iso_name)) [
  | inl e ↦ rw e (change_address-IsSound a new_address h)
  | inr e ↦ rw e h
]

remote-IsSound :
    (a : Application) (known : Option Bool) (sa : ℕ)
    → IsSound a
    → IsSound (remote_address_claim a known sa).1
unfolding remote_address_claim send_iso_request
remote-IsSound a none sa h = h
remote-IsSound a (some true) sa h = h
remote-IsSound a (some false) sa h = h

expire-IsSound : (a : Application) (t : ℕ) → IsSound a → IsSound (expire a t)
expire-IsSound a t h = (h.0, AllBelow-remove a.next_timer a.timers t h.1, h.2)

Step-IsSound : {a b : Application} → Step a b → IsSound a → IsSound b
Step-IsSound {a} bus_ready h = send_address_claim-IsSound a (h.0, h.1)
Step-IsSound {a} (claim_elapsed t armed) h =
    address_claim_delay-IsSound (expire a t) (expire-IsSound a t h)
Step-IsSound {a} (heartbeat_elapsed t armed) h =
    send_heartbeat-IsSound (expire a t) (expire-IsSound a t h)
Step-IsSound {a} (claim_received network sa name) h = receipt-IsSound a network sa name h
Step-IsSound {a} (request_received da pgn) h = iso_request-IsSound a da pgn h
Step-IsSound {a} (commanded name new_address) h = commanded-IsSound a name new_address h
Step-IsSound {a} (remote_claim known sa) h = remote-IsSound a known sa h
Step-IsSound {a} stopped h = stop_request-IsSound a h
Step-IsSound change_applied h = h

-- Whatever happens to an application, the sequence number of its heartbeat stays at most 253, its armed
-- timers are ones that it made, and while it claims an address it holds a timer of the claim.
pub Reach-IsSound : {a b : Application} → IsSound a → Reach a b → IsSound b
Reach-IsSound h here = h
Reach-IsSound h (next r s) = Step-IsSound s (Reach-IsSound h r)
