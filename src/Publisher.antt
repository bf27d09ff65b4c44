-- ===== src/Publisher.antt =====
-- navigation_server/router_core/publisher.py: the queue of `Publisher` between the couplers and a
-- client. The thread that takes from the queue is not modelled: `publish` sees the queue as it is.
-- Whether the filters discard a message is a parameter.
pub mod Overflow
use navigation_server.Base.{
  ℕ, ◌+◌, ◌*◌, ◌/◌, Bool, true, false, List, [], ◌∷◌, ◌++◌, length, ltb, leb, ◌==◌, if◌then◌else◌,
  Result, ok, err, publisher_overflow, Option, none, some,
}

pub record Publisher {ℓ} (A : Type ℓ) : Type ℓ where
  pub queue_size : ℕ
  pub max_lost : ℕ
  pub queue_threshold : ℕ
  pub queue : List A
  pub queue_tpass : Bool
  pub nb_msg_lost : ℕ

-- The state after the constructor; `int(queue_size * 0.8)` is the threshold.
abbrev pub new_publisher {ℓ} : {A : Type ℓ} → ℕ → ℕ → Publisher A
new_publisher queue_size max_lost = record {
  queue_size = queue_size;
  max_lost = max_lost;
  queue_threshold = queue_size * 4 / 5;
  queue = [];
  queue_tpass = false;
  nb_msg_lost = 0;
}

-- The level of the queue after the put; the pause is not modelled.
unfoldable pub check_level {ℓ} : {A : Type ℓ} → Publisher A → Publisher A
check_level p =
    let qs = length p.queue in
    let tpass = if ltb p.queue_threshold qs then true else p.queue_tpass in
    record p { queue_tpass = if tpass then (if ltb qs 4 then false else true) else false }

abbrev pub is_full {ℓ} : {A : Type ℓ} → Publisher A → Bool
is_full p = if p.queue_size == 0 then false else leb p.queue_size (length p.queue)

unfoldable pub put_msg {ℓ} : {A : Type ℓ} → Publisher A → A → Result (Unit {0}) × Publisher A
unfolding check_level
put_msg p msg =
    let lost = p.nb_msg_lost + 1 in
    if is_full p
    then if leb p.max_lost lost
      then (err publisher_overflow, record p { nb_msg_lost = lost })
      else (ok tt, check_level (record p { nb_msg_lost = lost }))
    else (ok tt, check_level (record p { queue = p.queue ++ msg ∷ []; nb_msg_lost = 0 }))

-- `filters` is `process_filter` with the selection of the publisher: true for a message to discard.
unfoldable pub publish {ℓ} :
    {A : Type ℓ} → Option (A → Bool) → Publisher A → A → Result (Unit {0}) × Publisher A
unfolding put_msg
publish none p msg = put_msg p msg
publish (some filters) p msg = if filters msg then (ok tt, p) else put_msg p msg
