-- ===== src/Filters.antt =====
-- navigation_server/router_core/filters.py, navigation_server/nmea2000/nmea2k_filters.py and
-- navigation_server/nmea0183/nmea0183_filters.py: the filters of a publisher. A filter that was
-- refused by `valid` is in no set; the options come from the configuration. Times are in milliseconds.
pub mod Rate
pub mod Decision
mod Tests
use navigation_server.Base.{
  ℕ, ◌+◌, ◌-◌, Bool, true, false, not, ◌&&◌, Option, none, some, List, [], ◌∷◌, ltb, ◌==◌, contains,
  if◌then◌else◌, Dict, get, put, Result, ok, err, key_error, ◌>>=◌,
}
use navigation_server.Message.{N2kMsg}

pub record TimeFilter : Type 0 where
  pub period : ℕ
  pub tick_time : ℕ

-- `time.monotonic()` is `t`.
unfoldable pub check_period : TimeFilter → ℕ → Bool × TimeFilter
check_period f t =
    if ltb f.period (t - f.tick_time)
    then (true, record f { tick_time = f.tick_time + f.period })
    else (false, f)

pub data FilterType : Type 0 where
  discard select : FilterType

abbrev pub is_select : FilterType → Bool
is_select discard = false
is_select select = true

-- `NMEA2000Filter`, or `NMEA2000TimeFilter` when it has timers.
pub record N2kFilter : Type 0 where
  pub filter_type : FilterType
  pub pgns : Option (List ℕ)
  pub sa : Option ℕ
  pub timers : Option (Dict TimeFilter)

-- The timers that the constructor of `NMEA2000TimeFilter` makes.
unfoldable pub new_timers : Option (List ℕ) → ℕ → ℕ → Dict TimeFilter
new_timers none period now = (0, record { period = period; tick_time = now }) ∷ []
new_timers (some []) period now = []
new_timers (some (pgn ∷ pgns)) period now =
    put (new_timers (some pgns) period now) pgn (record { period = period; tick_time = now })

abbrev pub is_none_or {ℓ} : {A : Type ℓ} → (A → Bool) → Option A → Bool
is_none_or test none = true
is_none_or test (some a) = test a

unfoldable pub process_n2k : N2kFilter → N2kMsg → Bool
process_n2k f msg =
    is_none_or (λ a. a == msg.sa) f.sa && is_none_or (λ l. contains l msg.pgn) f.pgns

-- What follows the check of a timer.
abbrev pub timer_action : N2kFilter → Dict TimeFilter → ℕ → Bool × TimeFilter → Bool × N2kFilter
timer_action f timers pgn (go, timer) =
    (go && is_select f.filter_type, record f { timers = some (put timers pgn timer) })

-- `action`: true if the message is selected. A timer is looked up by the PGN.
unfoldable pub action : N2kFilter → ℕ → N2kMsg → Result (Bool × N2kFilter)
unfolding check_period
action f now msg = elim f.timers [
  | none ↦ ok (is_select f.filter_type, f)
  | some timers ↦ elim (get timers msg.pgn) [
    | none ↦ err key_error
    | some timer ↦ ok (timer_action f timers msg.pgn (check_period timer now))
  ]
]

-- The part of `process_filter` for NMEA 2000 messages: true for a message to discard, and the
-- filters after it.
unfoldable pub process_n2k_filters :
    List N2kFilter → ℕ → N2kMsg → Bool → Bool → Result Bool × List N2kFilter
unfolding process_n2k action
process_n2k_filters [] now msg execute_action select_filter = (ok select_filter, [])
process_n2k_filters (f ∷ fs) now msg execute_action select_filter =
    let rest = process_n2k_filters fs now msg execute_action select_filter in
    if process_n2k f msg
    then if execute_action
      then elim (action f now msg) [
        | err e ↦ (err e, f ∷ fs)
        | ok (selected, f') ↦ (ok (not selected), f' ∷ fs)
      ]
      else (ok (not select_filter), f ∷ fs)
    else (rest.0, f ∷ rest.1)

pub record N0183Filter : Type 0 where
  pub filter_type : FilterType
  pub talker : Option (List ℕ)
  pub formatter : Option (List ℕ)

unfoldable pub bytes_eq : List ℕ → List ℕ → Bool
bytes_eq [] [] = true
bytes_eq [] (y ∷ ys) = false
bytes_eq (x ∷ xs) [] = false
bytes_eq (x ∷ xs) (y ∷ ys) = x == y && bytes_eq xs ys

-- A test of a part of the message that raises on a proprietary one, if the filter asks for it.
abbrev pub test_part : Option (List ℕ) → Result (List ℕ) → Result Bool
test_part none found = ok true
test_part (some wanted) found = found >>= λ bytes. ok (bytes_eq wanted bytes)

-- The talker and the formatter are those of the message.
unfoldable pub process_nmea0183 : N0183Filter → Result (List ℕ) → Result (List ℕ) → Result Bool
unfolding bytes_eq
process_nmea0183 f talker formatter = do
  is_talker ← test_part f.talker talker
  is_formatter ← test_part f.formatter formatter
  ok (is_talker && is_formatter)

-- The part of `process_filter` for NMEA 0183 messages: an exception keeps the message.
unfoldable pub process_nmea0183_filters :
    List N0183Filter → Result (List ℕ) → Result (List ℕ) → Bool → Bool → Bool
unfolding process_nmea0183
process_nmea0183_filters [] talker formatter execute_action select_filter = select_filter
process_nmea0183_filters (f ∷ fs) talker formatter execute_action select_filter =
    let rest = process_nmea0183_filters fs talker formatter execute_action select_filter in
    elim (process_nmea0183 f talker formatter) [
      | err e ↦ false
      | ok true ↦ if execute_action then not (is_select f.filter_type) else not select_filter
      | ok false ↦ rest
    ]
