-- ===== src/Filters/Decision.antt =====
-- Which filter of a set decides, and a time filter without PGNs.
use navigation_server.Base.{
  ℕ, ◌≡◌, ◌≢◌, refl, Bool, true, false, not, none, some, List, [], ◌∷◌, ◌++◌, arith, get, ok, err,
  key_error,
}
use navigation_server.Message.{N2kMsg}
use navigation_server.Filters.{N2kFilter, is_select, process_n2k, process_n2k_filters, new_timers}

-- No filter of a list is for the message.
abbrev pub NoneFor : N2kMsg → List N2kFilter → Type 0
NoneFor msg [] = Unit
NoneFor msg (f ∷ fs) = (process_n2k f msg ≡ false) × NoneFor msg fs

module _ (now : ℕ) (msg : N2kMsg) (select_filter : Bool) where
  -- The first filter that a message passes decides by its type, if it has no timer: the message is
  -- discarded unless the type is select. If it passes none, the publisher's selection decides. The filters
  -- are as before.
  pub process_n2k_filters-first :
      (before after : List N2kFilter) (f : N2kFilter)
      → NoneFor msg before
      → process_n2k f msg ≡ true
      → f.timers ≡ none
      → (process_n2k_filters (before ++ f ∷ after) now msg true select_filter
          ≡ (ok (not (is_select f.filter_type)), before ++ f ∷ after))
        × (process_n2k_filters before now msg true select_filter ≡ (ok select_filter, before))
  unfolding process_n2k_filters
  process_n2k_filters-first [] after f nobody passes plain = (ground arith, refl)
  process_n2k_filters-first (g ∷ before) after f (other, nobody) passes plain =
      let rest = process_n2k_filters-first before after f nobody passes plain in
      rw (other, rest.0, rest.1) (refl, refl)

-- A time filter of any PGN has a timer for the PGN 0 only: a message of another PGN that reaches
-- it raises.
pub process_n2k_filters_any_pgn :
    (f : N2kFilter) (fs : List N2kFilter) (now start period : ℕ) (msg : N2kMsg)
    (select_filter : Bool)
    → f.pgns ≡ none
    → f.timers ≡ some (new_timers f.pgns period start)
    → f.sa ≡ none
    → msg.pgn ≢ 0
    → process_n2k_filters (f ∷ fs) now msg true select_filter ≡ (err key_error, f ∷ fs)
unfolding process_n2k_filters new_timers get
process_n2k_filters_any_pgn f fs now start period msg select_filter any timed all other =
    ground arith
