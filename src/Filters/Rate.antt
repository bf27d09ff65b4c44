-- ===== src/Filters/Rate.antt =====
-- How many messages a time filter lets pass.
use native.Mathlib.Nat.{add-div_left, div-lt_iff_lt-mul}
use navigation_server.Base.{
  zero, suc, ◌/◌, ◌<◌, min, replicate, ap, ◌∙◌, ℕ, ◌+◌, ◌*◌, ◌-◌, ◌≤◌, ◌≡◌, List, [], ◌∷◌, arith,
  ltb, ltb→lt, if◌then◌else◌, inl, inr, Bool-cases,
}
use navigation_server.Filters.{TimeFilter, check_period}

-- Checks at times in turn: how many pass, and the filter after them.
abbrev pub checks : TimeFilter → List ℕ → ℕ × TimeFilter
checks f [] = (0, f)
checks f (t ∷ ts) =
    let one = check_period f t in
    let rest = checks one.1 ts in ((if one.0 then 1 + rest.0 else rest.0), rest.1)

-- All times up to a last one.
abbrev pub Until : ℕ → List ℕ → Type 0
Until last [] = Unit
Until last (t ∷ ts) = (t ≤ last) × Until last ts

-- The tick advances by one period for each message that passes, and stays behind the times of the
-- checks: from its creation to a time, a filter lets no more messages pass than there are periods.
pub checks_rate :
    (f : TimeFilter) (last : ℕ) (times : List ℕ)
    → f.tick_time ≤ last
    → Until last times
    → ((checks f times).1.tick_time ≡ f.tick_time + (checks f times).0 * f.period)
      × (f.tick_time + (checks f times).0 * f.period ≤ last)
unfolding check_period
checks_rate f last [] start upto = (omega arith, omega arith)
checks_rate f last (t ∷ ts) start (low, upto) = elim (Bool-cases (ltb f.period (t - f.tick_time))) [
  | inl over ↦
      let gap = ltb→lt f.period (t - f.tick_time) over in
      let next = record f { tick_time = f.tick_time + f.period } in
      let later = checks_rate next last ts (omega arith) upto in
      rw over (omega (arith, later.0), omega (arith, later.1))
  | inr under ↦ rw under (checks_rate f last ts start upto)
]

-- The periods that are over at a time, without the one that is just over.
behind_next : (p x : ℕ) → 0 < p → p < x → suc ((x - p - 1) / p) ≡ (x - 1) / p
behind_next p x pos over =
    let split : p + (x - p - 1) ≡ x - 1 = omega (arith, over) in
    let step = add-div_left (x - p - 1) pos in omega (arith, ap (λ (n : ℕ). n / p) split, step)

-- However many checks are made at one time, as many pass as whole periods fit between the tick and that
-- time, the one that ends just then not counted: after a pause, messages pass at once that should have
-- been a period apart.
pub checks_burst :
    (f : TimeFilter) (n t : ℕ)
    → 0 < f.period
    → (checks f (replicate n t)).0 ≡ min n ((t - f.tick_time - 1) / f.period)
unfolding check_period
checks_burst f zero t pos = omega arith
checks_burst f (suc n) t pos = elim (Bool-cases (ltb f.period (t - f.tick_time))) [
  | inl over ↦
      let gap = ltb→lt f.period (t - f.tick_time) over in
      let next = record f { tick_time = f.tick_time + f.period } in
      let later = checks_burst next n t pos in
      let step = behind_next f.period (t - f.tick_time) pos gap in
      let same : t - (f.tick_time + f.period) ≡ t - f.tick_time - f.period = omega arith in
      let count = later ∙ ap (λ (x : ℕ). min n ((x - 1) / f.period)) same in
      rw (over, count) (omega (arith, step))
  | inr under ↦
      let later = checks_burst f n t pos in
      let small : t - f.tick_time - 1 < 1 * f.period = ground arith in
      let none_over = (div-lt_iff_lt-mul pos).1 small in
      rw (under, later) (omega (arith, none_over))
]
