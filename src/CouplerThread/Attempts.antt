-- ===== src/CouplerThread/Attempts.antt =====
-- How often a coupler tries to open its device.
use navigation_server.Base.{
  ℕ, zero, suc, ◌+◌, ◌≤◌, ◌<◌, ◌≡◌, refl, sym, ap, ap₂, ◌∙◌, Bool, true, false, List, [], ◌∷◌, ◌++◌,
  leb, leb-false, le→leb, append-nil, replicate, if◌then◌else◌, arith,
}
use navigation_server.CouplerThread.{
  Coupler, Class, ip, buffered_ip, other, not_ready, OpenResult, not_open, open_device, is_ready,
  stop, close,
}
use navigation_server.CouplerThread.Reading.{Converter}
use navigation_server.CouplerThread.Loop.{
  Session, go_on, leave, round, round_at, Tick, work, tick, continue_with, nrun, end_loop,
  open_section, open_unless, after_open, with_coupler,
}

same_state : (c : Coupler) → c.state ≡ not_ready → record c { state = not_ready } ≡ c
same_state c e = ap (λ s. record c { state = s }) (sym e)

not_open_lem :
    (k : Class) (c : Coupler) → c.state ≡ not_ready → open_device k c not_open ≡ (not_open, c)
unfolding open_device
not_open_lem ip c e = ap (λ (d : Coupler). (not_open, d)) (same_state c e)
not_open_lem buffered_ip c e = ap (λ (d : Coupler). (not_open, d)) (same_state c e)
not_open_lem other c e = refl

module _ (convert : Converter) where
  pub nrun_step :
      (t : Tick) (ts : List Tick) (s s' : Session)
      → tick convert t s ≡ (go_on, s')
      → nrun convert (t ∷ ts) s ≡ nrun convert ts s'
  unfolding nrun
  nrun_step t ts s s' one = ap (continue_with (nrun convert ts)) one

  pub nrun_leave :
      (t : Tick) (ts : List Tick) (s s' : Session)
      → tick convert t s ≡ (leave, s')
      → nrun convert (t ∷ ts) s ≡ (leave, end_loop s')
  unfolding nrun
  nrun_leave t ts s s' one = ap (continue_with (nrun convert ts)) one

  pub round_closed :
      (answer : OpenResult) (s : Session) (over : Bool)
      → s.coupler.stopflag ≡ false
      → s.coupler.state ≡ not_ready
      → leb s.coupler.max_attempt s.nb_attempts ≡ over
      → round convert answer s ≡ open_unless over convert answer s
  unfolding round open_section
  round_closed answer s over running closed attempts =
      ap₂ (λ a b. round_at a (is_ready b) convert answer s) running closed
      ∙ ap (λ a. open_unless a convert answer s) attempts

  pub round_not_open :
      (s : Session)
      → s.coupler.stopflag ≡ false
      → s.coupler.state ≡ not_ready
      → s.nb_attempts < s.coupler.max_attempt
      → round convert not_open s ≡ (go_on, record s { nb_attempts = s.nb_attempts + 1 })
  round_not_open s running closed more =
      round_closed not_open s false running closed
        (leb-false s.coupler.max_attempt s.nb_attempts more)
      ∙ ap (λ (o : OpenResult × Coupler). after_open convert o.0 (with_coupler s o.1))
          (not_open_lem s.coupler.class_of s.coupler closed)

  pub nrun_refused :
      (k : ℕ) (s : Session) (ts : List Tick)
      → s.coupler.stopflag ≡ false
      → s.coupler.state ≡ not_ready
      → s.nb_attempts + k ≤ s.coupler.max_attempt
      → nrun convert (replicate k (work not_open) ++ ts) s
        ≡ nrun convert ts (record s { nb_attempts = s.nb_attempts + k })
  unfolding nrun
  nrun_refused zero s ts running closed few =
      ap (λ (n : ℕ). nrun convert ts (record s { nb_attempts = n })) (omega arith)
  nrun_refused (suc k) s ts running closed few =
      nrun_step (work not_open) (replicate k (work not_open) ++ ts) s
        (record s { nb_attempts = s.nb_attempts + 1 })
        (round_not_open s running closed (omega (arith, few)))
      ∙ nrun_refused k (record s { nb_attempts = s.nb_attempts + 1 }) ts running closed
          (omega (arith, few))
      ∙ ap (λ (n : ℕ). nrun convert ts (record s { nb_attempts = n })) (omega arith)

stop_lem :
    (c : Coupler)
    → c.stopflag ≡ false
    → c.state ≡ not_ready
    → stop c ≡ record c { stopflag = true; state = not_ready }
unfolding stop
stop_lem c running closed =
    ap (λ b. if b then c else record c { stopflag = true; state = not_ready }) running

close_stopped :
    (k : Class) (c : Coupler)
    → c.state ≡ not_ready
    → close k (record c { stopflag = true; state = not_ready }) ≡ record c { stopflag = true }
unfolding close
close_stopped ip c e = ap (λ d. record c { stopflag = true; state = d }) (sym e)
close_stopped buffered_ip c e = ap (λ d. record c { stopflag = true; state = d }) (sym e)
close_stopped other c e = ap (λ d. record c { stopflag = true; state = d }) (sym e)

end_loop-closed :
    (s : Session)
    → s.coupler.stopflag ≡ false
    → s.coupler.state ≡ not_ready
    → end_loop s ≡ record s { coupler = record s.coupler { stopflag = true } }
unfolding end_loop
end_loop-closed s running closed =
    ap (λ (c : Coupler). record s { coupler = close c.class_of c })
      (stop_lem s.coupler running closed)
    ∙ ap (λ (c : Coupler). record s { coupler = c })
        (close_stopped s.coupler.class_of s.coupler closed)

-- A coupler whose device cannot be opened tries it exactly as often as its limit says: after j attempts,
-- up to the limit, its thread goes on with the attempts counted and nothing else changed, and in
-- the round after as many as the limit the thread ends, whatever comes then, with the coupler
-- stopped and not ready.
pub nrun_gives_up :
    (convert : Converter) (s : Session) (j k : ℕ) (answer : OpenResult) (ts : List Tick)
    → s.coupler.stopflag ≡ false
    → s.coupler.state ≡ not_ready
    → j ≤ k
    → s.nb_attempts + k ≡ s.coupler.max_attempt
    → (nrun convert (replicate j (work not_open)) s
        ≡ (go_on, record s { nb_attempts = s.nb_attempts + j }))
      × (nrun convert (replicate k (work not_open) ++ work answer ∷ ts) s ≡ (
        leave,
        record s {
          coupler = record s.coupler { stopflag = true };
          nb_attempts = s.nb_attempts + k;
        },
      ))
unfolding nrun
nrun_gives_up convert s j k answer ts running closed few limit = (
  ap (λ (l : List Tick). nrun convert l s) (sym (append-nil (replicate j (work not_open))))
      ∙ nrun_refused convert j s [] running closed (omega (arith, few, limit)),
  nrun_refused convert k s (work answer ∷ ts) running closed (omega (arith, limit))
      ∙ nrun_leave convert (work answer) ts (record s { nb_attempts = s.nb_attempts + k })
          (record s { nb_attempts = s.nb_attempts + k })
          (round_closed convert answer (record s { nb_attempts = s.nb_attempts + k }) true running
            closed (le→leb s.coupler.max_attempt (s.nb_attempts + k) (omega (arith, limit))))
      ∙ ap (λ (e : Session). (leave, e))
          (end_loop-closed (record s { nb_attempts = s.nb_attempts + k }) running closed),
)
