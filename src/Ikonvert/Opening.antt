-- ===== src/Ikonvert/Opening.antt =====
-- `iKonvert.open` in navigation_server/couplers/ikonvert.py and the reading thread, in any order.
use navigation_server.Base.{
  ℕ, suc, zero, ◌≤◌, ◌≡◌, ◌≢◌, sym, subst, Bool, true, false, Option, none, some, if◌then◌else◌,
  arith,
}
use navigation_server.Ikonvert.Connection.{
  Ikonvert, WaitEvent, wait_none, wait_msg, wait_conn, wait_acknak, CmdResult, in_ready,
  in_connected, Caller, starts, opening, answered, ends, waits_status, looks, written, waits_reply,
  waits_connected, failed, returns, World, acquire, after_reply, look, open_at, open_step,
  receive_line, Step, reads, opens, Reach, here, next,
}
use navigation_server.Ikonvert.Semaphore.{
  Stage, quiet, waiting, replying, has_reply, broken, stage, Sound, SoundIn, IsSound,
  handle-SoundIn,
}

abbrev AllSound : Option World → Type 0
AllSound none = Unit
AllSound (some w) = IsSound w

arms :
    (e : WaitEvent) (n : ℕ) (r : Option CmdResult)
    → Sound quiet e n r
    → Sound waiting wait_msg n r × Sound replying wait_acknak n r
arms wait_none zero r h = (tt, tt)
arms wait_none (suc n) r h = absurd h
arms wait_msg n r h = absurd h
arms wait_conn n r h = absurd h
arms wait_acknak n r h = absurd h

quiet_result :
    (e : WaitEvent) (n : ℕ) (r r' : Option CmdResult) → Sound quiet e n r → Sound quiet e n r'
quiet_result wait_none zero r r' h = tt
quiet_result wait_none (suc n) r r' h = absurd h
quiet_result wait_msg n r r' h = absurd h
quiet_result wait_conn n r r' h = absurd h
quiet_result wait_acknak n r r' h = absurd h

starts-Sound :
    (b : Bool) (k : Ikonvert)
    → SoundIn quiet k
    → IsSound (
        if b
        then record { caller = returns true; gateway = k }
        else record { caller = opening; gateway = k })
starts-Sound true k h = h
starts-Sound false k h = h

look-Sound : (b : Bool) (k : Ikonvert) → SoundIn quiet k → IsSound (look b k)
look-Sound true k h = quiet_result k.wait_event k.wait_sem k.cmd_result none h
look-Sound false k h = h

-- A wait that is over leaves the semaphore at 0.
acquire-Sound :
    (e : WaitEvent) (n : ℕ) (after : Caller) (k : Ikonvert)
    → (Sound quiet wait_none 0 k.cmd_result → Sound (stage after) wait_none 0 k.cmd_result)
    → Sound waiting e n k.cmd_result
    → AllSound (acquire n after (record k { wait_event = e }))
acquire-Sound e zero after k goes h = tt
acquire-Sound wait_none (suc zero) after k goes h = goes tt
acquire-Sound wait_none (suc (suc n)) after k goes h = absurd h
acquire-Sound wait_msg (suc n) after k goes h = absurd h
acquire-Sound wait_conn (suc n) after k goes h = absurd h
acquire-Sound wait_acknak (suc n) after k goes h = absurd h

reply-Sound :
    (e : WaitEvent) (n : ℕ) (r : Option CmdResult) (k : Ikonvert)
    → Sound replying e n r
    → AllSound (acquire n answered (record k { wait_event = e; cmd_result = r }))
reply-Sound e zero r k h = tt
reply-Sound wait_none (suc zero) none k h = absurd h
reply-Sound wait_none (suc zero) (some c) k h = tt
reply-Sound wait_none (suc (suc n)) r k h = absurd h
reply-Sound wait_msg (suc n) r k h = absurd h
reply-Sound wait_conn (suc n) r k h = absurd h
reply-Sound wait_acknak (suc n) r k h = absurd h

answered-Sound :
    (e : WaitEvent) (n : ℕ) (r : Option CmdResult) (k : Ikonvert)
    → Sound has_reply e n r
    → IsSound (after_reply r (record k { wait_event = e; wait_sem = n; cmd_result = r }))
answered-Sound wait_none zero none k h = absurd h
answered-Sound wait_none zero (some c) k h = tt
answered-Sound wait_none (suc n) r k h = absurd h
answered-Sound wait_msg n r k h = absurd h
answered-Sound wait_conn n r k h = absurd h
answered-Sound wait_acknak n r k h = absurd h

open_at-Sound : (at : Caller) (k : Ikonvert) → SoundIn (stage at) k → AllSound (open_at at k)
open_at-Sound starts k h = starts-Sound (in_connected k.ikstate) k h
open_at-Sound opening k h = (arms k.wait_event k.wait_sem k.cmd_result h).0
open_at-Sound looks k h = look-Sound (in_ready k.ikstate) k h
open_at-Sound written k h = (arms k.wait_event k.wait_sem k.cmd_result h).1
open_at-Sound waits_status k h = acquire-Sound k.wait_event k.wait_sem looks k (λ q. q) h
open_at-Sound waits_reply k h = reply-Sound k.wait_event k.wait_sem k.cmd_result k h
open_at-Sound answered k h = answered-Sound k.wait_event k.wait_sem k.cmd_result k h
open_at-Sound waits_connected k h = acquire-Sound k.wait_event k.wait_sem ends k (λ q. q) h
open_at-Sound ends k h = h
open_at-Sound failed k h = tt
open_at-Sound (returns b) k h = tt

Step-Sound : (w w' : World) → Step w w' → IsSound w → IsSound w'
unfolding receive_line open_step
Step-Sound w w' (reads m) h = handle-SoundIn (stage w.caller) m w.gateway h
Step-Sound w w' (opens v e) h = subst AllSound e (open_at-Sound w.caller w.gateway h)

Reach-Sound : (w w' : World) → Reach w w' → IsSound w → IsSound w'
Reach-Sound w w' here h = h
Reach-Sound w w' (next {v} {u} r st) h = Step-Sound v u st (Reach-Sound w v r h)

at_most_one : (s : Stage) (e : WaitEvent) (n : ℕ) (r : Option CmdResult) → Sound s e n r → n ≤ 1
at_most_one s e zero r h = omega arith
at_most_one s e (suc zero) r h = omega arith
at_most_one quiet wait_none (suc (suc n)) r h = absurd h
at_most_one quiet wait_msg (suc (suc n)) r h = absurd h
at_most_one quiet wait_conn (suc (suc n)) r h = absurd h
at_most_one quiet wait_acknak (suc (suc n)) r h = absurd h
at_most_one waiting wait_none (suc (suc n)) r h = absurd h
at_most_one waiting wait_msg (suc (suc n)) r h = absurd h
at_most_one waiting wait_conn (suc (suc n)) r h = absurd h
at_most_one waiting wait_acknak (suc (suc n)) r h = absurd h
at_most_one replying wait_none (suc (suc n)) r h = absurd h
at_most_one replying wait_msg (suc (suc n)) r h = absurd h
at_most_one replying wait_conn (suc (suc n)) r h = absurd h
at_most_one replying wait_acknak (suc (suc n)) r h = absurd h
at_most_one has_reply wait_none (suc (suc n)) r h = absurd h
at_most_one has_reply wait_msg (suc (suc n)) r h = absurd h
at_most_one has_reply wait_conn (suc (suc n)) r h = absurd h
at_most_one has_reply wait_acknak (suc (suc n)) r h = absurd h
at_most_one broken e (suc (suc n)) r h = absurd h

not_failed : (at : Caller) (k : Ikonvert) → SoundIn (stage at) k → at ≢ failed
not_failed at k h e = subst (λ a. SoundIn (stage a) k) e h

-- From a gateway for which nobody waits, whatever the thread of `open` and the reading thread do, in any order:
-- `open` never reads the result of a command that has none, the semaphore is never above 1, and an event is
-- waited for only while the semaphore is 0 and `open` is at its wait.
pub open-IsSound :
    (k : Ikonvert) (w : World)
    → k.wait_event ≡ wait_none
    → k.wait_sem ≡ 0
    → Reach (record { caller = starts; gateway = k }) w
    → (w.caller ≢ failed) × (w.gateway.wait_sem ≤ 1) × IsSound w
open-IsSound k w no_event no_release r =
    let start : SoundIn quiet k =
      subst (λ e. Sound quiet e k.wait_sem k.cmd_result) (sym no_event)
        (subst (λ n. Sound quiet wait_none n k.cmd_result) (sym no_release) tt) in
    let sound = Reach-Sound (record { caller = starts; gateway = k }) w r start in
    (
      not_failed w.caller w.gateway sound,
      at_most_one (stage w.caller) w.gateway.wait_event w.gateway.wait_sem w.gateway.cmd_result
          sound,
      sound,
    )
