-- ===== src/Ikonvert/Semaphore.antt =====
-- The semaphore and the event of `iKonvert` in navigation_server/couplers/ikonvert.py, under its handlers.
use navigation_server.Base.{
  ℕ, suc, zero, ◌≡◌, refl, sym, subst, Bool, true, false, Option, none, some, length, if◌then◌else◌,
}
use navigation_server.Ikonvert.{IkonvertMsg, status, not_conn, ack, nak, n183, n2k}
use navigation_server.Ikonvert.Connection.{
  has_room, Ikonvert, IkState, idle, ready, connected, WaitEvent, wait_none, wait_msg, wait_conn,
  wait_acknak, CmdResult, acked, naked, Queued, release_msg, release_conn, on_connected,
  put_connected, reply_at, process_nmea, handle, when_connected, queued, process_status, Caller,
  starts, opening, answered, ends, waits_status, looks, written, waits_reply, waits_connected,
  failed, returns, World,
}

-- What the caller does with the semaphore.
pub data Stage : Type 0 where
  quiet waiting replying has_reply broken : Stage

abbrev pub stage : Caller → Stage
stage starts = quiet
stage opening = quiet
stage looks = quiet
stage ends = quiet
stage written = quiet
stage (returns b) = quiet
stage waits_status = waiting
stage waits_connected = waiting
stage waits_reply = replying
stage answered = has_reply
stage failed = broken

-- The event that is waited for and the semaphore, at each stage: a wait is not released_once yet, or once.
abbrev pub Sound : Stage → WaitEvent → ℕ → Option CmdResult → Type 0
Sound quiet wait_none zero r = Unit
Sound quiet wait_none (suc n) r = ⊥
Sound quiet wait_msg n r = ⊥
Sound quiet wait_conn n r = ⊥
Sound quiet wait_acknak n r = ⊥
Sound waiting wait_none zero r = ⊥
Sound waiting wait_none (suc zero) r = Unit
Sound waiting wait_none (suc (suc n)) r = ⊥
Sound waiting wait_msg zero r = Unit
Sound waiting wait_msg (suc n) r = ⊥
Sound waiting wait_conn n r = ⊥
Sound waiting wait_acknak n r = ⊥
Sound replying wait_none zero r = ⊥
Sound replying wait_none (suc zero) none = ⊥
Sound replying wait_none (suc zero) (some c) = Unit
Sound replying wait_none (suc (suc n)) r = ⊥
Sound replying wait_msg n r = ⊥
Sound replying wait_conn n r = ⊥
Sound replying wait_acknak zero r = Unit
Sound replying wait_acknak (suc n) r = ⊥
Sound has_reply wait_none zero none = ⊥
Sound has_reply wait_none zero (some c) = Unit
Sound has_reply wait_none (suc n) r = ⊥
Sound has_reply wait_msg n r = ⊥
Sound has_reply wait_conn n r = ⊥
Sound has_reply wait_acknak n r = ⊥
Sound broken e n r = ⊥

abbrev pub SoundIn : Stage → Ikonvert → Type 0
SoundIn s k = Sound s k.wait_event k.wait_sem k.cmd_result

abbrev pub IsSound : World → Type 0
IsSound w = SoundIn (stage w.caller) w.gateway

woken :
    (s : Stage) (n : ℕ) (r : Option CmdResult) → Sound s wait_msg n r → Sound s wait_none (suc n) r
woken waiting zero r h = tt
woken waiting (suc n) r h = absurd h
woken quiet n r h = absurd h
woken replying n r h = absurd h
woken has_reply n r h = absurd h
woken broken n r h = absurd h

no_conn : (s : Stage) (n : ℕ) (r : Option CmdResult) → Sound s wait_conn n r → ⊥
no_conn quiet n r h = h
no_conn waiting n r h = h
no_conn replying n r h = h
no_conn has_reply n r h = h
no_conn broken n r h = h

replied :
    (s : Stage) (n : ℕ) (r : Option CmdResult) (c : CmdResult)
    → Sound s wait_acknak n r
    → Sound s wait_none (suc n) (some c)
replied replying zero r c h = tt
replied replying (suc n) r c h = absurd h
replied quiet n r c h = absurd h
replied waiting n r c h = absurd h
replied has_reply n r c h = absurd h
replied broken n r c h = absurd h

release_conn-SoundIn :
    (s : Stage) (e : WaitEvent) (k : Ikonvert)
    → Sound s e k.wait_sem k.cmd_result
    → SoundIn s (release_conn e (record k { wait_event = e }))
release_conn-SoundIn s wait_none k h = h
release_conn-SoundIn s wait_acknak k h = h
release_conn-SoundIn s wait_msg k h = woken s k.wait_sem k.cmd_result h
release_conn-SoundIn s wait_conn k h = absurd (no_conn s k.wait_sem k.cmd_result h)

release_msg-SoundIn :
    (s : Stage) (e : WaitEvent) (k : Ikonvert)
    → Sound s e k.wait_sem k.cmd_result
    → SoundIn s (release_msg e (record k { wait_event = e }))
release_msg-SoundIn s wait_none k h = h
release_msg-SoundIn s wait_acknak k h = h
release_msg-SoundIn s wait_msg k h = woken s k.wait_sem k.cmd_result h
release_msg-SoundIn s wait_conn k h = h

reply_at-SoundIn :
    (s : Stage) (e : WaitEvent) (c : CmdResult) (k : Ikonvert)
    → Sound s e k.wait_sem k.cmd_result
    → SoundIn s (reply_at e c (record k { wait_event = e }))
reply_at-SoundIn s wait_none c k h = h
reply_at-SoundIn s wait_msg c k h = h
reply_at-SoundIn s wait_conn c k h = h
reply_at-SoundIn s wait_acknak c k h = replied s k.wait_sem k.cmd_result c h

on_connected-SoundIn : (s : Stage) (k : Ikonvert) → SoundIn s k → SoundIn s (on_connected k)
on_connected-SoundIn s k h =
    release_conn-SoundIn s k.wait_event (record k { ikstate = connected }) h

put_if-SoundIn :
    (s : Stage) (room : Bool) (k k' : Ikonvert)
    → SoundIn s k
    → SoundIn s k'
    → SoundIn s (if room then k else k')
put_if-SoundIn s true k k' h h' = h
put_if-SoundIn s false k k' h h' = h'

put_connected-SoundIn :
    (s : Stage) (i : IkState) (q : Queued) (k : Ikonvert)
    → SoundIn s k
    → SoundIn s (put_connected i q k)
put_connected-SoundIn s connected q k h =
    put_if-SoundIn s (has_room k.queue_size (length k.queue)) _ k h h
put_connected-SoundIn s ready q k h = h
put_connected-SoundIn s idle q k h = h

-- A message that connects the gateway, where it is not connected.
module _ (m : IkonvertMsg) (connects : (k : Ikonvert) → process_status m k ≡ on_connected k) where
  when_connected-SoundIn :
      (s : Stage) (i : IkState) (k : Ikonvert) → SoundIn s k → SoundIn s (when_connected i m k)
  when_connected-SoundIn s connected k h = h
  when_connected-SoundIn s ready k h =
      subst (SoundIn s) (sym (connects k)) (on_connected-SoundIn s k h)
  when_connected-SoundIn s idle k h =
      subst (SoundIn s) (sym (connects k)) (on_connected-SoundIn s k h)

  process_nmea-SoundIn : (s : Stage) (k : Ikonvert) → SoundIn s k → SoundIn s (process_nmea m k)
  unfolding process_nmea
  process_nmea-SoundIn s k h =
      put_connected-SoundIn s (when_connected k.ikstate m k).ikstate (queued m) _
        (when_connected-SoundIn s k.ikstate k h)

pub handle-SoundIn :
    (s : Stage) (m : IkonvertMsg) (k : Ikonvert) → SoundIn s k → SoundIn s (handle m k)
unfolding handle
handle-SoundIn s (status values) k h = on_connected-SoundIn s k h
handle-SoundIn s (not_conn boot) k h =
    release_msg-SoundIn s k.wait_event (record k { ikstate = ready }) h
handle-SoundIn s (ack text) k h = reply_at-SoundIn s k.wait_event (acked text) k h
handle-SoundIn s (nak text) k h = reply_at-SoundIn s k.wait_event (naked text) k h
handle-SoundIn s (n183 raw) k h = process_nmea-SoundIn (n183 raw) (λ k'. refl) s k h
handle-SoundIn s (n2k raw m) k h = process_nmea-SoundIn (n2k raw m) (λ k'. refl) s k h
