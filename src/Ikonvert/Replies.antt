-- ===== src/Ikonvert/Replies.antt =====
-- The waits of `iKonvert.open` in navigation_server/couplers/ikonvert.py and the lines that end them.
use navigation_server.Base.{
  ℕ, suc, zero, ◌<◌, ◌≡◌, ◌⊎◌, inl, inr, refl, ap, subst, Bool, true, false, Option, none, some,
  List, [], ◌∷◌, arith, ◌∙◌,
}
use navigation_server.Ikonvert.{IkonvertMsg, status, not_conn, ack, nak, n183, n2k}
use navigation_server.Ikonvert.Connection.{
  Ikonvert, ready, connected, WaitEvent, wait_none, wait_msg, wait_conn, wait_acknak, CmdResult,
  release_msg, release_conn, handle, Caller, starts, waits_status, waits_connected, World, acquire,
  open_at, open_step, receive_line, Reach,
}
use navigation_server.Ikonvert.Semaphore.{Sound, SoundIn, waiting, stage}
use navigation_server.Ikonvert.Opening.{open-IsSound}

abbrev pub proceeds : Option World → Bool
proceeds none = false
proceeds (some w) = true

-- A line that tells whether the gateway is connected, and one that is no reply to a command.
abbrev pub TellsStatus : IkonvertMsg → Type 0
TellsStatus (status values) = Unit
TellsStatus (not_conn boot) = Unit
TellsStatus (ack text) = ⊥
TellsStatus (nak text) = ⊥
TellsStatus (n183 raw) = ⊥
TellsStatus (n2k raw m) = ⊥

abbrev pub IsNoReply : IkonvertMsg → Type 0
IsNoReply (status values) = Unit
IsNoReply (not_conn boot) = Unit
IsNoReply (ack text) = ⊥
IsNoReply (nak text) = ⊥
IsNoReply (n183 raw) = Unit
IsNoReply (n2k raw m) = Unit

abbrev pub NoReplies : List IkonvertMsg → Type 0
NoReplies [] = Unit
NoReplies (m ∷ ms) = IsNoReply m × NoReplies ms

abbrev pub receive_lines : List IkonvertMsg → World → World
receive_lines [] w = w
receive_lines (m ∷ ms) w = receive_lines ms (receive_line m w)

released_once : (n : ℕ) (r : Option CmdResult) → Sound waiting wait_none n r → 0 < n
released_once zero r h = absurd h
released_once (suc n) r h = omega arith

conn_releases :
    (e : WaitEvent) (k : Ikonvert)
    → Sound waiting e k.wait_sem k.cmd_result
    → 0 < (release_conn e k).wait_sem
conn_releases wait_msg k h = omega arith
conn_releases wait_conn k h = absurd h
conn_releases wait_acknak k h = absurd h
conn_releases wait_none k h = released_once k.wait_sem k.cmd_result h

msg_releases :
    (e : WaitEvent) (k : Ikonvert)
    → Sound waiting e k.wait_sem k.cmd_result
    → 0 < (release_msg e k).wait_sem
msg_releases wait_msg k h = conn_releases wait_msg k h
msg_releases wait_conn k h = absurd h
msg_releases wait_acknak k h = absurd h
msg_releases wait_none k h = conn_releases wait_none k h

handle_releases :
    (m : IkonvertMsg) (k : Ikonvert) → TellsStatus m → SoundIn waiting k → 0 < (handle m k).wait_sem
unfolding handle
handle_releases (status values) k t h =
    conn_releases k.wait_event (record k { ikstate = connected }) h
handle_releases (not_conn boot) k t h = msg_releases k.wait_event (record k { ikstate = ready }) h
handle_releases (ack text) k t h = absurd t
handle_releases (nak text) k t h = absurd t
handle_releases (n183 raw) k t h = absurd t
handle_releases (n2k raw m) k t h = absurd t

acquire-proceeds :
    (n : ℕ) (after : Caller) (k : Ikonvert) → 0 < n → proceeds (acquire n after k) ≡ true
acquire-proceeds zero after k h = absurd (omega (arith, h))
acquire-proceeds (suc n) after k h = refl

at_status :
    (at : Caller) (m : IkonvertMsg) (k : Ikonvert)
    → (at ≡ waits_status) ⊎ (at ≡ waits_connected)
    → TellsStatus m
    → (at ≡ waits_status → SoundIn waiting k)
    → (at ≡ waits_connected → SoundIn waiting k)
    → proceeds (open_at at (handle m k)) ≡ true
at_status at m k (inl e) t first last =
    ap (λ a. proceeds (open_at a (handle m k))) e
    ∙ acquire-proceeds _ _ _ (handle_releases m k t (first e))
at_status at m k (inr e) t first last =
    ap (λ a. proceeds (open_at a (handle m k))) e
    ∙ acquire-proceeds _ _ _ (handle_releases m k t (last e))

-- However `open` came to one of its two waits for a status, from a gateway for which nobody waited, a line that tells
-- whether the gateway is connected lets it go on.
pub open_proceeds :
    (k : Ikonvert) (w : World) (m : IkonvertMsg)
    → k.wait_event ≡ wait_none
    → k.wait_sem ≡ 0
    → Reach (record { caller = starts; gateway = k }) w
    → (w.caller ≡ waits_status) ⊎ (w.caller ≡ waits_connected)
    → TellsStatus m
    → proceeds (open_step (receive_line m w)) ≡ true
unfolding open_step receive_line
open_proceeds k w m no_event no_release r at t =
    let sound = (open-IsSound k w no_event no_release r).2 in
    at_status w.caller m w.gateway at t (λ e. subst (λ a. SoundIn (stage a) w.gateway) e sound)
      (λ e. subst (λ a. SoundIn (stage a) w.gateway) e sound)

-- The gateway waits for a reply, and the semaphore is 0.
abbrev Awaits : Ikonvert → Type 0
Awaits k = (k.wait_event ≡ wait_acknak) × (k.wait_sem ≡ 0)
