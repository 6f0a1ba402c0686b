-- ===== src/Session.antt =====
-- The sessions of base/network/session/session.go and proxy.go: the verify timer, the limit on
-- received messages, and sending through the connection.
-- A time is a number of nanoseconds. `Userdata` holds nil or a pointer to a router's client, which
-- is a reference (a number) here.
mod Tests
pub mod Limit
pub mod Verify
use gogame.Common.{ℕ, suc, ◌+◌, Bool, true, false, List, [], ◌∷◌, Option, none, some, ltb, ◌==◌}
use gogame.Common.{if◌then◌else◌}
use gogame.Connection.{Conn, Message, send, shutdown}

abbrev pub second : ℕ
second = 1000000000

-- A `time.AfterFunc` timer; `Stop` reports whether it was still pending.
pub data Timer : Type 0 where
  pending fired stopped : Timer

abbrev pub stop_timer : Timer → Timer × Bool
stop_timer pending = (stopped, true)
stop_timer fired = (fired, false)
stop_timer stopped = (stopped, false)

pub record Session : Type 0 where
  pub conn : Conn
  pub limit_per_second : ℕ
  pub last_count : ℕ
  pub last_time : ℕ
  pub verified : Bool
  pub verify_timer : Timer
  pub userdata : Option ℕ

unfoldable pub new_session : Conn → Session
new_session c = record {
  conn = c;
  limit_per_second = 0;
  last_count = 0;
  last_time = 0;
  verified = false;
  verify_timer = pending;
  userdata = none;
}

unfoldable pub set_receive_limit_per_second : ℕ → Session → Session
set_receive_limit_per_second limit s = record s { limit_per_second = limit }

-- Whether the message that arrives at the time `now` is above the limit.
unfoldable pub receive_limit : ℕ → Session → Session × Bool
receive_limit now s =
    if s.limit_per_second == 0
    then (s, false)
    else let count = s.last_count + 1 in
      if ltb s.limit_per_second count
      then if ltb now (s.last_time + second)
        then (record s { last_count = count }, true)
        else (record s { last_time = now; last_count = 0 }, false)
      else (record s { last_count = count }, false)

unfoldable pub verify : Session → Session
verify s =
    let (timer, was_pending) = stop_timer s.verify_timer in
    if s.verified
    then s
    else if was_pending
    then record s { verify_timer = timer; verified = true }
    else s

unfoldable pub session_send : Message → Session → Session
unfolding send
session_send b s = record s { conn = (send (b ∷ []) s.conn).0 }

unfoldable pub session_shutdown : Session → Session
unfolding shutdown
session_shutdown s =
    let timer = if s.verified then s.verify_timer else (stop_timer s.verify_timer).0 in
    record s { verify_timer = timer; conn = shutdown s.conn }

-- The timer runs out: a pending one fires and calls `verifyTimeout`, any other does nothing.
unfoldable pub expire : Session → Session
unfolding shutdown
expire s = elim s.verify_timer [
  | pending ↦ record s { verify_timer = fired; conn = shutdown s.conn }
  | fired ↦ s
  | stopped ↦ s
]

-- `SessionProxy.Receive`: the message for the handler, unless the limit is passed.
unfoldable pub proxy_receive : ℕ → Message → Session → Session × Option Message
unfolding receive_limit session_shutdown
proxy_receive now b s =
    let (s', over) = receive_limit now s in
    if over then (session_shutdown s', none) else (s', some b)
