-- ===== src/Session/Verify.antt =====
-- The verify timer of base/network/session/session.go: it cannot shut a verified session.
use gogame.Common.{ℕ, true, false, List, [], ◌∷◌, ◌≡◌, ◌≢◌, ◌⊎◌, inl, inr, refl, arith}
use gogame.Connection.{Conn, Message}
use gogame.Session.{Session, fired, stopped, new_session, verify}
use gogame.Session.{session_send, session_shutdown, expire, proxy_receive}
use gogame.Session.{set_receive_limit_per_second}

-- What can happen to a session.
pub data Event : Type 0 where
  limits : ℕ → Event
  receives : ℕ → Message → Event
  verifies : Event
  replies : Message → Event
  shuts : Event
  expires : Event

unfoldable pub step : Session → Event → Session
unfolding proxy_receive verify session_send session_shutdown expire set_receive_limit_per_second
step s (limits n) = set_receive_limit_per_second n s
step s (receives now b) = (proxy_receive now b s).0
step s verifies = verify s
step s (replies b) = session_send b s
step s shuts = session_shutdown s
step s expires = expire s

unfoldable pub run : Session → List Event → Session
run s [] = s
run s (e ∷ es) = run (step s e) es

-- A verified session has stopped its timer; a session whose timer fired is closed and not verified.
abbrev IsConsistent : Session → Type 0
IsConsistent s =
    ((s.verified ≡ true) × (s.verify_timer ≡ stopped))
    ⊎ ((s.verified ≡ false) × ((s.verify_timer ≢ fired) ⊎ (s.conn.closed ≡ true)))

step-IsConsistent : (s : Session) (e : Event) → IsConsistent s → IsConsistent (step s e)
unfolding step
step-IsConsistent s (limits n) h = ground arith
step-IsConsistent s (receives now b) h = ground arith
step-IsConsistent s verifies h = ground arith
step-IsConsistent s (replies b) h = ground arith
step-IsConsistent s shuts h = ground arith
step-IsConsistent s expires h = ground arith

run-IsConsistent : (s : Session) (es : List Event) → IsConsistent s → IsConsistent (run s es)
unfolding run
run-IsConsistent s [] h = h
run-IsConsistent s (e ∷ es) h = run-IsConsistent (step s e) es (step-IsConsistent s e h)

IsConsistent-idle :
    (s : Session)
    → IsConsistent s
    → ((s.verified ≡ false) ⊎ (expire s ≡ s))
      × ((s.verify_timer ≢ fired) ⊎ ((s.conn.closed ≡ true) × (verify s ≡ s)))
unfolding expire verify
IsConsistent-idle s h = (ground arith, ground arith)

new_session-IsConsistent : (c : Conn) → IsConsistent (new_session c)
unfolding new_session
new_session-IsConsistent c = inr (refl, inl (λ e. cc))

-- After any history of a new session: if it is verified, its timer running out changes nothing;
-- and if its timer fired, it is closed, and `Verify` does not verify it.
pub verified_or_expired :
    (c : Conn) (es : List Event)
    → let s = run (new_session c) es in
      ((s.verified ≡ false) ⊎ (expire s ≡ s))
      × ((s.verify_timer ≢ fired) ⊎ ((s.conn.closed ≡ true) × (verify s ≡ s)))
verified_or_expired c es =
    IsConsistent-idle (run (new_session c) es)
      (run-IsConsistent (new_session c) es (new_session-IsConsistent c))
