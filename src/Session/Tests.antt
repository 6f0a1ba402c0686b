-- ===== src/Session/Tests.antt =====
-- The sessions of base/network/session at concrete histories.
use gogame.Common.{ℕ, true, false, ◌≢◌, ◌⊎◌, List, [], ◌∷◌, ◌≡◌, ◌≤◌, ◌+◌, ◌*◌, refl, arith}
use gogame.Connection.{new_connection}
use gogame.Session.{Session, second, new_session, receive_limit, fired, expire, verify}
use gogame.Session.Verify.{
  run, limits, receives, verifies, replies, expires, verified_or_expired, Event,
}
use gogame.Session.Limit.{receive_all, rate_bound}

-- Two messages a second, the last reset at 0.
abbrev limited_to_two : Session
limited_to_two = record (new_session new_connection) { limit_per_second = 2 }

abbrev times : List ℕ
times = 10 ∷ 20 ∷ 1000000020 ∷ 1000000030 ∷ []

times_pass : (receive_all times limited_to_two).1 ≡ true
unfolding receive_all receive_limit new_session
times_pass = refl

rate_bound_example :
    (periods : ℕ) × (limited_to_two.last_time + periods * second
      ≤ (receive_all times limited_to_two).0.last_time)
    × (4 ≤ (2 + 1) * periods + 2)
unfolding new_session
rate_bound_example = rate_bound 2 times limited_to_two (omega arith) refl refl times_pass

abbrev verified_history : List Event
verified_history = limits 5 ∷ receives 7 (1 ∷ []) ∷ verifies ∷ replies (2 ∷ []) ∷ expires ∷ []

verified_or_expired_example :
    let s = run (new_session new_connection) verified_history in
    ((s.verified ≡ false) ⊎ (expire s ≡ s))
    × ((s.verify_timer ≢ fired) ⊎ ((s.conn.closed ≡ true) × (verify s ≡ s)))
verified_or_expired_example = verified_or_expired new_connection verified_history
