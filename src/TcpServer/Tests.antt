-- ===== src/TcpServer/Tests.antt =====
-- A server that accepts two connections and is closed while it hands over the second.
use gogame.Common.{◌≡◌, ◌≢◌, ◌⊎◌, refl, sym, ◌∙◌, true, List, [], ◌∷◌}
use gogame.TcpServer.{unborn, pending, connects, Event, listens, closes, run, new_tcp_server}
use gogame.TcpServer.Tracked.{has_accepted}
use gogame.TcpServer.Closed.{closed_closes_all}

abbrev accepting_one : Event
accepting_one = listens true connects

-- The two steps before the loop, two for each connection but the last, and `Close`.
abbrev history : List Event
history =
    accepting_one ∷ accepting_one ∷ accepting_one ∷ accepting_one ∷ accepting_one ∷ closes ∷ []

is_closed : (run new_tcp_server history).closed ≡ true
unfolding run new_tcp_server
is_closed = refl

second-pending : (run new_tcp_server history).phase 1 ≡ pending
unfolding run new_tcp_server
second-pending = refl

second_accepted : (run new_tcp_server history).phase 1 ≢ unborn
second_accepted e = absurd (let f = sym second-pending ∙ e in cc)

closed_closes_all_example :
    let s = run new_tcp_server history in
    (s.socket_closed 1 ≡ true) ⊎ (has_accepted s.loop 1 ≡ true)
closed_closes_all_example = closed_closes_all history 1 is_closed second_accepted
