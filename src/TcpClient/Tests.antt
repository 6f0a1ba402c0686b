-- ===== src/TcpClient/Tests.antt =====
-- A client that is closed between its dial and the registration of the connection.
use gogame.Common.{ℕ, ◌≡◌, ◌⊎◌, refl, true, false, List, [], ◌∷◌, none, some, arith}
use gogame.TcpClient.{Event, proceeds, closes, run, new_tcp_client, get_connection}
use gogame.TcpClient.Served.{IsOpen, serves}
use gogame.TcpClient.Kept.{connections_kept}

abbrev dialling_up : Event
dialling_up = proceeds true true false

abbrev history : List Event
history = dialling_up ∷ dialling_up ∷ closes ∷ dialling_up ∷ []

one_dialled : (run new_tcp_client history).next ≡ 1
unfolding run new_tcp_client
one_dialled = refl

connections_kept_example :
    let s = run new_tcp_client history in
    ((s.socket_closed 0 ≡ true) ⊎ IsOpen s 0)
    × ((get_connection s ≡ none)
        ⊎ ((d : ℕ) × (get_connection s ≡ some d) × (serves s.loop d ≡ true)))
connections_kept_example = connections_kept history 0 (omega (arith, one_dialled))
