-- ===== src/Router/Tests.antt =====
-- The router at concrete histories.
use gogame.Common.{true, ℕ, ◌<◌, ◌≡◌, refl, arith, List, [], ◌∷◌, none, some}
use gogame.Message.{SsMessage, unpack_ss_message}
use gogame.Router.{portals, Server, games, registry, type_of, get_client}
use gogame.Router.Sync.{Env}
use gogame.Router.History.{Event, internal, portal, arrives, expires}
use gogame.Router.History.{run, new_server, listener_receive, listener_closed}
use gogame.Router.Reachable.{registries_kept, clients_bound}
use gogame.Router.Copies.{reached, sends, copies}
use gogame.Router.Delivery.{by_key_delivered, broadcast_delivered, destination}
use gogame.Router.Reconnect.{ready_registered, closed_unregisters}
use gogame.Router.Replaced.{replaced_is_shut}
use gogame.Router.Ready.{origin}

abbrev env : Env
env = record { server_id = 1; marshal_sync = λ ids kind. some (ids, kind) }

abbrev message : ℕ → ℕ → ℕ → ℕ → ℕ → ℕ → List ℕ → SsMessage
message cmd trans src dst src_id dst_id body = record {
  head = record {
    ss_cmd = cmd;
    trans_type = trans;
    src_type = src;
    dst_type = dst;
    src_id = src_id;
    dst_id = dst_id;
  };
  body = body;
}

abbrev game_ready : List ℕ
game_ready = 1 ∷ 1 ∷ 3 ∷ 8 ∷ 0 ∷ 7 ∷ 0 ∷ 0 ∷ []

abbrev portal_ready : List ℕ
portal_ready = 1 ∷ 1 ∷ 2 ∷ 8 ∷ 0 ∷ 2 ∷ 0 ∷ 0 ∷ []

-- The game server 7 connects on session 3, the portal 2 on session 4.
abbrev history : List Event
history = arrives internal 10 3 game_ready ∷ arrives portal 20 4 portal_ready ∷ []

abbrev connected : Server
connected = run env new_server history

game_found : get_client games 7 connected ≡ some 0
unfolding run new_server get_client
game_found = refl

portal_bound : (connected.sessions 4).userdata ≡ some 1
unfolding run new_server get_client
portal_bound = refl

registries_kept_example :
    (0 < connected.next_client)
    × ((connected.clients 0).id ≡ 7)
    × ((connected.clients 0).svr_type ≡ type_of games)
registries_kept_example = registries_kept env history games 7 0 game_found

clients_bound_example : (connected.clients 1).session ≡ 4
clients_bound_example = clients_bound env history 4 1 portal_bound

-- A message by key from the portal to the game server 7, and a broadcast to game servers.
abbrev by_key_bytes : List ℕ
by_key_bytes = 3 ∷ 1 ∷ 2 ∷ 3 ∷ 0 ∷ 2 ∷ 0 ∷ 7 ∷ 42 ∷ []

abbrev by_key_message : SsMessage
by_key_message = message 3 1 2 3 2 7 (42 ∷ [])

abbrev broadcast_bytes : List ℕ
broadcast_bytes = 3 ∷ 2 ∷ 2 ∷ 3 ∷ 0 ∷ 2 ∷ 0 ∷ 0 ∷ 42 ∷ []

abbrev broadcast_message : SsMessage
broadcast_message = message 3 2 2 3 2 0 (42 ∷ [])

by_key_delivered_example :
    (listener_receive env portal 4 by_key_bytes connected).sessions 3
    ≡ reached by_key_bytes (get_client games 7 connected) connected 3
unfolding run new_server get_client unpack_ss_message destination
by_key_delivered_example =
    by_key_delivered env 4 1 by_key_bytes by_key_message connected refl refl refl refl portal games
      3 (omega arith) refl refl

broadcast_delivered_example :
    (listener_receive env portal 4 broadcast_bytes connected).sessions 3
    ≡ sends
        (copies connected.clients (registry games connected) 3)
        broadcast_bytes
        (connected.sessions 3)
unfolding run new_server unpack_ss_message destination
broadcast_delivered_example =
    broadcast_delivered env 4 1 broadcast_bytes broadcast_message connected refl refl refl refl
      portal games 3 (omega arith) refl refl

abbrev game_ready_message : SsMessage
game_ready_message = message 1 1 3 8 7 0 []

-- The game server 7 connects again, on session 5.
ready_registered_example :
    let sv = listener_receive env internal 5 game_ready connected in
    (get_client games 7 sv ≡ some connected.next_client)
    × ((sv.clients connected.next_client).session ≡ 5)
    × ((sv.sessions 5).userdata ≡ some connected.next_client)
unfolding unpack_ss_message origin
ready_registered_example =
    ready_registered env internal games 5 game_ready game_ready_message connected refl refl refl

-- Then the old session 3 is disconnected.
closed_unregisters_example :
    let sv = listener_receive env internal 5 game_ready connected in
    get_client games (sv.clients 0).id (listener_closed env internal 3 sv) ≡ none
unfolding run new_server listener_receive
closed_unregisters_example =
    closed_unregisters env games 3 0 (listener_receive env internal 5 game_ready connected)
      (λ e. cc) refl refl refl

-- Session 6 runs out of time before its READY message is handled.
abbrev expired : Server
expired = run env new_server (expires 6 ∷ [])

abbrev portal_ready_message : SsMessage
portal_ready_message = message 1 1 2 8 2 0 []

-- The portal 2 says READY again on the same session.
replaced_is_shut_example :
    ((listener_receive env portal 4 portal_ready connected).sessions 4).conn.closed ≡ true
unfolding run new_server unpack_ss_message origin get_client
replaced_is_shut_example =
    replaced_is_shut env portal portals 4 1 portal_ready portal_ready_message connected refl refl
      refl refl (omega arith)
