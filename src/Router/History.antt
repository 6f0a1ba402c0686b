-- ===== src/Router/History.antt =====
-- Histories of the router: what its two listeners hand to the event loop, one handler at a time
-- (router/internal.go, router/portal.go), between what sessions do on their own.
use gogame.Common.{ℕ, List, [], ◌∷◌, Option, none, some}
use gogame.Session.{new_session, expire, proxy_receive}
use gogame.Connection.{new_connection}
use gogame.Router.{Server, update_session}
use gogame.Router.Sync.{Env, statistics}
use gogame.Router.Internal
use gogame.Router.Portal

pub data Listener : Type 0 where
  internal portal : Listener

-- A frame arrives for a session at a time; a session is disconnected; the verify timer of a session
-- runs out; the statistics are due.
pub data Event : Type 0 where
  arrives : Listener → ℕ → ℕ → List ℕ → Event
  closes : Listener → ℕ → Event
  expires : ℕ → Event
  counts : Event

-- `NewServer`, with no client; every session of the store is new.
unfoldable pub new_server : Server
unfolding new_session new_connection
new_server = record {
  portal_clients = [];
  game_clients = [];
  team_clients = [];
  msg_to_portal_cnt = 0;
  last_msg_to_portal_cnt = 0;
  sessions = λ s. new_session new_connection;
  clients = λ r. record { session = 0; id = 0; svr_type = 0; send_cnt = 0; last_send_cnt = 0 };
  next_client = 0;
}

unfoldable pub listener_receive : Env → Listener → ℕ → List ℕ → Server → Server
unfolding Internal.receive Portal.receive
listener_receive env internal s b sv = Internal.receive env s b sv
listener_receive env portal s b sv = Portal.receive env s b sv

unfoldable pub listener_closed : Env → Listener → ℕ → Server → Server
unfolding Internal.handle_closed Portal.handle_closed
listener_closed env internal s sv = Internal.handle_closed env s sv
listener_closed env portal s sv = Portal.handle_closed s sv

abbrev pub if_kept : (List ℕ → Server → Server) → Option (List ℕ) → Server → Server
if_kept handle none sv = sv
if_kept handle (some b) sv = handle b sv

-- The session's limit comes before the listener (`SessionProxy.Receive`).
unfoldable pub arrive : Env → Listener → ℕ → ℕ → List ℕ → Server → Server
unfolding proxy_receive listener_receive
arrive env l now s b sv =
    let (x, kept) = proxy_receive now b (sv.sessions s) in
    if_kept (listener_receive env l s) kept (update_session s (λ y. x) sv)

unfoldable pub step : Env → Server → Event → Server
unfolding arrive listener_closed expire statistics
step env sv (arrives l now s b) = arrive env l now s b sv
step env sv (closes l s) = listener_closed env l s sv
step env sv (expires s) = update_session s expire sv
step env sv counts = statistics sv

unfoldable pub run : Env → Server → List Event → Server
unfolding step
run env sv [] = sv
run env sv (e ∷ es) = run env (step env sv e) es
