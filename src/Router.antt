-- ===== src/Router.antt =====
-- The router process (router/server.go and router/client.go): the registries of portals, game
-- servers and team servers, and sending to the clients in them.
-- Pointers are references, numbers into the two stores: `sessions` for *session.Session and
-- `clients` for *routeClient. The event loop runs one handler at a time (EventLoop), so a handler is
-- a function on the whole state. The 64-bit counters are not bounded here.
-- Children: `Sync` packs and broadcasts the server lists, `Internal` and `Portal` are the listeners,
-- and `History` puts them after the sessions' limits. About the registries are `Same`, `Registered`,
-- `Invariant`, `Forward` and `Reachable`; about who receives what `Received`, `Copies` and
-- `Delivery`; about connecting again `Ready`, `Joined`, `Replaced` and `Reconnect`.
pub mod Sync
pub mod Internal
pub mod Portal
pub mod Same
pub mod History
pub mod Registered
pub mod Invariant
pub mod Reachable
pub mod Ready
pub mod Joined
pub mod Replaced
pub mod Forward
pub mod Copies
mod Tests
pub mod Received
pub mod Delivery
pub mod Reconnect
use gogame.Common.{ℕ, suc, ◌+◌, Bool, List, [], ◌∷◌, Option, none, some, ◌==◌, if◌then◌else◌}
use gogame.Common.Assoc
use gogame.Consts.EntityType
use gogame.Message.{SsMessage, pack_ss_message}
use gogame.Session.{Session, session_send, session_shutdown}

pub record RouteClient : Type 0 where
  pub session : ℕ
  pub id : ℕ
  pub svr_type : ℕ
  pub send_cnt : ℕ
  pub last_send_cnt : ℕ

-- A map from server ids to clients.
abbrev pub Registry : Type 0
Registry = List (ℕ × ℕ)

pub record Server : Type 0 where
  pub portal_clients : Registry
  pub game_clients : Registry
  pub team_clients : Registry
  pub msg_to_portal_cnt : ℕ
  pub last_msg_to_portal_cnt : ℕ
  pub sessions : ℕ → Session
  pub clients : ℕ → RouteClient
  pub next_client : ℕ

-- A write to a store.
abbrev pub update {ℓ} : {A : Type ℓ} → (store : ℕ → A) (at : ℕ) (value : A) → ℕ → A
update store at value r = if r == at then value else store r

abbrev pub update_session : ℕ → (Session → Session) → Server → Server
update_session r f sv = record sv { sessions = update sv.sessions r (f (sv.sessions r)) }

-- `newRouterClient` allocates the next reference.
unfoldable pub new_router_client : ℕ → ℕ → ℕ → Server → Server × ℕ
new_router_client session id svr_type sv =
    let client : RouteClient = record {
      session = session;
      id = id;
      svr_type = svr_type;
      send_cnt = 0;
      last_send_cnt = 0;
    } in
    (
      record sv {
        clients = update sv.clients sv.next_client client;
        next_client = suc sv.next_client;
      },
      sv.next_client,
    )

unfoldable pub send_msg : SsMessage → ℕ → Server → Server
unfolding session_send pack_ss_message
send_msg msg r sv =
    let client = sv.clients r in
    let sent = update_session client.session (session_send (pack_ss_message msg)) sv in
    record sent { clients = update sv.clients r (record client { send_cnt = client.send_cnt + 1 }) }

unfoldable pub close : ℕ → Server → Server
unfolding session_shutdown
close r sv = update_session (sv.clients r).session session_shutdown sv

-- The three registries have the same operations, written out three times in the source.
pub data Kind : Type 0 where
  portals games teams : Kind

abbrev pub registry : Kind → Server → Registry
registry portals sv = sv.portal_clients
registry games sv = sv.game_clients
registry teams sv = sv.team_clients

abbrev pub set_registry : Kind → Registry → Server → Server
set_registry portals m sv = record sv { portal_clients = m }
set_registry games m sv = record sv { game_clients = m }
set_registry teams m sv = record sv { team_clients = m }

abbrev pub type_of : Kind → ℕ
type_of portals = EntityType.portal
type_of games = EntityType.game_svr
type_of teams = EntityType.team_svr

abbrev pub close_old : Option ℕ → Server → Server
close_old none sv = sv
close_old (some old) sv = close old sv

-- A client that is registered under the id already is closed, and replaced.
unfoldable pub add_client : Kind → ℕ → Server → Server
unfolding close Assoc.lookup Assoc.insert
add_client k r sv =
    let id = (sv.clients r).id in
    let sv' = close_old (Assoc.lookup id (registry k sv)) sv in
    set_registry k (Assoc.insert id r (registry k sv)) sv'

-- The entry goes by the id alone, whichever client it holds.
unfoldable pub remove_client : Kind → ℕ → Server → Server
unfolding Assoc.lookup Assoc.remove
remove_client k r sv =
    let id = (sv.clients r).id in
    elim (Assoc.lookup id (registry k sv)) [
      | none ↦ sv
      | some _ ↦ set_registry k (Assoc.remove id (registry k sv)) sv
    ]

unfoldable pub get_client : Kind → ℕ → Server → Option ℕ
unfolding Assoc.lookup
get_client k id sv = Assoc.lookup id (registry k sv)

-- `for _, client := range registry { client.SendMsg(msg) }`
unfoldable pub send_all : SsMessage → Registry → Server → Server
unfolding send_msg
send_all msg [] sv = sv
send_all msg ((id, r) ∷ m) sv = send_all msg m (send_msg msg r sv)

unfoldable pub broadcast : Kind → SsMessage → Server → Server
unfolding send_all
broadcast k msg sv = send_all msg (registry k sv) sv
