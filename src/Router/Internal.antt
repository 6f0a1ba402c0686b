-- ===== src/Router/Internal.antt =====
-- The listener for game and team servers (router/internal.go).
use gogame.Common.{ℕ, Bool, List, Option, none, some, ◌==◌, if◌then◌else◌}
use gogame.Consts.EntityType
use gogame.Consts.SsCmd
use gogame.Consts.TransType
use gogame.Message.{SsMessage, unpack_ss_message}
use gogame.Session.{Session, verify}
use gogame.Router.{Server, Kind, portals, games, teams, type_of, update_session, new_router_client}
use gogame.Router.{send_msg, close, add_client, remove_client, get_client, broadcast}
use gogame.Router.Sync.{Env, broadcast_sync}

-- `session.Userdata = r`
abbrev pub set_userdata : Option ℕ → Session → Session
set_userdata r s = record s { userdata = r }

-- The client leaves its registry, and the portals are told.
unfoldable pub drop_server : Env → Kind → ℕ → Server → Server
unfolding remove_client broadcast_sync
drop_server env k r sv = broadcast_sync env k (remove_client k r sv)

unfoldable pub close_client : Env → ℕ → Server → Server
unfolding drop_server
close_client env r sv =
    let svr_type = (sv.clients r).svr_type in
    if svr_type == EntityType.game_svr
    then drop_server env games r sv
    else if svr_type == EntityType.team_svr
    then drop_server env teams r sv
    else sv

unfoldable pub handle_closed : Env → ℕ → Server → Server
unfolding close_client
handle_closed env s sv =
    if (sv.sessions s).verified
    then elim (sv.sessions s).userdata [
      | none ↦ sv
      | some r ↦ close_client env r (update_session s (set_userdata none) sv)
    ]
    else sv

-- The session is verified and its client registered, and the portals are told.
unfoldable pub ready_server : Env → Kind → ℕ → ℕ → Server → Server
unfolding new_router_client verify add_client broadcast_sync
ready_server env k s id sv =
    let (sv', r) = new_router_client s id (type_of k) sv in
    let sv'' = update_session s (λ x. set_userdata (some r) (verify x)) sv' in
    broadcast_sync env k (add_client k r sv'')

unfoldable pub handle_ready : Env → ℕ → SsMessage → Server → Server
unfolding ready_server
handle_ready env s msg sv =
    let src_type = msg.head.src_type in
    if src_type == EntityType.game_svr
    then ready_server env games s msg.head.src_id sv
    else if src_type == EntityType.team_svr
    then ready_server env teams s msg.head.src_id sv
    else sv

unfoldable pub send_to : SsMessage → Option ℕ → Server → Server
unfolding send_msg
send_to msg none sv = sv
send_to msg (some r) sv = send_msg msg r sv

unfoldable pub handle_msg : SsMessage → Server → Server
unfolding send_to get_client broadcast
handle_msg msg sv =
    let trans_type = msg.head.trans_type in
    if trans_type == TransType.by_key
    then send_to msg (get_client portals msg.head.dst_id sv) sv
    else if trans_type == TransType.broadcast
    then broadcast portals msg sv
    else sv

unfoldable pub handle_verify_msg : ℕ → SsMessage → Server → Server
unfolding send_msg close handle_msg
handle_verify_msg r msg sv =
    let cmd = msg.head.ss_cmd in
    if cmd == SsCmd.heartbeat
    then send_msg msg r sv
    else if cmd == SsCmd.disconnect
    then close r sv
    else if cmd == SsCmd.msg
    then handle_msg msg sv
    else sv

-- What `handleMessage` does with a message that is not READY.
abbrev pub from_client : (ℕ → Server → Server) → Bool → Option ℕ → Server → Server
from_client handle verified none sv = sv
from_client handle verified (some r) sv = if verified then handle r sv else sv

unfoldable pub handle_message : Env → ℕ → SsMessage → Server → Server
unfolding handle_ready handle_verify_msg
handle_message env s msg sv =
    if msg.head.ss_cmd == SsCmd.ready
    then handle_ready env s msg sv
    else from_client (λ r. handle_verify_msg r msg) (sv.sessions s).verified
        (sv.sessions s).userdata sv

-- `Receive`: a buffer that cannot be unpacked is dropped.
unfoldable pub receive : Env → ℕ → List ℕ → Server → Server
unfolding unpack_ss_message handle_message
receive env s b sv = elim (unpack_ss_message b) [
  | none ↦ sv
  | some msg ↦ handle_message env s msg sv
]
