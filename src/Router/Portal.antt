-- ===== src/Router/Portal.antt =====
-- The listener for portals (router/portal.go).
use gogame.Common.{ℕ, ◌+◌, List, none, some, ◌==◌, if◌then◌else◌}
use gogame.Consts.EntityType
use gogame.Consts.SsCmd
use gogame.Consts.TransType
use gogame.Message.{SsMessage, unpack_ss_message}
use gogame.Session.{verify}
use gogame.Router.{Server, Kind, portals, games, teams, type_of, update_session, new_router_client}
use gogame.Router.{send_msg, close, add_client, remove_client, get_client, broadcast}
use gogame.Router.Sync.{Env, send_sync}
use gogame.Router.Internal.{set_userdata, send_to, from_client}

unfoldable pub handle_closed : ℕ → Server → Server
unfolding remove_client
handle_closed s sv =
    if (sv.sessions s).verified
    then elim (sv.sessions s).userdata [
      | none ↦ sv
      | some r ↦ remove_client portals r (update_session s (set_userdata none) sv)
    ]
    else sv

-- The portal is registered, and sent the lists of the game and team servers.
unfoldable pub handle_ready : Env → ℕ → SsMessage → Server → Server
unfolding new_router_client verify add_client send_sync
handle_ready env s msg sv =
    let (sv', r) = new_router_client s msg.head.src_id (type_of portals) sv in
    let sv'' = update_session s (λ x. set_userdata (some r) (verify x)) sv' in
    send_sync env teams r (send_sync env games r (add_client portals r sv''))

-- A message for the servers of one kind.
unfoldable pub route : Kind → SsMessage → Server → Server
unfolding send_to get_client broadcast
route k msg sv =
    let trans_type = msg.head.trans_type in
    if trans_type == TransType.by_key
    then send_to msg (get_client k msg.head.dst_id sv) sv
    else if trans_type == TransType.broadcast
    then broadcast k msg sv
    else sv

unfoldable pub handle_msg : SsMessage → Server → Server
unfolding route
handle_msg msg sv =
    let dst_type = msg.head.dst_type in
    if dst_type == EntityType.game_svr
    then route games msg sv
    else if dst_type == EntityType.team_svr
    then route teams msg sv
    else sv

unfoldable pub handle_verify_msg : ℕ → SsMessage → Server → Server
unfolding send_msg close handle_msg
handle_verify_msg r msg sv =
    let cmd = msg.head.ss_cmd in
    if cmd == SsCmd.heartbeat
    then send_msg msg r sv
    else if cmd == SsCmd.disconnect
    then close r sv
    else if cmd == SsCmd.msg
    then handle_msg msg sv
    else sv

unfoldable pub dispatch_message : Env → ℕ → SsMessage → Server → Server
unfolding handle_ready handle_verify_msg
dispatch_message env s msg sv =
    if msg.head.ss_cmd == SsCmd.ready
    then handle_ready env s msg sv
    else from_client (λ r. handle_verify_msg r msg) (sv.sessions s).verified
        (sv.sessions s).userdata sv

-- Every message is counted, whatever becomes of it.
unfoldable pub handle_message : Env → ℕ → SsMessage → Server → Server
unfolding dispatch_message
handle_message env s msg sv =
    let sv' = dispatch_message env s msg sv in
    record sv' { msg_to_portal_cnt = sv'.msg_to_portal_cnt + 1 }

unfoldable pub receive : Env → ℕ → List ℕ → Server → Server
unfolding unpack_ss_message handle_message
receive env s b sv = elim (unpack_ss_message b) [
  | none ↦ sv
  | some msg ↦ handle_message env s msg sv
]
