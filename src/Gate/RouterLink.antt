-- ===== src/Gate/RouterLink.antt =====
-- What the gate does with a message of a router, and with Redis' lists of servers: `Receive`,
-- `dispatch`, `sync`, `register`, `refreshGameSvrList` and `refreshRouterSvrList` of
-- gamegate/router.go.
use gogame.Common.{
  ℕ, ◌+◌, ◌%◌, ◌^◌, Bool, true, false, List, [], ◌∷◌, Option, none, some, ◌==◌, ltb, if◌then◌else◌,
}
use gogame.Common.Assoc
use gogame.Connection.{Conn, send, shutdown}
use gogame.Consts.EntityType
use gogame.Consts.SsCmd
use gogame.Consts.TransType
use gogame.Gate.{Gate, send_cs_msg, broadcast_msg, get_by_id, server_close}
use gogame.Gate.Dispatch.{cs_msg, deliver, empty_body, hook_server_message}
use gogame.Gate.Ims.{Site}
use gogame.Gate.ImServers.{Ran, ran, panicked, notice}
use gogame.Gate.Routers.{RouterMgr, add_router_server, add_cross_router_server, same_addr}
use gogame.Message.{
  SsMessage, SsMessageHead, SsMessageBody, Outcome, returns, panic, pack_ss_message,
}
use gogame.Message.{body_unmarshal, unpack_ss_message}

abbrev pub to_client : SsMessageBody → Option ℕ → Gate → Gate
to_client m none g = g
to_client m (some r) g = deliver (cs_msg m.message_id m.packet_no m.body) m r g

unfoldable pub dispatch : SsMessageHead → SsMessageBody → Gate → Gate
unfolding get_by_id broadcast_msg send_cs_msg hook_server_message
dispatch head m g =
    if head.trans_type == TransType.by_key
    then to_client m (get_by_id m.dst_account_id g) g
    else if head.trans_type == TransType.broadcast
    then broadcast_msg (cs_msg m.message_id m.packet_no m.body) g
    else g

-- The goroutines that close the clients of the servers that are gone, in one order of many.
unfoldable pub close_all : List ℕ → Gate → Gate
unfolding server_close
close_all [] g = g
close_all (id ∷ ids) g = close_all ids (server_close (id % 2 ^ 16) g)

abbrev pub synced : RouterMgr × List ℕ → Gate → Gate
synced (m, closed) g = close_all closed (record g { routers = m })

abbrev pub sync_list : ℕ → Option (ℕ × List ℕ) → Gate → Gate
sync_list router none g = g
sync_list router (some (svr_type, ids)) g =
    if svr_type == EntityType.team_svr
    then record g { routers = add_cross_router_server ids router g.routers }
    else synced (add_router_server ids router g.routers) g

unfoldable pub sync : Site → ℕ → SsMessageBody → Gate → Gate
unfolding add_cross_router_server add_router_server close_all
sync site router m g = sync_list router (site.unmarshal_sync m.body) g

unfoldable pub handle : Site → ℕ → SsMessageHead → Outcome SsMessageBody → Gate → Ran
unfolding dispatch sync
handle site router head panic g = panicked g
handle site router head (returns m (some e)) g = ran g none
handle site router head (returns m none) g =
    if head.ss_cmd == SsCmd.msg
    then ran (dispatch head m g) none
    else if head.ss_cmd == SsCmd.sync
    then ran (sync site router m g) none
    else ran g none

abbrev pub handle_some : Site → ℕ → Option SsMessage → Gate → Ran
handle_some site router none g = ran g none
handle_some site router (some m) g = handle site router m.head (body_unmarshal empty_body m.body) g

unfoldable pub receive : Site → ℕ → List ℕ → Gate → Ran
unfolding unpack_ss_message body_unmarshal handle
receive site router bytes g = handle_some site router (unpack_ss_message bytes) g

-- The loop of `register`: it sends, and goes on after a second while sending succeeds. The list has
-- for each second whether the connection is closed in it; the flag tells whether the loop is left.
abbrev pub after_second : Bool → Conn → Conn
after_second closes c = if closes then shutdown c else c

unfoldable pub register : Site → List Bool → Conn → Conn × Bool
unfolding pack_ss_message send shutdown
register site [] c = (c, false)
register site (closes ∷ seconds) c =
    let (c', ok) = send (pack_ss_message (notice SsCmd.ready site) ∷ []) c in
    let rest = register site seconds (after_second closes c') in if ok then rest else (c', true)

-- A game server's entry in Redis, as `json.Unmarshal` reads it; a missing number is 0.
pub record SvrEntry : Type 0 where
  pub zone_id : ℕ
  pub timestamp : ℕ
  pub status : ℕ

abbrev pub is_alive : ℕ → ℕ → SvrEntry → Bool
is_alive zone now e =
    if e.zone_id == zone then (if ltb (e.timestamp + 15) now then false else true) else false

abbrev pub put_svr : Site → List ℕ → ℕ → List (ℕ × ℕ) → List (ℕ × ℕ)
put_svr site id status m =
    let (svr_id, ok) = site.atoi id in if ok then Assoc.insert (svr_id % 2 ^ 16) status m else m

unfoldable pub alive_game_svrs :
    Site → ℕ → ℕ → List (List ℕ × Option SvrEntry) → List (ℕ × ℕ) → List (ℕ × ℕ)
unfolding Assoc.insert
alive_game_svrs site zone now [] m = m
alive_game_svrs site zone now ((id, none) ∷ es) m = alive_game_svrs site zone now es m
alive_game_svrs site zone now ((id, some e) ∷ es) m =
    let put = alive_game_svrs site zone now es (put_svr site id e.status m) in
    let skipped = alive_game_svrs site zone now es m in if is_alive zone now e then put else skipped

-- `refreshGameSvrList`, in the zone of the configuration.
unfoldable pub refresh_game_svr_list :
    Site → ℕ → ℕ → List (List ℕ × Option SvrEntry) → RouterMgr → RouterMgr
unfolding alive_game_svrs
refresh_game_svr_list site zone now entries m = record m {
  svr_list = alive_game_svrs site zone now entries [];
}

unfoldable pub has_addr : List ℕ → List (List ℕ) → Bool
has_addr addr [] = false
has_addr addr (a ∷ addrs) =
    let rest = has_addr addr addrs in if same_addr a addr then true else rest

abbrev pub with_router : List ℕ → RouterMgr × List (List ℕ) → RouterMgr × List (List ℕ)
with_router addr (m, started) = (m, addr ∷ started)

-- `refreshRouterSvrList`, on the zone's entries followed by the cross ones, with their time where
-- they can be read: the manager, and the addresses for which a new router is started.
unfoldable pub refresh_router_svr_list :
    ℕ → List (List ℕ × Option ℕ) → RouterMgr → RouterMgr × List (List ℕ)
unfolding has_addr
refresh_router_svr_list now [] m = (m, [])
refresh_router_svr_list now ((addr, none) ∷ es) m = refresh_router_svr_list now es m
refresh_router_svr_list now ((addr, some time) ∷ es) m =
    let skipped = refresh_router_svr_list now es m in
    let added = refresh_router_svr_list now es (record m { router_map = addr ∷ m.router_map }) in
    if ltb (time + 15) now
    then skipped
    else if has_addr addr m.router_map
    then skipped
    else with_router addr added
