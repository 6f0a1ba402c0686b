-- ===== src/Gate/Forward.antt =====
-- A message of a client on its way: `Receive`, the three forwards, `SendMessageToRouter` and
-- `SendMessageToIMSvr` of gamegate/client.go.
use gogame.Common.{ℕ, suc, true, false, List, [], Option, none, some, ◌==◌, if◌then◌else◌}
use Prim.Native.Nat.{bit_and}
use gogame.Consts.EntityType
use gogame.Consts.SsCmd
use gogame.Consts.TransType
use gogame.ErrCode.{ErrCode, unmarshal_fail, parameter_invalid, gamesvr_error, unknown_message}
use gogame.Gate.{
  Gate, ClientTask, no_owner, pointer, value, Notices, set_task, store, terminate_client,
  send_err_to_me, encrypt, kicked_out, xor_key_stream,
}
use gogame.Gate.Ims.{Site}
use gogame.Gate.ImServers.{Ran, ran, panicked, send_msg, get_im_by_account_id}
use gogame.Gate.Login.{Env, Hooked, hook_client_message, message_dest}
use gogame.Message.{CsMessage, SsMessage, SsMessageBody, Outcome, returns, panic}
use gogame.Message.{body_marshal, cs_unmarshal}

abbrev pub key_message : Site → ℕ → ℕ → SsMessageBody → SsMessage
key_message site dst_type dst_id m = record {
  head = record {
    ss_cmd = SsCmd.msg;
    trans_type = TransType.by_key;
    src_type = EntityType.portal;
    dst_type = dst_type;
    src_id = site.server_id;
    dst_id = dst_id;
  };
  body = body_marshal m;
}

-- `SendMessageToRouter` makes the message and does not send it: that part of it is a comment.
unfoldable pub send_message_to_router : Site → ℕ → ℕ → SsMessageBody → Gate → Ran
unfolding body_marshal
send_message_to_router site dst_type dst_id m g =
    let msg = key_message site dst_type dst_id m in ran g none

abbrev pub send_to_svr : Site → SsMessageBody → Option ℕ → Gate → Ran
send_to_svr site m none g = ran g (some parameter_invalid)
send_to_svr site m (some i) g = send_msg (key_message site EntityType.im (g.ims.svrs i).id m) i g

unfoldable pub send_message_to_im_svr : Site → SsMessageBody → Gate → Ran
unfolding get_im_by_account_id send_msg body_marshal
send_message_to_im_svr site m g =
    send_to_svr site m (get_im_by_account_id site m.dst_account_id g) g

abbrev pub from_client : ClientTask → ℕ → ℕ → List ℕ → SsMessageBody
from_client t msg_id packet_no b = record {
  message_id = msg_id;
  packet_no = packet_no;
  src_account_id = t.account_id;
  dst_account_id = t.account_id;
  gs_id = t.gs_id;
  body = b;
}

-- `gs_id` 0 is INVALID_GAMESVR_ID.
unfoldable pub game_server_forward : Site → ℕ → ℕ → ℕ → List ℕ → Gate → Ran
unfolding send_message_to_router
game_server_forward site r msg_id packet_no b g =
    let t = g.tasks r in
    if t.gs_id == 0
    then ran g (some gamesvr_error)
    else send_message_to_router site EntityType.game_svr t.gs_id (from_client t msg_id packet_no b)
        g

unfoldable pub team_server_forward : Site → ℕ → ℕ → ℕ → List ℕ → Gate → Ran
unfolding send_message_to_router
team_server_forward site r msg_id packet_no b g =
    let t = g.tasks r in
    send_message_to_router site EntityType.team_svr t.ts_id (from_client t msg_id packet_no b) g

unfoldable pub im_server_forward : Site → ℕ → ℕ → ℕ → List ℕ → Gate → Ran
unfolding send_message_to_im_svr
im_server_forward site r msg_id packet_no b g =
    send_message_to_im_svr site (from_client (g.tasks r) msg_id packet_no b) g

-- The client is told and dropped.
unfoldable pub drop_client : Notices → ErrCode → ℕ → ℕ → Gate → Gate
unfolding send_err_to_me terminate_client
drop_client n e packet_no r g = terminate_client kicked_out r (send_err_to_me n e packet_no r g)

abbrev pub drop_on_error : Notices → ℕ → ℕ → Ran → Ran
drop_on_error n packet_no r (ran g none) = ran g none
drop_on_error n packet_no r (ran g (some e)) = ran (drop_client n e packet_no r g) none
drop_on_error n packet_no r (panicked g) = panicked g

abbrev pub only_logged : Ran → Ran
only_logged (ran g e) = ran g none
only_logged (panicked g) = panicked g

unfoldable pub forward : Env → Site → ℕ → ℕ → ℕ → List ℕ → Gate → Ran
unfolding message_dest game_server_forward team_server_forward im_server_forward drop_client
forward env site r msg_id packet_no b g =
    let dest = message_dest msg_id in
    if dest == EntityType.game_svr
    then drop_on_error env.notices packet_no r (game_server_forward site r msg_id packet_no b g)
    else if dest == EntityType.im
    then only_logged (im_server_forward site r msg_id packet_no b g)
    else if dest == EntityType.team_svr
    then only_logged (team_server_forward site r msg_id packet_no b g)
    else ran (drop_client env.notices unknown_message packet_no r g) none

abbrev pub continued : Env → Site → ℕ → ℕ → ℕ → Hooked → Ran
continued env site r msg_id packet_no (g, goes_on, b, some e) =
    ran (drop_client env.notices e packet_no r g) none
continued env site r msg_id packet_no (g, true, b, none) = forward env site r msg_id packet_no b g
continued env site r msg_id packet_no (g, false, b, none) = ran g none

abbrev pub with_message : Env → Site → ℕ → Outcome CsMessage → Gate → Ran
with_message env site r panic g = panicked g
with_message env site r (returns m (some e)) g =
    ran (drop_client env.notices unmarshal_fail 0 r g) none
with_message env site r (returns m none) g =
    let id = m.head.message_id in
    let no = m.head.packet_no in
    continued env site r id no (hook_client_message env r id no m.body g)

abbrev pub empty_message : CsMessage
empty_message = record { head = record { message_id = 0; packet_no = 0; version = 0 }; body = [] }

abbrev pub decrypted : ℕ → List ℕ → Gate → Gate × List ℕ
decrypted r bytes g =
    let t = g.tasks r in
    let (key, clear) = xor_key_stream t.decoder bytes in
    if bit_and t.flag encrypt == 0
    then (g, bytes)
    else (set_task r (record t { decoder = key }) g, clear)

-- What `Receive` does with the client `r`.
unfoldable pub receive_from : Env → Site → ℕ → List ℕ → Gate → Ran
unfolding xor_key_stream cs_unmarshal hook_client_message forward drop_client
receive_from env site r bytes g =
    let (g', clear) = decrypted r bytes g in
    with_message env site r (cs_unmarshal empty_message clear) g'

-- `con.Owner.(ClientTask)` panics unless the owner is a client, not a pointer to one, and makes a
-- copy of it.
unfoldable pub receive : Env → Site → ℕ → List ℕ → Gate → Ran
unfolding receive_from
receive env site con bytes g = elim (g.owners con) [
  | no_owner ↦ panicked g
  | pointer r ↦ panicked g
  | value t ↦
      receive_from env site g.next_task bytes
        (record g { tasks = store g.next_task t g.tasks; next_task = suc g.next_task })
]
