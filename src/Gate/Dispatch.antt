-- ===== src/Gate/Dispatch.antt =====
-- What the gate does with a message of an instant-message server: `Receive` and `dispatch` of
-- gamegate/imclient.go, and `HookServerMessage` of gamegate/client.go.
use gogame.Common.{
  ℕ, ◌%◌, ◌^◌, Bool, true, false, List, [], ◌∷◌, Option, none, some, ◌==◌, if◌then◌else◌, map,
}
use gogame.Consts.EntityType
use gogame.Consts.SsCmd
use gogame.Consts.TransType
use gogame.ErrCode.{ErrCode, player_no_online, parameter_invalid, unmarshal_fail, im_svr_not_found}
use gogame.Gate.{Gate, send_cs_msg, broadcast_msg, get_by_id}
use gogame.Gate.Ims.{ImSvr, Site}
use gogame.Gate.ImServers.{Ran, ran, panicked, set_svr, send_msg, get_im_by_id}
use gogame.Message.{CsMessage, SsMessageHead, SsMessageBody, Outcome, returns, panic}
use gogame.Message.{body_marshal, body_unmarshal, unpack_ss_message}

abbrev pub group_msg_noti_id : ℕ
group_msg_noti_id = 4614

-- `HookServerMessage`: whether to go on, and the error.
unfoldable pub hook_server_message : SsMessageBody → Bool × Option ErrCode
hook_server_message m = (true, none)

abbrev pub cs_msg : ℕ → ℕ → List ℕ → CsMessage
cs_msg id packet_no b = record {
  head = record { message_id = id; packet_no = packet_no; version = 0 };
  body = b;
}

abbrev pub sent_on : CsMessage → ℕ → Gate → Bool × Option ErrCode → Gate
sent_on msg r g (true, none) = (send_cs_msg msg r g).0
sent_on msg r g (true, some e) = g
sent_on msg r g (false, e) = g

abbrev pub deliver : CsMessage → SsMessageBody → ℕ → Gate → Gate
deliver msg m r g = sent_on msg r g (hook_server_message m)

abbrev pub to_account : SsMessageBody → Option ℕ → Gate → Ran
to_account m none g = ran g (some player_no_online)
to_account m (some r) g = ran (deliver (cs_msg m.message_id 0 m.body) m r g) none

abbrev pub send_to_found : CsMessage → Option ℕ → Gate → Gate
send_to_found msg none g = g
send_to_found msg (some r) g = (send_cs_msg msg r g).0

unfoldable pub send_to_all : CsMessage → List ℕ → Gate → Gate
unfolding get_by_id send_cs_msg
send_to_all msg [] g = g
send_to_all msg (account ∷ accounts) g =
    send_to_all msg accounts (send_to_found msg (get_by_id account g) g)

abbrev pub to_group : Option (List ℕ × ℕ × List ℕ) → Gate → Ran
to_group none g = ran g (some unmarshal_fail)
to_group (some (accounts, id, b)) g = ran (send_to_all (cs_msg (id % 2 ^ 16) 0 b) accounts g) none

-- The message is for clients of this gate.
unfoldable pub dispatch_here : Site → SsMessageHead → SsMessageBody → Gate → Ran
unfolding get_by_id send_cs_msg broadcast_msg send_to_all hook_server_message
dispatch_here site head m g =
    if head.trans_type == TransType.by_key
    then to_account m (get_by_id m.dst_account_id g) g
    else if head.trans_type == TransType.broadcast
    then ran (broadcast_msg (cs_msg m.message_id 0 m.body) g) none
    else if head.trans_type == TransType.group
    then if m.message_id == group_msg_noti_id
      then to_group (site.unmarshal_group m.body) g
      else ran g (some parameter_invalid)
    else ran g (some parameter_invalid)

abbrev pub forwarded : Site → SsMessageHead → SsMessageBody → Option ℕ → Gate → Ran
forwarded site head m none g = ran g (some im_svr_not_found)
forwarded site head m (some i) g =
    send_msg
      (record {
        head = record head { src_type = EntityType.portal; src_id = site.server_id };
        body = body_marshal m;
      })
      i g

-- The server that the message comes from.
abbrev pub is_source : SsMessageHead → ImSvr → Bool
is_source head s = if head.src_type == EntityType.im then s.id == head.src_id else false

abbrev pub relayed_head : SsMessageHead → ImSvr → SsMessageHead
relayed_head head s = record {
  ss_cmd = SsCmd.msg;
  trans_type = TransType.by_key;
  src_type = head.src_type;
  dst_type = EntityType.im;
  src_id = head.src_id;
  dst_id = s.id;
}

unfoldable pub relay_one : SsMessageHead → List ℕ → ℕ → Gate → Ran
unfolding send_msg
relay_one head b i g =
    let s = g.ims.svrs i in
    if is_source head s
    then ran g none
    else send_msg (record { head = relayed_head head s; body = b }) i g

unfoldable pub relay_all : SsMessageHead → List ℕ → List ℕ → Gate → Ran
unfolding relay_one
relay_all head b [] g = ran g none
relay_all head b (i ∷ is) g = elim (relay_one head b i g) [
  | ran g' e ↦ relay_all head b is g'
  | panicked g' ↦ panicked g'
]

-- The message is for other instant-message servers.
unfoldable pub dispatch_to_ims : Site → SsMessageHead → SsMessageBody → Gate → Ran
unfolding get_im_by_id send_msg relay_all body_marshal
dispatch_to_ims site head m g =
    if head.trans_type == TransType.by_key
    then forwarded site head m (get_im_by_id head.dst_id g) g
    else if head.trans_type == TransType.broadcast
    then relay_all head (body_marshal m) (map (λ entry. entry.1) g.ims.im_map) g
    else ran g (some parameter_invalid)

unfoldable pub dispatch : Site → SsMessageHead → SsMessageBody → Gate → Ran
unfolding dispatch_here dispatch_to_ims
dispatch site head m g =
    if head.dst_type == EntityType.portal
    then dispatch_here site head m g
    else if head.dst_type == EntityType.im
    then dispatch_to_ims site head m g
    else ran g (some parameter_invalid)

abbrev pub made_ready : SsMessageHead → ℕ → Gate → Gate
made_ready head i g =
    if head.src_type == EntityType.im
    then set_svr i (record (g.ims.svrs i) { id = head.src_id; status = 1 }) g
    else g

-- `Receive` looks at no error of `dispatch`. (The body is unmarshalled twice by it, from the same
-- bytes.)
abbrev pub quietly : Ran → Ran
quietly (ran g e) = ran g none
quietly (panicked g) = panicked g

unfoldable pub handle : Site → ℕ → SsMessageHead → Outcome SsMessageBody → Gate → Ran
unfolding dispatch
handle site i head panic g = panicked g
handle site i head (returns m (some e)) g = ran g none
handle site i head (returns m none) g =
    if head.ss_cmd == SsCmd.ready
    then ran (made_ready head i g) none
    else if head.ss_cmd == SsCmd.msg
    then quietly (dispatch site head m g)
    else ran g none

abbrev pub empty_body : SsMessageBody
empty_body = record {
  message_id = 0;
  packet_no = 0;
  src_account_id = 0;
  dst_account_id = 0;
  gs_id = 0;
  body = [];
}

unfoldable pub receive : Site → ℕ → List ℕ → Gate → Ran
unfolding unpack_ss_message body_unmarshal handle
receive site i bytes g = elim (unpack_ss_message bytes) [
  | none ↦ ran g none
  | some m ↦ handle site i m.head (body_unmarshal empty_body m.body) g
]
