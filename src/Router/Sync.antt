-- ===== src/Router/Sync.antt =====
-- The messages that tell the portals which servers are connected (router/server.go).
use gogame.Common.{ℕ, ◌%◌, ◌^◌, List, [], ◌∷◌, Option, none, some, map}
use gogame.Consts.EntityType
use gogame.Consts.SsCmd
use gogame.Consts.TransType
use gogame.Message.{SsMessage, body_marshal}
use gogame.Router.{
  Server, RouteClient, Registry, Kind, portals, registry, type_of, broadcast, send_msg, update,
}

-- What the router takes from outside: its id in the configuration, and `protocol.Marshal` of a
-- `pb.MessageSyncServer`, made from its server ids and its server type: the bytes with the message
-- id, or an error.
pub record Env : Type 0 where
  pub server_id : ℕ
  pub marshal_sync : List ℕ → ℕ → Option (List ℕ × ℕ)

abbrev pub server_ids : Kind → Server → List ℕ
server_ids k sv = map (λ entry. (sv.clients entry.1).id) (registry k sv)

-- `PackGameMessage` and `PackTeamMessage`. (`ssMsgBody.Marshal` returns no error.)
unfoldable pub pack_message : Env → Kind → Server → Option SsMessage
unfolding body_marshal
pack_message env k sv = elim (env.marshal_sync (server_ids k sv) (type_of k)) [
  | none ↦ none
  | some (pb_body, id) ↦ some (record {
    head = record {
      ss_cmd = SsCmd.sync;
      trans_type = TransType.by_key;
      src_type = EntityType.router;
      dst_type = 0;
      src_id = env.server_id % 2 ^ 16;
      dst_id = 0;
    };
    body = body_marshal (record {
      message_id = id;
      packet_no = 0;
      src_account_id = 0;
      dst_account_id = 0;
      gs_id = 0;
      body = pb_body;
    });
  })
]

-- A server list goes to every portal, unless it cannot be marshalled.
unfoldable pub broadcast_sync : Env → Kind → Server → Server
unfolding pack_message broadcast
broadcast_sync env k sv = elim (pack_message env k sv) [
  | none ↦ sv
  | some msg ↦ broadcast portals msg sv
]

-- The same for one portal.
unfoldable pub send_sync : Env → Kind → ℕ → Server → Server
unfolding pack_message send_msg
send_sync env k r sv = elim (pack_message env k sv) [ none ↦ sv | some msg ↦ send_msg msg r sv ]

-- `Statistics` brings the counters of the last period up to date.
abbrev pub counted : RouteClient → RouteClient
counted c = record c { last_send_cnt = c.send_cnt }

unfoldable pub count_all : Registry → Server → Server
count_all [] sv = sv
count_all ((id, r) ∷ m) sv =
    count_all m (record sv { clients = update sv.clients r (counted (sv.clients r)) })

unfoldable pub statistics : Server → Server
unfolding count_all
statistics sv =
    count_all sv.portal_clients (record sv { last_msg_to_portal_cnt = sv.msg_to_portal_cnt })
