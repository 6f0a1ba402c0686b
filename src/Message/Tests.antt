-- ===== src/Message/Tests.antt =====
-- Runs of the message codecs of protocol/packet.go, and their theorems at concrete messages.
use gogame.Common.{◌≤◌, ◌<◌, ◌≡◌, ◌⊎◌, arith, [], ◌∷◌, none, some}
use gogame.Packet.{read_uint16_failed}
use gogame.Message.{CsMessage, SsMessage, SsMessageBody, cs_marshal, cs_writer, cs_unmarshal}
use gogame.Message.{body_marshal, body_unmarshal, returns, pack_ss_message, unpack_ss_message}
use gogame.Message.Marshal.{body_unmarshal-body_marshal, cs_unmarshal-cs_marshal}
use gogame.Message.Head.{pack-unpack}

abbrev login : SsMessageBody
login = record {
  message_id = 4099;
  packet_no = 7;
  src_account_id = 1000001;
  dst_account_id = 0xffffffffffffffff;
  gs_id = 3;
  body = 10 ∷ 20 ∷ [];
}

abbrev blank : SsMessageBody
blank = record {
  message_id = 0;
  packet_no = 0;
  src_account_id = 0;
  dst_account_id = 0;
  gs_id = 0;
  body = [];
}

abbrev ping : CsMessage
ping = record { head = record { message_id = 4097; packet_no = 1; version = 2 }; body = 5 ∷ [] }

abbrev ready : SsMessage
ready = record {
  head = record {
    ss_cmd = 1;
    trans_type = 0;
    src_type = 3;
    dst_type = 0;
    src_id = 513;
    dst_id = 0;
  };
  body = [];
}

body_unmarshal-body_marshal_example : body_unmarshal blank (body_marshal login) ≡ returns login none
body_unmarshal-body_marshal_example = body_unmarshal-body_marshal blank login (omega arith)

cs_unmarshal-cs_marshal_example :
    (cs_unmarshal ping (cs_writer ping).bytes ≡ returns ping none)
    × ((cs_marshal ping).1 ≡ none)
    × (cs_unmarshal ping (cs_marshal ping).0
        ≡ returns
            (record ping { head = record (ping.head) { message_id = 0 } })
            (some read_uint16_failed))
cs_unmarshal-cs_marshal_example = cs_unmarshal-cs_marshal ping ping (omega arith)

pack-unpack_example :
    ((9 < 8) × (unpack_ss_message (1 ∷ 0 ∷ 3 ∷ 0 ∷ 2 ∷ 1 ∷ 0 ∷ 0 ∷ 9 ∷ []) ≡ none))
    ⊎ ((8 ≤ 9)
        × (m : SsMessage) × (unpack_ss_message (1 ∷ 0 ∷ 3 ∷ 0 ∷ 2 ∷ 1 ∷ 0 ∷ 0 ∷ 9 ∷ []) ≡ some m)
        × (pack_ss_message m ≡ 1 ∷ 0 ∷ 3 ∷ 0 ∷ 2 ∷ 1 ∷ 0 ∷ 0 ∷ 9 ∷ []))
pack-unpack_example = pack-unpack (1 ∷ 0 ∷ 3 ∷ 0 ∷ 2 ∷ 1 ∷ 0 ∷ 0 ∷ 9 ∷ []) (omega arith)
