-- ===== src/Message/Marshal.antt =====
-- `Marshal` and `UnMarshal` of protocol/packet.go.
use gogame.Common.{ℕ, ◌^◌, ◌<◌, ◌≡◌, refl, arith, none, some}
use gogame.Packet.{Packet, new_packet, read_uint16_failed}
use gogame.Packet.Reads.{read_u16, read_s64}
use gogame.Packet.Cursor.{moved, read_u16_at, read_u32_at, read_u64_at}
use gogame.Packet.Cursor.{read_rest_bytes_at}
use gogame.Message.{CsMessage, CsMessageHead, SsMessageBody, body_marshal, body_unmarshal}
use gogame.Message.{cs_marshal, cs_writer, cs_unmarshal, returns, field, field-got}

-- The fields are in the ranges of their Go types.
pub record IsBody (m : SsMessageBody) : Type 0 where
  pub message_id : m.message_id < 2 ^ 16
  pub packet_no : m.packet_no < 2 ^ 32
  pub src_account_id : m.src_account_id < 2 ^ 64
  pub dst_account_id : m.dst_account_id < 2 ^ 64
  pub gs_id : m.gs_id < 2 ^ 16

-- `UnMarshal` into any message gives back the message that `Marshal` wrote, where each field of it
-- fits the width of its Go type.
pub body_unmarshal-body_marshal :
    (old m : SsMessageBody) → IsBody m → body_unmarshal old (body_marshal m) ≡ returns m none
unfolding body_unmarshal body_marshal read_s64
body_unmarshal-body_marshal old m h =
    let at : ℕ → Packet = λ n. moved (new_packet (body_marshal m)) n in
    rw (
      field-got,
      read_u16_at (at 0) m.message_id _ refl h.message_id,
      field-got,
      read_u32_at (at 2) m.packet_no _ refl h.packet_no,
      field-got,
      read_u64_at (at 6) m.src_account_id _ refl h.src_account_id,
      field-got,
      read_u64_at (at 14) m.dst_account_id _ refl h.dst_account_id,
      field-got,
      read_u16_at (at 22) m.gs_id _ refl h.gs_id,
      read_rest_bytes_at (at 24) m.body refl (omega arith) (omega arith),
      field,
    )

pub record IsHead (h : CsMessageHead) : Type 0 where
  pub message_id : h.message_id < 2 ^ 16
  pub packet_no : h.packet_no < 2 ^ 32
  pub version : h.version < 2 ^ 16

-- The packet that the `Marshal` of a client message fills would be read back by `UnMarshal`, but
-- `Marshal` returns another buffer, which is empty: on it `UnMarshal` fails, for every message.
pub cs_unmarshal-cs_marshal :
    (old m : CsMessage)
    → IsHead m.head
    → (cs_unmarshal old (cs_writer m).bytes ≡ returns m none)
      × ((cs_marshal m).1 ≡ none)
      × (cs_unmarshal old (cs_marshal m).0
          ≡ returns
              (record old { head = record (old.head) { message_id = 0 } })
              (some read_uint16_failed))
unfolding cs_unmarshal cs_writer cs_marshal
cs_unmarshal-cs_marshal old m h =
    let at : ℕ → Packet = λ n. moved (new_packet (cs_writer m).bytes) n in
    (
      rw (
        field-got,
        read_u16_at (at 0) m.head.message_id _ refl h.message_id,
        field-got,
        read_u32_at (at 2) m.head.packet_no _ refl h.packet_no,
        field-got,
        read_u16_at (at 6) m.head.version _ refl h.version,
        read_rest_bytes_at (at 8) m.body refl (omega arith) (omega arith),
        field,
      ),
      refl,
      unfold read_u16 in refl,
    )
