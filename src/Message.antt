-- ===== src/Message.antt =====
-- The messages of protocol/packet.go: what clients and servers exchange (`CsMessage`), and what
-- servers exchange (`SsMessage` with its head, `SsMessageBody`).
-- int8 and int64 fields are bit patterns. A message's head is never nil here: the code builds each
-- message together with its head.
pub mod Marshal
pub mod Head
pub mod Length
mod Tests
use gogame.Common.{ℕ, ◌+◌, ◌*◌, List, [], ◌∷◌, Option, none, some, length, drop, get_or, ltb}
use gogame.Common.{if◌then◌else◌, ◌≡◌}
use gogame.Packet.{Packet, PacketError, Read, got, fails, panics, byte_shr, new_packet}
use gogame.Packet.Reads.{read_u16, read_u32, read_s64, read_rest_bytes}
use gogame.Packet.Writes.{write_u16, write_u32, write_s64, write_raw_bytes}

-- The result of `UnMarshal`: the message as the fields read so far left it, and the error.
pub data Outcome (M : Type 0) : Type 0 where
  returns : M → Option PacketError → Outcome M
  panic : Outcome M

-- One statement of `UnMarshal`, `m.F, err = reader.ReadX(); if err != nil { return err }`, and a
-- sequence of such. `next` goes on; `stops` has returned an error.
pub data Parse (M : Type 0) : Type 0 where
  next : M → Packet → Parse M
  stops : M → PacketError → Parse M
  crashes : Parse M

abbrev pub Statement : Type 0 → Type 0
Statement M = M → Packet → Parse M

infixl 5 ◌>>◌
abbrev pub ◌>>◌ : {M : Type 0} → Statement M → Statement M → Statement M
◌>>◌ s t m p = elim (s m p) [ next m' p' ↦ t m' p' | stops m' e ↦ stops m' e | crashes ↦ crashes ]

abbrev pub field : {M A : Type 0} → (Packet → Read A) → (A → M → M) → Statement M
field r assign m p = elim (r p) [
  | got a q ↦ next (assign a m) q
  | fails a e q ↦ stops (assign a m) e
  | panics ↦ crashes
]

-- A statement whose reader is known.
pub field-got :
    {M A : Type 0} (r : Packet → Read A) (assign : A → M → M) (t : Statement M) (m : M) (p : Packet)
    {a : A} {q : Packet}
    → r p ≡ got a q
    → (field r assign >> t) m p ≡ t (assign a m) q
field-got r assign t m p e = rw (e, ◌>>◌, field)

pub field-fails :
    {M A : Type 0} (r : Packet → Read A) (assign : A → M → M) (t : Statement M) (m : M) (p : Packet)
    {a : A} {x : PacketError} {q : Packet}
    → r p ≡ fails a x q
    → (field r assign >> t) m p ≡ stops (assign a m) x
field-fails r assign t m p e = rw (e, ◌>>◌, field)

abbrev pub outcome : {M : Type 0} → Parse M → Outcome M
outcome (next m p) = returns m none
outcome (stops m e) = returns m (some e)
outcome crashes = panic

pub record CsMessageHead : Type 0 where
  pub message_id : ℕ
  pub packet_no : ℕ
  pub version : ℕ

pub record CsMessage : Type 0 where
  pub head : CsMessageHead
  pub body : List ℕ

-- The packet that `Marshal` fills.
unfoldable pub cs_writer : CsMessage → Packet
unfolding write_u16 write_u32 write_raw_bytes new_packet
cs_writer m =
    let writer = write_u16 m.head.message_id (new_packet []) in
    let writer = write_u32 m.head.packet_no writer in
    let writer = write_u16 m.head.version writer in write_raw_bytes m.body writer

-- `Marshal` makes `buffer` with length 0, fills another packet, and returns `buffer`.
unfoldable pub cs_marshal : CsMessage → List ℕ × Option PacketError
cs_marshal m = let buffer : List ℕ = [] in let writer = cs_writer m in (buffer, none)

unfoldable pub cs_fields : Statement CsMessage
cs_fields = do
  field read_u16 (λ v c. record c { head = record (c.head) { message_id = v } })
  field read_u32 (λ v c. record c { head = record (c.head) { packet_no = v } })
  field read_u16 (λ v c. record c { head = record (c.head) { version = v } })
  field read_rest_bytes (λ v c. record c { body = v })

unfoldable pub cs_unmarshal : CsMessage → List ℕ → Outcome CsMessage
unfolding new_packet cs_fields
cs_unmarshal m input = outcome (cs_fields m (new_packet input))

pub record SsMessageHead : Type 0 where
  pub ss_cmd : ℕ
  pub trans_type : ℕ
  pub src_type : ℕ
  pub dst_type : ℕ
  pub src_id : ℕ
  pub dst_id : ℕ

pub record SsMessage : Type 0 where
  pub head : SsMessageHead
  pub body : List ℕ

pub record SsMessageBody : Type 0 where
  pub message_id : ℕ
  pub packet_no : ℕ
  pub src_account_id : ℕ
  pub dst_account_id : ℕ
  pub gs_id : ℕ
  pub body : List ℕ

unfoldable pub body_marshal : SsMessageBody → List ℕ
unfolding new_packet write_u16 write_u32 write_s64 write_raw_bytes
body_marshal m =
    let writer = write_u16 m.message_id (new_packet []) in
    let writer = write_u32 m.packet_no writer in
    let writer = write_s64 m.src_account_id writer in
    let writer = write_s64 m.dst_account_id writer in
    let writer = write_u16 m.gs_id writer in
    let writer = write_raw_bytes m.body writer in writer.bytes

unfoldable pub body_fields : Statement SsMessageBody
body_fields = do
  field read_u16 (λ v b. record b { message_id = v })
  field read_u32 (λ v b. record b { packet_no = v })
  field read_s64 (λ v b. record b { src_account_id = v })
  field read_s64 (λ v b. record b { dst_account_id = v })
  field read_u16 (λ v b. record b { gs_id = v })
  field read_rest_bytes (λ v b. record b { body = v })

unfoldable pub body_unmarshal : SsMessageBody → List ℕ → Outcome SsMessageBody
unfolding new_packet body_fields
body_unmarshal m input = outcome (body_fields m (new_packet input))

-- `binary.BigEndian.Uint16`
abbrev pub big_endian : ℕ → ℕ → ℕ
big_endian hi lo = hi * 256 + lo

abbrev pub msg_head_len : ℕ
msg_head_len = 8

-- The message that `UnpackSSMessage` fills once the buffer has passed the guard.
unfoldable pub fill_ss_message : List ℕ → SsMessage
fill_ss_message buff = record {
  head = record {
    ss_cmd = get_or buff 0 0;
    trans_type = get_or buff 1 0;
    src_type = get_or buff 2 0;
    dst_type = get_or buff 3 0;
    src_id = big_endian (get_or buff 4 0) (get_or buff 5 0);
    dst_id = big_endian (get_or buff 6 0) (get_or buff 7 0);
  };
  body = drop 8 buff;
}

unfoldable pub unpack_ss_message : List ℕ → Option SsMessage
unfolding fill_ss_message
unpack_ss_message buff =
    if ltb (length buff) msg_head_len then none else some (fill_ss_message buff)

unfoldable pub pack_ss_message : SsMessage → List ℕ
pack_ss_message m =
    m.head.ss_cmd
    ∷ m.head.trans_type
    ∷ m.head.src_type
    ∷ m.head.dst_type
    ∷ byte_shr m.head.src_id 8
    ∷ byte_shr m.head.src_id 0
    ∷ byte_shr m.head.dst_id 8
    ∷ byte_shr m.head.dst_id 0
    ∷ m.body
