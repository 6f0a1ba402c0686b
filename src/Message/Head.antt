-- ===== src/Message/Head.antt =====
-- `PackSSMessage` and `UnpackSSMessage` of protocol/packet.go.
use gogame.Common.{
  ℕ, ◌+◌, ◌*◌, ◌/◌, ◌%◌, ◌^◌, ◌≤◌, ◌<◌, ◌≡◌, ◌⊎◌, inl, inr, ap, arith, List, ◌∷◌, none, some,
}
use gogame.Common.{length, All, le→ltb, ltb, ltb→lt, ltb_false→le, Bool-cases}
use gogame.Message.{
  SsMessage, SsMessageHead, pack_ss_message, unpack_ss_message, fill_ss_message, big_endian,
}

-- The server ids are uint16s; the other fields of a head are int8s, which are single bytes.
pub record IsSsHead (h : SsMessageHead) : Type 0 where
  pub src_id : h.src_id < 2 ^ 16
  pub dst_id : h.dst_id < 2 ^ 16

-- `UnpackSSMessage` gives back the message that `PackSSMessage` wrote.
pub unpack-pack : (m : SsMessage) → IsSsHead m.head → unpack_ss_message (pack_ss_message m) ≡ some m
unfolding unpack_ss_message pack_ss_message
unpack-pack m h = rw (le→ltb (length (pack_ss_message m)) 8 (omega arith)) (
    ap some λ i. record {
      head = record {
        ss_cmd = m.head.ss_cmd;
        trans_type = m.head.trans_type;
        src_type = m.head.src_type;
        dst_type = m.head.dst_type;
        src_id = word m.head.src_id h.src_id i;
        dst_id = word m.head.dst_id h.dst_id i;
      };
      body = m.body;
    })
  where
    word : (v : ℕ) → v < 2 ^ 16 → big_endian (v / 2 ^ 8 % 256) (v / 2 ^ 0 % 256) ≡ v
    word v k = omega arith

-- Packing what a buffer of 8 bytes or more is unpacked to.
pack-fill :
    (buff : List ℕ)
    → 8 ≤ length buff
    → All (λ b. b < 256) buff
    → pack_ss_message (fill_ss_message buff) ≡ buff
unfolding fill_ss_message pack_ss_message
pack-fill (b0 ∷ b1 ∷ b2 ∷ b3 ∷ b4 ∷ b5 ∷ b6 ∷ b7 ∷ rest) k h = λ i.
    b0
    ∷ b1
    ∷ b2
    ∷ b3
    ∷ hi b4 b5 (omega arith) i
    ∷ lo b4 b5 (omega arith) i
    ∷ hi b6 b7 (omega arith) i
    ∷ lo b6 b7 (omega arith) i
    ∷ rest
  where
    hi : (a b : ℕ) → (a < 256) × (b < 256) → (a * 256 + b) / 2 ^ 8 % 256 ≡ a
    hi a b l = omega arith

    lo : (a b : ℕ) → (a < 256) × (b < 256) → (a * 256 + b) / 2 ^ 0 % 256 ≡ b
    lo a b l = omega arith
pack-fill _ k h = absurd (omega arith)

-- A buffer of bytes is unpacked exactly when it has 8 bytes or more, and packing the result gives
-- the buffer back.
pub pack-unpack :
    (buff : List ℕ)
    → All (λ b. b < 256) buff
    → ((length buff < 8) × (unpack_ss_message buff ≡ none))
      ⊎ ((8 ≤ length buff)
          × (m : SsMessage) × (unpack_ss_message buff ≡ some m)
          × (pack_ss_message m ≡ buff))
unfolding unpack_ss_message
pack-unpack buff h = elim (Bool-cases (ltb (length buff) 8)) [
  | inl short ↦ inl (ltb→lt _ _ short, rw short)
  | inr long ↦ inr (
    ltb_false→le _ _ long,
    fill_ss_message buff,
    rw long,
    pack-fill buff (ltb_false→le _ _ long) h,
  )
]
