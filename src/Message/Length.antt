-- ===== src/Message/Length.antt =====
-- What `UnMarshal` of protocol/packet.go accepts: a fixed number of header bytes and any rest.
use gogame.Common.{ℕ, ◌+◌, ◌≤◌, ◌<◌, ◌≡◌, refl, ap, ◌∙◌, arith, List, none, some, ◌⊎◌, inl, inr}
use gogame.Common.{length, drop, ltb, if◌then◌else◌, Bool-cases, ltb→lt, ltb_false→le}
use gogame.Packet.{
  Packet, PacketError, Read, got, fails, read_uint16_failed, read_uint32_failed, read_uint64_failed,
}
use gogame.Packet.Reads.{read_u16, read_u32, read_s64, read_rest_bytes}
use gogame.Packet.Cursor.{moved, read_rest_bytes_at}
use gogame.Message.{CsMessage, SsMessageBody, Statement, Outcome, returns, outcome, field, ◌>>◌}
use gogame.Message.{
  next, stops, field-got, field-fails, cs_unmarshal, body_unmarshal, cs_fields, body_fields,
}

-- A reader of exactly `k` bytes.
abbrev Fixed : ℕ → (Packet → Read ℕ) → Type 0
Fixed k r =
    (p : Packet)
    → ((length p.bytes < p.pos + k) × (v : ℕ) × (e : PacketError) × (r p ≡ fails v e p))
      ⊎ ((p.pos + k ≤ length p.bytes) × (v : ℕ) × (r p ≡ got v (moved p k)))

guarded-Fixed :
    (k : ℕ) (r : Packet → Read ℕ) (e : PacketError) (value : Packet → ℕ)
    → ((p : Packet)
        → r p
          ≡ (if ltb (length p.bytes) (p.pos + k) then fails 0 e p else got (value p) (moved p k)))
    → Fixed k r
guarded-Fixed k r e value h p = elim (Bool-cases (ltb (length p.bytes) (p.pos + k))) [
  | inl short ↦ inl (ltb→lt _ _ short, 0, e, h p ∙ rw short)
  | inr long ↦ inr (ltb_false→le _ _ long, value p, h p ∙ rw long)
]

read_u16-Fixed : Fixed 2 read_u16
unfolding read_u16
read_u16-Fixed = guarded-Fixed 2 read_u16 read_uint16_failed _ (λ p. refl)

read_u32-Fixed : Fixed 4 read_u32
unfolding read_u32
read_u32-Fixed = guarded-Fixed 4 read_u32 read_uint32_failed _ (λ p. refl)

read_s64-Fixed : Fixed 8 read_s64
unfolding read_s64
read_s64-Fixed = guarded-Fixed 8 read_s64 read_uint64_failed _ (λ p. refl)

module _ {M : Type 0} (tail : M → List ℕ) where
  -- `t` wants `n` bytes ahead: it stops with an error where there are fewer, and otherwise leaves
  -- what follows them in the tail of the message.
  abbrev Split : ℕ → Statement M → M → Packet → Type 0
  Split n t m p =
      ((length p.bytes < p.pos + n) × (m' : M) × (e : PacketError) × (t m p ≡ stops m' e))
      ⊎ ((p.pos + n ≤ length p.bytes)
          × (m' : M) × (q : Packet) × (t m p ≡ next m' q)
          × (tail m' ≡ drop (p.pos + n) p.bytes))

  -- `t` does so from every packet, or from every cursor inside a buffer that is not empty.
  record Always (n : ℕ) (t : Statement M) : Type 0 where
    from : (m : M) (p : Packet) → Split n t m p

  record Goes (n : ℕ) (t : Statement M) : Type 0 where
    from : (m : M) (p : Packet) → p.pos ≤ length p.bytes → 0 < length p.bytes → Split n t m p

  field-Split :
      (k n : ℕ) {r : Packet → Read ℕ} (assign : ℕ → M → M) {t : Statement M}
      → Fixed k r
      → 0 < k
      → Goes n t
      → (m : M) (p : Packet) → Split (k + n) (field r assign >> t) m p
  field-Split k n {r} assign {t} fixed some_byte goes m p = elim (fixed p) [
    | inl (short, v, e, stop) ↦ inl (omega arith, _, _, field-fails r assign t m p stop)
    | inr (long, v, go) ↦ elim (goes.from (assign v m) (moved p k) long (omega arith)) [
      | inl (short, m', e, stop) ↦ inl (omega arith, _, _, field-got r assign t m p go ∙ stop)
      | inr (long', m', q, go', rest) ↦ inr (
        omega arith,
        m',
        q,
        field-got r assign t m p go ∙ go',
        rest ∙ ap (λ i. drop i p.bytes) (omega arith),
      )
    ]
  ]

  field-Always :
      (k n : ℕ) {r : Packet → Read ℕ} (assign : ℕ → M → M) {t : Statement M}
      → Fixed k r
      → 0 < k
      → Goes n t
      → Always (k + n) (field r assign >> t)
  field-Always k n assign fixed some_byte goes = record {
    from = field-Split k n assign fixed some_byte goes;
  }

  field-Goes :
      (k n : ℕ) {r : Packet → Read ℕ} (assign : ℕ → M → M) {t : Statement M}
      → Fixed k r
      → 0 < k
      → Goes n t
      → Goes (k + n) (field r assign >> t)
  field-Goes k n assign fixed some_byte goes = record {
    from = λ m p _ _. field-Split k n assign fixed some_byte goes m p;
  }

  rest-Goes :
      {assign : List ℕ → M → M}
      → ((r : List ℕ) (m : M) → tail (assign r m) ≡ r)
      → Goes 0 (field read_rest_bytes assign)
  rest-Goes {assign} kept = record {
    from = λ m p within some_byte.
        let r = drop p.pos p.bytes in
        inr (
          omega arith,
          assign r m,
          moved p (length p.bytes),
          rw (read_rest_bytes_at p r refl within some_byte, field),
          kept r m ∙ ap (λ i. drop i p.bytes) (omega arith),
        );
  }

  -- The same for the whole of `UnMarshal`.
  abbrev pub Accepts : ℕ → List ℕ → Outcome M → Type 0
  Accepts n input o =
      ((length input < n) × (m : M) × (e : PacketError) × (o ≡ returns m (some e)))
      ⊎ ((n ≤ length input) × (m : M) × (o ≡ returns m none) × (tail m ≡ drop n input))

  Always-Accepts :
      (n : ℕ) (t : Statement M) (m : M) (input : List ℕ)
      → Always n t
      → Accepts n input (outcome (t m (record { pos = 0; bytes = input })))
  Always-Accepts n t m input goes = elim (goes.from m (record { pos = 0; bytes = input })) [
    | inl (short, m', e, stop) ↦ inl (omega arith, m', e, ap outcome stop)
    | inr (long, m', q, go, rest) ↦
        inr (omega arith, m', ap outcome go, rest ∙ ap (λ i. drop i input) (omega arith))
  ]

cs_fields-Always : Always (λ (m : CsMessage). m.body) 8 cs_fields
unfolding cs_fields
cs_fields-Always = field-Always _ 2 6 _ read_u16-Fixed (omega arith) (
    field-Goes _ 4 2 _ read_u32-Fixed (omega arith)
      (field-Goes _ 2 0 _ read_u16-Fixed (omega arith) (rest-Goes _ (λ r m. refl))))

-- `UnMarshal` of a client message returns an error exactly on a buffer shorter than 8 bytes, and
-- otherwise takes what follows them for the body. It does not panic.
pub cs_unmarshal_length :
    (old : CsMessage) (input : List ℕ)
    → Accepts (λ (m : CsMessage). m.body) 8 input (cs_unmarshal old input)
unfolding cs_unmarshal
cs_unmarshal_length old input = Always-Accepts _ 8 cs_fields old input cs_fields-Always

body_fields-Always : Always (λ (m : SsMessageBody). m.body) 24 body_fields
unfolding body_fields
body_fields-Always = field-Always _ 2 22 _ read_u16-Fixed (omega arith) (
    field-Goes _ 4 18 _ read_u32-Fixed (omega arith) (
      field-Goes _ 8 10 _ read_s64-Fixed (omega arith) (
        field-Goes _ 8 2 _ read_s64-Fixed (omega arith)
          (field-Goes _ 2 0 _ read_u16-Fixed (omega arith) (rest-Goes _ (λ r m. refl))))))

-- `UnMarshal` of a server message's body returns an error exactly on a buffer shorter than 24
-- bytes, and otherwise takes what follows them for the inner body. It does not panic.
pub body_unmarshal_length :
    (old : SsMessageBody) (input : List ℕ)
    → Accepts (λ (m : SsMessageBody). m.body) 24 input (body_unmarshal old input)
unfolding body_unmarshal
body_unmarshal_length old input = Always-Accepts _ 24 body_fields old input body_fields-Always
