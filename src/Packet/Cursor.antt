-- ===== src/Packet/Cursor.antt =====
-- The readers of protocol/packet.go by what lies ahead of the cursor.
use gogame.Common.{ℕ, ◌+◌, ◌-◌, ◌*◌, ◌^◌, ◌≤◌, ◌<◌, ◌≡◌, sym, ap, ◌∙◌, arith}
use gogame.Common.{
  List, [], ◌∷◌, ◌++◌, length, take, drop, length-append, length-drop, drop-drop, take-length,
}
use gogame.Common.{ltb, le→ltb, lt→leb, get_or-drop, bit_or, false}
use gogame.Common.Bits.{bit_or-add}
use gogame.Packet.{Packet, got, slice, shl, byte_shr}
use gogame.Packet.Reads.{
  read_byte, read_u16, read_u24, read_u32, read_u64, u64_loop, read_rest_bytes,
}

abbrev pub ahead : Packet → List ℕ
ahead p = drop p.pos p.bytes

abbrev pub moved : Packet → ℕ → Packet
moved p n = record p { pos = p.pos + n }

pub ahead-moved : (p : Packet) (n : ℕ) → ahead (moved p n) ≡ drop n (ahead p)
ahead-moved p n = sym (drop-drop n p.pos p.bytes)

pub slice_at : (xs : List ℕ) (lo n : ℕ) → slice xs lo (lo + n) ≡ take n (drop lo xs)
slice_at xs lo n = ap (λ k. take k (drop lo xs)) (let e : lo + n - lo ≡ n = omega arith in e)

-- The bytes of a number, highest first.
abbrev pub u16_bytes : ℕ → List ℕ
u16_bytes v = byte_shr v 8 ∷ byte_shr v 0 ∷ []

abbrev pub u24_bytes : ℕ → List ℕ
u24_bytes v = byte_shr v 16 ∷ u16_bytes v

abbrev pub u32_bytes : ℕ → List ℕ
u32_bytes v = byte_shr v 24 ∷ u24_bytes v

abbrev pub u64_bytes : ℕ → List ℕ
u64_bytes v = byte_shr v 56 ∷ byte_shr v 48 ∷ byte_shr v 40 ∷ byte_shr v 32 ∷ u32_bytes v

two_bytes : (a b : ℕ) → a < 256 → b < 256 → bit_or (shl 16 a 8) b ≡ a * 256 + b
two_bytes a b ha hb = omega (arith, bit_or-add 8 (shl 16 a 8) b)

three_bytes :
    (a b c : ℕ)
    → a < 256
    → b < 256
    → c < 256
    → bit_or (bit_or (shl 32 a 16) (shl 32 b 8)) c ≡ a * 65536 + b * 256 + c
three_bytes a b c ha hb hc = omega (
  arith,
  bit_or-add 16 (shl 32 a 16) (shl 32 b 8),
  bit_or-add 8 (bit_or (shl 32 a 16) (shl 32 b 8)) c,
)

four_bytes :
    (a b c d : ℕ)
    → a < 256
    → b < 256
    → c < 256
    → d < 256
    → bit_or (bit_or (bit_or (shl 32 a 24) (shl 32 b 16)) (shl 32 c 8)) d
      ≡ a * 16777216 + b * 65536 + c * 256 + d
four_bytes a b c d ha hb hc hd =
    let x = bit_or (shl 32 a 24) (shl 32 b 16) in
    let y = bit_or x (shl 32 c 8) in
    omega (
      arith,
      bit_or-add 24 (shl 32 a 24) (shl 32 b 16),
      bit_or-add 16 x (shl 32 c 8),
      bit_or-add 8 y d,
    )

-- The eight bytes of a uint64, joined from the highest.
eight_bytes : (v : ℕ) → v < 2 ^ 64 → u64_loop 0 0 (u64_bytes v) ≡ v
unfolding u64_loop
eight_bytes v h =
    let s : ℕ → ℕ → ℕ = λ k x. shl 64 x k in
    let x0 = bit_or 0 (s 56 (byte_shr v 56)) in
    let x1 = bit_or x0 (s 48 (byte_shr v 48)) in
    let x2 = bit_or x1 (s 40 (byte_shr v 40)) in
    let x3 = bit_or x2 (s 32 (byte_shr v 32)) in
    let x4 = bit_or x3 (s 24 (byte_shr v 24)) in
    let x5 = bit_or x4 (s 16 (byte_shr v 16)) in
    let x6 = bit_or x5 (s 8 (byte_shr v 8)) in
    omega (
      arith,
      bit_or-add 64 0 (s 56 (byte_shr v 56)),
      bit_or-add 56 x0 (s 48 (byte_shr v 48)),
      bit_or-add 48 x1 (s 40 (byte_shr v 40)),
      bit_or-add 40 x2 (s 32 (byte_shr v 32)),
      bit_or-add 32 x3 (s 24 (byte_shr v 24)),
      bit_or-add 24 x4 (s 16 (byte_shr v 16)),
      bit_or-add 16 x5 (s 8 (byte_shr v 8)),
      bit_or-add 8 x6 (s 0 (byte_shr v 0)),
    )

-- A reader of `n` bytes passes its guard where `bs` of that length lies ahead.
guard_passes :
    (p : Packet) (bs r : List ℕ)
    → ahead p ≡ bs ++ r
    → 0 < length bs
    → ltb (length p.bytes) (p.pos + length bs) ≡ false
guard_passes p bs r e h =
    le→ltb (length p.bytes) (p.pos + length bs)
      (omega (arith, ap length e, length-append bs r, length-drop p.pos p.bytes))

pub read_byte_at :
    (p : Packet) (v : ℕ) (r : List ℕ) → ahead p ≡ v ∷ r → read_byte p ≡ got v (moved p 1)
unfolding read_byte
read_byte_at p v r e = rw (
  lt→leb (length p.bytes) p.pos (omega (arith, ap length e, length-drop p.pos p.bytes)),
  get_or-drop p.bytes p.pos 0,
  e,
)

pub read_u16_at :
    (p : Packet) (v : ℕ) (r : List ℕ)
    → ahead p ≡ u16_bytes v ++ r
    → v < 2 ^ 16
    → read_u16 p ≡ got v (moved p 2)
unfolding read_u16
read_u16_at p v r e h =
    rw (guard_passes p (u16_bytes v) r e (omega arith), slice_at p.bytes p.pos 2, e)
      (ap (λ x. got x (moved p 2))
        (two_bytes (byte_shr v 8) (byte_shr v 0) (omega arith) (omega arith) ∙ omega arith))

pub read_u24_at :
    (p : Packet) (v : ℕ) (r : List ℕ)
    → ahead p ≡ u24_bytes v ++ r
    → v < 2 ^ 24
    → read_u24 p ≡ got v (moved p 3)
unfolding read_u24
read_u24_at p v r e h =
    rw (guard_passes p (u24_bytes v) r e (omega arith), slice_at p.bytes p.pos 3, e)
      (ap (λ x. got x (moved p 3))
        (omega (arith, three_bytes (byte_shr v 16) (byte_shr v 8) (byte_shr v 0))))

pub read_u32_at :
    (p : Packet) (v : ℕ) (r : List ℕ)
    → ahead p ≡ u32_bytes v ++ r
    → v < 2 ^ 32
    → read_u32 p ≡ got v (moved p 4)
unfolding read_u32
read_u32_at p v r e h =
    rw (guard_passes p (u32_bytes v) r e (omega arith), slice_at p.bytes p.pos 4, e)
      (ap (λ x. got x (moved p 4))
        (omega (arith, four_bytes (byte_shr v 24) (byte_shr v 16) (byte_shr v 8) (byte_shr v 0))))

pub read_u64_at :
    (p : Packet) (v : ℕ) (r : List ℕ)
    → ahead p ≡ u64_bytes v ++ r
    → v < 2 ^ 64
    → read_u64 p ≡ got v (moved p 8)
unfolding read_u64
read_u64_at p v r e h =
    rw (guard_passes p (u64_bytes v) r e (omega arith), slice_at p.bytes p.pos 8, e)
      (ap (λ x. got x (moved p 8)) (eight_bytes v h))

-- `read_rest_bytes` returns all that lies ahead, of a buffer that is not empty.
pub read_rest_bytes_at :
    (p : Packet) (r : List ℕ)
    → ahead p ≡ r
    → p.pos ≤ length p.bytes
    → 0 < length p.bytes
    → read_rest_bytes p ≡ got r (moved p (length p.bytes))
unfolding read_rest_bytes
read_rest_bytes_at p r e within some_byte = rw (
  le→ltb (length p.bytes) p.pos within,
  lt→leb (length p.bytes) 0 some_byte,
  ← length-drop p.pos p.bytes,
  take-length (ahead p),
  e,
)
