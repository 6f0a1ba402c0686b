-- ===== src/Packet/Floats.antt =====
-- The float methods of protocol/packet.go. A float is its IEEE 754 bit pattern, so that
-- `math.Float32bits` and `math.Float32frombits` are the identity.
use gogame.Common.{ℕ, ◌/◌, ◌%◌, ◌^◌, ◌<◌, ◌≡◌, refl, arith, Bool, true, false, List}
use gogame.Common.{◌==◌, if◌then◌else◌}
use gogame.Packet.{Packet, Read, got, fails, panics}
use gogame.Packet.Reads.{read_u32, read_u64}
use gogame.Packet.Writes.{write_u32, write_u64}
use gogame.Packet.Cursor.{moved}
use gogame.Packet.Fields.{reading, read-write_fixed}

-- Infinities and NaNs are the patterns whose exponent bits are all ones.
abbrev pub not_finite32 : ℕ → Bool
not_finite32 bits = bits / 2 ^ 23 % 2 ^ 8 == 255

abbrev pub not_finite64 : ℕ → Bool
not_finite64 bits = bits / 2 ^ 52 % 2 ^ 11 == 2047

-- An infinity or a NaN is read as 0, with no error.
abbrev zero_unless_finite : (ℕ → Bool) → Read ℕ → Read ℕ
zero_unless_finite not_finite (got bits p) = if not_finite bits then got 0 p else got bits p
zero_unless_finite not_finite (fails bits e p) = fails 0 e p
zero_unless_finite not_finite panics = panics

unfoldable pub read_float32 : Packet → Read ℕ
read_float32 p = zero_unless_finite not_finite32 (read_u32 p)

unfoldable pub read_float64 : Packet → Read ℕ
read_float64 p = zero_unless_finite not_finite64 (read_u64 p)

unfoldable pub write_float32 : ℕ → Packet → Packet
unfolding write_u32
write_float32 f p = write_u32 f p

unfoldable pub write_float64 : ℕ → Packet → Packet
unfolding write_u64
write_float64 f p = write_u64 f p

zeroed :
    (b : Bool) (x : ℕ) (q : Packet) → (if b then got 0 q else got x q) ≡ got (if b then 0 else x) q
zeroed true x q = refl
zeroed false x q = refl

-- A finite float of either width is read back as it was written, and an infinity or a NaN is read
-- back as 0.
pub read-write_float :
    (p : Packet) (more : List ℕ) (x y : ℕ)
    → x < 2 ^ 32
    → y < 2 ^ 64
    → (let q = reading p (write_float32 x p) more in
        read_float32 q ≡ got (if not_finite32 x then 0 else x) (moved q 4))
      × (let q = reading p (write_float64 y p) more in
          read_float64 q ≡ got (if not_finite64 y then 0 else y) (moved q 8))
unfolding read_float32 read_float64 write_float32 write_float64
read-write_float p more x y hx hy =
    let fixed = read-write_fixed p more true 0 0 0 x y (omega arith) (omega arith) hx hy in
    (rw fixed.4 (zeroed (not_finite32 x) x _), rw fixed.5 (zeroed (not_finite64 y) y _))
