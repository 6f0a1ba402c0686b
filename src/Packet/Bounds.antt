-- ===== src/Packet/Bounds.antt =====
-- The readers of protocol/packet.go stay inside the buffer.
use gogame.Common.{◌+◌, ◌≤◌, ◌<◌, ◌≡◌, ◌≢◌, refl, arith, length, drop}
use gogame.Packet.{Packet, Read, got, fails, panics}
use gogame.Packet.Reads.{read_bool, read_byte, read_u16, read_u24, read_u32, read_u64, read_bytes}
use gogame.Packet.Reads.{read_string, read_sized, read_rest_bytes}
use gogame.Packet.Cursor.{read_rest_bytes_at}

-- The cursor has moved forward inside the same buffer.
abbrev pub Forward : Packet → Packet → Type 0
Forward p q = (q.bytes ≡ p.bytes) × (p.pos ≤ q.pos) × (q.pos ≤ length p.bytes)

-- A value comes with a forward move, an error with the packet untouched, and there is no panic.
abbrev pub IsAtomic {ℓ} : {A : Type ℓ} → Packet → Read A → Type 0
IsAtomic p (got a q) = Forward p q
IsAtomic p (fails a e q) = q ≡ p
IsAtomic p panics = ⊥

-- A value or an error comes with a forward move, and there is no panic.
abbrev pub IsInside {ℓ} : {A : Type ℓ} → Packet → Read A → Type 0
IsInside p (got a q) = Forward p q
IsInside p (fails a e q) = Forward p q
IsInside p panics = ⊥

-- From a cursor inside the buffer no reader panics or leaves the buffer, except that
-- `read_rest_bytes` moves by the whole length. A fixed-width reader that fails changes nothing,
-- while `read_bytes` and `read_string` that fail may have consumed the length.
pub readers-IsInside :
    (p : Packet)
    → p.pos ≤ length p.bytes
    → IsAtomic p (read_bool p)
      × IsAtomic p (read_byte p)
      × IsAtomic p (read_u16 p)
      × IsAtomic p (read_u24 p)
      × IsAtomic p (read_u32 p)
      × IsAtomic p (read_u64 p)
      × IsInside p (read_bytes p)
      × IsInside p (read_string p)
      × (read_rest_bytes p ≢ panics)
unfolding read_bool read_byte read_u16 read_u24 read_u32 read_u64 read_sized read_bytes read_string
    read_rest_bytes
readers-IsInside p h = (
  ground arith,
  ground arith,
  ground arith,
  ground arith,
  ground arith,
  ground arith,
  ground arith,
  ground arith,
  λ e. ground arith,
)

-- After `read_rest_bytes` from a cursor past 0, on a buffer that is not empty, the cursor stands
-- behind the end, and a second `read_rest_bytes` panics.
pub read_rest_twice :
    (p : Packet)
    → 0 < p.pos
    → p.pos ≤ length p.bytes
    → (q : Packet) × (read_rest_bytes p ≡ got (drop p.pos p.bytes) q) × (read_rest_bytes q ≡ panics)
unfolding read_rest_bytes
read_rest_twice p h k =
    let q : Packet = record p { pos = p.pos + length p.bytes } in
    (q, read_rest_bytes_at p (drop p.pos p.bytes) refl k (omega arith), ground arith)
