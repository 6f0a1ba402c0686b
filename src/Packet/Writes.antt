-- ===== src/Packet/Writes.antt =====
-- The writers of protocol/packet.go. They append, and leave the cursor where it stands.
use gogame.Common.{ℕ, zero, suc, ◌%◌, ◌^◌, Bool, List, [], ◌∷◌, ◌++◌, if◌then◌else◌, length}
use gogame.Packet.{Packet, byte_shr}

-- `p.data = append(p.data, ...)`
unfoldable pub write_raw_bytes : List ℕ → Packet → Packet
write_raw_bytes v p = record p { bytes = p.bytes ++ v }

unfoldable pub write_zeros : ℕ → Packet → Packet
write_zeros zero p = p
write_zeros (suc n) p = write_zeros n (record p { bytes = p.bytes ++ (0 ∷ []) })

unfoldable pub writes_byte : ℕ → Packet → Packet
unfolding write_raw_bytes
writes_byte v p = write_raw_bytes (v ∷ []) p

unfoldable pub write_bool : Bool → Packet → Packet
unfolding write_raw_bytes
write_bool v p = write_raw_bytes ((if v then 1 else 0) ∷ []) p

unfoldable pub write_u16 : ℕ → Packet → Packet
unfolding write_raw_bytes
write_u16 v p = write_raw_bytes (byte_shr v 8 ∷ byte_shr v 0 ∷ []) p

unfoldable pub write_u24 : ℕ → Packet → Packet
unfolding write_raw_bytes
write_u24 v p = write_raw_bytes (byte_shr v 16 ∷ byte_shr v 8 ∷ byte_shr v 0 ∷ []) p

unfoldable pub write_u32 : ℕ → Packet → Packet
unfolding write_raw_bytes
write_u32 v p = write_raw_bytes (byte_shr v 24 ∷ byte_shr v 16 ∷ byte_shr v 8 ∷ byte_shr v 0 ∷ []) p

unfoldable pub write_u64 : ℕ → Packet → Packet
unfolding write_raw_bytes
write_u64 v p =
    write_raw_bytes
      (byte_shr v 56
        ∷ byte_shr v 48
        ∷ byte_shr v 40
        ∷ byte_shr v 32
        ∷ byte_shr v 24
        ∷ byte_shr v 16
        ∷ byte_shr v 8
        ∷ byte_shr v 0
        ∷ [])
      p

unfoldable pub write_s8 : ℕ → Packet → Packet
unfolding writes_byte
write_s8 v p = writes_byte v p

unfoldable pub write_s16 : ℕ → Packet → Packet
unfolding write_u16
write_s16 v p = write_u16 v p

unfoldable pub write_s32 : ℕ → Packet → Packet
unfolding write_u32
write_s32 v p = write_u32 v p

unfoldable pub write_s64 : ℕ → Packet → Packet
unfolding write_u64
write_s64 v p = write_u64 v p

-- `uint16(len(v))` keeps the low 16 bits of the length.
unfoldable pub write_bytes : List ℕ → Packet → Packet
unfolding write_u16 write_raw_bytes
write_bytes v p = write_raw_bytes v (write_u16 (length v % 2 ^ 16) p)

unfoldable pub write_string : List ℕ → Packet → Packet
unfolding write_u16 write_raw_bytes
write_string v p = write_raw_bytes v (write_u16 (length v % 2 ^ 16) p)
