-- ===== src/Packet/Reads.antt =====
-- The readers of protocol/packet.go.
use gogame.Common.{ℕ, ◌+◌, ◌-◌, ◌*◌, bit_or, Bool, List, [], ◌∷◌, ltb, leb, ◌==◌, if◌then◌else◌}
use gogame.Common.{length, get_or}
use gogame.Packet.{Packet, PacketError, Read, got, fails, panics, map_read, slice, shl}
use gogame.Packet.{read_byte_failed, read_bytes_header_failed, read_bytes_data_failed}
use gogame.Packet.{read_rest_bytes_failed, read_string_header_failed, read_string_data_failed}
use gogame.Packet.{read_uint16_failed, read_uint24_failed, read_uint32_failed, read_uint64_failed}

unfoldable pub read_byte : Packet → Read ℕ
read_byte p =
    if leb (length p.bytes) p.pos
    then fails 0 read_byte_failed p
    else got (get_or p.bytes p.pos 0) (record p { pos = p.pos + 1 })

-- Every byte but 1 reads as false.
unfoldable pub read_bool : Packet → Read Bool
unfolding read_byte
read_bool p = map_read (λ b. b == 1) (read_byte p)

unfoldable pub read_u16 : Packet → Read ℕ
read_u16 p =
    let buf = slice p.bytes p.pos (p.pos + 2) in
    if ltb (length p.bytes) (p.pos + 2)
    then fails 0 read_uint16_failed p
    else got (bit_or (shl 16 (get_or buf 0 0) 8) (get_or buf 1 0)) (record p { pos = p.pos + 2 })

unfoldable pub read_u24 : Packet → Read ℕ
read_u24 p =
    let buf = slice p.bytes p.pos (p.pos + 3) in
    if ltb (length p.bytes) (p.pos + 3)
    then fails 0 read_uint24_failed p
    else got
        (bit_or (bit_or (shl 32 (get_or buf 0 0) 16) (shl 32 (get_or buf 1 0) 8)) (get_or buf 2 0))
        (record p { pos = p.pos + 3 })

unfoldable pub read_u32 : Packet → Read ℕ
read_u32 p =
    let buf = slice p.bytes p.pos (p.pos + 4) in
    if ltb (length p.bytes) (p.pos + 4)
    then fails 0 read_uint32_failed p
    else got
        (bit_or
          (bit_or (bit_or (shl 32 (get_or buf 0 0) 24) (shl 32 (get_or buf 1 0) 16))
            (shl 32 (get_or buf 2 0) 8))
          (get_or buf 3 0))
        (record p { pos = p.pos + 4 })

-- `for i, v := range buf { ret |= uint64(v) << uint((7-i)*8) }`
unfoldable pub u64_loop : ℕ → ℕ → List ℕ → ℕ
u64_loop ret i [] = ret
u64_loop ret i (v ∷ vs) = u64_loop (bit_or ret (shl 64 v ((7 - i) * 8))) (i + 1) vs

unfoldable pub read_u64 : Packet → Read ℕ
unfolding u64_loop
read_u64 p =
    let buf = slice p.bytes p.pos (p.pos + 8) in
    if ltb (length p.bytes) (p.pos + 8)
    then fails 0 read_uint64_failed p
    else got (u64_loop 0 0 buf) (record p { pos = p.pos + 8 })

-- The signed readers convert the unsigned value of the same width; `read_s24` converts to an int32.
unfoldable pub read_s8 : Packet → Read ℕ
unfolding read_byte
read_s8 p = read_byte p

unfoldable pub read_s16 : Packet → Read ℕ
unfolding read_u16
read_s16 p = read_u16 p

unfoldable pub read_s24 : Packet → Read ℕ
unfolding read_u24
read_s24 p = read_u24 p

unfoldable pub read_s32 : Packet → Read ℕ
unfolding read_u32
read_s32 p = read_u32 p

unfoldable pub read_s64 : Packet → Read ℕ
unfolding read_u64
read_s64 p = read_u64 p

-- The body behind a two-byte length, with the error for a body that is cut short. The length's own
-- error is dropped by the source, and the header's guard keeps it from arising.
unfoldable pub read_sized : PacketError → Read ℕ → Read (List ℕ)
read_sized cut (got size p) =
    if ltb (length p.bytes) (p.pos + size)
    then fails [] cut p
    else got (slice p.bytes p.pos (p.pos + size)) (record p { pos = p.pos + size })
read_sized cut (fails size e p) =
    if ltb (length p.bytes) (p.pos + size)
    then fails [] cut p
    else got (slice p.bytes p.pos (p.pos + size)) (record p { pos = p.pos + size })
read_sized cut panics = panics

unfoldable pub read_bytes : Packet → Read (List ℕ)
read_bytes p =
    if ltb (length p.bytes) (p.pos + 2)
    then fails [] read_bytes_header_failed p
    else read_sized read_bytes_data_failed (read_u16 p)

-- A Go string is its bytes.
unfoldable pub read_string : Packet → Read (List ℕ)
read_string p =
    if ltb (length p.bytes) (p.pos + 2)
    then fails [] read_string_header_failed p
    else read_sized read_string_data_failed (read_u16 p)

-- The cursor moves by the whole length of the buffer, also when it does not stand at 0. A cursor
-- behind the end makes the slice expression panic.
unfoldable pub read_rest_bytes : Packet → Read (List ℕ)
read_rest_bytes p =
    if leb (length p.bytes) 0
    then fails [] read_rest_bytes_failed p
    else if ltb (length p.bytes) p.pos
    then panics
    else got (slice p.bytes p.pos (length p.bytes)) (record p { pos = p.pos + length p.bytes })
