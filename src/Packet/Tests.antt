-- ===== src/Packet/Tests.antt =====
-- Runs of the byte cursor of protocol/packet.go, and its theorems at concrete packets.
use gogame.Common.{◌≡◌, ◌≢◌, refl, arith, true, [], ◌∷◌}
use gogame.Packet.{Packet, got, fails, panics, read_uint32_failed, read_bytes_data_failed}
use gogame.Packet.Reads.{read_bool, read_byte, read_u16, read_u24, read_u32, read_u64}
use gogame.Packet.Reads.{read_bytes, read_string, read_sized, read_rest_bytes}
use gogame.Packet.Writes.{
  write_bytes, write_string, write_bool, writes_byte, write_u16, write_u24, write_u32, write_u64,
}
use gogame.Packet.Cursor.{moved}
use gogame.Packet.Fields.{reading, read-write_fixed, read-write_sized}
use gogame.Packet.Floats.{}
use gogame.Packet.Bounds.{IsAtomic, IsInside, readers-IsInside}

abbrev greeting : Packet
greeting = record { pos = 0; bytes = 0x12 ∷ 0x34 ∷ 0xff ∷ [] }

read_u16_run : read_u16 greeting ≡ got 0x1234 (moved greeting 2)
unfolding read_u16
read_u16_run = refl

read_u24_run : read_u24 greeting ≡ got 0x1234ff (moved greeting 3)
unfolding read_u24
read_u24_run = refl

read_u32_run : read_u32 greeting ≡ fails 0 read_uint32_failed greeting
unfolding read_u32
read_u32_run = refl

-- The length 0x1234 is consumed although the body is cut short.
read_bytes_run : read_bytes greeting ≡ fails [] read_bytes_data_failed (moved greeting 2)
unfolding read_bytes read_sized read_u16
read_bytes_run = refl

read-write_fixed_example :
    (let q = reading greeting (write_bool true greeting) (7 ∷ []) in
      read_bool q ≡ got true (moved q 1))
    × (let q = reading greeting (writes_byte 200 greeting) (7 ∷ []) in
        read_byte q ≡ got 200 (moved q 1))
    × (let q = reading greeting (write_u16 50000 greeting) (7 ∷ []) in
        read_u16 q ≡ got 50000 (moved q 2))
    × (let q = reading greeting (write_u24 70000 greeting) (7 ∷ []) in
        read_u24 q ≡ got 70000 (moved q 3))
    × (let q = reading greeting (write_u32 0xdeadbeef greeting) (7 ∷ []) in
        read_u32 q ≡ got 0xdeadbeef (moved q 4))
    × (let q = reading greeting (write_u64 0xfedcba9876543210 greeting) (7 ∷ []) in
        read_u64 q ≡ got 0xfedcba9876543210 (moved q 8))
read-write_fixed_example =
    read-write_fixed greeting (7 ∷ []) true 200 50000 70000 0xdeadbeef 0xfedcba9876543210
      (omega arith) (omega arith) (omega arith) (omega arith)

readers-IsInside_example :
    IsAtomic greeting (read_bool greeting)
    × IsAtomic greeting (read_byte greeting)
    × IsAtomic greeting (read_u16 greeting)
    × IsAtomic greeting (read_u24 greeting)
    × IsAtomic greeting (read_u32 greeting)
    × IsAtomic greeting (read_u64 greeting)
    × IsInside greeting (read_bytes greeting)
    × IsInside greeting (read_string greeting)
    × (read_rest_bytes greeting ≢ panics)
readers-IsInside_example = readers-IsInside greeting (omega arith)

read-write_sized_example :
    let q = reading greeting (write_bytes (5 ∷ 6 ∷ []) greeting) (7 ∷ []) in
    (read_bytes q ≡ got (5 ∷ 6 ∷ []) (moved q 4))
    × (read_string (reading greeting (write_string (5 ∷ 6 ∷ []) greeting) (7 ∷ []))
        ≡ got (5 ∷ 6 ∷ []) (moved q 4))
read-write_sized_example = read-write_sized greeting (5 ∷ 6 ∷ []) (7 ∷ []) (omega arith)
