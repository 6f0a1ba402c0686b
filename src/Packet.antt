-- ===== src/Packet.antt =====
-- The byte cursor of protocol/packet.go: `Packet`, the types its methods share and its constructors.
-- A byte is a number below 256. A signed integer is its bit pattern, so that `int8(b)`, `int16(v)`
-- and the like are the identity.
-- Children: `Reads` and `Writes` are the methods, `Floats` the two float formats. `Cursor` proves
-- what the readers do at a position, and `Fields` that they read back what the writers wrote.
pub mod Reads
pub mod Writes
pub mod Cursor
pub mod Fields
pub mod Floats
pub mod Bounds
mod Tests
use gogame.Common.{ℕ, ◌+◌, ◌-◌, ◌*◌, ◌/◌, ◌%◌, ◌^◌, List, length, take, drop}

pub record Packet : Type 0 where
  pub pos : ℕ
  pub bytes : List ℕ

-- The messages of `errors.New`.
pub data PacketError : Type 0 where
  read_byte_failed read_bytes_header_failed read_bytes_data_failed : PacketError
  read_rest_bytes_failed read_string_header_failed read_string_data_failed : PacketError
  read_uint16_failed read_uint24_failed read_uint32_failed read_uint64_failed : PacketError

-- What a reader returns: its value, or the value that stands beside an error, with the cursor
-- it leaves behind; or the panic of a slice expression that is out of range.
pub data Read {ℓ} (A : Type ℓ) : Type ℓ where
  got : A → Packet → Read A
  fails : A → PacketError → Packet → Read A
  panics : Read A

abbrev pub map_read {ℓ κ} : {A : Type ℓ} {B : Type κ} → (A → B) → Read A → Read B
map_read f (got a p) = got (f a) p
map_read f (fails a e p) = fails (f a) e p
map_read f panics = panics

-- `xs[lo:hi]`, for lo ≤ hi ≤ len(xs).
abbrev pub slice {ℓ} : {A : Type ℓ} → List A → ℕ → ℕ → List A
slice xs lo hi = take (hi - lo) (drop lo xs)

-- `x << k` in a word of `w` bits, and `byte(x >> k)`.
abbrev pub shl : ℕ → ℕ → ℕ → ℕ
shl w x k = x * 2 ^ k % 2 ^ w

abbrev pub byte_shr : ℕ → ℕ → ℕ
byte_shr x k = x / 2 ^ k % 256

unfoldable pub new_packet : List ℕ → Packet
new_packet bs = record { pos = 0; bytes = bs }

unfoldable pub packet_length : Packet → ℕ
packet_length p = length p.bytes
