-- ===== src/Framing.antt =====
-- The frames of base/network/session/codec.go, a length of four bytes before each message, and the
-- read loop of `serve` in base/network/tcpconnection.go, which takes frames off a connection.
-- What a reader has still to deliver before it ends is a list of bytes; a writer is any type with a
-- `Write` that may fail.
mod Tests
pub mod Stream
use gogame.Common.{
  ℕ, zero, suc, ◌+◌, ◌*◌, ◌%◌, ◌^◌, Bool, true, List, [], ◌∷◌, ◌++◌, Option, none, some,
}
use gogame.Common.{ltb, if◌then◌else◌, length, take, drop, get_or}
use gogame.Packet.Cursor.{u32_bytes}

abbrev pub size_max : ℕ
size_max = 2 ^ 20

pub data CodecError : Type 0 where
  read_header_error body_too_large read_body_error : CodecError
  write_body_too_large write_header_error write_body_error : CodecError

-- The body with what the reader has left.
pub data Frame : Type 0 where
  message : List ℕ → List ℕ → Frame
  read_error : CodecError → Frame

-- `io.ReadFull` into a buffer of `n` bytes fails where the reader ends before.
unfoldable pub read_full : List ℕ → ℕ → Option (List ℕ × List ℕ)
read_full r n = if ltb (length r) n then none else some (take n r, drop n r)

-- `binary.BigEndian.Uint32`
unfoldable pub big_endian32 : List ℕ → ℕ
big_endian32 h = get_or h 0 0 * 16777216 + get_or h 1 0 * 65536 + get_or h 2 0 * 256 + get_or h 3 0

unfoldable pub read_body : ℕ → List ℕ → Frame
read_body n r = elim (read_full r n) [
  | none ↦ read_error read_body_error
  | some (b, rest) ↦ message b rest
]

unfoldable pub codec_read : List ℕ → Frame
unfolding read_body
codec_read r = elim (read_full r 4) [
  | none ↦ read_error read_header_error
  | some (h, rest) ↦
      let n = big_endian32 h in
      if ltb size_max n then read_error body_too_large else read_body n rest
]

module _ {W : Type 0} (write : W → List ℕ → W × Bool) where
  abbrev write_or : CodecError → W → List ℕ → W × Option CodecError
  write_or e w b = let (w', done) = write w b in if done then (w', none) else (w', some e)

  -- `uint32(len(b))` keeps the low 32 bits of the length.
  unfoldable pub codec_write : W → List ℕ → W × Option CodecError
  codec_write w b =
      let n = length b % 2 ^ 32 in
      let (w', header) = write w (u32_bytes n) in
      if ltb size_max n
      then (w, some write_body_too_large)
      else if header
      then write_or write_body_error w' b
      else (w', some write_header_error)

-- A buffer in memory takes every byte.
abbrev pub buffer_write : List ℕ → List ℕ → List ℕ × Bool
buffer_write w b = (w ++ b, true)

-- `for { b, err := codec.Read(r); if err != nil { return }; handler.Receive(this, b) }`: the
-- messages handed to the handler, with the error that ends the loop; `none` where the fuel ran out.
unfoldable pub read_loop : ℕ → List ℕ → Option (List (List ℕ) × CodecError)
read_loop zero r = none
read_loop (suc fuel) r = elim (codec_read r) [
  | read_error e ↦ some ([], e)
  | message b rest ↦ elim (read_loop fuel rest) [ none ↦ none | some (bs, e) ↦ some (b ∷ bs, e) ]
]
