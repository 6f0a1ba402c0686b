-- ===== src/Packet/Fields.antt =====
-- The readers of protocol/packet.go read back what the writers wrote.
use gogame.Common.{ℕ, ◌+◌, ◌%◌, ◌^◌, ◌≤◌, ◌<◌, ◌≡◌, ap, ◌∙◌, arith, Bool, true, false}
use gogame.Common.{List, [], ◌∷◌, ◌++◌, length, take, drop, take-length, drop-append, length-append}
use gogame.Common.{length-drop, le→ltb, take-append_le}
use gogame.Packet.{Packet, PacketError, got, read_bytes_data_failed, read_string_data_failed}
use gogame.Packet.Reads.{read_bool, read_byte, read_u16, read_u24, read_u32, read_u64, read_bytes}
use gogame.Packet.Reads.{read_string, read_sized}
use gogame.Packet.Writes.{write_raw_bytes, writes_byte, write_bool, write_u16, write_u24, write_u32}
use gogame.Packet.Writes.{write_u64, write_bytes, write_string}
use gogame.Packet.Cursor.{ahead, moved, slice_at, read_byte_at, read_u16_at, read_u24_at}
use gogame.Packet.Cursor.{read_u32_at, read_u64_at, u16_bytes, ahead-moved}
use mathlib.Core.List.{append_assoc}

-- The buffer of `w` once more bytes follow, with the cursor at the end of the buffer of `p`: a
-- reader that has consumed all of `p` goes on with what `w` added to it.
abbrev pub reading : Packet → Packet → List ℕ → Packet
reading p w more = record { pos = length p.bytes; bytes = w.bytes ++ more }

ahead-reading :
    (p : Packet) (v more : List ℕ) → ahead (reading p (write_raw_bytes v p) more) ≡ v ++ more
unfolding write_raw_bytes
ahead-reading p v more =
    ap (drop (length p.bytes)) (append_assoc p.bytes v more) ∙ drop-append p.bytes (v ++ more)

bool_back :
    (p : Packet) (more : List ℕ) (c : Bool)
    → let q = reading p (write_bool c p) more in read_bool q ≡ got c (moved q 1)
unfolding write_bool read_bool
bool_back p more true =
    rw (read_byte_at (reading p (write_bool true p) more) 1 more (ahead-reading p (1 ∷ []) more))
bool_back p more false =
    rw (read_byte_at (reading p (write_bool false p) more) 0 more (ahead-reading p (0 ∷ []) more))

-- A Boolean, a byte, and an unsigned word of 16, 24, 32 or 64 bits that is in range, which its writer
-- appends to the buffer of any packet, is read back by its reader, which consumes exactly the bytes
-- written, whatever follows them.
pub read-write_fixed :
    (p : Packet) (more : List ℕ) (b : Bool) (v8 v16 v24 v32 v64 : ℕ)
    → v16 < 2 ^ 16
    → v24 < 2 ^ 24
    → v32 < 2 ^ 32
    → v64 < 2 ^ 64
    → (let q = reading p (write_bool b p) more in read_bool q ≡ got b (moved q 1))
      × (let q = reading p (writes_byte v8 p) more in read_byte q ≡ got v8 (moved q 1))
      × (let q = reading p (write_u16 v16 p) more in read_u16 q ≡ got v16 (moved q 2))
      × (let q = reading p (write_u24 v24 p) more in read_u24 q ≡ got v24 (moved q 3))
      × (let q = reading p (write_u32 v32 p) more in read_u32 q ≡ got v32 (moved q 4))
      × (let q = reading p (write_u64 v64 p) more in read_u64 q ≡ got v64 (moved q 8))
unfolding writes_byte write_u16 write_u24 write_u32 write_u64
read-write_fixed p more b v8 v16 v24 v32 v64 h16 h24 h32 h64 = (
  bool_back p more b,
  read_byte_at (reading p (writes_byte v8 p) more) v8 more (ahead-reading p _ more),
  read_u16_at (reading p (write_u16 v16 p) more) v16 more (ahead-reading p _ more) h16,
  read_u24_at (reading p (write_u24 v24 p) more) v24 more (ahead-reading p _ more) h24,
  read_u32_at (reading p (write_u32 v32 p) more) v32 more (ahead-reading p _ more) h32,
  read_u64_at (reading p (write_u64 v64 p) more) v64 more (ahead-reading p _ more) h64,
)

-- The body behind its length: what `read_sized` does once the length `n` is known.
sized_at :
    (p : Packet) (n : ℕ) (v r : List ℕ) (cut : PacketError)
    → ahead p ≡ v ++ r
    → p.pos ≤ length p.bytes
    → n ≤ length v
    → read_sized cut (got n p) ≡ got (take n v) (moved p n)
unfolding read_sized
sized_at p n v r cut e within short = rw (
  le→ltb (length p.bytes) (p.pos + n)
      (omega (arith, ap length e, length-append v r, length-drop p.pos p.bytes)),
  slice_at p.bytes p.pos n,
  e,
  take-append_le n v r short,
)

module _ (p : Packet) (v more : List ℕ) where
  abbrev sized : Packet
  sized = reading p (write_bytes v p) more

  sized-ahead : ahead sized ≡ u16_bytes (length v % 2 ^ 16) ++ (v ++ more)
  unfolding write_bytes
  sized-ahead =
      ap (λ l. drop (length p.bytes) (l ++ more)) (append_assoc p.bytes _ v)
      ∙ ahead-reading p (u16_bytes (length v % 2 ^ 16) ++ v) more

  sized_fits : sized.pos + 2 ≤ length sized.bytes
  unfolding write_bytes
  sized_fits = omega (
    arith,
    length-append ((p.bytes ++ u16_bytes (length v % 2 ^ 16)) ++ v) more,
    length-append (p.bytes ++ u16_bytes (length v % 2 ^ 16)) v,
    length-append p.bytes (u16_bytes (length v % 2 ^ 16)),
  )

  sized_back :
      (cut : PacketError)
      → read_sized cut (read_u16 sized)
        ≡ got (take (length v % 2 ^ 16) v) (moved (moved sized 2) (length v % 2 ^ 16))
  sized_back cut =
      rw (read_u16_at sized (length v % 2 ^ 16) (v ++ more) sized-ahead (omega arith)) (
        sized_at (moved sized 2) (length v % 2 ^ 16) v more cut
          (ahead-moved sized 2 ∙ ap (drop 2) sized-ahead) sized_fits (omega arith))

  -- `read_bytes` and `read_string` read back the first `length v % 65536` bytes of what
  -- `write_bytes` and `write_string` were given, and leave the cursor behind those.
  pub read-write_sized_mod :
      let q = reading p (write_bytes v p) more in
      let n = length v % 2 ^ 16 in
      (read_bytes q ≡ got (take n v) (moved q (2 + n)))
      × (read_string (reading p (write_string v p) more) ≡ got (take n v) (moved q (2 + n)))
  unfolding read_bytes read_string write_string write_bytes
  read-write_sized_mod =
      let after : moved (moved sized 2) (length v % 2 ^ 16) ≡ moved sized (2 + length v % 2 ^ 16) =
        ap (λ k. record sized { pos = k }) (omega arith) in
      (
        rw (le→ltb (length sized.bytes) (sized.pos + 2) sized_fits)
            (sized_back read_bytes_data_failed ∙ ap (got (take (length v % 2 ^ 16) v)) after),
        rw (le→ltb (length sized.bytes) (sized.pos + 2) sized_fits)
            (sized_back read_string_data_failed ∙ ap (got (take (length v % 2 ^ 16) v)) after),
      )

  -- What `write_bytes` or `write_string` appends to any packet, of fewer than 65536 bytes, is read back
  -- whole by `read_bytes` or `read_string`, which consumes it and the two bytes of its length, whatever
  -- follows.
  pub read-write_sized :
      length v < 2 ^ 16
      → let q = reading p (write_bytes v p) more in
        (read_bytes q ≡ got v (moved q (2 + length v)))
        × (read_string (reading p (write_string v p) more) ≡ got v (moved q (2 + length v)))
  read-write_sized h =
      let whole : length v % 2 ^ 16 ≡ length v = omega arith in
      rw (whole, take-length v) at read-write_sized_mod
