-- ===== src/Framing/Tests.antt =====
-- The framing of base/network/session/codec.go at concrete messages.
use gogame.Common.{ℕ, ◌≡◌, ◌++◌, ◌⊎◌, ◌≤◌, ◌<◌, arith, List, [], ◌∷◌, none, some, length}
use gogame.Framing.{
  CodecError, read_loop, codec_read, codec_write, buffer_write, size_max, message,
  write_body_too_large,
}
use gogame.Framing.{read_header_error}
use gogame.Framing.Stream.{frame, codec_read-codec_write, frames, read_loop_ends, read_loop-frames}

read_loop_ends_example :
    (bs : List (List ℕ)) × (e : CodecError) × (read_loop 8 (0 ∷ 0 ∷ 0 ∷ 1 ∷ 5 ∷ 0 ∷ [])
      ≡ some (bs, e))
read_loop_ends_example = read_loop_ends 8 (0 ∷ 0 ∷ 0 ∷ 1 ∷ 5 ∷ 0 ∷ []) (omega arith)

read_loop-frames_example :
    read_loop 16 (frames ((5 ∷ 6 ∷ []) ∷ [] ∷ (7 ∷ []) ∷ []) ++ [])
    ≡ some ((5 ∷ 6 ∷ []) ∷ [] ∷ (7 ∷ []) ∷ [], read_header_error)
read_loop-frames_example =
    read_loop-frames ((5 ∷ 6 ∷ []) ∷ [] ∷ (7 ∷ []) ∷ []) [] (omega arith) (omega arith)

abbrev sent : List ℕ
sent = 5 ∷ 6 ∷ []

codec_read-codec_write_example :
    ((length sent ≤ size_max)
      × (codec_write buffer_write (1 ∷ []) sent ≡ ((1 ∷ []) ++ frame sent, none))
      × (codec_read (frame sent ++ 9 ∷ []) ≡ message sent (9 ∷ [])))
    ⊎ ((size_max < length sent)
        × (codec_write buffer_write (1 ∷ []) sent ≡ (1 ∷ [], some write_body_too_large)))
codec_read-codec_write_example = codec_read-codec_write (1 ∷ []) sent (9 ∷ []) (omega arith)
