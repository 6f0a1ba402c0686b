-- ===== src/Framing/Stream.antt =====
-- What base/network/session/codec.go writes is read back message by message.
use gogame.Common.{ℕ, zero, suc, ◌+◌, ◌%◌, ◌^◌, ◌≤◌, ◌<◌, ◌≡◌, refl, ap, arith, List, [], ◌∷◌, ◌++◌}
use gogame.Common.{none, some, All, length, length-append, take-append, drop-append}
use gogame.Common.{
  ltb, le→ltb, lt→ltb, ltb→lt, ltb_false→le, ◌⊎◌, inl, inr, Bool-cases, Option-cases, length-drop,
}
use gogame.Packet.Cursor.{u32_bytes}
use gogame.Framing.{CodecError, Frame, message, read_error, read_full, read_body, codec_read}
use gogame.Framing.{codec_write, buffer_write, read_loop, size_max, big_endian32}
use gogame.Framing.{read_header_error, write_body_too_large}
use mathlib.Core.List.{append_assoc}

-- The frame of a message.
abbrev pub frame : List ℕ → List ℕ
frame b = u32_bytes (length b) ++ b

read_full-append : (b more : List ℕ) → read_full (b ++ more) (length b) ≡ some (b, more)
unfolding read_full
read_full-append b more = rw (
  le→ltb (length (b ++ more)) (length b) (omega (arith, length-append b more)),
  take-append b more,
  drop-append b more,
)

big_endian32-u32_bytes : (n : ℕ) → n < 2 ^ 32 → big_endian32 (u32_bytes n) ≡ n
unfolding big_endian32
big_endian32-u32_bytes n h = omega arith

codec_read-frame :
    (b more : List ℕ) → length b ≤ size_max → codec_read (frame b ++ more) ≡ message b more
unfolding codec_read
codec_read-frame b more h = rw (
  read_full-append (u32_bytes (length b)) (b ++ more),
  codec_read,
  big_endian32-u32_bytes (length b) (omega arith),
  le→ltb size_max (length b) h,
  read_full-append b more,
  read_body,
)

-- A message of at most a megabyte is framed whole, and reading gives it back together with
-- whatever follows it. A longer one, below 4 gigabytes, is refused and nothing is written.
pub codec_read-codec_write :
    (w b more : List ℕ)
    → length b < 2 ^ 32
    → ((length b ≤ size_max)
        × (codec_write buffer_write w b ≡ (w ++ frame b, none))
        × (codec_read (frame b ++ more) ≡ message b more))
      ⊎ ((size_max < length b) × (codec_write buffer_write w b ≡ (w, some write_body_too_large)))
unfolding codec_write
codec_read-codec_write w b more h =
    let whole : length b % 2 ^ 32 ≡ length b = omega arith in
    elim (Bool-cases (ltb size_max (length b))) [
      | inl long ↦ inr (ltb→lt _ _ long, rw (whole, long))
      | inr short ↦ inl (
        ltb_false→le _ _ short,
        rw (whole, short) (ap (λ l. (l, none)) (append_assoc w (u32_bytes (length b)) b)),
        codec_read-frame b more (ltb_false→le _ _ short),
      )
    ]

read_full_shorter :
    (r h rest : List ℕ) (n : ℕ) → read_full r n ≡ some (h, rest) → length rest + n ≡ length r
unfolding read_full
read_full_shorter r h rest n e = ground (arith, length-drop n r)

read_full_cut : (r : List ℕ) (n : ℕ) → length r < n → read_full r n ≡ none
unfolding read_full
read_full_cut r n h = rw (lt→ltb (length r) n h)

abbrev left_over : Frame → List ℕ
left_over (message b rest) = rest
left_over (read_error e) = []

read_body_shorter :
    (n : ℕ) (r b rest : List ℕ) → read_body n r ≡ message b rest → length rest ≤ length r
unfolding read_body
read_body_shorter n r b rest e = elim (Option-cases (read_full r n)) [
  | inl short ↦ absurd (let f = rw (short, read_body) at e in cc)
  | inr ((b', rest'), whole) ↦
      let f = rw (whole, read_body) at e in
      omega (arith, read_full_shorter r b' rest' n whole, ap (λ x. length (left_over x)) f)
]

frame_shorter : (r b rest : List ℕ) → codec_read r ≡ message b rest → length rest < length r
unfolding codec_read
frame_shorter r b rest e = elim (Option-cases (read_full r 4)) [
  | inl short ↦ absurd (let f = rw (short, codec_read) at e in cc)
  | inr ((h, r'), whole) ↦
      let f = rw (whole, codec_read) at e in
      elim (Bool-cases (ltb size_max (big_endian32 h))) [
        | inl large ↦ absurd (let g = rw large at f in cc)
        | inr fits ↦ omega (
          arith,
          read_full_shorter r h r' 4 whole,
          read_body_shorter (big_endian32 h) r' b rest (rw fits at f),
        )
      ]
]

Frame-cases :
    (f : Frame)
    → ((e : CodecError) × (f ≡ read_error e))
      ⊎ ((b : List ℕ) × (rest : List ℕ) × (f ≡ message b rest))
Frame-cases (read_error e) = inl (e, refl)
Frame-cases (message b rest) = inr (b, rest, refl)

-- The read loop ends on every stream: fuel above the stream's length is enough.
pub read_loop_ends :
    (fuel : ℕ) (r : List ℕ)
    → length r < fuel
    → (bs : List (List ℕ)) × (e : CodecError) × (read_loop fuel r ≡ some (bs, e))
unfolding read_loop
read_loop_ends zero r h = absurd (omega arith)
read_loop_ends (suc fuel) r h = elim (Frame-cases (codec_read r)) [
  | inl (e, stop) ↦ ([], e, rw (stop, read_loop))
  | inr (b, rest, go) ↦
      let (bs, e, more) = read_loop_ends fuel rest (omega (arith, frame_shorter r b rest go)) in
      (b ∷ bs, e, rw (go, read_loop, more))
]

abbrev pub frames : List (List ℕ) → List ℕ
frames [] = []
frames (b ∷ bs) = frame b ++ frames bs

loop_frames :
    (bs : List (List ℕ)) (cut : List ℕ) (fuel : ℕ)
    → All (λ b. length b ≤ size_max) bs
    → length cut < 4
    → length (frames bs ++ cut) < fuel
    → read_loop fuel (frames bs ++ cut) ≡ some (bs, read_header_error)
unfolding read_loop
loop_frames bs cut zero small short h = absurd (omega arith)
loop_frames [] cut (suc fuel) small short h = rw (cut_off, read_loop)
  where
    cut_off : codec_read cut ≡ read_error read_header_error
    cut_off = unfold codec_read in rw (read_full_cut cut 4 short, codec_read)
loop_frames (b ∷ bs) cut (suc fuel) (small, smalls) short h =
    let split = append_assoc (frame b) (frames bs) cut in
    let smaller = length-append (frame b) (frames bs ++ cut) in
    rw (
      split,
      codec_read-frame b (frames bs ++ cut) small,
      read_loop,
      loop_frames bs cut fuel smalls short (omega (arith, smaller, ap length split)),
    )

-- Messages of at most a megabyte that are sent one after the other, on a stream that then breaks
-- off inside a header, are handed to the handler in order, all of them and nothing else.
pub read_loop-frames :
    (bs : List (List ℕ)) (cut : List ℕ)
    → All (λ b. length b ≤ size_max) bs
    → length cut < 4
    → read_loop (suc (length (frames bs ++ cut))) (frames bs ++ cut) ≡ some (bs, read_header_error)
read_loop-frames bs cut small short = loop_frames bs cut _ small short (omega arith)
