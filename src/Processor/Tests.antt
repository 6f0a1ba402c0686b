-- ===== src/Processor/Tests.antt =====
-- A processor with two types of messages, which are their own bytes.
use gogame.Common.{ℕ, List, [], ◌∷◌, ◌≡◌, refl, some}
use gogame.Processor.{Proto, bytes, marshal, unmarshal, merged, panics, register_all, new_processor}
use gogame.Processor.Inverse.{unmarshal-marshal}

abbrev proto : Proto (List ℕ)
proto = record { type_of = λ m. 70; marshal = λ m. some m; merge = λ t b. some b }

abbrev types : List (ℕ × ℕ)
types = (256, 70) ∷ (257, 71) ∷ []

marshalled : marshal proto (8 ∷ 9 ∷ []) (register_all types new_processor) ≡ bytes (8 ∷ 9 ∷ []) 256
unfolding marshal register_all new_processor
marshalled = refl

unmarshal-marshal_example :
    (unmarshal proto 256 (1 ∷ 2 ∷ 8 ∷ 9 ∷ []) (register_all types new_processor)
      ≡ merged (proto.merge 70 (8 ∷ 9 ∷ [])))
    × (unmarshal proto 256 (1 ∷ []) (register_all types new_processor) ≡ panics)
    × (unmarshal proto 256 [] (register_all types new_processor) ≡ panics)
unmarshal-marshal_example =
    unmarshal-marshal proto types (8 ∷ 9 ∷ []) (8 ∷ 9 ∷ []) 256 1 2 marshalled
