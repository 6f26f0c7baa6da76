-- ===== src/Proto/Examples.antt =====
-- The frame codec at concrete frames. A document is one byte, which is its own JSON.
use lug.Prelude.{
  ℕ, ◌<◌, ◌≤◌, ◌≡◌, refl, some, none, List, [], ◌∷◌, ◌++◌, length, take, Result, ok, err,
}
use lug.Proto.Codec.{encode, decode, encode-decode, decode_some, max_frame}

abbrev byte_to_vec : ℕ → Result (Unit {0}) (List ℕ)
byte_to_vec b = ok (b ∷ [])

abbrev byte_from_slice : List ℕ → Result (Unit {0}) ℕ
byte_from_slice [] = err tt
byte_from_slice (b ∷ bs) = ok b

byte-laws : (item : ℕ) (body : List ℕ) → byte_to_vec item ≡ ok body → byte_from_slice body ≡ ok item
byte-laws item [] h = cc
byte-laws item (b ∷ bs) h = cc

encode_seven : encode byte_to_vec 7 (9 ∷ []) ≡ ok (9 ∷ 0 ∷ 0 ∷ 0 ∷ 1 ∷ 7 ∷ [])
unfolding encode
encode_seven = refl

encode-decode_example :
    (frame : List ℕ) × (9 ∷ 0 ∷ 0 ∷ 0 ∷ 1 ∷ 7 ∷ [] ≡ (9 ∷ []) ++ frame)
    × ((rest : List ℕ) → decode byte_from_slice (frame ++ rest) ≡ (ok (some 7), rest))
    × ((n : ℕ) → n < length frame → decode byte_from_slice (take n frame) ≡ (ok none, take n frame))
encode-decode_example =
    encode-decode byte_to_vec byte_from_slice byte-laws 7 (9 ∷ []) (9 ∷ 0 ∷ 0 ∷ 0 ∷ 1 ∷ 7 ∷ [])
      encode_seven

decode_seven : decode byte_from_slice (0 ∷ 0 ∷ 0 ∷ 1 ∷ 7 ∷ 8 ∷ []) ≡ (ok (some 7), 8 ∷ [])
unfolding decode
decode_seven = refl

decode_some_example :
    (body : List ℕ) × ((0 ∷ 0 ∷ 0 ∷ 1 ∷ []) ++ (body ++ 8 ∷ []) ≡ 0 ∷ 0 ∷ 0 ∷ 1 ∷ 7 ∷ 8 ∷ [])
    × (◌≡◌ {A = ℕ} 1 (length body))
    × (length body ≤ max_frame)
    × (byte_from_slice body ≡ ok 7)
decode_some_example =
    decode_some byte_from_slice (0 ∷ 0 ∷ 0 ∷ 1 ∷ 7 ∷ 8 ∷ []) (8 ∷ []) 7 decode_seven
