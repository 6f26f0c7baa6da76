-- ===== src/Proto/Codec.antt =====
-- crates/lug-proto/src/codec.rs: frames of a length and as many bytes of JSON. serde_json is the
-- parameters `to_vec` and `from_slice`.
use lug.Prelude.{
  ℕ, ◌+◌, ◌-◌, ◌*◌, ◌^◌, ◌≤◌, ◌<◌, ◌≡◌, refl, ap, ◌∙◌, true, false, Option, none, some, List, ◌++◌,
  length, length-append, take, drop, take-append_length, drop-append_length, ltb, le→ltb_false,
  lt→ltb, ltb_false→le, Bool-cases, inl, inr, if◌then◌else◌, arith, Result, ok, err, u32_mod,
  length-take, take-append_ge, Result-cases, length-drop, take-append-drop, sym, ok-injective,
  ok-ne-err,
}
use lug.Prelude.Bytes.{be_bytes, from_be, from_be-be_bytes}

abbrev pub max_frame : ℕ
max_frame = 16 * 2 ^ 20

abbrev pub header : ℕ
header = 4

pub data CodecError (F : Type 0) : Type 0 where
  too_large : ℕ → CodecError F
  json : F → CodecError F

-- `Ok(Some(serde_json::from_slice(&body)?))`.
abbrev pub parsed : {In F : Type 0} → Result F In → Result (CodecError F) (Option In)
parsed (ok item) = ok (some item)
parsed (err e) = err (json e)

module _ {In F : Type 0} (from_slice : List ℕ → Result F In) where
  -- What is left of the buffer is the second part.
  unfoldable pub decode : List ℕ → Result (CodecError F) (Option In) × List ℕ
  decode src =
      let len = from_be 0 (take header src) in
      let body = take len (drop header src) in
      if ltb (length src) header
      then (ok none, src)
      else if ltb max_frame len
      then (err (too_large len), src)
      else if ltb (length src) (header + len)
      then (ok none, src)
      else (parsed (from_slice body), drop len (drop header src))

module _ {Out F : Type 0} (to_vec : Out → Result F (List ℕ)) where
  -- `u32::try_from` fails where a length is not below 2^32.
  unfoldable pub encode : Out → List ℕ → Result (CodecError F) (List ℕ)
  encode item dst = elim (to_vec item) [
    | err e ↦ err (json e)
    | ok body ↦
        if ltb (length body) u32_mod
        then if ltb max_frame (length body)
          then err (too_large (length body))
          else ok (dst ++ (be_bytes 4 (length body) ++ body))
        else err (too_large (u32_mod - 1))
  ]

some_ne_none : {A F : Type 0} {a : A} → ◌≡◌ {A = Result F (Option A)} (ok none) (ok (some a)) → ⊥
some_ne_none h = cc

parsed-some : {A F : Type 0} → (r : Result F A) (a : A) → parsed r ≡ ok (some a) → r ≡ ok a
parsed-some (ok b) a h = cc
parsed-some (err e) a h = cc

length-frame : (body : List ℕ) → length (be_bytes 4 (length body) ++ body) ≡ header + length body
length-frame body = omega arith

module _ {A F : Type 0} (from_slice : List ℕ → Result F A) where
  decode-frame :
      (body rest : List ℕ)
      → length body ≤ max_frame
      → decode from_slice (be_bytes 4 (length body) ++ (body ++ rest))
        ≡ (parsed (from_slice body), rest)
  unfolding decode
  decode-frame body rest small =
      let len : from_be 0 (be_bytes 4 (length body)) ≡ length body =
        from_be-be_bytes 4 _ (omega arith) in
      let fits : ltb max_frame (length body) ≡ false = le→ltb_false _ _ small in
      let enough : ltb (length (be_bytes 4 (length body) ++ (body ++ rest))) (header + length body)
          ≡ false =
        le→ltb_false _ _ (
          omega (
            arith,
            length-append (be_bytes 4 (length body)) (body ++ rest),
            length-append body rest,
          )) in
      let framed : ltb (length (be_bytes 4 (length body) ++ (body ++ rest))) header ≡ false =
        le→ltb_false _ _ (omega arith) in
      rw (framed, len, fits, enough, take-append_length body rest, drop-append_length body rest)
        refl

  -- The first bytes of a frame are no frame.
  decode-take :
      (body : List ℕ) (n : ℕ)
      → length body ≤ max_frame
      → n < header + length body
      → decode from_slice (take n (be_bytes 4 (length body) ++ body))
        ≡ (ok none, take n (be_bytes 4 (length body) ++ body))
  unfolding decode
  decode-take body n small cut =
      let frame = be_bytes 4 (length body) ++ body in
      let len : length (take n frame) ≡ n = length-take n frame ∙ omega arith in
      elim (Bool-cases (ltb n header)) [
        | inl short ↦ rw (len, short) refl
        | inr enough ↦
            let parts : take n frame ≡ be_bytes 4 (length body) ++ take (n - header) body =
              take-append_ge n (be_bytes 4 (length body)) body (ltb_false→le _ _ enough) in
            let prefix : from_be 0 (take header (take n frame)) ≡ length body =
              ap (λ bs. from_be 0 (take header bs)) parts ∙ from_be-be_bytes 4 _ (omega arith) in
            let fits : ltb max_frame (length body) ≡ false = le→ltb_false _ _ small in
            let waits : ltb n (header + length body) ≡ true = lt→ltb _ _ cut in
            rw (len, enough, prefix, fits, waits) refl
      ]

  -- What the decoder makes an item of: a prefix of four bytes, the body whose length they tell, which
  -- is at most the limit, and which is the item's JSON; what follows is left in the buffer.
  pub decode_some :
      (src rest : List ℕ) (item : A)
      → decode from_slice src ≡ (ok (some item), rest)
      → (body : List ℕ) × (take header src ++ (body ++ rest) ≡ src)
        × (from_be 0 (take header src) ≡ length body)
        × (length body ≤ max_frame)
        × (from_slice body ≡ ok item)
  unfolding decode
  decode_some src rest item h =
      let len = from_be 0 (take header src) in
      let body = take len (drop header src) in
      elim (Bool-cases (ltb (length src) header)) [
        | inl short ↦ absurd (some_ne_none (ap (λ t. t.0) (rw short at h)))
        | inr framed ↦ elim (Bool-cases (ltb max_frame len)) [
          | inl big ↦ absurd (ok-ne-err (ap (λ t. t.0) (rw (framed, big) at h)))
          | inr small ↦ elim (Bool-cases (ltb (length src) (header + len))) [
            | inl part ↦ absurd (some_ne_none (ap (λ t. t.0) (rw (framed, small, part) at h)))
            | inr whole ↦
                let got : length body ≡ len =
                  length-take len (drop header src)
                  ∙ omega (arith, length-drop header src, ltb_false→le _ _ whole) in
                let le : length body ≤ max_frame = omega (arith, got, ltb_false→le _ _ small) in
                let eqs : (parsed (from_slice body), drop len (drop header src))
                    ≡ (ok (some item), rest) =
                  rw (framed, small, whole) at h in
                (
                  body,
                  ap (λ xs. take header src ++ (body ++ xs)) (sym (ap (λ t. t.1) eqs))
                      ∙ ap (λ xs. take header src ++ xs) (take-append-drop len (drop header src))
                      ∙ take-append-drop header src,
                  sym got,
                  le,
                  parsed-some (from_slice body) item (ap (λ t. t.0) eqs),
                )
          ]
        ]
      ]

module _ {A F : Type 0} (to_vec : A → Result F (List ℕ)) (from_slice : List ℕ → Result F A) where
  -- A frame that `encode` has put behind `dst`: the decoder gives the item back and leaves what
  -- follows the frame; of every beginning of the frame it takes nothing and waits.
  pub encode-decode :
      (laws : (item : A) (body : List ℕ) → to_vec item ≡ ok body → from_slice body ≡ ok item)
      (item : A) (dst out : List ℕ)
      → encode to_vec item dst ≡ ok out
      → (frame : List ℕ) × (out ≡ dst ++ frame)
        × ((rest : List ℕ) → decode from_slice (frame ++ rest) ≡ (ok (some item), rest))
        × ((n : ℕ) → n < length frame → decode from_slice (take n frame) ≡ (ok none, take n frame))
  unfolding encode
  encode-decode laws item dst out h = elim (Result-cases (to_vec item)) [
    | inr (e, bad) ↦ absurd (ok-ne-err (rw (bad, encode) at h))
    | inl (body, made) ↦ elim (Bool-cases (ltb (length body) u32_mod)) [
      | inr big ↦ absurd (ok-ne-err (rw (made, big, encode) at h))
      | inl fits ↦ elim (Bool-cases (ltb max_frame (length body))) [
        | inl big ↦ absurd (ok-ne-err (rw (made, fits, big, encode) at h))
        | inr small ↦
            let frame = be_bytes 4 (length body) ++ body in
            let le : length body ≤ max_frame = ltb_false→le _ _ small in
            (
              frame,
              sym (ok-injective (rw (made, fits, small, encode) at h)),
              λ rest.
                  decode-frame from_slice body rest le
                  ∙ ap (λ r. (parsed r, rest)) (laws item body made),
              λ n cut. decode-take from_slice body n le (omega (arith, length-frame body)),
            )
      ]
    ]
  ]
