-- ===== src/Wal/Segment/Recovery.antt =====
-- segment.rs `scan`: what it finds in a whole segment file, in one that a crash has cut, and that it
-- always comes to an end within the file.
use lug.Prelude.{
  u32_mod, min, subst, ℕ, zero, suc, ◌+◌, ◌-◌, ◌<◌, ◌≤◌, ◌≡◌, refl, ap, ◌∙◌, ◌⊎◌, inl, inr, Bool,
  true, false, ◌||◌, ◌&&◌, List, [], ◌∷◌, ◌++◌, length, length-append, length-take, length-drop,
  take, drop, All, ltb, ◌==◌, ==_iff, Bool-cases, arith, Result, ok, err,
}
use lug.Core.Storage.{Record}
use lug.Wal.Format.{
  seg_prologue, rec_prefix, max_payload, bytes_eq, seg_magic, checksum, record_prefix,
  segment_prologue, split_prefix, zeros,
}
use lug.Wal.Segment.{
  Flow, continue, break, Scan, ScanError, not_a_segment, visitor, exhausted, visited, round, walk,
  scan,
}
use lug.Wal.Segment.Contents.{
  IsRecord, encode, size, longer, longer-length, length-record_prefix, length-zeros, length-encode,
  length-size,
}
use lug.Wal.Segment.Walk.{visit_all, walk-encode, walk-zeros, walk-torn, visit_all-cong}

module _ {S E : Type 0} (crc : List ℕ → ℕ) (visit : S → ℕ → List ℕ → Result E (S × Flow)) where
  scan-prologue :
      (s : S) (rest : List ℕ)
      → scan crc visit s (segment_prologue ++ rest)
        ≡ walk crc visit (suc (16 + length rest)) (16 + length rest) s seg_prologue rest
  unfolding scan
  scan-prologue s rest =
      let e : length (segment_prologue ++ rest) ≡ 16 + length rest = omega arith in
      ap (λ n. walk crc visit (suc n) n s seg_prologue rest) e

  -- A scan of a file that begins with the prologue and the records, and goes on with `rest`.
  scan-records :
      (crc_fits : (bs : List ℕ) → crc bs < u32_mod) (s : S) (records : List (Record (List ℕ)))
      (rest : List ℕ)
      → All IsRecord records
      → (fuel : ℕ) × (scan crc visit s (segment_prologue ++ (encode crc records ++ rest))
          ≡ visit_all crc visit
              (seg_prologue + (size crc records + length rest))
              (λ s' end.
                walk crc visit
                  (suc fuel)
                  (seg_prologue + (size crc records + length rest))
                  s'
                  end
                  rest)
              s
              seg_prologue
              records)
  scan-records crc_fits s records rest h =
      let total = size crc records + length rest in
      let len : length (encode crc records ++ rest) ≡ total =
        length-append (encode crc records) rest ∙ omega (arith, length-encode crc records) in
      let fuel : ℕ = 16 + total - length records in
      let enough : suc (16 + total) ≡ longer records (suc fuel) =
        omega (arith, longer-length records (suc fuel), length-size crc records) in
      (
        fuel,
        scan-prologue s (encode crc records ++ rest)
            ∙ ap
                (λ n.
                  walk crc visit (suc (16 + n)) (16 + n) s seg_prologue
                    (encode crc records ++ rest))
                len
            ∙ ap (λ n. walk crc visit n (16 + total) s seg_prologue (encode crc records ++ rest))
                enough
            ∙ walk-encode crc visit (16 + total) crc_fits fuel seg_prologue s records rest h
                (omega arith),
      )

  -- A segment that holds whole records, and then nothing or at least a prefix of zeros: the scan
  -- shows the visitor exactly these records, in order, and unless the visitor stops it or fails, ends
  -- behind the last of them with no torn tail.
  pub scan-encode :
      (crc_fits : (bs : List ℕ) → crc bs < u32_mod) (s : S) (records : List (Record (List ℕ)))
      (k : ℕ)
      → All IsRecord records
      → (k ≡ 0) ⊎ (rec_prefix ≤ k)
      → scan crc visit s (segment_prologue ++ (encode crc records ++ zeros k))
        ≡ visit_all crc visit
            (seg_prologue + (size crc records + k))
            (λ s' end. ok (
              s',
              record { end = end; file_len = seg_prologue + (size crc records + k); torn = false },
            ))
            s
            seg_prologue
            records
  scan-encode crc_fits s records k h slack =
      let (fuel, scanned) = scan-records crc_fits s records (zeros k) h in
      let file_len = seg_prologue + (size crc records + k) in
      rw (length-zeros k) at scanned
      ∙ visit_all-cong crc visit file_len crc_fits _ _ s seg_prologue records (λ s'.
        walk-zeros crc visit file_len crc_fits fuel s' (seg_prologue + size crc records) k slack)

  -- A crash that cuts the file inside a record, at any byte: the scan shows the visitor exactly the
  -- records before it, in order, and unless the visitor stops it or fails, ends behind the last of
  -- them and reports the torn tail.
  pub scan-take :
      (crc_fits : (bs : List ℕ) → crc bs < u32_mod) (s : S) (records : List (Record (List ℕ)))
      (rec : Record (List ℕ)) (n : ℕ)
      → All IsRecord records
      → IsRecord rec
      → 1 ≤ n
      → n < rec_prefix + length rec.patch
      → scan crc visit s (
          segment_prologue
          ++ (encode crc records ++ take n (record_prefix crc rec.version rec.patch ++ rec.patch)))
        ≡ visit_all crc visit
            (seg_prologue + (size crc records + n))
            (λ s' end. ok (
              s',
              record { end = end; file_len = seg_prologue + (size crc records + n); torn = true },
            ))
            s
            seg_prologue
            records
  scan-take crc_fits s records rec n h h1 begun cut =
      let tail = take n (record_prefix crc rec.version rec.patch ++ rec.patch) in
      let (fuel, scanned) = scan-records crc_fits s records tail h in
      let len : length tail ≡ n =
        length-take n (record_prefix crc rec.version rec.patch ++ rec.patch)
        ∙ omega (
          arith,
          length-append (record_prefix crc rec.version rec.patch) rec.patch,
          length-record_prefix crc rec.version rec.patch,
        ) in
      let file_len = seg_prologue + (size crc records + n) in
      subst
        (λ m.
          scan crc visit s (segment_prologue ++ (encode crc records ++ tail))
          ≡ visit_all crc visit (seg_prologue + (size crc records + m))
              (λ s' end.
                walk crc visit (suc fuel) (seg_prologue + (size crc records + m)) s' end tail)
              s seg_prologue records)
        len scanned
      ∙ visit_all-cong crc visit file_len crc_fits _ _ s seg_prologue records (λ s'.
        walk-torn crc visit file_len crc_fits fuel s' (seg_prologue + size crc records) n rec h1
          begun cut (omega arith))

and_first : (n m : ℕ) (c : Bool) → ((n == m) && c) ≡ true → n ≡ m
and_first n m c h = ground arith

module _ {S E : Type 0} (crc : List ℕ → ℕ) (visit : S → ℕ → List ℕ → Result E (S × Flow)) where
  -- What a walk through a file of `file_len` bytes may answer.
  abbrev pub Within : ℕ → Result (ScanError E) (S × Scan) → Type 0
  Within file_len (err not_a_segment) = Unit
  Within file_len (err (visitor e)) = Unit
  Within file_len (err exhausted) = ⊥
  Within file_len (ok (s, c)) = (c.file_len ≡ file_len) × (c.end ≤ file_len)

  visited-Within :
      (r : Result E (S × Flow)) (file_len end : ℕ) (more : S → Result (ScanError E) (S × Scan))
      → end ≤ file_len
      → ((s : S) → Within file_len (more s))
      → Within file_len (visited crc visit r end file_len more)
  visited-Within (err e) file_len end more h m = tt
  visited-Within (ok (s, continue)) file_len end more h m = m s
  visited-Within (ok (s, break)) file_len end more h m = (refl, h)

  round-Within :
      (more : S → ℕ → List ℕ → Result (ScanError E) (S × Scan)) (file_len : ℕ) (s : S) (end : ℕ)
      (rest : List ℕ)
      → end + length rest ≡ file_len
      → ((s' : S) (end' : ℕ) (rest' : List ℕ)
          → length rest' < length rest
          → end' + length rest' ≡ file_len
          → Within file_len (more s' end' rest'))
      → Within file_len (round crc visit more file_len s end rest)
  unfolding round
  round-Within more file_len s end rest whole m =
      let len = (split_prefix (take rec_prefix rest)).0 in
      let payload = take len (drop rec_prefix rest) in
      let stay : end ≤ file_len = omega arith in
      let lp : length (take rec_prefix rest) ≡ min rec_prefix (length rest) =
        length-take rec_prefix rest in
      let lq : length payload ≡ min len (length rest - rec_prefix) =
        length-take len (drop rec_prefix rest) ∙ omega (arith, length-drop rec_prefix rest) in
      let lr : length (drop len (drop rec_prefix rest)) ≡ length rest - rec_prefix - len =
        length-drop len (drop rec_prefix rest) ∙ omega (arith, length-drop rec_prefix rest) in
      elim (Bool-cases (length (take rec_prefix rest) == rec_prefix)) [
        | inr e ↦ rw e (refl, stay)
        | inl e ↦
            let full : length (take rec_prefix rest) ≡ rec_prefix = (==_iff _ _).0 e in
            rw e (elim (Bool-cases (len == 0)) [
              | inl z ↦ rw z (refl, stay)
              | inr nz ↦
                  rw nz
                    (elim (Bool-cases
                      (ltb max_payload len || ltb (file_len - (end + rec_prefix)) len)) [
                        | inl bad ↦ rw bad (refl, stay)
                        | inr good ↦ rw good (elim (Bool-cases (length payload == len)) [
                          | inr short ↦ rw short (refl, stay)
                          | inl all ↦
                              let all' : length payload ≡ len = (==_iff _ _).0 all in
                              rw all
                                (elim (Bool-cases (
                                  checksum crc (split_prefix (take rec_prefix rest)).2 payload
                                  == (split_prefix (take rec_prefix rest)).1)) [
                                    | inr wrong ↦ rw wrong (refl, stay)
                                    | inl sum ↦ rw sum (
                                        visited-Within
                                          (visit s (split_prefix (take rec_prefix rest)).2 payload)
                                          file_len (end + (rec_prefix + length payload)) _
                                          (omega arith)
                                          (λ s'.
                                            m s' (end + (rec_prefix + length payload))
                                              (drop len (drop rec_prefix rest)) (omega arith)
                                              (omega arith)))
                                  ])
                        ])
                      ])
            ])
      ]

  walk-Within :
      (fuel file_len : ℕ) (s : S) (end : ℕ) (rest : List ℕ)
      → length rest < fuel
      → end + length rest ≡ file_len
      → Within file_len (walk crc visit fuel file_len s end rest)
  unfolding walk
  walk-Within zero file_len s end rest h whole = absurd (omega arith)
  walk-Within (suc fuel) file_len s end [] h whole = (refl, omega arith)
  walk-Within (suc fuel) file_len s end (b ∷ bs) h whole =
      round-Within (walk crc visit fuel file_len) file_len s end (b ∷ bs) whole
        (λ s' end' rest' shorter whole'.
          walk-Within fuel file_len s' end' rest' (omega arith) whole')

  -- A scan of any bytes comes to an end: it is not the loop that runs out of rounds.
  pub scan-Within : (s : S) (file : List ℕ) → Within (length file) (scan crc visit s file)
  unfolding scan
  scan-Within s file =
      let magic =
        (length (take seg_prologue file) == seg_prologue)
        && bytes_eq (take 8 (take seg_prologue file)) seg_magic in
      elim (Bool-cases magic) [
        | inr e ↦ rw e tt
        | inl e ↦
            let whole : length (take seg_prologue file) ≡ seg_prologue = and_first _ _ _ e in
            let enough : 16 ≤ length file = omega (arith, length-take seg_prologue file) in
            rw e (
              walk-Within (suc (length file)) (length file) s seg_prologue (drop seg_prologue file)
                (omega (arith, length-drop seg_prologue file))
                (omega (arith, length-drop seg_prologue file)))
      ]
