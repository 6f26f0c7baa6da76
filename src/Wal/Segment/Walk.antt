-- ===== src/Wal/Segment/Walk.antt =====
-- segment.rs `scan`: the loop, through records and to what follows them.
use lug.Prelude.{
  take-append_ge, u32_mod, ℕ, suc, ◌+◌, ◌-◌, ◌<◌, ◌≤◌, ◌≡◌, refl, ap, ◌∙◌, true, false, List, [],
  ◌∷◌, ◌++◌, length, length-append, take, All, append_assoc, ltb, length-take, ltb→lt, ltb_false→le,
  Bool-cases, ◌⊎◌, inl, inr, arith, Result, ok, err,
}
use lug.Core.Storage.{Record}
use lug.Wal.Format.{rec_prefix, checksum, record_prefix, zeros}
use lug.Wal.Segment.{Flow, continue, break, Scan, ScanError, visited, round, walk}
use lug.Wal.Segment.Contents.{IsRecord, encode, size, longer, length-record_prefix}
use lug.Wal.Segment.Rounds.{
  zeros-add, split-record_prefix, round-whole, round-zeros, round-short, round-cut, walk-round,
}

module _ {S E : Type 0} (crc : List ℕ → ℕ) (visit : S → ℕ → List ℕ → Result E (S × Flow))
    (file_len : ℕ) where
  -- The visitor goes through the records in order, until it breaks or fails; `finish` is what follows
  -- the last of them.
  abbrev pub visit_all :
      (S → ℕ → Result (ScanError E) (S × Scan))
      → S
      → ℕ
      → List (Record (List ℕ))
      → Result (ScanError E) (S × Scan)
  visit_all finish s end [] = finish s end
  visit_all finish s end (rec ∷ records) =
      visited crc visit (visit s rec.version rec.patch) (end + (rec_prefix + length rec.patch))
        file_len (λ s'. visit_all finish s' (end + (rec_prefix + length rec.patch)) records)

  module _ (crc_fits : (bs : List ℕ) → crc bs < u32_mod) where
    walk-record :
        (fuel end : ℕ) (s : S) (rec : Record (List ℕ)) (rest : List ℕ)
        → IsRecord rec
        → end + (rec_prefix + length rec.patch) ≤ file_len
        → walk crc visit
            (suc fuel)
            file_len
            s
            end
            (record_prefix crc rec.version rec.patch ++ (rec.patch ++ rest))
          ≡ visited crc visit
              (visit s rec.version rec.patch)
              (end + (rec_prefix + length rec.patch))
              file_len
              (λ s'. walk crc visit fuel file_len s' (end + (rec_prefix + length rec.patch)) rest)
    unfolding walk
    walk-record fuel end s rec rest h room =
        round-whole crc visit (walk crc visit fuel file_len) file_len s end
          (record_prefix crc rec.version rec.patch) rec.patch rest rec.version refl
          (split-record_prefix crc rec.version rec.patch (omega (arith, h.small)) (crc_fits _)
            h.versioned)
          h.filled h.small room

    visited-cong :
        (r : Result E (S × Flow)) (end : ℕ) (f g : S → Result (ScanError E) (S × Scan))
        → ((s : S) → f s ≡ g s)
        → visited crc visit r end file_len f ≡ visited crc visit r end file_len g
    visited-cong (err e) end f g h = refl
    visited-cong (ok (s, continue)) end f g h = h s
    visited-cong (ok (s, break)) end f g h = refl

    -- The walk visits the records and then goes on with what follows them.
    pub walk-encode :
        (fuel end : ℕ) (s : S) (records : List (Record (List ℕ))) (rest : List ℕ)
        → All IsRecord records
        → end + size crc records ≤ file_len
        → walk crc visit (longer records (suc fuel)) file_len s end (encode crc records ++ rest)
          ≡ visit_all (λ s' end'. walk crc visit (suc fuel) file_len s' end' rest) s end records
    walk-encode fuel end s [] rest h room = refl
    walk-encode fuel end s (rec ∷ records) rest (h, hs) room =
        ap (λ file. walk crc visit (suc (longer records (suc fuel))) file_len s end file)
          (append_assoc (record_prefix crc rec.version rec.patch) (rec.patch ++ encode crc records)
              rest
            ∙ ap (λ file. record_prefix crc rec.version rec.patch ++ file)
                (append_assoc rec.patch (encode crc records) rest))
        ∙ walk-record (longer records (suc fuel)) end s rec (encode crc records ++ rest) h
            (omega arith)
        ∙ visited-cong (visit s rec.version rec.patch) (end + (rec_prefix + length rec.patch)) _ _
            (λ s'.
              walk-encode fuel (end + (rec_prefix + length rec.patch)) s' records rest hs
                (omega arith))

    -- What follows the records: the end of the file, or zeros.
    pub walk-zeros :
        (fuel : ℕ) (s : S) (end k : ℕ)
        → (k ≡ 0) ⊎ (rec_prefix ≤ k)
        → walk crc visit (suc fuel) file_len s end (zeros k)
          ≡ ok (s, record { end = end; file_len = file_len; torn = false })
    unfolding walk
    walk-zeros fuel s end k (inl e) = rw e refl
    walk-zeros fuel s end k (inr h) =
        let e : k ≡ 16 + (k - 16) = omega arith in
        rw (e, zeros-add 16 (k - 16))
          (walk-round crc visit fuel file_len s end (zeros 16 ++ zeros (k - 16)) (omega arith)
            ∙ round-zeros crc visit (walk crc visit fuel file_len) file_len s end (zeros (k - 16)))

    -- The beginning of a record.
    pub walk-torn :
        (fuel : ℕ) (s : S) (end n : ℕ) (rec : Record (List ℕ))
        → IsRecord rec
        → 1 ≤ n
        → n < rec_prefix + length rec.patch
        → file_len ≡ end + n
        → walk crc visit
            (suc fuel)
            file_len
            s
            end
            (take n (record_prefix crc rec.version rec.patch ++ rec.patch))
          ≡ ok (s, record { end = end; file_len = file_len; torn = true })
    walk-torn fuel s end n rec h begun cut whole =
        let p = record_prefix crc rec.version rec.patch in
        let all = p ++ rec.patch in
        let len : length (take n all) ≡ n =
          length-take n all
          ∙ omega
              (arith, length-append p rec.patch, length-record_prefix crc rec.version rec.patch) in
        walk-round crc visit fuel file_len s end (take n all) (omega (arith, len))
        ∙ elim (Bool-cases (ltb n rec_prefix)) [
          | inl short ↦
              round-short crc visit (walk crc visit fuel file_len) file_len s end (take n all)
                (omega (arith, len, ltb→lt _ _ short))
          | inr enough ↦
              let some_payload = take (n - rec_prefix) rec.patch in
              let part : length some_payload ≡ n - rec_prefix =
                length-take (n - rec_prefix) rec.patch ∙ omega arith in
              ap (λ file. round crc visit (walk crc visit fuel file_len) file_len s end file)
                (take-append_ge n p rec.patch (ltb_false→le _ _ enough))
              ∙ round-cut crc visit (walk crc visit fuel file_len) file_len s end p some_payload
                  (length rec.patch) (checksum crc rec.version rec.patch) rec.version refl
                  (split-record_prefix crc rec.version rec.patch (omega (arith, h.small))
                    (crc_fits _) h.versioned)
                  (omega (arith, part, ltb_false→le _ _ enough))
                  (omega (arith, part, ltb_false→le _ _ enough))
        ]

    -- What follows the records is met where they end.
    pub visit_all-cong :
        (f g : S → ℕ → Result (ScanError E) (S × Scan)) (s : S) (end : ℕ)
        (records : List (Record (List ℕ)))
        → ((s' : S) → f s' (end + size crc records) ≡ g s' (end + size crc records))
        → visit_all f s end records ≡ visit_all g s end records
    visit_all-cong f g s end [] h = let e : end + 0 ≡ end = omega arith in rw e at (h s)
    visit_all-cong f g s end (rec ∷ records) h =
        let next = end + (rec_prefix + length rec.patch) in
        let e : end + size crc (rec ∷ records) ≡ next + size crc records = omega arith in
        visited-cong (visit s rec.version rec.patch) next _ _
          (λ s'. visit_all-cong f g s' next records (λ s''. rw e at (h s'')))
