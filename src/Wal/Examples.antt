-- ===== src/Wal/Examples.antt =====
-- The theorems on segment files at concrete files. The checksum is the sum of the bytes, on 32 bits.
use lug.Prelude.{
  u32_mod, true, false, ℕ, ◌+◌, ◌%◌, ◌≡◌, inr, List, [], ◌∷◌, ◌++◌, take, ◌<◌, arith, Result, ok,
}
use lug.Core.Storage.{Record}
use lug.Wal.Format.{record_prefix, segment_prologue, zeros}
use lug.Wal.Segment.{Flow, continue, scan}
use lug.Wal.Segment.Contents.{encode, IsRecord}
use lug.Wal.Segment.Recovery.{scan-encode, scan-take, scan-Within, Within}

abbrev sum_of : List ℕ → ℕ
sum_of [] = 0
sum_of (b ∷ bs) = b + sum_of bs

abbrev byte_sum : List ℕ → ℕ
byte_sum bs = sum_of bs % u32_mod

byte_sum-fits : (bs : List ℕ) → byte_sum bs < u32_mod
byte_sum-fits bs = omega arith

-- Collects the versions, newest first.
abbrev note_version : List ℕ → ℕ → List ℕ → Result ℕ (List ℕ × Flow)
note_version seen version payload = ok (version ∷ seen, continue)

abbrev first_record : Record (List ℕ)
first_record = record { version = 4; patch = 123 ∷ 125 ∷ [] }

abbrev second_record : Record (List ℕ)
second_record = record { version = 5; patch = 110 ∷ 117 ∷ 108 ∷ [] }

first_record-IsRecord : IsRecord first_record
first_record-IsRecord = record {
  filled = omega arith;
  small = omega arith;
  versioned = omega arith;
}

second_record-IsRecord : IsRecord second_record
second_record-IsRecord = record {
  filled = omega arith;
  small = omega arith;
  versioned = omega arith;
}

scan-encode_example :
    scan byte_sum note_version []
      (segment_prologue ++ (encode byte_sum (first_record ∷ second_record ∷ []) ++ zeros 20))
    ≡ ok (5 ∷ 4 ∷ [], record { end = 53; file_len = 73; torn = false })
scan-encode_example =
    scan-encode byte_sum note_version byte_sum-fits [] (first_record ∷ second_record ∷ []) 20
      (first_record-IsRecord, (second_record-IsRecord, tt)) (inr (omega arith))

scan-take_example :
    scan byte_sum note_version [] (
      segment_prologue
      ++ (encode byte_sum (first_record ∷ [])
          ++ take 18 (record_prefix byte_sum 5 second_record.patch ++ second_record.patch)))
    ≡ ok (4 ∷ [], record { end = 34; file_len = 52; torn = true })
scan-take_example =
    scan-take byte_sum note_version byte_sum-fits [] (first_record ∷ []) second_record 18
      (first_record-IsRecord, tt) second_record-IsRecord (omega arith) (omega arith)

scan-Within_example :
    Within byte_sum note_version 19
      (scan byte_sum note_version [] (segment_prologue ++ (1 ∷ 2 ∷ 3 ∷ [])))
scan-Within_example = scan-Within byte_sum note_version [] (segment_prologue ++ (1 ∷ 2 ∷ 3 ∷ []))
