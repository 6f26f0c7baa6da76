-- ===== src/Wal/Segment/Contents.antt =====
-- segment.rs: what a file that holds records is.
use lug.Prelude.{
  ℕ, zero, suc, ◌+◌, ◌<◌, ◌≤◌, ◌≡◌, refl, ap, ◌∙◌, List, [], ◌∷◌, ◌++◌, length, length-append,
  arith, u64_mod,
}
use lug.Core.Storage.{Record}
use lug.Wal.Format.{rec_prefix, max_payload, record_prefix, zeros}

-- A payload that is neither empty nor too large, under a version that fits its field.
pub record IsRecord (rec : Record (List ℕ)) : Type 0 where
  pub filled : 1 ≤ length rec.patch
  pub small : length rec.patch ≤ max_payload
  pub versioned : rec.version < u64_mod

module _ (crc : List ℕ → ℕ) where
  abbrev pub encode : List (Record (List ℕ)) → List ℕ
  encode [] = []
  encode (rec ∷ records) = record_prefix crc rec.version rec.patch ++ (rec.patch ++ encode records)

  abbrev pub size : List (Record (List ℕ)) → ℕ
  size [] = 0
  size (rec ∷ records) = rec_prefix + length rec.patch + size records

-- Fuel with one more for each record.
abbrev pub longer : List (Record (List ℕ)) → ℕ → ℕ
longer [] fuel = fuel
longer (rec ∷ records) fuel = suc (longer records fuel)

pub longer-length :
    (records : List (Record (List ℕ))) (fuel : ℕ) → longer records fuel ≡ length records + fuel
longer-length [] fuel = omega arith
longer-length (rec ∷ records) fuel = omega (arith, longer-length records fuel)

pub length-record_prefix :
    (crc : List ℕ → ℕ) (version : ℕ) (payload : List ℕ)
    → length (record_prefix crc version payload) ≡ rec_prefix
length-record_prefix crc version payload = refl

pub length-zeros : (n : ℕ) → length (zeros n) ≡ n
length-zeros zero = refl
length-zeros (suc n) = ap suc (length-zeros n)

pub length-encode :
    (crc : List ℕ → ℕ) (records : List (Record (List ℕ)))
    → length (encode crc records) ≡ size crc records
length-encode crc [] = refl
length-encode crc (rec ∷ records) =
    length-append (record_prefix crc rec.version rec.patch) (rec.patch ++ encode crc records)
    ∙ omega (
      arith,
      length-append rec.patch (encode crc records),
      length-encode crc records,
      length-record_prefix crc rec.version rec.patch,
    )

pub length-size :
    (crc : List ℕ → ℕ) (records : List (Record (List ℕ))) → length records ≤ size crc records
length-size crc [] = omega arith
length-size crc (rec ∷ records) = omega (arith, length-size crc records)
