-- ===== src/Wal/Segment/Rounds.antt =====
-- segment.rs `scan`: one round of the loop, at a whole record, at zeros and at a cut.
use lug.Prelude.{
  take-append_at, drop-append_at, u32_mod, ℕ, zero, suc, ◌+◌, ◌-◌, ◌%◌, ◌<◌, ◌≤◌, ◌≡◌, refl, ap,
  ◌∙◌, Bool, true, false, ◌||◌, List, [], ◌∷◌, ◌++◌, length, take, take-append_length,
  drop-append_length, ltb, ◌==◌, ==_refl, lt→ltb, take_all, le→ltb_false, arith, Result, ok,
  u64_mod,
}
use lug.Prelude.Bytes.{le_bytes, from_le, from_le-le_bytes}
use lug.Wal.Format.{rec_prefix, max_payload, checksum, record_prefix, split_prefix, zeros}
use lug.Wal.Segment.{Flow, Scan, ScanError, visited, round, walk}

pub zeros-add : (m n : ℕ) → zeros (m + n) ≡ zeros m ++ zeros n
zeros-add zero n = ap zeros (omega arith)
zeros-add (suc m) n =
    let e : suc m + n ≡ suc (m + n) = omega arith in rw e (ap (λ bs. 0 ∷ bs) (zeros-add m n))

or_true : (b : Bool) → (b || true) ≡ true
or_true true = refl
or_true false = refl

module _ {S E : Type 0} (crc : List ℕ → ℕ) (visit : S → ℕ → List ℕ → Result E (S × Flow)) where
  -- A round at a whole record: it asks the visitor.
  pub round-whole :
      (more : S → ℕ → List ℕ → Result (ScanError E) (S × Scan)) (file_len : ℕ) (s : S) (end : ℕ)
      (p payload rest : List ℕ) (v : ℕ)
      → length p ≡ rec_prefix
      → split_prefix p ≡ (length payload, checksum crc v payload, v)
      → 1 ≤ length payload
      → length payload ≤ max_payload
      → end + (rec_prefix + length payload) ≤ file_len
      → round crc visit more file_len s end (p ++ (payload ++ rest))
        ≡ visited crc visit
            (visit s v payload)
            (end + (rec_prefix + length payload))
            file_len
            (λ s'. more s' (end + (rec_prefix + length payload)) rest)
  unfolding round
  round-whole more file_len s end p payload rest v e split filled small room =
      let nonzero : (length payload == 0) ≡ false = ground arith in
      let fits : ltb max_payload (length payload) ≡ false = le→ltb_false _ _ small in
      let inside : ltb (file_len - (end + rec_prefix)) (length payload) ≡ false =
        le→ltb_false _ _ (omega arith) in
      rw
        (
          take-append_at rec_prefix p (payload ++ rest) e,
          drop-append_at rec_prefix p (payload ++ rest) e,
          e,
          ap (λ t. t.0) split,
          ap (λ t. t.1) split,
          ap (λ t. t.2) split,
          take-append_length payload rest,
          drop-append_length payload rest,
          nonzero,
          fits,
          inside,
          ==_refl (length payload),
          ==_refl (checksum crc v payload),
        )
        refl

  -- A round at zeros: the scan ends there.
  pub round-zeros :
      (more : S → ℕ → List ℕ → Result (ScanError E) (S × Scan)) (file_len : ℕ) (s : S) (end : ℕ)
      (rest : List ℕ)
      → round crc visit more file_len s end (zeros 16 ++ rest)
        ≡ ok (s, record { end = end; file_len = file_len; torn = false })
  unfolding round
  round-zeros more file_len s end rest = refl

  -- A round where less than a prefix is left.
  pub round-short :
      (more : S → ℕ → List ℕ → Result (ScanError E) (S × Scan)) (file_len : ℕ) (s : S) (end : ℕ)
      (rest : List ℕ)
      → length rest < rec_prefix
      → round crc visit more file_len s end rest
        ≡ ok (s, record { end = end; file_len = file_len; torn = true })
  unfolding round
  round-short more file_len s end rest short =
      let part : (length (take rec_prefix rest) == rec_prefix) ≡ false =
        rw (take_all rec_prefix rest (omega arith)) (ground arith) in
      rw part refl

  -- A round where less than the payload is left.
  pub round-cut :
      (more : S → ℕ → List ℕ → Result (ScanError E) (S × Scan)) (file_len : ℕ) (s : S) (end : ℕ)
      (p rest : List ℕ) (len c v : ℕ)
      → length p ≡ rec_prefix
      → split_prefix p ≡ (len, c, v)
      → length rest < len
      → file_len ≡ end + (rec_prefix + length rest)
      → round crc visit more file_len s end (p ++ rest)
        ≡ ok (s, record { end = end; file_len = file_len; torn = true })
  unfolding round
  round-cut more file_len s end p rest len c v e split cut whole =
      let nonzero : (len == 0) ≡ false = ground arith in
      let outside : ltb (file_len - (end + rec_prefix)) len ≡ true = lt→ltb _ _ (omega arith) in
      let either : (ltb max_payload len || ltb (file_len - (end + rec_prefix)) len) ≡ true =
        rw outside (or_true (ltb max_payload len)) in
      rw
        (
          take-append_at rec_prefix p rest e,
          drop-append_at rec_prefix p rest e,
          e,
          ap (λ t. t.0) split,
          nonzero,
          either,
        )
        refl

  -- A walk with bytes left makes a round.
  pub walk-round :
      (fuel file_len : ℕ) (s : S) (end : ℕ) (rest : List ℕ)
      → 1 ≤ length rest
      → walk crc visit (suc fuel) file_len s end rest
        ≡ round crc visit (walk crc visit fuel file_len) file_len s end rest
  unfolding walk
  walk-round fuel file_len s end [] h = absurd (omega arith)
  walk-round fuel file_len s end (b ∷ bs) h = refl

pub split-record_prefix :
    (crc : List ℕ → ℕ) (version : ℕ) (payload : List ℕ)
    → length payload < u32_mod
    → checksum crc version payload < u32_mod
    → version < u64_mod
    → split_prefix (record_prefix crc version payload)
      ≡ (length payload, checksum crc version payload, version)
split-record_prefix crc version payload small fits versioned =
    let len : from_le (le_bytes 4 (length payload % u32_mod)) ≡ length payload =
      from_le-le_bytes 4 _ (omega arith) ∙ omega arith in
    let sum : from_le (le_bytes 4 (checksum crc version payload)) ≡ checksum crc version payload =
      from_le-le_bytes 4 _ fits in
    let ver : from_le (le_bytes 8 version) ≡ version = from_le-le_bytes 8 _ versioned in
    λ i. (len i, sum i, ver i)
