-- ===== src/Wal/Segment.antt =====
-- crates/lug-wal/src/segment.rs: the scan of a segment file. The file is its bytes: a `fill` gives as
-- many of the wanted bytes as are left. `visit` threads a state through the records.
pub mod Contents
pub mod Rounds
pub mod Walk
pub mod Recovery
use lug.Prelude.{
  ℕ, zero, suc, ◌+◌, ◌-◌, Bool, true, false, not, ◌&&◌, ◌||◌, Option, none, some, List, [], ◌∷◌,
  ◌++◌, length, take, drop, ltb, ◌==◌, if◌then◌else◌, Result, ok, err,
}
use lug.Wal.Format.{
  seg_magic, seg_prologue, rec_prefix, max_payload, bytes_eq, checksum, split_prefix,
}

pub record Segment : Type 0 where
  -- The version that names the file.
  pub first : ℕ
  -- The file's name in the directory of the log.
  pub path : List ℕ
  pub end : ℕ
  pub last : ℕ

pub record Scan : Type 0 where
  pub end : ℕ
  pub file_len : ℕ
  pub torn : Bool

-- How a scan can fail by itself, or by its visitor.
pub data ScanError (E : Type 0) : Type 0 where
  not_a_segment : ScanError E
  visitor : E → ScanError E
  exhausted : ScanError E

-- `ControlFlow`.
pub data Flow : Type 0 where
  continue break : Flow

module _ {S E : Type 0} (crc : List ℕ → ℕ) (visit : S → ℕ → List ℕ → Result E (S × Flow)) where
  -- What a visitor's answer does to the loop: `more` is the rest of the walk.
  abbrev pub visited :
      Result E (S × Flow)
      → ℕ
      → ℕ
      → (S → Result (ScanError E) (S × Scan))
      → Result (ScanError E) (S × Scan)
  visited (err e) end file_len more = err (visitor e)
  visited (ok (s, break)) end file_len more =
      ok (s, record { end = end; file_len = file_len; torn = false })
  visited (ok (s, continue)) end file_len more = more s

  -- One round of the loop, on what is left of the file, with `more` for the rounds after it.
  unfoldable pub round :
      (S → ℕ → List ℕ → Result (ScanError E) (S × Scan))
      → ℕ
      → S
      → ℕ
      → List ℕ
      → Result (ScanError E) (S × Scan)
  round more file_len s end rest =
      let prefix = take rec_prefix rest in
      let (len, crc_found, version) = split_prefix prefix in
      let payload = take len (drop rec_prefix rest) in
      let room = file_len - (end + rec_prefix) in
      let torn : Scan = record { end = end; file_len = file_len; torn = true } in
      let next = end + (rec_prefix + length payload) in
      let step : Result (ScanError E) (S × Scan) =
        visited (visit s version payload) next file_len
          (λ s'. more s' next (drop len (drop rec_prefix rest))) in
      if length prefix == rec_prefix
      then if len == 0
        then ok (s, record { end = end; file_len = file_len; torn = false })
        else if ltb max_payload len || ltb room len
        then ok (s, torn)
        else if length payload == len
        then if checksum crc version payload == crc_found then step else ok (s, torn)
        else ok (s, torn)
      else ok (s, torn)

  -- The loop. A round takes a whole prefix, so the length of the file is fuel enough.
  unfoldable pub walk : ℕ → ℕ → S → ℕ → List ℕ → Result (ScanError E) (S × Scan)
  walk zero file_len s end rest = err exhausted
  walk (suc fuel) file_len s end [] =
      ok (s, record { end = end; file_len = file_len; torn = false })
  walk (suc fuel) file_len s end (b ∷ bs) = round (walk fuel file_len) file_len s end (b ∷ bs)

  unfoldable pub scan : S → List ℕ → Result (ScanError E) (S × Scan)
  unfolding walk
  scan s file =
      let prologue = take seg_prologue file in
      if (length prologue == seg_prologue) && bytes_eq (take 8 prologue) seg_magic
      then walk (suc (length file)) (length file) s seg_prologue (drop seg_prologue file)
      else err not_a_segment
