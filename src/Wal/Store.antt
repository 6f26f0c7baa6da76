-- ===== src/Wal/Store.antt =====
-- crates/lug-wal/src/lib.rs: the log as a directory of segments, in the order of the source's calls.
-- The JSON of a header is the parameters `to_vec` and `from_slice`. Messages and sources of errors are
-- left out where nothing reads them.
pub mod Recover
pub mod Append
pub mod Serve
pub mod Keeps
pub mod Sequence
pub mod Batch
pub mod Writes
pub mod Checkpoint
pub mod Poisoning
mod Examples
use lug.Prelude.{
  ℕ, ◌+◌, ◌-◌, ◌*◌, ◌/◌, ◌%◌, Bool, true, false, Option, none, some, List, [], ◌∷◌, last_or, max,
  u64_mod, Result, ok, err,
}
use lug.Wal.Format.{seg_prologue, rec_prefix}
use lug.Wal.Segment.{Segment}
use lug.Wal.Files.{Files}

pub data Error (E : Type 0) : Type 0 where
  io : E → Error E
  no_segment : List ℕ → Error E
  not_a_header json_failed locked : Error E
  header_checksum : (found computed len : ℕ) → Error E
  short_header : (len : ℕ) → Error E
  header_disagrees : (declared view : ℕ) → Error E
  header_ahead : (header last : ℕ) → Error E
  gap : (path : List ℕ) (expected found : ℕ) → Error E
  misnamed : (path : List ℕ) (expected found : ℕ) → Error E
  torn_mid_log : (path : List ℕ) → Error E
  out_of_order : (expected found : ℕ) → Error E
  oversized : (version len : ℕ) → Error E
  reclaimed : (requested oldest : ℕ) → Error E
  empty : (version : ℕ) → Error E
  cleanup_failed : (path : List ℕ) (offset : ℕ) → Error E
  poisoned : (path : List ℕ) (offset : ℕ) → Error E
  version_exhausted : (version : ℕ) → Error E
  -- An `expect` that fails.
  panicked : Error E

pub record Poison : Type 0 where
  pub path : List ℕ
  pub offset : ℕ

-- `SegmentStore`, with the disk.
pub record Store (D : Type 0) : Type 0 where
  pub disk : D
  pub segments : List Segment
  -- The file that is open for writing.
  pub active : Option (List ℕ)
  pub capacity : ℕ
  pub header_version : ℕ
  pub rotate_bytes : ℕ
  pub recovered : Bool
  pub poison : Option Poison

-- The `?` operator: what the store has become goes on.
abbrev pub and_then :
    {S F A B : Type 0} → S × Result F A → (S → A → S × Result F B) → S × Result F B
and_then (s, err e) k = (s, err e)
and_then (s, ok x) k = k s x

abbrev pub or_io : {E A : Type 0} → Result E A → Result (Error E) A
or_io (err e) = err (io e)
or_io (ok x) = ok x

-- A call of the file system.
abbrev pub call : {D E A : Type 0} → Store D → D × Result E A → Store D × Result (Error E) A
call s (disk, outcome) = (record s { disk = disk }, or_io outcome)

abbrev pub last_segment : List Segment → Option Segment
last_segment [] = none
last_segment (seg ∷ segments) = some (last_or seg segments)

-- `next_version`.
abbrev pub last_version : {D : Type 0} → Store D → ℕ
last_version s = elim (last_segment s.segments) [ none ↦ s.header_version | some seg ↦ seg.last ]

unfoldable pub next_version : {D : Type 0} → Store D → ℕ
next_version s = (last_version s + 1) % u64_mod

-- `next_multiple_of`, of a positive number.
abbrev pub next_multiple_of : ℕ → ℕ → ℕ
next_multiple_of n m = (n + (m - 1)) / m * m

-- The end of a list of segments is changed.
abbrev pub set_last : Segment → List Segment → List Segment
set_last new [] = []
set_last new (seg ∷ []) = new ∷ []
set_last new (seg ∷ next ∷ segments) = seg ∷ set_last new (next ∷ segments)
