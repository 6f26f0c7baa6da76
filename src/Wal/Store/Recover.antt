-- ===== src/Wal/Store/Recover.antt =====
-- lib.rs: the directory's segments, its header, and recovery.
use lug.Prelude.{
  ℕ, ◌+◌, ◌-◌, ◌%◌, Bool, true, not, ◌&&◌, Option, none, some, List, [], ◌∷◌, ◌++◌, length, take,
  drop, is_empty, ltb, ◌==◌, if◌then◌else◌, max, u64_mod, Result, ok, err,
}
use lug.Prelude.Bytes.{from_le}
use lug.Core.Storage.{Record}
use lug.Wal.Format.{hdr_magic, bytes_eq, parse_segment_name}
use lug.Wal.Segment.{
  Segment, Flow, continue, Scan, ScanError, not_a_segment, visitor, exhausted, scan,
}
use lug.Wal.Files.{Files}
use lug.Wal.Store.{
  Error, io, no_segment, not_a_header, json_failed, header_checksum, short_header, header_disagrees,
  header_ahead, gap, misnamed, torn_mid_log, Store, and_then, call, last_segment,
}

-- b"header" and b"header.tmp".
abbrev pub header_name : List ℕ
header_name = 104 ∷ 101 ∷ 97 ∷ 100 ∷ 101 ∷ 114 ∷ []

abbrev pub header_tmp : List ℕ
header_tmp = header_name ++ 46 ∷ 116 ∷ 109 ∷ 112 ∷ []

-- The entries whose names are those of segments; `sort_by_key` is stable.
abbrev pub insert_segment : Segment → List Segment → List Segment
insert_segment seg [] = seg ∷ []
insert_segment seg (next ∷ segments) =
    let rest = insert_segment seg segments in
    if ltb seg.first next.first then seg ∷ next ∷ segments else next ∷ rest

abbrev pub segments_of : List Segment → List (List ℕ) → List Segment
segments_of found [] = found
segments_of found (name ∷ names) = elim (parse_segment_name name) [
  | none ↦ segments_of found names
  | some first ↦
      segments_of
        (insert_segment (record { first = first; path = name; end = 0; last = first - 1 }) found)
        names
]

-- `Header`.
pub record Header (V : Type 0) : Type 0 where
  pub version : ℕ
  pub view : V

-- What the visitor of `recover` has seen: the version to come, and the records above the header.
pub record Seen : Type 0 where
  pub expect : Option ℕ
  pub tail : List (Record (List ℕ))

module _ {E : Type 0} (collect : Bool) (header_version : ℕ) (path : List ℕ) (first : ℕ) where
  abbrev pub saw : Seen → ℕ → List ℕ → Result (Error E) (Seen × Flow)
  saw seen version payload = ok (
    record {
      expect = some ((version + 1) % u64_mod);
      tail =
          if collect && ltb header_version version
          then seen.tail ++ record { version = version; patch = payload } ∷ []
          else seen.tail;
    },
    continue,
  )

  abbrev pub visit : Seen → ℕ → List ℕ → Result (Error E) (Seen × Flow)
  visit seen version payload = elim seen.expect [
    | some e ↦ if version == e then saw seen version payload else err (gap path e version)
    | none ↦
        if version == first then saw seen version payload else err (misnamed path first version)
  ]

abbrev pub scan_failed : {E A : Type 0} → List ℕ → ScanError (Error E) → Result (Error E) A
scan_failed path not_a_segment = err (no_segment path)
scan_failed path (visitor e) = err e
scan_failed path exhausted = err (no_segment path)

module _ {D E V : Type 0} (files : Files D E) (crc : List ℕ → ℕ)
    (from_slice : List ℕ → Option (Header V)) (view_version : V → ℕ) where
  unfoldable pub list_segments : Store D → Store D × Result (Error E) (Unit {0})
  list_segments s = elim (files.read_dir s.disk) [
    | err e ↦ (s, err (io e))
    | ok names ↦ (record s { segments = segments_of [] names }, ok tt)
  ]

  unfoldable pub read_header : Store D → Result (Error E) (Option (Header V))
  read_header s = elim (files.read s.disk header_name) [
    | err e ↦ err (io e)
    | ok none ↦ ok none
    | ok (some bytes) ↦
        let found = from_le (take 4 (drop 8 bytes)) in
        let len = from_le (take 4 (drop 12 bytes)) in
        let json = take len (drop 16 bytes) in
        if ltb (length bytes) 16
        then err (short_header (length bytes))
        else if not (bytes_eq (take 8 bytes) hdr_magic)
        then err not_a_header
        else if ltb (length bytes) (16 + len)
        then err (short_header (length bytes))
        else if not (crc json == found)
        then err (header_checksum found (crc json) len)
        else (elim (from_slice json) [
          | none ↦ err json_failed
          | some header ↦
              if header.version == view_version header.view
              then ok (some header)
              else err (header_disagrees header.version (view_version header.view))
        ])
  ]

  unfoldable pub truncate : Store D → List ℕ → ℕ → Store D × Result (Error E) (Unit {0})
  truncate s path len = and_then (call s (files.open_rw s.disk path)) (λ s1 _.
      and_then (call s1 (files.set_len s1.disk path len))
        (λ s2 _. call s2 (files.fsync s2.disk path)))

  -- `scan` on a path. A segment that is gone is an error of `open`.
  unfoldable pub scan_file :
      {S : Type 0}
      → (absent : E) → (S → ℕ → List ℕ → Result (Error E) (S × Flow))
      → D
      → List ℕ
      → S
      → Result (Error E) (S × Scan)
  scan_file absent look disk path seen = elim (files.read disk path) [
    | err e ↦ err (io e)
    | ok none ↦ err (io absent)
    | ok (some bytes) ↦ elim (scan crc look seen bytes) [
      | err failed ↦ scan_failed path failed
      | ok found ↦ ok found
    ]
  ]

  -- The loop of `recover`: `done` are the segments before.
  unfoldable pub recover_segments :
      E → Bool → Store D → Seen → (done todo : List Segment) → Store D × Result (Error E) Seen
  unfolding scan_file truncate
  recover_segments absent collect s seen done [] = (s, ok seen)
  recover_segments absent collect s seen done (seg ∷ todo) =
      elim (scan_file absent (visit collect s.header_version seg.path seg.first) s.disk seg.path
        seen) [
          | err e ↦ (s, err e)
          | ok (seen', sc) ↦
              let last : ℕ = elim seen'.expect [
                | none ↦ seg.first - 1
                | some e ↦ (e + (u64_mod - 1)) % u64_mod
              ] in
              let settled = record seg { end = sc.end; last = last } in
              let next = λ (s' : Store D).
                recover_segments absent collect (record s' { segments = done ++ settled ∷ todo })
                  seen' (done ++ settled ∷ []) todo in
              if sc.torn && not (is_empty todo)
              then (s, err (torn_mid_log seg.path))
              else and_then
                  (if ltb sc.end sc.file_len then truncate s seg.path sc.end else (s, ok tt))
                  (λ s1 _. next s1)
        ]

  -- The active segment is opened, when there is one.
  unfoldable pub open_active : Store D → Store D × Result (Error E) (Unit {0})
  open_active s = elim (last_segment s.segments) [
    | none ↦ (s, ok tt)
    | some seg ↦
        if ltb seg.last s.header_version
        then (s, err (header_ahead s.header_version seg.last))
        else and_then (call s (files.open_rw s.disk seg.path)) (λ s1 _.
          let roomy : Store D = record s1 { capacity = max seg.end s1.rotate_bytes } in
          and_then (call roomy (files.preallocate roomy.disk seg.path roomy.capacity))
            (λ s2 _. (record s2 { active = some seg.path }, ok tt)))
  ]

  -- The tail follows the header.
  abbrev pub check_tail : ℕ → List (Record (List ℕ)) → Result (Error E) (Unit {0})
  check_tail header_version [] = ok tt
  check_tail header_version (first ∷ tail) =
      if first.version == (header_version + 1) % u64_mod
      then ok tt
      else err (gap header_name ((header_version + 1) % u64_mod) first.version)

  unfoldable pub recover : E → Store D → Bool → Store D × Result (Error E) (List (Record (List ℕ)))
  unfolding recover_segments open_active
  recover absent s collect =
      and_then
        (recover_segments absent collect s (record { expect = none; tail = [] }) [] s.segments)
        (λ s1 seen. and_then (open_active s1) (λ s2 _.
          and_then (s2, check_tail s2.header_version seen.tail)
            (λ s3 _. (record s3 { recovered = true; poison = none }, ok seen.tail))))
