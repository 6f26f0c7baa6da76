-- ===== src/Wal/Store/Serve.antt =====
-- lib.rs: the operations of the storage, and opening it.
use lug.Prelude.{
  ℕ, ◌+◌, ◌-◌, ◌%◌, Bool, true, false, Option, none, some, List, [], ◌∷◌, ◌++◌, length, ltb, leb,
  ◌==◌, if◌then◌else◌, min, max, u64_mod, Result, ok, err,
}
use lug.Core.Storage.{Record, Recovered, Storage}
use lug.Wal.Format.{header_bytes}
use lug.Wal.Segment.{Segment, Flow, continue, break}
use lug.Wal.Files.{Files}
use lug.Wal.Store.{
  Error, io, json_failed, locked, reclaimed, poisoned, Store, and_then, call, last_segment,
}
use lug.Wal.Store.Append.{append_recovered}
use lug.Wal.Store.Recover.{
  Header, header_name, header_tmp, list_segments, read_header, recover, scan_file,
}

-- `saturating_add(1)` on a `u64`.
abbrev pub saturating_suc : ℕ → ℕ
saturating_suc v = min (v + 1) (u64_mod - 1)

unfoldable pub oldest : {D : Type 0} → Store D → ℕ
oldest s = elim s.segments [ [] ↦ saturating_suc s.header_version | seg ∷ _ ↦ seg.first ]

-- `segment_for`, and the segments from there on: those from the last one whose name is not above the
-- version; none where all are above.
abbrev pub from_segment : ℕ → List Segment → List Segment
from_segment version [] = []
from_segment version (seg ∷ segments) =
    let later = from_segment version segments in
    elim later [
      | next ∷ more ↦ next ∷ more
      | [] ↦ if leb seg.first version then seg ∷ segments else []
    ]

-- The visitor of `read_after`.
abbrev pub collect_from :
    {E : Type 0}
    → ℕ
    → ℕ
    → List (Record (List ℕ))
    → ℕ
    → List ℕ
    → Result (Error E) (List (Record (List ℕ)) × Flow)
collect_from start limit out version payload =
    let out' =
      if leb start version
      then out ++ record { version = version; patch = payload } ∷ []
      else out in
    ok (out', if leb limit (length out') then break else continue)

module _ {D E V : Type 0} (files : Files D E) (crc : List ℕ → ℕ)
    (from_slice : List ℕ → Option (Header V)) (to_vec : Header V → Option (List ℕ))
    (view_version : V → ℕ) (absent : E) where
  unfoldable pub append : Store D → List (Record (List ℕ)) → Store D × Result (Error E) (Unit {0})
  unfolding append_recovered
  append s [] = (s, ok tt)
  append s (rec ∷ records) = elim s.poison [
    | some p ↦ (s, err (poisoned p.path p.offset))
    | none ↦
        and_then
          (if s.recovered
            then (s, ok tt)
            else and_then (recover files crc from_slice view_version absent s false)
                (λ s1 _. (s1, ok tt)))
          (λ s2 _. append_recovered files crc s2 rec records)
  ]

  -- The loop of `reclaim`, with whether a file has been removed.
  unfoldable pub reclaim_segments : List Segment → Store D → Bool → Store D × Result (Error E) Bool
  reclaim_segments [] s removed = (s, ok removed)
  reclaim_segments (seg ∷ []) s removed = (s, ok removed)
  reclaim_segments (seg ∷ next ∷ segments) s removed =
      if leb next.first ((s.header_version + 1) % u64_mod)
      then (let shorter : Store D = record s { segments = next ∷ segments } in
          and_then (call shorter (files.remove_file shorter.disk seg.path))
            (λ s1 _. reclaim_segments (next ∷ segments) s1 true))
      else (s, ok removed)

  unfoldable pub reclaim : Store D → Store D × Result (Error E) (Unit {0})
  unfolding reclaim_segments
  reclaim s =
      and_then (reclaim_segments s.segments s false)
        (λ s1 removed. if removed then call s1 (files.sync_dir s1.disk) else (s1, ok tt))

  unfoldable pub sync : Store D → Store D × Result (Error E) (Unit {0})
  sync s = elim s.active [
    | none ↦ (s, ok tt)
    | some file ↦ elim (last_segment s.segments) [
      | none ↦ (s, ok tt)
      | some seg ↦ call s (files.fdatasync s.disk file)
    ]
  ]

  -- The header is written under another name, and published by the rename.
  unfoldable pub publish : Store D → List ℕ → Store D × Result (Error E) (Unit {0})
  publish s json =
      and_then (call s (files.write_new s.disk header_tmp (header_bytes crc json))) (λ s1 _.
        and_then (call s1 (files.fsync s1.disk header_tmp)) (λ s2 _.
          and_then (call s2 (files.rename_at s2.disk header_tmp header_name))
            (λ s3 _. call s3 (files.sync_dir s3.disk))))

  -- `write_header` once the header has its JSON.
  unfoldable pub write_json : Store D → V → Option (List ℕ) → Store D × Result (Error E) (Unit {0})
  unfolding publish reclaim
  write_json s view none = (s, err json_failed)
  write_json s view (some json) =
      and_then (publish s json) (λ s1 _. reclaim (record s1 { header_version = view_version view }))

  unfoldable pub write_header : Store D → V → Store D × Result (Error E) (Unit {0})
  unfolding sync write_json
  write_header s view =
      and_then (sync s)
        (λ s1 _. write_json s1 view (to_vec (record { version = view_version view; view = view })))

  abbrev pub version_of : Option (Header V) → ℕ
  version_of none = 0
  version_of (some header) = header.version

  abbrev pub view_of : Option (Header V) → Option V
  view_of none = none
  view_of (some header) = some header.view

  unfoldable pub load : Store D → Store D × Result (Error E) (Recovered V (List ℕ))
  unfolding read_header
  load s =
      let closed : Store D = record s { active = none } in
      and_then (list_segments files crc from_slice view_version closed) (λ s1 _.
        and_then (s1, read_header files crc from_slice view_version s1)
          (λ s2 header.
            let headed : Store D = record s2 { header_version = version_of header } in
            and_then (recover files crc from_slice view_version absent headed true)
              (λ s3 tail. (s3, ok (record { header = view_of header; tail = tail })))))

  -- The loop of `read_after` over the segments.
  unfoldable pub read_segments :
      D → ℕ → ℕ → List Segment → List (Record (List ℕ)) → Result (Error E) (List (Record (List ℕ)))
  read_segments disk start limit [] out = ok out
  read_segments disk start limit (seg ∷ segments) out =
      elim (scan_file files crc from_slice view_version absent (collect_from start limit) disk
        seg.path out) [
          | err e ↦ err e
          | ok (out', sc) ↦
              let rest = read_segments disk start limit segments out' in
              if leb limit (length out') then ok out' else rest
        ]

  unfoldable pub read_after : Store D → ℕ → ℕ → Result (Error E) (List (Record (List ℕ)))
  unfolding read_segments oldest
  read_after s after limit =
      let start = saturating_suc after in
      if ltb start (oldest s)
      then err (reclaimed start (oldest s))
      else if limit == 0
      then ok []
      else read_segments s.disk start limit (from_segment start s.segments) []

  -- `SegmentStore` as the storage of a log.
  abbrev pub segment_store : Storage (Store D) V (List ℕ) (Error E)
  segment_store = record {
    append = append;
    write_header = write_header;
    sync = sync;
    load = load;
    read_after = read_after;
    oldest = oldest;
  }

  -- `open_with`, where the directory is there and open; `32` is a prologue and a prefix.
  unfoldable pub open_with : D → ℕ → D × Result (Error E) (Store D)
  unfolding list_segments read_header
  open_with disk rotate_bytes =
      let (held, lock) = files.try_lock_dir disk in
      elim lock [
        | err e ↦ (held, err (io e))
        | ok false ↦ (held, err locked)
        | ok true ↦
            let fresh : Store D = record {
              disk = held;
              segments = [];
              active = none;
              capacity = 0;
              header_version = 0;
              rotate_bytes = max rotate_bytes 32;
              recovered = false;
              poison = none;
            } in
            let (listed, outcome) = list_segments files crc from_slice view_version fresh in
            elim outcome [
              | err e ↦ (held, err e)
              | ok _ ↦ elim (read_header files crc from_slice view_version listed) [
                | err e ↦ (held, err e)
                | ok header ↦ (held, ok (record listed { header_version = version_of header }))
              ]
            ]
      ]
