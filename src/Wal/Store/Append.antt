-- ===== src/Wal/Store/Append.antt =====
-- lib.rs: `rotate` and `append`.
use lug.Prelude.{
  ℕ, ◌+◌, ◌-◌, Bool, true, false, ◌||◌, Option, none, some, List, [], ◌∷◌, ◌++◌, length, last_or,
  is_empty, ltb, leb, ◌==◌, if◌then◌else◌, checked_suc, Result, ok, err,
}
use lug.Core.Storage.{Record}
use lug.Wal.Format.{seg_prologue, max_payload, segment_prologue, segment_name}
use lug.Wal.Segment.{Segment}
use lug.Wal.Segment.Contents.{encode, size}
use lug.Wal.Files.{Files}
use lug.Wal.Store.{
  Error, io, out_of_order, oversized, empty, cleanup_failed, version_exhausted, panicked, Store,
  and_then, call, last_segment, next_version, next_multiple_of, set_last,
}

-- The loop over the batch, which checks each record against the version that is next.
unfoldable pub check_batch : {E : Type 0} → ℕ → List (Record (List ℕ)) → Result (Error E) (Unit {0})
check_batch expected [] = ok tt
check_batch expected (rec ∷ records) =
    if rec.version == expected
    then if is_empty rec.patch
      then err (empty rec.version)
      else if ltb max_payload (length rec.patch)
      then err (oversized rec.version (length rec.patch))
      else (elim (checked_suc expected) [
        | none ↦ err (version_exhausted rec.version)
        | some next ↦ check_batch next records
      ])
    else err (out_of_order expected rec.version)

module _ {D E : Type 0} (files : Files D E) (crc : List ℕ → ℕ) where
  -- The active segment is closed at its true length, when there is one.
  unfoldable pub close_active : Store D → Store D × Result (Error E) (Unit {0})
  close_active s =
      let taken : Store D = record s { active = none } in
      elim s.active [
        | none ↦ (taken, ok tt)
        | some file ↦ elim (last_segment s.segments) [
          | none ↦ (taken, ok tt)
          | some seg ↦
              and_then (call taken (files.set_len s.disk file seg.end))
                (λ s1 _. call s1 (files.fdatasync s1.disk file))
        ]
      ]

  unfoldable pub rotate : Store D → ℕ → Store D × Result (Error E) (Unit {0})
  unfolding close_active
  rotate s first =
      let path = segment_name first in
      and_then (close_active s) (λ s1 _. and_then (call s1 (files.open_rw s1.disk path)) (λ s2 _.
        and_then (call s2 (files.preallocate s2.disk path s2.rotate_bytes)) (λ s3 _.
          and_then (call s3 (files.pwritev_all s3.disk path segment_prologue 0)) (λ s4 _.
            and_then (call s4 (files.fsync s4.disk path)) (λ s5 _.
              and_then (call s5 (files.sync_dir s5.disk)) (λ s6 _. (
                record s6 {
                  segments =
                      s6.segments
                      ++ record { first = first; path = path; end = seg_prologue; last = first - 1 }
                        ∷ [];
                  capacity = s6.rotate_bytes;
                  active = some path;
                },
                ok tt,
              )))))))

  -- Room for the batch is made where the capacity has none.
  unfoldable pub make_room : Store D → List ℕ → ℕ → Store D × Result (Error E) (Unit {0})
  make_room s file wanted =
      if ltb s.capacity wanted
      then and_then
          (call s (files.preallocate s.disk file (next_multiple_of wanted s.rotate_bytes)))
          (λ s1 _. (record s1 { capacity = next_multiple_of wanted s1.rotate_bytes }, ok tt))
      else (s, ok tt)

  -- After a write that has failed: what landed is zeroed, or the store is poisoned.
  unfoldable pub clean_up :
      Store D → List ℕ → Segment → ℕ → E → Store D × Result (Error E) (Unit {0})
  clean_up s file seg total source =
      let cleaned =
        and_then (files.zero_range s.disk file seg.end total) (λ d _. files.fdatasync d file) in
      elim cleaned.1 [
        | ok _ ↦ (record s { disk = cleaned.0 }, err (io source))
        | err e ↦ (
          record s {
            disk = cleaned.0;
            poison = some (record { path = seg.path; offset = seg.end });
          },
          err (cleanup_failed seg.path seg.end),
        )
      ]

  -- What follows the write: the segment has grown up to version `last`, or the write is undone.
  unfoldable pub after_write :
      Store D
      → List ℕ
      → Segment
      → (total last : ℕ) → D × Result E (Unit {0})
      → Store D × Result (Error E) (Unit {0})
  unfolding clean_up
  after_write s file seg total last (disk, err source) =
      clean_up (record s { disk = disk }) file seg total source
  after_write s file seg total last (disk, ok _) = (
    record s {
      disk = disk;
      segments = set_last (record seg { end = seg.end + total; last = last }) s.segments;
    },
    ok tt,
  )

  -- The write itself, at the end of the active segment.
  unfoldable pub write_batch :
      Store D
      → List ℕ
      → Segment
      → Record (List ℕ)
      → List (Record (List ℕ))
      → Store D × Result (Error E) (Unit {0})
  unfolding make_room after_write
  write_batch s file seg rec records =
      let total = size crc (rec ∷ records) in
      and_then (make_room s file (seg.end + total)) (λ s1 _.
        after_write s1 file seg total (last_or rec records).version
          (files.pwritev_all s1.disk file (encode crc (rec ∷ records)) seg.end))

  -- Whether `append` starts a new segment.
  abbrev pub rotating : Store D → Bool
  rotating s = elim (last_segment s.segments) [
    | none ↦ true
    | some seg ↦ leb s.rotate_bytes seg.end || (elim s.active [ none ↦ true | some file ↦ false ])
  ]

  -- The batch goes to the last segment, by its handle; `rotate` leaves both.
  unfoldable pub write_to_last :
      Store D
      → Record (List ℕ)
      → List (Record (List ℕ))
      → Option (List ℕ)
      → Option Segment
      → Store D × Result (Error E) (Unit {0})
  unfolding write_batch
  write_to_last s rec records none seg = (s, err panicked)
  write_to_last s rec records (some file) none = (s, err panicked)
  write_to_last s rec records (some file) (some seg) = write_batch s file seg rec records

  -- `append` from the loop over the batch on, on a store that has been recovered.
  unfoldable pub append_recovered :
      Store D → Record (List ℕ) → List (Record (List ℕ)) → Store D × Result (Error E) (Unit {0})
  unfolding check_batch rotate write_to_last next_version
  append_recovered s rec records = elim (check_batch {E = E} (next_version s) (rec ∷ records)) [
    | err e ↦ (s, err e)
    | ok _ ↦
        and_then (if rotating s then rotate s rec.version else (s, ok tt))
          (λ s1 _. write_to_last s1 rec records s1.active (last_segment s1.segments))
  ]
