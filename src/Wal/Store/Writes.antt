-- ===== src/Wal/Store/Writes.antt =====
-- lib.rs: `append` keeps the versions of the segments in sequence.
use lug.Prelude.{
  ℕ, ◌+◌, ◌%◌, ◌≡◌, refl, ap, ◌∙◌, Bool, true, false, inl, inr, Option, none, some, List, ◌∷◌,
  length, last_or, ltb, Bool-cases, Result-cases, if◌then◌else◌, arith, Result, ok, err, u64_mod,
}
use lug.Core.Storage.{Record}
use lug.Wal.Segment.{Segment}
use lug.Wal.Segment.Contents.{encode, size}
use lug.Wal.Files.{Files}
use lug.Wal.Store.{
  Error, Store, and_then, call, last_segment, last_version, next_version, set_last,
  next_multiple_of,
}
use lug.Wal.Store.Append.{
  check_batch, rotate, make_room, clean_up, after_write, write_batch, write_to_last, rotating,
  append_recovered,
}
use lug.Wal.Store.Keeps.{
  Ensures, Ensures-and_then, Ensures-map, Same, Same-refl, call-Same, Rotated, rotate-Rotated,
}
use lug.Wal.Store.Sequence.{
  IsLog, newest, last_version-end_of, Same-IsLog, Rotated-IsLog, Grown, Grown-IsLog,
}
use lug.Wal.Store.Batch.{Batch, last_or-Batch, check_batch-Batch}

module _ {D E : Type 0} (files : Files D E) (crc : List ℕ → ℕ) where
  make_room-Same :
      (s : Store D) (file : List ℕ) (wanted : ℕ)
      → Ensures {F = Error E} (Same s) (Same s) (make_room files crc s file wanted)
  unfolding make_room
  make_room-Same s file wanted = elim (Bool-cases (ltb s.capacity wanted)) [
    | inr e ↦ rw (e, make_room) (Same-refl s)
    | inl e ↦
        rw (e, make_room)
          (Ensures-and_then (Same s) (Same s) (Same s)
            (call s (files.preallocate s.disk file (next_multiple_of wanted s.rotate_bytes))) _
            (call-Same s s (files.preallocate s.disk file (next_multiple_of wanted s.rotate_bytes))
              (Same-refl s))
            (λ s1 _ h1. record {
              segments_eq = h1.segments_eq;
              header_eq = h1.header_eq;
              rotate_eq = h1.rotate_eq;
            }))
  ]

  clean_up-Same :
      (s s1 : Store D) (file : List ℕ) (seg : Segment) (total : ℕ) (source : E)
      → Same s s1
      → Ensures {F = Error E} (λ s'. ⊥) (Same s) (clean_up files crc s1 file seg total source)
  unfolding clean_up
  clean_up-Same s s1 file seg total source h =
      let cleaned =
        and_then (files.zero_range s1.disk file seg.end total) (λ d _. files.fdatasync d file) in
      elim (Result-cases cleaned.1) [
        | inl (x, e) ↦
            rw (e, clean_up)
              (record {
                segments_eq = h.segments_eq;
                header_eq = h.header_eq;
                rotate_eq = h.rotate_eq;
              })
        | inr (x, e) ↦
            rw (e, clean_up)
              (record {
                segments_eq = h.segments_eq;
                header_eq = h.header_eq;
                rotate_eq = h.rotate_eq;
              })
      ]

  after_write-Grown :
      (s s1 : Store D) (file : List ℕ) (seg : Segment) (total v : ℕ)
      → last_segment s.segments ≡ some seg
      → Same s s1
      → (outcome : D × Result E (Unit {0}))
      → Ensures {F = Error E}
          (Grown s v)
          (Same s)
          (after_write files crc s1 file seg total v outcome)
  unfolding after_write
  after_write-Grown s s1 file seg total v is_last h (disk, ok x) = record {
    seg = seg;
    new = record seg { end = seg.end + total; last = v };
    last_eq = is_last;
    first_eq = refl;
    new_last = refl;
    segments_eq =
        ap (λ segs. set_last (record seg { end = seg.end + total; last = v }) segs) h.segments_eq;
    header_eq = h.header_eq;
  }
  after_write-Grown s s1 file seg total v is_last h (disk, err source) =
      Ensures-map (λ s'. ⊥) (Grown s v) (Same s) (Same s) _ (λ s' bad. absurd bad) (λ s' same. same)
        (clean_up-Same s (record s1 { disk = disk }) file seg total source
          (record {
            segments_eq = h.segments_eq;
            header_eq = h.header_eq;
            rotate_eq = h.rotate_eq;
          }))

  write_batch-Grown :
      (s : Store D) (file : List ℕ) (seg : Segment) (rec : Record (List ℕ))
      (records : List (Record (List ℕ)))
      → last_segment s.segments ≡ some seg
      → Ensures {F = Error E}
          (Grown s (last_or rec records).version)
          (Same s)
          (write_batch files crc s file seg rec records)
  unfolding write_batch
  write_batch-Grown s file seg rec records is_last =
      let total = size crc (rec ∷ records) in
      Ensures-and_then (Same s) (Grown s (last_or rec records).version) (Same s)
        (make_room files crc s file (seg.end + total)) _ (make_room-Same s file (seg.end + total))
        (λ s1 _ h1.
          after_write-Grown s s1 file seg total (last_or rec records).version is_last h1
            (files.pwritev_all s1.disk file (encode crc (rec ∷ records)) seg.end))

  write_to_last-Grown :
      (s : Store D) (rec : Record (List ℕ)) (records : List (Record (List ℕ)))
      (file : Option (List ℕ)) (seg : Option Segment)
      → last_segment s.segments ≡ seg
      → Ensures {F = Error E}
          (Grown s (last_or rec records).version)
          (Same s)
          (write_to_last files crc s rec records file seg)
  unfolding write_to_last
  write_to_last-Grown s rec records none seg e = Same-refl s
  write_to_last-Grown s rec records (some file) none e = Same-refl s
  write_to_last-Grown s rec records (some file) (some seg) e =
      write_batch-Grown s file seg rec records e

  -- A rotation, where one is due, adds no version.
  maybe_rotate-IsLog :
      (s : Store D) (due : Bool) (first : ℕ)
      → first ≡ newest s + 1
      → IsLog s
      → Ensures {F = Error E}
          (λ s'. IsLog s' × (newest s' ≡ newest s))
          (λ s'. IsLog s' × (newest s' ≡ newest s))
          (if due then rotate files crc s first else (s, ok tt))
  maybe_rotate-IsLog s false first next h = (h, refl)
  maybe_rotate-IsLog s true first next h =
      Ensures-map (Rotated s first) (λ s'. IsLog s' × (newest s' ≡ newest s)) (Same s)
        (λ s'. IsLog s' × (newest s' ≡ newest s)) _ (Rotated-IsLog s first next h)
        (λ s' same. Same-IsLog s s' same h) (rotate-Rotated files crc s first)

  -- From the loop over the batch on.
  pub append_recovered-IsLog :
      (s : Store D) (rec : Record (List ℕ)) (records : List (Record (List ℕ)))
      → IsLog s
      → Ensures {F = Error E}
          (λ s'.
            IsLog s'
            × (newest s' ≡ newest s + length (rec ∷ records))
            × Batch (newest s + 1) (rec ∷ records))
          (λ s'. IsLog s' × (newest s' ≡ newest s))
          (append_recovered files crc s rec records)
  unfolding append_recovered next_version
  append_recovered-IsLog s rec records h =
      let next_eq : (last_version s + 1) % u64_mod ≡ newest s + 1 =
        omega (arith, last_version-end_of s, h.small) in
      elim (Result-cases (check_batch {E = E} ((last_version s + 1) % u64_mod) (rec ∷ records))) [
        | inr (e, bad) ↦ rw (bad, append_recovered, next_version) (h, refl)
        | inl (x, fine) ↦
            let (batch, below) =
              check_batch-Batch {E = E} (newest s + 1) (rec ∷ records) (omega (arith, h.small))
                (rw next_eq at fine) in
            let last_eq : (last_or rec records).version ≡ newest s + length (rec ∷ records) =
              last_or-Batch (newest s + 1) rec records batch ∙ omega arith in
            rw (fine, append_recovered, next_version)
              (Ensures-and_then (λ s'. IsLog s' × (newest s' ≡ newest s))
                (λ s'.
                  IsLog s'
                  × (newest s' ≡ newest s + length (rec ∷ records))
                  × Batch (newest s + 1) (rec ∷ records))
                (λ s'. IsLog s' × (newest s' ≡ newest s))
                (if rotating files crc s then rotate files crc s rec.version else (s, ok tt)) _
                (maybe_rotate-IsLog s (rotating files crc s) rec.version (batch.0) h)
                (λ s1 _ h1.
                  Ensures-map (Grown s1 (last_or rec records).version)
                    (λ s'.
                      IsLog s'
                      × (newest s' ≡ newest s + length (rec ∷ records))
                      × Batch (newest s + 1) (rec ∷ records))
                    (Same s1) (λ s'. IsLog s' × (newest s' ≡ newest s)) _
                    (λ s' g.
                      let (log, fin) =
                        Grown-IsLog s1 (last_or rec records).version (omega (arith, last_eq, h1.1))
                          (omega (arith, last_eq, below)) h1.0 s' g in
                      (log, fin ∙ last_eq, batch))
                    (λ s' same. let (log, fin) = Same-IsLog s1 s' same h1.0 in (log, fin ∙ h1.1))
                    (write_to_last-Grown s1 rec records s1.active (last_segment s1.segments) refl)))
      ]
