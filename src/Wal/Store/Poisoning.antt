-- ===== src/Wal/Store/Poisoning.antt =====
-- lib.rs: what an append that could not be cleaned up does to the store.
use lug.Prelude.{
  ℕ, ◌+◌, ◌≡◌, refl, subst, Bool, true, false, Option, none, some, Option-cases, inl, inr, List, [],
  ◌∷◌, length, last_or, is_empty, ltb, ◌==◌, Bool-cases, Result-cases, if◌then◌else◌, checked_suc,
  Result, ok, err,
}
use lug.Core.Storage.{Record}
use lug.Wal.Format.{max_payload, segment_name, segment_prologue}
use lug.Wal.Segment.{Segment}
use lug.Wal.Segment.Contents.{encode, size}
use lug.Wal.Files.{Files}
use lug.Wal.Store.{
  Error, cleanup_failed, poisoned, Poison, Store, and_then, call, last_segment, next_version,
  next_multiple_of,
}
use lug.Wal.Store.Append.{
  check_batch, close_active, rotate, make_room, clean_up, after_write, write_batch, write_to_last,
  rotating, append_recovered,
}
use lug.Wal.Store.Recover.{Header}
use lug.Wal.Store.Serve.{append}

module _ {D E : Type 0} where
  -- A store whose clean-up has failed is poisoned where the failure was.
  abbrev pub Marked : Store D → Error E → Type 0
  Marked s (cleanup_failed path offset) = s.poison ≡ some (record { path = path; offset = offset })
  Marked s _ = Unit

  abbrev pub Marks : {A : Type 0} → Store D × Result (Error E) A → Type 0
  Marks (s, ok x) = Unit
  Marks (s, err e) = Marked s e

  Marks-and_then :
      {A B : Type 0}
      → (c : Store D × Result (Error E) A) (k : Store D → A → Store D × Result (Error E) B)
      → Marks c
      → ((s : Store D) (x : A) → Marks (k s x))
      → Marks (and_then c k)
  Marks-and_then (s, ok x) k h next = next s x
  Marks-and_then (s, err e) k h next = h

  call-Marks : {A : Type 0} → (s : Store D) (c : D × Result E A) → Marks (call s c)
  call-Marks s (disk, ok x) = tt
  call-Marks s (disk, err e) = tt

  call_then-Marks :
      {A B : Type 0}
      → (s : Store D) (c : D × Result E A) (k : Store D → A → Store D × Result (Error E) B)
      → ((s1 : Store D) (x : A) → Marks (k s1 x))
      → Marks (and_then (call s c) k)
  call_then-Marks s c k next = Marks-and_then (call s c) k (call-Marks s c) next

check_batch-Marks :
    {D : Type 0}
    → (E : Type 0) (s : Store D) (v : ℕ) (records : List (Record (List ℕ)))
    → Marks {A = Unit {0}} (s, check_batch {E = E} v records)
unfolding check_batch
check_batch-Marks E s v [] = tt
check_batch-Marks E s v (rec ∷ records) = elim (Bool-cases (rec.version == v)) [
  | inr e ↦ rw e tt
  | inl e ↦ elim (Bool-cases (is_empty rec.patch)) [
    | inl e1 ↦ rw (e, e1) tt
    | inr e1 ↦ elim (Bool-cases (ltb max_payload (length rec.patch))) [
      | inl e2 ↦ rw (e, e1, e2) tt
      | inr e2 ↦ elim (Option-cases (checked_suc v)) [
        | inl e3 ↦ rw (e, e1, e2, e3) tt
        | inr (next, e3) ↦ rw (e, e1, e2, e3) (check_batch-Marks E s next records)
      ]
    ]
  ]
]

module _ {D E : Type 0} (files : Files D E) (crc : List ℕ → ℕ) where
  close_active-Marks : (s : Store D) → Marks (close_active files crc s)
  unfolding close_active
  close_active-Marks s = by_both s.active (last_segment s.segments)
    where
      by_both :
          (file : Option (List ℕ)) (seg : Option Segment)
          → Marks {D = D} {E = E} {A = Unit {0}} (elim file [
            | none ↦ (record s { active = none }, ok tt)
            | some f ↦ elim seg [
              | none ↦ (record s { active = none }, ok tt)
              | some last ↦
                  and_then
                    (call (record s { active = none }) (files.set_len s.disk f last.end))
                    (λ s1 _. call s1 (files.fdatasync s1.disk f))
            ]
          ])
      by_both none seg = tt
      by_both (some f) none = tt
      by_both (some f) (some last) =
          call_then-Marks (record s { active = none }) (files.set_len s.disk f last.end) _
            (λ s1 x. call-Marks s1 (files.fdatasync s1.disk f))

  rotate-Marks : (s : Store D) (first : ℕ) → Marks (rotate files crc s first)
  unfolding rotate
  rotate-Marks s first =
      let path = segment_name first in
      Marks-and_then (close_active files crc s) _ (close_active-Marks s) (λ s1 _.
        call_then-Marks s1 (files.open_rw s1.disk path) _ (λ s2 _.
          call_then-Marks s2 (files.preallocate s2.disk path s2.rotate_bytes) _ (λ s3 _.
            call_then-Marks s3 (files.pwritev_all s3.disk path segment_prologue 0) _ (λ s4 _.
              call_then-Marks s4 (files.fsync s4.disk path) _
                (λ s5 _. call_then-Marks s5 (files.sync_dir s5.disk) _ (λ s6 _. tt))))))

  make_room-Marks :
      (s : Store D) (file : List ℕ) (wanted : ℕ) → Marks (make_room files crc s file wanted)
  unfolding make_room
  make_room-Marks s file wanted = elim (Bool-cases (ltb s.capacity wanted)) [
    | inr e ↦ rw (e, make_room) tt
    | inl e ↦
        rw (e, make_room)
          (call_then-Marks s
            (files.preallocate s.disk file (next_multiple_of wanted s.rotate_bytes)) _ (λ s1 x. tt))
  ]

  clean_up-Marks :
      (s : Store D) (file : List ℕ) (seg : Segment) (total : ℕ) (source : E)
      → Marks (clean_up files crc s file seg total source)
  unfolding clean_up
  clean_up-Marks s file seg total source =
      let cleaned =
        and_then (files.zero_range s.disk file seg.end total) (λ d _. files.fdatasync d file) in
      elim (Result-cases cleaned.1) [
        | inl (x, e) ↦ rw (e, clean_up) tt
        | inr (x, e) ↦ rw (e, clean_up) refl
      ]

  after_write-Marks :
      (s : Store D) (file : List ℕ) (seg : Segment) (total last : ℕ)
      (outcome : D × Result E (Unit {0}))
      → Marks (after_write files crc s file seg total last outcome)
  unfolding after_write
  after_write-Marks s file seg total last (disk, ok x) = tt
  after_write-Marks s file seg total last (disk, err e) =
      clean_up-Marks (record s { disk = disk }) file seg total e

  write_to_last-Marks :
      (s : Store D) (rec : Record (List ℕ)) (records : List (Record (List ℕ)))
      (file : Option (List ℕ)) (seg : Option Segment)
      → Marks (write_to_last files crc s rec records file seg)
  unfolding write_to_last write_batch
  write_to_last-Marks s rec records none seg = tt
  write_to_last-Marks s rec records (some file) none = tt
  write_to_last-Marks s rec records (some file) (some seg) =
      Marks-and_then (make_room files crc s file (seg.end + size crc (rec ∷ records))) _
        (make_room-Marks s file (seg.end + size crc (rec ∷ records)))
        (λ s1 x.
          after_write-Marks s1 file seg (size crc (rec ∷ records)) (last_or rec records).version
            (files.pwritev_all s1.disk file (encode crc (rec ∷ records)) seg.end))

  append_recovered-Marks :
      (s : Store D) (rec : Record (List ℕ)) (records : List (Record (List ℕ)))
      → Marks (append_recovered files crc s rec records)
  unfolding append_recovered
  append_recovered-Marks s rec records =
      elim (Result-cases (check_batch {E = E} (next_version s) (rec ∷ records))) [
        | inr (e, bad) ↦
            rw (bad, append_recovered)
              (subst (λ r. Marks {A = Unit {0}} (s, r)) bad
                (check_batch-Marks E s (next_version s) (rec ∷ records)))
        | inl (x, fine) ↦
            rw (fine, append_recovered)
              (Marks-and_then
                (if rotating files crc s then rotate files crc s rec.version else (s, ok tt)) _
                (maybe_rotate (rotating files crc s))
                (λ s1 _. write_to_last-Marks s1 rec records s1.active (last_segment s1.segments)))
      ]
    where
      maybe_rotate :
          (due : Bool)
          → Marks {A = Unit {0}} (if due then rotate files crc s rec.version else (s, ok tt))
      maybe_rotate false = tt
      maybe_rotate true = rotate-Marks s rec.version

module _ {D E V : Type 0} (files : Files D E) (crc : List ℕ → ℕ)
    (from_slice : List ℕ → Option (Header V)) (to_vec : Header V → Option (List ℕ))
    (view_version : V → ℕ) (absent : E) where
  append-Marks :
      (s : Store D) (records : List (Record (List ℕ)))
      → s.recovered ≡ true
      → Marks (append files crc from_slice to_vec view_version absent s records)
  unfolding append
  append-Marks s [] r = tt
  append-Marks s (rec ∷ records) r = by_state s.poison s.recovered r
    where
      by_state :
          (p : Option Poison) (b : Bool)
          → b ≡ true
          → Marks (
              append files crc from_slice to_vec view_version absent
                (record s { poison = p; recovered = b })
                (rec ∷ records))
      by_state (some p) b is_true = tt
      by_state none true is_true =
          append_recovered-Marks files crc (record s { poison = none; recovered = true }) rec
            records
      by_state none false is_true = cc

  -- On a recovered store, whatever the file system does: after an append whose clean-up has failed, every
  -- append of a batch is refused as poisoned, with the file and the offset of the failure, and
  -- touches neither the store nor the disk.
  pub append_poisoned :
      (s s' : Store D) (records : List (Record (List ℕ))) (path : List ℕ) (offset : ℕ)
      → s.recovered ≡ true
      → append files crc from_slice to_vec view_version absent s records
        ≡ (s', err (cleanup_failed path offset))
      → (rec : Record (List ℕ)) (batch : List (Record (List ℕ)))
      → append files crc from_slice to_vec view_version absent s' (rec ∷ batch)
        ≡ (s', err (poisoned path offset))
  unfolding append
  append_poisoned s s' records path offset r h rec batch =
      let marked : s'.poison ≡ some (record { path = path; offset = offset }) =
        subst Marks h (append-Marks s records r) in
      simp (marked, append)
