-- ===== src/Wal/Store/Keeps.antt =====
-- lib.rs: what the operations of the store leave alone.
use lug.Prelude.{
  Option-cases, ◌⊎◌, inl, inr, ap, ◌++◌, ◌-◌, ℕ, ◌≡◌, refl, Option, none, some, List, [], ◌∷◌,
  Result, ok, err,
}
use lug.Wal.Segment.{Segment}
use lug.Wal.Format.{segment_name, segment_prologue, seg_prologue}
use lug.Wal.Files.{Files}
use lug.Wal.Store.{Error, Store, and_then, call, last_segment}
use lug.Wal.Store.Append.{close_active, rotate}

module _ {D F : Type 0} where
  -- Of a store and a result: what holds of the store where the result is good, and where it is not.
  abbrev pub Ensures :
      {A : Type 0} → (Store D → Type 0) → (Store D → Type 0) → Store D × Result F A → Type 0
  Ensures Q R (s, ok x) = Q s
  Ensures Q R (s, err e) = R s

  pub Ensures-and_then :
      {A B : Type 0}
      → (P Q R : Store D → Type 0) (m : Store D × Result F A)
        (k : Store D → A → Store D × Result F B)
      → Ensures P R m
      → ((s : Store D) (x : A) → P s → Ensures Q R (k s x))
      → Ensures Q R (and_then m k)
  Ensures-and_then P Q R (s, ok x) k h next = next s x h
  Ensures-and_then P Q R (s, err e) k h next = h

  pub Ensures-map :
      {A : Type 0}
      → (Q Q' R R' : Store D → Type 0) (m : Store D × Result F A) → ((s : Store D) → Q s → Q' s)
      → ((s : Store D) → R s → R' s)
      → Ensures Q R m
      → Ensures Q' R' m
  Ensures-map Q Q' R R' (s, ok x) f g h = f s h
  Ensures-map Q Q' R R' (s, err e) f g h = g s h

-- The records that the store knows of, and its settings, are those of `s`.
pub record Same {D : Type 0} (s s' : Store D) : Type 0 where
  pub segments_eq : s'.segments ≡ s.segments
  pub header_eq : s'.header_version ≡ s.header_version
  pub rotate_eq : s'.rotate_bytes ≡ s.rotate_bytes

pub Same-refl : {D : Type 0} → (s : Store D) → Same s s
Same-refl s = record { segments_eq = refl; header_eq = refl; rotate_eq = refl }

module _ {D E : Type 0} where
  pub call-Same :
      {A : Type 0}
      → (s s1 : Store D) (c : D × Result E A) → Same s s1
      → Ensures {F = Error E} (Same s) (Same s) (call s1 c)
  call-Same s s1 (disk, ok x) h = record {
    segments_eq = h.segments_eq;
    header_eq = h.header_eq;
    rotate_eq = h.rotate_eq;
  }
  call-Same s s1 (disk, err e) h = record {
    segments_eq = h.segments_eq;
    header_eq = h.header_eq;
    rotate_eq = h.rotate_eq;
  }

-- What a rotation adds.
abbrev pub new_segment : ℕ → Segment
new_segment first = record {
  first = first;
  path = segment_name first;
  end = seg_prologue;
  last = first - 1;
}

pub record Rotated {D : Type 0} (s : Store D) (first : ℕ) (s' : Store D) : Type 0 where
  pub segments_eq : s'.segments ≡ s.segments ++ new_segment first ∷ []
  pub header_eq : s'.header_version ≡ s.header_version
  pub rotate_eq : s'.rotate_bytes ≡ s.rotate_bytes
  pub active_eq : s'.active ≡ some (segment_name first)

module _ {D E : Type 0} (files : Files D E) (crc : List ℕ → ℕ) where
  pub close_active-Same :
      (s : Store D) → Ensures {F = Error E} (Same s) (Same s) (close_active files crc s)
  unfolding close_active
  close_active-Same s = by_file s.active
    where
      by_last :
          (file : List ℕ)
          → (last_segment s.segments ≡ none)
            ⊎ ((seg : Segment) × (last_segment s.segments ≡ some seg))
          → Ensures {F = Error E}
              (Same s)
              (Same s)
              (close_active files crc (record s { active = some file }))
      by_last file (inl e) =
          rw (e, close_active) (record { segments_eq = refl; header_eq = refl; rotate_eq = refl })
      by_last file (inr (seg, e)) =
          let taken : Store D = record s { active = none } in
          let taken-Same : Same s taken = record {
            segments_eq = refl;
            header_eq = refl;
            rotate_eq = refl;
          } in
          rw (e, close_active)
            (Ensures-and_then (Same s) (Same s) (Same s)
              (call taken (files.set_len s.disk file seg.end))
              (λ s1 _. call s1 (files.fdatasync s1.disk file))
              (call-Same s taken (files.set_len s.disk file seg.end) taken-Same)
              (λ s1 x h. call-Same s s1 (files.fdatasync s1.disk file) h))

      by_file :
          (file : Option (List ℕ))
          → Ensures {F = Error E}
              (Same s)
              (Same s)
              (close_active files crc (record s { active = file }))
      by_file none = record { segments_eq = refl; header_eq = refl; rotate_eq = refl }
      by_file (some file) = by_last file (Option-cases (last_segment s.segments))

  -- A rotation adds an empty segment, or fails and changes nothing that the store knows of.
  pub rotate-Rotated :
      (s : Store D) (first : ℕ)
      → Ensures {F = Error E} (Rotated s first) (Same s) (rotate files crc s first)
  unfolding rotate
  rotate-Rotated s first =
      let path = segment_name first in
      Ensures-and_then (Same s) (Rotated s first) (Same s) (close_active files crc s) _
        (close_active-Same s)
        (λ s1 _ h1.
          Ensures-and_then (Same s) (Rotated s first) (Same s)
            (call s1 (files.open_rw s1.disk path)) _
            (call-Same s s1 (files.open_rw s1.disk path) h1)
            (λ s2 _ h2.
              Ensures-and_then (Same s) (Rotated s first) (Same s)
                (call s2 (files.preallocate s2.disk path s2.rotate_bytes)) _
                (call-Same s s2 (files.preallocate s2.disk path s2.rotate_bytes) h2)
                (λ s3 _ h3.
                  Ensures-and_then (Same s) (Rotated s first) (Same s)
                    (call s3 (files.pwritev_all s3.disk path segment_prologue 0)) _
                    (call-Same s s3 (files.pwritev_all s3.disk path segment_prologue 0) h3)
                    (λ s4 _ h4.
                      Ensures-and_then (Same s) (Rotated s first) (Same s)
                        (call s4 (files.fsync s4.disk path)) _
                        (call-Same s s4 (files.fsync s4.disk path) h4)
                        (λ s5 _ h5.
                          Ensures-and_then (Same s) (Rotated s first) (Same s)
                            (call s5 (files.sync_dir s5.disk)) _
                            (call-Same s s5 (files.sync_dir s5.disk) h5)
                            (λ s6 _ h6. record {
                              segments_eq =
                                  ap (λ segs. segs ++ new_segment first ∷ []) h6.segments_eq;
                              header_eq = h6.header_eq;
                              rotate_eq = h6.rotate_eq;
                              active_eq = refl;
                            }))))))
