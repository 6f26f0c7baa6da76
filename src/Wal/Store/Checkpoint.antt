-- ===== src/Wal/Store/Checkpoint.antt =====
-- lib.rs: `append` and `write_header` on the whole store.
use lug.Prelude.{
  ℕ, ◌+◌, ◌%◌, ◌≤◌, ◌≡◌, refl, sym, ap, ◌∙◌, subst, Bool, true, false, inl, inr, Option, none, some,
  List, [], ◌∷◌, length, leb, leb→le, Bool-cases, if◌then◌else◌, arith, Result, ok, err, u64_mod,
}
use lug.Core.Storage.{Record}
use lug.Wal.Segment.{Segment}
use lug.Wal.Format.{header_bytes}
use lug.Wal.Files.{Files}
use lug.Wal.Store.{Error, Store, Poison, call, last_segment}
use lug.Wal.Store.Recover.{Header, header_name, header_tmp}
use lug.Wal.Store.Serve.{append, reclaim_segments, reclaim, sync, publish, write_json, write_header}
use lug.Wal.Store.Keeps.{Ensures, Ensures-and_then, Ensures-map, Same, Same-refl, call-Same}
use lug.Wal.Store.Sequence.{IsLog, Follows, end_of, newest, Same-IsLog}
use lug.Wal.Store.Batch.{Batch}
use lug.Wal.Store.Writes.{append_recovered-IsLog}

module _ {D E V : Type 0} (files : Files D E) (crc : List ℕ → ℕ)
    (from_slice : List ℕ → Option (Header V)) (to_vec : Header V → Option (List ℕ))
    (view_version : V → ℕ) (absent : E) where
  -- On a recovered store whose versions are in sequence, whatever the file system does: an append that
  -- succeeds was of a batch of payloads that are neither empty nor too large, under the versions
  -- behind the newest, and the newest version rises by exactly its length; an append that fails
  -- leaves the newest version as it is; and both leave the versions in sequence.
  pub append-IsLog :
      (s : Store D) (records : List (Record (List ℕ)))
      → IsLog s
      → s.recovered ≡ true
      → Ensures {F = Error E}
          (λ s'. IsLog s' × (newest s' ≡ newest s + length records) × Batch (newest s + 1) records)
          (λ s'. IsLog s' × (newest s' ≡ newest s))
          (append files crc from_slice to_vec view_version absent s records)
  unfolding append
  append-IsLog s [] h e = (h, omega arith, tt)
  append-IsLog s (rec ∷ records) h e = by_state s.poison s.recovered e
    where
      by_state :
          (p : Option Poison) (b : Bool)
          → b ≡ true
          → Ensures {F = Error E}
              (λ s'.
                IsLog s'
                × (newest s' ≡ newest s + length (rec ∷ records))
                × Batch (newest s + 1) (rec ∷ records))
              (λ s'. IsLog s' × (newest s' ≡ newest s))
              (append files crc from_slice to_vec view_version absent
                (record s { poison = p; recovered = b })
                (rec ∷ records))
      by_state (some p) b is_true = (
        record {
          base = h.base;
          base_le = h.base_le;
          follows = h.follows;
          header_le = h.header_le;
          small = h.small;
        },
        refl,
      )
      by_state none true is_true =
          append_recovered-IsLog files crc (record s { poison = none; recovered = true }) rec
            records
            (record {
              base = h.base;
              base_le = h.base_le;
              follows = h.follows;
              header_le = h.header_le;
              small = h.small;
            })
      by_state none false is_true = cc

  -- What a checkpoint leaves in place.
  abbrev Keeps : Store D → Store D → Type 0
  Keeps s s' = IsLog s' × (newest s' ≡ newest s) × (s'.header_version ≡ s.header_version)

  removed-Keeps :
      {A : Type 0}
      → (t s : Store D) (segs : List Segment) (c : D × Result E A) → s.segments ≡ segs
      → Keeps t s
      → Ensures {F = Error E} (λ s'. Keeps t s' × (s'.segments ≡ segs)) (Keeps t) (call s c)
  removed-Keeps t s segs (disk, ok x) e (log, new_eq, head_eq) = (
    (
      record {
        base = log.base;
        base_le = log.base_le;
        follows = log.follows;
        header_le = log.header_le;
        small = log.small;
      },
      new_eq,
      head_eq,
    ),
    e,
  )
  removed-Keeps t s segs (disk, err x) e (log, new_eq, head_eq) = (
    record {
      base = log.base;
      base_le = log.base_le;
      follows = log.follows;
      header_le = log.header_le;
      small = log.small;
    },
    new_eq,
    head_eq,
  )

  reclaim_segments-Keeps :
      (t : Store D) (segs : List Segment) (s : Store D) (removed : Bool)
      → s.segments ≡ segs
      → Keeps t s
      → Ensures {F = Error E}
          (Keeps t)
          (Keeps t)
          (reclaim_segments files crc from_slice to_vec view_version absent segs s removed)
  unfolding reclaim_segments
  reclaim_segments-Keeps t [] s removed e h = h
  reclaim_segments-Keeps t (seg ∷ []) s removed e h = h
  reclaim_segments-Keeps t (seg ∷ next ∷ segments) s removed e (log, new_eq, head_eq) =
      elim (Bool-cases (leb next.first ((s.header_version + 1) % u64_mod))) [
        | inr stop ↦ rw (stop, reclaim_segments) (log, new_eq, head_eq)
        | inl covered ↦
            let shorter : Store D = record s { segments = next ∷ segments } in
            let chain : Follows log.base (seg ∷ next ∷ segments) = rw e at log.follows in
            let ends : newest s ≡ newest shorter = ap (λ segs. end_of s.header_version segs) e in
            let head_le : s.header_version ≤ newest s = log.header_le in
            let below : next.first ≤ s.header_version + 1 =
              omega (arith, leb→le _ _ covered, log.small, head_le) in
            let log' : IsLog shorter = record {
              base = seg.last;
              base_le = omega (arith, chain.2.0, below);
              follows = chain.2;
              header_le = omega (arith, ends, head_le);
              small = omega (arith, ends, log.small);
            } in
            rw (covered, reclaim_segments)
              (Ensures-and_then (λ s'. Keeps t s' × (s'.segments ≡ next ∷ segments)) (Keeps t)
                (Keeps t) (call shorter (files.remove_file shorter.disk seg.path)) _
                (removed-Keeps t shorter (next ∷ segments) (files.remove_file shorter.disk seg.path)
                  refl (log', sym ends ∙ new_eq, head_eq))
                (λ s1 _ h1. reclaim_segments-Keeps t (next ∷ segments) s1 true h1.1 h1.0))
      ]

  reclaim-Keeps :
      (s : Store D)
      → IsLog s
      → Ensures {F = Error E}
          (Keeps s)
          (Keeps s)
          (reclaim files crc from_slice to_vec view_version absent s)
  unfolding reclaim
  reclaim-Keeps s h =
      Ensures-and_then (Keeps s) (Keeps s) (Keeps s)
        (reclaim_segments files crc from_slice to_vec view_version absent s.segments s false) _
        (reclaim_segments-Keeps s s.segments s false refl (h, refl, refl))
        (λ s1 removed h1. synced s1 removed h1)
    where
      synced :
          (s1 : Store D) (removed : Bool)
          → Keeps s s1
          → Ensures {F = Error E}
              (Keeps s)
              (Keeps s)
              (if removed then call s1 (files.sync_dir s1.disk) else (s1, ok tt))
      synced s1 false h1 = h1
      synced s1 true h1 =
          Ensures-map (λ s'. Keeps s s' × (s'.segments ≡ s1.segments)) (Keeps s) (Keeps s) (Keeps s)
            (call s1 (files.sync_dir s1.disk)) (λ s' both. both.0) (λ s' kept. kept)
            (removed-Keeps s s1 s1.segments (files.sync_dir s1.disk) refl h1)

  sync-Same :
      (s : Store D)
      → Ensures {F = Error E}
          (Same s)
          (Same s)
          (sync files crc from_slice to_vec view_version absent s)
  unfolding sync
  sync-Same s = by_file s.active (last_segment s.segments)
    where
      by_file :
          (file : Option (List ℕ)) (seg : Option Segment)
          → Ensures {F = Error E} {A = Unit {0}} (Same s) (Same s) (elim file [
            | none ↦ (s, ok tt)
            | some f ↦ elim seg [
              | none ↦ (s, ok tt)
              | some last ↦ call s (files.fdatasync s.disk f)
            ]
          ])
      by_file none seg = Same-refl s
      by_file (some f) none = Same-refl s
      by_file (some f) (some last) = call-Same s s (files.fdatasync s.disk f) (Same-refl s)

  publish-Same :
      (t s : Store D) (json : List ℕ)
      → Same t s
      → Ensures {F = Error E}
          (Same t)
          (Same t)
          (publish files crc from_slice to_vec view_version absent s json)
  unfolding publish
  publish-Same t s json h =
      let step = Ensures-and_then {D = D} {F = Error E} (Same t) (Same t) (Same t) in
      step (call s (files.write_new s.disk header_tmp (header_bytes crc json))) _
        (call-Same t s (files.write_new s.disk header_tmp (header_bytes crc json)) h)
        (λ s1 _ h1.
          step (call s1 (files.fsync s1.disk header_tmp)) _
            (call-Same t s1 (files.fsync s1.disk header_tmp) h1)
            (λ s2 _ h2.
              step (call s2 (files.rename_at s2.disk header_tmp header_name)) _
                (call-Same t s2 (files.rename_at s2.disk header_tmp header_name) h2)
                (λ s3 _ h3. call-Same t s3 (files.sync_dir s3.disk) h3)))

  -- The header moves up to a version that the segments hold.
  headed-IsLog :
      (s : Store D) (v : ℕ)
      → IsLog s
      → s.header_version ≤ v
      → v ≤ newest s
      → (s2 : Store D) → Same s s2
      → IsLog (record s2 { header_version = v })
        × (newest (record s2 { header_version = v }) ≡ newest s)
  headed-IsLog s v h from to s2 same =
      let ends : end_of v s.segments ≡ newest s = by_segments s.segments to in
      let ends2 : end_of v s2.segments ≡ newest s =
        ap (λ segs. end_of v segs) same.segments_eq ∙ ends in
      (
        record {
          base = h.base;
          base_le = omega (arith, h.base_le);
          follows = subst (Follows h.base) (sym same.segments_eq) h.follows;
          header_le = omega (arith, ends2);
          small = omega (arith, ends2, h.small);
        },
        ends2,
      )
    where
      by_segments :
          (segs : List Segment)
          → v ≤ end_of s.header_version segs
          → end_of v segs ≡ end_of s.header_version segs
      by_segments [] le = omega arith
      by_segments (seg ∷ segs) le = refl

  abbrev Published : Store D → V → Store D → Type 0
  Published s view s' = IsLog s' × (newest s' ≡ newest s) × (s'.header_version ≡ view_version view)

  abbrev Stands : Store D → Store D → Type 0
  Stands s s' = IsLog s' × (newest s' ≡ newest s)

  write_json-IsLog :
      (s s1 : Store D) (view : V)
      → IsLog s
      → s.header_version ≤ view_version view
      → view_version view ≤ newest s
      → Same s s1
      → (json : Option (List ℕ))
      → Ensures {F = Error E}
          (Published s view)
          (Stands s)
          (write_json files crc from_slice to_vec view_version absent s1 view json)
  unfolding write_json
  write_json-IsLog s s1 view h from to h1 none = Same-IsLog s s1 h1 h
  write_json-IsLog s s1 view h from to h1 (some json) =
      Ensures-and_then (Same s) (Published s view) (Stands s)
        (publish files crc from_slice to_vec view_version absent s1 json) _
        (Ensures-map (Same s) (Same s) (Same s) (Stands s)
          (publish files crc from_slice to_vec view_version absent s1 json) (λ s' same. same)
          (λ s' same. Same-IsLog s s' same h) (publish-Same s s1 json h1))
        (λ s2 _ h2.
          let headed : Store D = record s2 { header_version = view_version view } in
          let (log, new_eq) = headed-IsLog s (view_version view) h from to s2 h2 in
          Ensures-map (Keeps headed) (Published s view) (Keeps headed) (Stands s)
            (reclaim files crc from_slice to_vec view_version absent headed)
            (λ s' kept. (kept.0, kept.1 ∙ new_eq, kept.2)) (λ s' kept. (kept.0, kept.1 ∙ new_eq))
            (reclaim-Keeps headed log))

  -- A checkpoint of a version between the header's and the newest, whatever the file system does: it
  -- leaves the versions in sequence and the newest as it is, so no version above the header's is
  -- reclaimed; and where it succeeds, the header's version is the view's.
  pub write_header-IsLog :
      (s : Store D) (view : V)
      → IsLog s
      → s.header_version ≤ view_version view
      → view_version view ≤ newest s
      → Ensures {F = Error E}
          (λ s'. IsLog s' × (newest s' ≡ newest s) × (s'.header_version ≡ view_version view))
          (λ s'. IsLog s' × (newest s' ≡ newest s))
          (write_header files crc from_slice to_vec view_version absent s view)
  unfolding write_header
  write_header-IsLog s view h from to =
      Ensures-and_then (Same s) (Published s view) (Stands s)
        (sync files crc from_slice to_vec view_version absent s) _
        (Ensures-map (Same s) (Same s) (Same s) (Stands s)
          (sync files crc from_slice to_vec view_version absent s) (λ s' same. same)
          (λ s' same. Same-IsLog s s' same h) (sync-Same s))
        (λ s1 _ h1.
          write_json-IsLog s s1 view h from to h1
            (to_vec (record { version = view_version view; view = view })))
