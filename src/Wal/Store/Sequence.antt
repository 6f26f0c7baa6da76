-- ===== src/Wal/Store/Sequence.antt =====
-- lib.rs: the segments of a store hold one sequence of versions.
use lug.Prelude.{
  ℕ, ◌+◌, ◌≤◌, ◌<◌, ◌≡◌, refl, ap, ◌∙◌, none, some, List, [], ◌∷◌, ◌++◌, last_or, arith,
  some-injective, none_ne_some, u64_mod,
}
use lug.Wal.Segment.{Segment}
use lug.Wal.Store.{Store, last_segment, last_version, set_last}
use lug.Wal.Store.Keeps.{Same, new_segment, Rotated}

-- Each segment starts behind the one before it, the first behind version `v`.
abbrev pub Follows : ℕ → List Segment → Type 0
Follows v [] = Unit
Follows v (seg ∷ segments) =
    (seg.first ≡ v + 1) × (seg.first ≤ seg.last + 1) × Follows seg.last segments

abbrev pub end_of : ℕ → List Segment → ℕ
end_of v [] = v
end_of v (seg ∷ segments) = end_of seg.last segments

-- The segments hold one sequence of versions, from no later than the version after the header's up to
-- one that is not below the header's and has a successor.
pub record IsLog {D : Type 0} (s : Store D) : Type 0 where
  pub base : ℕ
  pub base_le : base ≤ s.header_version
  pub follows : Follows base s.segments
  pub header_le : s.header_version ≤ end_of s.header_version s.segments
  pub small : end_of s.header_version s.segments + 1 < u64_mod

pub last_version-end_of :
    {D : Type 0} → (s : Store D) → last_version s ≡ end_of s.header_version s.segments
last_version-end_of s = by_segments s.header_version s.segments
  where
    last_or-end_of :
        (v : ℕ) (seg : Segment) (segments : List Segment)
        → (last_or seg segments).last ≡ end_of v (seg ∷ segments)
    last_or-end_of v seg [] = refl
    last_or-end_of v seg (next ∷ segments) = last_or-end_of seg.last next segments

    by_segments :
        (v : ℕ) (segments : List Segment)
        → elim (last_segment segments) as (λ o. ℕ) [ none ↦ v | some seg ↦ seg.last ]
          ≡ end_of v segments
    by_segments v [] = refl
    by_segments v (seg ∷ segments) = last_or-end_of v seg segments

Follows-snoc :
    (v : ℕ) (segments : List Segment) (new : Segment)
    → Follows v segments
    → new.first ≡ end_of v segments + 1
    → new.first ≤ new.last + 1
    → Follows v (segments ++ new ∷ [])
Follows-snoc v [] new h e room = (e, room, tt)
Follows-snoc v (seg ∷ segments) new h e room =
    (h.0, h.1, Follows-snoc seg.last segments new h.2 e room)

end_of-snoc :
    (v : ℕ) (segments : List Segment) (new : Segment) → end_of v (segments ++ new ∷ []) ≡ new.last
end_of-snoc v [] new = refl
end_of-snoc v (seg ∷ segments) new = end_of-snoc seg.last segments new

end_of-set_last :
    (v : ℕ) (segments : List Segment) (seg new : Segment)
    → last_segment segments ≡ some seg
    → end_of v (set_last new segments) ≡ new.last
end_of-set_last v [] seg new h = absurd (none_ne_some h)
end_of-set_last v (one ∷ []) seg new h = refl
end_of-set_last v (one ∷ next ∷ segments) seg new h =
    end_of-set_last one.last (next ∷ segments) seg new h

Follows-set_last :
    (v : ℕ) (segments : List Segment) (seg new : Segment)
    → last_segment segments ≡ some seg
    → new.first ≡ seg.first
    → seg.last ≤ new.last
    → Follows v segments
    → Follows v (set_last new segments)
Follows-set_last v [] seg new h e up fs = tt
Follows-set_last v (one ∷ []) seg new h e up fs =
    let same : one ≡ seg = some-injective h in
    let first_eq : one.first ≡ seg.first = ap (λ (x : Segment). x.first) same in
    let last_eq : one.last ≡ seg.last = ap (λ (x : Segment). x.last) same in
    (omega (arith, fs.0), omega (arith, fs.1), tt)
Follows-set_last v (one ∷ next ∷ segments) seg new h e up fs =
    (fs.0, fs.1, Follows-set_last one.last (next ∷ segments) seg new h e up fs.2)

last_segment-end_of :
    (v : ℕ) (segments : List Segment) (seg : Segment)
    → last_segment segments ≡ some seg
    → end_of v segments ≡ seg.last
last_segment-end_of v [] seg h = absurd (none_ne_some h)
last_segment-end_of v (one ∷ []) seg h = ap (λ (x : Segment). x.last) (some-injective h)
last_segment-end_of v (one ∷ next ∷ segments) seg h =
    last_segment-end_of one.last (next ∷ segments) seg h

last_segment-snoc :
    (segments : List Segment) (new : Segment) → last_segment (segments ++ new ∷ []) ≡ some new
last_segment-snoc [] new = refl
last_segment-snoc (one ∷ []) new = refl
last_segment-snoc (one ∷ next ∷ segments) new = last_segment-snoc (next ∷ segments) new

abbrev pub newest : {D : Type 0} → Store D → ℕ
newest s = end_of s.header_version s.segments

-- A store of which another knows the same records.
pub Same-IsLog :
    {D : Type 0} → (s s' : Store D) → Same s s' → IsLog s → IsLog s' × (newest s' ≡ newest s)
Same-IsLog s s' same h =
    let segs = same.segments_eq in
    let head = same.header_eq in
    (
      record {
        base = h.base;
        base_le = rw head h.base_le;
        follows = rw segs h.follows;
        header_le = rw (segs, head) h.header_le;
        small = rw (segs, head) h.small;
      },
      rw (segs, head) refl,
    )

-- The base may be chosen so that the versions end where they end behind `h`.
rebase :
    (b h : ℕ) (segments : List Segment)
    → b ≤ h
    → Follows b segments
    → (b' : ℕ) × (b' ≤ h) × Follows b' segments × (end_of b' segments ≡ end_of h segments)
rebase b h [] le fs = (h, omega arith, tt, refl)
rebase b h (seg ∷ segments) le fs = (b, le, fs, refl)

-- A rotation to the version that is next adds no version.
pub Rotated-IsLog :
    {D : Type 0}
    → (s : Store D) (first : ℕ) → first ≡ newest s + 1
    → IsLog s
    → (s' : Store D) → Rotated s first s'
    → IsLog s' × (newest s' ≡ newest s)
Rotated-IsLog s first next h s' r =
    let (b, le, fs, end_b) = rebase h.base s.header_version s.segments h.base_le h.follows in
    let chain : Follows b (s.segments ++ new_segment first ∷ []) =
      Follows-snoc b s.segments (new_segment first) fs (omega (arith, end_b)) (omega arith) in
    let fin : end_of s.header_version (s.segments ++ new_segment first ∷ []) ≡ newest s =
      end_of-snoc s.header_version s.segments (new_segment first) ∙ omega arith in
    let segs = r.segments_eq in
    let head = r.header_eq in
    (
      record {
        base = b;
        base_le = rw head le;
        follows = rw segs chain;
        header_le = rw (segs, head) (rw fin h.header_le);
        small = rw (segs, head) (rw fin h.small);
      },
      rw (segs, head) fin,
    )

-- The last segment has grown by records up to version `v`.
pub record Grown {D : Type 0} (s : Store D) (v : ℕ) (s' : Store D) : Type 0 where
  pub seg : Segment
  pub new : Segment
  pub last_eq : last_segment s.segments ≡ some seg
  pub first_eq : new.first ≡ seg.first
  pub new_last : new.last ≡ v
  pub segments_eq : s'.segments ≡ set_last new s.segments
  pub header_eq : s'.header_version ≡ s.header_version

pub Grown-IsLog :
    {D : Type 0}
    → (s : Store D) (v : ℕ) → newest s ≤ v
    → v + 1 < u64_mod
    → IsLog s
    → (s' : Store D) → Grown s v s'
    → IsLog s' × (newest s' ≡ v)
Grown-IsLog s v up small h s' g =
    let old : newest s ≡ g.seg.last =
      last_segment-end_of s.header_version s.segments g.seg g.last_eq in
    let fin : end_of s.header_version (set_last g.new s.segments) ≡ v =
      end_of-set_last s.header_version s.segments g.seg g.new g.last_eq ∙ g.new_last in
    let chain : Follows h.base (set_last g.new s.segments) =
      Follows-set_last h.base s.segments g.seg g.new g.last_eq g.first_eq
        (omega (arith, old, g.new_last)) h.follows in
    let segs = g.segments_eq in
    let head = g.header_eq in
    (
      record {
        base = h.base;
        base_le = rw head h.base_le;
        follows = rw segs chain;
        header_le = rw (segs, head) (rw fin (omega (arith, h.header_le)));
        small = rw (segs, head) (rw fin small);
      },
      rw (segs, head) fin,
    )
