-- ===== src/Server/Stream/Credit.antt =====
-- stream.rs: a stream pushes no more records than it has been granted.
use lug.Prelude.{
  length-map, ℕ, ◌+◌, ◌-◌, ◌≤◌, ◌≡◌, refl, ap, Bool, true, false, inl, inr, List, [], ◌∷◌, ◌++◌,
  length, All, leb, leb_false→lt, Bool-cases, min, max, arith, Result, ok, err,
}
use lug.Proto.{Mode, Response, Code}
use lug.Server.Actor.{CatchUp, caught}
use lug.Server.Ring.{Entry, Ring, Read, too_old}
use lug.Server.Ring.Reads.{read_after_limit}
use lug.Server.Ring
use lug.Server.Stream.{
  Stream, Serving, Round, Turn, park, send, leave, pushed_record, push_entries, from_storage,
  from_ring, turn, loop, serve, run,
}

module _ {N J : Type 0} where
  -- The records in a frame, and in frames.
  abbrev pub carried : Response N J → ℕ
  carried (Response.records id batch) = length batch
  carried _ = 0

  abbrev pub carried_all : List (Response N J) → ℕ
  carried_all [] = 0
  carried_all (f ∷ frames) = carried f + carried_all frames

-- A round within the credit `g`, whose actor keeps to the limit that it is asked for.
pub record IsLimited {J : Type 0} (g : ℕ) (w : Round J) : Type 0 where
  pub granted_le : w.granted ≤ g
  pub served_le :
      (after limit : ℕ) (out : List (Entry J))
      → w.catch_up after limit ≡ ok (caught out)
      → length out ≤ limit

module _ (N : Type 0) {J : Type 0} (s : Stream) (g : ℕ) where
  -- What a turn sends is within the credit.
  abbrev Fits : ℕ → Turn N J → Type 0
  Fits used (park wait) = Unit
  Fits used (leave frame) = carried frame ≡ 0
  Fits used (send frame next) = (used + carried frame ≡ next.used) × (next.used ≤ g)

  push_entries-Fits :
      (at : Serving) (e : Entry J) (es : List (Entry J))
      → at.used + length (e ∷ es) ≤ g
      → Fits at.used (push_entries s at e es)
  unfolding push_entries
  push_entries-Fits at e es h = (ap (λ n. at.used + n) (length-map pushed_record (e ∷ es)), h)

  from_storage-Fits :
      (w : Round J) (at : Serving) (allowance : ℕ)
      → IsLimited g w
      → at.used + max allowance 1 ≤ g
      → Fits at.used (from_storage s w at allowance)
  unfolding from_storage
  from_storage-Fits w at allowance h room = by_answer (w.catch_up at.cursor (max allowance 1)) refl
    where
      by_answer :
          (answer : Result Code (CatchUp J))
          → w.catch_up at.cursor (max allowance 1) ≡ answer
          → Fits at.used (from_storage s w at allowance)
      by_answer (err code) e = rw (e, from_storage) refl
      by_answer (ok (CatchUp.gap to)) e = rw (e, from_storage) (omega arith, omega arith)
      by_answer (ok (caught [])) e = rw (e, from_storage) tt
      by_answer (ok (caught (x ∷ xs))) e =
          rw (e, from_storage)
            (push_entries-Fits at x xs
              (omega (arith, h.served_le at.cursor (max allowance 1) (x ∷ xs) e)))

  by_ring :
      (w : Round J) (at : Serving)
      → IsLimited g w
      → (allowance : ℕ) → at.used + max allowance 1 ≤ g
      → at.used + allowance ≤ g
      → Fits at.used (from_ring s w at allowance)
  unfolding from_ring
  by_ring w at h allowance room room' =
      by_read (Ring.read_after w.ring at.cursor allowance s.limits.push_bytes) refl
    where
      by_read :
          (found : Read J)
          → Ring.read_after w.ring at.cursor allowance s.limits.push_bytes ≡ found
          → Fits at.used (from_ring s w at allowance)
      by_read too_old e = rw (e, from_ring) (from_storage-Fits w at allowance h room)
      by_read (Read.records []) e = rw (e, from_ring) (from_storage-Fits w at allowance h room)
      by_read (Read.records (x ∷ xs)) e =
          rw (e, from_ring)
            (push_entries-Fits at x xs (
              omega (
                arith,
                read_after_limit w.ring at.cursor allowance s.limits.push_bytes (x ∷ xs) e,
              )))

  turn-Fits : (w : Round J) (at : Serving) → IsLimited g w → Fits at.used (turn s w at)
  unfolding turn
  turn-Fits w at h = elim (Bool-cases (leb w.granted at.used)) [
    | inl spent ↦ rw spent tt
    | inr some_left ↦ elim (Bool-cases (leb w.watermark at.cursor)) [
      | inl caught_up ↦ rw (some_left, caught_up) tt
      | inr behind ↦
          let allowance = min (w.granted - at.used) s.limits.push in
          let left : at.used + 1 ≤ w.granted = omega (arith, leb_false→lt _ _ some_left) in
          let room : at.used + max allowance 1 ≤ g = omega (arith, h.granted_le) in
          rw (some_left, behind) (by_ring w at h allowance room (omega (arith, h.granted_le)))
    ]
  ]

  -- However the rounds go: as long as no round grants more than `g`, what the loop has pushed and
  -- what it pushes from then on are at most `g` records.
  pub loop_credit :
      (rounds : List (Round J)) (at : Serving)
      → All (IsLimited g) rounds
      → at.used ≤ g
      → at.used + carried_all {N = N} {J = J} (loop s rounds at) ≤ g
  unfolding loop
  loop_credit [] at h le = omega arith
  loop_credit (w ∷ rounds) at (h, hs) le =
      by_turn (λ next. loop_credit rounds next hs) (turn s w at) refl (turn-Fits w at h)
    where
      by_turn :
          ((next : Serving)
            → next.used ≤ g
            → next.used + carried_all {N = N} {J = J} (loop s rounds next) ≤ g)
          → (t : Turn N J) → turn s w at ≡ t
          → Fits at.used t
          → at.used + carried_all {N = N} {J = J} (loop s (w ∷ rounds) at) ≤ g
      by_turn again (park wait) e fits =
          rw (e, loop)
            (elim (Bool-cases w.open_) [ inl o ↦ rw o (again at le) | inr o ↦ rw o (omega arith) ])
      by_turn again (leave frame) e fits = rw (e, loop) (omega (arith, fits))
      by_turn again (send frame next) e fits =
          rw (e, loop)
            (elim (Bool-cases w.open_) [
              | inl o ↦ rw o (omega (arith, fits, again next (fits.1)))
              | inr o ↦ rw o (omega (arith, fits))
            ])

  carried_all-append :
      (xs ys : List (Response N J)) → carried_all (xs ++ ys) ≡ carried_all xs + carried_all ys
  carried_all-append [] ys = omega arith
  carried_all-append (x ∷ xs) ys = omega (arith, carried_all-append xs ys)

  serve_credit :
      (viewed : Result Code (ℕ × J)) (open_ : Bool) (rounds : List (Round J))
      → All (IsLimited g) rounds
      → carried_all {N = N} {J = J} (serve s viewed open_ rounds) ≤ g
  unfolding serve
  serve_credit viewed open_ rounds h = by_mode s.mode refl viewed open_
    where
      by_mode :
          (m : Mode)
          → s.mode ≡ m
          → (viewed' : Result Code (ℕ × J)) (open' : Bool)
          → carried_all {N = N} {J = J} (serve s viewed' open' rounds) ≤ g
      by_mode Mode.records e viewed' open' =
          rw (e, serve)
            (omega
              (arith, loop_credit rounds (record { cursor = s.from; used = 0 }) h (omega arith)))
      by_mode Mode.reducible e (err code) open' = rw (e, serve) (omega arith)
      by_mode Mode.reducible e (ok (version, value)) false = rw (e, serve) (omega arith)
      by_mode Mode.reducible e (ok (version, value)) true =
          rw (e, serve)
            (omega (
              arith,
              loop_credit rounds (record { cursor = max s.from version; used = 0 }) h (omega arith),
            ))

  -- A stream never gives its connection more records than it has been granted: as long as no round
  -- finds a credit above `g` and the actor keeps to the limits that it is asked for, the frames of
  -- the whole task carry at most `g` records.
  pub run_credit :
      (viewed : Result Code (ℕ × J)) (open_ : Bool) (rounds : List (Round J))
      → All (IsLimited g) rounds
      → carried_all {N = N} {J = J} (run s viewed open_ rounds) ≤ g
  unfolding run
  run_credit viewed open_ rounds h = omega (
    arith,
    carried_all-append (serve s viewed open_ rounds) (Response.end s.id ∷ []),
    serve_credit viewed open_ rounds h,
  )
