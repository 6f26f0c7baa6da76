-- ===== src/Server/Stream/Order.antt =====
-- stream.rs: what a stream pushes is an unbroken chain of versions.
use lug.Prelude.{
  length-map, ◌++◌, ℕ, suc, ◌+◌, ◌-◌, ◌≤◌, ◌<◌, ◌≡◌, refl, subst, Bool, true, false, inl, inr, List,
  [], ◌∷◌, map, length, last_or, All, leb, leb_false→lt, Bool-cases, min, max, arith, u64_mod,
  Result, ok, err,
}
use lug.Proto.{Mode, Record, Response, Code}
use lug.Server.Actor.{CatchUp, caught}
use lug.Server.Ring.{Entry, Read, too_old, read_after}
use lug.Server.Ring.Reads.{Run, read_after_consecutive}
use lug.Server.Stream.{
  Stream, Serving, Round, Turn, park, send, leave, pushed_record, push_entries, from_storage,
  from_ring, turn, loop, serve, run,
}

module _ {J : Type 0} where
  -- Consecutive records from version `v` on.
  abbrev pub Consecutive : ℕ → List (Record J) → Type 0
  Consecutive v [] = Unit
  Consecutive v (rec ∷ batch) = (rec.version ≡ v) × Consecutive (suc v) batch

module _ {N J : Type 0} where
  -- Frames that take a reader from version `v` on without a hole: a batch starts behind what came
  -- before, a gap is announced from there and leads ahead, and a view may lead ahead.
  abbrev pub Chain : ℕ → List (Response N J) → Type 0
  Chain v [] = Unit
  Chain v (Response.records id batch ∷ frames) =
      (1 ≤ length batch) × Consecutive (suc v) batch × Chain (v + length batch) frames
  Chain v (Response.gap id from to ∷ frames) = (from ≡ v) × (v < to) × Chain to frames
  Chain v (Response.view id version value ∷ frames) = Chain (max v version) frames
  Chain v (f ∷ frames) = Chain v frames

-- A round whose ring holds consecutive versions, and whose actor serves what follows the cursor, or
-- a gap that leads ahead.
pub record IsHonest {J : Type 0} (w : Round J) : Type 0 where
  pub marked : w.watermark < u64_mod
  pub ring_run :
      (front : Entry J) (es : List (Entry J))
      → w.ring.entries ≡ front ∷ es
      → Run front.version (front ∷ es)
  pub served_run :
      (after limit : ℕ) (out : List (Entry J))
      → w.catch_up after limit ≡ ok (caught out)
      → Run (suc after) out
  pub gap_ahead : (after limit to : ℕ) → w.catch_up after limit ≡ ok (CatchUp.gap to) → after < to

module _ {J : Type 0} where
  map-Consecutive : (v : ℕ) (es : List (Entry J)) → Run v es → Consecutive v (map pushed_record es)
  map-Consecutive v [] h = tt
  map-Consecutive v (e ∷ es) h = (h.0, map-Consecutive (suc v) es h.1)

  last_or-Run :
      (v : ℕ) (e : Entry J) (es : List (Entry J))
      → Run v (e ∷ es)
      → (last_or e es).version ≡ v + length es
  last_or-Run v e [] h = omega (arith, h.0)
  last_or-Run v e (f ∷ es) h = omega (arith, last_or-Run (suc v) f es h.1)

module _ (N : Type 0) {J : Type 0} (s : Stream) where
  -- What a turn sends leads from its cursor to the next.
  abbrev Leads : ℕ → Turn N J → Type 0
  Leads v (park wait) = Unit
  Leads v (leave frame) = Chain v (frame ∷ [])
  Leads v (send frame next) =
      (frames : List (Response N J)) → Chain next.cursor frames → Chain v (frame ∷ frames)

  push_entries-Leads :
      (at : Serving) (e : Entry J) (es : List (Entry J))
      → Run (suc at.cursor) (e ∷ es)
      → Leads at.cursor (push_entries s at e es)
  unfolding push_entries
  push_entries-Leads at e es h = λ frames chain.
      let next : (last_or e es).version ≡ at.cursor + length (map pushed_record (e ∷ es)) =
        omega (arith, last_or-Run (suc at.cursor) e es h, length-map pushed_record es) in
      (
        omega arith,
        map-Consecutive (suc at.cursor) (e ∷ es) h,
        subst (λ v. Chain v frames) next chain,
      )

  from_storage-Leads :
      (w : Round J) (at : Serving) (allowance : ℕ)
      → IsHonest w
      → Leads at.cursor (from_storage s w at allowance)
  unfolding from_storage
  from_storage-Leads w at allowance h = by_answer (w.catch_up at.cursor (max allowance 1)) refl
    where
      by_answer :
          (answer : Result Code (CatchUp J))
          → w.catch_up at.cursor (max allowance 1) ≡ answer
          → Leads at.cursor (from_storage s w at allowance)
      by_answer (err code) e = rw (e, from_storage) tt
      by_answer (ok (CatchUp.gap to)) e =
          rw (e, from_storage)
            (λ frames chain. (refl, h.gap_ahead at.cursor (max allowance 1) to e, chain))
      by_answer (ok (caught [])) e = rw (e, from_storage) tt
      by_answer (ok (caught (x ∷ xs))) e =
          rw (e, from_storage)
            (push_entries-Leads at x xs (h.served_run at.cursor (max allowance 1) (x ∷ xs) e))

  by_ring-Leads :
      (w : Round J) (at : Serving) (allowance : ℕ)
      → IsHonest w
      → at.cursor + 1 < u64_mod
      → Leads at.cursor (from_ring s w at allowance)
  unfolding from_ring
  by_ring-Leads w at allowance h small =
      by_read (read_after w.ring at.cursor allowance s.limits.push_bytes) refl
    where
      by_read :
          (found : Read J)
          → read_after w.ring at.cursor allowance s.limits.push_bytes ≡ found
          → Leads at.cursor (from_ring s w at allowance)
      by_read too_old e = rw (e, from_ring) (from_storage-Leads w at allowance h)
      by_read (Read.records []) e = rw (e, from_ring) (from_storage-Leads w at allowance h)
      by_read (Read.records (x ∷ xs)) e =
          rw (e, from_ring)
            (push_entries-Leads at x xs (
              read_after_consecutive w.ring at.cursor allowance s.limits.push_bytes (x ∷ xs)
                h.ring_run small e))

  turn-Leads : (w : Round J) (at : Serving) → IsHonest w → Leads at.cursor (turn s w at)
  unfolding turn
  turn-Leads w at h = elim (Bool-cases (leb w.granted at.used)) [
    | inl spent ↦ rw spent tt
    | inr some_left ↦ elim (Bool-cases (leb w.watermark at.cursor)) [
      | inl caught_up ↦ rw (some_left, caught_up) tt
      | inr behind ↦
          rw (some_left, behind)
            (by_ring-Leads w at (min (w.granted - at.used) s.limits.push) h
              (omega (arith, h.marked, leb_false→lt _ _ behind)))
    ]
  ]

  loop-Chain :
      (rounds : List (Round J)) (at : Serving)
      → All IsHonest rounds
      → Chain {N = N} at.cursor (loop s rounds at)
  unfolding loop
  loop-Chain [] at h = tt
  loop-Chain (w ∷ rounds) at (h, hs) =
      by_turn (λ next. loop-Chain rounds next hs) (turn s w at) refl (turn-Leads w at h)
    where
      by_turn :
          ((next : Serving) → Chain {N = N} next.cursor (loop s rounds next))
          → (t : Turn N J) → turn s w at ≡ t
          → Leads at.cursor t
          → Chain {N = N} at.cursor (loop s (w ∷ rounds) at)
      by_turn again (park wait) e leads =
          rw (e, loop) (elim (Bool-cases w.open_) [ inl o ↦ rw o (again at) | inr o ↦ rw o tt ])
      by_turn again (leave frame) e leads = rw (e, loop) leads
      by_turn again (send frame next) e leads =
          rw (e, loop)
            (elim (Bool-cases w.open_) [
              | inl o ↦ rw o (leads (loop s rounds next) (again next))
              | inr o ↦ rw o (leads [] tt)
            ])

  Chain-append :
      (v : ℕ) (frames : List (Response N J)) (f : Response N J)
      → ((u : ℕ) → Chain u (f ∷ []))
      → Chain v frames
      → Chain v (frames ++ f ∷ [])
  Chain-append v [] f last h = last v
  Chain-append v (Response.records id batch ∷ frames) f last h =
      (h.0, h.1, Chain-append (v + length batch) frames f last h.2)
  Chain-append v (Response.gap id from to ∷ frames) f last h =
      (h.0, h.1, Chain-append to frames f last h.2)
  Chain-append v (Response.view id version value ∷ frames) f last h =
      Chain-append (max v version) frames f last h
  Chain-append v (Response.welcome id version max_frame session ∷ frames) f last h =
      Chain-append v frames f last h
  Chain-append v (Response.ack id versions synced ∷ frames) f last h =
      Chain-append v frames f last h
  Chain-append v (Response.logs id infos ∷ frames) f last h = Chain-append v frames f last h
  Chain-append v (Response.accepted id ∷ frames) f last h = Chain-append v frames f last h
  Chain-append v (Response.end id ∷ frames) f last h = Chain-append v frames f last h
  Chain-append v (Response.pong id ∷ frames) f last h = Chain-append v frames f last h
  Chain-append v (Response.error id code ∷ frames) f last h = Chain-append v frames f last h

  serve-Chain :
      (viewed : Result Code (ℕ × J)) (open_ : Bool) (rounds : List (Round J))
      → All IsHonest rounds
      → Chain {N = N} s.from (serve s viewed open_ rounds)
  unfolding serve
  serve-Chain viewed open_ rounds h = by_mode s.mode refl viewed open_
    where
      by_mode :
          (m : Mode)
          → s.mode ≡ m
          → (viewed' : Result Code (ℕ × J)) (open' : Bool)
          → Chain {N = N} s.from (serve s viewed' open' rounds)
      by_mode Mode.records e viewed' open' =
          rw (e, serve) (loop-Chain rounds (record { cursor = s.from; used = 0 }) h)
      by_mode Mode.reducible e (err code) open' = rw (e, serve) tt
      by_mode Mode.reducible e (ok (version, value)) false = rw (e, serve) tt
      by_mode Mode.reducible e (ok (version, value)) true =
          rw (e, serve) (loop-Chain rounds (record { cursor = max s.from version; used = 0 }) h)

  -- A subscriber that follows the frames of a stream from where it subscribed never meets a hole
  -- that is not announced: each batch of records starts at the version behind all that came before
  -- and goes on one by one, and a gap starts where the reader stands and leads ahead. It holds in
  -- every sequence of rounds whose rings hold consecutive versions, and whose actor answers with
  -- consecutive records behind the cursor or a gap that leads ahead.
  pub run-Chain :
      (viewed : Result Code (ℕ × J)) (open_ : Bool) (rounds : List (Round J))
      → All IsHonest rounds
      → Chain {N = N} s.from (run s viewed open_ rounds)
  unfolding run
  run-Chain viewed open_ rounds h =
      Chain-append s.from (serve s viewed open_ rounds) (Response.end s.id) (λ u. tt)
        (serve-Chain viewed open_ rounds h)
