-- ===== src/Server/Stream/FromActor.antt =====
-- actor.rs `catch_up`, as stream.rs relies on it.
use lug.Prelude.{
  ℕ, suc, ◌+◌, ◌-◌, ◌%◌, ◌≤◌, ◌<◌, ◌≡◌, refl, ap, subst, true, false, inl, inr, Option, some,
  Option-cases, List, [], ◌∷◌, length, ltb, leb, ◌==◌, ==_iff, ltb→lt, le→leb, Bool-cases,
  Result-cases, arith, u64_mod, Result, ok, err, some-injective, none_ne_some,
}
use lug.Core.Reducible.{Reducible}
use lug.Core.Storage.{Record, Storage}
use lug.Core.Log.{Codec}
use lug.Core.Log
use lug.Proto.{Code}
use lug.Server.Json.{Json}
use lug.Server.Ring.{Entry}
use lug.Server.Ring.Reads.{Run}
use lug.Server.Actor.{Actor, CatchUp, caught}
use lug.Server.Actor.Queue.{decode_records, caught_up, serve_catch_up}

-- Records of consecutive versions from `v` on.
abbrev pub RunOf : {B : Type 0} → ℕ → List (Record B) → Type 0
RunOf v [] = Unit
RunOf v (rec ∷ records) = (rec.version ≡ v) × RunOf (suc v) records

-- What a storage gives to a read: consecutive records above the version asked for.
abbrev pub Above : {B : Type 0} → ℕ → List (Record B) → Type 0
Above after [] = Unit
Above after (first ∷ records) = (after < first.version) × RunOf first.version (first ∷ records)

beyond : (v after : ℕ) → (v == suc after) ≡ false → after < v → after < v - 1
beyond v after h above = ground (arith, h, above)

module _ {D P V S E W B F N : Type 0} (r : Reducible D P V S E) (w : Storage W V B F)
    (c : Codec P B) (from_value : Json N → Option P) (from_slice : B → Option (Json N))
    (size : B → ℕ) (state : V → Json N) where
  decode_records-Run :
      (v : ℕ) (records : List (Record B)) (out : List (Entry (Json N)))
      → decode_records r w c from_value from_slice size state records ≡ some out
      → RunOf v records
      → Run v out × (length out ≡ length records)
  unfolding decode_records
  decode_records-Run v [] out h run =
      subst (λ xs. Run v xs × (length xs ≡ 0)) (some-injective h) (tt, refl)
  decode_records-Run v (rec ∷ records) out h run = elim (Option-cases (from_slice rec.patch)) [
    | inl e ↦ absurd (none_ne_some (rw (e, decode_records) at h))
    | inr (patch, e) ↦
        elim (Option-cases (decode_records r w c from_value from_slice size state records)) [
          | inl e' ↦ absurd (none_ne_some (rw (e, e', decode_records) at h))
          | inr (entries, e') ↦
              let (rest, len) = decode_records-Run (suc v) records entries e' run.1 in
              subst (λ xs. Run v xs × (length xs ≡ suc (length records)))
                (some-injective (rw (e, e', decode_records) at h)) ((run.0, rest), ap suc len)
        ]
  ]

  -- An answer to a catch-up: consecutive records behind the cursor, within the limit, or a gap ahead.
  abbrev pub Served : ℕ → ℕ → Result Code (CatchUp (Json N)) → Type 0
  Served after limit (err code) = Unit
  Served after limit (ok (caught out)) = Run (suc after) out × (length out ≤ limit)
  Served after limit (ok (CatchUp.gap to)) = after < to

  caught_up-Served :
      (a : Actor D W (Json N)) (after limit : ℕ) (records : List (Record B))
      → after + 1 < u64_mod
      → Above after records
      → length records ≤ limit
      → (records ≡ [] → a.log.watermark ≤ after)
      → Served after limit (caught_up r w c from_value from_slice size state a after records)
  unfolding caught_up
  caught_up-Served a after limit [] small above fits none_left =
      let done : leb a.log.watermark after ≡ true = le→leb _ _ (none_left refl) in
      rw done (tt, omega arith)
  caught_up-Served a after limit (first ∷ records) small above fits none_left =
      let next : (after + 1) % u64_mod ≡ suc after = omega arith in
      elim (Bool-cases (first.version == suc after)) [
        | inr e ↦ rw (next, e) (beyond first.version after e above.0)
        | inl e ↦
            elim (Option-cases
              (decode_records r w c from_value from_slice size state (first ∷ records))) [
                | inl d ↦ rw (next, e, d) tt
                | inr (out, d) ↦
                    let run : RunOf (suc after) (first ∷ records) =
                      subst (λ v. RunOf v (first ∷ records)) ((==_iff _ _).0 e) above.1 in
                    let (served, len) =
                      decode_records-Run (suc after) (first ∷ records) out d run in
                    rw (next, e, d) (served, omega (arith, len, fits))
              ]
      ]

  -- What the actor answers to a catch-up is what a stream relies on: records that start behind the
  -- cursor, go on one by one and keep to the limit, or a gap that leads ahead. It holds where the storage
  -- gives consecutive records above the version asked for, no more than asked, and some unless the
  -- cursor has reached the watermark.
  pub serve_catch_up-Served :
      (a : Actor D W (Json N)) (after limit : ℕ)
      → after + 1 < u64_mod
      → ((records : List (Record B))
          → Log.read_after r w c a.log after limit ≡ ok records
          → Above after records
            × (length records ≤ limit)
            × (records ≡ [] → a.log.watermark ≤ after))
      → Served after limit (serve_catch_up r w c from_value from_slice size state a after limit)
  unfolding serve_catch_up
  serve_catch_up-Served a after limit small reads =
      let next : (after + 1) % u64_mod ≡ after + 1 = omega arith in
      elim (Bool-cases (ltb (after + 1) (Log.oldest r w c a.log))) [
        | inl below ↦ rw (next, below) (omega (arith, ltb→lt _ _ below))
        | inr held ↦ elim (Result-cases (Log.read_after r w c a.log after limit)) [
          | inr (e, bad) ↦ rw (next, held, bad) tt
          | inl (records, read) ↦
              let (above, fits, none_left) = reads records read in
              rw (next, held, read)
                (caught_up-Served a after limit records small above fits none_left)
        ]
      ]
