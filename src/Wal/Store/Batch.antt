-- ===== src/Wal/Store/Batch.antt =====
-- lib.rs: the loop of `append` over its batch.
use lug.Prelude.{
  checked_suc-eq-some, ℕ, suc, ◌+◌, ◌≤◌, ◌<◌, ◌≡◌, subst, false, inl, inr, Option-cases, List, [],
  ◌∷◌, length, last_or, is_empty, ltb, ◌==◌, ==_iff, ltb_false→le, Bool-cases, arith, checked_suc,
  ok, ok-ne-err, u64_mod,
}
use lug.Core.Storage.{Record}
use lug.Wal.Format.{max_payload}
use lug.Wal.Store.Append.{check_batch}

-- A batch that may be appended where version `v` is next.
abbrev pub Batch : ℕ → List (Record (List ℕ)) → Type 0
Batch v [] = Unit
Batch v (rec ∷ records) =
    (rec.version ≡ v)
    × (1 ≤ length rec.patch)
    × (length rec.patch ≤ max_payload)
    × Batch (suc v) records

pub last_or-Batch :
    (v : ℕ) (rec : Record (List ℕ)) (records : List (Record (List ℕ)))
    → Batch v (rec ∷ records)
    → (last_or rec records).version ≡ v + length records
last_or-Batch v rec [] h = omega (arith, h.0)
last_or-Batch v rec (next ∷ records) h = omega (arith, last_or-Batch (suc v) next records h.3)

filled : {A : Type 0} → (xs : List A) → is_empty xs ≡ false → 1 ≤ length xs
filled [] h = cc
filled (x ∷ xs) h = omega arith

pub check_batch-Batch :
    {E : Type 0}
    → (v : ℕ) (records : List (Record (List ℕ))) → v < u64_mod
    → check_batch {E = E} v records ≡ ok tt
    → Batch v records × (v + length records < u64_mod)
unfolding check_batch
check_batch-Batch {E} v [] small h = (tt, omega arith)
check_batch-Batch {E} v (rec ∷ records) small h = elim (Bool-cases (rec.version == v)) [
  | inr e ↦ absurd (ok-ne-err (rw (e, check_batch) at h))
  | inl e ↦ elim (Bool-cases (is_empty rec.patch)) [
    | inl none_ ↦ absurd (ok-ne-err (rw (e, none_, check_batch) at h))
    | inr some_ ↦ elim (Bool-cases (ltb max_payload (length rec.patch))) [
      | inl big ↦ absurd (ok-ne-err (rw (e, some_, big, check_batch) at h))
      | inr fits ↦ elim (Option-cases (checked_suc v)) [
        | inl top ↦ absurd (ok-ne-err (rw (e, some_, fits, top, check_batch) at h))
        | inr (next, up) ↦
            let (is_suc, below) = checked_suc-eq-some v next up in
            let rest : Batch (suc v) records × (suc v + length records < u64_mod) =
              check_batch-Batch (suc v) records below (
                subst (λ n. check_batch {E = E} n records ≡ ok tt) is_suc
                  (rw (e, some_, fits, up, check_batch) at h)) in
            (
              ((==_iff _ _).0 e, filled rec.patch some_, ltb_false→le _ _ fits, rest.0),
              omega (arith, rest.1),
            )
      ]
    ]
  ]
]
