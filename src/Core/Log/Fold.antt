-- ===== src/Core/Log/Fold.antt =====
-- log.rs, `append`: what its loop over the patches leads to.
use lug.Prelude.{
  ℕ, suc, ◌+◌, ◌≤◌, ◌≡◌, refl, sym, ap, ◌∙◌, inl, inr, subst, Option-cases, none, some, List, [],
  ◌∷◌, ◌++◌, append_assoc, append-nil, length, length-append, last_or, arith, Result-cases,
}
use lug.Core.Reducible.{Reducible, version, Committed-cases, IsLawful}
use lug.Core.Storage.{Record, Storage}
use lug.Core.Log.{Codec, Log, Folded, done, rejected, unencoded, fold}

module _ {B : Type 0} where
  -- The versions are `n`, `n + 1` and so on.
  abbrev pub Numbered : ℕ → List (Record B) → Type 0
  Numbered n [] = Unit
  Numbered n (rec ∷ records) = (rec.version ≡ n) × Numbered (suc n) records

  Numbered-append :
      (n : ℕ) (records : List (Record B)) (rec : Record B)
      → Numbered n records
      → rec.version ≡ n + length records
      → Numbered n (records ++ rec ∷ [])
  Numbered-append n [] rec h e = (omega arith, tt)
  Numbered-append n (x ∷ records) rec h e =
      (h.0, Numbered-append (suc n) records rec h.1 (omega arith))

  pub Numbered-last :
      (n : ℕ) (rec : Record B) (records : List (Record B))
      → Numbered n (rec ∷ records)
      → (last_or rec records).version ≡ n + length records
  Numbered-last n rec [] h = omega arith
  Numbered-last n rec (x ∷ records) h = omega (arith, Numbered-last (suc n) x records h.1)

-- The records are encodings of some of the patches, in their order.
pub data Drawn {P B : Type 0} (c : Codec P B) : List P → List (Record B) → Type 0 where
  nothing : Drawn c [] []
  idle :
      (ps : List P) (records : List (Record B)) (p : P)
      → Drawn c ps records
      → Drawn c (ps ++ p ∷ []) records
  took :
      (ps : List P) (records : List (Record B)) (p : P) (rec : Record B)
      → Drawn c ps records
      → c.encode p ≡ some rec.patch
      → Drawn c (ps ++ p ∷ []) (records ++ rec ∷ [])

module _ {D P V S E W B F : Type 0} (r : Reducible D P V S E) (w : Storage W V B F) (c : Codec P B)
    {Valid : D → Type 0} (lawful : IsLawful r Valid) where
  -- Between two calls, memory sits at the watermark and the sync frontier is not above it.
  pub record IsSound (log : Log D W) : Type 0 where
    pub valid : Valid log.contents
    pub level : version r log.contents ≡ log.watermark
    pub behind : log.synced ≤ log.watermark

  -- A structure that still has the view that it had at `base`, `n` versions later.
  pub record Above (base : ℕ) (v : V) (n : ℕ) (d : D) : Type 0 where
    pub valid : Valid d
    pub kept : r.view_at d base ≡ some v
    pub risen : version r d ≡ base + n

  -- What the loop of `append` over the patches `ps` has reached, from a structure at `base`.
  abbrev pub Good : ℕ → V → List P → Folded D V B E → Type 0
  Good base v ps (done d records views) =
      Above base v (length records) d
      × Numbered (suc base) records
      × Drawn c ps records
      × (length views ≡ length ps)
  Good base v ps (rejected d e) = Valid d × (r.view_at d base ≡ some v)
  Good base v ps (unencoded d) =
      Valid d × (r.view_at d base ≡ some v) × ((p : P) × (c.encode p ≡ none))

  one_more :
      {X : Type 0} (ps : List P) (p : P) (views : List X) (v : X)
      → length views ≡ length ps
      → length (views ++ v ∷ []) ≡ length (ps ++ p ∷ [])
  one_more ps p views v h =
      omega (arith, h, length-append views (v ∷ []), length-append ps (p ∷ []))

  fold-Good :
      (base : ℕ) (v : V) (before : List P) (d : D) (records : List (Record B)) (views : List V)
      (ps : List P)
      → length views ≡ length before
      → Drawn c before records
      → Above base v (length records) d
      → Numbered (suc base) records
      → Good base v (before ++ ps) (fold r w c d records views ps)
  unfolding fold
  fold-Good base v before d records views [] e from h n =
      subst (λ all. Good base v all (done d records views)) (sym (append-nil before))
        (h, n, from, e)
  fold-Good base v before d records views (p ∷ ps) e from h n = elim (Option-cases (c.encode p)) [
    | inl bad ↦ rw (bad, fold) (h.valid, h.kept, (p, bad))
    | inr (encoded, good) ↦ elim (Result-cases (r.stage_patch d (r.stage d) p)) [
      | inr (e, refused) ↦ rw (good, refused, fold) (h.valid, h.kept)
      | inl (staged, accepted) ↦
          let d' = (r.commit d staged).0 in
          let next = lawful.commit-Valid d p staged h.valid accepted in
          let on = append_assoc before (p ∷ []) ps in
          rw (good, accepted, fold)
            (elim (Committed-cases r (lawful.commit-Committed d p staged h.valid accepted)) [
              | inl (e, same, failed) ↦ rw (failed, same) (h.valid, h.kept)
              | inr (inl (same, unchanged)) ↦
                  let still : Above base v (length records) d' =
                    subst (Above base v (length records)) (sym same) h in
                  rw unchanged (
                    subst
                      (λ all. Good base v all (fold r w c d' records (views ++ r.view d' ∷ []) ps))
                      on
                      (fold-Good base v (before ++ p ∷ []) d' records (views ++ r.view d' ∷ []) ps
                        (one_more before p views (r.view d') e) (idle before records p from) still
                        n))
              | inr (inr (u, minted, current, stepped, older)) ↦
                  let rec : Record B = record { version = r.view_version u; patch = encoded } in
                  let up : version r d' ≡ suc (version r d) = ap r.view_version current ∙ stepped in
                  let above : Above base v (length (records ++ rec ∷ [])) d' = record {
                    valid = next;
                    kept = older base (omega (arith, h.risen)) ∙ h.kept;
                    risen = omega (arith, h.risen, length-append records (rec ∷ []));
                  } in
                  rw minted (
                    subst
                      (λ all.
                        Good base v all (fold r w c d' (records ++ rec ∷ []) (views ++ u ∷ []) ps))
                      on
                      (fold-Good base v (before ++ p ∷ []) d' (records ++ rec ∷ [])
                        (views ++ u ∷ []) ps (one_more before p views u e)
                        (took before records p rec from good) above
                        (Numbered-append (suc base) records rec n (omega (arith, h.risen)))))
            ])
    ]
  ]

  pub fold_sound-Good :
      (log : Log D W) (ps : List P)
      → IsSound log
      → Good log.watermark (r.view log.contents) ps (fold r w c log.contents [] [] ps)
  fold_sound-Good log ps h =
      fold-Good log.watermark (r.view log.contents) [] log.contents [] [] ps refl nothing
        (record {
          valid = h.valid;
          kept =
              ap (r.view_at log.contents) (sym h.level)
              ∙ lawful.view_at_current log.contents h.valid;
          risen = omega (arith, h.level);
        })
        tt
