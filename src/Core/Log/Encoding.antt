-- ===== src/Core/Log/Encoding.antt =====
-- log.rs, `append`: what an encoding that fails does to a log.
use lug.Prelude.{
  ◌+◌, ◌≡◌, refl, ◌∙◌, ap, subst, inl, inr, Option-cases, none, List, [], ◌∷◌, ◌++◌, length,
  is_empty, false, err, Result-cases,
}
use lug.Core.Reducible.{Reducible, version, IsLawful}
use lug.Core.Storage.{Record, Storage}
use lug.Core.Log.{
  Durability, in_codec, Codec, Log, Folded, done, rejected, unencoded, fold, after_fold, append,
}
use lug.Core.Log.Fold.{IsSound, Drawn, Good, fold_sound-Good}

is_empty_before : {A : Type 0} (xs : List A) (y : A) (ys : List A) → is_empty (xs ++ y ∷ ys) ≡ false
is_empty_before [] y ys = refl
is_empty_before (x ∷ xs) y ys = refl

module _ {D P V S E W B F : Type 0} (r : Reducible D P V S E) (w : Storage W V B F)
    (c : Codec P B) where
  -- The loop over the patches that are left goes on from where it is; when it has stopped, it stays.
  abbrev resumed : Folded D V B E → List P → Folded D V B E
  resumed (done d records views) qs = fold r w c d records views qs
  resumed (rejected d e) qs = rejected d e
  resumed (unencoded d) qs = unencoded d

  fold-append :
      (d : D) (records : List (Record B)) (views : List V) (ps qs : List P)
      → fold r w c d records views (ps ++ qs) ≡ resumed (fold r w c d records views ps) qs
  unfolding fold
  fold-append d records views [] qs = refl
  fold-append d records views (p ∷ ps) qs = elim (Option-cases (c.encode p)) [
    | inl bad ↦ rw (bad, fold) refl
    | inr (encoded, good) ↦ elim (Result-cases (r.stage_patch d (r.stage d) p)) [
      | inr (e, refused) ↦ rw (good, refused, fold) refl
      | inl (staged, accepted) ↦
          let d' = (r.commit d staged).0 in
          elim (Result-cases (r.commit d staged).1) [
            | inr (e, failed) ↦ rw (good, accepted, failed, fold) refl
            | inl (minted, fine) ↦ elim (Option-cases minted) [
              | inl idle ↦
                  rw (good, accepted, fine, idle, fold)
                    (fold-append d' records (views ++ r.view d' ∷ []) ps qs)
              | inr (v, made) ↦
                  rw (good, accepted, fine, made, fold)
                    (fold-append d'
                      (records ++ record { version = r.view_version v; patch = encoded } ∷ [])
                      (views ++ v ∷ []) ps qs)
            ]
          ]
    ]
  ]

  append-after_fold :
      (log : Log D W) (ps : List P) (durability : Durability)
      → is_empty ps ≡ false
      → append r w c log ps durability
        ≡ after_fold r w c log (fold r w c log.contents [] [] ps) durability
  unfolding append
  append-after_fold log ps durability some_left = rw some_left refl

  fold_stops :
      (d : D) (records : List (Record B)) (views : List V) (q : P) (rest : List P)
      → c.encode q ≡ none
      → fold r w c d records views (q ∷ rest) ≡ unencoded d
  unfolding fold
  fold_stops d records views q rest bad = rw (bad, fold) refl

  -- Whatever comes before a patch that cannot be encoded, and whatever comes after it: once the patches
  -- before it have gone through the loop of `append`, the call ends there with an error. Nothing is given
  -- to the storage and the watermark stays, but memory stays ahead of it by as many versions as the
  -- patches before have minted: nothing is unwound.
  pub append-unencoded :
      {Valid : D → Type 0} (lawful : IsLawful r Valid) (log : Log D W) (ps rest : List P) (q : P)
      (durability : Durability) (d : D) (records : List (Record B)) (views : List V)
      → IsSound r w c lawful log
      → fold r w c log.contents [] [] ps ≡ done d records views
      → c.encode q ≡ none
      → let out = append r w c log (ps ++ q ∷ rest) durability in
        (out ≡ (record log { contents = d }, err in_codec))
        × Drawn c ps records
        × (version r d ≡ log.watermark + length records)
  unfolding after_fold
  append-unencoded lawful log ps rest q durability d records views h through bad =
      let (above, numbered, drawn, count) =
        subst (Good r w c lawful log.watermark (r.view log.contents) ps) through
          (fold_sound-Good r w c lawful log ps h) in
      (
        append-after_fold log (ps ++ q ∷ rest) durability (is_empty_before ps q rest)
            ∙ ap (λ f. after_fold r w c log f durability)
                (fold-append log.contents [] [] ps (q ∷ rest)
                  ∙ ap (λ f. resumed f (q ∷ rest)) through
                  ∙ fold_stops d records views q rest bad),
        drawn,
        above.risen,
      )
