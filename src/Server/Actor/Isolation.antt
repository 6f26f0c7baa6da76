-- ===== src/Server/Actor/Isolation.antt =====
-- actor.rs, `isolate`: what follows a group whose append has failed.
use lug.Prelude.{
  ◌≡◌, ◌≢◌, refl, ap, ◌∙◌, subst, inl, inr, none, List, [], ◌∷◌, length, ◌==◌, false, err, arith,
  Result-cases,
}
use lug.Core.Reducible.{Reducible, IsLawful}
use lug.Core.Storage.{Storage}
use lug.Core.Log.{Codec, LogError, Log}
use lug.Core.Log as Core
use lug.Core.Log.Fold.{IsSound}
use lug.Core.Log.Append.{Left, append-Left}
use lug.Server.Json.{Json}
use lug.Server.Actor.{Job, Actor, all_patches, strongest, commit_with, commit_one, isolate, commit}
use lug.Server.Actor.Replies.{refill-counts}

several : {A : Type 0} (x y : A) (xs : List A) → (length (x ∷ y ∷ xs) == 1) ≡ false
several x y xs = ground arith

module _ {D P V S E W B F N : Type 0} (r : Reducible D P V S E) (w : Storage W V B F)
    (c : Codec P B) where
  -- The requests, each of which comes alone.
  abbrev pub commit_each : Actor D W (Json N) → List (Job (Json N) P) → Actor D W (Json N)
  commit_each a [] = a
  commit_each a (j ∷ jobs) = commit_each (commit r w c a (j ∷ [])) jobs

  -- A request alone is never isolated.
  commit_one-eq-commit :
      (a : Actor D W (Json N)) (j : Job (Json N) P) → commit_one r w c a j ≡ commit r w c a (j ∷ [])
  unfolding commit_one commit commit_with
  commit_one-eq-commit a j =
      elim (Result-cases (Core.append r w c a.log (all_patches (j ∷ [])) j.durability).1) [
        | inl (views, fine) ↦ rw (fine, commit_with) refl
        | inr (e, bad) ↦ rw (bad, commit_with) refl
      ]

  isolate-eq-commit_each :
      (a : Actor D W (Json N)) (jobs : List (Job (Json N) P))
      → isolate r w c a jobs ≡ commit_each a jobs
  unfolding isolate
  isolate-eq-commit_each a [] = refl
  isolate-eq-commit_each a (j ∷ jobs) =
      isolate-eq-commit_each (commit_one r w c a j) jobs
      ∙ ap (λ a'. commit_each a' jobs) (commit_one-eq-commit a j)

  -- Where every patch can be encoded and the log of the actor is sound, a group of two or more requests
  -- whose append fails is handled as if each of its requests had come alone, in their order, on a log as a
  -- failed append leaves it: at the old watermark and with the old view, or, when only the flush failed,
  -- with the records of the whole group in the storage and the watermark behind them.
  pub commit-commit_each :
      {Valid : D → Type 0} (lawful : IsLawful r Valid) (a : Actor D W (Json N))
      (j k : Job (Json N) P) (jobs : List (Job (Json N) P)) (e : LogError E F)
      → ((p : P) → c.encode p ≢ none)
      → IsSound r w c lawful a.log
      → (Core.append r w c a.log (all_patches (j ∷ k ∷ jobs)) (strongest j.durability (k ∷ jobs))).1
        ≡ err e
      → (log : Log D W) × Left r w c lawful a.log
          (all_patches (j ∷ k ∷ jobs))
          (strongest j.durability (k ∷ jobs))
          log
          (err e)
        × (commit r w c a (j ∷ k ∷ jobs) ≡ commit_each (record a { log = log }) (j ∷ k ∷ jobs))
  unfolding commit commit_with
  commit-commit_each lawful a j k jobs e total h failed =
      let durability = strongest j.durability (k ∷ jobs) in
      let patches = all_patches (j ∷ k ∷ jobs) in
      let out = Core.append r w c a.log patches durability in
      (
        out.0,
        subst (Left r w c lawful a.log patches durability out.0) failed
            (append-Left r w c lawful a.log patches durability total h),
        rw (failed, several j k jobs, commit_with)
            (ap (isolate r w c _) (refill-counts (j ∷ k ∷ jobs))
              ∙ isolate-eq-commit_each _ (j ∷ k ∷ jobs)),
      )
